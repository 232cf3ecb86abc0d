-- ===== src/Cli/Session/Commands.antt =====
-- A whole session of a client of cli_server/connection.cpp: many commands, each in pieces.
use mathlib.Core.List.{flatten}
use foo_dsp_bfir.Base.{◌≡◌, Bool, if◌then◌else◌, List, [], ◌∷◌, ◌++◌, map}
use foo_dsp_bfir.Cli.Text.{Text}
use foo_dsp_bfir.Cli.Parser.{Command}
use foo_dsp_bfir.Cli.Parser.Print.{message, IsCommand}
use foo_dsp_bfir.Cli.Settings.{Settings}
use foo_dsp_bfir.Cli.Connection.{Environment}
use foo_dsp_bfir.Cli.Session.{Connection, Read, received, handle_reads}
use foo_dsp_bfir.Cli.Session.Chunks.{idle, after_command}

-- Commands as a client writes them, each with the reads that its bytes come in.
abbrev pub AreCut : List (Command × List Text) → Type 0
AreCut [] = Unit
AreCut (sent ∷ rest) = IsCommand sent.0 × (flatten sent.1 ≡ message sent.0) × AreCut rest

-- The reads of all of them.
abbrev pub reads_of : List (Command × List Text) → List Read
reads_of [] = []
reads_of (sent ∷ rest) = map received sent.1 ++ reads_of rest

module _ (env : Environment) where
  -- `after_command` of one command after the other, up to the first that an exception leaves.
  abbrev pub after_commands : List (Command × List Text) → Settings → Bool → Connection × List Text
  after_commands [] s stopped = (idle s stopped, [])
  after_commands (sent ∷ rest) s stopped =
      let (c, replies) = after_command env sent.0 s stopped in
      let (c', more) = after_commands rest c.settings c.stopped in
      if c.broken then (c, replies) else (c', replies ++ more)

  -- Reads, and then other reads.
  abbrev Then : List Read → Connection × List Text → Connection × List Text
  Then rs before =
      let (c, more) = handle_reads env rs before.0 in
      if before.0.broken then before else (c, before.1 ++ more)
