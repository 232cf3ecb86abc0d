-- ===== src/Cli/Session/Chunks.antt =====
-- A command of a client in pieces: however the network cuts it, `handle_read` of
-- cli_server/connection.cpp handles it once.
use mathlib.Core.List.{flatten}
use foo_dsp_bfir.Base.{
  ◌≡◌, refl, sym, ap, ap₂, subst, ◌∙◌, arith, Bool, true, false, ◌||◌, if◌then◌else◌, Bool-cases,
  inl, inr, List, [], ◌∷◌, ◌++◌, map, append-nil,
}
use foo_dsp_bfir.Cli.Text.{Text}
use foo_dsp_bfir.Cli.Parser.{
  Command, clear, Tribool, accepted, rejected, indeterminate, State, in_op_start, reset_state,
  Parsed, parse,
}
use foo_dsp_bfir.Cli.Parser.Stream.{resumed, parse-append}
use foo_dsp_bfir.Cli.Parser.Accepted.{open_absurd}
use foo_dsp_bfir.Cli.Parser.Print.{final_state, message, IsCommand, empty_command, parse-message}
use foo_dsp_bfir.Cli.Settings.{Settings}
use foo_dsp_bfir.Cli.Connection.{Environment, handle_command}
use foo_dsp_bfir.Cli.Session.{Connection, received, finish_read, handle_read, handle_reads}

-- A connection that waits for a command.
abbrev pub idle : Settings → Bool → Connection
idle s stopped = record {
  state = in_op_start;
  command = empty_command;
  settings = s;
  stopped = stopped;
  broken = false;
}

module _ (env : Environment) where
  -- What a connection is after one command, accepted in a state of the parser: it waits for the next
  -- one, or an exception has left it with the command and the parser in that state.
  abbrev pub left_by : State → Command → Settings → Bool → Connection × List Text
  left_by st cmd s stopped =
      let h = handle_command env cmd s in
      (
        (if h.thrown
            then record {
              state = st;
              command = cmd;
              settings = h.settings;
              stopped = stopped || h.disconnected;
              broken = true;
            }
            else idle h.settings (stopped || h.disconnected)),
        h.replies,
      )

  abbrev pub after_command : Command → Settings → Bool → Connection × List Text
  after_command cmd s stopped = left_by (final_state cmd.cmd_data) cmd s stopped

  nothing_left :
      (chunks : List Text) (s : Settings) (stopped : Bool)
      → flatten chunks ≡ []
      → handle_reads env (map received chunks) (idle s stopped) ≡ (idle s stopped, [])
  unfolding handle_reads handle_read parse flatten
  nothing_left [] s stopped e = refl
  nothing_left ([] ∷ cs) s stopped e = rw (nothing_left cs s stopped e) refl
  nothing_left ((b ∷ bs) ∷ cs) s stopped e = absurd (ground (arith, e))

  append-is-nil : (xs ys : Text) → xs ++ ys ≡ [] → ys ≡ []
  append-is-nil [] ys e = e
  append-is-nil (x ∷ xs) ys e = absurd (ground (arith, e))

  abbrev Final : Parsed → Command → Type 0
  Final p cmd =
      (p.result ≡ accepted) × (p.cmd ≡ cmd) × (p.rest ≡ []) × (p.state ≡ final_state cmd.cmd_data)

  -- The reads of `cs` after one that left the parser's result, state and command.
  abbrev Onward : List Text → Tribool → State → Command → Connection → Connection × List Text
  Onward cs r st cmd conn =
      let (next, out) = finish_read env r st cmd conn in
      let (last, more) = handle_reads env (map received cs) next in
      if next.broken then (next, out) else (last, out ++ more)

  -- A read that accepts a command.
  accepted-after :
      (cs : List Text) (st : State) (sofar : Command) (conn : Connection)
      → conn.broken ≡ false
      → flatten cs ≡ []
      → Onward cs accepted st sofar conn ≡ left_by st sofar conn.settings conn.stopped
  unfolding finish_read clear reset_state
  accepted-after cs st sofar conn whole nil =
      let h = handle_command env sofar conn.settings in
      let quiet = nothing_left cs h.settings (conn.stopped || h.disconnected) nil in
      elim (Bool-cases h.thrown) [
        | inl e ↦ rw e refl
        | inr e ↦ rw (e, whole, quiet, append-nil) refl
      ]

  finish-handled :
      (cs : List Text) (r : Tribool) (st : State) (sofar : Command) (rest : Text)
      (conn : Connection) (cmd : Command)
      → conn.broken ≡ false
      → ((st' : State) (sofar' : Command)
          → Final (parse st' sofar' (flatten cs)) cmd
          → handle_reads env (map received cs) (record conn { state = st'; command = sofar' })
            ≡ after_command cmd conn.settings conn.stopped)
      → Final
          (resumed (record { result = r; state = st; cmd = sofar; rest = rest }) (flatten cs))
          cmd
      → Onward cs r st sofar conn ≡ after_command cmd conn.settings conn.stopped
  unfolding finish_read
  finish-handled cs accepted st sofar rest conn cmd whole ih (a, same, nil, at_end) =
      accepted-after cs st sofar conn whole (append-is-nil rest (flatten cs) nil)
      ∙ ap₂ (λ (t : State) (m : Command). left_by t m conn.settings conn.stopped) at_end same
  finish-handled cs rejected st sofar rest conn cmd whole ih (a, same, nil, at_end) =
      absurd (ground (arith, a))
  finish-handled cs indeterminate st sofar rest conn cmd whole ih e =
      let next : Connection = record conn { state = st; command = sofar } in
      let later = handle_reads env (map received cs) next in
      ap (λ (b : Bool). if b then (next, []) else (later.0, later.1)) whole ∙ ih st sofar e

  chunks-handled :
      (chunks : List Text) (st : State) (sofar cmd : Command) (s : Settings) (stopped : Bool)
      → Final (parse st sofar (flatten chunks)) cmd
      → handle_reads env
          (map received chunks)
          (record { state = st; command = sofar; settings = s; stopped = stopped; broken = false })
        ≡ after_command cmd s stopped
  unfolding handle_reads handle_read flatten
  chunks-handled [] st sofar cmd s stopped (a, same, nil, at_end) = open_absurd st sofar _ refl a
  chunks-handled (c ∷ cs) st sofar cmd s stopped e =
      let p = parse st sofar c in
      finish-handled cs p.result p.state p.cmd p.rest
        (record { state = st; command = sofar; settings = s; stopped = stopped; broken = false })
        cmd refl (λ st' sofar' e'. chunks-handled cs st' sofar' cmd s stopped e')
        (subst (λ (q : Parsed). Final q cmd) (parse-append st sofar c (flatten cs)) e)

  -- The bytes of a command, in any number of reads, some of them empty: a connection that waits for
  -- a command handles the command once, sends the replies of that and no others, and waits again;
  -- where an exception leaves the command, it keeps the command and the end state of the parser, and
  -- reads no more.
  pub chunks-message :
      (cmd : Command) (chunks : List Text) (s : Settings) (stopped : Bool)
      → IsCommand cmd
      → flatten chunks ≡ message cmd
      → handle_reads env (map received chunks) (idle s stopped) ≡ after_command cmd s stopped
  chunks-message cmd chunks s stopped good whole =
      let e =
        ap (parse in_op_start empty_command) (whole ∙ sym (append-nil (message cmd)))
        ∙ parse-message cmd [] good in
      chunks-handled chunks in_op_start empty_command cmd s stopped (
        ap (λ (p : Parsed). p.result) e,
        ap (λ (p : Parsed). p.cmd) e,
        ap (λ (p : Parsed). p.rest) e,
        ap (λ (p : Parsed). p.state) e,
      )
