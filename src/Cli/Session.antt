-- ===== src/Cli/Session.antt =====
-- `connection::handle_read` of cli_server/connection.cpp: what a connection keeps between two reads,
-- and what it does with the bytes of one.
pub mod Chunks
pub mod Commands
use foo_dsp_bfir.Base.{ℕ, Bool, true, false, ◌||◌, if◌then◌else◌, List, [], ◌∷◌, ◌++◌}
use foo_dsp_bfir.Cli.Text.{Text}
use foo_dsp_bfir.Cli.Parser.{
  Command, clear, Tribool, accepted, rejected, indeterminate, State, reset_state, Parsed, parse,
}
use foo_dsp_bfir.Cli.Settings.{Settings}
use foo_dsp_bfir.Cli.Connection.{Environment, Handled, handle_command}

-- `command_parser_`, `command_`, the settings, whether the connection manager has stopped the
-- connection, and whether an exception has left `handle_read`, which then starts no other read.
pub record Connection : Type 0 where
  pub state : State
  pub command : Command
  pub settings : Settings
  pub stopped : Bool
  pub broken : Bool

-- The outcome of a read: bytes, the error `operation_aborted`, or another error.
pub data Read : Type 0 where
  received : Text → Read
  aborted failed : Read

module _ (env : Environment) where
  -- What follows the parse of the bytes, by its result. Bytes that were not read are dropped. Where
  -- an exception leaves `handle_command`, nothing is reset.
  unfoldable pub finish_read : Tribool → State → Command → Connection → Connection × List Text
  unfolding clear reset_state
  finish_read accepted st cmd c =
      let h = handle_command env cmd c.settings in
      (
        (if h.thrown
            then record {
              state = st;
              command = cmd;
              settings = h.settings;
              stopped = c.stopped || h.disconnected;
              broken = true;
            }
            else record {
              state = reset_state st;
              command = clear cmd;
              settings = h.settings;
              stopped = c.stopped || h.disconnected;
              broken = c.broken;
            }),
        h.replies,
      )
  finish_read rejected st cmd c = (record c { state = reset_state st; command = clear cmd }, [])
  finish_read indeterminate st cmd c = (record c { state = st; command = cmd }, [])

  unfoldable pub handle_read : Read → Connection → Connection × List Text
  unfolding finish_read
  handle_read (received bytes) c =
      let p = parse c.state c.command bytes in finish_read p.result p.state p.cmd c
  handle_read aborted c = (c, [])
  handle_read failed c = (record c { stopped = true }, [])

  -- A sequence of reads, with all the replies. None follows an exception.
  unfoldable pub handle_reads : List Read → Connection → Connection × List Text
  handle_reads [] c = (c, [])
  handle_reads (r ∷ rs) c =
      let (c', replies) = handle_read r c in
      let (c'', more) = handle_reads rs c' in
      if c'.broken then (c', replies) else (c'', replies ++ more)
