-- ===== src/Cli/Parser.antt =====
-- cli_server/command_parser.cpp and command_parser.hpp: the state machine that takes a command from
-- the bytes of a connection, and `command` of cli_server/command.cpp.
pub mod Stream
pub mod Print
pub mod Accepted
use foo_dsp_bfir.Base.{
  ℕ, ◌-◌, Bool, true, false, List, [], ◌∷◌, ◌++◌, ltb, ◌==◌, ◌&&◌, not, if◌then◌else◌, ℤ, pos,
  negsuc, leb_ℤ,
}
use foo_dsp_bfir.Cli.Text.{Text}

abbrev pub cmd_delim : ℕ
cmd_delim = 32

abbrev pub cmd_term : ℕ
cmd_term = 13

-- `struct command`: the members `op` and `data`.
pub record Command : Type 0 where
  pub cmd_op : Text
  pub cmd_data : Text

unfoldable pub clear : Command → Command
clear cmd = record { cmd_op = []; cmd_data = [] }

-- `boost::tribool`
pub data Tribool : Type 0 where
  accepted rejected indeterminate : Tribool

-- The `enum state` of the parser.
pub data State : Type 0 where
  in_op_start in_op in_data_start in_data : State

-- A byte as the `char` that is promoted to `int`: `char` is signed.
unfoldable pub signed_char : ℕ → ℤ
signed_char b = if ltb b 128 then pos b else negsuc (255 - b)

unfoldable pub is_char : ℤ → Bool
is_char c = leb_ℤ (pos 0) c && leb_ℤ c (pos 127)

unfoldable pub reset_state : State → State
reset_state st = in_op_start

abbrev pub push_op : Command → ℕ → Command
push_op cmd b = record cmd { cmd_op = cmd.cmd_op ++ (b ∷ []) }

abbrev pub push_data : Command → ℕ → Command
push_data cmd b = record cmd { cmd_data = cmd.cmd_data ++ (b ∷ []) }

unfoldable pub consume : State → Command → ℕ → Tribool × State × Command
unfolding is_char signed_char
consume in_op_start cmd input =
    if not (is_char (signed_char input))
    then (rejected, in_op_start, cmd)
    else (indeterminate, in_op, push_op cmd input)
consume in_op cmd input =
    if input == cmd_delim
    then (indeterminate, in_data_start, cmd)
    else if not (is_char (signed_char input))
    then (rejected, in_op, cmd)
    else if input == cmd_term
    then (accepted, in_op, cmd)
    else (indeterminate, in_op, push_op cmd input)
consume in_data_start cmd input =
    if not (is_char (signed_char input))
    then (rejected, in_data_start, cmd)
    else (indeterminate, in_data, push_data cmd input)
consume in_data cmd input =
    if not (is_char (signed_char input))
    then (rejected, in_data, cmd)
    else if input == cmd_term
    then (accepted, in_data, cmd)
    else (indeterminate, in_data, push_data cmd input)

-- What `parse` leaves: its result, the parser's state, the command, and the bytes it did not read.
pub record Parsed : Type 0 where
  pub result : Tribool
  pub state : State
  pub cmd : Command
  pub rest : Text

unfoldable pub parse : State → Command → Text → Parsed
parse st cmd [] = record { result = indeterminate; state = st; cmd = cmd; rest = [] }
parse st cmd (b ∷ bs) =
    let (result, st', cmd') = consume st cmd b in
    elim result [
      | accepted ↦ record { result = accepted; state = st'; cmd = cmd'; rest = bs }
      | rejected ↦ record { result = rejected; state = st'; cmd = cmd'; rest = bs }
      | indeterminate ↦ parse st' cmd' bs
    ]
