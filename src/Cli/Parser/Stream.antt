-- ===== src/Cli/Parser/Stream.antt =====
-- `parse` of cli_server/command_parser.hpp on a stream that arrives in pieces.
use foo_dsp_bfir.Base.{◌≡◌, refl, [], ◌∷◌, ◌++◌}
use foo_dsp_bfir.Cli.Text.{Text}
use foo_dsp_bfir.Cli.Parser.{
  Command, accepted, rejected, indeterminate, State, consume, Parsed, parse,
}

-- Parsing goes on where it stopped: when the first piece leaves the result open, the second one
-- is parsed from the state and the command that it left.
abbrev pub resumed : Parsed → Text → Parsed
resumed p ys = elim p.result [
  | accepted ↦ record p { rest = p.rest ++ ys }
  | rejected ↦ record p { rest = p.rest ++ ys }
  | indeterminate ↦ parse p.state p.cmd ys
]

-- Two pieces of a stream are parsed as the stream itself: from any state, the parse of both
-- together is the parse of the first, taken up with the second if the result is still open, and
-- otherwise with the second among the bytes not read.
pub parse-append :
    (st : State) (cmd : Command) (xs ys : Text)
    → parse st cmd (xs ++ ys) ≡ resumed (parse st cmd xs) ys
unfolding parse
parse-append st cmd [] ys = refl
parse-append st cmd (b ∷ bs) ys =
    let (result, st', cmd') = consume st cmd b in
    elim result
      as (λ r.
        elim r as (λ x. Parsed) [
          | accepted ↦ record { result = accepted; state = st'; cmd = cmd'; rest = bs ++ ys }
          | rejected ↦ record { result = rejected; state = st'; cmd = cmd'; rest = bs ++ ys }
          | indeterminate ↦ parse st' cmd' (bs ++ ys)
        ]
        ≡ resumed
            (elim r as (λ x. Parsed) [
              | accepted ↦ record { result = accepted; state = st'; cmd = cmd'; rest = bs }
              | rejected ↦ record { result = rejected; state = st'; cmd = cmd'; rest = bs }
              | indeterminate ↦ parse st' cmd' bs
            ])
            ys) [ accepted ↦ refl | rejected ↦ refl | indeterminate ↦ parse-append st' cmd' bs ys ]
