-- ===== src/Cli/Parser/Print.antt =====
-- The parser of cli_server/ reads what a client writes.
use foo_dsp_bfir.Base.{
  ℕ, ◌<◌, ◌≡◌, ◌≢◌, refl, ap, ◌∙◌, arith, [], ◌∷◌, ◌++◌, append-nil, append_assoc,
}
use foo_dsp_bfir.Cli.Text.{Text, AllPlain, AllWord}
use foo_dsp_bfir.Cli.Parser.{
  cmd_term, cmd_delim, Command, Tribool, accepted, rejected, indeterminate, State, in_op_start,
  in_op, in_data_start, in_data, consume, Parsed, parse, push_op, push_data,
}

-- A command as a client writes it: the operation, the data behind a space if there are any, and the
-- end.
abbrev pub message_data : Text → Text
message_data [] = cmd_term ∷ []
message_data (d ∷ ds) = cmd_delim ∷ d ∷ (ds ++ cmd_term ∷ [])

abbrev pub message : Command → Text
message cmd = cmd.cmd_op ++ message_data cmd.cmd_data

-- The operation is not empty, and behind its first character has no space and no end; the data have
-- no end behind their first character. All are characters.
abbrev pub IsOp : Text → Type 0
IsOp [] = ⊥
IsOp (x ∷ xs) = (x < 128) × AllWord xs

abbrev pub IsData : Text → Type 0
IsData [] = Unit
IsData (x ∷ xs) = (x < 128) × AllPlain xs

abbrev pub IsCommand : Command → Type 0
IsCommand cmd = IsOp cmd.cmd_op × IsData cmd.cmd_data

abbrev pub empty_command : Command
empty_command = record { cmd_op = []; cmd_data = [] }

abbrev pub final_state : Text → State
final_state [] = in_op
final_state (d ∷ ds) = in_data

push_eq : (a : Text) (x : ℕ) (xs : Text) → (a ++ (x ∷ [])) ++ xs ≡ a ++ x ∷ xs
push_eq a x xs = append_assoc a (x ∷ []) xs

pub consume-word :
    (cmd : Command) (x : ℕ)
    → x < 128
    → x ≢ 13
    → x ≢ 32
    → consume in_op cmd x ≡ (indeterminate, in_op, push_op cmd x)
unfolding consume
consume-word cmd x small no_end no_space = ground arith

pub consume-plain :
    (cmd : Command) (x : ℕ)
    → x < 128
    → x ≢ 13
    → consume in_data cmd x ≡ (indeterminate, in_data, push_data cmd x)
unfolding consume
consume-plain cmd x small no_end = ground arith

pub consume-op_start :
    (cmd : Command) (x : ℕ)
    → x < 128
    → consume in_op_start cmd x ≡ (indeterminate, in_op, push_op cmd x)
unfolding consume
consume-op_start cmd x small = ground arith

pub consume-data_start :
    (cmd : Command) (x : ℕ)
    → x < 128
    → consume in_data_start cmd x ≡ (indeterminate, in_data, push_data cmd x)
unfolding consume
consume-data_start cmd x small = ground arith

unfoldable pub after : Tribool × State × Command → Text → Parsed
after r bs = elim r.0 as (λ x. Parsed) [
  | accepted ↦ record { result = accepted; state = r.1; cmd = r.2; rest = bs }
  | rejected ↦ record { result = rejected; state = r.1; cmd = r.2; rest = bs }
  | indeterminate ↦ parse r.1 r.2 bs
]

pub parse-next :
    (st st' : State) (cmd cmd' : Command) (b : ℕ) (bs : Text)
    → consume st cmd b ≡ (indeterminate, st', cmd')
    → parse st cmd (b ∷ bs) ≡ parse st' cmd' bs
unfolding parse after
parse-next st st' cmd cmd' b bs e = ap (λ (r : Tribool × State × Command). after r bs) e

parse-data :
    (a d ds rest : Text)
    → AllPlain ds
    → parse in_data (record { cmd_op = a; cmd_data = d }) (ds ++ cmd_term ∷ rest) ≡ record {
      result = accepted;
      state = in_data;
      cmd = record { cmd_op = a; cmd_data = d ++ ds };
      rest = rest;
    }
unfolding parse consume
parse-data a d [] rest plain = rw append-nil refl
parse-data a d (x ∷ xs) rest (small, no_end, plain) =
    let cmd : Command = record { cmd_op = a; cmd_data = d } in
    parse-next in_data in_data cmd (push_data cmd x) x (xs ++ cmd_term ∷ rest)
      (consume-plain cmd x small no_end)
    ∙ parse-data a (d ++ (x ∷ [])) xs rest plain
    ∙ rw (push_eq d x xs) refl

parse-word :
    (a w t : Text)
    → AllWord w
    → parse in_op (record { cmd_op = a; cmd_data = [] }) (w ++ t)
      ≡ parse in_op (record { cmd_op = a ++ w; cmd_data = [] }) t
parse-word a [] t word = rw append-nil refl
parse-word a (x ∷ xs) t (small, no_end, no_space, word) =
    let cmd : Command = record { cmd_op = a; cmd_data = [] } in
    parse-next in_op in_op cmd (push_op cmd x) x (xs ++ t)
      (consume-word cmd x small no_end no_space)
    ∙ parse-word (a ++ (x ∷ [])) xs t word
    ∙ rw (push_eq a x xs) refl

parse-tail :
    (a d rest : Text)
    → IsData d
    → parse in_op (record { cmd_op = a; cmd_data = [] }) (message_data d ++ rest) ≡ record {
      result = accepted;
      state = final_state d;
      cmd = record { cmd_op = a; cmd_data = d };
      rest = rest;
    }
unfolding parse consume
parse-tail a [] rest h = refl
parse-tail a (d ∷ ds) rest (small, plain) =
    let cmd : Command = record { cmd_op = a; cmd_data = [] } in
    parse-next in_data_start in_data cmd (push_data cmd d) d ((ds ++ cmd_term ∷ []) ++ rest)
      (consume-data_start cmd d small)
    ∙ rw (append_assoc ds (cmd_term ∷ []) rest) (parse-data a (d ∷ []) ds rest plain)

-- A command that can be written is read: from the start, with anything behind it, the parser accepts
-- exactly its operation and its data, and leaves what is behind.
pub parse-message :
    (cmd : Command) (rest : Text)
    → IsCommand cmd
    → parse in_op_start empty_command (message cmd ++ rest)
      ≡ record { result = accepted; state = final_state cmd.cmd_data; cmd = cmd; rest = rest }
parse-message cmd rest (op, dat) = go cmd.cmd_op cmd.cmd_data op dat
  where
    go :
        (o d : Text)
        → IsOp o
        → IsData d
        → parse in_op_start empty_command ((o ++ message_data d) ++ rest) ≡ record {
          result = accepted;
          state = final_state d;
          cmd = record { cmd_op = o; cmd_data = d };
          rest = rest;
        }
    go [] d op dat = absurd op
    go (x ∷ w) d (small, word) dat =
        parse-next in_op_start in_op empty_command (push_op empty_command x) x
          ((w ++ message_data d) ++ rest) (consume-op_start empty_command x small)
        ∙ rw (append_assoc w (message_data d) rest)
            (parse-word (x ∷ []) w (message_data d ++ rest) word ∙ parse-tail (x ∷ w) d rest dat)
