-- ===== src/Cli/Parser/Accepted.antt =====
-- What the parser of cli_server/ accepts is a command that a client can write.
use foo_dsp_bfir.Base.{
  ℕ, ◌<◌, ◌≡◌, refl, sym, ap, ap₂, subst, ◌∙◌, arith, [], ◌∷◌, ◌++◌, append-nil, append_assoc,
  dec_lt, ℕ_discrete,
}
use foo_dsp_bfir.Cli.Text.{Text, AllPlain, AllWord}
use foo_dsp_bfir.Cli.Parser.{
  cmd_term, Command, Tribool, accepted, rejected, State, in_op_start, in_op, in_data_start, in_data,
  consume, Parsed, parse, push_op, push_data,
}
use foo_dsp_bfir.Cli.Parser.Print.{
  message_data, message, IsData, IsCommand, empty_command, consume-word, consume-plain,
  consume-op_start, consume-data_start, parse-next, after,
}

rejected_absurd {ℓ} :
    {A : Type ℓ} (st : State) (cmd : Command) (b : ℕ) (bs : Text) (p : Parsed)
    → consume st cmd b ≡ (rejected, st, cmd)
    → parse st cmd (b ∷ bs) ≡ p
    → p.result ≡ accepted
    → A
unfolding parse
rejected_absurd st cmd b bs p c e h = absurd (
    ground
      (arith, ap (λ (r : Tribool × State × Command). r.0) c, ap (λ (q : Parsed). q.result) e, h))

pub open_absurd {ℓ} :
    {A : Type ℓ} (st : State) (cmd : Command) (p : Parsed)
    → parse st cmd [] ≡ p
    → p.result ≡ accepted
    → A
unfolding parse
open_absurd st cmd p e h = absurd (ground (arith, ap (λ (q : Parsed). q.result) e, h))

-- The step of the last byte.
parse-last :
    (st : State) (cmd : Command) (b : ℕ) (bs : Text) (p : Parsed)
    → consume st cmd b ≡ (accepted, st, cmd)
    → parse st cmd (b ∷ bs) ≡ p
    → (p.cmd ≡ cmd) × (p.rest ≡ bs)
unfolding after parse
parse-last st cmd b bs p c e =
    let q : record { result = accepted; state = st; cmd = cmd; rest = bs } ≡ p =
      ap (λ (r : Tribool × State × Command). after r bs) (sym c) ∙ e in
    (ap (λ (x : Parsed). x.cmd) (sym q), ap (λ (x : Parsed). x.rest) (sym q))

data-accepted :
    (a d bs : Text) (p : Parsed)
    → parse in_data (record { cmd_op = a; cmd_data = d }) bs ≡ p
    → p.result ≡ accepted
    → (ds : Text) × AllPlain ds
      × (p.cmd ≡ record { cmd_op = a; cmd_data = d ++ ds })
      × (bs ≡ ds ++ cmd_term ∷ p.rest)
unfolding consume
data-accepted a d [] p e h = open_absurd in_data _ p e h
data-accepted a d (b ∷ bs) p e h =
    let cmd : Command = record { cmd_op = a; cmd_data = d } in
    elim (dec_lt b 128) [
      | no large ↦ rejected_absurd in_data cmd b bs p (ground arith) e h
      | yes small ↦ elim (ℕ_discrete b 13) [
        | yes at ↦
            let (c, t) = parse-last in_data cmd b bs p (ground arith) e in
            ([], tt, c ∙ rw append-nil refl, ap₂ ◌∷◌ at (sym t))
        | no ne ↦
            let step =
              parse-next in_data in_data cmd (push_data cmd b) b bs
                (consume-plain cmd b small ne) in
            let (ds, plain, c, t) = data-accepted a (d ++ (b ∷ [])) bs p (sym step ∙ e) h in
            (
              b ∷ ds,
              (small, ne, plain),
              c ∙ rw (append_assoc d (b ∷ []) ds) refl,
              ap (λ (r : Text). b ∷ r) t,
            )
      ]
    ]

data_start-accepted :
    (a bs : Text) (p : Parsed)
    → parse in_data_start (record { cmd_op = a; cmd_data = [] }) bs ≡ p
    → p.result ≡ accepted
    → (d : ℕ) × (ds : Text) × (d < 128)
      × AllPlain ds
      × (p.cmd ≡ record { cmd_op = a; cmd_data = d ∷ ds })
      × (bs ≡ d ∷ (ds ++ cmd_term ∷ p.rest))
unfolding consume
data_start-accepted a [] p e h = open_absurd in_data_start _ p e h
data_start-accepted a (b ∷ bs) p e h =
    let cmd : Command = record { cmd_op = a; cmd_data = [] } in
    elim (dec_lt b 128) [
      | no large ↦ rejected_absurd in_data_start cmd b bs p (ground arith) e h
      | yes small ↦
          let step =
            parse-next in_data_start in_data cmd (push_data cmd b) b bs
              (consume-data_start cmd b small) in
          let (ds, plain, c, t) = data-accepted a (b ∷ []) bs p (sym step ∙ e) h in
          (b, ds, small, plain, c, ap (λ (r : Text). b ∷ r) t)
    ]

op-accepted :
    (a bs : Text) (p : Parsed)
    → parse in_op (record { cmd_op = a; cmd_data = [] }) bs ≡ p
    → p.result ≡ accepted
    → (w d : Text) × AllWord w
      × IsData d
      × (p.cmd ≡ record { cmd_op = a ++ w; cmd_data = d })
      × (bs ≡ w ++ message_data d ++ p.rest)
unfolding consume
op-accepted a [] p e h = open_absurd in_op _ p e h
op-accepted a (b ∷ bs) p e h =
    let cmd : Command = record { cmd_op = a; cmd_data = [] } in
    elim (ℕ_discrete b 32) [
      | yes space ↦
          let step = parse-next in_op in_data_start cmd cmd b bs (ground arith) in
          let (d, ds, small, plain, c, t) = data_start-accepted a bs p (sym step ∙ e) h in
          (
            [],
            d ∷ ds,
            tt,
            (small, plain),
            c ∙ rw append-nil refl,
            ap₂ ◌∷◌ space (t ∙ rw (append_assoc ds (cmd_term ∷ []) p.rest) refl),
          )
      | no no_space ↦ elim (dec_lt b 128) [
        | no large ↦ rejected_absurd in_op cmd b bs p (ground arith) e h
        | yes small ↦ elim (ℕ_discrete b 13) [
          | yes at ↦
              let (c, t) = parse-last in_op cmd b bs p (ground arith) e in
              ([], [], tt, tt, c ∙ rw append-nil refl, ap₂ ◌∷◌ at (sym t))
          | no ne ↦
              let step =
                parse-next in_op in_op cmd (push_op cmd b) b bs
                  (consume-word cmd b small ne no_space) in
              let (w, d, word, dat, c, t) = op-accepted (a ++ (b ∷ [])) bs p (sym step ∙ e) h in
              (
                b ∷ w,
                d,
                (small, ne, no_space, word),
                dat,
                c ∙ rw (append_assoc a (b ∷ []) w) refl,
                ap (λ (r : Text). b ∷ r) t,
              )
        ]
      ]
    ]

-- What the parser accepts from its start is a command as a client writes it, with the bytes that it
-- leaves behind it: the operation is not empty, and neither part holds the end where it would be
-- taken for the end.
pub parse-accepted :
    (bs : Text)
    → (parse in_op_start empty_command bs).result ≡ accepted
    → let p = parse in_op_start empty_command bs in IsCommand p.cmd × (bs ≡ message p.cmd ++ p.rest)
unfolding consume
parse-accepted [] h = open_absurd in_op_start _ _ refl h
parse-accepted (b ∷ bs) h =
    let p = parse in_op_start empty_command (b ∷ bs) in
    elim (dec_lt b 128) [
      | no large ↦ rejected_absurd in_op_start empty_command b bs p (ground arith) refl h
      | yes small ↦
          let step =
            parse-next in_op_start in_op empty_command (push_op empty_command b) b bs
              (consume-op_start empty_command b small) in
          let (w, d, word, dat, c, t) = op-accepted (b ∷ []) bs p (sym step) h in
          subst (λ (m : Command). IsCommand m × (b ∷ bs ≡ message m ++ p.rest)) (sym c)
            (((small, word), dat), ap (λ (r : Text). b ∷ r) t)
    ]
