-- ===== src/Brutefir/Delay/Ring.antt =====
-- The ring of full-sized buffers of brutefir/delay.cpp as a queue of samples.
use foo_dsp_bfir.Base.{
  ℕ, suc, ◌+◌, ◌-◌, ◌<◌, ◌≤◌, ◌≡◌, refl, sym, ap, ap₂, ◌∙◌, arith, true, false, ◌==◌, if◌then◌else◌,
  List, ◌++◌, take, drop, length, length-append, length-take, length-drop, take_all,
  take-append-drop, drop_all, take-append_left, append_assoc, update, update_self, update_ne,
  ℕ_discrete,
}
use foo_dsp_bfir.Brutefir.Delay.Blocks.{wrap, blocks, blocks-snoc, blocks-update, next_start}
use foo_dsp_bfir.Brutefir.Delay.{DelayBuffer, update_delay_buffer}

module _ {A : Type 0} where
  -- The buffers are filled, and there are at least two of them.
  pub record IsRing (db : DelayBuffer A) : Type 0 where
    pub several : 2 ≤ db.n_fbufs
    pub current : db.curbuf < db.n_fbufs
    pub rest : db.n_rest < db.fragsize
    pub room : db.n_rest ≤ length db.rbuf
    pub full : (i : ℕ) → i < db.n_fbufs → length (db.fbufs i) ≡ db.fragsize

  -- The samples that are under way, the oldest first.
  unfoldable pub waiting : DelayBuffer A → List A
  waiting db = take db.n_rest db.rbuf ++ blocks db.n_fbufs db.fbufs (db.n_fbufs - 1) (db.curbuf + 1)

  abbrev last_of : DelayBuffer A → ℕ
  last_of db = wrap db.n_fbufs (db.curbuf + 1)

  -- The samples under way start with the rest buffer and the last buffer of the ring.
  waiting-first :
      (db : DelayBuffer A)
      → IsRing db
      → waiting db
        ≡ take db.n_rest db.rbuf
          ++ (db.fbufs (last_of db) ++ blocks db.n_fbufs db.fbufs (db.n_fbufs - 2) (db.curbuf + 2))
  unfolding waiting
  waiting-first db ring =
      let more = ring.several in
      ap (λ (k : ℕ). take db.n_rest db.rbuf ++ blocks db.n_fbufs db.fbufs k (db.curbuf + 1))
        {x = db.n_fbufs - 1} {y = suc (db.n_fbufs - 2)} (omega arith)
      ∙ ap
          (λ (i : ℕ).
            take db.n_rest db.rbuf
            ++ (db.fbufs (last_of db) ++ blocks db.n_fbufs db.fbufs (db.n_fbufs - 2) i))
          {x = db.curbuf + 1 + 1} (omega arith)

  -- The buffers behind the last one, once the current one is written.
  blocks-written :
      (db : DelayBuffer A) (buf : List A)
      → IsRing db
      → blocks db.n_fbufs
          (update db.fbufs db.curbuf buf)
          (db.n_fbufs - 1)
          ((if db.curbuf + 1 == db.n_fbufs then 0 else db.curbuf + 1) + 1)
        ≡ blocks db.n_fbufs db.fbufs (db.n_fbufs - 2) (db.curbuf + 2) ++ buf
  blocks-written db buf ring =
      let n = db.n_fbufs in
      let c = db.curbuf in
      let F = update db.fbufs c buf in
      let more = ring.several in
      let inside = ring.current in
      next_start n F (n - 1) c inside (omega arith)
      ∙ ap (λ (k : ℕ). blocks n F k (c + 2)) {x = n - 1} {y = suc (n - 2)} (omega arith)
      ∙ blocks-snoc n F (n - 2) (c + 2)
      ∙ ap₂ ◌++◌
          (blocks-update n db.fbufs c buf (n - 2) (c + 2)
            (λ j low high e. absurd (ground (arith, e))))
          (ap F {y = c} (ground arith) ∙ update_self db.fbufs c buf)

  abbrev next_of : DelayBuffer A → ℕ
  next_of db = if db.curbuf + 1 == db.n_fbufs then 0 else db.curbuf + 1

  -- The rest buffer after a step, `L` the last buffer of the ring.
  abbrev rest_of : DelayBuffer A → List A
  rest_of db =
      if db.n_rest == 0
      then db.rbuf
      else take db.n_rest (drop (db.fragsize - db.n_rest) (db.fbufs (last_of db)))
        ++ drop db.n_rest db.rbuf

  rest-eq :
      (db : DelayBuffer A)
      → IsRing db
      → (take db.n_rest (rest_of db) ≡ drop (db.fragsize - db.n_rest) (db.fbufs (last_of db)))
        × (db.n_rest ≤ length (rest_of db))
  rest-eq db ring =
      let r = db.n_rest in
      let L = db.fbufs (last_of db) in
      let k = db.fragsize - r in
      let inside = ring.current in
      let small = ring.rest in
      let whole : length L ≡ db.fragsize = ring.full (last_of db) (ground arith) in
      elim (ℕ_discrete r 0) [
        | yes none_left ↦
            let test : (r == 0) ≡ true = ground arith in
            (
              ap (λ (n : ℕ). take n (rest_of db)) none_left ∙ sym (drop_all k L (omega arith)),
              omega arith,
            )
        | no some_left ↦
            let test : (r == 0) ≡ false = ground arith in
            let tail : take r (drop k L) ≡ drop k L =
              take_all r (drop k L) (omega (arith, length-drop k L)) in
            rw (test, tail)
              (
                take-append_left r (drop k L) (drop r db.rbuf) (omega (arith, length-drop k L)),
                omega (arith, length-append (drop k L) (drop r db.rbuf), length-drop k L),
              )
      ]

  -- The step with the current and the last buffer told apart.
  update_delay_buffer-eq :
      (db : DelayBuffer A) (buf : List A)
      → IsRing db
      → update_delay_buffer db buf ≡ (
        record db { fbufs = update db.fbufs db.curbuf buf; rbuf = rest_of db; curbuf = next_of db },
        take db.n_rest db.rbuf ++ take (db.fragsize - db.n_rest) (db.fbufs (last_of db)),
      )
  unfolding update_delay_buffer
  update_delay_buffer-eq db buf ring =
      let more = ring.several in
      let inside = ring.current in
      let index : (if db.curbuf == db.n_fbufs - 1 then 0 else db.curbuf + 1) ≡ last_of db =
        ground arith in
      let lastbuf : update db.fbufs db.curbuf buf (last_of db) ≡ db.fbufs (last_of db) =
        update_ne db.fbufs db.curbuf (last_of db) buf (λ e. absurd (ground (arith, e))) in
      rw (index, lastbuf) refl

  halves_joined :
      (r a b q buf : List A) → (r ++ a) ++ (b ++ (q ++ buf)) ≡ (r ++ ((a ++ b) ++ q)) ++ buf
  halves_joined r a b q buf =
      append_assoc r a (b ++ (q ++ buf))
      ∙ ap (λ (m : List A). r ++ m)
          (sym (append_assoc a b (q ++ buf)) ∙ sym (append_assoc (a ++ b) q buf))
      ∙ sym (append_assoc r ((a ++ b) ++ q) buf)

  in_order :
      (db : DelayBuffer A) (buf : List A)
      → IsRing db
      → let L = db.fbufs (last_of db) in
        let k = db.fragsize - db.n_rest in
        (take db.n_rest db.rbuf ++ take k L)
          ++ waiting (record db {
            fbufs = update db.fbufs db.curbuf buf;
            rbuf = rest_of db;
            curbuf = next_of db;
          })
        ≡ waiting db ++ buf
  unfolding waiting
  in_order db buf ring =
      let L = db.fbufs (last_of db) in
      let k = db.fragsize - db.n_rest in
      let Q = blocks db.n_fbufs db.fbufs (db.n_fbufs - 2) (db.curbuf + 2) in
      let r = take db.n_rest db.rbuf in
      rw (blocks-written db buf ring, (rest-eq db ring).0)
        (halves_joined r (take k L) (drop k L) Q buf
          ∙ ap (λ (m : List A). (r ++ (m ++ Q)) ++ buf) (take-append-drop k L)
          ∙ ap (λ (w : List A). w ++ buf) (sym (waiting-first db ring)))

  -- One buffer through the ring: what comes out, and then the samples that are under way, are the
  -- ones that were under way and then those of the buffer, in order and with none lost; so each
  -- sample is delayed by the number of samples under way. A full buffer comes out, and the ring is
  -- well formed again. The ring has at least two buffers.
  pub update_delay_buffer_lem :
      (db : DelayBuffer A) (buf : List A)
      → IsRing db
      → length buf ≡ db.fragsize
      → let (db', out) = update_delay_buffer db buf in
        (out ++ waiting db' ≡ waiting db ++ buf) × (length out ≡ db.fragsize) × IsRing db'
  update_delay_buffer_lem db buf ring whole =
      let L = db.fbufs (last_of db) in
      let k = db.fragsize - db.n_rest in
      let inside = ring.current in
      let small = ring.rest in
      let whole_L : length L ≡ db.fragsize = ring.full (last_of db) (ground arith) in
      rw (update_delay_buffer-eq db buf ring) (
        in_order db buf ring,
        length-append (take db.n_rest db.rbuf) (take k L)
            ∙ omega (arith, ring.room, length-take db.n_rest db.rbuf, length-take k L),
        record {
          several = ring.several;
          current = ground arith;
          rest = ring.rest;
          room = (rest-eq db ring).1;
          full = λ i h. elim (ℕ_discrete i db.curbuf) [
            | yes at ↦ ap length (rw at (update_self db.fbufs db.curbuf buf)) ∙ whole
            | no ne ↦ ap length (update_ne db.fbufs db.curbuf i buf ne) ∙ ring.full i h
          ];
        },
      )
