-- ===== src/Brutefir/Delay/Short.antt =====
-- The short delay of brutefir/delay.cpp as a queue of samples.
use foo_dsp_bfir.Base.{
  ℕ, ◌-◌, ◌≤◌, ◌≡◌, ap, ◌∙◌, arith, List, ◌++◌, take, drop, length, length-append, length-take,
  length-drop, take_all, take-append_left, take-append-drop, append_assoc, update, update_self,
  update_ne, ℕ_discrete,
}
use foo_dsp_bfir.Brutefir.Delay.{DelayBuffer, other_buffer, update_delay_short_buffer}

module _ {A : Type 0} where
  pub record IsShort (db : DelayBuffer A) : Type 0 where
    pub current : db.curbuf ≤ 1
    pub rest : db.n_rest ≤ db.fragsize
    pub filled : (i : ℕ) → i ≤ 1 → db.n_rest ≤ length (db.shortbuf i)

  -- The samples under way.
  abbrev pub waiting_short : DelayBuffer A → List A
  waiting_short db = take db.n_rest (db.shortbuf (other_buffer db.curbuf))

  -- One buffer through a delay that is not above the fragment size: what comes out, and then the
  -- samples that are under way, are the ones that were under way and then those of the buffer. A full
  -- buffer comes out, and the short buffers are well formed again.
  update_delay_short_buffer_lem :
      (db : DelayBuffer A) (buf : List A)
      → IsShort db
      → length buf ≡ db.fragsize
      → let (db', out) = update_delay_short_buffer db buf in
        (out ++ waiting_short db' ≡ waiting_short db ++ buf)
        × (length out ≡ db.fragsize)
        × IsShort db'
  unfolding update_delay_short_buffer
  update_delay_short_buffer_lem db buf short whole =
      let r = db.n_rest in
      let k = db.fragsize - r in
      let o = other_buffer db.curbuf in
      let inside = short.current in
      let fits = short.rest in
      let saved : take r (drop k buf) ≡ drop k buf =
        take_all r (drop k buf) (omega (arith, length-drop k buf)) in
      let new = drop k buf ++ drop r (db.shortbuf db.curbuf) in
      let sizes = length-append (drop k buf) (drop r (db.shortbuf db.curbuf)) in
      let kept : update db.shortbuf db.curbuf new o ≡ db.shortbuf o =
        update_ne db.shortbuf db.curbuf o new (λ e. absurd (ground (arith, e))) in
      let back : other_buffer o ≡ db.curbuf = ground arith in
      let enough = short.filled o (ground arith) in
      let again : take r (update db.shortbuf db.curbuf new (other_buffer o)) ≡ drop k buf =
        ap (take r) (rw back (update_self db.shortbuf db.curbuf new))
        ∙ take-append_left r (drop k buf) (drop r (db.shortbuf db.curbuf))
            (omega (arith, length-drop k buf)) in
      rw (saved, kept, again)
        (
          append_assoc (take r (db.shortbuf o)) (take k buf) (drop k buf)
              ∙ ap (λ (m : List A). take r (db.shortbuf o) ++ m) (take-append-drop k buf),
          length-append (take r (db.shortbuf o)) (take k buf)
              ∙ omega (arith, length-take r (db.shortbuf o), length-take k buf),
          record {
            current = ground arith;
            rest = short.rest;
            filled = λ i h. elim (ℕ_discrete i db.curbuf) [
              | yes at ↦
                  let same : length (update db.shortbuf db.curbuf new i) ≡ length new =
                    ap length (rw at (update_self db.shortbuf db.curbuf new)) in
                  omega (arith, same, sizes, length-drop k buf)
              | no ne ↦
                  let same : length (update db.shortbuf db.curbuf new i) ≡ length (db.shortbuf i) =
                    ap length (update_ne db.shortbuf db.curbuf i new ne) in
                  omega (arith, same, short.filled i h)
            ];
          },
        )
