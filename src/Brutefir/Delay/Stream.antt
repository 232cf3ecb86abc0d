-- ===== src/Brutefir/Delay/Stream.antt =====
-- A stream through the delay of brutefir/delay.cpp: `update` again and again with one delay.
use mathlib.Core.List.{flatten}
use native.Mathlib.Nat.{suc-mul, mod-lt, le-div_iff_mul-le, mod-eq-sub-div-mul, div-mul-le_self}
use foo_dsp_bfir.Base.{
  ℕ, zero, suc, ◌+◌, ◌-◌, ◌*◌, ◌/◌, ◌%◌, ◌<◌, ◌≤◌, ◌≡◌, refl, sym, ap, ap₂, subst, ◌∙◌, arith, true,
  false, ltb, leb, ◌==◌, List, [], ◌∷◌, ◌++◌, take, drop, replicate, length, length-append,
  length-replicate, drop_all, take-append_left, ℕ_discrete, append_assoc, append-nil,
  replicate-append, pos, ltb_ℤ,
}
use foo_dsp_bfir.Brutefir.Delay.{
  DelayBuffer, change_delay, change_to_long, update_delay, update_delay_buffer,
}
use foo_dsp_bfir.Brutefir.Delay.Blocks.{wrap, blocks}
use foo_dsp_bfir.Brutefir.Delay.Ring.{IsRing, waiting, update_delay_buffer_lem}

module _ {A : Type 0} (silence : A) where
  -- Calls of `update` with one delay: the state, and the buffers that come out.
  abbrev pub updates : ℕ → DelayBuffer A → List (List A) → DelayBuffer A × List (List A)
  updates delay db [] = (db, [])
  updates delay db (buf ∷ bufs) =
      let (db', out) = update_delay silence delay db buf in
      let (db'', outs) = updates delay db' bufs in (db'', out ∷ outs)

  -- Buffers of one length.
  abbrev pub AllOf : ℕ → List (List A) → Type 0
  AllOf n [] = Unit
  AllOf n (buf ∷ bufs) = (length buf ≡ n) × AllOf n bufs

  update_delay-steady :
      (db : DelayBuffer A) (buf : List A)
      → IsRing db
      → update_delay silence db.curdelay db buf ≡ update_delay_buffer db buf
  unfolding update_delay
  update_delay-steady db buf ring =
      let more = ring.several in
      let same : (db.curdelay == db.curdelay) ≡ true = ground arith in
      let used : ltb 0 db.n_fbufs ≡ true = ground arith in rw (same, used) refl

  kept_sizes :
      (db : DelayBuffer A) (buf : List A)
      → ((update_delay_buffer db buf).0.curdelay ≡ db.curdelay)
        × ((update_delay_buffer db buf).0.fragsize ≡ db.fragsize)
  unfolding update_delay_buffer
  kept_sizes db buf = (refl, refl)

  -- A stream, in buffers of the fragment size, through a delay above that size that stays the same:
  -- what comes out, and then the samples still under way, are the samples that were under way at
  -- first and then those of the stream, in order and with none lost.
  pub updates-flatten :
      (delay : ℕ) (db : DelayBuffer A) (bufs : List (List A))
      → IsRing db
      → db.curdelay ≡ delay
      → AllOf db.fragsize bufs
      → let (db', outs) = updates delay db bufs in
        flatten outs ++ waiting db' ≡ waiting db ++ flatten bufs
  unfolding flatten
  updates-flatten delay db [] ring same all = sym (append-nil (waiting db))
  updates-flatten delay db (buf ∷ bufs) ring same (whole, all) =
      let step =
        ap (λ (d : ℕ). update_delay silence d db buf) (sym same)
        ∙ update_delay-steady db buf ring in
      let (order, size, ring') = update_delay_buffer_lem db buf ring whole in
      let (same', frag) = kept_sizes db buf in
      let out = (update_delay_buffer db buf).1 in
      rw step (
        append_assoc out (flatten (updates delay (update_delay_buffer db buf).0 bufs).1)
          (waiting (updates delay (update_delay_buffer db buf).0 bufs).0)
        ∙ ap (λ (w : List A). out ++ w)
            (updates-flatten delay (update_delay_buffer db buf).0 bufs ring' (same' ∙ same)
              (subst (λ n. AllOf n bufs) (sym frag) all))
        ∙ sym (append_assoc out (waiting (update_delay_buffer db buf).0) (flatten bufs))
        ∙ ap (λ (w : List A). w ++ flatten bufs) order
        ∙ append_assoc (waiting db) buf (flatten bufs))

  blocks-silent :
      (n : ℕ) (F : ℕ → List A) (f k i : ℕ)
      → ((j : ℕ) → j < n → F j ≡ replicate f silence)
      → i + k ≤ n
      → blocks n F k i ≡ replicate (k * f) silence
  blocks-silent n F f zero i silent h =
      ap (λ (m : ℕ). replicate m silence) {x = 0} {y = 0 * f} (omega arith)
  blocks-silent n F f (suc k) i silent h =
      ap₂ ◌++◌ (ap F {x = wrap n i} {y = i} (ground arith) ∙ silent i (omega arith))
        (blocks-silent n F f k (i + 1) silent (omega arith))
      ∙ replicate-append f (k * f) silence
      ∙ ap (λ (m : ℕ). replicate m silence) (omega (arith, suc-mul k f))

  change_delay-long :
      (delay : ℕ) (db : DelayBuffer A)
      → db.fragsize < delay
      → db.curdelay < delay
      → ltb_ℤ db.maxdelay (pos delay) ≡ false
      → change_delay silence delay db ≡ change_to_long silence delay db
  unfolding change_delay
  change_delay-long delay db long longer allowed =
      let other : (delay == db.curdelay) ≡ false = ground arith in
      let above : leb delay db.fragsize ≡ false = ground arith in rw (other, allowed, above) refl

  div-positive : (m f : ℕ) → 0 < f → f ≤ m → 1 ≤ m / f
  div-positive m f positive h = (le-div_iff_mul-le {k = f} {x = 1} {y = m} positive).1 (omega arith)

  long-fbufs :
      (delay : ℕ) (db : DelayBuffer A)
      → db.curdelay < delay
      → ((i : ℕ) → i < delay / db.fragsize + 1 → length (db.fbufs i) ≡ db.fragsize)
      → (i : ℕ) → i < delay / db.fragsize + 1
      → (change_to_long silence delay db).fbufs i ≡ replicate db.fragsize silence
  unfolding change_to_long
  long-fbufs delay db longer allocated i h =
      let test : ltb db.curdelay delay ≡ true = ground arith in
      let used : ltb i (delay / db.fragsize + 1) ≡ true = ground arith in
      rw (test, used)
        (ap (λ (t : List A). replicate db.fragsize silence ++ t)
            (drop_all db.fragsize (db.fbufs i) (omega (arith, allocated i h)))
          ∙ append-nil (replicate db.fragsize silence))

  long-rest :
      (delay : ℕ) (db : DelayBuffer A)
      → db.curdelay < delay
      → let db' = change_to_long silence delay db in
        (take (delay % db.fragsize) db'.rbuf ≡ replicate (delay % db.fragsize) silence)
        × (delay % db.fragsize ≤ length db'.rbuf)
  unfolding change_to_long
  long-rest delay db longer =
      let r = delay % db.fragsize in
      let test : ltb db.curdelay delay ≡ true = ground arith in
      elim (ℕ_discrete r 0) [
        | yes none_left ↦ (
          subst (λ m. take m (change_to_long silence delay db).rbuf ≡ replicate m silence)
              (sym none_left) refl,
          omega arith,
        )
        | no some_left ↦
            let other : (r == 0) ≡ false = ground arith in
            rw (test, other)
              (
                take-append_left r (replicate r silence) (drop r db.rbuf)
                    (length-replicate r silence),
                omega (
                  arith,
                  length-append (replicate r silence) (drop r db.rbuf),
                  length-replicate r silence,
                ),
              )
      ]

  -- A delay that becomes longer, and longer than the fragment size, within the maximum: the ring is
  -- well formed, and as many silent samples are under way as the delay says. Each full-sized buffer
  -- that the delay needs has been allocated.
  pub change_delay-silent :
      (delay : ℕ) (db : DelayBuffer A)
      → 0 < db.fragsize
      → db.fragsize < delay
      → db.curdelay < delay
      → ltb_ℤ db.maxdelay (pos delay) ≡ false
      → ((i : ℕ) → i < delay / db.fragsize + 1 → length (db.fbufs i) ≡ db.fragsize)
      → let db' = change_delay silence delay db in
        IsRing db'
        × (waiting db' ≡ replicate delay silence)
        × (db'.curdelay ≡ delay)
        × (db'.fragsize ≡ db.fragsize)
  unfolding waiting change_to_long
  change_delay-silent delay db positive long longer allowed allocated =
      let n = delay / db.fragsize + 1 in
      let r = delay % db.fragsize in
      let db' = change_to_long silence delay db in
      let one_block : 1 ≤ delay / db.fragsize =
        div-positive delay db.fragsize positive (omega arith) in
      let fbufs = long-fbufs delay db longer allocated in
      let (rest, room) = long-rest delay db longer in
      let whole : delay / db.fragsize * db.fragsize + r ≡ delay =
        omega (arith, mod-eq-sub-div-mul delay db.fragsize, div-mul-le_self delay db.fragsize) in
      let less : (n - 1) * db.fragsize ≡ delay / db.fragsize * db.fragsize =
        ap (λ (k : ℕ). k * db.fragsize) {x = n - 1} {y = delay / db.fragsize} (omega arith) in
      let under_way : waiting db' ≡ replicate delay silence =
        ap₂ ◌++◌ rest (blocks-silent n db'.fbufs db.fragsize (n - 1) (0 + 1) fbufs (omega arith))
        ∙ replicate-append r ((n - 1) * db.fragsize) silence
        ∙ ap (λ (m : ℕ). replicate m silence) {x = r + (n - 1) * db.fragsize} {y = delay}
            (omega (arith, whole, less)) in
      rw (change_delay-long delay db long longer allowed) (
        record {
          several = omega arith;
          current = omega arith;
          rest = mod-lt delay positive;
          room = room;
          full = λ i h. ap length (fbufs i h) ∙ length-replicate db.fragsize silence;
        },
        under_way,
        refl,
        refl,
      )
