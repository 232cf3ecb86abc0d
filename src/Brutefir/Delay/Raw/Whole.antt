-- ===== src/Brutefir/Delay/Raw/Whole.antt =====
-- brutefir/delay.cpp: the whole of `update` on memory against the model on lists of samples.
use native.Mathlib.Nat.{mod-lt}
use foo_dsp_bfir.Base.{
  ℕ, ◌+◌, ◌*◌, ◌/◌, ◌%◌, ◌≤◌, ◌<◌, ◌≡◌, inl, inr, refl, sym, subst, ◌∙◌, ap, arith, ltb, leb, pos,
  ltb_ℤ, ◌&&◌, ◌||◌, ◌==◌, not, Bool, true, false, Bool-cases, if◌then◌else◌, List, some,
}
use foo_dsp_bfir.Brutefir.Sample.Bytes.{Memory}
use foo_dsp_bfir.Brutefir.Sample.Words.{IsBytes}
use foo_dsp_bfir.Brutefir.Delay.{
  DelayBuffer, change_delay, update_delay, update_delay_buffer, update_delay_short_buffer,
}
use foo_dsp_bfir.Brutefir.Delay.Interleaved.{word_size, copy_to_delaybuf}
use foo_dsp_bfir.Brutefir.Delay.Interleaved.Copies.{copy_to_delaybuf-IsBytes}
use foo_dsp_bfir.Brutefir.Delay.Raw.{
  RawBuffer, memset, change_raw_delay, change_raw_to_short, change_raw_to_long, update_raw,
  update_raw_target, update_raw_samples, update_raw_buffer,
}
use foo_dsp_bfir.Brutefir.Delay.Raw.Samples.{tabulate-eq, samples}
use foo_dsp_bfir.Brutefir.Delay.Raw.Ring.{update_raw_buffer-Refines}
use foo_dsp_bfir.Brutefir.Delay.Raw.Parts.{buffer_of, IsRaw, packed-copy_to}
use foo_dsp_bfir.Brutefir.Delay.Raw.Short.{word_size-known, update_raw_short_buffer-Refines}
use foo_dsp_bfir.Brutefir.Delay.Raw.Update.{silence, change_raw_delay-eq}

memset-IsBytes : (m : Memory) (n : ℕ) → IsBytes m → IsBytes (memset m n)
unfolding memset
memset-IsBytes m n h j = ground (arith, h j)

if-IsBytes : (c : Bool) (m : Memory) (n : ℕ) → IsBytes m → IsBytes (if c then memset m n else m)
if-IsBytes true m n h = memset-IsBytes m n h
if-IsBytes false m n h = h

cleared-IsBytes :
    (c : Bool) (chosen : ℕ → Bool) (bufs : ℕ → Memory) (n i : ℕ)
    → IsBytes (bufs i)
    → IsBytes (
        if◌then◌else◌ {A = ℕ → Memory} c
          (λ i. if chosen i then memset (bufs i) n else bufs i)
          bufs
          i)
cleared-IsBytes true chosen bufs n i h = if-IsBytes (chosen i) (bufs i) n h
cleared-IsBytes false chosen bufs n i h = h

-- A change of the delay keeps the size of the fragments and what the rest needs.
change_raw_delay-IsRaw :
    (size newdelay : ℕ) (db : RawBuffer)
    → 0 < db.fragsize
    → IsRaw db
    → ((change_raw_delay size newdelay db).fragsize ≡ db.fragsize)
      × IsRaw (change_raw_delay size newdelay db)
unfolding change_raw_delay change_raw_to_short change_raw_to_long
change_raw_delay-IsRaw size newdelay db positive raw =
    elim (Bool-cases ((newdelay == db.curdelay) || ltb_ℤ db.maxdelay (pos newdelay))) [
      | inl same ↦ rw same (refl, raw)
      | inr other ↦ rw other (elim (Bool-cases (leb newdelay db.fragsize)) [
        | inl short ↦ rw short (
          refl,
          record {
            full = raw.full;
            rest = raw.rest;
            short = λ i.
                cleared-IsBytes (ltb db.fragsize db.curdelay || ltb db.curdelay newdelay)
                  (λ i. ltb i 2) db.shortbuf (newdelay * size) i (raw.short i);
            fits = ground (arith, short);
          },
        )
        | inr long ↦ rw long (
          refl,
          record {
            full = λ i.
                cleared-IsBytes (ltb db.curdelay newdelay) (λ i. ltb i (newdelay / db.fragsize + 1))
                  db.fbufs (db.fragsize * size) i (raw.full i);
            rest =
                if-IsBytes (ltb db.curdelay newdelay && not (newdelay % db.fragsize == 0)) db.rbuf
                  (newdelay % db.fragsize * size) raw.rest;
            short = raw.short;
            fits = omega (arith, mod-lt newdelay positive);
          },
        )
      ])
    ]

-- The byte lies in no sample of the channel.
abbrev pub Outside : ℕ → ℕ → ℕ → ℕ → ℕ → Type 0
Outside size spacing base n j =
    (k : ℕ)
    → k < n
    → ¬ ((base + size * (spacing * k) ≤ j) × (j < base + size * (spacing * k) + size))

module _ (size : ℕ) (word : word_size size ≡ true) where
  -- `update` of the list model after the change of the delay.
  unfoldable stepped : DelayBuffer (List ℕ) → List (List ℕ) → DelayBuffer (List ℕ) × List (List ℕ)
  stepped db buf =
      if ltb 0 db.n_fbufs
      then update_delay_buffer db buf
      else if ltb 0 db.n_rest
      then update_delay_short_buffer db buf
      else (db, buf)

  update_delay-stepped :
      (newdelay : ℕ) (db : DelayBuffer (List ℕ)) (buf : List (List ℕ))
      → update_delay (silence size) newdelay db buf
        ≡ stepped (change_delay (silence size) newdelay db) buf
  unfolding update_delay stepped
  update_delay-stepped newdelay db buf = refl

  -- One step on memory is one of the list model.
  Steps : (spacing base fuel : ℕ) → RawBuffer → Memory → Type 0
  unfolding update_raw_samples stepped
  Steps spacing base fuel db buf =
      (r : RawBuffer × Memory) × (update_raw_samples fuel db size spacing buf base ≡ some r)
      × ((buffer_of size r.0, samples size spacing base db.fragsize r.1)
          ≡ stepped (buffer_of size db) (samples size spacing base db.fragsize buf))
      × ((j : ℕ) → Outside size spacing base db.fragsize j → r.1 j ≡ buf j)

  steps :
      (spacing base fuel : ℕ) (db : RawBuffer) (buf : Memory)
      → 1 ≤ spacing
      → IsRaw db
      → IsBytes buf
      → Steps spacing base fuel db buf
  unfolding Steps update_raw_samples stepped
  steps spacing base fuel db buf one raw h = elim (Bool-cases (ltb 0 db.n_fbufs)) [
    | inl long ↦
        let (e, out) =
          update_raw_buffer-Refines size spacing base (word_size-known size word) one db buf raw
            h in
        rw long (update_raw_buffer db size spacing buf base, refl, e, out)
    | inr not_long ↦ rw not_long (elim (Bool-cases (ltb 0 db.n_rest)) [
      | inl short ↦
          rw short (update_raw_short_buffer-Refines size spacing base word one fuel db buf raw h)
      | inr none_left ↦ rw none_left ((db, buf), refl, refl, λ j out. refl)
    ])
  ]

  StepsTo : (spacing base fuel : ℕ) → RawBuffer → Memory → ℕ → Type 0
  unfolding update_raw_samples stepped
  StepsTo spacing base fuel db buf n =
      (r : RawBuffer × Memory) × (update_raw_samples fuel db size spacing buf base ≡ some r)
      × ((buffer_of size r.0, samples size spacing base n r.1)
          ≡ stepped (buffer_of size db) (samples size spacing base n buf))
      × ((j : ℕ) → Outside size spacing base n j → r.1 j ≡ buf j)

  changed :
      (spacing base fuel newdelay : ℕ) (db : RawBuffer) (buf : Memory)
      → 1 ≤ spacing
      → 0 < db.fragsize
      → IsRaw db
      → IsBytes buf
      → StepsTo spacing base fuel (change_raw_delay size newdelay db) buf db.fragsize
  unfolding StepsTo Steps
  changed spacing base fuel newdelay db buf one positive raw h =
      let (same, raw') = change_raw_delay-IsRaw size newdelay db positive raw in
      subst (StepsTo spacing base fuel (change_raw_delay size newdelay db) buf) same
        (steps spacing base fuel (change_raw_delay size newdelay db) buf one raw' h)

  stepped-changed :
      (newdelay : ℕ) (db : RawBuffer) (buf : List (List ℕ))
      → 0 < db.fragsize
      → stepped (buffer_of size (change_raw_delay size newdelay db)) buf
        ≡ update_delay (silence size) newdelay (buffer_of size db) buf
  stepped-changed newdelay db buf positive =
      ap (λ d. stepped d buf) (change_raw_delay-eq size newdelay db positive)
      ∙ sym (update_delay-stepped newdelay (buffer_of size db) buf)

  -- `update` with no target buffer, for samples of 1, 2, 4 or 8 bytes, a positive spacing and a
  -- positive fragment size, whatever the delay before and after: it ends whatever the fuel, the new
  -- delay buffer and the samples of the channel afterwards are those of the list model of `update`
  -- with bytes of 0 as silence, and the bytes of other channels stay. Every
  -- buffer holds bytes, and the rest is no longer than a fragment.
  pub update_raw-Refines :
      (spacing base fuel newdelay : ℕ) (db : RawBuffer) (buf : Memory)
      → 1 ≤ spacing
      → 0 < db.fragsize
      → IsRaw db
      → IsBytes buf
      → (r : RawBuffer × Memory) × (update_raw fuel db size spacing newdelay buf base ≡ some r)
        × ((buffer_of size r.0, samples size spacing base db.fragsize r.1)
            ≡ update_delay
                (silence size)
                newdelay
                (buffer_of size db)
                (samples size spacing base db.fragsize buf))
        × ((j : ℕ) → Outside size spacing base db.fragsize j → r.1 j ≡ buf j)
  unfolding StepsTo update_raw
  update_raw-Refines spacing base fuel newdelay db buf one positive raw h =
      let (r, given, e, out) = changed spacing base fuel newdelay db buf one positive raw h in
      (
        r,
        given,
        e ∙ stepped-changed newdelay db (samples size spacing base db.fragsize buf) positive,
        out,
      )

  samples-copy_to :
      (spacing base frag n : ℕ) (buf target : Memory)
      → 1 ≤ spacing
      → IsBytes buf
      → n ≡ frag
      → samples size 1 0 frag (copy_to_delaybuf target buf base size spacing n)
        ≡ samples size spacing base frag buf
  samples-copy_to spacing base frag n buf target one h same =
      ap (λ i. samples size 1 0 frag (copy_to_delaybuf target buf base size spacing i)) same
      ∙ tabulate-eq frag _ _ (λ k hk.
        tabulate-eq size _ _
          (λ b hb. ap (copy_to_delaybuf target buf base size spacing frag) (unspaced k b)))
      ∙ packed-copy_to size spacing base (word_size-known size word) one target buf frag h
    where
      unspaced : (k b : ℕ) → 0 + size * (1 * k) + b ≡ size * k + b
      unspaced k b = grind arith

  -- `update` with a target buffer, for samples of 1, 2, 4 or 8 bytes, a positive spacing and a
  -- positive fragment size: it ends whatever the fuel, and the new delay buffer, and the samples that
  -- then lie next to each other in the target buffer, are those that the list model of `update` gives
  -- for the samples of the channel. Every buffer holds bytes, and the rest is no longer than a
  -- fragment.
  pub update_raw_target-Refines :
      (spacing base fuel newdelay : ℕ) (db : RawBuffer) (buf target : Memory)
      → 1 ≤ spacing
      → 0 < db.fragsize
      → IsRaw db
      → IsBytes buf
      → IsBytes target
      → (r : RawBuffer × Memory) × (update_raw_target fuel db size spacing newdelay buf base target
          ≡ some r)
        × ((buffer_of size r.0, samples size 1 0 db.fragsize r.1)
            ≡ update_delay
                (silence size)
                newdelay
                (buffer_of size db)
                (samples size spacing base db.fragsize buf))
  unfolding StepsTo update_raw_target
  update_raw_target-Refines spacing base fuel newdelay db buf target one positive raw h ht =
      let (same, raw') = change_raw_delay-IsRaw size newdelay db positive raw in
      let n = (change_raw_delay size newdelay db).fragsize in
      let copy = copy_to_delaybuf target buf base size spacing n in
      let bytes =
        copy_to_delaybuf-IsBytes target buf base size spacing n (word_size-known size word) one h
          ht in
      let (r, given, e, out) = changed 1 0 fuel newdelay db copy (omega arith) positive raw bytes in
      (
        r,
        given,
        e
            ∙ stepped-changed newdelay db (samples size 1 0 db.fragsize copy) positive
            ∙ ap (update_delay (silence size) newdelay (buffer_of size db))
                (samples-copy_to spacing base db.fragsize n buf target one h same),
      )
