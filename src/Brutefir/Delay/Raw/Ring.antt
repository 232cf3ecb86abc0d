-- ===== src/Brutefir/Delay/Raw/Ring.antt =====
-- brutefir/delay.cpp: `update_delay_buffer` on memory does to the samples of the channel what the
-- model on lists of samples does.
use foo_dsp_bfir.Base.{
  ℕ, ◌+◌, ◌-◌, ◌*◌, ◌≤◌, ◌<◌, ◌≡◌, inl, inr, refl, sym, ◌∙◌, ap, ap₂, arith, ◌==◌, true, Bool-cases,
  if◌then◌else◌, List, ◌++◌, take, drop, update,
}
use foo_dsp_bfir.Brutefir.Sample.Bytes.{Memory}
use foo_dsp_bfir.Brutefir.Sample.Words.{IsBytes}
use foo_dsp_bfir.Brutefir.Delay.{DelayBuffer, update_delay_buffer}
use foo_dsp_bfir.Brutefir.Delay.Interleaved.{memcpy, copy_to_delaybuf, copy_from_delaybuf}
use foo_dsp_bfir.Brutefir.Delay.Interleaved.Loops.{known_size}
use foo_dsp_bfir.Brutefir.Delay.Interleaved.Copies.{
  copy_from_delaybuf-other, copy_to_delaybuf-IsBytes,
}
use foo_dsp_bfir.Brutefir.Delay.Raw.{RawBuffer, update_raw_buffer}
use foo_dsp_bfir.Brutefir.Delay.Raw.Samples.{tabulate, take-tabulate, samples, packed}
use foo_dsp_bfir.Brutefir.Delay.Raw.Parts.{
  buffer_of, IsRaw, packed-update, after_rest, samples-copy_from, copy_from-none, packed-memcpy,
}

module _ (size spacing base : ℕ) (known : known_size size ≡ true) (one : 1 ≤ spacing) where
  module _ (db : RawBuffer) (buf : Memory) (raw : IsRaw db) (h : IsBytes buf) (last : Memory)
      (hl : IsBytes last) where
    start : Memory
    start =
        if db.n_rest == 0 then buf else copy_from_delaybuf buf base db.rbuf size spacing db.n_rest

    start-eq : start ≡ copy_from_delaybuf buf base db.rbuf size spacing db.n_rest
    unfolding start
    start-eq = elim (Bool-cases (db.n_rest == 0)) [
      | inl e ↦ rw e (
          sym (
            ap (copy_from_delaybuf buf base db.rbuf size spacing) (nothing db.n_rest e)
            ∙ copy_from-none size spacing base known one buf db.rbuf raw.rest))
      | inr ne ↦ rw ne refl
    ]
      where
        nothing : (n : ℕ) → (n == 0) ≡ true → n ≡ 0
        nothing n e = ground arith

    finish : Memory
    unfolding start
    finish =
        copy_from_delaybuf start (base + db.n_rest * size * spacing) last size spacing
          (db.fragsize - db.n_rest)

    rbuf-eq :
        packed size db.fragsize (
          if db.n_rest == 0
          then db.rbuf
          else memcpy db.rbuf 0 last ((db.fragsize - db.n_rest) * size) (db.n_rest * size))
        ≡ (if db.n_rest == 0
            then packed size db.fragsize db.rbuf
            else take db.n_rest (drop (db.fragsize - db.n_rest) (packed size db.fragsize last))
              ++ drop db.n_rest (packed size db.fragsize db.rbuf))
    rbuf-eq = elim (Bool-cases (db.n_rest == 0)) [
      | inl e ↦ rw e refl
      | inr ne ↦ rw ne (packed-memcpy size db.fragsize db.n_rest db.rbuf last raw.fits)
    ]

    finish-eq :
        samples size spacing base db.fragsize finish
        ≡ take db.n_rest (packed size db.fragsize db.rbuf)
          ++ take (db.fragsize - db.n_rest) (packed size db.fragsize last)
    unfolding finish
    finish-eq =
        rw
          (
            take-tabulate db.n_rest db.fragsize (λ k. tabulate size (λ b. db.rbuf (size * k + b)))
                raw.fits,
            take-tabulate (db.fragsize - db.n_rest) db.fragsize
                (λ k. tabulate size (λ b. last (size * k + b))) (omega arith),
          )
          (ap
              (λ (m : Memory). samples size spacing base db.fragsize (
                copy_from_delaybuf m (base + db.n_rest * size * spacing) last size spacing
                  (db.fragsize - db.n_rest)))
              start-eq
            ∙ ap
                (λ i. samples size spacing base i (
                  copy_from_delaybuf (copy_from_delaybuf buf base db.rbuf size spacing db.n_rest)
                    (base + db.n_rest * size * spacing) last size spacing
                    (db.fragsize - db.n_rest)))
                (whole raw.fits)
            ∙ samples-copy_from size spacing base known one buf db.rbuf last db.n_rest
                (db.fragsize - db.n_rest) raw.rest hl)
      where
        whole : db.n_rest ≤ db.fragsize → db.fragsize ≡ db.n_rest + (db.fragsize - db.n_rest)
        whole h = omega arith

    finish-other :
        (j : ℕ)
        → ((k : ℕ)
            → k < db.fragsize
            → ¬ ((base + size * (spacing * k) ≤ j) × (j < base + size * (spacing * k) + size)))
        → finish j ≡ buf j
    unfolding finish
    finish-other j out =
        copy_from_delaybuf-other last start (base + db.n_rest * size * spacing) size spacing
          (db.fragsize - db.n_rest) known one hl j
          (λ k lt inside. out (db.n_rest + k) (omega arith) (
            omega (arith, inside.0, after_rest size spacing base known one db.n_rest k 0),
            omega (arith, inside.1, after_rest size spacing base known one db.n_rest k 0),
          ))
        ∙ ap (λ (m : Memory). m j) start-eq
        ∙ copy_from_delaybuf-other db.rbuf buf base size spacing db.n_rest known one raw.rest j
            (λ k lt. out k (omega (arith, raw.fits)))

  -- The index of the buffer that is read, and the new ones.
  abbrev last_index : RawBuffer → ℕ
  last_index db = if db.curbuf == db.n_fbufs - 1 then 0 else db.curbuf + 1

  abbrev filled : RawBuffer → Memory → ℕ → Memory
  filled db buf =
      update db.fbufs db.curbuf
        (copy_to_delaybuf (db.fbufs db.curbuf) buf base size spacing db.fragsize)

  filled-IsBytes :
      (db : RawBuffer) (buf : Memory) → IsRaw db → IsBytes buf → (i : ℕ) → IsBytes (filled db buf i)
  unfolding update
  filled-IsBytes db buf raw h i = elim (Bool-cases (i == db.curbuf)) [
    | inl e ↦ rw e (
        copy_to_delaybuf-IsBytes (db.fbufs db.curbuf) buf base size spacing db.fragsize known one h
          (raw.full db.curbuf))
    | inr ne ↦ rw ne (raw.full i)
  ]

  -- The result of the list model from the full-sized buffers, the rest buffer and the output.
  abbrev assembled :
      RawBuffer
      → (ℕ → List (List ℕ))
      → List (List ℕ)
      → List (List ℕ)
      → DelayBuffer (List ℕ) × List (List ℕ)
  assembled db fbufs rbuf out = (
    record (buffer_of size db) {
      fbufs = fbufs;
      rbuf = rbuf;
      curbuf = if db.curbuf + 1 == db.n_fbufs then 0 else db.curbuf + 1;
    },
    out,
  )

  abbrev from_lists : RawBuffer → (ℕ → List (List ℕ)) → DelayBuffer (List ℕ) × List (List ℕ)
  from_lists db fbufs =
      assembled db fbufs
        (if db.n_rest == 0
          then packed size db.fragsize db.rbuf
          else take db.n_rest (drop (db.fragsize - db.n_rest) (fbufs (last_index db)))
            ++ drop db.n_rest (packed size db.fragsize db.rbuf))
        (take db.n_rest (packed size db.fragsize db.rbuf)
          ++ take (db.fragsize - db.n_rest) (fbufs (last_index db)))

  update_delay_buffer-lists :
      (db : RawBuffer) (buf : List (List ℕ))
      → update_delay_buffer (buffer_of size db) buf
        ≡ from_lists db (update (λ i. packed size db.fragsize (db.fbufs i)) db.curbuf buf)
  unfolding update_delay_buffer
  update_delay_buffer-lists db buf = refl

  -- What `update_delay_buffer` does in memory is what the model on lists does: with the delay buffer
  -- seen as lists of samples and the samples of the channel taken out of the interleaved buffer, for
  -- a sample size that the code supports, a positive spacing and a rest no longer than a fragment,
  -- the new delay buffer and the samples of the channel afterwards are those of the list model. The
  -- bytes of other channels stay.
  pub update_raw_buffer-Refines :
      (db : RawBuffer) (buf : Memory)
      → IsRaw db
      → IsBytes buf
      → (let (db', buf') = update_raw_buffer db size spacing buf base in
          ((buffer_of size db', samples size spacing base db.fragsize buf')
            ≡ update_delay_buffer (buffer_of size db) (samples size spacing base db.fragsize buf))
          × ((j : ℕ)
              → ((k : ℕ)
                  → k < db.fragsize
                  → ¬ (
                      (base + size * (spacing * k) ≤ j) × (j < base + size * (spacing * k) + size)))
              → buf' j ≡ buf j))
  unfolding update_raw_buffer start finish
  update_raw_buffer-Refines db buf raw h =
      let fbufs = filled db buf in
      let last = fbufs (last_index db) in
      let hl = filled-IsBytes db buf raw h (last_index db) in
      let lists = λ (i : ℕ). packed size db.fragsize (fbufs i) in
      (
        ap₂ (λ r o. assembled db lists r o) (rbuf-eq db buf raw h last hl)
              (finish-eq db buf raw h last hl)
            ∙ ap (from_lists db) (
                packed-update size spacing base known one db.fbufs db.curbuf db.fragsize buf
                  (db.fbufs db.curbuf) h)
            ∙ sym (update_delay_buffer-lists db (samples size spacing base db.fragsize buf)),
        λ j out. finish-other db buf raw h last hl j out,
      )
