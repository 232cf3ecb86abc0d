-- ===== src/Brutefir/Delay/Raw/Short.antt =====
-- brutefir/delay.cpp: `update_delay_short_buffer` on memory does to the samples of the channel what the
-- model on lists of samples does.
use foo_dsp_bfir.Base.{
  ℕ, ◌+◌, ◌-◌, ◌*◌, ◌≤◌, ◌<◌, ◌≡◌, inl, inr, refl, sym, subst, ◌∙◌, ap, fun_ext, arith, ◌==◌, true,
  false, Bool-cases, List, ◌++◌, take, drop, update, Option, some, none,
}
use foo_dsp_bfir.Brutefir.Sample.Bytes.{Memory}
use foo_dsp_bfir.Brutefir.Sample.Words.{IsBytes}
use foo_dsp_bfir.Brutefir.Delay.{DelayBuffer, update_delay_short_buffer, other_buffer}
use foo_dsp_bfir.Brutefir.Delay.Interleaved.{
  copy_to_delaybuf, copy_from_delaybuf, shift_words, shift_samples, word_size,
}
use foo_dsp_bfir.Brutefir.Delay.Interleaved.Loops.{known_size, stride-next}
use foo_dsp_bfir.Brutefir.Delay.Interleaved.Copies.{
  copy_to_delaybuf-sample, copy_to_delaybuf-other, copy_from_delaybuf-sample,
  copy_from_delaybuf-other, copy_to_delaybuf-IsBytes,
}
use foo_dsp_bfir.Brutefir.Delay.Interleaved.Shift.{shift_words-sample, shift_words-other}
use foo_dsp_bfir.Brutefir.Delay.Raw.{RawBuffer, update_raw_short_buffer}
use foo_dsp_bfir.Brutefir.Delay.Raw.Samples.{
  tabulate, tabulate-eq, take-tabulate, drop-tabulate, tabulate-append, samples, packed,
}
use foo_dsp_bfir.Brutefir.Delay.Raw.Parts.{buffer_of, IsRaw}

pub word_size-known : (size : ℕ) → word_size size ≡ true → known_size size ≡ true
word_size-known size h = ground arith

shift_samples-words :
    (fuel size base spacing n distance : ℕ) (buf : Memory)
    → word_size size ≡ true
    → shift_samples fuel buf base size spacing n distance
      ≡ some (shift_words size base spacing distance n buf)
unfolding shift_samples
shift_samples-words fuel size base spacing n distance buf word = rw (other size word, word) refl
  where
    other : (size : ℕ) → word_size size ≡ true → (size == 3) ≡ false
    other size h = ground arith

module _ (size spacing base : ℕ) (word : word_size size ≡ true) (one : 1 ≤ spacing) where
  known : known_size size ≡ true
  known = word_size-known size word

  offset :
      (c k b : ℕ)
      → base + c * size * spacing + size * (spacing * k) + b ≡ base + size * (spacing * (c + k)) + b
  offset c k b = grind arith

  -- The short buffer after the last samples of the channel were saved in it.
  packed-saved :
      (dbuf buf : Memory) (frag rest : ℕ)
      → IsBytes buf
      → rest ≤ frag
      → packed size frag
          (copy_to_delaybuf dbuf buf (base + (frag - rest) * size * spacing) size spacing rest)
        ≡ take rest (drop (frag - rest) (samples size spacing base frag buf))
          ++ drop rest (packed size frag dbuf)
  packed-saved dbuf buf frag rest h fits =
      rw
        (
          drop-tabulate (frag - rest) frag
              (λ k. tabulate size (λ b. buf (base + size * (spacing * k) + b))) (omega arith),
          drop-tabulate rest frag (λ k. tabulate size (λ b. dbuf (size * k + b))) fits,
          take-tabulate rest (frag - (frag - rest))
              (λ k. tabulate size (λ b. buf (base + size * (spacing * (frag - rest + k)) + b)))
              (omega arith),
        )
        (ap
            (λ i.
              packed size i (
                copy_to_delaybuf dbuf buf (base + (frag - rest) * size * spacing) size spacing
                  rest))
            (whole fits)
          ∙ sym (
              tabulate-append rest (frag - rest) _ _ _
                (λ k hk. tabulate-eq size _ _ (λ b hb. sym (
                  copy_to_delaybuf-sample dbuf buf (base + (frag - rest) * size * spacing) size
                    spacing rest known one h k b hk hb
                  ∙ ap buf (offset (frag - rest) k b))))
                (λ k hk. tabulate-eq size _ _ (λ b hb. sym (
                  copy_to_delaybuf-other dbuf buf (base + (frag - rest) * size * spacing) size
                    spacing rest known one h (size * (rest + k) + b) (beyond k b))))))
    where
      whole : rest ≤ frag → frag ≡ rest + (frag - rest)
      whole h = omega arith

      beyond : (k b : ℕ) → rest * size ≤ size * (rest + k) + b
      beyond k b = grind arith

  -- The samples of the channel after the short buffer was put before them.
  samples-shifted :
      (buf short : Memory) (rest n : ℕ)
      → IsBytes buf
      → IsBytes short
      → samples size spacing base (rest + n) (
          copy_from_delaybuf
            (shift_words size base spacing rest n buf)
            base
            short
            size
            spacing
            rest)
        ≡ packed size rest short ++ samples size spacing base n buf
  samples-shifted buf short rest n h hs = sym (
      tabulate-append rest n _ _ _
        (λ k hk. tabulate-eq size _ _ (λ b hb. sym (
          copy_from_delaybuf-sample short (shift_words size base spacing rest n buf) base size
            spacing rest known one hs k b hk hb)))
        (λ k hk. tabulate-eq size _ _ (λ b hb. sym (
          copy_from_delaybuf-other short (shift_words size base spacing rest n buf) base size
            spacing rest known one hs (base + size * (spacing * (rest + k)) + b)
            (λ i lt inside.
              absurd
                (omega (arith, inside.1, stride-next size spacing i (rest + k) one (omega arith))))
          ∙ subst
              (λ i.
                shift_words size base spacing rest n buf (base + size * (spacing * i) + b)
                ≡ buf (base + size * (spacing * k) + b))
              (swapped rest k)
              (shift_words-sample size base spacing rest word one n k b buf h hk hb)))))
    where
      swapped : (a k : ℕ) → k + a ≡ a + k
      swapped a k = omega arith

  abbrev saved : RawBuffer → Memory → ℕ → Memory
  saved db buf = update db.shortbuf db.curbuf (
      copy_to_delaybuf (db.shortbuf db.curbuf) buf
        (base + (db.fragsize - db.n_rest) * size * spacing) size spacing db.n_rest)

  saved-IsBytes :
      (db : RawBuffer) (buf : Memory) → IsRaw db → IsBytes buf → (i : ℕ) → IsBytes (saved db buf i)
  unfolding update
  saved-IsBytes db buf raw h i = elim (Bool-cases (i == db.curbuf)) [
    | inl e ↦ rw e (
        copy_to_delaybuf-IsBytes (db.shortbuf db.curbuf) buf
          (base + (db.fragsize - db.n_rest) * size * spacing) size spacing db.n_rest known one h
          (raw.short db.curbuf))
    | inr ne ↦ rw ne (raw.short i)
  ]

  abbrev saved_lists : RawBuffer → List (List ℕ) → ℕ → List (List ℕ)
  saved_lists db buf =
      update (λ i. packed size db.fragsize (db.shortbuf i)) db.curbuf
        (take db.n_rest (drop (db.fragsize - db.n_rest) buf)
          ++ drop db.n_rest (packed size db.fragsize (db.shortbuf db.curbuf)))

  saved-eq :
      (db : RawBuffer) (buf : Memory)
      → IsRaw db
      → IsBytes buf
      → (λ i. packed size db.fragsize (saved db buf i))
        ≡ saved_lists db (samples size spacing base db.fragsize buf)
  unfolding update
  saved-eq db buf raw h = fun_ext (λ i. elim (Bool-cases (i == db.curbuf)) [
    | inl e ↦ rw e (packed-saved (db.shortbuf db.curbuf) buf db.fragsize db.n_rest h raw.fits)
    | inr ne ↦ rw ne refl
  ])

  -- The result of the list model from the short buffers and the samples of the channel.
  abbrev from_lists :
      RawBuffer → List (List ℕ) → (ℕ → List (List ℕ)) → DelayBuffer (List ℕ) × List (List ℕ)
  from_lists db buf shortbuf = (
    record (buffer_of size db) { shortbuf = shortbuf; curbuf = other_buffer db.curbuf },
    take db.n_rest (shortbuf (other_buffer db.curbuf)) ++ take (db.fragsize - db.n_rest) buf,
  )

  update_delay_short_buffer-lists :
      (db : RawBuffer) (buf : List (List ℕ))
      → update_delay_short_buffer (buffer_of size db) buf ≡ from_lists db buf (saved_lists db buf)
  unfolding update_delay_short_buffer
  update_delay_short_buffer-lists db buf = refl

  abbrev finish : RawBuffer → Memory → Memory
  finish db buf =
      copy_from_delaybuf (shift_words size base spacing db.n_rest (db.fragsize - db.n_rest) buf)
        base (saved db buf (other_buffer db.curbuf)) size spacing db.n_rest

  abbrev finished : RawBuffer → Memory → RawBuffer
  finished db buf = record db { shortbuf = saved db buf; curbuf = other_buffer db.curbuf }

  update_raw_short_buffer-finished :
      (fuel : ℕ) (db : RawBuffer) (buf : Memory)
      → update_raw_short_buffer fuel db size spacing buf base
        ≡ some (finished db buf, finish db buf)
  unfolding update_raw_short_buffer
  update_raw_short_buffer-finished fuel db buf =
      ap
        (λ (o : Option Memory). elim o [
          | none ↦ none
          | some shifted ↦ some (
            finished db buf,
            copy_from_delaybuf shifted base (saved db buf (other_buffer db.curbuf)) size spacing
                db.n_rest,
          )
        ])
        (shift_samples-words fuel size base spacing (db.fragsize - db.n_rest) db.n_rest buf word)

  finish-eq :
      (db : RawBuffer) (buf : Memory)
      → IsRaw db
      → IsBytes buf
      → samples size spacing base db.fragsize (finish db buf)
        ≡ take db.n_rest (packed size db.fragsize (saved db buf (other_buffer db.curbuf)))
          ++ take (db.fragsize - db.n_rest) (samples size spacing base db.fragsize buf)
  finish-eq db buf raw h =
      let short = saved db buf (other_buffer db.curbuf) in
      rw
        (
          take-tabulate db.n_rest db.fragsize (λ k. tabulate size (λ b. short (size * k + b)))
              raw.fits,
          take-tabulate (db.fragsize - db.n_rest) db.fragsize
              (λ k. tabulate size (λ b. buf (base + size * (spacing * k) + b))) (omega arith),
        )
        (ap (λ i. samples size spacing base i (finish db buf))
            (whole db.n_rest db.fragsize raw.fits)
          ∙ samples-shifted buf short db.n_rest (db.fragsize - db.n_rest) h
              (saved-IsBytes db buf raw h (other_buffer db.curbuf)))
    where
      whole : (rest frag : ℕ) → rest ≤ frag → frag ≡ rest + (frag - rest)
      whole rest frag h = omega arith

  finish-other :
      (db : RawBuffer) (buf : Memory)
      → IsRaw db
      → IsBytes buf
      → (j : ℕ)
      → ((k : ℕ)
          → k < db.fragsize
          → ¬ ((base + size * (spacing * k) ≤ j) × (j < base + size * (spacing * k) + size)))
      → finish db buf j ≡ buf j
  finish-other db buf raw h j out =
      copy_from_delaybuf-other (saved db buf (other_buffer db.curbuf))
        (shift_words size base spacing db.n_rest (db.fragsize - db.n_rest) buf) base size spacing
        db.n_rest known one (saved-IsBytes db buf raw h (other_buffer db.curbuf)) j
        (λ k lt. out k (omega (arith, raw.fits)))
      ∙ shift_words-other size base spacing db.n_rest word one (db.fragsize - db.n_rest) j buf h
          (λ k lt. out (k + db.n_rest) (omega arith))

  -- What `update_delay_short_buffer` does in memory is what the model on lists does, for samples of
  -- 1, 2, 4 or 8 bytes, a positive spacing and a rest no longer than a fragment: it ends, whatever
  -- the fuel, and the new delay buffer and the samples of the channel afterwards are those of the
  -- list model. The bytes of other channels stay.
  pub update_raw_short_buffer-Refines :
      (fuel : ℕ) (db : RawBuffer) (buf : Memory)
      → IsRaw db
      → IsBytes buf
      → (r : RawBuffer × Memory) × (update_raw_short_buffer fuel db size spacing buf base ≡ some r)
        × ((buffer_of size r.0, samples size spacing base db.fragsize r.1)
            ≡ update_delay_short_buffer
                (buffer_of size db)
                (samples size spacing base db.fragsize buf))
        × ((j : ℕ)
            → ((k : ℕ)
                → k < db.fragsize
                → ¬ ((base + size * (spacing * k) ≤ j) × (j < base + size * (spacing * k) + size)))
            → r.1 j ≡ buf j)
  update_raw_short_buffer-Refines fuel db buf raw h =
      let list = samples size spacing base db.fragsize buf in
      (
        (finished db buf, finish db buf),
        update_raw_short_buffer-finished fuel db buf,
        ap (λ o. (buffer_of size (finished db buf), o)) (finish-eq db buf raw h)
            ∙ ap (from_lists db list) (saved-eq db buf raw h)
            ∙ sym (update_delay_short_buffer-lists db list),
        finish-other db buf raw h,
      )
