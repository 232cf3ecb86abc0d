-- ===== src/Brutefir/Delay/Interleaved/Loops.antt =====
-- brutefir/delay.cpp: the loops of `copy_to_delaybuf` and `copy_from_delaybuf` as rounds that each put
-- one sample.
use foo_dsp_bfir.Base.{
  ℕ, zero, suc, ◌+◌, ◌*◌, ◌≤◌, ◌<◌, ◌≡◌, ◌⊎◌, inl, inr, refl, sym, subst, ◌∙◌, arith, ◌||◌, ◌==◌,
  Bool, true, false,
}
use foo_dsp_bfir.Brutefir.Sample.Bytes.{Memory, for_samples}
use foo_dsp_bfir.Brutefir.Sample.Words.{IsBytes}
use foo_dsp_bfir.Brutefir.Delay.Interleaved.{
  memcpy, for_bytes24, copy_word, copy_bytes24, word_size, copy_to_delaybuf, copy_from_delaybuf,
}
use foo_dsp_bfir.Brutefir.Delay.Interleaved.Rounds.{put, rounds_of, samples-rounds, bytes24-rounds}
use foo_dsp_bfir.Brutefir.Delay.Interleaved.Words.{copy-word, copy-bytes24}

-- The sizes that the code supports.
abbrev pub known_size : ℕ → Bool
known_size size = (size == 3) || word_size size

mul-le : (c a b : ℕ) → a ≤ b → c * a ≤ c * b
mul-le zero a b h = omega arith
mul-le (suc c) a b h = grind (arith, mul-le c a b h)

pub mul-next : (c a b : ℕ) → a < b → c * a + c ≤ c * b
mul-next c a b h = grind (arith, mul-le c (a + 1) b (omega arith))

pub stride-next :
    (size step n k : ℕ) → 1 ≤ step → n < k → size * (step * n) + size ≤ size * (step * k)
stride-next size step n k one h =
    mul-next size (step * n) (step * k) (omega (arith, mul-next step n k h))

-- A loop of the code as rounds that each put a sample.
abbrev pub IsRounds : ℕ → (ℕ → ℕ) → (ℕ → ℕ → ℕ) → ℕ → Memory → Memory → Type 0
IsRounds size to bytes n_samples before after =
    (round : ℕ → Memory → Memory) × ((n j : ℕ) (s : Memory)
      → round n s j ≡ put (to n) size (bytes n) s j)
    × (after ≡ rounds_of round n_samples 0 before)

module _ (dbuf buf : Memory) (base size step n_samples : ℕ) where
  to_words :
      (step == 1) ≡ false
      → (size == 3) ≡ false
      → word_size size ≡ true
      → copy_to_delaybuf dbuf buf base size step n_samples
        ≡ for_samples (λ n i s. copy_word size s 0 n buf base i) step n_samples 0 0 dbuf
  unfolding copy_to_delaybuf
  to_words several ne word = rw (several, ne, word) refl

  to_bytes24 :
      (step == 1) ≡ false
      → copy_to_delaybuf dbuf buf base 3 step n_samples
        ≡ for_bytes24 (λ n i s. copy_bytes24 s 0 n buf base i) step n_samples 0 0 dbuf
  unfolding copy_to_delaybuf
  to_bytes24 several = rw several refl

  pub to_memcpy :
      (step == 1) ≡ true
      → copy_to_delaybuf dbuf buf base size step n_samples
        ≡ memcpy dbuf 0 buf base (n_samples * size)
  unfolding copy_to_delaybuf
  to_memcpy one = rw one refl

  from_words :
      (step == 1) ≡ false
      → (size == 3) ≡ false
      → word_size size ≡ true
      → copy_from_delaybuf buf base dbuf size step n_samples
        ≡ for_samples (λ n i s. copy_word size s base i dbuf 0 n) step n_samples 0 0 buf
  unfolding copy_from_delaybuf
  from_words several ne word = rw (several, ne, word) refl

  from_bytes24 :
      (step == 1) ≡ false
      → copy_from_delaybuf buf base dbuf 3 step n_samples
        ≡ for_bytes24 (λ n i s. copy_bytes24 s base i dbuf 0 n) step n_samples 0 0 buf
  unfolding copy_from_delaybuf
  from_bytes24 several = rw several refl

  pub from_memcpy :
      (step == 1) ≡ true
      → copy_from_delaybuf buf base dbuf size step n_samples
        ≡ memcpy buf base dbuf 0 (n_samples * size)
  unfolding copy_from_delaybuf
  from_memcpy one = rw one refl

  word_or_24 :
      known_size size ≡ true → (size ≡ 3) ⊎ (((size == 3) ≡ false) × (word_size size ≡ true))
  word_or_24 known = ground arith

module _ (dbuf buf : Memory) (base : ℕ) (step n_samples : ℕ) where
  pub to_IsRounds :
      (size : ℕ)
      → IsBytes buf
      → (step == 1) ≡ false
      → known_size size ≡ true
      → IsRounds size
          (λ n. 0 + size * n)
          (λ n b. buf (base + size * (step * n) + b))
          n_samples
          dbuf
          (copy_to_delaybuf dbuf buf base size step n_samples)
  to_IsRounds size h several known = elim (word_or_24 dbuf buf base size step n_samples known) [
    | inl e ↦
        subst
          (λ i.
            IsRounds i (λ n. 0 + i * n) (λ n b. buf (base + i * (step * n) + b)) n_samples dbuf
              (copy_to_delaybuf dbuf buf base i step n_samples))
          (sym e)
          (
            (λ n s. copy_bytes24 s 0 (3 * n) buf base (3 * (step * n))),
            (λ n j s. copy-bytes24 buf s h 0 (3 * n) base (3 * (step * n)) j),
            to_bytes24 dbuf buf base 3 step n_samples several
                ∙ bytes24-rounds _ step n_samples dbuf,
          )
    | inr (ne, word) ↦ (
      (λ n s. copy_word size s 0 n buf base (step * n)),
      (λ n j s. copy-word buf s h 0 n base (step * n) j size word),
      to_words dbuf buf base size step n_samples several ne word
          ∙ samples-rounds _ step n_samples dbuf,
    )
  ]

  pub from_IsRounds :
      (size : ℕ)
      → IsBytes dbuf
      → (step == 1) ≡ false
      → known_size size ≡ true
      → IsRounds size
          (λ n. base + size * (step * n))
          (λ n b. dbuf (0 + size * n + b))
          n_samples
          buf
          (copy_from_delaybuf buf base dbuf size step n_samples)
  from_IsRounds size h several known = elim (word_or_24 dbuf buf base size step n_samples known) [
    | inl e ↦
        subst
          (λ i.
            IsRounds i (λ n. base + i * (step * n)) (λ n b. dbuf (0 + i * n + b)) n_samples buf
              (copy_from_delaybuf buf base dbuf i step n_samples))
          (sym e)
          (
            (λ n s. copy_bytes24 s base (3 * (step * n)) dbuf 0 (3 * n)),
            (λ n j s. copy-bytes24 dbuf s h base (3 * (step * n)) 0 (3 * n) j),
            from_bytes24 dbuf buf base 3 step n_samples several
                ∙ bytes24-rounds _ step n_samples buf,
          )
    | inr (ne, word) ↦ (
      (λ n s. copy_word size s base (step * n) dbuf 0 n),
      (λ n j s. copy-word dbuf s h base (step * n) 0 n j size word),
      from_words dbuf buf base size step n_samples several ne word
          ∙ samples-rounds _ step n_samples buf,
    )
  ]
