-- ===== src/Brutefir/Delay/Interleaved/Shift.antt =====
-- brutefir/delay.cpp: `shift_samples`, which moves the samples of a channel on within a buffer, from
-- the last one to the first.
use foo_dsp_bfir.Base.{
  ℕ, zero, suc, ◌+◌, ◌-◌, ◌*◌, ◌≤◌, ◌<◌, ◌≡◌, ◌⊎◌, inl, inr, refl, sym, subst, ◌∙◌, arith, ltb,
  ◌==◌, true, false, none,
}
use foo_dsp_bfir.Brutefir.Sample.Bytes.{Memory}
use foo_dsp_bfir.Brutefir.Sample.Words.{IsBytes}
use foo_dsp_bfir.Brutefir.Delay.Interleaved.{
  copy_word, copy_bytes24, word_size, shift_words, shift_bytes24, shift_samples,
}
use foo_dsp_bfir.Brutefir.Delay.Interleaved.Rounds.{put}
use foo_dsp_bfir.Brutefir.Delay.Interleaved.Words.{copy-word}
use foo_dsp_bfir.Brutefir.Delay.Interleaved.Loops.{stride-next}

turned : (a c : ℕ) → a * c ≡ c * a
turned a c = grind arith

ℕ-split : (k n : ℕ) → k < suc n → (k ≡ n) ⊎ (k < n)
ℕ-split k n h = ground arith

module _ (size base spacing distance : ℕ) (word : word_size size ≡ true) (one : 1 ≤ spacing) where
  abbrev at : ℕ → ℕ
  at k = base + size * (spacing * k)

  abbrev Inside : ℕ → ℕ → Type 0
  Inside k j = (at (k + distance) ≤ j) × (j < at (k + distance) + size)

  abbrev step : ℕ → Memory → Memory
  step left s = copy_word size s base ((left + distance) * spacing) s base (left * spacing)

  step-put :
      (left j : ℕ) (s : Memory)
      → IsBytes s
      → step left s j ≡ put (at (left + distance)) size (λ b. s (at left + b)) s j
  step-put left j s h =
      subst (λ i. step left s j ≡ put (base + size * i) size (λ b. s (at left + b)) s j)
        (turned (left + distance) spacing)
        (subst
          (λ i.
            step left s j
            ≡ put (base + size * ((left + distance) * spacing)) size (λ b. s (base + size * i + b))
                s j)
          (turned left spacing)
          (copy-word s s h base ((left + distance) * spacing) base (left * spacing) j size word))

  step-IsBytes : (left : ℕ) (s : Memory) → IsBytes s → IsBytes (step left s)
  step-IsBytes left s h j =
      subst (λ v. v < 256) (sym (step-put left j s h))
        (byte left j s (h (at left + (j - at (left + distance)))) (h j))
    where
      byte :
          (left j : ℕ) (s : Memory)
          → s (at left + (j - at (left + distance))) < 256
          → s j < 256
          → put (at (left + distance)) size (λ b. s (at left + b)) s j < 256
      byte left j s h h' = ground (arith, h, h')

  step-outside : (left j : ℕ) (s : Memory) → IsBytes s → ¬ Inside left j → step left s j ≡ s j
  step-outside left j s h out = step-put left j s h ∙ outside left j s out
    where
      outside :
          (left j : ℕ) (s : Memory)
          → ¬ Inside left j
          → put (at (left + distance)) size (λ b. s (at left + b)) s j ≡ s j
      outside left j s out = ground (arith, λ (p : Inside left j). out p)

  step-inside :
      (left b : ℕ) (s : Memory)
      → IsBytes s
      → b < size
      → step left s (at (left + distance) + b) ≡ s (at left + b)
  step-inside left b s h lt = step-put left (at (left + distance) + b) s h ∙ inside left b s lt
    where
      inside :
          (left b : ℕ) (s : Memory)
          → b < size
          → put (at (left + distance)) size (λ b. s (at left + b)) s (at (left + distance) + b)
            ≡ s (at left + b)
      inside left b s lt = ground arith

  -- A byte that no sample is moved to is left as it is.
  pub shift_words-other :
      (left j : ℕ) (s : Memory)
      → IsBytes s
      → ((k : ℕ) → k < left → ¬ Inside k j)
      → shift_words size base spacing distance left s j ≡ s j
  unfolding shift_words
  shift_words-other zero j s h out = refl
  shift_words-other (suc left) j s h out =
      shift_words-other left j (step left s) (step-IsBytes left s h) (λ k lt. out k (omega arith))
      ∙ step-outside left j s h (out left (omega arith))

  -- Each sample is moved on by `distance` samples, whether or not the ranges overlap.
  pub shift_words-sample :
      (left k b : ℕ) (s : Memory)
      → IsBytes s
      → k < left
      → b < size
      → shift_words size base spacing distance left s (at (k + distance) + b) ≡ s (at k + b)
  unfolding shift_words
  shift_words-sample zero k b s h hk hb = absurd (omega arith)
  shift_words-sample (suc left) k b s h hk hb = elim (ℕ-split k left hk) [
    | inl e ↦
        shift_words-other left (at (k + distance) + b) (step left s) (step-IsBytes left s h)
          (λ i lt inside. absurd (
            omega (
              arith,
              inside.1,
              stride-next size spacing (i + distance) (k + distance) one (omega arith),
            )))
        ∙ subst (λ i. step left s (at (i + distance) + b) ≡ s (at i + b)) (sym e)
            (step-inside left b s h hb)
    | inr lt ↦
        shift_words-sample left k b (step left s) (step-IsBytes left s h) lt hb
        ∙ step-outside left (at k + b) s h (λ inside.
          absurd (
            omega
              (arith, inside.0, stride-next size spacing k (left + distance) one (omega arith))))
  ]

-- For samples of 24 bits in a buffer with one channel the loop never ends: the three steps of the
-- body take the indices back to where the round began.
pub shift_bytes24-none : (fuel base n i : ℕ) (s : Memory) → shift_bytes24 fuel base 3 n i s ≡ none
unfolding shift_bytes24
shift_bytes24-none zero base n i s = refl
shift_bytes24-none (suc fuel) base n i s =
    rw (stays n)
      (shift_bytes24-none fuel base (n + 3 - 3) (i + 3 - 3) (copy_bytes24 s base i s base n))
  where
    stays : (n : ℕ) → ltb (n + 3) 3 ≡ false
    stays n = ground arith

pub shift_samples-none :
    (fuel base n_samples distance : ℕ) (buf : Memory)
    → 1 ≤ n_samples
    → shift_samples fuel buf base 3 1 n_samples distance ≡ none
unfolding shift_samples
shift_samples-none fuel base n_samples distance buf one = rw (positive n_samples one) (
    shift_bytes24-none fuel base ((n_samples - 1) * 1 * 3) ((n_samples + distance - 1) * 1 * 3) buf)
  where
    positive : (n : ℕ) → 1 ≤ n → (n == 0) ≡ false
    positive n h = ground arith
