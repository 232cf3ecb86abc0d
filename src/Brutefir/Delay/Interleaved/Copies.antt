-- ===== src/Brutefir/Delay/Interleaved/Copies.antt =====
-- brutefir/delay.cpp: `copy_to_delaybuf` and `copy_from_delaybuf`, byte by byte.
use foo_dsp_bfir.Base.{
  ℕ, ◌+◌, ◌-◌, ◌*◌, ◌/◌, ◌≤◌, ◌<◌, ◌≡◌, ◌⊎◌, inl, inr, fun_ext, sym, subst, ◌∙◌, ap, arith, ltb,
  leb, ◌||◌, ◌==◌, true, Bool-cases,
}
use foo_dsp_bfir.Brutefir.Sample.Bytes.{Memory}
use foo_dsp_bfir.Brutefir.Sample.Words.{IsBytes}
use foo_dsp_bfir.Brutefir.Delay.Interleaved.{
  memcpy, word_size, copy_to_delaybuf, copy_from_delaybuf,
}
use foo_dsp_bfir.Brutefir.Delay.Interleaved.Rounds.{rounds-other, rounds-sample, rounds-bytes}
use foo_dsp_bfir.Brutefir.Delay.Interleaved.Words.{word_size-cases}
use foo_dsp_bfir.Brutefir.Delay.Interleaved.Loops.{
  known_size, mul-next, stride-next, IsRounds, to_IsRounds, from_IsRounds, to_memcpy, from_memcpy,
}

-- What follows from the rounds.
module _ (size : ℕ) (to : ℕ → ℕ) (bytes : ℕ → ℕ → ℕ) (n_samples : ℕ) (before after : Memory)
    (rounds : IsRounds size to bytes n_samples before after)
    (apart : (n k : ℕ) → n < k → to n + size ≤ to k) where
  after-sample : (k b : ℕ) → k < n_samples → b < size → after (to k + b) ≡ bytes k b
  after-sample k b h lt =
      let (round, puts, e) = rounds in
      ap (λ (m : Memory). m (to k + b)) e
      ∙ rounds-sample size to bytes round puts apart n_samples 0 k b before (omega arith)
          (omega arith) lt

  after-other :
      (j : ℕ) → ((k : ℕ) → k < n_samples → ¬ ((to k ≤ j) × (j < to k + size))) → after j ≡ before j
  after-other j out =
      let (round, puts, e) = rounds in
      ap (λ (m : Memory). m j) e
      ∙ rounds-other size to bytes round puts apart n_samples 0 j before
          (λ k lo hi. out k (omega arith))

pub memcpy-inside :
    (out m : Memory) (to from n b : ℕ) → b < n → memcpy out to m from n (to + b) ≡ m (from + b)
unfolding memcpy
memcpy-inside out m to from n b h = ground arith

pub memcpy-outside :
    (out m : Memory) (to from n j : ℕ) → (j < to) ⊎ (to + n ≤ j) → memcpy out to m from n j ≡ out j
unfolding memcpy
memcpy-outside out m to from n j h = ground arith

memcpy-byte :
    (out m : Memory) (to from n j : ℕ)
    → m (from + (j - to)) < 256
    → out j < 256
    → memcpy out to m from n j < 256
unfolding memcpy
memcpy-byte out m to from n j h h' = ground (arith, h, h')

from_zero : (a : ℕ) → 0 + a ≡ a
from_zero a = omega arith

at_one : (step k : ℕ) → (step == 1) ≡ true → step * k ≡ k
at_one step k e = rw (equal step e) (omega arith)
  where
    equal : (step : ℕ) → (step == 1) ≡ true → step ≡ 1
    equal step e = ground arith

-- The sample in which a byte of a packed buffer lies.
Located : ℕ → Type 0
Located size = (n d : ℕ) → d < n * size → (k : ℕ) × (k < n) × (size * k ≤ d) × (d < size * k + size)

located : (size : ℕ) → known_size size ≡ true → Located size
unfolding Located
located size known = elim (size_cases size known) [
  | inl e ↦ subst Located (sym e) (λ n d h. (d / 3, omega arith, omega arith, omega arith))
  | inr word ↦ elim (word_size-cases size word) [
    | inl (inl e) ↦ subst Located (sym e) (λ n d h. (d, omega arith, omega arith, omega arith))
    | inl (inr e) ↦ subst Located (sym e) (λ n d h. (d / 2, omega arith, omega arith, omega arith))
    | inr (inl e) ↦ subst Located (sym e) (λ n d h. (d / 4, omega arith, omega arith, omega arith))
    | inr (inr e) ↦ subst Located (sym e) (λ n d h. (d / 8, omega arith, omega arith, omega arith))
  ]
]
  where
    size_cases : (size : ℕ) → known_size size ≡ true → (size ≡ 3) ⊎ (word_size size ≡ true)
    size_cases size known = ground arith

outside_packed :
    (base size n j : ℕ)
    → known_size size ≡ true
    → ((k : ℕ) → k < n → ¬ ((base + size * k ≤ j) × (j < base + size * k + size)))
    → (j < base) ⊎ (base + n * size ≤ j)
unfolding Located
outside_packed base size n j known out = elim (ℕ-within base (n * size) j) [
  | inl h ↦ h
  | inr (d, e, h) ↦
      let (k, lt, lo, hi) = located size known n d h in absurd (out k lt (omega arith))
]
  where
    ℕ-within : (a n j : ℕ) → ((j < a) ⊎ (a + n ≤ j)) ⊎ ((d : ℕ) × (j ≡ a + d) × (d < n))
    ℕ-within a n j = elim (Bool-cases (ltb j a || leb (a + n) j)) [
      | inl e ↦ inl (ground (arith, e))
      | inr e ↦ inr (j - a, ground (arith, e), ground (arith, e))
    ]

module _ (dbuf buf : Memory) (base size step n_samples : ℕ) (known : known_size size ≡ true)
    (one : 1 ≤ step) where
  packed : (n k : ℕ) → n < k → 0 + size * n + size ≤ 0 + size * k
  packed n k h = omega (arith, mul-next size n k h)

  strided : (n k : ℕ) → n < k → base + size * (step * n) + size ≤ base + size * (step * k)
  strided n k h = omega (arith, stride-next size step n k one h)

  within : (k b : ℕ) → k < n_samples → b < size → size * k + b < n_samples * size
  within k b h lt = grind (arith, mul-next size k n_samples h)

  abbrev address : ℕ → ℕ
  address k = base + size * (step * k)

  -- Copying the samples of a channel out of an interleaved buffer puts them next to each other.
  pub copy_to_delaybuf-sample :
      IsBytes buf
      → (k b : ℕ) → k < n_samples
      → b < size
      → copy_to_delaybuf dbuf buf base size step n_samples (size * k + b)
        ≡ buf (base + size * (step * k) + b)
  copy_to_delaybuf-sample h k b hk hb = elim (Bool-cases (step == 1)) [
    | inl e ↦
        ap (λ (m : Memory). m (size * k + b)) (to_memcpy dbuf buf base size step n_samples e)
        ∙ ap (memcpy dbuf 0 buf base (n_samples * size)) (sym (from_zero (size * k + b)))
        ∙ memcpy-inside dbuf buf 0 base (n_samples * size) (size * k + b) (within k b hk hb)
        ∙ ap buf (
            subst (λ i. base + (size * k + b) ≡ base + size * i + b) (sym (at_one step k e))
              (omega arith))
    | inr several ↦
        ap (λ i. copy_to_delaybuf dbuf buf base size step n_samples (i + b))
          (sym (from_zero (size * k)))
        ∙ after-sample size (λ n. 0 + size * n) (λ n b. buf (base + size * (step * n) + b))
            n_samples dbuf _ (to_IsRounds dbuf buf base step n_samples size h several known) packed
            k b hk hb
  ]

  -- What lies after them in the delay buffer stays.
  pub copy_to_delaybuf-other :
      IsBytes buf
      → (j : ℕ) → n_samples * size ≤ j
      → copy_to_delaybuf dbuf buf base size step n_samples j ≡ dbuf j
  copy_to_delaybuf-other h j later = elim (Bool-cases (step == 1)) [
    | inl e ↦
        ap (λ (m : Memory). m j) (to_memcpy dbuf buf base size step n_samples e)
        ∙ memcpy-outside dbuf buf 0 base (n_samples * size) j (inr (omega arith))
    | inr several ↦
        after-other size (λ n. 0 + size * n) (λ n b. buf (base + size * (step * n) + b)) n_samples
          dbuf _ (to_IsRounds dbuf buf base step n_samples size h several known) packed j
          (λ k lt inside. grind (arith, mul-next size k n_samples lt, inside.1))
  ]

  -- Copying them back puts each sample into its place.
  pub copy_from_delaybuf-sample :
      IsBytes dbuf
      → (k b : ℕ) → k < n_samples
      → b < size
      → copy_from_delaybuf buf base dbuf size step n_samples (base + size * (step * k) + b)
        ≡ dbuf (size * k + b)
  copy_from_delaybuf-sample h k b hk hb = elim (Bool-cases (step == 1)) [
    | inl e ↦
        ap (λ (m : Memory). m (base + size * (step * k) + b))
          (from_memcpy dbuf buf base size step n_samples e)
        ∙ ap (memcpy buf base dbuf 0 (n_samples * size)) (
            subst (λ i. base + size * i + b ≡ base + (size * k + b)) (sym (at_one step k e))
              (omega arith))
        ∙ memcpy-inside buf dbuf base 0 (n_samples * size) (size * k + b) (within k b hk hb)
        ∙ ap dbuf (from_zero (size * k + b))
    | inr several ↦
        after-sample size address (λ n b. dbuf (0 + size * n + b)) n_samples buf _
          (from_IsRounds dbuf buf base step n_samples size h several known) strided k b hk hb
        ∙ ap (λ i. dbuf (i + b)) (from_zero (size * k))
  ]

  -- A byte of another channel is left as it is.
  pub copy_from_delaybuf-other :
      IsBytes dbuf
      → (j : ℕ)
      → ((k : ℕ)
          → k < n_samples
          → ¬ ((base + size * (step * k) ≤ j) × (j < base + size * (step * k) + size)))
      → copy_from_delaybuf buf base dbuf size step n_samples j ≡ buf j
  copy_from_delaybuf-other h j out = elim (Bool-cases (step == 1)) [
    | inl e ↦
        ap (λ (m : Memory). m j) (from_memcpy dbuf buf base size step n_samples e)
        ∙ memcpy-outside buf dbuf base 0 (n_samples * size) j (
            outside_packed base size n_samples j known (
              subst
                (λ (f : ℕ → ℕ).
                  (k : ℕ)
                  → k < n_samples
                  → ¬ ((base + size * f k ≤ j) × (j < base + size * f k + size)))
                (fun_ext (λ k. at_one step k e)) out))
    | inr several ↦
        after-other size address (λ n b. dbuf (0 + size * n + b)) n_samples buf _
          (from_IsRounds dbuf buf base step n_samples size h several known) strided j out
  ]

  -- Bytes are copied to bytes.
  pub copy_to_delaybuf-IsBytes :
      IsBytes buf → IsBytes dbuf → IsBytes (copy_to_delaybuf dbuf buf base size step n_samples)
  copy_to_delaybuf-IsBytes h hd j = elim (Bool-cases (step == 1)) [
    | inl e ↦
        subst (λ (m : Memory). m j < 256) (sym (to_memcpy dbuf buf base size step n_samples e))
          (memcpy-byte dbuf buf 0 base (n_samples * size) j (h (base + (j - 0))) (hd j))
    | inr several ↦
        let (round, puts, e) = to_IsRounds dbuf buf base step n_samples size h several known in
        subst (λ (m : Memory). m j < 256) (sym e)
          (rounds-bytes size (λ n. 0 + size * n) (λ n b. buf (base + size * (step * n) + b)) round
            puts packed n_samples 0 dbuf (λ k b. h (base + size * (step * k) + b)) hd j)
  ]
