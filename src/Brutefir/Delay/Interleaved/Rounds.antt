-- ===== src/Brutefir/Delay/Interleaved/Rounds.antt =====
-- Loops whose rounds each put one sample into a memory.
use foo_dsp_bfir.Base.{
  ℕ, zero, suc, ◌+◌, ◌-◌, ◌*◌, ◌≤◌, ◌<◌, ◌≡◌, ◌⊎◌, inl, inr, refl, sym, subst, ◌∙◌, ap, arith, ltb,
  leb, ◌&&◌, if◌then◌else◌,
}
use foo_dsp_bfir.Brutefir.Sample.Bytes.{Memory, for_samples}
use foo_dsp_bfir.Brutefir.Delay.Interleaved.{for_bytes24}

-- `s` with the `size` bytes from the address `a` on given by `bytes`.
abbrev pub put : ℕ → ℕ → (ℕ → ℕ) → Memory → ℕ → ℕ
put a size bytes s j = if leb a j && ltb j (a + size) then bytes (j - a) else s j

ℕ-split : (n k : ℕ) → n ≤ k → (n ≡ k) ⊎ (n < k)
ℕ-split n k h = ground arith

unfoldable pub rounds_of : (ℕ → Memory → Memory) → ℕ → ℕ → Memory → Memory
rounds_of round zero n s = s
rounds_of round (suc left) n s = rounds_of round left (n + 1) (round n s)

module _ (size : ℕ) (to : ℕ → ℕ) (bytes : ℕ → ℕ → ℕ) (round : ℕ → Memory → Memory)
    (puts : (n j : ℕ) (s : Memory) → round n s j ≡ put (to n) size (bytes n) s j)
    (apart : (n k : ℕ) → n < k → to n + size ≤ to k) where
  abbrev Inside : ℕ → ℕ → Type 0
  Inside k j = (to k ≤ j) × (j < to k + size)

  put-outside : (n j : ℕ) (s : Memory) → ¬ Inside n j → round n s j ≡ s j
  put-outside n j s out = puts n j s ∙ outside n j s out
    where
      outside : (n j : ℕ) (s : Memory) → ¬ Inside n j → put (to n) size (bytes n) s j ≡ s j
      outside n j s h = ground (arith, λ (p : Inside n j). h p)

  put-inside : (n b : ℕ) (s : Memory) → b < size → round n s (to n + b) ≡ bytes n b
  put-inside n b s lt = puts n (to n + b) s ∙ inside n b s lt
    where
      inside :
          (n b : ℕ) (s : Memory) → b < size → put (to n) size (bytes n) s (to n + b) ≡ bytes n b
      inside n b s h = ground arith

  -- A byte that lies in no sample of the rounds is left as it is.
  pub rounds-other :
      (left n j : ℕ) (s : Memory)
      → ((k : ℕ) → n ≤ k → k < n + left → ¬ Inside k j)
      → rounds_of round left n s j ≡ s j
  unfolding rounds_of
  rounds-other zero n j s out = refl
  rounds-other (suc left) n j s out =
      rounds-other left (n + 1) j (round n s) (λ k lo hi. out k (omega arith) (omega arith))
      ∙ put-outside n j s (out n (omega arith) (omega arith))

  -- The bytes of each sample.
  pub rounds-sample :
      (left n k b : ℕ) (s : Memory)
      → n ≤ k
      → k < n + left
      → b < size
      → rounds_of round left n s (to k + b) ≡ bytes k b
  unfolding rounds_of
  rounds-sample zero n k b s lo hi lt = absurd (omega arith)
  rounds-sample (suc left) n k b s lo hi lt = elim (ℕ-split n k lo) [
    | inl e ↦
        rounds-other left (n + 1) (to k + b) (round n s)
          (λ i low high inside. absurd (omega (arith, apart k i (omega arith), inside.0)))
        ∙ subst (λ i. round n s (to i + b) ≡ bytes i b) e (put-inside n b s lt)
    | inr later ↦ rounds-sample left (n + 1) k b (round n s) (omega arith) (omega arith) lt
  ]

  -- Rounds that put bytes leave bytes.
  pub rounds-bytes :
      (left n : ℕ) (s : Memory)
      → ((k b : ℕ) → bytes k b < 256)
      → ((j : ℕ) → s j < 256)
      → (j : ℕ) → rounds_of round left n s j < 256
  unfolding rounds_of
  rounds-bytes zero n s given h j = h j
  rounds-bytes (suc left) n s given h j =
      rounds-bytes left (n + 1) (round n s) given
        (λ i. subst (λ v. v < 256) (sym (puts n i s)) (put-byte n i s given h)) j
    where
      put-byte :
          (n i : ℕ) (s : Memory)
          → ((k b : ℕ) → bytes k b < 256)
          → ((j : ℕ) → s j < 256)
          → put (to n) size (bytes n) s i < 256
      put-byte n i s given h = ground (arith, given n (i - to n), h i)

next_index : (step n : ℕ) → step * n + step ≡ step * (n + 1)
next_index step n = grind arith

next_byte : (step n : ℕ) → 3 * (step * n) + 3 + step * 3 - 3 ≡ 3 * (step * (n + 1))
next_byte step n = rw (← next_index step n) (omega arith)

for_samples-rounds :
    (body : ℕ → ℕ → Memory → Memory) (step left n : ℕ) (s : Memory)
    → for_samples body step left n (step * n) s ≡ rounds_of (λ i. body i (step * i)) left n s
unfolding for_samples rounds_of
for_samples-rounds body step zero n s = refl
for_samples-rounds body step (suc left) n s =
    ap (λ i. for_samples body step left (n + 1) i (body n (step * n) s)) (next_index step n)
    ∙ for_samples-rounds body step left (n + 1) (body n (step * n) s)

for_bytes24-rounds :
    (body : ℕ → ℕ → Memory → Memory) (step left n : ℕ) (s : Memory)
    → for_bytes24 body step left (3 * n) (3 * (step * n)) s
      ≡ rounds_of (λ i. body (3 * i) (3 * (step * i))) left n s
unfolding for_bytes24 rounds_of
for_bytes24-rounds body step zero n s = refl
for_bytes24-rounds body step (suc left) n s =
    rw (next_byte step n, step3 n)
      (for_bytes24-rounds body step left (n + 1) (body (3 * n) (3 * (step * n)) s))
  where
    step3 : (n : ℕ) → 3 * n + 3 ≡ 3 * (n + 1)
    step3 n = omega arith

mul_zero : (step : ℕ) → step * 0 ≡ 0
mul_zero step = grind arith

-- The two loops of the code are such rounds.
pub samples-rounds :
    (body : ℕ → ℕ → Memory → Memory) (step left : ℕ) (s : Memory)
    → for_samples body step left 0 0 s ≡ rounds_of (λ i. body i (step * i)) left 0 s
samples-rounds body step left s =
    ap (λ i. for_samples body step left 0 i s) (sym (mul_zero step))
    ∙ for_samples-rounds body step left 0 s

pub bytes24-rounds :
    (body : ℕ → ℕ → Memory → Memory) (step left : ℕ) (s : Memory)
    → for_bytes24 body step left 0 0 s ≡ rounds_of (λ i. body (3 * i) (3 * (step * i))) left 0 s
bytes24-rounds body step left s =
    ap (λ i. for_bytes24 body step left 0 i s) (sym (ap (λ i. 3 * i) (mul_zero step)))
    ∙ for_bytes24-rounds body step left 0 s
