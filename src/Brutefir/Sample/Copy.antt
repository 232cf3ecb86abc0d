-- ===== src/Brutefir/Sample/Copy.antt =====
-- Loops over the samples of a buffer: what a loop that reads leaves in a buffer of values, and what
-- a loop whose rounds copy samples leaves in memory.
use foo_dsp_bfir.Base.{
  ℕ, zero, suc, ◌+◌, ◌*◌, ◌≤◌, ◌<◌, ◌≡◌, ◌⊎◌, inl, inr, refl, sym, subst, ◌∙◌, ap, arith, update,
  update_self, update_ne,
}
use foo_dsp_bfir.Brutefir.Real.{Real}
use foo_dsp_bfir.Brutefir.Sample.Bytes.{Memory, for_samples}
use foo_dsp_bfir.Brutefir.Sample.Precision.{Precision}
use foo_dsp_bfir.Brutefir.Sample.Raw2Real.{fill}
use foo_dsp_bfir.Brutefir.Sample.Words.{copied}

mul_zero : (step : ℕ) → step * 0 ≡ 0
mul_zero step = grind arith

next_index : (step n : ℕ) → step * n + step ≡ step * (n + 1)
next_index step n = grind arith

ℕ-split : (n k : ℕ) → n ≤ k → (n ≡ k) ⊎ (n < k)
ℕ-split n k h = ground arith

module _ {A : Type 0} (read : ℕ → A) (step : ℕ) where
  abbrev store : ℕ → ℕ → (ℕ → A) → ℕ → A
  store n i buf = update buf n (read i)

  -- Later rounds leave the earlier values.
  kept : (left n i k : ℕ) (buf : ℕ → A) → k < n → for_samples store step left n i buf k ≡ buf k
  unfolding for_samples
  kept zero n i k buf h = refl
  kept (suc left) n i k buf h =
      kept left (n + 1) (i + step) k (store n i buf) (omega arith)
      ∙ update_ne buf n k (read i) (λ e. absurd (omega arith))

  filled :
      (left n k : ℕ) (buf : ℕ → A)
      → n ≤ k
      → k < n + left
      → for_samples store step left n (step * n) buf k ≡ read (step * k)
  unfolding for_samples
  filled zero n k buf lo hi = absurd (omega arith)
  filled (suc left) n k buf lo hi = elim (ℕ-split n k lo) [
    | inl e ↦
        kept left (n + 1) (step * n + step) k (store n (step * n) buf) (omega arith)
        ∙ rw (← e) (update_self buf n (read (step * n)))
    | inr lt ↦
        rw (next_index step n)
          (filled left (n + 1) k (store n (step * n) buf) (omega arith) (omega arith))
  ]

-- What one loop reads: the value of each sample.
pub fill-read :
    {R : Real} (P : Precision R) (read : ℕ → P.Value) (step n_samples : ℕ) (buf : ℕ → P.Value)
    (k : ℕ)
    → k < n_samples
    → fill P read step n_samples buf k ≡ read (step * k)
unfolding fill
fill-read P read step n_samples buf k h =
    subst (λ i. for_samples (store read step) step n_samples 0 i buf k ≡ read (step * k))
      (mul_zero step) (filled read step n_samples 0 k buf (omega arith) (omega arith))

module _ {S : Type 0} (memory : S → Memory) (m : Memory) (size step : ℕ) (address : ℕ → ℕ)
    (body : ℕ → ℕ → S → S) (n_samples : ℕ)
    (copies : (n j : ℕ) (s : S)
      → n < n_samples
      → memory (body n (step * n) s) j ≡ copied m (memory s) (address (step * n)) size j) where
  -- The byte `j` lies in the sample `k`.
  abbrev Inside : ℕ → ℕ → Type 0
  Inside k j = (address (step * k) ≤ j) × (j < address (step * k) + size)

  abbrev round : ℕ → S → S
  round n s = body n (step * n) s

  abbrev loop : ℕ → ℕ → S → S
  loop left n s = for_samples body step left n (step * n) s

  loop-next : (left n : ℕ) (s : S) → loop (suc left) n s ≡ loop left (n + 1) (round n s)
  unfolding for_samples
  loop-next left n s =
      ap (λ i. for_samples body step left (n + 1) i (round n s)) (next_index step n)

  -- A byte that is right stays right.
  same_kept :
      (left n j : ℕ) (s : S)
      → n + left ≡ n_samples
      → memory s j ≡ m j
      → memory (loop left n s) j ≡ m j
  unfolding for_samples
  same_kept zero n j s e h = h
  same_kept (suc left) n j s e h = rw (loop-next left n s) (
      same_kept left (n + 1) j (round n s) (omega arith)
        (ground (arith, copies n j s (omega arith))))

  -- The bytes of each sample are those of `m` afterwards.
  pub samples_copied :
      (left n k j : ℕ) (s : S)
      → n + left ≡ n_samples
      → n ≤ k
      → k < n_samples
      → Inside k j
      → memory (loop left n s) j ≡ m j
  unfolding for_samples
  samples_copied zero n k j s e lo hi inside = absurd (omega arith)
  samples_copied (suc left) n k j s e lo hi inside =
      rw (loop-next left n s) (elim (ℕ-split n k lo) [
        | inl same ↦ same_kept left (n + 1) j (round n s) (omega arith) (
            copies n j s (omega arith)
            ∙ inside_copied n j s (subst (λ i. Inside i j) (sym same) inside))
        | inr lt ↦ samples_copied left (n + 1) k j (round n s) (omega arith) (omega arith) hi inside
      ])
    where
      inside_copied :
          (n j : ℕ) (s : S) → Inside n j → copied m (memory s) (address (step * n)) size j ≡ m j
      inside_copied n j s h = ground arith

  -- A byte that lies in no sample is left as it is.
  pub others_kept :
      (left n j : ℕ) (s : S)
      → n + left ≡ n_samples
      → ((k : ℕ) → k < n_samples → ¬ Inside k j)
      → memory (loop left n s) j ≡ memory s j
  unfolding for_samples
  others_kept zero n j s e out = refl
  others_kept (suc left) n j s e out = rw (loop-next left n s) (
      others_kept left (n + 1) j (round n s) (omega arith) out
      ∙ copies n j s (omega arith)
      ∙ outside_copied n j s (out n (omega arith)))
    where
      outside_copied :
          (n j : ℕ) (s : S)
          → ¬ Inside n j
          → copied m (memory s) (address (step * n)) size j ≡ memory s j
      outside_copied n j s h = ground (arith, λ (p : Inside n j). h p)

  from_start : (s : S) → for_samples body step n_samples 0 0 s ≡ loop n_samples 0 s
  from_start s = ap (λ i. for_samples body step n_samples 0 i s) (sym (mul_zero step))

  pub loop-sample :
      (k j : ℕ) (s : S)
      → k < n_samples
      → Inside k j
      → memory (for_samples body step n_samples 0 0 s) j ≡ m j
  loop-sample k j s h inside =
      rw (from_start s) (samples_copied n_samples 0 k j s (omega arith) (omega arith) h inside)

  pub loop-other :
      (j : ℕ) (s : S)
      → ((k : ℕ) → k < n_samples → ¬ Inside k j)
      → memory (for_samples body step n_samples 0 0 s) j ≡ memory s j
  loop-other j s out = rw (from_start s) (others_kept n_samples 0 j s (omega arith) out)
