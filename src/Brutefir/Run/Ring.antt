-- ===== src/Brutefir/Run/Ring.antt =====
-- The ring of blocks in `cbuf[n]`, which brutefir/brutefir.cpp indexes by the block counter.
use native.Mathlib.Nat.{div-add-mod}
use foo_dsp_bfir.Base.{
  ℕ, zero, suc, ◌+◌, ◌-◌, ◌*◌, ◌/◌, ◌%◌, ◌^◌, ◌<◌, ◌≤◌, ◌≡◌, ◌≢◌, refl, arith, List, [], ◌∷◌, ◌++◌,
  take, length, ap, dec_lt,
}
use foo_dsp_bfir.Brutefir.Filter.{block_index}

-- Fewer than `n` steps back along the ring do not come round to the start.
pub sub-mod-ne : (c i n : ℕ) → 0 < i → i < n → i ≤ c → (c - i) % n ≢ c % n
sub-mod-ne c i n pos small back e = elim (dec_lt ((c - i) / n) (c / n)) [
  | yes lt ↦ omega (arith, e, div-add-mod c n, div-add-mod (c - i) n, next lt)
  | no ge ↦ omega (
    arith,
    e,
    div-add-mod c n,
    div-add-mod (c - i) n,
    same {p = (c - i) / n} {q = c / n} (omega arith),
  )
]
  where
    next : {p q : ℕ} → p < q → n * p + n ≤ n * q
    next h = grind arith

    same : {p q : ℕ} → q ≤ p → n * q ≤ n * p
    same h = grind arith

-- The unsigned subtraction does not wrap while the counter has not.
pub block_index_lem : (c i n : ℕ) → c < 2 ^ 32 → i ≤ c → block_index c i n ≡ (c - i) % n
unfolding block_index
block_index_lem c i n small back = ap (λ (t : ℕ). t % n) (omega arith)

module _ {ℓ} {A : Type ℓ} where
  pub take-append : (n : ℕ) (xs ys : List A) → length xs ≡ n → take n (xs ++ ys) ≡ xs
  take-append zero [] ys h = refl
  take-append zero (x ∷ xs) ys h = absurd (omega arith)
  take-append (suc n) [] ys h = absurd (omega arith)
  take-append (suc n) (x ∷ xs) ys h = ap (λ r. x ∷ r) (take-append n xs ys (omega arith))
