-- ===== src/Brutefir/Delay/Blocks.antt =====
-- The buffers of the ring of brutefir/delay.cpp, read from an index on.
use foo_dsp_bfir.Base.{
  ℕ, zero, suc, ◌+◌, ◌-◌, ◌<◌, ◌≤◌, ◌≡◌, ◌≢◌, refl, sym, ap, ap₂, ◌∙◌, arith, ltb, ◌==◌,
  if◌then◌else◌, List, [], ◌++◌, append_assoc, append-nil, update, update_ne, ℕ_discrete,
}

-- An index of the ring behind its end, once around.
abbrev pub wrap : ℕ → ℕ → ℕ
wrap n i = if ltb i n then i else i - n

module _ {A : Type 0} where
  -- The samples of `k` buffers from `i` on.
  abbrev pub blocks : ℕ → (ℕ → List A) → ℕ → ℕ → List A
  blocks n F zero i = []
  blocks n F (suc k) i = F (wrap n i) ++ blocks n F k (i + 1)

  pub blocks-snoc :
      (n : ℕ) (F : ℕ → List A) (k i : ℕ)
      → blocks n F (suc k) i ≡ blocks n F k i ++ F (wrap n (i + k))
  blocks-snoc n F zero i = append-nil (F (wrap n i)) ∙ ap (λ (j : ℕ). F (wrap n j)) (omega arith)
  blocks-snoc n F (suc k) i =
      ap (λ (r : List A). F (wrap n i) ++ r)
        (blocks-snoc n F k (i + 1)
          ∙ ap (λ (j : ℕ). blocks n F k (i + 1) ++ F (wrap n j)) {x = i + 1 + k} {y = i + suc k}
              (omega arith))
      ∙ sym (append_assoc (F (wrap n i)) (blocks n F k (i + 1)) (F (wrap n (i + suc k))))

  pub blocks-update :
      (n : ℕ) (F : ℕ → List A) (c : ℕ) (v : List A) (k i : ℕ)
      → ((j : ℕ) → i ≤ j → j < i + k → wrap n j ≢ c)
      → blocks n (update F c v) k i ≡ blocks n F k i
  blocks-update n F c v zero i ne = refl
  blocks-update n F c v (suc k) i ne =
      ap₂ ◌++◌ (update_ne F c (wrap n i) v (ne i (omega arith) (omega arith)))
        (blocks-update n F c v k (i + 1) (λ j low high. ne j (omega arith) (omega arith)))

  blocks-wrap :
      (n : ℕ) (F : ℕ → List A) (k i : ℕ) → i + k ≤ n → blocks n F k (i + n) ≡ blocks n F k i
  blocks-wrap n F zero i h = refl
  blocks-wrap n F (suc k) i h = ap₂ ◌++◌ (ap F {x = wrap n (i + n)} {y = wrap n i} (ground arith)) (
      ap (blocks n F k) {x = i + n + 1} {y = i + 1 + n} (omega arith)
      ∙ blocks-wrap n F k (i + 1) (omega arith))

  pub next_start :
      (n : ℕ) (F : ℕ → List A) (k c : ℕ)
      → c < n
      → k < n
      → blocks n F k ((if c + 1 == n then 0 else c + 1) + 1) ≡ blocks n F k (c + 2)
  next_start n F k c h small = elim (ℕ_discrete (c + 1) n) [
    | yes end ↦
        ap (blocks n F k) {y = 1} (ground arith)
        ∙ sym (blocks-wrap n F k 1 (omega arith))
        ∙ ap (blocks n F k) {x = 1 + n} (omega arith)
    | no inner ↦ ap (blocks n F k) (ground arith)
  ]
