-- ===== src/Brutefir/Delay/Raw/Samples.antt =====
-- Lists of the samples in memory, and parts of them.
use foo_dsp_bfir.Base.{
  ℕ, zero, suc, ◌+◌, ◌-◌, ◌*◌, ◌≤◌, ◌<◌, ◌≡◌, refl, ◌∙◌, ap, arith, List, [], ◌∷◌, ◌++◌, take, drop,
}
use foo_dsp_bfir.Brutefir.Sample.Bytes.{Memory}

module _ {ℓ} {A : Type ℓ} where
  unfoldable pub tabulate : ℕ → (ℕ → A) → List A
  tabulate zero f = []
  tabulate (suc n) f = f 0 ∷ tabulate n (λ k. f (k + 1))

  pub tabulate-eq :
      (n : ℕ) (f g : ℕ → A) → ((k : ℕ) → k < n → f k ≡ g k) → tabulate n f ≡ tabulate n g
  unfolding tabulate
  tabulate-eq zero f g h = refl
  tabulate-eq (suc n) f g h =
      rw
        (
          h 0 (omega arith),
          tabulate-eq n (λ k. f (k + 1)) (λ k. g (k + 1)) (λ k lt. h (k + 1) (omega arith)),
        )
        refl

  same_length :
      (m n : ℕ) (f g : ℕ → A) → m ≡ n → ((k : ℕ) → k < m → f k ≡ g k) → tabulate m f ≡ tabulate n g
  same_length m n f g e h = tabulate-eq m f g h ∙ ap (λ i. tabulate i g) e

  pub take-tabulate : (m n : ℕ) (f : ℕ → A) → m ≤ n → take m (tabulate n f) ≡ tabulate m f
  unfolding tabulate
  take-tabulate zero n f h = refl
  take-tabulate (suc m) zero f h = absurd (omega arith)
  take-tabulate (suc m) (suc n) f h =
      ap (λ r. f 0 ∷ r) (take-tabulate m n (λ k. f (k + 1)) (omega arith))

  pub drop-tabulate :
      (m n : ℕ) (f : ℕ → A) → m ≤ n → drop m (tabulate n f) ≡ tabulate (n - m) (λ k. f (m + k))
  unfolding tabulate
  drop-tabulate zero n f h =
      same_length n (n - 0) f (λ k. f (0 + k)) (omega arith) (λ k lt. ap f (omega arith))
  drop-tabulate (suc m) zero f h = absurd (omega arith)
  drop-tabulate (suc m) (suc n) f h =
      drop-tabulate m n (λ k. f (k + 1)) (omega arith)
      ∙ same_length (n - m) (suc n - suc m) (λ k. f (m + k + 1)) (λ k. f (suc m + k)) (omega arith)
          (λ k lt. ap f (omega arith))

  pub tabulate-append :
      (m n : ℕ) (f g h : ℕ → A)
      → ((k : ℕ) → k < m → f k ≡ h k)
      → ((k : ℕ) → k < n → g k ≡ h (m + k))
      → tabulate m f ++ tabulate n g ≡ tabulate (m + n) h
  unfolding tabulate
  tabulate-append zero n f g h first second =
      same_length n (0 + n) g h (omega arith) (λ k lt. second k lt ∙ ap h (omega arith))
  tabulate-append (suc m) n f g h first second =
      ap (λ r. f 0 ∷ r)
        (tabulate-append m n (λ k. f (k + 1)) g (λ k. h (k + 1))
          (λ k lt. first (k + 1) (omega arith)) (λ k lt. second k lt ∙ ap h (omega arith)))
      ∙ ap (λ x. x ∷ tabulate (m + n) (λ k. h (k + 1))) (first 0 (omega arith))
      ∙ ap (λ i. tabulate i h) (length_suc m n)
    where
      length_suc : (m n : ℕ) → suc (m + n) ≡ suc m + n
      length_suc m n = omega arith

-- The samples of a channel in an interleaved buffer, each as its bytes, and those of a buffer where
-- they lie next to each other.
abbrev pub samples : ℕ → ℕ → ℕ → ℕ → Memory → List (List ℕ)
samples size spacing base n m =
    tabulate n (λ k. tabulate size (λ b. m (base + size * (spacing * k) + b)))

abbrev pub packed : ℕ → ℕ → Memory → List (List ℕ)
packed size n m = tabulate n (λ k. tabulate size (λ b. m (size * k + b)))
