-- ===== src/Brutefir/Mix/Slots.antt =====
-- brutefir/fftw_convolver.cpp: what a group of entries of `mixnscale` holds after each case of the
-- switch: the sum over all buffers, in the order of the buffers.
use foo_dsp_bfir.Base.{
  ℕ, zero, suc, ◌+◌, ◌-◌, ◌≡◌, ◌≢◌, refl, ◌∙◌, arith, ◌==◌, if◌then◌else◌, [], ◌∷◌, Option, some,
  none, update,
}
use foo_dsp_bfir.Brutefir.Spectrum.{Float}
use foo_dsp_bfir.Brutefir.Mix.{
  Slots, Buffer, Store, store_all, add_all, accumulate, store_many, scaled,
}

-- The index that is read for the index `k`; the last slot counts.
abbrev pub found : ℕ → Slots → Option ℕ
found k [] = none
found k ((p, x) ∷ slots) = elim (found k slots) [
  | some y ↦ some y
  | none ↦ if k == p then some x else none
]

-- No index is written twice.
abbrev pub Fresh : ℕ → Slots → Type 0
Fresh p [] = Unit
Fresh p ((q, x) ∷ slots) = (p ≢ q) × Fresh p slots

abbrev pub Distinct : Slots → Type 0
Distinct [] = Unit
Distinct ((p, x) ∷ slots) = Fresh p slots × Distinct slots

found-Fresh : (p : ℕ) (slots : Slots) → Fresh p slots → found p slots ≡ none
found-Fresh p [] h = refl
found-Fresh p ((q, x) ∷ slots) h = ground (arith, found-Fresh p slots h.1)

module _ (F : Float) where
  open F use {Value, add, mul}

  abbrev pub value_at : (ℕ → Value) → Option ℕ → Value → Value
  value_at value none old = old
  value_at value (some x) old = value x

  store_all_lem :
      (value : ℕ → Value) (slots : Slots) (obuf : Buffer F) (k : ℕ)
      → store_all F value slots obuf k ≡ value_at value (found k slots) (obuf k)
  unfolding store_all update
  store_all_lem value [] obuf k = refl
  store_all_lem value ((p, x) ∷ slots) obuf k =
      ground (arith, store_all_lem value slots (update obuf p (value x)) k)

  add_all_lem :
      (value : ℕ → Value) (slots : Slots) (obuf : Buffer F) (k : ℕ)
      → Distinct slots
      → add_all F value slots obuf k
        ≡ value_at (λ x. add (obuf k) (value x)) (found k slots) (obuf k)
  unfolding add_all update
  add_all_lem value [] obuf k h = refl
  add_all_lem value ((p, x) ∷ slots) obuf k h = ground (
    arith,
    found-Fresh p slots h.0,
    add_all_lem value slots (update obuf p (add (obuf p) (value x))) k h.1,
  )

  module _ (ibufs : ℕ → Buffer F) (sscales : ℕ → Value) where
    -- `acc` with `left` buffers to add, from `i` on.
    abbrev sum_from : ℕ → ℕ → Value → ℕ → Value
    sum_from zero i acc x = acc
    sum_from (suc left) i acc x = sum_from left (i + 1) (add acc (scaled F ibufs sscales i x)) x

    -- The sum of the entry `x` of all buffers, each with its scale.
    abbrev pub mixed : ℕ → ℕ → Value
    mixed n_bufs x = sum_from (n_bufs - 1) 1 (scaled F ibufs sscales 0 x) x

    accumulate_lem :
        (left i : ℕ) (slots : Slots) (obuf : Buffer F) (k : ℕ)
        → Distinct slots
        → accumulate F ibufs sscales left i slots obuf k
          ≡ value_at (λ x. sum_from left i (obuf k) x) (found k slots) (obuf k)
    unfolding accumulate
    accumulate_lem zero i slots obuf k h = unchanged (found k slots)
      where
        unchanged : (o : Option ℕ) → obuf k ≡ value_at (λ x. obuf k) o (obuf k)
        unchanged none = refl
        unchanged (some x) = refl
    accumulate_lem (suc left) i slots obuf k h =
        accumulate_lem left (i + 1) slots (add_all F (scaled F ibufs sscales i) slots obuf) k h
        ∙ rw (add_all_lem (scaled F ibufs sscales i) slots obuf k h)
            (joined (found k slots) (obuf k))
      where
        joined :
            (o : Option ℕ) (old : Value)
            → value_at
                (λ x.
                  sum_from left
                    (i + 1)
                    (value_at (λ y. add old (scaled F ibufs sscales i y)) o old)
                    x)
                o
                (value_at (λ y. add old (scaled F ibufs sscales i y)) o old)
              ≡ value_at (λ x. sum_from (suc left) i old x) o old
        joined none old = refl
        joined (some x) old = refl

    -- What a case of the switch does with a group of entries.
    abbrev pub Stores : Store F → (ℕ → Value) → Type 0
    Stores store value =
        (slots : Slots) (obuf : Buffer F) (k : ℕ)
        → Distinct slots
        → store slots obuf k ≡ value_at value (found k slots) (obuf k)

    pub store_all-Stores : (value : ℕ → Value) → Stores (store_all F value) value
    store_all-Stores value slots obuf k h = store_all_lem value slots obuf k

    pub store_many-Stores : (n_bufs : ℕ) → Stores (store_many F ibufs sscales n_bufs) (mixed n_bufs)
    unfolding store_many
    store_many-Stores n_bufs slots obuf k h =
        accumulate_lem (n_bufs - 1) 1 slots (store_all F (scaled F ibufs sscales 0) slots obuf) k h
        ∙ rw (store_all_lem (scaled F ibufs sscales 0) slots obuf k)
            (joined (found k slots) (obuf k))
      where
        joined :
            (o : Option ℕ) (old : Value)
            → value_at
                (λ x. sum_from (n_bufs - 1) 1 (value_at (scaled F ibufs sscales 0) o old) x)
                o
                (value_at (scaled F ibufs sscales 0) o old)
              ≡ value_at (mixed n_bufs) o old
        joined none old = refl
        joined (some x) old = refl
