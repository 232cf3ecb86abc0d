-- ===== src/Util/PowerOfTwo.antt =====
-- brutefir/util.cpp, `get_next_power_of_two`: the power that it returns, and when it does not return.
use native.Mathlib.Nat.{pow-suc, one-le-pow}
use foo_dsp_bfir.Base.{
  ℕ, zero, suc, ◌*◌, ◌^◌, ◌<◌, ◌≤◌, ◌≡◌, ◌⊎◌, inl, inr, refl, none, some, arith, ltb, ltb→lt,
  ltb→le, lt→ltb, Bool-cases, ap, false,
}
use foo_dsp_bfir.Util.{u32, power_of_two_loop, get_next_power_of_two}

-- The loop stands at the power `2 ^ suc k`, and has passed only smaller ones. `fuel` doublings
-- take it to 2^32.
power_of_two_loop_lem :
    (fuel value k next : ℕ)
    → next ≡ 2 ^ suc k
    → value ≤ 2 ^ 31
    → next * 2 ^ suc fuel ≡ 2 ^ 32
    → (k ≡ 0) ⊎ (2 ^ k < value)
    → (j : ℕ) × (power_of_two_loop (suc fuel) value next ≡ some (2 ^ suc j))
      × (value ≤ 2 ^ suc j)
      × ((j ≡ 0) ⊎ (2 ^ j < value))
unfolding power_of_two_loop
power_of_two_loop_lem zero value k next e small left passed =
    let done : ltb next value ≡ false = ground arith in (k, rw (done, e), omega arith, passed)
power_of_two_loop_lem (suc fuel) value k next e small left passed =
    elim (Bool-cases (ltb next value)) [
      | inl more ↦
          let below : next < value = ltb→lt _ _ more in
          let doubled : u32 (next * 2) ≡ next * 2 = omega arith in
          let rest =
            power_of_two_loop_lem fuel value (suc k) (next * 2) (omega (arith, pow-suc 2 (suc k)))
              small (omega (arith, left, ap (λ (t : ℕ). next * t) (pow-suc 2 (suc fuel))))
              (inr (omega arith)) in
          rw (more, doubled) rest
      | inr done ↦ (k, rw (done, e), omega (arith, ltb→le _ _ done), passed)
    ]

-- For a value of at most 2^31 the loop ends within 31 rounds, and the result is the least power of
-- two that is at least the value and at least 2.
pub get_next_power_of_two_lem :
    (value : ℕ)
    → value ≤ 2 ^ 31
    → (j : ℕ) × (get_next_power_of_two 31 value ≡ some (2 ^ suc j))
      × (value ≤ 2 ^ suc j)
      × ((j ≡ 0) ⊎ (2 ^ j < value))
unfolding get_next_power_of_two
get_next_power_of_two_lem value small =
    power_of_two_loop_lem 30 value 0 2 refl small refl (inl refl)

power_of_two_loop-zero : (fuel value : ℕ) → 0 < value → power_of_two_loop fuel value 0 ≡ none
unfolding power_of_two_loop
power_of_two_loop-zero zero value pos = refl
power_of_two_loop-zero (suc fuel) value pos =
    rw (lt→ltb 0 value pos) (power_of_two_loop-zero fuel value pos)

-- `left` doublings take the word to 2^31, and the next one wraps it to 0.
power_of_two_loop-none :
    (fuel left value next : ℕ)
    → 2 ^ 31 < value
    → next * 2 ^ left ≡ 2 ^ 31
    → power_of_two_loop fuel value next ≡ none
unfolding power_of_two_loop
power_of_two_loop-none zero left value next big e = refl
power_of_two_loop-none (suc fuel) zero value next big e =
    let wrapped : u32 (next * 2) ≡ 0 = omega arith in
    rw (lt→ltb next value (omega arith), wrapped) (power_of_two_loop-zero fuel value (omega arith))
power_of_two_loop-none (suc fuel) (suc left) value next big e =
    let half : next * 2 * 2 ^ left ≡ 2 ^ 31 =
      omega (arith, ap (λ (t : ℕ). next * t) (pow-suc 2 left)) in
    let bound : next * 2 ≤ 2 ^ 31 = grind (arith, one-le-pow left 2) in
    let doubled : u32 (next * 2) ≡ next * 2 = omega arith in
    rw (lt→ltb next value (omega arith), doubled)
      (power_of_two_loop-none fuel left value (next * 2) big half)

-- For a value above 2^31 the loop never ends: the power wraps to 0, whatever the fuel.
pub get_next_power_of_two-none :
    (fuel value : ℕ) → 2 ^ 31 < value → get_next_power_of_two fuel value ≡ none
unfolding get_next_power_of_two
get_next_power_of_two-none fuel value big = power_of_two_loop-none fuel 30 value 2 big refl
