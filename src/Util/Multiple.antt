-- ===== src/Util/Multiple.antt =====
-- brutefir/util.cpp, `get_next_multiple`: the multiple that it returns.
use foo_dsp_bfir.Base.{
  ℕ, zero, suc, ◌+◌, ◌*◌, ◌-◌, ◌^◌, ◌<◌, ◌≤◌, ◌≡◌, ◌⊎◌, inl, inr, refl, some, arith, ltb, ltb→lt,
  ltb→le, Bool-cases,
}
use foo_dsp_bfir.Util.{u32, multiple_loop, get_next_multiple}

-- The loop stands at the multiple `suc k * factor`, and has passed only smaller ones.
multiple_loop_lem :
    (fuel value factor k : ℕ)
    → 0 < factor
    → value + factor ≤ 2 ^ 32
    → value - suc k * factor < fuel
    → (k ≡ 0) ⊎ (k * factor < value)
    → (j : ℕ) × (multiple_loop fuel value factor (suc k * factor) ≡ some (suc j * factor))
      × (value ≤ suc j * factor)
      × ((j ≡ 0) ⊎ (j * factor < value))
unfolding multiple_loop
multiple_loop_lem zero value factor k pos fits enough passed = elim enough [ ]
multiple_loop_lem (suc fuel) value factor k pos fits enough passed =
    elim (Bool-cases (ltb (suc k * factor) value)) [
      | inl more ↦
          let below : suc k * factor < value = ltb→lt _ _ more in
          let next : u32 (suc k * factor + factor) ≡ suc (suc k) * factor = omega arith in
          let rest =
            multiple_loop_lem fuel value factor (suc k) pos fits (omega arith) (inr below) in
          rw (more, next) rest
      | inr done ↦ (k, rw done, omega (arith, ltb→le _ _ done), passed)
    ]

-- For a positive factor such that the sum of value and factor does not exceed 2^32, and with fuel
-- above the value, the loop ends, and the result is the least positive multiple of the factor that
-- is at least the value.
pub get_next_multiple_lem :
    (fuel value factor : ℕ)
    → 0 < factor
    → value + factor ≤ 2 ^ 32
    → value < fuel
    → (j : ℕ) × (get_next_multiple fuel value factor ≡ some (suc j * factor))
      × (value ≤ suc j * factor)
      × ((j ≡ 0) ⊎ (j * factor < value))
unfolding get_next_multiple
get_next_multiple_lem fuel value factor pos fits enough =
    let rest = multiple_loop_lem fuel value factor 0 pos fits (omega arith) (inl refl) in
    let once : 1 * factor ≡ factor = omega arith in rw once at rest
