-- ===== src/Util.antt =====
-- brutefir/util.cpp: `get_next_power_of_two` and `get_next_multiple`, on `uint32_t`.
-- A `while` loop takes fuel, and `none` means that the fuel ran out before the loop ended.
-- The conversions `str2wstr` and `wstr2str` only call the C library.
pub mod Multiple
pub mod PowerOfTwo
mod Tests
use foo_dsp_bfir.Base.{ℕ, zero, suc, ◌+◌, ◌*◌, ◌%◌, ◌^◌, Option, none, some, ltb, if◌then◌else◌}

abbrev pub u32 : ℕ → ℕ
u32 n = n % 2 ^ 32

-- `while (value > next_power_of_two) next_power_of_two <<= 1;`
unfoldable pub power_of_two_loop : ℕ → ℕ → ℕ → Option ℕ
power_of_two_loop zero value next = none
power_of_two_loop (suc fuel) value next =
    let rest = power_of_two_loop fuel value (u32 (next * 2)) in
    if ltb next value then rest else some next

unfoldable pub get_next_power_of_two : ℕ → ℕ → Option ℕ
get_next_power_of_two fuel value = power_of_two_loop fuel value 2

-- `while (value > multiple) multiple += factor;`
unfoldable pub multiple_loop : ℕ → ℕ → ℕ → ℕ → Option ℕ
multiple_loop zero value factor multiple = none
multiple_loop (suc fuel) value factor multiple =
    let rest = multiple_loop fuel value factor (u32 (multiple + factor)) in
    if ltb multiple value then rest else some multiple

unfoldable pub get_next_multiple : ℕ → ℕ → ℕ → Option ℕ
get_next_multiple fuel value factor = multiple_loop fuel value factor factor
