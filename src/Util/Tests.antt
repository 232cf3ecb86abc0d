-- ===== src/Util/Tests.antt =====
-- Tests of brutefir/util.cpp, and the theorems about it at concrete numbers.
use foo_dsp_bfir.Base.{ℕ, ◌<◌, ◌≤◌, ◌≡◌, ◌*◌, ◌^◌, suc, ◌⊎◌, refl, none, some, arith}
use foo_dsp_bfir.Util.{get_next_power_of_two, get_next_multiple, multiple_loop, power_of_two_loop}
use foo_dsp_bfir.Util.Multiple.{get_next_multiple_lem}
use foo_dsp_bfir.Util.PowerOfTwo.{get_next_power_of_two_lem, get_next_power_of_two-none}

next_multiple_of_3 : get_next_multiple 10 7 3 ≡ some 9
unfolding get_next_multiple multiple_loop
next_multiple_of_3 = refl

exact_multiple_of_3 : get_next_multiple 10 6 3 ≡ some 6
unfolding get_next_multiple multiple_loop
exact_multiple_of_3 = refl

next_power_of_5 : get_next_power_of_two 31 5 ≡ some 8
unfolding get_next_power_of_two power_of_two_loop
next_power_of_5 = refl

get_next_multiple_lem_example :
    (j : ℕ) × (get_next_multiple 3000 2500 1024 ≡ some (suc j * 1024))
    × (2500 ≤ suc j * 1024)
    × ((j ≡ 0) ⊎ (j * 1024 < 2500))
get_next_multiple_lem_example =
    get_next_multiple_lem 3000 2500 1024 (omega arith) (omega arith) (omega arith)

get_next_power_of_two_lem_example :
    (j : ℕ) × (get_next_power_of_two 31 1000 ≡ some (2 ^ suc j))
    × (1000 ≤ 2 ^ suc j)
    × ((j ≡ 0) ⊎ (2 ^ j < 1000))
get_next_power_of_two_lem_example = get_next_power_of_two_lem 1000 (omega arith)

get_next_power_of_two-none_example : get_next_power_of_two 40 2147483649 ≡ none
get_next_power_of_two-none_example = get_next_power_of_two-none 40 2147483649 (omega arith)
