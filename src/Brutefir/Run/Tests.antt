-- ===== src/Brutefir/Run/Tests.antt =====
-- Tests of `run`, `reset` and `check_overflows` of brutefir/brutefir.cpp, and the theorems about them
-- at a concrete filter.
use foo_dsp_bfir.Base.{
  ℕ, ◌≡◌, refl, true, false, Bool, arith, List, [], ◌∷◌, take, ℤ, ◌==◌, ◌&&◌, update, pos_part,
  neg_part,
}
use foo_dsp_bfir.Brutefir.Config.{Overflow}
use foo_dsp_bfir.Brutefir.Filter.{
  Filter, Outcome, done, aborted, fault, run, run_channels, take_input, convolved, give_output,
  add_blocks, coeff_block, block_index, reset, reset_channels, check_overflows, check_channels,
}
use foo_dsp_bfir.Brutefir.Spec.{play, started}
use foo_dsp_bfir.Brutefir.Run.{Represents, HasCoeffs}
use foo_dsp_bfir.Brutefir.Run.Refine.{Refines, run-Refines}
use foo_dsp_bfir.Brutefir.Run.Reset.{reset-Represents}
use foo_dsp_bfir.Brutefir.Examples.{
  integers, pairs, pairs-IsLawful, two_blocks, one_channel, used_filter,
}

abbrev outbuf_of : Outcome pairs → List ℕ
outbuf_of (done f raw) = raw
outbuf_of (aborted f raw) = []
outbuf_of fault = []

abbrev fresh_filter : Filter pairs
unfolding reset
fresh_filter = reset pairs one_channel used_filter

-- The first block behind the half buffer that was there before the reset.
first_block : outbuf_of (run pairs one_channel (7 ∷ 8 ∷ []) [] fresh_filter) ≡ 1 ∷ 2 ∷ 21 ∷ 32 ∷ []
unfolding run run_channels take_input convolved give_output add_blocks coeff_block block_index
    fresh_filter reset_channels update
first_block = refl

HasCoeffs-one_channel : HasCoeffs pairs one_channel (λ n. two_blocks)
HasCoeffs-one_channel = record {
  data_set = λ n h. refl;
  counted = λ n h. refl;
  nonempty = λ n h. omega arith;
  fits = λ n h. omega arith;
}

reset-Represents_example :
    Represents pairs one_channel
      (λ n. take 2 (used_filter.input_timecbuf n false))
      []
      (reset pairs one_channel used_filter)
reset-Represents_example = reset-Represents pairs one_channel used_filter (omega arith)

run-Refines_example :
    Refines pairs one_channel
      (λ n. take 2 (used_filter.input_timecbuf n false))
      ((7 ∷ 8 ∷ []) ∷ [])
      (run pairs one_channel (7 ∷ 8 ∷ []) [] (reset pairs one_channel used_filter))
      (play pairs one_channel
        (λ n. take 2 (used_filter.input_timecbuf n false))
        (λ n. two_blocks)
        1
        0
        []
        (7 ∷ 8 ∷ [])
        (started pairs (reset pairs one_channel used_filter) []))
run-Refines_example =
    run-Refines pairs pairs-IsLawful one_channel (λ n. take 2 (used_filter.input_timecbuf n false))
      (λ n. two_blocks) [] (reset pairs one_channel used_filter) (7 ∷ 8 ∷ []) []
      HasCoeffs-one_channel (omega arith)
      (reset-Represents pairs one_channel used_filter (omega arith))

same_int : ℤ → ℤ → Bool
same_int a b = (pos_part a == pos_part b) && (neg_part a == neg_part b)

same_int-exact : (a b : ℤ) → same_int a b ≡ true → a ≡ b
unfolding same_int
same_int-exact a b e = ground arith

-- A comparison of two overflow entries, field by field.
same_overflow : Overflow integers → Overflow integers → Bool
same_overflow a b =
    ((a.n_overflows == b.n_overflows) && same_int a.intlargest b.intlargest)
    && (same_int a.largest b.largest && same_int a.max b.max)

same_overflow-exact : (a b : Overflow integers) → same_overflow a b ≡ true → a ≡ b
unfolding same_overflow
same_overflow-exact a b e = ground (
  arith,
  same_int-exact a.intlargest b.intlargest,
  same_int-exact a.largest b.largest,
  same_int-exact a.max b.max,
)

overflow_is_reported : (check_overflows pairs same_overflow one_channel used_filter).1 ≡ true
unfolding check_overflows check_channels same_overflow same_int
overflow_is_reported = refl
