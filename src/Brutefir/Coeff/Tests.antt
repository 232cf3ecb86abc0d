-- ===== src/Brutefir/Coeff/Tests.antt =====
-- Tests of the coefficients of brutefir/, and the theorems about them at concrete values.
use mathlib.Core.List.{flatten}
use foo_dsp_bfir.Base.{
  ℕ, ◌<◌, ◌≡◌, ◌*◌, ◌-◌, refl, true, false, arith, pos, negsuc, List, [], ◌∷◌, ◌++◌, map, length,
  replicate, some, none,
}
use foo_dsp_bfir.Brutefir.Run.{HasCoeffs}
use foo_dsp_bfir.Brutefir.Coeff.{
  Coeffs, set_coeff, preprocess_coeff, preprocess_blocks, preprocess_block, coeffs2cbuf, scale_all,
  padded, set_coeff_file,
}
use foo_dsp_bfir.Brutefir.Coeff.Partition.{preprocess_coeff-partition, block_of, AllHalf}
use foo_dsp_bfir.Brutefir.Coeff.Store.{set_coeff-null, SameShape}
use foo_dsp_bfir.Brutefir.Coeff.Ready.{set_coeff-HasCoeffs, blocks_of}
use foo_dsp_bfir.Brutefir.Examples.{pairs, one_channel}

abbrev one_coeffs : Coeffs pairs
one_coeffs = record { conf = one_channel; filter_length = 2; initialized = true }

abbrev three_taps : List ℕ
three_taps = 5 ∷ 6 ∷ 7 ∷ []

-- Three coefficients in two blocks.
two_blocks_of_three :
    preprocess_coeff pairs (some three_taps) 2 2 3 (pos 1)
    ≡ some (some (0 ∷ 0 ∷ 5 ∷ 6 ∷ []) ∷ some (0 ∷ 0 ∷ 7 ∷ 0 ∷ []) ∷ [])
unfolding preprocess_coeff preprocess_blocks preprocess_block coeffs2cbuf scale_all padded
two_blocks_of_three = refl

file_not_found : set_coeff_file pairs true (λ n. none) 2 (pos 1) one_coeffs ≡ (one_coeffs, negsuc 1)
unfolding set_coeff_file
file_not_found = refl

preprocess_coeff-partition_example :
    (hs : List (List ℕ)) × (preprocess_coeff pairs (some three_taps) 2 2 3 (pos 1)
      ≡ some (map (block_of pairs (pos 1)) hs))
    × (length hs ≡ 2)
    × AllHalf pairs (pos 1) hs
    × (flatten hs ≡ map (λ x. x) three_taps ++ replicate (2 * 2 - 3) 0)
preprocess_coeff-partition_example =
    preprocess_coeff-partition pairs (pos 1) three_taps 2 refl refl (refl, (refl, (refl, tt)))
      (omega arith)

set_coeff-null_example :
    let (s', code) = set_coeff pairs (λ m. none) 1 3 2 (pos 1) one_coeffs in
    (code ≡ negsuc 1)
    × (s'.initialized ≡ false)
    × SameShape pairs one_coeffs s'
    × ((k : ℕ) → k < 1 → (s'.conf.coeffs k).blocks ≡ none)
set_coeff-null_example =
    set_coeff-null pairs (λ m. none) 1 3 2 (pos 1) one_coeffs 0 (omega arith) (omega arith) refl

set_coeff-HasCoeffs_example :
    HasCoeffs pairs
      (set_coeff pairs (λ m. some three_taps) 1 3 2 (pos 1) one_coeffs).0.conf
      (blocks_of pairs (pos 1) 2 (λ m. three_taps))
set_coeff-HasCoeffs_example =
    set_coeff-HasCoeffs pairs (pos 1) (λ m. some three_taps) (λ m. three_taps) 1 3 2 one_coeffs refl
      refl refl (omega arith) (omega arith) (omega arith)
      (λ m h. (refl, refl, (refl, (refl, (refl, tt)))))
