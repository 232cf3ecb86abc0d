-- ===== src/Brutefir/Sample/Dither.antt =====
-- brutefir/dither.cpp: the constructor of the class `dither` with its random number generator, and
-- `dither_preloop_real2int_hp_tpdf`. Allocation is taken to succeed; the tables are functions of the
-- index.
use Prim.Native.Nat.{bit_and, bit_xor}
use foo_dsp_bfir.Base.{
  ℕ, zero, suc, ◌+◌, ◌-◌, ◌*◌, ◌/◌, ◌%◌, ◌^◌, ℤ, pos, negsuc, ltb, leb, ◌&&◌, ◌==◌, if◌then◌else◌,
  Option, none, some, update,
}
use foo_dsp_bfir.Brutefir.Real.{Real}
use foo_dsp_bfir.Brutefir.Sample.Bytes.{to_int8}
use foo_dsp_bfir.Brutefir.Sample.Precision.{Precision}
use foo_dsp_bfir.Brutefir.Sample.Quantize.{DitherState, Dither}

-- `TAUSWORTHE` on `uint32_t`
abbrev tausworthe : ℕ → ℕ → ℕ → ℕ → ℕ → ℕ
tausworthe s a b c d =
    bit_xor (bit_and s c * 2 ^ d % 2 ^ 32) (bit_xor (s * 2 ^ a % 2 ^ 32) s / 2 ^ b)

-- `LCG`
abbrev lcg : ℕ → ℕ
lcg n = 69069 * n % 2 ^ 32

pub record Generator : Type 0 where
  pub s0 : ℕ
  pub s1 : ℕ
  pub s2 : ℕ

unfoldable pub tausrand : Generator → Generator × ℕ
tausrand g =
    let s0 = tausworthe g.s0 13 19 4294967294 12 in
    let s1 = tausworthe g.s1 2 25 4294967288 4 in
    let s2 = tausworthe g.s2 3 11 4294967280 17 in
    (record { s0 = s0; s1 = s1; s2 = s2 }, bit_xor (bit_xor s0 s1) s2)

-- `n` calls whose results are not used
warm_up : ℕ → Generator → Generator
unfolding tausrand
warm_up zero g = g
warm_up (suc n) g = warm_up n (tausrand g).0

unfoldable pub tausinit : ℕ → Generator
unfolding warm_up
tausinit seed0 =
    let seed = if seed0 == 0 then 1 else seed0 in
    let s0 = lcg seed in
    let s1 = lcg s0 in let s2 = lcg s1 in warm_up 6 (record { s0 = s0; s1 = s1; s2 = s2 })

-- The loop that fills the table, with `left` entries to go from `n` on.
unfoldable pub fill_randtab : ℕ → ℕ → Generator → (ℕ → ℤ) → ℕ → ℤ
unfolding tausrand update to_int8
fill_randtab zero n g randtab = randtab
fill_randtab (suc left) n g randtab =
    let (g', r) = tausrand g in
    fill_randtab left (n + 1) g' (update randtab n (to_int8 (r % 2 ^ 8)))

-- The number of table entries between two channels, or none where the table is too small. All the
-- products are taken to be within the range of `int`.
unfoldable pub table_spacing : ℕ → ℕ → ℕ → ℕ → Option ℕ
table_spacing n_channels sample_rate max_size max_samples_per_loop =
    let minspacing =
      if ltb max_samples_per_loop sample_rate then sample_rate else max_samples_per_loop in
    let wide = 10 * sample_rate in
    let spacing = if ltb wide minspacing then minspacing else wide in
    let fitted =
      if ltb 0 max_size && ltb max_size (n_channels * spacing)
      then max_size / n_channels
      else spacing in
    if ltb fitted minspacing then none else some fitted

module _ {R : Real} (P : Precision R) where
  open P use {Value, of_int, narrow, add_double, mul_double, neg_double}
  open R use {reciprocal}

  -- 0.5
  abbrev one_half : R.Double
  one_half = reciprocal (R.of_int (pos 2))

  abbrev ramp : ℤ → Value
  ramp k = narrow (
      add_double (add_double one_half (reciprocal (R.of_int (pos 255))))
        (mul_double (reciprocal (R.of_int (pos 255))) (R.of_int k)))

  -- An entry of the map: there are 511 of them, from the index -256 on.
  unfoldable pub map_entry : ℤ → Option Value
  map_entry (negsuc n) =
      if ltb n 255
      then some (ramp (negsuc n))
      else if n == 255
      then some (narrow (neg_double one_half))
      else none
  map_entry (pos n) =
      if ltb n 254
      then some (ramp (pos n))
      else if n == 254
      then some (narrow (add_double (R.of_int (pos 1)) one_half))
      else none

  -- The state of a channel after the constructor.
  unfoldable pub init_state : ℕ → ℕ → DitherState P
  init_state spacing n = record {
    randtab_ptr = n * spacing + 1;
    randtab = 0;
    s0 = of_int (pos 0);
    s1 = of_int (pos 0);
  }

  -- The class and the states of the channels, for a spacing. `randtab` and `memory` are what the
  -- allocated table, and the memory around the map, hold.
  unfoldable pub dither_with :
      ℕ → (ℕ → ℤ) → (ℤ → Value) → (ℕ → DitherState P) → ℕ → Dither P × (ℕ → DitherState P)
  unfolding fill_randtab tausinit map_entry init_state
  dither_with n_channels randtab memory states spacing =
      let size = n_channels * spacing + 1 in
      (
        record {
          randtab = fill_randtab size 0 (tausinit 0) randtab;
          randtab_size = size;
          randmap = λ k. elim (map_entry k) [ none ↦ memory k | some v ↦ v ];
        },
        λ n. if ltb n n_channels then init_state spacing n else states n,
      )

  -- The constructor, or none where it throws.
  unfoldable pub new_dither :
      ℕ
      → ℕ
      → ℕ
      → ℕ
      → (ℕ → ℤ)
      → (ℤ → Value)
      → (ℕ → DitherState P)
      → Option (Dither P × (ℕ → DitherState P))
  unfolding table_spacing dither_with
  new_dither n_channels sample_rate max_size max_samples_per_loop randtab memory states =
      elim (table_spacing n_channels sample_rate max_size max_samples_per_loop) [
        | none ↦ none
        | some spacing ↦ some (dither_with n_channels randtab memory states spacing)
      ]

  -- The table and its pointer for the next loop.
  unfoldable pub preloop : Dither P → DitherState P → ℕ → Dither P × DitherState P
  unfolding update
  preloop d st samples_per_loop =
      let wraps = leb d.randtab_size (st.randtab_ptr + samples_per_loop) in
      let d' =
        if wraps
        then record d { randtab = update d.randtab 0 (d.randtab (st.randtab_ptr - 1)) }
        else d in
      let ptr = if wraps then 1 else st.randtab_ptr in
      (d', record st { randtab = ptr; randtab_ptr = ptr + samples_per_loop })
