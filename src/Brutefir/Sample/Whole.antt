-- ===== src/Brutefir/Sample/Whole.antt =====
-- The quantization without dither of brutefir/dither.cpp on whole numbers.
use foo_dsp_bfir.Base.{
  ℕ, ◌+◌, ◌-◌, ◌%◌, ◌^◌, ◌<◌, ◌≡◌, refl, arith, ℤ, pos, negsuc, ◌≤ℤ◌, ltb_ℤ, eq_ℤ, sub_ℕ, pos_part,
  Bool, true, false, ◌==◌, if◌then◌else◌, Bool-cases, inl, inr,
}
use foo_dsp_bfir.Brutefir.Real.{Real}
use foo_dsp_bfir.Brutefir.Config.{Overflow, to_int32}
use foo_dsp_bfir.Brutefir.Sample.Precision.{Precision}
use foo_dsp_bfir.Brutefir.Sample.Bytes.{word_of}
use foo_dsp_bfir.Brutefir.Sample.Quantize.{
  quantize, count_overflow, lower_intlargest, raise_intlargest, real2int_no_dither, dec_int32,
  neg_int32,
}
use foo_dsp_bfir.Brutefir.Sample.Real2Raw.{int_min, int_max}

-- A whole number that lies within the integers of `bits` bits.
abbrev pub Fits : ℕ → ℤ → Type 0
Fits bits k = (int_min bits ≤ℤ k) × (k ≤ℤ int_max bits)

-- What is used of the "float" type: a whole number of `bits` bits and a half is exact. It is
-- compared with 0 and with the bounds as the number itself, and the cast cuts off the half towards 0.
pub record RepresentsInts {R : Real} (P : Precision R) (bits : ℕ) : Type 0 where
  pub half_above :
      (n : ℕ)
      → pos n ≤ℤ int_max bits
      → P.lt (P.add_half (P.of_int (pos n))) (P.of_int (pos 0)) ≡ false
  pub half-gt_max :
      (n : ℕ)
      → pos n ≤ℤ int_max bits
      → P.lt (P.of_int (int_max bits)) (P.add_half (P.of_int (pos n)))
        ≡ (n == pos_part (int_max bits))
  pub trunc_above :
      (n : ℕ) → pos n ≤ℤ int_max bits → P.trunc (P.add_half (P.of_int (pos n))) ≡ pos n
  pub half_below :
      (n : ℕ)
      → int_min bits ≤ℤ negsuc n
      → P.lt (P.add_half (P.of_int (negsuc n))) (P.of_int (pos 0)) ≡ true
  pub half-gt_min :
      (n : ℕ)
      → int_min bits ≤ℤ negsuc n
      → P.le (P.add_half (P.of_int (negsuc n))) (P.of_int (int_min bits)) ≡ false
  pub trunc_below :
      (n : ℕ) → int_min bits ≤ℤ negsuc n → P.trunc (P.add_half (P.of_int (negsuc n))) ≡ sub_ℕ 0 n

eq-pos : (n : ℕ) (k : ℤ) → pos n ≤ℤ k → (n == pos_part k) ≡ true → k ≡ pos n
eq-pos n k h e = ground arith

to_int32-ge : (w : ℕ) → negsuc (2 ^ 31 - 1) ≤ℤ to_int32 w
unfolding to_int32
to_int32-ge w = ground arith

int_min-le : (bits n : ℕ) → int_min bits ≤ℤ negsuc n → n < 2 ^ 31
unfolding int_min
int_min-le bits n h = omega (arith, to_int32-ge (2 ^ 32 - 2 ^ (bits - 1)))

dec_int32-sub : (n : ℕ) → n < 2 ^ 31 → dec_int32 (sub_ℕ 0 n) ≡ negsuc n
unfolding dec_int32 word_of to_int32
dec_int32-sub n h = ground arith

if_n_overflows :
    {R : Real} (b : Bool) (x y : Overflow R)
    → x.n_overflows ≡ y.n_overflows
    → (if b then x else y).n_overflows ≡ y.n_overflows
if_n_overflows true x y e = e
if_n_overflows false x y e = refl

pos-eq_ℤ : (n : ℕ) (k : ℤ) → pos n ≤ℤ k → eq_ℤ (pos n) k ≡ (n == pos_part k)
pos-eq_ℤ n k h = ground arith

negsuc-eq_ℤ : (n : ℕ) (k : ℤ) → pos 0 ≤ℤ k → eq_ℤ (negsuc n) k ≡ false
negsuc-eq_ℤ n k h = ground arith

module _ {R : Real} (P : Precision R) (bits : ℕ) (q : RepresentsInts P bits) where
  open q use {half_above, half-gt_max, trunc_above, half_below, half-gt_min, trunc_below}

  pub real2int_no_dither-whole :
      (k : ℤ) (o : Overflow R)
      → Fits bits k
      → (real2int_no_dither P
          (P.of_int k)
          (P.of_int (int_min bits))
          (P.of_int (int_max bits))
          (int_min bits)
          (int_max bits)
          o).0
        ≡ k
  unfolding real2int_no_dither quantize
  real2int_no_dither-whole (pos n) o h = elim (Bool-cases (n == pos_part (int_max bits))) [
    | inl top ↦ rw (half_above n h.1, half-gt_max n h.1, top) (eq-pos n (int_max bits) h.1 top)
    | inr below ↦ rw (half_above n h.1, half-gt_max n h.1, below) (trunc_above n h.1)
  ]
  real2int_no_dither-whole (negsuc n) o h =
      rw (half_below n h.0, half-gt_min n h.0, trunc_below n h.0)
        (dec_int32-sub n (int_min-le bits n h.0))

  abbrev pub quantized : ℤ → Overflow R → ℤ × Overflow R
  quantized k o =
      real2int_no_dither P (P.of_int k) (P.of_int (int_min bits)) (P.of_int (int_max bits))
        (int_min bits) (int_max bits) o

  abbrev pub counted : ℤ → Overflow R → ℕ
  counted k o = if eq_ℤ k (int_max bits) then (o.n_overflows + 1) % 2 ^ 32 else o.n_overflows

  clipped-counted :
      (n : ℕ) (o : Overflow R)
      → pos n ≤ℤ int_max bits
      → (n == pos_part (int_max bits)) ≡ true
      → (quantized (pos n) o).1.n_overflows ≡ (o.n_overflows + 1) % 2 ^ 32
  unfolding real2int_no_dither quantize count_overflow
  clipped-counted n o h top =
      rw (half_above n h, half-gt_max n h, top)
        (if_n_overflows (P.lt_double o.largest (P.widen (P.add_half (P.of_int (pos n))))) _ _ refl)

  unclipped-counted :
      (n : ℕ) (o : Overflow R)
      → pos n ≤ℤ int_max bits
      → (n == pos_part (int_max bits)) ≡ false
      → (quantized (pos n) o).1.n_overflows ≡ o.n_overflows
  unfolding real2int_no_dither quantize raise_intlargest
  unclipped-counted n o h below =
      rw (half_above n h, half-gt_max n h, below)
        (if_n_overflows (ltb_ℤ o.intlargest (P.trunc (P.add_half (P.of_int (pos n))))) _ _ refl)

  below-counted :
      (n : ℕ) (o : Overflow R)
      → int_min bits ≤ℤ negsuc n
      → (quantized (negsuc n) o).1.n_overflows ≡ o.n_overflows
  unfolding real2int_no_dither quantize lower_intlargest
  below-counted n o h =
      rw (half_below n h, half-gt_min n h)
        (if_n_overflows
          (ltb_ℤ (dec_int32 (P.trunc (P.add_half (P.of_int (negsuc n))))) (neg_int32 o.intlargest))
          _ _ refl)

  quantized-counted :
      (k : ℤ) (o : Overflow R)
      → pos 0 ≤ℤ int_max bits
      → Fits bits k
      → (quantized k o).1.n_overflows ≡ counted k o
  quantized-counted (pos n) o z h = elim (Bool-cases (n == pos_part (int_max bits))) [
    | inl top ↦ rw (pos-eq_ℤ n (int_max bits) h.1, top) (clipped-counted n o h.1 top)
    | inr below ↦ rw (pos-eq_ℤ n (int_max bits) h.1, below) (unclipped-counted n o h.1 below)
  ]
  quantized-counted (negsuc n) o z h = rw (negsuc-eq_ℤ n (int_max bits) z) (below-counted n o h.0)

  -- Without dither, for a "float" type that holds the integers of the size, and a half more, exactly: a
  -- whole number within the range comes out as itself. It is counted as an overflow exactly if it is
  -- the largest number of the range, from which nothing is cut off; the count is an `unsigned int`.
  -- The range holds 0.
  pub real2int_no_dither_lem :
      (k : ℤ) (o : Overflow R)
      → pos 0 ≤ℤ int_max bits
      → Fits bits k
      → ((quantized k o).0 ≡ k) × ((quantized k o).1.n_overflows ≡ counted k o)
  real2int_no_dither_lem k o z h = (real2int_no_dither-whole k o h, quantized-counted k o z h)
