-- ===== src/Brutefir/Sample/Range.antt =====
-- brutefir/dither.cpp: the integers that quantization gives lie within the range of the format.
use foo_dsp_bfir.Base.{
  ℕ, ◌+◌, ◌-◌, ◌^◌, ◌≡◌, ◌⊎◌, refl, subst, sym, arith, ℤ, pos, negsuc, sub_ℕ, ◌≤ℤ◌, true, false,
  not, Bool-cases, inl, inr,
}
use foo_dsp_bfir.Brutefir.Real.{Real}
use foo_dsp_bfir.Brutefir.Config.{Overflow, to_int32}
use foo_dsp_bfir.Brutefir.Sample.Precision.{Precision}
use foo_dsp_bfir.Brutefir.Sample.Bytes.{word_of}
use foo_dsp_bfir.Brutefir.Sample.Quantize.{
  quantize, Dither, DitherState, map_index, real2int_hp_tpdf, real2int_no_dither, dec_int32,
}
use foo_dsp_bfir.Brutefir.Sample.Real2Raw.{int_min, int_max}
use foo_dsp_bfir.Brutefir.Sample.Whole.{Fits}

-- `k + 1` and `k - 1`
abbrev pub next_ℤ : ℤ → ℤ
next_ℤ (pos n) = pos (n + 1)
next_ℤ (negsuc n) = sub_ℕ 0 n

abbrev pub prev_ℤ : ℤ → ℤ
prev_ℤ (pos n) = sub_ℕ n 1
prev_ℤ (negsuc n) = negsuc (n + 1)

-- What is used of the "float" type for a size of `bits` bits. `IsNumber` is false of what is not a
-- number; numbers are ordered, and the order of whole numbers is kept, where neighbours may fall
-- together unless they lie in the range, or just above it. The cast to `int32_t` cuts towards 0: a
-- number in the range lies between what it is cut to and the next whole number away from 0.
pub record CutsTowardsZero {R : Real} (P : Precision R) (IsNumber : P.Value → Type 0) (bits : ℕ)
    : Type 0 where
  pub whole : (k : ℤ) → IsNumber (P.of_int k)
  pub total : (u v : P.Value) → IsNumber u → IsNumber v → P.le u v ≡ not (P.lt v u)
  pub trans :
      (u v w : P.Value)
      → IsNumber u
      → IsNumber v
      → IsNumber w
      → P.le u v ≡ true
      → P.le v w ≡ true
      → P.le u w ≡ true
  pub keeps_order : (a b : ℤ) → a ≤ℤ b → P.le (P.of_int a) (P.of_int b) ≡ true
  pub exact_end : P.lt (P.of_int (int_max bits)) (P.of_int (next_ℤ (int_max bits))) ≡ true
  pub cut_above :
      (v : P.Value)
      → IsNumber v
      → P.lt v (P.of_int (pos 0)) ≡ false
      → P.lt v (P.of_int (next_ℤ (int_max bits))) ≡ true
      → (pos 0 ≤ℤ P.trunc v)
        × (P.le (P.of_int (P.trunc v)) v ≡ true)
        × (P.lt v (P.of_int (next_ℤ (P.trunc v))) ≡ true)
  pub cut_below :
      (v : P.Value)
      → IsNumber v
      → P.lt v (P.of_int (pos 0)) ≡ true
      → P.lt (P.of_int (int_min bits)) v ≡ true
      → (P.trunc v ≤ℤ pos 0)
        × (P.le v (P.of_int (P.trunc v)) ≡ true)
        × (P.lt (P.of_int (prev_ℤ (P.trunc v))) v ≡ true)

int_min-ge : (bits : ℕ) → negsuc (2 ^ 31 - 1) ≤ℤ int_min bits
unfolding int_min to_int32
int_min-ge bits = ground arith

-- The integers of `bits` bits lie on both sides of 0.
abbrev pub AroundZero : ℕ → Type 0
AroundZero bits = (int_min bits ≤ℤ negsuc 0) × (pos 0 ≤ℤ int_max bits)

dec_int32-prev_ℤ :
    (k lo : ℤ) → negsuc (2 ^ 31 - 1) ≤ℤ lo → k ≤ℤ pos 0 → ¬ (k ≤ℤ lo) → dec_int32 k ≡ prev_ℤ k
unfolding dec_int32 word_of to_int32
dec_int32-prev_ℤ (pos n) lo b h ne = ground arith
dec_int32-prev_ℤ (negsuc n) lo b h ne = ground (arith, λ (p : negsuc n ≤ℤ lo). ne p)

next_ℤ-prev_ℤ : (k : ℤ) → next_ℤ (prev_ℤ k) ≡ k
next_ℤ-prev_ℤ (pos n) = ground arith
next_ℤ-prev_ℤ (negsuc n) = ground arith

prev_ℤ-between :
    (k lo hi : ℤ)
    → (lo ≤ℤ negsuc 0) × (pos 0 ≤ℤ hi)
    → ¬ (k ≤ℤ lo)
    → k ≤ℤ pos 0
    → (lo ≤ℤ prev_ℤ k) × (prev_ℤ k ≤ℤ hi)
prev_ℤ-between (pos n) lo hi around ne up = ground (arith, ne)
prev_ℤ-between (negsuc n) lo hi around ne up = ground (arith, λ (p : negsuc n ≤ℤ lo). ne p)

ℤ-below : (a b : ℤ) → (a ≤ℤ b) ⊎ (next_ℤ b ≤ℤ a)
ℤ-below (pos a) (pos b) = ground arith
ℤ-below (pos a) (negsuc b) = ground arith
ℤ-below (negsuc a) (pos b) = ground arith
ℤ-below (negsuc a) (negsuc b) = ground arith

module _ {R : Real} (P : Precision R) (IsNumber : P.Value → Type 0) (bits : ℕ)
    (around : AroundZero bits) (cut : CutsTowardsZero P IsNumber bits) where
  -- `r` is what a value is brought to: the end of the range for a value at its lower end or below, or
  -- above its upper end; else the whole number next below the value, and a whole number below 0 gives
  -- the one under it.
  abbrev pub IsQuantized : P.Value → ℤ → Type 0
  IsQuantized v r =
      ((P.le v (P.of_int (int_min bits)) ≡ true) × (r ≡ int_min bits))
      ⊎ (((P.lt (P.of_int (int_max bits)) v ≡ true) × (r ≡ int_max bits))
          ⊎ (((P.lt v (P.of_int (pos 0)) ≡ true)
                × (P.lt (P.of_int r) v ≡ true)
                × (P.le v (P.of_int (next_ℤ r)) ≡ true))
              ⊎ ((P.lt v (P.of_int (pos 0)) ≡ false)
                  × (P.le (P.of_int r) v ≡ true)
                  × (P.lt v (P.of_int (next_ℤ r)) ≡ true))))

  le-from_lt : (u v : P.Value) → IsNumber u → IsNumber v → P.lt v u ≡ false → P.le u v ≡ true
  le-from_lt u v nu nv e = rw (cut.total u v nu nv, e) refl

  lt-from_le : (u v : P.Value) → IsNumber u → IsNumber v → P.le u v ≡ false → P.lt v u ≡ true
  lt-from_le u v nu nv e = ground (arith, cut.total u v nu nv, e)

  not-lt : (u v : P.Value) → IsNumber u → IsNumber v → P.le u v ≡ true → P.lt v u ≡ false
  not-lt u v nu nv e = ground (arith, cut.total u v nu nv, e)

  -- A number up to the upper end is below the next whole number.
  below_next :
      (v : P.Value)
      → IsNumber v
      → P.lt (P.of_int (int_max bits)) v ≡ false
      → P.lt v (P.of_int (next_ℤ (int_max bits))) ≡ true
  below_next v number low = elim (Bool-cases (P.lt v (P.of_int (next_ℤ (int_max bits))))) [
    | inl e ↦ e
    | inr e ↦
        let top = P.of_int (int_max bits) in
        let next = P.of_int (next_ℤ (int_max bits)) in
        let le =
          cut.trans next v top (cut.whole _) number (cut.whole _)
            (le-from_lt next v (cut.whole _) number e)
            (le-from_lt v top number (cut.whole _) low) in
        absurd (cc (cut.exact_end, not-lt next top (cut.whole _) (cut.whole _) le))
  ]

  cut_above-le :
      (v : P.Value)
      → IsNumber v
      → P.le (P.of_int (P.trunc v)) v ≡ true
      → P.lt v (P.of_int (next_ℤ (int_max bits))) ≡ true
      → P.trunc v ≤ℤ int_max bits
  cut_above-le v number le lt = elim (ℤ-below (P.trunc v) (int_max bits)) [
    | inl h ↦ h
    | inr h ↦
        let next = P.of_int (next_ℤ (int_max bits)) in
        let whole =
          cut.trans next (P.of_int (P.trunc v)) v (cut.whole _) (cut.whole _) number
            (cut.keeps_order (next_ℤ (int_max bits)) (P.trunc v) h) le in
        absurd (cc (lt, not-lt next v (cut.whole _) number whole))
  ]

  cut_below-gt :
      (v : P.Value)
      → IsNumber v
      → P.le v (P.of_int (P.trunc v)) ≡ true
      → P.lt (P.of_int (int_min bits)) v ≡ true
      → ¬ (P.trunc v ≤ℤ int_min bits)
  cut_below-gt v number le lt h =
      let low = P.of_int (int_min bits) in
      let whole =
        cut.trans v (P.of_int (P.trunc v)) low number (cut.whole _) (cut.whole _) le
          (cut.keeps_order (P.trunc v) (int_min bits) h) in
      cc (lt, not-lt v low number (cut.whole _) whole)

  back :
      (v : P.Value)
      → P.le v (P.of_int (P.trunc v)) ≡ true
      → P.le v (P.of_int (next_ℤ (prev_ℤ (P.trunc v)))) ≡ true
  back v le = subst (λ k. P.le v (P.of_int k) ≡ true) (sym (next_ℤ-prev_ℤ (P.trunc v))) le

  quantize-IsQuantized :
      (real v : P.Value) (o : Overflow R)
      → IsNumber v
      → let r =
          (quantize P real v
            (P.of_int (int_min bits))
            (P.of_int (int_max bits))
            (int_min bits)
            (int_max bits)
            o).0 in
        Fits bits r × IsQuantized v r
  unfolding quantize
  quantize-IsQuantized real v o number = elim (Bool-cases (P.lt v (P.of_int (pos 0)))) [
    | inl below ↦ elim (Bool-cases (P.le v (P.of_int (int_min bits)))) [
      | inl low ↦ rw (below, low) ((omega arith, omega arith), inl (refl, refl))
      | inr high ↦
          let low = lt-from_le v (P.of_int (int_min bits)) number (cut.whole _) high in
          let bounds = cut.cut_below v number below low in
          let under = cut_below-gt v number bounds.1 low in
          rw
            (
              below,
              high,
              dec_int32-prev_ℤ (P.trunc v) (int_min bits) (int_min-ge bits) bounds.0 under,
            )
            (
              prev_ℤ-between (P.trunc v) (int_min bits) (int_max bits) around under bounds.0,
              inr (inr (inl (refl, bounds.2, back v bounds.1))),
            )
    ]
    | inr above ↦ elim (Bool-cases (P.lt (P.of_int (int_max bits)) v)) [
      | inl high ↦ rw (above, high) ((omega arith, omega arith), inr (inl (refl, refl)))
      | inr low ↦
          let next = below_next v number low in
          let bounds = cut.cut_above v number above next in
          rw (above, low)
            (
              (omega (arith, bounds.0), cut_above-le v number bounds.1 next),
              inr (inr (inr (refl, bounds.1, bounds.2))),
            )
    ]
  ]

  -- What the two functions make of a sample: `v` is the sample with the error of the one before and
  -- the dither, or, without dither, the sample and 0.5. For a "float" type whose whole numbers are
  -- exact up to just above the range, and whose cast cuts towards 0 there, where `v` is a number: the
  -- integer lies within the range of the format. It is the lower end for `v` at that end or below,
  -- and the upper end for `v` above that; between them it is the whole number next below `v`, where a
  -- `v` below 0 that is whole gives the one under it. The range holds -1 and 0.
  pub real2int-IsQuantized :
      (d : Dither P) (sample : P.Value) (o : Overflow R) (st : DitherState P) (n : ℕ)
      → IsNumber (P.add (P.add sample (P.sub st.s0 st.s1)) (d.randmap (map_index P d st n)))
      → IsNumber (P.add_half sample)
      → let v = P.add (P.add sample (P.sub st.s0 st.s1)) (d.randmap (map_index P d st n)) in
        let rmin = P.of_int (int_min bits) in
        let rmax = P.of_int (int_max bits) in
        let r = (real2int_hp_tpdf P d sample rmin rmax (int_min bits) (int_max bits) o st n).0 in
        let r' = (real2int_no_dither P sample rmin rmax (int_min bits) (int_max bits) o).0 in
        Fits bits r × IsQuantized v r × Fits bits r' × IsQuantized (P.add_half sample) r'
  unfolding real2int_hp_tpdf real2int_no_dither
  real2int-IsQuantized d sample o st n dithered halved =
      let (fits, quantized) =
        quantize-IsQuantized (P.add sample (P.sub st.s0 st.s1)) _ o dithered in
      let (fits', quantized') = quantize-IsQuantized (P.add_half sample) _ o halved in
      (fits, quantized, fits', quantized')
