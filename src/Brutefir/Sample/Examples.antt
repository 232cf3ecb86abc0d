-- ===== src/Brutefir/Sample/Examples.antt =====
-- The parameters of the sample conversions at concrete values: a "float" is a number of halves. Also
-- formats and buffers for the tests.
use foo_dsp_bfir.Base.{
  ℕ, ◌+◌, ◌*◌, ◌/◌, ◌%◌, ◌≡◌, arith, ℤ, pos, negsuc, sub_ℕ, pos_part, ◌≤ℤ◌, ltb_ℤ, leb_ℤ, ◌-ℤ◌,
  true, false, ◌==◌, if◌then◌else◌,
}
use foo_dsp_bfir.Brutefir.Examples.{integers}
use foo_dsp_bfir.Brutefir.Config.{BufferFormat, s16_be, float_be, to_int32}
use foo_dsp_bfir.Brutefir.Sample.Bytes.{Memory, word_of}
use foo_dsp_bfir.Brutefir.Sample.Precision.{Precision}
use foo_dsp_bfir.Brutefir.Sample.Quantize.{Dither, DitherState}
use foo_dsp_bfir.Brutefir.Sample.Real2Raw.{int_min, int_max}
use foo_dsp_bfir.Brutefir.Sample.Whole.{RepresentsInts}
use foo_dsp_bfir.Brutefir.Sample.Words.{IsBytes}
use foo_dsp_bfir.Brutefir.Sample.Range.{CutsTowardsZero, next_ℤ, prev_ℤ}

-- The double of a number, as a number of halves, and what the operations make of it.
abbrev pub doubled : ℤ → ℤ
doubled (pos n) = pos (2 * n)
doubled (negsuc n) = negsuc (2 * n + 1)

abbrev next : ℤ → ℤ
next (pos n) = pos (n + 1)
next (negsuc n) = sub_ℕ 0 n

abbrev cut : ℤ → ℤ
cut (pos n) = pos (n / 2)
cut (negsuc n) = sub_ℕ 0 ((n + 1) / 2)

abbrev negated : ℤ → ℤ
negated k = pos 0 -ℤ k

abbrev plus : ℤ → ℤ → ℤ
plus a b = a -ℤ negated b

abbrev pub halves : Precision integers
halves = record {
  Value = ℤ;
  lt = ltb_ℤ;
  le = leb_ℤ;
  add = plus;
  sub = λ a b. a -ℤ b;
  neg = negated;
  of_int = doubled;
  trunc = cut;
  add_half = next;
  widen = λ k. k;
  narrow = λ k. k;
  bits32 = word_of;
  bits64 = pos_part;
  of_bits32 = to_int32;
  of_bits64 = pos;
  lt_double = ltb_ℤ;
  neg_double = negated;
  add_double = plus;
  mul_double = λ a b. a;
}

above_max : (n : ℕ) (k : ℤ) → pos n ≤ℤ k → ltb_ℤ (doubled k) (pos (2 * n + 1)) ≡ (n == pos_part k)
above_max n (pos k) h = ground arith
above_max n (negsuc k) h = absurd (omega arith)

above_min : (n : ℕ) (k : ℤ) → k ≤ℤ negsuc n → leb_ℤ (next (negsuc (2 * n + 1))) (doubled k) ≡ false
above_min n (pos k) h = absurd (omega arith)
above_min n (negsuc k) h = ground arith

pub halves-RepresentsInts : (bits : ℕ) → RepresentsInts halves bits
halves-RepresentsInts bits = record {
  half_above = λ n h. ground arith;
  half-gt_max = λ n h. above_max n (int_max bits) h;
  trunc_above = λ n h. ground arith;
  half_below = λ n h. ground arith;
  half-gt_min = λ n h. above_min n (int_min bits) h;
  trunc_below = λ n h. ground arith;
}

doubled-order : (a b : ℤ) → a ≤ℤ b → leb_ℤ (doubled a) (doubled b) ≡ true
doubled-order (pos a) (pos b) h = ground arith
doubled-order (pos a) (negsuc b) h = absurd (ground arith)
doubled-order (negsuc a) (pos b) h = ground arith
doubled-order (negsuc a) (negsuc b) h = ground arith

doubled-next : (k : ℤ) → ltb_ℤ (doubled k) (doubled (next_ℤ k)) ≡ true
doubled-next (pos n) = ground arith
doubled-next (negsuc n) = ground arith

cut_up :
    (v : ℤ)
    → ltb_ℤ v (pos 0) ≡ false
    → (pos 0 ≤ℤ cut v)
      × (leb_ℤ (doubled (cut v)) v ≡ true)
      × (ltb_ℤ v (doubled (next_ℤ (cut v))) ≡ true)
cut_up (pos n) h = ground arith
cut_up (negsuc n) h = absurd (ground arith)

cut_down :
    (v : ℤ)
    → ltb_ℤ v (pos 0) ≡ true
    → (cut v ≤ℤ pos 0)
      × (leb_ℤ v (doubled (cut v)) ≡ true)
      × (ltb_ℤ (doubled (prev_ℤ (cut v))) v ≡ true)
cut_down (pos n) h = absurd (ground arith)
cut_down (negsuc n) h = ground arith

pub halves-CutsTowardsZero : (bits : ℕ) → CutsTowardsZero halves (λ v. Unit) bits
halves-CutsTowardsZero bits = record {
  whole = λ k. tt;
  total = λ u v nu nv. ground arith;
  trans = λ u v w nu nv nw a b. ground arith;
  keeps_order = λ a b h. doubled-order a b h;
  exact_end = doubled-next (int_max bits);
  cut_above = λ v number h below. cut_up v h;
  cut_below = λ v number h above. cut_down v h;
}

-- A channel of 16 bits in the other byte order, the second of two.
abbrev pub be16 : BufferFormat integers
be16 = record {
  sf = record {
    isfloat = false;
    swap = true;
    bytes = 2;
    sbytes = 2;
    scale = pos 1;
    format = s16_be;
  };
  sample_spacing = 2;
  byte_offset = 2;
}

abbrev pub swapped_float : BufferFormat integers
swapped_float = record {
  sf = record {
    isfloat = true;
    swap = true;
    bytes = 4;
    sbytes = 4;
    scale = pos 1;
    format = float_be;
  };
  sample_spacing = 2;
  byte_offset = 4;
}

abbrev pub bytes_up : Memory
bytes_up j = j % 256

pub bytes_up-IsBytes : IsBytes bytes_up
bytes_up-IsBytes j = omega arith

abbrev pub zeros : Memory
zeros j = 0

abbrev pub no_samples : ℕ → ℤ
no_samples n = pos 0

abbrev pub state : DitherState halves
state = record { randtab_ptr = 1; randtab = 1; s0 = pos 0; s1 = pos 0 }

-- A table of random numbers that alternate.
abbrev pub alternating : Dither halves
alternating = record {
  randtab = λ n. if n % 2 == 0 then negsuc 127 else pos 127;
  randtab_size = 9;
  randmap = λ k. k;
}
