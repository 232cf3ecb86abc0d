-- ===== src/Brutefir/Sample/Integers.antt =====
-- brutefir/raw2real.cpp and brutefir/real2raw.cpp: the loops over integer samples of one size, where
-- what was read is written again without dither.
use foo_dsp_bfir.Base.{ℕ, ◌+◌, ◌*◌, ◌≤◌, ◌<◌, ◌≡◌, arith, ℤ, Bool, true, false}
use foo_dsp_bfir.Brutefir.Real.{Real}
use foo_dsp_bfir.Brutefir.Config.{Overflow, to_int32}
use foo_dsp_bfir.Brutefir.Sample.Bytes.{Memory, to_int8, to_int16, shift_right}
use foo_dsp_bfir.Brutefir.Sample.Precision.{Precision}
use foo_dsp_bfir.Brutefir.Sample.Raw2Real.{fill, read_int8, read_int16, read_int24, read_int32}
use foo_dsp_bfir.Brutefir.Sample.Real2Raw.{int_min, int_max, write_ints, without_dither}
use foo_dsp_bfir.Brutefir.Sample.Words.{copied}
use foo_dsp_bfir.Brutefir.Sample.Copy.{fill-read, loop-sample, loop-other}
use foo_dsp_bfir.Brutefir.Sample.Whole.{Fits, RepresentsInts, real2int_no_dither-whole}

-- The address of a byte of the sample `k`, for `size` bytes and a spacing in samples.
abbrev pub InSample : ℕ → ℕ → ℕ → ℕ → ℕ → Type 0
InSample base size spacing k j =
    (base + size * (spacing * k) ≤ j) × (j < base + size * (spacing * k) + size)

-- `after` is `before` with the bytes of the samples replaced by those of `m`.
pub record IsCopied (base size spacing n_samples : ℕ) (m before after : Memory) : Type 0 where
  pub sample : (k j : ℕ) → k < n_samples → InSample base size spacing k j → after j ≡ m j
  pub other :
      (j : ℕ) → ((k : ℕ) → k < n_samples → ¬ InSample base size spacing k j) → after j ≡ before j

-- The samples of each size are integers of that size.
pub read_int8-Fits : (m : Memory) (base i : ℕ) → Fits 8 (read_int8 m base i)
unfolding read_int8 to_int8 int_min int_max to_int32
read_int8-Fits m base i = ground arith

to_int16-Fits : (w : ℕ) → Fits 16 (to_int16 w)
unfolding to_int16 int_min int_max to_int32
to_int16-Fits w = ground arith

pub read_int16-Fits : (swap : Bool) (m : Memory) (base i : ℕ) → Fits 16 (read_int16 0 swap m base i)
unfolding read_int16
read_int16-Fits true m base i = to_int16-Fits _
read_int16-Fits false m base i = to_int16-Fits _

upper-Fits : (w : ℕ) → Fits 24 (shift_right (to_int32 w) 8)
unfolding shift_right int_min int_max to_int32
upper-Fits w = ground arith

pub read_int24-Fits : (swap : Bool) (m : Memory) (base i : ℕ) → Fits 24 (read_int24 0 swap m base i)
unfolding read_int24
read_int24-Fits true m base i = upper-Fits _
read_int24-Fits false m base i = upper-Fits _

to_int32-Fits : (w : ℕ) → Fits 32 (to_int32 w)
unfolding int_min int_max to_int32
to_int32-Fits w = ground arith

pub read_int32-Fits : (swap : Bool) (m : Memory) (base i : ℕ) → Fits 32 (read_int32 0 swap m base i)
unfolding read_int32
read_int32-Fits true m base i = to_int32-Fits _
read_int32-Fits false m base i = to_int32-Fits _

-- The loops of one format.
module _ {R : Real} (P : Precision R) (bits size step n_samples : ℕ) (q : RepresentsInts P bits)
    (m : Memory) (address : ℕ → ℕ) (read : ℕ → ℤ) (write : ℕ → ℤ → Memory → Memory)
    (fits : (i : ℕ) → Fits bits (read i))
    (copies : (i j : ℕ) (out : Memory) → write i (read i) out j ≡ copied m out (address i) size j)
    (old : ℕ → P.Value) where
  abbrev pub State : Type 0
  State = Memory × Overflow R × Unit {0}

  abbrev pub read_buffer : ℕ → P.Value
  read_buffer = fill P (λ i. P.of_int (read i)) step n_samples old

  abbrev pub round : ℕ → ℕ → State → State
  round n i s =
      let (sample, o, st) =
        without_dither P (read_buffer n) (P.of_int (int_min bits)) (P.of_int (int_max bits))
          (int_min bits) (int_max bits) s.1 s.2 n in
      (write i sample s.0, o, st)

  round-copied :
      (n j : ℕ) (s : State)
      → n < n_samples
      → (round n (step * n) s).0 j ≡ copied m s.0 (address (step * n)) size j
  round-copied n j s h =
      rw
        (
          fill-read P (λ i. P.of_int (read i)) step n_samples old n h,
          real2int_no_dither-whole P bits q (read (step * n)) s.1 (fits (step * n)),
        )
        (copies (step * n) j s.0)

  abbrev pub written : State → Memory
  written s = (write_ints P (Unit {0}) (without_dither P) write bits step n_samples read_buffer s).0

  written-sample :
      (k j : ℕ) (s : State)
      → k < n_samples
      → (address (step * k) ≤ j) × (j < address (step * k) + size)
      → written s j ≡ m j
  unfolding write_ints
  written-sample = loop-sample (λ s. s.0) m size step address round n_samples round-copied

  written-other :
      (j : ℕ) (s : State)
      → ((k : ℕ) → k < n_samples → ¬ ((address (step * k) ≤ j) × (j < address (step * k) + size)))
      → written s j ≡ s.0 j
  unfolding write_ints
  written-other = loop-other (λ s. s.0) m size step address round n_samples round-copied

  pub written-IsCopied :
      (base spacing : ℕ)
      → ((k : ℕ) → address (step * k) ≡ base + size * (spacing * k))
      → (s : State) → IsCopied base size spacing n_samples m s.0 (written s)
  written-IsCopied base spacing e s = record {
    sample = λ k j h inside. written-sample k j s h (omega (arith, e k));
    other = λ j out. written-other j s (λ k h p. out k h (omega (arith, e k)));
  }
