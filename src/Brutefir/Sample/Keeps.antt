-- ===== src/Brutefir/Sample/Keeps.antt =====
-- brutefir/real2raw.cpp: what every call of the quantization keeps of the state of the dither, the
-- conversion of a buffer keeps.
use foo_dsp_bfir.Base.{ℕ, zero, suc, ◌+◌, ◌-◌, ◌*◌, ℤ, Bool, true, false, ◌==◌, if◌then◌else◌}
use foo_dsp_bfir.Brutefir.Real.{Real}
use foo_dsp_bfir.Brutefir.Config.{Overflow}
use foo_dsp_bfir.Brutefir.Sample.Precision.{Precision}
use foo_dsp_bfir.Brutefir.Sample.Bytes.{Memory, for_samples, set_u32, set_u64, swap32, swap64}
use foo_dsp_bfir.Brutefir.Sample.Real2Raw.{
  write_int8, write_int16, write_int24, write_int32, write_floats, write_ints, real2raw_float,
  real2raw_int, real2raw,
}

if-keeps {ℓ κ} :
    {A : Type ℓ} (Q : A → Type κ) (b : Bool) {x y : A} → Q x → Q y → Q (if b then x else y)
if-keeps Q true p q = p
if-keeps Q false p q = q

for_samples-keeps {ℓ κ} :
    {S : Type ℓ} (Q : S → Type κ) (body : ℕ → ℕ → S → S) (step left n i : ℕ) (s : S)
    → ((n i : ℕ) (s : S) → Q s → Q (body n i s))
    → Q s
    → Q (for_samples body step left n i s)
unfolding for_samples
for_samples-keeps Q body step zero n i s keep h = h
for_samples-keeps Q body step (suc left) n i s keep h =
    for_samples-keeps Q body step left (n + 1) (i + step) (body n i s) keep (keep n i s h)

-- What every call of the quantization keeps, the conversion of a buffer keeps.
module _ {R : Real} (P : Precision R) {S : Type 0} (Q : S → Type 0)
    (real2int : P.Value → P.Value → P.Value → ℤ → ℤ → Overflow R → S → ℕ → ℤ × Overflow R × S)
    (keeps : (v rmin rmax : P.Value) (imin imax : ℤ) (o : Overflow R) (s : S) (n : ℕ)
      → Q s
      → Q (real2int v rmin rmax imin imax o s n).2) where
  record Kept (s : Memory × Overflow R × S) : Type 0 where
    holds : Q s.2

  write_ints-keeps :
      (write : ℕ → ℤ → Memory → Memory) (bits step n_samples : ℕ) (buf : ℕ → P.Value)
      (s : Memory × Overflow R × S)
      → Kept s
      → Kept (write_ints P S real2int write bits step n_samples buf s)
  unfolding write_ints
  write_ints-keeps write bits step n_samples buf s =
      for_samples-keeps Kept _ step n_samples 0 0 s
        (λ n i s h. record { holds = keeps _ _ _ _ _ s.1 s.2 n h.holds })

  write_floats-keeps :
      (write : ℕ → P.Value → Memory → Memory) (step n_samples : ℕ) (buf : ℕ → P.Value)
      (s : Memory × Overflow R × S)
      → Kept s
      → Kept (write_floats P S write step n_samples buf s)
  unfolding write_floats
  write_floats-keeps write step n_samples buf s =
      for_samples-keeps Kept _ step n_samples 0 0 s (λ n i s h. record { holds = h.holds })

  floats-keeps :
      (bytes spacing : ℕ) (swap : Bool) (n_samples base : ℕ) (buf : ℕ → P.Value)
      (s : Memory × Overflow R × S)
      → Kept s
      → Kept (real2raw_float P S bytes spacing swap n_samples base buf s)
  unfolding real2raw_float
  floats-keeps bytes spacing swap n_samples base buf s h =
      let loop = λ (write : ℕ → P.Value → Memory → Memory).
        write_floats-keeps write spacing n_samples buf s h in
      if-keeps Kept (bytes == 4)
        (if-keeps Kept swap (loop (λ i v m. set_u32 m base i (swap32 (P.bits32 v))))
          (loop (λ i v m. set_u32 m base i (P.bits32 v))))
        (if-keeps Kept (bytes == 8)
          (if-keeps Kept swap (loop (λ i v m. set_u64 m base i (swap64 (P.bits64 v))))
            (loop (λ i v m. set_u64 m base i (P.bits64 v))))
          h)

  ints-keeps :
      (bits bytes shift spacing : ℕ) (swap : Bool) (n_samples base : ℕ) (buf : ℕ → P.Value)
      (s : Memory × Overflow R × S)
      → Kept s
      → Kept (real2raw_int P S real2int bits bytes shift spacing swap n_samples base buf s)
  unfolding real2raw_int
  ints-keeps bits bytes shift spacing swap n_samples base buf s h =
      let loop = λ (write : ℕ → ℤ → Memory → Memory) (step : ℕ).
        write_ints-keeps write bits step n_samples buf s h in
      if-keeps Kept (bytes == 1) (loop (write_int8 base) spacing) (
        if-keeps Kept (bytes == 2) (loop (write_int16 shift swap base) spacing) (
          if-keeps Kept (bytes == 3) (loop (write_int24 shift swap base) (3 + (spacing * 3 - 3)))
            (if-keeps Kept (bytes == 4) (loop (write_int32 shift swap base) spacing) h)))

  pub real2raw-keeps :
      (bits bytes shift : ℕ) (isfloat : Bool) (spacing : ℕ) (swap : Bool) (n_samples base : ℕ)
      (buf : ℕ → P.Value) (s : Memory × Overflow R × S)
      → Q s.2
      → Q (real2raw P S real2int bits bytes shift isfloat spacing swap n_samples base buf s).2
  unfolding real2raw
  real2raw-keeps bits bytes shift isfloat spacing swap n_samples base buf s h =
      let kept : Kept s = record { holds = h } in
      (if-keeps Kept isfloat
        (if-keeps Kept (shift == 0) (floats-keeps bytes spacing swap n_samples base buf s kept)
          kept)
        (ints-keeps bits bytes shift spacing swap n_samples base buf s kept)).holds
