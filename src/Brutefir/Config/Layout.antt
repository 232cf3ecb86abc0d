-- ===== src/Brutefir/Config/Layout.antt =====
-- brutefir/brutefir.cpp: the channels that `init_channels` sets up, and where their samples lie.
use foo_dsp_bfir.Base.{
  ℕ, zero, suc, ◌+◌, ◌*◌, ◌<◌, ◌≤◌, ◌≡◌, ◌≢◌, ◌⊎◌, pos, Bool, true, false, refl, arith, leb, ltb,
  ◌&&◌, if◌then◌else◌, update, inl, inr, dec_lt, ap,
}
use foo_dsp_bfir.Brutefir.Real.{Real}
use foo_dsp_bfir.Brutefir.Config.Formats.{IsKnown}
use foo_dsp_bfir.Brutefir.Config.{
  s8, s16_le, s16_be, s24_le, s24_be, s32_le, s32_be, float_le, float_be, float64_le, float64_be,
  unknown, setup_sample_format, max_channels, Format, SampleFormat, BufferFormat, Channels,
  input_channel, output_channel, setup_input, setup_output, setup_channels, setup_overflow,
  init_channels,
}

module _ (R : Real) where
  -- The loop rewrites the channels from `n` up to `n + left` and no others.
  setup_channels-inputs :
      (left n : ℕ) (c : Channels R) (i o : Format) (d : Bool) (j : ℕ)
      → (setup_channels R left n c i o d).inputs j ≡ (
          if leb n j && ltb j (n + left)
          then input_channel R c.n_channels j i (c.inputs j)
          else c.inputs j)
  unfolding setup_channels setup_input setup_output update
  setup_channels-inputs zero n c i o d j = ground arith
  setup_channels-inputs (suc left) n c i o d j = ground (
    arith,
    setup_channels-inputs left (n + 1) (setup_output R (setup_input R c n i) n o d) i o d j,
  )

  setup_channels-outputs :
      (left n : ℕ) (c : Channels R) (i o : Format) (d : Bool) (j : ℕ)
      → (setup_channels R left n c i o d).outputs j ≡ (
          if leb n j && ltb j (n + left)
          then output_channel R c.n_channels j o d (c.outputs j)
          else c.outputs j)
  unfolding setup_channels setup_input setup_output update
  setup_channels-outputs zero n c i o d j = ground arith
  setup_channels-outputs (suc left) n c i o d j = ground (
    arith,
    setup_channels-outputs left (n + 1) (setup_output R (setup_input R c n i) n o d) i o d j,
  )

  setup_overflow-channels :
      (left n : ℕ) (c : Channels R)
      → ((setup_overflow R left n c).inputs ≡ c.inputs)
        × ((setup_overflow R left n c).outputs ≡ c.outputs)
        × ((setup_overflow R left n c).n_channels ≡ c.n_channels)
  unfolding setup_overflow
  setup_overflow-channels zero n c = (refl, refl, refl)
  setup_overflow-channels (suc left) n c = setup_overflow-channels left (n + 1) _

-- The bytes of sample `t` of a channel start here in a buffer of interleaved samples.
abbrev pub sample_address : {R : Real} → BufferFormat R → ℕ → ℕ
sample_address bf t = bf.byte_offset + t * (bf.sample_spacing * bf.sf.bytes)

abbrev pub Apart : ℕ → ℕ → ℕ → Type 0
Apart bytes a b = (a + bytes ≤ b) ⊎ (b + bytes ≤ a)

multiples_apart : (bytes p q : ℕ) → p < q → p * bytes + bytes ≤ q * bytes
multiples_apart bytes p q h = grind arith

-- Two slots of frames of `n` samples are at different places.
slots_apart :
    (n j k t u : ℕ)
    → j < n
    → k < n
    → (j ≢ k) ⊎ (t ≢ u)
    → (t * n + j < u * n + k) ⊎ (u * n + k < t * n + j)
slots_apart n j k t u hj hk ne = elim (dec_lt t u) [
  | yes lt ↦ inl (omega (arith, multiples_apart n t u lt))
  | no ge ↦ elim (dec_lt u t) [
    | yes gt ↦ inr (omega (arith, multiples_apart n u t gt))
    | no le ↦
        let same : t ≡ u = omega arith in
        let here : t * n ≡ u * n = ap (λ (x : ℕ). x * n) same in ground (arith, here, same)
  ]
]

-- The fields that place the samples of a channel.
record IsPlaced (R : Real) (n bytes j : ℕ) (bf : BufferFormat R) : Type 0 where
  pub spacing : bf.sample_spacing ≡ n
  pub size : bf.sf.bytes ≡ bytes
  pub offset : bf.byte_offset ≡ j * bytes

module _ (R : Real) {n bytes : ℕ} where
  sample_address_lem :
      (j t : ℕ) {bf : BufferFormat R}
      → IsPlaced R n bytes j bf
      → sample_address bf t ≡ (t * n + j) * bytes
  sample_address_lem j t {bf} p = rw (p.spacing, p.size, p.offset) (grind arith)

  placed-Apart :
      (j k t u : ℕ) {a b : BufferFormat R}
      → IsPlaced R n bytes j a
      → IsPlaced R n bytes k b
      → j < n
      → k < n
      → (j ≢ k) ⊎ (t ≢ u)
      → Apart bytes (sample_address a t) (sample_address b u)
  placed-Apart j k t u {a} {b} pa pb hj hk ne =
      rw (sample_address_lem j t pa, sample_address_lem k u pb)
        (elim (slots_apart n j k t u hj hk ne) [
          | inl lt ↦ inl (multiples_apart bytes _ _ lt)
          | inr gt ↦ inr (multiples_apart bytes _ _ gt)
        ])

-- The bytes of a sample in each format.
abbrev pub bytes_of : Format → ℕ
bytes_of s8 = 1
bytes_of s16_le = 2
bytes_of s16_be = 2
bytes_of s24_le = 3
bytes_of s24_be = 3
bytes_of s32_le = 4
bytes_of s32_be = 4
bytes_of float_le = 4
bytes_of float_be = 4
bytes_of float64_le = 8
bytes_of float64_be = 8
bytes_of (unknown code) = 0

module _ (R : Real) where
  bytes-setup_sample_format :
      (f : Format) (sf : SampleFormat R) (normalized : Bool)
      → IsKnown f
      → (setup_sample_format R f sf normalized).bytes ≡ bytes_of f
  unfolding setup_sample_format
  bytes-setup_sample_format (unknown code) sf normalized known = absurd (known code refl)
  bytes-setup_sample_format s8 sf normalized known = refl
  bytes-setup_sample_format _ sf normalized known = refl

  module _ (c : Channels R) (n : ℕ) (i o : Format) (rate : ℕ) (d : Bool)
      (fits : n ≤ max_channels) where
    abbrev result : Channels R
    result = (init_channels R c n i o rate d).0

    init_channels-inputs : (j : ℕ) → j < n → result.inputs j ≡ input_channel R n j i (c.inputs j)
    unfolding init_channels
    init_channels-inputs j h = ground (
      arith,
      setup_overflow-channels R n 0
          (setup_channels R n 0 (record c { sampling_rate = rate; n_channels = n }) i o d),
      setup_channels-inputs R n 0 (record c { sampling_rate = rate; n_channels = n }) i o d j,
    )

    init_channels-outputs :
        (j : ℕ) → j < n → result.outputs j ≡ output_channel R n j o d (c.outputs j)
    unfolding init_channels
    init_channels-outputs j h = ground (
      arith,
      setup_overflow-channels R n 0
          (setup_channels R n 0 (record c { sampling_rate = rate; n_channels = n }) i o d),
      setup_channels-outputs R n 0 (record c { sampling_rate = rate; n_channels = n }) i o d j,
    )

    inputs-IsPlaced : IsKnown i → (j : ℕ) → j < n → IsPlaced R n (bytes_of i) j (result.inputs j).bf
    unfolding input_channel
    inputs-IsPlaced known j h =
        ground (
          arith,
          init_channels-inputs j h,
          bytes-setup_sample_format i (c.inputs j).bf.sf true known,
        )

    outputs-IsPlaced :
        IsKnown o → (j : ℕ) → j < n → IsPlaced R n (bytes_of o) j (result.outputs j).bf
    unfolding output_channel
    outputs-IsPlaced known j h = ground (
      arith,
      init_channels-outputs j h,
      bytes-setup_sample_format o (c.outputs j).bf.sf false known,
    )

  -- Up to 8 channels of known formats are accepted, and the samples that are read for the input
  -- channels, and the ones that are written for the output channels, do not overlap: no two samples
  -- of different channels, or of one channel at different times, share a byte.
  pub init_channels-Apart :
      (c : Channels R) (n : ℕ) (i o : Format) (rate : ℕ) (d : Bool) (j k t u : ℕ)
      → n ≤ max_channels
      → IsKnown i
      → IsKnown o
      → j < n
      → k < n
      → (j ≢ k) ⊎ (t ≢ u)
      → let (c', code) = init_channels R c n i o rate d in
        (code ≡ pos 0)
        × Apart (bytes_of i) (sample_address (c'.inputs j).bf t) (sample_address (c'.inputs k).bf u)
        × Apart
            (bytes_of o)
            (sample_address (c'.outputs j).bf t)
            (sample_address (c'.outputs k).bf u)
  init_channels-Apart c n i o rate d j k t u fits ki ko hj hk ne = (
    unfold init_channels in ground arith,
    placed-Apart R j k t u (inputs-IsPlaced c n i o rate d fits ki j hj)
        (inputs-IsPlaced c n i o rate d fits ki k hk) hj hk ne,
    placed-Apart R j k t u (outputs-IsPlaced c n i o rate d fits ko j hj)
        (outputs-IsPlaced c n i o rate d fits ko k hk) hj hk ne,
  )

  -- Sample `t` of each of up to 8 channels of known formats lies inside frame `t` of its
  -- interleaved buffer, which holds one sample for each channel.
  init_channels-frame :
      (c : Channels R) (n : ℕ) (i o : Format) (rate : ℕ) (d : Bool) (j t : ℕ)
      → n ≤ max_channels
      → IsKnown i
      → IsKnown o
      → j < n
      → let c' = (init_channels R c n i o rate d).0 in
        let a = sample_address (c'.inputs j).bf t in
        let b = sample_address (c'.outputs j).bf t in
        (t * (n * bytes_of i) ≤ a)
        × (a + bytes_of i ≤ suc t * (n * bytes_of i))
        × (t * (n * bytes_of o) ≤ b)
        × (b + bytes_of o ≤ suc t * (n * bytes_of o))
  init_channels-frame c n i o rate d j t fits ki ko hj =
      let p = sample_address_lem R j t (inputs-IsPlaced c n i o rate d fits ki j hj) in
      let q = sample_address_lem R j t (outputs-IsPlaced c n i o rate d fits ko j hj) in
      rw (p, q)
        (
          (within (bytes_of i)).0,
          (within (bytes_of i)).1,
          (within (bytes_of o)).0,
          (within (bytes_of o)).1,
        )
    where
      within : (b : ℕ) → (t * (n * b) ≤ (t * n + j) * b) × ((t * n + j) * b + b ≤ suc t * (n * b))
      within b =
          (omega arith, omega (arith, multiples_apart b (t * n + j) (suc t * n) (omega arith)))
