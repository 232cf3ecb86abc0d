-- ===== src/Brutefir/Sample/Machine.antt =====
-- brutefir/fftw_convolver.cpp: conversions of the channels in any order, which share the table of the
-- dither.
use foo_dsp_bfir.Base.{
  ℕ, ◌+◌, ◌-◌, ◌*◌, ◌≤◌, ◌<◌, ◌≡◌, ◌≢◌, ◌⊎◌, refl, sym, ap, ◌∙◌, arith, true, false, Bool, not,
  ◌&&◌, Bool-cases, inl, inr, update, update_ne, update_self,
}
use foo_dsp_bfir.Brutefir.Real.{Real}
use foo_dsp_bfir.Brutefir.Config.{Overflow, BufferFormat}
use foo_dsp_bfir.Brutefir.Sample.Precision.{Precision}
use foo_dsp_bfir.Brutefir.Sample.Bytes.{Memory}
use foo_dsp_bfir.Brutefir.Sample.Quantize.{Dither, DitherState, real2int_hp_tpdf}
use foo_dsp_bfir.Brutefir.Sample.Real2Raw.{real2raw_hp_tpdf}
use foo_dsp_bfir.Brutefir.Sample.Dither.{preloop}
use foo_dsp_bfir.Brutefir.Sample.Convert.{write_raw, shift_of}
use foo_dsp_bfir.Brutefir.Sample.Keeps.{real2raw-keeps}
use foo_dsp_bfir.Brutefir.Sample.Window.{
  preloop-size, preloop-positive, preloop-entry, preloop-randtab_ptr,
}

module _ {R : Real} (P : Precision R) where
  -- The dither and the states of the channels.
  pub record Machine : Type 0 where
    pub d : Dither P
    pub states : ℕ → DitherState P

  module _ (n_fft2 n_channels : ℕ) where
    -- The conversion of a buffer of the channel `n`.
    unfoldable pub convert :
        Machine → ℕ → BufferFormat R → Bool → (ℕ → P.Value) → Memory → Overflow R → Machine
    unfolding write_raw update
    convert m n bf apply_dither cbuf outbuf overflow =
        let (s, d) = write_raw P n_fft2 bf m.d apply_dither cbuf (outbuf, overflow, m.states n) in
        record { d = d; states = update m.states n s.2 }

    -- The conversions of any channels, in any order.
    pub data Reach (start : Machine) : Machine → Type 0 where
      here : Reach start start
      next :
          {m : Machine} (n : ℕ) (bf : BufferFormat R) (apply_dither : Bool) (cbuf : ℕ → P.Value)
          (outbuf : Memory) (overflow : Overflow R)
          → n < n_channels
          → Reach start m
          → Reach start (convert m n bf apply_dither cbuf outbuf overflow)

    -- Conversions of any channels, in any order, but none of the channel `n` with dither.
    pub data Between (n : ℕ) (start : Machine) : Machine → Type 0 where
      none_yet : Between n start start
      later :
          {m : Machine} (k : ℕ) (bf : BufferFormat R) (apply_dither : Bool) (cbuf : ℕ → P.Value)
          (outbuf : Memory) (overflow : Overflow R)
          → k < n_channels
          → (k ≢ n) ⊎ ((apply_dither && not bf.sf.isfloat) ≡ false)
          → Between n start m
          → Between n start (convert m k bf apply_dither cbuf outbuf overflow)

    pub record IsTable (size : ℕ) (m : Machine) : Type 0 where
      pub same_size : m.d.randtab_size ≡ size
      pub positive : (n : ℕ) → n < n_channels → 1 ≤ (m.states n).randtab_ptr

    write_raw-size :
        (bf : BufferFormat R) (d : Dither P) (apply_dither : Bool) (cbuf : ℕ → P.Value)
        (s : Memory × Overflow R × DitherState P)
        → (write_raw P n_fft2 bf d apply_dither cbuf s).1.randtab_size ≡ d.randtab_size
    unfolding write_raw
    write_raw-size bf d apply_dither cbuf s =
        elim (Bool-cases (apply_dither && not bf.sf.isfloat)) [
          | inl dithered ↦ rw dithered (preloop-size P d s.2 n_fft2)
          | inr plain ↦ rw plain
        ]

    write_raw-positive :
        (bf : BufferFormat R) (d : Dither P) (apply_dither : Bool) (cbuf : ℕ → P.Value)
        (s : Memory × Overflow R × DitherState P)
        → 1 ≤ s.2.randtab_ptr
        → 1 ≤ (write_raw P n_fft2 bf d apply_dither cbuf s).0.2.randtab_ptr
    unfolding write_raw real2raw_hp_tpdf real2int_hp_tpdf
    write_raw-positive bf d apply_dither cbuf s h =
        elim (Bool-cases (apply_dither && not bf.sf.isfloat)) [
          | inl dithered ↦ rw dithered (
              real2raw-keeps P (λ (st : DitherState P). 1 ≤ st.randtab_ptr)
                (real2int_hp_tpdf P (preloop P d s.2 n_fft2).0)
                (λ v rmin rmax imin imax o st n p. p) (bf.sf.sbytes * 8) bf.sf.bytes (shift_of bf)
                bf.sf.isfloat bf.sample_spacing bf.sf.swap n_fft2 bf.byte_offset cbuf
                (s.0, s.1, (preloop P d s.2 n_fft2).1) (preloop-positive P d s.2 n_fft2 h))
          | inr plain ↦ rw plain h
        ]

    -- A conversion with dither leaves the table and the pointer of its first step.
    write_raw-dithered :
        (bf : BufferFormat R) (d : Dither P) (apply_dither : Bool) (cbuf : ℕ → P.Value)
        (s : Memory × Overflow R × DitherState P)
        → (apply_dither && not bf.sf.isfloat) ≡ true
        → let (s', d') = write_raw P n_fft2 bf d apply_dither cbuf s in
          (d' ≡ (preloop P d s.2 n_fft2).0)
          × (s'.2.randtab_ptr ≡ (preloop P d s.2 n_fft2).1.randtab_ptr)
    unfolding write_raw real2raw_hp_tpdf real2int_hp_tpdf
    write_raw-dithered bf d apply_dither cbuf s dithered = rw dithered (
      refl,
      real2raw-keeps P
          (λ (st : DitherState P). st.randtab_ptr ≡ (preloop P d s.2 n_fft2).1.randtab_ptr)
          (real2int_hp_tpdf P (preloop P d s.2 n_fft2).0) (λ v rmin rmax imin imax o st n p. p)
          (bf.sf.sbytes * 8) bf.sf.bytes (shift_of bf) bf.sf.isfloat bf.sample_spacing bf.sf.swap
          n_fft2 bf.byte_offset cbuf (s.0, s.1, (preloop P d s.2 n_fft2).1) refl,
    )

    -- One without leaves both as they were.
    write_raw-plain :
        (bf : BufferFormat R) (d : Dither P) (apply_dither : Bool) (cbuf : ℕ → P.Value)
        (s : Memory × Overflow R × DitherState P)
        → (apply_dither && not bf.sf.isfloat) ≡ false
        → let (s', d') = write_raw P n_fft2 bf d apply_dither cbuf s in
          (d' ≡ d) × (s'.2.randtab_ptr ≡ s.2.randtab_ptr)
    unfolding write_raw
    write_raw-plain bf d apply_dither cbuf s plain = rw plain (refl, refl)

    -- Every conversion keeps the table behind its first entry.
    write_raw-entry :
        (bf : BufferFormat R) (d : Dither P) (apply_dither : Bool) (cbuf : ℕ → P.Value)
        (s : Memory × Overflow R × DitherState P) (i : ℕ)
        → 1 ≤ i
        → (write_raw P n_fft2 bf d apply_dither cbuf s).1.randtab i ≡ d.randtab i
    write_raw-entry bf d apply_dither cbuf s i h =
        elim (Bool-cases (apply_dither && not bf.sf.isfloat)) [
          | inl dithered ↦
              ap (λ (t : Dither P). t.randtab i)
                (write_raw-dithered bf d apply_dither cbuf s dithered).0
              ∙ preloop-entry P d s.2 n_fft2 i h
          | inr plain ↦
              ap (λ (t : Dither P). t.randtab i) (write_raw-plain bf d apply_dither cbuf s plain).0
        ]

    pub convert-IsTable :
        (size : ℕ) (m : Machine) (n : ℕ) (bf : BufferFormat R) (apply_dither : Bool)
        (cbuf : ℕ → P.Value) (outbuf : Memory) (overflow : Overflow R)
        → n < n_channels
        → IsTable size m
        → IsTable size (convert m n bf apply_dither cbuf outbuf overflow)
    unfolding convert
    convert-IsTable size m n bf apply_dither cbuf outbuf overflow h t = record {
      same_size =
          write_raw-size bf m.d apply_dither cbuf (outbuf, overflow, m.states n) ∙ t.same_size;
      positive = λ k hk. ground (
        arith,
        t.positive k hk,
        write_raw-positive bf m.d apply_dither cbuf (outbuf, overflow, m.states n) (t.positive n h),
      );
    }

    pub Reach-IsTable :
        (size : ℕ) {start m : Machine} → IsTable size start → Reach start m → IsTable size m
    Reach-IsTable size t here = t
    Reach-IsTable size t (next {m} n bf apply_dither cbuf outbuf overflow h r) =
        convert-IsTable size m n bf apply_dither cbuf outbuf overflow h (Reach-IsTable size t r)

    convert-randtab_ptr :
        (m : Machine) (n k : ℕ) (bf : BufferFormat R) (apply_dither : Bool) (cbuf : ℕ → P.Value)
        (outbuf : Memory) (overflow : Overflow R)
        → (k ≢ n) ⊎ ((apply_dither && not bf.sf.isfloat) ≡ false)
        → ((convert m k bf apply_dither cbuf outbuf overflow).states n).randtab_ptr
          ≡ (m.states n).randtab_ptr
    unfolding convert
    convert-randtab_ptr m n k bf apply_dither cbuf outbuf overflow (inl other) =
        ap (λ (st : DitherState P). st.randtab_ptr)
          (update_ne m.states k n
            (write_raw P n_fft2 bf m.d apply_dither cbuf (outbuf, overflow, m.states k)).0.2
            (λ e. other (sym e)))
    convert-randtab_ptr m n k bf apply_dither cbuf outbuf overflow (inr plain) =
        let e = write_raw-plain bf m.d apply_dither cbuf (outbuf, overflow, m.states k) plain in
        ground (arith, e.1)

    -- Until the channel is converted with dither again, its pointer and the entry before it stay.
    pub Between-keeps :
        (size n : ℕ) {start m : Machine}
        → 2 ≤ (start.states n).randtab_ptr
        → IsTable size start
        → Between n start m
        → IsTable size m
          × ((m.states n).randtab_ptr ≡ (start.states n).randtab_ptr)
          × (m.d.randtab ((start.states n).randtab_ptr - 1)
              ≡ start.d.randtab ((start.states n).randtab_ptr - 1))
    unfolding convert
    Between-keeps size n two t none_yet = (t, refl, refl)
    Between-keeps size n two t (later {m} k bf apply_dither cbuf outbuf overflow h apart r) =
        let (table, same, entry) = Between-keeps size n two t r in
        (
          convert-IsTable size m k bf apply_dither cbuf outbuf overflow h table,
          convert-randtab_ptr m n k bf apply_dither cbuf outbuf overflow apart ∙ same,
          write_raw-entry bf m.d apply_dither cbuf (outbuf, overflow, m.states k) _ (omega arith)
              ∙ entry,
        )

    -- The conversion of a channel with dither: the table and the pointer afterwards.
    pub convert-dithered :
        (m : Machine) (n : ℕ) (bf : BufferFormat R) (cbuf : ℕ → P.Value) (outbuf : Memory)
        (overflow : Overflow R)
        → bf.sf.isfloat ≡ false
        → let (d, st) = preloop P m.d (m.states n) n_fft2 in
          let m' = convert m n bf true cbuf outbuf overflow in
          (m'.d ≡ d) × ((m'.states n).randtab_ptr ≡ st.randtab + n_fft2)
    unfolding convert
    convert-dithered m n bf cbuf outbuf overflow whole =
        let e = write_raw-dithered bf m.d true cbuf (outbuf, overflow, m.states n) (ap not whole) in
        (
          e.0,
          ap (λ (st : DitherState P). st.randtab_ptr) (update_self m.states n _)
              ∙ e.1
              ∙ preloop-randtab_ptr P m.d (m.states n) n_fft2,
        )
