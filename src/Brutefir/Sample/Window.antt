-- ===== src/Brutefir/Sample/Window.antt =====
-- brutefir/dither.cpp: what the preloop of the dither makes of the table and its pointers.
use foo_dsp_bfir.Base.{ℕ, ◌+◌, ◌-◌, ◌≤◌, ◌<◌, ◌≡◌, refl, arith, ℤ, update}
use foo_dsp_bfir.Brutefir.Real.{Real}
use foo_dsp_bfir.Brutefir.Sample.Precision.{Precision}
use foo_dsp_bfir.Brutefir.Sample.Quantize.{Dither, DitherState}
use foo_dsp_bfir.Brutefir.Sample.Dither.{preloop}

module _ {R : Real} (P : Precision R) where
  -- What a loop over a buffer reads: for each sample an entry and the one before it, in the table.
  -- The entry before the first one is the last one of the loop before.
  pub record IsWindow (d : Dither P) (last : ℤ) (st : DitherState P) (samples : ℕ) : Type 0 where
    pub after_first : 1 ≤ st.randtab
    pub within : (i : ℕ) → i < samples → st.randtab + i < d.randtab_size
    pub continues : d.randtab (st.randtab - 1) ≡ last

  pub preloop-IsWindow :
      (d : Dither P) (st : DitherState P) (samples : ℕ)
      → 1 ≤ st.randtab_ptr
      → samples < d.randtab_size
      → IsWindow
          (preloop P d st samples).0
          (d.randtab (st.randtab_ptr - 1))
          (preloop P d st samples).1
          samples
  unfolding preloop update
  preloop-IsWindow d st samples pos room = record {
    after_first = ground arith;
    within = λ i h. ground arith;
    continues = ground arith;
  }

  pub preloop-size :
      (d : Dither P) (st : DitherState P) (samples : ℕ)
      → (preloop P d st samples).0.randtab_size ≡ d.randtab_size
  unfolding preloop
  preloop-size d st samples = ground arith

  pub preloop-positive :
      (d : Dither P) (st : DitherState P) (samples : ℕ)
      → 1 ≤ st.randtab_ptr
      → 1 ≤ (preloop P d st samples).1.randtab_ptr
  unfolding preloop
  preloop-positive d st samples h = ground arith

  -- Only the first entry of the table is written.
  pub preloop-entry :
      (d : Dither P) (st : DitherState P) (samples i : ℕ)
      → 1 ≤ i
      → (preloop P d st samples).0.randtab i ≡ d.randtab i
  unfolding preloop update
  preloop-entry d st samples i h = ground arith

  -- The pointer is behind the entries that the loop reads.
  pub preloop-randtab_ptr :
      (d : Dither P) (st : DitherState P) (samples : ℕ)
      → let st' = (preloop P d st samples).1 in st'.randtab_ptr ≡ st'.randtab + samples
  unfolding preloop
  preloop-randtab_ptr d st samples = refl
