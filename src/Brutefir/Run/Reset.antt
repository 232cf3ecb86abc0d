-- ===== src/Brutefir/Run/Reset.antt =====
-- `reset` and `check_overflows` of brutefir/brutefir.cpp.
use foo_dsp_bfir.Base.{
  ℕ, zero, suc, ◌+◌, ◌<◌, ◌≤◌, ◌≡◌, refl, arith, Bool, true, false, [], take, ltb, leb, ◌&&◌,
  if◌then◌else◌, update, inl, inr, Bool-cases, ap, ◌∙◌, sym, ℕ_discrete, subst,
}
use foo_dsp_bfir.Brutefir.Real.{Real}
use foo_dsp_bfir.Brutefir.Config.{max_channels, Overflow}
use foo_dsp_bfir.Brutefir.Convolver.{Convolver}
use foo_dsp_bfir.Brutefir.Filter.{
  Buffer, Conf, Filter, reset_channels, reset, copy_overflows, check_channels, check_overflows,
}
use foo_dsp_bfir.Brutefir.Run.{Represents}

module _ {R : Real} (cv : Convolver R) (conf : Conf cv) where
  timecbuf-reset_channels :
      (left n : ℕ) (f : Filter cv) → (reset_channels cv left n f).input_timecbuf ≡ f.input_timecbuf
  unfolding reset_channels
  timecbuf-reset_channels zero n f = refl
  timecbuf-reset_channels (suc left) n f = timecbuf-reset_channels left (n + 1) _

  -- After `reset` a filter of at most 8 channels represents the empty history, but the silence
  -- before its first block is what the half buffer of each channel held: `reset` does not clear it.
  pub reset-Represents :
      (f : Filter cv)
      → conf.n_channels ≤ max_channels
      → Represents cv conf (λ n. take cv.n_fft2 (f.input_timecbuf n false)) [] (reset cv conf f)
  unfolding reset
  reset-Represents f fits = record {
    counter = refl;
    channels = λ n below. record {
      front =
          ap (λ (t : ℕ → Bool → Buffer cv). take cv.n_fft2 (t n false))
            (timecbuf-reset_channels conf.n_channels 0 f);
      processed = ground arith;
      stored = λ many j h. absurd (omega arith);
    };
  }

  copy_overflows_lem :
      (left n : ℕ) (f : Filter cv) (m : ℕ)
      → ((copy_overflows cv left n f).overflow ≡ f.overflow)
        × ((copy_overflows cv left n f).last_overflow m
            ≡ (if leb n m && ltb m (n + left) then f.overflow m else f.last_overflow m))
  unfolding copy_overflows update
  copy_overflows_lem zero n f m = (refl, ground arith)
  copy_overflows_lem (suc left) n f m = ground (
    arith,
    copy_overflows_lem left (n + 1)
        (record f { last_overflow = update f.last_overflow n (f.overflow n) }) m,
  )

  module _ (same : Overflow R → Overflow R → Bool)
      (exact : (a b : Overflow R) → same a b ≡ true → a ≡ b) where
    check_channels_lem :
        (left n : ℕ) (f : Filter cv)
        → ((m : ℕ) → m < n → f.last_overflow m ≡ f.overflow m)
        → (m : ℕ) → m < n + left
        → (check_channels cv same left n f).0.last_overflow m ≡ f.overflow m
    unfolding check_channels
    check_channels_lem zero n f before m h = before m (omega arith)
    check_channels_lem (suc left) n f before m h =
        elim (Bool-cases (same (f.overflow n) (f.last_overflow n))) [
          | inl e ↦
              let equal = sym (exact _ _ e) in
              rw e (
                check_channels_lem left (n + 1) f
                  (λ k hk. elim (ℕ_discrete k n) [
                    | yes at ↦ subst (λ i. f.last_overflow i ≡ f.overflow i) (sym at) equal
                    | no ne ↦ before k (omega arith)
                  ])
                  m (omega arith))
          | inr e ↦ rw e (ground (arith, copy_overflows_lem (suc left) n f m, before m))
        ]

  check_channels-flag :
      (same : Overflow R → Overflow R → Bool) (left n : ℕ) (f : Filter cv)
      → ((check_channels cv same left n f).0.overflow ≡ f.overflow)
        × ((check_channels cv same left n f).1 ≡ false → (check_channels cv same left n f).0 ≡ f)
  unfolding check_channels
  check_channels-flag same zero n f = (refl, λ e. refl)
  check_channels-flag same (suc left) n f =
      ground (arith, copy_overflows_lem (suc left) n f 0, check_channels-flag same left (n + 1) f)

  -- For an exact comparison of two overflow entries: after `check_overflows` the last entries are
  -- the current ones for every channel, the current ones are as before, and where nothing is
  -- printed nothing is changed.
  check_overflows_lem :
      (same : Overflow R → Overflow R → Bool)
      → ((a b : Overflow R) → same a b ≡ true → a ≡ b)
      → (f : Filter cv)
      → let (g, printed) = check_overflows cv same conf f in
        ((m : ℕ) → m < conf.n_channels → g.last_overflow m ≡ g.overflow m)
        × (g.overflow ≡ f.overflow)
        × (printed ≡ false → g ≡ f)
  unfolding check_overflows
  check_overflows_lem same exact f =
      let (kept, quiet) = check_channels-flag same conf.n_channels 0 f in
      (
        λ m below.
            check_channels_lem same exact conf.n_channels 0 f (λ k h. elim h [ ]) m (omega arith)
            ∙ ap (λ (o : ℕ → Overflow R). o m) (sym kept),
        kept,
        quiet,
      )
