-- ===== src/Brutefir/Coeff/Store.antt =====
-- `free_coeff` and `set_coeff` of brutefir/brutefir.cpp: when coefficients are set, and what is left
-- when they are not.
use foo_dsp_bfir.Base.{
  ℕ, zero, suc, ◌+◌, ◌<◌, ◌≤◌, ◌≡◌, refl, arith, Bool, true, false, Option, none, some, List, ltb,
  leb, ◌&&◌, if◌then◌else◌, update, pos, negsuc, sym, ◌∙◌, inl, inr, min, ℕ_discrete, update_self,
  update_ne, subst, Option-cases,
}
use foo_dsp_bfir.Brutefir.Real.{Real}
use foo_dsp_bfir.Brutefir.Convolver.{Convolver}
use foo_dsp_bfir.Brutefir.Filter.{Buffer, Coeff}
use foo_dsp_bfir.Brutefir.Coeff.{
  preprocess_coeff, preprocess_blocks, Coeffs, free_channels, free_coeff, set_channels, set_all,
  set_coeff,
}

module _ {R : Real} (cv : Convolver R) where
  open cv use {Sample}

  free_channels_lem :
      (left n : ℕ) (cs : ℕ → Coeff cv) (m : ℕ)
      → free_channels cv left n cs m
        ≡ (if leb n m && ltb m (n + left) then record (cs m) { blocks = none } else cs m)
  unfolding free_channels update
  free_channels_lem zero n cs m = ground arith
  free_channels_lem (suc left) n cs m =
      ground
        (arith, free_channels_lem left (n + 1) (update cs n (record (cs n) { blocks = none })) m)

  -- Freed coefficients are NULL for every channel.
  blocks-free_coeff :
      (s : Coeffs cv) (m : ℕ)
      → m < s.conf.n_channels
      → ((free_coeff cv s).conf.coeffs m).blocks ≡ none
  unfolding free_coeff
  blocks-free_coeff s m h = ground (arith, free_channels_lem s.conf.n_channels 0 s.conf.coeffs m)

  -- What a setting leaves alone.
  abbrev pub SameShape : Coeffs cv → Coeffs cv → Type 0
  SameShape s s' =
      (s'.conf.n_channels ≡ s.conf.n_channels)
      × (s'.conf.n_blocks ≡ s.conf.n_blocks)
      × (s'.conf.inputs ≡ s.conf.inputs)
      × (s'.conf.outputs ≡ s.conf.outputs)
      × (s'.filter_length ≡ s.filter_length)

  SameShape-trans : (s t u : Coeffs cv) → SameShape s t → SameShape t u → SameShape s u
  SameShape-trans s t u (a, b, c, d, e) (a', b', c', d', e') =
      (a' ∙ a, b' ∙ b, c' ∙ c, d' ∙ d, e' ∙ e)

  -- The coefficients of channel `n` set to `bs`.
  abbrev with_blocks : ℕ → ℕ → List (Option (Buffer cv)) → Coeffs cv → Coeffs cv
  with_blocks coeff_blocks n bs s = record s {
    conf = record (s.conf) {
      coeffs = update s.conf.coeffs n (record { n_blocks = coeff_blocks; blocks = some bs });
    };
  }

  module _ (coeffs : ℕ → Option (List Sample)) (len coeff_blocks : ℕ) (scale : R.Double) where
    abbrev preprocessed : ℕ → Coeffs cv → Option (List (Option (Buffer cv)))
    preprocessed n s = preprocess_coeff cv (coeffs n) s.filter_length coeff_blocks len scale

    abbrev loop : ℕ → ℕ → Coeffs cv → Coeffs cv × Bool
    loop left n s = set_channels cv coeffs len coeff_blocks scale left n s

    loop-next :
        (left n : ℕ) (s : Coeffs cv) {bs : List (Option (Buffer cv))}
        → preprocessed n s ≡ some bs
        → loop (suc left) n s ≡ loop left (n + 1) (with_blocks coeff_blocks n bs s)
    unfolding set_channels
    loop-next left n s e = rw (e, set_channels)

    loop-null :
        (left n : ℕ) (s : Coeffs cv) → preprocessed n s ≡ none → loop (suc left) n s ≡ (s, false)
    unfolding set_channels
    loop-null left n s e = rw (e, set_channels)

    loop-SameShape : (left n : ℕ) (s : Coeffs cv) → SameShape s (loop left n s).0
    unfolding set_channels
    loop-SameShape zero n s = (refl, refl, refl, refl, refl)
    loop-SameShape (suc left) n s = elim (Option-cases (preprocessed n s)) [
      | inl e ↦ rw (loop-null left n s e) (refl, refl, refl, refl, refl)
      | inr (bs, e) ↦
          rw (loop-next left n s e) (loop-SameShape left (n + 1) (with_blocks coeff_blocks n bs s))
    ]

    loop-zero : (n : ℕ) (s : Coeffs cv) → loop 0 n s ≡ (s, true)
    unfolding set_channels
    loop-zero n s = refl

    -- With no NULL among the buffers the loop reaches its end, and sets the channels up to there.
    abbrev Set : (ℕ → List Sample) → ℕ → ℕ → Coeffs cv → Coeffs cv × Bool → Type 0
    Set cs left n s r =
        (r.1 ≡ true)
        × ((m : ℕ)
            → n ≤ m
            → m < n + left
            → r.0.conf.coeffs m ≡ record {
              n_blocks = coeff_blocks;
              blocks = some (preprocess_blocks cv (cs m) s.filter_length len scale coeff_blocks 0);
            })
        × ((m : ℕ) → m < n → r.0.conf.coeffs m ≡ s.conf.coeffs m)

    loop-loaded :
        (cs : ℕ → List Sample) (left n : ℕ) (s : Coeffs cv)
        → ((m : ℕ) → n ≤ m → m < n + left → coeffs m ≡ some (cs m))
        → Set cs left n s (loop left n s)
    unfolding preprocess_coeff
    loop-loaded cs zero n s given =
        rw (loop-zero n s) (refl, λ m low high. absurd (omega arith), λ m h. refl)
    loop-loaded cs (suc left) n s given =
        let bs = preprocess_blocks cv (cs n) s.filter_length len scale coeff_blocks 0 in
        let e : preprocessed n s ≡ some bs = rw (given n (omega arith) (omega arith)) refl in
        let s' = with_blocks coeff_blocks n bs s in
        let (ok, above, below) =
          loop-loaded cs left (n + 1) s' (λ m low high. given m (omega arith) (omega arith)) in
        rw (loop-next left n s e) (
          ok,
          λ m low high. elim (ℕ_discrete m n) [
            | yes at ↦
                below m (omega arith)
                ∙ rw at (
                    update_self s.conf.coeffs n
                      (record { n_blocks = coeff_blocks; blocks = some bs }))
            | no ne ↦ above m (omega arith) (omega arith)
          ],
          λ m h. below m (omega arith) ∙ update_ne s.conf.coeffs n m _ (λ e. absurd (omega arith)),
        )

    -- At the first NULL buffer the loop is left.
    loop-stops :
        (left n m : ℕ) (s : Coeffs cv)
        → n ≤ m
        → m < n + left
        → coeffs m ≡ none
        → (loop left n s).1 ≡ false
    unfolding preprocess_coeff
    loop-stops zero n m s low high e = absurd (omega arith)
    loop-stops (suc left) n m s low high e = elim (Option-cases (preprocessed n s)) [
      | inl none_e ↦ rw (loop-null left n s none_e) refl
      | inr (bs, some_e) ↦ rw (loop-next left n s some_e) (elim (ℕ_discrete n m) [
        | yes at ↦
            let none_e : preprocessed n s ≡ none = rw (at, e) refl in
            absurd (ground (arith, none_e, some_e))
        | no ne ↦
            loop-stops left (n + 1) m (with_blocks coeff_blocks n bs s) (omega arith) (omega arith)
              e
      ])
    ]

  -- Buffers for every channel, none of them NULL: `set_coeff` returns 0, the coefficients count as
  -- set, each channel has `coeff_blocks` blocks, those that `preprocess_coeff` makes of its buffer,
  -- and the rest of the configuration is as before.
  pub set_coeff-loaded :
      (coeffs : ℕ → Option (List Sample)) (cs : ℕ → List Sample) (n_coeffs len coeff_blocks : ℕ)
      (scale : R.Double) (s : Coeffs cv)
      → s.conf.n_channels ≤ n_coeffs
      → ((m : ℕ) → m < s.conf.n_channels → coeffs m ≡ some (cs m))
      → let (s', code) = set_coeff cv coeffs n_coeffs len coeff_blocks scale s in
        (code ≡ pos 0)
        × (s'.initialized ≡ true)
        × SameShape s s'
        × ((m : ℕ)
            → m < s.conf.n_channels
            → s'.conf.coeffs m ≡ record {
              n_blocks = coeff_blocks;
              blocks = some (preprocess_blocks cv (cs m) s.filter_length len scale coeff_blocks 0);
            })
  unfolding set_coeff set_all free_coeff
  set_coeff-loaded coeffs cs n_coeffs len coeff_blocks scale s enough given =
      let s0 = free_coeff cv s in
      let all : (if ltb s.conf.n_channels n_coeffs then s.conf.n_channels else n_coeffs)
          ≡ s.conf.n_channels =
        ground arith in
      let (ok, above, below) =
        loop-loaded coeffs len coeff_blocks scale cs s.conf.n_channels 0 s0
          (λ m low high. given m (omega arith)) in
      let shape = loop-SameShape coeffs len coeff_blocks scale s.conf.n_channels 0 s0 in
      rw (all, ok) (refl, refl, shape, λ m h. above m (omega arith) (omega arith))

  -- A NULL buffer among those of the channels: `set_coeff` returns -2, no coefficients count as set,
  -- and those of every channel are NULL.
  pub set_coeff-null :
      (coeffs : ℕ → Option (List Sample)) (n_coeffs len coeff_blocks : ℕ) (scale : R.Double)
      (s : Coeffs cv) (m : ℕ)
      → m < s.conf.n_channels
      → m < n_coeffs
      → coeffs m ≡ none
      → let (s', code) = set_coeff cv coeffs n_coeffs len coeff_blocks scale s in
        (code ≡ negsuc 1)
        × (s'.initialized ≡ false)
        × SameShape s s'
        × ((k : ℕ) → k < s.conf.n_channels → (s'.conf.coeffs k).blocks ≡ none)
  unfolding set_coeff set_all set_channels free_coeff
  set_coeff-null coeffs n_coeffs len coeff_blocks scale s m below given null =
      let s0 = free_coeff cv s in
      let count = min s.conf.n_channels n_coeffs in
      let all : (if ltb s.conf.n_channels n_coeffs then s.conf.n_channels else n_coeffs) ≡ count =
        ground arith in
      let stop =
        loop-stops coeffs len coeff_blocks scale count 0 m s0 (omega arith) (omega arith) null in
      let shape = loop-SameShape coeffs len coeff_blocks scale count 0 s0 in
      let s' = (loop coeffs len coeff_blocks scale count 0 s0).0 in
      rw (all, stop)
        (refl, refl, shape, λ k h. blocks-free_coeff s' k (subst (λ c. k < c) (sym shape.0) h))
