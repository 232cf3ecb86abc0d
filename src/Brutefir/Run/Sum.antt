-- ===== src/Brutefir/Run/Sum.antt =====
-- The loop of `run` in brutefir/brutefir.cpp over the earlier blocks adds the products of
-- Brutefir/Spec.
use foo_dsp_bfir.Base.{
  ℕ, suc, ◌+◌, ◌-◌, ◌%◌, ◌^◌, ◌<◌, ◌≤◌, ◌≡◌, refl, arith, Bool, true, false, List, [], ◌∷◌, map,
  drop, length, length-drop, ap, some, get_elem?, get_elem?-map, drop-cons, ◌∙◌, ltb, lt→ltb,
  le→ltb, Bool-cases, ◌==◌, ==_iff, inl, inr, sym,
}
use foo_dsp_bfir.Brutefir.Real.{Real}
use foo_dsp_bfir.Brutefir.Convolver.{Convolver, IsLawful}
use foo_dsp_bfir.Brutefir.Filter.{
  Buffer, Conf, Coeff, Filter, coeff_block, add_blocks, convolved, block_index,
}
use foo_dsp_bfir.Brutefir.Spec.{spectra, add_products, block_convolution}
use foo_dsp_bfir.Brutefir.Run.{Holds}
use foo_dsp_bfir.Brutefir.Run.Ring.{block_index_lem}

module _ {R : Real} (cv : Convolver R) (conf : Conf cv) (silence : ℕ → Buffer cv) where
  open cv use {Raw}

  length-spectra : (n : ℕ) (hist : List Raw) → length (spectra cv conf silence n hist) ≡ length hist
  length-spectra n [] = refl
  length-spectra n (raw ∷ older) = ap suc (length-spectra n older)

  coeff_block-eq :
      (c : Coeff cv) (hs : List (Buffer cv)) (i : ℕ) {h : Buffer cv}
      → c.blocks ≡ some (map some hs)
      → get_elem? hs i ≡ some h
      → coeff_block cv c i ≡ some h
  unfolding coeff_block
  coeff_block-eq c hs i e g = ground (arith, e, get_elem?-map some hs i g)

  module _ (hs : ℕ → List (Buffer cv)) (hist : List Raw) (raw : Raw) (side : Bool) (f : Filter cv)
      (n : ℕ) (counter : f.blockcounter ≡ length hist) (small : length hist < 2 ^ 32)
      (h : Holds cv conf silence (raw ∷ hist) side f n)
      (blocks : (conf.coeffs n).blocks ≡ some (map some (hs n))) where
    abbrev all : List (Buffer cv)
    all = spectra cv conf silence n (raw ∷ hist)

    -- The product of age `i` is the one that the specification adds.
    block-eq :
        (i : ℕ) {x : Buffer cv}
        → 1 < conf.n_blocks
        → i < conf.n_blocks
        → i ≤ length hist
        → get_elem? all i ≡ some x
        → f.cbuf n (block_index f.blockcounter i conf.n_blocks) ≡ x
    block-eq i many below old e =
        let age : suc (length hist) - 1 - i ≡ length hist - i = omega arith in
        let place : block_index f.blockcounter i conf.n_blocks ≡ (length hist - i) % conf.n_blocks =
          rw counter (block_index_lem (length hist) i conf.n_blocks small old) in
        let held = rw age at (h.stored many i (omega arith)) in cc (place, held, e)

    add_blocks-eq :
        (hs' xs : List (Buffer cv)) (i : ℕ) (out : Buffer cv)
        → 1 < conf.n_blocks
        → 0 < i
        → i + length hs' ≤ conf.n_blocks
        → drop i (hs n) ≡ hs'
        → drop i all ≡ xs
        → add_blocks cv conf n f (length hs') i out ≡ some (add_products cv out xs hs')
    unfolding add_blocks
    add_blocks-eq [] [] i out many pos fits eh ex = refl
    add_blocks-eq [] (x ∷ xs) i out many pos fits eh ex = refl
    add_blocks-eq (c ∷ hs') [] i out many pos fits eh ex =
        let none_left : length all ≤ i =
          omega (arith, length-drop i all, ap (length {A = Buffer cv}) ex) in
        let last : ltb i (f.procblocks n) ≡ false =
          le→ltb i _ (omega (arith, h.processed, length-spectra n hist)) in
        rw last
    add_blocks-eq (c ∷ hs') (x ∷ xs) i out many pos fits eh ex =
        let some_left : i < length all =
          omega (arith, length-drop i all, ap (length {A = Buffer cv}) ex) in
        let more : ltb i (f.procblocks n) ≡ true =
          lt→ltb i _ (omega (arith, h.processed, length-spectra n hist)) in
        let (now, later) = drop-cons i all ex in
        let (c_now, c_later) = drop-cons i (hs n) eh in
        let product = block-eq i many (omega arith) (omega (arith, length-spectra n hist)) now in
        let rest =
          add_blocks-eq hs' xs (suc i) (cv.convolve_add x c out) many (omega arith) (omega arith)
            c_later later in
        let index : i + 1 ≡ suc i = omega arith in
        rw (more, coeff_block-eq (conf.coeffs n) (hs n) i blocks c_now, product, index) rest

    add_products-nil : (out : Buffer cv) (xs : List (Buffer cv)) → add_products cv out xs [] ≡ out
    add_products-nil out [] = refl
    add_products-nil out (x ∷ xs) = refl

    -- What stands in `ocbuf[n]` after the convolution is the partitioned convolution.
    pub convolved-eq :
        (c : Buffer cv) (hs' : List (Buffer cv)) {x : Buffer cv}
        → IsLawful cv
        → hs n ≡ c ∷ hs'
        → (conf.coeffs n).n_blocks ≡ length (hs n)
        → length (hs n) ≤ conf.n_blocks
        → f.curblock ≡ length hist % conf.n_blocks
        → f.cbuf n (length hist % conf.n_blocks) ≡ x
        → convolved cv conf n f
          ≡ some (block_convolution cv x (spectra cv conf silence n hist) (hs n))
    unfolding convolved
    convolved-eq c hs' {x} law e counted fits cur now = elim (Bool-cases (conf.n_blocks == 1)) [
      | inl single ↦
          let one : conf.n_blocks ≡ 1 = (==_iff _ _).0 single in
          let index : length hist % conf.n_blocks ≡ 0 = rw one (omega arith) in
          let here : f.cbuf n 0 ≡ x = rw (← index) now in
          rw (first, convolved, single, e, here, law.inplace)
            (ap some (sym (alone hs' (omega (arith, size)))))
      | inr several ↦
          let rest =
            add_blocks-eq hs' (spectra cv conf silence n hist) 1 (cv.convolve x c)
              (ground (arith, size)) (omega arith) (omega (arith, size)) (rw e refl) refl in
          rw (first, convolved, several, e, ap (f.cbuf n) cur ∙ now, left) rest
    ]
      where
        size : length (hs n) ≡ suc (length hs')
        size = ap (length {A = Buffer cv}) e

        first : coeff_block cv (conf.coeffs n) 0 ≡ some c
        first = coeff_block-eq (conf.coeffs n) (hs n) 0 blocks (rw e refl)

        left : (conf.coeffs n).n_blocks - 1 ≡ length hs'
        left = omega (arith, size)

        alone :
            (r : List (Buffer cv))
            → length r ≡ 0
            → add_products cv (cv.convolve x c) (spectra cv conf silence n hist) r ≡ cv.convolve x c
        alone [] z = add_products-nil _ _
        alone (y ∷ r) z = absurd (omega arith)
