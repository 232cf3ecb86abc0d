-- ===== src/Dsp/Buffering/Buffer.antt =====
-- The buffers of foo_dsp_bfir/foo_dsp_bfir.cpp: what a buffer holds after a write, and a buffer that
-- takes one sample at a time.
use foo_dsp_bfir.Base.{
  ℕ, zero, suc, ◌+◌, ◌<◌, ◌≤◌, ◌≡◌, refl, ap, ap₂, ◌∙◌, arith, Bool, true, false, List, [], ◌∷◌,
  ◌++◌, length, length-append, append-nil, append_assoc, update, update_self, update_ne, ◌==◌,
}
use foo_dsp_bfir.Dsp.Buffering.{FilterApi, read, write, run_block}

module _ (api : FilterApi) (check : Bool) (block : ℕ) where
  open api use {Filter, Sample}

  -- One sample at a time: the filter, the samples that wait, and the chunks.
  abbrev pub feed : Filter → List Sample → List Sample → Filter × List Sample × List (List Sample)
  feed f pending [] = (f, pending, [])
  feed f pending (x ∷ xs) = elim (length pending + 1 == block) [
    | true ↦
        let (f', out) = run_block api check (pending ++ (x ∷ [])) f in
        let (f'', rest, more) = feed f' [] xs in (f'', rest, out ++ more)
    | false ↦ feed f (pending ++ (x ∷ [])) xs
  ]

  -- Samples that do not fill the block wait.
  pub feed-short :
      (f : Filter) (pending xs ys : List Sample)
      → length pending + length xs < block
      → feed f pending (xs ++ ys) ≡ feed f (pending ++ xs) ys
  feed-short f pending [] ys h = rw append-nil refl
  feed-short f pending (x ∷ xs) ys h =
      let l = length-append pending (x ∷ []) in
      let no : (length pending + 1 == block) ≡ false = ground arith in
      rw (no, feed)
        (feed-short f (pending ++ (x ∷ [])) xs ys (omega (arith, l))
          ∙ rw (append_assoc pending (x ∷ []) xs) refl)

  -- Samples that fill it are run.
  pub feed-full :
      (f : Filter) (pending xs ys : List Sample)
      → length pending < block
      → length pending + length xs ≡ block
      → feed f pending (xs ++ ys) ≡ (
          let (f', out) = run_block api check (pending ++ xs) f in
          let (f'', rest, more) = feed f' [] ys in (f'', rest, out ++ more))
  feed-full f pending [] ys room h = absurd (omega arith)
  feed-full f pending (x ∷ []) ys room h =
      let last : (length pending + 1 == block) ≡ true = ground arith in rw (last, feed) refl
  feed-full f pending (x ∷ y ∷ xs) ys room h =
      let l = length-append pending (x ∷ []) in
      let no : (length pending + 1 == block) ≡ false = ground arith in
      rw (no, feed)
        (feed-full f (pending ++ (x ∷ [])) (y ∷ xs) ys (omega (arith, l)) (omega (arith, l))
          ∙ rw (append_assoc pending (x ∷ []) (y ∷ xs)) refl)

module _ (api : FilterApi) where
  open api use {Filter, Sample}

  read-update :
      (buf : ℕ → Sample) (n m : ℕ) (x : Sample)
      → m ≤ n
      → read api (update buf n x) m ≡ read api buf m
  unfolding read
  read-update buf n zero x h = refl
  read-update buf n (suc m) x h =
      ap₂ (λ (r : List Sample) (y : Sample). r ++ (y ∷ [])) (read-update buf n m x (omega arith))
        (update_ne buf n m x (λ e. absurd (omega arith)))

  read-next :
      (buf : ℕ → Sample) (n : ℕ) (x : Sample)
      → read api (update buf n x) (n + 1) ≡ read api buf n ++ (x ∷ [])
  unfolding read
  read-next buf n x =
      ap (read api (update buf n x)) {x = n + 1} {y = suc n} (omega arith)
      ∙ ap₂ (λ (r : List Sample) (y : Sample). r ++ (y ∷ [])) (read-update buf n n x (omega arith))
          (update_self buf n x)

  pub read-write :
      (buf : ℕ → Sample) (n : ℕ) (xs : List Sample)
      → read api (write api buf n xs) (n + length xs) ≡ read api buf n ++ xs
  unfolding write
  read-write buf n [] = ap (read api buf) {y = n} (omega arith) ∙ rw append-nil refl
  read-write buf n (x ∷ xs) =
      ap (read api (write api (update buf n x) (n + 1) xs)) {x = n + suc (length xs)}
        {y = n + 1 + length xs} (omega arith)
      ∙ read-write (update buf n x) (n + 1) xs
      ∙ rw read-next (append_assoc (read api buf n) (x ∷ []) xs)

  pub length-read : (buf : ℕ → Sample) (n : ℕ) → length (read api buf n) ≡ n
  unfolding read
  length-read buf zero = refl
  length-read buf (suc n) =
      length-append (read api buf n) (buf n ∷ []) ∙ rw (length-read buf n) (omega arith)
