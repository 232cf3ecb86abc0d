-- ===== src/Dsp/Buffering/Chunks.antt =====
-- The processing loop of foo_dsp_bfir/foo_dsp_bfir.cpp on a stream that the player cuts into chunks.
use native.Mathlib.Nat.{add-mul}
use foo_dsp_bfir.Base.{
  ℕ, ◌+◌, ◌*◌, ◌^◌, ◌<◌, ◌≡◌, refl, sym, ap, ◌∙◌, arith, Bool, some, List, [], ◌∷◌, ◌++◌, length,
  length-append, append_assoc, ◌==◌, Bool-cases, inl, inr,
}
use foo_dsp_bfir.Dsp.Buffering.{filter_len, FilterApi, Buffered, run_block, process}
use foo_dsp_bfir.Dsp.Buffering.Buffer.{feed}
use foo_dsp_bfir.Dsp.Buffering.Refine.{pending, seen, process-IsFed}

module _ (api : FilterApi) (check : Bool) (block : ℕ) where
  open api use {Filter, Sample}

  -- Fed with one list and then another.
  feed-append :
      (f : Filter) (wait xs ys : List Sample)
      → feed api check block f wait (xs ++ ys) ≡ (
          let (f', wait', out) = feed api check block f wait xs in
          let (f'', wait'', more) = feed api check block f' wait' ys in (f'', wait'', out ++ more))
  feed-append f wait [] ys = refl
  feed-append f wait (x ∷ xs) ys = elim (Bool-cases (length wait + 1 == block)) [
    | inl full ↦
        let r = run_block api check (wait ++ (x ∷ [])) f in
        let q = feed api check block r.0 [] xs in
        let q' = feed api check block q.0 q.1 ys in
        rw (full, feed)
          (ap (λ (p : Filter × List Sample × List (List Sample)). (p.0, p.1, r.1 ++ p.2))
              (feed-append r.0 [] xs ys)
            ∙ ap (λ (o : List (List Sample)). (q'.0, q'.1, o)) (sym (append_assoc r.1 q.2 q'.2)))
    | inr short ↦ rw (short, feed) (feed-append f (wait ++ (x ∷ [])) xs ys)
  ]

module _ (api : FilterApi) (check : Bool) (channels : ℕ) (positive : 0 < channels)
    (small : filter_len * channels < 2 ^ 32) where
  open api use {Filter, Sample}

  -- A feed of more samples after one.
  abbrev after :
      List Sample
      → Filter × List Sample × List (List Sample)
      → Filter × List Sample × List (List Sample)
  after ys (f', wait', out) =
      let (f'', wait'', more) = feed api check (filter_len * channels) f' wait' ys in
      (f'', wait'', out ++ more)

  -- Where the player cuts the stream does not matter: two chunks, one after the other, and one chunk
  -- with the samples of both leave the same filter, the same samples waiting, and the same chunks
  -- inserted. There is at least one channel, the size of a block is an `unsigned int`, the buffer is
  -- not full at first, and each chunk has as many samples as its count says.
  pub process-append :
      (m n : ℕ) (xs ys : List Sample) (s : Buffered api)
      → s.buffer_count < filter_len
      → length xs ≡ m * channels
      → length ys ≡ n * channels
      → (r r' r'' : Buffered api × List (List Sample)) × (process api m check channels m xs s
          ≡ some r)
        × (process api n check channels n ys r.0 ≡ some r')
        × (process api (m + n) check channels (m + n) (xs ++ ys) s ≡ some r'')
        × (seen api check channels r'' ≡ seen api check channels (r'.0, r.1 ++ r'.1))
  process-append m n xs ys s room whole whole' =
      let (r, e, below, same) =
        process-IsFed api check channels positive small m m xs s (omega arith) room whole in
      let (r', e', below', same') =
        process-IsFed api check channels positive small n n ys r.0 (omega arith) below whole' in
      let (r'', e'', below'', same'') =
        process-IsFed api check channels positive small (m + n) (m + n) (xs ++ ys) s (omega arith)
          room (omega (arith, length-append xs ys, add-mul m n channels)) in
      (
        r,
        r',
        r'',
        e,
        e',
        e'',
        same''
            ∙ feed-append api check (filter_len * channels) s.filter (pending api check channels s)
                xs ys
            ∙ ap (after ys) (sym same)
            ∙ ap (λ (q : Filter × List Sample × List (List Sample)). (q.0, q.1, r.1 ++ q.2))
                (sym same'),
      )
