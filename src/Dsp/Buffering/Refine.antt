-- ===== src/Dsp/Buffering/Refine.antt =====
-- The processing loop of foo_dsp_bfir/foo_dsp_bfir.cpp refines a buffer that takes one sample at a
-- time: the sizes of the player's chunks do not matter.
use foo_dsp_bfir.Base.{
  ℕ, zero, suc, ◌+◌, ◌-◌, ◌*◌, ◌%◌, ◌^◌, ◌<◌, ◌≤◌, ◌≡◌, refl, sym, ap, subst, ◌∙◌, arith, min, Bool,
  true, false, Option, none, some, List, [], ◌∷◌, ◌++◌, take, drop, length, length-take,
  length-drop, take_all, take-append-drop, append-nil, ◌==◌, dec_lt,
}
use native.Mathlib.Nat.{add-mul, mul-le-mul_right, mul-lt-mul_of_pos_right}
use foo_dsp_bfir.Dsp.Buffering.Buffer.{feed, feed-short, feed-full, read-write, length-read}
use foo_dsp_bfir.Dsp.Buffering.{
  filter_len, FilterApi, read, write, Buffered, run_block, round_of, process,
}

module _ (api : FilterApi) (check : Bool) (channels : ℕ) where
  open api use {Filter, Sample}

  abbrev pub pending : Buffered api → List Sample
  pending s = read api s.inbuf (s.buffer_count * channels)

  abbrev pub fed : Buffered api → List Sample → Filter × List Sample × List (List Sample)
  fed s src = feed api check (filter_len * channels) s.filter (pending s) src

  -- The outcome of a run of the loop, as a buffer has it.
  abbrev pub seen : Buffered api × List (List Sample) → Filter × List Sample × List (List Sample)
  seen (s, chunks) = (s.filter, pending s, chunks)

  -- The state with `k` more samples of every channel.
  abbrev more : Buffered api → ℕ → List Sample → Buffered api
  more s k src = record s {
    inbuf = write api s.inbuf (s.buffer_count * channels) (take (k * channels) src);
    buffer_count = s.buffer_count + k;
  }

  -- Enough samples are there for `k` of every channel.
  pending-more :
      (s : Buffered api) (k : ℕ) (src : List Sample)
      → k * channels ≤ length src
      → pending (more s k src) ≡ pending s ++ take (k * channels) src
  pending-more s k src h =
      ap (read api (more s k src).inbuf) {x = (s.buffer_count + k) * channels}
        {y = s.buffer_count * channels + length (take (k * channels) src)}
        (omega (arith, add-mul s.buffer_count k channels, length-take (k * channels) src))
      ∙ read-write api s.inbuf (s.buffer_count * channels) (take (k * channels) src)

  module _ (small : filter_len * channels < 2 ^ 32) where
    small_count : (k : ℕ) → k ≤ filter_len → k * channels % 2 ^ 32 ≡ k * channels
    small_count k h =
        let bound : k * channels ≤ filter_len * channels = mul-le-mul_right channels h in
        omega arith

    -- A round whose samples do not fill the block.
    round_waits :
        (n : ℕ) (src : List Sample) (s : Buffered api)
        → s.buffer_count + n < filter_len
        → round_of api check channels n src s ≡ (0, drop (n * channels) src, more s n src, [])
    unfolding round_of
    round_waits n src s h =
        let todo : min ((filter_len + 2 ^ 32 - s.buffer_count) % 2 ^ 32) n ≡ n = omega arith in
        let no : (s.buffer_count + n == filter_len) ≡ false = ground arith in
        let none_left : n - n ≡ 0 = omega arith in
        rw (todo, small_count n (omega arith), no, none_left) refl

    -- A round that fills it.
    round_fills :
        (n k : ℕ) (src : List Sample) (s : Buffered api)
        → s.buffer_count < filter_len
        → s.buffer_count + k ≡ filter_len
        → k ≤ n
        → round_of api check channels n src s ≡ (
            let s' = more s k src in
            let (f, chunks) =
              run_block api check (read api s'.inbuf (filter_len * channels)) s.filter in
            (n - k, drop (k * channels) src, record s' { filter = f; buffer_count = 0 }, chunks))
    unfolding round_of
    round_fills n k src s room full h =
        let todo : min ((filter_len + 2 ^ 32 - s.buffer_count) % 2 ^ 32) n ≡ k = omega arith in
        let yes : (s.buffer_count + k == filter_len) ≡ true = ground arith in
        rw (todo, small_count k (omega arith), yes) refl

  none_pending : (s : Buffered api) → s.buffer_count ≡ 0 → pending s ≡ []
  unfolding read
  none_pending s h =
      ap (read api s.inbuf) {x = s.buffer_count * channels} {y = 0} (rw h (omega arith))

  length-pending : (s : Buffered api) → length (pending s) ≡ s.buffer_count * channels
  length-pending s = length-read api s.inbuf (s.buffer_count * channels)

  process-zero :
      (fuel : ℕ) (src : List Sample) (s : Buffered api)
      → process api fuel check channels 0 src s ≡ some (s, [])
  unfolding process
  process-zero fuel src s = refl

  -- The rounds after one.
  abbrev continued :
      ℕ
      → ℕ × List Sample × Buffered api × List (List Sample)
      → Option (Buffered api × List (List Sample))
  continued fuel (left, rest, s', inserted) = elim (process api fuel check channels left rest s') [
    | none ↦ none
    | some (s'', chunks) ↦ some (s'', inserted ++ chunks)
  ]

  process-next :
      (fuel n : ℕ) (src : List Sample) (s : Buffered api)
      → process api (suc fuel) check channels (suc n) src s
        ≡ continued fuel (round_of api check channels (suc n) src s)
  unfolding process
  process-next fuel n src s = refl

  -- What a run of the loop has to leave.
  abbrev pub IsFed :
      Option (Buffered api × List (List Sample))
      → Filter × List Sample × List (List Sample)
      → Type 0
  IsFed o p =
      (r : Buffered api × List (List Sample)) × (o ≡ some r)
      × (r.0.buffer_count < filter_len)
      × (seen r ≡ p)

  -- The state after the block that `k` more samples fill, and the chunks inserted.
  abbrev after_block : Buffered api → ℕ → List Sample → Buffered api
  after_block s k src = record (more s k src) {
    filter =
        (run_block api check (read api (more s k src).inbuf (filter_len * channels)) s.filter).0;
    buffer_count = 0;
  }

  abbrev block_chunks : Buffered api → ℕ → List Sample → List (List Sample)
  block_chunks s k src =
      (run_block api check (read api (more s k src).inbuf (filter_len * channels)) s.filter).1

  IsFed-continued :
      (fuel left : ℕ) (rest : List Sample) (s' : Buffered api) (out : List (List Sample))
      (p : Filter × List Sample × List (List Sample))
      → IsFed (process api fuel check channels left rest s') (fed s' rest)
      → ((fed s' rest).0, (fed s' rest).1, out ++ (fed s' rest).2) ≡ p
      → IsFed (continued fuel (left, rest, s', out)) p
  IsFed-continued fuel left rest s' out p (r, e, below, same) h =
      rw (e, continued)
        (
          (r.0, out ++ r.1),
          refl,
          below,
          ap (λ (q : Filter × List Sample × List (List Sample)). (q.0, q.1, out ++ q.2)) same ∙ h,
        )

  module _ (positive : 0 < channels) (small : filter_len * channels < 2 ^ 32) where
    fed-waits :
        (n : ℕ) (src : List Sample) (s : Buffered api)
        → s.buffer_count + n < filter_len
        → length src ≡ n * channels
        → seen (more s n src, []) ≡ fed s src
    fed-waits n src s h whole =
        let below : (s.buffer_count + n) * channels < filter_len * channels =
          mul-lt-mul_of_pos_right h positive in
        let p =
          pending-more s n src (omega arith)
          ∙ ap (λ (xs : List Sample). pending s ++ xs)
              (take_all (n * channels) src (omega arith)) in
        ap (λ (xs : List Sample). (s.filter, xs, [])) p
        ∙ sym (
            feed-short api check (filter_len * channels) s.filter (pending s) src []
              (omega (arith, length-pending s, add-mul s.buffer_count n channels)))
        ∙ ap (fed s) (append-nil src)

    fed-fills :
        (k : ℕ) (src : List Sample) (s : Buffered api)
        → s.buffer_count < filter_len
        → s.buffer_count + k ≡ filter_len
        → k * channels ≤ length src
        → let (f', out) =
            run_block api check (read api (more s k src).inbuf (filter_len * channels)) s.filter in
          let (f'', rest, chunks) =
            fed
              (record (more s k src) { filter = f'; buffer_count = 0 })
              (drop (k * channels) src) in
          (f'', rest, out ++ chunks) ≡ fed s src
    fed-fills k src s room full h =
        let s' = more s k src in
        let block : read api s'.inbuf (filter_len * channels)
            ≡ pending s ++ take (k * channels) src =
          ap (λ (c : ℕ). read api s'.inbuf (c * channels)) (sym full) ∙ pending-more s k src h in
        let nothing : read api s'.inbuf (0 * channels) ≡ [] =
          none_pending (record s' { buffer_count = 0 }) refl in
        let below : s.buffer_count * channels < filter_len * channels =
          mul-lt-mul_of_pos_right room positive in
        let both_parts = add-mul s.buffer_count k channels in
        let product : (s.buffer_count + k) * channels ≡ filter_len * channels =
          ap (λ (c : ℕ). c * channels) full in
        rw (block, nothing)
          (sym (
              feed-full api check (filter_len * channels) s.filter (pending s)
                (take (k * channels) src) (drop (k * channels) src)
                (omega (arith, length-pending s))
                (omega (arith, length-pending s, length-take (k * channels) src)))
            ∙ ap (fed s) (take-append-drop (k * channels) src))

    -- The loop of `on_chunk` ends, with as much fuel as there are samples of a channel, and it
    -- refines a buffer that takes the samples one at a time: the filter is run on each block as soon
    -- as it is full, the same chunks are inserted in the same order, and the same samples wait. The
    -- buffer is never left full. There is at least one channel, the size of a block is an `unsigned
    -- int`, and the samples of the chunk are as many as its count says.
    pub process-IsFed :
        (fuel n : ℕ) (src : List Sample) (s : Buffered api)
        → n ≤ fuel
        → s.buffer_count < filter_len
        → length src ≡ n * channels
        → IsFed (process api fuel check channels n src s) (fed s src)
    process-IsFed fuel zero [] s enough room whole =
        subst (λ o. IsFed o (fed s [])) (sym (process-zero fuel [] s)) ((s, []), refl, room, refl)
    process-IsFed fuel zero (x ∷ src) s enough room whole = absurd (omega arith)
    process-IsFed zero (suc n) src s enough room whole = absurd (omega arith)
    process-IsFed (suc fuel) (suc n) src s enough room whole =
        elim (dec_lt (s.buffer_count + suc n) filter_len) [
          | yes h ↦
              rw (process-next, round_waits small (suc n) src s h)
                (rw
                  (process-zero fuel (drop (suc n * channels) src) (more s (suc n) src), continued)
                  ((more s (suc n) src, []), refl, h, fed-waits (suc n) src s h whole))
          | no h ↦
              let k = filter_len - s.buffer_count in
              let parts : k * channels + (suc n - k) * channels ≡ suc n * channels =
                sym (add-mul k (suc n - k) channels)
                ∙ ap (λ (c : ℕ). c * channels) {x = k + (suc n - k)} (omega arith) in
              rw (process-next, round_fills small (suc n) k src s room (omega arith) (omega arith))
                (IsFed-continued fuel (suc n - k) (drop (k * channels) src) (after_block s k src)
                  (block_chunks s k src) (fed s src)
                  (process-IsFed fuel (suc n - k) (drop (k * channels) src) (after_block s k src)
                    (omega arith) (omega arith)
                    (omega (arith, parts, length-drop (k * channels) src)))
                  (fed-fills k src s room (omega arith) (omega (arith, parts))))
        ]
