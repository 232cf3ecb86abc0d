-- ===== src/Dsp/Buffering.antt =====
-- The processing loop of `dsp_bfir::on_chunk` in foo_dsp_bfir/foo_dsp_bfir.cpp: samples are collected
-- until a block is full, and the filter is run on it.
pub mod Buffer
pub mod Refine
pub mod Chunks
use foo_dsp_bfir.Base.{
  ℕ, zero, suc, ◌+◌, ◌-◌, ◌*◌, ◌%◌, ◌^◌, min, Bool, true, false, Option, none, some, List, [], ◌∷◌,
  ◌++◌, take, drop, update, ◌==◌, if◌then◌else◌,
}

abbrev pub filter_len : ℕ
filter_len = 1024

-- What the loop uses of a filter: `run` on the `m_channels` channels, whose result is the output
-- buffer for 0 and `none` for another value, and `check_overflows`.
pub record FilterApi : Type 1 where
  pub Filter : Type 0
  pub Sample : Type 0
  pub run : Filter → List Sample → Filter × Option (List Sample)
  pub check_overflows : Filter → Filter
  pub is_initialized : Filter → Bool

module _ (api : FilterApi) where
  open api use {Filter, Sample}

  -- The samples of a buffer from its start.
  unfoldable pub read : (ℕ → Sample) → ℕ → List Sample
  read buf zero = []
  read buf (suc n) = read buf n ++ (buf n ∷ [])

  -- `*dst++ = *src++`
  unfoldable pub write : (ℕ → Sample) → ℕ → List Sample → ℕ → Sample
  write buf dst [] = buf
  write buf dst (x ∷ xs) = write (update buf dst x) (dst + 1) xs

  pub record Buffered : Type 0 where
    pub filter : Filter
    pub inbuf : ℕ → Sample
    pub buffer_count : ℕ

  -- A full block: the chunk that is inserted, if `run` succeeds. `check` tells whether the overflows
  -- are reported.
  unfoldable pub run_block : Bool → List Sample → Filter → Filter × List (List Sample)
  run_block check block f =
      let (f', result) = api.run f block in
      elim result [
        | some out ↦ (if check then api.check_overflows f' else f', out ∷ [])
        | none ↦ (f', [])
      ]

  -- One round of the loop: what is left of the count and of the samples, and the chunks inserted.
  -- `todo` and `j` are of the type `unsigned int`.
  unfoldable pub round_of :
      Bool → ℕ → ℕ → List Sample → Buffered → ℕ × List Sample × Buffered × List (List Sample)
  unfolding run_block
  round_of check channels sample_count src s =
      let todo = min ((filter_len + 2 ^ 32 - s.buffer_count) % 2 ^ 32) sample_count in
      let j = todo * channels % 2 ^ 32 in
      let inbuf = write s.inbuf (s.buffer_count * channels) (take j src) in
      let count = s.buffer_count + todo in
      let (f, chunks) = run_block check (read inbuf (filter_len * channels)) s.filter in
      if count == filter_len
      then (
        sample_count - todo,
        drop j src,
        record { filter = f; inbuf = inbuf; buffer_count = 0 },
        chunks,
      )
      else (sample_count - todo, drop j src, record s { inbuf = inbuf; buffer_count = count }, [])

  -- `while (sample_count)`, with fuel for the rounds.
  unfoldable pub process :
      ℕ → Bool → ℕ → ℕ → List Sample → Buffered → Option (Buffered × List (List Sample))
  process fuel check channels zero src s = some (s, [])
  process zero check channels (suc n) src s = none
  process (suc fuel) check channels (suc n) src s =
      let (left, rest, s', inserted) = round_of check channels (suc n) src s in
      elim (process fuel check channels left rest s') [
        | none ↦ none
        | some (s'', more) ↦ some (s'', inserted ++ more)
      ]
