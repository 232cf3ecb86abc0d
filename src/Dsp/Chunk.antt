-- ===== src/Dsp/Chunk.antt =====
-- `dsp_bfir::on_chunk` of foo_dsp_bfir/foo_dsp_bfir.cpp: when the filter is made again, and what
-- becomes of a chunk; and `flush`. The equalizer that is made and deleted beside the filter is not
-- part of the state.
pub mod Formats
mod Tests
use foo_dsp_bfir.Base.{
  ℕ, Bool, true, false, not, ◌&&◌, ◌||◌, ◌==◌, Option, none, some, List, [], ◌∷◌, if◌then◌else◌,
}
use foo_dsp_bfir.Dsp.Buffering.{FilterApi, Buffered, process}
use foo_dsp_bfir.Dsp.Init.{Tools, Config, create_filter}

-- `m_filter`: NULL, a filter, or a pointer to a filter that was deleted.
pub data Pointer (A : Type 0) : Type 0 where
  null dangling : Pointer A
  live : A → Pointer A

module _ {api : FilterApi} (tools : Tools api) where
  open tools use {Double}

  -- The members of `dsp_bfir` that `on_chunk` reads and writes.
  pub record Dsp : Type 0 where
    pub channels : ℕ
    pub srate : ℕ
    pub filter : Pointer api.Filter
    pub inbuf : ℕ → api.Sample
    pub buffer_count : ℕ

  -- A chunk of the player.
  pub record AudioChunk : Type 0 where
    pub channels : ℕ
    pub srate : ℕ
    pub sample_count : ℕ
    pub samples : List api.Sample

  -- The chunk stays in the stream, or it is replaced by others; or a deleted filter is used, or the
  -- fuel of a loop runs out.
  pub data Reply : Type 0 where
    passed : Reply
    replaced : List (List api.Sample) → Reply
    use_after_free out_of_fuel : Reply

  unfoldable pub first_init : Dsp → AudioChunk → Bool
  first_init d c =
      (not (c.channels == d.channels) && (d.channels == 0))
      || (not (c.srate == d.srate) && (d.srate == 0))

  unfoldable pub re_init : Dsp → AudioChunk → Bool
  re_init d c =
      (not (c.channels == d.channels) && not (d.channels == 0))
      || (not (c.srate == d.srate) && not (d.srate == 0))

  -- The filter after the initialization: a deleted one is not set to NULL. (One that was deleted
  -- before has been used since, by `handle_samples`, so a second deletion is not told apart.)
  unfoldable pub initialize : ℕ → Config Double → Dsp → AudioChunk → Dsp
  unfolding first_init re_init
  initialize fuel config d c =
      let d' : Dsp = record d { channels = c.channels; srate = c.srate } in
      let deleted : Pointer api.Filter =
        if re_init d c
        then elim d.filter [ null ↦ null | dangling ↦ dangling | live f ↦ dangling ]
        else d.filter in
      if first_init d c || re_init d c
      then record d' {
        filter = elim (create_filter tools fuel c.channels c.srate config) [
          | none ↦ deleted
          | some f ↦ live f
        ];
      }
      else d'

  -- What follows the initialization. `check` tells whether overflows are reported.
  unfoldable pub handle_samples : ℕ → Bool → Dsp → AudioChunk → Dsp × Reply
  handle_samples fuel check d c = elim d.filter [
    | null ↦ (d, passed)
    | dangling ↦ (d, use_after_free)
    | live f ↦ elim (api.is_initialized f) [
      | false ↦ (d, replaced [])
      | true ↦
          elim (process api fuel check d.channels c.sample_count c.samples
            (record { filter = f; inbuf = d.inbuf; buffer_count = d.buffer_count })) [
              | none ↦ (d, out_of_fuel)
              | some (s, chunks) ↦ (
                record d { filter = live s.filter; inbuf = s.inbuf; buffer_count = s.buffer_count },
                replaced chunks,
              )
            ]
    ]
  ]

  unfoldable pub on_chunk : ℕ → Bool → Config Double → Dsp → AudioChunk → Dsp × Reply
  unfolding initialize handle_samples
  on_chunk fuel check config d c =
      let d' = initialize fuel config d c in handle_samples fuel check d' c

  unfoldable pub flush : Dsp → Dsp
  flush d = record d { buffer_count = 0 }
