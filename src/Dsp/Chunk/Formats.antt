-- ===== src/Dsp/Chunk/Formats.antt =====
-- `on_chunk` of foo_dsp_bfir/foo_dsp_bfir.cpp as the format of the chunks stays or changes.
use foo_dsp_bfir.Base.{
  ℕ, ◌*◌, ◌^◌, ◌<◌, ◌≤◌, ◌≡◌, ◌≢◌, refl, ap, ◌∙◌, arith, Bool, true, false, none, some, List, [],
  length, pos,
}
use foo_dsp_bfir.Dsp.Buffering.{filter_len, FilterApi, Buffered, process, read}
use foo_dsp_bfir.Dsp.Buffering.Buffer.{feed}
use foo_dsp_bfir.Dsp.Buffering.Refine.{process-IsFed}
use foo_dsp_bfir.Dsp.Init.{
  Tools, Config, FileConfig, is_nonzero, file_impulse, impulses, single_impulse, create_filter,
}
use foo_dsp_bfir.Dsp.Chunk.{
  Pointer, null, dangling, live, Dsp, AudioChunk, passed, replaced, use_after_free, re_init,
  initialize, handle_samples, on_chunk,
}

module _ {api : FilterApi} (tools : Tools api) where
  open tools use {Double}

  -- Nothing is enabled.
  abbrev pub IsOff : Config Double → Type 0
  IsOff c =
      (c.eq_enable ≡ pos 0)
      × (c.file1.enable ≡ pos 0)
      × (c.file2.enable ≡ pos 0)
      × (c.file3.enable ≡ pos 0)

  file_impulse-off :
      (channels srate : ℕ) (c : FileConfig Double)
      → c.enable ≡ pos 0
      → file_impulse tools channels srate c ≡ []
  unfolding file_impulse
  file_impulse-off channels srate c h = rw h refl

  impulses-off :
      (channels srate : ℕ) (c : Config Double) → IsOff c → impulses tools channels srate c ≡ []
  unfolding impulses is_nonzero
  impulses-off channels srate c (eq, one, two, three) =
      rw
        (
          eq,
          file_impulse-off channels srate c.file1 one,
          file_impulse-off channels srate c.file2 two,
          file_impulse-off channels srate c.file3 three,
        )
        refl

  create_filter-off :
      (fuel channels srate : ℕ) (c : Config Double)
      → IsOff c
      → create_filter tools fuel channels srate c ≡ none
  unfolding create_filter single_impulse
  create_filter-off fuel channels srate c off = rw (impulses-off channels srate c off) refl

  -- What a deletion leaves.
  abbrev deleted : Bool → Pointer api.Filter → Pointer api.Filter
  deleted true null = null
  deleted true dangling = dangling
  deleted true (live f) = dangling
  deleted false p = p

  initialize-off :
      (fuel : ℕ) (config : Config Double) (d : Dsp tools) (c : AudioChunk tools)
      → IsOff config
      → let d' = initialize tools fuel config d c in
        (d'.filter ≡ deleted (re_init tools d c) d.filter) × (d'.buffer_count ≡ d.buffer_count)
  unfolding initialize
  initialize-off fuel config d c off =
      let none_made = create_filter-off fuel c.channels c.srate config off in
      ground (arith, none_made)

  deleted-null : (b : Bool) → deleted b null ≡ null
  deleted-null true = refl
  deleted-null false = refl

  re_init-channels :
      (d : Dsp tools) (c : AudioChunk tools)
      → d.channels ≢ 0
      → c.channels ≢ d.channels
      → re_init tools d c ≡ true
  unfolding re_init
  re_init-channels d c some_channels differ = ground arith

  handled :
      (fuel : ℕ) (check : Bool) (d : Dsp tools) (c : AudioChunk tools)
      → d.filter ≡ null
      → let (d', reply) = handle_samples tools fuel check d c in
        (reply ≡ passed) × (d'.filter ≡ null) × (d'.buffer_count ≡ d.buffer_count)
  unfolding handle_samples
  handled fuel check d c h = rw (h, handle_samples) (refl, h, refl)

  handled-dangling :
      (fuel : ℕ) (check : Bool) (d : Dsp tools) (c : AudioChunk tools)
      → d.filter ≡ dangling
      → (handle_samples tools fuel check d c).1 ≡ use_after_free
  unfolding handle_samples
  handled-dangling fuel check d c h = rw (h, handle_samples) refl

  -- The first chunk, with no impulse file and no equalizer enabled: it stays in the stream, and there
  -- is no filter.
  on_chunk-off :
      (fuel : ℕ) (check : Bool) (config : Config Double) (d : Dsp tools) (c : AudioChunk tools)
      → IsOff config
      → d.filter ≡ null
      → let (d', reply) = on_chunk tools fuel check config d c in
        (reply ≡ passed) × (d'.filter ≡ null) × (d'.buffer_count ≡ d.buffer_count)
  unfolding on_chunk
  on_chunk-off fuel check config d c off no_filter =
      let d' = initialize tools fuel config d c in
      let (p, same) = initialize-off fuel config d c off in
      let still : d'.filter ≡ null = p ∙ rw no_filter (deleted-null (re_init tools d c)) in
      let all = handled fuel check d' c still in (all.0, all.1, all.2 ∙ same)

  -- A change of the number of channels, with no impulse file and no equalizer enabled any more: the
  -- filter that was deleted is used.
  pub on_chunk-deleted :
      (fuel : ℕ) (check : Bool) (config : Config Double) (d : Dsp tools) (c : AudioChunk tools)
      (f : api.Filter)
      → IsOff config
      → d.filter ≡ live f
      → d.channels ≢ 0
      → c.channels ≢ d.channels
      → (on_chunk tools fuel check config d c).1 ≡ use_after_free
  unfolding on_chunk
  on_chunk-deleted fuel check config d c f off is_live some_channels differ =
      let d' = initialize tools fuel config d c in
      let (p, same) = initialize-off fuel config d c off in
      let again : re_init tools d c ≡ true = re_init-channels d c some_channels differ in
      handled-dangling fuel check d' c (p ∙ rw (again, is_live) refl)

  initialize-steady :
      (fuel : ℕ) (config : Config Double) (d : Dsp tools) (c : AudioChunk tools)
      → c.channels ≡ d.channels
      → c.srate ≡ d.srate
      → initialize tools fuel config d c ≡ record d { channels = c.channels; srate = c.srate }
  unfolding initialize
  initialize-steady fuel config d c channels srate = ground arith

  handled-live :
      (fuel : ℕ) (check : Bool) (d : Dsp tools) (c : AudioChunk tools) (f : api.Filter)
      (r : Buffered api × List (List api.Sample))
      → d.filter ≡ live f
      → api.is_initialized f ≡ true
      → process api fuel check d.channels c.sample_count c.samples
          (record { filter = f; inbuf = d.inbuf; buffer_count = d.buffer_count })
        ≡ some r
      → handle_samples tools fuel check d c ≡ (
        record d { filter = live r.0.filter; inbuf = r.0.inbuf; buffer_count = r.0.buffer_count },
        replaced r.1,
      )
  unfolding handle_samples
  handled-live fuel check d c f r h ready e = rw (h, handle_samples, ready, e) refl

  -- A chunk of the format of the last one, for a filter whose coefficients are set: the filter is kept,
  -- the chunk is replaced, and the chunks that replace it and the state are those of a buffer that
  -- takes the samples one at a time.
  pub on_chunk-feeds :
      (fuel : ℕ) (check : Bool) (config : Config Double) (d : Dsp tools) (c : AudioChunk tools)
      (f : api.Filter)
      → d.filter ≡ live f
      → api.is_initialized f ≡ true
      → c.channels ≡ d.channels
      → c.srate ≡ d.srate
      → 0 < c.channels
      → filter_len * c.channels < 2 ^ 32
      → d.buffer_count < filter_len
      → length c.samples ≡ c.sample_count * c.channels
      → c.sample_count ≤ fuel
      → let (d', reply) = on_chunk tools fuel check config d c in
        let (f', wait, chunks) =
          feed api check
            (filter_len * c.channels)
            f
            (read api d.inbuf (d.buffer_count * c.channels))
            c.samples in
        (reply ≡ replaced chunks)
        × (d'.filter ≡ live f')
        × (d'.buffer_count < filter_len)
        × (read api d'.inbuf (d'.buffer_count * c.channels) ≡ wait)
        × (d'.channels ≡ c.channels)
        × (d'.srate ≡ c.srate)
  unfolding on_chunk
  on_chunk-feeds fuel check config d c f is_live ready channels srate some_channels small room whole
        enough =
      let d' : Dsp tools = record d { channels = c.channels; srate = c.srate } in
      let s : Buffered api = record {
        filter = f;
        inbuf = d.inbuf;
        buffer_count = d.buffer_count;
      } in
      let (r, e, below, same) =
        process-IsFed api check c.channels some_channels small fuel c.sample_count c.samples s
          enough room whole in
      rw
        (
          initialize-steady fuel config d c channels srate,
          handled-live fuel check d' c f r is_live ready e,
        )
        (
          ap (λ (q : api.Filter × List api.Sample × List (List api.Sample)). replaced q.2) same,
          ap (λ (q : api.Filter × List api.Sample × List (List api.Sample)). live q.0) same,
          below,
          ap (λ (q : api.Filter × List api.Sample × List (List api.Sample)). q.1) same,
          refl,
          refl,
        )
