-- ===== src/Dsp/Chunk/Tests.antt =====
-- Tests of `on_chunk` of foo_dsp_bfir/foo_dsp_bfir.cpp, and the theorems about it at concrete chunks.
use foo_dsp_bfir.Base.{
  ℕ, suc, ◌<◌, ◌≡◌, ◌*◌, refl, true, false, arith, pos, List, [], ◌∷◌, ◌++◌, length, some,
}
use foo_dsp_bfir.Cli.Text.{codes}
use foo_dsp_bfir.Dsp.Buffering.{filter_len, FilterApi, Buffered, process, read}
use foo_dsp_bfir.Dsp.Buffering.Buffer.{feed}
use foo_dsp_bfir.Dsp.Buffering.Refine.{IsFed, fed, seen, process-IsFed}
use foo_dsp_bfir.Dsp.Buffering.Chunks.{process-append}
use foo_dsp_bfir.Dsp.Init.{Tools, Config, FileConfig, impulses, file_impulse, is_nonzero}
use foo_dsp_bfir.Dsp.Chunk.{Dsp, AudioChunk, null, live, replaced, use_after_free, on_chunk}
use foo_dsp_bfir.Dsp.Chunk.Formats.{on_chunk-deleted, on_chunk-feeds}

-- A filter that counts its blocks and gives them back.
abbrev counting : FilterApi
counting = record {
  Filter = ℕ;
  Sample = ℕ;
  run = λ f block. (suc f, some block);
  check_overflows = λ f. f;
  is_initialized = λ f. true;
}

abbrev some_tools : Tools counting
some_tools = record {
  Double = ℕ;
  one = 1;
  check_snd_file = λ t channels srate. true;
  resample_snd_file = λ t channels srate. [];
  generate = λ channels srate. codes "eq.wav";
  convolve_impulses = λ is. codes "all.wav";
  get_snd_file_params = λ t. some 3000;
  new_filter = λ t blocks scale channels srate. 0;
}

abbrev disabled_file : FileConfig ℕ
disabled_file = record { enable = pos 0; filename = codes "a.wav"; resample = pos 0; scale = 1 }

abbrev all_off : Config ℕ
all_off = record {
  eq_enable = pos 0;
  eq_scale = 1;
  file1 = disabled_file;
  file2 = disabled_file;
  file3 = disabled_file;
}

abbrev two_on : Config ℕ
two_on = record all_off { eq_enable = pos 1; file2 = record disabled_file { enable = pos 1 } }

abbrev nearly_full : Buffered counting
nearly_full = record { filter = 0; inbuf = λ n. 0; buffer_count = 1022 }

abbrev unset : Dsp some_tools
unset = record { channels = 0; srate = 0; filter = null; inbuf = λ n. 0; buffer_count = 0 }

abbrev playing : Dsp some_tools
playing = record {
  channels = 1;
  srate = 44100;
  filter = live 0;
  inbuf = λ n. 0;
  buffer_count = 1022;
}

abbrev stereo_chunk : AudioChunk some_tools
stereo_chunk = record { channels = 2; srate = 44100; sample_count = 1; samples = 1 ∷ 2 ∷ [] }

abbrev mono_chunk : AudioChunk some_tools
mono_chunk = record { channels = 1; srate = 44100; sample_count = 3; samples = 1 ∷ 2 ∷ 3 ∷ [] }

two_impulses : length (impulses some_tools 2 44100 two_on) ≡ 2
unfolding impulses file_impulse is_nonzero
two_impulses = refl

process-IsFed_example :
    IsFed counting false 1
      (process counting 3 false 1 3 (1 ∷ 2 ∷ 3 ∷ []) nearly_full)
      (fed counting false 1 nearly_full (1 ∷ 2 ∷ 3 ∷ []))
process-IsFed_example =
    process-IsFed counting false 1 (omega arith) (omega arith) 3 3 (1 ∷ 2 ∷ 3 ∷ []) nearly_full
      (omega arith) (omega arith) refl

process-append_example :
    (r r' r'' : Buffered counting × List (List ℕ)) × (process counting 1 false 1 1
        (1 ∷ [])
        nearly_full
      ≡ some r)
    × (process counting 2 false 1 2 (2 ∷ 3 ∷ []) r.0 ≡ some r')
    × (process counting 3 false 1 3 (1 ∷ 2 ∷ 3 ∷ []) nearly_full ≡ some r'')
    × (seen counting false 1 r'' ≡ seen counting false 1 (r'.0, r.1 ++ r'.1))
process-append_example =
    process-append counting false 1 (omega arith) (omega arith) 1 2 (1 ∷ []) (2 ∷ 3 ∷ [])
      nearly_full (omega arith) refl refl

on_chunk-deleted_example :
    (on_chunk some_tools 5000 false all_off playing stereo_chunk).1 ≡ use_after_free
on_chunk-deleted_example =
    on_chunk-deleted some_tools 5000 false all_off playing stereo_chunk 0 (refl, refl, refl, refl)
      refl (λ e. absurd (omega arith)) (λ e. absurd (omega arith))

on_chunk-feeds_example :
    let (d', reply) = on_chunk some_tools 3 false all_off playing mono_chunk in
    let (f', wait, chunks) =
      feed counting false
        (filter_len * 1)
        0
        (read counting playing.inbuf (1022 * 1))
        (1 ∷ 2 ∷ 3 ∷ []) in
    (reply ≡ replaced chunks)
    × (d'.filter ≡ live f')
    × (d'.buffer_count < filter_len)
    × (read counting d'.inbuf (d'.buffer_count * 1) ≡ wait)
    × (d'.channels ≡ 1)
    × (d'.srate ≡ 44100)
on_chunk-feeds_example =
    on_chunk-feeds some_tools 3 false all_off playing mono_chunk 0 refl refl refl refl (omega arith)
      (omega arith) (omega arith) refl (omega arith)
