-- ===== src/Brutefir/Config/Tests.antt =====
-- Tests of the channel configuration of brutefir/brutefir.cpp, and the theorems about it at concrete
-- values.
use foo_dsp_bfir.Base.{◌≡◌, ◌^◌, ◌-◌, inl, refl, true, false, arith, pos, negsuc}
use foo_dsp_bfir.Brutefir.Config.{
  s24_be, s32_be, float_le, get_full_scale, setup_sample_format, init_channels, to_int32,
}
use foo_dsp_bfir.Brutefir.Config.Layout.{Apart, sample_address, bytes_of, init_channels-Apart}
use foo_dsp_bfir.Brutefir.Examples.{integers, some_format, two_channels}

full_scale_of_two_bytes : get_full_scale integers 2 ≡ pos 32768
unfolding get_full_scale to_int32
full_scale_of_two_bytes = refl

-- The shift runs into the sign bit of `int`.
scale_of_four_bytes :
    (setup_sample_format integers s32_be some_format false).scale ≡ negsuc (2 ^ 31 - 1)
unfolding setup_sample_format get_full_scale to_int32
scale_of_four_bytes = refl

init_channels-Apart_example :
    ((init_channels integers two_channels 2 s24_be float_le 44100 true).1 ≡ pos 0)
    × Apart
        (bytes_of s24_be)
        (sample_address
          ((init_channels integers two_channels 2 s24_be float_le 44100 true).0.inputs 0).bf
          5)
        (sample_address
          ((init_channels integers two_channels 2 s24_be float_le 44100 true).0.inputs 1).bf
          5)
    × Apart
        (bytes_of float_le)
        (sample_address
          ((init_channels integers two_channels 2 s24_be float_le 44100 true).0.outputs 0).bf
          5)
        (sample_address
          ((init_channels integers two_channels 2 s24_be float_le 44100 true).0.outputs 1).bf
          5)
init_channels-Apart_example =
    init_channels-Apart integers two_channels 2 s24_be float_le 44100 true 0 1 5 5 (omega arith)
      (λ code e. ground (arith, e)) (λ code e. ground (arith, e)) (omega arith) (omega arith)
      (inl (λ e. absurd (omega arith)))
