-- ===== src/Brutefir/Delay/Interleaved/Tests.antt =====
-- Tests of the copies and the shift of brutefir/delay.cpp in an interleaved buffer.
use foo_dsp_bfir.Base.{◌%◌, ◌≡◌, refl}
use foo_dsp_bfir.Brutefir.Sample.Bytes.{Memory}
use foo_dsp_bfir.Brutefir.Delay.Interleaved.{copy_to_delaybuf, copy_from_delaybuf}

abbrev bytes_up : Memory
bytes_up j = j % 256

abbrev nines : Memory
nines j = 9

-- The last byte of the second sample of the second of two channels of 24 bits.
picked_out : copy_to_delaybuf nines bytes_up 3 3 2 4 5 ≡ 11
unfolding copy_to_delaybuf
picked_out = refl

put_back : copy_from_delaybuf nines 3 bytes_up 3 2 4 11 ≡ 5
unfolding copy_from_delaybuf
put_back = refl

other_channel : copy_from_delaybuf nines 3 bytes_up 3 2 4 8 ≡ 9
unfolding copy_from_delaybuf
other_channel = refl
