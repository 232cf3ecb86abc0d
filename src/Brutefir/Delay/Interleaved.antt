-- ===== src/Brutefir/Delay/Interleaved.antt =====
-- brutefir/delay.cpp: the loops that pick the samples of a channel out of an interleaved buffer, put
-- them back (`copy_to_delaybuf`, `copy_from_delaybuf`) and move them on within it
-- (`shift_samples`). A buffer is a memory of its own, and `base` the address in it that a pointer
-- holds; a delay buffer is pointed to at its start.
pub mod Rounds
pub mod Words
pub mod Loops
pub mod Copies
pub mod Shift
mod Tests
use foo_dsp_bfir.Base.{
  ℕ, zero, suc, ◌+◌, ◌-◌, ◌*◌, ltb, ◌==◌, Bool, ◌||◌, if◌then◌else◌, Option, some, none,
}
use foo_dsp_bfir.Brutefir.Sample.Bytes.{
  Memory, u16, u32, u64, set_u8, set_u16, set_u32, set_u64, for_samples,
}

-- `memcpy` of `n` bytes from the address `from` of `m` to the address `to` of `out`
unfoldable pub memcpy : Memory → ℕ → Memory → ℕ → ℕ → Memory
memcpy out to m from n j =
    if ltb j to then out j else if ltb j (to + n) then m (from + (j - to)) else out j

-- One sample of 1, 2, 4 or 8 bytes, from the index `from` of `m` to the index `to` of `out`
unfoldable pub copy_word : ℕ → Memory → ℕ → ℕ → Memory → ℕ → ℕ → Memory
unfolding u16 u32 u64 set_u8 set_u16 set_u32 set_u64
copy_word size out base to m from i =
    if size == 1
    then set_u8 out base to (m (from + i))
    else if size == 2
    then set_u16 out base to (u16 m from i)
    else if size == 4
    then set_u32 out base to (u32 m from i)
    else set_u64 out base to (u64 m from i)

-- The three bytes of a sample of 24 bits, at byte indices
unfoldable pub copy_bytes24 : Memory → ℕ → ℕ → Memory → ℕ → ℕ → Memory
unfolding set_u8
copy_bytes24 out base to m from i =
    set_u8 (set_u8 (set_u8 out base to (m (from + i))) base (to + 1) (m (from + (i + 1)))) base
      (to + 2) (m (from + (i + 2)))

-- `for (n = i = 0; n < n_samples; i += sample_spacing)` of the samples of 24 bits, where the body
-- takes `n` and `i` on by 3 and `sample_spacing` is 3 less than the bytes between two samples
unfoldable pub for_bytes24 {ℓ} : {S : Type ℓ} → (ℕ → ℕ → S → S) → ℕ → ℕ → ℕ → ℕ → S → S
for_bytes24 body spacing zero n i s = s
for_bytes24 body spacing (suc left) n i s =
    for_bytes24 body spacing left (n + 3) (i + 3 + spacing * 3 - 3) (body n i s)

-- The sizes of the cases that copy words.
abbrev pub word_size : ℕ → Bool
word_size size = ((size == 1) || (size == 2)) || ((size == 4) || (size == 8))

unfoldable pub copy_to_delaybuf : Memory → Memory → ℕ → ℕ → ℕ → ℕ → Memory
unfolding memcpy for_samples for_bytes24 copy_word copy_bytes24
copy_to_delaybuf dbuf buf base sample_size sample_spacing n_samples =
    if sample_spacing == 1
    then memcpy dbuf 0 buf base (n_samples * sample_size)
    else if sample_size == 3
    then for_bytes24 (λ n i s. copy_bytes24 s 0 n buf base i) sample_spacing n_samples 0 0 dbuf
    else if word_size sample_size
    then for_samples (λ n i s. copy_word sample_size s 0 n buf base i) sample_spacing n_samples 0 0
        dbuf
    else dbuf

unfoldable pub copy_from_delaybuf : Memory → ℕ → Memory → ℕ → ℕ → ℕ → Memory
unfolding memcpy for_samples for_bytes24 copy_word copy_bytes24
copy_from_delaybuf buf base dbuf sample_size sample_spacing n_samples =
    if sample_spacing == 1
    then memcpy buf base dbuf 0 (n_samples * sample_size)
    else if sample_size == 3
    then for_bytes24 (λ n i s. copy_bytes24 s base i dbuf 0 n) sample_spacing n_samples 0 0 buf
    else if word_size sample_size
    then for_samples (λ n i s. copy_word sample_size s base i dbuf 0 n) sample_spacing n_samples 0 0
        buf
    else buf

-- `for (; n >= 0; n -= sample_spacing, i -= sample_spacing)`, where `n` starts at
-- `(left - 1) * sample_spacing` and `i` is `distance` samples ahead
unfoldable pub shift_words : ℕ → ℕ → ℕ → ℕ → ℕ → Memory → Memory
unfolding copy_word
shift_words size base spacing distance zero s = s
shift_words size base spacing distance (suc left) s =
    shift_words size base spacing distance left
      (copy_word size s base ((left + distance) * spacing) s base (left * spacing))

-- The same for samples of 24 bits: the body takes `n` and `i` on by 3, and each round takes them
-- back by `spacing` bytes only.
unfoldable pub shift_bytes24 : ℕ → ℕ → ℕ → ℕ → ℕ → Memory → Option Memory
unfolding copy_bytes24
shift_bytes24 zero base spacing n i s = none
shift_bytes24 (suc fuel) base spacing n i s =
    let s' = copy_bytes24 s base i s base n in
    let rest = shift_bytes24 fuel base spacing (n + 3 - spacing) (i + 3 - spacing) s' in
    if ltb (n + 3) spacing then some s' else rest

-- None where the fuel does not last.
unfoldable pub shift_samples : ℕ → Memory → ℕ → ℕ → ℕ → ℕ → ℕ → Option Memory
unfolding shift_words shift_bytes24
shift_samples fuel buf base sample_size sample_spacing n_samples distance =
    if sample_size == 3
    then if n_samples == 0
      then some buf
      else shift_bytes24 fuel base (sample_spacing * 3) ((n_samples - 1) * sample_spacing * 3)
          ((n_samples + distance - 1) * sample_spacing * 3) buf
    else if word_size sample_size
    then some (shift_words sample_size base sample_spacing distance n_samples buf)
    else some buf
