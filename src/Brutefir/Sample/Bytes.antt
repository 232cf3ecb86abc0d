-- ===== src/Brutefir/Sample/Bytes.antt =====
-- Raw memory as bytes, read and written in words through the union of brutefir/numunion.h on a
-- little-endian machine, with the byte order macros of brutefir/swap.h. A memory is a function of
-- the address; `base` is the address of the buffer that an index counts from.
use foo_dsp_bfir.Base.{
  ℕ, zero, suc, ◌+◌, ◌-◌, ◌*◌, ◌/◌, ◌%◌, ◌^◌, ℤ, pos, negsuc, ltb, if◌then◌else◌, update,
}

abbrev pub Memory : Type 0
Memory = ℕ → ℕ

-- `u16[i]`, `u32[i]` and `u64[i]`
unfoldable pub u16 : Memory → ℕ → ℕ → ℕ
u16 m base i = m (base + 2 * i) + 2 ^ 8 * m (base + 2 * i + 1)

unfoldable pub u32 : Memory → ℕ → ℕ → ℕ
u32 m base i =
    m (base + 4 * i)
    + 2 ^ 8 * m (base + 4 * i + 1)
    + 2 ^ 16 * m (base + 4 * i + 2)
    + 2 ^ 24 * m (base + 4 * i + 3)

unfoldable pub u64 : Memory → ℕ → ℕ → ℕ
unfolding u32
u64 m base i = u32 m base (2 * i) + 2 ^ 32 * u32 m base (2 * i + 1)

-- Byte `k` of a word, `u8[k]`.
abbrev pub byte_of : ℕ → ℕ → ℕ
byte_of w k = w / 2 ^ (8 * k) % 2 ^ 8

unfoldable pub set_u8 : Memory → ℕ → ℕ → ℕ → Memory
unfolding update
set_u8 m base i w = update m (base + i) (w % 2 ^ 8)

unfoldable pub set_u16 : Memory → ℕ → ℕ → ℕ → Memory
unfolding update
set_u16 m base i w = update (update m (base + 2 * i) (byte_of w 0)) (base + 2 * i + 1) (byte_of w 1)

unfoldable pub set_u32 : Memory → ℕ → ℕ → ℕ → Memory
unfolding update
set_u32 m base i w =
    let m1 = update m (base + 4 * i) (byte_of w 0) in
    let m2 = update m1 (base + 4 * i + 1) (byte_of w 1) in
    let m3 = update m2 (base + 4 * i + 2) (byte_of w 2) in
    update m3 (base + 4 * i + 3) (byte_of w 3)

unfoldable pub set_u64 : Memory → ℕ → ℕ → ℕ → Memory
unfolding set_u32
set_u64 m base i w =
    set_u32 (set_u32 m base (2 * i) (w % 2 ^ 32)) base (2 * i + 1) (w / 2 ^ 32 % 2 ^ 32)

-- `SWAP16` and `SWAP32`: `ntohs` and `ntohl` on a little-endian machine.
unfoldable pub swap16 : ℕ → ℕ
swap16 w = byte_of w 0 * 2 ^ 8 + byte_of w 1

unfoldable pub swap32 : ℕ → ℕ
swap32 w = byte_of w 0 * 2 ^ 24 + byte_of w 1 * 2 ^ 16 + byte_of w 2 * 2 ^ 8 + byte_of w 3

-- `SWAP64`: the parts that are joined have no bit in common, so that they are added.
unfoldable pub swap64 : ℕ → ℕ
swap64 w =
    byte_of w 7
    + byte_of w 6 * 2 ^ 8
    + byte_of w 5 * 2 ^ 16
    + byte_of w 4 * 2 ^ 24
    + byte_of w 3 * 2 ^ 32
    + byte_of w 2 * 2 ^ 40
    + byte_of w 1 * 2 ^ 48
    + byte_of w 0 * 2 ^ 56

-- The integers that a word of 8, 16 and 32 bits stands for, in two's complement.
unfoldable pub to_int8 : ℕ → ℤ
to_int8 n = let w = n % 2 ^ 8 in if ltb w (2 ^ 7) then pos w else negsuc (2 ^ 8 - 1 - w)

unfoldable pub to_int16 : ℕ → ℤ
to_int16 n = let w = n % 2 ^ 16 in if ltb w (2 ^ 15) then pos w else negsuc (2 ^ 16 - 1 - w)

-- The word of 32 bits that stands for an integer.
unfoldable pub word_of : ℤ → ℕ
word_of (pos n) = n % 2 ^ 32
word_of (negsuc n) = 2 ^ 32 - 1 - n % 2 ^ 32

-- `k >> shift` and `k << shift` on `int32_t`; the second one as a word.
unfoldable pub shift_right : ℤ → ℕ → ℤ
shift_right (pos n) shift = pos (n / 2 ^ shift)
shift_right (negsuc n) shift = negsuc (n / 2 ^ shift)

unfoldable pub shift_left : ℤ → ℕ → ℕ
unfolding word_of
shift_left k shift = word_of k * 2 ^ shift % 2 ^ 32

-- `for (n = i = 0; n < n_samples; n++, i += step)`, with `left` rounds to go.
unfoldable pub for_samples {ℓ} : {S : Type ℓ} → (ℕ → ℕ → S → S) → ℕ → ℕ → ℕ → ℕ → S → S
for_samples body step zero n i s = s
for_samples body step (suc left) n i s = for_samples body step left (n + 1) (i + step) (body n i s)
