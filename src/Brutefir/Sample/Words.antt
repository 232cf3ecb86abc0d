-- ===== src/Brutefir/Sample/Words.antt =====
-- Words of raw memory: what is read at an index and written there again is the same bytes.
use foo_dsp_bfir.Base.{
  ℕ, ◌+◌, ◌*◌, ◌/◌, ◌%◌, ◌^◌, ◌<◌, ◌≡◌, arith, Bool, true, false, ◌&&◌, ltb, leb, if◌then◌else◌,
}
use foo_dsp_bfir.Brutefir.Config.{to_int32}
use foo_dsp_bfir.Brutefir.Sample.Bytes.{
  Memory, u16, u32, u64, set_u64, set_u32, swap16, swap32, swap64, to_int8, to_int16, word_of,
  shift_right,
}
use foo_dsp_bfir.Brutefir.Sample.Raw2Real.{read_int8, read_int16, read_int24, read_int32}
use foo_dsp_bfir.Brutefir.Sample.Real2Raw.{write_int8, write_int16, write_int24, write_int32}

-- Every byte is one.
abbrev pub IsBytes : Memory → Type 0
IsBytes m = (j : ℕ) → m j < 256

-- `out` with `size` bytes from the address `a` on replaced by those of `m`.
abbrev pub copied : Memory → Memory → ℕ → ℕ → ℕ → ℕ
copied m out a size j = if leb a j && ltb j (a + size) then m j else out j

-- The low bits of the word of an integer are those that it was read from.
word_of-to_int8 : (w : ℕ) → word_of (to_int8 w) % 2 ^ 8 ≡ w % 2 ^ 8
unfolding word_of to_int8
word_of-to_int8 w = ground arith

word_of-to_int16 : (w : ℕ) → word_of (to_int16 w) % 2 ^ 16 ≡ w % 2 ^ 16
unfolding word_of to_int16
word_of-to_int16 w = ground arith

word_of-to_int32_lt : (w : ℕ) → w < 2 ^ 32 → word_of (to_int32 w) ≡ w
unfolding word_of to_int32
word_of-to_int32_lt w h = ground arith

pub swap32-swap32 : (w : ℕ) → w < 2 ^ 32 → swap32 (swap32 w) ≡ w
unfolding swap32
swap32-swap32 w h = omega arith

pub swap32-lt : (w : ℕ) → swap32 w < 2 ^ 32
unfolding swap32
swap32-lt w = omega arith

pub swap64-swap64 : (w : ℕ) → w < 2 ^ 64 → swap64 (swap64 w) ≡ w
unfolding swap64
swap64-swap64 w h = omega arith

pub swap64-lt : (w : ℕ) → swap64 w < 2 ^ 64
unfolding swap64
swap64-lt w = omega arith

swapped-word_of : (w : ℕ) → w < 2 ^ 32 → swap32 (word_of (to_int32 (swap32 w))) ≡ w
swapped-word_of w h = rw (word_of-to_int32_lt (swap32 w) (swap32-lt w)) (swap32-swap32 w h)

-- The word of the upper 24 bits.
word_of-upper : (w : ℕ) → word_of (shift_right (to_int32 w) 8) % 2 ^ 24 ≡ w / 2 ^ 8 % 2 ^ 24
unfolding word_of shift_right to_int32
word_of-upper w = ground arith

module _ (m out : Memory) (h : IsBytes m) (base i j : ℕ) where
  pub write-read_int8 : write_int8 base i (read_int8 m base i) out j ≡ copied m out (base + i) 1 j
  unfolding write_int8 read_int8
  write-read_int8 = ground (arith, word_of-to_int8 (m (base + i)), h (base + i))

  pub write-read_int16 :
      (swap : Bool)
      → write_int16 0 swap base i (read_int16 0 swap m base i) out j
        ≡ copied m out (base + 2 * i) 2 j
  unfolding write_int16 read_int16
  write-read_int16 true =
      ground
        (arith, word_of-to_int16 (swap16 (u16 m base i)), h (base + 2 * i), h (base + 2 * i + 1))
  write-read_int16 false =
      ground (arith, word_of-to_int16 (u16 m base i), h (base + 2 * i), h (base + 2 * i + 1))

  pub write-read_int24 :
      (swap : Bool)
      → write_int24 0 swap base i (read_int24 0 swap m base i) out j ≡ copied m out (base + i) 3 j
  unfolding write_int24 read_int24
  write-read_int24 true = ground (
    arith,
    word_of-upper
        (m (base + i) * 2 ^ 24 + m (base + (i + 1)) * 2 ^ 16 + m (base + (i + 2)) * 2 ^ 8),
    h (base + i),
    h (base + (i + 1)),
    h (base + (i + 2)),
  )
  write-read_int24 false = ground (
    arith,
    word_of-upper
        (m (base + i) * 2 ^ 8 + m (base + (i + 1)) * 2 ^ 16 + m (base + (i + 2)) * 2 ^ 24),
    h (base + i),
    h (base + (i + 1)),
    h (base + (i + 2)),
  )

  -- The four bytes of a word, as they stand in memory or turned round.
  pub set-u32 : set_u32 out base i (u32 m base i) j ≡ copied m out (base + 4 * i) 4 j
  unfolding set_u32 u32
  set-u32 =
      ground
        (arith, h (base + 4 * i), h (base + 4 * i + 1), h (base + 4 * i + 2), h (base + 4 * i + 3))

  pub u32-lt : u32 m base i < 2 ^ 32
  unfolding u32
  u32-lt =
      omega
        (arith, h (base + 4 * i), h (base + 4 * i + 1), h (base + 4 * i + 2), h (base + 4 * i + 3))

  pub write-read_int32 :
      (swap : Bool)
      → write_int32 0 swap base i (read_int32 0 swap m base i) out j
        ≡ copied m out (base + 4 * i) 4 j
  unfolding write_int32 read_int32
  write-read_int32 true = rw (swapped-word_of (u32 m base i) u32-lt) set-u32
  write-read_int32 false = rw (word_of-to_int32_lt (u32 m base i) u32-lt) set-u32

module _ (m out : Memory) (h : IsBytes m) (base i j : ℕ) where
  u64-low : u64 m base i % 2 ^ 32 ≡ u32 m base (2 * i)
  unfolding u64
  u64-low = omega (arith, u32-lt m out h base (2 * i))

  u64-high : u64 m base i / 2 ^ 32 % 2 ^ 32 ≡ u32 m base (2 * i + 1)
  unfolding u64
  u64-high = omega (arith, u32-lt m out h base (2 * i), u32-lt m out h base (2 * i + 1))

  pub u64-lt : u64 m base i < 2 ^ 64
  unfolding u64
  u64-lt = omega (arith, u32-lt m out h base (2 * i), u32-lt m out h base (2 * i + 1))

  -- The eight bytes of a word of 64 bits.
  pub set-u64 : set_u64 out base i (u64 m base i) j ≡ copied m out (base + 8 * i) 8 j
  unfolding set_u64
  set-u64 =
      rw (u64-low, u64-high)
        (ground (
          arith,
          set-u32 m (set_u32 out base (2 * i) (u32 m base (2 * i))) h base (2 * i + 1) j,
          set-u32 m out h base (2 * i) j,
        ))
