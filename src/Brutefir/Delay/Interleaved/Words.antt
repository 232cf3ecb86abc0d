-- ===== src/Brutefir/Delay/Interleaved/Words.antt =====
-- One sample of the loops of brutefir/delay.cpp, copied as a word: its bytes, whatever the size.
use foo_dsp_bfir.Base.{
  ℕ, ◌+◌, ◌*◌, ◌/◌, ◌%◌, ◌^◌, ◌<◌, ◌≡◌, ◌⊎◌, inl, inr, subst, sym, ◌∙◌, arith, true,
}
use foo_dsp_bfir.Brutefir.Sample.Bytes.{Memory, u16, u32, u64, set_u16, set_u32, set_u64}
use foo_dsp_bfir.Brutefir.Sample.Words.{IsBytes}
use foo_dsp_bfir.Brutefir.Delay.Interleaved.{copy_word, copy_bytes24, word_size}
use foo_dsp_bfir.Brutefir.Delay.Interleaved.Rounds.{put}

module _ (m out : Memory) (h : IsBytes m) (base to from i j : ℕ) where
  set-u16 :
      set_u16 out base to (u16 m from i) j ≡ put (base + 2 * to) 2 (λ b. m (from + 2 * i + b)) out j
  unfolding set_u16 u16
  set-u16 = ground (arith, h (from + 2 * i), h (from + 2 * i + 1))

  set-u32 :
      set_u32 out base to (u32 m from i) j ≡ put (base + 4 * to) 4 (λ b. m (from + 4 * i + b)) out j
  unfolding set_u32 u32
  set-u32 =
      ground
        (arith, h (from + 4 * i), h (from + 4 * i + 1), h (from + 4 * i + 2), h (from + 4 * i + 3))

  u32-lt : u32 m from i < 2 ^ 32
  unfolding u32
  u32-lt =
      omega
        (arith, h (from + 4 * i), h (from + 4 * i + 1), h (from + 4 * i + 2), h (from + 4 * i + 3))

  pub copy-bytes24 :
      copy_bytes24 out base to m from i j ≡ put (base + to) 3 (λ b. m (from + i + b)) out j
  unfolding copy_bytes24
  copy-bytes24 = ground (arith, h (from + i), h (from + (i + 1)), h (from + (i + 2)))

module _ (m out : Memory) (h : IsBytes m) (base to from i j : ℕ) where
  u64-low : u64 m from i % 2 ^ 32 ≡ u32 m from (2 * i)
  unfolding u64
  u64-low = omega (arith, u32-lt m out h base to from (2 * i) j)

  u64-high : u64 m from i / 2 ^ 32 % 2 ^ 32 ≡ u32 m from (2 * i + 1)
  unfolding u64
  u64-high =
      omega
        (arith, u32-lt m out h base to from (2 * i) j, u32-lt m out h base to from (2 * i + 1) j)

  set-u64 :
      set_u64 out base to (u64 m from i) j ≡ put (base + 8 * to) 8 (λ b. m (from + 8 * i + b)) out j
  unfolding set_u64
  set-u64 =
      rw (u64-low, u64-high)
        (set-u32 m (set_u32 out base (2 * to) (u32 m from (2 * i))) h base (2 * to + 1) from
            (2 * i + 1) j
          ∙ halves (set_u32 out base (2 * to) (u32 m from (2 * i)))
              (set-u32 m out h base (2 * to) from (2 * i) j))
    where
      halves :
          (low : Memory)
          → low j ≡ put (base + 4 * (2 * to)) 4 (λ b. m (from + 4 * (2 * i) + b)) out j
          → put (base + 4 * (2 * to + 1)) 4 (λ b. m (from + 4 * (2 * i + 1) + b)) low j
            ≡ put (base + 8 * to) 8 (λ b. m (from + 8 * i + b)) out j
      halves low e = ground (arith, e)

pub word_size-cases :
    (size : ℕ) → word_size size ≡ true → ((size ≡ 1) ⊎ (size ≡ 2)) ⊎ ((size ≡ 4) ⊎ (size ≡ 8))
word_size-cases size w = ground arith

module _ (m out : Memory) (h : IsBytes m) (base to from i j : ℕ) where
  Copies : ℕ → Type 0
  unfolding copy_word
  Copies size =
      copy_word size out base to m from i j
      ≡ put (base + size * to) size (λ b. m (from + size * i + b)) out j

  copy-byte : Copies 1
  unfolding Copies copy_word
  copy-byte = ground (arith, h (from + i))

  -- A sample of a size with a case of its own.
  pub copy-word :
      (size : ℕ)
      → word_size size ≡ true
      → copy_word size out base to m from i j
        ≡ put (base + size * to) size (λ b. m (from + size * i + b)) out j
  unfolding Copies copy_word
  copy-word size w = elim (word_size-cases size w) [
    | inl (inl e) ↦ subst Copies (sym e) copy-byte
    | inl (inr e) ↦ subst Copies (sym e) (set-u16 m out h base to from i j)
    | inr (inl e) ↦ subst Copies (sym e) (set-u32 m out h base to from i j)
    | inr (inr e) ↦ subst Copies (sym e) (set-u64 m out h base to from i j)
  ]
