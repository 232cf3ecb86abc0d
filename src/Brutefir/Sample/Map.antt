-- ===== src/Brutefir/Sample/Map.antt =====
-- brutefir/dither.cpp: the map from differences of random numbers to the dither.
use foo_dsp_bfir.Base.{
  ℕ, suc, zero, ◌+◌, ◌-◌, ◌%◌, ◌^◌, ◌≤◌, ◌<◌, ◌≡◌, ◌↔◌, arith, ℤ, pos, negsuc, ◌≤ℤ◌, ◌-ℤ◌, ◌==◌,
  none, Bool-cases, inl, inr, update,
}
use foo_dsp_bfir.Brutefir.Real.{Real}
use foo_dsp_bfir.Brutefir.Sample.Precision.{Precision}
use foo_dsp_bfir.Brutefir.Sample.Bytes.{to_int8}
use foo_dsp_bfir.Brutefir.Sample.Quantize.{Dither, DitherState, map_index}
use foo_dsp_bfir.Brutefir.Sample.Dither.{Generator, tausrand, fill_randtab, map_entry}

-- An `int8_t`.
abbrev pub IsInt8 : ℤ → Type 0
IsInt8 k = (negsuc 127 ≤ℤ k) × (k ≤ℤ pos 127)

to_int8-IsInt8 : (w : ℕ) → IsInt8 (to_int8 w)
unfolding to_int8
to_int8-IsInt8 w = ground arith

-- The generator fills the table with numbers of 8 bits.
fill_randtab-IsInt8 :
    (left n : ℕ) (g : Generator) (randtab : ℕ → ℤ)
    → ((i : ℕ) → i < n → IsInt8 (randtab i))
    → (i : ℕ) → i < n + left
    → IsInt8 (fill_randtab left n g randtab i)
unfolding fill_randtab update
fill_randtab-IsInt8 zero n g randtab h i lt = h i (omega arith)
fill_randtab-IsInt8 (suc left) n g randtab h i lt =
    fill_randtab-IsInt8 left (n + 1) (tausrand g).0
      (update randtab n (to_int8 ((tausrand g).1 % 2 ^ 8)))
      (written randtab n _ h (to_int8-IsInt8 _)) i (omega arith)
  where
    written :
        (randtab : ℕ → ℤ) (n : ℕ) (v : ℤ)
        → ((i : ℕ) → i < n → IsInt8 (randtab i))
        → IsInt8 v
        → (i : ℕ) → i < n + 1
        → IsInt8 (update randtab n v i)
    written randtab n v h b i lt = elim (Bool-cases (i == n)) [
      | inl same ↦ rw same b
      | inr other ↦ rw other (h i (ground arith))
    ]

module _ {R : Real} (P : Precision R) where
  -- The index is outside of the map, past its end, exactly where the random number 127 follows the
  -- random number -128; every other pair of numbers of 8 bits has an entry.
  pub map_entry-none :
      (d : Dither P) (st : DitherState P) (n : ℕ)
      → IsInt8 (d.randtab (st.randtab + n))
      → IsInt8 (d.randtab (st.randtab + n - 1))
      → (map_entry P (map_index P d st n) ≡ none)
        ↔ ((d.randtab (st.randtab + n) ≡ pos 127) × (d.randtab (st.randtab + n - 1) ≡ negsuc 127))
  unfolding map_entry map_index
  map_entry-none d st n = pair (d.randtab (st.randtab + n)) (d.randtab (st.randtab + n - 1))
    where
      pair :
          (a b : ℤ)
          → IsInt8 a
          → IsInt8 b
          → (map_entry P (a -ℤ b) ≡ none) ↔ ((a ≡ pos 127) × (b ≡ negsuc 127))
      pair (pos a) (pos b) ha hb = ground arith
      pair (pos a) (negsuc b) ha hb = ground arith
      pair (negsuc a) (pos b) ha hb = ground arith
      pair (negsuc a) (negsuc b) ha hb = ground arith

  -- For a table as the constructor fills it, the conversion of a sample with dither reads outside of
  -- the map, just past its end, exactly where the random number 127 follows the random number -128.
  -- The sample has an entry of the table and one before it.
  pub created-map_entry :
      (size : ℕ) (g : Generator) (randtab : ℕ → ℤ) (randmap : ℤ → P.Value) (st : DitherState P)
      (n : ℕ)
      → 1 ≤ st.randtab
      → st.randtab + n < size
      → (let d : Dither P = record {
        randtab = fill_randtab size 0 g randtab;
        randtab_size = size;
        randmap = randmap;
      } in
          (map_entry P (map_index P d st n) ≡ none) ↔ (
            (d.randtab (st.randtab + n) ≡ pos 127) × (d.randtab (st.randtab + n - 1) ≡ negsuc 127)))
  created-map_entry size g randtab randmap st n first last =
      map_entry-none
        (record { randtab = fill_randtab size 0 g randtab; randtab_size = size; randmap = randmap })
        st n
        (fill_randtab-IsInt8 size 0 g randtab (λ i h. absurd (omega arith)) (st.randtab + n)
          (omega arith))
        (fill_randtab-IsInt8 size 0 g randtab (λ i h. absurd (omega arith)) (st.randtab + n - 1)
          (omega arith))
