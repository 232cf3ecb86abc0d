-- ===== src/Cli/Connection/Bands.antt =====
-- The command `EQM` of cli_server/connection.cpp: the magnitudes of the bands in one string.
use foo_dsp_bfir.Base.{
  ℕ, zero, suc, ◌+◌, ◌<◌, ◌≡◌, ◌≢◌, ◌⊎◌, inl, inr, ◌≤ℤ◌, pos, Option-cases, none, get_elem?, refl,
  ap, ◌∙◌, arith, false, some, List, [], ◌∷◌, length, set, length-set, ℤ,
}
use foo_dsp_bfir.Cli.Text.{Text, is_empty}
use foo_dsp_bfir.Cli.Reply.{status_ok, reply_message}
use foo_dsp_bfir.Cli.Settings.{Settings, clamp, eq_level_range_min, eq_level_range_max}
use foo_dsp_bfir.Cli.Connection.{
  Environment, Handled, send_reply, join, band_index, magnitude, handle_eq_magnitude,
}

-- No comma.
abbrev pub HasNoComma : Text → Type 0
HasNoComma [] = Unit
HasNoComma (x ∷ xs) = (x ≢ 44) × HasNoComma xs

-- Magnitudes as they are written: at least one, none of them empty, none with a comma.
abbrev pub AllWritten : List Text → Type 0
AllWritten [] = Unit
AllWritten (m ∷ ms) = (is_empty m ≡ false) × HasNoComma m × AllWritten ms

-- The band `b` of a list of `n` magnitudes is the entry `i`: the first for a band below the list, the
-- last for one above it, and else the one with that number.
abbrev pub LiesOn : ℤ → ℕ → ℕ → Type 0
LiesOn b n i = (i < n) × (((b ≤ℤ pos 0) × (i ≡ 0)) ⊎ ((b ≡ pos i) ⊎ ((pos n ≤ℤ b) × (i + 1 ≡ n))))

band_index-cons :
    (b : ℤ) (m : Text) (ms : List Text) (i : ℕ)
    → LiesOn b (length (m ∷ ms)) i
    → band_index b (m ∷ ms) ≡ i
unfolding band_index
band_index-cons b m ms i on = ground arith

band_index-LiesOn : (b : ℤ) (ms : List Text) (i : ℕ) → LiesOn b (length ms) i → band_index b ms ≡ i
band_index-LiesOn b [] i on = absurd (omega (arith, on.0))
band_index-LiesOn b (m ∷ ms) i on = band_index-cons b m ms i on

get_elem?-none : (ms : List Text) (i : ℕ) → i < length ms → get_elem? ms i ≡ none → ⊥
get_elem?-none [] i h e = omega arith
get_elem?-none (m ∷ ms) zero h e = cc
get_elem?-none (m ∷ ms) (suc i) h e = get_elem?-none ms i (omega arith) e

band_index-length :
    (b : ℤ) (xs ys : List Text) → length xs ≡ length ys → band_index b xs ≡ band_index b ys
unfolding band_index
band_index-length b xs ys e = rw e refl

AllWritten-set :
    (ms : List Text) (i : ℕ) (v : Text)
    → (is_empty v ≡ false) × HasNoComma v
    → AllWritten ms
    → AllWritten (set ms i v)
AllWritten-set [] i v good all = tt
AllWritten-set (m ∷ ms) zero v good all = (good.0, good.1, all.2)
AllWritten-set (m ∷ ms) (suc i) v good all = (all.0, all.1, AllWritten-set ms i v good all.2)

-- What Boost promises: commas split a string into the parts that were joined with them, where none is
-- empty; an integer is written with at least one character and no comma.
pub record SplitsCommas (env : Environment) : Type 0 where
  pub split-join :
      (m : Text) (ms : List Text) → AllWritten (m ∷ ms) → env.split (join (m ∷ ms)) ≡ m ∷ ms
  pub written : (v : ℤ) → (is_empty (env.show_int v) ≡ false) × HasNoComma (env.show_int v)

module _ (env : Environment) where
  magnitude_read :
      (number : Text) (b : ℤ) (s : Settings)
      → env.parse_int number ≡ some b
      → handle_eq_magnitude env number [] s
        ≡ send_reply (magnitude (env.split s.eq_mag) (band_index b (env.split s.eq_mag))) s
  unfolding handle_eq_magnitude send_reply
  magnitude_read number b s e = rw (e, handle_eq_magnitude) refl

  magnitude_set :
      (number arg : Text) (b v : ℤ) (s : Settings)
      → env.parse_int number ≡ some b
      → is_empty arg ≡ false
      → env.parse_int arg ≡ some v
      → handle_eq_magnitude env number arg s
        ≡ send_reply status_ok (record s {
          eq_mag = join (
              set
                (env.split s.eq_mag)
                (band_index b (env.split s.eq_mag))
                (env.show_int (clamp eq_level_range_min eq_level_range_max v)));
        })
  unfolding handle_eq_magnitude send_reply
  magnitude_set number arg b v s e some_data f = rw (e, handle_eq_magnitude, some_data, f) refl

module _ (env : Environment) (boost : SplitsCommas env) where
  split-set :
      (ms : List Text) (i : ℕ) (v : ℤ)
      → 0 < length ms
      → AllWritten ms
      → env.split (join (set ms i (env.show_int v))) ≡ set ms i (env.show_int v)
  split-set [] i v some_band all = absurd (omega arith)
  split-set (m ∷ ms) zero v some_band all =
      boost.split-join (env.show_int v) ms (AllWritten-set (m ∷ ms) zero _ (boost.written v) all)
  split-set (m ∷ ms) (suc i) v some_band all =
      boost.split-join m (set ms i (env.show_int v))
        (AllWritten-set (m ∷ ms) (suc i) _ (boost.written v) all)

  read_at :
      (ms : List Text) (i : ℕ)
      → i < length ms
      → (m : Text) × (get_elem? ms i ≡ some m) × (magnitude ms i ≡ m)
  unfolding magnitude
  read_at ms i h = elim (Option-cases (get_elem? ms i)) [
    | inl e ↦ absurd (get_elem?-none ms i h e)
    | inr (m, e) ↦ (m, e, rw (e, magnitude) refl)
  ]

  -- `EQM` with a band and a number, and then with a band alone. Where the magnitudes are written as
  -- the code writes them, and the two bands lie on the entries `i` and `i'` of the list - a band
  -- below the list on the first entry, one above it on the last, any other on its own -: the first
  -- reply is OK, and the list is then the one before with the entry `i` replaced by the number,
  -- brought into its range. The second reply is the entry `i'` of that list, and changes nothing.
  pub handle_eq_magnitude_lem :
      (number number' arg : Text) (b b' v : ℤ) (i i' : ℕ) (s : Settings)
      → env.parse_int number ≡ some b
      → env.parse_int number' ≡ some b'
      → is_empty arg ≡ false
      → env.parse_int arg ≡ some v
      → AllWritten (env.split s.eq_mag)
      → LiesOn b (length (env.split s.eq_mag)) i
      → LiesOn b' (length (env.split s.eq_mag)) i'
      → let new = env.show_int (clamp eq_level_range_min eq_level_range_max v) in
        let h = handle_eq_magnitude env number arg s in
        let h' = handle_eq_magnitude env number' [] h.settings in
        (h.replies ≡ reply_message status_ok ∷ [])
        × (env.split h.settings.eq_mag ≡ set (env.split s.eq_mag) i new)
        × ((m : Text) × (get_elem? (set (env.split s.eq_mag) i new) i' ≡ some m)
            × (h'.replies ≡ reply_message m ∷ []))
        × (h'.settings ≡ h.settings)
  unfolding send_reply
  handle_eq_magnitude_lem number number' arg b b' v i i' s is_band is_band' some_data is_number all
        on on' =
      let mags = env.split s.eq_mag in
      let new = env.show_int (clamp eq_level_range_min eq_level_range_max v) in
      let mags' = set mags i new in
      let t : Settings = record s { eq_mag = join mags' } in
      let again : env.split t.eq_mag ≡ mags' =
        split-set mags i (clamp eq_level_range_min eq_level_range_max v) (omega (arith, on.0))
          all in
      let here : band_index b mags ≡ i = band_index-LiesOn b mags i on in
      let there : band_index b' mags' ≡ i' =
        band_index-length b' mags' mags (length-set mags i new)
        ∙ band_index-LiesOn b' mags i' on' in
      let (m, at, is_m) = read_at mags' i' (omega (arith, on'.0, length-set mags i new)) in
      let reply : (handle_eq_magnitude env number' [] t).replies ≡ reply_message m ∷ [] =
        ap (λ (h : Handled). h.replies) (magnitude_read env number' b' t is_band')
        ∙ ap (λ (ms : List Text). reply_message (magnitude ms (band_index b' ms)) ∷ []) again
        ∙ ap (λ (k : ℕ). reply_message (magnitude mags' k) ∷ []) there
        ∙ ap (λ (r : Text). reply_message r ∷ []) is_m in
      rw (magnitude_set env number arg b v s is_band some_data is_number, here)
        (
          refl,
          again,
          (m, at, reply),
          ap (λ (h : Handled). h.settings) (magnitude_read env number' b' t is_band'),
        )
