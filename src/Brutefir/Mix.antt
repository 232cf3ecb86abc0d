-- ===== src/Brutefir/Mix.antt =====
-- brutefir/fftw_convolver.cpp: `mixnscalef` and `mixnscaled`, which add scaled spectra and reorder
-- them between the half-complex layout of FFTW and the groups of eight of the convolution, as one
-- function of the "float" type. The buffers do not overlap. The buffers and the scales, after
-- their cast, are functions of the index. An input buffer whose pointer was moved by `n_fft` is
-- written from its start, so that the index `-n-1` is `n_fft - n - 1`; it is moved back at the end.
pub mod Slots
pub mod Layout
pub mod Passes
mod Tests
use foo_dsp_bfir.Base.{ℕ, zero, suc, ◌+◌, ◌-◌, ◌*◌, ◌/◌, ◌==◌, if◌then◌else◌, List, [], ◌∷◌, update}
use foo_dsp_bfir.Brutefir.Spectrum.{Float}

-- The codes CONVOLVER_MIXMODE_INPUT and CONVOLVER_MIXMODE_OUTPUT, and any other code.
pub data MixMode : Type 0 where
  mixmode_input mixmode_output : MixMode
  mixmode_other : ℕ → MixMode

-- Pairs of an index that is written and the index that is read for it.
abbrev pub Slots : Type 0
Slots = List (ℕ × ℕ)

-- The entries of a round, `obuf[(n<<1)+0]` to `obuf[(n<<1)+3]`, and of the other parts.
abbrev pub input_first : ℕ → Slots
input_first n = (2 * n, n) ∷ (2 * n + 1, n + 1) ∷ (2 * n + 2, n + 2) ∷ (2 * n + 3, n + 3) ∷ []

abbrev pub input_middle : ℕ → Slots
input_middle n_fft = (4, n_fft / 2) ∷ (5, n_fft - 1) ∷ (6, n_fft - 2) ∷ (7, n_fft - 3) ∷ []

abbrev pub input_second : ℕ → ℕ → Slots
input_second n_fft n =
    (2 * n + 4, n_fft - n)
    ∷ (2 * n + 5, n_fft - n - 1)
    ∷ (2 * n + 6, n_fft - n - 2)
    ∷ (2 * n + 7, n_fft - n - 3)
    ∷ []

abbrev pub output_first : ℕ → Slots
output_first n = (n, 2 * n) ∷ (n + 1, 2 * n + 1) ∷ (n + 2, 2 * n + 2) ∷ (n + 3, 2 * n + 3) ∷ []

abbrev pub output_half : ℕ → Slots
output_half n_fft = (n_fft / 2, 4) ∷ []

abbrev pub output_middle : ℕ → Slots
output_middle n_fft = (n_fft - 1, 5) ∷ (n_fft - 2, 6) ∷ (n_fft - 3, 7) ∷ []

abbrev pub output_second : ℕ → ℕ → Slots
output_second n_fft n =
    (n_fft - n, 2 * n + 4)
    ∷ (n_fft - n - 1, 2 * n + 5)
    ∷ (n_fft - n - 2, 2 * n + 6)
    ∷ (n_fft - n - 3, 2 * n + 7)
    ∷ []

-- The rounds of `for (n = 0; n < n_fft >> 1; n += 4)`, and of the same loop from 4 on.
abbrev pub first_rounds : ℕ → ℕ
first_rounds n_fft = (n_fft / 2 + 3) / 4

abbrev pub second_rounds : ℕ → ℕ
second_rounds n_fft = (n_fft / 2 - 4 + 3) / 4

module _ (F : Float) where
  open F use {Value, add, mul}

  abbrev pub Buffer : Type 0
  Buffer = ℕ → Value

  -- How the entries of some slots are formed, in each case of the switches.
  abbrev pub Store : Type 0
  Store = Slots → Buffer → Buffer

  -- A loop with `left` rounds from `n` on.
  unfoldable pub rounds : Store → (ℕ → Slots) → ℕ → ℕ → Buffer → Buffer
  rounds store slots zero n obuf = obuf
  rounds store slots (suc left) n obuf = rounds store slots left (n + 4) (store (slots n) obuf)

  -- A case of the switch of CONVOLVER_MIXMODE_INPUT.
  unfoldable pub input_case : Store → ℕ → Buffer → Buffer
  unfolding rounds
  input_case store n_fft obuf =
      let first = rounds store input_first (first_rounds n_fft) 0 obuf in
      let middle = store (input_middle n_fft) first in
      rounds store (input_second n_fft) (second_rounds n_fft) 4 middle

  -- A case of the switch of CONVOLVER_MIXMODE_OUTPUT.
  unfoldable pub output_case : Store → ℕ → Buffer → Buffer
  unfolding rounds
  output_case store n_fft obuf =
      let first = rounds store output_first (first_rounds n_fft) 0 obuf in
      let half = store (output_half n_fft) first in
      let middle = store (output_middle n_fft) half in
      rounds store (output_second n_fft) (second_rounds n_fft) 4 middle

  -- Each entry written once.
  unfoldable pub store_all : (ℕ → Value) → Store
  unfolding update
  store_all value [] obuf = obuf
  store_all value ((p, x) ∷ slots) obuf = store_all value slots (update obuf p (value x))

  -- `obuf[p] += value` for each entry
  unfoldable pub add_all : (ℕ → Value) → Store
  unfolding update
  add_all value [] obuf = obuf
  add_all value ((p, x) ∷ slots) obuf = add_all value slots (update obuf p (add (obuf p) (value x)))

  module _ (ibufs : ℕ → Buffer) (sscales : ℕ → Value) where
    abbrev pub scaled : ℕ → ℕ → Value
    scaled i x = mul (ibufs i x) (sscales i)

    -- The sums of the cases 1 to 4.
    abbrev pub sum_one : ℕ → Value
    sum_one x = scaled 0 x

    abbrev pub sum_two : ℕ → Value
    sum_two x = add (scaled 0 x) (scaled 1 x)

    abbrev pub sum_three : ℕ → Value
    sum_three x = add (add (scaled 0 x) (scaled 1 x)) (scaled 2 x)

    abbrev pub sum_four : ℕ → Value
    sum_four x = add (add (add (scaled 0 x) (scaled 1 x)) (scaled 2 x)) (scaled 3 x)

    -- `for (i = 1; i < n_bufs; i++)`, with `left` buffers to go from `i` on.
    unfoldable pub accumulate : ℕ → ℕ → Store
    unfolding add_all
    accumulate zero i slots obuf = obuf
    accumulate (suc left) i slots obuf =
        accumulate left (i + 1) slots (add_all (scaled i) slots obuf)

    -- The default case: the first buffer is stored and the others are added to it.
    unfoldable pub store_many : ℕ → Store
    unfolding store_all accumulate
    store_many n_bufs slots obuf = accumulate (n_bufs - 1) 1 slots (store_all (scaled 0) slots obuf)

    unfoldable pub input_one : ℕ → Buffer → Buffer
    unfolding input_case store_all
    input_one = input_case (store_all sum_one)

    unfoldable pub input_two : ℕ → Buffer → Buffer
    unfolding input_case store_all
    input_two = input_case (store_all sum_two)

    unfoldable pub input_three : ℕ → Buffer → Buffer
    unfolding input_case store_all
    input_three = input_case (store_all sum_three)

    unfoldable pub input_four : ℕ → Buffer → Buffer
    unfolding input_case store_all
    input_four = input_case (store_all sum_four)

    unfoldable pub input_many : ℕ → ℕ → Buffer → Buffer
    unfolding input_case store_many
    input_many n_bufs = input_case (store_many n_bufs)

    unfoldable pub output_one : ℕ → Buffer → Buffer
    unfolding output_case store_all
    output_one = output_case (store_all sum_one)

    unfoldable pub output_two : ℕ → Buffer → Buffer
    unfolding output_case store_all
    output_two = output_case (store_all sum_two)

    unfoldable pub output_three : ℕ → Buffer → Buffer
    unfolding output_case store_all
    output_three = output_case (store_all sum_three)

    unfoldable pub output_four : ℕ → Buffer → Buffer
    unfolding output_case store_all
    output_four = output_case (store_all sum_four)

    unfoldable pub output_many : ℕ → ℕ → Buffer → Buffer
    unfolding output_case store_many
    output_many n_bufs = output_case (store_many n_bufs)

    unfoldable pub mix_input : ℕ → ℕ → Buffer → Buffer
    unfolding input_one input_two input_three input_four input_many
    mix_input n_bufs n_fft obuf =
        if n_bufs == 1
        then input_one n_fft obuf
        else if n_bufs == 2
        then input_two n_fft obuf
        else if n_bufs == 3
        then input_three n_fft obuf
        else if n_bufs == 4
        then input_four n_fft obuf
        else input_many n_bufs n_fft obuf

    unfoldable pub mix_output : ℕ → ℕ → Buffer → Buffer
    unfolding output_one output_two output_three output_four output_many
    mix_output n_bufs n_fft obuf =
        if n_bufs == 1
        then output_one n_fft obuf
        else if n_bufs == 2
        then output_two n_fft obuf
        else if n_bufs == 3
        then output_three n_fft obuf
        else if n_bufs == 4
        then output_four n_fft obuf
        else output_many n_bufs n_fft obuf

    -- For no buffers at all the source goes through the branch of many and reads the entry 0 of its
    -- arrays, which the caller has not filled: here that is the buffer 0.
    unfoldable pub mixnscale : MixMode → ℕ → ℕ → Buffer → Buffer
    unfolding mix_input mix_output
    mixnscale mixmode_input n_bufs n_fft obuf = mix_input n_bufs n_fft obuf
    mixnscale mixmode_output n_bufs n_fft obuf = mix_output n_bufs n_fft obuf
    mixnscale (mixmode_other code) n_bufs n_fft obuf = obuf
