-- ===== src/Brutefir/Delay/Tests.antt =====
-- Tests of the delay of brutefir/delay.cpp, and the theorems about it at concrete buffers.
use mathlib.Core.List.{flatten}
use foo_dsp_bfir.Base.{ℕ, ◌≡◌, refl, arith, pos, List, [], ◌∷◌, ◌++◌, replicate, update}
use foo_dsp_bfir.Brutefir.Delay.{DelayBuffer, change_delay, update_delay, update_delay_buffer}
use foo_dsp_bfir.Brutefir.Delay.Ring.{IsRing, waiting}
use foo_dsp_bfir.Brutefir.Delay.Stream.{updates, updates-flatten, change_delay-silent}

abbrev two_samples : ℕ → List ℕ
two_samples i = 9 ∷ 9 ∷ []

-- A delay of 3 in fragments of 2: two full-sized buffers and one sample.
abbrev delay_3 : DelayBuffer ℕ
delay_3 = record {
  fragsize = 2;
  maxdelay = pos 5;
  curdelay = 3;
  curbuf = 0;
  n_fbufs = 2;
  fbufs = two_samples;
  n_rest = 1;
  rbuf = 8 ∷ 8 ∷ [];
  shortbuf = two_samples;
}

abbrev delay_1 : DelayBuffer ℕ
delay_1 = record delay_3 { curdelay = 1; n_fbufs = 0 }

delay_3-IsRing : IsRing delay_3
delay_3-IsRing = record {
  several = omega arith;
  current = omega arith;
  rest = omega arith;
  room = omega arith;
  full = λ i h. refl;
}

delayed_by_3 :
    (updates 0 3 delay_3 ((1 ∷ 2 ∷ []) ∷ (3 ∷ 4 ∷ []) ∷ [])).1 ≡ (8 ∷ 9 ∷ []) ∷ (9 ∷ 1 ∷ []) ∷ []
unfolding update_delay update_delay_buffer update
delayed_by_3 = refl

updates-flatten_example :
    let (db', outs) = updates 0 3 delay_3 ((1 ∷ 2 ∷ []) ∷ (3 ∷ 4 ∷ []) ∷ []) in
    flatten outs ++ waiting db' ≡ waiting delay_3 ++ flatten ((1 ∷ 2 ∷ []) ∷ (3 ∷ 4 ∷ []) ∷ [])
updates-flatten_example =
    updates-flatten 0 3 delay_3 ((1 ∷ 2 ∷ []) ∷ (3 ∷ 4 ∷ []) ∷ []) delay_3-IsRing refl
      (refl, (refl, tt))

change_delay-silent_example :
    let db' = change_delay 0 5 delay_3 in
    IsRing db' × (waiting db' ≡ replicate 5 0) × (db'.curdelay ≡ 5) × (db'.fragsize ≡ 2)
change_delay-silent_example =
    change_delay-silent 0 5 delay_3 (omega arith) (omega arith) (omega arith) refl (λ i h. refl)
