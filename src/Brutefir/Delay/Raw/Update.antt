-- ===== src/Brutefir/Delay/Raw/Update.antt =====
-- brutefir/delay.cpp: `update` on memory, with the change of the delay and the target buffer, does to the
-- samples of the channel what the model on lists of samples does.
use native.Mathlib.Nat.{mod-lt}
use foo_dsp_bfir.Base.{
  ℕ, zero, suc, ◌+◌, ◌-◌, ◌*◌, ◌/◌, ◌%◌, ◌≤◌, ◌<◌, ◌≡◌, inl, inr, refl, sym, ◌∙◌, ap, ap₂, fun_ext,
  arith, ltb, leb, pos, ltb_ℤ, ◌&&◌, ◌||◌, ◌==◌, not, Bool, true, false, Bool-cases, if◌then◌else◌,
  List, ◌∷◌, replicate,
}
use foo_dsp_bfir.Brutefir.Sample.Bytes.{Memory}
use foo_dsp_bfir.Brutefir.Delay.{change_delay, change_to_short, change_to_long, cleared}
use foo_dsp_bfir.Brutefir.Delay.Interleaved.Loops.{mul-next}
use foo_dsp_bfir.Brutefir.Delay.Raw.{
  RawBuffer, memset, change_raw_delay, change_raw_to_short, change_raw_to_long,
}
use foo_dsp_bfir.Brutefir.Delay.Raw.Samples.{
  tabulate, tabulate-eq, drop-tabulate, tabulate-append, packed,
}
use foo_dsp_bfir.Brutefir.Delay.Raw.Parts.{buffer_of}

-- A sample of silence.
abbrev pub silence : ℕ → List ℕ
silence size = tabulate size (λ b. 0)

replicate-tabulate : {A : Type 0} (n : ℕ) (a : A) → replicate n a ≡ tabulate n (λ k. a)
unfolding tabulate
replicate-tabulate zero a = refl
replicate-tabulate (suc n) a = ap (λ r. a ∷ r) (replicate-tabulate n a)

-- Clearing bytes clears samples.
packed-memset :
    (size n frag : ℕ) (m : Memory)
    → n ≤ frag
    → packed size frag (memset m (n * size)) ≡ cleared (silence size) n (packed size frag m)
unfolding memset
packed-memset size n frag m h =
    rw
      (
        replicate-tabulate n (silence size),
        drop-tabulate n frag (λ k. tabulate size (λ b. m (size * k + b))) h,
      )
      (ap (λ i. packed size i (memset m (n * size))) (whole n frag h)
        ∙ sym (
            tabulate-append n (frag - n) (λ k. silence size)
              (λ k. tabulate size (λ b. m (size * (n + k) + b)))
              (λ k. tabulate size (λ b. memset m (n * size) (size * k + b)))
              (λ k hk. tabulate-eq size _ _ (λ b hb. sym (rw (before n k b hk hb) refl)))
              (λ k hk. tabulate-eq size _ _ (λ b hb. sym (rw (beyond n k b) refl)))))
  where
    whole : (n frag : ℕ) → n ≤ frag → frag ≡ n + (frag - n)
    whole n frag h = omega arith

    is_less : (a b : ℕ) → a < b → ltb a b ≡ true
    is_less a b h = ground arith

    is_not_less : (a b : ℕ) → b ≤ a → ltb a b ≡ false
    is_not_less a b h = ground arith

    before : (n k b : ℕ) → k < n → b < size → ltb (size * k + b) (n * size) ≡ true
    before n k b hk hb = is_less (size * k + b) (n * size) (grind (arith, mul-next size k n hk))

    beyond : (n k b : ℕ) → ltb (size * (n + k) + b) (n * size) ≡ false
    beyond n k b = is_not_less (size * (n + k) + b) (n * size) (grind arith)

module _ (size frag n : ℕ) (h : n ≤ frag) where
  cleared-eq :
      (c : Bool) (chosen : ℕ → Bool) (bufs : ℕ → Memory) (i : ℕ)
      → packed size frag (
          if◌then◌else◌ {A = ℕ → Memory} c
            (λ i. if chosen i then memset (bufs i) (n * size) else bufs i)
            bufs
            i)
        ≡ if◌then◌else◌ {A = ℕ → List (List ℕ)} c
            (λ i.
              if chosen i
              then cleared (silence size) n (packed size frag (bufs i))
              else packed size frag (bufs i))
            (λ i. packed size frag (bufs i))
            i
  cleared-eq true chosen bufs i = elim (Bool-cases (chosen i)) [
    | inl e ↦ rw e (packed-memset size n frag (bufs i) h)
    | inr ne ↦ rw ne refl
  ]
  cleared-eq false chosen bufs i = refl

  cleared_one :
      (c : Bool) (m : Memory)
      → packed size frag (if c then memset m (n * size) else m)
        ≡ (if c then cleared (silence size) n (packed size frag m) else packed size frag m)
  cleared_one true m = packed-memset size n frag m h
  cleared_one false m = refl

module _ (size newdelay : ℕ) (db : RawBuffer) where
  clear : Bool
  clear = ltb db.fragsize db.curdelay || ltb db.curdelay newdelay

  change_raw_to_short-eq :
      newdelay ≤ db.fragsize
      → buffer_of size (change_raw_to_short size newdelay db)
        ≡ change_to_short (silence size) newdelay (buffer_of size db)
  unfolding change_raw_to_short change_to_short clear
  change_raw_to_short-eq h =
      ap
        (λ (f : ℕ → List (List ℕ)). record (buffer_of size db) {
          n_rest = newdelay;
          shortbuf = f;
          n_fbufs = 0;
          curbuf = 0;
          curdelay = newdelay;
        })
        (fun_ext (λ i. cleared-eq size db.fragsize newdelay h clear (λ i. ltb i 2) db.shortbuf i))

  change_raw_to_long-eq :
      0 < db.fragsize
      → buffer_of size (change_raw_to_long size newdelay db)
        ≡ change_to_long (silence size) newdelay (buffer_of size db)
  unfolding change_raw_to_long change_to_long
  change_raw_to_long-eq positive =
      ap₂
        (λ (f : ℕ → List (List ℕ)) (r : List (List ℕ)). record (buffer_of size db) {
          n_rest = newdelay % db.fragsize;
          n_fbufs = newdelay / db.fragsize + 1;
          fbufs = f;
          rbuf = r;
          curbuf = 0;
          curdelay = newdelay;
        })
        (fun_ext (λ i.
          cleared-eq size db.fragsize db.fragsize (omega arith) (ltb db.curdelay newdelay)
            (λ i. ltb i (newdelay / db.fragsize + 1)) db.fbufs i))
        (cleared_one size db.fragsize (newdelay % db.fragsize)
          (rest-le newdelay db.fragsize positive)
          (ltb db.curdelay newdelay && not (newdelay % db.fragsize == 0)) db.rbuf)
    where
      rest-le : (a b : ℕ) → 0 < b → a % b ≤ b
      rest-le a b h = omega (arith, mod-lt a h)

  pub change_raw_delay-eq :
      0 < db.fragsize
      → buffer_of size (change_raw_delay size newdelay db)
        ≡ change_delay (silence size) newdelay (buffer_of size db)
  unfolding change_raw_delay change_delay
  change_raw_delay-eq positive =
      elim (Bool-cases ((newdelay == db.curdelay) || ltb_ℤ db.maxdelay (pos newdelay))) [
        | inl same ↦ rw same refl
        | inr other ↦ rw other (elim (Bool-cases (leb newdelay db.fragsize)) [
          | inl short ↦ rw short (change_raw_to_short-eq (ground arith))
          | inr long ↦ rw long (change_raw_to_long-eq positive)
        ])
      ]
