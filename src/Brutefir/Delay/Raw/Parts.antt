-- ===== src/Brutefir/Delay/Raw/Parts.antt =====
-- brutefir/delay.cpp: what each copy of `update_delay_buffer` does to lists of samples.
use foo_dsp_bfir.Base.{
  ℕ, ◌+◌, ◌-◌, ◌*◌, ◌≤◌, ◌<◌, ◌≡◌, inl, inr, refl, sym, ◌∙◌, ap, fun_ext, arith, ◌==◌, true,
  Bool-cases, List, ◌++◌, take, drop, update,
}
use foo_dsp_bfir.Brutefir.Sample.Bytes.{Memory}
use foo_dsp_bfir.Brutefir.Sample.Words.{IsBytes}
use foo_dsp_bfir.Brutefir.Delay.{DelayBuffer}
use foo_dsp_bfir.Brutefir.Delay.Interleaved.{memcpy, copy_to_delaybuf, copy_from_delaybuf}
use foo_dsp_bfir.Brutefir.Delay.Interleaved.Loops.{known_size, mul-next, stride-next}
use foo_dsp_bfir.Brutefir.Delay.Interleaved.Copies.{
  copy_to_delaybuf-sample, copy_from_delaybuf-sample, copy_from_delaybuf-other, memcpy-inside,
  memcpy-outside,
}
use foo_dsp_bfir.Brutefir.Delay.Raw.{RawBuffer}
use foo_dsp_bfir.Brutefir.Delay.Raw.Samples.{
  tabulate, tabulate-eq, take-tabulate, drop-tabulate, tabulate-append, samples, packed,
}

-- The delay buffer as the model on lists sees it.
abbrev pub buffer_of : ℕ → RawBuffer → DelayBuffer (List ℕ)
buffer_of size db = record {
  fragsize = db.fragsize;
  maxdelay = db.maxdelay;
  curdelay = db.curdelay;
  curbuf = db.curbuf;
  n_fbufs = db.n_fbufs;
  fbufs = λ i. packed size db.fragsize (db.fbufs i);
  n_rest = db.n_rest;
  rbuf = packed size db.fragsize db.rbuf;
  shortbuf = λ i. packed size db.fragsize (db.shortbuf i);
}

-- Every buffer holds bytes, and the rest is no longer than a fragment.
pub record IsRaw (db : RawBuffer) : Type 0 where
  pub full : (i : ℕ) → IsBytes (db.fbufs i)
  pub rest : IsBytes db.rbuf
  pub short : (i : ℕ) → IsBytes (db.shortbuf i)
  pub fits : db.n_rest ≤ db.fragsize

module _ (size spacing base : ℕ) (known : known_size size ≡ true) (one : 1 ≤ spacing) where
  -- Copying out gives the samples of the channel.
  pub packed-copy_to :
      (dbuf buf : Memory) (n : ℕ)
      → IsBytes buf
      → packed size n (copy_to_delaybuf dbuf buf base size spacing n)
        ≡ samples size spacing base n buf
  packed-copy_to dbuf buf n h = tabulate-eq n _ _ (λ k hk.
      tabulate-eq size _ _
        (λ b hb. copy_to_delaybuf-sample dbuf buf base size spacing n known one h k b hk hb))

  -- The full-sized buffers after one of them was filled.
  pub packed-update :
      (fbufs : ℕ → Memory) (cur n : ℕ) (buf dbuf : Memory)
      → IsBytes buf
      → (λ i. packed size n (update fbufs cur (copy_to_delaybuf dbuf buf base size spacing n) i))
        ≡ update (λ i. packed size n (fbufs i)) cur (samples size spacing base n buf)
  unfolding update
  packed-update fbufs cur n buf dbuf h = fun_ext (λ i. elim (Bool-cases (i == cur)) [
    | inl e ↦ rw e (packed-copy_to dbuf buf n h)
    | inr ne ↦ rw ne refl
  ])

  pub after_rest :
      (rest k b : ℕ)
      → base + rest * size * spacing + size * (spacing * k) + b
        ≡ base + size * (spacing * (rest + k)) + b
  after_rest rest k b = grind arith

  before_rest :
      (rest k b i : ℕ)
      → k < rest
      → b < size
      → ¬ (
          (base + rest * size * spacing + size * (spacing * i) ≤ base + size * (spacing * k) + b)
          × (base + size * (spacing * k) + b
              < base + rest * size * spacing + size * (spacing * i) + size))
  before_rest rest k b i hk hb inside =
      omega (arith, inside.0, stride-next size spacing k rest one hk, turned rest)
    where
      turned : (rest : ℕ) → rest * size * spacing ≡ size * (spacing * rest)
      turned rest = grind arith

  -- What is put back at the start and after it are the samples from the two buffers, in this order.
  pub samples-copy_from :
      (buf first second : Memory) (rest n : ℕ)
      → IsBytes first
      → IsBytes second
      → samples size spacing base (rest + n) (
          copy_from_delaybuf
            (copy_from_delaybuf buf base first size spacing rest)
            (base + rest * size * spacing)
            second
            size
            spacing
            n)
        ≡ packed size rest first ++ packed size n second
  samples-copy_from buf first second rest n hf hs = sym (
      tabulate-append rest n _ _ _
        (λ k hk. tabulate-eq size _ _ (λ b hb. sym (
          copy_from_delaybuf-other second (copy_from_delaybuf buf base first size spacing rest)
            (base + rest * size * spacing) size spacing n known one hs
            (base + size * (spacing * k) + b) (λ i hi. before_rest rest k b i hk hb)
          ∙ copy_from_delaybuf-sample first buf base size spacing rest known one hf k b hk hb)))
        (λ k hk. tabulate-eq size _ _ (λ b hb. sym (
          ap
            (copy_from_delaybuf (copy_from_delaybuf buf base first size spacing rest)
              (base + rest * size * spacing) second size spacing n)
            (sym (after_rest rest k b))
          ∙ copy_from_delaybuf-sample second (copy_from_delaybuf buf base first size spacing rest)
              (base + rest * size * spacing) size spacing n known one hs k b hk hb))))

  pub copy_from-none :
      (buf first : Memory) → IsBytes first → copy_from_delaybuf buf base first size spacing 0 ≡ buf
  copy_from-none buf first h = fun_ext (λ j.
      copy_from_delaybuf-other first buf base size spacing 0 known one h j
        (λ k lt. absurd (omega arith)))

-- The rest buffer after the end of another buffer was copied to its start.
pub packed-memcpy :
    (size frag rest : ℕ) (rbuf last : Memory)
    → rest ≤ frag
    → packed size frag (memcpy rbuf 0 last ((frag - rest) * size) (rest * size))
      ≡ take rest (drop (frag - rest) (packed size frag last)) ++ drop rest (packed size frag rbuf)
packed-memcpy size frag rest rbuf last h =
    rw
      (
        drop-tabulate (frag - rest) frag (λ k. tabulate size (λ b. last (size * k + b)))
            (omega arith),
        drop-tabulate rest frag (λ k. tabulate size (λ b. rbuf (size * k + b))) h,
        take-tabulate rest (frag - (frag - rest))
            (λ k. tabulate size (λ b. last (size * (frag - rest + k) + b))) (omega arith),
      )
      (ap (λ i. packed size i (memcpy rbuf 0 last ((frag - rest) * size) (rest * size))) (whole h)
        ∙ sym (
            tabulate-append rest (frag - rest) _ _ _
              (λ k hk. tabulate-eq size _ _ (λ b hb. sym (
                ap (memcpy rbuf 0 last ((frag - rest) * size) (rest * size))
                  (zero_first (size * k + b))
                ∙ memcpy-inside rbuf last 0 ((frag - rest) * size) (rest * size) (size * k + b)
                    (within k b hk hb)
                ∙ ap last (moved (frag - rest) k b))))
              (λ k hk. tabulate-eq size _ _ (λ b hb. sym (
                memcpy-outside rbuf last 0 ((frag - rest) * size) (rest * size)
                  (size * (rest + k) + b) (inr (beyond k b)))))))
  where
    whole : rest ≤ frag → frag ≡ rest + (frag - rest)
    whole h = omega arith

    zero_first : (a : ℕ) → a ≡ 0 + a
    zero_first a = omega arith

    moved : (c k b : ℕ) → c * size + (size * k + b) ≡ size * (c + k) + b
    moved c k b = grind arith

    within : (k b : ℕ) → k < rest → b < size → size * k + b < rest * size
    within k b hk hb = grind (arith, mul-next size k rest hk)

    beyond : (k b : ℕ) → 0 + rest * size ≤ size * (rest + k) + b
    beyond k b = grind arith
