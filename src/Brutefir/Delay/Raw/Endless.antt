-- ===== src/Brutefir/Delay/Raw/Endless.antt =====
-- brutefir/delay.cpp: where `update` on memory never ends.
use foo_dsp_bfir.Base.{
  ℕ, ◌+◌, ◌-◌, ◌*◌, ◌≤◌, ◌<◌, ◌≡◌, refl, ◌∙◌, ap, ap₂, arith, ltb, leb, pos, ltb_ℤ, ◌||◌, ◌==◌,
  Bool, true, false, if◌then◌else◌, update, Option, some, none,
}
use foo_dsp_bfir.Brutefir.Sample.Bytes.{Memory}
use foo_dsp_bfir.Brutefir.Delay.{other_buffer}
use foo_dsp_bfir.Brutefir.Delay.Interleaved.{copy_to_delaybuf, copy_from_delaybuf}
use foo_dsp_bfir.Brutefir.Delay.Interleaved.Shift.{shift_samples-none}
use foo_dsp_bfir.Brutefir.Delay.Raw.{
  RawBuffer, change_raw_delay, change_raw_to_short, change_raw_to_long, update_raw,
  update_raw_target, update_raw_samples, update_raw_buffer, update_raw_short_buffer,
}

short_none :
    (fuel base : ℕ) (db : RawBuffer) (buf : Memory)
    → ltb 0 db.n_fbufs ≡ false
    → ltb 0 db.n_rest ≡ true
    → 1 ≤ db.fragsize - db.n_rest
    → update_raw_samples fuel db 3 1 buf base ≡ none
unfolding update_raw_samples update_raw_short_buffer
short_none fuel base db buf no_ring some_rest room =
    let saved =
      copy_to_delaybuf (db.shortbuf db.curbuf) buf (base + (db.fragsize - db.n_rest) * 3 * 1) 3 1
        db.n_rest in
    let shortbuf = update db.shortbuf db.curbuf saved in
    ap₂
      (λ (ring rest : Bool).
        if ring
        then some (update_raw_buffer db 3 1 buf base)
        else if rest
        then update_raw_short_buffer fuel db 3 1 buf base
        else some (db, buf))
      no_ring some_rest
    ∙ ap
        (λ (o : Option Memory). elim o [
          | none ↦ none
          | some shifted ↦ some (
            record db { shortbuf = shortbuf; curbuf = other_buffer db.curbuf },
            copy_from_delaybuf shifted base (shortbuf (other_buffer db.curbuf)) 3 1 db.n_rest,
          )
        ])
        (shift_samples-none fuel base (db.fragsize - db.n_rest) db.n_rest buf room)

change_raw_delay-short :
    (size newdelay : ℕ) (db : RawBuffer)
    → (newdelay == db.curdelay) ≡ false
    → ltb_ℤ db.maxdelay (pos newdelay) ≡ false
    → newdelay ≤ db.fragsize
    → change_raw_delay size newdelay db ≡ change_raw_to_short size newdelay db
unfolding change_raw_delay
change_raw_delay-short size newdelay db other allowed short =
    let below : leb newdelay db.fragsize ≡ true = ground arith in
    ap₂
      (λ (c s : Bool).
        if c || ltb_ℤ db.maxdelay (pos newdelay)
        then db
        else if s
        then change_raw_to_short size newdelay db
        else change_raw_to_long size newdelay db)
      other below
    ∙ ap (λ (c : Bool). if c then db else change_raw_to_short size newdelay db) allowed

to_short_none :
    (fuel base newdelay : ℕ) (db : RawBuffer) (buf : Memory)
    → 0 < newdelay
    → newdelay < db.fragsize
    → update_raw_samples fuel (change_raw_to_short 3 newdelay db) 3 1 buf base ≡ none
unfolding change_raw_to_short
to_short_none fuel base newdelay db buf positive short =
    short_none fuel base (change_raw_to_short 3 newdelay db) buf refl (ground arith) (omega arith)

-- Samples of 24 bits in a buffer of one channel, or with a target buffer, and a new delay that is
-- allowed, above 0 and below the fragment size: `shift_samples` never ends, so that no fuel is
-- enough for `update`.
pub update_raw-none :
    (fuel spacing base newdelay : ℕ) (db : RawBuffer) (buf target : Memory)
    → (newdelay == db.curdelay) ≡ false
    → ltb_ℤ db.maxdelay (pos newdelay) ≡ false
    → 0 < newdelay
    → newdelay < db.fragsize
    → (update_raw fuel db 3 1 newdelay buf base ≡ none)
      × (update_raw_target fuel db 3 spacing newdelay buf base target ≡ none)
unfolding update_raw update_raw_target
update_raw-none fuel spacing base newdelay db buf target other allowed positive short = (
  to_none base buf,
  to_none 0 (copy_to_delaybuf target buf base 3 spacing (change_raw_delay 3 newdelay db).fragsize),
)
  where
    to_none :
        (base : ℕ) (buf : Memory)
        → update_raw_samples fuel (change_raw_delay 3 newdelay db) 3 1 buf base ≡ none
    to_none base buf =
        ap (λ (d : RawBuffer). update_raw_samples fuel d 3 1 buf base)
          (change_raw_delay-short 3 newdelay db other allowed (omega arith))
        ∙ to_short_none fuel base newdelay db buf positive short
