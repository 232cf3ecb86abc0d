-- ===== src/Brutefir/Delay/Raw.antt =====
-- brutefir/delay.cpp: the delay buffer in memory. `update` and what it calls, on an interleaved buffer
-- with a sample size and a spacing, and with its optional target buffer.
pub mod Samples
pub mod Parts
pub mod Ring
pub mod Short
pub mod Update
pub mod Whole
pub mod Endless
mod Tests
use foo_dsp_bfir.Base.{
  ℕ, ◌+◌, ◌-◌, ◌*◌, ◌/◌, ◌%◌, ℤ, pos, ltb_ℤ, Bool, not, ◌&&◌, ◌||◌, ltb, leb, ◌==◌, if◌then◌else◌,
  Option, some, none, update,
}
use foo_dsp_bfir.Brutefir.Sample.Bytes.{Memory}
use foo_dsp_bfir.Brutefir.Delay.{other_buffer}
use foo_dsp_bfir.Brutefir.Delay.Interleaved.{
  memcpy, copy_to_delaybuf, copy_from_delaybuf, shift_samples,
}

-- `delaybuffer_t`; each pointer is to the start of a memory of its own.
pub record RawBuffer : Type 0 where
  pub fragsize : ℕ
  pub maxdelay : ℤ
  pub curdelay : ℕ
  pub curbuf : ℕ
  pub n_fbufs : ℕ
  pub fbufs : ℕ → Memory
  pub n_rest : ℕ
  pub rbuf : Memory
  pub shortbuf : ℕ → Memory

-- `update_delay_buffer`: the new state and the buffer afterwards.
unfoldable pub update_raw_buffer : RawBuffer → ℕ → ℕ → Memory → ℕ → RawBuffer × Memory
unfolding copy_to_delaybuf copy_from_delaybuf memcpy update
update_raw_buffer db sample_size sample_spacing buf base =
    let last = if db.curbuf == db.n_fbufs - 1 then 0 else db.curbuf + 1 in
    let current =
      copy_to_delaybuf (db.fbufs db.curbuf) buf base sample_size sample_spacing db.fragsize in
    let fbufs = update db.fbufs db.curbuf current in
    let lastbuf = fbufs last in
    let start =
      if db.n_rest == 0
      then buf
      else copy_from_delaybuf buf base db.rbuf sample_size sample_spacing db.n_rest in
    let rbuf =
      if db.n_rest == 0
      then db.rbuf
      else memcpy db.rbuf 0 lastbuf ((db.fragsize - db.n_rest) * sample_size)
          (db.n_rest * sample_size) in
    (
      record db {
        fbufs = fbufs;
        rbuf = rbuf;
        curbuf = if db.curbuf + 1 == db.n_fbufs then 0 else db.curbuf + 1;
      },
      copy_from_delaybuf start (base + db.n_rest * sample_size * sample_spacing) lastbuf sample_size
          sample_spacing (db.fragsize - db.n_rest),
    )

-- `update_delay_short_buffer`; none where `shift_samples` does not end.
unfoldable pub update_raw_short_buffer :
    ℕ → RawBuffer → ℕ → ℕ → Memory → ℕ → Option (RawBuffer × Memory)
unfolding copy_to_delaybuf copy_from_delaybuf shift_samples update
update_raw_short_buffer fuel db sample_size sample_spacing buf base =
    let saved =
      copy_to_delaybuf (db.shortbuf db.curbuf) buf
        (base + (db.fragsize - db.n_rest) * sample_size * sample_spacing) sample_size sample_spacing
        db.n_rest in
    let shortbuf = update db.shortbuf db.curbuf saved in
    let curbuf = other_buffer db.curbuf in
    elim (shift_samples fuel buf base sample_size sample_spacing (db.fragsize - db.n_rest)
      db.n_rest) [
        | none ↦ none
        | some shifted ↦ some (
          record db { shortbuf = shortbuf; curbuf = curbuf },
          copy_from_delaybuf shifted base (shortbuf curbuf) sample_size sample_spacing db.n_rest,
        )
      ]

-- `memset` of `n` bytes to 0
unfoldable pub memset : Memory → ℕ → Memory
memset m n j = if ltb j n then 0 else m j

-- `change_delay` to a delay that is not above the fragment size, and to a longer one
unfoldable pub change_raw_to_short : ℕ → ℕ → RawBuffer → RawBuffer
unfolding memset
change_raw_to_short sample_size newdelay db =
    let clear = ltb db.fragsize db.curdelay || ltb db.curdelay newdelay in
    record db {
      n_rest = newdelay;
      shortbuf =
          if clear
          then (λ i.
              if ltb i 2 then memset (db.shortbuf i) (newdelay * sample_size) else db.shortbuf i)
          else db.shortbuf;
      n_fbufs = 0;
      curbuf = 0;
      curdelay = newdelay;
    }

unfoldable pub change_raw_to_long : ℕ → ℕ → RawBuffer → RawBuffer
unfolding memset
change_raw_to_long sample_size newdelay db =
    let n_rest = newdelay % db.fragsize in
    let n_fbufs = newdelay / db.fragsize + 1 in
    let longer = ltb db.curdelay newdelay in
    record db {
      n_rest = n_rest;
      n_fbufs = n_fbufs;
      fbufs =
          if longer
          then (λ i.
              if ltb i n_fbufs then memset (db.fbufs i) (db.fragsize * sample_size) else db.fbufs i)
          else db.fbufs;
      rbuf = if longer && not (n_rest == 0) then memset db.rbuf (n_rest * sample_size) else db.rbuf;
      curbuf = 0;
      curdelay = newdelay;
    }

unfoldable pub change_raw_delay : ℕ → ℕ → RawBuffer → RawBuffer
unfolding change_raw_to_short change_raw_to_long
change_raw_delay sample_size newdelay db =
    if (newdelay == db.curdelay) || ltb_ℤ db.maxdelay (pos newdelay)
    then db
    else if leb newdelay db.fragsize
    then change_raw_to_short sample_size newdelay db
    else change_raw_to_long sample_size newdelay db

-- `update` after the change of the delay: the samples are at `base` of `buf`.
unfoldable pub update_raw_samples : ℕ → RawBuffer → ℕ → ℕ → Memory → ℕ → Option (RawBuffer × Memory)
unfolding update_raw_buffer update_raw_short_buffer
update_raw_samples fuel db sample_size sample_spacing buf base =
    if ltb 0 db.n_fbufs
    then some (update_raw_buffer db sample_size sample_spacing buf base)
    else if ltb 0 db.n_rest
    then update_raw_short_buffer fuel db sample_size sample_spacing buf base
    else some (db, buf)

-- `update` with no target buffer: the new state and the buffer; and with one, which then holds the
-- samples of the channel next to each other, while the buffer stays.
unfoldable pub update_raw : ℕ → RawBuffer → ℕ → ℕ → ℕ → Memory → ℕ → Option (RawBuffer × Memory)
unfolding change_raw_delay update_raw_samples
update_raw fuel db0 sample_size sample_spacing newdelay buf base =
    update_raw_samples fuel (change_raw_delay sample_size newdelay db0) sample_size sample_spacing
      buf base

unfoldable pub update_raw_target :
    ℕ → RawBuffer → ℕ → ℕ → ℕ → Memory → ℕ → Memory → Option (RawBuffer × Memory)
unfolding change_raw_delay copy_to_delaybuf update_raw_samples
update_raw_target fuel db0 sample_size sample_spacing newdelay buf base target =
    let db = change_raw_delay sample_size newdelay db0 in
    let copied = copy_to_delaybuf target buf base sample_size sample_spacing db.fragsize in
    update_raw_samples fuel db sample_size 1 copied 0
