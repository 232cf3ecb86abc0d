-- ===== src/Brutefir/Delay.antt =====
-- brutefir/delay.cpp: the delay buffer of a channel, on the samples of that channel (Interleaved has the loops
-- that pick them out of an interleaved buffer). A delay above the fragment size
-- goes through a ring of full-sized buffers and a rest buffer, a shorter one through two short
-- buffers.
pub mod Blocks
pub mod Ring
pub mod Short
pub mod Stream
pub mod Interleaved
pub mod Raw
mod Tests
use foo_dsp_bfir.Base.{
  ℕ, zero, suc, ◌+◌, ◌-◌, ◌/◌, ◌%◌, ℤ, pos, ltb_ℤ, Bool, not, ◌&&◌, ◌||◌, ltb, leb, ◌==◌,
  if◌then◌else◌, List, [], ◌∷◌, ◌++◌, take, drop, replicate, update,
}

-- `!db->curbuf`
abbrev pub other_buffer : ℕ → ℕ
other_buffer curbuf = if curbuf == 0 then 1 else 0

module _ (A : Type 0) where
  -- `delaybuffer_t`, without the number of allocated buffers.
  pub record DelayBuffer : Type 0 where
    pub fragsize : ℕ
    pub maxdelay : ℤ
    pub curdelay : ℕ
    pub curbuf : ℕ
    pub n_fbufs : ℕ
    pub fbufs : ℕ → List A
    pub n_rest : ℕ
    pub rbuf : List A
    pub shortbuf : ℕ → List A

module _ {A : Type 0} where
  -- The new state, and the contents of the buffer afterwards.
  unfoldable pub update_delay_buffer : DelayBuffer A → List A → DelayBuffer A × List A
  update_delay_buffer db buf =
      let last = if db.curbuf == db.n_fbufs - 1 then 0 else db.curbuf + 1 in
      let fbufs = update db.fbufs db.curbuf buf in
      let lastbuf = fbufs last in
      let tail = take db.n_rest (drop (db.fragsize - db.n_rest) lastbuf) in
      (
        record db {
          fbufs = fbufs;
          rbuf = if db.n_rest == 0 then db.rbuf else tail ++ drop db.n_rest db.rbuf;
          curbuf = if db.curbuf + 1 == db.n_fbufs then 0 else db.curbuf + 1;
        },
        take db.n_rest db.rbuf ++ take (db.fragsize - db.n_rest) lastbuf,
      )

  unfoldable pub update_delay_short_buffer : DelayBuffer A → List A → DelayBuffer A × List A
  update_delay_short_buffer db buf =
      let saved = take db.n_rest (drop (db.fragsize - db.n_rest) buf) in
      let shortbuf =
        update db.shortbuf db.curbuf (saved ++ drop db.n_rest (db.shortbuf db.curbuf)) in
      let curbuf = other_buffer db.curbuf in
      (
        record db { shortbuf = shortbuf; curbuf = curbuf },
        take db.n_rest (shortbuf curbuf) ++ take (db.fragsize - db.n_rest) buf,
      )

  -- `memset` of the first `n` samples
  abbrev pub cleared : A → ℕ → List A → List A
  cleared silence n old = replicate n silence ++ drop n old

  -- A new delay that is not above the fragment size.
  unfoldable pub change_to_short : A → ℕ → DelayBuffer A → DelayBuffer A
  change_to_short silence newdelay db =
      let clear = ltb db.fragsize db.curdelay || ltb db.curdelay newdelay in
      record db {
        n_rest = newdelay;
        shortbuf =
            if clear
            then (λ i. if ltb i 2 then cleared silence newdelay (db.shortbuf i) else db.shortbuf i)
            else db.shortbuf;
        n_fbufs = 0;
        curbuf = 0;
        curdelay = newdelay;
      }

  -- A longer one.
  unfoldable pub change_to_long : A → ℕ → DelayBuffer A → DelayBuffer A
  change_to_long silence newdelay db =
      let n_rest = newdelay % db.fragsize in
      let n_fbufs = newdelay / db.fragsize + 1 in
      let longer = ltb db.curdelay newdelay in
      record db {
        n_rest = n_rest;
        n_fbufs = n_fbufs;
        fbufs =
            if longer
            then (λ i.
                if ltb i n_fbufs then cleared silence db.fragsize (db.fbufs i) else db.fbufs i)
            else db.fbufs;
        rbuf = if longer && not (n_rest == 0) then cleared silence n_rest db.rbuf else db.rbuf;
        curbuf = 0;
        curdelay = newdelay;
      }

  unfoldable pub change_delay : A → ℕ → DelayBuffer A → DelayBuffer A
  unfolding change_to_short change_to_long
  change_delay silence newdelay db =
      if (newdelay == db.curdelay) || ltb_ℤ db.maxdelay (pos newdelay)
      then db
      else if leb newdelay db.fragsize
      then change_to_short silence newdelay db
      else change_to_long silence newdelay db

  -- `update` with no target buffer.
  unfoldable pub update_delay : A → ℕ → DelayBuffer A → List A → DelayBuffer A × List A
  unfolding change_delay
  update_delay silence newdelay db0 buf =
      let db = change_delay silence newdelay db0 in
      if ltb 0 db.n_fbufs
      then update_delay_buffer db buf
      else if ltb 0 db.n_rest
      then update_delay_short_buffer db buf
      else (db, buf)
