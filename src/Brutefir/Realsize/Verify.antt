-- ===== src/Brutefir/Realsize/Verify.antt =====
-- brutefir/fftw_convolver.cpp: what `convolver_verify_cbuf` tests.
use foo_dsp_bfir.Base.{
  ℕ, zero, suc, ◌+◌, ◌≤◌, ◌<◌, ◌≡◌, ◌↔◌, ◌⊎◌, refl, arith, Bool, true, false, not, if◌then◌else◌,
  Bool-cases, inl, inr,
}
use foo_dsp_bfir.Brutefir.Realsize.{
  Realsize, Floats, Cbuf, finite_at, verify_entries, verify_cbufs, convolver_verify_cbuf,
}

-- `p` holds from `i` on, for `left` indices.
abbrev AllFrom : (ℕ → Bool) → ℕ → ℕ → Type 0
AllFrom p left i = (j : ℕ) → i ≤ j → j < i + left → p j ≡ true

-- The loops end with false at the first failure.
search_from : (ℕ → Bool) → ℕ → ℕ → Bool
search_from p zero i = true
search_from p (suc left) i = if not (p i) then false else search_from p left (i + 1)

from_lower : (i j : ℕ) → i ≤ j → (i ≡ j) ⊎ (i + 1 ≤ j)
from_lower i j h = ground arith

search_from_sound : (p : ℕ → Bool) (left i : ℕ) → search_from p left i ≡ true → AllFrom p left i
unfolding search_from
search_from_sound p zero i e j lo hi = absurd (omega arith)
search_from_sound p (suc left) i e j lo hi = elim (Bool-cases (p i)) [
  | inl good ↦ elim (from_lower i j lo) [
    | inl same ↦ rw (← same) good
    | inr above ↦ search_from_sound p left (i + 1) (ground arith) j above (omega arith)
  ]
  | inr bad ↦ absurd (ground arith)
]

search_from_complete : (p : ℕ → Bool) (left i : ℕ) → AllFrom p left i → search_from p left i ≡ true
unfolding search_from
search_from_complete p zero i h = refl
search_from_complete p (suc left) i h =
    rw (h i (omega arith) (omega arith))
      (search_from_complete p left (i + 1) (λ j lo hi. h j (omega arith) (omega arith)))

verify_entries-eq :
    (S : Floats) (r : Realsize) (cbuf : Cbuf S r) (left i : ℕ)
    → verify_entries S r cbuf left i ≡ search_from (finite_at S r cbuf) left i
unfolding verify_entries search_from
verify_entries-eq S r cbuf zero i = refl
verify_entries-eq S r cbuf (suc left) i = rw (verify_entries-eq S r cbuf left (i + 1))

verify_cbufs-eq :
    (S : Floats) (r : Realsize) (cbufs : ℕ → Cbuf S r) (n_fft left n : ℕ)
    → verify_cbufs S r cbufs n_fft left n
      ≡ search_from (λ n. verify_entries S r (cbufs n) n_fft 0) left n
unfolding verify_cbufs search_from
verify_cbufs-eq S r cbufs n_fft zero n = refl
verify_cbufs-eq S r cbufs n_fft (suc left) n = rw (verify_cbufs-eq S r cbufs n_fft left (n + 1))

-- The coefficients pass exactly if every entry of every buffer is finite, for either size.
convolver_verify_cbuf_lem :
    (S : Floats) (r : Realsize) (cbufs : ℕ → Cbuf S r) (n_fft n_cbufs : ℕ)
    → (convolver_verify_cbuf S r n_fft cbufs n_cbufs ≡ true)
      ↔ ((n i : ℕ) → n < n_cbufs → i < n_fft → finite_at S r (cbufs n) i ≡ true)
unfolding convolver_verify_cbuf
convolver_verify_cbuf_lem S r cbufs n_fft n_cbufs = (
  λ e n i hn hi.
      search_from_sound (finite_at S r (cbufs n)) n_fft 0
        (rw (← (verify_entries-eq S r (cbufs n) n_fft 0)) (
          search_from_sound (λ n. verify_entries S r (cbufs n) n_fft 0) n_cbufs 0
            (rw (← (verify_cbufs-eq S r cbufs n_fft n_cbufs 0)) e) n (omega arith) (omega arith)))
        i (omega arith) (omega arith),
  λ all. rw (verify_cbufs-eq S r cbufs n_fft n_cbufs 0) (
      search_from_complete (λ n. verify_entries S r (cbufs n) n_fft 0) n_cbufs 0
        (λ n lo hi. rw (verify_entries-eq S r (cbufs n) n_fft 0) (
          search_from_complete (finite_at S r (cbufs n)) n_fft 0
            (λ i low high. all n i (omega arith) (omega arith))))),
)
