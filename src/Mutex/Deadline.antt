-- ===== src/Mutex/Deadline.antt =====
-- Deadlines, and the loop that polls.
use bigloo.Prelude.{
  ℕ, zero, suc, ◌+◌, ◌-◌, ◌*◌, ◌%◌, ◌≤◌, ◌<◌, Bool, Bool-cases, false, ◌&&◌, ltb, leb, some, ◌≡◌,
  ◌⊎◌, inl, inr, arith, ap, sym, ◌∙◌,
}
use bigloo.Mutex.Timeout.{Timespec, srfi18_condvar_timeout, bglpth_mutex_timeout_ftime, poll}

abbrev pub nanoseconds : Timespec → ℕ
nanoseconds x = x.tv_sec * 1000000000 + x.tv_nsec

-- Below a second: when pthread accepts the deadline of a wait, which it does where the nanoseconds
-- are fewer than 10⁹.
pub srfi18_condvar_timeout-accepted :
    (tv_sec tv_usec ms : ℕ)
    → tv_usec < 1000000
    → leb 1000000000 (srfi18_condvar_timeout tv_sec tv_usec ms).tv_nsec
      ≡ leb 1000000 (tv_usec + ms % 1000 * 1000)
unfolding srfi18_condvar_timeout
srfi18_condvar_timeout-accepted tv_sec tv_usec ms h = ground arith

-- The branch of the Windows compilers gives the nanoseconds of a valid deadline.
pub bglpth_mutex_timeout_ftime_lem :
    (time millitm ms : ℕ)
    → (nanoseconds (bglpth_mutex_timeout_ftime time millitm ms)
        ≡ time * 1000000000 + (millitm + ms) * 1000000)
      × ((bglpth_mutex_timeout_ftime time millitm ms).tv_nsec < 1000000000)
unfolding bglpth_mutex_timeout_ftime
bglpth_mutex_timeout_ftime_lem time millitm ms = (omega arith, omega arith)

-- What an attempt leaves to do.
poll_stop :
    (busy : ℕ → Bool) (i ms : ℕ) → (busy i && ltb 0 ms) ≡ false → (busy i ≡ false) ⊎ (ms ≤ 0)
poll_stop busy i ms h = elim (Bool-cases (busy i)) [ inl e ↦ inr (ground arith) | inr e ↦ inl e ]

plus_zero : (i : ℕ) → i + 0 ≡ i
plus_zero i = omega arith

poll_over : (busy : ℕ → Bool) (i ms : ℕ) → ms ≤ 0 → (busy i && ltb 0 ms) ≡ false
poll_over busy i ms h = ground arith

poll_first :
    (busy : ℕ → Bool) (n i ms : ℕ)
    → (busy i && ltb 0 ms) ≡ false
    → poll (suc n) busy i ms ≡ some (busy (i + 0))
unfolding poll
poll_first busy n i ms e = rw e (ap (λ j. some (busy j)) (sym (plus_zero i)))

-- The loop that polls returns within an attempt for each tenth of a second begun and one more: it
-- answers for the attempt `k` at which it stops, which finds the mutex free or the time used up.
pub poll_ends :
    (busy : ℕ → Bool) (n i ms : ℕ)
    → ms ≤ n * 100
    → (k : ℕ) × (k ≤ n)
      × (poll (suc n) busy i ms ≡ some (busy (i + k)))
      × ((busy (i + k) ≡ false) ⊎ (ms ≤ k * 100))
unfolding poll
poll_ends busy zero i ms h =
    (0, omega arith, poll_first busy zero i ms (poll_over busy i ms (omega arith)), inr h)
poll_ends busy (suc n) i ms h = elim (Bool-cases (busy i && ltb 0 ms)) [
  | inr e ↦
      (0, omega arith, poll_first busy (suc n) i ms e, rw (plus_zero i) (poll_stop busy i ms e))
  | inl e ↦
      let (k, le, run, last) = poll_ends busy n (suc i) (ms - 100) (omega arith) in
      let z : suc i + k ≡ i + suc k = omega arith in
      (
        suc k,
        omega arith,
        rw e (run ∙ ap (λ j. some (busy j)) z),
        elim last [ inl p ↦ inl (ap busy (sym z) ∙ p) | inr p ↦ inr (omega arith) ],
      )
]
