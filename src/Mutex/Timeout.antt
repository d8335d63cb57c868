-- ===== src/Mutex/Timeout.antt =====
-- The timed operations: srfi18_mutex_timed_lock of api/srfi18/src/Posix/cmutex.c,
-- srfi18_condvar_timed_wait of api/srfi18/src/Posix/ccondvar.c, and their counterparts of
-- api/pthread/src/Posix/bglpmutex.c. Milliseconds are not negative.
use bigloo.Prelude.{
  ℕ, zero, suc, ◌+◌, ◌-◌, ◌*◌, ◌/◌, ◌%◌, Bool, true, false, ◌&&◌, ltb, Option, none, some,
  if◌then◌else◌, ◌>>=◌,
}
use bigloo.Mutex.{Store, set_locked, srfi18_mutex_mark_locked}

-- `struct timespec`
pub record Timespec : Type 0 where
  pub tv_sec : ℕ
  pub tv_nsec : ℕ

-- The time of day and the milliseconds give the deadline.
unfoldable pub srfi18_mutex_timeout : ℕ → ℕ → ℕ → Timespec
srfi18_mutex_timeout tv_sec tv_usec ms = record {
  tv_sec = tv_sec + ms / 1000;
  tv_nsec = tv_usec * 1000 + ms % 1000 * 100000;
}

unfoldable pub srfi18_condvar_timeout : ℕ → ℕ → ℕ → Timespec
srfi18_condvar_timeout tv_sec tv_usec ms = record {
  tv_sec = tv_sec + ms / 1000;
  tv_nsec = tv_usec * 1000 + ms % 1000 * 1000000;
}

unfoldable pub bglpth_mutex_timeout : Timespec → ℕ → Timespec
bglpth_mutex_timeout now ms = record {
  tv_sec = now.tv_sec + ms / 1000;
  tv_nsec = now.tv_nsec + ms % 1000 * 1000000;
}

-- The branch of the Windows compilers, from the seconds and the milliseconds of `ftime`.
unfoldable pub bglpth_mutex_timeout_ftime : ℕ → ℕ → ℕ → Timespec
bglpth_mutex_timeout_ftime time millitm ms =
    let usec = (millitm + ms) * 1000 in
    record { tv_sec = time + usec / 1000000; tv_nsec = usec % 1000000 * 1000 }

-- `timedlock` is whether pthread_mutex_timedlock answers an error at a deadline. The result is true
-- for 1.
unfoldable pub srfi18_mutex_timed_lock :
    (Timespec → Bool) → ℕ → ℕ → Option ℕ → ℕ → ℕ → Store → Option (Bool × Store)
unfolding srfi18_mutex_mark_locked srfi18_mutex_timeout
srfi18_mutex_timed_lock timedlock tv_sec tv_usec self m ms s =
    if timedlock (srfi18_mutex_timeout tv_sec tv_usec ms)
    then some (true, s)
    else elim (srfi18_mutex_mark_locked m self s) [
      | some s' ↦ some (false, record s' { mutex = set_locked m true s'.mutex })
      | none ↦ none
    ]

-- The loop where there is no pthread_mutex_timedlock. `busy i` is whether the attempt `i` answers
-- EBUSY; none is fuel that does not suffice.
unfoldable pub poll : ℕ → (ℕ → Bool) → ℕ → ℕ → Option Bool
poll zero busy i ms = none
poll (suc fuel) busy i ms =
    let rest = poll fuel busy (suc i) (ms - 100) in
    if busy i && ltb 0 ms then rest else some (busy i)

unfoldable pub srfi18_mutex_timed_lock_polling :
    ℕ → (ℕ → Bool) → Option ℕ → ℕ → ℕ → Store → Option (Bool × Store)
unfolding poll srfi18_mutex_mark_locked
srfi18_mutex_timed_lock_polling fuel busy self m ms s = poll fuel busy 0 ms >>= λ res.
    if res
    then some (res, s)
    else elim (srfi18_mutex_mark_locked m self s) [ some s' ↦ some (res, s') | none ↦ none ]
