-- ===== src/Mutex/Polling.antt =====
-- The timed locking where there is no pthread_mutex_timedlock, compared with the locking.
use bigloo.Prelude.{ℕ, Bool, false, some, List, ◌≡◌, refl, ap, ◌∙◌}
use bigloo.Mutex.{Store, State, update, same, set_thread, srfi18_mutex_state}
use bigloo.Mutex.Links.{head}
use bigloo.Mutex.Invariant.{WellFormed, update_hit}
use bigloo.Mutex.Register.{tied, tied-locked, tied-thread}
use bigloo.Mutex.Laws.{mark_locked_lem}
use bigloo.Mutex.Timeout.{poll, srfi18_mutex_timed_lock_polling}

-- Where an attempt finds the mutex free, the loop answers that it is taken, and the mutex enters
-- the list of the thread, but it answers `abandoned`: the flag `locked` is not set.
pub srfi18_mutex_timed_lock_polling-state :
    (fuel : ℕ) (busy : ℕ → Bool) (t m ms : ℕ) (s : Store) (l : ℕ → List ℕ)
    → WellFormed s l
    → (s.mutex m).locked ≡ false
    → same (s.mutex m).thread (some t) ≡ false
    → poll fuel busy 0 ms ≡ some false
    → (s' : Store) × (srfi18_mutex_timed_lock_polling fuel busy (some t) m ms s ≡ some (false, s'))
      × (s'.mutexes t ≡ some m)
      × (srfi18_mutex_state m s' ≡ State.abandoned)
unfolding srfi18_mutex_timed_lock_polling srfi18_mutex_state
srfi18_mutex_timed_lock_polling-state fuel busy t m ms s l w u n e =
    let f₀ = set_thread m (some t) s.mutex in
    let hit = update_hit s.mutex m (record (s.mutex m) { thread = some t }) in
    let o = head (l t) in
    (
      record { mutex = tied m o f₀; mutexes = update s.mutexes t (some m) },
      rw (e, mark_locked_lem s l t m w u n) refl,
      update_hit s.mutexes t (some m),
      rw
          (
            tied-locked m f₀ o m ∙ ap (λ x. x.locked) hit ∙ u,
            tied-thread m f₀ o m ∙ ap (λ x. x.thread) hit,
          )
          refl,
    )
