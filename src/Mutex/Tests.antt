-- ===== src/Mutex/Tests.antt =====
-- Two mutexes and two threads, from the store of which nothing is locked.
use bigloo.Prelude.{ℕ, Bool, true, false, none, some, List, [], ◌∷◌, ◌≡◌, ◌⊎◌, inl, inr, refl, ltb}
use bigloo.Mutex.{
  register_mutex, srfi18_mutex_mark_locked, Store, State, update, same, srfi18_mutex_state,
  srfi18_mutex_lock, srfi18_mutex_unlock, srfi18_mutexes_abandon,
}
use bigloo.Mutex.Invariant.{WellFormed, Others}
use bigloo.Mutex.Register.{registered, registered-WellFormed}
use bigloo.Mutex.Laws.{srfi18_mutex_unlock_lem}
use bigloo.Mutex.Failed.{srfi18_mutex_unlock-failed}
use bigloo.Mutex.Abandon.{All, srfi18_mutexes_abandon_lem}
use bigloo.Mutex.Steps.{World, Step, Reach, start}
use bigloo.Mutex.Runs.{start-Sound, Reach-ended, Reach-refused}
use bigloo.Mutex.Timeout.{poll, srfi18_mutex_timed_lock_polling}
use bigloo.Mutex.Polling.{srfi18_mutex_timed_lock_polling-state}

-- The thread 1 has the mutex 5, and then 6 as well.
abbrev held : ℕ → List ℕ
held = λ t. []

abbrev one_held : Store
one_held = registered start.store held start-Sound.wf 1 5 (refl, refl, inl refl)

one_held-WellFormed : WellFormed one_held (update held 1 (5 ∷ []))
one_held-WellFormed =
    registered-WellFormed start.store held start-Sound.wf 1 5 (refl, refl, inl refl)

abbrev two_held : Store
two_held =
    registered one_held (update held 1 (5 ∷ [])) one_held-WellFormed 1 6 (refl, refl, inl refl)

abbrev both : ℕ → List ℕ
both = update (update held 1 (5 ∷ [])) 1 (6 ∷ 5 ∷ [])

two_held-WellFormed : WellFormed two_held both
two_held-WellFormed =
    registered-WellFormed one_held (update held 1 (5 ∷ [])) one_held-WellFormed 1 6
      (refl, refl, inl refl)

srfi18_mutex_unlock_lem_example :
    (s' : Store) × (srfi18_mutex_unlock false 5 two_held ≡ some (false, s'))
    × WellFormed s' (update both 1 (6 ∷ []))
    × (srfi18_mutex_state 5 s' ≡ State.not_abandoned)
    × Others 5 two_held s'
srfi18_mutex_unlock_lem_example =
    srfi18_mutex_unlock_lem two_held both 1 5 two_held-WellFormed (inr (inl refl))

srfi18_mutex_unlock-failed_example :
    (s' : Store) × (srfi18_mutex_unlock true 5 two_held ≡ some (true, s'))
    × WellFormed s' (update both 1 (5 ∷ 6 ∷ []))
    × (srfi18_mutex_state 5 s' ≡ State.owned 1)
    × Others 5 two_held s'
srfi18_mutex_unlock-failed_example =
    srfi18_mutex_unlock-failed two_held both 1 5 two_held-WellFormed (inr (inl refl))

srfi18_mutexes_abandon_lem_example :
    (s' : Store) × (srfi18_mutexes_abandon 2 1 two_held ≡ some s')
    × WellFormed s' (update both 1 [])
    × (s'.mutexes 1 ≡ none)
    × All (λ m. srfi18_mutex_state m s' ≡ State.abandoned) (6 ∷ 5 ∷ [])
srfi18_mutexes_abandon_lem_example = srfi18_mutexes_abandon_lem two_held both 1 two_held-WellFormed

-- The thread 1 takes the mutex 5 and ends.
lock_one : srfi18_mutex_lock false (some 1) 5 start.store ≡ some (false, one_held)
unfolding srfi18_mutex_lock srfi18_mutex_mark_locked register_mutex
lock_one = refl

abbrev ended_run :
    (s' : Store) × (srfi18_mutexes_abandon 1 1 one_held ≡ some s')
    × WellFormed s' (update (update held 1 (5 ∷ [])) 1 [])
    × (s'.mutexes 1 ≡ none)
    × All (λ m. srfi18_mutex_state m s' ≡ State.abandoned) (5 ∷ [])
ended_run = srfi18_mutexes_abandon_lem one_held (update held 1 (5 ∷ [])) 1 one_held-WellFormed

abbrev ended_world : World
ended_world = record { store = ended_run.0; ended = update (λ t. false) 1 true }

ended_world-Reach : Reach ended_world
ended_world-Reach =
    Reach.step (Reach.step Reach.begin (Step.lock (some 1) 5 one_held refl lock_one))
      (Step.finish 1 1 ended_run.0 ended_run.1)

Reach-ended_example :
    (ended_world.store.mutexes 1 ≡ none)
    × (((ended_world.store.mutex 5).locked ≡ false)
        ⊎ (same (ended_world.store.mutex 5).thread (some 1) ≡ false))
Reach-ended_example = Reach-ended ended_world 1 5 ended_world-Reach refl

Reach-refused_example :
    (t : ℕ) × (ended_world.ended t ≡ true)
    × (s' : Store) × (srfi18_mutex_unlock true 5 ended_world.store ≡ some (true, s'))
    × (srfi18_mutex_state 5 s' ≡ State.owned t)
    × (s'.mutexes t ≡ some 5)
Reach-refused_example = Reach-refused ended_world 5 ended_world-Reach ended_run.4.0

-- Free at the third attempt.
abbrev third_free : ℕ → Bool
third_free i = ltb i 2

abbrev found_at_once : ℕ → Bool
found_at_once = λ i. false

found : poll 1 found_at_once 0 250 ≡ some false
unfolding poll
found = refl

srfi18_mutex_timed_lock_polling-state_example :
    (s' : Store) × (srfi18_mutex_timed_lock_polling 1 found_at_once (some 1) 6 250 one_held
      ≡ some (false, s'))
    × (s'.mutexes 1 ≡ some 6)
    × (srfi18_mutex_state 6 s' ≡ State.abandoned)
srfi18_mutex_timed_lock_polling-state_example =
    srfi18_mutex_timed_lock_polling-state 1 found_at_once 1 6 250 one_held (update held 1 (5 ∷ []))
      one_held-WellFormed refl refl found
