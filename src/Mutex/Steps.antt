-- ===== src/Mutex/Steps.antt =====
-- Runs of threads that lock, unlock, wait and end, on a store of mutexes that starts with all of
-- them free. A step is a call that returns, and any call may be refused; a call that fails because
-- the mutex is illegally locked leaves the store as it is. The timed lockings are those of
-- pthread_mutex_timedlock. The conditions on the runs are these: a thread that has ended makes no
-- call; the thread that a wait saves and puts back has not ended (pthread wants a mutex that the
-- thread that waits has locked); pthread refuses no unlocking of an abandoned mutex.
use bigloo.Prelude.{ℕ, Bool, true, false, Option, none, some, ◌≡◌, ◌⊎◌}
use bigloo.Mutex.{
  Store, update, srfi18_mutex_lock, srfi18_mutex_unlock, srfi18_mutexes_abandon, condvar_release,
  condvar_reacquire,
}
use bigloo.Mutex.Timeout.{Timespec, srfi18_mutex_timed_lock}

pub record World : Type 0 where
  pub store : Store
  pub ended : ℕ → Bool

-- A thread that has not ended, or none of SRFI 18.
abbrev pub Live : (ℕ → Bool) → Option ℕ → Type 0
Live ended none = Unit
Live ended (some t) = ended t ≡ false

pub data Step (a : World) : World → Type 0 where
  lock :
      (self : Option ℕ) (m : ℕ) (s' : Store)
      → Live a.ended self
      → srfi18_mutex_lock false self m a.store ≡ some (false, s')
      → Step a (record a { store = s' })
  lock_refused :
      (self : Option ℕ) (m : ℕ) (s' : Store)
      → srfi18_mutex_lock true self m a.store ≡ some (true, s')
      → Step a (record a { store = s' })
  timed_lock :
      (timedlock : Timespec → Bool) (tv_sec tv_usec : ℕ) (self : Option ℕ) (m ms : ℕ) (s' : Store)
      → Live a.ended self
      → srfi18_mutex_timed_lock timedlock tv_sec tv_usec self m ms a.store ≡ some (false, s')
      → Step a (record a { store = s' })
  timed_lock_refused :
      (timedlock : Timespec → Bool) (tv_sec tv_usec : ℕ) (self : Option ℕ) (m ms : ℕ) (s' : Store)
      → srfi18_mutex_timed_lock timedlock tv_sec tv_usec self m ms a.store ≡ some (true, s')
      → Step a (record a { store = s' })
  unlock :
      (m : ℕ) (s' : Store)
      → srfi18_mutex_unlock false m a.store ≡ some (false, s')
      → Step a (record a { store = s' })
  unlock_refused :
      (m : ℕ) (s' : Store)
      → ((a.store.mutex m).locked ≡ true) ⊎ ((a.store.mutex m).thread ≡ none)
      → srfi18_mutex_unlock true m a.store ≡ some (true, s')
      → Step a (record a { store = s' })
  wait :
      (thread : Option ℕ) (m : ℕ) (s' : Store)
      → condvar_release m a.store ≡ (thread, s')
      → Step a (record a { store = s' })
  wake :
      (thread : Option ℕ) (m : ℕ) (s' : Store)
      → Live a.ended thread
      → condvar_reacquire m thread a.store ≡ some s'
      → Step a (record a { store = s' })
  finish :
      (t fuel : ℕ) (s' : Store)
      → srfi18_mutexes_abandon fuel t a.store ≡ some s'
      → Step a (record { store = s'; ended = update a.ended t true })

abbrev pub start : World
start = record {
  store = record {
    mutex = λ m. record { thread = none; locked = false; prev = none; next = none };
    mutexes = λ t. none;
  };
  ended = λ t. false;
}

pub data Reach : World → Type 0 where
  begin : Reach start
  step : {a b : World} → Reach a → Step a b → Reach b
