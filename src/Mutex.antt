-- ===== src/Mutex.antt =====
-- api/srfi18/src/Posix/cmutex.c and ccondvar.c: the mutexes of SRFI 18 over those of pthread. A
-- thread keeps a list of the mutexes that it has locked, linked through the mutexes in both
-- directions, so that they can be released when it ends. Mutexes and threads are numbers for their
-- addresses, and `none` is the null pointer.
pub mod Links
pub mod Lists
pub mod Focus
pub mod Owned
pub mod Invariant
pub mod Release
pub mod Register
pub mod Laws
pub mod Abandon
pub mod Condvar
pub mod Foreign
pub mod Failed
pub mod Steps
pub mod Reachable
pub mod Ended
pub mod Runs
pub mod Timeout
pub mod Deadline
pub mod Polling
mod Tests
use bigloo.Prelude.{
  ℕ, zero, suc, ◌==◌, Bool, true, false, Option, none, some, List, [], ◌∷◌, if◌then◌else◌,
}

-- `struct srfi18mutex`
pub record Mutex : Type 0 where
  pub thread : Option ℕ
  pub locked : Bool
  pub prev : Option ℕ
  pub next : Option ℕ

-- The mutexes, and the field `mutexes` of each thread.
pub record Store : Type 0 where
  pub mutex : ℕ → Mutex
  pub mutexes : ℕ → Option ℕ

abbrev pub update : {A : Type 0} → (ℕ → A) → ℕ → A → ℕ → A
update f k v j = if j == k then v else f j

abbrev pub same : Option ℕ → Option ℕ → Bool
same none none = true
same none (some b) = false
same (some a) none = false
same (some a) (some b) = a == b

-- Writes through a pointer to a mutex.
abbrev pub set_prev : ℕ → Option ℕ → (ℕ → Mutex) → ℕ → Mutex
set_prev m v f = update f m (record (f m) { prev = v })

abbrev pub set_next : ℕ → Option ℕ → (ℕ → Mutex) → ℕ → Mutex
set_next m v f = update f m (record (f m) { next = v })

abbrev pub set_thread : ℕ → Option ℕ → (ℕ → Mutex) → ℕ → Mutex
set_thread m v f = update f m (record (f m) { thread = v })

abbrev pub set_locked : ℕ → Bool → (ℕ → Mutex) → ℕ → Mutex
set_locked m v f = update f m (record (f m) { locked = v })

unfoldable pub register_mutex : ℕ → ℕ → Store → Store
register_mutex m thread s =
    let linked : ℕ → Mutex = elim (s.mutexes thread) [
      | some h ↦ set_prev h (some m) (set_next m (some h) s.mutex)
      | none ↦ s.mutex
    ] in
    record { mutex = linked; mutexes = update s.mutexes thread (some m) }

-- The two writes where there is a mutex before `m` in its list, and what is done where there is
-- none.
unfoldable pub unlink_prev : ℕ → Option ℕ → Option ℕ → Store → Store
unlink_prev m (some p) next s = record s { mutex = set_next p next (set_prev m none s.mutex) }
unlink_prev m none next s = elim ((s.mutex m).thread) [
  | some t ↦ record s { mutexes = update s.mutexes t next }
  | none ↦ s
]

unfoldable pub unlink_next : ℕ → Option ℕ → Option ℕ → Store → Store
unlink_next m prev (some n) s = record s { mutex = set_prev n prev (set_next m none s.mutex) }
unlink_next m prev none s = s

unfoldable pub unregister_mutex : ℕ → Store → Store
unfolding unlink_prev unlink_next
unregister_mutex m s =
    let prev = (s.mutex m).prev in
    let next = (s.mutex m).next in
    let s' = unlink_next m prev next (unlink_prev m prev next s) in
    record s' { mutex = set_thread m none s'.mutex }

unfoldable pub srfi18_mutex_mark_unlocked : ℕ → Store → Store
unfolding unregister_mutex
srfi18_mutex_mark_unlocked m s = unregister_mutex m s

-- none is the failure `mutex illegally locked`.
unfoldable pub srfi18_mutex_mark_locked : ℕ → Option ℕ → Store → Option Store
unfolding register_mutex
srfi18_mutex_mark_locked mut thread s =
    let same_thread = same ((s.mutex mut).thread) thread in
    let s' : Store = record s { mutex = set_thread mut thread s.mutex } in
    if (s.mutex mut).locked
    then (if same_thread then some s else none)
    else if same_thread
    then some s
    else elim thread [ some t ↦ some (register_mutex mut t s') | none ↦ some s' ]

-- What `srfi18_mutex_state` answers; an owner stands for its Scheme thread.
pub data State : Type 0 where
  owned : ℕ → State
  not_owned abandoned not_abandoned : State

unfoldable pub srfi18_mutex_state : ℕ → Store → State
srfi18_mutex_state m s =
    if (s.mutex m).locked
    then elim ((s.mutex m).thread) [ some t ↦ owned t | none ↦ not_owned ]
    else elim ((s.mutex m).thread) [ some t ↦ abandoned | none ↦ not_abandoned ]

unfoldable pub srfi18_mutex_unlock_sans_thread : ℕ → Store → Store
unfolding srfi18_mutex_mark_unlocked
srfi18_mutex_unlock_sans_thread m s =
    let thread = (s.mutex m).thread in
    let s' = srfi18_mutex_mark_unlocked m s in
    record s' { mutex = set_thread m thread (set_locked m false s'.mutex) }

-- `while(w)`: none is fuel that does not suffice.
unfoldable pub abandon_loop : ℕ → Option ℕ → Store → Option Store
unfolding srfi18_mutex_unlock_sans_thread
abandon_loop fuel none s = some s
abandon_loop zero (some w) s = none
abandon_loop (suc fuel) (some w) s =
    abandon_loop fuel ((s.mutex w).next) (srfi18_mutex_unlock_sans_thread w s)

unfoldable pub srfi18_mutexes_abandon : ℕ → ℕ → Store → Option Store
unfolding abandon_loop
srfi18_mutexes_abandon fuel thread s = abandon_loop fuel (s.mutexes thread) s

-- `failed` is whether pthread_mutex_lock answers an error, and `self` the current thread. The
-- result is true for 1.
unfoldable pub srfi18_mutex_lock : Bool → Option ℕ → ℕ → Store → Option (Bool × Store)
unfolding srfi18_mutex_mark_locked
srfi18_mutex_lock failed self m s =
    if failed then some (true, s) else elim (srfi18_mutex_mark_locked m self s) [
      | some s' ↦ some (false, record s' { mutex = set_locked m true s'.mutex })
      | none ↦ none
    ]

-- `failed` is whether pthread_mutex_unlock answers an error.
unfoldable pub srfi18_mutex_unlock : Bool → ℕ → Store → Option (Bool × Store)
unfolding srfi18_mutex_mark_unlocked srfi18_mutex_mark_locked
srfi18_mutex_unlock failed m s =
    let thread = (s.mutex m).thread in
    let s₁ = srfi18_mutex_mark_unlocked m s in
    let s₂ : Store = record s₁ { mutex = set_locked m false s₁.mutex } in
    if failed
    then elim (srfi18_mutex_mark_locked m thread s₂) [
      | some s₃ ↦ some (true, record s₃ { mutex = set_locked m true s₃.mutex })
      | none ↦ none
    ]
    else some (false, s₂)

-- `srfi18_condvar_wait` up to pthread_cond_wait, with the saved `thread`, and after it.
unfoldable pub condvar_release : ℕ → Store → Option ℕ × Store
unfolding srfi18_mutex_mark_unlocked
condvar_release m s = (
  (s.mutex m).thread,
  srfi18_mutex_mark_unlocked m (record s { mutex = set_locked m false s.mutex }),
)

unfoldable pub condvar_reacquire : ℕ → Option ℕ → Store → Option Store
unfolding srfi18_mutex_mark_locked
condvar_reacquire m thread s = elim (srfi18_mutex_mark_locked m thread s) [
  | some s' ↦ some (record s' { mutex = set_locked m true s'.mutex })
  | none ↦ none
]
