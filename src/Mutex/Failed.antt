-- ===== src/Mutex/Failed.antt =====
-- An unlocking that pthread refuses.
use bigloo.Prelude.{
  ℕ, Bool, Bool-cases, Option-cases, inl, inr, arith, true, false, Option, none, some, List, [],
  ◌∷◌, ◌≡◌, refl, ap, ap₂, ◌∙◌,
}
use mathlib.Core.Path.{subst}
use bigloo.Mutex.Abandon.{update_twice}
use bigloo.Mutex.{
  Store, State, update, set_locked, srfi18_mutex_mark_locked, srfi18_mutex_lock,
  srfi18_mutex_unlock, srfi18_mutex_state,
}
use bigloo.Mutex.Focus.{In, remove}
use bigloo.Mutex.Invariant.{Free, WellFormed, Others, Others-trans, update_hit, In-thread}
use bigloo.Mutex.Links.{head}
use bigloo.Mutex.Foreign.{
  srfi18_mutex_lock-none, srfi18_mutex_unlock-none, srfi18_mutex_unlock_abandoned,
}
use bigloo.Mutex.Laws.{srfi18_mutex_lock_lem, srfi18_mutex_unlock_lem}

-- What a mutex that answers `not-abandoned` holds.
pub state_inv :
    (s : Store) (m : ℕ)
    → srfi18_mutex_state m s ≡ State.not_abandoned
    → ((s.mutex m).locked ≡ false) × ((s.mutex m).thread ≡ none)
unfolding srfi18_mutex_state
state_inv s m e = elim (Bool-cases (s.mutex m).locked) [
  | inl h ↦ elim (Option-cases (s.mutex m).thread) [
    | inl k ↦ absurd (ground (arith, h, k, e))
    | inr (t, k) ↦ absurd (ground (arith, h, k, e))
  ]
  | inr h ↦ elim (Option-cases (s.mutex m).thread) [
    | inl k ↦ (h, k)
    | inr (t, k) ↦ absurd (ground (arith, h, k, e))
  ]
]

abbrev locks : Bool → ℕ → Option Store → Option (Bool × Store)
locks b m o = elim o [
  | some s' ↦ some (b, record s' { mutex = set_locked m true s'.mutex })
  | none ↦ none
]

-- What the two calls have in common: the locking after an unlocking whose result is given.
abbrev relock : ℕ → Option (Bool × Store) → Option ℕ → Option (Bool × Store)
relock m none o = none
relock m (some (b, s)) o = locks true m (srfi18_mutex_mark_locked m o s)

abbrev failing : Option (Bool × Store) → Option (Bool × Store)
failing none = none
failing (some (b, s)) = some (true, s)

locks-failing : (m : ℕ) (o : Option Store) → locks true m o ≡ failing (locks false m o)
locks-failing m none = refl
locks-failing m (some s) = refl

relock-lock :
    (s : Store) (o : Option ℕ) (m : ℕ)
    → relock m (some (false, s)) o ≡ failing (srfi18_mutex_lock false o m s)
unfolding srfi18_mutex_lock
relock-lock s o m = locks-failing m (srfi18_mutex_mark_locked m o s)

unlock-relock :
    (s : Store) (m : ℕ)
    → srfi18_mutex_unlock true m s ≡ relock m (srfi18_mutex_unlock false m s) (s.mutex m).thread
unfolding srfi18_mutex_unlock
unlock-relock s m = refl

-- A failed unlocking puts the mutex, still owned by its thread, first in the thread's list; the
-- others of the list keep their order, and all other mutexes their flag and their thread.
pub srfi18_mutex_unlock-failed :
    (s : Store) (l : ℕ → List ℕ) (t m : ℕ)
    → WellFormed s l
    → In m (l t)
    → (s' : Store) × (srfi18_mutex_unlock true m s ≡ some (true, s'))
      × WellFormed s' (update l t (m ∷ remove m (l t)))
      × (srfi18_mutex_state m s' ≡ State.owned t)
      × Others m s s'
srfi18_mutex_unlock-failed s l t m w i =
    let (s₁, e, w₁, f, o₁) = srfi18_mutex_unlock_lem s l t m w i in
    let (u, n) = state_inv s₁ m f in
    let l₁ = update l t (remove m (l t)) in
    let (s₂, e₂, w₂, own, o₂) = srfi18_mutex_lock_lem s₁ l₁ t m w₁ u (rw n refl) in
    (
      s₂,
      unlock-relock s m
          ∙ ap₂ (relock m) e (In-thread s l t m w i)
          ∙ relock-lock s₁ (some t) m
          ∙ ap failing e₂,
      subst (WellFormed s₂)
          (ap (λ xs. update l₁ t (m ∷ xs)) (update_hit l t (remove m (l t)))
            ∙ update_twice l t (remove m (l t)) (m ∷ remove m (l t)))
          w₂,
      own,
      Others-trans m s s₁ s₂ o₁ o₂,
    )

-- A failed unlocking of a mutex of no thread leaves it locked by none.
pub srfi18_mutex_unlock-failed_none :
    (s : Store) (l : ℕ → List ℕ) (m : ℕ)
    → WellFormed s l
    → Free (s.mutex m)
    → (s.mutex m).thread ≡ none
    → (s' : Store) × (srfi18_mutex_unlock true m s ≡ some (true, s'))
      × WellFormed s' l
      × (srfi18_mutex_state m s' ≡ State.not_owned)
      × Others m s s'
srfi18_mutex_unlock-failed_none s l m w h k =
    let (s₁, e, w₁, f, o₁) = srfi18_mutex_unlock-none s l m w h k in
    let (s₂, e₂, w₂, own, o₂) = srfi18_mutex_lock-none s₁ l m w₁ (state_inv s₁ m f).0 in
    (
      s₂,
      unlock-relock s m ∙ ap₂ (relock m) e k ∙ relock-lock s₁ none m ∙ ap failing e₂,
      w₂,
      own,
      Others-trans m s s₁ s₂ o₁ o₂,
    )

-- A failed unlocking of a mutex that a thread has abandoned gives it back to that thread, locked and
-- in its list.
pub srfi18_mutex_unlock-failed_abandoned :
    (s : Store) (l : ℕ → List ℕ) (t m : ℕ)
    → WellFormed s l
    → Free (s.mutex m)
    → (s.mutex m).thread ≡ some t
    → l t ≡ []
    → (s' : Store) × (srfi18_mutex_unlock true m s ≡ some (true, s'))
      × (srfi18_mutex_state m s' ≡ State.owned t)
      × (s'.mutexes t ≡ some m)
srfi18_mutex_unlock-failed_abandoned s l t m w h k z =
    let (s₁, e, w₁, f, o₁) = srfi18_mutex_unlock_abandoned s l t m w h k z in
    let (u, n) = state_inv s₁ m f in
    let (s₂, e₂, w₂, own, o₂) = srfi18_mutex_lock_lem s₁ l t m w₁ u (rw n refl) in
    (
      s₂,
      unlock-relock s m ∙ ap₂ (relock m) e k ∙ relock-lock s₁ (some t) m ∙ ap failing e₂,
      own,
      w₂.first t ∙ ap head (update_hit l t (m ∷ l t)),
    )
