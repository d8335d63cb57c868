-- ===== src/Mutex/Laws.antt =====
-- Locking and unlocking on a well-formed store.
use bigloo.Prelude.{
  ℕ, Bool, false, Option, none, some, List, ◌∷◌, ◌≡◌, inl, inr, refl, arith, ap, ◌∙◌,
}
use bigloo.Mutex.{
  Mutex, Store, State, update, set_thread, set_locked, same, register_mutex,
  srfi18_mutex_mark_locked, srfi18_mutex_mark_unlocked, srfi18_mutex_lock, srfi18_mutex_unlock,
  srfi18_mutex_state,
}
use bigloo.Mutex.Links.{head, Apart-NotIn}
use bigloo.Mutex.Lists.{unlinked, ==_refl}
use bigloo.Mutex.Focus.{In, remove, Gap, In-Gap}
use bigloo.Mutex.Owned.{unregister_mutex_lem, unlinked_self}
use bigloo.Mutex.Invariant.{Free, WellFormed, Others, In-thread, update_hit}
use bigloo.Mutex.Release.{released, released-WellFormed, released-Others}
use bigloo.Mutex.Register.{
  tied, register_mutex_lem, registered, registered-WellFormed, registered-Others,
}

-- A mutex that is not locked is in no list.
pub unlocked-Free :
    (s : Store) (l : ℕ → List ℕ) (m : ℕ)
    → WellFormed s l
    → (s.mutex m).locked ≡ false
    → Free (s.mutex m)
unlocked-Free s l m w u = elim (w.status m) [
  | inl h ↦ h
  | inr (t, i) ↦ let k = w.members t m i in absurd (ground arith)
]

pub mark_locked_lem :
    (s : Store) (l : ℕ → List ℕ) (t m : ℕ)
    → WellFormed s l
    → (s.mutex m).locked ≡ false
    → same (s.mutex m).thread (some t) ≡ false
    → srfi18_mutex_mark_locked m (some t) s
      ≡ some record {
        mutex = tied m (head (l t)) (set_thread m (some t) s.mutex);
        mutexes = update s.mutexes t (some m);
      }
unfolding srfi18_mutex_mark_locked
mark_locked_lem s l t m w u n =
    let registers : srfi18_mutex_mark_locked m (some t) s
        ≡ some (register_mutex m t (record s { mutex = set_thread m (some t) s.mutex })) =
      rw (u, n) refl in
    registers
    ∙ ap some (
        register_mutex_lem (record s { mutex = set_thread m (some t) s.mutex }) t m (head (l t))
          (w.first t))

-- A mutex of the list of a thread answers that thread.
pub In-state :
    (s : Store) (l : ℕ → List ℕ) (t m : ℕ)
    → WellFormed s l
    → In m (l t)
    → srfi18_mutex_state m s ≡ State.owned t
unfolding srfi18_mutex_state
In-state s l t m w i = rw (w.members t m i, In-thread s l t m w i) refl

pub state_free :
    (s : Store) (m : ℕ)
    → (s.mutex m).locked ≡ false
    → (s.mutex m).thread ≡ none
    → srfi18_mutex_state m s ≡ State.not_abandoned
unfolding srfi18_mutex_state
state_free s m h k = rw (h, k) refl

-- A mutex that nobody has locked, taken by a thread that did not abandon it, becomes the first of
-- the thread's list; the lists of the others stay, the mutex answers its owner, and the other
-- mutexes keep their flag and their thread.
pub srfi18_mutex_lock_lem :
    (s : Store) (l : ℕ → List ℕ) (t m : ℕ)
    → WellFormed s l
    → (s.mutex m).locked ≡ false
    → same (s.mutex m).thread (some t) ≡ false
    → (s' : Store) × (srfi18_mutex_lock false (some t) m s ≡ some (false, s'))
      × WellFormed s' (update l t (m ∷ l t))
      × (srfi18_mutex_state m s' ≡ State.owned t)
      × Others m s s'
unfolding srfi18_mutex_lock
srfi18_mutex_lock_lem s l t m w u n =
    let h = unlocked-Free s l m w u in
    let w' = registered-WellFormed s l w t m h in
    (
      registered s l w t m h,
      rw (mark_locked_lem s l t m w u n) refl,
      w',
      In-state (registered s l w t m h) (update l t (m ∷ l t)) t m w' (rw (==_refl t) (inl refl)),
      registered-Others s l w t m h,
    )

-- The mutex as `unregister_mutex` leaves it, with the fields of `v` but for the links.
pub unregistered_self :
    (s : Store) (t m : ℕ) (l : List ℕ) (g : Gap s.mutex t m l)
    → let x = unlinked m (head g.before) (head g.behind) s.mutex m in
      (x.prev ≡ none) × (x.next ≡ none) × (x.thread ≡ none)
unregistered_self s t m l g =
    let z = g.zip in
    let (p, n) =
      unlinked_self m s.mutex g.before g.behind (Apart-NotIn m g.before g.behind z.apart).0
        z.behind.0 z.right.1 z.right.2 in
    (p, n, ground arith)

-- A mutex that a thread has locked leaves the list of the thread; the lists of the others stay, the
-- mutex answers `not-abandoned`, and the other mutexes keep their flag and their thread.
pub srfi18_mutex_unlock_lem :
    (s : Store) (l : ℕ → List ℕ) (t m : ℕ)
    → WellFormed s l
    → In m (l t)
    → (s' : Store) × (srfi18_mutex_unlock false m s ≡ some (false, s'))
      × WellFormed s' (update l t (remove m (l t)))
      × (srfi18_mutex_state m s' ≡ State.not_abandoned)
      × Others m s s'
unfolding srfi18_mutex_unlock srfi18_mutex_mark_unlocked
srfi18_mutex_unlock_lem s l t m w i =
    let g = In-Gap (l t) i (w.list t) in
    let (p, n, k) = unregistered_self s t m (l t) g in
    let f₁ = unlinked m (head g.before) (head g.behind) s.mutex in
    let v : Mutex = record (f₁ m) { locked = false } in
    let h : Free v = (p, n, inl refl) in
    let ends : Store → Option (Bool × Store) =
      λ s₁. some (false, record s₁ { mutex = set_locked m false s₁.mutex }) in
    (
      released s l w t m g v h,
      ap ends (unregister_mutex_lem s t m g.before g.behind g.zip),
      released-WellFormed s l w t m g v h,
      state_free (released s l w t m g v h) m (ap (λ x. x.locked) (update_hit f₁ m v))
          (ap (λ x. x.thread) (update_hit f₁ m v) ∙ k),
      released-Others s l w t m g v h,
    )
