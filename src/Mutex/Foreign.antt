-- ===== src/Mutex/Foreign.antt =====
-- Mutexes that are locked by no thread of SRFI 18: they enter no list.
use bigloo.Prelude.{
  ℕ, ◌==◌, Bool, true, false, Bool-cases, Option, none, some, List, [], sym, ◌≡◌, ◌⊎◌, inl, inr,
  refl, arith, ap, ap₂, ◌∙◌,
}
use mathlib.Core.Path.{subst, fun_ext}
use bigloo.Mutex.{
  Mutex, Store, State, update, set_thread, set_locked, same, srfi18_mutex_mark_locked,
  srfi18_mutex_mark_unlocked, unregister_mutex, unlink_prev, unlink_next, srfi18_mutex_lock,
  srfi18_mutex_unlock, srfi18_mutex_state,
}
use bigloo.Mutex.Links.{head}
use bigloo.Mutex.Focus.{In, In-NotIn}
use bigloo.Mutex.Invariant.{
  Free, WellFormed, Others, by_other, update_hit, update_miss, Zip-ext, eq_of_test, Free-NotIn,
}
use bigloo.Mutex.Laws.{unlocked-Free, state_free}
use bigloo.Mutex.Owned.{unlinks}

module _ (s : Store) (l : ℕ → List ℕ) (w : WellFormed s l) (m : ℕ) (h : Free (s.mutex m)) where
  other_mutex : (u j : ℕ) → In j (l u) → (j == m) ≡ false
  other_mutex u j i = elim (Bool-cases (j == m)) [
    | inl e ↦
        absurd
          (In-NotIn m (l u) (subst (λ x. In x (l u)) (eq_of_test j m e) i) (Free-NotIn s l u m w h))
    | inr e ↦ e
  ]

  -- A free mutex may change as long as it stays free.
  pub update-WellFormed :
      (v : Mutex) → Free v → WellFormed (record s { mutex = update s.mutex m v }) l
  update-WellFormed v k =
      let frame : (u j : ℕ) → In j (l u) → update s.mutex m v j ≡ s.mutex j =
        λ u j i. update_miss s.mutex m v j (other_mutex u j i) in
      record {
        list = λ u. Zip-ext s.mutex (update s.mutex m v) u (l u) (frame u) (w.list u);
        first = w.first;
        members = λ u j i. ap (λ x. x.locked) (frame u j i) ∙ w.members u j i;
        status =
            λ j. elim (Bool-cases (j == m)) [ inl e ↦ inl (rw e k) | inr e ↦ rw e (w.status j) ];
      }

update-Others :
    (s : Store) (m : ℕ) (v : Mutex) → Others m s (record s { mutex = update s.mutex m v })
update-Others s m v =
    by_other m s (record s { mutex = update s.mutex m v })
      (λ j e. let h = update_miss s.mutex m v j e in (ap (λ x. x.locked) h, ap (λ x. x.thread) h))

same-none : (o : Option ℕ) → (o ≡ none) ⊎ (same o none ≡ false)
same-none none = inl refl
same-none (some t) = inr refl

set_both :
    (f : ℕ → Mutex) (m : ℕ) (o : Option ℕ) (b : Bool)
    → set_locked m b (set_thread m o f) ≡ update f m (record (f m) { thread = o; locked = b })
set_both f m o b = fun_ext (λ j. ground arith)

state_foreign :
    (s : Store) (m : ℕ)
    → (s.mutex m).locked ≡ true
    → (s.mutex m).thread ≡ none
    → srfi18_mutex_state m s ≡ State.not_owned
unfolding srfi18_mutex_state
state_foreign s m h k = rw (h, k) refl

mark_locked_none :
    (s : Store) (m : ℕ)
    → (s.mutex m).locked ≡ false
    → (srfi18_mutex_mark_locked m none s ≡ some (record s { mutex = set_thread m none s.mutex }))
      ⊎ (((s.mutex m).thread ≡ none) × (srfi18_mutex_mark_locked m none s ≡ some s))
unfolding srfi18_mutex_mark_locked
mark_locked_none s m u = elim (same-none (s.mutex m).thread) [
  | inl e ↦ inr (e, rw (u, e) refl)
  | inr e ↦ inl (rw (u, e) refl)
]

-- A mutex that nobody has locked, taken where there is no thread of SRFI 18, enters no list, and
-- answers that it has no owner; the other mutexes keep their flag and their thread.
pub srfi18_mutex_lock-none :
    (s : Store) (l : ℕ → List ℕ) (m : ℕ)
    → WellFormed s l
    → (s.mutex m).locked ≡ false
    → (s' : Store) × (srfi18_mutex_lock false none m s ≡ some (false, s'))
      × WellFormed s' l
      × (srfi18_mutex_state m s' ≡ State.not_owned)
      × Others m s s'
unfolding srfi18_mutex_lock
srfi18_mutex_lock-none s l m w u =
    let h = unlocked-Free s l m w u in
    let ends : Store → Option (Bool × Store) =
      λ s₁. some (false, record s₁ { mutex = set_locked m true s₁.mutex }) in
    elim (mark_locked_none s m u) [
      | inl e ↦
          let v : Mutex = record (s.mutex m) { thread = none; locked = true } in
          let s' : Store = record s { mutex = update s.mutex m v } in
          let store : (ℕ → Mutex) → Option (Bool × Store) =
            λ f. some (false, record s { mutex = f }) in
          let vm = update_hit s.mutex m v in
          (
            s',
            rw e (ap store (set_both s.mutex m none true)),
            update-WellFormed s l w m h v (h.0, h.1, inr refl),
            state_foreign s' m (ap (λ x. x.locked) vm) (ap (λ x. x.thread) vm),
            update-Others s m v,
          )
      | inr (k, e) ↦
          let v : Mutex = record (s.mutex m) { locked = true } in
          let s' : Store = record s { mutex = update s.mutex m v } in
          let vm = update_hit s.mutex m v in
          (
            s',
            rw e refl,
            update-WellFormed s l w m h v (h.0, h.1, inr k),
            state_foreign s' m (ap (λ x. x.locked) vm) (ap (λ x. x.thread) vm ∙ k),
            update-Others s m v,
          )
    ]

pub unregister-Free :
    (s : Store) (m : ℕ)
    → Free (s.mutex m)
    → (s.mutex m).thread ≡ none
    → unregister_mutex m s ≡ record s { mutex = set_thread m none s.mutex }
unfolding unregister_mutex unlink_prev unlink_next
unregister-Free s m h k =
    let ends : Store → Store = λ s'. record s' { mutex = set_thread m none s'.mutex } in
    let choose : Option ℕ → Store =
      λ o. ends (elim o [ some t ↦ record s { mutexes = update s.mutexes t none } | none ↦ s ]) in
    ap₂ (λ p n. unlinks m p n s) h.0 h.1 ∙ ap choose k

update_same : (g : ℕ → Option ℕ) (t : ℕ) → g t ≡ none → update g t none ≡ g
update_same g t z = fun_ext (λ j. elim (Bool-cases (j == t)) [
  | inl e ↦ rw e (sym (ap g (eq_of_test j t e) ∙ z))
  | inr e ↦ update_miss g t none j e
])

-- A free mutex that still names a thread whose list is empty.
unregister_gone :
    (s : Store) (t m : ℕ)
    → Free (s.mutex m)
    → (s.mutex m).thread ≡ some t
    → s.mutexes t ≡ none
    → unregister_mutex m s ≡ record s { mutex = set_thread m none s.mutex }
unfolding unregister_mutex unlink_prev unlink_next
unregister_gone s t m h k z =
    let ends : Store → Store = λ s'. record s' { mutex = set_thread m none s'.mutex } in
    let choose : Option ℕ → Store =
      λ o. ends (elim o [ some t ↦ record s { mutexes = update s.mutexes t none } | none ↦ s ]) in
    let store : (ℕ → Option ℕ) → Store = λ g. ends (record s { mutexes = g }) in
    ap₂ (λ p n. unlinks m p n s) h.0 h.1 ∙ ap choose k ∙ ap store (update_same s.mutexes t z)

-- The unlocking of a mutex of no list.
unlock-Free :
    (s : Store) (l : ℕ → List ℕ) (m : ℕ)
    → WellFormed s l
    → Free (s.mutex m)
    → unregister_mutex m s ≡ record s { mutex = set_thread m none s.mutex }
    → (s' : Store) × (srfi18_mutex_unlock false m s ≡ some (false, s'))
      × WellFormed s' l
      × (srfi18_mutex_state m s' ≡ State.not_abandoned)
      × Others m s s'
unfolding srfi18_mutex_unlock srfi18_mutex_mark_unlocked
unlock-Free s l m w h e =
    let v : Mutex = record (s.mutex m) { thread = none; locked = false } in
    let s' : Store = record s { mutex = update s.mutex m v } in
    let ends : Store → Option (Bool × Store) =
      λ s₁. some (false, record s₁ { mutex = set_locked m false s₁.mutex }) in
    let store : (ℕ → Mutex) → Option (Bool × Store) = λ f. some (false, record s { mutex = f }) in
    let vm = update_hit s.mutex m v in
    (
      s',
      ap ends e ∙ ap store (set_both s.mutex m none false),
      update-WellFormed s l w m h v (h.0, h.1, inl refl),
      state_free s' m (ap (λ x. x.locked) vm) (ap (λ x. x.thread) vm),
      update-Others s m v,
    )

-- A mutex of no thread is released with every list as it was, and the other mutexes keep their flag
-- and their thread.
pub srfi18_mutex_unlock-none :
    (s : Store) (l : ℕ → List ℕ) (m : ℕ)
    → WellFormed s l
    → Free (s.mutex m)
    → (s.mutex m).thread ≡ none
    → (s' : Store) × (srfi18_mutex_unlock false m s ≡ some (false, s'))
      × WellFormed s' l
      × (srfi18_mutex_state m s' ≡ State.not_abandoned)
      × Others m s s'
srfi18_mutex_unlock-none s l m w h k = unlock-Free s l m w h (unregister-Free s m h k)

-- So is a mutex that a thread has abandoned.
pub srfi18_mutex_unlock_abandoned :
    (s : Store) (l : ℕ → List ℕ) (t m : ℕ)
    → WellFormed s l
    → Free (s.mutex m)
    → (s.mutex m).thread ≡ some t
    → l t ≡ []
    → (s' : Store) × (srfi18_mutex_unlock false m s ≡ some (false, s'))
      × WellFormed s' l
      × (srfi18_mutex_state m s' ≡ State.not_abandoned)
      × Others m s s'
srfi18_mutex_unlock_abandoned s l t m w h k e =
    unlock-Free s l m w h (unregister_gone s t m h k (w.first t ∙ ap head e))
