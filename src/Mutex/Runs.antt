-- ===== src/Mutex/Runs.antt =====
-- What holds after every run of the threads.
use bigloo.Prelude.{
  ℕ, ◌==◌, Bool, true, false, Bool-cases, Option, Option-cases, none, some, List, [], ◌≡◌, ◌⊎◌, inl,
  inr, refl, arith, ap, ◌∙◌, sym, ◌>>=◌,
}
use mathlib.Core.Path.{subst, fun_ext}
use bigloo.Mutex.{
  Mutex, Store, State, same, srfi18_mutex_state, condvar_release, srfi18_mutex_lock,
  srfi18_mutex_unlock, srfi18_mutex_mark_locked, set_locked,
}
use bigloo.Mutex.Timeout.{srfi18_mutex_timeout, srfi18_mutex_timed_lock}
use bigloo.Mutex.Links.{head}
use bigloo.Mutex.Focus.{In}
use bigloo.Mutex.Invariant.{update_miss, WellFormed, In-thread, eq_of_test}
use bigloo.Mutex.Laws.{unlocked-Free}
use bigloo.Mutex.Failed.{srfi18_mutex_unlock-failed_abandoned}
use bigloo.Mutex.Condvar.{condvar_release_lem, condvar_release-none, condvar_reacquire_lem}
use bigloo.Mutex.Steps.{World, Live, Step, Reach, start}
use bigloo.Mutex.Reachable.{
  Sound, Next, Free-ended, thread_none-Free, same_result, after_failed_none, after_lock,
  after_lock_foreign, after_unlock, after_failed,
}
use bigloo.Mutex.Ended.{after_finish}

pub start-Sound : Sound start.store start.ended (λ t. [])
start-Sound = record {
  wf = record {
    list = λ t. record { left = tt; right = tt; before = tt; behind = tt; apart = tt };
    first = λ t. refl;
    members = λ t m i. elim i [ ];
    status = λ m. inl (refl, refl, inl refl);
  };
  over = λ t. inl refl;
  idle = λ m. inr (inl refl);
}

-- The owner of a locked mutex has it in its list.
locked-In :
    (s : Store) (l : ℕ → List ℕ) (t m : ℕ)
    → WellFormed s l
    → (s.mutex m).locked ≡ true
    → (s.mutex m).thread ≡ some t
    → In m (l t)
locked-In s l t m w k h = elim (w.status m) [
  | inl f ↦ absurd (elim f.2 [ inl p ↦ ground arith | inr p ↦ ground arith ])
  | inr (u, i) ↦ let p = In-thread s l u m w i in subst (λ x. In m (l x)) (ground arith) i
]

set_locked_same : (f : ℕ → Mutex) (m : ℕ) → (f m).locked ≡ true → set_locked m true f ≡ f
set_locked_same f m k = fun_ext (λ j. elim (Bool-cases (j == m)) [
  | inl e ↦ rw e (ap (λ b. record (f m) { locked = b }) (sym k) ∙ ap f (sym (eq_of_test j m e)))
  | inr e ↦ update_miss f m _ j e
])

relock_lem :
    (s : Store) (self : Option ℕ) (m : ℕ)
    → (s.mutex m).locked ≡ true
    → same (s.mutex m).thread self ≡ true
    → srfi18_mutex_lock false self m s ≡ some (false, s)
unfolding srfi18_mutex_lock srfi18_mutex_mark_locked
relock_lem s self m k p =
    let store : (ℕ → Mutex) → Option (Bool × Store) = λ f. some (false, record s { mutex = f }) in
    rw (k, p) (ap store (set_locked_same s.mutex m k))

illegal_lem :
    (s : Store) (self : Option ℕ) (m : ℕ)
    → (s.mutex m).locked ≡ true
    → same (s.mutex m).thread self ≡ false
    → srfi18_mutex_lock false self m s ≡ none
unfolding srfi18_mutex_lock srfi18_mutex_mark_locked
illegal_lem s self m k p = rw (k, p) refl

module _ (a : World) (l : ℕ → List ℕ) (d : Sound a.store a.ended l) where
  -- A mutex that is locked, and is locked again by the thread that has it, stays as it is.
  after_relocking :
      (self : Option ℕ) (m : ℕ) (s' : Store)
      → (a.store.mutex m).locked ≡ true
      → srfi18_mutex_lock false self m a.store ≡ some (false, s')
      → Next a.store a.ended l d s'
  after_relocking self m s' k e = elim (Bool-cases (same (a.store.mutex m).thread self)) [
    | inl p ↦
        subst (Next a.store a.ended l d)
          (same_result false false a.store s' _ (relock_lem a.store self m k p) e) (l, d)
    | inr p ↦ absurd (ground (arith, sym (illegal_lem a.store self m k p) ∙ e))
  ]

  after_locking :
      (self : Option ℕ) (m : ℕ) (s' : Store)
      → Live a.ended self
      → srfi18_mutex_lock false self m a.store ≡ some (false, s')
      → Next a.store a.ended l d s'
  after_locking none m s' p e = elim (Bool-cases (a.store.mutex m).locked) [
    | inl k ↦ after_relocking none m s' k e
    | inr u ↦ after_lock_foreign a.store a.ended l d m s' u e
  ]
  after_locking (some t) m s' p e = elim (Bool-cases (a.store.mutex m).locked) [
    | inl k ↦ after_relocking (some t) m s' k e
    | inr u ↦ after_lock a.store a.ended l d t m s' p u e
  ]

  -- A locking until a deadline is a locking that pthread refuses, or one that it does not.
  after_timed_lock :
      (failed : Bool) (self : Option ℕ) (m : ℕ) (s' : Store)
      → Live a.ended self
      → srfi18_mutex_lock failed self m a.store ≡ some (false, s')
      → Next a.store a.ended l d s'
  unfolding srfi18_mutex_lock
  after_timed_lock true self m s' p e = absurd (ground (arith, e))
  after_timed_lock false self m s' p e = after_locking self m s' p e

  -- A refused locking changes nothing.
  after_refused :
      (failed : Bool) (self : Option ℕ) (m : ℕ) (s' : Store)
      → srfi18_mutex_lock failed self m a.store ≡ some (true, s')
      → Next a.store a.ended l d s'
  unfolding srfi18_mutex_lock
  after_refused true self m s' e =
      subst (Next a.store a.ended l d) (same_result true true a.store s' _ refl e) (l, d)
  after_refused false self m s' e =
      let ends : Option Store → Option (Bool × Store) = λ o. elim o [
        | some x ↦ some (false, record x { mutex = set_locked m true x.mutex })
        | none ↦ none
      ] in
      absurd (elim (Option-cases (srfi18_mutex_mark_locked m self a.store)) [
        | inl n ↦ ground (arith, sym (ap ends n) ∙ e)
        | inr (x, n) ↦ ground (arith, sym (ap ends n) ∙ e)
      ])

  after_unlock_refused :
      (m : ℕ) (s' : Store)
      → ((a.store.mutex m).locked ≡ true) ⊎ ((a.store.mutex m).thread ≡ none)
      → srfi18_mutex_unlock true m a.store ≡ some (true, s')
      → Next a.store a.ended l d s'
  after_unlock_refused m s' h e = elim (Option-cases (a.store.mutex m).thread) [
    | inl n ↦ after_failed_none a.store a.ended l d m s' n e
    | inr (t, n) ↦
        let k : (a.store.mutex m).locked ≡ true = elim h [
          | inl p ↦ p
          | inr p ↦ absurd (ground (arith, n, p))
        ] in
        after_failed a.store a.ended l d m s' t (locked-In a.store l t m d.wf k n) e
  ]

  -- A wait releases the mutex as an unlocking does, whoever has it.
  release-unlock :
      (m : ℕ) → some (false, (condvar_release m a.store).1) ≡ srfi18_mutex_unlock false m a.store
  release-unlock m = elim (Option-cases (a.store.mutex m).thread) [
    | inl n ↦ condvar_release-none a.store m (thread_none-Free a.store a.ended l d m n) n
    | inr (t, n) ↦ condvar_release_lem a.store t m n
  ]

Step-Sound :
    (a b : World) (l : ℕ → List ℕ)
    → Sound a.store a.ended l
    → Step a b
    → (l' : ℕ → List ℕ) × Sound b.store b.ended l'
unfolding srfi18_mutex_timed_lock srfi18_mutex_lock
Step-Sound a _ l d (Step.lock self m s' p e) = after_locking a l d self m s' p e
Step-Sound a _ l d (Step.lock_refused self m s' e) = after_refused a l d true self m s' e
Step-Sound a _ l d (Step.timed_lock timedlock sec usec self m ms s' p e) =
    after_timed_lock a l d (timedlock (srfi18_mutex_timeout sec usec ms)) self m s' p e
Step-Sound a _ l d (Step.timed_lock_refused timedlock sec usec self m ms s' e) =
    after_refused a l d (timedlock (srfi18_mutex_timeout sec usec ms)) self m s' e
Step-Sound a _ l d (Step.unlock m s' e) = after_unlock a.store a.ended l d m s' e
Step-Sound a _ l d (Step.unlock_refused m s' h e) = after_unlock_refused a l d m s' h e
Step-Sound a _ l d (Step.wait thread m s' e) =
    let next : Option ℕ × Store → Option (Bool × Store) = λ p. some (false, p.1) in
    after_unlock a.store a.ended l d m s' (sym (release-unlock a l d m) ∙ ap next e)
Step-Sound a _ l d (Step.wake thread m s' p e) =
    let next : Option Store → Option (Bool × Store) = λ o. o >>= (λ x. some (false, x)) in
    after_locking a l d thread m s' p (condvar_reacquire_lem a.store thread m ∙ ap next e)
Step-Sound a _ l d (Step.finish t fuel s' e) = after_finish a.store a.ended l t fuel s' d e

pub Reach-Sound : (a : World) → Reach a → (l : ℕ → List ℕ) × Sound a.store a.ended l
Reach-Sound a Reach.begin = (λ t. [], start-Sound)
Reach-Sound a (Reach.step {a = c} r p) = let (l, d) = Reach-Sound c r in Step-Sound c a l d p

abandoned_inv :
    (s : Store) (m : ℕ)
    → srfi18_mutex_state m s ≡ State.abandoned
    → ((s.mutex m).locked ≡ false) × (t : ℕ) × ((s.mutex m).thread ≡ some t)
unfolding srfi18_mutex_state
abandoned_inv s m e = elim (Bool-cases (s.mutex m).locked) [
  | inl h ↦ elim (Option-cases (s.mutex m).thread) [
    | inl k ↦ absurd (ground (arith, h, k, e))
    | inr (t, k) ↦ absurd (ground (arith, h, k, e))
  ]
  | inr h ↦ elim (Option-cases (s.mutex m).thread) [
    | inl k ↦ absurd (ground (arith, h, k, e))
    | inr (t, k) ↦ (h, t, k)
  ]
]

-- In every run in which a thread that has ended makes no call, the thread that a wait puts back has
-- not ended, pthread refuses no unlocking of an abandoned mutex, and the timed lockings are those of
-- pthread_mutex_timedlock: a thread that has ended owns no locked mutex, and its list of mutexes
-- is empty.
pub Reach-ended :
    (a : World) (t m : ℕ)
    → Reach a
    → a.ended t ≡ true
    → (a.store.mutexes t ≡ none)
      × (((a.store.mutex m).locked ≡ false) ⊎ (same (a.store.mutex m).thread (some t) ≡ false))
Reach-ended a t m r h =
    let (l, d) = Reach-Sound a r in
    let e : l t ≡ [] = elim (d.over t) [ inl p ↦ absurd (ground arith) | inr e ↦ e ] in
    (
      d.wf.first t ∙ ap head e,
      elim (d.wf.status m) [
        | inl f ↦ elim f.2 [ inl p ↦ inl p | inr p ↦ inr (rw p refl) ]
        | inr (u, i) ↦ inr (
            rw (In-thread a.store l u m d.wf i) (elim (Bool-cases (u == t)) [
              | inl p ↦ absurd (subst (In m) (ap l (eq_of_test u t p) ∙ e) i)
              | inr p ↦ p
            ]))
      ],
    )

-- Where pthread refuses the unlocking of a mutex that is abandoned after a run of `Reach`, the mutex is
-- given back, locked and in its list, to the thread that abandoned it, which has ended.
pub Reach-refused :
    (a : World) (m : ℕ)
    → Reach a
    → srfi18_mutex_state m a.store ≡ State.abandoned
    → (t : ℕ) × (a.ended t ≡ true)
      × (s' : Store) × (srfi18_mutex_unlock true m a.store ≡ some (true, s'))
      × (srfi18_mutex_state m s' ≡ State.owned t)
      × (s'.mutexes t ≡ some m)
Reach-refused a m r h =
    let (l, d) = Reach-Sound a r in
    let (u, t, n) = abandoned_inv a.store m h in
    let free = unlocked-Free a.store l m d.wf u in
    let (over, empty) = Free-ended a.store a.ended l d t m free n in
    let (s', e, own, first) =
      srfi18_mutex_unlock-failed_abandoned a.store l t m d.wf free n empty in
    (t, over, s', e, own, first)
