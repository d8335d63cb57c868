-- ===== src/Mutex/Reachable.antt =====
-- What holds in every store that the threads can reach.
use bigloo.Prelude.{
  ℕ, ◌==◌, Bool, true, false, Bool-cases, Option, Option-cases, none, some, List, [], ◌∷◌, ◌≡◌, ◌⊎◌,
  inl, inr, refl, arith, ap, ◌∙◌, sym,
}
use mathlib.Core.Path.{subst}
use bigloo.Mutex.{
  Mutex, Store, State, update, same, srfi18_mutex_lock, srfi18_mutex_unlock, srfi18_mutex_state,
}
use bigloo.Mutex.Lists.{==_refl}
use bigloo.Mutex.Focus.{In, remove}
use bigloo.Mutex.Invariant.{Free, In-thread, WellFormed, Others, eq_of_test, by_thread}
use bigloo.Mutex.Laws.{srfi18_mutex_lock_lem, srfi18_mutex_unlock_lem}
use bigloo.Mutex.Failed.{srfi18_mutex_unlock-failed, srfi18_mutex_unlock-failed_none, state_inv}
use bigloo.Mutex.Foreign.{
  srfi18_mutex_lock-none, srfi18_mutex_unlock-none, srfi18_mutex_unlock_abandoned,
}

-- An unlocked mutex has no thread, or that of a thread that has ended.
abbrev pub Idle : Mutex → (ℕ → Bool) → Type 0
Idle x ended =
    (x.locked ≡ true) ⊎ ((x.thread ≡ none) ⊎ ((t : ℕ) × (x.thread ≡ some t) × (ended t ≡ true)))

pub record Sound (s : Store) (ended : ℕ → Bool) (l : ℕ → List ℕ) : Type 0 where
  pub wf : WellFormed s l
  pub over : (t : ℕ) → (ended t ≡ false) ⊎ (l t ≡ [])
  pub idle : (m : ℕ) → Idle (s.mutex m) ended

Idle-Others :
    (s s' : Store) (ended : ℕ → Bool) (m : ℕ)
    → Others m s s'
    → Idle (s'.mutex m) ended
    → ((j : ℕ) → Idle (s.mutex j) ended)
    → (j : ℕ) → Idle (s'.mutex j) ended
Idle-Others s s' ended m o new old j = elim (o j) [
  | inl e ↦ rw e new
  | inr (p, q) ↦ elim (old j) [
    | inl h ↦ inl (p ∙ h)
    | inr (inl h) ↦ inr (inl (q ∙ h))
    | inr (inr (t, h, k)) ↦ inr (inr (t, q ∙ h, k))
  ]
]

abbrev pub result : Store → Option (Bool × Store) → Store
result s none = s
result s (some p) = p.1

pub same_result :
    (b c : Bool) (s s' : Store) (o : Option (Bool × Store))
    → o ≡ some (b, s)
    → o ≡ some (c, s')
    → s ≡ s'
same_result b c s s' o e e' = ap (result s) (sym e ∙ e')

-- A thread that runs has not abandoned an unlocked mutex.
running :
    (x : Mutex) (ended : ℕ → Bool) (t : ℕ)
    → x.locked ≡ false
    → ended t ≡ false
    → Idle x ended
    → same x.thread (some t) ≡ false
running x ended t u a (inl h) = absurd (ground arith)
running x ended t u a (inr (inl h)) = rw h refl
running x ended t u a (inr (inr (v, h, k))) = rw h (elim (Bool-cases (v == t)) [
  | inl e ↦ let p = ap ended (eq_of_test v t e) in absurd (ground arith)
  | inr e ↦ e
])

foreign_inv :
    (s : Store) (m : ℕ) → srfi18_mutex_state m s ≡ State.not_owned → (s.mutex m).thread ≡ none
unfolding srfi18_mutex_state
foreign_inv s m e = elim (Option-cases (s.mutex m).thread) [
  | inl h ↦ h
  | inr (t, h) ↦ elim (Bool-cases (s.mutex m).locked) [
    | inl k ↦ absurd (ground (arith, h, k, e))
    | inr k ↦ absurd (ground (arith, h, k, e))
  ]
]

module _ (s : Store) (ended : ℕ → Bool) (l : ℕ → List ℕ) (d : Sound s ended l) where
  abbrev pub Next : Store → Type 0
  Next s' = (l' : ℕ → List ℕ) × Sound s' ended l'

  pub after_lock :
      (t m : ℕ) (s' : Store)
      → ended t ≡ false
      → (s.mutex m).locked ≡ false
      → srfi18_mutex_lock false (some t) m s ≡ some (false, s')
      → Next s'
  after_lock t m s' a u e =
      let n = running (s.mutex m) ended t u a (d.idle m) in
      let (s₁, e₁, w, own, o) = srfi18_mutex_lock_lem s l t m d.wf u n in
      let i : In m (update l t (m ∷ l t) t) = rw (==_refl t) (inl refl) in
      subst Next (same_result false false s₁ s' (srfi18_mutex_lock false (some t) m s) e₁ e) (
        update l t (m ∷ l t),
        record {
          wf = w;
          over =
              by_thread l t (m ∷ l t) (λ u xs. (ended u ≡ false) ⊎ (xs ≡ [])) (inl a)
                (λ u n. d.over u);
          idle = Idle-Others s s₁ ended m o (inl (w.members t m i)) d.idle;
        },
      )

  pub after_lock_foreign :
      (m : ℕ) (s' : Store)
      → (s.mutex m).locked ≡ false
      → srfi18_mutex_lock false none m s ≡ some (false, s')
      → Next s'
  after_lock_foreign m s' u e =
      let (s₁, e₁, w, f, o) = srfi18_mutex_lock-none s l m d.wf u in
      subst Next (same_result false false s₁ s' (srfi18_mutex_lock false none m s) e₁ e) (
        l,
        record {
          wf = w;
          over = d.over;
          idle = Idle-Others s s₁ ended m o (inr (inl (foreign_inv s₁ m f))) d.idle;
        },
      )

  shorter_over : (t m : ℕ) (u : ℕ) → (ended u ≡ false) ⊎ (update l t (remove m (l t)) u ≡ [])
  shorter_over t m =
      by_thread l t (remove m (l t)) (λ u xs. (ended u ≡ false) ⊎ (xs ≡ []))
        (elim (d.over t) [ inl a ↦ inl a | inr e ↦ inr (ap (remove m) e) ]) (λ u n. d.over u)

  -- The release of a mutex of no list.
  after_release :
      (m : ℕ) (s' : Store)
      → ((s₁ : Store) × (srfi18_mutex_unlock false m s ≡ some (false, s₁))
          × WellFormed s₁ l
          × (srfi18_mutex_state m s₁ ≡ State.not_abandoned)
          × Others m s s₁)
      → srfi18_mutex_unlock false m s ≡ some (false, s')
      → Next s'
  after_release m s' (s₁, e₁, w, f, o) e =
      subst Next (same_result false false s₁ s' (srfi18_mutex_unlock false m s) e₁ e) (
        l,
        record {
          wf = w;
          over = d.over;
          idle = Idle-Others s s₁ ended m o (inr (inl (state_inv s₁ m f).1)) d.idle;
        },
      )

  -- The thread of a free mutex has ended.
  pub Free-ended :
      (t m : ℕ) → Free (s.mutex m) → (s.mutex m).thread ≡ some t → (ended t ≡ true) × (l t ≡ [])
  Free-ended t m h k =
      let over : ended t ≡ true = elim (d.idle m) [
        | inl p ↦ absurd (elim h.2 [ inl q ↦ ground arith | inr q ↦ ground (arith, k, q) ])
        | inr (inl q) ↦ absurd (ground (arith, k, q))
        | inr (inr (u, q, p)) ↦ let e : u ≡ t = ground (arith, k, q) in ap ended (sym e) ∙ p
      ] in
      (over, elim (d.over t) [ inl q ↦ absurd (ground (arith, over, q)) | inr q ↦ q ])

  pub after_unlock :
      (m : ℕ) (s' : Store) → srfi18_mutex_unlock false m s ≡ some (false, s') → Next s'
  after_unlock m s' e = elim (d.wf.status m) [
    | inl h ↦ elim (Option-cases (s.mutex m).thread) [
      | inl n ↦ after_release m s' (srfi18_mutex_unlock-none s l m d.wf h n) e
      | inr (t, n) ↦
          let empty = (Free-ended t m h n).1 in
          after_release m s' (srfi18_mutex_unlock_abandoned s l t m d.wf h n empty) e
    ]
    | inr (t, i) ↦
        let (s₁, e₁, w, f, o) = srfi18_mutex_unlock_lem s l t m d.wf i in
        subst Next (same_result false false s₁ s' (srfi18_mutex_unlock false m s) e₁ e) (
          update l t (remove m (l t)),
          record {
            wf = w;
            over = shorter_over t m;
            idle = Idle-Others s s₁ ended m o (inr (inl (state_inv s₁ m f).1)) d.idle;
          },
        )
  ]

  -- A mutex of no thread is in no list.
  pub thread_none-Free : (m : ℕ) → (s.mutex m).thread ≡ none → Free (s.mutex m)
  thread_none-Free m n = elim (d.wf.status m) [
    | inl h ↦ h
    | inr (t, i) ↦ absurd (ground (arith, n, In-thread s l t m d.wf i))
  ]

  pub after_failed_none :
      (m : ℕ) (s' : Store)
      → (s.mutex m).thread ≡ none
      → srfi18_mutex_unlock true m s ≡ some (true, s')
      → Next s'
  after_failed_none m s' n e =
      let (s₁, e₁, w, f, o) = srfi18_mutex_unlock-failed_none s l m d.wf (thread_none-Free m n) n in
      subst Next (same_result true true s₁ s' (srfi18_mutex_unlock true m s) e₁ e) (
        l,
        record {
          wf = w;
          over = d.over;
          idle = Idle-Others s s₁ ended m o (inr (inl (foreign_inv s₁ m f))) d.idle;
        },
      )

  -- A thread that has a mutex has not ended.
  pub In-running : (t m : ℕ) → In m (l t) → ended t ≡ false
  In-running t m i = elim (d.over t) [ inl a ↦ a | inr e ↦ absurd (subst (In m) e i) ]

  pub after_failed :
      (m : ℕ) (s' : Store) (t : ℕ)
      → In m (l t)
      → srfi18_mutex_unlock true m s ≡ some (true, s')
      → Next s'
  after_failed m s' t i e =
      let (s₁, e₁, w, own, o) = srfi18_mutex_unlock-failed s l t m d.wf i in
      let xs = m ∷ remove m (l t) in
      let j : In m (update l t xs t) = rw (==_refl t) (inl refl) in
      subst Next (same_result true true s₁ s' (srfi18_mutex_unlock true m s) e₁ e) (
        update l t xs,
        record {
          wf = w;
          over =
              by_thread l t xs (λ u ys. (ended u ≡ false) ⊎ (ys ≡ [])) (inl (In-running t m i))
                (λ u n. d.over u);
          idle = Idle-Others s s₁ ended m o (inl (w.members t m j)) d.idle;
        },
      )
