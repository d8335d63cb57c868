-- ===== src/Mutex/Release.antt =====
-- A well-formed store of which a mutex leaves the list that holds it.
use bigloo.Prelude.{
  ℕ, ◌==◌, true, false, Bool-cases, Option, none, some, List, [], ◌∷◌, ◌≡◌, ◌⊎◌, inl, inr, refl,
  arith, ap, ◌∙◌, sym,
}
use mathlib.Core.Path.{subst}
use bigloo.Mutex.{Mutex, Store, update}
use bigloo.Mutex.Links.{head, NotIn, Zip, other_sym, Apart-NotIn, Right-update, Left-update}
use bigloo.Mutex.Lists.{unlinked, Zip-unlinked}
use bigloo.Mutex.Focus.{
  In, In-NotIn, rev_append, remove, remove-rev_append, NotIn-rev_append, rev_append-NotIn,
  head-rev_append, In-remove, remove-In, Zip-all, Gap,
}
use bigloo.Mutex.Owned.{unlinked-locked, unlinked-thread, unlinked-other, unlinked_first}
use bigloo.Mutex.Invariant.{
  Free, WellFormed, Others, by_other, by_thread, update_hit, update_miss, remove_head, Zip-ext,
  eq_of_test, In-thread, Free-NotIn, NotIn-others,
}

first_tie :
    (t m : ℕ) (g : ℕ → Option ℕ) (xs ys : List ℕ)
    → g t ≡ head (rev_append xs (m ∷ ys))
    → unlinked_first t (head xs) (head ys) g t ≡ head (rev_append xs ys)
first_tie t m g [] ys h = update_hit g t (head ys)
first_tie t m g (x ∷ xs) ys h = h ∙ head-rev_append x xs (m ∷ ys) ys

first_miss :
    (t u : ℕ) (p n : Option ℕ) (g : ℕ → Option ℕ)
    → (u == t) ≡ false
    → unlinked_first t p n g u ≡ g u
first_miss t u none n g e = update_miss g t n u e
first_miss t u (some p) n g e = refl

module _ (s : Store) (l : ℕ → List ℕ) (w : WellFormed s l) (t m : ℕ) (g : Gap s.mutex t m (l t))
    (v : Mutex) (h : Free v) where
  abbrev f₁ : ℕ → Mutex
  f₁ = unlinked m (head g.before) (head g.behind) s.mutex

  abbrev pub released : Store
  released = record {
    mutex = update (unlinked m (head g.before) (head g.behind) s.mutex) m v;
    mutexes = unlinked_first t (head g.before) (head g.behind) s.mutexes;
  }

  apart_before : NotIn m g.before
  apart_before = (Apart-NotIn m g.before g.behind g.zip.apart).0

  pub released_frame : (j : ℕ) → NotIn j (l t) → (j == m) ≡ false → released.mutex j ≡ s.mutex j
  released_frame j n e =
      let (p, q) = NotIn-rev_append j g.before (m ∷ g.behind) (rw g.whole n) in
      update_miss f₁ m v j e ∙ unlinked-other m s.mutex g.before g.behind j p q.0 q.1

  removed : remove m (l t) ≡ rev_append g.before g.behind
  removed =
      ap (remove m) (sym g.whole)
      ∙ remove-rev_append m g.before (m ∷ g.behind) apart_before
      ∙ ap (rev_append g.before) (remove_head m g.behind)

  whole-Zip : Zip released.mutex t [] (remove m (l t))
  whole-Zip = rw removed (
      Zip-all released.mutex t g.before g.behind (
        let z = Zip-unlinked t m s.mutex g.before g.behind g.zip in
        record {
          left = Left-update f₁ t m v (head g.behind) g.before apart_before z.left;
          right = Right-update f₁ t m v (head g.before) g.behind g.zip.behind.0 z.right;
          before = z.before;
          behind = z.behind;
          apart = z.apart;
        }))

  removed_first : released.mutexes t ≡ head (remove m (l t))
  removed_first =
      first_tie t m s.mutexes g.before g.behind (w.first t ∙ ap head (sym g.whole))
      ∙ ap head (sym removed)

  other_mutex : (u j : ℕ) → In j (l u) → (u == t) ≡ false → (j == m) ≡ false
  other_mutex u j i e = elim (Bool-cases (j == m)) [
    | inl p ↦
        let q = ap (λ x. (s.mutex x).thread) (eq_of_test j m p) in
        let r = In-thread s l u j w i in let k = g.zip.right.0 in absurd (ground arith)
    | inr p ↦ p
  ]

  other_first : (u : ℕ) → (u == t) ≡ false → released.mutexes u ≡ head (l u)
  other_first u e = first_miss t u (head g.before) (head g.behind) s.mutexes e ∙ w.first u

  other_list : (u : ℕ) → (u == t) ≡ false → Zip released.mutex u [] (l u)
  other_list u e =
      Zip-ext s.mutex released.mutex u (l u)
        (λ j i. released_frame j (NotIn-others s l t u j w i e) (other_mutex u j i e)) (w.list u)

  released-locked : (j : ℕ) → (j == m) ≡ false → (released.mutex j).locked ≡ (s.mutex j).locked
  released-locked j e =
      ap (λ x. x.locked) (update_miss f₁ m v j e)
      ∙ unlinked-locked m s.mutex (head g.before) (head g.behind) j

  pub released-Others : Others m s released
  released-Others = by_other m s released (λ j e. (
    released-locked j e,
    ap (λ x. x.thread) (update_miss f₁ m v j e)
        ∙ unlinked-thread m s.mutex (head g.before) (head g.behind) j (other_sym j m e),
  ))

  pub removed-NotIn : NotIn m (remove m (l t))
  removed-NotIn = rw removed (rev_append-NotIn m g.before g.behind apart_before g.zip.behind.0)

  removed_other : (j : ℕ) → In j (remove m (l t)) → (j == m) ≡ false
  removed_other j i = elim (Bool-cases (j == m)) [
    | inl e ↦ absurd (
        In-NotIn m (remove m (l t)) (subst (λ x. In x (remove m (l t))) (eq_of_test j m e) i)
          removed-NotIn)
    | inr e ↦ e
  ]

  removed_members : (j : ℕ) → In j (remove m (l t)) → (released.mutex j).locked ≡ true
  removed_members j i =
      released-locked j (removed_other j i) ∙ w.members t j (In-remove m j (l t) i)

  other_members :
      (u : ℕ) → (u == t) ≡ false → (j : ℕ) → In j (l u) → (released.mutex j).locked ≡ true
  other_members u e j i = released-locked j (other_mutex u j i e) ∙ w.members u j i

  kept : (u j : ℕ) → In j (l u) → (j == m) ≡ false → In j (update l t (remove m (l t)) u)
  kept u j i e = elim (Bool-cases (u == t)) [
    | inl p ↦
        rw p (remove-In m j (l t) (subst (λ x. In j (l x)) (eq_of_test u t p) i) (other_sym j m e))
    | inr p ↦ rw p i
  ]

  removed_status :
      (j : ℕ) → Free (released.mutex j) ⊎ ((u : ℕ) × In j (update l t (remove m (l t)) u))
  removed_status j = elim (Bool-cases (j == m)) [
    | inl e ↦ inl (rw e h)
    | inr e ↦ elim (w.status j) [
      | inl p ↦ inl (subst Free (sym (released_frame j (Free-NotIn s l t j w p) e)) p)
      | inr (u, i) ↦ inr (u, kept u j i e)
    ]
  ]

  pub released-WellFormed : WellFormed released (update l t (remove m (l t)))
  released-WellFormed = record {
    list = by_thread l t (remove m (l t)) (λ u xs. Zip released.mutex u [] xs) whole-Zip other_list;
    first =
        by_thread l t (remove m (l t)) (λ u xs. released.mutexes u ≡ head xs) removed_first
          other_first;
    members =
        by_thread l t (remove m (l t))
          (λ u xs. (j : ℕ) → In j xs → (released.mutex j).locked ≡ true) removed_members
          other_members;
    status = removed_status;
  }
