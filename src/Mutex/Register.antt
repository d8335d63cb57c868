-- ===== src/Mutex/Register.antt =====
-- A well-formed store of which a free mutex enters the list of a thread.
use bigloo.Prelude.{
  ℕ, ◌==◌, true, false, Bool-cases, Option, none, some, List, [], ◌∷◌, ◌≡◌, ◌⊎◌, inl, inr, refl,
  arith, ap, ◌∙◌, sym,
}
use mathlib.Core.Path.{subst}
use bigloo.Mutex.{Mutex, Store, update, set_prev, set_next, set_thread, set_locked, register_mutex}
use bigloo.Mutex.Links.{head, Right, NotIn, Distinct, Zip, Right-update}
use bigloo.Mutex.Lists.{==_refl}
use bigloo.Mutex.Focus.{In, In-NotIn}
use bigloo.Mutex.Invariant.{
  Free, WellFormed, Others, by_other, by_thread, update_hit, update_miss, Zip-ext, eq_of_test,
  Free-NotIn, NotIn-others,
}

abbrev pub tied : ℕ → Option ℕ → (ℕ → Mutex) → ℕ → Mutex
tied m (some h) f = set_prev h (some m) (set_next m (some h) f)
tied m none f = f

pub register_mutex_lem :
    (s : Store) (t m : ℕ) (o : Option ℕ)
    → s.mutexes t ≡ o
    → register_mutex m t s
      ≡ record { mutex = tied m o s.mutex; mutexes = update s.mutexes t (some m) }
unfolding register_mutex
register_mutex_lem s t m none e = rw e refl
register_mutex_lem s t m (some h) e = rw e refl

module _ (m : ℕ) (f : ℕ → Mutex) where
  pub tied-locked : (o : Option ℕ) (j : ℕ) → (tied m o f j).locked ≡ (f j).locked
  tied-locked none j = ground arith
  tied-locked (some h) j = ground arith

  pub tied-thread : (o : Option ℕ) (j : ℕ) → (tied m o f j).thread ≡ (f j).thread
  tied-thread none j = ground arith
  tied-thread (some h) j = ground arith

  tied-other : (xs : List ℕ) (j : ℕ) → NotIn j xs → (j == m) ≡ false → tied m (head xs) f j ≡ f j
  tied-other [] j n e = refl
  tied-other (x ∷ xs) j n e = ground (arith, n.0)

  tied_self :
      (t : ℕ) (xs : List ℕ)
      → NotIn m xs
      → (f m).thread ≡ some t
      → (f m).prev ≡ none
      → (f m).next ≡ none
      → ((tied m (head xs) f m).thread ≡ some t)
        × ((tied m (head xs) f m).prev ≡ none)
        × ((tied m (head xs) f m).next ≡ head xs)
  tied_self t [] n a b c = (a, b, c)
  tied_self t (x ∷ xs) n a b c = (ground (arith, n.0), ground (arith, n.0), ground (arith, n.0))

  tied-Right :
      (t : ℕ) (xs : List ℕ)
      → NotIn m xs
      → Distinct xs
      → Right f t none xs
      → Right (tied m (head xs) f) t (some m) xs
  tied-Right t [] n d r = tt
  tied-Right t (x ∷ xs) n d r =
      let rest = Right-update f t m (record (f m) { next = some x }) (some x) xs n.1 r.3 in
      rw (==_refl x, n.0)
        (r.0, refl, r.2, Right-update (set_next m (some x) f) t x _ (some x) xs d.0 rest)

module _ (s : Store) (l : ℕ → List ℕ) (w : WellFormed s l) (t m : ℕ) (h : Free (s.mutex m)) where
  abbrev f₀ : ℕ → Mutex
  f₀ = set_thread m (some t) s.mutex

  abbrev f₁ : ℕ → Mutex
  f₁ = tied m (head (l t)) (set_thread m (some t) s.mutex)

  abbrev pub registered : Store
  registered = record {
    mutex = set_locked m true (tied m (head (l t)) (set_thread m (some t) s.mutex));
    mutexes = update s.mutexes t (some m);
  }

  absent : (u : ℕ) → NotIn m (l u)
  absent u = Free-NotIn s l u m w h

  pub registered_frame : (j : ℕ) → NotIn j (l t) → (j == m) ≡ false → registered.mutex j ≡ s.mutex j
  registered_frame j n e =
      update_miss f₁ m _ j e ∙ tied-other m f₀ (l t) j n e ∙ update_miss s.mutex m _ j e

  other_mutex : (u j : ℕ) → In j (l u) → (j == m) ≡ false
  other_mutex u j i = elim (Bool-cases (j == m)) [
    | inl e ↦ absurd (In-NotIn m (l u) (subst (λ x. In x (l u)) (eq_of_test j m e) i) (absent u))
    | inr e ↦ e
  ]

  longer-Right : Right registered.mutex t none (m ∷ l t)
  longer-Right =
      let z = w.list t in
      let n = absent t in
      let f₀m = update_hit s.mutex m (record (s.mutex m) { thread = some t }) in
      let (a, b, c) =
        tied_self m f₀ t (l t) n (ap (λ x. x.thread) f₀m) (ap (λ x. x.prev) f₀m ∙ h.0)
          (ap (λ x. x.next) f₀m ∙ h.1) in
      let fm = update_hit f₁ m (record (f₁ m) { locked = true }) in
      (
        ap (λ x. x.thread) fm ∙ a,
        ap (λ x. x.prev) fm ∙ b,
        ap (λ x. x.next) fm ∙ c,
        Right-update f₁ t m _ (some m) (l t) n
            (tied-Right m f₀ t (l t) n z.behind (Right-update s.mutex t m _ none (l t) n z.right)),
      )

  longer-Zip : Zip registered.mutex t [] (m ∷ l t)
  longer-Zip = record {
    left = tt;
    right = longer-Right;
    before = tt;
    behind = (absent t, (w.list t).behind);
    apart = tt;
  }

  other_list : (u : ℕ) → (u == t) ≡ false → Zip registered.mutex u [] (l u)
  other_list u e =
      Zip-ext s.mutex registered.mutex u (l u)
        (λ j i. registered_frame j (NotIn-others s l t u j w i e) (other_mutex u j i)) (w.list u)

  registered-locked : (j : ℕ) → (j == m) ≡ false → (registered.mutex j).locked ≡ (s.mutex j).locked
  registered-locked j e =
      ap (λ x. x.locked) (update_miss f₁ m _ j e)
      ∙ tied-locked m f₀ (head (l t)) j
      ∙ ap (λ x. x.locked) (update_miss s.mutex m _ j e)

  pub registered-Others : Others m s registered
  registered-Others = by_other m s registered (λ j e. (
    registered-locked j e,
    ap (λ x. x.thread) (update_miss f₁ m _ j e)
        ∙ tied-thread m f₀ (head (l t)) j
        ∙ ap (λ x. x.thread) (update_miss s.mutex m _ j e),
  ))

  old_members : (u j : ℕ) → In j (l u) → (registered.mutex j).locked ≡ true
  old_members u j i = registered-locked j (other_mutex u j i) ∙ w.members u j i

  longer_members : (j : ℕ) → In j (m ∷ l t) → (registered.mutex j).locked ≡ true
  longer_members j (inl e) =
      rw (sym e) (ap (λ x. x.locked) (update_hit f₁ m (record (f₁ m) { locked = true })))
  longer_members j (inr i) = old_members t j i

  kept : (u j : ℕ) → In j (l u) → In j (update l t (m ∷ l t) u)
  kept u j i = by_thread l t (m ∷ l t) (λ u xs. In j (l u) → In j xs) (λ k. inr k) (λ u e k. k) u i

  longer_status : (j : ℕ) → Free (registered.mutex j) ⊎ ((u : ℕ) × In j (update l t (m ∷ l t) u))
  longer_status j = elim (Bool-cases (j == m)) [
    | inl e ↦ inr (t, rw (==_refl t) (inl (sym (eq_of_test j m e))))
    | inr e ↦ elim (w.status j) [
      | inl p ↦ inl (subst Free (sym (registered_frame j (Free-NotIn s l t j w p) e)) p)
      | inr (u, i) ↦ inr (u, kept u j i)
    ]
  ]

  pub registered-WellFormed : WellFormed registered (update l t (m ∷ l t))
  registered-WellFormed = record {
    list = by_thread l t (m ∷ l t) (λ u xs. Zip registered.mutex u [] xs) longer-Zip other_list;
    first =
        by_thread l t (m ∷ l t) (λ u xs. registered.mutexes u ≡ head xs)
          (update_hit s.mutexes t (some m))
          (λ u e. update_miss s.mutexes t (some m) u e ∙ w.first u);
    members =
        by_thread l t (m ∷ l t) (λ u xs. (j : ℕ) → In j xs → (registered.mutex j).locked ≡ true)
          longer_members (λ u e. old_members u);
    status = longer_status;
  }
