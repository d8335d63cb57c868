-- ===== src/Mutex/Ended.antt =====
-- The end of a thread, and the theorems on all reachable stores.
use bigloo.Prelude.{
  ℕ, suc, zero, ◌==◌, Bool, true, false, Bool-cases, Option, none, some, List, [], ◌∷◌, length, ◌≡◌,
  ◌⊎◌, inl, inr, refl, arith, ap, ◌∙◌, sym,
}
use mathlib.Core.Path.{subst}
use bigloo.Mutex.{
  Mutex, Store, update, abandon_loop, srfi18_mutex_unlock_sans_thread, srfi18_mutexes_abandon,
}
use bigloo.Mutex.Links.{NotIn, head}
use bigloo.Mutex.Focus.{In}
use bigloo.Mutex.Invariant.{eq_of_test, update_hit, update_miss, by_thread}
use bigloo.Mutex.Abandon.{abandon_all, All, LeftBy}
use bigloo.Mutex.Reachable.{Sound, Idle}

-- Two runs of the loop that return give the same store.
abbrev get : Store → Option Store → Store
get d none = d
get d (some s) = s

abandon_agree :
    (fuel fuel' : ℕ) (o : Option ℕ) (s a b : Store)
    → abandon_loop fuel o s ≡ some a
    → abandon_loop fuel' o s ≡ some b
    → a ≡ b
unfolding abandon_loop
abandon_agree fuel fuel' none s a b e e' = ap (get s) (sym e ∙ e')
abandon_agree zero fuel' (some w) s a b e e' = absurd (ground (arith, e))
abandon_agree (suc fuel) zero (some w) s a b e e' = absurd (ground (arith, e'))
abandon_agree (suc fuel) (suc fuel') (some w) s a b e e' =
    abandon_agree fuel fuel' (s.mutex w).next (srfi18_mutex_unlock_sans_thread w s) a b e e'

In-or-NotIn : (a : ℕ) (xs : List ℕ) → In a xs ⊎ NotIn a xs
In-or-NotIn a [] = inr tt
In-or-NotIn a (x ∷ xs) = elim (In-or-NotIn a xs) [
  | inl i ↦ inl (inr i)
  | inr n ↦ elim (Bool-cases (x == a)) [ inl e ↦ inl (inl (eq_of_test x a e)) | inr e ↦ inr (e, n) ]
]

All-In : (P : ℕ → Type 0) (a : ℕ) (xs : List ℕ) → All P xs → In a xs → P a
All-In P a [] p i = elim i [ ]
All-In P a (x ∷ xs) p (inl e) = subst P e p.0
All-In P a (x ∷ xs) p (inr i) = All-In P a xs p.1 i

ended_more : (ended : ℕ → Bool) (t u : ℕ) → ended u ≡ true → update ended t true u ≡ true
ended_more ended t u h = ground arith

Idle-more : (x : Mutex) (ended : ℕ → Bool) (t : ℕ) → Idle x ended → Idle x (update ended t true)
Idle-more x ended t (inl h) = inl h
Idle-more x ended t (inr (inl h)) = inr (inl h)
Idle-more x ended t (inr (inr (u, h, k))) = inr (inr (u, h, ended_more ended t u k))

pub after_finish :
    (s : Store) (ended : ℕ → Bool) (l : ℕ → List ℕ) (t fuel : ℕ) (s' : Store)
    → Sound s ended l
    → srfi18_mutexes_abandon fuel t s ≡ some s'
    → (l' : ℕ → List ℕ) × Sound s' (update ended t true) l'
unfolding srfi18_mutexes_abandon
after_finish s ended l t fuel s' d e =
    let (s₁, run, w, bs, frames) = abandon_all s l t (l t) d.wf refl in
    let e₁ = sym (ap (λ o. abandon_loop fuel o s) (d.wf.first t)) ∙ e in
    let ended' = update ended t true in
    let idle : (j : ℕ) → Idle (s₁.mutex j) ended' = λ j. elim (In-or-NotIn j (l t)) [
      | inl i ↦
          let b = All-In (λ m. LeftBy t (s₁.mutex m)) j (l t) bs i in
          inr (inr (t, b.1, update_hit ended t true))
      | inr n ↦ rw (frames j n) (Idle-more (s.mutex j) ended t (d.idle j))
    ] in
    subst (λ x. (l' : ℕ → List ℕ) × Sound x ended' l')
      (abandon_agree (length (l t)) fuel (head (l t)) s s₁ s' run e₁)
      (
        update l t [],
        record {
          wf = w;
          over =
              by_thread l t [] (λ u xs. (ended' u ≡ false) ⊎ (xs ≡ [])) (inr refl)
                (λ u n. elim (d.over u) [
                  | inl a ↦ inl (update_miss ended t true u n ∙ a)
                  | inr a ↦ inr a
                ]);
          idle = idle;
        },
      )
