-- ===== src/Mutex/Abandon.antt =====
-- `srfi18_mutexes_abandon` on a well-formed store: what the end of a thread does to its mutexes.
use bigloo.Prelude.{
  ℕ, ◌==◌, false, Bool-cases, Option, none, some, List, [], ◌∷◌, length, ◌≡◌, inl, inr, refl, arith,
  ap, ap₂, ◌∙◌, sym,
}
use mathlib.Core.Path.{subst, fun_ext}
use bigloo.Mutex.{
  Mutex, Store, State, update, set_thread, set_locked, srfi18_mutex_unlock_sans_thread,
  srfi18_mutex_mark_unlocked, srfi18_mutexes_abandon, abandon_loop, srfi18_mutex_state,
}
use bigloo.Mutex.Links.{head, NotIn, Zip, other_sym}
use bigloo.Mutex.Lists.{unlinked}
use bigloo.Mutex.Focus.{In, remove, In-Gap}
use bigloo.Mutex.Owned.{unregister_mutex_lem, unlinked_first}
use bigloo.Mutex.Invariant.{
  Free, WellFormed, In-thread, update_hit, update_miss, remove_head, eq_of_test,
}
use bigloo.Mutex.Release.{released, released-WellFormed, released_frame}
use bigloo.Mutex.Laws.{unregistered_self}

-- What holds of every member of a list.
abbrev pub All : (ℕ → Type 0) → List ℕ → Type 0
All P [] = Unit
All P (x ∷ xs) = P x × All P xs

pub update_twice :
    {A : Type 0} (f : ℕ → A) (k : ℕ) (u v : A) → update (update f k u) k v ≡ update f k v
update_twice f k u v = fun_ext (λ j. ground arith)

set_both :
    (f : ℕ → Mutex) (m : ℕ) (o : Option ℕ)
    → set_thread m o (set_locked m false f)
      ≡ update f m (record (f m) { thread = o; locked = false })
set_both f m o = fun_ext (λ j. ground arith)

-- An abandoned mutex keeps the thread that had it locked.
abbrev pub LeftBy : ℕ → Mutex → Type 0
LeftBy t x = (x.locked ≡ false) × (x.thread ≡ some t)

module _ (s : Store) (l : ℕ → List ℕ) (t m : ℕ) (w : WellFormed s l) (i : In m (l t)) where
  abandon_step :
      (s' : Store) × (srfi18_mutex_unlock_sans_thread m s ≡ s')
      × WellFormed s' (update l t (remove m (l t)))
      × LeftBy t (s'.mutex m)
      × ((j : ℕ) → NotIn j (l t) → (j == m) ≡ false → s'.mutex j ≡ s.mutex j)
  unfolding srfi18_mutex_unlock_sans_thread srfi18_mutex_mark_unlocked
  abandon_step =
      let g = In-Gap (l t) i (w.list t) in
      let (p, n, k) = unregistered_self s t m (l t) g in
      let f₁ = unlinked m (head g.before) (head g.behind) s.mutex in
      let v : Mutex = record (f₁ m) { thread = (s.mutex m).thread; locked = false } in
      let h : Free v = (p, n, inl refl) in
      let ends : Store → Store =
        λ s₁. record s₁ { mutex = set_thread m (s.mutex m).thread (set_locked m false s₁.mutex) } in
      let first = unlinked_first t (head g.before) (head g.behind) s.mutexes in
      let store : (ℕ → Mutex) → Store = λ f. record { mutex = f; mutexes = first } in
      let vm = update_hit f₁ m v in
      (
        released s l w t m g v h,
        ap ends (unregister_mutex_lem s t m g.before g.behind g.zip)
            ∙ ap store (set_both f₁ m (s.mutex m).thread),
        released-WellFormed s l w t m g v h,
        (ap (λ x. x.locked) vm, ap (λ x. x.thread) vm ∙ In-thread s l t m w i),
        released_frame s l w t m g v h,
      )

update_same : (l : ℕ → List ℕ) (t : ℕ) (xs : List ℕ) → l t ≡ xs → update l t xs ≡ l
update_same l t xs e = fun_ext (λ j. elim (Bool-cases (j == t)) [
  | inl p ↦ rw (p, eq_of_test j t p) (sym e)
  | inr p ↦ update_miss l t xs j p
])

pub abandon_all :
    (s : Store) (l : ℕ → List ℕ) (t : ℕ) (xs : List ℕ)
    → WellFormed s l
    → l t ≡ xs
    → (s' : Store) × (abandon_loop (length xs) (head xs) s ≡ some s')
      × WellFormed s' (update l t [])
      × All (λ m. LeftBy t (s'.mutex m)) xs
      × ((j : ℕ) → NotIn j xs → s'.mutex j ≡ s.mutex j)
unfolding abandon_loop
abandon_all s l t [] w e =
    (s, refl, subst (WellFormed s) (sym (update_same l t [] e)) w, tt, λ j n. refl)
abandon_all s l t (x ∷ xs) w e =
    let z = subst (Zip s.mutex t []) e (w.list t) in
    let (s₁, e₁, w₁, b, frame) = abandon_step s l t x w (subst (In x) (sym e) (inl refl)) in
    let l₁ = update l t (remove x (l t)) in
    let e₂ = update_hit l t (remove x (l t)) ∙ ap (remove x) e ∙ remove_head x xs in
    let (s', run, w', bs, frames) = abandon_all s₁ l₁ t xs w₁ e₂ in
    (
      s',
      ap₂ (abandon_loop (length xs)) z.right.2 e₁ ∙ run,
      subst (WellFormed s') (update_twice l t (remove x (l t)) []) w',
      (subst (LeftBy t) (sym (frames x z.behind.0)) b, bs),
      λ j n. frames j n.1 ∙ frame j (subst (NotIn j) (sym e) n) (other_sym x j n.0),
    )

left-state : (s : Store) (t m : ℕ) → LeftBy t (s.mutex m) → srfi18_mutex_state m s ≡ State.abandoned
unfolding srfi18_mutex_state
left-state s t m h = rw (h.0, h.1) refl

All-map : {P Q : ℕ → Type 0} (xs : List ℕ) → ((x : ℕ) → P x → Q x) → All P xs → All Q xs
All-map [] f a = tt
All-map (x ∷ xs) f a = (f x a.0, All-map xs f a.1)

-- The loop over the mutexes of a thread that ends has a round for each: it returns, the list of the
-- thread is then empty and the lists of the others stay, and each mutex that the thread had locked
-- answers `abandoned`.
pub srfi18_mutexes_abandon_lem :
    (s : Store) (l : ℕ → List ℕ) (t : ℕ)
    → WellFormed s l
    → (s' : Store) × (srfi18_mutexes_abandon (length (l t)) t s ≡ some s')
      × WellFormed s' (update l t [])
      × (s'.mutexes t ≡ none)
      × All (λ m. srfi18_mutex_state m s' ≡ State.abandoned) (l t)
unfolding srfi18_mutexes_abandon
srfi18_mutexes_abandon_lem s l t w =
    let (s', run, w', bs, frames) = abandon_all s l t (l t) w refl in
    (
      s',
      ap (λ o. abandon_loop (length (l t)) o s) (w.first t) ∙ run,
      w',
      w'.first t ∙ ap head (update_hit l t []),
      All-map (l t) (λ m b. left-state s' t m b) bs,
    )
