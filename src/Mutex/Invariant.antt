-- ===== src/Mutex/Invariant.antt =====
-- The well-formed stores, and the part of the operations that takes a mutex out of a list.
use bigloo.Prelude.{
  ℕ, ◌==◌, true, false, Bool-cases, Option, none, some, List, [], ◌∷◌, ◌≡◌, ◌⊎◌, inl, inr, refl,
  arith, ap, ◌∙◌,
}
use bigloo.Mutex.{Mutex, Store, update}
use bigloo.Mutex.Links.{head, Right, NotIn, Zip}
use bigloo.Mutex.Focus.{In, NotIn-of, remove, Right-thread}

-- A mutex of no list: no thread has it locked.
abbrev pub Free : Mutex → Type 0
Free x = (x.prev ≡ none) × (x.next ≡ none) × ((x.locked ≡ false) ⊎ (x.thread ≡ none))

-- `l t` is the list of the mutexes that the thread `t` has locked, the last one first.
pub record WellFormed (s : Store) (l : ℕ → List ℕ) : Type 0 where
  pub list : (t : ℕ) → Zip s.mutex t [] (l t)
  pub first : (t : ℕ) → s.mutexes t ≡ head (l t)
  pub members : (t m : ℕ) → In m (l t) → (s.mutex m).locked ≡ true
  pub status : (m : ℕ) → Free (s.mutex m) ⊎ ((t : ℕ) × In m (l t))

pub eq_of_test : (a b : ℕ) → (a == b) ≡ true → a ≡ b
eq_of_test a b h = ground arith

-- The mutexes but `m` keep their flag and their thread.
abbrev pub Others : ℕ → Store → Store → Type 0
Others m s s' =
    (j : ℕ)
    → (j ≡ m)
      ⊎ (((s'.mutex j).locked ≡ (s.mutex j).locked) × ((s'.mutex j).thread ≡ (s.mutex j).thread))

pub by_other :
    (m : ℕ) (s s' : Store)
    → ((j : ℕ)
        → (j == m) ≡ false
        → ((s'.mutex j).locked ≡ (s.mutex j).locked) × ((s'.mutex j).thread ≡ (s.mutex j).thread))
    → Others m s s'
by_other m s s' h j = elim (Bool-cases (j == m)) [
  | inl e ↦ inl (eq_of_test j m e)
  | inr e ↦ inr (h j e)
]

pub Others-trans : (m : ℕ) (s s' s'' : Store) → Others m s s' → Others m s' s'' → Others m s s''
Others-trans m s s' s'' h k j = elim (h j) [
  | inl e ↦ inl e
  | inr (p, q) ↦ elim (k j) [ inl e ↦ inl e | inr (p', q') ↦ inr (p' ∙ p, q' ∙ q) ]
]

pub update_miss :
    {A : Type 0} (f : ℕ → A) (k : ℕ) (v : A) (j : ℕ) → (j == k) ≡ false → update f k v j ≡ f j
update_miss f k v j e = rw e refl

pub update_hit : {A : Type 0} (f : ℕ → A) (k : ℕ) (v : A) → update f k v k ≡ v
update_hit f k v = ground arith

pub remove_head : (m : ℕ) (xs : List ℕ) → remove m (m ∷ xs) ≡ xs
remove_head m xs = ground arith

pub Right-ext :
    (f g : ℕ → Mutex) (t : ℕ) (p : Option ℕ) (xs : List ℕ)
    → ((j : ℕ) → In j xs → g j ≡ f j)
    → Right f t p xs
    → Right g t p xs
Right-ext f g t p [] e r = tt
Right-ext f g t p (x ∷ xs) e r =
    let h = e x (inl refl) in
    (
      ap (λ y. y.thread) h ∙ r.0,
      ap (λ y. y.prev) h ∙ r.1,
      ap (λ y. y.next) h ∙ r.2,
      Right-ext f g t (some x) xs (λ j i. e j (inr i)) r.3,
    )

pub Zip-ext :
    (f g : ℕ → Mutex) (t : ℕ) (xs : List ℕ)
    → ((j : ℕ) → In j xs → g j ≡ f j)
    → Zip f t [] xs
    → Zip g t [] xs
Zip-ext f g t xs e z = record {
  left = tt;
  right = Right-ext f g t none xs e z.right;
  before = tt;
  behind = z.behind;
  apart = tt;
}

pub In-thread :
    (s : Store) (l : ℕ → List ℕ) (t j : ℕ)
    → WellFormed s l
    → In j (l t)
    → (s.mutex j).thread ≡ some t
In-thread s l t j w i = Right-thread s.mutex t none j (l t) (w.list t).right i

pub Free-NotIn :
    (s : Store) (l : ℕ → List ℕ) (t j : ℕ) → WellFormed s l → Free (s.mutex j) → NotIn j (l t)
Free-NotIn s l t j w h =
    NotIn-of (λ x. In x (l t)) j (l t) (λ x i. i)
      (λ i. elim h.2 [
        | inl p ↦ ground (arith, w.members t j i)
        | inr p ↦ ground (arith, In-thread s l t j w i)
      ])

-- A property of the list of each thread, where that of `t` is shown apart.
pub by_thread :
    (l : ℕ → List ℕ) (t : ℕ) (xs : List ℕ) (P : ℕ → List ℕ → Type 0)
    → P t xs
    → ((u : ℕ) → (u == t) ≡ false → P u (l u))
    → (u : ℕ) → P u (update l t xs u)
by_thread l t xs P a b u = elim (Bool-cases (u == t)) [
  | inl e ↦ rw (e, eq_of_test u t e) a
  | inr e ↦ rw e (b u e)
]

pub NotIn-others :
    (s : Store) (l : ℕ → List ℕ) (t u j : ℕ)
    → WellFormed s l
    → In j (l u)
    → (u == t) ≡ false
    → NotIn j (l t)
NotIn-others s l t u j w i n =
    NotIn-of (λ x. (s.mutex x).thread ≡ some t) j (l t) (λ x k. In-thread s l t x w k)
      (λ h. ground (arith, In-thread s l u j w i))
