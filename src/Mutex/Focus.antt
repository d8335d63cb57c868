-- ===== src/Mutex/Focus.antt =====
-- Members of a list of mutexes, and the gap at a member.
use bigloo.Prelude.{
  ℕ, ◌==◌, Bool, true, false, Bool-cases, Option, some, List, [], ◌∷◌, ◌≡◌, ◌⊎◌, inl, inr, refl,
  arith, ap, ◌∙◌, sym, if◌then◌else◌,
}
use bigloo.Mutex.{Mutex}
use bigloo.Mutex.Links.{head, Right, NotIn, Zip, Zip-next, Zip-back}

abbrev pub In : ℕ → List ℕ → Type 0
In a [] = ⊥
In a (x ∷ xs) = (x ≡ a) ⊎ In a xs

abbrev pub rev_append : List ℕ → List ℕ → List ℕ
rev_append [] ys = ys
rev_append (x ∷ xs) ys = rev_append xs (x ∷ ys)

abbrev pub remove : ℕ → List ℕ → List ℕ
remove a [] = []
remove a (x ∷ xs) = if x == a then xs else x ∷ remove a xs

pub In-NotIn : (a : ℕ) (xs : List ℕ) → In a xs → NotIn a xs → ⊥
In-NotIn a [] i n = elim i [ ]
In-NotIn a (x ∷ xs) (inl e) n = ground (arith, n.0)
In-NotIn a (x ∷ xs) (inr i) n = In-NotIn a xs i n.1

-- What holds of all the members, and not of `a`, keeps `a` out of the list.
pub NotIn-of :
    (P : ℕ → Type 0) (a : ℕ) (xs : List ℕ) → ((x : ℕ) → In x xs → P x) → ¬ P a → NotIn a xs
NotIn-of P a [] h n = tt
NotIn-of P a (x ∷ xs) h n =
    let rest = NotIn-of P a xs (λ y i. h y (inr i)) n in
    elim (Bool-cases (x == a)) [ inl e ↦ absurd (n (h a (inl (ground arith)))) | inr e ↦ (e, rest) ]

pub NotIn-rev_append :
    (a : ℕ) (xs ys : List ℕ) → NotIn a (rev_append xs ys) → NotIn a xs × NotIn a ys
NotIn-rev_append a [] ys n = (tt, n)
NotIn-rev_append a (x ∷ xs) ys n = let (p, q) = NotIn-rev_append a xs (x ∷ ys) n in ((q.0, p), q.1)

pub rev_append-NotIn :
    (a : ℕ) (xs ys : List ℕ) → NotIn a xs → NotIn a ys → NotIn a (rev_append xs ys)
rev_append-NotIn a [] ys p q = q
rev_append-NotIn a (x ∷ xs) ys p q = rev_append-NotIn a xs (x ∷ ys) p.1 (p.0, q)

pub remove-rev_append :
    (a : ℕ) (xs ys : List ℕ)
    → NotIn a xs
    → remove a (rev_append xs ys) ≡ rev_append xs (remove a ys)
remove-rev_append a [] ys p = refl
remove-rev_append a (x ∷ xs) ys p =
    let rest = remove-rev_append a xs (x ∷ ys) p.1 in rest ∙ (rw p.0 refl)

-- The first of a list does not depend on what stands behind a gap that is not its beginning.
pub head-rev_append :
    (x : ℕ) (xs ys zs : List ℕ) → head (rev_append (x ∷ xs) ys) ≡ head (rev_append (x ∷ xs) zs)
head-rev_append x [] ys zs = refl
head-rev_append x (y ∷ xs) ys zs = head-rev_append y xs (x ∷ ys) (x ∷ zs)

In-if :
    (b : Bool) (x y : ℕ) (xs ys : List ℕ)
    → In x (if b then xs else y ∷ ys)
    → In x xs ⊎ ((y ≡ x) ⊎ In x ys)
In-if true x y xs ys i = inl i
In-if false x y xs ys i = inr i

pub In-remove : (a x : ℕ) (xs : List ℕ) → In x (remove a xs) → In x xs
In-remove a x [] i = elim i [ ]
In-remove a x (y ∷ xs) i = elim (In-if (y == a) x y xs (remove a xs) i) [
  | inl j ↦ inr j
  | inr (inl e) ↦ inl e
  | inr (inr j) ↦ inr (In-remove a x xs j)
]

pub remove-In : (a x : ℕ) (xs : List ℕ) → In x xs → (a == x) ≡ false → In x (remove a xs)
remove-In a x [] i n = elim i [ ]
remove-In a x (y ∷ xs) i n = elim (Bool-cases (y == a)) [
  | inl e ↦ rw e (elim i [ inl p ↦ absurd (ground arith) | inr j ↦ j ])
  | inr e ↦ rw e (elim i [ inl p ↦ inl p | inr j ↦ inr (remove-In a x xs j n) ])
]

module _ (f : ℕ → Mutex) (t : ℕ) where
  pub Zip-all : (xs ys : List ℕ) → Zip f t xs ys → Zip f t [] (rev_append xs ys)
  Zip-all [] ys z = z
  Zip-all (x ∷ xs) ys z = Zip-all xs (x ∷ ys) (Zip-back x xs ys z)

  pub Right-thread :
      (p : Option ℕ) (a : ℕ) (xs : List ℕ) → Right f t p xs → In a xs → (f a).thread ≡ some t
  Right-thread p a [] r i = elim i [ ]
  Right-thread p a (x ∷ xs) r (inl e) = ap (λ y. (f y).thread) (sym e) ∙ r.0
  Right-thread p a (x ∷ xs) r (inr i) = Right-thread (some x) a xs r.3 i

-- The gap before the mutex `m` of the list `l`.
pub record Gap (f : ℕ → Mutex) (t m : ℕ) (l : List ℕ) : Type 0 where
  pub before : List ℕ
  pub behind : List ℕ
  pub zip : Zip f t before (m ∷ behind)
  pub whole : rev_append before (m ∷ behind) ≡ l

module _ {f : ℕ → Mutex} {t m : ℕ} where
  seek : (xs ys : List ℕ) → In m ys → Zip f t xs ys → Gap f t m (rev_append xs ys)
  seek xs [] i z = elim i [ ]
  seek xs (y ∷ ys) (inl e) z = record {
    before = xs;
    behind = ys;
    zip = rw (sym e) z;
    whole = rw (sym e) refl;
  }
  seek xs (y ∷ ys) (inr i) z = seek (y ∷ xs) ys i (Zip-next y xs ys z)

  pub In-Gap : (l : List ℕ) → In m l → Zip f t [] l → Gap f t m l
  In-Gap l i z = seek [] l i z
