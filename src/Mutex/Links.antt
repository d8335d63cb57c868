-- ===== src/Mutex/Links.antt =====
-- A list linked in both directions, seen from a gap in it: the mutexes before the gap, the nearest
-- one first, and those behind it.
use bigloo.Prelude.{ℕ, ◌==◌, false, Option, none, some, List, [], ◌∷◌, ◌≡◌, arith}
use bigloo.Mutex.{Mutex, update}

abbrev pub head : List ℕ → Option ℕ
head [] = none
head (x ∷ xs) = some x

-- The mutexes behind the gap, where `p` is the one before it.
abbrev pub Right : (ℕ → Mutex) → ℕ → Option ℕ → List ℕ → Type 0
Right f t p [] = Unit
Right f t p (x ∷ xs) =
    ((f x).thread ≡ some t) × ((f x).prev ≡ p) × ((f x).next ≡ head xs) × Right f t (some x) xs

-- The mutexes before the gap, where `n` is the one behind it.
abbrev pub Left : (ℕ → Mutex) → ℕ → Option ℕ → List ℕ → Type 0
Left f t n [] = Unit
Left f t n (x ∷ xs) =
    ((f x).thread ≡ some t) × ((f x).next ≡ n) × ((f x).prev ≡ head xs) × Left f t (some x) xs

abbrev pub NotIn : ℕ → List ℕ → Type 0
NotIn a [] = Unit
NotIn a (x ∷ xs) = ((x == a) ≡ false) × NotIn a xs

abbrev pub Distinct : List ℕ → Type 0
Distinct [] = Unit
Distinct (x ∷ xs) = NotIn x xs × Distinct xs

abbrev pub Apart : List ℕ → List ℕ → Type 0
Apart [] ys = Unit
Apart (x ∷ xs) ys = NotIn x ys × Apart xs ys

pub record Zip (f : ℕ → Mutex) (t : ℕ) (xs ys : List ℕ) : Type 0 where
  pub left : Left f t (head ys) xs
  pub right : Right f t (head xs) ys
  pub before : Distinct xs
  pub behind : Distinct ys
  pub apart : Apart xs ys

pub other_sym : (a b : ℕ) → (a == b) ≡ false → (b == a) ≡ false
other_sym a b h = ground arith

pub Apart-NotIn : (x : ℕ) (xs ys : List ℕ) → Apart xs (x ∷ ys) → NotIn x xs × Apart xs ys
Apart-NotIn x [] ys h = (tt, tt)
Apart-NotIn x (a ∷ xs) ys h =
    let (n, r) = Apart-NotIn x xs ys h.1 in ((other_sym x a h.0.0, n), (h.0.1, r))

NotIn-Apart : (x : ℕ) (xs ys : List ℕ) → NotIn x xs → Apart xs ys → Apart xs (x ∷ ys)
NotIn-Apart x [] ys n h = tt
NotIn-Apart x (a ∷ xs) ys n h = ((other_sym a x n.0, h.0), NotIn-Apart x xs ys n.1 h.1)

module _ {f : ℕ → Mutex} {t : ℕ} where
  -- The gap moves over a mutex.
  pub Zip-next : (x : ℕ) (xs ys : List ℕ) → Zip f t xs (x ∷ ys) → Zip f t (x ∷ xs) ys
  Zip-next x xs ys z =
      let (n, r) = Apart-NotIn x xs ys z.apart in
      record {
        left = (z.right.0, z.right.2, z.right.1, z.left);
        right = z.right.3;
        before = (n, z.before);
        behind = z.behind.1;
        apart = (z.behind.0, r);
      }

  pub Zip-back : (x : ℕ) (xs ys : List ℕ) → Zip f t (x ∷ xs) ys → Zip f t xs (x ∷ ys)
  Zip-back x xs ys z = record {
    left = z.left.3;
    right = (z.left.0, z.left.2, z.left.1, z.right);
    before = z.before.1;
    behind = (z.apart.0, z.behind);
    apart = NotIn-Apart x xs ys z.before.0 z.apart.1;
  }

module _ (f : ℕ → Mutex) (t a : ℕ) (v : Mutex) where
  pub Right-update :
      (p : Option ℕ) (xs : List ℕ) → NotIn a xs → Right f t p xs → Right (update f a v) t p xs
  Right-update p [] n h = tt
  Right-update p (x ∷ xs) n h = rw n.0 (h.0, h.1, h.2, Right-update (some x) xs n.1 h.3)

  pub Left-update :
      (p : Option ℕ) (xs : List ℕ) → NotIn a xs → Left f t p xs → Left (update f a v) t p xs
  Left-update p [] n h = tt
  Left-update p (x ∷ xs) n h = rw n.0 (h.0, h.1, h.2, Left-update (some x) xs n.1 h.3)
