-- ===== src/Mutex/Lists.antt =====
-- The mutex at the gap leaves its list.
use bigloo.Prelude.{ℕ, ◌==◌, true, Option, none, some, List, [], ◌∷◌, ◌≡◌, refl, arith}
use bigloo.Mutex.{Mutex, set_prev, set_next, set_thread}
use bigloo.Mutex.Links.{
  head, Left, Right, NotIn, Distinct, Apart, Zip, Apart-NotIn, Left-update, Right-update,
}

abbrev pub unlinked_before : ℕ → Option ℕ → Option ℕ → (ℕ → Mutex) → ℕ → Mutex
unlinked_before m (some p) next f = set_next p next (set_prev m none f)
unlinked_before m none next f = f

abbrev pub unlinked_behind : ℕ → Option ℕ → Option ℕ → (ℕ → Mutex) → ℕ → Mutex
unlinked_behind m prev (some n) f = set_prev n prev (set_next m none f)
unlinked_behind m prev none f = f

abbrev pub unlinked : ℕ → Option ℕ → Option ℕ → (ℕ → Mutex) → ℕ → Mutex
unlinked m prev next f =
    set_thread m none (unlinked_behind m prev next (unlinked_before m prev next f))

pub ==_refl : (a : ℕ) → (a == a) ≡ true
==_refl a = ground arith

module _ (t m : ℕ) where
  -- The mutex before the gap is tied to what is behind `m`.
  before-Left :
      (f : ℕ → Mutex) (n : Option ℕ) (xs : List ℕ)
      → NotIn m xs
      → Distinct xs
      → Left f t (some m) xs
      → Left (unlinked_before m (head xs) n f) t n xs
  before-Left f n [] p d h = tt
  before-Left f n (x ∷ xs) p d h =
      let rest = Left-update f t m (record (f m) { prev = none }) (some x) xs p.1 h.3 in
      rw (==_refl x, p.0)
        (h.0, refl, h.2, Left-update (set_prev m none f) t x _ (some x) xs d.0 rest)

  before-Right :
      (f : ℕ → Mutex) (n q : Option ℕ) (xs ys : List ℕ)
      → NotIn m ys
      → Apart xs ys
      → Right f t q ys
      → Right (unlinked_before m (head xs) n f) t q ys
  before-Right f n q [] ys p a h = h
  before-Right f n q (x ∷ xs) ys p a h =
      Right-update (set_prev m none f) t x _ q ys a.0 (Right-update f t m _ q ys p h)

  -- The mutex behind the gap is tied to what is before `m`.
  behind-Right :
      (f : ℕ → Mutex) (q : Option ℕ) (ys : List ℕ)
      → NotIn m ys
      → Distinct ys
      → Right f t (some m) ys
      → Right (unlinked_behind m q (head ys) f) t q ys
  behind-Right f q [] p d h = tt
  behind-Right f q (y ∷ ys) p d h =
      let rest = Right-update f t m (record (f m) { next = none }) (some y) ys p.1 h.3 in
      rw (==_refl y, p.0)
        (h.0, refl, h.2, Right-update (set_next m none f) t y _ (some y) ys d.0 rest)

  behind-Left :
      (f : ℕ → Mutex) (n q : Option ℕ) (xs ys : List ℕ)
      → NotIn m xs
      → Apart xs ys
      → Left f t n xs
      → Left (unlinked_behind m q (head ys) f) t n xs
  behind-Left f n q xs [] p a h = h
  behind-Left f n q xs (y ∷ ys) p a h =
      Left-update (set_next m none f) t y _ n xs (Apart-NotIn y xs ys a).0
        (Left-update f t m _ n xs p h)

  pub Zip-unlinked :
      (f : ℕ → Mutex) (xs ys : List ℕ)
      → Zip f t xs (m ∷ ys)
      → Zip (unlinked m (head xs) (head ys) f) t xs ys
  Zip-unlinked f xs ys z =
      let (p, a) = Apart-NotIn m xs ys z.apart in
      let f₁ = unlinked_before m (head xs) (head ys) f in
      let f₂ = unlinked_behind m (head xs) (head ys) f₁ in
      let l =
        behind-Left f₁ (head ys) (head xs) xs ys p a
          (before-Left f (head ys) xs p z.before z.left) in
      let r =
        behind-Right f₁ (head xs) ys z.behind.0 z.behind.1
          (before-Right f (head ys) (some m) xs ys z.behind.0 a z.right.3) in
      record {
        left = Left-update f₂ t m _ (head ys) xs p l;
        right = Right-update f₂ t m _ (head xs) ys z.behind.0 r;
        before = z.before;
        behind = z.behind.1;
        apart = a;
      }
