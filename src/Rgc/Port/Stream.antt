-- ===== src/Rgc/Port/Stream.antt =====
-- What the buffer functions ask of a port's `sysread`: it takes its bytes, in order, from a text.
use bigloo.Prelude.{ℕ, ◌≤◌, ◌<◌, Bool, true, List, ◌++◌, length, ◌≡◌, refl, ◌⊎◌, inl, inr}
use bigloo.Rgc.Port.{Read, bytes, failed}

-- `rest` is the text that is not yet read.
pub record Stream {S : Type 0} (read : S → ℕ → Read S) : Type 0 where
  pub rest : S → List ℕ
  pub rest-read :
      (s : S) (n : ℕ) (cs : List ℕ) (e : Bool) (s' : S)
      → read s n ≡ bytes cs e s'
      → rest s ≡ cs ++ rest s'
  pub read-le :
      (s : S) (n : ℕ) (cs : List ℕ) (e : Bool) (s' : S) → read s n ≡ bytes cs e s' → length cs ≤ n

module _ {S : Type 0} (read : S → ℕ → Read S) where
  -- A request for bytes gives one, or says that there are no more.
  abbrev pub Progresses : Type 0
  Progresses =
      (s : S) (n : ℕ) (cs : List ℕ) (e : Bool) (s' : S)
      → 0 < n
      → read s n ≡ bytes cs e s'
      → (0 < length cs) ⊎ (e ≡ true)

  pub read-cases :
      (s : S) (n : ℕ)
      → ((cs : List ℕ) × (e : Bool) × (s' : S) × (read s n ≡ bytes cs e s'))
        ⊎ ((reset : Bool) × (read s n ≡ failed reset))
  read-cases s n = go (read s n) refl
    where
      go :
          (r : Read S)
          → read s n ≡ r
          → ((cs : List ℕ) × (e : Bool) × (s' : S) × (read s n ≡ bytes cs e s'))
            ⊎ ((reset : Bool) × (read s n ≡ failed reset))
      go (bytes cs e s') h = inl (cs, e, s', h)
      go (failed reset) h = inr (reset, h)
