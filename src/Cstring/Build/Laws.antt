-- ===== src/Cstring/Build/Laws.antt =====
-- The constructors of strings against the operations on lists of characters.
use bigloo.Prelude.{
  ℕ, suc, ◌+◌, ◌-◌, ◌≤◌, ◌<◌, ltb, false, some, List, [], ◌∷◌, ◌++◌, ◌>>=◌, length, take, drop,
  get_elem?, ◌≡◌, ◌≢◌, refl, arith, ◌∙◌, length-append, length-take, length-drop, drop-length,
  append_assoc, append-nil, take_at, take_all, get_elem?-append_left, get_elem?-append_right,
  get_elem?-drop, get_elem?-take, inl, inr, ◌⊎◌,
}
use bigloo.Memory.{Str, len, memory, units, IsTerminated}
use bigloo.Memory.Laws.{
  units-memory, units-take, units-append, advance-drop, length-memory, of_memory_at,
}
use bigloo.Cstring.Equal.Laws.{take-drop-append}
use bigloo.Cstring.Build.{
  strlen, string_to_bstring, string_append, string_append_3, c_substring, blit_string,
}

units-memory_all : (s : Str) → units (len s + 1) (memory s) ≡ some (memory s)
units-memory_all s = rw (← e) (rw (append-nil (memory s)) at (units-append (memory s) []))
  where
    e : length (memory s) ≡ len s + 1
    e = omega (arith, length-memory s)

module _ (s t : Str) where
  -- `string_append` reads and writes within the three strings; the result has the characters of
  -- both, in order, and ends as the second string does.
  pub string_append_lem :
      string_append s t ≡ some (record { chars = s.chars ++ t.chars; after = t.after })
  unfolding string_append
  string_append_lem =
      rw (units-memory s, units-memory_all t, ← append_assoc s.chars t.chars (t.after ∷ []))
        (of_memory_at (len s + len t) (s.chars ++ t.chars) t.after (length-append s.chars t.chars))

-- `string_append_3` is `string_append` twice.
pub string_append_3-string_append :
    (s t u : Str) → string_append_3 s t u ≡ string_append s t >>= (λ r. string_append r u)
unfolding string_append_3
string_append_3-string_append s t u =
    rw
      (
        units-memory s,
        units-memory t,
        units-memory_all u,
        string_append_lem s t,
        string_append_lem (record { chars = s.chars ++ t.chars; after = t.after }) u,
        ← append_assoc t.chars u.chars (u.after ∷ []),
        ← append_assoc s.chars (t.chars ++ u.chars) (u.after ∷ []),
        of_memory_at (len s + len t + len u) (s.chars ++ (t.chars ++ u.chars)) u.after size,
        append_assoc s.chars t.chars u.chars,
      )
      refl
  where
    size : length (s.chars ++ (t.chars ++ u.chars)) ≡ len s + len t + len u
    size = omega (arith, length-append s.chars (t.chars ++ u.chars), length-append t.chars u.chars)

-- `c_substring` of bounds in order and within the string reads within it, and returns the
-- characters between the bounds, terminated.
pub c_substring_lem :
    (s : Str) (lo hi : ℕ)
    → lo ≤ hi
    → hi ≤ len s
    → c_substring s lo hi ≡ some (record { chars = take (hi - lo) (drop lo s.chars); after = 0 })
unfolding c_substring
c_substring_lem s lo hi h k =
    rw
      (
        ltb_false,
        advance-drop lo (memory s) (omega (arith, length-memory s)),
        units-take (hi - lo) (drop lo (memory s))
            (omega (arith, length-memory s, length-drop lo (memory s))),
        take-drop-append (hi - lo) lo s.chars (s.after ∷ []) (omega arith),
      )
      refl
  where
    ltb_false : ltb hi lo ≡ false
    ltb_false = ground arith

-- The two parts of an appended string can be cut out of it again.
pub c_substring-string_append :
    (s t : Str)
    → (string_append s t >>= (λ r. c_substring r 0 (len s))
        ≡ some (record { chars = s.chars; after = 0 }))
      × (string_append s t >>= (λ r. c_substring r (len s) (len r))
          ≡ some (record { chars = t.chars; after = 0 }))
c_substring-string_append s t =
    let r : Str = record { chars = s.chars ++ t.chars; after = t.after } in
    let size : len r ≡ len s + len t = length-append s.chars t.chars in
    (
      rw (string_append_lem s t, c_substring_lem r 0 (len s) (omega arith) (omega arith))
          (rw (take_at (len s - 0) s.chars t.chars (omega arith)) refl),
      rw (string_append_lem s t, c_substring_lem r (len s) (len r) (omega arith) (omega arith))
          (rw (drop-length s.chars t.chars, take_all (len r - len s) t.chars (omega arith)) refl),
    )

pub strlen_lem :
    (p rest : List ℕ)
    → ((i : ℕ) → get_elem? p i ≢ some 0)
    → strlen (p ++ 0 ∷ rest) ≡ some (length p)
unfolding strlen
strlen_lem [] rest h = refl
strlen_lem (c ∷ p) rest h = ground (arith, h 0, strlen_lem p rest (λ i. h (suc i)))

-- A terminated string without a 0 among its characters comes back from its `char *`.
pub string_to_bstring_round_trip :
    (s : Str)
    → IsTerminated s
    → ((i : ℕ) → get_elem? s.chars i ≢ some 0)
    → string_to_bstring (some (memory s)) ≡ some s
unfolding string_to_bstring
string_to_bstring_round_trip s e h =
    rw (e, strlen_lem s.chars [] h, units-append s.chars (0 ∷ [])) refl

-- The memory that `blit_string` leaves.
module _ (src dest n : ℕ) (m : List ℕ) (from : src + n ≤ length m) (to : dest + n ≤ length m) where
  abbrev moved : List ℕ
  moved = take dest m ++ (take n (drop src m) ++ drop (dest + n) m)

  blit_string-moved : blit_string src dest n m ≡ some moved
  unfolding blit_string
  blit_string-moved = ground arith

  -- Where both areas lie within a memory, `blit_string` succeeds whether or not they overlap, also
  -- within one string: the destination gets what the source held before, nothing else changes, and
  -- the memory keeps its length.
  pub blit_string_lem :
      (m' : List ℕ) × (blit_string src dest n m ≡ some m')
      × (length m' ≡ length m)
      × ((i : ℕ) → i < n → get_elem? m' (dest + i) ≡ get_elem? m (src + i))
      × ((j : ℕ) → (j < dest) ⊎ (dest + n ≤ j) → get_elem? m' j ≡ get_elem? m j)
  blit_string_lem = (
    moved,
    blit_string-moved,
    omega (
      arith,
      length-append (take dest m) (take n (drop src m) ++ drop (dest + n) m),
      length-append (take n (drop src m)) (drop (dest + n) m),
      length-drop src m,
      length-drop (dest + n) m,
      length-take dest m,
      length-take n (drop src m),
    ),
    λ i h.
        get_elem?-append_right (take dest m) (take n (drop src m) ++ drop (dest + n) m) i (dest + i)
          (omega (arith, length-take dest m))
        ∙ get_elem?-append_left (take n (drop src m)) (drop (dest + n) m) i
            (omega (arith, length-take n (drop src m), length-drop src m))
        ∙ get_elem?-take n (drop src m) i h
        ∙ get_elem?-drop src m i (src + i) refl,
    λ j h. elim h [
      | inl before ↦
          get_elem?-append_left (take dest m) (take n (drop src m) ++ drop (dest + n) m) j
            (omega (arith, length-take dest m))
          ∙ get_elem?-take dest m j before
      | inr behind ↦
          get_elem?-append_right (take dest m) (take n (drop src m) ++ drop (dest + n) m) (j - dest)
            j (omega (arith, length-take dest m))
          ∙ get_elem?-append_right (take n (drop src m)) (drop (dest + n) m) (j - (dest + n))
              (j - dest) (omega (arith, length-take n (drop src m), length-drop src m))
          ∙ get_elem?-drop (dest + n) m (j - (dest + n)) j (omega arith)
    ],
  )
