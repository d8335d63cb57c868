-- ===== src/Rgc/Port/Laws.antt =====
-- What `store` and `move` do within the characters of a buffer.
use bigloo.Prelude.{
  ℕ, zero, suc, ◌+◌, ◌≤◌, leb, true, some, List, [], ◌∷◌, ◌++◌, length, take, drop, ◌≡◌, refl,
  arith, ap, ◌∙◌, sym, append_assoc, length-append, length-take, length-drop, drop-append,
  take-append, take_at, drop_at, drop-take, take_past, ◌-◌, drop-drop, take-append-drop,
}
use bigloo.Memory.{Str, len, memory, of_memory}
use bigloo.Memory.Laws.{length-memory, of_memory_at}
use bigloo.Cstring.Build.{memmove}
use bigloo.Rgc.Port.{store, move, fresh_units}

pub length-fresh_units : (held : ℕ → ℕ) (n : ℕ) → length (fresh_units held n) ≡ n
unfolding fresh_units
length-fresh_units held zero = refl
length-fresh_units held (suc n) = ap suc (length-fresh_units held n)

-- The characters with `cs` from the offset `o` on.
abbrev pub stored : ℕ → List ℕ → List ℕ → List ℕ
stored o cs xs = take o xs ++ (cs ++ drop (o + length cs) xs)

pub length-stored :
    (o : ℕ) (cs xs : List ℕ) → o + length cs ≤ length xs → length (stored o cs xs) ≡ length xs
length-stored o cs xs h = omega (
  arith,
  length-append (take o xs) (cs ++ drop (o + length cs) xs),
  length-append cs (drop (o + length cs) xs),
  length-take o xs,
  length-drop (o + length cs) xs,
)

pub take-stored :
    (o : ℕ) (cs xs : List ℕ)
    → o + length cs ≤ length xs
    → take (o + length cs) (stored o cs xs) ≡ take o xs ++ cs
take-stored o cs xs h = rw (← append_assoc (take o xs) cs (drop (o + length cs) xs)) (
    take_at (o + length cs) (take o xs ++ cs) (drop (o + length cs) xs)
      (omega (arith, length-append (take o xs) cs, length-take o xs)))

pub stored_twice :
    (o : ℕ) (cs ds xs : List ℕ)
    → o + length cs ≤ length xs
    → stored (o + length cs) ds (stored o cs xs) ≡ stored o (cs ++ ds) xs
stored_twice o cs ds xs h =
    let end = drop (o + length cs) xs in
    let ys = stored o cs xs in
    let cut : drop (o + length cs) ys ≡ end =
      ap (drop (o + length cs)) (sym (append_assoc (take o xs) cs end))
      ∙ drop_at (o + length cs) (take o xs ++ cs) end
          (omega (arith, length-append (take o xs) cs, length-take o xs)) in
    let far : o + length cs + length ds ≡ o + length (cs ++ ds) =
      omega (arith, length-append cs ds) in
    let back : drop (o + length cs + length ds) ys ≡ drop (o + length (cs ++ ds)) xs =
      sym (drop-drop (length ds) (o + length cs) ys)
      ∙ ap (drop (length ds)) cut
      ∙ drop-drop (length ds) (o + length cs) xs
      ∙ ap (λ k. drop k xs) far in
    ap (λ zs. zs ++ (ds ++ drop (o + length cs + length ds) ys)) (take-stored o cs xs h)
    ∙ ap (λ zs. (take o xs ++ cs) ++ (ds ++ zs)) back
    ∙ append_assoc (take o xs) cs (ds ++ drop (o + length (cs ++ ds)) xs)
    ∙ ap (λ zs. take o xs ++ zs) (sym (append_assoc cs ds (drop (o + length (cs ++ ds)) xs)))

pub stored_nothing : (o : ℕ) (xs : List ℕ) → stored o [] xs ≡ xs
stored_nothing o xs =
    let e : o + 0 ≡ o = omega arith in ap (λ k. take o xs ++ drop k xs) e ∙ take-append-drop o xs

-- What stands behind the offset after a store below the bound `b`.
pub drop-stored :
    (o b : ℕ) (cs xs : List ℕ)
    → o + length cs ≤ b
    → b ≤ length xs
    → drop o (take b (stored o cs xs)) ≡ cs ++ drop (o + length cs) (take b xs)
drop-stored o b cs xs h k =
    let rest = drop (o + length cs) xs in
    let cut : drop o (stored o cs xs) ≡ cs ++ rest =
      drop_at o (take o xs) (cs ++ rest) (omega (arith, length-take o xs)) in
    drop-take o b (stored o cs xs)
    ∙ ap (take (b - o)) cut
    ∙ take_past (b - o) (b - (o + length cs)) cs rest (omega arith)
    ∙ ap (λ ys. cs ++ ys) (sym (drop-take (o + length cs) b xs))

module _ (s : Str) where
  last_stored :
      (o : ℕ) (cs : List ℕ)
      → o + length cs ≤ len s
      → take o (memory s) ++ (cs ++ drop (o + length cs) (memory s))
        ≡ stored o cs s.chars ++ s.after ∷ []
  last_stored o cs h =
      let end = drop (o + length cs) s.chars in
      ap (λ xs. xs ++ (cs ++ drop (o + length cs) (memory s)))
        (take-append o s.chars (s.after ∷ []) (omega arith))
      ∙ ap (λ xs. take o s.chars ++ (cs ++ xs))
          (drop-append (o + length cs) s.chars (s.after ∷ []) h)
      ∙ ap (λ xs. take o s.chars ++ xs) (sym (append_assoc cs end (s.after ∷ [])))
      ∙ sym (append_assoc (take o s.chars) (cs ++ end) (s.after ∷ []))

  pub store-chars :
      (o : ℕ) (cs : List ℕ)
      → o + length cs ≤ len s
      → store o cs s ≡ some (record { chars = stored o cs s.chars; after = s.after })
  unfolding store
  store-chars o cs h =
      let fits : leb (o + length cs) (length (memory s)) ≡ true = ground (arith, length-memory s) in
      rw (fits, last_stored o cs h)
        (of_memory_at (len s) (stored o cs s.chars) s.after (length-stored o cs s.chars h))

  -- The units that are moved may include the one behind the characters.
  pub move-chars :
      (dest src n : ℕ)
      → dest + n ≤ len s
      → src + n ≤ suc (len s)
      → move dest src n s
        ≡ some
            (record { chars = stored dest (take n (drop src (memory s))) s.chars; after = s.after })
  unfolding move memmove
  move-chars dest src n h k =
      let cs = take n (drop src (memory s)) in
      let size : length cs ≡ n =
        length-take n (drop src (memory s))
          (omega (arith, length-drop src (memory s), length-memory s)) in
      let from : leb (src + n) (length (memory s)) ≡ true = ground (arith, length-memory s) in
      let to : leb (dest + n) (length (memory s)) ≡ true = ground (arith, length-memory s) in
      rw (from, to)
        (ap (λ k. of_memory (len s) (take dest (memory s) ++ (cs ++ drop (dest + k) (memory s))))
            (sym size)
          ∙ ap (of_memory (len s)) (last_stored dest cs (omega (arith, size)))
          ∙ of_memory_at (len s) (stored dest cs s.chars) s.after
              (length-stored dest cs s.chars (omega (arith, size))))
