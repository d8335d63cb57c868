-- ===== src/Ports/Source/Laws.antt =====
-- Each source of an input port is a text, which its reads take in order.
use bigloo.Prelude.{
  ℕ, zero, suc, ◌+◌, ◌-◌, ◌≤◌, ◌<◌, ltb, leb, true, Option, none, some, List, [], ◌∷◌, ◌++◌, length,
  take, drop, if◌then◌else◌, ◌≡◌, refl, arith, ap, ◌∙◌, sym, ◌⊎◌, inl, inr, append_assoc,
  take-append-drop, take_all, take-le_length, take-take, drop-take, drop-drop, length-drop,
  Bool-cases,
}
use mathlib.Core.Path.{subst}
use bigloo.Rgc.Port.{Read, bytes, failed}
use bigloo.Rgc.Port.Stream.{Stream, Progresses}
use bigloo.Ports.Source.{
  bgl_eof_read, Answer, got, refused, answered, bgl_read, Proc, from_pbuffer, from_call,
  bgl_proc_read, Mmap, bgl_input_mmap_read,
}

module _ {S : Type 0} (rest : S → List ℕ) where
  -- An answer to a request for `n` bytes takes them from the text.
  unfoldable pub IsTaken : S → ℕ → Read S → Type 0
  IsTaken s n (bytes cs e s') = (rest s ≡ cs ++ rest s') × (length cs ≤ n)
  IsTaken s n (failed reset) = 0 ≤ n

  IsTaken-same : (s s' : S) (n : ℕ) (r : Read S) → rest s ≡ rest s' → IsTaken s' n r → IsTaken s n r
  unfolding IsTaken
  IsTaken-same s s' n (bytes cs e s'') h (t, k) = (h ∙ t, k)
  IsTaken-same s s' n (failed reset) h k = k

  unfoldable stream_of :
      {read : S → ℕ → Read S} → ((s : S) (n : ℕ) → IsTaken s n (read s n)) → Stream read
  unfolding IsTaken
  stream_of taken = record {
    rest = rest;
    rest-read = λ s n cs e s' h. (subst (IsTaken s n) h (taken s n)).0;
    read-le = λ s n cs e s' h. (subst (IsTaken s n) h (taken s n)).1;
  }

module _ {S : Type 0} where
  Moves : Read S → Type 0
  Moves (bytes cs e s') = (0 < length cs) ⊎ (e ≡ true)
  Moves (failed reset) = 0 ≤ 0

  progress_of :
      (read : S → ℕ → Read S) → ((s : S) (n : ℕ) → 0 < n → Moves (read s n)) → Progresses read
  unfolding Moves
  progress_of read moves s n cs e s' big h = subst Moves h (moves s n big)

-- A string port has no text but that of its buffer.
unfoldable pub eof_stream : {S : Type 0} → Stream (bgl_eof_read {S = S})
unfolding bgl_eof_read IsTaken stream_of
eof_stream = stream_of (λ s. []) (λ s n. (refl, omega arith))

module _ {F : Type 0} (sys : F → ℕ → Answer F) where
  -- What read(2) is documented to do: it gives the bytes of a file in order, at most as many as
  -- are asked for.
  pub record Reads : Type 0 where
    pub text : F → List ℕ
    pub text-got :
        (f : F) (n : ℕ) (cs : List ℕ) (f' : F) → sys f n ≡ got cs f' → text f ≡ cs ++ text f'
    pub got-le : (f : F) (n : ℕ) (cs : List ℕ) (f' : F) → sys f n ≡ got cs f' → length cs ≤ n

  unfoldable pub read_stream : Reads → Stream (bgl_read sys)
  unfolding bgl_read IsTaken stream_of
  read_stream r = stream_of r.text (λ f n. answered-IsTaken f n (sys f n) refl)
    where
      answered-IsTaken :
          (f : F) (n : ℕ) (a : Answer F) → sys f n ≡ a → IsTaken r.text f n (answered a)
      answered-IsTaken f n (got [] f') h = (r.text-got f n [] f' h, omega arith)
      answered-IsTaken f n (got (c ∷ cs) f') h =
          (r.text-got f n (c ∷ cs) f' h, r.got-le f n (c ∷ cs) f' h)
      answered-IsTaken f n (refused reset) h = omega arith

  answered-Moves : (a : Answer F) → Moves (answered a)
  unfolding Moves
  answered-Moves (got [] f') = inr refl
  answered-Moves (got (c ∷ cs) f') = inl (omega arith)
  answered-Moves (refused reset) = omega arith

  pub read-Progresses : Progresses (bgl_read sys)
  unfolding bgl_read
  read-Progresses = progress_of (bgl_read sys) (λ f n big. answered-Moves (sys f n))

module _ {G : Type 0} (call : G → Option (List ℕ) × G) where
  -- The strings that the procedure gives, in order.
  pub record Produces : Type 0 where
    pub text : G → List ℕ
    pub text-some :
        (g : G) (buf : List ℕ) (g' : G) → call g ≡ (some buf, g') → text g ≡ buf ++ text g'
    pub text-none : (g : G) (g' : G) → call g ≡ (none, g') → text g ≡ text g'

  module _ (t : Produces) where
    abbrev pub left : Option (List ℕ) → ℕ → List ℕ
    left none p = []
    left (some buf) p = drop p buf

    unfoldable pub proc_rest : Proc G → List ℕ
    proc_rest port = left port.pbuffer port.pbufpos ++ t.text port.proc

    pbuffer-IsTaken :
        (port : Proc G) (buf : List ℕ) (l : ℕ)
        → IsTaken proc_rest (record port { pbuffer = some buf }) l (from_pbuffer port buf l)
    unfolding from_pbuffer IsTaken proc_rest
    pbuffer-IsTaken port buf l =
        let d = drop port.pbufpos buf in
        let r = length buf - port.pbufpos in
        let after = t.text port.proc in
        elim (Bool-cases (leb r l)) [
          | inl all ↦ rw all (
            ap (λ xs. xs ++ after)
                (sym (take_all r d (omega (arith, length-drop port.pbufpos buf)))),
            ground (arith, take-le_length r d),
          )
          | inr part ↦ rw part (
            ap (λ xs. xs ++ after)
                  (sym (take-append-drop l d)
                    ∙ ap (λ xs. take l d ++ xs) (drop-drop l port.pbufpos buf))
                ∙ append_assoc (take l d) (drop (port.pbufpos + l) buf) after,
            take-le_length l d,
          )
        ]

    call-IsTaken :
        (g : G) (l : ℕ) (r : Option (List ℕ) × G)
        → call g ≡ r
        → IsTaken proc_rest
            (record { proc = g; pbuffer = none; pbufpos = 0 })
            l
            (from_call r (record { proc = g; pbuffer = none; pbufpos = 0 }) l)
    unfolding from_call IsTaken proc_rest
    call-IsTaken g l (none, g') h = (t.text-none g g' h, omega arith)
    call-IsTaken g l (some buf, g') h =
        let q : Proc G = record { proc = g'; pbuffer = none; pbufpos = 0 } in
        IsTaken-same proc_rest (record { proc = g; pbuffer = none; pbufpos = 0 })
          (record q { pbuffer = some buf }) l (from_pbuffer q buf l) (t.text-some g buf g' h)
          (pbuffer-IsTaken q buf l)

    -- The place in the string is within it, and at the start of the next one where there is none.
    abbrev pub Place : Option (List ℕ) → ℕ → Type 0
    Place none p = p ≡ 0
    Place (some buf) p = p ≤ length buf

    abbrev pub IsPlaced : Proc G → Type 0
    IsPlaced port = Place port.pbuffer port.pbufpos

    unfoldable pub IsNext : Read (Proc G) → Type 0
    IsNext (bytes cs e port) = IsPlaced port
    IsNext (failed reset) = 0 ≤ 0

    pbuffer-IsNext : (port : Proc G) (buf : List ℕ) (l : ℕ) → IsNext (from_pbuffer port buf l)
    unfolding from_pbuffer IsNext
    pbuffer-IsNext port buf l = elim (Bool-cases (leb (length buf - port.pbufpos) l)) [
      | inl all ↦ rw all refl
      | inr part ↦ rw part (ground arith)
    ]

    call-IsNext :
        (g : G) (l : ℕ) (r : Option (List ℕ) × G)
        → IsNext (from_call r (record { proc = g; pbuffer = none; pbufpos = 0 }) l)
    unfolding from_call IsNext
    call-IsNext g l (none, g') = refl
    call-IsNext g l (some buf, g') =
        pbuffer-IsNext (record { proc = g'; pbuffer = none; pbufpos = 0 }) buf l

    -- A read of a procedure port whose place is within the last string that its procedure gave, or at
    -- the start of the next one when there is none, gives the first bytes of what is left of
    -- that string, or of the next, at most as many as are asked for; the text goes on behind them,
    -- and the place is again within the string, or at the start of the next one.
    pub proc_read-IsTaken :
        (port : Proc G) (l : ℕ)
        → IsPlaced port
        → IsTaken proc_rest port l (bgl_proc_read call port l) × IsNext (bgl_proc_read call port l)
    unfolding bgl_proc_read
    proc_read-IsTaken port l h = go port.pbuffer port.pbufpos h
      where
        go :
            (o : Option (List ℕ)) (p : ℕ)
            → Place o p
            → IsTaken proc_rest
                (record port { pbuffer = o; pbufpos = p })
                l
                (bgl_proc_read call (record port { pbuffer = o; pbufpos = p }) l)
              × IsNext (bgl_proc_read call (record port { pbuffer = o; pbufpos = p }) l)
        go (some buf) p h =
            let q = record port { pbuffer = some buf; pbufpos = p } in
            (pbuffer-IsTaken q buf l, pbuffer-IsNext q buf l)
        go none zero h = (
          call-IsTaken port.proc l (call port.proc) refl,
          call-IsNext port.proc l (call port.proc),
        )
        go none (suc p) h = absurd (omega arith)

-- A port on a file in memory gives the bytes from its offset to its end.
unfoldable pub mmap_rest : Mmap → List ℕ
mmap_rest port = take (port.end - port.offset) (drop port.offset port.map)

pub take-split : (n m : ℕ) (xs : List ℕ) → n ≤ m → take m xs ≡ take n xs ++ take (m - n) (drop n xs)
take-split n m xs h =
    sym (take-append-drop n (take m xs))
    ∙ ap (λ ys. ys ++ drop n (take m xs)) (take-take n m xs h)
    ∙ ap (λ ys. take n xs ++ ys) (drop-take n m xs)

unfoldable pub mmap_stream : Stream bgl_input_mmap_read
unfolding bgl_input_mmap_read IsTaken mmap_rest stream_of
mmap_stream = stream_of mmap_rest (λ port sz.
    let available = port.end - port.offset in
    let n = if ltb sz available then sz else available in
    let small : n ≤ available = ground arith in
    let least : n ≤ sz = ground arith in
    let xs = drop port.offset port.map in
    let left : available - n ≡ port.end - (port.offset + n) = omega (arith, small) in
    elim (Bool-cases (ltb 0 available)) [
      | inl full ↦ rw full (
        take-split n available xs small
            ∙ ap (λ k. take n xs ++ take k (drop n xs)) left
            ∙ ap (λ ys. take n xs ++ take (port.end - (port.offset + n)) ys)
                (drop-drop n port.offset port.map),
        omega (arith, take-le_length n xs, least),
      )
      | inr nothing ↦ rw nothing (refl, omega arith)
    ])
