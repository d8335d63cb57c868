-- ===== src/Outports/System.antt =====
-- Ports that write to the system: what was written is what the system has taken and what the buffer
-- holds.
use bigloo.Prelude.{
  ℕ, zero, suc, ◌+◌, ◌-◌, ◌≤◌, true, false, Option, none, some, List, [], ◌∷◌, ◌++◌, length, take,
  drop, ltb, if◌then◌else◌, ◌*◌, ◌<◌, ◌⊎◌, inl, inr, ◌≡◌, refl, ap, sym, ◌∙◌, arith, append_assoc,
  append-nil, take-append-drop, length-drop, length-take,
}
use native.Mathlib.Nat.{mul-le-mul_right}
use bigloo.Outports.{
  KindOf, BufMode, OutputPort, Written, wrote, interrupted, refused, Outcome, done, failure,
  and_then, flush_string, flush_buffer,
}

-- An open port of another kind than a string, neither `_stdout` nor with a flush hook.
abbrev pub plain : {W : Type 0} → BufMode → W → List ℕ → ℕ → OutputPort W
plain mode w buf ptr = record {
  kindof = KindOf.kindof_other;
  stream = w;
  buf = buf;
  ptr = ptr;
  end = length buf;
  bufmode = mode;
  fhook = none;
  flushbuf = none;
  err = false;
  stdout_from = none;
}

-- A system that does not fail. A call takes some of the bytes, the first of them, or it is
-- interrupted, of which `patience` tells how often that can still happen before it takes some.
pub record Takes {W : Type 0} (syswrite : OutputPort W → List ℕ → Written W) (accepted : W → List ℕ)
    (limit : ℕ) : Type 0 where
  pub patience : W → ℕ
  pub patient : (w : W) → patience w ≤ limit
  pub takes :
      (mode : BufMode) (w : W) (buf : List ℕ) (ptr c : ℕ) (s : List ℕ)
      → ((n : ℕ) × (w' : W) × (1 ≤ n)
          × (n ≤ length (c ∷ s))
          × (syswrite (plain mode w buf ptr) (c ∷ s) ≡ wrote n (plain mode w' buf ptr))
          × (accepted w' ≡ accepted w ++ take n (c ∷ s)))
        ⊎ ((w' : W) × (syswrite (plain mode w buf ptr) (c ∷ s)
              ≡ interrupted (plain mode w' buf ptr))
            × (accepted w' ≡ accepted w)
            × (patience w' < patience w))

module _ {W : Type 0} (syswrite : OutputPort W → List ℕ → Written W) (fuel : ℕ) (p q : OutputPort W)
    (c : ℕ) (s : List ℕ) where
  round : Written W → Option (Outcome W)
  round r = elim r [
    | wrote n' p' ↦
        if ltb (length (c ∷ s)) n'
        then none
        else flush_string syswrite fuel p' (drop n' (c ∷ s)) true
    | interrupted p' ↦ flush_string syswrite fuel p' (c ∷ s) true
    | refused p' ↦ some (failure (record p' { err = true }))
  ]

  wrote_round :
      (n : ℕ)
      → n ≤ length (c ∷ s)
      → syswrite p (c ∷ s) ≡ wrote n q
      → flush_string syswrite (suc fuel) p (c ∷ s) true
        ≡ flush_string syswrite fuel q (drop n (c ∷ s)) true
  unfolding flush_string round
  wrote_round n le e =
      let within : ltb (length (c ∷ s)) n ≡ false = ground arith in ap round e ∙ rw within refl

  interrupted_round :
      syswrite p (c ∷ s) ≡ interrupted q
      → flush_string syswrite (suc fuel) p (c ∷ s) true ≡ flush_string syswrite fuel q (c ∷ s) true
  unfolding flush_string round
  interrupted_round e = ap round e

module _ {W : Type 0} (syswrite : OutputPort W → List ℕ → Written W) (accepted : W → List ℕ)
    (limit : ℕ) (h : Takes syswrite accepted limit) (mode : BufMode) where
  flush_rounds :
      (fuel : ℕ) (w : W) (buf : List ℕ) (ptr : ℕ) (s : List ℕ)
      → length s * suc limit + h.patience w ≤ fuel + limit
      → (w' : W) × (flush_string syswrite fuel (plain mode w buf ptr) s true
          ≡ some (done (plain mode w' buf ptr)))
        × (accepted w' ≡ accepted w ++ s)
  unfolding flush_string
  flush_rounds fuel w buf ptr [] le = (w, refl, sym (append-nil (accepted w)))
  flush_rounds zero w buf ptr (c ∷ s) le = absurd (omega arith)
  flush_rounds (suc fuel) w buf ptr (c ∷ s) le = elim (h.takes mode w buf ptr c s) [
    | inr (w₁, e, a, less) ↦
        let (w₂, run, b) = flush_rounds fuel w₁ buf ptr (c ∷ s) (omega arith) in
        (
          w₂,
          interrupted_round syswrite fuel (plain mode w buf ptr) (plain mode w₁ buf ptr) c s e
              ∙ run,
          b ∙ ap (λ xs. xs ++ c ∷ s) a,
        )
    | inl (n, w₁, one, within, e, a) ↦
        let short : length (drop n (c ∷ s)) ≤ length s = omega (arith, length-drop n (c ∷ s)) in
        let (w₂, run, b) =
          flush_rounds fuel w₁ buf ptr (drop n (c ∷ s))
            (omega (arith, mul-le-mul_right (suc limit) short, h.patient w₁)) in
        (
          w₂,
          wrote_round syswrite fuel (plain mode w buf ptr) (plain mode w₁ buf ptr) c s n within e
              ∙ run,
          b
              ∙ ap (λ xs. xs ++ drop n (c ∷ s)) a
              ∙ append_assoc (accepted w) (take n (c ∷ s)) (drop n (c ∷ s))
              ∙ ap (λ xs. accepted w ++ xs) (take-append-drop n (c ∷ s)),
        )
  ]

  flush_string_lem :
      (fuel n : ℕ) (w : W) (buf : List ℕ) (ptr : ℕ) (s : List ℕ)
      → n * suc limit ≤ fuel
      → length s ≤ n
      → (w' : W) × (flush_string syswrite fuel (plain mode w buf ptr) s true
          ≡ some (done (plain mode w' buf ptr)))
        × (accepted w' ≡ accepted w ++ s)
  flush_string_lem fuel n w buf ptr s enough le =
      flush_rounds fuel w buf ptr s (omega (arith, mul-le-mul_right (suc limit) le, h.patient w))

  pub flush_buffer_lem :
      (fuel n : ℕ) (w : W) (buf : List ℕ) (ptr : ℕ) (s : List ℕ)
      → n * suc limit ≤ fuel
      → ptr ≤ length buf
      → length buf + length s ≤ n
      → (w' : W) × (flush_buffer syswrite fuel (plain mode w buf ptr) s false true
          ≡ some (done (plain mode w' buf 0)))
        × (accepted w' ≡ accepted w ++ (take ptr buf ++ s))
  unfolding flush_buffer
  flush_buffer_lem fuel n w buf ptr s enough within le =
      let used = length buf - (length buf - ptr) - 0 in
      let e : used ≡ ptr = omega arith in
      let (w₁, run₁, a₁) =
        flush_string_lem fuel n w buf ptr (take used buf) enough
          (omega (arith, length-take used buf (omega arith))) in
      let (w₂, run₂, a₂) = flush_string_lem fuel n w₁ buf ptr s enough (omega arith) in
      let ends : OutputPort W → Option (Outcome W) =
        λ p. some (done (record p { ptr = 0; end = length buf })) in
      let next : OutputPort W → Option (Outcome W) =
        λ p. and_then (flush_string syswrite fuel p s true) ends in
      (
        w₂,
        ap (λ r. and_then r next) run₁ ∙ ap (λ r. and_then r ends) run₂,
        a₂
            ∙ ap (λ xs. xs ++ s) (a₁ ∙ ap (λ k. accepted w ++ take k buf) e)
            ∙ append_assoc (accepted w) (take ptr buf) s,
      )
