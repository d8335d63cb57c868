-- ===== src/Rgc/Number/Match.antt =====
-- The bytes of a match, and how the first one is taken off.
use bigloo.Prelude.{
  ℕ, zero, suc, ◌+◌, ◌-◌, ◌≤◌, some, List, [], ◌∷◌, length, take, drop, get_elem?, ◌≡◌, refl, arith,
  ap, ◌∙◌, sym, length-take, length-drop, get_elem?-append_left,
}
use bigloo.Memory.{memory}
use bigloo.Memory.Laws.{length-memory, advance-drop, units-take}
use bigloo.Cstring.Equal.Laws.{take-drop-append}
use bigloo.Rgc.Run.{ok}
use bigloo.Rgc.Port.{Port}
use bigloo.Rgc.Port.Valid.{IsValid}
use bigloo.Rgc.Number.{between}

cut_head :
    (m n : ℕ) (xs : List ℕ) {c : ℕ} {cs : List ℕ}
    → take n (drop m xs) ≡ c ∷ cs
    → (get_elem? xs m ≡ some c) × (take (n - 1) (drop (suc m) xs) ≡ cs)
cut_head zero zero xs h = absurd (cc)
cut_head zero (suc n) [] h = absurd (cc)
cut_head zero (suc n) (x ∷ xs) h =
    let e : n ≡ suc n - 1 = omega arith in (cc, ap (λ k. take k xs) (sym e) ∙ cc)
cut_head (suc m) zero [] h = absurd (cc)
cut_head (suc m) (suc n) [] h = absurd (cc)
cut_head (suc m) zero (x ∷ xs) h = absurd (cc)
cut_head (suc m) (suc n) (x ∷ xs) h = cut_head m (suc n) xs h

module _ {S : Type 0} (p : Port S) where
  -- The bytes that are matched.
  abbrev pub match_text : List ℕ
  match_text = take (p.matchstop - p.matchstart) (drop p.matchstart p.buf.chars)

module _ {S : Type 0} (p : Port S) (v : IsValid p) where
  pub between_lem :
      (i : ℕ)
      → i ≤ p.matchstop
      → between p i p.matchstop ≡ ok (take (p.matchstop - i) (drop i p.buf.chars))
  between_lem i h =
      let n = p.matchstop - i in
      let part : take n (drop i (memory p.buf)) ≡ take n (drop i p.buf.chars) =
        take-drop-append n i p.buf.chars (p.buf.after ∷ []) (omega (arith, v)) in
      rw
        (
          advance-drop i (memory p.buf) (omega (arith, v, length-memory p.buf)),
          units-take n (drop i (memory p.buf))
              (omega (arith, v, length-drop i (memory p.buf), length-memory p.buf)),
          part,
        )
        refl

  length-match_text : length (match_text p) ≡ p.matchstop - p.matchstart
  length-match_text =
      length-take (p.matchstop - p.matchstart) (drop p.matchstart p.buf.chars)
        (omega (arith, v, length-drop p.matchstart p.buf.chars))

  -- The first byte, and where the digits stand.
  pub head_lem :
      (c : ℕ) (cs : List ℕ)
      → (match_text p) ≡ c ∷ cs
      → (get_elem? (memory p.buf) p.matchstart ≡ some c)
        × (between p (p.matchstart + 1) p.matchstop ≡ ok cs)
  head_lem c cs h =
      let size : 1 ≤ p.matchstop - p.matchstart = omega (arith, length-match_text, ap length h) in
      let (first, rest) = cut_head p.matchstart (p.matchstop - p.matchstart) p.buf.chars h in
      let e : p.matchstop - (p.matchstart + 1) ≡ p.matchstop - p.matchstart - 1 = omega arith in
      let e' : p.matchstart + 1 ≡ suc p.matchstart = omega arith in
      (
        get_elem?-append_left p.buf.chars (p.buf.after ∷ []) p.matchstart (omega (arith, v))
            ∙ first,
        between_lem (p.matchstart + 1) (omega arith)
            ∙ ap ok (
                ap (λ k. take k (drop (p.matchstart + 1) p.buf.chars)) e
                ∙ ap (λ k. take (p.matchstop - p.matchstart - 1) (drop k p.buf.chars)) e'
                ∙ rest),
      )
