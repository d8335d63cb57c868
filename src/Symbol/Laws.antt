-- ===== src/Symbol/Laws.antt =====
-- The table of symbols keeps one symbol for a name, so symbols are the same when their names are.
use bigloo.Prelude.{
  ℕ, suc, ◌<◌, ◌==◌, Bool, true, false, Option, none, some, List, [], ◌∷◌, ◌++◌, length, ◌≡◌, ◌≢◌,
  refl, arith, ap, ◌∙◌, sym, ◌↔◌, ◌⊎◌, inl, inr, Bool-cases,
}
use mathlib.Core.List.{Memᴰ}
use mathlib.Core.List.Memᴰ.{head, tail, append_left, append_right, append_cases}
use bigloo.Memory.{Str, len, list_eq}
use bigloo.Memory.Laws.{units-append, units-memory, list_eq_iff}
use bigloo.Cstring.Build.{string_to_bstring_len}
use bigloo.Hash.Laws.{hash_of, hash_append}
use bigloo.Symbol.{Symbol, SymbolTable, set_bucket, symbol_strcmp, find, bgl_bstring_to_symbol}

abbrev pub chars_of : Symbol → List ℕ
chars_of s = elim (s.string) [ none ↦ [] | some name ↦ name.chars ]

abbrev pub Named : Symbol → Type 0
Named s = (name : Str) × (s.string ≡ some name)

-- Every symbol of the table has a name and is in the bucket of its hash number, was allocated, and
-- is the only one at its address and of its name.
pub record WellFormed (t : SymbolTable) : Type 0 where
  pub named : (h : ℕ) (s : Symbol) → Memᴰ s (t.bucket h) → Named s
  pub placed : (h : ℕ) (s : Symbol) → Memᴰ s (t.bucket h) → hash_of (chars_of s) ≡ h
  pub allocated : (h : ℕ) (s : Symbol) → Memᴰ s (t.bucket h) → s.address < t.fresh
  pub one_address :
      (h k : ℕ) (s r : Symbol)
      → Memᴰ s (t.bucket h)
      → Memᴰ r (t.bucket k)
      → s.address ≡ r.address
      → s ≡ r
  pub one_name :
      (h : ℕ) (s r : Symbol)
      → Memᴰ s (t.bucket h)
      → Memᴰ r (t.bucket h)
      → chars_of s ≡ chars_of r
      → s ≡ r

strcmp_lem :
    (name : Str) (cs rest : List ℕ)
    → (b : Bool) × (symbol_strcmp name (cs ++ rest) (length cs) ≡ some b)
      × ((b ≡ true) ↔ (name.chars ≡ cs))
unfolding symbol_strcmp
strcmp_lem name cs rest = elim (Bool-cases (len name == length cs)) [
  | inl same ↦
      let e : length cs ≡ len name = ground arith in
      (
        list_eq name.chars cs,
        rw (same, units-append cs rest) (rw (e, units-memory name) refl),
        list_eq_iff name.chars cs,
      )
  | inr other ↦ (false, rw other refl, (λ h. ground arith, λ h. ground (arith, ap length h)))
]

-- What the search of a bucket returns.
Answer : List Symbol → List ℕ → Option Symbol → Type 0
Answer b cs none = (s : Symbol) → Memᴰ s b → chars_of s ≢ cs
Answer b cs (some s) = Memᴰ s b × (chars_of s ≡ cs)

skip :
    (x : Symbol) (b : List Symbol) (cs : List ℕ) (r : Option Symbol)
    → chars_of x ≢ cs
    → Answer b cs r
    → Answer (x ∷ b) cs r
unfolding Answer
skip x b cs none h a =
    λ s m. elim m [ head e ↦ λ k. h (ap chars_of (sym e) ∙ k) | tail m' ↦ a s m' ]
skip x b cs (some s) h (m, e) = (tail m, e)

find_lem :
    (b : List Symbol) (cs rest : List ℕ)
    → ((s : Symbol) → Memᴰ s b → Named s)
    → (r : Option Symbol) × (find b (cs ++ rest) (length cs) ≡ some r) × Answer b cs r
unfolding find Answer
find_lem [] cs rest n = (none, refl, λ s m. elim m [ ])
find_lem (x ∷ b) cs rest n =
    let (name, e) = n x (head refl) in
    let (same, f, iff) = strcmp_lem name cs rest in
    let (r, g, a) = find_lem b cs rest (λ s m. n s (tail m)) in
    elim (Bool-cases same) [
      | inl found ↦ (some x, simp (e, f, found) refl, (head refl, rw e (iff.0 found)))
      | inr other ↦
          (r, simp (e, f, other) g, skip x b cs r (λ h. ground (arith, iff.1 (rw e at h))) a)
    ]

-- The table with a new symbol, whose name is in no symbol of its bucket.
module _ (t : SymbolTable) (cs : List ℕ) (w : WellFormed t)
    (new : (s : Symbol) → Memᴰ s (t.bucket (hash_of cs)) → chars_of s ≢ cs) where
  abbrev symbol : Symbol
  symbol = record { address = t.fresh; string = some (record { chars = cs; after = 0 }) }

  abbrev added : SymbolTable
  added =
      set_bucket (record { bucket = t.bucket; fresh = suc t.fresh }) (hash_of cs)
        (t.bucket (hash_of cs) ++ symbol ∷ [])

  kept : (h : ℕ) (r : Symbol) → Memᴰ r (t.bucket h) → Memᴰ r (added.bucket h)
  kept h r m = elim (Bool-cases (h == hash_of cs)) [
    | inl same ↦
        let e : h ≡ hash_of cs = ground arith in rw same (append_left (symbol ∷ []) (rw e at m))
    | inr other ↦ rw other m
  ]

  there : Memᴰ symbol (added.bucket (hash_of cs))
  there =
      let same : (hash_of cs == hash_of cs) ≡ true = ground arith in
      rw same (append_right (t.bucket (hash_of cs)) (head refl))

  old_or_new :
      (h : ℕ) (r : Symbol)
      → Memᴰ r (added.bucket h)
      → Memᴰ r (t.bucket h) ⊎ ((r ≡ symbol) × (h ≡ hash_of cs))
  old_or_new h r m = elim (Bool-cases (h == hash_of cs)) [
    | inl same ↦
        let e : h ≡ hash_of cs = ground arith in
        elim (append_cases (t.bucket (hash_of cs)) (rw same at m)) [
          | inl old ↦ inl (rw e old)
          | inr (head f) ↦ inr (f, e)
          | inr (tail f) ↦ elim f [ ]
        ]
    | inr other ↦ inl (rw other at m)
  ]

  added-WellFormed : WellFormed added
  added-WellFormed = record {
    named = λ h s m. elim (old_or_new h s m) [
      | inl old ↦ w.named h s old
      | inr (e, _) ↦ rw e (record { chars = cs; after = 0 }, refl)
    ];
    placed = λ h s m. elim (old_or_new h s m) [
      | inl old ↦ w.placed h s old
      | inr (e, f) ↦ ap (λ r. hash_of (chars_of r)) e ∙ sym f
    ];
    allocated = λ h s m. elim (old_or_new h s m) [
      | inl old ↦ omega (arith, w.allocated h s old)
      | inr (e, f) ↦ omega (arith, ap (λ r. r.address) e)
    ];
    one_address = λ h k s r m n e. elim (old_or_new h s m) [
      | inl old ↦ elim (old_or_new k r n) [
        | inl old' ↦ w.one_address h k s r old old' e
        | inr (f, _) ↦ absurd (omega (arith, w.allocated h s old, e, ap (λ x. x.address) f))
      ]
      | inr (f, _) ↦ elim (old_or_new k r n) [
        | inl old' ↦ absurd (omega (arith, w.allocated k r old', e, ap (λ x. x.address) f))
        | inr (g, _) ↦ f ∙ sym g
      ]
    ];
    one_name = λ h s r m n e. elim (old_or_new h s m) [
      | inl old ↦ elim (old_or_new h r n) [
        | inl old' ↦ w.one_name h s r old old' e
        | inr (f, g) ↦ absurd (new s (rw g at old) (e ∙ ap chars_of f))
      ]
      | inr (f, g) ↦ elim (old_or_new h r n) [
        | inl old' ↦ absurd (new r (rw g at old') (sym e ∙ ap chars_of f))
        | inr (g', _) ↦ f ∙ sym g'
      ]
    ];
  }

-- To intern a name succeeds in a well-formed table, and leaves it so: the symbol has the name, is in
-- the bucket of its hash number, and no symbol of the table is lost.
pub bstring_to_symbol-WellFormed :
    (t : SymbolTable) (cs rest : List ℕ)
    → WellFormed t
    → (s : Symbol) × (t' : SymbolTable) × (bgl_bstring_to_symbol (cs ++ rest) (length cs) t
        ≡ some (s, t'))
      × WellFormed t'
      × (chars_of s ≡ cs)
      × Memᴰ s (t'.bucket (hash_of cs))
      × ((h : ℕ) (r : Symbol) → Memᴰ r (t.bucket h) → Memᴰ r (t'.bucket h))
unfolding bgl_bstring_to_symbol string_to_bstring_len Answer
bstring_to_symbol-WellFormed t cs rest w =
    let (r, e, a) = find_lem (t.bucket (hash_of cs)) cs rest (w.named (hash_of cs)) in go r e a
  where
    go :
        (r : Option Symbol)
        → find (t.bucket (hash_of cs)) (cs ++ rest) (length cs) ≡ some r
        → Answer (t.bucket (hash_of cs)) cs r
        → (s : Symbol) × (t' : SymbolTable) × (bgl_bstring_to_symbol (cs ++ rest) (length cs) t
            ≡ some (s, t'))
          × WellFormed t'
          × (chars_of s ≡ cs)
          × Memᴰ s (t'.bucket (hash_of cs))
          × ((h : ℕ) (r : Symbol) → Memᴰ r (t.bucket h) → Memᴰ r (t'.bucket h))
    go none e new = (
      symbol t cs w new,
      added t cs w new,
      rw (hash_append cs rest, e, units-append cs rest) refl,
      added-WellFormed t cs w new,
      refl,
      there t cs w new,
      kept t cs w new,
    )
    go (some s) e (m, k) = (s, t, rw (hash_append cs rest, e) refl, w, k, m, λ h r m. m)

same_object :
    (t : SymbolTable) (w : WellFormed t) (s r : Symbol) (a b : List ℕ)
    → chars_of s ≡ a
    → chars_of r ≡ b
    → Memᴰ s (t.bucket (hash_of a))
    → Memᴰ r (t.bucket (hash_of b))
    → (s.address ≡ r.address) ↔ (a ≡ b)
same_object t w s r a b k l m n = (
  λ same. sym k ∙ ap chars_of (w.one_address (hash_of a) (hash_of b) s r m n same) ∙ l,
  λ same. ap (λ x. x.address) (w.one_name (hash_of a) s r m (rw same n) (k ∙ same ∙ sym l)),
)

-- After two names are interned, one after the other, their symbols are the same object exactly
-- where the names have the same characters.
pub symbols_same :
    (t : SymbolTable) (a b rest rest' : List ℕ)
    → WellFormed t
    → (s r : Symbol) × (t' t'' : SymbolTable) × (bgl_bstring_to_symbol (a ++ rest) (length a) t
        ≡ some (s, t'))
      × (bgl_bstring_to_symbol (b ++ rest') (length b) t' ≡ some (r, t''))
      × ((s.address ≡ r.address) ↔ (a ≡ b))
symbols_same t a b rest rest' w =
    let (s, t', e, w', k, m, _) = bstring_to_symbol-WellFormed t a rest w in
    let (r, t'', f, w'', l, n, keep) = bstring_to_symbol-WellFormed t' b rest' w' in
    let m' = keep (hash_of a) s m in (s, r, t', t'', e, f, same_object t'' w'' s r a b k l m' n)
