-- ===== src/Symbol/Tests.antt =====
-- The table of symbols, from the empty one.
use mathlib.Core.List.{Memᴰ}
use bigloo.Prelude.{ℕ, ◌≡◌, ◌↔◌, some, List, [], ◌∷◌}
use bigloo.Hash.Laws.{hash_of}
use bigloo.Symbol.{Symbol, SymbolTable, bgl_bstring_to_symbol}
use bigloo.Symbol.Laws.{chars_of, WellFormed, bstring_to_symbol-WellFormed, symbols_same}

abbrev no_symbol : SymbolTable
no_symbol = record { bucket = λ _. []; fresh = 1 }

no_symbol-WellFormed : WellFormed no_symbol
no_symbol-WellFormed = record {
  named = λ h s m. elim m [ ];
  placed = λ h s m. elim m [ ];
  allocated = λ h s m. elim m [ ];
  one_address = λ h k s r m n e. elim m [ ];
  one_name = λ h s r m n e. elim m [ ];
}

bstring_to_symbol-WellFormed_example :
    (s : Symbol) × (t : SymbolTable) × (bgl_bstring_to_symbol (b'a' ∷ 0 ∷ []) 1 no_symbol
      ≡ some (s, t))
    × WellFormed t
    × (chars_of s ≡ b'a' ∷ [])
    × Memᴰ s (t.bucket (hash_of (b'a' ∷ [])))
    × ((h : ℕ) (r : Symbol) → Memᴰ r (no_symbol.bucket h) → Memᴰ r (t.bucket h))
bstring_to_symbol-WellFormed_example =
    bstring_to_symbol-WellFormed no_symbol (b'a' ∷ []) (0 ∷ []) no_symbol-WellFormed

symbols_same_example :
    (s r : Symbol) × (t t' : SymbolTable) × (bgl_bstring_to_symbol (b'a' ∷ 0 ∷ []) 1 no_symbol
      ≡ some (s, t))
    × (bgl_bstring_to_symbol (b'b' ∷ 0 ∷ []) 1 t ≡ some (r, t'))
    × ((s.address ≡ r.address) ↔ (◌≡◌ {A = List ℕ} (b'a' ∷ []) (b'b' ∷ [])))
symbols_same_example =
    symbols_same no_symbol (b'a' ∷ []) (b'b' ∷ []) (0 ∷ []) (0 ∷ []) no_symbol-WellFormed
