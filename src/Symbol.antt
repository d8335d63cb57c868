-- ===== src/Symbol.antt =====
-- runtime/Clib/csymbol.c: the table of symbols, `c_symtab`, and the functions that put a symbol into
-- it. A symbol is its address and its `string` field. The table holds the lists of the symbols; no
-- function changes a pair that is in a list but the last one, so the pairs themselves are left out.
-- The lock is held from the first read of a bucket to the last write, so a call is one step.
pub mod Laws
mod Tests
use bigloo.Prelude.{
  ℕ, zero, suc, ◌+◌, ◌==◌, Bool, true, false, not, ◌||◌, Option, none, some, List, [], ◌∷◌, ◌++◌,
  ◌>>=◌, if◌then◌else◌,
}
use bigloo.Memory.{Str, len, memory, memcmp_eq}
use bigloo.Cstring.Build.{string_to_bstring_len, strlen}
use bigloo.Hash.{get_hash_power_number, get_hash_power_number_len}

-- `string` is null in a symbol that `gensym` made and whose name nobody asked for.
pub record Symbol : Type 0 where
  pub address : ℕ
  pub string : Option Str

-- `c_symtab`, and the address that the next allocation gives.
pub record SymbolTable : Type 0 where
  pub bucket : ℕ → List Symbol
  pub fresh : ℕ

abbrev pub symbol_hash_table_size_shift : ℕ
symbol_hash_table_size_shift = 12

-- `VECTOR_SET(c_symtab, hash_number, b)`
abbrev pub set_bucket : SymbolTable → ℕ → List Symbol → SymbolTable
set_bucket t h b = record { bucket = λ k. if k == h then b else t.bucket k; fresh = t.fresh }

pub symbol_strcmp : Str → List ℕ → ℕ → Option Bool
symbol_strcmp o1 o2 l2 = if len o1 == l2 then memcmp_eq (memory o1) o2 l2 else some false

-- `while (!NULLP(run) && string && !symbol_strcmp(...))`, and where it stops.
pub find : List Symbol → List ℕ → ℕ → Option (Option Symbol)
find [] cname len = some none
find (s ∷ run) cname len =
    let rest = find run cname len in
    elim (s.string) [
      | none ↦ some (some s)
      | some name ↦ do same ← symbol_strcmp name cname len; if same then some (some s) else rest
    ]

-- A symbol that is not found is new and goes behind the others.
unfoldable pub bgl_bstring_to_symbol : List ℕ → ℕ → SymbolTable → Option (Symbol × SymbolTable)
bgl_bstring_to_symbol cname len t = do
  hash_number ← get_hash_power_number_len cname symbol_hash_table_size_shift len
  found ← find (t.bucket hash_number) cname len
  elim found [
    | some symbol ↦ some (symbol, t)
    | none ↦ do
      name ← string_to_bstring_len (some cname) len
      let symbol : Symbol = record { address = t.fresh; string = some name }
      let t' : SymbolTable = record { bucket = t.bucket; fresh = suc t.fresh }
      some (symbol, set_bucket t' hash_number (t.bucket hash_number ++ symbol ∷ []))
  ]

unfoldable pub bstring_to_symbol : Str → SymbolTable → Option (Symbol × SymbolTable)
unfolding bgl_bstring_to_symbol
bstring_to_symbol name t = bgl_bstring_to_symbol (memory name) (len name) t

unfoldable pub bgl_string_to_symbol_len : List ℕ → ℕ → SymbolTable → Option (Symbol × SymbolTable)
unfolding bgl_bstring_to_symbol
bgl_string_to_symbol_len cname len t = bgl_bstring_to_symbol cname len t

unfoldable pub string_to_symbol : List ℕ → SymbolTable → Option (Symbol × SymbolTable)
unfolding bgl_bstring_to_symbol
string_to_symbol cname t = do n ← strlen cname; bgl_bstring_to_symbol cname n t

-- `!strcmp(p, q)`
pub strcmp_eq : List ℕ → List ℕ → Option Bool
strcmp_eq [] q = none
strcmp_eq (a ∷ p) [] = none
strcmp_eq (a ∷ p) (b ∷ q) =
    let rest = strcmp_eq p q in
    if not (a == b) then some false else if a == 0 then some true else rest

-- The loop of `symbol_exists_sans_lock_p`, on a bucket that may be empty.
pub exists_in : List Symbol → List ℕ → Option Bool
exists_in [] name = some false
exists_in (s ∷ bucket) name =
    let rest = exists_in bucket name in
    elim (s.string) [
      | none ↦ some true
      | some string ↦ do same ← strcmp_eq (memory string) name; if same then some true else rest
    ]

unfoldable pub symbol_exists_p : List ℕ → SymbolTable → Option Bool
symbol_exists_p name t = do
  hn ← get_hash_power_number name symbol_hash_table_size_shift
  exists_in (t.bucket hn) name
