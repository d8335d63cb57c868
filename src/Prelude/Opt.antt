-- ===== src/Prelude/Opt.antt =====
-- The monad of runs that may go wrong: `none` is an access outside the memory of an object.

use mathlib.Core.Option.{Option, none, some}

infixl 5 ◌>>=◌
abbrev pub ◌>>=◌ {ℓ κ} : {A : Type ℓ} {B : Type κ} → Option A → (A → Option B) → Option B
some a >>= f = f a
none >>= f = none
