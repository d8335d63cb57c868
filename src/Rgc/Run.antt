-- ===== src/Rgc/Run.antt =====
-- Runs of the port functions: they return, fail through C_SYSTEM_FAILURE with one of its kinds of
-- error, access memory outside an object, or use up the fuel of a loop. What a port holds after a failure is not modelled.
use bigloo.Prelude.{Option, none, some}

-- `BGL_IO_READ_ERROR` and the others.
pub data IoError : Type 0 where
  read_error connection_error closed_error port_error write_error : IoError

pub data Run {ℓ} (A : Type ℓ) : Type ℓ where
  ok : A → Run A
  fails : IoError → Run A
  fault : Run A
  unfinished : Run A

infixl 5 ◌>>=◌
abbrev pub ◌>>=◌ {ℓ κ} : {A : Type ℓ} {B : Type κ} → Run A → (A → Run B) → Run B
ok a >>= f = f a
fails e >>= f = fails e
fault >>= f = fault
unfinished >>= f = unfinished

-- An access outside memory is `none` in the functions on strings.
abbrev pub checked {ℓ} : {A : Type ℓ} → Option A → Run A
checked none = fault
checked (some a) = ok a
