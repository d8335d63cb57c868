-- ===== src/Ports/Source.antt =====
-- runtime/Clib/cports.c: the functions that `sysread` of an input port points to.
pub mod Laws
use bigloo.Prelude.{
  ℕ, ◌+◌, ◌-◌, ◌==◌, ltb, leb, Bool, true, false, Option, none, some, List, [], ◌∷◌, length, take,
  drop, if◌then◌else◌,
}
use bigloo.Rgc.Port.{Read, bytes, failed}

-- String ports: all the text is in the buffer.
unfoldable pub bgl_eof_read : {S : Type 0} → S → ℕ → Read S
bgl_eof_read port num = bytes [] false port

-- What read(2) answers: bytes, none at the end of the file, or an error, with whether `errno` is
-- ECONNRESET.
pub data Answer (F : Type 0) : Type 0 where
  got : List ℕ → F → Answer F
  refused : Bool → Answer F

module _ {F : Type 0} where
  -- `n == 0` sets `eof`.
  abbrev pub answered : Answer F → Read F
  answered (got [] file) = bytes [] true file
  answered (got (c ∷ cs) file) = bytes (c ∷ cs) false file
  answered (refused reset) = failed reset

-- A call that a signal interrupts is made again: `sys` is the answer to the last of these calls.
unfoldable pub bgl_read : {F : Type 0} → (F → ℕ → Answer F) → F → ℕ → Read F
bgl_read sys file num = answered (sys file num)

-- `pbuffer` is none where the field holds no string.
pub record Proc (G : Type 0) : Type 0 where
  pub proc : G
  pub pbuffer : Option (List ℕ)
  pub pbufpos : ℕ

module _ {G : Type 0} where
  -- Where `pbuffer` is the string `buf`.
  unfoldable pub from_pbuffer : Proc G → List ℕ → ℕ → Read (Proc G)
  from_pbuffer port buf l =
      let p = port.pbufpos in
      let r = length buf - p in
      if leb r l
      then bytes (take r (drop p buf)) false (record port { pbuffer = none; pbufpos = 0 })
      else bytes (take l (drop p buf)) false (record port { pbuffer = some buf; pbufpos = p + l })

module _ {G : Type 0} where
  -- With the result of the procedure: the string, or none for `#f`. A result of another kind is
  -- an error, and not modelled.
  unfoldable pub from_call : Option (List ℕ) × G → Proc G → ℕ → Read (Proc G)
  unfolding from_pbuffer
  from_call (some buf, proc) port l = from_pbuffer (record port { proc = proc }) buf l
  from_call (none, proc) port l = bytes [] true (record port { proc = proc })

  unfoldable pub bgl_proc_read : (G → Option (List ℕ) × G) → Proc G → ℕ → Read (Proc G)
  unfolding from_pbuffer from_call
  bgl_proc_read call port l = elim port.pbuffer [
    | some buf ↦ from_pbuffer port buf l
    | none ↦ from_call (call port.proc) port l
  ]

-- The file from `start` to `end` in memory. The bytes that are read are in `map` when `end` is within it.
pub record Mmap : Type 0 where
  pub map : List ℕ
  pub start : ℕ
  pub end : ℕ
  pub offset : ℕ

unfoldable pub bgl_input_mmap_read : Mmap → ℕ → Read Mmap
bgl_input_mmap_read port sz =
    let available = port.end - port.offset in
    let n = if ltb sz available then sz else available in
    if ltb 0 available
    then bytes (take n (drop port.offset port.map)) (n == available)
        (record port { offset = port.offset + n })
    else bytes [] false port
