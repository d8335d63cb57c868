-- ===== src/Outports.antt =====
-- The output side of runtime/Clib/cports.c. An output port has a buffer with a place to write at,
-- and a function that writes to the system, to a growing string or to a procedure.
pub mod Flush
pub mod StringPort
pub mod Text
pub mod Contents
pub mod Places
pub mod System
pub mod Lines
pub mod Sequence
mod Tests
use bigloo.Prelude.{
  ℕ, zero, suc, ◌+◌, ◌-◌, ◌*◌, ◌==◌, ltb, leb, Bool, true, false, ◌&&◌, ◌||◌, Option, none, some,
  List, [], ◌∷◌, ◌++◌, length, take, drop, if◌then◌else◌, ◌>>=◌,
}
use bigloo.Prelude.Int.{ℤ, pos, negsuc}

-- The values of `kindof` that the functions tell apart.
pub data KindOf : Type 0 where
  kindof_string kindof_closed kindof_other : KindOf

-- BGL_IONB, BGL_IOLBF, BGL_IOFBF and BGL_IOEBF.
pub data BufMode : Type 0 where
  ionb iolbf iofbf ioebf : BufMode

-- What a flush hook answers: a string, an integer or another object.
pub data HookAnswer : Type 0 where
  hook_string : List ℕ → HookAnswer
  hook_integer : ℤ → HookAnswer
  hook_other : HookAnswer

-- `struct output_port`. `stream` is what `syswrite` writes to; `ptr` and `end` are offsets in
-- `buf`; `stdout_from` is the variable of that name for the port `_stdout`, and none for the
-- others.
pub record OutputPort (W : Type 0) : Type 0 where
  pub kindof : KindOf
  pub stream : W
  pub buf : List ℕ
  pub ptr : ℕ
  pub end : ℕ
  pub bufmode : BufMode
  pub fhook : Option (ℕ → HookAnswer)
  pub flushbuf : Option (List ℕ)
  pub err : Bool
  pub stdout_from : Option ℕ

-- What `syswrite` answers: a number of bytes, an interruption (EINTR or EAGAIN), or another error.
pub data Written (W : Type 0) : Type 0 where
  wrote : ℕ → OutputPort W → Written W
  interrupted : OutputPort W → Written W
  refused : OutputPort W → Written W

-- How a function on ports ends: it returns, or it raises a system failure.
pub data Outcome (W : Type 0) : Type 0 where
  done : OutputPort W → Outcome W
  failure : OutputPort W → Outcome W

-- none is an access outside the buffer, or fuel that does not suffice.
abbrev pub and_then :
    {W : Type 0} → Option (Outcome W) → (OutputPort W → Option (Outcome W)) → Option (Outcome W)
and_then (some (done p)) f = f p
and_then (some (failure p)) f = some (failure p)
and_then none f = none

abbrev pub bgl_output_port_cnt : {W : Type 0} → OutputPort W → ℕ
bgl_output_port_cnt port = port.end - port.ptr

-- `memcpy` to an offset of a buffer.
abbrev pub put_at : List ℕ → ℕ → List ℕ → Option (List ℕ)
put_at buf at str =
    if leb (at + length str) (length buf)
    then some (take at buf ++ str ++ drop (at + length str) buf)
    else none

unfoldable pub bgl_output_port_buffer_set : {W : Type 0} → OutputPort W → List ℕ → OutputPort W
bgl_output_port_buffer_set port buf = record port { buf = buf; ptr = 0; end = length buf }

-- The integer that a hook answers, as a part of the flush buffer.
unfoldable pub hook_prefix : ℤ → Option (List ℕ) → List ℕ
hook_prefix (pos n) (some b) = if leb n (length b) && ltb 0 n then take n b else []
hook_prefix (pos n) none = []
hook_prefix (negsuc n) b = []

module _ {W : Type 0} (syswrite : OutputPort W → List ℕ → Written W) where
  -- The macro `flush_string`. A round of fuel is a call of `syswrite`. Where that answers more than
  -- `_slen`, the subtraction from a `size_t` wraps, and the loop goes on outside the string.
  unfoldable pub flush_string : ℕ → OutputPort W → List ℕ → Bool → Option (Outcome W)
  flush_string fuel port [] err = some (done port)
  flush_string zero port (c ∷ s) err = none
  flush_string (suc fuel) port (c ∷ s) err = elim (syswrite port (c ∷ s)) [
    | wrote n p ↦ if ltb (length (c ∷ s)) n then none else flush_string fuel p (drop n (c ∷ s)) err
    | interrupted p ↦ flush_string fuel p (c ∷ s) err
    | refused p ↦ if err then some (failure (record p { err = true })) else some (done p)
  ]

  unfoldable pub invoke_flush_hook :
      ℕ → Option (ℕ → HookAnswer) → OutputPort W → ℕ → Bool → Option (Outcome W)
  unfolding flush_string hook_prefix
  invoke_flush_hook fuel none port slen err = some (done port)
  invoke_flush_hook fuel (some fhook) port slen err = elim (fhook slen) [
    | hook_string s ↦ flush_string fuel port s err
    | hook_integer n ↦ flush_string fuel port (hook_prefix n port.flushbuf) err
    | hook_other ↦ some (done port)
  ]

  -- The branch of a buffer that is written and used again.
  unfoldable pub flush_buffer : ℕ → OutputPort W → List ℕ → Bool → Bool → Option (Outcome W)
  unfolding flush_string invoke_flush_hook
  flush_buffer fuel port str is_read_flush err =
      let start : ℕ = elim port.stdout_from [ some n ↦ n | none ↦ 0 ] in
      let used = length port.buf - bgl_output_port_cnt port - start in
      and_then (invoke_flush_hook fuel port.fhook port (used + length str) err) (λ p₁.
        and_then (flush_string fuel p₁ (take used (drop start port.buf)) err) (λ p₂.
          and_then (flush_string fuel p₂ str err) (λ p₃. some (
            done (elim port.stdout_from [
              | none ↦ record p₃ { ptr = 0; end = length port.buf }
              | some n ↦
                  if is_read_flush
                  then record p₃ { stdout_from = some (n + used) }
                  else record p₃ { stdout_from = some 0; ptr = 0; end = length port.buf }
            ])))))

  -- The branch of a buffer that grows.
  unfoldable pub flush_extensible : ℕ → OutputPort W → List ℕ → Bool → Option (Outcome W)
  unfolding invoke_flush_hook
  flush_extensible fuel port str err =
      and_then (invoke_flush_hook fuel port.fhook port (length str) err) (λ p.
        if ltb 0 (length str) || (bgl_output_port_cnt port == 0)
        then elim (syswrite p str) [
          | wrote n q ↦ some (done q)
          | interrupted q ↦ if err then some (failure (record q { err = true })) else some (done q)
          | refused q ↦ if err then some (failure (record q { err = true })) else some (done q)
        ]
        else some (done p))

  unfoldable pub output_flush : ℕ → OutputPort W → List ℕ → Bool → Bool → Option (Outcome W)
  unfolding flush_buffer flush_extensible
  output_flush fuel port str is_read_flush err = elim port.kindof [
    | kindof_closed ↦ some (failure port)
    | _ ↦ elim port.bufmode [
      | ioebf ↦ flush_extensible fuel port str err
      | _ ↦ flush_buffer fuel port str is_read_flush err
    ]
  ]

  unfoldable pub bgl_output_flush : ℕ → OutputPort W → List ℕ → Option (Outcome W)
  unfolding output_flush
  bgl_output_flush fuel op str = output_flush fuel op str false true

  -- The loop of a port that is flushed at each end of a line.
  unfoldable pub write_lines : ℕ → OutputPort W → List ℕ → Option (Outcome W)
  unfolding bgl_output_flush
  write_lines fuel op [] = some (done op)
  write_lines fuel op (c ∷ s) = put_at op.buf op.ptr (c ∷ []) >>= λ buf.
      and_then
        (let op' : OutputPort W = record op { buf = buf; ptr = op.ptr + 1 } in
          if c == 10 then bgl_output_flush fuel op' [] else some (done op'))
        (λ p. write_lines fuel p s)

  unfoldable pub bgl_write : ℕ → OutputPort W → List ℕ → Option (Outcome W)
  unfolding write_lines bgl_output_flush
  bgl_write fuel op str =
      if ltb (length str) (bgl_output_port_cnt op)
      then elim op.bufmode [
        | iolbf ↦ write_lines fuel op str
        | _ ↦ put_at op.buf op.ptr str >>= λ buf.
            some (done (record op { buf = buf; ptr = op.ptr + length str }))
      ]
      else bgl_output_flush fuel op str
