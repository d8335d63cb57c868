-- ===== src/Outports/StringPort.antt =====
-- Output ports that write to a string, which grows: bgl_open_output_string and what it installs.
use bigloo.Prelude.{
  ℕ, ◌+◌, ◌-◌, ◌*◌, Bool, true, false, Option, none, some, List, [], ◌++◌, length, take, drop,
  if◌then◌else◌, ◌>>=◌,
}
use bigloo.Prelude.Int.{ℤ, pos, negsuc, ◌+ℤ◌, ltb_ℤ, pos_part}
use bigloo.Outports.{
  KindOf, kindof_string, done, failure, BufMode, OutputPort, Written, Outcome, bgl_output_port_cnt,
  bgl_output_port_buffer_set, bgl_output_flush,
}

-- `fresh` is the memory of a new string, whose length is given and whose bytes are not.
module _ (fresh : ℕ → List ℕ) where
  unfoldable pub strwrite : OutputPort Unit → List ℕ → Written Unit
  strwrite port str =
      let used = length port.buf - bgl_output_port_cnt port in
      let nbuf = fresh ((length port.buf + length str) * 2) in
      let nbuf₁ = take used port.buf ++ drop used nbuf in
      let nbuf₂ = take used nbuf₁ ++ str ++ drop (used + length str) nbuf₁ in
      Written.wrote (length str) (record port {
        buf = nbuf₂;
        ptr = used + length str;
        end = (length port.buf + length str) * 2;
      })

unfoldable pub bgl_open_output_string : List ℕ → OutputPort Unit
unfolding bgl_output_port_buffer_set
bgl_open_output_string buf =
    bgl_output_port_buffer_set
      (record {
        kindof = KindOf.kindof_string;
        stream = tt;
        buf = [];
        ptr = 0;
        end = 0;
        bufmode = BufMode.ioebf;
        fhook = none;
        flushbuf = none;
        err = false;
        stdout_from = none;
      })
      buf

-- none is the failure `Not a string port`.
unfoldable pub get_output_string : OutputPort Unit → Option (List ℕ)
get_output_string port = elim port.kindof [
  | kindof_string ↦ some (take (length port.buf - bgl_output_port_cnt port) port.buf)
  | _ ↦ none
]

unfoldable pub bgl_reset_output_string_port : OutputPort Unit → Option (List ℕ × OutputPort Unit)
unfolding get_output_string bgl_output_port_buffer_set
bgl_reset_output_string_port port =
    get_output_string port >>= λ res. some (res, bgl_output_port_buffer_set port port.buf)

-- bgl_flush_output_port, with `get_output_string` as the port's `sysflush`.
unfoldable pub bgl_flush_output_string :
    (ℕ → List ℕ) → ℕ → OutputPort Unit → Option (Option (List ℕ) × Outcome Unit)
unfolding bgl_output_flush strwrite get_output_string
bgl_flush_output_string fresh fuel op = bgl_output_flush (strwrite fresh) fuel op [] >>= λ r.
    elim r [
      | done p ↦ some (get_output_string p, Outcome.done p)
      | failure p ↦ some (none, Outcome.failure p)
    ]

-- `whence` of a seek.
pub data Whence : Type 0 where
  seek_set seek_cur seek_end : Whence

-- none is -1.
unfoldable pub strseek : OutputPort Unit → ℤ → Whence → Option (ℕ × OutputPort Unit)
strseek port offset whence =
    let to : ℤ = elim whence [
      | seek_set ↦ offset
      | seek_cur ↦ offset +ℤ pos port.ptr
      | seek_end ↦ pos (length port.buf) +ℤ offset
    ] in
    if ltb_ℤ to (pos 0)
    then none
    else if ltb_ℤ (pos (bgl_output_port_cnt port)) to
    then none
    else some (pos_part to, record port { ptr = pos_part to })

-- bgl_output_port_seek and bgl_output_port_filepos on a string port, whose `sysseek` is strseek.
unfoldable pub string_port_seek : OutputPort Unit → ℤ → Bool × OutputPort Unit
unfolding strseek
string_port_seek port place = elim (strseek port place Whence.seek_set) [
  | some (n, p) ↦ (true, p)
  | none ↦ (false, port)
]

unfoldable pub string_port_filepos : OutputPort Unit → ℤ
unfolding strseek
string_port_filepos port = elim (strseek port (pos 0) Whence.seek_cur) [
  | some (n, p) ↦ pos port.ptr +ℤ pos n
  | none ↦ pos port.ptr +ℤ negsuc 0
]

-- bgl_close_output_port of a string port without a close hook, with the string that it gives: the
-- string of the buffer itself, shortened. A port that is closed is given back as it is.
unfoldable pub bgl_close_output_string : OutputPort Unit → Option (List ℕ) × OutputPort Unit
bgl_close_output_string port = elim port.kindof [
  | kindof_string ↦
      let res = take (length port.buf - bgl_output_port_cnt port) port.buf in
      (some res, record port { kindof = KindOf.kindof_closed; buf = res })
  | _ ↦ (none, port)
]
