-- ===== src/Outports/Tests.antt =====
-- A string port of two bytes, and a system that takes two bytes at a call.
use bigloo.Prelude.{
  ℕ, ◌≤◌, ◌<◌, Bool, ◌⊎◌, inl, inr, ltb, leb, true, false, none, some, List, [], ◌∷◌, ◌++◌, length,
  take, replicate, length-replicate, ◌≡◌, refl, arith, if◌then◌else◌,
}
use bigloo.Outports.{
  BufMode, OutputPort, Written, wrote, interrupted, done, failure, and_then, bgl_write,
  bgl_output_flush, bgl_output_port_cnt, bgl_output_port_buffer_set,
}
use bigloo.Outports.StringPort.{
  strwrite, bgl_open_output_string, get_output_string, bgl_reset_output_string_port,
  bgl_flush_output_string, bgl_close_output_string,
}
use bigloo.Outports.Text.{IsString, text}
use bigloo.Outports.Contents.{writes, open-writes, flush-reset}
use bigloo.Outports.Places.{close-write}
use bigloo.Outports.System.{plain, Takes}
use bigloo.Outports.Sequence.{writes_out, writes-flush}

abbrev zeros : ℕ → List ℕ
zeros n = replicate n 0

zeros-sized : (n : ℕ) → length (zeros n) ≡ n
zeros-sized n = length-replicate n 0

abbrev hello : List (List ℕ)
hello = (b'h' ∷ []) ∷ (b'e' ∷ b'l' ∷ b'l' ∷ []) ∷ (b'o' ∷ []) ∷ []

open-writes_example :
    (p : OutputPort Unit) × (writes zeros 0 (bgl_open_output_string (0 ∷ 0 ∷ [])) hello
      ≡ some (done p))
    × (get_output_string p ≡ some (b'h' ∷ b'e' ∷ b'l' ∷ b'l' ∷ b'o' ∷ []))
open-writes_example = open-writes zeros zeros-sized 0 (0 ∷ 0 ∷ []) hello

-- A port with the text `hello` and room for one byte more.
abbrev five : OutputPort Unit
five = record (bgl_open_output_string (b'h' ∷ b'e' ∷ b'l' ∷ b'l' ∷ b'o' ∷ 0 ∷ [])) { ptr = 5 }

five-IsString : IsString five
unfolding bgl_open_output_string bgl_output_port_buffer_set
five-IsString = record {
  kind = refl;
  mode = refl;
  no_hook = refl;
  whole = refl;
  within = omega arith;
}

flush-reset_example :
    (q r : OutputPort Unit) × (bgl_flush_output_string zeros 0 five
      ≡ some (some (text five), done q))
    × (get_output_string q ≡ some (text five))
    × (bgl_reset_output_string_port q ≡ some (text five, r))
    × (get_output_string r ≡ some [])
flush-reset_example = flush-reset zeros zeros-sized 0 five five-IsString

close-write_example : bgl_write (strwrite zeros) 0 (bgl_close_output_string five).1 (b'!' ∷ []) ≡ (
    if ltb 1 (bgl_output_port_cnt five)
    then none
    else some (failure (bgl_close_output_string five).1))
close-write_example = close-write zeros 0 five b'!' [] five-IsString

-- The system: the bytes that it has taken, at most two at a call, and whether it interrupts the next
-- call.
abbrev System : Type 0
System = Bool × List ℕ

abbrev two_bytes : OutputPort System → List ℕ → Written System
two_bytes p s = elim (p.stream.0) [
  | true ↦ interrupted (record p { stream = (false, p.stream.1) })
  | false ↦
      let n = if leb 2 (length s) then 2 else length s in
      wrote n (record p { stream = (true, p.stream.1 ++ take n s) })
]

abbrev taken : System → List ℕ
taken w = w.1

abbrev waits : System → ℕ
waits w = if w.0 then 1 else 0

two_bytes-takes :
    (mode : BufMode) (w : System) (buf : List ℕ) (ptr c : ℕ) (s : List ℕ)
    → ((n : ℕ) × (w' : System) × (1 ≤ n)
        × (n ≤ length (c ∷ s))
        × (two_bytes (plain mode w buf ptr) (c ∷ s) ≡ wrote n (plain mode w' buf ptr))
        × (taken w' ≡ taken w ++ take n (c ∷ s)))
      ⊎ ((w' : System) × (two_bytes (plain mode w buf ptr) (c ∷ s)
            ≡ interrupted (plain mode w' buf ptr))
          × (taken w' ≡ taken w)
          × (waits w' < waits w))
two_bytes-takes mode (true, xs) buf ptr c s = inr ((false, xs), refl, refl, omega arith)
two_bytes-takes mode (false, xs) buf ptr c s =
    let n = if leb 2 (length (c ∷ s)) then 2 else length (c ∷ s) in
    inl (n, (true, xs ++ take n (c ∷ s)), ground arith, ground arith, refl, refl)

waits-patient : (w : System) → waits w ≤ 1
waits-patient (true, xs) = omega arith
waits-patient (false, xs) = omega arith

two_bytes-Takes : Takes two_bytes taken 1
two_bytes-Takes = record { patience = waits; patient = waits-patient; takes = two_bytes-takes }

writes-flush_example :
    (w' : System) × (buf' : List ℕ) × (and_then
        (writes_out two_bytes taken 20 (plain BufMode.iolbf (true, []) (0 ∷ 0 ∷ 0 ∷ []) 0) hello)
        (λ q. bgl_output_flush two_bytes 20 q [])
      ≡ some (done (plain BufMode.iolbf w' buf' 0)))
    × (taken w' ≡ b'h' ∷ b'e' ∷ b'l' ∷ b'l' ∷ b'o' ∷ [])
writes-flush_example =
    writes-flush two_bytes taken 1 two_bytes-Takes 20 BufMode.iolbf (true, []) (0 ∷ 0 ∷ 0 ∷ []) 0
      hello refl (omega arith) (omega arith)
