-- ===== src/Outports/Sequence.antt =====
-- Any writes to a port of the system, and a flush.
use bigloo.Prelude.{
  ℕ, suc, ◌*◌, ◌+◌, ◌≤◌, false, Option, some, List, [], ◌∷◌, ◌++◌, length, take, ◌≡◌, refl, ap, sym,
  ◌∙◌, arith, append-nil, length-append,
}
use bigloo.Outports.{
  BufMode, OutputPort, Written, Outcome, done, and_then, bgl_write, bgl_output_flush,
}
use bigloo.Outports.System.{plain, Takes, flush_buffer_lem}
use bigloo.Outports.Contents.{concat}
use bigloo.Outports.Lines.{extensible, Puts, Puts-then, flush_of_buffer, bgl_write-Puts}

module _ {W : Type 0} (syswrite : OutputPort W → List ℕ → Written W) (accepted : W → List ℕ) where
  -- The writes of the strings one after the other.
  abbrev pub writes_out : ℕ → OutputPort W → List (List ℕ) → Option (Outcome W)
  writes_out fuel p [] = some (done p)
  writes_out fuel p (s ∷ ss) = and_then (bgl_write syswrite fuel p s) (λ q. writes_out fuel q ss)

  module _ (limit : ℕ) (h : Takes syswrite accepted limit) (fuel : ℕ) where
    writes-Puts :
        (n : ℕ) (mode : BufMode) (w : W) (buf : List ℕ) (ptr : ℕ) (ss : List (List ℕ))
        → n * suc limit ≤ fuel
        → extensible mode ≡ false
        → ptr ≤ length buf
        → length buf + length (concat ss) ≤ n
        → Puts syswrite accepted mode w buf ptr
            (concat ss)
            (writes_out fuel (plain mode w buf ptr) ss)
    writes-Puts n mode w buf ptr [] enough b within le = (
      w,
      buf,
      ptr,
      refl,
      refl,
      omega arith,
      within,
      sym (append-nil (accepted w ++ take ptr buf)),
    )
    writes-Puts n mode w buf ptr (s ∷ ss) enough b within le =
        let size = length-append s (concat ss) in
        Puts-then syswrite accepted mode w buf ptr s (concat ss)
          (bgl_write syswrite fuel (plain mode w buf ptr) s) (λ q. writes_out fuel q ss)
          (bgl_write-Puts syswrite accepted limit h fuel n enough mode w buf ptr s b within
            (omega (arith, size)))
          (λ w₁ buf₁ ptr₁ n₁ below room.
            writes-Puts n mode w₁ buf₁ ptr₁ ss enough b (omega arith) (omega (arith, size)))

    -- On an open port that is neither a string port nor `_stdout` and has no flush hook, with a
    -- buffer that does not grow, writes and a flush return if the system does not fail: each of its
    -- calls takes one byte or more, or is interrupted, at most `limit` times in a row. The system
    -- has then taken what the buffer held at first and the strings, in their order. For each string
    -- that is flushed, `1 + limit` calls for each byte of the buffer and of the strings are enough.
    pub writes-flush :
        (mode : BufMode) (w : W) (buf : List ℕ) (ptr : ℕ) (ss : List (List ℕ))
        → extensible mode ≡ false
        → ptr ≤ length buf
        → (length buf + length (concat ss)) * suc limit ≤ fuel
        → (w' : W) × (buf' : List ℕ) × (and_then
              (writes_out fuel (plain mode w buf ptr) ss)
              (λ q. bgl_output_flush syswrite fuel q [])
            ≡ some (done (plain mode w' buf' 0)))
          × (accepted w' ≡ accepted w ++ take ptr buf ++ concat ss)
    writes-flush mode w buf ptr ss b within enough =
        let n = length buf + length (concat ss) in
        let (w₁, buf₁, ptr₁, e₁, n₁, x₁, y₁, a₁) =
          writes-Puts n mode w buf ptr ss enough b within (omega arith) in
        let (w₂, run, a₂) =
          flush_buffer_lem syswrite accepted limit h mode fuel n w₁ buf₁ ptr₁ [] enough
            (omega arith) (omega arith) in
        (
          w₂,
          buf₁,
          ap (λ r. and_then r (λ q. bgl_output_flush syswrite fuel q [])) e₁
              ∙ flush_of_buffer syswrite accepted fuel mode w₁ buf₁ ptr₁ [] b
              ∙ run,
          a₂ ∙ ap (λ xs. accepted w₁ ++ xs) (append-nil (take ptr₁ buf₁)) ∙ a₁,
        )
