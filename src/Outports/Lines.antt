-- ===== src/Outports/Lines.antt =====
-- Writes to a port of the system, with each of its buffering modes.
use bigloo.Prelude.{
  suc, ◌*◌, ℕ, ◌+◌, ◌-◌, ◌≤◌, ◌==◌, ltb, leb, Bool, Bool-cases, true, false, Option, none, some,
  List, [], ◌∷◌, ◌++◌, length, take, drop, ◌>>=◌, if◌then◌else◌, ◌≡◌, inl, inr, refl, ap, sym, ◌∙◌,
  arith, append_assoc, append-nil, length-append,
}
use mathlib.Core.Path.{subst}
use bigloo.Outports.{
  BufMode, ionb, iolbf, iofbf, ioebf, OutputPort, Written, Outcome, done, and_then, put_at,
  flush_buffer, bgl_write, bgl_output_flush, output_flush, write_lines,
}
use bigloo.Outports.Text.{take_put, length_put}
use bigloo.Outports.System.{plain, Takes, flush_buffer_lem}

abbrev pub extensible : BufMode → Bool
extensible ioebf = true
extensible _ = false

module _ {W : Type 0} (syswrite : OutputPort W → List ℕ → Written W) (accepted : W → List ℕ) where
  -- The port after a write of `s`: nothing is lost, and nothing changes its order.
  abbrev pub Puts : BufMode → W → List ℕ → ℕ → List ℕ → Option (Outcome W) → Type 0
  Puts mode w buf ptr s r =
      (w' : W) × (buf' : List ℕ) × (ptr' : ℕ) × (r ≡ some (done (plain mode w' buf' ptr')))
      × (length buf' ≡ length buf)
      × (ptr' ≤ ptr + length s)
      × (ptr' ≤ length buf)
      × (accepted w' ++ take ptr' buf' ≡ accepted w ++ take ptr buf ++ s)

  -- A write, and then another one.
  pub Puts-then :
      (mode : BufMode) (w : W) (buf : List ℕ) (ptr : ℕ) (s t : List ℕ) (r : Option (Outcome W))
      (f : OutputPort W → Option (Outcome W))
      → Puts mode w buf ptr s r
      → ((w' : W) (buf' : List ℕ) (ptr' : ℕ)
          → length buf' ≡ length buf
          → ptr' ≤ ptr + length s
          → ptr' ≤ length buf
          → Puts mode w' buf' ptr' t (f (plain mode w' buf' ptr')))
      → Puts mode w buf ptr (s ++ t) (and_then r f)
  Puts-then mode w buf ptr s t r f (w₁, buf₁, ptr₁, e₁, n₁, x₁, y₁, a₁) k =
      let (w₂, buf₂, ptr₂, e₂, n₂, x₂, y₂, a₂) = k w₁ buf₁ ptr₁ n₁ x₁ y₁ in
      (
        w₂,
        buf₂,
        ptr₂,
        ap (λ o. and_then o f) e₁ ∙ e₂,
        n₂ ∙ n₁,
        omega (arith, length-append s t),
        omega arith,
        a₂ ∙ ap (λ xs. xs ++ t) a₁ ∙ append_assoc (accepted w ++ take ptr buf) s t,
      )

  pub flush_of_buffer :
      (fuel : ℕ) (mode : BufMode) (w : W) (buf : List ℕ) (ptr : ℕ) (s : List ℕ)
      → extensible mode ≡ false
      → bgl_output_flush syswrite fuel (plain mode w buf ptr) s
        ≡ flush_buffer syswrite fuel (plain mode w buf ptr) s false true
  unfolding bgl_output_flush output_flush
  flush_of_buffer fuel ionb w buf ptr s b = refl
  flush_of_buffer fuel iolbf w buf ptr s b = refl
  flush_of_buffer fuel iofbf w buf ptr s b = refl
  flush_of_buffer fuel ioebf w buf ptr s b = absurd (ground arith)

  module _ (limit : ℕ) (h : Takes syswrite accepted limit) (fuel n : ℕ)
      (enough : n * suc limit ≤ fuel) where
    pub flush-Puts :
        (mode : BufMode) (w : W) (buf : List ℕ) (ptr : ℕ) (s : List ℕ)
        → extensible mode ≡ false
        → ptr ≤ length buf
        → length buf + length s ≤ n
        → Puts mode w buf ptr s (bgl_output_flush syswrite fuel (plain mode w buf ptr) s)
    flush-Puts mode w buf ptr s b within le =
        let (w', run, a) =
          flush_buffer_lem syswrite accepted limit h mode fuel n w buf ptr s enough within le in
        (
          w',
          buf,
          0,
          flush_of_buffer fuel mode w buf ptr s b ∙ run,
          refl,
          omega arith,
          omega arith,
          append-nil (accepted w') ∙ a ∙ sym (append_assoc (accepted w) (take ptr buf) s),
        )

    copy-Puts :
        (mode : BufMode) (w : W) (buf : List ℕ) (ptr : ℕ) (s : List ℕ)
        → ptr + length s ≤ length buf
        → Puts mode w buf ptr s (
            put_at buf ptr s >>= λ buf'.
            some (done (record (plain mode w buf ptr) { buf = buf'; ptr = ptr + length s })))
    copy-Puts mode w buf ptr s le =
        let buf' = take ptr buf ++ s ++ drop (ptr + length s) buf in
        let size = length_put ptr buf s le in
        let fits : leb (ptr + length s) (length buf) ≡ true = ground arith in
        let ends : ℕ → Option (Outcome W) =
          λ n. some (done (record (plain mode w buf' (ptr + length s)) { end = n })) in
        (
          w,
          buf',
          ptr + length s,
          rw fits (ap ends (sym size)),
          size,
          omega arith,
          le,
          ap (λ xs. accepted w ++ xs) (take_put ptr buf s (drop (ptr + length s) buf) (omega arith))
              ∙ sym (append_assoc (accepted w) (take ptr buf) s),
        )

    bind_then :
        (next : OutputPort W → Option (Outcome W)) (f : List ℕ → OutputPort W) (o : Option (List ℕ))
        → (o >>= λ b. next (f b)) ≡ and_then (o >>= λ b. some (done (f b))) next
    bind_then next f none = refl
    bind_then next f (some b) = refl

    -- A character, and the flush at the end of a line.
    line_step :
        (mode : BufMode) (w : W) (buf : List ℕ) (ptr c : ℕ)
        → extensible mode ≡ false
        → ptr ≤ length buf
        → length buf ≤ n
        → Puts mode w buf ptr [] (
            if c == 10
            then bgl_output_flush syswrite fuel (plain mode w buf ptr) []
            else some (done (plain mode w buf ptr)))
    line_step mode w buf ptr c b within le = elim (Bool-cases (c == 10)) [
      | inl e ↦ rw e (flush-Puts mode w buf ptr [] b within (omega arith))
      | inr e ↦ rw e (
        w,
        buf,
        ptr,
        refl,
        refl,
        omega arith,
        within,
        sym (append-nil (accepted w ++ take ptr buf)),
      )
    ]

    write_lines-Puts :
        (mode : BufMode) (w : W) (buf : List ℕ) (ptr : ℕ) (s : List ℕ)
        → extensible mode ≡ false
        → ptr + length s ≤ length buf
        → length buf ≤ n
        → Puts mode w buf ptr s (write_lines syswrite fuel (plain mode w buf ptr) s)
    unfolding write_lines
    write_lines-Puts mode w buf ptr [] b within le = (
      w,
      buf,
      ptr,
      refl,
      refl,
      omega arith,
      omega arith,
      sym (append-nil (accepted w ++ take ptr buf)),
    )
    write_lines-Puts mode w buf ptr (c ∷ s) b within le =
        let next : OutputPort W → Option (Outcome W) =
          λ q. if c == 10 then bgl_output_flush syswrite fuel q [] else some (done q) in
        let rest : OutputPort W → Option (Outcome W) = λ q. write_lines syswrite fuel q s in
        let stored : List ℕ → OutputPort W =
          λ buf'. record (plain mode w buf ptr) { buf = buf'; ptr = ptr + 1 } in
        subst (Puts mode w buf ptr (c ∷ s))
          (sym (bind_then (λ q. and_then (next q) rest) stored (put_at buf ptr (c ∷ []))))
          (Puts-then mode w buf ptr (c ∷ []) s
            (put_at buf ptr (c ∷ []) >>= λ buf'. some (done (stored buf')))
            (λ q. and_then (next q) rest) (copy-Puts mode w buf ptr (c ∷ []) (omega arith))
            (λ w₁ buf₁ ptr₁ size below room.
              Puts-then mode w₁ buf₁ ptr₁ [] s (next (plain mode w₁ buf₁ ptr₁)) rest
                (line_step mode w₁ buf₁ ptr₁ c b (omega arith) (omega arith))
                (λ w₂ buf₂ ptr₂ size₂ below₂ room₂.
                  write_lines-Puts mode w₂ buf₂ ptr₂ s b (omega arith) (omega arith))))

    by_mode :
        (mode : BufMode) (w : W) (buf : List ℕ) (ptr : ℕ) (s : List ℕ)
        → extensible mode ≡ false
        → ltb (length s) (length buf - ptr) ≡ true
        → length buf ≤ n
        → Puts mode w buf ptr s (bgl_write syswrite fuel (plain mode w buf ptr) s)
    unfolding bgl_write
    by_mode ionb w buf ptr s b e le = rw e (copy-Puts ionb w buf ptr s (ground arith))
    by_mode iolbf w buf ptr s b e le = rw e (write_lines-Puts iolbf w buf ptr s b (ground arith) le)
    by_mode iofbf w buf ptr s b e le = rw e (copy-Puts iofbf w buf ptr s (ground arith))
    by_mode ioebf w buf ptr s b e le = absurd (ground arith)

    -- A write to a port of the system returns, and what the system has taken and the buffer holds
    -- is longer by the string that was written.
    pub bgl_write-Puts :
        (mode : BufMode) (w : W) (buf : List ℕ) (ptr : ℕ) (s : List ℕ)
        → extensible mode ≡ false
        → ptr ≤ length buf
        → length buf + length s ≤ n
        → Puts mode w buf ptr s (bgl_write syswrite fuel (plain mode w buf ptr) s)
    unfolding bgl_write
    bgl_write-Puts mode w buf ptr s b within le =
        elim (Bool-cases (ltb (length s) (length buf - ptr))) [
          | inr e ↦ rw e (flush-Puts mode w buf ptr s b within le)
          | inl e ↦ by_mode mode w buf ptr s b e (omega arith)
        ]
