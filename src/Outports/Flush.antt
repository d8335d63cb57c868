-- ===== src/Outports/Flush.antt =====
-- The flush of a port without a flush hook.
use bigloo.Prelude.{
  ℕ, ◌==◌, ltb, Bool, true, false, ◌||◌, Option, none, some, List, length, ◌≡◌, refl, ap, ap₂,
}
use bigloo.Outports.{
  KindOf, kindof_closed, BufMode, ioebf, OutputPort, Written, Outcome, done, failure, wrote,
  bgl_output_port_cnt, output_flush, flush_extensible, flush_buffer, invoke_flush_hook,
}

module _ {W : Type 0} (syswrite : OutputPort W → List ℕ → Written W) where
  pub invoke_plain :
      (fuel : ℕ) (p : OutputPort W) (n : ℕ) (err : Bool)
      → p.fhook ≡ none
      → invoke_flush_hook syswrite fuel p.fhook p n err ≡ some (done p)
  unfolding invoke_flush_hook
  invoke_plain fuel p n err h = ap (λ o. invoke_flush_hook syswrite fuel o p n err) h

  pub output_flush_extensible :
      (fuel : ℕ) (p : OutputPort W) (str : List ℕ) (b err : Bool)
      → p.kindof ≡ KindOf.kindof_string
      → p.bufmode ≡ BufMode.ioebf
      → output_flush syswrite fuel p str b err ≡ flush_extensible syswrite fuel p str err
  unfolding output_flush
  output_flush_extensible fuel p str b err k m =
      let choose : KindOf → BufMode → Option (Outcome W) = λ kind mode. elim kind [
        | kindof_closed ↦ some (failure p)
        | _ ↦ elim mode [
          | ioebf ↦ flush_extensible syswrite fuel p str err
          | _ ↦ flush_buffer syswrite fuel p str b err
        ]
      ] in
      ap₂ choose k m

  pub output_flush_closed :
      (fuel : ℕ) (p : OutputPort W) (str : List ℕ) (b err : Bool)
      → p.kindof ≡ KindOf.kindof_closed
      → output_flush syswrite fuel p str b err ≡ some (failure p)
  unfolding output_flush
  output_flush_closed fuel p str b err k =
      let choose : KindOf → Option (Outcome W) = λ kind. elim kind [
        | kindof_closed ↦ some (failure p)
        | _ ↦ elim p.bufmode [
          | ioebf ↦ flush_extensible syswrite fuel p str err
          | _ ↦ flush_buffer syswrite fuel p str b err
        ]
      ] in
      ap choose k

  pub flush_extensible_calls :
      (fuel : ℕ) (p q : OutputPort W) (str : List ℕ) (err : Bool) (n : ℕ)
      → p.fhook ≡ none
      → (ltb 0 (length str) || (bgl_output_port_cnt p == 0)) ≡ true
      → syswrite p str ≡ wrote n q
      → flush_extensible syswrite fuel p str err ≡ some (done q)
  unfolding flush_extensible
  flush_extensible_calls fuel p q str err n h c e =
      rw (invoke_plain fuel p (length str) err h, c, e) refl

  pub flush_extensible_rests :
      (fuel : ℕ) (p : OutputPort W) (str : List ℕ) (err : Bool)
      → p.fhook ≡ none
      → (ltb 0 (length str) || (bgl_output_port_cnt p == 0)) ≡ false
      → flush_extensible syswrite fuel p str err ≡ some (done p)
  unfolding flush_extensible
  flush_extensible_rests fuel p str err h c = rw (invoke_plain fuel p (length str) err h, c) refl
