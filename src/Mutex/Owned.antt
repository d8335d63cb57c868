-- ===== src/Mutex/Owned.antt =====
-- What `unregister_mutex` does to each mutex and to each list.
use bigloo.Prelude.{
  ℕ, ◌==◌, false, Option, none, some, List, [], ◌∷◌, ◌≡◌, refl, arith, ap, ap₂, ◌∙◌,
}
use bigloo.Mutex.{
  Mutex, Store, update, unregister_mutex, unlink_prev, unlink_next, set_prev, set_next, set_thread,
}
use bigloo.Mutex.Links.{head, NotIn, Zip}
use bigloo.Mutex.Lists.{unlinked}

module _ (m : ℕ) (f : ℕ → Mutex) where
  pub unlinked-locked : (p n : Option ℕ) (j : ℕ) → (unlinked m p n f j).locked ≡ (f j).locked
  unlinked-locked none none j = ground arith
  unlinked-locked (some p) none j = ground arith
  unlinked-locked none (some n) j = ground arith
  unlinked-locked (some p) (some n) j = ground arith

  pub unlinked-thread :
      (p n : Option ℕ) (j : ℕ) → (m == j) ≡ false → (unlinked m p n f j).thread ≡ (f j).thread
  unlinked-thread none none j h = ground arith
  unlinked-thread (some p) none j h = ground arith
  unlinked-thread none (some n) j h = ground arith
  unlinked-thread (some p) (some n) j h = ground arith

  pub unlinked-other :
      (xs ys : List ℕ) (j : ℕ)
      → NotIn j xs
      → (m == j) ≡ false
      → NotIn j ys
      → unlinked m (head xs) (head ys) f j ≡ f j
  unlinked-other [] [] j a h b = ground arith
  unlinked-other (x ∷ xs) [] j a h b = ground (arith, a.0)
  unlinked-other [] (y ∷ ys) j a h b = ground (arith, b.0)
  unlinked-other (x ∷ xs) (y ∷ ys) j a h b = ground (arith, a.0, b.0)

  -- `m` is linked to nothing.
  pub unlinked_self :
      (xs ys : List ℕ)
      → NotIn m xs
      → NotIn m ys
      → (f m).prev ≡ head xs
      → (f m).next ≡ head ys
      → ((unlinked m (head xs) (head ys) f m).prev ≡ none)
        × ((unlinked m (head xs) (head ys) f m).next ≡ none)
  unlinked_self [] [] a b p n = (ground arith, ground arith)
  unlinked_self (x ∷ xs) [] a b p n = (ground (arith, a.0), ground (arith, a.0))
  unlinked_self [] (y ∷ ys) a b p n = (ground (arith, b.0), ground (arith, b.0))
  unlinked_self (x ∷ xs) (y ∷ ys) a b p n = (ground (arith, a.0, b.0), ground (arith, a.0, b.0))

-- The first mutex of the list of `t` after the unlinking.
abbrev pub unlinked_first : ℕ → Option ℕ → Option ℕ → (ℕ → Option ℕ) → ℕ → Option ℕ
unlinked_first t none next g = update g t next
unlinked_first t (some p) next g = g

-- The writes of `unregister_mutex` once it has read the two links.
abbrev pub unlinks : ℕ → Option ℕ → Option ℕ → Store → Store
unlinks m p n s =
    let s' = unlink_next m p n (unlink_prev m p n s) in
    record s' { mutex = set_thread m none s'.mutex }

unlink_prev_lem :
    (s : Store) (t m : ℕ) (n : Option ℕ)
    → (s.mutex m).thread ≡ some t
    → unlink_prev m none n s ≡ record s { mutexes = update s.mutexes t n }
unfolding unlink_prev
unlink_prev_lem s t m n h =
    ap (λ o. elim o [ some t' ↦ record s { mutexes = update s.mutexes t' n } | none ↦ s ]) h

pub unlinks_lem :
    (s : Store) (t m : ℕ) (p n : Option ℕ)
    → (s.mutex m).thread ≡ some t
    → unlinks m p n s
      ≡ record { mutex = unlinked m p n s.mutex; mutexes = unlinked_first t p n s.mutexes }
unfolding unlink_prev unlink_next
unlinks_lem s t m none none h =
    let ends : Store → Store = λ s'. record s' { mutex = set_thread m none s'.mutex } in
    ap ends (unlink_prev_lem s t m none h)
unlinks_lem s t m none (some n) h =
    let ends : Store → Store =
      λ s'. record s' { mutex = set_thread m none (set_prev n none (set_next m none s'.mutex)) } in
    ap ends (unlink_prev_lem s t m (some n) h)
unlinks_lem s t m (some p) none h = refl
unlinks_lem s t m (some p) (some n) h = refl

pub unregister_mutex_lem :
    (s : Store) (t m : ℕ) (xs ys : List ℕ)
    → Zip s.mutex t xs (m ∷ ys)
    → unregister_mutex m s ≡ record {
      mutex = unlinked m (head xs) (head ys) s.mutex;
      mutexes = unlinked_first t (head xs) (head ys) s.mutexes;
    }
unfolding unregister_mutex
unregister_mutex_lem s t m xs ys z =
    ap₂ (λ p n. unlinks m p n s) z.right.1 z.right.2
    ∙ unlinks_lem s t m (head xs) (head ys) z.right.0
