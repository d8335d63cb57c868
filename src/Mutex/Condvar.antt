-- ===== src/Mutex/Condvar.antt =====
-- The two halves of a wait on a condition variable are an unlocking and a locking.
use bigloo.Prelude.{
  ℕ, Bool, false, Option, Option-cases, inl, inr, none, some, ◌≡◌, refl, arith, ap, ap₂, ◌∙◌, sym,
  ◌>>=◌,
}
use mathlib.Core.Path.{fun_ext}
use bigloo.Mutex.{
  Mutex, Store, set_locked, set_thread, srfi18_mutex_mark_unlocked, srfi18_mutex_mark_locked,
  unregister_mutex, srfi18_mutex_lock, srfi18_mutex_unlock, condvar_release, condvar_reacquire,
}
use bigloo.Mutex.Invariant.{Free, update_hit}
use bigloo.Mutex.Foreign.{unregister-Free}
use bigloo.Mutex.Owned.{unlinks, unlinks_lem, unlinked_first}
use bigloo.Mutex.Lists.{unlinked}

abbrev unlocks : ℕ → Store → Store
unlocks m s = record s { mutex = set_locked m false s.mutex }

unlinked-set_locked :
    (m : ℕ) (f : ℕ → Mutex) (p n : Option ℕ)
    → unlinked m p n (set_locked m false f) ≡ set_locked m false (unlinked m p n f)
unlinked-set_locked m f none none = fun_ext (λ j. ground arith)
unlinked-set_locked m f (some p) none = fun_ext (λ j. ground arith)
unlinked-set_locked m f none (some n) = fun_ext (λ j. ground arith)
unlinked-set_locked m f (some p) (some n) = fun_ext (λ j. ground arith)

-- The list is left alike whether the flag is reset before or after.
unregister-unlocks :
    (s : Store) (t m : ℕ)
    → (s.mutex m).thread ≡ some t
    → unregister_mutex m (unlocks m s) ≡ unlocks m (unregister_mutex m s)
unfolding unregister_mutex
unregister-unlocks s t m h =
    let x = record (s.mutex m) { locked = false } in
    let hit = update_hit s.mutex m x in
    let p = (s.mutex m).prev in
    let n = (s.mutex m).next in
    let store : (ℕ → Mutex) → Store =
      λ f. record { mutex = f; mutexes = unlinked_first t p n s.mutexes } in
    ap₂ (λ q r. unlinks m q r (unlocks m s)) (ap (λ y. y.prev) hit) (ap (λ y. y.next) hit)
    ∙ unlinks_lem (unlocks m s) t m p n (ap (λ y. y.thread) hit ∙ h)
    ∙ ap store (unlinked-set_locked m s.mutex p n)
    ∙ sym (ap (unlocks m) (unlinks_lem s t m p n h))

-- A wait on a condition variable releases the mutex of a thread as an unlocking does, and keeps the
-- thread.
pub condvar_release_lem :
    (s : Store) (t m : ℕ)
    → (s.mutex m).thread ≡ some t
    → some (false, (condvar_release m s).1) ≡ srfi18_mutex_unlock false m s
unfolding condvar_release srfi18_mutex_unlock srfi18_mutex_mark_unlocked
condvar_release_lem s t m h =
    let ends : Store → Option (Bool × Store) = λ s'. some (false, s') in
    ap ends (unregister-unlocks s t m h)

unlocks-set_thread :
    (m : ℕ) (f : ℕ → Mutex)
    → set_thread m none (set_locked m false f) ≡ set_locked m false (set_thread m none f)
unlocks-set_thread m f = fun_ext (λ j. ground arith)

-- So it does with a mutex of no thread.
pub condvar_release-none :
    (s : Store) (m : ℕ)
    → Free (s.mutex m)
    → (s.mutex m).thread ≡ none
    → some (false, (condvar_release m s).1) ≡ srfi18_mutex_unlock false m s
unfolding condvar_release srfi18_mutex_unlock srfi18_mutex_mark_unlocked
condvar_release-none s m h k =
    let hit = update_hit s.mutex m (record (s.mutex m) { locked = false }) in
    let still : Free ((unlocks m s).mutex m) =
      (ap (λ y. y.prev) hit ∙ h.0, ap (λ y. y.next) hit ∙ h.1, inl (ap (λ y. y.locked) hit)) in
    let ends : Store → Option (Bool × Store) = λ s'. some (false, s') in
    let store : (ℕ → Mutex) → Option (Bool × Store) = λ f. some (false, record s { mutex = f }) in
    let unlocked : Store → Option (Bool × Store) = λ s'. some (false, unlocks m s') in
    ap ends (unregister-Free (unlocks m s) m still (ap (λ y. y.thread) hit ∙ k))
    ∙ ap store (unlocks-set_thread m s.mutex)
    ∙ sym (ap unlocked (unregister-Free s m h k))

-- The end of the wait takes the mutex as a locking by the kept thread does.
pub condvar_reacquire_lem :
    (s : Store) (o : Option ℕ) (m : ℕ)
    → srfi18_mutex_lock false o m s ≡ (condvar_reacquire m o s >>= λ s'. some (false, s'))
unfolding condvar_reacquire srfi18_mutex_lock
condvar_reacquire_lem s o m = elim (Option-cases (srfi18_mutex_mark_locked m o s)) [
  | inl e ↦ rw (e, condvar_reacquire) refl
  | inr (s', e) ↦ rw (e, condvar_reacquire) refl
]
