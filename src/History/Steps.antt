-- ===== src/History/Steps.antt =====
-- The state machine of a task (the heads of services/task_service.py and
-- services/scheduler_service.py): what one call may do to a stored row.
use lance_laker.Base.{
  ℕ, String, ◌<◌, ◌≡◌, inl, inr, Bool, true, Option, some, List, [], ◌∷◌, Bool-cases, find_by,
  put_by, update_by,
}
use lance_laker.Json.{Fields}
use lance_laker.Models.{Task, running, failed, is_waiting}
use lance_laker.Scheduler.Dispatch.{dispatched, completed, broken, requeued}
use lance_laker.TaskService.{is_cancellable, called_off, retried}

-- `Step t t'`: the row `t` may be the row `t'` after one call.
pub data Step (t : Task) : Task → Type 0 where
  stays : Step t t
  starts :
      (worker_id : String) (now : ℕ)
      → is_waiting t.status ≡ true
      → t.attempt < t.max_attempts
      → Step t (dispatched worker_id now t)
  completes :
      (now : ℕ) (result : Option Fields) → t.status ≡ running → Step t (completed now result t)
  breaks :
      (now : ℕ) (code message : String) → t.status ≡ running → Step t (broken now code message t)
  requeues : t.status ≡ running → Step t (requeued t)
  cancels : (now : ℕ) → is_cancellable t.status ≡ true → Step t (called_off now t)
  retries : t.status ≡ failed → t.attempt < t.max_attempts → Step t (retried t)

-- Two tables row by row.
abbrev pub Rowwise {ℓ} : {A : Type ℓ} → (A → A → Type 0) → List A → List A → Type 0
Rowwise R [] [] = Unit
Rowwise R [] (y ∷ ys) = ⊥
Rowwise R (x ∷ xs) [] = ⊥
Rowwise R (x ∷ xs) (y ∷ ys) = R x y × Rowwise R xs ys

module _ {ℓ} {A : Type ℓ} (R : A → A → Type 0) (same : (x : A) → R x x) where
  pub Rowwise-refl : (xs : List A) → Rowwise R xs xs
  Rowwise-refl [] = tt
  Rowwise-refl (x ∷ xs) = (same x, Rowwise-refl xs)

  -- One row is written back.
  pub Rowwise-put_by :
      (p : A → Bool) (v : A) (xs : List A)
      → ((t : A) → find_by p xs ≡ some t → R t v)
      → Rowwise R xs (put_by p v xs)
  unfolding find_by put_by
  Rowwise-put_by p v [] step = tt
  Rowwise-put_by p v (x ∷ xs) step = elim (Bool-cases (p x)) [
    | inl hit ↦ rw hit (step x (rw hit), Rowwise-refl xs)
    | inr miss ↦ rw miss (same x, Rowwise-put_by p v xs (λ t found. step t (rw miss found)))
  ]

  pub Rowwise-update_by :
      (p : A → Bool) (f : A → A) (xs : List A)
      → ((x : A) → p x ≡ true → R x (f x))
      → Rowwise R xs (update_by p f xs)
  unfolding update_by
  Rowwise-update_by p f [] step = tt
  Rowwise-update_by p f (x ∷ xs) step = elim (Bool-cases (p x)) [
    | inl hit ↦ rw hit (step x hit, Rowwise-update_by p f xs step)
    | inr miss ↦ rw miss (same x, Rowwise-update_by p f xs step)
  ]
