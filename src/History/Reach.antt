-- ===== src/History/Reach.antt =====
-- What becomes of a task over any history of calls.
use lance_laker.Base.{
  String, ◌≡◌, refl, sym, subst, inl, inr, none, some, List, [], ◌∷◌, arith, Bool-cases, str_eq,
  eq_iff, IsUnique, has_key, find_by, find_by-none,
}
use mathlib.Core.Option.{some-injective}
use lance_laker.Models.{Task, Db}
use lance_laker.Scheduler.Dispatch.{Engine}
use lance_laker.TaskService.{clashes}
use lance_laker.Accounting.Moves.{uuid_of}
use lance_laker.History.Calls.{Call, perform, run}
use lance_laker.History.Steps.{Step, Rowwise}
use lance_laker.History.Evolution.{Evolves}
use lance_laker.History.Transitions.{perform-Evolves}

-- `Reach t t'`: some calls took the row `t` to the row `t'`.
pub data Reach (t : Task) : Task → Type 0 where
  here : Reach t t
  next : {u v : Task} → Reach t u → Step u v → Reach t v

Step-uuid : {t t' : Task} → Step t t' → t'.task_uuid ≡ t.task_uuid
Step-uuid Step.stays = refl
Step-uuid (Step.starts _ _ _ _) = refl
Step-uuid (Step.completes _ _ _) = refl
Step-uuid (Step.breaks _ _ _ _) = refl
Step-uuid (Step.requeues _) = refl
Step-uuid (Step.cancels _ _) = refl
Step-uuid (Step.retries _ _) = refl

find-Rowwise :
    (k : String) (ts ts' : List Task) (t : Task)
    → Rowwise Step ts ts'
    → find_by (has_key uuid_of k) ts ≡ some t
    → (t' : Task) × (find_by (has_key uuid_of k) ts' ≡ some t') × Step t t'
unfolding find_by
find-Rowwise k [] ts' t h e = absurd (cc)
find-Rowwise k (x ∷ xs) [] t h e = absurd h
find-Rowwise k (x ∷ xs) (y ∷ ys) t h e = elim (Bool-cases (str_eq x.task_uuid k)) [
  | inl hit ↦
      (y, rw (Step-uuid h.0) (rw hit), subst (λ u. Step u y) (some-injective x t (rw hit at e)) h.0)
  | inr miss ↦
      let (t', found, step) = find-Rowwise k xs ys t h.1 (rw miss at e) in
      (t', rw (Step-uuid h.0) (rw miss found), step)
]

none-Rowwise :
    (k : String) (ts ts' : List Task)
    → Rowwise Step ts ts'
    → find_by (has_key uuid_of k) ts ≡ none
    → find_by (has_key uuid_of k) ts' ≡ none
unfolding find_by
none-Rowwise k [] [] h e = e
none-Rowwise k [] (y ∷ ys) h e = absurd h
none-Rowwise k (x ∷ xs) [] h e = absurd h
none-Rowwise k (x ∷ xs) (y ∷ ys) h e = elim (Bool-cases (str_eq x.task_uuid k)) [
  | inl hit ↦ absurd (ground arith)
  | inr miss ↦ rw (Step-uuid h.0) (rw miss (none-Rowwise k xs ys h.1 (rw miss at e)))
]

Rowwise-IsUnique :
    (ts ts' : List Task) → Rowwise Step ts ts' → IsUnique uuid_of ts → IsUnique uuid_of ts'
Rowwise-IsUnique [] [] h u = u
Rowwise-IsUnique [] (y ∷ ys) h u = absurd h
Rowwise-IsUnique (x ∷ xs) [] h u = absurd h
Rowwise-IsUnique (x ∷ xs) (y ∷ ys) h u = (
  subst (λ k. find_by (has_key uuid_of k) ys ≡ none) (sym (Step-uuid h.0))
      (none-Rowwise x.task_uuid xs ys h.1 u.0),
  Rowwise-IsUnique xs ys h.1 u.1,
)

new_uuid :
    (t : Task) (ts : List Task)
    → find_by (clashes t) ts ≡ none
    → find_by (has_key uuid_of t.task_uuid) ts ≡ none
new_uuid t ts fresh =
    find_by-none (clashes t) (has_key uuid_of t.task_uuid) ts (λ x same. ground arith) fresh

Evolves-IsUnique :
    (ts ts' : List Task) → Evolves ts ts' → IsUnique uuid_of ts → IsUnique uuid_of ts'
Evolves-IsUnique ts ts' (inl rows) u = Rowwise-IsUnique ts ts' rows u
Evolves-IsUnique ts ts' (inr (t, _, _, fresh, e)) u = rw e (new_uuid t ts fresh, u)

find-new :
    (k : String) (v t : Task) (ts : List Task)
    → find_by (has_key uuid_of v.task_uuid) ts ≡ none
    → find_by (has_key uuid_of k) ts ≡ some t
    → find_by (has_key uuid_of k) (v ∷ ts) ≡ some t
unfolding find_by
find-new k v t ts fresh found = elim (Bool-cases (str_eq v.task_uuid k)) [
  | inl hit ↦
      let clash : find_by (has_key uuid_of k) ts ≡ none =
        subst (λ j. find_by (has_key uuid_of j) ts ≡ none) ((eq_iff v.task_uuid k).0 hit) fresh in
      absurd (ground arith)
  | inr miss ↦ rw miss found
]

find-Evolves :
    (k : String) (ts ts' : List Task) (t : Task)
    → Evolves ts ts'
    → find_by (has_key uuid_of k) ts ≡ some t
    → (t' : Task) × (find_by (has_key uuid_of k) ts' ≡ some t') × Step t t'
find-Evolves k ts ts' t (inl rows) found = find-Rowwise k ts ts' t rows found
find-Evolves k ts ts' t (inr (v, _, _, fresh, e)) found =
    (t, rw e (find-new k v t ts (new_uuid v ts fresh) found), Step.stays)

Reach-Step : {t u v : Task} → Step t u → Reach u v → Reach t v
Reach-Step st here = next here st
Reach-Step st (next r last) = next (Reach-Step st r) last

-- Uuids being unique, no history loses a task: after it the task's uuid still finds a row, and the
-- calls took the old row to it along the state machine.
pub run-Reach :
    (e : Engine) (calls : List Call) (db : Db) (uuid : String) (t : Task)
    → IsUnique uuid_of db.tasks
    → find_by (has_key uuid_of uuid) db.tasks ≡ some t
    → (t' : Task) × (find_by (has_key uuid_of uuid) (run e calls db).tasks ≡ some t') × Reach t t'
unfolding run
run-Reach e [] db uuid t u found = (t, found, here)
run-Reach e (call ∷ calls) db uuid t u found =
    let rows = perform-Evolves e call db u in
    let (t₁, found₁, step) = find-Evolves uuid db.tasks (perform e call db).tasks t rows found in
    let (t', found', reach) =
      run-Reach e calls (perform e call db) uuid t₁
        (Evolves-IsUnique db.tasks (perform e call db).tasks rows u) found₁ in
    (t', found', Reach-Step step reach)
