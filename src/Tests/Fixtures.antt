-- ===== src/Tests/Fixtures.antt =====
-- A database's choice of the first row, and the rows, principals and states that the tests use.
use lance_laker.Base.{
  ◌≡◌, refl, sym, subst, inl, inr, Bool, true, false, ◌&&◌, ◌||◌, Option, none, some, List, [], ◌∷◌,
  Memᴰ, arith, ltb, nat_eq, if◌then◌else◌, All, All-map, Bool-cases, Option-cases,
}
use lance_laker.Tenant.{TenantPrincipal, Ctx, oidc, system_principal}
use lance_laker.Models.{Task, pending, running, failed, WorkerRegistry, alive, Db}
use lance_laker.Scheduler.Dispatch.{Before, Engine}
use lance_laker.TaskService.{Submission, TaskFilters}

-- The first of the rows by priority and creation; of equal ones the first.
is_earlier : Task → Task → Bool
is_earlier u t =
    ltb u.priority t.priority || (nat_eq u.priority t.priority && ltb u.created_at t.created_at)

best : Task → Option Task → Task
best t none = t
best t (some u) = if is_earlier u t then u else t

pub pick : List Task → Option Task
pick [] = none
pick (t ∷ ts) = some (best t (pick ts))

pub pick-Mem : (ts : List Task) (t : Task) → pick ts ≡ some t → Memᴰ t ts
unfolding pick best
pick-Mem [] t h = absurd (cc)
pick-Mem (x ∷ xs) t h = elim (Option-cases (pick xs)) [
  | inl no_other ↦ Memᴰ.head (ground arith)
  | inr (u, e) ↦ elim (Bool-cases (is_earlier u x)) [
    | inl before ↦ Memᴰ.tail (pick-Mem xs t (ground arith))
    | inr after ↦ Memᴰ.head (ground arith)
  ]
]

Before-refl : (t : Task) → Before t t
Before-refl t = inr (refl, omega arith)

Before-trans : (a b c : Task) → Before a b → Before b c → Before a c
Before-trans a b c h k = omega arith

is_earlier-Before : (u t : Task) → is_earlier u t ≡ true → Before u t
unfolding is_earlier
is_earlier-Before u t h = ground arith

not-is_earlier-Before : (u t : Task) → is_earlier u t ≡ false → Before t u
unfolding is_earlier
not-is_earlier-Before u t h = ground arith

pick-none : (ts : List Task) → pick ts ≡ none → ts ≡ []
unfolding pick
pick-none [] h = refl
pick-none (t ∷ ts) h = absurd (cc)

pub pick-Before : (ts : List Task) (t : Task) → pick ts ≡ some t → All (Before t) ts
unfolding pick best
pick-Before [] t h = tt
pick-Before (x ∷ xs) t h = elim (Option-cases (pick xs)) [
  | inl no_other ↦
      let is_x : x ≡ t = ground arith in
      (
        subst (λ y. Before y x) is_x (Before-refl x),
        subst (All (Before t)) (sym (pick-none xs no_other)) tt,
      )
  | inr (u, e) ↦ elim (Bool-cases (is_earlier u x)) [
    | inl before ↦
        let is_u : u ≡ t = ground arith in
        (
          subst (λ y. Before y x) is_u (is_earlier-Before u x before),
          subst (λ y. All (Before y) xs) is_u (pick-Before xs u e),
        )
    | inr after ↦
        let is_x : x ≡ t = ground arith in
        (
          subst (λ y. Before y x) is_x (Before-refl x),
          subst (λ y. All (Before y) xs) is_x
              (All-map (Before u) (Before x) xs
                (λ y h'. Before-trans x u y (not-is_earlier-Before u x after) h')
                (pick-Before xs u e)),
        )
  ]
]

unfoldable pub engine : Engine
unfolding pick best is_earlier
engine = record {
  first = pick;
  first-Mem = pick-Mem;
  first-Before = pick-Before;
  first-cons = λ t ts h. cc;
}

abbrev pub scheduler : Ctx
scheduler = record { principal = some (system_principal "scheduler"); enforce_tenant_rls = true }

abbrev pub ann : TenantPrincipal
ann = record { tenant_id = "acme"; subject = "ann"; auth_method = oidc; is_system = false }

abbrev pub request : Ctx
request = record { principal = some ann; enforce_tenant_rls = true }

abbrev pub task_a : Task
task_a = record {
  task_uuid = "t-a";
  task_type = "COMPACTION";
  dataset_uuid = "d-1";
  tenant_id = "acme";
  status = pending;
  priority = 5;
  progress = 0;
  attempt = 0;
  max_attempts = 3;
  worker_id = none;
  idempotency_key = some "acme:nightly";
  params = none;
  result = none;
  error_code = none;
  error_message = none;
  scheduled_at = none;
  started_at = none;
  finished_at = none;
  created_at = 10;
}

-- Runs on the worker `w-1`.
abbrev pub task_b : Task
task_b = record task_a {
  task_uuid = "t-b";
  status = running;
  attempt = 1;
  worker_id = some "w-1";
  idempotency_key = none;
  started_at = some 20;
}

-- Failed in its second attempt of three.
abbrev pub task_c : Task
task_c = record task_a {
  task_uuid = "t-c";
  status = failed;
  attempt = 2;
  worker_id = some "w-1";
  idempotency_key = none;
}

abbrev pub worker_1 : WorkerRegistry
worker_1 = record {
  worker_id = "w-1";
  worker_type = "lifecycle";
  host = none;
  lease_id = "lease-1";
  capacity = 2;
  in_flight = 1;
  labels = none;
  status = alive;
  last_heartbeat_at = 100;
  created_at = 0;
}

abbrev pub site : Db
site = record {
  datasets = [];
  tasks = task_a ∷ task_b ∷ task_c ∷ [];
  indexes = [];
  policies = [];
  rules = [];
  workers = worker_1 ∷ [];
}

abbrev pub nightly : Submission
nightly = record {
  task_type = "COMPACTION";
  dataset_uuid = "d-1";
  priority = 5;
  params = none;
  idempotency_key = some "nightly";
  max_attempts = 3;
}

abbrev pub any_task : TaskFilters
any_task = record { dataset_uuid = none; task_type = none; status = none }
