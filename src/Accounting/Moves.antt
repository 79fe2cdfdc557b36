-- ===== src/Accounting/Moves.antt =====
-- The moves that the services make on the rows, each keeping the accounts: a task changes and runs
-- where it ran, starts, stops, or is new; a worker changes beside its counter.
use lance_laker.Base.{
  String, ◌<◌, ◌≡◌, ◌≢◌, refl, Bool, true, false, none, some, ◌∷◌, eq_iff, eq_refl, arith, has_key,
  find_by, count_by, put_by, update_by, All-find_by, All-map, put_by-All, update_by-All,
  count_by-put_by, put_by-IsUnique, update_by-IsUnique,
}
use lance_laker.Models.{Task, WorkerRegistry, running, is_running, Db}
use lance_laker.Session.{worker_at}
use lance_laker.Scheduler.Workers.{released}
use lance_laker.Scheduler.Dispatch.{loaded}
use lance_laker.Accounting.Invariant.{runs_for, IsCounted, IsSound, IsCounted-tasks}

abbrev pub uuid_of : Task → String
uuid_of t = t.task_uuid

abbrev pub id_of : WorkerRegistry → String
id_of w = w.worker_id

-- A task's row is written again, running where it ran.
pub keep_task :
    (db : Db) (p : Task → Bool) (v t : Task)
    → find_by p db.tasks ≡ some t
    → v.task_uuid ≡ t.task_uuid
    → ((k : String) → k ≢ "" → runs_for k v ≡ runs_for k t)
    → IsSound db
    → IsSound (record db { tasks = put_by p v db.tasks })
keep_task db p v t found same alike s = record {
  tasks_unique = put_by-IsUnique uuid_of p v db.tasks t found same s.tasks_unique;
  workers_unique = s.workers_unique;
  counted =
      All-map (IsCounted db.tasks) (IsCounted (put_by p v db.tasks)) db.workers
        (λ w h.
          IsCounted-tasks db.tasks (put_by p v db.tasks) w
            (ground (
              arith,
              alike w.worker_id h.2,
              count_by-put_by (runs_for w.worker_id) p v db.tasks t found,
            ))
            h)
        s.counted;
}

-- A task that did not run starts on a worker with a free slot.
pub start_task :
    (db : Db) (p : Task → Bool) (v t : Task) (w : WorkerRegistry)
    → find_by p db.tasks ≡ some t
    → v.task_uuid ≡ t.task_uuid
    → is_running t.status ≡ false
    → v.status ≡ running
    → v.worker_id ≡ some w.worker_id
    → find_by (has_key id_of w.worker_id) db.workers ≡ some w
    → w.in_flight < w.capacity
    → IsSound db
    → IsSound (record db {
      tasks = put_by p v db.tasks;
      workers = put_by (has_key id_of w.worker_id) (loaded w) db.workers;
    })
start_task db p v t w found same idle runs on registered free s = record {
  tasks_unique = put_by-IsUnique uuid_of p v db.tasks t found same s.tasks_unique;
  workers_unique =
      put_by-IsUnique id_of (has_key id_of w.worker_id) (loaded w) db.workers w registered refl
        s.workers_unique;
  counted =
      put_by-All (IsCounted db.tasks) (IsCounted (put_by p v db.tasks)) id_of w.worker_id (loaded w)
        db.workers s.workers_unique
        (λ x other h.
          IsCounted-tasks db.tasks (put_by p v db.tasks) x
            (ground (
              arith,
              eq_iff x.worker_id w.worker_id,
              eq_iff w.worker_id x.worker_id,
              count_by-put_by (runs_for x.worker_id) p v db.tasks t found,
            ))
            h)
        (let h =
            All-find_by (IsCounted db.tasks) (has_key id_of w.worker_id) db.workers w s.counted
              registered in
          (
            ground (
              arith,
              h.0,
              eq_refl w.worker_id,
              count_by-put_by (runs_for w.worker_id) p v db.tasks t found,
            ),
            omega (arith, h.1),
            h.2,
          ))
        s.counted;
}

-- A task that runs on a worker stops, and the worker's slot is released.
pub stop_task :
    (db : Db) (p : Task → Bool) (v t : Task) (worker_id : String)
    → find_by p db.tasks ≡ some t
    → v.task_uuid ≡ t.task_uuid
    → is_running t.status ≡ true
    → t.worker_id ≡ some worker_id
    → is_running v.status ≡ false
    → IsSound db
    → IsSound (record db {
      tasks = put_by p v db.tasks;
      workers = update_by (worker_at worker_id) released db.workers;
    })
stop_task db p v t wid found same ran on idle s = record {
  tasks_unique = put_by-IsUnique uuid_of p v db.tasks t found same s.tasks_unique;
  workers_unique =
      update_by-IsUnique id_of (worker_at wid) released db.workers (λ x. refl) s.workers_unique;
  counted =
      update_by-All (IsCounted db.tasks) (IsCounted (put_by p v db.tasks)) (worker_at wid) released
        db.workers
        (λ x h. ground (
          arith,
          h.0,
          h.1,
          h.2,
          eq_iff x.worker_id wid,
          eq_iff wid x.worker_id,
          count_by-put_by (runs_for x.worker_id) p v db.tasks t found,
        ))
        s.counted;
}

-- A new task that does not run.
pub add_task :
    (db : Db) (v : Task)
    → find_by (has_key uuid_of v.task_uuid) db.tasks ≡ none
    → is_running v.status ≡ false
    → IsSound db
    → IsSound (record db { tasks = v ∷ db.tasks })
unfolding count_by
add_task db v fresh idle s = record {
  tasks_unique = (fresh, s.tasks_unique);
  workers_unique = s.workers_unique;
  counted =
      All-map (IsCounted db.tasks) (IsCounted (v ∷ db.tasks)) db.workers
        (λ w h. IsCounted-tasks db.tasks (v ∷ db.tasks) w (ground arith) h) s.counted;
}

-- A worker's row is written again, beside its id and its account.
pub keep_worker :
    (db : Db) (k : String) (v w : WorkerRegistry)
    → find_by (has_key id_of k) db.workers ≡ some w
    → v.worker_id ≡ w.worker_id
    → IsCounted db.tasks v
    → IsSound db
    → IsSound (record db { workers = put_by (has_key id_of k) v db.workers })
keep_worker db k v w found same h s = record {
  tasks_unique = s.tasks_unique;
  workers_unique =
      put_by-IsUnique id_of (has_key id_of k) v db.workers w found same s.workers_unique;
  counted =
      put_by-All (IsCounted db.tasks) (IsCounted db.tasks) id_of k v db.workers s.workers_unique
        (λ x other hx. hx) h s.counted;
}
