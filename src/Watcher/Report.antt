-- ===== src/Watcher/Report.antt =====
-- services/index_watcher_service.py: what the report of a pass says, and that a key is emitted once.
use lance_laker.Base.{
  String, ◌+◌, ◌≡◌, inl, inr, true, false, some, List, ◌∷◌, arith, Option-cases, find_by, eq_refl,
}
use lance_laker.Models.{Index, Task, Db}
use lance_laker.Paging.{length}
use lance_laker.TaskService.{insert_task}
use lance_laker.Accounting.Requests.{insert-inv}
use lance_laker.Format.{Format}
use lance_laker.Indexes.{save_index, optimized}
use lance_laker.Watcher.Passes.{WatchPassReport, Surroundings, has_key_text, try_emit_optimize_task}

-- Every scanned row is counted once more, and every emitted key once.
abbrev pub IsBalanced : WatchPassReport → Type 0
IsBalanced r =
    (r.scanned_indexes
      ≡ r.enqueued_tasks + r.skipped_no_dataset + r.skipped_below_threshold + r.skipped_open_failed
        + r.skipped_idempotent)
    × (length r.emitted_keys ≡ r.enqueued_tasks)

find_new :
    (key : String) (t : Task) (ts : List Task)
    → t.idempotency_key ≡ some key
    → find_by (has_key_text key) (t ∷ ts) ≡ some t
unfolding find_by
find_new key t ts keyed = ground (arith, eq_refl key)

-- One row more is scanned, and the report stays balanced.
abbrev pub IsCounted : WatchPassReport → WatchPassReport → Type 0
IsCounted r r' = IsBalanced r' × (r'.scanned_indexes ≡ r.scanned_indexes + 1)

-- A pass that has emitted a task under a key emits no second one: on the state that it leaves,
-- another emission under this key, by any pass and for any index, returns False and changes nothing.
pub try_emit-once :
    (env env' : Surroundings) (base base' db db' : Db) (key : String) (t t' : Task) (x x' : Index)
    → t.idempotency_key ≡ some key
    → try_emit_optimize_task env base key t x db ≡ (true, db')
    → try_emit_optimize_task env' base' key t' x' db' ≡ (false, db')
unfolding try_emit_optimize_task
try_emit-once env env' base base' db db' key t t' x x' keyed h =
    elim (Option-cases (find_by (has_key_text key) db.tasks)) [
      | inr (old, known) ↦ absurd (ground arith)
      | inl unknown ↦ elim (Option-cases (env.rival key)) [
        | inr (committed, raced) ↦ absurd (ground arith)
        | inl alone ↦ elim (Option-cases (insert_task t (save_index (optimized env.now x) db))) [
          | inl refused ↦ absurd (ground arith)
          | inr (db1, stored) ↦
              let same : db1 ≡ db' = ground arith in
              let (_, is_db) = insert-inv t (save_index (optimized env.now x) db) db1 stored in
              let found : find_by (has_key_text key) db'.tasks ≡ some t =
                rw (← same) (rw is_db (find_new key t db.tasks keyed)) in
              ground arith
        ]
      ]
    ]
