-- ===== src/Scheduler/Registry.antt =====
-- internal/scheduler/scheduler.go, worker.go: the registration of workers before a run.
-- The mutex is not modelled here: each method holds it for its whole body.
pub mod Names
pub mod Refinement
mod Tests
use stabsight.Base.{
  ℕ, Bool, true, false, Option, none, some, List, [], ◌∷◌, ◌++◌, map, length, Text, text_eq,
  if◌then◌else◌,
}

-- The ProbeWorker interface: what the scheduler reads of a worker.
pub record ProbeWorker : Type 0 where
  pub name : Text
  pub target_name : Text
  pub probe_type : Text
  pub is_exclusive : Bool

-- The fields of Scheduler that registration reads and writes; a handle starts with empty channels.
pub record Scheduler : Type 0 where
  pub workers : List ProbeWorker
  pub running : Bool
  pub paused : Bool

pub data RegisterError : Type 0 where
  nil_worker already_running : RegisterError
  duplicate_name : Text → RegisterError

-- NewScheduler
unfoldable pub new_scheduler : Scheduler
new_scheduler = record { workers = []; running = false; paused = false }

-- `for _, h := range s.workers { if h.worker.Name() == w.Name() … }`
unfoldable pub has_name : Text → List ProbeWorker → Bool
has_name n [] = false
has_name n (w ∷ ws) = if text_eq w.name n then true else has_name n ws

-- RegisterWorker; `none` is a nil worker.
unfoldable pub register_worker : Option ProbeWorker → Scheduler → Scheduler × Option RegisterError
register_worker none s = (s, some nil_worker)
register_worker (some w) s =
    if s.running
    then (s, some already_running)
    else if has_name w.name s.workers
    then (s, some (duplicate_name w.name))
    else (record s { workers = s.workers ++ w ∷ [] }, none)

-- RegisterWorkers stops at the first error, and keeps what it registered before.
unfoldable pub register_workers :
    List (Option ProbeWorker) → Scheduler → Scheduler × Option RegisterError
register_workers [] s = (s, none)
register_workers (w ∷ ws) s =
    let (s', err) = register_worker w s in
    elim err [ none ↦ register_workers ws s' | some e ↦ (s', some e) ]

-- Workers, WorkerCount and IsRunning
unfoldable pub workers_of : Scheduler → List ProbeWorker
workers_of s = s.workers

unfoldable pub worker_count : Scheduler → ℕ
worker_count s = length s.workers

unfoldable pub is_running : Scheduler → Bool
is_running s = s.running

-- Start, with the workers whose goroutines it starts; `none` is the error of a running scheduler.
unfoldable pub start_workers : Scheduler → Scheduler × Option (List ProbeWorker)
start_workers s =
    if s.running then (s, none) else (record s { running = true; paused = false }, some s.workers)

-- Stop, and whether it cancels the workers and waits for them.
unfoldable pub stop_workers : Scheduler → Scheduler × Bool
stop_workers s =
    if s.running then (record s { running = false; paused = false }, true) else (s, false)
