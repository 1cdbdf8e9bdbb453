-- ===== src/Scheduler/Registry/Names.antt =====
-- What registration keeps: distinct names, and the order of arrival.
use mathlib.Core.List.{append-nil, append_assoc}
use stabsight.Base.{◌≡◌, false, Option, none, some, List, [], ◌∷◌, ◌++◌, arith}
use stabsight.Scheduler.Registry.{
  ProbeWorker, Scheduler, has_name, register_worker, register_workers,
}

-- Every worker is named differently from those after it.
abbrev pub Distinct : List ProbeWorker → Type 0
Distinct [] = Unit
Distinct (w ∷ ws) = (has_name w.name ws ≡ false) × Distinct ws

pub register_worker-accepts :
    (w : ProbeWorker) (s : Scheduler)
    → s.running ≡ false
    → has_name w.name s.workers ≡ false
    → register_worker (some w) s ≡ (record s { workers = s.workers ++ w ∷ [] }, none)
unfolding register_worker
register_worker-accepts w s r n = rw (r, n)

abbrev some_all : List ProbeWorker → List (Option ProbeWorker)
some_all [] = []
some_all (w ∷ ws) = some w ∷ some_all ws

-- No name of the second list is in the first, and the second has no name twice.
abbrev pub Fresh : List ProbeWorker → List ProbeWorker → Type 0
Fresh ws [] = Unit
Fresh ws (v ∷ vs) = (has_name v.name ws ≡ false) × Fresh (ws ++ v ∷ []) vs

-- RegisterWorkers on a stopped scheduler accepts a list of fresh names whole, in its order.
register_workers-Fresh :
    (ws : List ProbeWorker) (s : Scheduler)
    → s.running ≡ false
    → Fresh s.workers ws
    → register_workers (some_all ws) s ≡ (record s { workers = s.workers ++ ws }, none)
unfolding register_workers
register_workers-Fresh [] s r f = rw (append-nil s.workers)
register_workers-Fresh (w ∷ ws) s r f = ground (
  arith,
  register_worker-accepts w s r f.0,
  register_workers-Fresh ws (record s { workers = s.workers ++ w ∷ [] }) r f.1,
  append_assoc s.workers (w ∷ []) ws,
)
