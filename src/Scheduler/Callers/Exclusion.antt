-- ===== src/Scheduler/Callers/Exclusion.antt =====
-- What the speedtests and the other probes are to each other in every run of the program.
use stabsight.Base.{ℕ, ◌<◌, ◌≡◌, ◌≢◌, inl, inr, Bool, true, false, some, List, Bool-cases, arith}
use stabsight.Scheduler.Worker.{is_quiet}
use stabsight.Scheduler.Exclusive.{executing}
use stabsight.Scheduler.Exclusive.Safety.{mutual_exclusion}
use stabsight.Scheduler.Callers.{
  Program, Move, launch, run_program, Uncut, is_inside, is_executing, is_over, is_probing,
}
use stabsight.Scheduler.Callers.Refinement.{run_program-run}
use stabsight.Scheduler.Callers.Invariant.{Guarded, launch-Guarded}
use stabsight.Scheduler.Callers.Runs.{run_program-Guarded}

probing_light :
    (p : Program) (i : ℕ)
    → p.system.exclusive i ≡ false
    → is_quiet (p.system.handles i).phase ≡ true
    → is_probing p i ≡ false
probing_light p i x q = ground arith

probing_exclusive :
    (p : Program) (i : ℕ)
    → p.system.exclusive i ≡ true
    → is_probing p i ≡ true
    → (is_inside (p.calls i) ≡ true) × (is_executing p.system.pc ≡ true)
probing_exclusive p i x q = (ground arith, ground arith)

locked_executing : (p : Program) → Guarded p → p.system.pc ≡ executing → p.locked ≡ true
locked_executing p g e = elim (Bool-cases p.locked) [
  | inl l ↦ l
  | inr l ↦ let o : is_over executing ≡ true = rw e at (g.over l) in cc o
]

-- Whenever the task of ExecuteExclusive runs, one speedtest runs it, and no other worker of the
-- scheduler, another speedtest included, sends traffic or may start to. This holds in every run of a
-- freshly started scheduler in which no resume is cut off after five seconds, also if contexts end,
-- if it is stopped meanwhile, and if other speedtests wait for the mutex.
pub task_alone :
    (n : ℕ) (exclusive : ℕ → Bool) (events : List Move) (p : Program)
    → Uncut events
    → run_program events (launch n exclusive) ≡ some p
    → p.system.pc ≡ executing
    → (i : ℕ) × (i < p.system.count)
      × (p.system.exclusive i ≡ true)
      × (is_probing p i ≡ true)
      × ((j : ℕ) → j < p.system.count → i ≢ j → is_probing p j ≡ false)
unfolding launch
task_alone n exclusive events p u e q =
    let g = run_program-Guarded events (launch n exclusive) p e (launch-Guarded n exclusive) in
    let (actions, r, t, d) = run_program-run events (launch n exclusive) p e in
    let (i, y) = g.owner (locked_executing p g q) in
    let (x, m, l) = g.blocked i (ground (arith, y)) in
    (
      i,
      l,
      x,
      ground (arith, x, y, q),
      λ j l' d. elim (Bool-cases (p.system.exclusive j)) [
        | inl z ↦ elim (Bool-cases (is_probing p j)) [
          | inl b ↦ absurd (d (g.one_owner i j y (probing_exclusive p j z b).0))
          | inr b ↦ b
        ]
        | inr z ↦
            probing_light p j z (mutual_exclusion n exclusive actions p.system (t u) r q j l' z).0
      ],
    )
