-- ===== src/Scheduler/Callers/Recovery.antt =====
-- Between two speedtests every other probe can measure, by steps of its own.
use stabsight.Base.{
  ℕ, ◌<◌, ◌≡◌, refl, Bool, true, false, Option, none, some, List, [], ◌∷◌, update, >>=-eq-some,
  arith,
}
use stabsight.Scheduler.Command.{Command, cmd_resume}
use stabsight.Scheduler.Worker.{
  Handle, Choice, receive, tick, Phase, measuring, selecting, pausing, light_start,
}
use stabsight.Scheduler.Exclusive.{Pc, idle, finished, start}
use stabsight.Scheduler.Exclusive.Stages.{update_own}
use stabsight.Scheduler.Exclusive.Orderly.{is_active, fits}
use stabsight.Scheduler.Exclusive.Orderly.Steps.{run-Orderly, start-Orderly}
use stabsight.Scheduler.Exclusive.Rounds.{run_choices, light_work}
use stabsight.Scheduler.Callers.{Program, Move, loop, launch, is_over, step_program, run_program}
use stabsight.Scheduler.Callers.Refinement.{run_program-run, Steady}
use stabsight.Scheduler.Callers.Invariant.{launch-Guarded}
use stabsight.Scheduler.Callers.Runs.{run_program-Guarded}
use stabsight.Scheduler.Callers.Turns.{light_step}

-- Steps of the loop of worker i alone.
abbrev pub loops : ℕ → List Choice → List Move
loops i [] = []
loops i (c ∷ cs) = loop i c ∷ loops i cs

abbrev moved : Program → ℕ → Handle → Program
moved p i h = record p { system = record p.system { handles = update p.system.handles i h } }

loops-run_choices :
    (cs : List Choice) (p : Program) (i : ℕ) (h : Handle)
    → i < p.system.count
    → p.system.exclusive i ≡ false
    → p.system.run_cancelled ≡ false
    → run_choices cs (p.system.handles i) ≡ some h
    → (p' : Program) × (run_program (loops i cs) p ≡ some p') × (p'.system.handles i ≡ h)
unfolding run_program run_choices
loops-run_choices [] p i h l x a e = (p, refl, ground arith)
loops-run_choices (c ∷ cs) p i h l x a e =
    let first = >>=-eq-some (light_start false c (p.system.handles i)) (run_choices cs) e in
    let q : Program = moved p i first.0 in
    let one : step_program (loop i c) p ≡ some q =
      light_step i c p q.system x (light_work p.system i c first.0 l x a first.1) in
    let (p', r, own) =
      loops-run_choices cs q i h l x a (rw (update_own p.system.handles i first.0) first.2) in
    (p', rw one r, own)

measures_by :
    (p : Phase) (m : Option Command) (a : Bool)
    → is_active (record { phase = p; cmd_chan = m; ack_chan = a }) ≡ true
    → (cs : List Choice) × (h : Handle) × (run_choices cs
          (record { phase = p; cmd_chan = m; ack_chan = a })
        ≡ some h)
      × (h.phase ≡ measuring)
unfolding run_choices light_start
measures_by measuring none a f = ([], _, refl, refl)
measures_by selecting none a f = (tick ∷ [], _, refl, refl)
measures_by pausing (some cmd_resume) a f = (receive ∷ tick ∷ [], _, refl, refl)
measures_by _ m a f = absurd (ground arith)

over-is_active :
    (q : Pc) (i : ℕ) (h : Handle) → is_over q ≡ true → fits q i h ≡ true → is_active h ≡ true
over-is_active idle i h o f = f
over-is_active (finished b) i h o f = f
over-is_active _ i h o f = cc

-- No probe stays paused behind a speedtest: whenever no speedtest holds the mutex, in a run in which
-- no PauseAll was aborted, no ResumeAll timed out, the context of the run did not end and nobody
-- called Stop, every worker that is not exclusive comes to a measurement by steps of its own loop
-- alone, whatever speedtests wait.
pub probe_measures :
    (n : ℕ) (exclusive : ℕ → Bool) (events : List Move) (p : Program)
    → Steady events
    → run_program events (launch n exclusive) ≡ some p
    → p.locked ≡ false
    → (i : ℕ) → i < p.system.count
    → p.system.exclusive i ≡ false
    → (cs : List Choice) × (p' : Program) × (run_program (loops i cs) p ≡ some p')
      × ((p'.system.handles i).phase ≡ measuring)
unfolding launch
probe_measures n exclusive events p t e u i l x =
    let g = run_program-Guarded events (launch n exclusive) p e (launch-Guarded n exclusive) in
    let (actions, r, c, d) = run_program-run events (launch n exclusive) p e in
    let o = run-Orderly actions (start n exclusive) p.system (d t) r (start-Orderly n exclusive) in
    let h : Handle = p.system.handles i in
    let active = over-is_active p.system.pc i h (g.over u) (o.fitting i l x) in
    let (cs, h', f, m) = measures_by h.phase h.cmd_chan h.ack_chan active in
    let (p', s, own) = loops-run_choices cs p i h' l x o.alive f in (cs, p', s, rw own m)
