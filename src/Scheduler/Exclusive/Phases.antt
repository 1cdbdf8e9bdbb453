-- ===== src/Scheduler/Exclusive/Phases.antt =====
-- The speedtest's loop has no phase of the light ones, in any run.
use stabsight.Base.{
  ℕ, suc, ◌≡◌, refl, sym, subst, inl, inr, Bool, true, false, some, List, [], ◌∷◌, ltb, update,
  >>=-eq-some, Bool-cases, arith, not, ◌&&◌,
}
use stabsight.Scheduler.Worker.{Handle, Choice, Phase, acking, pausing, speedtest_start}
use stabsight.Scheduler.Exclusive.{
  Pc, idle, entering, broadcasting, awaiting, pause_failed, executing, resume_entry, resuming,
  finished, System, Action, work, call, advance, abort, timeout, start, start_loop, work_step,
  pause_broadcast, pause_await, resume_broadcast, stop_scheduler, execute_exclusive, begin_call,
  abort_call, resume_timeout, step, run,
}
use stabsight.Scheduler.Command.{cmd_pause, cmd_resume}
use stabsight.Scheduler.Exclusive.Stages.{work_step_lem, update-holds}
use stabsight.Scheduler.Exclusive.Loops.{send_lem, receive_ack_lem}

-- The phases of the loop of a speedtest.
abbrev pub is_unpaused : Phase → Bool
is_unpaused acking = false
is_unpaused pausing = false
is_unpaused _ = true

-- No exclusive worker is in a phase that only the loop of the light ones has.
abbrev pub Loops : System → Type 0
Loops s = (i : ℕ) → s.exclusive i ≡ true → is_unpaused (s.handles i).phase ≡ true

speedtest_start-is_unpaused :
    (cancelled : Bool) (c : Choice) (h h' : Handle)
    → speedtest_start cancelled c h ≡ some h'
    → is_unpaused h.phase ≡ true
    → is_unpaused h'.phase ≡ true
unfolding speedtest_start
speedtest_start-is_unpaused cancelled c h h' e u = ground arith

start_loop-is_unpaused :
    (x cancelled : Bool) (c : Choice) (h h' : Handle)
    → x ≡ true
    → start_loop x cancelled c h ≡ some h'
    → is_unpaused h.phase ≡ true
    → is_unpaused h'.phase ≡ true
start_loop-is_unpaused true cancelled c h h' q e u =
    speedtest_start-is_unpaused cancelled c h h' e u
start_loop-is_unpaused false cancelled c h h' q e u = cc

some_eq : {x y : System} → some x ≡ some y → x ≡ y
some_eq e = cc

module _ (s : System) (v : Loops s) where
  -- One handle changes.
  update-Loops :
      (k : ℕ) (h : Handle)
      → (s.exclusive k ≡ true → is_unpaused h.phase ≡ true)
      → Loops (record s { handles = update s.handles k h })
  update-Loops k h own j x =
      update-holds (λ g. is_unpaused g.phase) s.handles k h j (λ q. own (rw q x)) (λ q. v j x)

  work-Loops : (i : ℕ) (c : Choice) (s' : System) → work_step i c s ≡ some s' → Loops s'
  work-Loops i c s' e =
      let w = work_step_lem i c s s' e in
      subst Loops (sym w.2) (
        update-Loops i w.0 (λ x.
          start_loop-is_unpaused (s.exclusive i) s.run_cancelled c (s.handles i) w.0 x w.1 (v i x)))

  quiet_step : (s' : System) → s'.handles ≡ s.handles → s'.exclusive ≡ s.exclusive → Loops s'
  quiet_step s' h x j y = rw h (v j (rw (sym x) y))

  pause_broadcast-Loops : (k : ℕ) (s' : System) → pause_broadcast k s ≡ some s' → Loops s'
  unfolding pause_broadcast
  pause_broadcast-Loops k s' e = elim (Bool-cases (ltb k s.count && not (s.exclusive k))) [
    | inl b ↦
        let sent = send_lem cmd_pause k (broadcasting (suc k)) s s' (ground arith) in
        subst Loops (sym sent.1) (update-Loops k _ (v k))
    | inr b ↦ quiet_step s' (ground arith) (ground arith)
  ]

  pause_await-Loops : (k : ℕ) (s' : System) → pause_await k s ≡ some s' → Loops s'
  unfolding pause_await
  pause_await-Loops k s' e = elim (Bool-cases (ltb k s.count && not (s.exclusive k))) [
    | inl b ↦
        let got = receive_ack_lem k (awaiting (suc k)) s s' (ground arith) in
        subst Loops (sym got.1) (update-Loops k _ (v k))
    | inr b ↦ quiet_step s' (ground arith) (ground arith)
  ]

  resume_broadcast-Loops :
      (b : Bool) (k : ℕ) (s' : System) → resume_broadcast b k s ≡ some s' → Loops s'
  unfolding resume_broadcast
  resume_broadcast-Loops bounded k s' e = elim (Bool-cases (ltb k s.count && not (s.exclusive k))) [
    | inl b ↦
        let sent = send_lem cmd_resume k (resuming bounded (suc k)) s s' (ground arith) in
        subst Loops (sym sent.1) (update-Loops k _ (v k))
    | inr b ↦ quiet_step s' (ground arith) (ground arith)
  ]

  execute-Loops : (p : Pc) (s' : System) → execute_exclusive p s ≡ some s' → Loops s'
  execute-Loops (broadcasting k) s' e = pause_broadcast-Loops k s' e
  execute-Loops (awaiting k) s' e = pause_await-Loops k s' e
  execute-Loops (resuming b k) s' e = resume_broadcast-Loops b k s' e
  execute-Loops entering s' e = quiet_step s' (ground arith) (ground arith)
  execute-Loops pause_failed s' e = quiet_step s' (ground arith) (ground arith)
  execute-Loops executing s' e = quiet_step s' (ground arith) (ground arith)
  execute-Loops resume_entry s' e = quiet_step s' (ground arith) (ground arith)
  execute-Loops idle s' e = cc
  execute-Loops (finished b) s' e = cc

  begin_call-Loops : (p : Pc) (s' : System) → begin_call p s ≡ some s' → Loops s'
  begin_call-Loops p s' e = quiet_step s' (ground arith) (ground arith)

  abort-Loops : (p : Pc) (s' : System) → abort_call p s ≡ some s' → Loops s'
  abort-Loops p s' e = quiet_step s' (ground arith) (ground arith)

  timeout-Loops : (p : Pc) (s' : System) → resume_timeout p s ≡ some s' → Loops s'
  timeout-Loops p s' e = quiet_step s' (ground arith) (ground arith)

  step-Loops : (a : Action) (s' : System) → step a s ≡ some s' → Loops s'
  unfolding step stop_scheduler
  step-Loops (work i c) s' e = work-Loops i c s' e
  step-Loops advance s' e = execute-Loops s.pc s' e
  step-Loops call s' e = begin_call-Loops s.pc s' e
  step-Loops abort s' e = abort-Loops s.pc s' e
  step-Loops timeout s' e = timeout-Loops s.pc s' e
  step-Loops _ s' e = quiet_step s' (ground arith) (ground arith)

pub run-Loops :
    (actions : List Action) (s s' : System) → run actions s ≡ some s' → Loops s → Loops s'
unfolding run
run-Loops [] s s' e v = subst Loops (some_eq e) v
run-Loops (a ∷ actions) s s' e v =
    let first = >>=-eq-some (step a s) (run actions) e in
    run-Loops actions first.0 s' first.2 (step-Loops s v a first.0 first.1)

pub start-Loops : (n : ℕ) (exclusive : ℕ → Bool) → Loops (start n exclusive)
unfolding start
start-Loops n exclusive i x = refl
