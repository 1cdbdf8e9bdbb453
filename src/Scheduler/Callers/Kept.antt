-- ===== src/Scheduler/Callers/Kept.antt =====
-- What the steps of ExecuteExclusive and of the contexts leave as it is: the phases of the workers,
-- their number, and which of them are exclusive.
use stabsight.Base.{
  ℕ, suc, ◌≡◌, refl, sym, subst, ◌∙◌, inl, inr, false, not, ◌&&◌, some, ltb, update, Bool-cases,
  arith, ℕ_discrete,
}
use stabsight.Scheduler.Command.{cmd_pause, cmd_resume}
use stabsight.Scheduler.Worker.{Handle}
use stabsight.Scheduler.Exclusive.{
  Pc, broadcasting, awaiting, resuming, System, call, advance, abort, timeout, cancel_call,
  cancel_run, stop, pause_broadcast, pause_await, resume_broadcast, stop_scheduler,
  execute_exclusive, step,
}
use stabsight.Scheduler.Callers.{is_over}
use stabsight.Scheduler.Exclusive.Stages.{update_own, update_other}
use stabsight.Scheduler.Exclusive.Loops.{send_lem, receive_ack_lem}

pub record Kept (s s' : System) : Type 0 where
  pub phases : (i : ℕ) → (s'.handles i).phase ≡ (s.handles i).phase
  pub count : s'.count ≡ s.count
  pub exclusive : s'.exclusive ≡ s.exclusive

pub Kept-trans : (s t u : System) → Kept s t → Kept t u → Kept s u
Kept-trans s t u a b = record {
  phases = λ i. b.phases i ∙ a.phases i;
  count = b.count ∙ a.count;
  exclusive = b.exclusive ∙ a.exclusive;
}

update-phase :
    (f : ℕ → Handle) (k : ℕ) (h : Handle)
    → h.phase ≡ (f k).phase
    → (i : ℕ) → (update f k h i).phase ≡ (f i).phase
update-phase f k h e i = elim (ℕ_discrete k i) [
  | yes q ↦ subst (λ j. (update f k h j).phase ≡ (f j).phase) q (rw (update_own f k h) e)
  | no q ↦ rw (update_other f k i h q) refl
]

module _ (s s' : System) where
  same_handles :
      s'.handles ≡ s.handles → s'.count ≡ s.count → s'.exclusive ≡ s.exclusive → Kept s s'
  same_handles h n x = record { phases = λ i. rw h refl; count = n; exclusive = x }

  one_handle :
      (k : ℕ) (h : Handle) (pc : Pc)
      → h.phase ≡ (s.handles k).phase
      → s' ≡ record s { handles = update s.handles k h; pc = pc }
      → Kept s s'
  one_handle k h pc e q =
      subst (Kept s) (sym q)
        (record { phases = update-phase s.handles k h e; count = refl; exclusive = refl })

  execute-Kept : (p : Pc) → execute_exclusive p s ≡ some s' → Kept s s'
  unfolding pause_broadcast pause_await resume_broadcast
  execute-Kept (broadcasting k) e = elim (Bool-cases (ltb k s.count && not (s.exclusive k))) [
    | inl b ↦
        let sent = send_lem cmd_pause k (broadcasting (suc k)) s s' (ground arith) in
        one_handle k _ _ refl sent.1
    | inr b ↦ same_handles (ground arith) (ground arith) (ground arith)
  ]
  execute-Kept (awaiting k) e = elim (Bool-cases (ltb k s.count && not (s.exclusive k))) [
    | inl b ↦
        let got = receive_ack_lem k (awaiting (suc k)) s s' (ground arith) in
        one_handle k _ _ refl got.1
    | inr b ↦ same_handles (ground arith) (ground arith) (ground arith)
  ]
  execute-Kept (resuming b k) e = elim (Bool-cases (ltb k s.count && not (s.exclusive k))) [
    | inl c ↦
        let sent = send_lem cmd_resume k (resuming b (suc k)) s s' (ground arith) in
        one_handle k _ _ refl sent.1
    | inr c ↦ same_handles (ground arith) (ground arith) (ground arith)
  ]
  execute-Kept p e = same_handles (ground arith) (ground arith) (ground arith)

  pub advance-Kept : step advance s ≡ some s' → Kept s s'
  unfolding step
  advance-Kept e = execute-Kept s.pc e

  pub abort-Kept : step abort s ≡ some s' → Kept s s'
  unfolding step
  abort-Kept e = same_handles (ground arith) (ground arith) (ground arith)

  pub timeout-Kept : step timeout s ≡ some s' → Kept s s'
  unfolding step
  timeout-Kept e = same_handles (ground arith) (ground arith) (ground arith)

  -- The call has to be under way.
  pub advance-under_way : step advance s ≡ some s' → is_over s.pc ≡ false
  unfolding step
  advance-under_way e = ground arith

  pub abort-under_way : step abort s ≡ some s' → is_over s.pc ≡ false
  unfolding step
  abort-under_way e = ground arith

  pub timeout-under_way : step timeout s ≡ some s' → is_over s.pc ≡ false
  unfolding step
  timeout-under_way e = ground arith

  pub call-Kept : step call s ≡ some s' → Kept s s'
  unfolding step
  call-Kept e = same_handles (ground arith) (ground arith) (ground arith)

  pub cancel_call-Kept : step cancel_call s ≡ some s' → Kept s s'
  unfolding step
  cancel_call-Kept e = same_handles (ground arith) (ground arith) (ground arith)

  pub cancel_run-Kept : step cancel_run s ≡ some s' → Kept s s'
  unfolding step
  cancel_run-Kept e = same_handles (ground arith) (ground arith) (ground arith)

  pub stop-Kept : step stop s ≡ some s' → Kept s s'
  unfolding step stop_scheduler
  stop-Kept e = same_handles (ground arith) (ground arith) (ground arith)
