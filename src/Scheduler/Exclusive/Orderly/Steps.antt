-- ===== src/Scheduler/Exclusive/Orderly/Steps.antt =====
-- Every step of a worker, of the caller and of a call keeps a system orderly.
use stabsight.Base.{
  ℕ, suc, ◌<◌, ◌≡◌, refl, sym, subst, ◌≢◌, inl, inr, Bool, true, false, some, List, [], ◌∷◌, ltb,
  update, >>=-eq-some, Bool-cases, arith,
}
use stabsight.Scheduler.Command.{cmd_pause, cmd_resume}
use stabsight.Scheduler.Worker.{Handle, Choice}
use stabsight.Scheduler.Exclusive.{
  Pc, idle, entering, broadcasting, awaiting, pause_failed, executing, resume_entry, resuming,
  finished, System, Action, work, call, advance, abort, timeout, cancel_call, cancel_run, stop,
  start, pause_broadcast, pause_await, resume_broadcast, step, run, execute_exclusive, begin_call,
}
use stabsight.Scheduler.Exclusive.Stages.{work_step_lem, work-Keeps, update-holds}
use stabsight.Scheduler.Exclusive.Loops.{send_lem, receive_ack_lem}
use stabsight.Scheduler.Exclusive.Orderly.{
  Undisturbed, is_active, fits, marks_paused, not_failed, Orderly, light_start-fits,
}

some_inj : {x y : System} → some x ≡ some y → x ≡ y
some_inj e = cc

module _ (s : System) (o : Orderly s) where
  apart : (i k : ℕ) → s.exclusive k ≡ true → s.exclusive i ≡ false → i ≢ k
  apart i k x x' q = cc

  work-Orderly : (i : ℕ) (c : Choice) (s' : System) → step (work i c) s ≡ some s' → Orderly s'
  unfolding step
  work-Orderly i c s' e =
      let w = work_step_lem i c s s' e in
      subst Orderly (sym w.2) (record {
        running = o.running;
        alive = o.alive;
        marked = o.marked;
        succeeds = o.succeeds;
        fitting = λ j l x.
            work-Keeps (fits s.pc j) i c s w.0 (rw o.alive (light_start-fits s.pc j)) w.1 j x
              (o.fitting j l x);
      })

  -- The stage changes, and the handles do not.
  moved :
      (q : Pc) (p : Bool)
      → p ≡ marks_paused q
      → not_failed q ≡ true
      → ((i : ℕ)
          → i < s.count
          → s.exclusive i ≡ false
          → fits s.pc i (s.handles i) ≡ true
          → fits q i (s.handles i) ≡ true)
      → Orderly (record s { pc = q; paused = p })
  moved q p m n f = record {
    running = o.running;
    alive = o.alive;
    marked = m;
    succeeds = n;
    fitting = λ i l x. f i l x (o.fitting i l x);
  }

  -- The stage changes, and so does one handle.
  changed :
      (q : Pc) (k : ℕ) (h : Handle)
      → s.paused ≡ marks_paused q
      → not_failed q ≡ true
      → (k < s.count → s.exclusive k ≡ false → fits s.pc k (s.handles k) ≡ true → fits q k h ≡ true)
      → ((i : ℕ) → k ≢ i → fits s.pc i (s.handles i) ≡ true → fits q i (s.handles i) ≡ true)
      → Orderly (record s { handles = update s.handles k h; pc = q })
  changed q k h m n own others = record {
    running = o.running;
    alive = o.alive;
    marked = m;
    succeeds = n;
    fitting = λ i l x.
        update-holds (fits q i) s.handles k h i
          (λ e.
            subst (λ j. fits q j h ≡ true) e
              (own (rw e l) (rw e x) (o.fitting k (rw e l) (rw e x))))
          (λ e. others i e (o.fitting i l x));
  }

  pause_broadcast-Orderly :
      (k : ℕ) (s' : System) → s.pc ≡ broadcasting k → pause_broadcast k s ≡ some s' → Orderly s'
  unfolding pause_broadcast
  pause_broadcast-Orderly k s' p e = elim (Bool-cases (ltb k s.count)) [
    | inr l ↦
        subst Orderly {x = record s { pc = awaiting 0; paused = s.paused }} (ground arith)
          (moved (awaiting 0) s.paused (rw (o.marked, p)) refl (λ i l' x f. ground arith))
    | inl l ↦ elim (Bool-cases (s.exclusive k)) [
      | inl x ↦
          subst Orderly {x = record s { pc = broadcasting (suc k); paused = s.paused }}
            (ground arith)
            (moved (broadcasting (suc k)) s.paused (rw (o.marked, p)) refl
              (λ i l' x' f. let n : i ≢ k = apart i k x x' in ground arith))
      | inr x ↦
          let sent = send_lem cmd_pause k (broadcasting (suc k)) s s' (ground arith) in
          subst Orderly (sym sent.1) (
            changed (broadcasting (suc k)) k _ (rw (o.marked, p)) refl (λ l' x' f. ground arith)
              (λ i n f. ground arith))
    ]
  ]

  pause_await-Orderly :
      (k : ℕ) (s' : System) → s.pc ≡ awaiting k → pause_await k s ≡ some s' → Orderly s'
  unfolding pause_await
  pause_await-Orderly k s' p e = elim (Bool-cases (ltb k s.count)) [
    | inr l ↦
        subst Orderly {x = record s { paused = true; pc = executing }} (ground arith)
          (moved executing true refl refl (λ i l' x f. ground arith))
    | inl l ↦ elim (Bool-cases (s.exclusive k)) [
      | inl x ↦
          subst Orderly {x = record s { pc = awaiting (suc k); paused = s.paused }} (ground arith) (
            moved (awaiting (suc k)) s.paused (rw (o.marked, p)) refl
              (λ i l' x' f. let n : i ≢ k = apart i k x x' in ground arith))
      | inr x ↦
          let got = receive_ack_lem k (awaiting (suc k)) s s' (ground arith) in
          subst Orderly (sym got.1) (
            changed (awaiting (suc k)) k _ (rw (o.marked, p)) refl
              (λ l' x' f. let a = got.0 in ground arith) (λ i n f. ground arith))
    ]
  ]

  resume_broadcast-Orderly :
      (b : Bool) (k : ℕ) (s' : System)
      → s.pc ≡ resuming b k
      → resume_broadcast b k s ≡ some s'
      → Orderly s'
  unfolding resume_broadcast
  resume_broadcast-Orderly b k s' p e = elim (Bool-cases (ltb k s.count)) [
    | inr l ↦
        subst Orderly {x = record s { paused = false; pc = finished b }} (ground arith)
          (moved (finished b) false refl refl (λ i l' x f. ground arith))
    | inl l ↦ elim (Bool-cases (s.exclusive k)) [
      | inl x ↦
          subst Orderly {x = record s { pc = resuming b (suc k); paused = s.paused }} (ground arith)
            (moved (resuming b (suc k)) s.paused (rw (o.marked, p)) refl
              (λ i l' x' f. let n : i ≢ k = apart i k x x' in ground arith))
      | inr x ↦
          let sent = send_lem cmd_resume k (resuming b (suc k)) s s' (ground arith) in
          subst Orderly (sym sent.1) (
            changed (resuming b (suc k)) k _ (rw (o.marked, p)) refl (λ l' x' f. ground arith)
              (λ i n f. ground arith))
    ]
  ]

  execute-Orderly : (p : Pc) (s' : System) → s.pc ≡ p → execute_exclusive p s ≡ some s' → Orderly s'
  execute-Orderly idle s' p e = cc
  execute-Orderly entering s' p e =
      subst Orderly {x = record s { pc = broadcasting 0; paused = s.paused }}
        (let r = o.running in let u : s.paused ≡ false = rw (o.marked, p) in ground arith)
        (moved (broadcasting 0) s.paused (rw (o.marked, p)) refl (λ i l x f. ground arith))
  execute-Orderly (broadcasting k) s' p e = pause_broadcast-Orderly k s' p e
  execute-Orderly (awaiting k) s' p e = pause_await-Orderly k s' p e
  execute-Orderly pause_failed s' p e = absurd (ground (arith, o.succeeds))
  execute-Orderly executing s' p e =
      subst Orderly {x = record s { pc = resume_entry; paused = s.paused }} (ground arith)
        (moved resume_entry s.paused (rw (o.marked, p)) refl (λ i l x f. ground arith))
  execute-Orderly resume_entry s' p e =
      subst Orderly {x = record s { pc = resuming true 0; paused = s.paused }}
        (let r = o.running in let u : s.paused ≡ true = rw (o.marked, p) in ground arith)
        (moved (resuming true 0) s.paused (rw (o.marked, p)) refl (λ i l x f. ground arith))
  execute-Orderly (resuming b k) s' p e = resume_broadcast-Orderly b k s' p e
  execute-Orderly (finished b) s' p e = cc

  entered :
      (s' : System)
      → s' ≡ record s { pc = entering; call_cancelled = false }
      → s.paused ≡ false
      → ((i : ℕ)
          → i < s.count
          → s.exclusive i ≡ false
          → fits s.pc i (s.handles i) ≡ true
          → is_active (s.handles i) ≡ true)
      → Orderly s'
  entered s' e u f = subst Orderly (sym e) (record {
    running = o.running;
    alive = o.alive;
    marked = u;
    succeeds = refl;
    fitting = λ i l x. f i l x (o.fitting i l x);
  })

  begin_call-Orderly : (p : Pc) (s' : System) → s.pc ≡ p → begin_call p s ≡ some s' → Orderly s'
  begin_call-Orderly idle s' p e =
      entered s' (ground arith) (rw (o.marked, p)) (λ i l x f. ground arith)
  begin_call-Orderly (finished b) s' p e =
      entered s' (ground arith) (rw (o.marked, p)) (λ i l x f. ground arith)
  begin_call-Orderly _ s' p e = cc

  cancelled-Orderly : Orderly (record s { call_cancelled = true })
  cancelled-Orderly = record {
    running = o.running;
    alive = o.alive;
    marked = o.marked;
    succeeds = o.succeeds;
    fitting = o.fitting;
  }

  step-Orderly : (a : Action) (s' : System) → Undisturbed (a ∷ []) → step a s ≡ some s' → Orderly s'
  unfolding step
  step-Orderly (work i c) s' t e = work-Orderly i c s' e
  step-Orderly call s' t e = begin_call-Orderly s.pc s' refl e
  step-Orderly advance s' t e = execute-Orderly s.pc s' refl e
  step-Orderly cancel_call s' t e = subst Orderly (some_inj e) cancelled-Orderly
  step-Orderly abort s' t e = absurd t
  step-Orderly timeout s' t e = absurd t
  step-Orderly cancel_run s' t e = absurd t
  step-Orderly stop s' t e = absurd t

Undisturbed-cons :
    (a : Action) (actions : List Action)
    → Undisturbed (a ∷ actions)
    → Undisturbed (a ∷ []) × Undisturbed actions
Undisturbed-cons (work _ _) actions t = (tt, t)
Undisturbed-cons call actions t = (tt, t)
Undisturbed-cons advance actions t = (tt, t)
Undisturbed-cons cancel_call actions t = (tt, t)
Undisturbed-cons abort actions t = absurd t
Undisturbed-cons timeout actions t = absurd t
Undisturbed-cons cancel_run actions t = absurd t
Undisturbed-cons stop actions t = absurd t

pub run-Orderly :
    (actions : List Action) (s s' : System)
    → Undisturbed actions
    → run actions s ≡ some s'
    → Orderly s
    → Orderly s'
unfolding run
run-Orderly [] s s' t e o = subst Orderly (some_inj e) o
run-Orderly (a ∷ actions) s s' t e o =
    let split = Undisturbed-cons a actions t in
    let first = >>=-eq-some (step a s) (run actions) e in
    run-Orderly actions first.0 s' split.1 first.2 (step-Orderly s o a first.0 split.0 first.1)

pub start-Orderly : (n : ℕ) (x : ℕ → Bool) → Orderly (start n x)
unfolding start
start-Orderly n x = record {
  running = refl;
  alive = refl;
  marked = refl;
  succeeds = refl;
  fitting = λ i l e. refl;
}
