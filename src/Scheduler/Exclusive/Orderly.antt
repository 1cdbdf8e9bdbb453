-- ===== src/Scheduler/Exclusive/Orderly.antt =====
-- The runs in which no context ends and nobody stops the scheduler: in these the two channels of
-- every light worker follow the stages of ExecuteExclusive exactly.
pub mod Steps
use mathlib.Core.Logic.{if_pos, if_neg}
use stabsight.Base.{
  ℕ, zero, suc, ◌≤◌, ◌<◌, ◌≡◌, refl, sym, subst, ◌≢◌, inl, inr, Bool, true, false, not, ◌&&◌, ◌||◌,
  Option, none, some, List, [], ◌∷◌, ltb, update, >>=-eq-some, Bool-cases, arith, if◌then◌else◌,
  ℕ_discrete,
}
use stabsight.Scheduler.Command.{Command, cmd_pause, cmd_resume, is_empty, is_resume}
use stabsight.Scheduler.Worker.{
  Handle, Choice, Phase, measuring, selecting, acking, pausing, returned, light_start,
}
use stabsight.Scheduler.Exclusive.{
  Pc, idle, entering, broadcasting, awaiting, pause_failed, executing, resume_entry, resuming,
  finished, System, Action, work, call, advance, abort, timeout, cancel_call, cancel_run, stop,
  start, pause_broadcast, pause_await, resume_broadcast, step, run, execute_exclusive, pause_entry,
  resume_guards, begin_call,
}
use stabsight.Scheduler.Exclusive.Stages.{work_step_lem, work-Keeps, update-holds}
use stabsight.Scheduler.Exclusive.Loops.{send_lem, receive_ack_lem}

-- The schedules of the workers and of the callers alone.
abbrev pub Undisturbed : List Action → Type 0
Undisturbed [] = Unit
Undisturbed (work _ _ ∷ actions) = Undisturbed actions
Undisturbed (call ∷ actions) = Undisturbed actions
Undisturbed (advance ∷ actions) = Undisturbed actions
Undisturbed (cancel_call ∷ actions) = Undisturbed actions
Undisturbed (_ ∷ actions) = ⊥

abbrev busy : Phase → Bool
busy measuring = true
busy selecting = true
busy _ = false

abbrev is_pause : Option Command → Bool
is_pause (some cmd_pause) = true
is_pause _ = false

abbrev asked_by : Phase → Option Command → Bool → Bool
asked_by measuring m a = is_pause m && not a
asked_by selecting m a = is_pause m && not a
asked_by acking m a = is_empty m && not a
asked_by pausing m a = is_empty m && a
asked_by (returned _) m a = false

abbrev active_by : Phase → Option Command → Bool
active_by measuring m = is_empty m
active_by selecting m = is_empty m
active_by pausing m = is_resume m
active_by _ m = false

abbrev parked_by : Phase → Bool
parked_by pausing = true
parked_by _ = false

-- It probes, or has its resume pending.
abbrev pub is_active : Handle → Bool
is_active h = active_by h.phase h.cmd_chan && not h.ack_chan

-- It has a pause pending, or is about to acknowledge it, or has acknowledged it.
abbrev pub is_asked : Handle → Bool
is_asked h = asked_by h.phase h.cmd_chan h.ack_chan

-- It stands in its pause loop, with both channels empty.
abbrev pub is_parked : Handle → Bool
is_parked h = parked_by h.phase && (is_empty h.cmd_chan && not h.ack_chan)

-- What worker i is at each stage.
abbrev pub fits : Pc → ℕ → Handle → Bool
fits (broadcasting k) i h = if ltb i k then is_asked h else is_active h
fits (awaiting k) i h = if ltb i k then is_parked h else is_asked h
fits executing i h = is_parked h
fits resume_entry i h = is_parked h
fits (resuming _ k) i h = if ltb i k then is_active h else is_parked h
fits pause_failed i h = false
fits _ i h = is_active h

abbrev pub marks_paused : Pc → Bool
marks_paused executing = true
marks_paused resume_entry = true
marks_paused (resuming _ _) = true
marks_paused _ = false

abbrev pub not_failed : Pc → Bool
not_failed pause_failed = false
not_failed _ = true

pub record Orderly (s : System) : Type 0 where
  pub running : s.running ≡ true
  pub alive : s.run_cancelled ≡ false
  pub marked : s.paused ≡ marks_paused s.pc
  pub succeeds : not_failed s.pc ≡ true
  pub fitting : (i : ℕ) → i < s.count → s.exclusive i ≡ false → fits s.pc i (s.handles i) ≡ true

-- The steps of a light probe whose context is not done keep what it is.
pub light_start-fits :
    (p : Pc) (i : ℕ) (c : Choice) (h h' : Handle)
    → light_start false c h ≡ some h'
    → fits p i h ≡ true
    → fits p i h' ≡ true
unfolding light_start
light_start-fits (broadcasting k) i c h h' e f = ground arith
light_start-fits (awaiting k) i c h h' e f = ground arith
light_start-fits executing i c h h' e f = ground arith
light_start-fits resume_entry i c h h' e f = ground arith
light_start-fits (resuming b k) i c h h' e f = ground arith
light_start-fits pause_failed i c h h' e f = cc
light_start-fits idle i c h h' e f = ground arith
light_start-fits entering i c h h' e f = ground arith
light_start-fits (finished b) i c h h' e f = ground arith
