-- ===== src/Scheduler/Exclusive/Stages.antt =====
-- The stages of ExecuteExclusive and the invariant of the whole system; what a worker changes.
use mathlib.Core.Logic.{if_pos, if_neg}
use stabsight.Base.{
  ℕ, ◌≤◌, ◌<◌, ◌≡◌, refl, sym, ◌∙◌, ◌≢◌, inl, inr, Bool, true, false, some, ltb, update,
  >>=-eq-some, Bool-cases, arith, ℕ_discrete,
}
use stabsight.Scheduler.Worker.{Handle, Choice, light_start}
use stabsight.Scheduler.Exclusive.{
  Pc, idle, entering, broadcasting, awaiting, pause_failed, executing, resume_entry, resuming,
  finished, System, start_loop, work_step,
}
use stabsight.Scheduler.Exclusive.Handles.{
  is_free, is_held, is_released, light_start-is_free, light_start-is_held, light_start-is_released,
}

-- Handles of workers that are not exclusive, from index `lo` and below index `hi`, satisfy `P`.
abbrev pub Between : (Handle → Bool) → ℕ → ℕ → System → Type 0
Between P lo hi s = (i : ℕ) → lo ≤ i → i < hi → s.exclusive i ≡ false → P (s.handles i) ≡ true

-- While it runs, the scheduler is not marked as paused.
abbrev pub Unpaused : System → Type 0
Unpaused s = s.running ≡ true → s.paused ≡ false

abbrev pub Stage : Pc → System → Type 0
Stage (awaiting k) s = Unpaused s × Between is_held 0 k s
Stage executing s = (s.running ≡ true → s.paused ≡ true) × Between is_held 0 s.count s
Stage resume_entry s = (s.running ≡ true → s.paused ≡ true) × Between is_held 0 s.count s
Stage (resuming b k) s = Between is_held k s.count s × Between is_released 0 k s
Stage (finished true) s = Unpaused s × (s.running ≡ true → Between is_released 0 s.count s)
Stage _ s = Unpaused s

abbrev pub AllFree : System → Type 0
AllFree s = (i : ℕ) → s.exclusive i ≡ false → is_free (s.handles i) ≡ true

abbrev pub Inv : System → Type 0
Inv s = AllFree s × Stage s.pc s

-- What a step of a worker changes.
pub work_step_lem :
    (i : ℕ) (c : Choice) (s s' : System)
    → work_step i c s ≡ some s'
    → (h : Handle) × (start_loop (s.exclusive i) s.run_cancelled c (s.handles i) ≡ some h)
      × (s' ≡ record s { handles = update s.handles i h })
unfolding work_step
work_step_lem i c s s' e = elim (Bool-cases (ltb i s.count)) [
  | inl l ↦
      let e' =
        >>=-eq-some (start_loop (s.exclusive i) s.run_cancelled c (s.handles i)) _ (rw l at e) in
      (e'.0, e'.1, ground (arith, e'.2))
  | inr l ↦ absurd (ground arith)
]

pub work_step-count : (i : ℕ) (c : Choice) (s s' : System) → work_step i c s ≡ some s' → i < s.count
unfolding work_step
work_step-count i c s s' e = elim (Bool-cases (ltb i s.count)) [
  | inl l ↦ ground (arith, l)
  | inr l ↦ absurd (ground arith)
]

-- A worker's step keeps a predicate of the handles that the steps of a light probe keep.
abbrev pub Keeps : Bool → (Handle → Bool) → Type 0
Keeps cancelled P =
    (c : Choice) (h h' : Handle) → light_start cancelled c h ≡ some h' → P h ≡ true → P h' ≡ true

pub start_loop-light :
    (x : Bool) (cancelled : Bool) (c : Choice) (h : Handle)
    → x ≡ false
    → start_loop x cancelled c h ≡ light_start cancelled c h
start_loop-light false cancelled c h e = refl
start_loop-light true cancelled c h e = cc

pub work-Keeps :
    (P : Handle → Bool) (i : ℕ) (c : Choice) (s : System) (h : Handle)
    → Keeps s.run_cancelled P
    → start_loop (s.exclusive i) s.run_cancelled c (s.handles i) ≡ some h
    → (j : ℕ) → s.exclusive j ≡ false
    → P (s.handles j) ≡ true
    → P (update s.handles i h j) ≡ true
work-Keeps P i c s h keep e j x p = elim (ℕ_discrete i j) [
  | yes q ↦ rw (if_pos (ℕ_discrete i j) q) (
      keep c (s.handles i) h
        (sym (start_loop-light (s.exclusive i) s.run_cancelled c (s.handles i) (rw q x)) ∙ e)
        (rw q p))
  | no q ↦ rw (if_neg (ℕ_discrete i j) q) p
]

pub update_own {ℓ} : {A : Type ℓ} (f : ℕ → A) (i : ℕ) (a : A) → update f i a i ≡ a
update_own f i a = rw (if_pos (ℕ_discrete i i) refl)

pub update_at {ℓ} : {A : Type ℓ} (f : ℕ → A) (i j : ℕ) (a : A) → i ≡ j → update f i a j ≡ a
update_at f i j a q = rw (if_pos (ℕ_discrete i j) q) refl

pub update_other {ℓ} : {A : Type ℓ} (f : ℕ → A) (i j : ℕ) (a : A) → i ≢ j → update f i a j ≡ f j
update_other f i j a n = rw (if_neg (ℕ_discrete i j) n)

pub update-holds {ℓ} :
    {A : Type ℓ} (P : A → Bool) (f : ℕ → A) (k : ℕ) (h : A) (i : ℕ)
    → (k ≡ i → P h ≡ true)
    → (k ≢ i → P (f i) ≡ true)
    → P (update f k h i) ≡ true
update-holds P f k h i yes_case no_case = elim (ℕ_discrete k i) [
  | yes q ↦ rw (if_pos (ℕ_discrete k i) q) (yes_case q)
  | no q ↦ rw (if_neg (ℕ_discrete k i) q) (no_case q)
]

-- A step of a worker keeps the invariant.
module _ (s : System) (i : ℕ) (c : Choice) (h : Handle)
    (e : start_loop (s.exclusive i) s.run_cancelled c (s.handles i) ≡ some h) where
  abbrev pub after_work : System
  after_work = record s { handles = update s.handles i h }

  pub work-Between :
      (P : Handle → Bool)
      → Keeps s.run_cancelled P
      → (lo hi : ℕ) → Between P lo hi s
      → Between P lo hi after_work
  work-Between P keep lo hi b j l l' x = work-Keeps P i c s h keep e j x (b j l l' x)

  pub work-Stage : (p : Pc) → Stage p s → Stage p after_work
  work-Stage idle g = g
  work-Stage entering g = g
  work-Stage (broadcasting k) g = g
  work-Stage (awaiting k) g =
      (g.0, work-Between is_held (light_start-is_held s.run_cancelled) 0 k g.1)
  work-Stage pause_failed g = g
  work-Stage executing g =
      (g.0, work-Between is_held (light_start-is_held s.run_cancelled) 0 s.count g.1)
  work-Stage resume_entry g =
      (g.0, work-Between is_held (light_start-is_held s.run_cancelled) 0 s.count g.1)
  work-Stage (resuming b k) g = (
    work-Between is_held (light_start-is_held s.run_cancelled) k s.count g.0,
    work-Between is_released (light_start-is_released s.run_cancelled) 0 k g.1,
  )
  work-Stage (finished true) g = (
    g.0,
    λ r. work-Between is_released (light_start-is_released s.run_cancelled) 0 s.count (g.1 r),
  )
  work-Stage (finished false) g = g

  pub work-Inv : Inv s → Inv after_work
  work-Inv v = (
    λ j x. work-Keeps is_free i c s h (light_start-is_free s.run_cancelled) e j x (v.0 j x),
    work-Stage s.pc v.1,
  )
