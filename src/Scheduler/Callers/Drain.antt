-- ===== src/Scheduler/Callers/Drain.antt =====
-- The speedtests that wait for the mutex when the scheduler is stopped get it in turn, and their
-- calls fail at once.
use stabsight.Base.{
  ℕ, zero, suc, ◌+◌, ◌<◌, ◌≡◌, refl, subst, inl, inr, true, false, some, update, Bool-cases, arith,
  ℕ_discrete,
}
use stabsight.Scheduler.Exclusive.{
  Pc, entering, pause_failed, finished, System, begin_call, step, run,
}
use stabsight.Scheduler.Exclusive.Stages.{update_own, update_at, update_other}
use stabsight.Scheduler.Callers.Invariant.{lock_step, unlock_step, nobody, is_outside}
use stabsight.Scheduler.Callers.{
  Program, lock, go_on, unlock, outside, inside, is_inside, is_waiting, is_over, CallStage, allowed,
  actions_of, calls_after, step_program,
}
use stabsight.Scheduler.Callers.Reach.{Reaches, Reaches-step}
use stabsight.Scheduler.Callers.Endings.{Settled}

unfoldable pub OutsideBelow : ℕ → Program → Type 0
OutsideBelow k p = (i : ℕ) → i < k → is_outside (p.calls i) ≡ true

not_inside : (c : CallStage) → is_inside c ≡ false → is_waiting c ≡ false → is_outside c ≡ true
not_inside c a b = ground arith

begin_over :
    (q : Pc) (s : System)
    → is_over q ≡ true
    → begin_call q s ≡ some (record s { pc = entering; call_cancelled = false })
begin_over q s o = ground (arith, o)

module _ (p : Program) (s : Settled p) (k : ℕ) where
  -- The state in which the call of speedtest k has failed.
  abbrev served : Program
  served = record p {
    system = record p.system { pc = finished false; call_cancelled = true };
    locked = false;
    calls = update (update p.calls k inside) k outside;
  }

  served-Settled : is_waiting (p.calls k) ≡ true → Settled served
  served-Settled w = record {
    stopped = record {
      off = s.stopped.off;
      ended = s.stopped.ended;
      call_ended = refl;
      attempted = refl;
    };
    guarded =
        unlock_step
          (record { system = served.system; locked = true; calls = update p.calls k inside })
          (lock_step p s.guarded k served.system
            (record { phases = λ i. refl; count = refl; exclusive = refl }) s.unlocked w)
          k (rw (update_own p.calls k inside) refl) refl;
    unlocked = refl;
    loops = s.loops;
  }

  -- It gets the mutex, and its call fails at once.
  serve : (P : Program → Type 0) → is_waiting (p.calls k) ≡ true → Reaches served P → Reaches p P
  unfolding step_program step run actions_of allowed calls_after
  serve P w next =
      let o = s.guarded.over s.unlocked in
      let p1 : Program = record {
        system = record p.system { pc = entering; call_cancelled = true };
        locked = true;
        calls = update p.calls k inside;
      } in
      let p2 : Program = record p1 { system = record p1.system { pc = pause_failed } } in
      let p3 : Program = record p1 { system = record p1.system { pc = finished false } } in
      Reaches-step P (lock k) p p1 tt
        (rw (s.unlocked, w, begin_over p.system.pc p.system o, s.stopped.ended) refl)
        (Reaches-step P go_on p1 p2 tt (rw s.stopped.off refl) (
          Reaches-step P go_on p2 p3 tt (rw s.stopped.off refl)
            (Reaches-step P (unlock k) p3 served tt (rw (update_own p.calls k inside) refl) next)))

  served_below : OutsideBelow k p → is_waiting (p.calls k) ≡ true → OutsideBelow (suc k) served
  unfolding OutsideBelow
  served_below below w i l = elim (ℕ_discrete k i) [
    | yes q ↦ rw (update_at (update p.calls k inside) k i outside q) refl
    | no q ↦
        rw (update_other (update p.calls k inside) k i outside q)
          (rw (update_other p.calls k i inside q) (below i (omega (arith, l, q))))
  ]

  kept_below : OutsideBelow k p → is_waiting (p.calls k) ≡ false → OutsideBelow (suc k) p
  unfolding OutsideBelow
  kept_below below w i l = elim (ℕ_discrete k i) [
    | yes q ↦
        subst (λ j. is_outside (p.calls j) ≡ true) q
          (not_inside (p.calls k) (nobody p s.guarded s.unlocked k) w)
    | no q ↦ below i (omega (arith, l, q))
  ]

-- Every speedtest that waits gets the mutex in turn.
pub serve_from :
    (left : ℕ) (p : Program) (k : ℕ) (P : Program → Type 0)
    → Settled p
    → k + left ≡ p.system.count
    → OutsideBelow k p
    → ((p' : Program)
        → Settled p'
        → p'.system.count ≡ p.system.count
        → OutsideBelow p'.system.count p'
        → Reaches p' P)
    → Reaches p P
unfolding OutsideBelow
serve_from zero p k P s l below next = next p s refl (λ i m. below i (omega (arith, l, m)))
serve_from (suc left) p k P s l below next = elim (Bool-cases (is_waiting (p.calls k))) [
  | inl w ↦ serve p s k P w (
      serve_from left (served p s k) (suc k) P (served-Settled p s k w) (omega (arith, l))
        (served_below p s k below w) next)
  | inr w ↦ serve_from left p (suc k) P s (omega (arith, l)) (kept_below p s k below w) next
]
