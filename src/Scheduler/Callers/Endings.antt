-- ===== src/Scheduler/Callers/Endings.antt =====
-- The call that holds the mutex when the scheduler is stopped comes to its end.
use stabsight.Base.{◌≡◌, refl, inl, inr, Bool, true, false, update, Bool-cases, arith}
use stabsight.Scheduler.Exclusive.{
  Pc, idle, entering, broadcasting, awaiting, pause_failed, executing, resume_entry, resuming,
  finished, step, run,
}
use stabsight.Scheduler.Exclusive.Attempts.{Attempt, attempt}
use stabsight.Scheduler.Exclusive.Phases.{Loops}
use stabsight.Scheduler.Callers.Invariant.{Guarded, system_step, unlock_step}
use stabsight.Scheduler.Callers.{
  Program, go_on, abandon, cut_off, unlock, outside, is_over, allowed, actions_of, calls_after,
  step_program,
}
use stabsight.Scheduler.Callers.Reach.{Reaches, Reaches-step}

-- The run's context has ended, the scheduler is stopped.
pub record Stopped (p : Program) : Type 0 where
  pub off : p.system.running ≡ false
  pub ended : p.system.run_cancelled ≡ true
  pub call_ended : p.system.call_cancelled ≡ true
  pub attempted : Attempt p.system

abbrev pub at : Program → Pc → Program
at p q = record p { system = record p.system { pc = q } }

-- The call that holds the mutex comes to its end.
module _ (p : Program) (st : Stopped p) (P : Program → Type 0)
    (after : (q : Pc) → is_over q ≡ true → Reaches (at p q) P) where
  from_failed : Reaches (at p pause_failed) P
  unfolding step_program step run actions_of allowed calls_after
  from_failed =
      Reaches-step P go_on (at p pause_failed) (at p (finished false)) tt (rw st.off refl)
        (after (finished false) refl)

  from_resume : Reaches (at p resume_entry) P
  unfolding step_program step run actions_of allowed calls_after
  from_resume =
      Reaches-step P go_on (at p resume_entry) (at p (finished true)) tt (rw st.off refl)
        (after (finished true) refl)

  ends : (q : Pc) → attempt q p.system.running p.system.paused ≡ true → Reaches (at p q) P
  unfolding step_program step run actions_of allowed calls_after
  ends idle v = after idle refl
  ends (finished b) v = after (finished b) refl
  ends entering v =
      Reaches-step P go_on (at p entering) (at p pause_failed) tt (rw st.off refl) from_failed
  ends (broadcasting k) v =
      Reaches-step P abandon (at p (broadcasting k)) (at p pause_failed) tt (rw st.call_ended refl)
        from_failed
  ends (awaiting k) v =
      Reaches-step P abandon (at p (awaiting k)) (at p pause_failed) tt (rw st.call_ended refl)
        from_failed
  ends pause_failed v = from_failed
  ends executing v = Reaches-step P go_on (at p executing) (at p resume_entry) tt refl from_resume
  ends resume_entry v = from_resume
  ends (resuming true k) v =
      Reaches-step P cut_off (at p (resuming true k)) (at p (finished true)) tt refl
        (after (finished true) refl)
  ends (resuming false k) v = cc

  call_ends : Reaches p P
  call_ends = ends p.system.pc st.attempted

over-attempt : (q : Pc) (r b : Bool) → is_over q ≡ true → attempt q r b ≡ true
over-attempt q r b o = ground arith

-- No call is under way.
pub record Settled (p : Program) : Type 0 where
  pub stopped : Stopped p
  pub guarded : Guarded p
  pub unlocked : p.locked ≡ false
  pub loops : Loops p.system

module _ (p : Program) (g : Guarded p) (v : Loops p.system) (st : Stopped p) where
  at-Guarded : (q : Pc) → is_over q ≡ true → Guarded (at p q)
  at-Guarded q o =
      system_step p g (record p.system { pc = q })
        (record { phases = λ i. refl; count = refl; exclusive = refl }) (λ u. o)

  at-Stopped : (q : Pc) → is_over q ≡ true → Stopped (at p q)
  at-Stopped q o = record {
    off = st.off;
    ended = st.ended;
    call_ended = st.call_ended;
    attempted = over-attempt q p.system.running p.system.paused o;
  }

  -- The speedtest that holds the mutex returns from its call.
  pub release :
      (P : Program → Type 0)
      → ((p' : Program) → Settled p' → p'.system.count ≡ p.system.count → Reaches p' P)
      → Reaches p P
  unfolding step_program step run actions_of allowed calls_after
  release P next = elim (Bool-cases p.locked) [
    | inr u ↦ next p (record { stopped = st; guarded = g; unlocked = u; loops = v }) refl
    | inl l ↦
        let (i, y) = g.owner l in
        call_ends p st P (λ q o.
          let p' : Program = record (at p q) { locked = false; calls = update p.calls i outside } in
          Reaches-step P (unlock i) (at p q) p' tt (rw (y, o) refl) (
            next p'
              (record {
                stopped = record {
                  off = st.off;
                  ended = st.ended;
                  call_ended = st.call_ended;
                  attempted = over-attempt q p.system.running p.system.paused o;
                };
                guarded = unlock_step (at p q) (at-Guarded q o) i y o;
                unlocked = refl;
                loops = v;
              })
              refl))
  ]
