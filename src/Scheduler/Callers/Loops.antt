-- ===== src/Scheduler/Callers/Loops.antt =====
-- A step of a worker's loop keeps the mutex and the measurements guarded.
use stabsight.Base.{
  ℕ, ◌<◌, ◌≡◌, ◌≢◌, refl, sym, subst, inl, inr, Bool, true, false, ◌&&◌, some, update, Bool-cases,
  arith, ℕ_discrete,
}
use stabsight.Scheduler.Worker.{Handle, Choice, measuring, speedtest_start}
use stabsight.Scheduler.Exclusive.{System, start_loop, work_step}
use stabsight.Scheduler.Exclusive.Stages.{update_at, update_other, work_step_lem, work_step-count}
use stabsight.Scheduler.Callers.{
  CallStage, waiting, Program, loop, is_inside, may_loop, is_tick, calls_after,
}
use stabsight.Scheduler.Callers.Refinement.{after_event}
use stabsight.Scheduler.Callers.Invariant.{is_outside, Guarded}

-- The steps of a speedtest's loop, at the end of its measurement and at a tick.
module _ (x cancelled : Bool) (c : Choice) (h h' : Handle)
    (e : start_loop x cancelled c h ≡ some h') (speedtest : x ≡ true) where
  measuring_ends :
      (stage : CallStage)
      → may_loop x c stage ≡ true
      → h.phase ≡ measuring
      → is_outside stage ≡ true
  unfolding speedtest_start
  measuring_ends stage m p = ground arith

  tick_starts : is_tick c ≡ true → (h.phase ≢ measuring) × (h'.phase ≡ measuring)
  unfolding speedtest_start
  tick_starts t = (λ p. ground arith, ground arith)

not_both : (c : CallStage) → is_outside c ≡ true → ¬ (is_inside c ≡ true)
not_both c o i = ground (arith, o, i)

-- Worker i has taken a step that ends at `h`.
module _ (p : Program) (g : Guarded p) (i : ℕ) (c : Choice) (h : Handle) (l : i < p.system.count)
    (e : start_loop (p.system.exclusive i) p.system.run_cancelled c (p.system.handles i)
      ≡ some h) where
  abbrev worked : System
  worked = record p.system { handles = update p.system.handles i h }

  tick_step :
      p.system.exclusive i ≡ true
      → is_tick c ≡ true
      → Guarded (record p { system = worked; calls = update p.calls i waiting })
  tick_step x t = record {
    owner_locked = λ j a. g.owner_locked j (before j a);
    one_owner = λ j k a b. g.one_owner j k (before j a) (before k b);
    owner = λ u.
        let (j, y) = g.owner u in
        (
          j,
          rw
              (update_other p.calls i j waiting (λ q.
                not_both (p.calls i) out (subst (λ m. is_inside (p.calls m) ≡ true) (sym q) y)))
              y,
        );
    blocked = λ j b. elim (ℕ_discrete i j) [
      | yes q ↦
          subst
            (λ k.
              (p.system.exclusive k ≡ true)
              × ((update p.system.handles i h k).phase ≡ measuring)
              × (k < p.system.count))
            q (x, rw (update_at p.system.handles i i h refl) starts.1, l)
      | no q ↦
          let (x', m, l') = g.blocked j (rw (update_other p.calls i j waiting q) at b) in
          (x', rw (update_other p.system.handles i j h q) m, l')
    ];
    over = g.over;
  }
    where
      starts : ((p.system.handles i).phase ≢ measuring) × (h.phase ≡ measuring)
      starts =
          tick_starts (p.system.exclusive i) p.system.run_cancelled c (p.system.handles i) h e x t

      out : is_outside (p.calls i) ≡ true
      out = elim (Bool-cases (is_outside (p.calls i))) [
        | inl o ↦ o
        | inr o ↦ absurd (starts.0 (g.blocked i o).1)
      ]

      before :
          (j : ℕ) → is_inside (update p.calls i waiting j) ≡ true → is_inside (p.calls j) ≡ true
      before j a = elim (ℕ_discrete i j) [
        | yes q ↦ cc (rw (update_at p.calls i j waiting q) at a)
        | no q ↦ rw (update_other p.calls i j waiting q) at a
      ]

  plain_step :
      may_loop (p.system.exclusive i) c (p.calls i) ≡ true
      → p.system.exclusive i && is_tick c ≡ false
      → Guarded (record p { system = worked })
  plain_step m t = record {
    owner_locked = g.owner_locked;
    one_owner = g.one_owner;
    owner = g.owner;
    blocked = λ j b.
        let (x, ms, l') = g.blocked j b in
        (x, rw (update_other p.system.handles i j h (apart j b x ms)) ms, l');
    over = g.over;
  }
    where
      apart :
          (j : ℕ)
          → is_outside (p.calls j) ≡ false
          → p.system.exclusive j ≡ true
          → (p.system.handles j).phase ≡ measuring
          → i ≢ j
      apart j b x ms q = cc (
        measuring_ends (p.system.exclusive i) p.system.run_cancelled c (p.system.handles i) h e
            (rw q x) (p.calls i) m (rw q ms),
        subst (λ k. is_outside (p.calls k) ≡ false) (sym q) b,
      )

pub loop_step :
    (i : ℕ) (c : Choice) (p : Program) (s : System)
    → Guarded p
    → work_step i c p.system ≡ some s
    → may_loop (p.system.exclusive i) c (p.calls i) ≡ true
    → Guarded (after_event (loop i c) p s)
unfolding calls_after
loop_step i c p s g e m =
    let l = work_step-count i c p.system s e in
    let (h, e', q) = work_step_lem i c p.system s e in
    subst (λ t. Guarded (after_event (loop i c) p t)) (sym q)
      (elim (Bool-cases (p.system.exclusive i && is_tick c)) [
        | inl y ↦
            subst Guarded
              {x = record p { system = worked p g i c h l e'; calls = update p.calls i waiting }}
              (ground arith) (tick_step p g i c h l e' (ground arith) (ground arith))
        | inr y ↦
            subst Guarded {x = record p { system = worked p g i c h l e' }} (ground arith)
              (plain_step p g i c h l e' m y)
      ])
