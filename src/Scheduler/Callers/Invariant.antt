-- ===== src/Scheduler/Callers/Invariant.antt =====
-- Who is where in every run: at most one speedtest holds the mutex, and a speedtest that waits for
-- it or holds it is in its measurement.
use stabsight.Base.{
  ℕ, ◌<◌, ◌≡◌, refl, sym, subst, ◌∙◌, inl, inr, Bool, true, false, update, Bool-cases, arith,
  ℕ_discrete,
}
use stabsight.Scheduler.Worker.{measuring}
use stabsight.Scheduler.Exclusive.{System, start}
use stabsight.Scheduler.Exclusive.Stages.{update_own, update_at, update_other}
use stabsight.Scheduler.Callers.Kept.{Kept}
use stabsight.Scheduler.Callers.{
  CallStage, outside, inside, Program, launch, is_inside, is_over, is_waiting,
}

abbrev pub is_outside : CallStage → Bool
is_outside outside = true
is_outside _ = false

pub record Guarded (p : Program) : Type 0 where
  pub owner_locked : (i : ℕ) → is_inside (p.calls i) ≡ true → p.locked ≡ true
  pub one_owner : (i j : ℕ) → is_inside (p.calls i) ≡ true → is_inside (p.calls j) ≡ true → i ≡ j
  pub owner : p.locked ≡ true → (i : ℕ) × (is_inside (p.calls i) ≡ true)
  pub blocked :
      (i : ℕ)
      → is_outside (p.calls i) ≡ false
      → (p.system.exclusive i ≡ true)
        × ((p.system.handles i).phase ≡ measuring)
        × (i < p.system.count)
  pub over : p.locked ≡ false → is_over p.system.pc ≡ true

pub launch-Guarded : (n : ℕ) (exclusive : ℕ → Bool) → Guarded (launch n exclusive)
unfolding launch start
launch-Guarded n exclusive = record {
  owner_locked = λ i e. absurd (ground arith);
  one_owner = λ i j e f. absurd (ground arith);
  owner = λ e. cc;
  blocked = λ i e. (ground arith, refl, ground arith);
  over = λ e. refl;
}

module _ (p : Program) (g : Guarded p) where
  -- A step of the call that holds the mutex, or of a context.
  pub system_step :
      (s : System)
      → Kept p.system s
      → (p.locked ≡ false → is_over s.pc ≡ true)
      → Guarded (record p { system = s })
  system_step s k o = record {
    owner_locked = g.owner_locked;
    one_owner = g.one_owner;
    owner = g.owner;
    blocked =
        λ i b. let (x, m, l) = g.blocked i b in (rw k.exclusive x, k.phases i ∙ m, rw k.count l);
    over = o;
  }

  pub call_step :
      (s : System)
      → Kept p.system s
      → is_over p.system.pc ≡ false
      → Guarded (record p { system = s })
  call_step s k o = system_step s k (λ u. cc (g.over u))

  -- Nobody is inside while the mutex is free.
  pub nobody : p.locked ≡ false → (i : ℕ) → is_inside (p.calls i) ≡ false
  nobody u i = elim (Bool-cases (is_inside (p.calls i))) [
    | inl y ↦ cc (g.owner_locked i y)
    | inr y ↦ y
  ]

  pub lock_step :
      (i : ℕ) (s : System)
      → Kept p.system s
      → p.locked ≡ false
      → is_waiting (p.calls i) ≡ true
      → Guarded (record { system = s; locked = true; calls = update p.calls i inside })
  lock_step i s k u w = record {
    owner_locked = λ j e. refl;
    one_owner = λ j m a b. sym (only j a) ∙ only m b;
    owner = λ e. (i, rw (update_own p.calls i inside) refl);
    blocked = λ j b.
        let (x, m, l) = g.blocked j (blocked_before j b) in
        (rw k.exclusive x, k.phases j ∙ m, rw k.count l);
    over = λ e. cc;
  }
    where
      only : (j : ℕ) → is_inside (update p.calls i inside j) ≡ true → i ≡ j
      only j e = elim (ℕ_discrete i j) [
        | yes q ↦ q
        | no q ↦
            let e' : is_inside (p.calls j) ≡ true = rw (update_other p.calls i j inside q) at e in
            cc (e', nobody u j)
      ]

      blocked_before :
          (j : ℕ) → is_outside (update p.calls i inside j) ≡ false → is_outside (p.calls j) ≡ false
      blocked_before j e = elim (ℕ_discrete i j) [
        | yes q ↦ subst (λ m. is_outside (p.calls m) ≡ false) q (ground (arith, w))
        | no q ↦ rw (update_other p.calls i j inside q) at e
      ]

  pub unlock_step :
      (i : ℕ)
      → is_inside (p.calls i) ≡ true
      → is_over p.system.pc ≡ true
      → Guarded (record p { locked = false; calls = update p.calls i outside })
  unlock_step i y o = record {
    owner_locked = λ j e. absurd (none_left j e);
    one_owner = λ j m a b. absurd (none_left j a);
    owner = λ e. cc;
    blocked = λ j b. elim (ℕ_discrete i j) [
      | yes q ↦ cc (rw (update_at p.calls i j outside q) at b)
      | no q ↦ g.blocked j (rw (update_other p.calls i j outside q) at b)
    ];
    over = λ e. o;
  }
    where
      none_left : (j : ℕ) → ¬ (is_inside (update p.calls i outside j) ≡ true)
      none_left j e = elim (ℕ_discrete i j) [
        | yes q ↦ cc (rw (update_at p.calls i j outside q) at e)
        | no q ↦ q (g.one_owner i j y (rw (update_other p.calls i j outside q) at e))
      ]
