-- ===== src/Scheduler/Exclusive/Leads.antt =====
-- What the steps of the light workers and of the call that is under way lead to.
use stabsight.Base.{ℕ, ◌≡◌, refl, ◌∙◌, Bool, false, some, List, [], ◌∷◌, ◌++◌, >>=-eq-some, arith}
use stabsight.Scheduler.Exclusive.{System, Action, work, call, advance, step, run}
use stabsight.Scheduler.Exclusive.Static.{run-Static}
use stabsight.Scheduler.Exclusive.Orderly.{Undisturbed, Orderly}
use stabsight.Scheduler.Exclusive.Orderly.Steps.{run-Orderly}

-- Steps of the workers that are not exclusive, and of the call that is under way.
abbrev pub Carried : (ℕ → Bool) → List Action → Type 0
Carried x [] = Unit
Carried x (work i _ ∷ actions) = (x i ≡ false) × Carried x actions
Carried x (advance ∷ actions) = Carried x actions
Carried x (_ ∷ actions) = ⊥

-- Such steps lead from `s` to a state that satisfies `P`.
abbrev pub Leads : System → (System → Type 0) → Type 0
Leads s P =
    (actions : List Action) × Carried s.exclusive actions
    × (s' : System) × (run actions s ≡ some s')
    × P s'

pub run-append :
    (xs ys : List Action) (s s' : System) → run xs s ≡ some s' → run (xs ++ ys) s ≡ run ys s'
unfolding run
run-append [] ys s s' e = ground arith
run-append (x ∷ xs) ys s s' e =
    let first = >>=-eq-some (step x s) (run xs) e in
    rw first.1 (run-append xs ys first.0 s' first.2)

pub Undisturbed-append :
    (xs ys : List Action) → Undisturbed xs → Undisturbed ys → Undisturbed (xs ++ ys)
Undisturbed-append [] ys t u = u
Undisturbed-append (work _ _ ∷ xs) ys t u = Undisturbed-append xs ys t u
Undisturbed-append (call ∷ xs) ys t u = Undisturbed-append xs ys t u
Undisturbed-append (advance ∷ xs) ys t u = Undisturbed-append xs ys t u
Undisturbed-append (Action.cancel_call ∷ xs) ys t u = Undisturbed-append xs ys t u
Undisturbed-append (_ ∷ xs) ys t u = absurd t

Carried-append :
    (x : ℕ → Bool) (xs ys : List Action) → Carried x xs → Carried x ys → Carried x (xs ++ ys)
Carried-append x [] ys t u = u
Carried-append x (work i c ∷ xs) ys t u = (t.0, Carried-append x xs ys t.1 u)
Carried-append x (advance ∷ xs) ys t u = Carried-append x xs ys t u
Carried-append x (_ ∷ xs) ys t u = absurd t

pub Carried-Undisturbed : (x : ℕ → Bool) (xs : List Action) → Carried x xs → Undisturbed xs
Carried-Undisturbed x [] t = tt
Carried-Undisturbed x (work i c ∷ xs) t = Carried-Undisturbed x xs t.1
Carried-Undisturbed x (advance ∷ xs) t = Carried-Undisturbed x xs t
Carried-Undisturbed x (_ ∷ xs) t = absurd t

module _ (P : System → Type 0) where
  pub Leads-now : (s : System) → P s → Leads s P
  unfolding run
  Leads-now s p = ([], tt, s, refl, p)

  pub Leads-step :
      (a : Action) (s s' : System)
      → Carried s.exclusive (a ∷ [])
      → step a s ≡ some s'
      → P s'
      → Leads s P
  unfolding run
  Leads-step a s s' t e p = (a ∷ [], t, s', rw e, p)

  pub Leads-trans :
      (Q : System → Type 0) (s : System)
      → Orderly s
      → Leads s Q
      → ((s' : System) → Orderly s' → Q s' → Leads s' P)
      → Leads s P
  Leads-trans Q s o (xs, t, s', e, q) next =
      let o' = run-Orderly xs s s' (Carried-Undisturbed s.exclusive xs t) e o in
      let (ys, u, s'', f, p) = next s' o' q in
      let u' : Carried s.exclusive ys = rw (← (run-Static xs s s' e).exclusive) u in
      (xs ++ ys, Carried-append s.exclusive xs ys t u', s'', run-append xs ys s s' e ∙ f, p)
