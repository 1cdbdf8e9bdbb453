-- ===== src/Scheduler/Exclusive/Drain.antt =====
-- What Stop waits for: once the run's context is done, the goroutines of the workers can return.
use stabsight.Base.{
  ℕ, zero, suc, ◌+◌, ◌<◌, ◌≡◌, ◌≢◌, refl, sym, ◌∙◌, subst, Bool, true, false, Option, some, List,
  [], ◌∷◌, ◌++◌, update, ◌>>=◌, >>=-eq-some, arith, ℕ_discrete,
}
use stabsight.Scheduler.Worker.{
  Handle, Choice, finish, ctx_done, Phase, measuring, selecting, acking, pausing, returned,
  light_start, speedtest_start,
}
use stabsight.Scheduler.Exclusive.{
  System, Action, work, stop, start, start_loop, work_step, stop_scheduler, step, run,
}
use stabsight.Scheduler.Exclusive.Stages.{update_own, update_other}
use stabsight.Scheduler.Exclusive.Leads.{run-append}
use stabsight.Scheduler.Exclusive.Phases.{is_unpaused, Loops, run-Loops, start-Loops}

abbrev pub is_returned : Phase → Bool
is_returned (returned _) = true
is_returned _ = false

-- The steps by which a worker returns once the context is done.
abbrev leave : Phase → List Choice
leave measuring = finish ∷ ctx_done ∷ []
leave (returned _) = []
leave _ = ctx_done ∷ []

unfoldable loop_choices : Bool → List Choice → Handle → Option Handle
loop_choices x [] h = some h
loop_choices x (c ∷ cs) h = start_loop x true c h >>= loop_choices x cs

leave-is_returned :
    (x : Bool) (p : Phase) (h : Handle)
    → h.phase ≡ p
    → (x ≡ true → is_unpaused p ≡ true)
    → (h' : Handle) × (loop_choices x (leave p) h ≡ some h') × (is_returned h'.phase ≡ true)
unfolding loop_choices light_start speedtest_start
leave-is_returned x (returned b) h e u = (h, refl, rw e)
leave-is_returned true measuring h e u = (record h { phase = returned true }, rw e, refl)
leave-is_returned false measuring h e u = (record h { phase = returned true }, rw e, refl)
leave-is_returned true selecting h e u = (record h { phase = returned true }, rw e, refl)
leave-is_returned false selecting h e u = (record h { phase = returned true }, rw e, refl)
leave-is_returned false acking h e u = (record h { phase = returned true }, rw e, refl)
leave-is_returned false pausing h e u = (record h { phase = returned true }, rw e, refl)
leave-is_returned true acking h e u = cc (u refl)
leave-is_returned true pausing h e u = cc (u refl)

-- Steps of worker i alone.
abbrev works : ℕ → List Choice → List Action
works i [] = []
works i (c ∷ cs) = work i c ∷ works i cs

-- The state after steps of worker i, which end at `h`.
record After (s : System) (i : ℕ) (h : Handle) (s' : System) : Type 0 where
  count : s'.count ≡ s.count
  exclusive : s'.exclusive ≡ s.exclusive
  cancelled : s'.run_cancelled ≡ s.run_cancelled
  own : s'.handles i ≡ h
  others : (j : ℕ) → i ≢ j → s'.handles j ≡ s.handles j

one_work :
    (c : Choice) (s : System) (i : ℕ) (h : Handle)
    → i < s.count
    → s.run_cancelled ≡ true
    → start_loop (s.exclusive i) true c (s.handles i) ≡ some h
    → step (work i c) s ≡ some (record s { handles = update s.handles i h })
unfolding step work_step
one_work c s i h l q e =
    let e' : start_loop (s.exclusive i) s.run_cancelled c (s.handles i) ≡ some h = rw q e in
    ground (arith, l, e')

run-works :
    (cs : List Choice) (s : System) (i : ℕ) (h : Handle)
    → i < s.count
    → s.run_cancelled ≡ true
    → loop_choices (s.exclusive i) cs (s.handles i) ≡ some h
    → (s' : System) × (run (works i cs) s ≡ some s') × After s i h s'
unfolding run loop_choices
run-works [] s i h l c e = (
  s,
  refl,
  record {
    count = refl;
    exclusive = refl;
    cancelled = refl;
    own = ground arith;
    others = λ j n. refl;
  },
)
run-works (c ∷ cs) s i h l q e =
    let first =
      >>=-eq-some (start_loop (s.exclusive i) true c (s.handles i))
        (loop_choices (s.exclusive i) cs) e in
    let s1 : System = record s { handles = update s.handles i first.0 } in
    let (s', r, a) = run-works cs s1 i h l q (rw (update_own s.handles i first.0) first.2) in
    (
      s',
      rw (one_work c s i first.0 l q first.1) r,
      record {
        count = a.count;
        exclusive = a.exclusive;
        cancelled = a.cancelled;
        own = a.own;
        others = λ j n. a.others j n ∙ update_other s.handles i j first.0 n;
      },
    )

-- The steps by which workers leave: the ends of measurements, and the selects that take ctx.Done().
abbrev pub Leaving : List Action → Type 0
Leaving [] = Unit
Leaving (work _ finish ∷ actions) = Leaving actions
Leaving (work _ ctx_done ∷ actions) = Leaving actions
Leaving (_ ∷ actions) = ⊥

abbrev LeavingChoices : List Choice → Type 0
LeavingChoices [] = Unit
LeavingChoices (finish ∷ cs) = LeavingChoices cs
LeavingChoices (ctx_done ∷ cs) = LeavingChoices cs
LeavingChoices (_ ∷ cs) = ⊥

leave-LeavingChoices : (p : Phase) → LeavingChoices (leave p)
leave-LeavingChoices measuring = tt
leave-LeavingChoices (returned _) = tt
leave-LeavingChoices selecting = tt
leave-LeavingChoices acking = tt
leave-LeavingChoices pausing = tt

works-Leaving :
    (i : ℕ) (cs : List Choice) (rest : List Action)
    → LeavingChoices cs
    → Leaving rest
    → Leaving (works i cs ++ rest)
works-Leaving i [] rest l w = w
works-Leaving i (finish ∷ cs) rest l w = works-Leaving i cs rest l w
works-Leaving i (ctx_done ∷ cs) rest l w = works-Leaving i cs rest l w
works-Leaving i (Choice.receive ∷ cs) rest l w = absurd l
works-Leaving i (Choice.tick ∷ cs) rest l w = absurd l
works-Leaving i (Choice.send_ack ∷ cs) rest l w = absurd l

-- The workers below k have returned.
abbrev pub ReturnedBelow : ℕ → System → Type 0
ReturnedBelow k s = (i : ℕ) → i < k → is_returned (s.handles i).phase ≡ true

After-ReturnedBelow :
    (k : ℕ) (s s' : System) (h : Handle)
    → After s k h s'
    → is_returned h.phase ≡ true
    → ReturnedBelow k s
    → ReturnedBelow (suc k) s'
After-ReturnedBelow k s s' h a r below i l = elim (ℕ_discrete k i) [
  | yes q ↦ subst (λ j. is_returned (s'.handles j).phase ≡ true) q (rw a.own r)
  | no q ↦ rw (a.others i q) (below i (omega arith))
]

pub run_from :
    (left : ℕ) (s : System) (k : ℕ)
    → Loops s
    → s.run_cancelled ≡ true
    → k + left ≡ s.count
    → ReturnedBelow k s
    → (steps : List Action) × Leaving steps
      × (s' : System) × (run steps s ≡ some s')
      × ReturnedBelow s.count s'
unfolding run
run_from zero s k v q l below = ([], tt, s, refl, λ i m. below i (omega (arith, l)))
run_from (suc left) s k v q l below =
    let cs = leave (s.handles k).phase in
    let (h, e, r) =
      leave-is_returned (s.exclusive k) (s.handles k).phase (s.handles k) refl (v k) in
    let (s1, e1, a) = run-works cs s k h (omega (arith, l)) q e in
    let (steps, w, s', e2, all) =
      run_from left s1 (suc k) (run-Loops (works k cs) s s1 e1 v) (a.cancelled ∙ q)
        (omega (arith, l, a.count)) (After-ReturnedBelow k s s1 h a r below) in
    (
      works k cs ++ steps,
      works-Leaving k cs steps (leave-LeavingChoices (s.handles k).phase) w,
      s',
      run-append (works k cs) steps s s1 e1 ∙ e2,
      subst (λ n. ReturnedBelow n s') a.count all,
    )

-- The wait of Stop can end: whatever a freshly started scheduler has done, a cut-off resume, an
-- aborted call and workers that nobody resumes included, once it is stopped there are steps of the
-- workers alone, the ends of their measurements among them, after which the loop of every worker has
-- returned.
stop_drains :
    (n : ℕ) (exclusive : ℕ → Bool) (actions : List Action) (s : System)
    → run actions (start n exclusive) ≡ some s
    → s.running ≡ true
    → (steps : List Action) × Leaving steps
      × (s' : System) × (run (stop ∷ steps) s ≡ some s')
      × ((i : ℕ) → i < s.count → is_returned (s'.handles i).phase ≡ true)
unfolding run step stop_scheduler
stop_drains n exclusive actions s e on =
    let v = run-Loops actions (start n exclusive) s e (start-Loops n exclusive) in
    let t : System = record s { run_cancelled = true; running = false; paused = false } in
    let stopped : stop_scheduler s ≡ t = rw on in
    let (steps, w, s', r, all) =
      run_from s.count t 0 v refl (omega arith) (λ i l. absurd (omega (arith, l))) in
    (steps, w, s', subst (λ u. run steps u ≡ some s') (sym stopped) r, all)
