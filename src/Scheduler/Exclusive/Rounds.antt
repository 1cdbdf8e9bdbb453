-- ===== src/Scheduler/Exclusive/Rounds.antt =====
-- The rounds of the loops of PauseAll and ResumeAll.
use stabsight.Base.{
  ℕ, zero, suc, ◌+◌, ◌≤◌, ◌<◌, ◌≡◌, refl, sym, ◌∙◌, subst, inl, inr, Bool, true, false, Option,
  none, some, List, [], ◌∷◌, ltb, update, ◌>>=◌, >>=-eq-some, Bool-cases, arith, ℕ_discrete,
}
use mathlib.Core.Logic.{if_pos}
use stabsight.Scheduler.Command.{Command, cmd_pause, cmd_resume, is_empty}
use stabsight.Scheduler.Worker.{
  Handle, Choice, finish, receive, send_ack, Phase, measuring, selecting, acking, pausing,
  light_start,
}
use stabsight.Scheduler.Exclusive.{
  Pc, broadcasting, awaiting, resuming, System, work, advance, work_step, pause_broadcast,
  pause_await, resume_broadcast, step,
}
use stabsight.Scheduler.Exclusive.Loops.{after_send, after_receive}
use stabsight.Scheduler.Exclusive.Orderly.{is_active, is_asked, fits, Orderly}
use stabsight.Scheduler.Exclusive.Leads.{Leads, Leads-now, Leads-step, Leads-trans}

-- The steps of one light worker.
unfoldable pub run_choices : List Choice → Handle → Option Handle
run_choices [] h = some h
run_choices (c ∷ cs) h = light_start false c h >>= run_choices cs

abbrev Same : System → System → Type 0
Same s s' = (s'.pc ≡ s.pc) × (s'.count ≡ s.count) × (s'.exclusive ≡ s.exclusive)

pub light_work :
    (s : System) (i : ℕ) (c : Choice) (h : Handle)
    → i < s.count
    → s.exclusive i ≡ false
    → s.run_cancelled ≡ false
    → light_start false c (s.handles i) ≡ some h
    → step (work i c) s ≡ some (record s { handles = update s.handles i h })
unfolding step work_step
light_work s i c h l x a e = ground arith

update_self : (f : ℕ → Handle) (i : ℕ) (h : Handle) → update f i h i ≡ h
update_self f i h = rw (if_pos (ℕ_discrete i i) refl)

works-Leads :
    (cs : List Choice) (s : System) (i : ℕ) (h : Handle)
    → i < s.count
    → s.exclusive i ≡ false
    → Orderly s
    → run_choices cs (s.handles i) ≡ some h
    → Leads s (λ s'. Same s s' × (s'.handles i ≡ h))
unfolding run_choices
works-Leads [] s i h l x o e = Leads-now _ s ((refl, refl, refl), ground arith)
works-Leads (c ∷ cs) s i h l x o e =
    let first = >>=-eq-some (light_start false c (s.handles i)) (run_choices cs) e in
    let s1 : System = record s { handles = update s.handles i first.0 } in
    Leads-trans _ (λ t. t ≡ s1) s o
      (Leads-step _ (work i c) s s1 (x, tt) (light_work s i c first.0 l x o.alive first.1) refl)
      (λ t ot q.
        subst (λ u. Leads u (λ s'. Same s s' × (s'.handles i ≡ h))) (sym q)
          (works-Leads cs s1 i h l x (subst Orderly q ot)
            (rw (update_self s.handles i first.0) first.2)))

drain_by :
    (p : Phase) (m : Option Command) (a : Bool)
    → is_active (record { phase = p; cmd_chan = m; ack_chan = a }) ≡ true
    → (cs : List Choice) × (h' : Handle) × (run_choices cs
          (record { phase = p; cmd_chan = m; ack_chan = a })
        ≡ some h')
      × (is_empty h'.cmd_chan ≡ true)
unfolding run_choices light_start
drain_by measuring none a f = ([], _, refl, refl)
drain_by selecting none a f = ([], _, refl, refl)
drain_by pausing (some cmd_resume) a f = (receive ∷ [], _, refl, refl)
drain_by _ m a f = absurd (ground arith)

acknowledges_by :
    (p : Phase) (m : Option Command) (a : Bool)
    → is_asked (record { phase = p; cmd_chan = m; ack_chan = a }) ≡ true
    → (cs : List Choice) × (h' : Handle) × (run_choices cs
          (record { phase = p; cmd_chan = m; ack_chan = a })
        ≡ some h')
      × (h'.ack_chan ≡ true)
unfolding run_choices light_start
acknowledges_by measuring (some cmd_pause) false f =
    (finish ∷ receive ∷ send_ack ∷ [], _, refl, refl)
acknowledges_by selecting (some cmd_pause) false f = (receive ∷ send_ack ∷ [], _, refl, refl)
acknowledges_by acking none false f = (send_ack ∷ [], _, refl, refl)
acknowledges_by pausing none true f = ([], _, refl, refl)
acknowledges_by _ m a f = absurd (ground arith)

-- A worker with a resume pending takes it; then it can be sent a command.
drain :
    (h : Handle)
    → is_active h ≡ true
    → (cs : List Choice) × (h' : Handle) × (run_choices cs h ≡ some h')
      × (is_empty h'.cmd_chan ≡ true)
drain h f = drain_by h.phase h.cmd_chan h.ack_chan f

-- A worker that is asked to pause acknowledges.
acknowledges :
    (h : Handle)
    → is_asked h ≡ true
    → (cs : List Choice) × (h' : Handle) × (run_choices cs h ≡ some h') × (h'.ack_chan ≡ true)
acknowledges h f = acknowledges_by h.phase h.cmd_chan h.ack_chan f

abbrev pub Next : System → Pc → System → Type 0
Next s q s' = (s'.pc ≡ q) × (s'.count ≡ s.count)

-- The caller's step after the steps of worker `k`.
after_works :
    (q : Pc) (ready : Handle → Type 0) (s : System) (k : ℕ)
    → Orderly s
    → k < s.count
    → s.exclusive k ≡ false
    → ((cs : List Choice) × (h : Handle) × (run_choices cs (s.handles k) ≡ some h) × ready h)
    → ((t : System)
        → Same s t
        → ready (t.handles k)
        → (t' : System) × (step advance t ≡ some t') × Next t q t')
    → Leads s (Next s q)
after_works q ready s k o l x (cs, h, e, r) go =
    Leads-trans _ (λ t. Same s t × (t.handles k ≡ h)) s o (works-Leads cs s k h l x o e)
      (λ t ot v.
        let (t', e', n) = go t v.0 (rw v.1 r) in Leads-step _ advance t t' tt e' (n.0, n.1 ∙ v.0.1))

-- One round of each loop.
module _ (s : System) (k : ℕ) (o : Orderly s) (l : k < s.count) where
  fits_at : (p : Pc) → s.pc ≡ p → s.exclusive k ≡ false → fits p k (s.handles k) ≡ true
  fits_at p q x = rw (← q) (o.fitting k l x)

  pub broadcasting-Leads : s.pc ≡ broadcasting k → Leads s (Next s (broadcasting (suc k)))
  unfolding step pause_broadcast
  broadcasting-Leads p = elim (Bool-cases (s.exclusive k)) [
    | inl x ↦
        Leads-step _ advance s (record s { pc = broadcasting (suc k) }) tt (ground arith)
          (refl, refl)
    | inr x ↦
        let f = fits_at (broadcasting k) p x in
        after_works (broadcasting (suc k)) (λ h. is_empty h.cmd_chan ≡ true) s k o l x
          (drain (s.handles k) (ground arith))
          (λ t same r.
            let x' : t.exclusive k ≡ false = rw same.2 x in
            let p' : t.pc ≡ broadcasting k = same.0 ∙ p in
            (after_send cmd_pause k (broadcasting (suc k)) t, ground arith, (refl, refl)))
  ]

  pub awaiting-Leads : s.pc ≡ awaiting k → Leads s (Next s (awaiting (suc k)))
  unfolding step pause_await
  awaiting-Leads p = elim (Bool-cases (s.exclusive k)) [
    | inl x ↦
        Leads-step _ advance s (record s { pc = awaiting (suc k) }) tt (ground arith) (refl, refl)
    | inr x ↦
        let f = fits_at (awaiting k) p x in
        after_works (awaiting (suc k)) (λ h. h.ack_chan ≡ true) s k o l x
          (acknowledges (s.handles k) (ground arith))
          (λ t same r.
            let x' : t.exclusive k ≡ false = rw same.2 x in
            let p' : t.pc ≡ awaiting k = same.0 ∙ p in
            (after_receive k (awaiting (suc k)) t, ground arith, (refl, refl)))
  ]

  -- A resume never waits: a parked worker has an empty channel.
  pub resume_step :
      (b : Bool)
      → s.pc ≡ resuming b k
      → (s' : System) × (step advance s ≡ some s') × Next s (resuming b (suc k)) s'
  unfolding step resume_broadcast
  resume_step b p = elim (Bool-cases (s.exclusive k)) [
    | inl x ↦ (record s { pc = resuming b (suc k) }, ground arith, (refl, refl))
    | inr x ↦
        let f = fits_at (resuming b k) p x in
        (after_send cmd_resume k (resuming b (suc k)) s, ground arith, (refl, refl))
  ]

-- A loop over the handles, from handle k on, with at most `left` handles to go.
pub loop-Leads :
    (stage : ℕ → Pc) (last : Pc)
    → ((s : System) (k : ℕ)
        → Orderly s
        → k < s.count
        → s.pc ≡ stage k
        → Leads s (Next s (stage (suc k))))
    → ((s : System) (k : ℕ) → Orderly s → s.count ≤ k → s.pc ≡ stage k → Leads s (Next s last))
    → (left : ℕ) (s : System) (k : ℕ) → Orderly s
    → s.count ≤ k + left
    → s.pc ≡ stage k
    → Leads s (Next s last)
loop-Leads stage last round end zero s k o l p = end s k o (omega (arith, l)) p
loop-Leads stage last round end (suc left) s k o l p = elim (Bool-cases (ltb k s.count)) [
  | inr done ↦ end s k o (ground arith) p
  | inl more ↦
      Leads-trans (Next s last) (Next s (stage (suc k))) s o (round s k o (ground arith) p)
        (λ t ot n.
          let (xs, u, t', e, m) =
            loop-Leads stage last round end left t (suc k) ot (omega (arith, n.1)) n.0 in
          (xs, u, t', e, (m.0, m.1 ∙ n.1)))
]
