-- ===== src/Scheduler/Exclusive/Loops.antt =====
-- The three loops of PauseAll and ResumeAll keep the protocol of the channels.
use stabsight.Base.{
  ℕ, suc, ◌<◌, ◌≡◌, refl, sym, subst, ◌≢◌, inl, inr, Bool, true, false, some, ltb, update,
  Bool-cases, arith,
}
use stabsight.Scheduler.Command.{Command, cmd_pause, cmd_resume, is_empty}
use stabsight.Scheduler.Exclusive.{
  Pc, broadcasting, awaiting, executing, resuming, finished, System, pause_broadcast, pause_await,
  resume_broadcast, send, receive_ack,
}
use stabsight.Scheduler.Exclusive.Handles.{
  is_free, is_held, is_released, send_pause-is_free, receive-is_free, receive-is_held,
  send_resume-is_free, send_resume-is_released,
}
use stabsight.Scheduler.Exclusive.Stages.{Between, Unpaused, Stage, AllFree, Inv, update-holds}

abbrev pub after_send : Command → ℕ → Pc → System → System
after_send m k next s = record s {
  handles = update s.handles k (record (s.handles k) { cmd_chan = some m });
  pc = next;
}

pub send_lem :
    (m : Command) (k : ℕ) (next : Pc) (s s' : System)
    → send m k next s ≡ some s'
    → (is_empty (s.handles k).cmd_chan ≡ true) × (s' ≡ after_send m k next s)
send_lem m k next s s' e = elim (Bool-cases (is_empty (s.handles k).cmd_chan)) [
  | inl z ↦ (z, ground arith)
  | inr z ↦ absurd (ground arith)
]

abbrev pub after_receive : ℕ → Pc → System → System
after_receive k next s = record s {
  handles = update s.handles k (record (s.handles k) { ack_chan = false });
  pc = next;
}

pub receive_ack_lem :
    (k : ℕ) (next : Pc) (s s' : System)
    → receive_ack k next s ≡ some s'
    → ((s.handles k).ack_chan ≡ true) × (s' ≡ after_receive k next s)
receive_ack_lem k next s s' e = elim (Bool-cases (s.handles k).ack_chan) [
  | inl z ↦ (z, ground arith)
  | inr z ↦ absurd (ground arith)
]

ne_below : (i k : ℕ) → i < suc k → k ≢ i → i < k
ne_below i k l q = omega arith

finished-Stage :
    (b : Bool) (t : System) → Unpaused t → Between is_released 0 t.count t → Stage (finished b) t
finished-Stage true t u r = (u, λ q. r)
finished-Stage false t u r = u

-- The loops, at any of their handles.
module _ (s s' : System) (free : AllFree s) where
  pub pause_broadcast-Inv : (k : ℕ) → Unpaused s → pause_broadcast k s ≡ some s' → Inv s'
  unfolding pause_broadcast
  pause_broadcast-Inv k u e = elim (Bool-cases (ltb k s.count)) [
    | inr l ↦
        subst Inv {x = record s { pc = awaiting 0 }} (ground arith)
          (free, (u, λ i lo hi x. absurd (omega arith)))
    | inl l ↦ elim (Bool-cases (s.exclusive k)) [
      | inl x ↦ subst Inv {x = record s { pc = broadcasting (suc k) }} (ground arith) (free, u)
      | inr x ↦
          let sent = send_lem cmd_pause k (broadcasting (suc k)) s s' (ground arith) in
          subst Inv (sym sent.1) (
            λ i x'.
                update-holds is_free s.handles k _ i
                  (λ q. send_pause-is_free (s.handles k) (rw q (free i x'))) (λ q. free i x'),
            u,
          )
    ]
  ]

  pub pause_await-Inv :
      (k : ℕ) → Unpaused s → Between is_held 0 k s → pause_await k s ≡ some s' → Inv s'
  unfolding pause_await
  pause_await-Inv k u b e = elim (Bool-cases (ltb k s.count)) [
    | inr l ↦
        subst Inv {x = record s { paused = true; pc = executing }} (ground arith)
          (free, (λ r. refl, λ i lo hi x. b i lo (ground arith) x))
    | inl l ↦ elim (Bool-cases (s.exclusive k)) [
      | inl x ↦
          subst Inv {x = record s { pc = awaiting (suc k) }} (ground arith)
            (free, (u, λ i lo hi x'. b i lo (ne_below i k hi (λ q. cc)) x'))
      | inr x ↦
          let got = receive_ack_lem k (awaiting (suc k)) s s' (ground arith) in
          subst Inv (sym got.1) (
            λ i x'.
                update-holds is_free s.handles k _ i
                  (λ q. receive-is_free (s.handles k) (rw q (free i x'))) (λ q. free i x'),
            (
              u,
              λ i lo hi x'.
                  update-holds is_held s.handles k _ i
                    (λ q. receive-is_held (s.handles k) (rw q (free i x')) got.0)
                    (λ q. b i lo (ne_below i k hi q) x'),
            ),
          )
    ]
  ]

  pub resume_broadcast-Inv :
      (bounded : Bool) (k : ℕ)
      → Between is_held k s.count s
      → Between is_released 0 k s
      → resume_broadcast bounded k s ≡ some s'
      → Inv s'
  unfolding resume_broadcast
  resume_broadcast-Inv bounded k b r e = elim (Bool-cases (ltb k s.count)) [
    | inr l ↦ subst Inv {x = record s { paused = false; pc = finished bounded }} (ground arith) (
      free,
      finished-Stage bounded (record s { paused = false; pc = finished bounded }) (λ q. refl)
          (λ i lo hi x. r i lo (ground arith) x),
    )
    | inl l ↦ elim (Bool-cases (s.exclusive k)) [
      | inl x ↦ subst Inv {x = record s { pc = resuming bounded (suc k) }} (ground arith) (
        free,
        (
          λ i lo hi x'. b i (omega arith) hi x',
          λ i lo hi x'. r i lo (ne_below i k hi (λ q. cc)) x',
        ),
      )
      | inr x ↦
          let sent = send_lem cmd_resume k (resuming bounded (suc k)) s s' (ground arith) in
          let held : is_held (s.handles k) ≡ true = b k (omega arith) (ground arith) x in
          subst Inv (sym sent.1) (
            λ i x'.
                update-holds is_free s.handles k _ i (λ q. send_resume-is_free (s.handles k) held)
                  (λ q. free i x'),
            (
              λ i lo hi x'.
                  update-holds is_held s.handles k _ i (λ q. absurd (omega arith))
                    (λ q. b i (omega arith) hi x'),
              λ i lo hi x'.
                  update-holds is_released s.handles k _ i
                    (λ q. send_resume-is_released (s.handles k) held)
                    (λ q. r i lo (ne_below i k hi q) x'),
            ),
          )
    ]
  ]
