-- ===== src/Scheduler/Callers/Reach.antt =====
-- What the program can reach by steps of its own.
use stabsight.Base.{◌≡◌, refl, some, List, [], ◌∷◌, ◌++◌, >>=-eq-some, arith}
use stabsight.Scheduler.Callers.{
  Program, Move, loop, lock, go_on, abandon, cut_off, unlock, end_run, stop_all, step_program,
  run_program,
}

-- Steps that the program takes of itself: the context of the run is not ended, and Stop is not
-- called; the five seconds of a resume may be over.
abbrev pub Own : List Move → Type 0
Own [] = Unit
Own (end_run ∷ events) = ⊥
Own (stop_all ∷ events) = ⊥
Own (_ ∷ events) = Own events

abbrev pub Reaches : Program → (Program → Type 0) → Type 0
Reaches p P =
    (events : List Move) × Own events × (p' : Program) × (run_program events p ≡ some p') × P p'

pub Own-append : (xs ys : List Move) → Own xs → Own ys → Own (xs ++ ys)
Own-append [] ys o w = w
Own-append (loop i c ∷ xs) ys o w = Own-append xs ys o w
Own-append (lock i ∷ xs) ys o w = Own-append xs ys o w
Own-append (go_on ∷ xs) ys o w = Own-append xs ys o w
Own-append (abandon ∷ xs) ys o w = Own-append xs ys o w
Own-append (cut_off ∷ xs) ys o w = Own-append xs ys o w
Own-append (unlock i ∷ xs) ys o w = Own-append xs ys o w
Own-append (end_run ∷ xs) ys o w = absurd o
Own-append (stop_all ∷ xs) ys o w = absurd o

pub run_program-append :
    (xs ys : List Move) (p p' : Program)
    → run_program xs p ≡ some p'
    → run_program (xs ++ ys) p ≡ run_program ys p'
unfolding run_program
run_program-append [] ys p p' e = ground arith
run_program-append (x ∷ xs) ys p p' e =
    let first = >>=-eq-some (step_program x p) (run_program xs) e in
    rw first.1 (run_program-append xs ys first.0 p' first.2)

module _ (P : Program → Type 0) where
  pub Reaches-now : (p : Program) → P p → Reaches p P
  unfolding run_program
  Reaches-now p h = ([], tt, p, refl, h)

  pub Reaches-step :
      (e : Move) (p p' : Program)
      → Own (e ∷ [])
      → step_program e p ≡ some p'
      → Reaches p' P
      → Reaches p P
  unfolding run_program
  Reaches-step e p p' o q (events, w, p2, r, h) =
      (e ∷ events, Own-append (e ∷ []) events o w, p2, rw q r, h)
