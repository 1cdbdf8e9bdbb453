-- ===== src/Scheduler/Registry/Refinement.antt =====
-- What the scheduler promises of its registration: a map from names to workers, and a flag.
use mathlib.Core.Path.{fun_ext}
use stabsight.Base.{
  ◌≡◌, refl, ap, ◌∙◌, true, false, Bool, Option, none, some, List, [], ◌∷◌, ◌++◌, Text, text_eq,
  arith, if◌then◌else◌,
}
use stabsight.Scheduler.Registry.{
  ProbeWorker, Scheduler, RegisterError, nil_worker, already_running, duplicate_name, has_name,
  register_worker, register_workers, start_workers, stop_workers,
}

-- The abstract scheduler: it knows nothing of the order of the workers.
pub record Book : Type 0 where
  pub lookup : Text → Option ProbeWorker
  pub running : Bool

abbrev pub enter : ProbeWorker → (Text → Option ProbeWorker) → Text → Option ProbeWorker
enter w lookup n = elim (lookup n) [
  | some v ↦ some v
  | none ↦ if text_eq w.name n then some w else none
]

abbrev pub enter_worker : Option ProbeWorker → Book → Book × Option RegisterError
enter_worker none b = (b, some nil_worker)
enter_worker (some w) b = if b.running then (b, some already_running) else elim (b.lookup w.name) [
  | some _ ↦ (b, some (duplicate_name w.name))
  | none ↦ (record b { lookup = enter w b.lookup }, none)
]

abbrev pub enter_workers : List (Option ProbeWorker) → Book → Book × Option RegisterError
enter_workers [] b = (b, none)
enter_workers (w ∷ ws) b =
    let rest = enter_workers ws (enter_worker w b).0 in
    elim (enter_worker w b).1 [ none ↦ rest | some e ↦ ((enter_worker w b).0, some e) ]

-- The calls of the scheduler that registration stands under.
pub data Call : Type 0 where
  register : Option ProbeWorker → Call
  register_many : List (Option ProbeWorker) → Call
  start stop : Call

abbrev pub perform : Call → Scheduler → Scheduler × Option RegisterError
perform (register w) s = register_worker w s
perform (register_many ws) s = register_workers ws s
perform start s =
    ((start_workers s).0, elim (start_workers s).1 [ none ↦ some already_running | some _ ↦ none ])
perform stop s = ((stop_workers s).0, none)

abbrev pub promise : Call → Book → Book × Option RegisterError
promise (register w) b = enter_worker w b
promise (register_many ws) b = enter_workers ws b
promise start b =
    if b.running then (b, some already_running) else (record b { running = true }, none)
promise stop b = (record b { running = false }, none)

-- The replies of a sequence of calls, and the state behind them.
abbrev pub answers {ℓ κ} :
    {C : Type ℓ} {S : Type κ}
    → (C → S → S × Option RegisterError)
    → List C
    → S
    → S × List (Option RegisterError)
answers act [] s = (s, [])
answers act (c ∷ cs) s = let rest = answers act cs (act c s).0 in (rest.0, (act c s).1 ∷ rest.1)

abbrev pub find : List ProbeWorker → Text → Option ProbeWorker
find [] n = none
find (w ∷ ws) n = if text_eq w.name n then some w else find ws n

-- The scheduler as a book.
abbrev pub book_of : Scheduler → Book
book_of s = record { lookup = find s.workers; running = s.running }

-- A state and a reply of the scheduler, as a book and that reply.
abbrev as_book : Scheduler × Option RegisterError → Book × Option RegisterError
as_book (s, e) = (book_of s, e)

find-snoc-at :
    (w : ProbeWorker) (ws : List ProbeWorker) (n : Text)
    → find (ws ++ w ∷ []) n ≡ enter w (find ws) n
find-snoc-at w [] n = refl
find-snoc-at w (v ∷ ws) n = ground (arith, find-snoc-at w ws n)

find-snoc : (w : ProbeWorker) (ws : List ProbeWorker) → find (ws ++ w ∷ []) ≡ enter w (find ws)
find-snoc w ws = fun_ext (find-snoc-at w ws)

has_name-find :
    (n : Text) (ws : List ProbeWorker)
    → has_name n ws ≡ elim (find ws n) [ none ↦ false | some _ ↦ true ]
unfolding has_name
has_name-find n [] = refl
has_name-find n (w ∷ ws) = ground (arith, has_name-find n ws)

register_worker-book_of :
    (w : Option ProbeWorker) (s : Scheduler)
    → as_book (register_worker w s) ≡ enter_worker w (book_of s)
unfolding register_worker
register_worker-book_of none s = refl
register_worker-book_of (some w) s =
    ground (arith, has_name-find w.name s.workers, find-snoc w s.workers)

-- RegisterWorkers behind a first registration.
register_rest-book_of :
    (ws : List (Option ProbeWorker)) (r : Scheduler × Option RegisterError)
    → as_book (register_workers ws r.0) ≡ enter_workers ws (book_of r.0)
    → as_book (elim r.1 [ none ↦ register_workers ws r.0 | some e ↦ (r.0, some e) ])
      ≡ elim (as_book r).1 [
        | none ↦ enter_workers ws (as_book r).0
        | some e ↦ ((as_book r).0, some e)
      ]
register_rest-book_of ws (s, none) h = h
register_rest-book_of ws (s, some e) h = refl

register_workers-book_of :
    (ws : List (Option ProbeWorker)) (s : Scheduler)
    → as_book (register_workers ws s) ≡ enter_workers ws (book_of s)
unfolding register_workers
register_workers-book_of [] s = refl
register_workers-book_of (w ∷ ws) s =
    register_rest-book_of ws (register_worker w s)
      (register_workers-book_of ws (register_worker w s).0)
    ∙ ap (λ x. elim x.1 [ none ↦ enter_workers ws x.0 | some e ↦ (x.0, some e) ])
        (register_worker-book_of w s)

perform-promise : (c : Call) (s : Scheduler) → as_book (perform c s) ≡ promise c (book_of s)
unfolding start_workers stop_workers
perform-promise (register w) s = register_worker-book_of w s
perform-promise (register_many ws) s = register_workers-book_of ws s
perform-promise start s = ground arith
perform-promise stop s = ground arith

-- Every sequence of calls, refused ones included, gets from the scheduler the replies that a map
-- from names to workers with a flag would give: a name is entered once and its worker is never
-- replaced, RegisterWorkers enters what stands before its first error, and nothing is entered
-- between a start and a stop. What can be found in the scheduler behind the calls is what such a
-- map holds.
pub answers-book_of :
    (cs : List Call) (s : Scheduler)
    → (book_of (answers perform cs s).0, (answers perform cs s).1) ≡ answers promise cs (book_of s)
answers-book_of [] s = refl
answers-book_of (c ∷ cs) s =
    ap (λ x. (x.0, (perform c s).1 ∷ x.1)) (answers-book_of cs (perform c s).0)
    ∙ ap (λ x. ((answers promise cs x.0).0, x.1 ∷ (answers promise cs x.0).1)) (perform-promise c s)
