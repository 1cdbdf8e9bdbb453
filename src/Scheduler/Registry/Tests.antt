-- ===== src/Scheduler/Registry/Tests.antt =====
-- Registrations of two workers.
use stabsight.Base.{◌≡◌, false, none, some, List, [], ◌∷◌, codes}
use stabsight.Scheduler.Registry.{ProbeWorker, Scheduler, new_scheduler}
use stabsight.Scheduler.Registry.Refinement.{
  Call, register, register_many, start, stop, perform, promise, answers, book_of, answers-book_of,
}

abbrev pinger : ProbeWorker
pinger = record {
  name = codes "web/icmp";
  target_name = codes "web";
  probe_type = codes "icmp";
  is_exclusive = false;
}

abbrev dialer : ProbeWorker
dialer = record {
  name = codes "web/tcp";
  target_name = codes "web";
  probe_type = codes "tcp";
  is_exclusive = false;
}

abbrev one_worker : Scheduler
one_worker = record { workers = pinger ∷ []; running = false; paused = false }

-- A duplicate, and a registration behind the start.
abbrev calls : List Call
calls =
    register (some pinger)
    ∷ register_many (some dialer ∷ some pinger ∷ none ∷ [])
    ∷ start
    ∷ register none
    ∷ register (some dialer)
    ∷ stop
    ∷ []

answers-book_of_example :
    (book_of (answers perform calls new_scheduler).0, (answers perform calls new_scheduler).1)
    ≡ answers promise calls (book_of new_scheduler)
answers-book_of_example = answers-book_of calls new_scheduler
