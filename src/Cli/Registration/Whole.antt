-- ===== src/Cli/Registration/Whole.antt =====
-- The registration of all the probes of all the targets, when no two targets share a name.
use mathlib.Core.List.{append-nil, append_assoc}
use stabsight.Base.{
  ◌≡◌, ◌≢◌, refl, true, false, Option, none, some, List, [], ◌∷◌, ◌++◌, Text, text_eq, codes, All,
  All-append, subst, arith, one_of, text_eq_refl,
}
use stabsight.Config.Types.{Target}
use stabsight.Scheduler.Registry.{ProbeWorker, Scheduler, new_scheduler}
use stabsight.Scheduler.Registry.Names.{Fresh, register_worker-accepts}
use stabsight.Probes.Icmp.{new_icmp_probe, icmp_worker}
use stabsight.Probes.Dns.{new_dns_probe, dns_worker}
use stabsight.Probes.Http.{new_http_probe, http_worker}
use stabsight.Probes.Tcp.{new_tcp_probe, tcp_worker}
use stabsight.Probes.Mtr.{new_mtr_probe, mtr_worker}
use stabsight.Probes.Speedtest.{new_speedtest_probe, speedtest_worker}
use stabsight.Cli.Registration.{
  worker_if, make_icmp, make_dns, make_http, make_tcp, make_mtr, make_speedtest, target_workers,
  register_all, register_targets,
}
use stabsight.Cli.Registration.Workers.{all_workers, target_workers-kinds}
use stabsight.Cli.Registration.Each.{target_workers-All}
use stabsight.Cli.Registration.Keys.{Named, AllApart, AllApart-Fresh}

-- No two targets have one name.
abbrev pub DistinctTargets : List Target → Type 0
DistinctTargets [] = Unit
DistinctTargets (t ∷ ts) = All (λ u. t.name ≢ u.name) ts × DistinctTargets ts

-- The workers of the list that are for `t` have one of the types.
abbrev Taken : Text → List Text → List ProbeWorker → Type 0
Taken t kinds ws = All (λ w. w.target_name ≡ t → one_of w.probe_type kinds ≡ true) ws

All-map {ℓ} :
    {A : Type ℓ} {P Q : A → Type 0} → ((a : A) → P a → Q a) → (xs : List A) → All P xs → All Q xs
All-map f [] h = tt
All-map f (x ∷ xs) h = (f x h.0, All-map f xs h.1)

Taken-more :
    (t kind : Text) (kinds : List Text) (ws : List ProbeWorker)
    → Taken t kinds ws
    → Taken t (kind ∷ kinds) ws
unfolding one_of
Taken-more t kind kinds ws h = All-map (λ w k e. ground (arith, k e)) ws h

All-zip {ℓ} :
    {A : Type ℓ} {P Q R : A → Type 0}
    → ((a : A) → P a → Q a → R a)
    → (xs : List A) → All P xs
    → All Q xs
    → All R xs
All-zip f [] p q = tt
All-zip f (x ∷ xs) p q = (f x p.0 q.0, All-zip f xs p.1 q.1)

-- A worker of a type that is not taken is apart from the list, and takes its type.
worker_if-AllApart {ℓ} :
    {A : Type ℓ} (make : Option A → ProbeWorker) (o : Option A) (rest ws : List ProbeWorker)
    (t kind : Text) (kinds : List Text)
    → ((a : A) → ((make (some a)).target_name ≡ t) × ((make (some a)).probe_type ≡ kind))
    → one_of kind kinds ≡ false
    → Taken t kinds ws
    → ((vs : List ProbeWorker) → Taken t (kind ∷ kinds) vs → AllApart vs rest)
    → AllApart ws (worker_if make o ++ rest)
unfolding one_of
worker_if-AllApart make none rest ws t kind kinds made free taken after =
    after ws (Taken-more t kind kinds ws taken)
worker_if-AllApart make (some a) rest ws t kind kinds made free taken after = (
  All-map (λ w k e f. cc (k (cc (e, (made a).0)), f, (made a).1, free)) ws taken,
  after (ws ++ make (some a) ∷ []) (
      All-append _ ws (make (some a) ∷ []) (Taken-more t kind kinds ws taken)
        ((λ e. rw ((made a).1, text_eq_refl kind)), tt)),
)

no_last : (ws vs : List ProbeWorker) → AllApart ws (vs ++ []) → AllApart ws vs
no_last ws vs h = subst (AllApart ws) (append-nil vs) h

abbrev nothing_taken : List Text
nothing_taken = []

abbrev taken_to_icmp : List Text
taken_to_icmp = codes "icmp" ∷ nothing_taken

abbrev taken_to_dns : List Text
taken_to_dns = codes "dns" ∷ taken_to_icmp

abbrev taken_to_http : List Text
taken_to_http = codes "http" ∷ taken_to_dns

abbrev taken_to_tcp : List Text
taken_to_tcp = codes "tcp" ∷ taken_to_http

abbrev taken_to_mtr : List Text
taken_to_mtr = codes "mtr" ∷ taken_to_tcp

target_workers-AllApart :
    (t : Target) (ws : List ProbeWorker)
    → All (λ w. w.target_name ≢ t.name) ws
    → AllApart ws (target_workers t)
unfolding target_workers icmp_worker dns_worker http_worker tcp_worker mtr_worker speedtest_worker
    new_icmp_probe new_dns_probe new_http_probe new_tcp_probe new_mtr_probe new_speedtest_probe
    one_of text_eq
target_workers-AllApart t ws other =
    worker_if-AllApart (make_icmp t) t.probes.icmp
      (worker_if (make_dns t) t.probes.dns
        ++ (worker_if (make_http t) t.probes.http
            ++ (worker_if (make_tcp t) t.probes.tcp
                ++ (worker_if (make_mtr t) t.probes.mtr
                    ++ (worker_if (make_speedtest t) t.probes.speedtest)))))
      ws t.name (codes "icmp") nothing_taken (λ c. (refl, refl)) refl
      (All-map (λ w n e. absurd (n e)) ws other)
      (λ v1 k1.
        worker_if-AllApart (make_dns t) t.probes.dns
          (worker_if (make_http t) t.probes.http
            ++ (worker_if (make_tcp t) t.probes.tcp
                ++ (worker_if (make_mtr t) t.probes.mtr
                    ++ (worker_if (make_speedtest t) t.probes.speedtest))))
          v1 t.name (codes "dns") taken_to_icmp (λ c. (refl, refl)) refl k1
          (λ v2 k2.
            worker_if-AllApart (make_http t) t.probes.http
              (worker_if (make_tcp t) t.probes.tcp
                ++ (worker_if (make_mtr t) t.probes.mtr
                    ++ (worker_if (make_speedtest t) t.probes.speedtest)))
              v2 t.name (codes "http") taken_to_dns (λ c. (refl, refl)) refl k2
              (λ v3 k3.
                worker_if-AllApart (make_tcp t) t.probes.tcp
                  (worker_if (make_mtr t) t.probes.mtr
                    ++ (worker_if (make_speedtest t) t.probes.speedtest))
                  v3 t.name (codes "tcp") taken_to_http (λ c. (refl, refl)) refl k3
                  (λ v4 k4.
                    worker_if-AllApart (make_mtr t) t.probes.mtr
                      (worker_if (make_speedtest t) t.probes.speedtest) v4 t.name (codes "mtr")
                      taken_to_tcp (λ c. (refl, refl)) refl k4
                      (λ v5 k5. no_last v5 (worker_if (make_speedtest t) t.probes.speedtest) (
                        worker_if-AllApart (make_speedtest t) t.probes.speedtest [] v5 t.name
                          (codes "speedtest") taken_to_mtr (λ c. (refl, refl)) refl k5
                          (λ v6 k6. tt)))))))

target_workers-Named :
    (t : Target) → All (λ w. (w.target_name ≡ t.name) × Named w) (target_workers t)
unfolding icmp_worker dns_worker http_worker tcp_worker mtr_worker speedtest_worker new_icmp_probe
    new_dns_probe new_http_probe new_tcp_probe new_mtr_probe new_speedtest_probe
target_workers-Named t =
    target_workers-All _ t (λ c. (refl, (refl, ground arith))) (λ c. (refl, (refl, ground arith)))
      (λ c. (refl, (refl, ground arith))) (λ c. (refl, (refl, ground arith)))
      (λ c. (refl, (refl, ground arith))) (λ c. (refl, (refl, ground arith)))

register_all-Fresh :
    (ws : List ProbeWorker) (s : Scheduler)
    → s.running ≡ false
    → Fresh s.workers ws
    → register_all ws s ≡ record s { workers = s.workers ++ ws }
unfolding register_all
register_all-Fresh [] s r f = rw (append-nil s.workers)
register_all-Fresh (w ∷ ws) s r f = ground (
  arith,
  register_worker-accepts w s r f.0,
  register_all-Fresh ws (record s { workers = s.workers ++ w ∷ [] }) r f.1,
  append_assoc s.workers (w ∷ []) ws,
)

register_targets-append :
    (ts : List Target) (s : Scheduler)
    → s.running ≡ false
    → All Named s.workers
    → DistinctTargets ts
    → All (λ u. All (λ w. w.target_name ≢ u.name) s.workers) ts
    → register_targets ts s ≡ record s { workers = s.workers ++ all_workers ts }
unfolding register_targets
register_targets-append [] s r named distinct other = rw (append-nil s.workers)
register_targets-append (t ∷ ts) s r named distinct other =
    let mine = target_workers-Named t in
    let named_mine = All-map (λ w h. h.1) (target_workers t) mine in
    let fresh =
      AllApart-Fresh s.workers (target_workers t) named named_mine
        (target_workers-AllApart t s.workers other.0) in
    let s' = record s { workers = s.workers ++ target_workers t } in
    let other' =
      All-zip
        (λ u n h.
          All-append _ s.workers (target_workers t) h
            (All-map (λ w m e. n (cc (m.0, e))) (target_workers t) mine))
        ts distinct.0 other.1 in
    ground (
      arith,
      register_all-Fresh (target_workers t) s r fresh,
      register_targets-append ts s' r
          (All-append Named s.workers (target_workers t) named named_mine) distinct.1 other',
      target_workers-kinds t,
      append_assoc s.workers (target_workers t) (all_workers ts),
    )

no_workers : (ts : List Target) → All (λ u. All (λ (w : ProbeWorker). w.target_name ≢ u.name) []) ts
no_workers [] = tt
no_workers (t ∷ ts) = (tt, no_workers ts)

-- If no two targets have the same name, RunApp registers a worker for every configured probe of
-- every target, target by target in the order of the configuration and by the types ICMP, DNS, HTTP,
-- TCP, MTR and speedtest, named after its target and its type, and exclusive exactly if it is a
-- speedtest; none is refused.
pub register_targets-whole :
    (ts : List Target)
    → DistinctTargets ts
    → register_targets ts new_scheduler ≡ record new_scheduler { workers = all_workers ts }
unfolding new_scheduler
register_targets-whole ts distinct =
    register_targets-append ts new_scheduler refl tt distinct (no_workers ts)
