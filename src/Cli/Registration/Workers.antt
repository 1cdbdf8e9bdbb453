-- ===== src/Cli/Registration/Workers.antt =====
-- The workers that RunApp is to make for the probes that the targets configure.
use stabsight.Base.{
  ◌≡◌, refl, ap, Option, none, some, List, [], ◌∷◌, ◌++◌, map, Text, text_eq, codes,
}
use stabsight.Config.Types.{Target, ProbesConfig}
use stabsight.Scheduler.Registry.{ProbeWorker}
use stabsight.Probes.Icmp.{new_icmp_probe, icmp_worker}
use stabsight.Probes.Dns.{new_dns_probe, dns_worker}
use stabsight.Probes.Http.{new_http_probe, http_worker}
use stabsight.Probes.Tcp.{new_tcp_probe, tcp_worker}
use stabsight.Probes.Mtr.{new_mtr_probe, mtr_worker}
use stabsight.Probes.Speedtest.{new_speedtest_probe, speedtest_worker}
use stabsight.Cli.Registration.{
  worker_if, make_icmp, make_dns, make_http, make_tcp, make_mtr, make_speedtest, target_workers,
}

abbrev pub configured {ℓ} : {A : Type ℓ} → Text → Option A → List Text
configured kind none = []
configured kind (some _) = kind ∷ []

-- The types of the probes that a target configures.
abbrev pub kinds : ProbesConfig → List Text
kinds p =
    configured (codes "icmp") p.icmp
    ++ (configured (codes "dns") p.dns
        ++ (configured (codes "http") p.http
            ++ (configured (codes "tcp") p.tcp
                ++ (configured (codes "mtr") p.mtr ++ configured (codes "speedtest") p.speedtest))))

-- What the worker of a type of probe is to be, for a target of this name.
abbrev pub worker_of : Text → Text → ProbeWorker
worker_of name kind = record {
  name = name ++ b'/' ∷ kind;
  target_name = name;
  probe_type = kind;
  is_exclusive = text_eq kind (codes "speedtest");
}

-- A worker for every probe that is configured, target by target.
abbrev pub all_workers : List Target → List ProbeWorker
all_workers [] = []
all_workers (t ∷ ts) = map (worker_of t.name) (kinds t.probes) ++ all_workers ts

worker_if-configured {ℓ} :
    {A : Type ℓ} (make : Option A → ProbeWorker) (name kind : Text) (o : Option A)
    (rest : List ProbeWorker) (more : List Text)
    → ((a : A) → make (some a) ≡ worker_of name kind)
    → rest ≡ map (worker_of name) more
    → worker_if make o ++ rest ≡ map (worker_of name) (configured kind o ++ more)
worker_if-configured make name kind none rest more made e = e
worker_if-configured make name kind (some a) rest more made e = cc (made a, e)

last-configured {ℓ} :
    {A : Type ℓ} (make : Option A → ProbeWorker) (name kind : Text) (o : Option A)
    → ((a : A) → make (some a) ≡ worker_of name kind)
    → worker_if make o ≡ map (worker_of name) (configured kind o)
last-configured make name kind none made = refl
last-configured make name kind (some a) made = ap (λ (w : ProbeWorker). w ∷ []) (made a)

-- The workers that RunApp makes for a target are those of its configured probes.
pub target_workers-kinds : (t : Target) → target_workers t ≡ map (worker_of t.name) (kinds t.probes)
unfolding target_workers icmp_worker dns_worker http_worker tcp_worker mtr_worker speedtest_worker
    new_icmp_probe new_dns_probe new_http_probe new_tcp_probe new_mtr_probe new_speedtest_probe
    text_eq
target_workers-kinds t =
    worker_if-configured (make_icmp t) t.name (codes "icmp") t.probes.icmp _ _ (λ c. refl)
      (worker_if-configured (make_dns t) t.name (codes "dns") t.probes.dns _ _ (λ c. refl)
        (worker_if-configured (make_http t) t.name (codes "http") t.probes.http _ _ (λ c. refl)
          (worker_if-configured (make_tcp t) t.name (codes "tcp") t.probes.tcp _ _ (λ c. refl)
            (worker_if-configured (make_mtr t) t.name (codes "mtr") t.probes.mtr _ _ (λ c. refl)
              (last-configured (make_speedtest t) t.name (codes "speedtest") t.probes.speedtest
                (λ c. refl))))))
