-- ===== src/Cli/Wiring.antt =====
-- internal/cli/run.go: how RunApp connects the traceroutes with the diagnostic engine, and the
-- configuration with the telemetry.
use stabsight.Base.{
  ◌≡◌, pos, map, ℕ, ltb, leb, ◌≤◌, ◌&&◌, refl, ◌<◌, ◌*◌, millisecond, Bool, true, false, Option,
  none, some, List, [], ◌∷◌, Text, codes, text_eq, to_lower, trim_space, Float64, arith, subst,
  if◌then◌else◌,
}
use stabsight.Config.Types.{Config}
use stabsight.Config.Validate.{validate}
use stabsight.Config.WellFormed.{Ascending, validate_iff}
use stabsight.Telemetry.Provider.{
  ProviderConfig, Aggregation, explicit, exponential, aggregation_of, default_latency_buckets,
}
use stabsight.Telemetry.Otlp.{OtlpConfig}
use stabsight.Probes.Trace.{MtrResult}
use stabsight.Diagnostic.{ok, Report, Warning, new_engine, analyze}

-- The callback that RunApp gives to every MTR probe:
-- `diagEngine.Analyze(targetName, 0, 0, res)` with `diagnostic.NewEngine(logger, 0.05, 250ms)`.
unfoldable pub on_result : (f64 : Float64) → Text → MtrResult → Report f64 × Option (Warning f64)
on_result f64 target res =
    analyze f64 (new_engine f64 f64.five_percent (pos (250 * millisecond))) target f64.zero_f
      (pos 0) (some res)

-- telemetry.ProviderConfig of RunApp
unfoldable pub provider_config : (f64 : Float64) → Config f64 → ProviderConfig f64
provider_config f64 c = record {
  service_name = codes "stabsight";
  service_version = [];
  environment = [];
  histogram_mode = c.histogram_mode;
  histogram_buckets = c.histogram_buckets;
  extra_attrs = [];
}

-- telemetry.OTLPConfig of RunApp
unfoldable pub otlp_config : (f64 : Float64) → Config f64 → OtlpConfig
otlp_config f64 c = record {
  endpoint = c.otlp_endpoint;
  protocol = [];
  insecure = false;
  interval = pos 0;
  timeout = pos 0;
}

-- The traceroutes of the program are never diagnosed: the callback hands a loss of 0 and a latency
-- of 0 to Analyze, so that whatever the traceroute found the report says that all is well and
-- nothing is logged. The hypothesis says that 0.05 <= 0 is false.
pub on_result-ok :
    (f64 : Float64) (target : Text) (res : MtrResult)
    → f64.le f64.five_percent f64.zero_f ≡ false
    → ((on_result f64 target res).0.diagnosis ≡ ok) × ((on_result f64 target res).1 ≡ none)
unfolding on_result analyze new_engine
on_result-ok f64 target res h = ground arith

explicit_of-eq :
    (f64 : Float64) (b : Bool) (chosen buckets : List f64.F)
    → if◌then◌else◌ {A = Aggregation f64} b (exponential 160 20) (explicit chosen)
      ≡ explicit buckets
    → chosen ≡ buckets
explicit_of-eq f64 true chosen buckets e = cc
explicit_of-eq f64 false chosen buckets e = cc

chosen_buckets-Ascending :
    (f64 : Float64) (own buckets : List f64.F)
    → Ascending f64 none (default_latency_buckets f64)
    → Ascending f64 none own
    → elim own [ [] ↦ default_latency_buckets f64 | b ∷ bs ↦ b ∷ bs ] ≡ buckets
    → Ascending f64 none buckets
chosen_buckets-Ascending f64 [] buckets d a e = subst (Ascending f64 none) e d
chosen_buckets-Ascending f64 (b ∷ bs) buckets d a e = subst (Ascending f64 none) e a

increasing : ℕ → List ℕ → Bool
increasing m [] = true
increasing m (n ∷ ns) = ltb m n && (leb n 100000 && increasing n ns)

literals-Ascending :
    (f64 : Float64)
    → ((n : ℕ) → 0 < n → n ≤ 100000 → f64.le (f64.literal n) f64.zero_f ≡ false)
    → ((m n : ℕ) → m < n → n ≤ 100000 → f64.le (f64.literal n) (f64.literal m) ≡ false)
    → (m : ℕ) (ns : List ℕ) → increasing m ns ≡ true
    → Ascending f64 (some (f64.literal m)) (map f64.literal ns)
unfolding increasing
literals-Ascending f64 positive ordered m [] i = tt
literals-Ascending f64 positive ordered m (n ∷ ns) i =
    let bound : m < n = ground arith in
    let small : n ≤ 100000 = ground arith in
    let rest : increasing n ns ≡ true = ground arith in
    (
      positive n (omega arith) small,
      (ordered m n bound small, literals-Ascending f64 positive ordered n ns rest),
    )

-- With an accepted configuration the histograms are either exponential, or have explicit buckets
-- each of which fails `<= 0` and fails `<=` its predecessor. The hypotheses say that the literals up
-- to 10, which are written in tenths of a millisecond, compare as the numbers that are written.
pub aggregation_of-Ascending :
    (f64 : Float64) (c : Config f64) (buckets : List f64.F)
    → validate f64 c ≡ none
    → ((n : ℕ) → 0 < n → n ≤ 100000 → f64.le (f64.literal n) f64.zero_f ≡ false)
    → ((m n : ℕ) → m < n → n ≤ 100000 → f64.le (f64.literal n) (f64.literal m) ≡ false)
    → aggregation_of f64 (provider_config f64 c) ≡ explicit buckets
    → Ascending f64 none buckets
unfolding aggregation_of provider_config default_latency_buckets increasing
aggregation_of-Ascending f64 c buckets v positive ordered e =
    chosen_buckets-Ascending f64 c.histogram_buckets buckets
      (
        positive 5 (omega arith) (omega arith),
        (
          tt,
          literals-Ascending f64 positive ordered 5
              (10 ∷ 25 ∷ 50 ∷ 100 ∷ 250 ∷ 500 ∷ 1000 ∷ 2500 ∷ 5000 ∷ 10000 ∷ 25000 ∷ 50000 ∷ 100000
                ∷ [])
              refl,
        ),
      )
      ((validate_iff f64 c).0 v).1.1.1.0
      (explicit_of-eq f64 (text_eq (to_lower (trim_space c.histogram_mode)) (codes "exponential")) _
        buckets e)
