-- ===== src/Diagnostic/Classification.antt =====
-- What Analyze reports, by the thresholds and by the first faulty hop.
use stabsight.Base.{
  subst, sym, ℕ, suc, ◌≡◌, ◌≢◌, ◌↔◌, ◌⊎◌, refl, ◌∙◌, inl, inr, ℤ, pos, leb_ℤ, Bool, Bool-cases, not,
  true, false, ◌&&◌, Option, none, some, List, [], ◌∷◌, ◌++◌, Text, Float64, if◌then◌else◌, All,
  arith,
}
use stabsight.Probes.Trace.{MtrHop, MtrResult}
use stabsight.Diagnostic.{
  Diagnosis, ok, transit_loss, target_unreachable, high_latency, Warning, Engine, is_faulty, blame,
  diagnose, correlate, analyze, warning_of,
}
use stabsight.Diagnostic.Findings.{
  hops-cases, correlate-first, by_distance, blame_lem, Anomaly, diagnose-hops, append-ne-nil,
  analyze-Anomaly, diagnose-ne-ok, correlate-none, uncorrelated_lem, diagnose-no_trace,
}

-- The report says that all is well, and nothing is logged, exactly when neither the loss nor the
-- latency reaches its threshold; an anomaly is never reported as normal, and always logged with the
-- diagnosis of the report.
pub analyze-ok :
    (f64 : Float64) (e : Engine f64) (target : Text) (loss : f64.F) (rtt : ℤ)
    (mtr : Option MtrResult)
    → let (report, warning) = analyze f64 e target loss rtt mtr in
      ((report.diagnosis ≡ ok)
        ↔ ((f64.le e.loss_threshold loss ≡ false) × (leb_ℤ e.latency_threshold rtt ≡ false)))
      × ((report.diagnosis ≡ ok) ↔ (warning ≡ none))
      × ((warning ≡ none)
          ⊎ ((w : Warning f64) × (warning ≡ some w) × (w.diagnosis ≡ report.diagnosis)))
unfolding analyze
analyze-ok f64 e target loss rtt mtr = (
  ground (arith, diagnose-ne-ok f64 e loss rtt mtr),
  ground (arith, diagnose-ne-ok f64 e loss rtt mtr),
  elim (Bool-cases (not (f64.le e.loss_threshold loss) && not (leb_ℤ e.latency_threshold rtt))) [
    | inl fine ↦ inl (rw fine refl)
    | inr anomaly ↦ inr (
      warning_of f64 target loss rtt (diagnose f64 e loss rtt mtr),
      rw anomaly refl,
      rw anomaly refl,
    )
  ],
)

abbrev pub hops_of : Option MtrResult → List MtrHop
hops_of none = []
hops_of (some m) = m.hops

abbrev pub reached_of : Option MtrResult → Bool
reached_of none = false
reached_of (some m) = m.reached_target

-- The diagnosis when no hop is blamed; without hops it is by the numbers.
abbrev pub unexplained : List MtrHop → Bool → Diagnosis → Diagnosis
unexplained [] reached by_numbers = by_numbers
unexplained (h ∷ hs) reached by_numbers = if reached then transit_loss else target_unreachable

some_trace : {m m' : MtrResult} → some m ≡ some m' → m ≡ m'
some_trace q = cc

module _ (f64 : Float64) (e : Engine f64) (target : Text) (loss : f64.F) (rtt : ℤ) where
  -- With an anomaly, the first faulty hop of the traceroute is blamed: its number and address are
  -- reported and logged, and the diagnosis is the local network for hop 1, the provider for hops 2
  -- and 3, and the transit beyond; the hops after it do not matter.
  pub analyze-first_faulty :
      (t : Text) (reached : Bool) (good rest : List MtrHop) (h : MtrHop) (n : ℕ)
      → Anomaly f64 e loss rtt
      → All (λ g. is_faulty e.latency_threshold g ≡ false) good
      → is_faulty e.latency_threshold h ≡ true
      → h.hop ≡ pos (suc n)
      → let (report, warning) =
          analyze f64 e target loss rtt
            (some (record { target = t; hops = good ++ h ∷ rest; reached_target = reached })) in
        (report.faulty_hop ≡ h.hop)
        × (report.faulty_hop_ip ≡ h.ip)
        × (report.diagnosis ≡ by_distance n)
        × ((w : Warning f64) × (warning ≡ some w)
            × (w.faulty ≡ some (h.hop, h.ip))
            × (w.diagnosis ≡ by_distance n))
  analyze-first_faulty t reached good rest h n a g bad q =
      let b = blame_lem h n q in
      let m : MtrResult = record {
        target = t;
        hops = good ++ h ∷ rest;
        reached_target = reached;
      } in
      rw
        (analyze-Anomaly f64 e target loss rtt (some m) (blame h) a (
          diagnose-hops f64 e loss rtt m (append-ne-nil good h rest)
          ∙ correlate-first e.latency_threshold t reached good rest h n g bad q))
        (
          b.0,
          b.1,
          b.2,
          (warning_of f64 target loss rtt (blame h), refl, ground (arith, b.0, b.1), b.2),
        )

  -- With an anomaly and a traceroute none of whose hops is faulty, no hop is blamed: the diagnosis
  -- is the transit if the trace reached the target, and the target if it did not.
  analyze-no_faulty :
      (m : MtrResult)
      → Anomaly f64 e loss rtt
      → m.hops ≢ []
      → All (λ g. is_faulty e.latency_threshold g ≡ false) m.hops
      → let (report, _) = analyze f64 e target loss rtt (some m) in
        (report.faulty_hop ≡ pos 0)
        × (report.diagnosis ≡ (if m.reached_target then transit_loss else target_unreachable))
  analyze-no_faulty m a h g =
      rw
        (analyze-Anomaly f64 e target loss rtt (some m) (correlate e.latency_threshold m) a
          (diagnose-hops f64 e loss rtt m h))
        (correlate-none e.latency_threshold m g)

  -- With an anomaly and no traceroute, or one without hops: a loss of 100% that reaches the
  -- threshold is an unreachable target, else a latency at the threshold is a high latency, and
  -- what is left is the transit; no hop is blamed.
  analyze-no_trace :
      (mtr : Option MtrResult)
      → Anomaly f64 e loss rtt
      → ((m : MtrResult) → mtr ≡ some m → m.hops ≡ [])
      → let (report, _) = analyze f64 e target loss rtt mtr in
        (report.faulty_hop ≡ pos 0)
        × (report.diagnosis ≡ (
            if f64.le e.loss_threshold loss && f64.le f64.one_f loss
            then target_unreachable
            else if leb_ℤ e.latency_threshold rtt
            then high_latency
            else transit_loss))
  analyze-no_trace mtr a h =
      rw (analyze-Anomaly f64 e target loss rtt mtr _ a (diagnose-no_trace f64 e loss rtt mtr h)) (
        uncorrelated_lem (f64.le e.loss_threshold loss) (leb_ℤ e.latency_threshold rtt)
          (f64.le f64.one_f loss))

  -- With an anomaly that no hop of the traceroute explains, no hop is blamed. If there is a
  -- traceroute with hops, the diagnosis is the transit if it reached the target, and the target if
  -- it did not; without one it is by the numbers: a loss of 100% that reaches the threshold is an
  -- unreachable target, else a latency at the threshold is a high latency, and what is left is the
  -- transit.
  pub analyze-unexplained :
      (mtr : Option MtrResult)
      → Anomaly f64 e loss rtt
      → All (λ g. is_faulty e.latency_threshold g ≡ false) (hops_of mtr)
      → let (report, _) = analyze f64 e target loss rtt mtr in
        (report.faulty_hop ≡ pos 0)
        × (report.diagnosis
            ≡ unexplained (hops_of mtr) (reached_of mtr) (
                if f64.le e.loss_threshold loss && f64.le f64.one_f loss
                then target_unreachable
                else if leb_ℤ e.latency_threshold rtt
                then high_latency
                else transit_loss))
  analyze-unexplained none a g = analyze-no_trace none a (λ m q. cc)
  analyze-unexplained (some m) a g =
      let numbers : Diagnosis =
        if f64.le e.loss_threshold loss && f64.le f64.one_f loss
        then target_unreachable
        else if leb_ℤ e.latency_threshold rtt
        then high_latency
        else transit_loss in
      let report = (analyze f64 e target loss rtt (some m)).0 in
      let Goal : List MtrHop → Type 0 = λ hs.
        (report.faulty_hop ≡ pos 0)
        × (report.diagnosis ≡ unexplained hs m.reached_target numbers) in
      elim (hops-cases m.hops) [
        | inl n ↦
            subst Goal (sym n)
              (analyze-no_trace (some m) a (λ m' q. subst (λ x. x.hops ≡ []) (some_trace q) n))
        | inr (h, t, c) ↦ subst Goal (sym c) (analyze-no_faulty m a (λ n. cc (c, n)) g)
      ]
