-- ===== src/Diagnostic/Findings.antt =====
-- What the loop over the hops and the rules without a traceroute find.
use stabsight.Base.{
  ℕ, zero, suc, ◌≡◌, ◌≢◌, ◌⊎◌, refl, inl, inr, ℤ, pos, leb_ℤ, Bool, true, false, ◌&&◌, Option, none,
  some, List, [], ◌∷◌, ◌++◌, Text, Float64, if◌then◌else◌, All, arith,
}
use stabsight.Probes.Trace.{MtrHop, MtrResult}
use stabsight.Diagnostic.{
  Diagnosis, ok, local_network, isp_gateway, transit_loss, target_unreachable, high_latency, Engine,
  Finding, is_faulty, blame, scan_hops, degraded, correlate, uncorrelated, diagnose, analyze,
  report_of, warning_of,
}

-- The loop stops at the first faulty hop, whatever follows it.
scan_hops-first :
    (threshold : ℤ) (good : List MtrHop) (h : MtrHop) (rest : List MtrHop) (f : Finding)
    → All (λ g. is_faulty threshold g ≡ false) good
    → is_faulty threshold h ≡ true
    → scan_hops threshold (good ++ h ∷ rest) f ≡ blame h
unfolding scan_hops
scan_hops-first threshold [] h rest f a b = rw b
scan_hops-first threshold (g ∷ good) h rest f a b =
    rw a.0 (scan_hops-first threshold good h rest f a.1 b)

scan_hops-none :
    (threshold : ℤ) (hops : List MtrHop) (f : Finding)
    → All (λ g. is_faulty threshold g ≡ false) hops
    → scan_hops threshold hops f ≡ f
unfolding scan_hops
scan_hops-none threshold [] f a = refl
scan_hops-none threshold (g ∷ hops) f a = rw a.0 (scan_hops-none threshold hops f a.1)

scan_hops-ne-ok :
    (threshold : ℤ) (hops : List MtrHop) (f : Finding)
    → f.diagnosis ≢ ok
    → (scan_hops threshold hops f).diagnosis ≢ ok
unfolding scan_hops blame
scan_hops-ne-ok threshold [] f h = h
scan_hops-ne-ok threshold (g ∷ hops) f h = ground (arith, scan_hops-ne-ok threshold hops f)

pub hops-cases :
    (hops : List MtrHop) → (hops ≡ []) ⊎ ((h : MtrHop) × (t : List MtrHop) × (hops ≡ h ∷ t))
hops-cases [] = inl refl
hops-cases (h ∷ t) = inr (h, t, refl)

pub correlate-first :
    (threshold : ℤ) (t : Text) (reached : Bool) (good rest : List MtrHop) (h : MtrHop) (n : ℕ)
    → All (λ g. is_faulty threshold g ≡ false) good
    → is_faulty threshold h ≡ true
    → h.hop ≡ pos (suc n)
    → correlate threshold (record { target = t; hops = good ++ h ∷ rest; reached_target = reached })
      ≡ blame h
unfolding correlate blame
correlate-first threshold t reached good rest h n a b q =
    ground (arith, scan_hops-first threshold good h rest degraded a b)

-- The part of the network that lies n hops behind the first.
abbrev pub by_distance : ℕ → Diagnosis
by_distance zero = local_network
by_distance (suc zero) = isp_gateway
by_distance (suc (suc zero)) = isp_gateway
by_distance (suc (suc (suc _))) = transit_loss

-- What is blamed on a hop with a positive number.
pub blame_lem :
    (h : MtrHop) (n : ℕ)
    → h.hop ≡ pos (suc n)
    → ((blame h).faulty_hop ≡ h.hop)
      × ((blame h).faulty_hop_ip ≡ h.ip)
      × ((blame h).diagnosis ≡ by_distance n)
unfolding blame
blame_lem h zero q = ground arith
blame_lem h (suc zero) q = ground arith
blame_lem h (suc (suc zero)) q = ground arith
blame_lem h (suc (suc (suc n))) q = ground arith

-- A loss at the threshold or above, or a latency at the threshold or above.
abbrev pub Anomaly : (f64 : Float64) → Engine f64 → f64.F → ℤ → Type 0
Anomaly f64 e loss rtt =
    (f64.le e.loss_threshold loss ≡ true) ⊎ (leb_ℤ e.latency_threshold rtt ≡ true)

pub diagnose-hops :
    (f64 : Float64) (e : Engine f64) (loss : f64.F) (rtt : ℤ) (m : MtrResult)
    → m.hops ≢ []
    → diagnose f64 e loss rtt (some m) ≡ correlate e.latency_threshold m
unfolding diagnose
diagnose-hops f64 e loss rtt m h = ground arith

pub append-ne-nil : (good : List MtrHop) (h : MtrHop) (rest : List MtrHop) → good ++ h ∷ rest ≢ []
append-ne-nil [] h rest e = cc
append-ne-nil (g ∷ good) h rest e = cc

pub analyze-Anomaly :
    (f64 : Float64) (e : Engine f64) (target : Text) (loss : f64.F) (rtt : ℤ)
    (mtr : Option MtrResult) (f : Finding)
    → Anomaly f64 e loss rtt
    → diagnose f64 e loss rtt mtr ≡ f
    → analyze f64 e target loss rtt mtr
      ≡ (report_of f64 target loss rtt f, some (warning_of f64 target loss rtt f))
unfolding analyze
analyze-Anomaly f64 e target loss rtt mtr f a d = ground arith

correlate-ne-ok : (threshold : ℤ) (m : MtrResult) → (correlate threshold m).diagnosis ≢ ok
unfolding correlate
correlate-ne-ok threshold m = ground (arith, scan_hops-ne-ok threshold m.hops degraded (λ e. cc))

uncorrelated-ne-ok : (a b c : Bool) → (uncorrelated a b c).diagnosis ≢ ok
unfolding uncorrelated
uncorrelated-ne-ok a b c = ground arith

pub diagnose-ne-ok :
    (f64 : Float64) (e : Engine f64) (loss : f64.F) (rtt : ℤ) (mtr : Option MtrResult)
    → (diagnose f64 e loss rtt mtr).diagnosis ≢ ok
unfolding diagnose
diagnose-ne-ok f64 e loss rtt none = uncorrelated-ne-ok _ _ _
diagnose-ne-ok f64 e loss rtt (some m) = elim (hops-cases m.hops) [
  | inl n ↦ rw n (uncorrelated-ne-ok _ _ _)
  | inr c ↦
      rw (diagnose-hops f64 e loss rtt m (λ n. cc (c.2))) (correlate-ne-ok e.latency_threshold m)
]

pub correlate-none :
    (threshold : ℤ) (m : MtrResult)
    → All (λ g. is_faulty threshold g ≡ false) m.hops
    → ((correlate threshold m).faulty_hop ≡ pos 0)
      × ((correlate threshold m).diagnosis
          ≡ (if m.reached_target then transit_loss else target_unreachable))
unfolding correlate
correlate-none threshold m g = ground (arith, scan_hops-none threshold m.hops degraded g)

pub uncorrelated_lem :
    (a b c : Bool)
    → ((uncorrelated a b c).faulty_hop ≡ pos 0)
      × ((uncorrelated a b c).diagnosis
          ≡ (if a && c then target_unreachable else if b then high_latency else transit_loss))
unfolding uncorrelated
uncorrelated_lem a b c = ground arith

pub diagnose-no_trace :
    (f64 : Float64) (e : Engine f64) (loss : f64.F) (rtt : ℤ) (mtr : Option MtrResult)
    → ((m : MtrResult) → mtr ≡ some m → m.hops ≡ [])
    → diagnose f64 e loss rtt mtr
      ≡ uncorrelated
          (f64.le e.loss_threshold loss)
          (leb_ℤ e.latency_threshold rtt)
          (f64.le f64.one_f loss)
unfolding diagnose
diagnose-no_trace f64 e loss rtt none h = refl
diagnose-no_trace f64 e loss rtt (some m) h = ground (arith, h m refl)
