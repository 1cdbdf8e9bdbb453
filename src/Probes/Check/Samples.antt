-- ===== src/Probes/Check/Samples.antt =====
-- What a sequence of checks records, instrument by instrument.
use stabsight.Base.{
  ℤ, ◌≡◌, refl, Bool, true, false, Option, none, some, List, [], ◌∷◌, ◌++◌, map, Float64,
  if◌then◌else◌, arith,
}
use stabsight.Telemetry.Metrics.{
  Attribute, Instrument, rtt_histogram, jitter_histogram, packet_loss_gauge, speedtest_gauge,
  Sample, record_rtt, record_jitter, record_packet_loss,
}
use stabsight.Probes.Jitter.{JitterCalculator, compute, new_jitter}
use stabsight.Probes.Check.{Labels, Effect, check_failed, check_succeeded, report_check}

abbrev same_instrument : Instrument → Instrument → Bool
same_instrument rtt_histogram rtt_histogram = true
same_instrument jitter_histogram jitter_histogram = true
same_instrument packet_loss_gauge packet_loss_gauge = true
same_instrument speedtest_gauge speedtest_gauge = true
same_instrument _ _ = false

-- The round trips of the successful checks.
abbrev pub successes : List (Option ℤ) → List ℤ
successes [] = []
successes (none ∷ rs) = successes rs
successes (some r ∷ rs) = r ∷ successes rs

module _ (f64 : Float64) where
  open f64 use {F, zero_f, one_f, sub, abs, seconds}

  -- The values recorded on one instrument, in order.
  abbrev pub values_of : Instrument → List (Sample f64) → List F
  values_of i [] = []
  values_of i (s ∷ ss) =
      if same_instrument i s.instrument then s.value ∷ values_of i ss else values_of i ss

  -- |RTT_n - RTT_(n-1)|
  abbrev pub differences : F → List F → List F
  differences last [] = []
  differences last (r ∷ rs) = abs (sub r last) ∷ differences r rs

  abbrev pub consecutive_differences : List F → List F
  consecutive_differences [] = []
  consecutive_differences (r ∷ rs) = differences r rs

  -- 1 for a failed check, 0 for a successful one.
  abbrev pub loss_of : Option ℤ → F
  loss_of none = one_f
  loss_of (some _) = zero_f

  -- The checks of a probe, one after the other.
  unfoldable pub run_checks :
      (Option ℤ → JitterCalculator f64 → Effect f64)
      → List (Option ℤ)
      → JitterCalculator f64
      → List (Sample f64)
  run_checks check [] j = []
  run_checks check (r ∷ rs) j = let (j', samples) = check r j in samples ++ run_checks check rs j'

  -- The losses, the round trips and the jitters that these outcomes should leave, in their order.
  abbrev pub Recorded : List (Option ℤ) → List (Sample f64) → Type 0
  Recorded rs samples =
      (values_of packet_loss_gauge samples ≡ map loss_of rs)
      × ((values_of rtt_histogram samples ≡ map seconds (successes rs))
          × (values_of jitter_histogram samples
              ≡ consecutive_differences (map seconds (successes rs))))

  values_of-append :
      (i : Instrument) (xs ys : List (Sample f64))
      → values_of i (xs ++ ys) ≡ values_of i xs ++ values_of i ys
  values_of-append i [] ys = refl
  values_of-append i (x ∷ xs) ys = ground (arith, values_of-append i xs ys)

  module _ (l : Labels) (extra : List Attribute) (on : l.enabled ≡ true) where
    abbrev check : Option ℤ → JitterCalculator f64 → Effect f64
    check = report_check f64 l extra

    -- Every check records its packet loss, and nothing else does.
    losses_lem :
        (rs : List (Option ℤ)) (j : JitterCalculator f64)
        → values_of packet_loss_gauge (run_checks check rs j) ≡ map loss_of rs
    unfolding run_checks check_failed check_succeeded compute record_rtt record_jitter
        record_packet_loss
    losses_lem [] j = refl
    losses_lem (none ∷ rs) j = ground (arith, losses_lem rs j)
    losses_lem (some r ∷ rs) j = ground (
      arith,
      losses_lem rs (record { last_rtt = seconds r; has_rtt = true }),
      losses_lem rs (record j { last_rtt = seconds r }),
    )

    rtts_lem :
        (rs : List (Option ℤ)) (j : JitterCalculator f64)
        → values_of rtt_histogram (run_checks check rs j) ≡ map seconds (successes rs)
    unfolding run_checks check_failed check_succeeded compute record_rtt record_jitter
        record_packet_loss
    rtts_lem [] j = refl
    rtts_lem (none ∷ rs) j = ground (arith, rtts_lem rs j)
    rtts_lem (some r ∷ rs) j = ground (
      arith,
      rtts_lem rs (record { last_rtt = seconds r; has_rtt = true }),
      rtts_lem rs (record j { last_rtt = seconds r }),
    )

    jitters_lem :
        (rs : List (Option ℤ)) (last : F)
        → values_of jitter_histogram
            (run_checks check rs (record { last_rtt = last; has_rtt = true }))
          ≡ differences last (map seconds (successes rs))
    unfolding run_checks check_failed check_succeeded compute record_rtt record_jitter
        record_packet_loss
    jitters_lem [] last = refl
    jitters_lem (none ∷ rs) last = ground (arith, jitters_lem rs last)
    jitters_lem (some r ∷ rs) last = ground (arith, jitters_lem rs (seconds r))

    first_jitters_lem :
        (rs : List (Option ℤ))
        → values_of jitter_histogram (run_checks check rs (new_jitter f64))
          ≡ consecutive_differences (map seconds (successes rs))
    unfolding run_checks check_failed check_succeeded compute record_rtt record_jitter
        record_packet_loss new_jitter
    first_jitters_lem [] = refl
    first_jitters_lem (none ∷ rs) = ground (arith, first_jitters_lem rs)
    first_jitters_lem (some r ∷ rs) = ground (arith, jitters_lem rs (seconds r))

    pub checks-Recorded :
        (rs : List (Option ℤ)) → Recorded rs (run_checks check rs (new_jitter f64))
    checks-Recorded rs =
        (losses_lem rs (new_jitter f64), (rtts_lem rs (new_jitter f64), first_jitters_lem rs))
