-- ===== src/Probes/Check.antt =====
-- What the executeCheck methods of the ICMP, DNS, TCP and HTTP probes share: a failed check records
-- a packet loss of 1 and leaves the jitter alone; a successful one computes the jitter, records it
-- if there is one, then the round trip and a packet loss of 0. The debug logs are left out.

pub mod Samples
use stabsight.Base.{
  ℤ, Bool, true, false, Option, none, some, List, [], ◌∷◌, ◌++◌, Text, Float64, if◌then◌else◌,
}
use stabsight.Telemetry.Metrics.{Attribute, Sample, record_rtt, record_jitter, record_packet_loss}
use stabsight.Probes.Jitter.{JitterCalculator, compute}

-- The labels of a probe: `p.targetName`, the probe type, `p.ipVersion`; `enabled` is whether
-- `p.metrics` is not nil.
pub record Labels : Type 0 where
  pub target_name : Text
  pub probe_type : Text
  pub ip_version : Text
  pub enabled : Bool

module _ (f64 : Float64) where
  open f64 use {F, zero_f, one_f, seconds}

  abbrev pub Effect : Type 0
  Effect = JitterCalculator f64 × List (Sample f64)

  unfoldable pub check_failed : Labels → List Attribute → JitterCalculator f64 → Effect
  check_failed l extra j = (
    j,
    if l.enabled
        then record_packet_loss f64 one_f l.target_name l.probe_type l.ip_version extra ∷ []
        else [],
  )

  abbrev jitter_sample : Labels → List Attribute → Option F → List (Sample f64)
  jitter_sample l extra none = []
  jitter_sample l extra (some v) =
      if l.enabled
      then record_jitter f64 v l.target_name l.probe_type l.ip_version extra ∷ []
      else []

  unfoldable pub check_succeeded : Labels → List Attribute → ℤ → JitterCalculator f64 → Effect
  check_succeeded l extra rtt j =
      let (j', jitter) = compute f64 (seconds rtt) j in
      (
        j',
        jitter_sample l extra jitter
            ++ (if l.enabled
                then record_rtt f64 (seconds rtt) l.target_name l.probe_type l.ip_version extra
                  ∷ record_packet_loss f64 zero_f l.target_name l.probe_type l.ip_version extra
                  ∷ []
                else []),
      )

  -- One check, by what the measurement returned: `none` is an error.
  abbrev pub report_check : Labels → List Attribute → Option ℤ → JitterCalculator f64 → Effect
  report_check l extra none j = check_failed l extra j
  report_check l extra (some rtt) j = check_succeeded l extra rtt j
