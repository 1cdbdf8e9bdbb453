-- ===== src/Probes/Jitter.antt =====
-- internal/probes/jitter.go: the difference of two round trips that follow one another.
-- The mutex is not modelled: each method holds it for its whole body.
use stabsight.Base.{Bool, true, false, Option, none, some, Float64, if◌then◌else◌}

-- JitterCalculator
pub record JitterCalculator (f64 : Float64) : Type 0 where
  pub last_rtt : f64.F
  pub has_rtt : Bool

module _ (f64 : Float64) where
  open f64 use {F, zero_f, sub, abs}

  -- NewJitterCalculator, and the state after Reset
  unfoldable pub new_jitter : JitterCalculator f64
  new_jitter = record { last_rtt = zero_f; has_rtt = false }

  -- Compute; `none` is `(0, false)`.
  unfoldable pub compute : F → JitterCalculator f64 → JitterCalculator f64 × Option F
  compute rtt j =
      if j.has_rtt
      then (record j { last_rtt = rtt }, some (abs (sub rtt j.last_rtt)))
      else (record { last_rtt = rtt; has_rtt = true }, none)

  unfoldable pub reset : JitterCalculator f64 → JitterCalculator f64
  reset j = record { last_rtt = zero_f; has_rtt = false }
