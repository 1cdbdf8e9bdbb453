-- ===== src/Telemetry/Server.antt =====
-- internal/telemetry/prometheus.go: the exporter, StartMetricsServer and what the server answers.
-- The exporter and the listener are outside the model: each call is given what it returns.
use stabsight.Base.{
  Bool, true, false, Option, none, some, [], ◌∷◌, Text, codes, text_eq, if◌then◌else◌,
}

pub data ServerError : Type 0 where
  exporter_failed : ServerError
  listen_failed : (address : Text) → ServerError

-- MetricsServer, less its HTTP server: the address that its listener is bound to.
pub record MetricsServer : Type 0 where
  pub bound : Option Text
  pub closed : Bool

pub data ServerResult : Type 0 where
  server_started : MetricsServer → ServerResult
  server_failed : ServerError → ServerResult

-- The listener is asked for only if the exporter could be made.
unfoldable pub start_metrics_server :
    (exporter_ok : Bool) (listen : Text → Option Text) → Text → ServerResult
start_metrics_server false listen address = server_failed exporter_failed
start_metrics_server true listen address = elim (listen address) [
  | none ↦ server_failed (listen_failed address)
  | some bound ↦ server_started (record { bound = some bound; closed = false })
]

-- Addr
unfoldable pub addr : MetricsServer → Text
addr s = elim s.bound [ none ↦ [] | some a ↦ a ]

pub data Answer : Type 0 where
  metrics_page : Answer
  status_ok : (body : Text) → Answer
  not_found : Answer

-- The two routes of the mux, for a path that is clean.
unfoldable pub answer : (path : Text) → Answer
answer path =
    if text_eq path (codes "/metrics")
    then metrics_page
    else if text_eq path (codes "/healthz")
    then status_ok (b'o' ∷ b'k' ∷ 10 ∷ [])
    else not_found
