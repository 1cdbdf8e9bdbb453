-- ===== src/Probes/Http.antt =====
-- internal/probes/http.go: HTTPProbe, and how RealHTTPClient.Do reads the times and the status of an
-- exchange. The HTTP client of the standard library is outside the model.
use stabsight.Base.{
  ℤ, pos, is_pos, leb_ℤ, ltb_ℤ, second, Bool, true, false, not, ◌*◌, ◌&&◌, ◌||◌, Option, none, some,
  List, [], ◌∷◌, ◌++◌, Text, codes, text_eq, to_upper, itoa, sub_ℤ, same_ℤ, Float64, if◌then◌else◌,
}
use stabsight.Config.Types.{HttpProbeConfig}
use stabsight.Scheduler.Registry.{ProbeWorker}
use stabsight.Scheduler.Worker.{Handle, Choice, light_start}
use stabsight.Telemetry.Metrics.{Attribute, text_attr}
use stabsight.Probes.Jitter.{JitterCalculator}
use stabsight.Probes.Check.{Labels, Effect, check_failed, check_succeeded}

-- HTTPProbeResult
pub record HttpProbeResult : Type 0 where
  pub total_duration : ℤ
  pub ttfb : ℤ
  pub tls_handshake : ℤ
  pub dns_duration : ℤ
  pub tcp_connect_duration : ℤ
  pub status_code : ℤ
  pub success : Bool

-- HTTPProbe, less its client and its jitter calculator
pub record HttpProbe : Type 0 where
  pub name : Text
  pub target_name : Text
  pub url : Text
  pub method : Text
  pub expected_code : ℤ
  pub tls_skip_verify : Bool
  pub ip_version : Text
  pub interval : ℤ
  pub timeout : ℤ
  pub enabled : Bool

abbrev pub http_interval : Option HttpProbeConfig → ℤ
http_interval none = pos (10 * second)
http_interval (some c) = if is_pos c.interval then c.interval else pos (10 * second)

abbrev pub http_timeout : Option HttpProbeConfig → ℤ
http_timeout none = pos (5 * second)
http_timeout (some c) = if is_pos c.timeout then c.timeout else pos (5 * second)

abbrev pub http_url : Text → Option HttpProbeConfig → Text
http_url host none = codes "http://" ++ host
http_url host (some c) = if text_eq c.url [] then codes "http://" ++ host else c.url

abbrev pub http_method : Option HttpProbeConfig → Text
http_method none = codes "GET"
http_method (some c) = if text_eq c.method [] then codes "GET" else to_upper c.method

abbrev pub http_expected_code : Option HttpProbeConfig → ℤ
http_expected_code none = pos 200
http_expected_code (some c) = if is_pos c.expected_code then c.expected_code else pos 200

abbrev pub http_tls_skip_verify : Option HttpProbeConfig → Bool
http_tls_skip_verify none = false
http_tls_skip_verify (some c) = c.tls_skip_verify

-- NewHTTPProbe
unfoldable pub new_http_probe : Text → Text → Option HttpProbeConfig → Text → Bool → HttpProbe
new_http_probe target_name host cfg ip_version enabled = record {
  name = target_name ++ codes "/http";
  target_name = target_name;
  url = http_url host cfg;
  method = http_method cfg;
  expected_code = http_expected_code cfg;
  tls_skip_verify = http_tls_skip_verify cfg;
  ip_version = ip_version;
  interval = http_interval cfg;
  timeout = http_timeout cfg;
  enabled = enabled;
}

unfoldable pub http_worker : HttpProbe → ProbeWorker
http_worker p = record {
  name = p.name;
  target_name = p.target_name;
  probe_type = codes "http";
  is_exclusive = false;
}

abbrev pub http_labels : HttpProbe → Labels
http_labels p = record {
  target_name = p.target_name;
  probe_type = codes "http";
  ip_version = p.ip_version;
  enabled = p.enabled;
}

-- Start
unfoldable pub http_start : Bool → Choice → Handle → Option Handle
http_start cancelled c h = light_start cancelled c h

-- What the client's Do returns: its two results, a nil pointer being `none`.
pub record Response : Type 0 where
  pub result : Option HttpProbeResult
  pub is_error : Bool

abbrev pub status_attr : ℤ → List Attribute
status_attr code = text_attr (codes "status_code") (itoa code) ∷ []

-- The attributes of a failed check.
abbrev pub failure_attrs : Option HttpProbeResult → List Attribute
failure_attrs none = []
failure_attrs (some r) = if is_pos r.status_code then status_attr r.status_code else []

-- `err != nil || (res != nil && !res.Success)`
unfoldable pub http_failed : Response → Bool
http_failed r = r.is_error || elim r.result [ none ↦ false | some res ↦ not res.success ]

-- executeCheck; `none` is the panic of a nil result that comes with no error.
unfoldable pub http_execute_check :
    (f64 : Float64) → HttpProbe → Response → JitterCalculator f64 → Option (Effect f64)
http_execute_check f64 p r j =
    if http_failed r
    then some (check_failed f64 (http_labels p) (failure_attrs r.result) j)
    else elim r.result [
      | none ↦ none
      | some res ↦
          some
            (check_succeeded f64 (http_labels p) (status_attr res.status_code) res.total_duration j)
    ]

-- The times that the trace of Do notes, in nanoseconds after `start`; `none` is the zero time.
pub record Trace : Type 0 where
  pub dns_start : Option ℤ
  pub dns_done : Option ℤ
  pub connect_start : Option ℤ
  pub connect_done : Option ℤ
  pub tls_start : Option ℤ
  pub tls_done : Option ℤ
  pub first_byte : Option ℤ

-- `done.Sub(start)` if both are set
abbrev pub between : Option ℤ → Option ℤ → ℤ
between (some a) (some b) = sub_ℤ b a
between _ _ = pos 0

-- The verdict of Do on the status code.
unfoldable pub is_expected : (expected status : ℤ) → Bool
is_expected expected status =
    (leb_ℤ expected (pos 0) && (leb_ℤ (pos 200) status && ltb_ℤ status (pos 400)))
    || (ltb_ℤ (pos 0) expected && same_ℤ status expected)

-- Do after the exchange; `status` is `none` if the request failed.
unfoldable pub do_exchange : (expected : ℤ) → Option ℤ → ℤ → Trace → Response
do_exchange expected none total t = record { result = none; is_error = true }
do_exchange expected (some status) total t = record {
  result = some (record {
    total_duration = total;
    ttfb = elim t.first_byte [ none ↦ total | some b ↦ b ];
    tls_handshake = between t.tls_start t.tls_done;
    dns_duration = between t.dns_start t.dns_done;
    tcp_connect_duration = between t.connect_start t.connect_done;
    status_code = status;
    success = is_expected expected status;
  });
  is_error = false;
}
