-- ===== src/Probes/Clients/Settings.antt =====
-- What the checks of dns.go, tcp.go and http.go ask for, by the configuration of their probes.
use stabsight.Base.{
  ℕ, pos, is_pos, second, ◌*◌, ◌≡◌, refl, ◌∙◌, ap, inl, inr, Bool, true, false, not, Option, none,
  some, List, [], ◌∷◌, ◌++◌, Text, codes, text_eq, contains, to_upper, to_upper_byte,
  join_host_port, Bool-cases, if◌then◌else◌, arith,
}
use stabsight.Config.Types.{DnsProbeConfig, HttpProbeConfig, TcpProbeConfig}
use stabsight.Probes.Address.{dns_address}
use stabsight.Probes.Dns.{
  QueryType, type_a, type_aaaa, type_cname, type_txt, type_mx, type_ns, type_ptr, type_soa,
  query_type, dns_server, dns_record_type, dns_timeout,
}
use stabsight.Probes.Tcp.{tcp_network, tcp_timeout, tcp_port}
use stabsight.Probes.Http.{
  http_url, http_method, http_timeout, http_expected_code, http_tls_skip_verify,
}

-- The setting `get` of a block of the configuration, if the block is there and `given` holds of it;
-- or else the default.
abbrev pub setting {ℓ} : {C : Type ℓ} {X : Type 0} → Option C → (C → X) → (X → Bool) → X → X
setting none get given otherwise = otherwise
setting (some c) get given otherwise = if given (get c) then get c else otherwise

abbrev pub named : Text → Bool
named t = not (text_eq t [])

-- The entry of a table for a key.
abbrev pub entry {ℓ} : {X : Type ℓ} → List (Text × X) → Text → X → X
entry [] key otherwise = otherwise
entry ((k, x) ∷ rest) key otherwise = if text_eq key k then x else entry rest key otherwise

abbrev pub query_types : List (Text × QueryType)
query_types =
    (codes "AAAA", type_aaaa)
    ∷ (codes "CNAME", type_cname)
    ∷ (codes "TXT", type_txt)
    ∷ (codes "MX", type_mx)
    ∷ (codes "NS", type_ns)
    ∷ (codes "PTR", type_ptr)
    ∷ (codes "SOA", type_soa)
    ∷ []

abbrev pub tcp_networks : List (Text × Text)
tcp_networks = (codes "ipv4", codes "tcp4") ∷ (codes "ipv6", codes "tcp6") ∷ []

-- The type of the query, which is A if the configuration does not name one of the table.
abbrev pub asked_type : Option DnsProbeConfig → QueryType
asked_type dns =
    entry query_types (to_upper (setting dns (λ c. c.record_type) named (codes "A"))) type_a

-- The server of the query: the configured one, with the port 53 behind it if it has no colon.
abbrev pub asked_server : Option DnsProbeConfig → Text
asked_server dns =
    let server = setting dns (λ c. c.server) named (codes "8.8.8.8:53") in
    if contains b':' server then server else join_host_port server (codes "53")

to_upper_byte_twice : (c : ℕ) → to_upper_byte (to_upper_byte c) ≡ to_upper_byte c
unfolding to_upper_byte
to_upper_byte_twice c = ground arith

to_upper_twice : (t : Text) → to_upper (to_upper t) ≡ to_upper t
unfolding to_upper
to_upper_twice [] = refl
to_upper_twice (c ∷ t) = cc (to_upper_byte_twice c, to_upper_twice t)

query_type-entry : (t : Text) → query_type t ≡ entry query_types (to_upper t) type_a
unfolding query_type
query_type-entry t = refl

pub query_type-asked :
    (dns : Option DnsProbeConfig) → query_type (dns_record_type dns) ≡ asked_type dns
query_type-asked none = query_type-entry (codes "A")
query_type-asked (some c) = elim (Bool-cases (text_eq c.record_type [])) [
  | inl b ↦ rw b (query_type-entry (codes "A"))
  | inr n ↦ rw n (
      query_type-entry (to_upper c.record_type)
      ∙ ap (λ (t : Text). entry query_types t type_a) (to_upper_twice c.record_type))
]

pub dns_address-asked :
    (dns : Option DnsProbeConfig) → dns_address (dns_server dns) ≡ asked_server dns
unfolding dns_address
dns_address-asked none = refl
dns_address-asked (some c) = elim (Bool-cases (text_eq c.server [])) [
  | inl b ↦ rw b refl
  | inr n ↦ rw n refl
]

pub tcp_network-entry : (v : Text) → tcp_network v ≡ entry tcp_networks v (codes "tcp")
unfolding tcp_network
tcp_network-entry v = refl

pub dns_timeout-setting :
    (dns : Option DnsProbeConfig)
    → dns_timeout dns ≡ setting dns (λ c. c.timeout) is_pos (pos (2 * second))
dns_timeout-setting none = refl
dns_timeout-setting (some c) = refl

pub tcp_timeout-setting :
    (tcp : Option TcpProbeConfig)
    → tcp_timeout tcp ≡ setting tcp (λ c. c.timeout) is_pos (pos (2 * second))
tcp_timeout-setting none = refl
tcp_timeout-setting (some c) = refl

pub tcp_port-setting :
    (tcp : Option TcpProbeConfig) → tcp_port tcp ≡ setting tcp (λ c. c.port) is_pos (pos 80)
tcp_port-setting none = refl
tcp_port-setting (some c) = refl

pub http_timeout-setting :
    (http : Option HttpProbeConfig)
    → http_timeout http ≡ setting http (λ c. c.timeout) is_pos (pos (5 * second))
http_timeout-setting none = refl
http_timeout-setting (some c) = refl

pub http_expected_code-setting :
    (http : Option HttpProbeConfig)
    → http_expected_code http ≡ setting http (λ c. c.expected_code) is_pos (pos 200)
http_expected_code-setting none = refl
http_expected_code-setting (some c) = refl

pub http_url-setting :
    (host : Text) (http : Option HttpProbeConfig)
    → http_url host http ≡ setting http (λ c. c.url) named (codes "http://" ++ host)
http_url-setting host none = refl
http_url-setting host (some c) = ground arith

pub http_method-setting :
    (http : Option HttpProbeConfig)
    → http_method http ≡ to_upper (setting http (λ c. c.method) named (codes "GET"))
unfolding to_upper
http_method-setting none = refl
http_method-setting (some c) = ground arith

-- Whether the configuration says so; a probe without a block does not.
abbrev pub skips_verification : Option HttpProbeConfig → Bool
skips_verification http = setting http (λ c. c.tls_skip_verify) (λ _. true) false

pub http_tls_skip_verify-skips :
    (http : Option HttpProbeConfig) → http_tls_skip_verify http ≡ skips_verification http
http_tls_skip_verify-skips none = refl
http_tls_skip_verify-skips (some c) = refl
