-- ===== src/Probes/Socket.antt =====
-- How Ping (icmp.go) and pingHop (mtr.go) open their sockets and send their request. The network is
-- outside the model: it is given what each of the calls returns.
pub mod Attempts
mod Tests
use stabsight.Base.{
  ℕ, suc, ℤ, Bool, true, false, not, Option, none, some, List, [], ◌∷◌, Text, codes, text_eq,
  has_prefix, if◌then◌else◌,
}
use stabsight.Probes.Icmp
use stabsight.Probes.Icmp.{ping_replies}
use stabsight.Probes.Trace
use stabsight.Probes.Trace.{Echo, HopResult, hop_error, ping_hop}

-- What the calls of net and golang.org/x/net/icmp return: whether the resolved address, if there is
-- one, is an IPv6 address; the network of the local address of the socket that ListenPacket opens;
-- whether Marshal, SetDeadline and WriteTo succeed, the last by whether it goes to a UDP address.
pub record Network : Type 0 where
  pub resolve : (network host : Text) → Option Bool
  pub listen : (network address : Text) → Option Text
  pub marshal_ok : Bool
  pub deadline_ok : Bool
  pub write_ok : (to_udp : Bool) → Bool

-- A socket: the network of its local address, and whether the raw one could not be opened.
pub record Socket : Type 0 where
  pub local_network : Text
  pub fell_back : Bool

abbrev pub fallback : Option Text → Option Socket
fallback none = none
fallback (some l) = some (record { local_network = l; fell_back = true })

abbrev pub raw_or : Option Text → Option Text → Option Socket
raw_or (some l) udp = some (record { local_network = l; fell_back = false })
raw_or none udp = fallback udp

-- A raw socket of the family, or else an unprivileged UDP one.
unfoldable pub open_socket : Network → (is_ipv6 : Bool) → Option Socket
open_socket w true =
    raw_or (w.listen (codes "ip6:ipv6-icmp") (codes "::")) (w.listen (codes "udp6") (codes "::"))
open_socket w false =
    raw_or (w.listen (codes "ip4:icmp") (codes "0.0.0.0"))
      (w.listen (codes "udp4") (codes "0.0.0.0"))

-- `strings.HasPrefix(conn.LocalAddr().Network(), "udp")`
unfoldable pub is_udp : Socket → Bool
is_udp c = has_prefix c.local_network (codes "udp")

-- The network of ResolveIPAddr.
unfoldable pub ip_network : Text → Text
ip_network v =
    if text_eq v (codes "ipv4")
    then codes "ip4"
    else if text_eq v (codes "ipv6")
    then codes "ip6"
    else codes "ip"

pub data PingError : Type 0 where
  resolve_failed open_failed marshal_failed deadline_failed send_failed no_reply : PingError

pub data PingResult : Type 0 where
  replied : (rtt : ℤ) → PingResult
  ping_failed : PingError → PingResult

abbrev pub reply_or_error : Option ℤ → PingResult
reply_or_error none = ping_failed no_reply
reply_or_error (some rtt) = replied rtt

-- Ping, once the socket is open.
abbrev pub send_ping : Network → (id seq : ℤ) → List Icmp.Reply → Option Socket → PingResult
send_ping w id seq replies none = ping_failed open_failed
send_ping w id seq replies (some c) =
    if not w.marshal_ok
    then ping_failed marshal_failed
    else if not w.deadline_ok
    then ping_failed deadline_failed
    else if not (w.write_ok (is_udp c))
    then ping_failed send_failed
    else reply_or_error (ping_replies id seq replies)

abbrev pub ping_resolved : Network → (id seq : ℤ) → List Icmp.Reply → Option Bool → PingResult
ping_resolved w id seq replies none = ping_failed resolve_failed
ping_resolved w id seq replies (some is_ipv6) = send_ping w id seq replies (open_socket w is_ipv6)

-- RealPinger.Ping, for the random id and sequence number
unfoldable pub ping :
    Network → (host ip_version : Text) → (id seq : ℤ) → List Icmp.Reply → PingResult
unfolding open_socket is_udp ip_network
ping w host ip_version id seq replies =
    ping_resolved w id seq replies (w.resolve (ip_network ip_version) host)

-- warnRawSocketOnce: whether it has run, and how many warnings were logged.
pub record WarnOnce : Type 0 where
  pub done : Bool
  pub warnings : ℕ

-- logRawSocketWarning
unfoldable pub log_raw_socket_warning : WarnOnce → WarnOnce
log_raw_socket_warning w = if w.done then w else record { done = true; warnings = suc w.warnings }

-- The constants of a hop, and whether its socket is a UDP one.
abbrev pub echo_over : Socket → Echo → Echo
echo_over c e = record e { udp = is_udp c }

abbrev pub send_hop : Network → Echo → List Trace.Reply → Option Socket → HopResult
send_hop w e replies none = hop_error
send_hop w e replies (some c) =
    if not w.marshal_ok
    then hop_error
    else if not (w.write_ok (is_udp c))
    then hop_error
    else ping_hop (echo_over c e) replies

-- The error of the raw socket is logged before the other is tried.
abbrev pub warn_unless : Option Text → WarnOnce → WarnOnce
warn_unless none o = log_raw_socket_warning o
warn_unless (some _) o = o

abbrev pub raw_listen : Network → Bool → Option Text
raw_listen w true = w.listen (codes "ip6:ipv6-icmp") (codes "::")
raw_listen w false = w.listen (codes "ip4:icmp") (codes "0.0.0.0")

-- pingHop of the hop that `e` describes; the deadline's error is dropped.
unfoldable pub attempt_hop : Network → Echo → List Trace.Reply → WarnOnce → HopResult × WarnOnce
unfolding open_socket is_udp
attempt_hop w e replies o =
    (send_hop w e replies (open_socket w e.is_ipv6), warn_unless (raw_listen w e.is_ipv6) o)
