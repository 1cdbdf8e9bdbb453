-- ===== src/Probes/Trace.antt =====
-- internal/probes/mtr.go: the hops of a traceroute, the loop of RealMTRTracer.Trace, the receive
-- loop of pingHop and matchTimeExceeded. Sockets, and the parser of golang.org/x/net/icmp, are
-- outside the model: pingHop is given the messages that arrive, as the parser sees them.
pub mod Matching
pub mod Path
use stabsight.Probes.Address.{peer_ip}
use stabsight.Base.{
  ℕ, zero, suc, ◌+◌, ◌*◌, ◌%◌, ℤ, pos, same_ℤ, Bool, true, false, ◌&&◌, ◌||◌, Option, none, some,
  List, [], ◌∷◌, ◌++◌, Text, codes, text_eq, length, get_elem?, ltb, ◌==◌, ◌>>=◌, if◌then◌else◌,
}

-- MTRHop
pub record MtrHop : Type 0 where
  pub hop : ℤ
  pub ip : Text
  pub rtt : ℤ
  pub success : Bool

-- MTRResult, less its timestamp
pub record MtrResult : Type 0 where
  pub target : Text
  pub hops : List MtrHop
  pub reached_target : Bool

-- `data[i]`, which panics out of range, and binary.BigEndian.Uint16 of two bytes.
unfoldable pub uint16_at : List ℕ → ℕ → Option ℕ
uint16_at bytes i =
    get_elem? bytes i >>= λ hi. get_elem? bytes (i + 1) >>= λ lo. some (hi * 256 + lo)

-- `origSeq == seq && (origID == id || origID == 0)`, on the quoted header at offset i.
unfoldable pub quoted_matches : (id seq : ℕ) → List ℕ → ℕ → Option Bool
quoted_matches id seq bytes i = uint16_at bytes (i + 4) >>= λ orig_id.
    uint16_at bytes (i + 6) >>= λ orig_seq.
    some (orig_seq == seq && (orig_id == id || orig_id == 0))

-- The echo request quoted at offset i, of the ICMP type that is asked for.
unfoldable pub quoted_echo : (echo id seq : ℕ) → List ℕ → ℕ → Option Bool
quoted_echo echo id seq bytes i = get_elem? bytes i >>= λ orig_type.
    if orig_type == echo then quoted_matches id seq bytes i else some false

-- matchTimeExceeded on the quoted data of a TimeExceeded message; `none` is a panic.
unfoldable pub match_time_exceeded : List ℕ → (id seq : ℕ) → (is_ipv6 : Bool) → Option Bool
match_time_exceeded bytes id seq is_ipv6 =
    if length bytes == 0
    then some false
    else if is_ipv6
    then (if ltb (length bytes) 48 then some false else quoted_echo 128 id seq bytes 40)
    else if ltb (length bytes) 28
    then some false
    else (get_elem? bytes 0 >>= λ first.
        let ihl = first % 16 * 4 in
        if ltb (length bytes) (ihl + 8) then some false else quoted_echo 8 id seq bytes ihl)

-- A message that arrived `rtt` after the start, from `peer`, which is the text of its address.
pub data Reply : Type 0 where
  unparsable other_message : Reply
  time_exceeded : (quoted : List ℕ) (peer : Text) (rtt : ℤ) → Reply
  echo_reply : (id seq : ℕ) (peer : Text) (rtt : ℤ) → Reply

abbrev pub reply_hop : ℤ → Text → ℤ → MtrHop
reply_hop ttl peer rtt = record { hop = ttl; ip = peer; rtt = rtt; success = true }

-- What pingHop returns: an error, a panic, or a hop and whether it is the target.
pub data HopResult : Type 0 where
  hop_error hop_panic : HopResult
  hop_found : MtrHop → (reached : Bool) → HopResult

-- The constants of one call of pingHop; `udp` is whether the socket is an unprivileged one.
pub record Echo : Type 0 where
  pub ttl : ℤ
  pub id : ℕ
  pub seq : ℕ
  pub is_ipv6 : Bool
  pub udp : Bool
  pub target_ip : Text

-- `isMatch && peerIP == target.IP.String()`
unfoldable pub is_target_reply : Echo → (id seq : ℕ) → Text → Bool
is_target_reply e i s peer =
    ((i == e.id && s == e.seq) || (e.udp && s == e.seq)) && text_eq peer e.target_ip

-- The receive loop of pingHop; the list ends where the context or the deadline ends the reads.
unfoldable pub ping_hop : Echo → List Reply → HopResult
ping_hop e [] = hop_error
ping_hop e (unparsable ∷ rs) = ping_hop e rs
ping_hop e (other_message ∷ rs) = ping_hop e rs
ping_hop e (time_exceeded quoted peer rtt ∷ rs) =
    elim (match_time_exceeded quoted e.id e.seq e.is_ipv6) [
      | none ↦ hop_panic
      | some true ↦ hop_found (reply_hop e.ttl (peer_ip peer) rtt) false
      | some false ↦ ping_hop e rs
    ]
ping_hop e (echo_reply i s peer rtt ∷ rs) =
    if is_target_reply e i s (peer_ip peer)
    then hop_found (reply_hop e.ttl (peer_ip peer) rtt) true
    else ping_hop e rs

abbrev pub lost_hop : ℤ → MtrHop
lost_hop ttl = record { hop = ttl; ip = codes "*"; rtt = pos 0; success = false }

-- The result of Trace and whether its error is nil; `none` is a panic.
abbrev pub TraceResult : Type 0
TraceResult = Option (MtrResult × Bool)

abbrev pub add_hop : MtrHop → MtrResult → MtrResult
add_hop h r = record r { hops = r.hops ++ h ∷ [] }

-- The loop of Trace from `ttl` on, with `left` values of ttl to go. `done` is whether the context is
-- done before that ttl, `ping` what pingHop returns for it.
unfoldable pub trace_loop :
    (done : ℕ → Bool) (ping : ℕ → HopResult) → (left ttl : ℕ) → MtrResult → TraceResult
trace_loop done ping zero ttl r = some (r, true)
trace_loop done ping (suc left) ttl r =
    let lost = trace_loop done ping left (suc ttl) (add_hop (lost_hop (pos ttl)) r) in
    if done ttl then some (r, false) else elim (ping ttl) [
      | hop_error ↦ lost
      | hop_panic ↦ none
      | hop_found h true ↦ some (record (add_hop h r) { reached_target = true }, true)
      | hop_found h false ↦ trace_loop done ping left (suc ttl) (add_hop h r)
    ]

-- Trace, once the host is resolved. Its `make` panics for a negative capacity and for one above
-- `limit`, which is the most that a slice of hops can hold.
unfoldable pub trace : (limit : ℕ) (done : ℕ → Bool) (ping : ℕ → HopResult) → Text → ℤ → TraceResult
trace limit done ping host (pos max_hops) =
    if ltb limit max_hops
    then none
    else trace_loop done ping max_hops 1
        (record { target = host; hops = []; reached_target = false })
trace limit done ping host _ = none
