-- ===== src/Probes/Socket/Attempts.antt =====
-- When a ping succeeds, and what the hops of a traceroute log.
use stabsight.Base.{
  ℕ, ◌≡◌, ◌≢◌, ◌↔◌, text_eq, text_eq→eq, text_eq_iff, codes, has_prefix, Bool-cases, ◌⊎◌, refl, sym,
  ap, ◌∙◌, inl, inr, ℤ, Bool, true, false, Option, none, some, List, [], ◌∷◌, Text, arith,
  Option-cases,
}
use stabsight.Probes.Icmp
use stabsight.Probes.Icmp.{ping_replies}
use stabsight.Probes.Replies.{FirstAccepted, ping_replies_iff}
use stabsight.Probes.Trace
use stabsight.Probes.Trace.{Echo, HopResult}
use stabsight.Probes.Socket.{
  Network, Socket, raw_or, open_socket, is_udp, ip_network, ping, replied, send_ping, WarnOnce,
  log_raw_socket_warning, attempt_hop, raw_listen, warn_unless,
}

-- The network of the addresses that a probe of this IP version asks for.
abbrev pub Family : (ip_version network : Text) → Type 0
Family v n =
    ((v ≡ codes "ipv4") × (n ≡ codes "ip4"))
    ⊎ (((v ≡ codes "ipv6") × (n ≡ codes "ip6"))
        ⊎ ((v ≢ codes "ipv4") × (v ≢ codes "ipv6") × (n ≡ codes "ip")))

-- The socket is the raw one, or the other one if the raw one could not be opened.
abbrev pub Listens : (raw udp : Option Text) → Socket → Type 0
Listens raw udp c =
    ((raw ≡ some c.local_network) × (c.fell_back ≡ false))
    ⊎ ((raw ≡ none) × (udp ≡ some c.local_network) × (c.fell_back ≡ true))

-- The socket for the family of the address.
abbrev pub Opened : Network → (is_ipv6 : Bool) → Socket → Type 0
Opened w v c =
    ((v ≡ true)
      × Listens (w.listen (codes "ip6:ipv6-icmp") (codes "::"))
          (w.listen (codes "udp6") (codes "::")) c)
    ⊎ ((v ≡ false)
        × Listens (w.listen (codes "ip4:icmp") (codes "0.0.0.0"))
            (w.listen (codes "udp4") (codes "0.0.0.0")) c)

-- The host resolves in the family that is asked for, a socket of the family of its address opens,
-- the request is made and sent, to a UDP address if the local address of the socket is one, and
-- `rtt` is the round trip of the first reply that is accepted.
pub record Answered (w : Network) (host ip_version : Text) (id seq : ℤ) (replies : List Icmp.Reply)
    (rtt : ℤ) : Type 0 where
  pub network : Text
  pub is_ipv6 : Bool
  pub socket : Socket
  pub family : Family ip_version network
  pub resolved : w.resolve network host ≡ some is_ipv6
  pub opened : Opened w is_ipv6 socket
  pub made : w.marshal_ok ≡ true
  pub bounded : w.deadline_ok ≡ true
  pub sent : w.write_ok (has_prefix socket.local_network (codes "udp")) ≡ true
  pub answered : FirstAccepted id seq replies rtt

raw_or_iff : (raw udp : Option Text) (c : Socket) → (raw_or raw udp ≡ some c) ↔ Listens raw udp c
raw_or_iff (some l) udp c =
    (λ e. inl (cc, cc), λ o. elim o [ inl (r, f) ↦ cc | inr (r, u, f) ↦ cc ])
raw_or_iff none none c = (λ e. cc, λ o. elim o [ inl (r, f) ↦ cc | inr (r, u, f) ↦ cc ])
raw_or_iff none (some l) c =
    (λ e. inr (refl, cc, cc), λ o. elim o [ inl (r, f) ↦ cc | inr (r, u, f) ↦ cc ])

open_socket_iff : (w : Network) (v : Bool) (c : Socket) → (open_socket w v ≡ some c) ↔ Opened w v c
unfolding open_socket
open_socket_iff w true c =
    let i =
      raw_or_iff (w.listen (codes "ip6:ipv6-icmp") (codes "::"))
        (w.listen (codes "udp6") (codes "::")) c in
    (λ e. inl (refl, i.0 e), λ o. elim o [ inl (_, l) ↦ i.1 l | inr (f, l) ↦ cc ])
open_socket_iff w false c =
    let i =
      raw_or_iff (w.listen (codes "ip4:icmp") (codes "0.0.0.0"))
        (w.listen (codes "udp4") (codes "0.0.0.0")) c in
    (λ e. inr (refl, i.0 e), λ o. elim o [ inl (f, l) ↦ cc | inr (_, l) ↦ i.1 l ])

differs : (s t : Text) → text_eq s t ≡ false → s ≢ t
differs s t n e = cc (n, (text_eq_iff s t).1 e)

differs_eq : (s t : Text) → s ≢ t → text_eq s t ≡ false
differs_eq s t n = elim (Bool-cases (text_eq s t)) [
  | inl y ↦ absurd (n (text_eq→eq s t y))
  | inr y ↦ y
]

ip_network-Family : (v : Text) → Family v (ip_network v)
unfolding ip_network
ip_network-Family v = elim (Bool-cases (text_eq v (codes "ipv4"))) [
  | inl y ↦ inl (text_eq→eq v (codes "ipv4") y, rw y refl)
  | inr n ↦ elim (Bool-cases (text_eq v (codes "ipv6"))) [
    | inl y ↦ inr (inl (text_eq→eq v (codes "ipv6") y, rw (n, y) refl))
    | inr m ↦ inr (inr (differs v (codes "ipv4") n, differs v (codes "ipv6") m, rw (n, m) refl))
  ]
]

Family-ip_network : (v n : Text) → Family v n → n ≡ ip_network v
unfolding ip_network text_eq
Family-ip_network v n (inl (e, f)) = rw (e, f) refl
Family-ip_network v n (inr (inl (e, f))) = rw (e, f) refl
Family-ip_network v n (inr (inr (a, b, f))) =
    rw (differs_eq v (codes "ipv4") a, differs_eq v (codes "ipv6") b, f) refl

module _ (w : Network) (host ip_version : Text) (id seq : ℤ) (replies : List Icmp.Reply)
    (rtt : ℤ) where
  ping→Answered :
      ping w host ip_version id seq replies ≡ replied rtt
      → Answered w host ip_version id seq replies rtt
  unfolding ping is_udp
  ping→Answered e = elim (Option-cases (w.resolve (ip_network ip_version) host)) [
    | inl n ↦ absurd (ground arith)
    | inr (v, r) ↦ elim (Option-cases (open_socket w v)) [
      | inl n ↦ absurd (ground arith)
      | inr (c, o) ↦
          let s : send_ping w id seq replies (some c) ≡ replied rtt = ground arith in
          record {
            network = ip_network ip_version;
            is_ipv6 = v;
            socket = c;
            family = ip_network-Family ip_version;
            resolved = r;
            opened = (open_socket_iff w v c).0 o;
            made = ground arith;
            bounded = ground arith;
            sent = ground arith;
            answered = (ping_replies_iff id seq replies rtt).0 (ground arith);
          }
    ]
  ]

  Answered→ping :
      Answered w host ip_version id seq replies rtt
      → ping w host ip_version id seq replies ≡ replied rtt
  unfolding ping is_udp
  Answered→ping a =
      rw
        (
          sym (Family-ip_network ip_version a.network a.family),
          a.resolved,
          (open_socket_iff w a.is_ipv6 a.socket).1 a.opened,
        )
        (rw (a.made, a.bounded, a.sent, (ping_replies_iff id seq replies rtt).1 a.answered))

  -- Ping returns a round trip exactly if the host resolves to an address, an IPv4 or IPv6 one if the
  -- probe asks for it, a raw or else a UDP socket of the family of that address opens, the request is
  -- made, its deadline set and the request sent, and the round trip is that of the first reply that
  -- matches in its identifier or its sequence number.
  pub ping_iff :
      (ping w host ip_version id seq replies ≡ replied rtt)
      ↔ Answered w host ip_version id seq replies rtt
  ping_iff = (ping→Answered, Answered→ping)

abbrev pub fresh : WarnOnce
fresh = record { done = false; warnings = 0 }

-- The hops that are tried one after the other, in any traceroutes of the process.
unfoldable pub attempt_hops : List (Network × Echo × List Trace.Reply) → WarnOnce → WarnOnce
unfolding attempt_hop
attempt_hops [] o = o
attempt_hops ((w, e, replies) ∷ rest) o = attempt_hops rest (attempt_hop w e replies o).1

-- Some hop could not open its raw socket.
abbrev pub SomeFellBack : List (Network × Echo × List Trace.Reply) → Type 0
SomeFellBack [] = ⊥
SomeFellBack ((w, e, replies) ∷ rest) = (raw_listen w e.is_ipv6 ≡ none) ⊎ SomeFellBack rest

attempt_hops-done :
    (hops : List (Network × Echo × List Trace.Reply)) (n : ℕ)
    → attempt_hops hops (record { done = true; warnings = n })
      ≡ record { done = true; warnings = n }
unfolding attempt_hops log_raw_socket_warning
attempt_hops-done [] n = refl
attempt_hops-done ((w, e, replies) ∷ rest) n = elim (Option-cases (raw_listen w e.is_ipv6)) [
  | inl r ↦ rw r (attempt_hops-done rest n)
  | inr (l, r) ↦ rw r (attempt_hops-done rest n)
]

-- The warning about missing raw sockets is logged once if a hop could not open one, however many
-- hops could not, and never otherwise.
attempt_hops-warnings :
    (hops : List (Network × Echo × List Trace.Reply))
    → let n = (attempt_hops hops fresh).warnings in
      ((n ≡ 1) × SomeFellBack hops) ⊎ ((n ≡ 0) × (SomeFellBack hops → ⊥))
unfolding attempt_hops log_raw_socket_warning
attempt_hops-warnings [] = inr (refl, λ x. x)
attempt_hops-warnings ((w, e, replies) ∷ rest) = elim (Option-cases (raw_listen w e.is_ipv6)) [
  | inl r ↦ inl (
    ap (λ (l : Option Text). (attempt_hops rest (warn_unless l fresh)).warnings) r
        ∙ ap (λ (o : WarnOnce). o.warnings) (attempt_hops-done rest 1),
    inl r,
  )
  | inr (l, r) ↦
      let same : (attempt_hops ((w, e, replies) ∷ rest) fresh).warnings
          ≡ (attempt_hops rest fresh).warnings =
        ap (λ (l : Option Text). (attempt_hops rest (warn_unless l fresh)).warnings) r in
      elim (attempt_hops-warnings rest) [
        | inl (n, f) ↦ inl (same ∙ n, inr f)
        | inr (n, f) ↦
            inr
              (same ∙ n, λ x. elim x [ inl y ↦ absurd (some-ne-none l (sym r ∙ y)) | inr y ↦ f y ])
      ]
]
  where
    some-ne-none : (l : Text) → some l ≡ none → ⊥
    some-ne-none l h = cc
