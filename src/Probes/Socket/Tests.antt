-- ===== src/Probes/Socket/Tests.antt =====
-- Pings, hops and addresses on a host without privileges.
use stabsight.Base.{
  ◌≡◌, ◌↔◌, refl, pos, ◌*◌, millisecond, true, false, Option, none, some, List, [], ◌∷◌, Text,
  codes, text_eq, itoa, split_host_port, if◌then◌else◌, arith,
}
use stabsight.Probes.Icmp
use stabsight.Probes.Address.{IsAddress, dns_address, tcp_address, dialled_addresses}
use stabsight.Probes.Socket.{Network, ping, replied}
use stabsight.Probes.Socket.Attempts.{Answered, ping_iff}

-- The sockets that a host without privileges may open.
abbrev udp_only : Text → Text → Option Text
udp_only network address =
    if text_eq network (codes "udp4")
    then some (codes "udp4")
    else if text_eq network (codes "udp6")
    then some (codes "udp6")
    else none

abbrev unprivileged : Network
unprivileged = record {
  resolve = λ network host. some false;
  listen = udp_only;
  marshal_ok = true;
  deadline_ok = true;
  write_ok = λ to_udp. to_udp;
}

abbrev replies : List Icmp.Reply
replies =
    Icmp.unparsable
    ∷ Icmp.echo_reply (pos 7) (pos 8) (pos (3 * millisecond))
    ∷ Icmp.echo_reply (pos 40) (pos 9) (pos (5 * millisecond))
    ∷ []

ping_iff_example :
    (ping unprivileged (codes "example.org") [] (pos 41) (pos 9) replies
      ≡ replied (pos (5 * millisecond)))
    ↔ Answered unprivileged
        (codes "example.org")
        []
        (pos 41)
        (pos 9)
        replies
        (pos (5 * millisecond))
ping_iff_example =
    ping_iff unprivileged (codes "example.org") [] (pos 41) (pos 9) replies (pos (5 * millisecond))

abbrev resolver : Text
resolver = codes "2001:db8::53"

resolver-IsAddress : IsAddress resolver
resolver-IsAddress = record { no_open = refl; no_close = refl; colons = λ e. omega (arith, e) }

dialled_addresses_example :
    (split_host_port (tcp_address resolver (pos 853)) ≡ some (resolver, codes "853"))
    × (split_host_port (dns_address resolver) ≡ none)
unfolding itoa
dialled_addresses_example = dialled_addresses resolver 853 resolver-IsAddress
