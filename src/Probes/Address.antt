-- ===== src/Probes/Address.antt =====
-- The addresses that the probes build and take apart: dns.go (Resolve), tcp.go (executeCheck) and
-- mtr.go (pingHop).
use stabsight.Base.{
  ℕ, ℤ, pos, ◌≡◌, ◌≢◌, refl, inl, inr, false, Option, none, some, Text, codes, itoa, contains,
  count, contains-itoa, join_host_port, split_host_port, IsPlain, split_host_port-join_host_port,
  split_host_port-none, if◌then◌else◌, arith, Bool-cases,
}

-- The server that Resolve asks.
unfoldable pub dns_address : Text → Text
dns_address server = if contains b':' server then server else join_host_port server (codes "53")

-- The address that executeCheck of a TCP probe dials.
unfoldable pub tcp_address : Text → ℤ → Text
tcp_address host port = join_host_port host (itoa port)

abbrev host_or : Text → Option (Text × Text) → Text
host_or peer none = peer
host_or peer (some (host, port)) = host

-- The IP of the peer, whose text has a port if the socket is a UDP one.
unfoldable pub peer_ip : Text → Text
peer_ip peer = host_or peer (split_host_port peer)

-- No brackets, and not exactly one colon, as in the text of every IP address and host name.
pub record IsAddress (host : Text) : Type 0 where
  pub no_open : contains b'[' host ≡ false
  pub no_close : contains b']' host ≡ false
  pub colons : count b':' host ≢ 1

IsPlain-itoa : (host : Text) (port : ℕ) → IsAddress host → IsPlain host (itoa (pos port))
IsPlain-itoa host port a = record {
  no_open = a.no_open;
  no_close = a.no_close;
  port_no_open = contains-itoa b'[' port (omega arith);
  port_no_close = contains-itoa b']' port (omega arith);
  port_no_colon = contains-itoa b':' port (omega arith);
}

-- A TCP probe dials its host and its port, also if the host is an IPv6 address. A DNS server without
-- a port gets the port 53 only if it has no colon: an IPv6 address is left without a port, and is no
-- address to dial.
pub dialled_addresses :
    (host : Text) (port : ℕ)
    → IsAddress host
    → (split_host_port (tcp_address host (pos port)) ≡ some (host, itoa (pos port)))
      × (split_host_port (dns_address host)
          ≡ (if contains b':' host then none else some (host, codes "53")))
unfolding tcp_address dns_address
dialled_addresses host port a =
    (split_host_port-join_host_port host (itoa (pos port)) (IsPlain-itoa host port a), dns)
  where
    dns :
        split_host_port (if contains b':' host then host else join_host_port host (codes "53"))
        ≡ (if contains b':' host then none else some (host, codes "53"))
    dns = elim (Bool-cases (contains b':' host)) [
      | inl h ↦ rw h (split_host_port-none host a.no_open a.colons)
      | inr h ↦ rw h (
          split_host_port-join_host_port host (codes "53") (record {
            no_open = a.no_open;
            no_close = a.no_close;
            port_no_open = refl;
            port_no_close = refl;
            port_no_colon = refl;
          }))
    ]
