-- ===== src/Probes/Trace/Matching.antt =====
-- matchTimeExceeded reads no byte out of range and finds the quoted echo; what pingHop accepts.
use stabsight.Base.{
  ℕ, zero, suc, ◌+◌, ◌*◌, ◌/◌, ◌%◌, ◌≤◌, ◌<◌, ◌≡◌, ◌≢◌, refl, ap, ◌∙◌, Bool, true, false, ◌&&◌,
  ◌||◌, Option, none, some, List, [], ◌∷◌, ◌++◌, length, get_elem?, ltb, ◌==◌, ◌>>=◌, length-append,
  arith, if◌then◌else◌,
}
use stabsight.Probes.Trace.{
  MtrHop, hop_panic, hop_found, Echo, Reply, unparsable, other_message, time_exceeded, echo_reply,
  uint16_at, quoted_matches, quoted_echo, match_time_exceeded, ping_hop,
}

-- The read does not panic.
abbrev pub Defined {ℓ} : {A : Type ℓ} → Option A → Type ℓ
Defined {A} o = (a : A) × (o ≡ some a)

Defined-if {ℓ} :
    {A : Type ℓ} (b : Bool) (x y : Option A)
    → (b ≡ true → Defined x)
    → (b ≡ false → Defined y)
    → Defined (if b then x else y)
Defined-if true x y p q = p refl
Defined-if false x y p q = q refl

Defined-bind {ℓ κ} :
    {A : Type ℓ} {B : Type κ} (m : Option A) (f : A → Option B)
    → Defined m
    → ((a : A) → m ≡ some a → Defined (f a))
    → Defined (m >>= f)
Defined-bind none f (a, e) g = absurd (ground arith)
Defined-bind (some a) f d g = g a refl

-- An index in range is read.
get_elem?-Defined : (bytes : List ℕ) (i : ℕ) → i < length bytes → Defined (get_elem? bytes i)
get_elem?-Defined [] i h = absurd (omega arith)
get_elem?-Defined (b ∷ bytes) zero h = (b, refl)
get_elem?-Defined (b ∷ bytes) (suc i) h = get_elem?-Defined bytes i (omega arith)

uint16_at-Defined : (bytes : List ℕ) (i : ℕ) → i + 1 < length bytes → Defined (uint16_at bytes i)
unfolding uint16_at
uint16_at-Defined bytes i h =
    Defined-bind (get_elem? bytes i) _ (get_elem?-Defined bytes i (omega arith)) (λ hi e.
      Defined-bind (get_elem? bytes (i + 1)) _ (get_elem?-Defined bytes (i + 1) h)
        (λ lo e'. (hi * 256 + lo, refl)))

quoted_echo-Defined :
    (echo id seq : ℕ) (bytes : List ℕ) (i : ℕ)
    → i + 8 ≤ length bytes
    → Defined (quoted_echo echo id seq bytes i)
unfolding quoted_echo quoted_matches
quoted_echo-Defined echo id seq bytes i h =
    Defined-bind (get_elem? bytes i) _ (get_elem?-Defined bytes i (omega arith)) (λ t e.
      Defined-if (t == echo) _ _
        (λ same.
          Defined-bind (uint16_at bytes (i + 4)) _ (uint16_at-Defined bytes (i + 4) (omega arith))
            (λ orig_id e'.
              Defined-bind (uint16_at bytes (i + 6)) _
                (uint16_at-Defined bytes (i + 6) (omega arith)) (λ orig_seq e''. (_, refl))))
        (λ other. (false, refl)))

-- matchTimeExceeded never indexes its data out of range, whatever the bytes and their length.
pub match_time_exceeded-Defined :
    (bytes : List ℕ) (id seq : ℕ) (is_ipv6 : Bool)
    → (b : Bool) × (match_time_exceeded bytes id seq is_ipv6 ≡ some b)
unfolding match_time_exceeded
match_time_exceeded-Defined bytes id seq is_ipv6 =
    Defined-if (length bytes == 0) _ _ (λ e. (false, refl))
      (λ e.
        Defined-if is_ipv6 _ _
          (λ v6.
            Defined-if (ltb (length bytes) 48) _ _ (λ l. (false, refl))
              (λ l. quoted_echo-Defined 128 id seq bytes 40 (ground arith)))
          (λ v4.
            Defined-if (ltb (length bytes) 28) _ _ (λ l. (false, refl))
              (λ l.
                Defined-bind (get_elem? bytes 0) _ (get_elem?-Defined bytes 0 (ground arith))
                  (λ first f.
                    Defined-if (ltb (length bytes) (first % 16 * 4 + 8)) _ _ (λ k. (false, refl))
                      (λ k. quoted_echo-Defined 8 id seq bytes (first % 16 * 4) (ground arith))))))

-- A read behind a prefix.
get_elem?-append :
    (xs ys : List ℕ) (j k : ℕ) → k ≡ length xs + j → get_elem? (xs ++ ys) k ≡ get_elem? ys j
get_elem?-append [] ys j k e = ap (get_elem? ys) (omega (arith, e))
get_elem?-append (x ∷ xs) ys j zero e = absurd (omega (arith, e))
get_elem?-append (x ∷ xs) ys j (suc k) e = get_elem?-append xs ys j k (omega (arith, e))

uint16_at-eq :
    (bytes : List ℕ) (k v : ℕ)
    → get_elem? bytes k ≡ some (v / 256)
    → get_elem? bytes (k + 1) ≡ some (v % 256)
    → uint16_at bytes k ≡ some v
unfolding uint16_at
uint16_at-eq bytes k v p q = rw (p, q) (ap some (omega arith))

quoted_echo-eq :
    (echo id seq i s : ℕ) (bytes : List ℕ) (n : ℕ)
    → get_elem? bytes n ≡ some echo
    → uint16_at bytes (n + 4) ≡ some i
    → uint16_at bytes (n + 6) ≡ some s
    → quoted_echo echo id seq bytes n ≡ some (s == seq && (i == id || i == 0))
unfolding quoted_echo quoted_matches
quoted_echo-eq echo id seq i s bytes n p q r = ground arith

match_ipv4-eq :
    (bytes : List ℕ) (first id seq n : ℕ)
    → get_elem? bytes 0 ≡ some first
    → first % 16 * 4 ≡ n
    → 20 ≤ n
    → n + 8 ≤ length bytes
    → match_time_exceeded bytes id seq false ≡ quoted_echo 8 id seq bytes n
unfolding match_time_exceeded
match_ipv4-eq bytes first id seq n p f h l = ground arith

match_ipv6-eq :
    (bytes : List ℕ) (id seq : ℕ)
    → 48 ≤ length bytes
    → match_time_exceeded bytes id seq true ≡ quoted_echo 128 id seq bytes 40
unfolding match_time_exceeded
match_ipv6-eq bytes id seq l = ground arith

-- The first eight bytes of an ICMP echo: type, code, the two bytes of the checksum, identifier,
-- sequence number.
abbrev pub echo_header : (echo code high low id seq : ℕ) → List ℕ
echo_header echo code high low i s =
    echo ∷ code ∷ high ∷ low ∷ (i / 256) ∷ (i % 256) ∷ (s / 256) ∷ (s % 256) ∷ []

-- The echo quoted behind any header, read at the end of the header.
quoted_echo-header :
    (echo code high low : ℕ) (header rest : List ℕ) (i s id seq n : ℕ)
    → length header ≡ n
    → quoted_echo echo id seq (header ++ (echo_header echo code high low i s ++ rest)) n
      ≡ some (s == seq && (i == id || i == 0))
quoted_echo-header echo code high low header rest i s id seq n l =
    quoted_echo-eq echo id seq i s bytes n (at 0 n (omega arith))
      (uint16_at-eq bytes (n + 4) i (at 4 (n + 4) (omega arith)) (at 5 (n + 4 + 1) (omega arith)))
      (uint16_at-eq bytes (n + 6) s (at 6 (n + 6) (omega arith)) (at 7 (n + 6 + 1) (omega arith)))
  where
    bytes : List ℕ
    bytes = header ++ (echo_header echo code high low i s ++ rest)

    at :
        (j k : ℕ)
        → k ≡ length header + j
        → get_elem? bytes k ≡ get_elem? (echo_header echo code high low i s ++ rest) j
    at j k e = get_elem?-append header (echo_header echo code high low i s ++ rest) j k e

length-quoted :
    (echo code high low : ℕ) (header rest : List ℕ) (i s : ℕ)
    → length header + 8 ≤ length (header ++ (echo_header echo code high low i s ++ rest))
length-quoted echo code high low header rest i s =
    omega (arith, length-append {0} header (echo_header echo code high low i s ++ rest))

-- A router quotes the IP header and the first eight bytes of the packet that it dropped. For an
-- IPv4 header of at least five words, whose first byte holds their number in its low half, and an
-- echo request with identifier i and sequence number s, the match is decided by these two numbers,
-- whatever the code and the checksum of the request, the other bytes of the header and what follows.
pub match_time_exceeded-ipv4 :
    (first : ℕ) (header rest : List ℕ) (code high low i s id seq : ℕ)
    → 5 ≤ first % 16
    → length (first ∷ header) ≡ first % 16 * 4
    → match_time_exceeded
        ((first ∷ header) ++ (echo_header 8 code high low i s ++ rest))
        id
        seq
        false
      ≡ some (s == seq && (i == id || i == 0))
match_time_exceeded-ipv4 first header rest code high low i s id seq h l =
    match_ipv4-eq ((first ∷ header) ++ (echo_header 8 code high low i s ++ rest)) first id seq
      (first % 16 * 4) refl refl (omega arith)
      (omega (arith, length-quoted 8 code high low (first ∷ header) rest i s))
    ∙ quoted_echo-header 8 code high low (first ∷ header) rest i s id seq (first % 16 * 4) l

-- For an IPv6 packet that a router quotes, a header of 40 bytes and an ICMPv6 echo request with
-- identifier i and sequence number s, the match is decided by these two numbers, whatever the code and
-- the checksum of the request, the bytes of the header and what follows.
pub match_time_exceeded-ipv6 :
    (header rest : List ℕ) (code high low i s id seq : ℕ)
    → length header ≡ 40
    → match_time_exceeded (header ++ (echo_header 128 code high low i s ++ rest)) id seq true
      ≡ some (s == seq && (i == id || i == 0))
match_time_exceeded-ipv6 header rest code high low i s id seq l =
    match_ipv6-eq (header ++ (echo_header 128 code high low i s ++ rest)) id seq
      (omega (arith, length-quoted 128 code high low header rest i s))
    ∙ quoted_echo-header 128 code high low header rest i s id seq 40 l

pub ping_hop-ttl :
    (e : Echo) (rs : List Reply) (h : MtrHop) (b : Bool)
    → ping_hop e rs ≡ hop_found h b
    → h.hop ≡ e.ttl
unfolding ping_hop
ping_hop-ttl e [] h b q = cc
ping_hop-ttl e (unparsable ∷ rs) h b q = ping_hop-ttl e rs h b q
ping_hop-ttl e (other_message ∷ rs) h b q = ping_hop-ttl e rs h b q
ping_hop-ttl e (time_exceeded bytes peer rtt ∷ rs) h b q = ground (arith, ping_hop-ttl e rs h b)
ping_hop-ttl e (echo_reply i s peer rtt ∷ rs) h b q = ground (arith, ping_hop-ttl e rs h b)

pub ping_hop-ne-panic : (e : Echo) (rs : List Reply) → ping_hop e rs ≢ hop_panic
unfolding ping_hop
ping_hop-ne-panic e [] q = cc
ping_hop-ne-panic e (unparsable ∷ rs) q = ping_hop-ne-panic e rs q
ping_hop-ne-panic e (other_message ∷ rs) q = ping_hop-ne-panic e rs q
ping_hop-ne-panic e (time_exceeded bytes peer rtt ∷ rs) q =
    let (b, m) = match_time_exceeded-Defined bytes e.id e.seq e.is_ipv6 in
    ground (arith, ping_hop-ne-panic e rs, m)
ping_hop-ne-panic e (echo_reply i s peer rtt ∷ rs) q = ground (arith, ping_hop-ne-panic e rs)
