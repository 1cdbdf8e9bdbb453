-- ===== src/Config/WellFormed.antt =====
-- A description of the configurations that Validate accepts, apart from its code.
use stabsight.Base.{
  ℕ, suc, ◌≤◌, ◌≡◌, ◌≢◌, ◌↔◌, ◌⊎◌, refl, inl, inr, ℤ, pos, negsuc, ltb_ℤ, leb_ℤ, ◌<ℤ◌, Bool, true,
  false, not, ◌||◌, Option, none, some, List, [], ◌∷◌, Text, codes, text_eq, text_eq_iff, one_of,
  to_lower, trim_space, Float64, All, arith, Bool-cases,
}
use stabsight.Config.Types.{TcpProbeConfig, ProbesConfig, Target, Config}
use stabsight.Config.Validate.{
  Kind, icmp, dns, http, tcp, mtr, speedtest, ConfigError, ◌orelse◌, fail_if, check_times,
  validate_icmp, validate_dns, validate_http, validate_tcp, validate_mtr, validate_speedtest,
  validate_probes, known_ip_version, is_blank, validate_targets, known_log_level, known_log_format,
  known_histogram_mode, validate_buckets, validate,
}

-- The text is one of the words.
abbrev pub OneOf : Text → List Text → Type 0
OneOf s [] = ⊥
OneOf s (w ∷ ws) = (s ≡ w) ⊎ OneOf s ws

abbrev pub Timed : ℤ → ℤ → Type 0
Timed interval timeout = (pos 0 <ℤ interval) × (pos 0 <ℤ timeout)

abbrev pub WhenSome {ℓ} : {A : Type ℓ} → (A → Type 0) → Option A → Type 0
WhenSome P none = Unit
WhenSome P (some a) = P a

-- Every configured probe has a positive interval and timeout, and a TCP probe a port of 1 to 65535.
abbrev pub ValidProbes : ProbesConfig → Type 0
ValidProbes p =
    WhenSome (λ c. Timed c.interval c.timeout) p.icmp
    × (WhenSome (λ c. Timed c.interval c.timeout) p.dns
        × (WhenSome (λ c. Timed c.interval c.timeout) p.http
            × (WhenSome
                  (λ c.
                    Timed c.interval c.timeout
                    × ((n : ℕ) × (c.port ≡ pos n) × (1 ≤ n) × (n ≤ 65535)))
                  p.tcp
                × (WhenSome (λ c. Timed c.interval c.timeout) p.mtr
                    × WhenSome (λ c. Timed c.interval c.timeout) p.speedtest))))

-- A name and a host that are not blank, a known IP version, and valid probes.
abbrev pub ValidTarget : Target → Type 0
ValidTarget t =
    (trim_space t.name ≢ [])
    × ((trim_space t.host ≢ [])
        × (OneOf t.ip_version ([] ∷ codes "ipv4" ∷ codes "ipv6" ∷ []) × ValidProbes t.probes))

module _ (f64 : Float64) where
  open f64 use {F, zero_f, le}

  -- Each bucket fails `<= 0` and fails `<=` its predecessor.
  abbrev pub Ascending : Option F → List F → Type 0
  Ascending previous [] = Unit
  Ascending previous (b ∷ bs) =
      (le b zero_f ≡ false) × (WhenSome (λ a. le b a ≡ false) previous × Ascending (some b) bs)

  abbrev pub WellFormed : Config f64 → Type 0
  WellFormed c =
      OneOf (to_lower c.log_level)
        (codes "debug" ∷ codes "info" ∷ codes "warn" ∷ codes "error" ∷ [])
      × (OneOf (to_lower (trim_space c.log_format))
            (codes "json" ∷ codes "common" ∷ codes "console" ∷ [] ∷ [])
          × (OneOf (to_lower (trim_space c.histogram_mode))
                (codes "explicit" ∷ codes "exponential" ∷ [] ∷ [])
              × (Ascending none c.histogram_buckets
                  × ((trim_space c.metrics_addr ≢ [])
                      × ((trim_space c.otlp_endpoint ≢ []) × All ValidTarget c.targets)))))

false_iff : {b : Bool} → (b ≡ false) ↔ (b ≡ false)
false_iff = (λ e. e, λ e. e)

not_pos_iff : (a : ℤ) → (leb_ℤ a (pos 0) ≡ false) ↔ (pos 0 <ℤ a)
not_pos_iff a = ground arith

port_iff :
    (p : ℤ)
    → ((leb_ℤ p (pos 0) || ltb_ℤ (pos 65535) p) ≡ false)
      ↔ ((n : ℕ) × (p ≡ pos n) × (1 ≤ n) × (n ≤ 65535))
port_iff (pos n) = (λ e. (n, refl, ground arith, ground arith), λ h. ground arith)
port_iff (negsuc n) = (λ e. absurd (ground arith), λ h. absurd (ground arith))

add_unit : {A P Q : Type 0} → (A ↔ (P × Q)) → A ↔ (P × (Unit {0} × Q))
add_unit e = (λ a. ((e.0 a).0, (tt, (e.0 a).1)), λ h. e.1 (h.0, h.1.1))

regroup : {A P Q R S T : Type 0} → (A ↔ (P × (Q × (R × (S × T))))) → A ↔ ((P × (Q × (R × S))) × T)
regroup e = (
  λ a. let h = e.0 a in ((h.0, (h.1.0, (h.1.1.0, h.1.1.1.0))), h.1.1.1.1),
  λ h. e.1 (h.0.0, (h.0.1.0, (h.0.1.1.0, (h.0.1.1.1, h.1)))),
)

orelse_iff :
    {P Q : Type 0} (a b : Option ConfigError)
    → ((a ≡ none) ↔ P)
    → ((b ≡ none) ↔ Q)
    → ((a orelse b) ≡ none) ↔ (P × Q)
orelse_iff none b p q = (λ e. (p.0 refl, q.0 e), λ h. q.1 h.1)
orelse_iff (some x) b p q = (λ e. absurd (some-ne-none e), λ h. absurd (some-ne-none (p.1 h.0)))
  where
    some-ne-none : {e : ConfigError} → some e ≡ none → ⊥
    some-ne-none e = cc

fail_if_iff :
    {P : Type 0} (b : Bool) (e : ConfigError) → ((b ≡ false) ↔ P) → (fail_if b e ≡ none) ↔ P
fail_if_iff false e p = (λ q. p.0 refl, λ h. refl)
fail_if_iff true e p = (λ q. absurd (ground arith), λ h. absurd (true-ne-false (p.1 h)))
  where
    true-ne-false : true ≡ false → ⊥
    true-ne-false e = cc

one_of→OneOf : (s : Text) (ws : List Text) → one_of s ws ≡ true → OneOf s ws
unfolding one_of
one_of→OneOf s [] e = cc
one_of→OneOf s (w ∷ ws) e = elim (Bool-cases (text_eq s w)) [
  | inl h ↦ inl ((text_eq_iff s w).0 h)
  | inr h ↦ inr (one_of→OneOf s ws (rw h at e))
]

OneOf→one_of : (s : Text) (ws : List Text) → OneOf s ws → one_of s ws ≡ true
unfolding one_of
OneOf→one_of s [] h = absurd h
OneOf→one_of s (w ∷ ws) (inl e) = rw ((text_eq_iff s w).1 e)
OneOf→one_of s (w ∷ ws) (inr h) = ground (arith, OneOf→one_of s ws h)

not-one_of_iff : (s : Text) (ws : List Text) → (not (one_of s ws) ≡ false) ↔ OneOf s ws
not-one_of_iff s ws = (λ e. one_of→OneOf s ws (ground arith), λ h. rw (OneOf→one_of s ws h))

not_blank_iff : (s : Text) → (is_blank s ≡ false) ↔ (trim_space s ≢ [])
unfolding is_blank
not_blank_iff s = (
  λ e h. cc (e, (text_eq_iff (trim_space s) []).1 h),
  λ h. ground (arith, text_eq_iff (trim_space s) []),
)

times_iff :
    (t : Text) (k : Kind) (interval timeout : ℤ)
    → (check_times t k interval timeout ≡ none) ↔ Timed interval timeout
times_iff t k interval timeout =
    orelse_iff _ _ (fail_if_iff _ _ (not_pos_iff interval)) (fail_if_iff _ _ (not_pos_iff timeout))

tcp_iff :
    (t : Text) (c : TcpProbeConfig)
    → (validate_tcp t (some c) ≡ none)
      ↔ (Timed c.interval c.timeout × ((n : ℕ) × (c.port ≡ pos n) × (1 ≤ n) × (n ≤ 65535)))
tcp_iff t c =
    orelse_iff _ _ (times_iff t tcp c.interval c.timeout) (fail_if_iff _ _ (port_iff c.port))

when_iff {ℓ} :
    {A : Type ℓ} (check : Option A → Option ConfigError) (P : A → Type 0)
    → check none ≡ none
    → ((a : A) → (check (some a) ≡ none) ↔ P a)
    → (o : Option A) → (check o ≡ none) ↔ WhenSome P o
when_iff check P n s none = (λ e. tt, λ u. n)
when_iff check P n s (some a) = s a

probes_iff : (t : Text) (p : ProbesConfig) → (validate_probes t p ≡ none) ↔ ValidProbes p
unfolding validate_probes
probes_iff t p =
    orelse_iff _ _
      (when_iff (validate_icmp t) _ refl (λ c. times_iff t icmp c.interval c.timeout) p.icmp)
      (orelse_iff _ _
        (when_iff (validate_dns t) _ refl (λ c. times_iff t dns c.interval c.timeout) p.dns)
        (orelse_iff _ _
          (when_iff (validate_http t) _ refl (λ c. times_iff t http c.interval c.timeout) p.http)
          (orelse_iff _ _ (when_iff (validate_tcp t) _ refl (tcp_iff t) p.tcp) (
            orelse_iff _ _
              (when_iff (validate_mtr t) _ refl (λ c. times_iff t mtr c.interval c.timeout) p.mtr)
              (when_iff (validate_speedtest t) _ refl
                (λ c. times_iff t speedtest c.interval c.timeout) p.speedtest)))))

targets_iff : (i : ℕ) (ts : List Target) → (validate_targets i ts ≡ none) ↔ All ValidTarget ts
unfolding validate_targets known_ip_version
targets_iff i [] = (λ e. tt, λ u. refl)
targets_iff i (t ∷ ts) = regroup (
    orelse_iff _ _ (fail_if_iff _ _ (not_blank_iff t.name)) (
      orelse_iff _ _ (fail_if_iff _ _ (not_blank_iff t.host)) (
        orelse_iff _ _ (fail_if_iff _ _ (not-one_of_iff t.ip_version _))
          (orelse_iff _ _ (probes_iff t.name t.probes) (targets_iff (suc i) ts)))))

module _ (f64 : Float64) where
  open f64 use {F, zero_f, le}

  buckets_iff :
      (i : ℕ) (previous : Option F) (bs : List F)
      → (validate_buckets f64 i previous bs ≡ none) ↔ Ascending f64 previous bs
  unfolding validate_buckets
  buckets_iff i previous [] = (λ e. tt, λ u. refl)
  buckets_iff i none (b ∷ bs) =
      add_unit (orelse_iff _ _ (fail_if_iff _ _ false_iff) (buckets_iff (suc i) (some b) bs))
  buckets_iff i (some a) (b ∷ bs) =
      orelse_iff _ _ (fail_if_iff _ _ false_iff)
        (orelse_iff _ _ (fail_if_iff _ _ false_iff) (buckets_iff (suc i) (some b) bs))

  nan-Ascending :
      (previous : Option F) (nans : List F)
      → All (λ b. (x : F) → le b x ≡ false) nans
      → Ascending f64 previous nans
  nan-Ascending previous [] h = tt
  nan-Ascending none (b ∷ bs) h = (h.0 zero_f, (tt, nan-Ascending (some b) bs h.1))
  nan-Ascending (some a) (b ∷ bs) h = (h.0 zero_f, (h.0 a, nan-Ascending (some b) bs h.1))

  -- Validate accepts a configuration exactly if it is well formed.
  pub validate_iff : (c : Config f64) → (validate f64 c ≡ none) ↔ WellFormed f64 c
  unfolding validate known_log_level known_log_format known_histogram_mode
  validate_iff c = orelse_iff _ _ (fail_if_iff _ _ (not-one_of_iff _ _)) (
      orelse_iff _ _ (fail_if_iff _ _ (not-one_of_iff _ _)) (
        orelse_iff _ _ (fail_if_iff _ _ (not-one_of_iff _ _)) (
          orelse_iff _ _ (buckets_iff 0 none c.histogram_buckets) (
            orelse_iff _ _ (fail_if_iff _ _ (not_blank_iff c.metrics_addr)) (
              orelse_iff _ _ (fail_if_iff _ _ (not_blank_iff c.otlp_endpoint))
                (targets_iff 0 c.targets))))))

  -- A value that fails every comparison, as NaN does, passes both tests of the buckets: replacing
  -- the buckets of an accepted configuration by any such values leaves it accepted.
  pub validate-nan :
      (c : Config f64) (nans : List F)
      → validate f64 c ≡ none
      → All (λ b. (x : F) → le b x ≡ false) nans
      → validate f64 (record c { histogram_buckets = nans }) ≡ none
  validate-nan c nans v h =
      let w = (validate_iff c).0 v in
      (validate_iff (record c { histogram_buckets = nans })).1
        (w.0, (w.1.0, (w.1.1.0, (nan-Ascending none nans h, w.1.1.1.1))))
