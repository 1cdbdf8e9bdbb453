-- ===== src/Probes/Deadline.antt =====
-- internal/probes/mtr.go: the deadline of a traceroute.
use stabsight.Base.{
  sym, subst, ◌≡◌, ℕ, pos, is_pos, wrap64, ◌*◌, ◌<◌, ◌^◌, ◌↔◌, true, arith, Text, some, Bool,
}
use stabsight.Config.Types.{MtrProbeConfig}
use stabsight.Probes.Mtr.{new_mtr_probe, trace_deadline}

wrap64_iff : (n : ℕ) → (wrap64 (pos n) ≡ pos n) ↔ (n < 2 ^ 63)
wrap64_iff n = ground arith

is_pos-suc : (n : ℕ) → 0 < n → is_pos (pos n) ≡ true
is_pos-suc n h = ground arith

-- For configured numbers above 0, the deadline of a traceroute is their product, the timeout of a
-- hop times the number of hops, exactly if that is less than 2 ^ 63 nanoseconds.
pub trace_deadline_iff :
    (target_name host : Text) (c : MtrProbeConfig) (enabled : Bool) (hops timeout : ℕ)
    → c.max_hops ≡ pos hops
    → c.timeout ≡ pos timeout
    → 0 < hops
    → 0 < timeout
    → (trace_deadline (new_mtr_probe target_name host (some c) enabled) ≡ pos (hops * timeout))
      ↔ (hops * timeout < 2 ^ 63)
unfolding trace_deadline new_mtr_probe
trace_deadline_iff target_name host c enabled hops timeout h t positive positive' =
    let deadline : trace_deadline (new_mtr_probe target_name host (some c) enabled)
        ≡ wrap64 (pos (hops * timeout)) =
      rw (h, t, is_pos-suc hops positive, is_pos-suc timeout positive') in
    subst (λ z. (z ≡ pos (hops * timeout)) ↔ (hops * timeout < 2 ^ 63)) (sym deadline)
      (wrap64_iff (hops * timeout))
