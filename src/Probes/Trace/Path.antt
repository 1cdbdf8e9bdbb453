-- ===== src/Probes/Trace/Path.antt =====
-- The shape of a traceroute: one hop for each ttl from 1 on, up to the target or the last ttl.
use mathlib.Core.List.{append_assoc, append-nil}
use native.Mathlib.Nat.{add-zero}
use stabsight.Base.{
  ◌⊎◌, inl, inr, ℕ, zero, suc, ◌+◌, ◌≤◌, ◌≡◌, ◌≢◌, refl, sym, ap, ◌∙◌, inl, inr, pos, Bool, true,
  false, some, List, [], ◌∷◌, ◌++◌, length, Text, arith, Bool-cases,
}
use stabsight.Probes.Trace.{
  MtrHop, MtrResult, HopResult, hop_error, hop_panic, hop_found, add_hop, lost_hop, trace_loop,
  trace, Echo, Reply, ping_hop,
}
use stabsight.Probes.Trace.Matching.{ping_hop-ttl, ping_hop-ne-panic}

-- The hops are numbered one after the other, from `ttl` on.
abbrev pub Consecutive : ℕ → List MtrHop → Type 0
Consecutive ttl [] = Unit
Consecutive ttl (h ∷ hs) = (h.hop ≡ pos ttl) × Consecutive (suc ttl) hs

-- Every hop that is found carries its ttl, and no round panics.
pub record Honest (ping : ℕ → HopResult) : Type 0 where
  pub numbered : (ttl : ℕ) (h : MtrHop) (b : Bool) → ping ttl ≡ hop_found h b → h.hop ≡ pos ttl
  pub no_panic : (ttl : ℕ) → ping ttl ≢ hop_panic

record Walked (ping : ℕ → HopResult) (left ttl : ℕ) (r out : MtrResult) (ok : Bool) : Type 0 where
  new : List MtrHop
  appended : out.hops ≡ r.hops ++ new
  numbered : Consecutive ttl new
  bounded : length new ≤ left
  complete : ok ≡ true → out.reached_target ≡ false → length new ≡ left
  arrived :
      out.reached_target ≡ true
      → r.reached_target ≡ false
      → (m : ℕ) × (length new ≡ suc m) × (h : MtrHop) × (ping (ttl + m) ≡ hop_found h true)

abbrev Outcome : (done : ℕ → Bool) (ping : ℕ → HopResult) (left ttl : ℕ) → MtrResult → Type 0
Outcome done ping left ttl r =
    (out : MtrResult) × (ok : Bool) × (trace_loop done ping left ttl r ≡ some (out, ok))
    × Walked ping left ttl r out ok

-- A hop in front of the rest of the walk.
Walked-cons :
    (ping : ℕ → HopResult) (left ttl : ℕ) (h : MtrHop) (r out : MtrResult) (ok : Bool)
    → h.hop ≡ pos ttl
    → Walked ping left (suc ttl) (add_hop h r) out ok
    → Walked ping (suc left) ttl r out ok
Walked-cons ping left ttl h r out ok e w = record {
  new = h ∷ w.new;
  appended = w.appended ∙ append_assoc r.hops (h ∷ []) w.new;
  numbered = (e, w.numbered);
  bounded = omega (arith, w.bounded);
  complete = λ o n. ap suc (w.complete o n);
  arrived = λ a n. let (m, l, g, p) = w.arrived a n in (suc m, ap suc l, g, rw (later_ttl ttl m) p);
}
  where
    later_ttl : (t n : ℕ) → t + suc n ≡ suc t + n
    later_ttl t n = omega arith

-- A walk of no hops: the ttl values are used up, or the context is done.
Walked-nil :
    (ping : ℕ → HopResult) (left ttl : ℕ) (r : MtrResult) (ok : Bool)
    → (ok ≡ true → left ≡ 0)
    → Walked ping left ttl r r ok
Walked-nil ping left ttl r ok used_up = record {
  new = [];
  appended = sym (append-nil r.hops);
  numbered = tt;
  bounded = omega arith;
  complete = λ o n. sym (used_up o);
  arrived = λ a n. cc;
}

-- A walk that ends at the target.
Walked-target :
    (ping : ℕ → HopResult) (left ttl : ℕ) (h : MtrHop) (r : MtrResult)
    → h.hop ≡ pos ttl
    → ping ttl ≡ hop_found h true
    → Walked ping (suc left) ttl r (record (add_hop h r) { reached_target = true }) true
Walked-target ping left ttl h r n e = record {
  new = h ∷ [];
  appended = refl;
  numbered = (n, tt);
  bounded = omega arith;
  complete = λ o q. cc;
  arrived = λ a q. (0, refl, h, rw add-zero e);
}

-- One round of the loop, given the rest of the walk.
round-Walked :
    (done : ℕ → Bool) (ping : ℕ → HopResult) (left ttl : ℕ) (r : MtrResult)
    → Honest ping
    → done ttl ≡ false
    → ((h : MtrHop) → Outcome done ping left (suc ttl) (add_hop h r))
    → (p : HopResult) → ping ttl ≡ p
    → Outcome done ping (suc left) ttl r
unfolding trace_loop
round-Walked done ping left ttl r honest d next hop_panic e = absurd (honest.no_panic ttl e)
round-Walked done ping left ttl r honest d next hop_error e =
    let (out, ok, q, w) = next (lost_hop (pos ttl)) in
    (out, ok, rw (d, e) q, Walked-cons ping left ttl (lost_hop (pos ttl)) r out ok refl w)
round-Walked done ping left ttl r honest d next (hop_found h true) e =
    (_, true, rw (d, e), Walked-target ping left ttl h r (honest.numbered ttl h true e) e)
round-Walked done ping left ttl r honest d next (hop_found h false) e =
    let (out, ok, q, w) = next h in
    (out, ok, rw (d, e) q, Walked-cons ping left ttl h r out ok (honest.numbered ttl h false e) w)

trace_loop-Walked :
    (done : ℕ → Bool) (ping : ℕ → HopResult)
    → Honest ping
    → (left ttl : ℕ) (r : MtrResult) → Outcome done ping left ttl r
unfolding trace_loop
trace_loop-Walked done ping honest zero ttl r =
    (r, true, refl, Walked-nil ping zero ttl r true (λ o. refl))
trace_loop-Walked done ping honest (suc left) ttl r = elim (Bool-cases (done ttl)) [
  | inl d ↦ (r, false, rw d, Walked-nil ping (suc left) ttl r false (λ o. cc))
  | inr d ↦
      round-Walked done ping left ttl r honest d
        (λ h. trace_loop-Walked done ping honest left (suc ttl) (add_hop h r)) (ping ttl) refl
]

trace-Walked :
    (limit : ℕ) (done : ℕ → Bool) (ping : ℕ → HopResult) (host : Text) (n : ℕ)
    → n ≤ limit
    → Honest ping
    → (out : MtrResult) × (ok : Bool) × (trace limit done ping host (pos n) ≡ some (out, ok))
      × Consecutive 1 out.hops
      × (length out.hops ≤ n)
      × (ok ≡ true → out.reached_target ≡ false → length out.hops ≡ n)
      × (out.reached_target ≡ true → (h : MtrHop) × (ping (length out.hops) ≡ hop_found h true))
unfolding trace
trace-Walked limit done ping host n small honest =
    let (out, ok, q, w) =
      trace_loop-Walked done ping honest n 1
        (record { target = host; hops = []; reached_target = false }) in
    (
      out,
      ok,
      ground (arith, q, small),
      rw w.appended w.numbered,
      rw w.appended w.bounded,
      λ o t. rw w.appended (w.complete o t),
      λ t.
          let (m, l, h, p) = w.arrived t refl in
          let last : length out.hops ≡ 1 + m = ap length w.appended ∙ (l ∙ omega arith) in
          (h, rw last p),
    )

-- How a trace ends: the round of its last hop reached the target, or it did not reach it and has
-- failed or has tried all n values of the ttl.
abbrev pub EndsWell : (ping : ℕ → HopResult) (n : ℕ) → MtrResult → Bool → Type 0
EndsWell ping n out ok =
    ((out.reached_target ≡ true) × (h : MtrHop) × (ping (length out.hops) ≡ hop_found h true))
    ⊎ ((out.reached_target ≡ false) × ((ok ≡ false) ⊎ (length out.hops ≡ n)))

ends_well :
    (ping : ℕ → HopResult) (n : ℕ) (out : MtrResult) (ok : Bool)
    → (ok ≡ true → out.reached_target ≡ false → length out.hops ≡ n)
    → (out.reached_target ≡ true → (h : MtrHop) × (ping (length out.hops) ≡ hop_found h true))
    → EndsWell ping n out ok
ends_well ping n out ok complete arrived = elim (Bool-cases out.reached_target) [
  | inl t ↦ let (h, e) = arrived t in inl (t, h, e)
  | inr f ↦ inr (f, elim (Bool-cases ok) [ inl o ↦ inr (complete o f) | inr o ↦ inl o ])
]

-- Trace with n hops at most returns, whatever messages each round receives, if each round asks for
-- its own ttl and a slice can be made with room for n hops. Its hops are numbered from 1 without a
-- gap, and are n at most. If it reached the target, the round of the last
-- hop did; if not, it has failed or has exactly n hops.
pub trace-Consecutive :
    (limit : ℕ) (done : ℕ → Bool) (echo : ℕ → Echo) (replies : ℕ → List Reply) (host : Text) (n : ℕ)
    → n ≤ limit
    → ((ttl : ℕ) → (echo ttl).ttl ≡ pos ttl)
    → (out : MtrResult) × (ok : Bool) × (trace limit done
          (λ ttl. ping_hop (echo ttl) (replies ttl))
          host
          (pos n)
        ≡ some (out, ok))
      × Consecutive 1 out.hops
      × (length out.hops ≤ n)
      × EndsWell (λ ttl. ping_hop (echo ttl) (replies ttl)) n out ok
trace-Consecutive limit done echo replies host n small numbered =
    let ping : ℕ → HopResult = λ ttl. ping_hop (echo ttl) (replies ttl) in
    let (out, ok, e, c, b, complete, arrived) = trace-Walked limit done ping host n small (record {
      numbered = λ ttl h b e. ping_hop-ttl (echo ttl) (replies ttl) h b e ∙ numbered ttl;
      no_panic = λ ttl. ping_hop-ne-panic (echo ttl) (replies ttl);
    }) in
    (out, ok, e, c, b, ends_well ping n out ok complete arrived)
