-- ===== src/Diagnostic/Tests.antt =====
-- Reports on a path whose second hop does not answer.
use stabsight.Base.{
  ◌≡◌, ◌↔◌, ◌⊎◌, refl, inl, ℤ, pos, leb_ℤ, ◌*◌, millisecond, true, false, none, some, [], ◌∷◌, ◌++◌,
  codes, decimal,
}
use stabsight.Probes.Trace.{MtrHop, MtrResult, reply_hop, lost_hop}
use stabsight.Diagnostic.{ok, isp_gateway, target_unreachable, Warning, Engine, is_faulty, analyze}
use stabsight.Diagnostic.Classification.{analyze-ok, analyze-first_faulty, analyze-unexplained}

abbrev engine : Engine decimal
engine = record { loss_threshold = pos 50000000; latency_threshold = pos (250 * millisecond) }

abbrev gateway : MtrHop
gateway = reply_hop (pos 1) (codes "10.0.0.1") (pos millisecond)

abbrev beyond : MtrHop
beyond = reply_hop (pos 3) (codes "192.0.2.1") (pos (5 * millisecond))

abbrev broken : MtrResult
broken = record {
  target = codes "web";
  hops = (gateway ∷ []) ++ lost_hop (pos 2) ∷ beyond ∷ [];
  reached_target = true;
}

abbrev whole : MtrResult
whole = record { target = codes "web"; hops = gateway ∷ beyond ∷ []; reached_target = false }

-- 30% of the packets are lost.
abbrev lossy : ℤ
lossy = pos 300000000

analyze-ok_example :
    (((analyze decimal engine (codes "web") lossy (pos 0) (some broken)).0.diagnosis ≡ ok)
      ↔ ((leb_ℤ (pos 50000000) lossy ≡ false) × (leb_ℤ (pos (250 * millisecond)) (pos 0) ≡ false)))
    × (((analyze decimal engine (codes "web") lossy (pos 0) (some broken)).0.diagnosis ≡ ok)
        ↔ ((analyze decimal engine (codes "web") lossy (pos 0) (some broken)).1 ≡ none))
    × (((analyze decimal engine (codes "web") lossy (pos 0) (some broken)).1 ≡ none)
        ⊎ ((w : Warning decimal) × ((analyze decimal engine
                (codes "web")
                lossy
                (pos 0)
                (some broken)).1
              ≡ some w)
            × (w.diagnosis
                ≡ (analyze decimal engine (codes "web") lossy (pos 0) (some broken)).0.diagnosis)))
analyze-ok_example = analyze-ok decimal engine (codes "web") lossy (pos 0) (some broken)

analyze-first_faulty_example :
    let (report, warning) = analyze decimal engine (codes "web") lossy (pos 0) (some broken) in
    (report.faulty_hop ≡ pos 2)
    × (report.faulty_hop_ip ≡ codes "*")
    × (report.diagnosis ≡ isp_gateway)
    × ((w : Warning decimal) × (warning ≡ some w)
        × (w.faulty ≡ some (pos 2, codes "*"))
        × (w.diagnosis ≡ isp_gateway))
unfolding is_faulty
analyze-first_faulty_example =
    analyze-first_faulty decimal engine (codes "web") lossy (pos 0) (codes "web") true
      (gateway ∷ []) (beyond ∷ []) (lost_hop (pos 2)) 1 (inl refl) (refl, tt) refl refl

analyze-unexplained_example :
    let (report, _) = analyze decimal engine (codes "web") lossy (pos 0) (some whole) in
    (report.faulty_hop ≡ pos 0) × (report.diagnosis ≡ target_unreachable)
unfolding is_faulty
analyze-unexplained_example =
    analyze-unexplained decimal engine (codes "web") lossy (pos 0) (some whole) (inl refl)
      (refl, (refl, tt))
