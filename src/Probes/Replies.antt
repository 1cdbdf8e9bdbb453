-- ===== src/Probes/Replies.antt =====
-- internal/probes/icmp.go: which reply the receive loop of Ping takes.
use stabsight.Base.{
  ◌≡◌, ◌↔◌, ◌⊎◌, ap, sym, subst, inl, inr, ℤ, pos, negsuc, same_ℤ, Bool, true, ◌||◌, some, List, [],
  ◌∷◌, ◌++◌, All, arith, Bool-cases,
}
use stabsight.Probes.Icmp.{Reply, unparsable, other_message, echo_reply, ping_replies}

same_ℤ→eq : (a b : ℤ) → same_ℤ a b ≡ true → a ≡ b
same_ℤ→eq (pos m) (pos n) h = ground arith
same_ℤ→eq (pos m) (negsuc n) h = absurd (ground arith)
same_ℤ→eq (negsuc m) (pos n) h = absurd (ground arith)
same_ℤ→eq (negsuc m) (negsuc n) h = ground arith

same_ℤ_refl : (a : ℤ) → same_ℤ a a ≡ true
same_ℤ_refl a = ground arith

module _ (id seq : ℤ) where
  -- An echo reply with the sequence number or the identifier of the request.
  abbrev pub Accepted : Reply → Type 0
  Accepted unparsable = ⊥
  Accepted other_message = ⊥
  Accepted (echo_reply i s rtt) = (s ≡ seq) ⊎ (i ≡ id)

  abbrev pub Ignored : Reply → Type 0
  Ignored r = Accepted r → ⊥

  -- Some reply that arrived after `rtt` is accepted, and all those before it are ignored.
  abbrev pub FirstAccepted : List Reply → ℤ → Type 0
  FirstAccepted rs rtt =
      (before : List Reply) × (i : ℤ) × (s : ℤ) × (after : List Reply) × (rs
        ≡ before ++ echo_reply i s rtt ∷ after)
      × All Ignored before
      × ((s ≡ seq) ⊎ (i ≡ id))

  -- The test of Ping.
  abbrev matches : ℤ → ℤ → Bool
  matches i s = same_ℤ s seq || same_ℤ i id

  matches-Accepted : (i s : ℤ) → matches i s ≡ true → (s ≡ seq) ⊎ (i ≡ id)
  matches-Accepted i s h = elim (Bool-cases (same_ℤ s seq)) [
    | inl e ↦ inl (same_ℤ→eq s seq e)
    | inr e ↦ inr (same_ℤ→eq i id (ground arith))
  ]

  Accepted-matches : (i s : ℤ) → (s ≡ seq) ⊎ (i ≡ id) → matches i s ≡ true
  Accepted-matches i s (inl e) = ground (arith, same_ℤ_refl seq)
  Accepted-matches i s (inr e) = ground (arith, same_ℤ_refl id)

  later :
      (r : Reply) (rs : List Reply) (rtt : ℤ)
      → Ignored r
      → FirstAccepted rs rtt
      → FirstAccepted (r ∷ rs) rtt
  later r rs rtt n (before, i, s, after, e, a, m) =
      (r ∷ before, i, s, after, ap (λ t. r ∷ t) e, (n, a), m)

  ping_replies→FirstAccepted :
      (rs : List Reply) (rtt : ℤ) → ping_replies id seq rs ≡ some rtt → FirstAccepted rs rtt
  unfolding ping_replies
  ping_replies→FirstAccepted [] rtt h = absurd (ground arith)
  ping_replies→FirstAccepted (unparsable ∷ rs) rtt h =
      later unparsable rs rtt (λ x. x) (ping_replies→FirstAccepted rs rtt h)
  ping_replies→FirstAccepted (other_message ∷ rs) rtt h =
      later other_message rs rtt (λ x. x) (ping_replies→FirstAccepted rs rtt h)
  ping_replies→FirstAccepted (echo_reply i s t ∷ rs) rtt h = elim (Bool-cases (matches i s)) [
    | inl m ↦ ([], i, s, rs, taken i s t rtt rs m h, tt, matches-Accepted i s m)
    | inr m ↦
        later (echo_reply i s t) rs rtt (λ x. cc (Accepted-matches i s x, m))
          (ping_replies→FirstAccepted rs rtt (rw m at h))
  ]
    where
      taken :
          (i s t rtt : ℤ) (rs : List Reply)
          → matches i s ≡ true
          → ping_replies id seq (echo_reply i s t ∷ rs) ≡ some rtt
          → echo_reply i s t ∷ rs ≡ echo_reply i s rtt ∷ rs
      taken i s t rtt rs m h = ground arith

  ping_replies-append :
      (before : List Reply) (i s rtt : ℤ) (after : List Reply)
      → All Ignored before
      → (s ≡ seq) ⊎ (i ≡ id)
      → ping_replies id seq (before ++ echo_reply i s rtt ∷ after) ≡ some rtt
  unfolding ping_replies
  ping_replies-append [] i s rtt after a m = rw (Accepted-matches i s m)
  ping_replies-append (unparsable ∷ rs) i s rtt after a m =
      ping_replies-append rs i s rtt after a.1 m
  ping_replies-append (other_message ∷ rs) i s rtt after a m =
      ping_replies-append rs i s rtt after a.1 m
  ping_replies-append (echo_reply j u t ∷ rs) i s rtt after a m = elim (Bool-cases (matches j u)) [
    | inl n ↦ absurd (a.0 (matches-Accepted j u n))
    | inr n ↦ rw n (ping_replies-append rs i s rtt after a.1 m)
  ]

  -- Ping returns a round trip exactly if it is that of the first echo reply that has the sequence
  -- number or the identifier of the request; a reply that matches in one of them only is taken.
  pub ping_replies_iff :
      (rs : List Reply) (rtt : ℤ) → (ping_replies id seq rs ≡ some rtt) ↔ FirstAccepted rs rtt
  ping_replies_iff rs rtt = (
    ping_replies→FirstAccepted rs rtt,
    λ (before, i, s, after, e, a, m).
        subst (λ t. ping_replies id seq t ≡ some rtt) (sym e)
          (ping_replies-append before i s rtt after a m),
  )
