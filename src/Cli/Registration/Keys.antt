-- ===== src/Cli/Registration/Keys.antt =====
-- The names of workers, `<target>/<probe type>`, and when two of them are the same.
use stabsight.Base.{
  ℕ, ◌≡◌, ◌≢◌, refl, inl, inr, false, List, [], ◌∷◌, ◌++◌, Text, text_eq, text_eq_iff, All,
  All-append, sym, subst, Bool-cases,
}
use stabsight.Scheduler.Registry.{ProbeWorker, has_name}
use stabsight.Scheduler.Registry.Names.{Fresh}

abbrev pub NoSlash : Text → Type 0
NoSlash s = All (λ c. c ≢ b'/') s

-- A worker that is named after its target and its type, as every probe of the program is.
abbrev pub Named : ProbeWorker → Type 0
Named w = (w.name ≡ w.target_name ++ b'/' ∷ w.probe_type) × NoSlash w.probe_type

All-middle {ℓ} : {A : Type ℓ} (P : A → Type 0) (xs ys : List A) (x : A) → All P (xs ++ x ∷ ys) → P x
All-middle P [] ys x h = h.0
All-middle P (a ∷ xs) ys x h = All-middle P xs ys x h.1

tail-eq : {c d : ℕ} {s t : Text} → c ∷ s ≡ d ∷ t → s ≡ t
tail-eq e = cc

-- The last slash splits a name in one way.
split-eq :
    (a b p q : Text) → NoSlash p → NoSlash q → a ++ b'/' ∷ p ≡ b ++ b'/' ∷ q → (a ≡ b) × (p ≡ q)
split-eq [] [] p q np nq e = (refl, cc)
split-eq [] (c ∷ b) p q np nq e =
    absurd (All-middle (λ c. c ≢ b'/') b q b'/' (subst NoSlash (tail-eq e) np) refl)
split-eq (c ∷ a) [] p q np nq e =
    absurd (All-middle (λ c. c ≢ b'/') a p b'/' (subst NoSlash (sym (tail-eq e)) nq) refl)
split-eq (c ∷ a) (d ∷ b) p q np nq e =
    let rest = split-eq a b p q np nq (tail-eq e) in (cc (rest.0, e), rest.1)

-- No worker of the list has both the target and the type of `v`.
abbrev pub Apart : ProbeWorker → ProbeWorker → Type 0
Apart v w = w.target_name ≡ v.target_name → w.probe_type ≢ v.probe_type

Named-names : (v w : ProbeWorker) → Named v → Named w → Apart v w → text_eq w.name v.name ≡ false
Named-names v w nv nw apart = elim (Bool-cases (text_eq w.name v.name)) [
  | inl e ↦
      let same =
        split-eq w.target_name v.target_name w.probe_type v.probe_type nw.1 nv.1
          (cc (nv.0, nw.0, (text_eq_iff w.name v.name).0 e)) in
      absurd (apart same.0 same.1)
  | inr e ↦ e
]

pub has_name-Apart :
    (v : ProbeWorker) (ws : List ProbeWorker)
    → Named v
    → All Named ws
    → All (Apart v) ws
    → has_name v.name ws ≡ false
unfolding has_name
has_name-Apart v [] nv nws apart = refl
has_name-Apart v (w ∷ ws) nv nws apart =
    rw (Named-names v w nv nws.0 apart.0) (has_name-Apart v ws nv nws.1 apart.1)

-- Every worker is apart from those before it and from those of the first list.
abbrev pub AllApart : List ProbeWorker → List ProbeWorker → Type 0
AllApart ws [] = Unit
AllApart ws (v ∷ vs) = All (Apart v) ws × AllApart (ws ++ v ∷ []) vs

pub AllApart-Fresh :
    (ws vs : List ProbeWorker) → All Named ws → All Named vs → AllApart ws vs → Fresh ws vs
AllApart-Fresh ws [] nws nvs apart = tt
AllApart-Fresh ws (v ∷ vs) nws nvs apart = (
  has_name-Apart v ws nvs.0 nws apart.0,
  AllApart-Fresh (ws ++ v ∷ []) vs (All-append Named ws (v ∷ []) nws (nvs.0, tt)) nvs.1 apart.1,
)
