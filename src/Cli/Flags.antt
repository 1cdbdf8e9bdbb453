-- ===== src/Cli/Flags.antt =====
-- internal/config/config.go with internal/cli/root.go: the flags of the command among those that
-- BindFlags binds.
use stabsight.Base.{
  ◌≡◌, inl, inr, Bool, true, false, ◌&&◌, ◌||◌, subst, ◌≢◌, Bool-cases, none, some, List, [], ◌∷◌,
  Text, codes, text_eq, text_eq→eq, arith,
}
use stabsight.Config.Load.{bind_flags, flag_bindings}
use stabsight.Cli.Command.{GlobalFlags, lookup_flag}

abbrev pub is_flag : GlobalFlags → Text → Bool
is_flag g flag = elim (lookup_flag g flag) [ none ↦ false | some _ ↦ true ]

-- Whether a pair is in a list of bindings.
abbrev pub binds : List (Text × Text) → Text → Text → Bool
binds [] key flag = false
binds ((k, f) ∷ bs) key flag = (text_eq key k && text_eq flag f) || binds bs key flag

abbrev pub AllBind : List (Text × Text) → Type 0
AllBind [] = Unit
AllBind ((key, flag) ∷ bs) = (binds flag_bindings key flag ≡ true) × AllBind bs

histogram_flag :
    (flag : Text)
    → binds flag_bindings (codes "histogram_mode") flag ≡ true
    → flag ≡ codes "histogram-mode"
unfolding text_eq
histogram_flag flag h = ground (arith, text_eq→eq flag (codes "histogram-mode"))

not_histogram :
    (g : GlobalFlags) (key flag : Text)
    → binds flag_bindings key flag ≡ true
    → is_flag g flag ≡ true
    → key ≢ codes "histogram_mode"
unfolding lookup_flag text_eq
not_histogram g key flag b f e =
    let is_mode = histogram_flag flag (subst (λ k. binds flag_bindings k flag ≡ true) e b) in
    let no_flag : false ≡ true = subst (λ x. is_flag g x ≡ true) is_mode f in cc

-- BindFlags over the flags of the root command, in whatever order it walks bindings of its table,
-- never fails by the histogram mode, which it does not bind, and fails by another key only if the
-- binding of that key fails.
pub bind_flags-lookup_flag :
    (g : GlobalFlags) (bind_fails : Text → Bool) (bindings : List (Text × Text)) (key : Text)
    → AllBind bindings
    → bind_flags (is_flag g) bind_fails bindings ≡ some key
    → (bind_fails key ≡ true) × (key ≢ codes "histogram_mode")
unfolding bind_flags
bind_flags-lookup_flag g bind_fails [] key a e = cc
bind_flags-lookup_flag g bind_fails ((k, f) ∷ bs) key a e =
    elim (Bool-cases (is_flag g f && bind_fails k)) [
      | inl h ↦
          let defined : is_flag g f ≡ true = ground arith in
          let fails : bind_fails k ≡ true = ground arith in
          let same : k ≡ key = ground arith in
          subst (λ x. (bind_fails x ≡ true) × (x ≢ codes "histogram_mode")) same
            (fails, not_histogram g k f a.0 defined)
      | inr h ↦ bind_flags-lookup_flag g bind_fails bs key a.1 (ground arith)
    ]
