-- ===== src/Logging/Levels.antt =====
-- The levels that a validated configuration can hold are the ones that ParseLevel knows.
use mathlib.Core.List.{reverse, reverse_aux, reverse-reverse}
use stabsight.Base.{
  ℕ, ◌≡◌, refl, subst, sym, inl, inr, false, none, some, [], ◌∷◌, map, Text, codes, text_eq, one_of,
  to_lower, to_lower_byte, trim_left, trim_space, is_space, All, arith, Float64,
}
use stabsight.Config.Types.{Config}
use stabsight.Config.Validate.{validate}
use stabsight.Config.WellFormed.{OneOf, validate_iff}
use stabsight.Logging.{Level, debug, info, warn, error, parse_level, new_logger}

abbrev NoSpace : Text → Type 0
NoSpace s = All (λ c. is_space c ≡ false) s

lower_space : (c : ℕ) → is_space (to_lower_byte c) ≡ false → is_space c ≡ false
unfolding is_space to_lower_byte
lower_space c h = ground arith

lower-NoSpace : (s : Text) → NoSpace (map to_lower_byte s) → NoSpace s
lower-NoSpace [] h = tt
lower-NoSpace (c ∷ s) h = (lower_space c h.0, lower-NoSpace s h.1)

trim_left-NoSpace : (s : Text) → NoSpace s → trim_left s ≡ s
unfolding trim_left
trim_left-NoSpace [] h = refl
trim_left-NoSpace (c ∷ s) h = rw (h.0)

reverse_aux-NoSpace : (s t : Text) → NoSpace s → NoSpace t → NoSpace (reverse_aux s t)
reverse_aux-NoSpace [] t h k = k
reverse_aux-NoSpace (c ∷ s) t h k = reverse_aux-NoSpace s (c ∷ t) h.1 (h.0, k)

reverse-NoSpace : (s : Text) → NoSpace s → NoSpace (reverse s)
reverse-NoSpace s h = reverse_aux-NoSpace s [] h tt

trim_space-NoSpace : (s : Text) → NoSpace s → trim_space s ≡ s
unfolding trim_space
trim_space-NoSpace s h =
    rw (trim_left-NoSpace s h, trim_left-NoSpace (reverse s) (reverse-NoSpace s h))
      (reverse-reverse s)

-- The word that stands for a level in a configuration.
abbrev pub level_name : Level → Text
level_name debug = codes "debug"
level_name info = codes "info"
level_name warn = codes "warn"
level_name error = codes "error"

name-NoSpace : (l : Level) → NoSpace (level_name l)
unfolding is_space
name-NoSpace debug = (refl, (refl, (refl, (refl, (refl, tt)))))
name-NoSpace info = (refl, (refl, (refl, (refl, tt))))
name-NoSpace warn = (refl, (refl, (refl, (refl, tt))))
name-NoSpace error = (refl, (refl, (refl, (refl, (refl, tt)))))

parse_name :
    (s : Text) (l : Level) → to_lower (trim_space s) ≡ level_name l → parse_level s ≡ some l
unfolding parse_level one_of text_eq
parse_name s debug e = rw e
parse_name s info e = rw e
parse_name s warn e = rw e
parse_name s error e = rw e

lower-trim :
    (s : Text) (l : Level) → to_lower s ≡ level_name l → to_lower (trim_space s) ≡ level_name l
unfolding to_lower
lower-trim s l e =
    rw (trim_space-NoSpace s (lower-NoSpace s (subst NoSpace (sym e) (name-NoSpace l)))) e

level-OneOf :
    (s : Text)
    → OneOf s (codes "debug" ∷ codes "info" ∷ codes "warn" ∷ codes "error" ∷ [])
    → (l : Level) × (s ≡ level_name l)
level-OneOf s (inl e) = (debug, e)
level-OneOf s (inr (inl e)) = (info, e)
level-OneOf s (inr (inr (inl e))) = (warn, e)
level-OneOf s (inr (inr (inr (inl e)))) = (error, e)
level-OneOf s (inr (inr (inr (inr h)))) = absurd h

-- The logger of an accepted configuration has the level that the configuration names, in any case
-- of its letters, and never warns that the level is unknown.
pub new_logger-validated :
    (f64 : Float64) (c : Config f64)
    → validate f64 c ≡ none
    → let logger = new_logger c.log_level c.log_format in
      (to_lower c.log_level ≡ level_name logger.level) × (logger.warned ≡ false)
unfolding new_logger
new_logger-validated f64 c v =
    let named = level-OneOf (to_lower c.log_level) ((validate_iff f64 c).0 v).0 in
    rw (parse_name c.log_level named.0 (lower-trim c.log_level named.0 named.1)) (named.1, refl)
