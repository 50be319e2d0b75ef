-- ===== src/Convert/Mix.antt =====
-- server/internal/convert/mix.go: the rules that give a share of the requests for a model to
-- another, and routeModel of server/internal/httpapi/proxy.go, which applies them.
pub mod Share
use antigravity2api.Base.{
  ℕ, Bool, true, false, ◌&&◌, ◌||◌, not, List, [], ◌∷◌, Text, ℤ, text_beq, is_empty, to_nat, ltb,
  min, if◌then◌else◌,
}
use antigravity2api.Strings.{codes, trim_space, trim_prefix, trim_suffix, to_lower}
use antigravity2api.Convert.Catalog.{map_model, models_prefix}

pub record MixRule : Type 0 where
  pub from : Text
  pub to : Text
  pub percent : ℤ
  pub enabled : Bool

-- The loop of canonMix.
unfoldable pub trim_suffixes : List Text → Text → Text
unfolding trim_suffix
trim_suffixes [] s = s
trim_suffixes (suf ∷ rest) s = trim_suffixes rest (trim_suffix s suf)

abbrev pub mix_suffixes : List Text
mix_suffixes =
    codes "-preview" ∷ codes "-thinking" ∷ codes "-high" ∷ codes "-low" ∷ codes "-agent" ∷ []

-- canonMix
unfoldable pub canon_mix : Text → Text
unfolding trim_suffixes trim_prefix to_lower trim_space
canon_mix s = trim_suffixes mix_suffixes (trim_prefix (to_lower (trim_space s)) models_prefix)

-- MatchMixSource
unfoldable pub match_mix_source : Text → Text → Text → Bool
unfolding canon_mix map_model text_beq
match_mix_source from requested mapped =
    let source = canon_mix from in
    if is_empty source
    then false
    else (if text_beq (canon_mix requested) source || text_beq (canon_mix mapped) source
        then true
        else text_beq (canon_mix (map_model source)) (canon_mix mapped))

-- A percentage, brought into 0 to 100.
unfoldable pub clamp_percent : ℤ → ℕ
clamp_percent p = min (to_nat p) 100

-- The loop of ApplyMix.
unfoldable pub mix_with : Text → Text → ℕ → List MixRule → Text
mix_with requested mapped roll [] = requested
mix_with requested mapped roll (rule ∷ rules) =
    let rest = mix_with requested mapped roll rules in
    let target = trim_space rule.to in
    let p = clamp_percent rule.percent in
    if not rule.enabled
    then rest
    else (if is_empty target
        then rest
        else (if not (match_mix_source rule.from requested mapped)
            then rest
            else (if ltb 0 p && ltb roll p then target else requested)))

-- ApplyMix
unfoldable pub apply_mix : Text → List MixRule → ℕ → Text
apply_mix requested rules roll = mix_with requested (map_model requested) roll rules

-- routeModel, with the rules that the store gives and the number that rand.Intn gives.
unfoldable pub route_model : Text → List MixRule → ℕ → Text × Bool
route_model requested rules roll =
    let used = apply_mix requested rules roll in (used, not (text_beq used requested))
