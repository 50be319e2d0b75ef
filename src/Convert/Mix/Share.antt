-- ===== src/Convert/Mix/Share.antt =====
-- How many of the rolls a rule diverts.
use antigravity2api.Base.{
  ℕ, zero, suc, ◌+◌, ◌≡◌, refl, Bool, true, false, ◌&&◌, not, List, [], ◌∷◌, Option, none, some,
  Text, text_beq, text_beq_iff, is_empty, ltb, min, arith, if◌then◌else◌,
}
use antigravity2api.Strings.{trim_space}
use antigravity2api.Convert.Catalog.{map_model}
use antigravity2api.Convert.Mix.{
  MixRule, match_mix_source, clamp_percent, mix_with, apply_mix, route_model,
}

-- A rule applies to a model if it is on, has a target and matches.
abbrev pub applies : Text → MixRule → Bool
applies requested rule =
    rule.enabled
    && not (is_empty (trim_space rule.to))
    && match_mix_source rule.from requested (map_model requested)

-- The first rule that applies.
unfoldable pub first_rule : Text → List MixRule → Option MixRule
first_rule requested [] = none
first_rule requested (rule ∷ rules) =
    let rest = first_rule requested rules in if applies requested rule then some rule else rest

-- How many of the rolls below `n` are marked as mixed.
unfoldable pub mixed_below : Text → List MixRule → ℕ → ℕ
unfolding route_model
mixed_below requested rules zero = 0
mixed_below requested rules (suc n) =
    mixed_below requested rules n + (if (route_model requested rules n).1 then 1 else 0)

abbrev pub decide : Text → ℕ → Option MixRule → Text
decide requested roll none = requested
decide requested roll (some rule) =
    if ltb roll (clamp_percent rule.percent) then trim_space rule.to else requested

apply_mix-first :
    (requested : Text) (rules : List MixRule) (roll : ℕ)
    → apply_mix requested rules roll ≡ decide requested roll (first_rule requested rules)
unfolding apply_mix mix_with first_rule
apply_mix-first requested [] roll = refl
apply_mix-first requested (rule ∷ rules) roll =
    let rest : mix_with requested (map_model requested) roll rules
        ≡ decide requested roll (first_rule requested rules) =
      apply_mix-first requested rules roll in
    ground (arith, rest)

-- A roll is marked as mixed exactly when it is below the rule's share.
route_model-mixed :
    (requested : Text) (rules : List MixRule) (rule : MixRule) (roll : ℕ)
    → first_rule requested rules ≡ some rule
    → text_beq (trim_space rule.to) requested ≡ false
    → (route_model requested rules roll).1 ≡ ltb roll (clamp_percent rule.percent)
unfolding route_model
route_model-mixed requested rules rule roll e other =
    ground (arith, apply_mix-first requested rules roll, text_beq_iff requested requested)

mixed_below-min :
    (requested : Text) (rules : List MixRule) (rule : MixRule) (n : ℕ)
    → first_rule requested rules ≡ some rule
    → text_beq (trim_space rule.to) requested ≡ false
    → mixed_below requested rules n ≡ min n (clamp_percent rule.percent)
unfolding mixed_below
mixed_below-min requested rules rule zero e other = omega arith
mixed_below-min requested rules rule (suc n) e other = ground (
  arith,
  mixed_below-min requested rules rule n e other,
  route_model-mixed requested rules rule n e other,
)

route_model-kept :
    (requested : Text) (rules : List MixRule) (rule : MixRule) (roll : ℕ)
    → first_rule requested rules ≡ some rule
    → (route_model requested rules roll).0
      ≡ (if ltb roll (clamp_percent rule.percent) then trim_space rule.to else requested)
unfolding route_model
route_model-kept requested rules rule roll e = ground (arith, apply_mix-first requested rules roll)

-- Of the hundred rolls, exactly as many as the percentage of the first rule that applies, brought
-- into 0 to 100, are given the rule's target and marked as mixed, where the target is another
-- model; the others keep the requested model.
pub route_model-share :
    (requested : Text) (rules : List MixRule) (rule : MixRule)
    → first_rule requested rules ≡ some rule
    → text_beq (trim_space rule.to) requested ≡ false
    → (mixed_below requested rules 100 ≡ clamp_percent rule.percent)
      × ((roll : ℕ)
          → route_model requested rules roll ≡ (
              if ltb roll (clamp_percent rule.percent)
              then (trim_space rule.to, true)
              else (requested, false)))
unfolding clamp_percent
route_model-share requested rules rule e other =
    let below = mixed_below-min requested rules rule 100 e other in
    (
      ground (arith, below),
      λ roll. ground (
        arith,
        route_model-mixed requested rules rule roll e other,
        route_model-kept requested rules rule roll e,
      ),
    )
