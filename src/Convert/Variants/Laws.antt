-- ===== src/Convert/Variants/Laws.antt =====
-- What a variant resolves to.
use antigravity2api.Base.{
  ℕ, ◌+◌, ◌≤◌, ◌≡◌, refl, subst, ap, Bool, true, false, List, [], ◌∷◌, All, Option, some, Text, ℤ,
  Option-cases, inl, inr, arith,
}
use antigravity2api.Strings.{to_lower, or_else}
use antigravity2api.Convert.Catalog.{
  contains, default_thinking_budget, max_output_tokens, is_thinking_model,
}
use antigravity2api.Convert.Variants.{
  Tier, low, medium, high, tier_text, tier_of, variant_key, variant_cases, case_of, variant_of,
  resolve_model, final_models, flash_35, flash_37, pro_31,
}

abbrev pub rank : Tier → ℕ
rank low = 0
rank medium = 1
rank high = 2

-- A model with a calibrated budget for thoughts, which leaves room for output.
abbrev pub Calibrated : Text → Type 0
Calibrated m =
    (contains final_models (to_lower m) ≡ true)
    × (1000 ≤ default_thinking_budget m)
    × (default_thinking_budget m ≤ 10001)
    × (default_thinking_budget m + 10000 ≤ max_output_tokens m)
    × (is_thinking_model m ≡ true)

-- What a case of the switch is to satisfy.
record Sound (target : Tier → Text) : Type 0 where
  calibrated : (t : Tier) → Calibrated (target t)
  rises :
      (t u : Tier)
      → rank t ≤ rank u
      → default_thinking_budget (target t) ≤ default_thinking_budget (target u)

abbrev CaseSound : List Text × (Tier → Text) → Type 0
CaseSound (keys, target) = Sound target

-- Two steps up are enough for an order of tiers.
rises_by_steps :
    (f : Tier → ℕ)
    → f low ≤ f medium
    → f medium ≤ f high
    → (t u : Tier) → rank t ≤ rank u
    → f t ≤ f u
rises_by_steps f a b low low h = omega arith
rises_by_steps f a b low medium h = a
rises_by_steps f a b low high h = omega (arith, a, b)
rises_by_steps f a b medium low h = absurd (omega (arith, h))
rises_by_steps f a b medium medium h = omega arith
rises_by_steps f a b medium high h = b
rises_by_steps f a b high low h = absurd (omega (arith, h))
rises_by_steps f a b high medium h = absurd (omega (arith, h))
rises_by_steps f a b high high h = omega arith

constant_Sound : (m : Text) → Calibrated m → Sound (λ t. m)
constant_Sound m c = record { calibrated = λ t. c; rises = λ t u h. omega arith }

flash_35-Calibrated : (t : Tier) → Calibrated (flash_35 t)
unfolding contains to_lower default_thinking_budget max_output_tokens is_thinking_model
flash_35-Calibrated low = (refl, omega arith, omega arith, omega arith, refl)
flash_35-Calibrated medium = (refl, omega arith, omega arith, omega arith, refl)
flash_35-Calibrated high = (refl, omega arith, omega arith, omega arith, refl)

flash_37-Calibrated : (t : Tier) → Calibrated (flash_37 t)
unfolding tier_text contains to_lower default_thinking_budget max_output_tokens is_thinking_model
flash_37-Calibrated low = (refl, omega arith, omega arith, omega arith, refl)
flash_37-Calibrated medium = (refl, omega arith, omega arith, omega arith, refl)
flash_37-Calibrated high = (refl, omega arith, omega arith, omega arith, refl)

pro_31-Calibrated : (t : Tier) → Calibrated (pro_31 t)
unfolding contains to_lower default_thinking_budget max_output_tokens is_thinking_model
pro_31-Calibrated low = (refl, omega arith, omega arith, omega arith, refl)
pro_31-Calibrated medium = (refl, omega arith, omega arith, omega arith, refl)
pro_31-Calibrated high = (refl, omega arith, omega arith, omega arith, refl)

variant_cases-Sound : All CaseSound variant_cases
unfolding tier_text default_thinking_budget
variant_cases-Sound = (
  record {
    calibrated = flash_35-Calibrated;
    rises = rises_by_steps (λ t. default_thinking_budget (flash_35 t)) (omega arith) (omega arith);
  },
  (
    constant_Sound _ (flash_35-Calibrated medium),
    (
      constant_Sound _ (flash_35-Calibrated low),
      (
        record {
          calibrated = flash_37-Calibrated;
          rises =
              rises_by_steps (λ t. default_thinking_budget (flash_37 t)) (omega arith)
                (omega arith);
        },
        (
          constant_Sound _ (flash_37-Calibrated medium),
          (
            constant_Sound _ (flash_37-Calibrated low),
            (
              record {
                calibrated = pro_31-Calibrated;
                rises =
                    rises_by_steps (λ t. default_thinking_budget (pro_31 t)) (omega arith)
                      (omega arith);
              },
              (constant_Sound _ (pro_31-Calibrated low), tt),
            ),
          ),
        ),
      ),
    ),
  ),
)

case_of-Sound :
    (cases : List (List Text × (Tier → Text))) (key : Text) (target : Tier → Text)
    → All CaseSound cases
    → case_of cases key ≡ some target
    → Sound target
unfolding case_of
case_of-Sound [] key target h e = absurd (ground (arith, e))
case_of-Sound ((keys, f) ∷ cases) key target h e =
    go (contains keys key) refl (case_of-Sound cases key target h.1)
  where
    go :
        (b : Bool)
        → contains keys key ≡ b
        → (case_of cases key ≡ some target → Sound target)
        → Sound target
    go true q ih =
        let same : some f ≡ some target = rw (q, case_of) at e in
        subst Sound (ap (λ o. or_else o f) same) h.0
    go false q ih = ih (rw (q, case_of) at e)

variant_of-Sound : (key : Text) (target : Tier → Text) → variant_of key ≡ some target → Sound target
unfolding variant_of
variant_of-Sound key target e = case_of-Sound variant_cases key target variant_cases-Sound e

-- An alias that is a variant stands for a model with a calibrated budget of 1000 to 10001 tokens
-- for its thoughts, which leaves 10000 tokens of output or more.
pub resolve_model-variant :
    (model : Text) (budget : Option ℤ) (effort : Text)
    → (resolve_model model budget effort).variant ≡ true
    → let r = resolve_model model budget effort in
      (contains final_models (to_lower r.model) ≡ true)
      × (1000 ≤ r.thinking_budget)
      × (r.thinking_budget ≤ 10001)
      × (r.thinking_budget + 10000 ≤ r.max_output)
      × (r.include_thinking ≡ true)
unfolding resolve_model
resolve_model-variant model budget effort v = elim (Option-cases (variant_of (variant_key model))) [
  | inl e ↦ ground arith
  | inr (target, e) ↦
      let c = (variant_of-Sound (variant_key model) target e).calibrated (tier_of budget effort) in
      ground (arith, c)
]

-- With the same alias, a request whose tier is no lower is never given a smaller budget for its
-- thoughts, whether the tier comes from an effort or from a budget.
pub resolve_model_mono :
    (model : Text) (b c : Option ℤ) (e f : Text)
    → rank (tier_of b e) ≤ rank (tier_of c f)
    → (resolve_model model b e).thinking_budget ≤ (resolve_model model c f).thinking_budget
unfolding resolve_model
resolve_model_mono model b c e f h = elim (Option-cases (variant_of (variant_key model))) [
  | inl q ↦ ground arith
  | inr (target, q) ↦
      let up =
        (variant_of-Sound (variant_key model) target q).rises (tier_of b e) (tier_of c f) h in
      ground (arith, up)
]
