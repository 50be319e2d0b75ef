-- ===== src/Convert/Variants.antt =====
-- server/internal/convert/variants.go: the aliases that stand for a model at a thinking tier. The
-- generation parameters that applyVariantGeneration sets are a record of two entries of the map.
pub mod Laws
use antigravity2api.Base.{
  ℕ, zero, suc, Bool, true, false, ◌&&◌, ◌||◌, not, List, [], ◌∷◌, ◌++◌, Option, none, some, Text,
  ℤ, pos, negsuc, text_beq, is_empty, length, ltb, ◌-◌, if◌then◌else◌,
}
use antigravity2api.Strings.{
  codes, trim_space, trim_prefix, trim_suffix, to_lower, has_prefix, or_else,
}
use antigravity2api.Convert.Catalog.{
  map_model, models_prefix, contains, is_image_model, is_thinking_model, default_thinking_budget,
  max_output_tokens,
}

pub record ModelResolution : Type 0 where
  pub model : Text
  pub thinking_budget : ℕ
  pub max_output : ℕ
  pub include_thinking : Bool
  pub variant : Bool

-- The values of `tier`.
pub data Tier : Type 0 where
  low medium high : Tier

unfoldable pub tier_text : Tier → Text
tier_text low = codes "low"
tier_text medium = codes "medium"
tier_text high = codes "high"

-- strings.ReplaceAll(s, p, ""); the first `skip` code points belong to an occurrence.
unfoldable pub remove_from : Text → ℕ → Text → Text
unfolding has_prefix
remove_from p skip [] = []
remove_from p (suc skip) (c ∷ s) = remove_from p skip s
remove_from p zero (c ∷ s) =
    let kept = c ∷ remove_from p zero s in
    let gone = remove_from p (length p - 1) s in if has_prefix (c ∷ s) p then gone else kept

unfoldable pub remove_all : List Text → Text → Text
unfolding remove_from
remove_all [] s = s
remove_all (p ∷ ps) s = remove_all ps (remove_from p 0 s)

abbrev pub image_suffixes : List Text
image_suffixes =
    codes "-4k"
    ∷ codes "-2k"
    ∷ codes "-1k"
    ∷ codes "-hd"
    ∷ codes "-standard"
    ∷ codes "-21x9"
    ∷ codes "-16x9"
    ∷ codes "-9x16"
    ∷ codes "-4x3"
    ∷ codes "-3x4"
    ∷ codes "-3x2"
    ∷ codes "-2x3"
    ∷ codes "-5x4"
    ∷ codes "-4x5"
    ∷ codes "-1x1"
    ∷ []

-- The key that the switch looks at.
unfoldable pub variant_key : Text → Text
unfolding remove_all trim_suffix trim_prefix trim_space to_lower is_image_model
variant_key model =
    let key =
      trim_suffix (to_lower (trim_prefix (trim_space model) models_prefix)) (codes "-online") in
    if is_image_model key
    then trim_suffix (remove_all image_suffixes key) (codes "-preview")
    else key

abbrev pub below : ℤ → ℕ → Bool
below (pos n) bound = ltb n bound
below (negsuc n) bound = true

-- The tier of a budget, and the effort that overrides it.
unfoldable pub tier_of : Option ℤ → Text → Tier
unfolding to_lower text_beq
tier_of budget effort =
    let tier : Tier = elim budget [
      | none ↦ high
      | some b ↦ if below b 2000 then low else (if below b 7000 then medium else high)
    ] in
    if text_beq (to_lower effort) (codes "low")
    then low
    else (if text_beq (to_lower effort) (codes "medium")
        then medium
        else (if text_beq (to_lower effort) (codes "high") then high else tier))

abbrev pub flash_35 : Tier → Text
flash_35 low = codes "gemini-3.5-flash-extra-low"
flash_35 medium = codes "gemini-3.5-flash-low"
flash_35 high = codes "gemini-3-flash-agent"

abbrev pub pro_31 : Tier → Text
pro_31 low = codes "gemini-3.1-pro-low"
pro_31 medium = codes "gemini-pro-agent"
pro_31 high = codes "gemini-pro-agent"

abbrev pub flash_37 : Tier → Text
flash_37 t = codes "gemini-3.7-flash-" ++ tier_text t

-- The cases of the switch on the key, each with the model that it gives at a tier.
abbrev pub variant_cases : List (List Text × (Tier → Text))
variant_cases =
    (
      codes "gemini-3-flash" ∷ codes "gemini-3.5-flash" ∷ codes "gemini-3.5-flash-high" ∷ [],
      flash_35,
    )
    ∷ (codes "gemini-3.5-flash-medium" ∷ [], λ t. codes "gemini-3.5-flash-low")
    ∷ (codes "gemini-3.5-flash-low" ∷ [], λ t. codes "gemini-3.5-flash-extra-low")
    ∷ (
      codes "gemini-3.7-flash"
          ∷ codes "gemini-3.7-flash-tiered"
          ∷ codes "gemini-3.7-flash-high"
          ∷ codes "gemini-3.6-flash"
          ∷ codes "gemini-3.6-flash-tiered"
          ∷ codes "gemini-3.6-flash-high"
          ∷ [],
      flash_37,
    )
    ∷ (
      codes "gemini-3.7-flash-medium" ∷ codes "gemini-3.6-flash-medium" ∷ [],
      λ t. codes "gemini-3.7-flash-medium",
    )
    ∷ (
      codes "gemini-3.7-flash-low" ∷ codes "gemini-3.6-flash-low" ∷ [],
      λ t. codes "gemini-3.7-flash-low",
    )
    ∷ (
      codes "gemini-3.1-pro"
          ∷ codes "gemini-pro"
          ∷ codes "gemini-3.1-pro-high"
          ∷ codes "gemini-3-pro-high"
          ∷ [],
      pro_31,
    )
    ∷ (codes "gemini-3.1-pro-low" ∷ [], λ t. codes "gemini-3.1-pro-low")
    ∷ []

-- The first case that lists the key.
unfoldable pub case_of : List (List Text × (Tier → Text)) → Text → Option (Tier → Text)
case_of [] key = none
case_of ((keys, target) ∷ cases) key =
    let rest = case_of cases key in if contains keys key then some target else rest

unfoldable pub variant_of : Text → Option (Tier → Text)
variant_of key = case_of variant_cases key

abbrev pub resolution : Text → Bool → ModelResolution
resolution mapped variant = record {
  model = mapped;
  thinking_budget = default_thinking_budget mapped;
  max_output = max_output_tokens mapped;
  include_thinking = is_thinking_model mapped;
  variant = variant;
}

-- ResolveModel
unfoldable pub resolve_model : Text → Option ℤ → Text → ModelResolution
resolve_model model budget effort =
    let key = variant_key model in
    elim (variant_of key) [
      | some target ↦ resolution (target (tier_of budget effort)) true
      | none ↦ resolution (map_model key) false
    ]

-- thinkingConfigEnabled of what applyVariantGeneration is given, and what it sets.
pub record Generation : Type 0 where
  pub thinking_enabled : Bool
  pub budget : ℤ
  pub output_limit : ℕ

abbrev pub final_models : List Text
final_models =
    codes "gemini-3.7-flash-low"
    ∷ codes "gemini-3.7-flash-medium"
    ∷ codes "gemini-3.7-flash-high"
    ∷ codes "gemini-3.6-flash-low"
    ∷ codes "gemini-3.6-flash-medium"
    ∷ codes "gemini-3.6-flash-high"
    ∷ codes "gemini-3.5-flash-extra-low"
    ∷ codes "gemini-3.5-flash-low"
    ∷ codes "gemini-3-flash-agent"
    ∷ codes "gemini-3.1-pro-low"
    ∷ codes "gemini-pro-agent"
    ∷ []

-- applyVariantGeneration
unfoldable pub apply_variant_generation : Generation → Text → Text → Generation
apply_variant_generation gen requested final =
    if not (resolve_model requested none []).variant
    then gen
    else (if not (contains final_models (to_lower final))
        then gen
        else (if not gen.thinking_enabled then gen else record {
          thinking_enabled = true;
          budget = pos (default_thinking_budget final);
          output_limit = max_output_tokens final;
        }))

-- OpenAIThinking, as far as requestModel reads it.
pub record OpenAiThinking : Type 0 where
  pub budget_tokens : Option ℤ
  pub effort : Text

-- requestModel
unfoldable pub request_model : Text → Text → Option OpenAiThinking → Text → Text
request_model requested final thinking effort =
    if not (is_empty final) then trim_prefix (trim_space final) models_prefix else elim thinking [
      | none ↦ (resolve_model requested none effort).model
      | some t ↦
          (resolve_model requested t.budget_tokens
            (if is_empty effort && not (is_empty t.effort) then t.effort else effort)).model
    ]
