-- ===== src/Examples/Models.antt =====
-- Aliases of models, rules that mix models, and configurations.
use antigravity2api.Base.{
  ℕ, ◌+◌, ◌*◌, ◌≤◌, ◌≡◌, refl, true, false, List, [], ◌∷◌, none, some, Text, pos, negsuc, to_nat,
  text_beq, ltb, arith, if◌then◌else◌,
}
use antigravity2api.Strings.{codes, to_lower, trim_space}
use antigravity2api.Time.{second}
use antigravity2api.Convert.Catalog.{contains}
use antigravity2api.Convert.Mix.{
  MixRule, match_mix_source, clamp_percent, mix_with, apply_mix, route_model,
}
use antigravity2api.Convert.Mix.Share.{first_rule, mixed_below, route_model-share}
use antigravity2api.Convert.Variants.{
  variant_of, variant_key, case_of, tier_of, tier_text, final_models, resolve_model,
}
use antigravity2api.Convert.Variants.Laws.{resolve_model-variant, resolve_model_mono}
use antigravity2api.Config.{settings, with_defaults, load, default_to, cap_at}
use antigravity2api.Config.Laws.{InBounds, with_defaults-InBounds}

abbrev to_opus : MixRule
to_opus = record {
  from = codes " Gemini-3-Pro-High ";
  to = codes "claude-opus-4-6 ";
  percent = pos 25;
  enabled = true;
}

abbrev switched_off : MixRule
switched_off = record to_opus { enabled = false }

abbrev rules : List MixRule
rules = switched_off ∷ to_opus ∷ []

abbrev pro : Text
pro = codes "gemini-3-pro"

mix_run : route_model pro rules 24 ≡ (codes "claude-opus-4-6", true)
unfolding route_model apply_mix mix_with match_mix_source clamp_percent trim_space text_beq
mix_run = refl

to_opus_first : first_rule pro rules ≡ some to_opus
unfolding first_rule match_mix_source trim_space
to_opus_first = refl

to_opus_other : text_beq (trim_space to_opus.to) pro ≡ false
unfolding trim_space text_beq
to_opus_other = refl

route_model-share_example :
    (mixed_below pro rules 100 ≡ clamp_percent to_opus.percent)
    × ((roll : ℕ)
        → route_model pro rules roll ≡ (
            if ltb roll (clamp_percent to_opus.percent)
            then (trim_space to_opus.to, true)
            else (pro, false)))
route_model-share_example = route_model-share pro rules to_opus to_opus_first to_opus_other

variant_run :
    (resolve_model (codes "models/Gemini-3.6-Flash-tiered") (some (pos 5000)) []).model
    ≡ codes "gemini-3.7-flash-medium"
unfolding resolve_model variant_of variant_key case_of tier_of contains tier_text
variant_run = refl

abbrev flash : Text
flash = codes "gemini-3-flash"

flash_variant : (resolve_model flash (some (negsuc 0)) []).variant ≡ true
unfolding resolve_model variant_of variant_key case_of contains
flash_variant = refl

resolve_model-variant_example :
    let r = resolve_model flash (some (negsuc 0)) [] in
    (contains final_models (to_lower r.model) ≡ true)
    × (1000 ≤ r.thinking_budget)
    × (r.thinking_budget ≤ 10001)
    × (r.thinking_budget + 10000 ≤ r.max_output)
    × (r.include_thinking ≡ true)
resolve_model-variant_example = resolve_model-variant flash (some (negsuc 0)) [] flash_variant

resolve_model_mono_example :
    (resolve_model flash (some (pos 1999)) []).thinking_budget
    ≤ (resolve_model flash none (codes "Medium")).thinking_budget
unfolding tier_of
resolve_model_mono_example =
    resolve_model_mono flash (some (pos 1999)) none [] (codes "Medium") (omega arith)

-- An environment that asks for too many requests, and for no attempt.
abbrev getenv : Text → Text
getenv key =
    if text_beq key (codes "MAX_CONCURRENT_REQUESTS")
    then codes " 5000 "
    else (if text_beq key (codes "MAX_RETRY_ATTEMPTS") then codes "-1" else [])

load_run :
    (to_nat (load getenv [] []).max_concurrent_requests ≡ 4096)
    × (to_nat (load getenv [] []).max_retry_attempts ≡ 5)
    × (to_nat (load getenv [] []).request_timeout ≡ 600 * second)
unfolding load settings with_defaults default_to cap_at text_beq
load_run = (refl, refl, refl)

with_defaults-InBounds_example : InBounds (with_defaults (settings getenv [] []))
with_defaults-InBounds_example = with_defaults-InBounds (settings getenv [] [])
