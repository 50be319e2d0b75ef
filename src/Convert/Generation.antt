-- ===== src/Convert/Generation.antt =====
-- normalizeGenerationConfig of server/internal/convert/wrap.go and its helpers: what the upstream is
-- told of tokens and of thinking. A configuration that is no map reads as an empty one.
pub mod Asked
pub mod Budget
use antigravity2api.Base.{
  ℕ, zero, ◌-◌, ◌/◌, Bool, true, false, ◌&&◌, ◌||◌, not, List, [], ◌∷◌, Option, none, some, Text,
  text_beq, ltb, ℤ, pos, negsuc, ◌+ℤ◌, positive, exceeds, is_empty, if◌then◌else◌, ◌^◌,
}
use antigravity2api.Strings.{codes, to_lower, to_upper, contains}
use antigravity2api.Json.{
  Json, bool, num, str, obj, Number, Fields, field, end, get, has, set, remove, is_set,
  fields_or_empty, as_fields,
}
use antigravity2api.Convert.Values.{text_of, int_val, is_zero_number}
use antigravity2api.Convert.Usage.{int_json}
use antigravity2api.Convert.Catalog.{default_thinking_budget, max_output_tokens}

-- isZeroPenalty
unfoldable pub is_zero_penalty : Json → Bool
is_zero_penalty (num n) = is_zero_number n
is_zero_penalty _ = false

unfoldable pub drop_penalties : List Text → Fields → Fields
unfolding is_zero_penalty get remove
drop_penalties [] gc = gc
drop_penalties (key ∷ keys) gc =
    drop_penalties keys (if is_zero_penalty (get key gc) then remove key gc else gc)

abbrev pub penalties : List Text
penalties =
    codes "presencePenalty"
    ∷ codes "frequencyPenalty"
    ∷ codes "presence_penalty"
    ∷ codes "frequency_penalty"
    ∷ []

-- if gc[key] == nil { gc[key] = v }
unfoldable pub set_default : Text → Json → Fields → Fields
unfolding get set
set_default key v gc = if is_set (get key gc) then gc else set key v gc

-- thinkingBudgetFromLevel
unfoldable pub thinking_budget_from_level : Text → Text → ℕ
unfolding default_thinking_budget to_upper text_beq
thinking_budget_from_level model level =
    let cap = default_thinking_budget model in
    let l = to_upper level in
    if text_beq l (codes "NONE")
    then 0
    else (if text_beq l (codes "LOW")
        then (if ltb 4096 (cap / 4) then cap / 4 else 4096)
        else (if text_beq l (codes "HIGH")
            then cap
            else (if ltb 8192 (cap / 2) then cap / 2 else 8192)))

unfoldable pub is_claude : Text → Bool
unfolding to_lower contains
is_claude model = contains (to_lower model) (codes "claude")

-- The bound on a client's budget.
unfoldable pub cap_budget : Text → ℕ
unfolding default_thinking_budget to_lower contains
cap_budget model =
    if contains (to_lower model) (codes "claude-sonnet")
    then 32768
    else default_thinking_budget model

-- The part about thinkingLevel.
unfoldable pub read_level : Text → Fields → Fields
unfolding thinking_budget_from_level is_claude get set remove
read_level model tc =
    let level = text_of (codes "thinkingLevel") tc in
    let rest = remove (codes "thinkingLevel") tc in
    if is_empty level || is_claude model
    then tc
    else (if is_set (get (codes "thinkingBudget") rest)
        then rest
        else set (codes "thinkingBudget") (int_json (pos (thinking_budget_from_level model level)))
            rest)

-- A sum of two int64, the second not negative, which wraps.
unfoldable pub wrapped : ℤ → ℤ
wrapped (pos n) = if ltb n (2 ^ 63) then pos n else negsuc (2 ^ 64 - 1 - n)
wrapped (negsuc n) = negsuc n

-- The budget and maxTokens, after the clamps.
unfoldable pub fit_budget : ℕ → ℕ → ℤ → ℕ → ℤ × ℤ
unfolding wrapped
fit_budget cap model_max budget max_tokens =
    let capped = if exceeds budget (pos cap) && ltb 0 cap then pos cap else budget in
    let grown = wrapped (capped +ℤ pos 8192) in
    if exceeds (pos max_tokens) capped
    then (capped, pos max_tokens)
    else (if exceeds grown (pos model_max)
        then (pos model_max +ℤ negsuc 8191, pos model_max)
        else (capped, grown))

-- maxTokens, before the budget.
unfoldable pub first_max : Text → Fields → ℕ
unfolding max_output_tokens int_val get
first_max model gc =
    let model_max = max_output_tokens model in
    elim (int_val (get (codes "maxOutputTokens") gc)) [
      | negsuc n ↦ model_max
      | pos n ↦ if ltb 0 n && not (ltb model_max n) then n else model_max
    ]

-- thinkingConfig and maxTokens
unfoldable pub fit_thinking : Text → ℕ → Fields → Fields × ℤ
unfolding read_level fit_budget cap_budget has get set int_val
fit_thinking model max_tokens given =
    let tc = read_level model given in
    let (budget, m) =
      fit_budget (cap_budget model) (max_output_tokens model)
        (int_val (get (codes "thinkingBudget") tc)) max_tokens in
    if has (codes "thinkingBudget") tc
    then (set (codes "thinkingBudget") (int_json budget) tc, m)
    else (tc, pos max_tokens)

-- With the defaults of topK and topP.
unfoldable pub with_samples : Fields → Fields
unfolding set_default
with_samples gc =
    set_default (codes "topP") (int_json (pos 1))
      (set_default (codes "topK") (int_json (pos 40)) gc)

-- normalizeGenerationConfig
unfoldable pub normalize_generation_config : Text → Json → Bool → Fields
unfolding drop_penalties with_samples first_max fit_thinking get set remove fields_or_empty
    as_fields
normalize_generation_config model gen image =
    let gc = drop_penalties penalties (fields_or_empty gen) in
    if image
    then remove (codes "responseModalities") (remove (codes "responseMimeType") gc)
    else (let sampled = with_samples gc in
        elim (as_fields (get (codes "thinkingConfig") sampled)) [
          | none ↦ set (codes "maxOutputTokens") (int_json (pos (first_max model sampled))) sampled
          | some given ↦
              let (tc, m) = fit_thinking model (first_max model sampled) given in
              set (codes "maxOutputTokens") (int_json m)
                (set (codes "thinkingConfig") (obj tc) sampled)
        ])

abbrev is_minus_one : ℤ → Bool
is_minus_one (negsuc zero) = true
is_minus_one _ = false

-- thinkingConfigEnabled
unfoldable pub thinking_config_enabled : Json → Bool
unfolding get fields_or_empty as_fields int_val
thinking_config_enabled gen =
    elim (as_fields (get (codes "thinkingConfig") (fields_or_empty gen))) [
      | none ↦ false
      | some tc ↦
          let on : Bool = elim (get (codes "includeThoughts") tc) [ bool b ↦ b | _ ↦ false ] in
          let budget = int_val (get (codes "thinkingBudget") tc) in
          on || positive budget || is_minus_one budget
    ]
