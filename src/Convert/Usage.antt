-- ===== src/Convert/Usage.antt =====
-- The counts of tokens in server/internal/convert: geminiUsageToOpenAI, TokenUsageFromOpenAI and
-- UsageFromGemini of openai.go, and claudeUsage of claude.go. Counts are integers without the bound
-- of 64 bits.
pub mod Laws
use antigravity2api.Base.{
  ℕ, zero, suc, ◌+◌, Bool, true, false, ◌&&◌, ◌||◌, not, List, [], ◌∷◌, Option, none, some, Text, ℤ,
  pos, negsuc, ◌+ℤ◌, negate, positive, int_is_zero, is_some, if◌then◌else◌,
}
use antigravity2api.Strings.{codes, or_else}
use antigravity2api.Json.{
  Json, num, obj, Number, Fields, field, end, get, set, is_set, as_fields, fields_or_empty,
}
use antigravity2api.Convert.Values.{int_val}

-- An int in a map.
abbrev pub int_json : ℤ → Json
int_json n = num (record { truncated = n; integral = true })

-- num: the first of the keys that has a number, or 0.
unfoldable pub first_number : List Text → Fields → ℤ
unfolding get
first_number [] m = pos 0
first_number (k ∷ keys) m =
    let rest = first_number keys m in elim (get k m) [ num n ↦ n.truncated | _ ↦ rest ]

abbrev pub or_if_zero : ℤ → ℤ → ℤ
or_if_zero i j = if int_is_zero i then j else i

-- The locals of geminiUsageToOpenAI.
unfoldable pub prompt_tokens : Fields → ℤ
unfolding first_number
prompt_tokens m = first_number (codes "total_input_tokens" ∷ codes "promptTokenCount" ∷ []) m

unfoldable pub thought_tokens : Fields → ℤ
unfolding first_number
thought_tokens m = first_number (codes "total_thought_tokens" ∷ codes "thoughtsTokenCount" ∷ []) m

unfoldable pub output_tokens : Fields → ℤ
unfolding first_number thought_tokens get
output_tokens m =
    let all = first_number (codes "total_output_tokens" ∷ []) m in
    if is_set (get (codes "total_output_tokens") m)
    then all +ℤ thought_tokens m +ℤ first_number (codes "total_tool_use_tokens" ∷ []) m
    else or_if_zero (first_number (codes "candidatesTokenCount" ∷ []) m) all

unfoldable pub cached_tokens : Fields → ℤ
unfolding first_number get as_fields int_val
cached_tokens m =
    or_if_zero
      (first_number
        (codes "cachedContentTokenCount"
          ∷ codes "cachedTokens"
          ∷ codes "cached_content_token_count"
          ∷ codes "cache_read_input_tokens"
          ∷ codes "cached_input_tokens"
          ∷ [])
        m)
      (elim (as_fields (get (codes "promptTokensDetails") m)) [
        | none ↦ pos 0
        | some d ↦
            or_if_zero (int_val (get (codes "cachedContentTokenCount") d))
              (int_val (get (codes "cachedTokens") d))
      ])

unfoldable pub total_tokens : Fields → ℤ
unfolding first_number prompt_tokens output_tokens
total_tokens m =
    or_if_zero (first_number (codes "total_tokens" ∷ codes "totalTokenCount" ∷ []) m)
      (prompt_tokens m +ℤ output_tokens m)

unfoldable pub usage_fields : ℤ → ℤ → ℤ → ℤ → ℤ → Fields
usage_fields prompt out total thought cache =
    let basic = field (codes "prompt_tokens") (int_json prompt) (
      field (codes "completion_tokens") (int_json out)
        (field (codes "total_tokens") (int_json total) end)) in
    let with_thought =
      if positive thought
      then field (codes "completion_tokens_details")
          (obj (field (codes "reasoning_tokens") (int_json thought) end)) basic
      else basic in
    if positive cache
    then field (codes "prompt_tokens_details")
        (obj (field (codes "cached_tokens") (int_json cache) end)) with_thought
    else with_thought

-- geminiUsageToOpenAI; `none` is the nil map.
unfoldable pub gemini_usage_to_openai : Json → Option Fields
gemini_usage_to_openai u = elim (as_fields u) [
  | none ↦ none
  | some m ↦ some (
      usage_fields (prompt_tokens m) (output_tokens m) (total_tokens m) (thought_tokens m)
        (cached_tokens m))
]

pub record TokenUsage : Type 0 where
  pub input : ℤ
  pub output : ℤ
  pub cache : ℤ
  pub reasoning : ℤ

abbrev pub no_usage : TokenUsage
no_usage = record { input = pos 0; output = pos 0; cache = pos 0; reasoning = pos 0 }

-- TokenUsage.Empty
unfoldable pub is_empty_usage : TokenUsage → Bool
is_empty_usage u =
    int_is_zero u.input && int_is_zero u.output && int_is_zero u.cache && int_is_zero u.reasoning

-- The count in the details, or the one beside them.
unfoldable pub detail : Text → Text → Fields → ℤ
detail details key m =
    or_if_zero (elim (as_fields (get details m)) [ none ↦ pos 0 | some d ↦ int_val (get key d) ])
      (int_val (get key m))

-- TokenUsageFromOpenAI
unfoldable pub token_usage_from_openai : Option Fields → TokenUsage
token_usage_from_openai none = no_usage
token_usage_from_openai (some m) = record {
  input = int_val (get (codes "prompt_tokens") m);
  output = int_val (get (codes "completion_tokens") m);
  cache = detail (codes "prompt_tokens_details") (codes "cached_tokens") m;
  reasoning = detail (codes "completion_tokens_details") (codes "reasoning_tokens") m;
}

-- usageFromPayload
unfoldable pub usage_from_payload : Fields → TokenUsage
unfolding get
usage_from_payload p =
    token_usage_from_openai (gemini_usage_to_openai (get (codes "usageMetadata") p))

-- UsageFromGemini, of a decoded envelope.
unfoldable pub usage_from_gemini : Fields → TokenUsage
unfolding usage_from_payload is_empty_usage get as_fields
usage_from_gemini envelope =
    let u = usage_from_payload envelope in
    if not (is_empty_usage u) then u else elim (as_fields (get (codes "response") envelope)) [
      | some r ↦ usage_from_payload r
      | none ↦ no_usage
    ]

-- What claudeUsage tells: the input without the cached tokens, the output, and the cached tokens if
-- there are some.
pub record ClaudeUsage : Type 0 where
  pub input_tokens : ℤ
  pub out_tokens : ℤ
  pub cache_read : Option ℤ

-- claudeUsage
unfoldable pub claude_usage : Option Fields → ClaudeUsage
claude_usage u =
    let usage = token_usage_from_openai u in
    let input = usage.input +ℤ negate usage.cache in
    record {
      input_tokens = if positive input then input else pos 0;
      out_tokens = usage.output;
      cache_read = if positive usage.cache then some usage.cache else none;
    }
