-- ===== src/Convert/Usage/Laws.antt =====
-- What is left of Gemini's counts after the translation to OpenAI's.
use antigravity2api.Base.{zero, suc, ◌≡◌, refl, some, text_beq, ℤ, pos, negsuc, to_nat, arith}
use antigravity2api.Json.{obj, Fields, get, as_fields}
use antigravity2api.Convert.Values.{int_val}
use antigravity2api.Convert.Usage.{
  prompt_tokens, output_tokens, total_tokens, thought_tokens, cached_tokens, usage_fields,
  gemini_usage_to_openai, detail, token_usage_from_openai,
}

-- max(0, i)
abbrev pub at_least_zero : ℤ → ℤ
at_least_zero i = pos (to_nat i)

usage_fields-read :
    (prompt out total thought cache : ℤ)
    → token_usage_from_openai (some (usage_fields prompt out total thought cache)) ≡ record {
      input = prompt;
      output = out;
      cache = at_least_zero cache;
      reasoning = at_least_zero thought;
    }
unfolding token_usage_from_openai usage_fields detail get int_val as_fields text_beq
usage_fields-read prompt out total (pos zero) (pos zero) = refl
usage_fields-read prompt out total (pos zero) (pos (suc n)) = ground arith
usage_fields-read prompt out total (pos zero) (negsuc n) = ground arith
usage_fields-read prompt out total (pos (suc k)) (pos zero) = ground arith
usage_fields-read prompt out total (pos (suc k)) (pos (suc n)) = ground arith
usage_fields-read prompt out total (pos (suc k)) (negsuc n) = ground arith
usage_fields-read prompt out total (negsuc k) (pos zero) = ground arith
usage_fields-read prompt out total (negsuc k) (pos (suc n)) = ground arith
usage_fields-read prompt out total (negsuc k) (negsuc n) = ground arith

-- Gemini's counts survive the translation to OpenAI's fields and back: the prompt, the output, and
-- the cached and the thought tokens, of which a negative count reads as zero.
pub token_usage-gemini_usage :
    (m : Fields)
    → token_usage_from_openai (gemini_usage_to_openai (obj m)) ≡ record {
      input = prompt_tokens m;
      output = output_tokens m;
      cache = at_least_zero (cached_tokens m);
      reasoning = at_least_zero (thought_tokens m);
    }
unfolding gemini_usage_to_openai as_fields
token_usage-gemini_usage m =
    usage_fields-read (prompt_tokens m) (output_tokens m) (total_tokens m) (thought_tokens m)
      (cached_tokens m)
