-- ===== src/Examples/Requests.antt =====
-- The configuration and the messages of a request.
use antigravity2api.Convert.Stream.{is_call}
use antigravity2api.Convert.Values.{int_val, part_is_thought, thought_signature}
use antigravity2api.Base.{
  ◌≡◌, refl, true, false, List, [], ◌∷◌, Text, pos, text_beq, ◌^◌, ◌-◌, negsuc,
}
use antigravity2api.Strings.{codes}
use antigravity2api.Json.{
  obj, str, bool, Fields, field, end, to_items, arr, get, has, set, fields_or_empty, as_fields,
  as_slice, to_list, remove, string_or_empty,
}
use antigravity2api.Convert.Usage.{int_json}
use antigravity2api.Json.{null}
use antigravity2api.Convert.Generation.{
  normalize_generation_config, drop_penalties, is_zero_penalty, with_samples, set_default,
  first_max, fit_thinking, read_level, fit_budget, wrapped, cap_budget,
}
use antigravity2api.Convert.Generation.Asked.{asked_budget}
use antigravity2api.Convert.Generation.Budget.{tokens_fit, normalize_generation_config-tokens_fit}
use antigravity2api.Convert.Contents.{
  sanitize_contents, merge_contents, sanitize_messages, sanitize_message, message_role,
  sanitize_parts, sanitize_part, sanitize_thought, sanitize_call, merge_onto,
}
use antigravity2api.Convert.Inner.{InnerRequest}
use antigravity2api.Convert.Contents.Merge.{all_parts, alternates, merge_contents-alternates}

-- A budget beyond what the model can write.
abbrev asked : Fields
asked = field (codes "maxOutputTokens") (int_json (pos 1000)) (
    field (codes "thinkingConfig") (obj (field (codes "thinkingBudget") (int_json (pos 90000)) end))
      end)

normalize_run :
    normalize_generation_config (codes "gemini-3-flash-lite") (obj asked) false
    ≡ field (codes "maxOutputTokens") (int_json (pos 16384)) (
        field
          (codes "thinkingConfig")
          (obj (field (codes "thinkingBudget") (int_json (pos 8192)) end))
          (field (codes "topK") (int_json (pos 40)) (field (codes "topP") (int_json (pos 1)) end)))
unfolding normalize_generation_config drop_penalties is_zero_penalty with_samples set_default
    first_max fit_thinking read_level fit_budget wrapped cap_budget get has set remove
    fields_or_empty as_fields int_val text_beq string_or_empty
normalize_run = refl

-- Without a cap, a budget at the end of int64 wraps, and the tokens are negative.
wrapped_run :
    int_val (
      get (codes "maxOutputTokens") (
        normalize_generation_config
          (codes "gemini-3-flash-lite")
          (obj (
            field
              (codes "thinkingConfig")
              (obj (field (codes "thinkingBudget") (int_json (pos (2 ^ 63 - 1))) end))
              end))
          false))
    ≡ negsuc (2 ^ 63 - 8192)
unfolding normalize_generation_config drop_penalties is_zero_penalty with_samples set_default
    first_max fit_thinking read_level fit_budget wrapped cap_budget get has set remove
    fields_or_empty as_fields int_val text_beq string_or_empty
wrapped_run = refl

normalize_generation_config-tokens_fit_example :
    tokens_fit
      (codes "gemini-3-flash-lite")
      (normalize_generation_config (codes "gemini-3-flash-lite") (obj asked) false)
    ≡ true
unfolding cap_budget asked_budget
normalize_generation_config-tokens_fit_example =
    normalize_generation_config-tokens_fit (codes "gemini-3-flash-lite") (obj asked) refl

abbrev said : Text → Text → Fields
said role word =
    field (codes "role") (str role)
      (field (codes "parts") (arr (to_items (obj (field (codes "text") (str word) end) ∷ []))) end)

-- Two messages of the user, one without parts, and an answer.
abbrev messages : List Fields
messages =
    said (codes "user") (codes "a")
    ∷ field (codes "role") (str (codes "model")) end
    ∷ said (codes "user") (codes "b")
    ∷ said (codes "assistant") (codes "c")
    ∷ []

sanitize_run :
    sanitize_contents (codes "gemini-3-pro") true (
      arr (
        to_items (obj (said [] (codes "a")) ∷ str [] ∷ obj (said (codes "User") (codes "b")) ∷ [])))
    ≡ arr (
        to_items (
          obj (
            field (codes "role") (str (codes "user")) (
              field
                (codes "parts")
                (arr (
                  to_items (
                    obj (field (codes "text") (str (codes "a")) end)
                    ∷ obj (field (codes "text") (str (codes "b")) end)
                    ∷ [])))
                end))
          ∷ []))
unfolding sanitize_contents sanitize_messages sanitize_message message_role sanitize_parts
    sanitize_part sanitize_thought sanitize_call merge_contents merge_onto get set as_slice to_items
    to_list text_beq part_is_thought thought_signature is_call
sanitize_run = refl

merge_contents-alternates_example :
    (all_parts (merge_contents messages) ≡ all_parts messages)
    × (alternates (merge_contents messages) ≡ true)
merge_contents-alternates_example = merge_contents-alternates messages

-- A Claude request whose tool call came back without its signature.
abbrev unsigned : InnerRequest
unsigned = record {
  contents = arr (
      to_items (
        obj (
          field (codes "role") (str (codes "assistant")) (
            field (codes "parts")
              (arr (
                to_items (
                  obj (
                    field (codes "text") (str (codes "hm"))
                      (field (codes "thought") (bool true) end))
                  ∷ obj (
                      field (codes "functionCall")
                        (obj (field (codes "name") (str (codes "run")) end)) end)
                  ∷ [])))
              end))
        ∷ []));
  generation_config =
      obj (
        field (codes "thinkingConfig") (obj (field (codes "includeThoughts") (bool true) end)) end);
  tools = null;
  tool_config = null;
  system_instruction = null;
}
