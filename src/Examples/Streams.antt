-- ===== src/Examples/Streams.antt =====
-- A stream of Claude's events, a call of a tool that comes twice, and counts of tokens.
use antigravity2api.Convert.Values.{
  first_non_empty, get_path, thought_signature, is_true_value, part_is_thought, int_val, call_id_of,
  inline_media, file_uri, file_part_text, image_part_text, equal_fold,
}
use antigravity2api.Convert.Catalog.{contains}
use antigravity2api.Convert.Stream.{
  candidate_index, parts_of, is_call, part_has_output, any_output, candidate_has_output,
}
use antigravity2api.Base.{
  ◌≡◌, refl, true, false, List, [], ◌∷◌, none, some, pos, lookup, insert, text_beq,
}
use antigravity2api.Strings.{codes, trim_space, trim_left, trim_right, byte_len}
use antigravity2api.Json.{
  Json, obj, str, bool, arr, num, nil, cons, Fields, field, end, to_items, get, as_slice, to_list,
  items_or_empty, fields_or_empty, string_or_empty, as_fields,
}
use antigravity2api.Convert.Usage.{
  prompt_tokens, output_tokens, cached_tokens, thought_tokens, gemini_usage_to_openai,
  token_usage_from_openai, claude_usage, detail, usage_fields, first_number, total_tokens,
}
use antigravity2api.Convert.Usage.Laws.{at_least_zero, token_usage-gemini_usage}
use antigravity2api.Convert.Stream.Tools.{
  Oracle, prepared, ToolRegistry, empty_registry, prepare, find_call, admit_call, tool_call,
  key_beq, sign_retained,
}
use antigravity2api.Convert.Stream.Tools.Calls.{prepare_again, prepare_parts, key_of_part}
use antigravity2api.Convert.Stream.Walk.{
  Event, payload, walk_gemini_stream, walk_from, see_candidates, see_candidate, note_candidate,
  candidates_of, unfinished, first_unfinished, conclude_walk,
}
use antigravity2api.Convert.ClaudeStream.{
  message_start, content_block_start, content_block_delta, content_block_stop, message_delta,
  message_stop, thinking, text, tool_use, thinking_delta, text_delta, signature_delta,
  input_json_delta, write_claude_sse, start_writing, ◌and_then◌, emit, delta, close_signature,
  stop_block, close_block, open_block, start_block, ensure_thinking, ensure_text, write_tool,
  call_part, thought_part, text_part, write_part, write_parts, begin_message, write_candidate,
  visit, stop_reason, end_message, write_failure,
}
use antigravity2api.Convert.ClaudeStream.Order.{Partial, Whole, write_claude_sse-order}
use antigravity2api.Convert.ClaudeStream.Order.Triples.{Ends}

abbrev oracle : Oracle
oracle = record {
  digest = λ name args. codes "digest";
  fresh = λ n. codes "fresh";
  encoded = λ v. codes "{}";
}

abbrev thought : Json
thought = obj (
    field (codes "text") (str (codes "hm")) (
      field (codes "thought") (bool true)
        (field (codes "thoughtSignature") (str (codes "sig")) end)))

abbrev answer : Json
answer = obj (field (codes "text") (str (codes "hi")) end)

abbrev call : Fields
call =
    field (codes "functionCall")
      (obj (field (codes "name") (str (codes "run")) (field (codes "id") (str (codes "c1")) end)))
      end

abbrev usage : Fields
usage = field (codes "promptTokenCount") (num (record { truncated = pos 7; integral = true })) (
    field (codes "candidatesTokenCount") (num (record { truncated = pos 3; integral = true })) (
      field (codes "cachedContentTokenCount") (num (record { truncated = pos 2; integral = true }))
        end))

abbrev candidate : List Json → Fields → Json
candidate parts rest =
    obj (field (codes "content") (obj (field (codes "parts") (arr (to_items parts)) end)) rest)

abbrev chunk : Json → Fields → Event
chunk c rest = payload (field (codes "candidates") (arr (cons c nil)) rest)

-- A thought with a signature, an answer, and a call of a tool.
abbrev chunks : List Event
chunks =
    chunk (candidate (thought ∷ []) end) end
    ∷ chunk (candidate (answer ∷ []) end) end
    ∷ chunk (candidate (obj call ∷ []) (field (codes "finishReason") (str (codes "STOP")) end))
        (field (codes "usageMetadata") (obj usage) end)
    ∷ []

-- The frames, newest first.
chunks_run :
    (write_claude_sse oracle chunks 20).0.frames
    ≡ message_stop
      ∷ message_delta
          (codes "tool_use")
          (record { input_tokens = pos 5; out_tokens = pos 3; cache_read = some (pos 2) })
      ∷ content_block_stop 2
      ∷ content_block_delta 2 (input_json_delta (codes "{}"))
      ∷ content_block_start 2 (tool_use (codes "c1") (codes "run") [])
      ∷ content_block_stop 1
      ∷ content_block_delta 1 (text_delta (codes "hi"))
      ∷ content_block_start 1 text
      ∷ content_block_stop 0
      ∷ content_block_delta 0 (signature_delta (codes "sig"))
      ∷ content_block_delta 0 (thinking_delta (codes "hm"))
      ∷ content_block_start 0 thinking
      ∷ message_start (record { input_tokens = pos 0; out_tokens = pos 0; cache_read = none })
      ∷ []
unfolding write_claude_sse start_writing empty_registry ◌and_then◌ emit delta close_signature
    stop_block close_block open_block start_block ensure_thinking ensure_text write_tool call_part
    thought_part text_part write_part write_parts begin_message write_candidate visit stop_reason
    end_message write_failure walk_gemini_stream walk_from see_candidates see_candidate
    note_candidate candidates_of unfinished first_unfinished conclude_walk candidate_index parts_of
    is_call part_has_output any_output candidate_has_output prepare find_call admit_call tool_call
    key_beq lookup insert contains text_beq get as_slice to_list items_or_empty fields_or_empty
    string_or_empty as_fields first_non_empty get_path thought_signature is_true_value
    part_is_thought int_val call_id_of inline_media file_uri file_part_text image_part_text
    equal_fold claude_usage gemini_usage_to_openai token_usage_from_openai detail usage_fields
    first_number prompt_tokens output_tokens total_tokens thought_tokens cached_tokens trim_space
    trim_left trim_right to_items byte_len
chunks_run = refl

write_claude_sse-order_example : Ends Partial Whole (write_claude_sse oracle chunks 20)
write_claude_sse-order_example = write_claude_sse-order oracle chunks 20

abbrev after_call : ToolRegistry
after_call = record {
  seen =
      (
        record { index = 0; call = codes "c1" },
        record { digest = codes "digest"; id = codes "c1"; part = none },
      )
      ∷ [];
  used_ids = codes "c1" ∷ [];
  count = 1;
  drawn = 0;
  retain_parts = false;
}

-- Another call, which comes between the two.
abbrev other_call : Fields
other_call =
    field (codes "functionCall")
      (obj (field (codes "name") (str (codes "ls")) (field (codes "id") (str (codes "c2")) end)))
      end

abbrev after_both : ToolRegistry
after_both = prepare_parts oracle ((0, other_call) ∷ []) after_call

prepare_again_example :
    prepare oracle 0 call after_both
    ≡ prepared (codes "c1") false (record after_both {
      seen = sign_retained (key_of_part 0 call) (thought_signature call) after_both.seen;
    })
unfolding prepare find_call admit_call empty_registry call_id_of first_non_empty trim_space
    trim_left trim_right get text_beq contains lookup fields_or_empty string_or_empty byte_len
prepare_again_example =
    prepare_again oracle 0 call ((0, other_call) ∷ []) (codes "c1") true empty_registry after_call
      refl refl

-- The other call is kept in front of the first.
after_both_run : after_both.used_ids ≡ codes "c2" ∷ codes "c1" ∷ []
unfolding prepare_parts prepare find_call admit_call call_id_of first_non_empty trim_space trim_left
    trim_right get text_beq contains lookup fields_or_empty string_or_empty byte_len key_beq
after_both_run = refl

token_usage-gemini_usage_example :
    token_usage_from_openai (gemini_usage_to_openai (obj usage)) ≡ record {
      input = prompt_tokens usage;
      output = output_tokens usage;
      cache = at_least_zero (cached_tokens usage);
      reasoning = at_least_zero (thought_tokens usage);
    }
token_usage-gemini_usage_example = token_usage-gemini_usage usage
