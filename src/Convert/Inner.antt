-- ===== src/Convert/Inner.antt =====
-- normalizeInner of server/internal/convert/wrap.go: the request as the upstream gets it, whichever
-- protocol it came by. The fields that it does not touch are left out.
pub mod Thoughts
use antigravity2api.Base.{
  Bool, true, false, ◌&&◌, ◌||◌, not, List, [], ◌∷◌, Text, text_beq, is_empty, pos, if◌then◌else◌,
}
use antigravity2api.Strings.{codes}
use antigravity2api.Json.{
  Json, null, bool, obj, Fields, field, end, get, set, is_set, fields_or_empty, as_slice,
}
use antigravity2api.Convert.Values.{thought_signature}
use antigravity2api.Convert.Usage.{int_json}
use antigravity2api.Convert.Generation.{
  is_claude, normalize_generation_config, thinking_config_enabled,
}
use antigravity2api.Convert.Contents.{sentinel, parts_in, sanitize_contents}

-- InnerRequest
pub record InnerRequest : Type 0 where
  pub contents : Json
  pub generation_config : Json
  pub tools : Json
  pub tool_config : Json
  pub system_instruction : Json

-- A call without a signature of its own.
unfoldable pub lacks_signature : Fields → Bool
unfolding thought_signature text_beq get
lacks_signature p =
    let sig = thought_signature p in
    is_set (get (codes "functionCall") p) && (is_empty sig || text_beq sig sentinel)

unfoldable pub any_lacks : List Json → Bool
unfolding lacks_signature fields_or_empty
any_lacks [] = false
any_lacks (p ∷ parts) = lacks_signature (fields_or_empty p) || any_lacks parts

-- The loop over the messages.
unfoldable pub missing_signature : List Json → Bool
unfolding any_lacks fields_or_empty get as_slice
missing_signature [] = false
missing_signature (m ∷ items) = any_lacks (parts_in (fields_or_empty m)) || missing_signature items

abbrev pub no_thinking : Json
no_thinking = obj (
    field (codes "includeThoughts") (bool false)
      (field (codes "thinkingBudget") (int_json (pos 0)) end))

-- The configuration, in which a Claude model does not think if a signature is missing.
unfoldable pub settle_thinking : Text → Json → Fields → Fields
unfolding is_claude thinking_config_enabled missing_signature set as_slice
settle_thinking model contents gc =
    if is_claude model && thinking_config_enabled (obj gc)
    then (if missing_signature (as_slice contents)
        then set (codes "thinkingConfig") no_thinking gc
        else gc)
    else gc

-- normalizeInner
unfoldable pub normalize_inner : Text → Bool → InnerRequest → InnerRequest
unfolding normalize_generation_config settle_thinking sanitize_contents thinking_config_enabled
normalize_inner model image inner =
    let gc =
      settle_thinking model inner.contents
        (normalize_generation_config model inner.generation_config image) in
    record {
      contents =
          sanitize_contents model (thinking_config_enabled (obj gc) && not image) inner.contents;
      generation_config = obj gc;
      tools = if image then null else inner.tools;
      tool_config = if image then null else inner.tool_config;
      system_instruction = if image then null else inner.system_instruction;
    }
