-- ===== src/Convert/ClaudeStream.antt =====
-- WriteClaudeSSE of server/internal/convert/stream.go: the events that a client of Claude's protocol
-- is sent. The client takes `room` frames, and a write fails from then on. A call of
-- RememberToolSignature is kept in a list. The id of the message and what the model is named are
-- left out.
pub mod Protocol
pub mod Order
use antigravity2api.Base.{
  ℕ, zero, suc, ◌+◌, ◌-◌, Bool, true, false, ◌&&◌, ◌||◌, not, List, [], ◌∷◌, ◌++◌, Option, none,
  some, Text, is_empty, if◌then◌else◌,
}
use antigravity2api.Strings.{codes}
use antigravity2api.Json.{
  Json, obj, str, Fields, get, is_set, fields_or_empty, string_or_empty, as_slice,
}
use antigravity2api.Convert.Values.{
  text_of, equal_fold, thought_signature, part_is_thought, image_part_text,
}
use antigravity2api.Convert.Usage.{ClaudeUsage, claude_usage, gemini_usage_to_openai}
use antigravity2api.Convert.Stream.{UpstreamError, stream_failure, is_call, parts_of}
use antigravity2api.Convert.Stream.Tools.{
  Oracle, ToolCall, tool_call, ToolRegistry, empty_registry, prepare, Prepared, prepared,
  unprepared,
}
use antigravity2api.Convert.Stream.Walk.{Event, candidates_of, walk_gemini_stream}

-- What a block of content starts with.
pub data Block : Type 0 where
  thinking text : Block
  tool_use : Text → Text → Text → Block

pub data Delta : Type 0 where
  thinking_delta text_delta signature_delta input_json_delta : Text → Delta

pub data Frame : Type 0 where
  message_start : ClaudeUsage → Frame
  content_block_start : ℕ → Block → Frame
  content_block_delta : ℕ → Delta → Frame
  content_block_stop : ℕ → Frame
  message_delta : Text → ClaudeUsage → Frame
  message_stop : Frame
  error_frame : UpstreamError → Frame

-- The variables of WriteClaudeSSE; `frames` are those that were written, newest first.
pub record Writing : Type 0 where
  pub room : ℕ
  pub frames : List Frame
  pub started : Bool
  pub index : ℕ
  pub block : Option Block
  pub pending_sig : Text
  pub used_tool : Bool
  pub finish : Text
  pub usage : Option Fields
  pub registry : ToolRegistry
  pub remembered : List (Text × Text)

unfoldable pub start_writing : ℕ → Writing
unfolding empty_registry
start_writing room = record {
  room = room;
  frames = [];
  started = false;
  index = 0;
  block = none;
  pending_sig = [];
  used_tool = false;
  finish = [];
  usage = none;
  registry = empty_registry;
  remembered = [];
}

-- A step, which may fail, and what follows it if it does not.
abbrev pub Step : Type 0
Step = Writing → Writing × Option UpstreamError

infixr 4 ◌and_then◌
unfoldable pub ◌and_then◌ : Step → Step → Step
(f and_then g) s =
    let (t, err) = f s in let rest = g t in elim err [ some e ↦ (t, some e) | none ↦ rest ]

abbrev pub done : Step
done s = (s, none)

abbrev pub assign : (Writing → Writing) → Step
assign f s = (f s, none)

-- The error of a write.
unfoldable pub write_error : UpstreamError
unfolding stream_failure
write_error = stream_failure (codes "stream_error") (codes "write failed")

-- emit
unfoldable pub emit : Frame → Step
emit f s = elim s.room [
  | zero ↦ (s, some write_error)
  | suc room ↦ (record s { room = room; frames = f ∷ s.frames }, none)
]

-- delta
unfoldable pub delta : Delta → Step
delta d s = emit (content_block_delta s.index d) s

-- The signature that closes a block of thoughts.
unfoldable pub close_signature : Block → Step
close_signature thinking s =
    if is_empty s.pending_sig
    then (s, none)
    else (delta (signature_delta s.pending_sig)
          and_then assign (λ t. record t { pending_sig = [] }))
        s
close_signature _ s = (s, none)

unfoldable pub stop_block : Step
stop_block s =
    (emit (content_block_stop s.index)
        and_then assign (λ t. record t { index = t.index + 1; block = none }))
      s

-- closeBlock
unfoldable pub close_block : Step
close_block s = elim s.block [
  | none ↦ (s, none)
  | some b ↦ (close_signature b and_then stop_block) s
]

unfoldable pub open_block : Block → Step
open_block b s =
    (emit (content_block_start s.index b) and_then assign (λ t. record t { block = some b })) s

-- startBlock
unfoldable pub start_block : Block → Step
start_block b s = (close_block and_then open_block b) s

abbrev pub is_thinking : Option Block → Bool
is_thinking (some thinking) = true
is_thinking _ = false

abbrev pub is_text : Option Block → Bool
is_text (some text) = true
is_text _ = false

-- if block != kind { startBlock(kind) }
unfoldable pub ensure_thinking : Step
ensure_thinking s = if is_thinking s.block then (s, none) else start_block thinking s

unfoldable pub ensure_text : Step
ensure_text s = if is_text s.block then (s, none) else start_block text s

-- A call that is new.
unfoldable pub write_tool : ToolCall → Step
write_tool tc =
    start_block (tool_use tc.id tc.name tc.signature)
    and_then delta (input_json_delta tc.arguments)
    and_then close_block
    and_then assign (λ t. record t { used_tool = true })

-- A part with a functionCall.
unfoldable pub call_part : Oracle → Fields → Step
call_part o part s = elim (prepare o 0 part s.registry) [
  | unprepared e ↦ (s, some e)
  | prepared id new registry ↦
      let tc = tool_call o part id in
      let noted = record s {
        registry = registry;
        remembered = (id, thought_signature part) ∷ s.remembered;
      } in
      if new then write_tool tc noted else (noted, none)
]

-- A part that is a thought.
unfoldable pub thought_part : Text → Text → Step
thought_part thought sig s =
    if is_empty thought && is_empty sig
    then (s, none)
    else (ensure_thinking
          and_then (if is_empty thought then done else delta (thinking_delta thought))
          and_then assign (λ t. if is_empty sig then t else record t { pending_sig = sig }))
        s

-- A part that is neither.
unfoldable pub text_part : Text → Text → Step
text_part content sig s =
    if not (is_empty content) then (ensure_text and_then delta (text_delta content)) s else (
      if not (is_empty sig) && is_thinking s.block then record s { pending_sig = sig } else s,
      none,
    )

-- One turn of the loop over the parts; collectParts puts the text of a medium among the text.
unfoldable pub write_part : Oracle → Json → Step
write_part o v s =
    let part = fields_or_empty v in
    let sig = thought_signature part in
    let own = text_of (codes "text") part in
    if is_call part
    then call_part o part s
    else (if part_is_thought part
        then thought_part own sig s
        else text_part (own ++ image_part_text part) sig s)

unfoldable pub write_parts : Oracle → List Json → Step
write_parts o [] = done
write_parts o (v ∷ parts) = write_part o v and_then write_parts o parts

-- The first frame of the message.
unfoldable pub begin_message : Step
begin_message s =
    if s.started
    then (s, none)
    else (emit (message_start (claude_usage s.usage))
          and_then assign (λ t. record t { started = true }))
        s

-- The first candidate of a payload.
unfoldable pub write_candidate : Oracle → Fields → Step
write_candidate o c =
    begin_message
    and_then assign (λ t.
      let f = text_of (codes "finishReason") c in if is_empty f then t else record t { finish = f })
    and_then write_parts o (parts_of c)

-- The visitor.
unfoldable pub visit : Oracle → Fields → Step
visit o p s =
    let u = get (codes "usageMetadata") p in
    let noted = if is_set u then record s { usage = gemini_usage_to_openai u } else s in
    elim (candidates_of p) [
      | [] ↦ (noted, none)
      | v ∷ rest ↦ write_candidate o (fields_or_empty v) noted
    ]

unfoldable pub stop_reason : Writing → Text
unfolding equal_fold
stop_reason s =
    if s.used_tool
    then codes "tool_use"
    else (if equal_fold s.finish (codes "MAX_TOKENS") then codes "max_tokens" else codes "end_turn")

-- What follows a walk without an error.
unfoldable pub end_message : Step
end_message =
    close_block
    and_then (λ s. emit (message_delta (stop_reason s) (claude_usage s.usage)) s)
    and_then emit message_stop

-- writeStreamError: the cause stays the error.
unfoldable pub write_failure : UpstreamError → Step
write_failure e s = let (t, err) = emit (error_frame e) s in (t, some e)

-- WriteClaudeSSE
unfoldable pub write_claude_sse : Oracle → List Event → ℕ → Writing × Option UpstreamError
write_claude_sse o events room =
    let (s, err) = walk_gemini_stream (visit o) events (start_writing room) in
    elim err [ some e ↦ write_failure e s | none ↦ end_message s ]
