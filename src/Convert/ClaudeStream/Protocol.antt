-- ===== src/Convert/ClaudeStream/Protocol.antt =====
-- The order of events that Claude's protocol allows, as an automaton that reads the frames; it is
-- described apart from the code that writes them.
use antigravity2api.Base.{
  ℕ, ◌+◌, Bool, true, false, ◌&&◌, List, [], ◌∷◌, Option, none, some, nat_beq, if◌then◌else◌,
}
use antigravity2api.Convert.ClaudeStream.{
  Block, thinking, text, tool_use, Delta, thinking_delta, text_delta, signature_delta,
  input_json_delta, Frame, message_start, content_block_start, content_block_delta,
  content_block_stop, message_delta, message_stop, error_frame,
}

-- Before the message; between two blocks, with the index of the next; in a block; after the last
-- block; after the message; after an error.
pub data Phase : Type 0 where
  before ending ended broken : Phase
  between : ℕ → Phase
  inside : ℕ → Block → Phase

-- Which deltas a block may have.
abbrev pub fits : Block → Delta → Bool
fits thinking (thinking_delta t) = true
fits thinking (signature_delta t) = true
fits text (text_delta t) = true
fits (tool_use id name sig) (input_json_delta t) = true
fits _ _ = false

unfoldable pub next_phase : Phase → Frame → Option Phase
next_phase before (message_start usage) = some (between 0)
next_phase (between n) (content_block_start m b) = if nat_beq n m then some (inside n b) else none
next_phase (inside n b) (content_block_delta m d) =
    if nat_beq n m && fits b d then some (inside n b) else none
next_phase (inside n b) (content_block_stop m) =
    if nat_beq n m then some (between (n + 1)) else none
next_phase (between n) (message_delta reason usage) = some ending
next_phase ending message_stop = some ended
next_phase before (error_frame e) = some broken
next_phase (between n) (error_frame e) = some broken
next_phase (inside n b) (error_frame e) = some broken
next_phase _ _ = none

-- The phase after the frames, newest first, if their order is allowed.
unfoldable pub check : List Frame → Option Phase
check [] = some before
check (f ∷ frames) = elim (check frames) [ none ↦ none | some p ↦ next_phase p f ]

-- An error may follow.
abbrev pub is_open : Phase → Bool
is_open before = true
is_open (between n) = true
is_open (inside n b) = true
is_open _ = false

abbrev pub is_ended : Phase → Bool
is_ended ended = true
is_ended _ = false
