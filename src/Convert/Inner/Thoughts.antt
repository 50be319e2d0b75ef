-- ===== src/Convert/Inner/Thoughts.antt =====
-- What becomes of thoughts when a request does not think.
use antigravity2api.Base.{Bool, false, ◌||◌, List, [], ◌∷◌, ◌++◌}
use antigravity2api.Json.{Json, fields_or_empty}
use antigravity2api.Convert.Values.{part_is_thought}
use antigravity2api.Convert.Contents.{parts_in}

-- One of the parts is a thought.
unfoldable pub any_thought : List Json → Bool
any_thought [] = false
any_thought (v ∷ vs) = part_is_thought (fields_or_empty v) || any_thought vs

-- The parts of all messages of a request.
unfoldable pub message_parts : List Json → List Json
message_parts [] = []
message_parts (m ∷ ms) = parts_in (fields_or_empty m) ++ message_parts ms
