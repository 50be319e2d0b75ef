-- ===== src/Convert/Contents.antt =====
-- sanitizeContents of server/internal/convert/wrap.go and mergeContents of request_helpers.go: the
-- messages of a request, each a map with a role and parts. The maps are clones that the request
-- alone holds, so that a change in place is a new value.
pub mod Merge
use antigravity2api.Base.{
  Bool, true, false, ◌&&◌, ◌||◌, not, List, [], ◌∷◌, ◌++◌, map, Text, text_beq, is_empty,
  if◌then◌else◌,
}
use antigravity2api.Strings.{codes, to_lower, contains}
use antigravity2api.Json.{
  Json, null, bool, num, str, arr, obj, Fields, get, set, remove, to_items, as_slice,
}
use antigravity2api.Convert.Values.{text_of, first_non_empty, thought_signature, part_is_thought}
use antigravity2api.Convert.Stream.{is_call}

-- The signature that Gemini takes in place of one.
abbrev pub sentinel : Text
sentinel = codes "skip_thought_signature_validator"

unfoldable pub remove_signature : Fields → Fields
unfolding remove
remove_signature p = remove (codes "thought_signature") (remove (codes "thoughtSignature") p)

-- The signature of a part, or the sentinel.
unfoldable pub signature_or_sentinel : Fields → Text
unfolding first_non_empty get
signature_or_sentinel p =
    let sig =
      first_non_empty
        (text_of (codes "thoughtSignature") p ∷ text_of (codes "thought_signature") p ∷ []) in
    if is_empty sig then sentinel else sig

-- ensureThoughtSignature
unfoldable pub ensure_thought_signature : Fields → Fields
unfolding signature_or_sentinel set remove
ensure_thought_signature p =
    remove (codes "thought_signature")
      (set (codes "thoughtSignature") (str (signature_or_sentinel p)) p)

-- Of a part that is a thought.
unfoldable pub sanitize_thought : Bool → Bool → Text → Fields → Fields
unfolding remove_signature ensure_thought_signature remove text_beq
sanitize_thought gemini thinking sig p =
    if not thinking || (not gemini && (is_empty sig || text_beq sig sentinel))
    then remove_signature (remove (codes "thought") p)
    else (if gemini then ensure_thought_signature p else p)

-- Of a part with a functionCall.
unfoldable pub sanitize_call : Bool → Text → Fields → Fields
unfolding remove_signature ensure_thought_signature text_beq
sanitize_call gemini sig p =
    if gemini
    then ensure_thought_signature p
    else (if text_beq sig sentinel then remove_signature p else p)

-- The loop over the parts.
unfoldable pub sanitize_part : Bool → Bool → Fields → Fields
unfolding sanitize_thought sanitize_call thought_signature part_is_thought is_call
sanitize_part gemini thinking p =
    let sig = thought_signature p in
    let q = if part_is_thought p then sanitize_thought gemini thinking sig p else p in
    if is_call q then sanitize_call gemini sig q else q

-- A part that is no map is dropped.
unfoldable pub sanitize_parts : Bool → Bool → List Json → List Json
unfolding sanitize_part
sanitize_parts gemini thinking [] = []
sanitize_parts gemini thinking (obj p ∷ parts) =
    obj (sanitize_part gemini thinking p) ∷ sanitize_parts gemini thinking parts
sanitize_parts gemini thinking (v ∷ parts) = sanitize_parts gemini thinking parts

unfoldable pub message_role : Fields → Text
unfolding to_lower text_beq get
message_role msg =
    let role = to_lower (text_of (codes "role") msg) in
    if is_empty role
    then codes "user"
    else (if text_beq role (codes "assistant") then codes "model" else role)

abbrev pub parts_in : Fields → List Json
parts_in msg = as_slice (get (codes "parts") msg)

-- msg["parts"] = parts
abbrev pub with_parts : List Json → Fields → Fields
with_parts parts msg = set (codes "parts") (arr (to_items parts)) msg

unfoldable pub sanitize_message : Bool → Bool → Fields → Fields
unfolding message_role sanitize_parts set get
sanitize_message gemini thinking msg =
    with_parts (sanitize_parts gemini thinking (parts_in msg))
      (set (codes "role") (str (message_role msg)) msg)

unfoldable pub sanitize_messages : Bool → Bool → List Json → List Fields
unfolding sanitize_message
sanitize_messages gemini thinking [] = []
sanitize_messages gemini thinking (obj msg ∷ items) =
    sanitize_message gemini thinking msg ∷ sanitize_messages gemini thinking items
sanitize_messages gemini thinking (v ∷ items) = sanitize_messages gemini thinking items

-- m["role"] == n["role"], where roles are texts or missing.
abbrev pub eq_role : Json → Json → Bool
eq_role (str r) (str s) = text_beq r s
eq_role null null = true
eq_role _ _ = false

abbrev pub same_role : Fields → Fields → Bool
same_role m n = eq_role (get (codes "role") m) (get (codes "role") n)

-- The loop of mergeContents, with the last message of `out`.
unfoldable pub merge_onto : Fields → List Fields → List Fields
unfolding get set as_slice text_beq
merge_onto last [] = last ∷ []
merge_onto last (m ∷ ms) =
    let skipped = merge_onto last ms in
    let joined = merge_onto (with_parts (parts_in last ++ parts_in m) last) ms in
    let apart = merge_onto m ms in
    if is_empty (parts_in m) then skipped else (if same_role last m then joined else last ∷ apart)

-- mergeContents
unfoldable pub merge_contents : List Fields → List Fields
unfolding merge_onto get as_slice
merge_contents [] = []
merge_contents (m ∷ ms) =
    let rest = merge_contents ms in if is_empty (parts_in m) then rest else merge_onto m ms

-- sanitizeContents
unfoldable pub sanitize_contents : Text → Bool → Json → Json
unfolding sanitize_messages merge_contents to_lower contains as_slice to_items
sanitize_contents model thinking contents =
    let items = as_slice contents in
    if is_empty items
    then contents
    else arr (
        to_items (
          map (λ m. obj m)
            (merge_contents
              (sanitize_messages (contains (to_lower model) (codes "gemini")) thinking items))))
