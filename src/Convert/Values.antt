-- ===== src/Convert/Values.antt =====
-- The helpers of server/internal/convert that read decoded values: wrap.go, request_helpers.go and
-- openai.go.
use antigravity2api.Base.{
  Bool, false, ◌&&◌, not, List, [], ◌∷◌, ◌++◌, Option, none, some, Text, ℤ, pos, text_beq, is_empty,
  int_is_zero, if◌then◌else◌,
}
use antigravity2api.Strings.{codes, trim_space, to_lower}
use antigravity2api.Json.{
  Json, bool, num, str, obj, Number, Fields, get, fields_or_empty, string_or_empty,
}

-- strings.EqualFold, over ASCII
unfoldable pub equal_fold : Text → Text → Bool
unfolding to_lower text_beq
equal_fold s t = text_beq (to_lower s) (to_lower t)

-- firstNonEmpty
unfoldable pub first_non_empty : List Text → Text
unfolding trim_space
first_non_empty [] = []
first_non_empty (s ∷ rest) =
    let later = first_non_empty rest in if is_empty (trim_space s) then later else s

-- GetPath; a value that is no map has no fields.
unfoldable pub get_path : Json → List Text → Json
unfolding get fields_or_empty
get_path v [] = v
get_path v (k ∷ keys) = get_path (get k (fields_or_empty v)) keys

abbrev pub text_of : Text → Fields → Text
text_of key m = string_or_empty (get key m)

-- thoughtSignature
unfoldable pub thought_signature : Fields → Text
unfolding first_non_empty get get_path string_or_empty
thought_signature m = first_non_empty (
    text_of (codes "thoughtSignature") m
    ∷ text_of (codes "thought_signature") m
    ∷ text_of (codes "signature") m
    ∷ string_or_empty
        (get_path (obj m) (codes "extra_content" ∷ codes "google" ∷ codes "thought_signature" ∷ []))
    ∷ [])

abbrev pub is_zero_number : Number → Bool
is_zero_number n = int_is_zero n.truncated && n.integral

unfoldable pub is_true_value : Json → Bool
unfolding equal_fold
is_true_value (bool b) = b
is_true_value (str s) = equal_fold s (codes "true")
is_true_value (num n) = not (is_zero_number n)
is_true_value _ = false

-- partIsThought
unfoldable pub part_is_thought : Fields → Bool
unfolding is_true_value get
part_is_thought part = is_true_value (get (codes "thought") part)

-- intVal
unfoldable pub int_val : Json → ℤ
int_val (num n) = n.truncated
int_val _ = pos 0

-- toolID of a function call
unfoldable pub call_id_of : Fields → Text
unfolding first_non_empty get string_or_empty
call_id_of fc = first_non_empty (text_of (codes "call_id") fc ∷ text_of (codes "id") fc ∷ [])

-- imagePartText
unfoldable pub inline_media : Fields → Option Fields
unfolding get
inline_media part = elim (get (codes "inlineData") part) [
  | obj m ↦ some m
  | _ ↦ elim (get (codes "inline_data") part) [ obj m ↦ some m | _ ↦ none ]
]

unfoldable pub file_uri : Fields → Text
unfolding first_non_empty get string_or_empty fields_or_empty
file_uri part =
    let f = fields_or_empty (get (codes "fileData") part) in
    first_non_empty (text_of (codes "fileUri") f ∷ text_of (codes "file_uri") f ∷ [])

unfoldable pub file_part_text : Fields → Text
unfolding file_uri
file_part_text part =
    let uri = file_uri part in
    if is_empty uri then [] else codes "\n![generated media](" ++ uri ++ codes ")\n"

unfoldable pub image_part_text : Fields → Text
unfolding file_part_text inline_media first_non_empty get string_or_empty
image_part_text part = elim (inline_media part) [
  | none ↦ file_part_text part
  | some inline ↦
      let mime = first_non_empty (
        text_of (codes "mimeType") inline
        ∷ text_of (codes "mime_type") inline
        ∷ codes "image/png"
        ∷ []) in
      let content = text_of (codes "data") inline in
      if is_empty content
      then file_part_text part
      else codes "\n![generated media](data:" ++ mime ++ codes ";base64," ++ content ++ codes ")\n"
]
