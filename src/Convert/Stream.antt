-- ===== src/Convert/Stream.antt =====
-- server/internal/convert/stream.go: the failures of a stream, and what it reads in a candidate. The
-- children model the calls of tools and the walk over the payloads.
pub mod Tools
pub mod Walk
use antigravity2api.Base.{
  ℕ, ◌+◌, Bool, true, false, ◌&&◌, ◌||◌, not, List, [], ◌∷◌, ◌++◌, Option, none, some, Text, ℤ, pos,
  negsuc, is_empty, leb, if◌then◌else◌,
}
use antigravity2api.Strings.{codes}
use antigravity2api.Json.{
  Json, num, Number, Fields, field, end, obj, str, get, is_set, fields_or_empty, string_or_empty,
  as_slice,
}
use antigravity2api.Convert.Values.{first_non_empty, text_of, int_val, file_uri}

-- UpstreamError; `raw` is the envelope that is retained, if any.
pub record UpstreamError : Type 0 where
  pub code : ℕ
  pub message : Text
  pub kind : Text
  pub raw : Option Fields

-- streamFailure
unfoldable pub stream_failure : Text → Text → UpstreamError
stream_failure kind message = record { code = 502; message = message; kind = kind; raw = none }

-- A code that is no HTTP error reads as 502.
unfoldable pub error_code : ℤ → ℕ
error_code (pos n) = if leb 400 n && leb n 599 then n else 502
error_code (negsuc n) = 502

unfoldable pub upstream_failure : Json → Fields → UpstreamError
unfolding error_code int_val first_non_empty get string_or_empty fields_or_empty
upstream_failure v payload =
    let m = fields_or_empty v in
    record {
      code = error_code (int_val (get (codes "code") m));
      message = first_non_empty (
          text_of (codes "message") m
          ∷ string_or_empty v
          ∷ codes "upstream returned an error"
          ∷ []);
      kind =
          first_non_empty
            (text_of (codes "status") m ∷ text_of (codes "type") m ∷ codes "upstream_error" ∷ []);
      raw = some payload;
    }

unfoldable pub blocked : Text → Fields → UpstreamError
blocked reason feedback =
    let message = codes "upstream blocked prompt: " ++ reason in
    let code : Json = num (record { truncated = pos 400; integral = true }) in
    record {
      code = 400;
      message = message;
      kind = codes "content_filter";
      raw = some (
          field (codes "error")
            (obj (
              field (codes "code") code (
                field (codes "type") (str (codes "content_filter"))
                  (field (codes "message") (str message) end))))
            (field (codes "promptFeedback") (obj feedback) end));
    }

-- payloadError
unfoldable pub payload_error : Fields → Option UpstreamError
unfolding upstream_failure blocked get string_or_empty fields_or_empty
payload_error payload =
    let feedback = fields_or_empty (get (codes "promptFeedback") payload) in
    let reason = text_of (codes "blockReason") feedback in
    if is_set (get (codes "error") payload)
    then some (upstream_failure (get (codes "error") payload) payload)
    else (if is_empty reason then none else some (blocked reason feedback))

-- candidateIndex
unfoldable pub candidate_index : Fields → ℕ → ℤ
unfolding get int_val
candidate_index c fallback =
    if is_set (get (codes "index") c) then int_val (get (codes "index") c) else pos fallback

-- The parts of a candidate's content.
unfoldable pub parts_of : Fields → List Json
unfolding get as_slice fields_or_empty
parts_of c = as_slice (get (codes "parts") (fields_or_empty (get (codes "content") c)))

unfoldable pub is_call : Fields → Bool
unfolding get
is_call part = elim (get (codes "functionCall") part) [ obj m ↦ true | _ ↦ false ]

-- The body of the loop in candidateHasOutput.
unfoldable pub part_has_output : Fields → Bool
unfolding is_call get file_uri string_or_empty fields_or_empty
part_has_output p =
    not (is_empty (text_of (codes "text") p))
    || is_call p
    || not (is_empty (text_of (codes "data") (fields_or_empty (get (codes "inlineData") p))))
    || not (is_empty (text_of (codes "data") (fields_or_empty (get (codes "inline_data") p))))
    || not (is_empty (file_uri p))

unfoldable pub any_output : List Json → Bool
unfolding part_has_output fields_or_empty
any_output [] = false
any_output (p ∷ ps) = part_has_output (fields_or_empty p) || any_output ps

-- candidateHasOutput
unfoldable pub candidate_has_output : Fields → Bool
unfolding any_output parts_of
candidate_has_output c = any_output (parts_of c)
