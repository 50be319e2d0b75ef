-- ===== src/Convert/Stream/Tools.antt =====
-- streamToolRegistry of server/internal/convert/stream.go: which calls of tools are new, and the
-- ids they get. The digest of a call (sha256 of its JSON) is an argument, as are the ids that
-- uuid.NewString gives, the n-th of which is `fresh n`.
pub mod Calls
use antigravity2api.Base.{
  ℕ, ◌+◌, ◌≡◌, ◌↔◌, Bool, true, false, ◌&&◌, ◌||◌, not, List, [], ◌∷◌, ◌++◌, Option, none, some,
  Text, text_beq, text_beq_iff, Eq, nat_beq, is_empty, ltb, leb, lookup, arith, if◌then◌else◌,
}
use antigravity2api.Strings.{codes, trim_space, byte_len}
use antigravity2api.Json.{
  str, Json, obj, Fields, end, get, is_set, fields_or_empty, string_or_empty, set,
}
use antigravity2api.Convert.Values.{text_of, call_id_of, thought_signature}
use antigravity2api.Convert.Catalog.{contains}
use antigravity2api.Convert.Stream.{UpstreamError, stream_failure}

abbrev pub max_stream_tool_calls : ℕ
max_stream_tool_calls = 4096

-- fmt.Sprintf("%d:%s", index, id)
pub record ToolKey : Type 0 where
  pub index : ℕ
  pub call : Text

unfoldable pub key_beq : ToolKey → ToolKey → Bool
key_beq k l = nat_beq k.index l.index && text_beq k.call l.call

pub key_beq_iff : (k l : ToolKey) → (key_beq k l ≡ true) ↔ (k ≡ l)
unfolding key_beq
key_beq_iff k l = ground (arith, text_beq_iff k.call l.call)

instance abbrev pub key_eq : Eq ToolKey
key_eq = record { beq = key_beq; beq_iff = key_beq_iff }

-- streamToolIdentity
pub record ToolIdentity : Type 0 where
  pub digest : Text
  pub id : Text
  pub part : Option Fields  -- nil unless parts are retained

-- streamToolRegistry; `drawn` counts the ids that were drawn.
pub record ToolRegistry : Type 0 where
  pub seen : List (ToolKey × ToolIdentity)
  pub used_ids : List Text
  pub count : ℕ
  pub drawn : ℕ
  pub retain_parts : Bool

unfoldable pub empty_registry : ToolRegistry
empty_registry = record { seen = []; used_ids = []; count = 0; drawn = 0; retain_parts = false }

-- What is given besides the code: the digest of a name and arguments, and the ids.
pub record Oracle : Type 0 where
  pub digest : Json → Json → Text
  pub fresh : ℕ → Text
  pub encoded : Json → Text  -- json.Marshal

-- A call as clients are told of it.
pub record ToolCall : Type 0 where
  pub id : Text
  pub name : Text
  pub arguments : Text
  pub signature : Text

-- partToToolCall, but for the id, which prepare sets.
unfoldable pub tool_call : Oracle → Fields → Text → ToolCall
unfolding get string_or_empty fields_or_empty thought_signature
tool_call o part id =
    let fc = fields_or_empty (get (codes "functionCall") part) in
    let args = get (codes "args") fc in
    record {
      id = id;
      name = text_of (codes "name") fc;
      arguments = o.encoded (if is_set args then args else obj end);
      signature = thought_signature part;
    }

-- What prepare gives: the call's id and whether it is new, or a failure.
pub data Prepared : Type 0 where
  prepared : Text → Bool → ToolRegistry → Prepared
  unprepared : UpstreamError → Prepared

-- From the test of the count on; the key and the digest are there if the upstream gave an id.
unfoldable pub admit_call :
    Oracle → Fields → Text → Option (ToolKey × Text) → ToolRegistry → Prepared
unfolding contains
admit_call o part id identity r =
    if leb max_stream_tool_calls r.count
    then unprepared (
        stream_failure (codes "response_too_large") (codes "upstream returned too many tool calls"))
    else (let again = is_empty id || contains r.used_ids id in
        let given = if again then codes "call_" ++ o.fresh r.drawn else id in
        prepared given true (record {
          seen = elim identity [
            | none ↦ r.seen
            | some (key, digest) ↦
                (
                  key,
                  record {
                    digest = digest;
                    id = given;
                    part = if r.retain_parts then some part else none;
                  },
                )
                ∷ r.seen
          ];
          used_ids = given ∷ r.used_ids;
          count = r.count + 1;
          drawn = if again then r.drawn + 1 else r.drawn;
          retain_parts = r.retain_parts;
        }))

-- The retained part gets the signature that came with a repetition.
unfoldable pub sign_part : Text → Option Fields → Option Fields
unfolding set
sign_part sig none = none
sign_part sig (some kept) =
    if is_empty sig then some kept else some (set (codes "thoughtSignature") (str sig) kept)

unfoldable pub sign_retained :
    ToolKey → Text → List (ToolKey × ToolIdentity) → List (ToolKey × ToolIdentity)
unfolding key_beq
sign_retained key sig [] = []
sign_retained key sig ((k, previous) ∷ seen) =
    let rest = sign_retained key sig seen in
    (k, if key_beq k key then record previous { part = sign_part sig previous.part } else previous)
    ∷ rest

-- The lookup of a call whose id the upstream gave.
unfoldable pub find_call : Oracle → Fields → ToolKey → Text → ToolRegistry → Prepared
unfolding lookup text_beq key_beq thought_signature
find_call o part key digest r = elim (lookup key r.seen) [
  | none ↦ admit_call o part key.call (some (key, digest)) r
  | some previous ↦
      if text_beq previous.digest digest
      then prepared previous.id false
          (record r { seen = sign_retained key (thought_signature part) r.seen })
      else unprepared (
          stream_failure (codes "invalid_tool_call")
            (codes "upstream reused a tool call ID with different arguments"))
]

-- prepare, of a part with a functionCall
unfoldable pub prepare : Oracle → ℕ → Fields → ToolRegistry → Prepared
prepare o index part r =
    let fc = fields_or_empty (get (codes "functionCall") part) in
    let id = call_id_of fc in
    let args = get (codes "args") fc in
    let digest = o.digest (get (codes "name") fc) (if is_set args then args else obj end) in
    if is_empty (trim_space (text_of (codes "name") fc))
    then unprepared (
        stream_failure (codes "invalid_tool_call")
          (codes "upstream returned a function call without a name"))
    else (if ltb 512 (byte_len id)
        then unprepared (
            stream_failure (codes "invalid_tool_call")
              (codes "upstream tool call ID exceeds length limit"))
        else (if is_empty id
            then admit_call o part id none r
            else find_call o part (record { index = index; call = id }) digest r))
