-- ===== src/Convert/Stream/Tools/Calls.antt =====
-- A call of a tool that comes twice is told of once.
use antigravity2api.Base.{
  [], ◌∷◌, refl, ◌∙◌, subst, sym, ℕ, ◌≡◌, Bool, false, some, Text, text_beq_iff, is_empty, lookup,
  Option-cases, inl, inr, arith, if◌then◌else◌, none, List, subst, Option, sym, Bool-cases,
  text_beq, ◌∙◌, ltb,
}
use antigravity2api.Strings.{codes}
use antigravity2api.Json.{obj, Fields, end, get, is_set, fields_or_empty}
use antigravity2api.Convert.Values.{call_id_of}
use antigravity2api.Convert.Stream.Tools.{
  ToolKey, key_beq_iff, key_eq, ToolRegistry, Oracle, prepared, admit_call, find_call, prepare,
  sign_retained, ToolIdentity, Prepared, thought_signature, unprepared, key_beq, sign_part,
  trim_space, text_of, stream_failure, byte_len,
}

-- The id the upstream gave a call.
abbrev pub given_id : Fields → Text
given_id part = call_id_of (fields_or_empty (get (codes "functionCall") part))

-- The key of a call that the upstream gave an id.
abbrev pub key_of_part : ℕ → Fields → ToolKey
key_of_part index part = record { index = index; call = given_id part }

-- The registry after parts of further events, each with its index; one that fails changes nothing.
abbrev pub next_registry : Prepared → ToolRegistry → ToolRegistry
next_registry (prepared id new next) r = next
next_registry (unprepared e) r = r

unfoldable pub prepare_parts : Oracle → List (ℕ × Fields) → ToolRegistry → ToolRegistry
prepare_parts o [] r = r
prepare_parts o ((index, part) ∷ parts) r =
    prepare_parts o parts (next_registry (prepare o index part r) r)

-- A call is kept under its key with its digest and the id that clients were told.
abbrev Known : ToolKey → Text → Text → ToolRegistry → Type 0
Known key digest id r =
    (found : ToolIdentity) × (lookup key r.seen ≡ some found)
    × (found.digest ≡ digest)
    × (found.id ≡ id)

sign_retained-Known :
    (key j : ToolKey) (sig digest id : Text) (seen : List (ToolKey × ToolIdentity))
    (found : ToolIdentity)
    → lookup key seen ≡ some found
    → (f : ToolIdentity) × (lookup key (sign_retained j sig seen) ≡ some f)
      × (f.digest ≡ found.digest)
      × (f.id ≡ found.id)
unfolding sign_retained lookup
sign_retained-Known key j sig digest id [] found e = absurd (ground (arith, e))
sign_retained-Known key j sig digest id ((k, i) ∷ seen) found e =
    elim (Bool-cases (key_beq k key)) [
      | inl here ↦ elim (Bool-cases (key_beq k j)) [
        | inl same ↦ (
          record i { part = sign_part sig i.part },
          ground (arith, here, same),
          ground (arith, e, here),
          ground (arith, e, here),
        )
        | inr other ↦
            (i, ground (arith, here, other), ground (arith, e, here), ground (arith, e, here))
      ]
      | inr there ↦
          let (f, at, d, i) =
            sign_retained-Known key j sig digest id seen found (ground (arith, e, there)) in
          (f, ground (arith, at, there), d, i)
    ]

admit_call-Known :
    (o : Oracle) (part : Fields) (given : Text) (identity : Option (ToolKey × Text)) (key : ToolKey)
    (digest id : Text) (r : ToolRegistry)
    → ((j : ToolKey) (d : Text) → identity ≡ some (j, d) → lookup j r.seen ≡ none)
    → Known key digest id r
    → Known key digest id (next_registry (admit_call o part given identity r) r)
unfolding admit_call lookup
admit_call-Known o part given none key digest id r new (f, at, d, i) = (f, ground (arith, at), d, i)
admit_call-Known o part given (some (j, e)) key digest id r new (f, at, d, i) =
    let absent = new j e refl in (f, ground (arith, at, absent, key_beq_iff j key), d, i)

find_call-Known :
    (o : Oracle) (part : Fields) (j : ToolKey) (other : Text) (key : ToolKey) (digest id : Text)
    (r : ToolRegistry)
    → Known key digest id r
    → Known key digest id (next_registry (find_call o part j other r) r)
unfolding find_call
find_call-Known o part j other key digest id r (f, at, d, i) =
    elim (Option-cases (lookup j r.seen)) [
      | inl absent ↦
          let is : find_call o part j other r ≡ admit_call o part j.call (some (j, other)) r =
            ground (arith, absent) in
          subst (λ (p : Prepared). Known key digest id (next_registry p r)) (sym is)
            (admit_call-Known o part j.call (some (j, other)) key digest id r
              (λ k e same. ground (arith, same, absent)) (f, at, d, i))
      | inr (previous, found) ↦ elim (Bool-cases (text_beq previous.digest other)) [
        | inl same ↦
            let (g, there, dg, ig) =
              sign_retained-Known key j (thought_signature part) digest id r.seen f at in
            (g, ground (arith, found, same, there), dg ∙ d, ig ∙ i)
        | inr differ ↦ (f, ground (arith, found, differ, at), d, i)
      ]
    ]

prepare-Known :
    (o : Oracle) (index : ℕ) (part : Fields) (key : ToolKey) (digest id : Text) (r : ToolRegistry)
    → Known key digest id r
    → Known key digest id (next_registry (prepare o index part r) r)
unfolding prepare
prepare-Known o index part key digest id r known =
    let fc = fields_or_empty (get (codes "functionCall") part) in
    let args = get (codes "args") fc in
    let other = o.digest (get (codes "name") fc) (if is_set args then args else obj end) in
    let bare : Known key digest id (next_registry (admit_call o part (given_id part) none r) r) =
      admit_call-Known o part (given_id part) none key digest id r
        (λ j d e. absurd (ground (arith, e))) known in
    let named = find_call-Known o part (key_of_part index part) other key digest id r known in
    let along : (p : Prepared)
        → prepare o index part r ≡ p
        → Known key digest id (next_registry p r)
        → Known key digest id (next_registry (prepare o index part r) r) =
      λ p e. subst (λ q. Known key digest id (next_registry q r)) (sym e) in
    elim (Bool-cases (is_empty (trim_space (text_of (codes "name") fc)))) [
      | inl nameless ↦
          along
            (unprepared (
              stream_failure (codes "invalid_tool_call")
                (codes "upstream returned a function call without a name")))
            (ground (arith, nameless)) known
      | inr has_name ↦ elim (Bool-cases (ltb 512 (byte_len (given_id part)))) [
        | inl long ↦
            along
              (unprepared (
                stream_failure (codes "invalid_tool_call")
                  (codes "upstream tool call ID exceeds length limit")))
              (ground (arith, has_name, long)) known
        | inr short ↦ elim (Bool-cases (is_empty (given_id part))) [
          | inl without ↦
              along (admit_call o part (given_id part) none r)
                (ground (arith, has_name, short, without)) bare
          | inr given ↦
              along (find_call o part (key_of_part index part) other r)
                (ground (arith, has_name, short, given)) named
        ]
      ]
    ]

prepare_parts-Known :
    (o : Oracle) (parts : List (ℕ × Fields)) (key : ToolKey) (digest id : Text) (r : ToolRegistry)
    → Known key digest id r
    → Known key digest id (prepare_parts o parts r)
unfolding prepare_parts
prepare_parts-Known o [] key digest id r known = known
prepare_parts-Known o ((index, part) ∷ parts) key digest id r known =
    prepare_parts-Known o parts key digest id (next_registry (prepare o index part r) r)
      (prepare-Known o index part key digest id r known)

-- The digest that prepare takes of a part.
abbrev digest_of : Oracle → Fields → Text
digest_of o part =
    let fc = fields_or_empty (get (codes "functionCall") part) in
    let args = get (codes "args") fc in
    o.digest (get (codes "name") fc) (if is_set args then args else obj end)

find_call_recorded :
    (o : Oracle) (part : Fields) (key : ToolKey) (digest id : Text) (new : Bool)
    (r next : ToolRegistry)
    → find_call o part key digest r ≡ prepared id new next
    → Known key digest id next
unfolding find_call admit_call lookup
find_call_recorded o part key digest id new r next e = elim (Option-cases (lookup key r.seen)) [
  | inl absent ↦
      let kept = if r.retain_parts then some part else none in
      (
        record { digest = digest; id = id; part = kept },
        ground (arith, e, absent, key_beq_iff key key),
        refl,
        refl,
      )
  | inr (previous, found) ↦
      let (f, at, d, i) =
        sign_retained-Known key key (thought_signature part) digest id r.seen previous found in
      (
        f,
        ground (arith, e, found, at),
        ground (arith, e, found, d, text_beq_iff previous.digest digest),
        ground (arith, e, found, i),
      )
]

find_call_again :
    (o : Oracle) (part : Fields) (key : ToolKey) (digest id : Text) (r : ToolRegistry)
    (f : ToolIdentity)
    → lookup key r.seen ≡ some f
    → f.digest ≡ digest
    → f.id ≡ id
    → find_call o part key digest r
      ≡ prepared id false (record r { seen = sign_retained key (thought_signature part) r.seen })
unfolding find_call
find_call_again o part key digest id r f at d i =
    ground (arith, at, d, i, text_beq_iff f.digest digest)

-- If a part with a call that the upstream gave an id is prepared, then preparing it again, whatever
-- parts were prepared in between, gives the same id, tells that the call is not new, and changes
-- nothing but the signature of the part that is retained for the call, if one is.
pub prepare_again :
    (o : Oracle) (index : ℕ) (part : Fields) (between : List (ℕ × Fields)) (id : Text) (new : Bool)
    (r next : ToolRegistry)
    → is_empty (given_id part) ≡ false
    → prepare o index part r ≡ prepared id new next
    → let s = prepare_parts o between next in
      prepare o index part s
      ≡ prepared id false (record s {
        seen = sign_retained (key_of_part index part) (thought_signature part) s.seen;
      })
unfolding prepare
prepare_again o index part between id new r next given e =
    let key = key_of_part index part in
    let found : find_call o part key (digest_of o part) r ≡ prepared id new next =
      ground (arith, e, given) in
    let (f, at, d, i) =
      prepare_parts-Known o between key (digest_of o part) id next
        (find_call_recorded o part key (digest_of o part) id new r next found) in
    let again : find_call o part key (digest_of o part) (prepare_parts o between next)
        ≡ prepared id false (record (prepare_parts o between next) {
          seen = sign_retained key (thought_signature part) (prepare_parts o between next).seen;
        }) =
      find_call_again o part key (digest_of o part) id (prepare_parts o between next) f at d i in
    ground (arith, e, given, again)
