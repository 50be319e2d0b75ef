-- ===== src/Convert/Stream/Walk.antt =====
-- walkGeminiStream of server/internal/convert/stream.go, over what the decoder gives one after
-- another. The visitor changes a state of the caller's and may fail. Of the statistics, the usage is
-- modelled with the writers and the time of the first token is left out.
use antigravity2api.Base.{
  ℕ, ◌+◌, Bool, true, false, ◌&&◌, not, List, [], ◌∷◌, Option, none, some, Text, pos, negsuc,
  nat_eq, lookup, insert, length, is_empty, ltb, leb, if◌then◌else◌,
}
use antigravity2api.Strings.{codes}
use antigravity2api.Json.{Json, Fields, get, obj, string_or_empty, as_slice}
use antigravity2api.Convert.Values.{text_of, equal_fold}
use antigravity2api.Convert.Stream.{
  UpstreamError, stream_failure, candidate_index, candidate_has_output,
}

abbrev pub max_stream_candidates : ℕ
max_stream_candidates = 64

-- What next gives: a payload, or an error; the end of the list is io.EOF.
pub data Event : Type 0 where
  payload : Fields → Event
  fails : UpstreamError → Event

-- streamCandidate
pub record StreamCandidate : Type 0 where
  pub finish : Text
  pub content : Bool

abbrev pub Seen : Type 0
Seen = List (ℕ × StreamCandidate)

abbrev pub unseen : StreamCandidate
unseen = record { finish = []; content = false }

unfoldable pub bad_index : UpstreamError
unfolding stream_failure
bad_index =
    stream_failure (codes "invalid_response") (codes "upstream returned invalid candidate index")

unfoldable pub too_many : UpstreamError
unfolding stream_failure
too_many = stream_failure (codes "invalid_response") (codes "upstream returned too many candidates")

-- What a candidate adds to its state.
unfoldable pub note_candidate : Fields → StreamCandidate → StreamCandidate
unfolding candidate_has_output get string_or_empty
note_candidate c state =
    let f = text_of (codes "finishReason") c in
    record {
      finish = if is_empty f then state.finish else f;
      content = if candidate_has_output c then true else state.content;
    }

-- One turn of the loop over the candidates, with an index in range.
unfoldable pub see_candidate : ℕ → Fields → Seen → Seen × Option UpstreamError
unfolding lookup insert
see_candidate idx c seen = elim (lookup idx seen) [
  | some state ↦ (insert idx (note_candidate c state) seen, none)
  | none ↦
      if leb max_stream_candidates (length seen)
      then (seen, some too_many)
      else (insert idx (note_candidate c unseen) seen, none)
]

-- `i` is the position of the first of the candidates.
unfoldable pub see_candidates : ℕ → List Json → Seen → Seen × Option UpstreamError
see_candidates i [] seen = (seen, none)
see_candidates i (obj c ∷ cands) seen = elim (candidate_index c i) [
  | negsuc n ↦ (seen, some bad_index)
  | pos idx ↦ elim (ltb idx max_stream_candidates) [
    | false ↦ (seen, some bad_index)
    | true ↦
        let (next, err) = see_candidate idx c seen in
        let rest = see_candidates (i + 1) cands next in
        elim err [ some e ↦ (next, some e) | none ↦ rest ]
  ]
]
see_candidates i (v ∷ cands) seen = (seen, some bad_index)

-- The candidates of a payload.
unfoldable pub candidates_of : Fields → List Json
unfolding get as_slice
candidates_of p = as_slice (get (codes "candidates") p)

-- What is wrong with a candidate at the end of the stream.
unfoldable pub unfinished : StreamCandidate → Option UpstreamError
unfolding equal_fold stream_failure
unfinished state =
    if is_empty state.finish
    then some (
        stream_failure (codes "upstream_interrupted")
          (codes "upstream stream ended without finishReason"))
    else (if not state.content && equal_fold state.finish (codes "STOP")
        then some
            (stream_failure (codes "empty_response") (codes "upstream stream ended without output"))
        else none)

unfoldable pub first_unfinished : Seen → Option UpstreamError
unfolding unfinished
first_unfinished [] = none
first_unfinished ((idx, state) ∷ seen) =
    let rest = first_unfinished seen in elim (unfinished state) [ some e ↦ some e | none ↦ rest ]

-- What follows the loop.
unfoldable pub conclude_walk : Seen → Option UpstreamError
unfolding first_unfinished stream_failure
conclude_walk [] =
    some
      (stream_failure (codes "empty_response") (codes "upstream stream ended without candidates"))
conclude_walk (s ∷ seen) = first_unfinished (s ∷ seen)

module _ {S : Type 0} (visit : Fields → S → S × Option UpstreamError) where
  unfoldable pub walk_from : List Event → Seen → S → S × Option UpstreamError
  walk_from [] seen s = (s, conclude_walk seen)
  walk_from (fails e ∷ events) seen s = (s, some e)
  walk_from (payload p ∷ events) seen s =
      let (next, err) = see_candidates 0 (candidates_of p) seen in
      let (t, failure) = visit p s in
      let rest = walk_from events next t in
      elim err [ some e ↦ (s, some e) | none ↦ elim failure [ some e ↦ (t, some e) | none ↦ rest ] ]

  -- walkGeminiStream
  unfoldable pub walk_gemini_stream : List Event → S → S × Option UpstreamError
  walk_gemini_stream events s = walk_from events [] s
