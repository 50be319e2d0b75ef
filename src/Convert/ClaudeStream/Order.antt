-- ===== src/Convert/ClaudeStream/Order.antt =====
-- What WriteClaudeSSE writes keeps to the protocol.
pub mod Triples
pub mod Blocks
pub mod Parts
use antigravity2api.Base.{
  ℕ, zero, suc, ◌+◌, ◌≡◌, ◌≢◌, refl, sym, ap, subst, ◌∙◌, ◌⊎◌, inl, inr, Bool, true, false, ◌&&◌,
  not, List, [], ◌∷◌, ◌++◌, Option, none, some, Text, is_empty, Bool-cases, Option-cases, arith,
  if◌then◌else◌, ltb, pos, negsuc, ℤ, leb, length, lookup, insert,
}
use antigravity2api.Json.{Json, obj, Fields, fields_or_empty, get, is_set}
use antigravity2api.Strings.{codes}
use antigravity2api.Convert.Values.{thought_signature, part_is_thought, image_part_text, text_of}
use antigravity2api.Convert.Usage.{claude_usage, gemini_usage_to_openai}
use antigravity2api.Convert.Stream.{UpstreamError, is_call, parts_of}
use antigravity2api.Convert.Stream.Tools.{Oracle}
use antigravity2api.Convert.Stream.Walk.{
  Event, payload, fails, Seen, StreamCandidate, candidates_of, see_candidates, see_candidate,
  conclude_walk, first_unfinished, walk_from, walk_gemini_stream,
}
use antigravity2api.Convert.ClaudeStream.{
  thinking, text, thinking_delta, text_delta, Frame, message_start, message_delta, message_stop,
  error_frame, Writing, Step, start_writing, ◌and_then◌, done, assign, write_error, emit, delta,
  close_block, is_thinking, ensure_thinking, ensure_text, call_part, thought_part, text_part,
  write_part, write_parts, begin_message, write_candidate, visit, stop_reason, end_message,
  write_failure, write_claude_sse,
}
use antigravity2api.Convert.ClaudeStream.Protocol.{
  Phase, before, between, inside, ending, ended, broken, next_phase, check, is_open, is_ended,
}
use antigravity2api.Convert.ClaudeStream.Order.Triples.{
  Ends, Triple, Open, Live, Closed, At, ◌then◌, runs_as, weaken, assigns,
}
use antigravity2api.Convert.ClaudeStream.Order.Blocks.{
  emit-cases, delta-At, Live-Open, At-Live, Closed-Live, close_block-Closed, ensure_thinking-At,
  ensure_text-At, call_part-Live,
}
use antigravity2api.Convert.ClaudeStream.Order.Parts.{write_parts-Live}

-- No frame has been written.
abbrev Fresh : Writing → Type 0
Fresh s = (s.started ≡ false) × (s.frames ≡ []) × (s.block ≡ none) × (s.index ≡ 0)

abbrev Sound : Writing → Type 0
Sound s = Fresh s ⊎ Live s

Sound-Open : (s : Writing) → Sound s → Open s
unfolding check
Sound-Open s (inl h) = (before, ground (arith, h), refl)
Sound-Open s (inr h) = Live-Open s h

begin_message-Live : Triple Open Sound begin_message Live
unfolding begin_message ◌and_then◌ check next_phase
begin_message-Live = record { run = λ s h. go s h }
  where
    go : (s : Writing) → Sound s → Ends Open Live (begin_message s)
    go s (inr h) = runs_as Open Live begin_message s (s, none) (ground (arith, h)) h
    go s (inl h) = elim (emit-cases (message_start (claude_usage s.usage)) s) [
      | inl e ↦
          runs_as Open Live begin_message s (s, some write_error) (ground (arith, e, h))
            (Sound-Open s (inl h))
      | inr (room, e) ↦
          runs_as Open Live begin_message s
            (
              record s {
                room = room;
                frames = message_start (claude_usage s.usage) ∷ s.frames;
                started = true;
              },
              none,
            )
            (ground (arith, e, h)) (ground (arith, h))
    ]

write_candidate-Live : (o : Oracle) (c : Fields) → Triple Open Sound (write_candidate o c) Live
unfolding write_candidate
write_candidate-Live o c =
    begin_message-Live
    then assigns Open Live Live
        (λ t.
          let f = text_of (codes "finishReason") c in
          if is_empty f then t else record t { finish = f })
        (λ t k. ground (arith, k))
    then write_parts-Live o (parts_of c)

-- What is known while candidates may have been seen.
abbrev Tracks : Seen → Writing → Type 0
Tracks seen s = Sound s × (is_empty seen ≡ false → Live s)

visit-Tracks :
    (o : Oracle) (p : Fields) (seen next : Seen) (s : Writing)
    → see_candidates 0 (candidates_of p) seen ≡ (next, none)
    → Tracks seen s
    → Ends Open (Tracks next) (visit o p s)
unfolding visit see_candidates
visit-Tracks o p seen next s e h = go (candidates_of p) refl
  where
    noted : Writing
    noted =
        let u = get (codes "usageMetadata") p in
        if is_set u then record s { usage = gemini_usage_to_openai u } else s

    kept : Sound s → Sound noted
    kept (inl k) = inl (ground (arith, k))
    kept (inr k) = inr (ground (arith, k))

    go : (cands : List Json) → candidates_of p ≡ cands → Ends Open (Tracks next) (visit o p s)
    go [] q =
        let same : seen ≡ next = ground (arith, e, q) in
        runs_as Open (Tracks next) (visit o p) s (noted, none) (ground (arith, q))
          (kept h.0, λ n. ground (arith, h.1, same, n))
    go (v ∷ rest) q =
        runs_as Open (Tracks next) (visit o p) s (write_candidate o (fields_or_empty v) noted)
          (ground (arith, q))
          ((weaken Sound (Tracks next) (write_candidate o (fields_or_empty v)) (λ t k. k)
              (λ t k. (inr k, λ n. k)) (write_candidate-Live o (fields_or_empty v))).run
            noted (kept h.0))

walk-Live :
    (o : Oracle) (events : List Event) (seen : Seen) (s : Writing)
    → Tracks seen s
    → Ends Open Live (walk_from (visit o) events seen s)
unfolding walk_from conclude_walk
walk-Live o [] [] s h = Sound-Open s h.0
walk-Live o [] (x ∷ seen) s h = go (first_unfinished (x ∷ seen)) (h.1 refl)
  where
    go : (r : Option UpstreamError) → Live s → Ends Open Live (s, r)
    go none k = k
    go (some e) k = Live-Open s k
walk-Live o (fails e ∷ events) seen s h = Sound-Open s h.0
walk-Live o (payload p ∷ events) seen s h =
    go (see_candidates 0 (candidates_of p) seen) refl (λ next t. walk-Live o events next t)
  where
    Goal : Type 0
    Goal = Ends Open Live (walk_from (visit o) (payload p ∷ events) seen s)

    visited :
        (next : Seen) (r : Writing × Option UpstreamError)
        → see_candidates 0 (candidates_of p) seen ≡ (next, none)
        → visit o p s ≡ r
        → Ends Open (Tracks next) r
        → ((n : Seen) (t : Writing) → Tracks n t → Ends Open Live (walk_from (visit o) events n t))
        → Goal
    visited next (t, none) q e k ih =
        let is : walk_from (visit o) (payload p ∷ events) seen s
            ≡ walk_from (visit o) events next t =
          ground (arith, q, e) in
        subst (Ends Open Live) (sym is) (ih next t k)
    visited next (t, some x) q e k ih =
        let is : walk_from (visit o) (payload p ∷ events) seen s ≡ (t, some x) =
          ground (arith, q, e) in
        subst (Ends Open Live) (sym is) k

    go :
        (r : Seen × Option UpstreamError)
        → see_candidates 0 (candidates_of p) seen ≡ r
        → ((n : Seen) (t : Writing) → Tracks n t → Ends Open Live (walk_from (visit o) events n t))
        → Goal
    go (next, none) q ih = visited next (visit o p s) q refl (visit-Tracks o p seen next s q h) ih
    go (next, some x) q ih =
        let is : walk_from (visit o) (payload p ∷ events) seen s ≡ (s, some x) =
          ground (arith, q) in
        subst (Ends Open Live) (sym is) (Sound-Open s h.0)

-- An allowed order that is not a whole message.
abbrev pub Partial : Writing → Type 0
Partial s = (p : Phase) × (check s.frames ≡ some p) × (is_ended p ≡ false)

abbrev pub Whole : Writing → Type 0
Whole s = check s.frames ≡ some ended

open_Partial : (p : Phase) → is_open p ≡ true → is_ended p ≡ false
open_Partial before h = refl
open_Partial (between n) h = refl
open_Partial (inside n b) h = refl
open_Partial ending h = refl
open_Partial broken h = refl
open_Partial ended h = absurd (ground (arith, h))

weaken_errors : {P Q : Writing → Type 0} (f : Step) → Triple Open P f Q → Triple Partial P f Q
weaken_errors {P} {Q} f p = record { run = λ s h. go (f s) (p.run s h) }
  where
    go : (r : Writing × Option UpstreamError) → Ends Open Q r → Ends Partial Q r
    go (t, none) k = k
    go (t, some x) k = (k.0, k.1, open_Partial k.0 k.2)

-- One more frame, which ends in the phase, or the phase before is left.
one_frame :
    (P Q : Writing → Type 0) (f : Writing → Frame)
    → ((s : Writing) → P s → Partial s)
    → ((s : Writing) (room : ℕ) → P s → Q (record s { room = room; frames = f s ∷ s.frames }))
    → Triple Partial P (λ s. emit (f s) s) Q
one_frame P Q f partial more = record {
  run = λ s h. elim (emit-cases (f s) s) [
    | inl e ↦ subst (Ends Partial Q) (sym e) (partial s h)
    | inr (room, e) ↦ subst (Ends Partial Q) (sym e) (more s room h)
  ];
}

abbrev Ending : Writing → Type 0
Ending s = check s.frames ≡ some ending

end_message-Whole : Triple Partial Live end_message Whole
unfolding end_message check next_phase
end_message-Whole =
    weaken_errors close_block close_block-Closed
    then one_frame Closed Ending (λ s. message_delta (stop_reason s) (claude_usage s.usage))
        (λ s h. (between s.index, h.2, refl)) (λ s room h. ground (arith, h))
    then one_frame Ending Whole (λ s. message_stop) (λ s h. (ending, h, refl))
        (λ s room h. ground (arith, h))

error-broken :
    (p : Phase) (e : UpstreamError) (frames : List Frame)
    → check frames ≡ some p
    → is_open p ≡ true
    → check (error_frame e ∷ frames) ≡ some broken
unfolding check next_phase
error-broken before e frames at may = ground (arith, at)
error-broken (between n) e frames at may = ground (arith, at)
error-broken (inside n b) e frames at may = ground (arith, at)
error-broken ending e frames at may = ground (arith, may)
error-broken ended e frames at may = ground (arith, may)
error-broken broken e frames at may = ground (arith, may)

write_failure-Partial :
    (e : UpstreamError) (s : Writing) → Open s → Ends Partial Whole (write_failure e s)
unfolding write_failure
write_failure-Partial e s (p, at, may) = elim (emit-cases (error_frame e) s) [
  | inl q ↦
      runs_as Partial Whole (write_failure e) s (s, some e) (ground (arith, q))
        (p, at, open_Partial p may)
  | inr (room, q) ↦
      runs_as Partial Whole (write_failure e) s
        (record s { room = room; frames = error_frame e ∷ s.frames }, some e) (ground (arith, q))
        (broken, error-broken p e s.frames at may, refl)
]

-- Whatever an upstream sends and however many frames the client takes: if WriteClaudeSSE reports no
-- error, the frames it has written are one whole message of the protocol, from message_start to
-- message_stop, its blocks numbered from 0 without a gap and each with only the deltas of its kind;
-- if it reports one, they are in an allowed order, and the message does not end.
pub write_claude_sse-order :
    (o : Oracle) (events : List Event) (room : ℕ)
    → Ends Partial Whole (write_claude_sse o events room)
unfolding write_claude_sse start_writing walk_gemini_stream
write_claude_sse-order o events room =
    go (walk_gemini_stream (visit o) events first) refl
      (walk-Live o events [] first (inl (refl, refl, refl, refl), λ n. absurd (ground (arith, n))))
  where
    first : Writing
    first = start_writing room

    go :
        (r : Writing × Option UpstreamError)
        → walk_gemini_stream (visit o) events first ≡ r
        → Ends Open Live r
        → Ends Partial Whole (write_claude_sse o events room)
    go (s, none) q k =
        let is : write_claude_sse o events room ≡ end_message s = ground (arith, q) in
        subst (Ends Partial Whole) (sym is) (end_message-Whole.run s k)
    go (s, some e) q k =
        let is : write_claude_sse o events room ≡ write_failure e s = ground (arith, q) in
        subst (Ends Partial Whole) (sym is) (write_failure-Partial e s k)
