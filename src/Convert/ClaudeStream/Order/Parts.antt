-- ===== src/Convert/ClaudeStream/Order/Parts.antt =====
-- A part of a candidate is written in an order that the protocol allows.
use antigravity2api.Base.{
  refl, inl, inr, ◌&&◌, List, [], ◌∷◌, ◌++◌, none, Text, is_empty, Bool-cases, arith, if◌then◌else◌,
}
use antigravity2api.Json.{Json, fields_or_empty}
use antigravity2api.Strings.{codes}
use antigravity2api.Convert.Values.{thought_signature, part_is_thought, image_part_text, text_of}
use antigravity2api.Convert.Stream.{is_call}
use antigravity2api.Convert.Stream.Tools.{Oracle}
use antigravity2api.Convert.ClaudeStream.{
  thinking, text, thinking_delta, text_delta, Step, ◌and_then◌, done, assign, delta,
  ensure_thinking, ensure_text, call_part, thought_part, text_part, write_part, write_parts,
}
use antigravity2api.Convert.ClaudeStream.Order.Triples.{
  Triple, Open, Live, At, ◌then◌, runs_as, weaken, assigns,
}
use antigravity2api.Convert.ClaudeStream.Order.Blocks.{
  delta-At, At-Live, ensure_thinking-At, ensure_text-At, call_part-Live,
}

wrote_thought :
    (thought : Text)
    → Triple Open
        (At thinking)
        (if is_empty thought then done else delta (thinking_delta thought))
        (At thinking)
wrote_thought [] = record { run = λ s h. h }
wrote_thought (c ∷ t) = record { run = (delta-At thinking (thinking_delta (c ∷ t)) refl).run }

thought_part-Live : (thought sig : Text) → Triple Open Live (thought_part thought sig) Live
unfolding thought_part
thought_part-Live thought sig =
    let all : Step =
      ensure_thinking
      and_then (if is_empty thought then done else delta (thinking_delta thought))
      and_then assign (λ t. if is_empty sig then t else record t { pending_sig = sig }) in
    let steps : Triple Open Live all Live =
      ensure_thinking-At
      then wrote_thought thought
      then assigns Open (At thinking) Live
          (λ t. if is_empty sig then t else record t { pending_sig = sig })
          (λ t k. ground (arith, k)) in
    record {
      run = λ s h. elim (Bool-cases (is_empty thought && is_empty sig)) [
        | inl e ↦ runs_as Open Live (thought_part thought sig) s (s, none) (ground (arith, e)) h
        | inr e ↦
            runs_as Open Live (thought_part thought sig) s (all s) (ground (arith, e))
              (steps.run s h)
      ];
    }

text_part-Live : (content sig : Text) → Triple Open Live (text_part content sig) Live
unfolding text_part
text_part-Live [] sig = record { run = λ s h. ground (arith, h) }
text_part-Live (c ∷ t) sig =
    let steps : Triple Open Live (ensure_text and_then delta (text_delta (c ∷ t))) Live =
      ensure_text-At
      then weaken (At text) Live (delta (text_delta (c ∷ t))) (λ s k. k) (At-Live text)
          (delta-At text (text_delta (c ∷ t)) refl) in
    record { run = steps.run }

write_part-Live : (o : Oracle) (v : Json) → Triple Open Live (write_part o v) Live
unfolding write_part
write_part-Live o v =
    let part = fields_or_empty v in
    let sig = thought_signature part in
    let own = text_of (codes "text") part in
    record {
      run = λ s h. elim (Bool-cases (is_call part)) [
        | inl e ↦
            runs_as Open Live (write_part o v) s (call_part o part s) (ground (arith, e))
              ((call_part-Live o part).run s h)
        | inr e ↦ elim (Bool-cases (part_is_thought part)) [
          | inl q ↦
              runs_as Open Live (write_part o v) s (thought_part own sig s) (ground (arith, e, q))
                ((thought_part-Live own sig).run s h)
          | inr q ↦
              runs_as Open Live (write_part o v) s (text_part (own ++ image_part_text part) sig s)
                (ground (arith, e, q)) ((text_part-Live (own ++ image_part_text part) sig).run s h)
        ]
      ];
    }

pub write_parts-Live :
    (o : Oracle) (parts : List Json) → Triple Open Live (write_parts o parts) Live
unfolding write_parts
write_parts-Live o [] = record { run = λ s h. h }
write_parts-Live o (v ∷ parts) =
    let both : Triple Open Live (write_part o v and_then write_parts o parts) Live =
      write_part-Live o v then write_parts-Live o parts in
    record { run = both.run }
