-- ===== src/Convert/ClaudeStream/Order/Blocks.antt =====
-- The steps that write blocks, by what holds before and after them.
use antigravity2api.Base.{
  ℕ, zero, suc, ◌+◌, ◌≡◌, refl, ◌⊎◌, inl, inr, true, false, [], ◌∷◌, Option, none, some, is_empty,
  Bool-cases, Option-cases, arith, if◌then◌else◌,
}
use antigravity2api.Json.{Fields}
use antigravity2api.Convert.Values.{thought_signature}
use antigravity2api.Convert.Stream.Tools.{
  Oracle, ToolCall, tool_call, prepare, Prepared, prepared, unprepared,
}
use antigravity2api.Convert.ClaudeStream.{
  Block, thinking, text, tool_use, Delta, signature_delta, input_json_delta, Frame,
  content_block_start, content_block_delta, content_block_stop, Writing, ◌and_then◌, assign,
  write_error, emit, delta, close_signature, stop_block, close_block, open_block, start_block,
  is_thinking, is_text, ensure_thinking, ensure_text, write_tool, call_part,
}
use antigravity2api.Convert.ClaudeStream.Protocol.{between, inside, fits, next_phase, check}
use antigravity2api.Convert.ClaudeStream.Order.Triples.{
  Ends, Triple, Open, phase_of, Live, At, Closed, ◌then◌, runs_as, weaken, assigns,
}

-- A write succeeds, or leaves the state as it was.
pub emit-cases :
    (f : Frame) (s : Writing)
    → (emit f s ≡ (s, some write_error))
      ⊎ ((room : ℕ) × (emit f s ≡ (record s { room = room; frames = f ∷ s.frames }, none)))
unfolding emit
emit-cases f s = go s.room refl
  where
    go :
        (n : ℕ)
        → s.room ≡ n
        → (emit f s ≡ (s, some write_error))
          ⊎ ((room : ℕ) × (emit f s ≡ (record s { room = room; frames = f ∷ s.frames }, none)))
    go zero e = inl (ground (arith, e))
    go (suc n) e = inr (n, ground (arith, e))

pub delta-At : (b : Block) (d : Delta) → fits b d ≡ true → Triple Open (At b) (delta d) (At b)
unfolding delta check next_phase
delta-At b d fit = record {
  run = λ s h. elim (emit-cases (content_block_delta s.index d) s) [
    | inl e ↦ runs_as Open (At b) (delta d) s _ e (inside s.index b, h.2, refl)
    | inr (room, e) ↦ runs_as Open (At b) (delta d) s _ e (ground (arith, h, fit))
  ];
}

close_signature-At : (b : Block) → Triple Open (At b) (close_signature b) (At b)
unfolding close_signature ◌and_then◌
close_signature-At thinking = record {
  run = λ s h. elim (Bool-cases (is_empty s.pending_sig)) [
    | inl e ↦
        runs_as Open (At thinking) (close_signature thinking) s (s, none) (ground (arith, e)) h
    | inr e ↦
        runs_as Open (At thinking) (close_signature thinking) s
          ((delta (signature_delta s.pending_sig)
              and_then assign (λ t. record t { pending_sig = [] }))
            s)
          (ground (arith, e))
          ((delta-At thinking (signature_delta s.pending_sig) refl
              then assigns Open (At thinking) (At thinking) (λ t. record t { pending_sig = [] })
                  (λ t k. k)).run
            s h)
  ];
}
close_signature-At text = record { run = λ s h. h }
close_signature-At (tool_use id name sig) = record { run = λ s h. h }

stop_block-Closed : (b : Block) → Triple Open (At b) stop_block Closed
unfolding stop_block ◌and_then◌ check next_phase
stop_block-Closed b = record {
  run = λ s h. elim (emit-cases (content_block_stop s.index) s) [
    | inl e ↦
        runs_as Open Closed stop_block s (s, some write_error) (ground (arith, e))
          (inside s.index b, h.2, refl)
    | inr (room, e) ↦
        runs_as Open Closed stop_block s
          (
            record s {
              room = room;
              frames = content_block_stop s.index ∷ s.frames;
              index = s.index + 1;
              block = none;
            },
            none,
          )
          (ground (arith, e)) (ground (arith, h))
  ];
}

open_block-At : (b : Block) → Triple Open Closed (open_block b) (At b)
unfolding open_block ◌and_then◌ check next_phase
open_block-At b = record {
  run = λ s h. elim (emit-cases (content_block_start s.index b) s) [
    | inl e ↦
        runs_as Open (At b) (open_block b) s (s, some write_error) (ground (arith, e))
          (between s.index, h.2, refl)
    | inr (room, e) ↦
        runs_as Open (At b) (open_block b) s
          (
            record s {
              room = room;
              frames = content_block_start s.index b ∷ s.frames;
              block = some b;
            },
            none,
          )
          (ground (arith, e)) (ground (arith, h))
  ];
}

pub At-Live : (b : Block) (s : Writing) → At b s → Live s
At-Live b s h = ground (arith, h)

pub Closed-Live : (s : Writing) → Closed s → Live s
Closed-Live s h = ground (arith, h)

pub close_block-Closed : Triple Open Live close_block Closed
unfolding close_block
close_block-Closed = record {
  run = λ s h. elim (Option-cases s.block) [
    | inl e ↦ runs_as Open Closed close_block s (s, none) (ground (arith, e)) (ground (arith, h, e))
    | inr (b, e) ↦
        runs_as Open Closed close_block s ((close_signature b and_then stop_block) s)
          (ground (arith, e))
          ((close_signature-At b then stop_block-Closed b).run s (ground (arith, h, e)))
  ];
}

start_block-At : (b : Block) → Triple Open Live (start_block b) (At b)
unfolding start_block
start_block-At b =
    let both : Triple Open Live (close_block and_then open_block b) (At b) =
      close_block-Closed then open_block-At b in
    record { run = both.run }

-- Whatever block is open, an error may follow.
pub Live-Open : (s : Writing) → Live s → Open s
Live-Open s h = (phase_of s, h.1, ground arith)

pub ensure_thinking-At : Triple Open Live ensure_thinking (At thinking)
unfolding ensure_thinking
ensure_thinking-At = record { run = λ s h. go s h s.block refl }
  where
    start :
        (s : Writing)
        → Live s
        → is_thinking s.block ≡ false
        → Ends Open (At thinking) (ensure_thinking s)
    start s h e =
        runs_as Open (At thinking) ensure_thinking s (start_block thinking s) (ground (arith, e))
          ((start_block-At thinking).run s h)

    go :
        (s : Writing)
        → Live s
        → (b : Option Block) → s.block ≡ b
        → Ends Open (At thinking) (ensure_thinking s)
    go s h (some thinking) e =
        runs_as Open (At thinking) ensure_thinking s (s, none) (ground (arith, e))
          (ground (arith, h, e))
    go s h none e = start s h (ground (arith, e))
    go s h (some text) e = start s h (ground (arith, e))
    go s h (some (tool_use id name sig)) e = start s h (ground (arith, e))

pub ensure_text-At : Triple Open Live ensure_text (At text)
unfolding ensure_text
ensure_text-At = record { run = λ s h. go s h s.block refl }
  where
    start : (s : Writing) → Live s → is_text s.block ≡ false → Ends Open (At text) (ensure_text s)
    start s h e =
        runs_as Open (At text) ensure_text s (start_block text s) (ground (arith, e))
          ((start_block-At text).run s h)

    go :
        (s : Writing)
        → Live s
        → (b : Option Block) → s.block ≡ b
        → Ends Open (At text) (ensure_text s)
    go s h (some text) e =
        runs_as Open (At text) ensure_text s (s, none) (ground (arith, e)) (ground (arith, h, e))
    go s h none e = start s h (ground (arith, e))
    go s h (some thinking) e = start s h (ground (arith, e))
    go s h (some (tool_use id name sig)) e = start s h (ground (arith, e))

write_tool-Live : (tc : ToolCall) → Triple Open Live (write_tool tc) Live
unfolding write_tool
write_tool-Live tc =
    let b : Block = tool_use tc.id tc.name tc.signature in
    start_block-At b
    then delta-At b (input_json_delta tc.arguments) refl
    then weaken (At b) Closed close_block (At-Live b) (λ s k. k) close_block-Closed
    then assigns Open Closed Live (λ t. record t { used_tool = true }) (λ t k. Closed-Live t k)

pub call_part-Live : (o : Oracle) (part : Fields) → Triple Open Live (call_part o part) Live
unfolding call_part
call_part-Live o part = record { run = λ s h. go s h (prepare o 0 part s.registry) refl }
  where
    go :
        (s : Writing)
        → Live s
        → (r : Prepared) → prepare o 0 part s.registry ≡ r
        → Ends Open Live (call_part o part s)
    go s h (unprepared x) e =
        runs_as Open Live (call_part o part) s (s, some x) (ground (arith, e)) (Live-Open s h)
    go s h (prepared id new registry) e =
        let tc = tool_call o part id in
        let noted = record s {
          registry = registry;
          remembered = (id, thought_signature part) ∷ s.remembered;
        } in
        elim (Bool-cases new) [
          | inl n ↦
              runs_as Open Live (call_part o part) s (write_tool tc noted) (ground (arith, e, n))
                ((write_tool-Live tc).run noted h)
          | inr n ↦ runs_as Open Live (call_part o part) s (noted, none) (ground (arith, e, n)) h
        ]
