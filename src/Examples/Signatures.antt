-- ===== src/Examples/Signatures.antt =====
-- Runs of the cache of tool signatures.
use antigravity2api.Base.{
  ℕ, ◌+◌, ◌*◌, ◌≤◌, ◌≡◌, refl, false, List, [], ◌∷◌, ◌++◌, Text, length, arith,
}
use antigravity2api.Strings.{codes, byte_len}
use antigravity2api.Time.{minute, second}
use antigravity2api.Convert.Signatures.{
  CachedSignature, empty_cache, max_signature_cache_bytes, entry_size, is_full, clear_key,
  store_signature, remember_tool_signature, recall_tool_signature, is_refused, signature_family,
}
use antigravity2api.Convert.Signatures.Recall.{empty_cache-Inv}
use antigravity2api.Convert.Signatures.History.{
  SignatureCall, remembers, recalls, after_calls, after_calls_bounds, recall-remember,
}
use antigravity2api.Convert.Signatures.Order.{store-order}

abbrev opus : Text
opus = codes "claude-opus-4-6-thinking"

abbrev sonnet : Text
sonnet = codes "Claude-Sonnet-4-6"

abbrev calls : List SignatureCall
calls =
    remembers 5 opus (codes "tool_1") (codes "sig-a")
    ∷ recalls (5 + second) sonnet (codes "tool_1")
    ∷ remembers 9 opus (codes "tool_2") (codes "sig-b")
    ∷ recalls (9 + 60 * minute) opus (codes "tool_1")
    ∷ []

-- Only the second entry is left: the first was found to be over.
calls_run : length (after_calls calls empty_cache).order ≡ 1
unfolding after_calls remember_tool_signature recall_tool_signature
calls_run = refl

after_calls_bounds_example : (after_calls calls empty_cache).bytes ≤ max_signature_cache_bytes
after_calls_bounds_example = (after_calls_bounds calls).3

recall-remember_example :
    (recall_tool_signature (minute + 10) sonnet (codes "tool_3") (
      remember_tool_signature 10 opus
        (codes "tool_3")
        (codes "sig-c")
        (after_calls calls empty_cache))).1
    ≡ codes "sig-c"
unfolding is_refused signature_family byte_len
recall-remember_example =
    recall-remember calls 10 (minute + 10) opus sonnet (codes "tool_3") (codes "sig-c") refl
      (omega arith) refl (omega arith)

abbrev entry : CachedSignature
entry = record { key = codes "claude"; signature = codes "sig"; expires = 3 }

store-order_example :
    (p : ℕ) × (kept : List (ℕ × CachedSignature)) × (lost : List (ℕ × CachedSignature))
    × ((store_signature entry empty_cache).order ≡ (p, entry) ∷ kept)
    × ((clear_key entry.key empty_cache).order ≡ kept ++ lost)
    × (is_full (entry_size entry) (clear_key entry.key empty_cache) ≡ false → lost ≡ [])
unfolding entry_size byte_len
store-order_example = store-order entry empty_cache empty_cache-Inv (omega arith)
