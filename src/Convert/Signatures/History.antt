-- ===== src/Convert/Signatures/History.antt =====
-- The cache of tool signatures over a sequence of calls.
use antigravity2api.Base.{
  ℕ, ◌+◌, ◌*◌, ◌≤◌, ◌<◌, ◌≡◌, refl, sym, ap, ◌∙◌, true, false, ◌==◌, ◌||◌, List, [], ◌∷◌, some,
  Text, text_eq, text_beq_iff, nat_eq, lookup, lookup-delete, delete-Distinct, length,
  length-delete, Bool-cases, Option-cases, inl, inr, arith, is_empty, ltb, lookup-delete, beq_refl,
}
use antigravity2api.Strings.{byte_len}
use antigravity2api.Time.{minute, after}
use antigravity2api.Convert.Signatures.{
  CachedSignature, Cache, empty_cache, max_signature_cache_bytes, max_signature_cache_entries,
  move_to_front, recall_element, remember_tool_signature, recall_tool_signature, is_refused,
  signature_cache_key, signature_family, store_signature,
}
use antigravity2api.Convert.Signatures.Entries.{
  find, total, lookup-lt, lookup-find, total-delete, find-delete, delete-KeysDistinct, delete-Below,
}
use antigravity2api.Convert.Signatures.Laws.{IsWf}
use antigravity2api.Convert.Signatures.Recall.{
  Inv, empty_cache-Inv, remove-Inv, remember-Inv, store-lookup, accepted-small, accepted_bounds,
}

moved-find :
    (p : ℕ) (e : CachedSignature) (c : Cache)
    → IsWf c
    → lookup p c.order ≡ some e
    → (k : Text) → find k c.order ≡ find k (move_to_front p e c).order
unfolding move_to_front find
moved-find p e c w at k = elim (Bool-cases (e.key == k)) [
  | inl same ↦ rw same (
      ap (λ (t : Text). find t c.order) (sym ((text_beq_iff e.key k).0 same))
      ∙ lookup-find p e c.order w.keys at)
  | inr other ↦ rw other (sym (find-delete p k e c.order w.addresses w.keys at ∙ rw other refl))
]

move-Inv :
    (p : ℕ) (e : CachedSignature) (c : Cache)
    → Inv c
    → lookup p c.order ≡ some e
    → Inv (move_to_front p e c)
unfolding move_to_front find total
move-Inv p e c h at =
    let w = h.wf in
    let shorter = length-delete p e c.order w.addresses at in
    record {
      wf = record {
        entries_distinct = w.entries_distinct;
        addresses = (
          lookup-delete p p c.order ∙ rw (beq_refl p) refl,
          delete-Distinct p c.order w.addresses,
        );
        keys = (
          find-delete p e.key e c.order w.addresses w.keys at ∙ rw (beq_refl e.key) refl,
          delete-KeysDistinct p c.order w.keys,
        );
        agree = λ k. w.agree k ∙ moved-find p e c w at k;
        sized = omega (arith, w.sized, shorter);
        counted = omega (arith, w.counted, total-delete p e c.order w.addresses at);
        below = (lookup-lt p c.next e c.order w.below at, delete-Below p c.next c.order w.below);
      };
      entries_fit = omega (arith, h.entries_fit, shorter);
      bytes_fit = h.bytes_fit;
    }

recall_element-Inv : (now p : ℕ) (c : Cache) → Inv c → Inv (recall_element now p c).0
unfolding recall_element
recall_element-Inv now p c h = elim (Option-cases (lookup p c.order)) [
  | inl n ↦ rw (n, recall_element) h
  | inr (e, at) ↦
      rw (at, recall_element)
        (elim (Bool-cases (after e.expires now)) [
          | inl good ↦ rw good (move-Inv p e c h at)
          | inr over ↦ rw over (remove-Inv p c h)
        ])
]

recall-Inv :
    (now : ℕ) (model id : Text) (c : Cache) → Inv c → Inv (recall_tool_signature now model id c).0
unfolding recall_tool_signature
recall-Inv now model id c h =
    elim (Bool-cases (is_empty id || ltb 4096 (byte_len id) || ltb 512 (byte_len model))) [
      | inl refused ↦ rw refused h
      | inr accepted ↦
          rw accepted (elim (Option-cases (lookup (signature_cache_key model id) c.entries)) [
            | inl n ↦ rw (n, recall_tool_signature) h
            | inr (p, at) ↦ rw (at, recall_tool_signature) (recall_element-Inv now p c h)
          ])
    ]

-- The calls of the cache, which run one after another under its lock.
pub data SignatureCall : Type 0 where
  remembers : ℕ → Text → Text → Text → SignatureCall
  recalls : ℕ → Text → Text → SignatureCall

unfoldable pub after_call : SignatureCall → Cache → Cache
after_call (remembers now model id signature) c = remember_tool_signature now model id signature c
after_call (recalls now model id) c = (recall_tool_signature now model id c).0

unfoldable pub after_calls : List SignatureCall → Cache → Cache
unfolding after_call
after_calls [] c = c
after_calls (call ∷ calls) c = after_calls calls (after_call call c)

after_call-Inv : (call : SignatureCall) (c : Cache) → Inv c → Inv (after_call call c)
unfolding after_call
after_call-Inv (remembers now model id signature) c h = remember-Inv now model id signature c h
after_call-Inv (recalls now model id) c h = recall-Inv now model id c h

pub after_calls-Inv : (calls : List SignatureCall) (c : Cache) → Inv c → Inv (after_calls calls c)
unfolding after_calls
after_calls-Inv [] c h = h
after_calls-Inv (call ∷ calls) c h =
    after_calls-Inv calls (after_call call c) (after_call-Inv call c h)

-- From an empty cache, after any sequence of calls, the map and the list hold as many entries, at
-- most 4096; `bytes` is the sum of the sizes of the entries, and at most 16 MiB.
pub after_calls_bounds :
    (calls : List SignatureCall)
    → let c = after_calls calls empty_cache in
      (length c.entries ≡ length c.order)
      × (length c.order ≤ max_signature_cache_entries)
      × (c.bytes ≡ total c.order)
      × (c.bytes ≤ max_signature_cache_bytes)
after_calls_bounds calls =
    let h = after_calls-Inv calls empty_cache empty_cache-Inv in
    (h.wf.sized, h.entries_fit, h.wf.counted, h.bytes_fit)

abbrev hour : ℕ
hour = 60 * minute

-- The entry that RememberToolSignature makes.
abbrev entry_for : ℕ → Text → Text → Text → CachedSignature
entry_for now model id signature = record {
  key = signature_cache_key model id;
  signature = signature;
  expires = now + hour;
}

remember_accepted :
    (now : ℕ) (model id signature : Text) (c : Cache)
    → is_refused model id signature ≡ false
    → remember_tool_signature now model id signature c
      ≡ store_signature (entry_for now model id signature) c
unfolding remember_tool_signature
remember_accepted now model id signature c accepted = rw accepted

recall_found :
    (now p : ℕ) (model id : Text) (c : Cache) (e : CachedSignature)
    → (is_empty id || ltb 4096 (byte_len id) || ltb 512 (byte_len model)) ≡ false
    → lookup (signature_cache_key model id) c.entries ≡ some p
    → lookup p c.order ≡ some e
    → after e.expires now ≡ true
    → (recall_tool_signature now model id c).1 ≡ e.signature
unfolding recall_tool_signature recall_element
recall_found now p model id c e short at of good =
    rw short (rw (at, recall_tool_signature) (rw (of, recall_element) (rw good)))

same_key :
    (model other id : Text)
    → signature_family other ≡ signature_family model
    → signature_cache_key other id ≡ signature_cache_key model id
unfolding signature_cache_key
same_key model other id same = rw same

-- After any sequence of calls, a signature that RememberToolSignature accepts at `now` is what
-- RecallToolSignature gives next for the same id, at any time within the hour and for any model of
-- at most 512 bytes whose family is the same.
pub recall-remember :
    (calls : List SignatureCall) (now later : ℕ) (model other id signature : Text)
    → is_refused model id signature ≡ false
    → byte_len other ≤ 512
    → signature_family other ≡ signature_family model
    → later < now + hour
    → (recall_tool_signature later other id
        (remember_tool_signature now model id signature (after_calls calls empty_cache))).1
      ≡ signature
recall-remember calls now later model other id signature accepted short same early =
    let c = after_calls calls empty_cache in
    let h = after_calls-Inv calls empty_cache empty_cache-Inv in
    let b = accepted_bounds model id signature accepted in
    let e = entry_for now model id signature in
    let (p, at, of) =
      store-lookup e c h (accepted-small model id signature (now + hour) accepted) in
    rw (remember_accepted now model id signature c accepted) (
      recall_found later p other id (store_signature e c) e (ground (arith, b, short))
        (rw (same_key model other id same) at) of (ground (arith, early)))
