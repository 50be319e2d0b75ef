-- ===== src/Convert/Signatures/Order.antt =====
-- Which entries the cache of tool signatures gives up: those used longest ago.
use antigravity2api.Base.{
  ℕ, zero, suc, ◌+◌, ◌≤◌, ◌<◌, ◌≡◌, refl, sym, ap, subst, ◌∙◌, false, List, [], ◌∷◌, ◌++◌, some,
  none, nat_beq, nat_eq, nat_beq_iff, lookup, delete, Distinct, length, Bool-cases, inl, inr, arith,
}
use mathlib.Core.List.{append_assoc, append-nil}
use antigravity2api.Convert.Signatures.{
  CachedSignature, Cache, max_signature_cache_bytes, entry_size, remove_cached, back, is_full,
  evict, clear_key, push_entry, store_signature,
}
use antigravity2api.Convert.Signatures.Laws.{
  IsWf, remove-IsWf, back-lookup, evict_done, evict_more, remove_shorter, not_full,
}
use antigravity2api.Convert.Signatures.Recall.{Inv, clear_key-Inv, store-push, room, cleared}

back-delete :
    (p : ℕ) (e : CachedSignature) (order : List (ℕ × CachedSignature))
    → Distinct order
    → back order ≡ some p
    → lookup p order ≡ some e
    → order ≡ delete p order ++ (p, e) ∷ []
unfolding back lookup delete
back-delete p e [] d b at = absurd (ground arith)
back-delete p e ((q, f) ∷ []) d b at = ground (arith, nat_beq_iff q p)
back-delete p e ((q, f) ∷ y ∷ order) d b at = elim (back-lookup (y ∷ order) d.1) [
  | inl (n, i) ↦ absurd (cc)
  | inr (r, g, b', found) ↦
      let r_is_p : some r ≡ some p = sym b' ∙ b in
      elim (Bool-cases (nat_beq q p)) [
        | inl same ↦ absurd (
            let q_is_p = (nat_beq_iff q p).0 same in
            let none_there : lookup p (y ∷ order) ≡ none =
              subst (λ r. lookup r (y ∷ order) ≡ none) q_is_p d.0 in
            let some_there : lookup p (y ∷ order) ≡ some g =
              subst (λ t. lookup t (y ∷ order) ≡ some g) (ground arith) found in
            let q = sym none_there ∙ some_there in cc)
        | inr other ↦
            let rest = back-delete p e (y ∷ order) d.1 b (rw other at at) in
            rw (other, delete) (ap (λ (m : List (ℕ × CachedSignature)). (q, f) ∷ m) rest)
      ]
]

remove-order :
    (p : ℕ) (e : CachedSignature) (c : Cache)
    → lookup p c.order ≡ some e
    → (remove_cached p c).order ≡ delete p c.order
unfolding remove_cached
remove-order p e c at = rw (at, remove_cached)

-- The loop of evictions leaves a front part of the list, all of it if there is room.
evict-order :
    (fuel size : ℕ) (c : Cache)
    → IsWf c
    → length c.order < fuel
    → size ≤ max_signature_cache_bytes
    → (lost : List (ℕ × CachedSignature)) × (c.order ≡ (evict fuel size c).0.order ++ lost)
      × (is_full size c ≡ false → lost ≡ [])
evict-order zero size c h f s = absurd (omega arith)
evict-order (suc fuel) size c h f s = elim (Bool-cases (is_full size c)) [
  | inl full ↦ elim (back-lookup c.order h.addresses) [
    | inl (n, e) ↦ absurd (cc (not_full size c h e s))
    | inr (p, e, b, at) ↦
        let (lost, same, _) =
          evict-order fuel size (remove_cached p c) (remove-IsWf p c h)
            (omega (arith, remove_shorter p e c at)) s in
        (
          lost ++ (p, e) ∷ [],
          rw (evict_more fuel size c p full b) (
              back-delete p e c.order h.addresses b at
              ∙ (ap (λ (m : List (ℕ × CachedSignature)). m ++ (p, e) ∷ [])
                    (sym (remove-order p e c at) ∙ same)
                  ∙ append_assoc (evict fuel size (remove_cached p c)).0.order lost ((p, e) ∷ []))),
          (λ fits. absurd (let q = sym full ∙ fits in cc)),
        )
  ]
  | inr fits ↦ ([], rw (evict_done fuel size c fits) (sym (append-nil c.order)), (λ _. refl))
]

-- Storing an entry puts it at the front. Of the entries with other keys a front part stays, in its
-- order; what goes are those at the end, which were used longest ago, and none goes if there is
-- room for the new entry.
pub store-order :
    (e : CachedSignature) (c : Cache)
    → Inv c
    → entry_size e ≤ max_signature_cache_bytes
    → (p : ℕ) × (kept : List (ℕ × CachedSignature)) × (lost : List (ℕ × CachedSignature))
      × ((store_signature e c).order ≡ (p, e) ∷ kept)
      × ((clear_key e.key c).order ≡ kept ++ lost)
      × (is_full (entry_size e) (clear_key e.key c) ≡ false → lost ≡ [])
store-order e c h small =
    let k = clear_key e.key c in
    let (lost, same, none_lost) =
      evict-order (length k.order + 1) (entry_size e) k (clear_key-Inv e.key c h).wf (omega arith)
        small in
    let kept = (evict (length k.order + 1) (entry_size e) k).0 in
    (
      kept.next,
      kept.order,
      lost,
      rw (store-push e c h small) (unfold push_entry room cleared in refl),
      same,
      none_lost,
    )
