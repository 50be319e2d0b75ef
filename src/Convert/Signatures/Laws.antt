-- ===== src/Convert/Signatures/Laws.antt =====
-- What the cache of tool signatures keeps, and what it gives back.
use antigravity2api.Base.{
  ℕ, zero, suc, ◌+◌, ◌≤◌, ◌<◌, ◌≡◌, refl, sym, ap, ◌∙◌, true, false, ◌==◌, List, [], ◌∷◌, Option,
  none, some, Text, text_eq, nat_eq, nat_beq_iff, lookup, lookup-delete, Distinct, length-delete,
  length-delete-le, length-delete-lt, delete-Distinct, length, Bool-cases, Option-cases, ◌⊎◌, inl,
  inr, if◌then◌else◌, arith,
}
use antigravity2api.Convert.Signatures.{
  CachedSignature, Cache, max_signature_cache_bytes, max_signature_cache_entries, remove_cached,
  back, is_full, evict,
}
use antigravity2api.Convert.Signatures.Entries.{
  find, total, KeysDistinct, Below, lookup-find, total-delete, find-delete, find-delete-none,
  delete-KeysDistinct, delete-Below,
}

-- The map and the list hold the same entries, each key once, and `bytes` is their size.
pub record IsWf (c : Cache) : Type 0 where
  pub entries_distinct : Distinct c.entries
  pub addresses : Distinct c.order
  pub keys : KeysDistinct c.order
  pub agree : (k : Text) → lookup k c.entries ≡ find k c.order
  pub sized : length c.entries ≡ length c.order
  pub counted : c.bytes ≡ total c.order
  pub below : Below c.next c.order

pub remove-IsWf : (p : ℕ) (c : Cache) → IsWf c → IsWf (remove_cached p c)
unfolding remove_cached
remove-IsWf p c h = elim (Option-cases (lookup p c.order)) [
  | inl e ↦ rw (e, remove_cached) h
  | inr (e, at) ↦
      rw (at, remove_cached)
        (record {
          entries_distinct = delete-Distinct e.key c.entries h.entries_distinct;
          addresses = delete-Distinct p c.order h.addresses;
          keys = delete-KeysDistinct p c.order h.keys;
          agree = λ k.
              lookup-delete e.key k c.entries
              ∙ (ap (λ (o : Option ℕ). if e.key == k then none else o) (h.agree k)
                  ∙ sym (find-delete p k e c.order h.addresses h.keys at));
          sized = omega (
            arith,
            h.sized,
            length-delete p e c.order h.addresses at,
            length-delete e.key p c.entries h.entries_distinct
                (h.agree e.key ∙ lookup-find p e c.order h.keys at),
          );
          counted = omega (arith, h.counted, total-delete p e c.order h.addresses at);
          below = delete-Below p c.next c.order h.below;
        })
]

-- What removing leaves is no more than before.
abbrev pub Shrinks : Cache → Cache → Type 0
Shrinks c d = (length d.order ≤ length c.order) × (d.bytes ≤ c.bytes) × (d.next ≡ c.next)

pub remove-Shrinks : (p : ℕ) (c : Cache) → Shrinks c (remove_cached p c)
unfolding remove_cached
remove-Shrinks p c = ground (arith, length-delete-le p c.order)

-- The last element is one of the list.
pub back-lookup :
    (order : List (ℕ × CachedSignature))
    → Distinct order
    → (back order ≡ none) × (order ≡ [])
      ⊎ ((p : ℕ) × (e : CachedSignature) × (back order ≡ some p) × (lookup p order ≡ some e))
unfolding back lookup
back-lookup [] d = inl (refl, refl)
back-lookup ((p, e) ∷ []) d = inr (p, e, refl, ground (arith, nat_beq_iff p p))
back-lookup ((p, e) ∷ y ∷ order) d = elim (back-lookup (y ∷ order) d.1) [
  | inl (n, i) ↦ absurd (cc)
  | inr (q, f, b, at) ↦ inr (q, f, b, ground (arith, nat_beq_iff p q, d.0, at))
]

-- The loop one round at a time.
pub evict_done :
    (fuel size : ℕ) (c : Cache) → is_full size c ≡ false → evict (suc fuel) size c ≡ (c, true)
unfolding evict
evict_done fuel size c fits = rw (fits, evict)

pub evict_more :
    (fuel size : ℕ) (c : Cache) (p : ℕ)
    → is_full size c ≡ true
    → back c.order ≡ some p
    → evict (suc fuel) size c ≡ evict fuel size (remove_cached p c)
unfolding evict
evict_more fuel size c p full last = rw (full, evict) (rw (last, evict))

is_full_bounds :
    (size : ℕ) (c : Cache)
    → is_full size c ≡ false
    → (suc (length c.entries) ≤ max_signature_cache_entries)
      × (c.bytes + size ≤ max_signature_cache_bytes)
unfolding is_full
is_full_bounds size c fits = ground arith

-- An empty cache has room.
pub not_full :
    (size : ℕ) (c : Cache)
    → IsWf c
    → c.order ≡ []
    → size ≤ max_signature_cache_bytes
    → is_full size c ≡ false
unfolding is_full total
not_full size c h e s =
    let entries : length c.entries ≡ 0 = rw e at (h.sized) in
    let bytes : c.bytes ≡ 0 = rw e at (h.counted) in ground arith

pub remove_shorter :
    (p : ℕ) (e : CachedSignature) (c : Cache)
    → lookup p c.order ≡ some e
    → length (remove_cached p c).order < length c.order
unfolding remove_cached
remove_shorter p e c at = rw (at, remove_cached) (omega (arith, length-delete-lt p e c.order at))

remove-absent :
    (p : ℕ) (c : Cache) (k : Text) → find k c.order ≡ none → find k (remove_cached p c).order ≡ none
unfolding remove_cached
remove-absent p c k gone = ground (arith, find-delete-none p k c.order gone)

-- With fuel for every element the loop ends with room for the new entry.
pub evict_room :
    (fuel size : ℕ) (c : Cache)
    → IsWf c
    → length c.order < fuel
    → size ≤ max_signature_cache_bytes
    → let (d, stored) = evict fuel size c in
      (stored ≡ true)
      × IsWf d
      × (suc (length d.order) ≤ max_signature_cache_entries)
      × (d.bytes + size ≤ max_signature_cache_bytes)
      × ((k : Text) → find k c.order ≡ none → find k d.order ≡ none)
evict_room zero size c h f s = absurd (omega arith)
evict_room (suc fuel) size c h f s = elim (Bool-cases (is_full size c)) [
  | inl full ↦ elim (back-lookup c.order h.addresses) [
    | inl (n, e) ↦ absurd (cc (not_full size c h e s))
    | inr (p, e, b, at) ↦
        let (stored, wf, entries, bytes, absent) =
          evict_room fuel size (remove_cached p c) (remove-IsWf p c h)
            (omega (arith, remove_shorter p e c at)) s in
        rw (evict_more fuel size c p full b)
          (stored, wf, entries, bytes, (λ k gone. absent k (remove-absent p c k gone)))
  ]
  | inr fits ↦
      let (e, b) = is_full_bounds size c fits in
      rw (evict_done fuel size c fits) (refl, h, omega (arith, h.sized), b, (λ k gone. gone))
]
