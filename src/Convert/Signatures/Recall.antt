-- ===== src/Convert/Signatures/Recall.antt =====
-- What the cache gives back: the bounds, and a signature that was stored.
use antigravity2api.Base.{
  ℕ, suc, ◌+◌, ◌*◌, ◌≤◌, ◌≡◌, refl, sym, ap, ◌∙◌, true, false, ◌==◌, ◌∷◌, Option, none, some, Text,
  text_eq, nat_eq, nat_beq_iff, beq_refl, lookup, lookup-insert, insert-Distinct, length-insert_new,
  length, Bool-cases, Option-cases, inl, inr, if◌then◌else◌, is_empty, arith,
}
use antigravity2api.Strings.{byte_len}
use antigravity2api.Strings.Laws.{byte_len-to_lower, byte_len-append}
use antigravity2api.Time.{minute}
use antigravity2api.Convert.Signatures.{
  CachedSignature, Cache, empty_cache, max_signature_cache_bytes, max_signature_cache_entries,
  entry_size, remove_cached, clear_key, evict, push_entry, store_signature, remember_tool_signature,
  is_refused, signature_cache_key, signature_family, max_cached_signature_bytes,
}
use antigravity2api.Convert.Signatures.Entries.{
  find, total, Below-suc, lookup-Below, find-lookup, find-delete,
}
use antigravity2api.Convert.Signatures.Laws.{IsWf, remove-IsWf, remove-Shrinks, evict_room}

-- The bounds on the number of entries and on their bytes.
pub record Inv (c : Cache) : Type 0 where
  pub wf : IsWf c
  pub entries_fit : length c.order ≤ max_signature_cache_entries
  pub bytes_fit : c.bytes ≤ max_signature_cache_bytes

pub empty_cache-Inv : Inv empty_cache
unfolding find total lookup
empty_cache-Inv = record {
  wf = record {
    entries_distinct = tt;
    addresses = tt;
    keys = tt;
    agree = λ k. refl;
    sized = refl;
    counted = refl;
    below = tt;
  };
  entries_fit = omega arith;
  bytes_fit = omega arith;
}

pub remove-Inv : (p : ℕ) (c : Cache) → Inv c → Inv (remove_cached p c)
remove-Inv p c h = record {
  wf = remove-IsWf p c h.wf;
  entries_fit = omega (arith, h.entries_fit, remove-Shrinks p c);
  bytes_fit = omega (arith, h.bytes_fit, remove-Shrinks p c);
}

push-IsWf :
    (e : CachedSignature) (c : Cache)
    → IsWf c
    → find e.key c.order ≡ none
    → IsWf (push_entry e (entry_size e) c)
unfolding push_entry find total
push-IsWf e c h gone = record {
  entries_distinct = insert-Distinct e.key c.next c.entries h.entries_distinct;
  addresses = (lookup-Below c.next c.order h.below, h.addresses);
  keys = (gone, h.keys);
  agree = λ k.
      lookup-insert e.key k c.next c.entries
      ∙ ap (λ (o : Option ℕ). if e.key == k then some c.next else o) (h.agree k);
  sized =
      (length-insert_new e.key c.next c.entries (h.agree e.key ∙ gone))
      ∙ ap (λ (n : ℕ). suc n) h.sized;
  counted = omega (arith, h.counted);
  below = (omega arith, Below-suc c.next c.order h.below);
}

pub clear_key-Inv : (k : Text) (c : Cache) → Inv c → Inv (clear_key k c)
unfolding clear_key
clear_key-Inv k c h = elim (Option-cases (lookup k c.entries)) [
  | inl e ↦ rw (e, clear_key) h
  | inr (p, e) ↦ rw (e, clear_key) (remove-Inv p c h)
]

clear_key-absent : (k : Text) (c : Cache) → IsWf c → find k (clear_key k c).order ≡ none
unfolding clear_key
clear_key-absent k c h = elim (Option-cases (lookup k c.entries)) [
  | inl e ↦ rw (e, clear_key) (sym (h.agree k) ∙ e)
  | inr (p, e) ↦
      let (f, at, same) = find-lookup k p c.order h.addresses (sym (h.agree k) ∙ e) in
      rw (e, clear_key)
        (unfold remove_cached in
          rw (at, remove_cached)
            (find-delete p k f c.order h.addresses h.keys at ∙ rw (same, beq_refl k) refl))
]

module _ (e : CachedSignature) (c : Cache) (h : Inv c)
    (small : entry_size e ≤ max_signature_cache_bytes) where
  unfoldable pub cleared : Cache
  cleared = clear_key e.key c

  unfoldable pub room : Cache
  room = (evict (length cleared.order + 1) (entry_size e) cleared).0

  room_lem :
      ((evict (length cleared.order + 1) (entry_size e) cleared).1 ≡ true)
      × IsWf room
      × (suc (length room.order) ≤ max_signature_cache_entries)
      × (room.bytes + entry_size e ≤ max_signature_cache_bytes)
      × ((k : Text) → find k cleared.order ≡ none → find k room.order ≡ none)
  unfolding room cleared
  room_lem =
      evict_room (length cleared.order + 1) (entry_size e) cleared (clear_key-Inv e.key c h).wf
        (omega arith) small

  pub store-push : store_signature e c ≡ push_entry e (entry_size e) room
  unfolding store_signature room cleared
  store-push = rw room_lem.0

  pub store-Inv : Inv (store_signature e c)
  store-Inv =
      let (stored, wf, entries, bytes, absent) = room_lem in
      rw store-push (record {
        wf = push-IsWf e room wf (absent e.key (unfold cleared in clear_key-absent e.key c h.wf));
        entries_fit = unfold push_entry in entries;
        bytes_fit = unfold push_entry in bytes;
      })

  -- The stored entry is found.
  pub store-lookup :
      (p : ℕ) × (lookup e.key (store_signature e c).entries ≡ some p)
      × (lookup p (store_signature e c).order ≡ some e)
  store-lookup = (
    room.next,
    rw store-push (
        unfold push_entry in
        lookup-insert e.key e.key room.next room.entries ∙ rw (beq_refl e.key) refl),
    rw store-push (unfold push_entry lookup in ground (arith, nat_beq_iff room.next room.next)),
  )

family-short : (model : Text) → byte_len model ≤ 512 → byte_len (signature_family model) ≤ 512
unfolding signature_family byte_len
family-short model h = ground (arith, byte_len-to_lower model)

pub accepted_bounds :
    (model id signature : Text)
    → is_refused model id signature ≡ false
    → (byte_len model ≤ 512)
      × (byte_len id ≤ 4096)
      × (byte_len signature ≤ max_cached_signature_bytes)
      × (is_empty id ≡ false)
unfolding is_refused
accepted_bounds model id signature h = (ground arith, ground arith, ground arith, ground arith)

byte_len-key :
    (model id : Text)
    → byte_len (signature_cache_key model id)
      ≡ byte_len (signature_family model) + (1 + byte_len id)
unfolding signature_cache_key byte_len
byte_len-key model id = byte_len-append (signature_family model) (0 ∷ id)

-- What passes the guard fits into an empty cache.
pub accepted-small :
    (model id signature : Text) (expires : ℕ)
    → is_refused model id signature ≡ false
    → entry_size
        (record { key = signature_cache_key model id; signature = signature; expires = expires })
      ≤ max_signature_cache_bytes
accepted-small model id signature expires h =
    let b = accepted_bounds model id signature h in
    unfold entry_size in omega (arith, b, byte_len-key model id, family-short model b.0)

pub remember-Inv :
    (now : ℕ) (model id signature : Text) (c : Cache)
    → Inv c
    → Inv (remember_tool_signature now model id signature c)
unfolding remember_tool_signature
remember-Inv now model id signature c h = elim (Bool-cases (is_refused model id signature)) [
  | inl refused ↦ rw refused h
  | inr accepted ↦
      rw accepted (store-Inv _ c h (accepted-small model id signature (now + 60 * minute) accepted))
]
