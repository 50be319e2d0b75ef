-- ===== src/Convert/Signatures.antt =====
-- server/internal/convert/signature_cache.go: the cache of tool signatures, a map from keys to
-- elements of a list that runs from the entry used last to the one used longest ago. An element is
-- named by a number, which stands for its address.
pub mod Entries
pub mod Laws
pub mod Recall
pub mod History
pub mod Order
use antigravity2api.Base.{
  ℕ, zero, suc, ◌+◌, ◌-◌, ◌*◌, ◌^◌, Bool, true, false, ◌||◌, List, [], ◌∷◌, ◌++◌, Option, none,
  some, Text, text_eq, text_beq, nat_eq, lookup, insert, delete, length, leb, ltb, is_empty,
  if◌then◌else◌,
}
use antigravity2api.Strings.{codes, to_lower, contains, byte_len}
use antigravity2api.Time.{after, minute}

abbrev pub max_cached_signature_bytes : ℕ
max_cached_signature_bytes = 256 * 2 ^ 10

abbrev pub max_signature_cache_bytes : ℕ
max_signature_cache_bytes = 16 * 2 ^ 20

abbrev pub max_signature_cache_entries : ℕ
max_signature_cache_entries = 4096

-- cachedToolSignature
pub record CachedSignature : Type 0 where
  pub key : Text
  pub signature : Text
  pub expires : ℕ

-- toolSignatures; `next` is the first address that is not handed out.
pub record Cache : Type 0 where
  pub entries : List (Text × ℕ)
  pub order : List (ℕ × CachedSignature)
  pub bytes : ℕ
  pub next : ℕ

abbrev pub empty_cache : Cache
empty_cache = record { entries = []; order = []; bytes = 0; next = 0 }

-- len(entry.key) + len(entry.signature)
unfoldable pub entry_size : CachedSignature → ℕ
entry_size e = byte_len e.key + byte_len e.signature

-- signatureCacheKey
unfoldable pub signature_family : Text → Text
unfolding to_lower contains
signature_family model =
    let family = to_lower model in
    if contains family (codes "claude")
    then codes "claude"
    else (if contains family (codes "gemini") then codes "gemini" else family)

unfoldable pub signature_cache_key : Text → Text → Text
unfolding signature_family
signature_cache_key model id = signature_family model ++ 0 ∷ id

-- removeCachedSignature; the laws show that `bytes` is at least what is taken off.
unfoldable pub remove_cached : ℕ → Cache → Cache
unfolding lookup delete text_beq entry_size
remove_cached element c = elim (lookup element c.order) [
  | none ↦ c
  | some entry ↦ record c {
    entries = delete entry.key c.entries;
    bytes = c.bytes - entry_size entry;
    order = delete element c.order;
  }
]

-- order.Back()
unfoldable pub back : List (ℕ × CachedSignature) → Option ℕ
back [] = none
back ((element, entry) ∷ []) = some element
back (x ∷ y ∷ order) = back (y ∷ order)

-- The condition of the loop in RememberToolSignature.
unfoldable pub is_full : ℕ → Cache → Bool
is_full size c =
    leb max_signature_cache_entries (length c.entries)
    || ltb max_signature_cache_bytes (c.bytes + size)

-- The loop, with fuel; `false` says that the function returns without storing.
unfoldable pub evict : ℕ → ℕ → Cache → Cache × Bool
unfolding is_full back remove_cached
evict zero size c = (c, false)
evict (suc fuel) size c = elim (is_full size c) [
  | false ↦ (c, true)
  | true ↦ elim (back c.order) [
    | none ↦ (c, false)
    | some oldest ↦ evict fuel size (remove_cached oldest c)
  ]
]

-- element := order.PushFront(entry); entries[key] = element; bytes += size
unfoldable pub push_entry : CachedSignature → ℕ → Cache → Cache
unfolding insert text_beq
push_entry entry size c = record {
  entries = insert entry.key c.next c.entries;
  order = (c.next, entry) ∷ c.order;
  bytes = c.bytes + size;
  next = c.next + 1;
}

-- if existing := toolSignatures.entries[key]; existing != nil { removeCachedSignature(existing) }
unfoldable pub clear_key : Text → Cache → Cache
unfolding lookup text_beq remove_cached
clear_key key c = elim (lookup key c.entries) [
  | none ↦ c
  | some existing ↦ remove_cached existing c
]

-- What RememberToolSignature does under the lock.
unfoldable pub store_signature : CachedSignature → Cache → Cache
unfolding clear_key evict push_entry entry_size
store_signature entry c =
    let size = entry_size entry in
    let cleared = clear_key entry.key c in
    let (room, stored) = evict (length cleared.order + 1) size cleared in
    if stored then push_entry entry size room else room

-- The condition under which RememberToolSignature returns at once.
unfoldable pub is_refused : Text → Text → Text → Bool
unfolding byte_len text_beq
is_refused model id signature =
    is_empty id
    || ltb 4096 (byte_len id)
    || ltb 512 (byte_len model)
    || is_empty signature
    || text_beq signature (codes "skip_thought_signature_validator")
    || ltb max_cached_signature_bytes (byte_len signature)

-- RememberToolSignature
unfoldable pub remember_tool_signature : ℕ → Text → Text → Text → Cache → Cache
unfolding is_refused store_signature signature_cache_key
remember_tool_signature now model id signature c =
    if is_refused model id signature
    then c
    else store_signature
        (record {
          key = signature_cache_key model id;
          signature = signature;
          expires = now + 60 * minute;
        })
        c

-- order.MoveToFront(element)
unfoldable pub move_to_front : ℕ → CachedSignature → Cache → Cache
unfolding delete
move_to_front element entry c = record c { order = (element, entry) ∷ delete element c.order }

-- What RecallToolSignature does with an element that it has found.
unfoldable pub recall_element : ℕ → ℕ → Cache → Cache × Text
unfolding lookup remove_cached move_to_front
recall_element now element c = elim (lookup element c.order) [
  | none ↦ (c, [])
  | some entry ↦
      if after entry.expires now
      then (move_to_front element entry c, entry.signature)
      else (remove_cached element c, [])
]

-- RecallToolSignature
unfoldable pub recall_tool_signature : ℕ → Text → Text → Cache → Cache × Text
unfolding recall_element lookup text_beq signature_cache_key byte_len
recall_tool_signature now model id c =
    if is_empty id || ltb 4096 (byte_len id) || ltb 512 (byte_len model)
    then (c, [])
    else elim (lookup (signature_cache_key model id) c.entries) [
      | none ↦ (c, [])
      | some element ↦ recall_element now element c
    ]
