-- ===== src/Httpapi/History/Laws.antt =====
-- The steps of the operations keep the bounds of the history.
use antigravity2api.Base.{
  ℕ, zero, suc, ◌≤◌, ◌<◌, ◌≡◌, refl, sym, ap, subst, ◌∙◌, Bool, true, false, none, some, Text,
  length, Option-cases, Bool-cases, inl, inr, arith,
}
use antigravity2api.Httpapi.History.{
  HistoryEntry, History, find_entry, remove_entry, remove_key, drop_expired_inputs, has_room,
  last_entry, make_room_for_input,
}
use antigravity2api.Httpapi.History.Entries.{
  total_bytes, DistinctKeys, find_entry-key, without-sizes, without-absent, without-DistinctKeys,
  unexpired-absent, unexpired-DistinctKeys, unexpired-sizes, last_entry-found, remove_entry-gone,
  remove_entry-length, empty_bytes, last_entry-none,
}

-- The counter is right, the history keeps to its bounds, and no key is there twice.
pub record IsBounded (capacity max_bytes ttl : ℕ) (h : History) : Type 0 where
  pub capacity_is : h.capacity ≡ capacity
  pub max_is : h.max_bytes ≡ max_bytes
  pub ttl_is : h.ttl ≡ ttl
  pub count : length h.lru ≤ capacity
  pub counted : h.bytes ≡ total_bytes h.lru
  pub fits : h.bytes ≤ max_bytes
  pub one_each : DistinctKeys h.lru

module _ (capacity max_bytes ttl : ℕ) where
  -- The entries change to fewer with fewer bytes.
  shrinks :
      (h t : History)
      → IsBounded capacity max_bytes ttl h
      → t.capacity ≡ h.capacity
      → t.max_bytes ≡ h.max_bytes
      → t.ttl ≡ h.ttl
      → length t.lru ≤ length h.lru
      → t.bytes ≡ total_bytes t.lru
      → total_bytes t.lru ≤ total_bytes h.lru
      → DistinctKeys t.lru
      → IsBounded capacity max_bytes ttl t
  shrinks h t k c m l count counted fits one_each = record {
    capacity_is = c ∙ k.capacity_is;
    max_is = m ∙ k.max_is;
    ttl_is = l ∙ k.ttl_is;
    count = ground (arith, count, k.count);
    counted = counted;
    fits = ground (arith, counted, fits, k.counted, k.fits);
    one_each = one_each;
  }

  pub remove_entry-IsBounded :
      (e : HistoryEntry) (h : History)
      → find_entry e.key h.lru ≡ some e
      → IsBounded capacity max_bytes ttl h
      → IsBounded capacity max_bytes ttl (remove_entry e h)
  unfolding remove_entry
  remove_entry-IsBounded e h found k =
      let sizes = without-sizes e.key h.lru e found in
      shrinks h (remove_entry e h) k refl refl refl (ground (arith, sizes))
        (ground (arith, sizes, k.counted)) (ground (arith, sizes))
        (without-DistinctKeys e.key h.lru k.one_each)

  pub found_again :
      (key : Text) (h : History) (e : HistoryEntry)
      → find_entry key h.lru ≡ some e
      → find_entry e.key h.lru ≡ some e
  found_again key h e q =
      subst (λ j. find_entry j h.lru ≡ some e) (sym (find_entry-key key h.lru e q)) q

  pub remove_key-IsBounded :
      (key : Text) (h : History)
      → IsBounded capacity max_bytes ttl h
      → IsBounded capacity max_bytes ttl (remove_key key h)
        × (find_entry key (remove_key key h).lru ≡ none)
  unfolding remove_key
  remove_key-IsBounded key h k = elim (Option-cases (find_entry key h.lru)) [
    | inl q ↦
        let is : remove_key key h ≡ h = ground (arith, q) in
        subst (λ t. IsBounded capacity max_bytes ttl t × (find_entry key t.lru ≡ none)) (sym is)
          (k, q)
    | inr (e, q) ↦
        let is : remove_key key h ≡ remove_entry e h = ground (arith, q) in
        subst (λ t. IsBounded capacity max_bytes ttl t × (find_entry key t.lru ≡ none)) (sym is)
          (remove_entry-IsBounded e h (found_again key h e q) k, gone e q)
  ]
    where
      gone :
          (e : HistoryEntry)
          → find_entry key h.lru ≡ some e
          → find_entry key (remove_entry e h).lru ≡ none
      gone e q = remove_entry-gone key e h (find_entry-key key h.lru e q) k.one_each

  pub drop_expired_inputs-IsBounded :
      (now : ℕ) (key : Text) (h : History)
      → IsBounded capacity max_bytes ttl h × (find_entry key h.lru ≡ none)
      → IsBounded capacity max_bytes ttl (drop_expired_inputs now h)
        × (find_entry key (drop_expired_inputs now h).lru ≡ none)
  unfolding drop_expired_inputs
  drop_expired_inputs-IsBounded now key h (k, absent) =
      let sizes = unexpired-sizes now h.lru in
      (
        shrinks h (drop_expired_inputs now h) k refl refl refl sizes.0
            (ground (arith, sizes, k.counted)) (ground (arith, sizes))
            (unexpired-DistinctKeys now h.lru k.one_each),
        unexpired-absent now key h.lru absent,
      )

  remove_entry-absent :
      (key : Text) (e : HistoryEntry) (h : History)
      → find_entry key h.lru ≡ none
      → find_entry key (remove_entry e h).lru ≡ none
  unfolding remove_entry
  remove_entry-absent key e h absent = without-absent e.key key h.lru absent

  -- What the loop that makes room comes to.
  pub record Roomy (key : Text) (size : ℕ) (r : History × Bool) : Type 0 where
    pub bounded : IsBounded capacity max_bytes ttl r.0
    pub absent : find_entry key r.0.lru ≡ none
    pub room : r.1 ≡ has_room size r.0

  pub make_room_for_input-Roomy :
      (n : ℕ) (key : Text) (size : ℕ) (h : History)
      → length h.lru ≡ n
      → IsBounded capacity max_bytes ttl h
      → find_entry key h.lru ≡ none
      → Roomy key size (make_room_for_input n size h)
  unfolding make_room_for_input
  make_room_for_input-Roomy zero key size h l k absent = record {
    bounded = k;
    absent = absent;
    room = refl;
  }
  make_room_for_input-Roomy (suc n) key size h l k absent = elim (Bool-cases (has_room size h)) [
    | inl yes_room ↦
        let is : make_room_for_input (suc n) size h ≡ (h, true) = ground (arith, yes_room) in
        subst (Roomy key size) (sym is)
          (record { bounded = k; absent = absent; room = sym yes_room })
    | inr full ↦ elim (Option-cases (last_entry h.lru)) [
      | inl empty ↦
          let is : make_room_for_input (suc n) size h ≡ (h, false) = ground (arith, full, empty) in
          subst (Roomy key size) (sym is) (record { bounded = k; absent = absent; room = sym full })
      | inr (e, q) ↦
          let is : make_room_for_input (suc n) size h
              ≡ make_room_for_input n size (remove_entry e h) =
            ground (arith, full, q) in
          let found = last_entry-found h.lru e k.one_each q in
          subst (Roomy key size) (sym is) (
            make_room_for_input-Roomy n key size (remove_entry e h)
              (remove_entry-length e h n found l) (remove_entry-IsBounded e h found k)
              (remove_entry-absent key e h absent))
    ]
  ]

  -- An input that fits an empty history is let in.
  pub make_room_for_input-fits :
      (n size : ℕ) (h : History)
      → 0 < capacity
      → size ≤ max_bytes
      → length h.lru ≡ n
      → IsBounded capacity max_bytes ttl h
      → (make_room_for_input n size h).1 ≡ true
  unfolding make_room_for_input
  make_room_for_input-fits zero size h some_room small l k =
      ground (arith, some_room, small, l, k.counted, k.capacity_is, k.max_is, empty_bytes h.lru l)
  make_room_for_input-fits (suc n) size h some_room small l k =
      elim (Bool-cases (has_room size h)) [
        | inl yes_room ↦ ground (arith, yes_room)
        | inr full ↦ elim (Option-cases (last_entry h.lru)) [
          | inl empty ↦ absurd (ground (arith, l, last_entry-none h.lru empty))
          | inr (e, q) ↦
              let is : make_room_for_input (suc n) size h
                  ≡ make_room_for_input n size (remove_entry e h) =
                ground (arith, full, q) in
              let found = last_entry-found h.lru e k.one_each q in
              ap (λ (r : History × Bool). r.1) is
              ∙ make_room_for_input-fits n size (remove_entry e h) some_room small
                  (remove_entry-length e h n found l) (remove_entry-IsBounded e h found k)
        ]
      ]
