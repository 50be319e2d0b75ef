-- ===== src/Httpapi/History/Calls.antt =====
-- The history keeps to its bounds, and an input that was put is got again.
use antigravity2api.Base.{
  ℕ, ◌+◌, ◌≤◌, ◌<◌, ◌≡◌, refl, sym, ap, subst, ◌∙◌, Bool, true, false, List, [], ◌∷◌, Option, none,
  some, Text, text_beq_iff, ltb, length, Option-cases, Bool-cases, inl, inr, arith, if◌then◌else◌,
}
use antigravity2api.Time.{after}
use antigravity2api.Httpapi.History.{
  max_input, HistoryEntry, History, new_history, find_entry, without, remove_entry, get_input,
  remove_key, drop_expired_inputs, has_room, make_room_for_input, put_input, HistoryCall, gets,
  puts, history_call, history_calls,
}
use antigravity2api.Httpapi.History.Entries.{
  total_bytes, without-key, without-DistinctKeys, without-sizes, find_entry-key,
}
use antigravity2api.Httpapi.History.Laws.{
  IsBounded, Roomy, remove_entry-IsBounded, found_again, remove_key-IsBounded,
  drop_expired_inputs-IsBounded, make_room_for_input-Roomy, make_room_for_input-fits,
}

module _ (capacity max_bytes ttl : ℕ) where
  -- The new entry in front.
  insert_input : ℕ → Text → List ℕ → History → History
  insert_input now key input room = record room {
    lru = record { key = key; input = input; expires = now + room.ttl } ∷ room.lru;
    bytes = room.bytes + length input;
  }

  insert_input-IsBounded :
      (now : ℕ) (key : Text) (input : List ℕ) (h : History)
      → IsBounded capacity max_bytes ttl h
      → find_entry key h.lru ≡ none
      → has_room (length input) h ≡ true
      → IsBounded capacity max_bytes ttl (insert_input now key input h)
  unfolding insert_input total_bytes
  insert_input-IsBounded now key input h k absent room = record {
    capacity_is = k.capacity_is;
    max_is = k.max_is;
    ttl_is = k.ttl_is;
    count = ground (arith, room, k.capacity_is);
    counted = ground (arith, k.counted);
    fits = ground (arith, room, k.max_is);
    one_each = (absent, k.one_each);
  }

  -- The history with the key's and the expired entries gone.
  cleared : ℕ → Text → History → History
  cleared now key h = drop_expired_inputs now (remove_key key h)

  made : ℕ → Text → List ℕ → History → History × Bool
  made now key input h =
      let fresh = cleared now key h in make_room_for_input (length fresh.lru) (length input) fresh

  cleared-IsBounded :
      (now : ℕ) (key : Text) (h : History)
      → IsBounded capacity max_bytes ttl h
      → IsBounded capacity max_bytes ttl (cleared now key h)
        × (find_entry key (cleared now key h).lru ≡ none)
  unfolding cleared
  cleared-IsBounded now key h k =
      drop_expired_inputs-IsBounded capacity max_bytes ttl now key (remove_key key h)
        (remove_key-IsBounded capacity max_bytes ttl key h k)

  made-Roomy :
      (now : ℕ) (key : Text) (input : List ℕ) (h : History)
      → IsBounded capacity max_bytes ttl h
      → Roomy capacity max_bytes ttl key (length input) (made now key input h)
  unfolding made
  made-Roomy now key input h k =
      let fresh = cleared now key h in
      let c = cleared-IsBounded now key h k in
      make_room_for_input-Roomy capacity max_bytes ttl (length fresh.lru) key (length input) fresh
        refl c.0 c.1

  made-fits :
      (now : ℕ) (key : Text) (input : List ℕ) (h : History)
      → IsBounded capacity max_bytes ttl h
      → 0 < capacity
      → length input ≤ max_bytes
      → (made now key input h).1 ≡ true
  unfolding made
  made-fits now key input h k some_room small =
      let fresh = cleared now key h in
      make_room_for_input-fits capacity max_bytes ttl (length fresh.lru) (length input) fresh
        some_room small refl (cleared-IsBounded now key h k).0

  -- An entry that is got moves to the front.
  move_front :
      (key : Text) (h : History)
      → IsBounded capacity max_bytes ttl h
      → (e : HistoryEntry) → find_entry key h.lru ≡ some e
      → IsBounded capacity max_bytes ttl (record h { lru = e ∷ without key h.lru })
  unfolding total_bytes
  move_front key h k e q =
      let sizes = without-sizes key h.lru e q in
      let own = find_entry-key key h.lru e q in
      record {
        capacity_is = k.capacity_is;
        max_is = k.max_is;
        ttl_is = k.ttl_is;
        count = ground (arith, sizes, k.count);
        counted = k.counted ∙ sizes.1;
        fits = k.fits;
        one_each = (
          subst (λ j. find_entry j (without key h.lru) ≡ none) (sym own)
              (without-key key h.lru k.one_each),
          without-DistinctKeys key h.lru k.one_each,
        );
      }

  put_input-cases :
      (now : ℕ) (key : Text) (input : List ℕ) (h : History)
      → put_input now key input h ≡ (
          if ltb max_input (length input)
          then h
          else (if (made now key input h).1
              then insert_input now key input (made now key input h).0
              else (made now key input h).0))
  unfolding put_input made cleared insert_input
  put_input-cases now key input h = refl

  put_input-IsBounded :
      (now : ℕ) (key : Text) (input : List ℕ) (h : History)
      → IsBounded capacity max_bytes ttl h
      → IsBounded capacity max_bytes ttl (put_input now key input h)
  put_input-IsBounded now key input h k =
      subst (IsBounded capacity max_bytes ttl) (sym (put_input-cases now key input h))
        (pick (ltb max_input (length input)))
    where
      r : Roomy capacity max_bytes ttl key (length input) (made now key input h)
      r = made-Roomy now key input h k

      inner :
          (b : Bool)
          → (made now key input h).1 ≡ b
          → IsBounded capacity max_bytes ttl (
              if b
              then insert_input now key input (made now key input h).0
              else (made now key input h).0)
      inner true e =
          insert_input-IsBounded now key input (made now key input h).0 r.bounded r.absent
            (sym r.room ∙ e)
      inner false e = r.bounded

      pick :
          (b : Bool)
          → IsBounded capacity max_bytes ttl (
              if b
              then h
              else (if (made now key input h).1
                  then insert_input now key input (made now key input h).0
                  else (made now key input h).0))
      pick true = k
      pick false = inner (made now key input h).1 refl

  get_input-IsBounded :
      (now : ℕ) (key : Text) (h : History)
      → IsBounded capacity max_bytes ttl h
      → IsBounded capacity max_bytes ttl (get_input now key h).0
  unfolding get_input
  get_input-IsBounded now key h k = elim (Option-cases (find_entry key h.lru)) [
    | inl q ↦ from (h, none) (ground (arith, q)) k
    | inr (e, q) ↦ elim (Bool-cases (after now e.expires)) [
      | inl old ↦
          from (remove_entry e h, none) (ground (arith, q, old))
            (remove_entry-IsBounded capacity max_bytes ttl e h
              (found_again capacity max_bytes ttl key h e q) k)
      | inr fresh ↦
          from (record h { lru = e ∷ without key h.lru }, some e.input) (ground (arith, q, fresh))
            (moved e q)
    ]
  ]
    where
      from :
          (r : History × Option (List ℕ))
          → get_input now key h ≡ r
          → IsBounded capacity max_bytes ttl r.0
          → IsBounded capacity max_bytes ttl (get_input now key h).0
      from r e =
          subst (λ (q : History × Option (List ℕ)). IsBounded capacity max_bytes ttl q.0) (sym e)

      moved :
          (e : HistoryEntry)
          → find_entry key h.lru ≡ some e
          → IsBounded capacity max_bytes ttl (record h { lru = e ∷ without key h.lru })
      moved e q = move_front key h k e q

  -- However the history was used, it is within its bounds.
  pub history_calls-IsBounded :
      (calls : List HistoryCall) (h : History)
      → IsBounded capacity max_bytes ttl h
      → IsBounded capacity max_bytes ttl (history_calls calls h)
  unfolding history_calls history_call
  history_calls-IsBounded [] h k = k
  history_calls-IsBounded (gets now key ∷ calls) h k =
      history_calls-IsBounded calls (get_input now key h).0 (get_input-IsBounded now key h k)
  history_calls-IsBounded (puts now key input ∷ calls) h k =
      history_calls-IsBounded calls (put_input now key input h)
        (put_input-IsBounded now key input h k)

  get_input-insert :
      (now later : ℕ) (key : Text) (input : List ℕ) (h : History)
      → h.ttl ≡ ttl
      → later ≤ now + ttl
      → (get_input later key (insert_input now key input h)).1 ≡ some input
  unfolding get_input insert_input find_entry
  get_input-insert now later key input h l soon = ground (arith, l, soon, text_beq_iff key key)

  put_input-insert :
      (now : ℕ) (key : Text) (input : List ℕ) (h : History)
      → IsBounded capacity max_bytes ttl h
      → 0 < capacity
      → length input ≤ max_bytes
      → length input ≤ max_input
      → put_input now key input h ≡ insert_input now key input (made now key input h).0
  put_input-insert now key input h k some_room small short =
      put_input-cases now key input h
      ∙ ground (arith, short, made-fits now key input h k some_room small)

new-IsBounded :
    (capacity max_bytes ttl : ℕ)
    → IsBounded capacity max_bytes ttl (new_history capacity max_bytes ttl)
unfolding new_history total_bytes
new-IsBounded capacity max_bytes ttl = record {
  capacity_is = refl;
  max_is = refl;
  ttl_is = refl;
  count = omega arith;
  counted = refl;
  fits = omega arith;
  one_each = tt;
}

-- In a history that is used in any way from the start, an input of at most 2 MiB that is put and fits
-- an empty history is got again under its key until its time is over, whatever had to go for it; and
-- there are never more entries nor more bytes than it may hold.
pub get_input-put_input :
    (capacity max_bytes ttl : ℕ) (calls : List HistoryCall) (now later : ℕ) (key : Text)
    (input : List ℕ)
    → 0 < capacity
    → length input ≤ max_bytes
    → length input ≤ max_input
    → later ≤ now + ttl
    → let h = put_input now key input (history_calls calls (new_history capacity max_bytes ttl)) in
      ((get_input later key h).1 ≡ some input)
      × (length h.lru ≤ capacity)
      × (total_bytes h.lru ≤ max_bytes)
get_input-put_input capacity max_bytes ttl calls now later key input some_room small short soon =
    let h = history_calls calls (new_history capacity max_bytes ttl) in
    let k =
      history_calls-IsBounded capacity max_bytes ttl calls (new_history capacity max_bytes ttl)
        (new-IsBounded capacity max_bytes ttl) in
    let put = put_input-IsBounded capacity max_bytes ttl now key input h k in
    let r = made-Roomy capacity max_bytes ttl now key input h k in
    let room = (made capacity max_bytes ttl now key input h).0 in
    (
      ap (λ t. (get_input later key t).1)
            (put_input-insert capacity max_bytes ttl now key input h k some_room small short)
          ∙ get_input-insert capacity max_bytes ttl now later key input room r.bounded.ttl_is soon,
      put.count,
      subst (λ n. n ≤ max_bytes) put.counted put.fits,
    )
