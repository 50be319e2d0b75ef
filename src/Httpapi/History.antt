-- ===== src/Httpapi/History.antt =====
-- responseHistory of server/internal/httpapi/responses.go: the inputs that responses were given, by
-- owner and id, for requests that continue them. The map and the list hold the same entries, so that
-- the list, the entry that was used last in front, stands for both. An input is the JSON that
-- json.Marshal gave, in bytes; the clock is read once in an operation.
pub mod Entries
pub mod Laws
pub mod Calls
use antigravity2api.Base.{
  ℕ, zero, suc, ◌+◌, ◌-◌, Bool, true, false, ◌&&◌, ◌||◌, not, List, [], ◌∷◌, Option, none, some,
  Text, text_beq, ltb, leb, length, if◌then◌else◌,
}
use antigravity2api.Time.{after}

abbrev pub max_input : ℕ
max_input = 2_097_152

-- responseHistoryEntry
pub record HistoryEntry : Type 0 where
  pub key : Text
  pub input : List ℕ
  pub expires : ℕ

-- responseHistory
pub record History : Type 0 where
  pub lru : List HistoryEntry
  pub capacity : ℕ
  pub max_bytes : ℕ
  pub bytes : ℕ
  pub ttl : ℕ

-- newResponseHistory
unfoldable pub new_history : ℕ → ℕ → ℕ → History
new_history capacity max_bytes ttl = record {
  lru = [];
  capacity = capacity;
  max_bytes = max_bytes;
  bytes = 0;
  ttl = ttl;
}

-- items[key]
unfoldable pub find_entry : Text → List HistoryEntry → Option HistoryEntry
unfolding text_beq
find_entry key [] = none
find_entry key (e ∷ es) =
    let rest = find_entry key es in if text_beq e.key key then some e else rest

unfoldable pub without : Text → List HistoryEntry → List HistoryEntry
unfolding text_beq
without key [] = []
without key (e ∷ es) = let rest = without key es in if text_beq e.key key then es else e ∷ rest

-- remove, of the entry with the key
unfoldable pub remove_entry : HistoryEntry → History → History
unfolding without
remove_entry e h = record h { lru = without e.key h.lru; bytes = h.bytes - length e.input }

-- get, before the input is decoded
unfoldable pub get_input : ℕ → Text → History → History × Option (List ℕ)
unfolding find_entry remove_entry without
get_input now key h = elim (find_entry key h.lru) [
  | none ↦ (h, none)
  | some e ↦
      if after now e.expires
      then (remove_entry e h, none)
      else (record h { lru = e ∷ without key h.lru }, some e.input)
]

unfoldable pub remove_key : Text → History → History
unfolding find_entry remove_entry
remove_key key h = elim (find_entry key h.lru) [ none ↦ h | some e ↦ remove_entry e h ]

-- What the loop over the entries leaves, and the bytes that it frees.
unfoldable pub unexpired : ℕ → List HistoryEntry → List HistoryEntry
unexpired now [] = []
unexpired now (e ∷ es) =
    let rest = unexpired now es in if after now e.expires then rest else e ∷ rest

unfoldable pub expired_bytes : ℕ → List HistoryEntry → ℕ
expired_bytes now [] = 0
expired_bytes now (e ∷ es) =
    (if after now e.expires then length e.input else 0) + expired_bytes now es

unfoldable pub drop_expired_inputs : ℕ → History → History
unfolding unexpired expired_bytes
drop_expired_inputs now h = record h {
  lru = unexpired now h.lru;
  bytes = h.bytes - expired_bytes now h.lru;
}

-- Room for an input of that size.
abbrev pub has_room : ℕ → History → Bool
has_room size h = ltb (length h.lru) h.capacity && leb (h.bytes + size) h.max_bytes

unfoldable pub last_entry : List HistoryEntry → Option HistoryEntry
last_entry [] = none
last_entry (e ∷ es) = let rest = last_entry es in elim rest [ none ↦ some e | some l ↦ some l ]

-- The loop that makes room, which ends at the latest when all entries are gone: the first argument
-- is how many there are. The test says whether there is room.
unfoldable pub make_room_for_input : ℕ → ℕ → History → History × Bool
unfolding last_entry remove_entry
make_room_for_input zero size h = (h, has_room size h)
make_room_for_input (suc n) size h =
    let rest : History × Bool = elim (last_entry h.lru) [
      | none ↦ (h, false)
      | some e ↦ make_room_for_input n size (remove_entry e h)
    ] in
    if has_room size h then (h, true) else rest

-- put, of an input that is JSON
unfoldable pub put_input : ℕ → Text → List ℕ → History → History
unfolding remove_key drop_expired_inputs make_room_for_input
put_input now key input h =
    if ltb max_input (length input)
    then h
    else (let fresh = drop_expired_inputs now (remove_key key h) in
        let (room, fits) = make_room_for_input (length fresh.lru) (length input) fresh in
        if fits
        then record room {
          lru = record { key = key; input = input; expires = now + room.ttl } ∷ room.lru;
          bytes = room.bytes + length input;
        }
        else room)

pub data HistoryCall : Type 0 where
  gets : ℕ → Text → HistoryCall
  puts : ℕ → Text → List ℕ → HistoryCall

unfoldable pub history_call : HistoryCall → History → History
unfolding get_input put_input
history_call (gets now key) h = (get_input now key h).0
history_call (puts now key input) h = put_input now key input h

unfoldable pub history_calls : List HistoryCall → History → History
unfolding history_call
history_calls [] h = h
history_calls (c ∷ cs) h = history_calls cs (history_call c h)
