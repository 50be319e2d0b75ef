-- ===== src/Examples/Histories.antt =====
-- A history of responses that may hold two inputs of ten bytes together.
use antigravity2api.Base.{◌≡◌, ◌≤◌, refl, List, [], ◌∷◌, some, length, arith, text_beq}
use antigravity2api.Strings.{codes}
use antigravity2api.Httpapi.History.{
  new_history, get_input, put_input, HistoryCall, gets, puts, history_calls, history_call,
  remove_key, find_entry, without, remove_entry, unexpired, expired_bytes, drop_expired_inputs,
  last_entry, make_room_for_input,
}
use antigravity2api.Httpapi.History.Entries.{total_bytes}
use antigravity2api.Httpapi.History.Calls.{get_input-put_input}

-- The first entry is used again, so that the second goes when the third comes.
abbrev calls : List HistoryCall
calls =
    puts 0 (codes "a") (1 ∷ 2 ∷ 3 ∷ []) ∷ puts 1 (codes "b") (4 ∷ 5 ∷ []) ∷ gets 2 (codes "a") ∷ []

third_run :
    (put_input 3 (codes "c") (6 ∷ []) (history_calls calls (new_history 2 10 100))).lru
    ≡ record { key = codes "c"; input = 6 ∷ []; expires = 103 }
      ∷ record { key = codes "a"; input = 1 ∷ 2 ∷ 3 ∷ []; expires = 100 }
      ∷ []
unfolding history_calls history_call get_input put_input new_history remove_key find_entry without
    remove_entry unexpired expired_bytes drop_expired_inputs last_entry make_room_for_input text_beq
third_run = refl

get_input-put_input_example :
    let h = put_input 3 (codes "c") (6 ∷ []) (history_calls calls (new_history 2 10 100)) in
    ((get_input 90 (codes "c") h).1 ≡ some (6 ∷ [])) × (length h.lru ≤ 2) × (total_bytes h.lru ≤ 10)
get_input-put_input_example =
    get_input-put_input 2 10 100 calls 3 90 (codes "c") (6 ∷ []) (ground arith) (ground arith)
      (ground arith) (ground arith)
