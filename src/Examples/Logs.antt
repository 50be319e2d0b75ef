-- ===== src/Examples/Logs.antt =====
-- The queue of request logs.
use antigravity2api.Base.{ℕ, ◌≡◌, refl, true, false, List, [], ◌∷◌, Text, text_beq, lookup, insert}
use antigravity2api.Strings.{codes}
use antigravity2api.Store.Writer.{
  new_writer, mark_used, add_log, flush, receive, close_writer, store_used, Event, marks, logs,
  receives, ticks, closes, event, events,
}
use antigravity2api.Store.Writer.Drain.{all_work, turns, close-drains}
use antigravity2api.Base.{arith}
use antigravity2api.Store.Writer.Counts.{
  accounted, offered, Bounded, no_log_uncounted, writer_bounds,
}

abbrev rows : List (Text × ℕ)
rows = (codes "ada", 7) ∷ []

-- A channel of one log: the second log is dropped, the first is written, the third comes too late.
abbrev history : List (Event ℕ)
history =
    logs 1
    ∷ logs 2
    ∷ marks 9 (codes "ada")
    ∷ marks 8 (codes "bob")
    ∷ receives true
    ∷ ticks true
    ∷ closes
    ∷ logs 3
    ∷ []

history_run : events 1 history (new_writer rows) ≡ record {
  closed = true;
  queue = [];
  batch = [];
  used = [];
  dropped = 1;
  write_errors = 0;
  written = 1 ∷ [];
  last_used = (codes "ada", 9) ∷ [];
}
unfolding events event new_writer mark_used add_log flush receive close_writer store_used lookup
    insert text_beq
history_run = refl

no_log_uncounted_example : accounted (events 1 history (new_writer rows)) ≡ offered false history
no_log_uncounted_example = no_log_uncounted 1 rows history

writer_bounds_example : Bounded 1 (events 1 history (new_writer rows))
writer_bounds_example = writer_bounds 1 rows history

-- Two logs wait when the store is closed.
abbrev ending : List (Event ℕ)
ending = receives true ∷ logs 9 ∷ ticks true ∷ receives true ∷ receives true ∷ []

close-drains_example :
    let t = events 4 ending (events 4 (logs 1 ∷ logs 2 ∷ closes ∷ []) (new_writer rows)) in
    (t.written ≡ 1 ∷ 2 ∷ []) × (t.dropped ≡ 0) × (t.queue ≡ []) × (t.batch ≡ []) × (t.used ≡ [])
unfolding events event new_writer add_log close_writer all_work turns
close-drains_example =
    close-drains 4 ending (events 4 (logs 1 ∷ logs 2 ∷ closes ∷ []) (new_writer rows)) refl refl
      (ground arith)
