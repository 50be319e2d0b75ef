-- ===== src/Store/Writer.antt =====
-- server/internal/store/writer.go: the queue of request logs, the timestamps of used accounts, and
-- the worker that writes both in batches. A turn of the worker's select is a step; whether the
-- database takes a batch is an argument. A log is a value of any type, and AddLog's default for its
-- time is left to it. `written` is what the database has taken, in order.
pub mod Counts
pub mod Drain
use antigravity2api.Base.{
  ℕ, zero, suc, ◌+◌, ◌-◌, Bool, true, false, ◌&&◌, ◌||◌, not, List, [], ◌∷◌, ◌++◌, Option, none,
  some, Text, text_eq, is_empty, nat_beq, length, lookup, insert, leb, ltb, max, if◌then◌else◌,
}
use antigravity2api.Strings.{or_else}

abbrev pub log_batch_size : ℕ
log_batch_size = 128

abbrev pub max_used : ℕ
max_used = 16384

-- `last_used` is that column of the table of accounts.
pub record Writer (Log : Type 0) : Type 0 where
  pub closed : Bool
  pub queue : List Log
  pub batch : List Log
  pub used : List (Text × ℕ)
  pub dropped : ℕ
  pub write_errors : ℕ
  pub written : List Log
  pub last_used : List (Text × ℕ)

-- ErrClosed, ErrLogQueueFull
pub data WriterError : Type 0 where
  closed_store log_queue_full : WriterError

-- The UPDATE for each account: the later of the two times, where there is a row.
unfoldable pub store_used : List (Text × ℕ) → List (Text × ℕ) → List (Text × ℕ)
unfolding lookup insert
store_used [] rows = rows
store_used ((id, t) ∷ used) rows =
    store_used used (elim (lookup id rows) [ none ↦ rows | some old ↦ insert id (max old t) rows ])

module _ {Log : Type 0} where
  unfoldable pub new_writer : List (Text × ℕ) → Writer Log
  new_writer rows = record {
    closed = false;
    queue = [];
    batch = [];
    used = [];
    dropped = 0;
    write_errors = 0;
    written = [];
    last_used = rows;
  }

  -- MarkUsed, at the Unix time `now`.
  unfoldable pub mark_used : ℕ → Text → Writer Log → Writer Log × Option WriterError
  unfolding lookup insert
  mark_used now id s =
      let known = not (nat_beq (or_else (lookup id s.used) 0) 0) in
      if s.closed
      then (s, some closed_store)
      else (if ltb (length s.used) max_used || known
          then (record s { used = insert id now s.used }, none)
          else (s, none))

  -- AddLog, with the capacity of the channel.
  unfoldable pub add_log : ℕ → Log → Writer Log → Writer Log × Option WriterError
  add_log capacity l s =
      if s.closed
      then (s, some closed_store)
      else (if ltb (length s.queue) capacity
          then (record s { queue = s.queue ++ l ∷ [] }, none)
          else (record s { dropped = s.dropped + 1 }, some log_queue_full))

  -- flush, and writeBatch in a transaction.
  unfoldable pub flush : Bool → Writer Log → Writer Log
  unfolding store_used
  flush works s =
      let kept = record s { batch = []; used = [] } in
      if is_empty s.batch && is_empty s.used
      then kept
      else (if works
          then record kept {
            written = s.written ++ s.batch;
            last_used = store_used s.used s.last_used;
          }
          else record kept {
            dropped = s.dropped + length s.batch;
            write_errors = s.write_errors + 1;
          })

  -- A log from the channel.
  unfoldable pub receive : Bool → Writer Log → Writer Log
  unfolding flush
  receive works s = elim s.queue [
    | [] ↦ if s.closed then flush works s else s
    | l ∷ queue ↦
        (let taken = record s { queue = queue; batch = s.batch ++ l ∷ [] } in
          if leb log_batch_size (length taken.batch) then flush works taken else taken)
  ]

  -- The channel is closed, so that no log follows.
  unfoldable pub close_writer : Writer Log → Writer Log
  close_writer s = record s { closed = true }

-- What happens to the writer, one after another.
pub data Event (Log : Type 0) : Type 0 where
  marks : ℕ → Text → Event Log
  logs : Log → Event Log
  receives : Bool → Event Log
  ticks : Bool → Event Log
  closes : Event Log

module _ {Log : Type 0} where
  unfoldable pub event : ℕ → Event Log → Writer Log → Writer Log
  unfolding mark_used add_log receive flush close_writer
  event capacity (marks now id) s = (mark_used now id s).0
  event capacity (logs l) s = (add_log capacity l s).0
  event capacity (receives works) s = receive works s
  event capacity (ticks works) s = flush works s
  event capacity closes s = close_writer s

  unfoldable pub events : ℕ → List (Event Log) → Writer Log → Writer Log
  events capacity [] s = s
  events capacity (e ∷ es) s = events capacity es (event capacity e s)
