-- ===== src/Store/Writer/Counts.antt =====
-- Every log is accounted for, and what waits in memory is bounded.
use antigravity2api.Base.{
  ℕ, ◌+◌, ◌≤◌, ◌<◌, ◌≡◌, refl, Bool, true, false, List, [], ◌∷◌, ◌++◌, Text, text_eq, length,
  length-append, lookup, length-insert-le, length-insert_known, Option-cases, inl, inr, arith,
  if◌then◌else◌,
}
use antigravity2api.Store.Writer.{
  Writer, log_batch_size, max_used, new_writer, mark_used, add_log, flush, receive, close_writer,
  Event, marks, logs, receives, ticks, closes, event, events,
}

module _ {Log : Type 0} where
  -- The logs that are written, lost, or still wait.
  abbrev pub accounted : Writer Log → ℕ
  accounted s = length s.written + (length s.batch + (length s.queue + s.dropped))

  flush-accounted : (works : Bool) (s : Writer Log) → accounted (flush works s) ≡ accounted s
  unfolding flush
  flush-accounted works s = ground (arith, length-append s.written s.batch)

  receive-accounted : (works : Bool) (s : Writer Log) → accounted (receive works s) ≡ accounted s
  unfolding receive
  receive-accounted works s = go s.queue refl
    where
      go : (queue : List Log) → s.queue ≡ queue → accounted (receive works s) ≡ accounted s
      go [] e = ground (arith, e, flush-accounted works s)
      go (l ∷ queue) e =
          let taken = record s { queue = queue; batch = s.batch ++ l ∷ [] } in
          ground (arith, e, flush-accounted works taken, length-append s.batch (l ∷ []))

  add_log-accounted :
      (capacity : ℕ) (l : Log) (s : Writer Log)
      → accounted (add_log capacity l s).0 ≡ accounted s + (if s.closed then 0 else 1)
  unfolding add_log
  add_log-accounted capacity l s = ground (arith, length-append s.queue (l ∷ []))

  mark_used-accounted :
      (now : ℕ) (id : Text) (s : Writer Log) → accounted (mark_used now id s).0 ≡ accounted s
  unfolding mark_used
  mark_used-accounted now id s = ground arith

  -- What waits in memory.
  pub record Bounded (capacity : ℕ) (s : Writer Log) : Type 0 where
    pub batch_room : length s.batch < log_batch_size
    pub queue_room : length s.queue ≤ capacity
    pub used_room : length s.used ≤ max_used

  flush-Bounded :
      (capacity : ℕ) (works : Bool) (s : Writer Log)
      → length s.queue ≤ capacity
      → Bounded capacity (flush works s)
  unfolding flush
  flush-Bounded capacity works s q = record {
    batch_room = ground (arith, q);
    queue_room = ground (arith, q);
    used_room = ground (arith, q);
  }

  receive-Bounded :
      (capacity : ℕ) (works : Bool) (s : Writer Log)
      → Bounded capacity s
      → Bounded capacity (receive works s)
  unfolding receive
  receive-Bounded capacity works s b = go s.queue refl
    where
      go : (queue : List Log) → s.queue ≡ queue → Bounded capacity (receive works s)
      go [] e =
          let f = flush-Bounded capacity works s b.queue_room in
          record {
            batch_room = ground (arith, e, f.batch_room, b.batch_room);
            queue_room = ground (arith, e, f.queue_room, b.queue_room);
            used_room = ground (arith, e, f.used_room, b.used_room);
          }
      go (l ∷ queue) e =
          let taken = record s { queue = queue; batch = s.batch ++ l ∷ [] } in
          let shorter : length queue ≤ capacity = ground (arith, e, b.queue_room) in
          let f = flush-Bounded capacity works taken shorter in
          record {
            batch_room = ground (arith, e, f.batch_room);
            queue_room = ground (arith, e, f.queue_room, shorter);
            used_room = ground (arith, e, f.used_room, b.used_room);
          }

  add_log-Bounded :
      (capacity : ℕ) (l : Log) (s : Writer Log)
      → Bounded capacity s
      → Bounded capacity (add_log capacity l s).0
  unfolding add_log
  add_log-Bounded capacity l s b = record {
    batch_room = ground (arith, b.batch_room);
    queue_room = ground (arith, b.queue_room, length-append s.queue (l ∷ []));
    used_room = ground (arith, b.used_room);
  }

  -- How many logs came while the store was open.
  unfoldable pub offered : Bool → List (Event Log) → ℕ
  offered shut [] = 0
  offered shut (logs l ∷ es) = (if shut then 0 else 1) + offered shut es
  offered shut (closes ∷ es) = offered true es
  offered shut (marks now id ∷ es) = offered shut es
  offered shut (receives works ∷ es) = offered shut es
  offered shut (ticks works ∷ es) = offered shut es

  mark_used-room :
      (now : ℕ) (id : Text) (s : Writer Log)
      → length s.used ≤ max_used
      → length (mark_used now id s).0.used ≤ max_used
  unfolding mark_used
  mark_used-room now id s h = elim (Option-cases (lookup id s.used)) [
    | inl e ↦ ground (arith, e, h, length-insert-le id now s.used)
    | inr (t, e) ↦ ground (arith, e, h, length-insert_known id now t s.used e)
  ]

  mark_used-others :
      (now : ℕ) (id : Text) (s : Writer Log)
      → let t = (mark_used now id s).0 in (t.batch ≡ s.batch) × (t.queue ≡ s.queue)
  unfolding mark_used
  mark_used-others now id s = ground arith

  event-Bounded :
      (capacity : ℕ) (e : Event Log) (s : Writer Log)
      → Bounded capacity s
      → Bounded capacity (event capacity e s)
  unfolding event close_writer
  event-Bounded capacity (marks now id) s b =
      let same = mark_used-others now id s in
      record {
        batch_room = ground (arith, same, b.batch_room);
        queue_room = ground (arith, same, b.queue_room);
        used_room = mark_used-room now id s b.used_room;
      }
  event-Bounded capacity (logs l) s b = add_log-Bounded capacity l s b
  event-Bounded capacity (receives works) s b = receive-Bounded capacity works s b
  event-Bounded capacity (ticks works) s b = flush-Bounded capacity works s b.queue_room
  event-Bounded capacity closes s b = record {
    batch_room = b.batch_room;
    queue_room = b.queue_room;
    used_room = b.used_room;
  }

  flush-closed : (works : Bool) (s : Writer Log) → (flush works s).closed ≡ s.closed
  unfolding flush
  flush-closed works s = ground arith

  receive-closed : (works : Bool) (s : Writer Log) → (receive works s).closed ≡ s.closed
  unfolding receive
  receive-closed works s = go s.queue refl
    where
      go : (queue : List Log) → s.queue ≡ queue → (receive works s).closed ≡ s.closed
      go [] e = ground (arith, e, flush-closed works s)
      go (l ∷ queue) e =
          ground
            (arith, e, flush-closed works (record s { queue = queue; batch = s.batch ++ l ∷ [] }))

  add_log-closed :
      (capacity : ℕ) (l : Log) (s : Writer Log) → (add_log capacity l s).0.closed ≡ s.closed
  unfolding add_log
  add_log-closed capacity l s = ground arith

  mark_used-closed :
      (now : ℕ) (id : Text) (s : Writer Log) → (mark_used now id s).0.closed ≡ s.closed
  unfolding mark_used
  mark_used-closed now id s = ground arith

  events-accounted :
      (capacity : ℕ) (es : List (Event Log)) (s : Writer Log)
      → accounted (events capacity es s) ≡ accounted s + offered s.closed es
  unfolding events event offered close_writer
  events-accounted capacity [] s = omega arith
  events-accounted capacity (marks now id ∷ es) s =
      let t = (mark_used now id s).0 in
      ground (
        arith,
        events-accounted capacity es t,
        mark_used-accounted now id s,
        mark_used-closed now id s,
      )
  events-accounted capacity (logs l ∷ es) s =
      let t = (add_log capacity l s).0 in
      ground (
        arith,
        events-accounted capacity es t,
        add_log-accounted capacity l s,
        add_log-closed capacity l s,
      )
  events-accounted capacity (receives works ∷ es) s = ground (
    arith,
    events-accounted capacity es (receive works s),
    receive-accounted works s,
    receive-closed works s,
  )
  events-accounted capacity (ticks works ∷ es) s = ground (
    arith,
    events-accounted capacity es (flush works s),
    flush-accounted works s,
    flush-closed works s,
  )
  events-accounted capacity (closes ∷ es) s = events-accounted capacity es (close_writer s)

  events-Bounded :
      (capacity : ℕ) (es : List (Event Log)) (s : Writer Log)
      → Bounded capacity s
      → Bounded capacity (events capacity es s)
  unfolding events
  events-Bounded capacity [] s b = b
  events-Bounded capacity (e ∷ es) s b =
      events-Bounded capacity es (event capacity e s) (event-Bounded capacity e s b)

-- Whatever happens, and whichever writes fail, every log that came while the store was open is
-- written, waits in the batch or in the channel, or is counted as dropped, exactly once in number.
pub no_log_uncounted :
    {Log : Type 0} (capacity : ℕ) (rows : List (Text × ℕ)) (es : List (Event Log))
    → accounted (events capacity es (new_writer rows)) ≡ offered false es
unfolding new_writer
no_log_uncounted capacity rows es = omega (arith, events-accounted capacity es (new_writer rows))

-- What waits in memory is bounded at all times: fewer than 128 logs in the batch, no more in the
-- channel than it holds, and at most 16384 timestamps of accounts.
pub writer_bounds :
    {Log : Type 0} (capacity : ℕ) (rows : List (Text × ℕ)) (es : List (Event Log))
    → Bounded capacity (events capacity es (new_writer rows))
unfolding new_writer
writer_bounds capacity rows es =
    events-Bounded capacity es (new_writer rows)
      (record { batch_room = omega arith; queue_room = omega arith; used_room = omega arith })
