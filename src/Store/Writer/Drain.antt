-- ===== src/Store/Writer/Drain.antt =====
-- What becomes of the waiting logs once the store is closed.
use antigravity2api.Base.{
  ℕ, zero, suc, ◌≤◌, ◌<◌, ◌≡◌, refl, sym, subst, ◌∙◌, Bool, true, false, ◌&&◌, List, [], ◌∷◌, ◌++◌,
  Text, text_eq, length, append-nil, append_assoc, arith,
}
use antigravity2api.Store.Writer.{
  Writer, mark_used, add_log, flush, receive, close_writer, Event, marks, logs, receives, ticks,
  closes, event, events,
}

module _ {Log : Type 0} where
  -- Every write works.
  unfoldable pub all_work : List (Event Log) → Bool
  all_work [] = true
  all_work (receives works ∷ es) = works && all_work es
  all_work (ticks works ∷ es) = works && all_work es
  all_work (marks now id ∷ es) = all_work es
  all_work (logs l ∷ es) = all_work es
  all_work (closes ∷ es) = all_work es

  unfoldable pub turns : List (Event Log) → ℕ
  turns [] = 0
  turns (receives works ∷ es) = suc (turns es)
  turns (ticks works ∷ es) = turns es
  turns (marks now id ∷ es) = turns es
  turns (logs l ∷ es) = turns es
  turns (closes ∷ es) = turns es

  -- The logs that are written or wait, in order.
  abbrev pub in_order : Writer Log → List Log
  in_order s = s.written ++ (s.batch ++ s.queue)

  -- From a closed store, an event loses nothing.
  record Follows (s t : Writer Log) : Type 0 where
    pub stays_closed : t.closed ≡ true
    pub order : in_order t ≡ in_order s
    pub losses : t.dropped ≡ s.dropped

  record IsDrained (s : Writer Log) : Type 0 where
    pub no_queue : s.queue ≡ []
    pub no_batch : s.batch ≡ []
    pub no_used : s.used ≡ []

  flush-Follows : (s : Writer Log) → s.closed ≡ true → Follows s (flush true s)
  unfolding flush
  flush-Follows s c = record {
    stays_closed = ground (arith, c);
    order = ground (arith, append_assoc s.written s.batch s.queue);
    losses = ground arith;
  }

  flush-queue :
      (s : Writer Log)
      → ((flush true s).queue ≡ s.queue) × ((flush true s).batch ≡ []) × ((flush true s).used ≡ [])
  unfolding flush
  flush-queue s = ground arith

  receive-last : (s : Writer Log) → s.closed ≡ true → s.queue ≡ [] → receive true s ≡ flush true s
  unfolding receive
  receive-last s c e = ground (arith, c, e)

  abbrev taken : Writer Log → Log → List Log → Writer Log
  taken s l queue = record s { queue = queue; batch = s.batch ++ l ∷ [] }

  taken-order :
      (s : Writer Log) (l : Log) (queue : List Log)
      → s.queue ≡ l ∷ queue
      → in_order (taken s l queue) ≡ in_order s
  taken-order s l queue e = ground (arith, e, append_assoc s.batch (l ∷ []) queue)

  receive-Follows : (s : Writer Log) → s.closed ≡ true → Follows s (receive true s)
  unfolding receive
  receive-Follows s c = go s.queue refl
    where
      go : (queue : List Log) → s.queue ≡ queue → Follows s (receive true s)
      go [] e = subst (Follows s) (sym (receive-last s c e)) (flush-Follows s c)
      go (l ∷ queue) e =
          let t = taken s l queue in
          let f = flush-Follows t c in
          record {
            stays_closed = ground (arith, e, c, f.stays_closed);
            order = ground (arith, e, taken-order s l queue e, f.order);
            losses = ground (arith, e, f.losses);
          }

  mark_used-shut :
      (now : ℕ) (id : Text) (s : Writer Log) → s.closed ≡ true → (mark_used now id s).0 ≡ s
  unfolding mark_used
  mark_used-shut now id s c = ground (arith, c)

  add_log-shut :
      (capacity : ℕ) (l : Log) (s : Writer Log) → s.closed ≡ true → (add_log capacity l s).0 ≡ s
  unfolding add_log
  add_log-shut capacity l s c = ground (arith, c)

  -- How long the queue is, and what is left once it is empty.
  abbrev Waits : ℕ → Writer Log → Type 0
  Waits zero s = IsDrained s
  Waits (suc n) s = length s.queue ≤ n

  drained-Waits : (n : ℕ) (s : Writer Log) → IsDrained s → Waits n s
  drained-Waits zero s d = d
  drained-Waits (suc n) s d = ground (arith, d.no_queue)

  flush-Waits : (n : ℕ) (s : Writer Log) → Waits n s → Waits n (flush true s)
  flush-Waits zero s d =
      let q = flush-queue s in
      record {
        no_queue = ground (arith, q, d.no_queue);
        no_batch = ground (arith, q);
        no_used = ground (arith, q);
      }
  flush-Waits (suc n) s h = ground (arith, h, flush-queue s)

  -- The last turn leaves nothing, and one before it takes a log from the queue.
  receive-Waits :
      (n : ℕ) (s : Writer Log) → s.closed ≡ true → Waits (suc n) s → Waits n (receive true s)
  unfolding receive
  receive-Waits n s c h = go n h s.queue refl
    where
      go :
          (n : ℕ)
          → Waits (suc n) s
          → (queue : List Log) → s.queue ≡ queue
          → Waits n (receive true s)
      go n h [] e =
          let q = flush-queue s in
          subst (Waits n) (sym (receive-last s c e)) (
            drained-Waits n (flush true s) (record {
              no_queue = ground (arith, q, e);
              no_batch = ground (arith, q);
              no_used = ground (arith, q);
            }))
      go zero h (l ∷ queue) e = absurd (ground (arith, h, e))
      go (suc n) h (l ∷ queue) e = ground (arith, h, e, flush-queue (taken s l queue))

  receive-IsDrained : (s : Writer Log) → s.closed ≡ true → IsDrained s → IsDrained (receive true s)
  receive-IsDrained s c d = subst IsDrained (sym (receive-last s c d.no_queue)) (flush-Waits 0 s d)

  then_Follows : (s t u : Writer Log) → Follows s t → Follows t u → Follows s u
  then_Follows s t u f g = record {
    stays_closed = g.stays_closed;
    order = g.order ∙ f.order;
    losses = g.losses ∙ f.losses;
  }

  close-Follows : (s : Writer Log) → Follows s (close_writer s)
  unfolding close_writer
  close-Follows s = record { stays_closed = refl; order = refl; losses = refl }

  close-Waits : (n : ℕ) (s : Writer Log) → Waits n s → Waits n (close_writer s)
  unfolding close_writer
  close-Waits zero s d = record {
    no_queue = d.no_queue;
    no_batch = d.no_batch;
    no_used = d.no_used;
  }
  close-Waits (suc n) s h = h

  abbrev Ended : Writer Log → Writer Log → Type 0
  Ended s t = Follows s t × IsDrained t

  -- From a state that the events so far have led to.
  after_Follows : (s t u : Writer Log) → Follows s t → Ended t u → Ended s u
  after_Follows s t u f e = (then_Follows s t u f e.0, e.1)

  drains :
      (capacity n : ℕ) (es : List (Event Log)) (s : Writer Log)
      → s.closed ≡ true
      → all_work es ≡ true
      → n ≤ turns es
      → Waits n s
      → Ended s (events capacity es s)
  unfolding events event all_work turns
  drains capacity zero [] s c w m h = (record { stays_closed = c; order = refl; losses = refl }, h)
  drains capacity (suc n) [] s c w m h = absurd (ground (arith, m))
  drains capacity n (marks now id ∷ es) s c w m h =
      subst (λ t. Ended s (events capacity es t)) (sym (mark_used-shut now id s c))
        (drains capacity n es s c w m h)
  drains capacity n (logs l ∷ es) s c w m h =
      subst (λ t. Ended s (events capacity es t)) (sym (add_log-shut capacity l s c))
        (drains capacity n es s c w m h)
  drains capacity n (closes ∷ es) s c w m h =
      after_Follows s (close_writer s) _ (close-Follows s) (
        drains capacity n es (close_writer s) (close-Follows s).stays_closed w m
          (close-Waits n s h))
  drains capacity n (ticks false ∷ es) s c w m h = absurd (ground (arith, w))
  drains capacity n (ticks true ∷ es) s c w m h =
      let f = flush-Follows s c in
      after_Follows s (flush true s) _ f
        (drains capacity n es (flush true s) f.stays_closed w m (flush-Waits n s h))
  drains capacity n (receives false ∷ es) s c w m h = absurd (ground (arith, w))
  drains capacity zero (receives true ∷ es) s c w m h =
      let f = receive-Follows s c in
      after_Follows s (receive true s) _ f (
        drains capacity 0 es (receive true s) f.stays_closed w (ground arith)
          (receive-IsDrained s c h))
  drains capacity (suc n) (receives true ∷ es) s c w m h =
      let f = receive-Follows s c in
      after_Follows s (receive true s) _ f (
        drains capacity n es (receive true s) f.stays_closed w (ground (arith, m))
          (receive-Waits n s c h))

  -- Once the store is closed, if every write works and the worker takes more turns than logs are in
  -- the queue, then whatever else happens in between, nothing waits at the end, and all that waited
  -- has been written, the batch before the queue and each in its order, with no log dropped.
  pub close-drains :
      (capacity : ℕ) (es : List (Event Log)) (s : Writer Log)
      → s.closed ≡ true
      → all_work es ≡ true
      → length s.queue < turns es
      → let t = events capacity es s in
        (t.written ≡ s.written ++ (s.batch ++ s.queue))
        × (t.dropped ≡ s.dropped)
        × (t.queue ≡ [])
        × (t.batch ≡ [])
        × (t.used ≡ [])
  close-drains capacity es s c w m =
      let (f, d) =
        drains capacity (suc (length s.queue)) es s c w (ground (arith, m)) (ground arith) in
      let t = events capacity es s in
      let all : in_order t ≡ t.written =
        ground (arith, d.no_batch, d.no_queue, append-nil t.written) in
      (sym all ∙ f.order, f.losses, d.no_queue, d.no_batch, d.no_used)
