-- ===== src/Pool/System/Fit.antt =====
-- Each change of a bounded map of the pool keeps it within its limit.
use antigravity2api.Base.{
  ℕ, ◌+◌, ◌≤◌, ◌≡◌, refl, Bool, inl, inr, List, [], ◌∷◌, none, Text, text_eq, text_beq, lookup,
  delete, Distinct, insert-Distinct, delete-Distinct, length, length-insert-le, length-delete-le,
  leb, Option-cases, Bool-cases, arith,
}
use antigravity2api.Time.{after}
use antigravity2api.Pool.Bounded.{make_room}
use antigravity2api.Pool.Bounded.Laws.{make_room-Distinct, length-make_room}
use antigravity2api.Pool.State.{
  SessionBinding, LimitKey, LimitRecord, ModelCandidate, limit_key_eq, max_sessions, max_limits,
  max_views,
}
use antigravity2api.Pool.View.{remember_view}
use antigravity2api.Pool.Limits.{unbind, add_limit, extended, limit_key}
use antigravity2api.Pool.Snapshot.{live_limits, live_sessions}
use antigravity2api.Pool.Select.{bind_session, drop_stale_binding, session_ttl}

pub record SessionsFit (m : List (Text × SessionBinding)) : Type 0 where
  pub distinct : Distinct m
  pub size : length m ≤ max_sessions

pub record LimitsFit (m : List (LimitKey × LimitRecord)) : Type 0 where
  pub distinct : Distinct m
  pub size : length m ≤ max_limits

pub bind_session-fit :
    (now : ℕ) (sid id : Text) (m : List (Text × SessionBinding))
    → SessionsFit m
    → SessionsFit (bind_session now sid id m)
unfolding bind_session
bind_session-fit now sid id m h =
    let room = make_room (λ (b : SessionBinding). b.expires) now [] max_sessions m in
    let b : SessionBinding = record { account_id = id; expires = now + session_ttl } in
    elim (Bool-cases (text_beq sid [])) [
      | inl blank ↦ rw blank h
      | inr session ↦
          let d =
            make_room-Distinct (λ (x : SessionBinding). x.expires) now [] max_sessions m
              h.distinct in
          let l =
            length-make_room (λ (x : SessionBinding). x.expires) now [] max_sessions m h.distinct
              (omega arith) h.size in
          rw session (record {
            distinct = insert-Distinct sid b room d;
            size = omega (arith, length-insert-le sid b room);
          })
    ]

pub drop-fit :
    (now : ℕ) (sid : Text) (m : List (Text × SessionBinding))
    → SessionsFit m
    → SessionsFit (drop_stale_binding now sid m)
unfolding drop_stale_binding
drop-fit now sid m h =
    let gone : SessionsFit (delete sid m) = record {
      distinct = delete-Distinct sid m h.distinct;
      size = omega (arith, length-delete-le sid m, h.size);
    } in
    elim (Option-cases (lookup sid m)) [
      | inl e ↦ rw (e, drop_stale_binding) h
      | inr (b, e) ↦
          rw (e, drop_stale_binding)
            (elim (Bool-cases (after b.expires now)) [ inl t ↦ rw t h | inr f ↦ rw f gone ])
    ]

module _ (id : Text) where
  unbind-none :
      (k : Text) (m : List (Text × SessionBinding))
      → lookup k m ≡ none
      → lookup k (unbind id m) ≡ none
  unfolding lookup unbind
  unbind-none k [] h = refl
  unbind-none k ((j, b) ∷ m) h = ground (arith, unbind-none k m)

  unbind-Distinct : (m : List (Text × SessionBinding)) → Distinct m → Distinct (unbind id m)
  unfolding unbind
  unbind-Distinct [] d = tt
  unbind-Distinct ((j, b) ∷ m) d = ground (arith, unbind-none j m, unbind-Distinct m)

  unbind-size : (m : List (Text × SessionBinding)) → length (unbind id m) ≤ length m
  unfolding unbind
  unbind-size [] = omega arith
  unbind-size ((j, b) ∷ m) = ground (arith, unbind-size m)

  pub unbind-fit : (m : List (Text × SessionBinding)) → SessionsFit m → SessionsFit (unbind id m)
  unbind-fit m h = record {
    distinct = unbind-Distinct m h.distinct;
    size = omega (arith, unbind-size m, h.size);
  }

module _ (lives : Text → Bool) where
  sessions-none :
      (k : Text) (m : List (Text × SessionBinding))
      → lookup k m ≡ none
      → lookup k (live_sessions lives m) ≡ none
  unfolding lookup live_sessions
  sessions-none k [] h = refl
  sessions-none k ((j, b) ∷ m) h = ground (arith, sessions-none k m)

  pub sessions-fit :
      (m : List (Text × SessionBinding))
      → Distinct m
      → Distinct (live_sessions lives m) × (length (live_sessions lives m) ≤ length m)
  unfolding live_sessions
  sessions-fit [] d = (tt, omega arith)
  sessions-fit ((j, b) ∷ m) d = ground (arith, sessions-none j m, sessions-fit m)

  limits-none :
      (k : LimitKey) (m : List (LimitKey × LimitRecord))
      → lookup k m ≡ none
      → lookup k (live_limits lives m) ≡ none
  unfolding lookup live_limits
  limits-none k [] h = refl
  limits-none k ((j, b) ∷ m) h = ground (arith, limits-none k m)

  pub limits-fit :
      (m : List (LimitKey × LimitRecord))
      → Distinct m
      → Distinct (live_limits lives m) × (length (live_limits lives m) ≤ length m)
  unfolding live_limits
  limits-fit [] d = (tt, omega arith)
  limits-fit ((j, b) ∷ m) d = ground (arith, limits-none j m, limits-fit m)

pub add_limit-fit :
    (now : ℕ) (key : LimitKey) (until : ℕ) (m : List (LimitKey × LimitRecord))
    → LimitsFit m
    → LimitsFit (add_limit now key until m)
unfolding add_limit
add_limit-fit now key until m h =
    let r : LimitRecord = record { until = extended key until m; marked_at = now } in
    let room = make_room (λ (x : LimitRecord). x.until) now (limit_key [] []) max_limits m in
    let l =
      length-make_room (λ (x : LimitRecord). x.until) now (limit_key [] []) max_limits m h.distinct
        (omega arith) h.size in
    record {
      distinct = insert-Distinct key r room (
          make_room-Distinct (λ (x : LimitRecord). x.until) now (limit_key [] []) max_limits m
            h.distinct);
      size = omega (arith, length-insert-le key r room);
    }

pub delete_limit-fit :
    (key : LimitKey) (m : List (LimitKey × LimitRecord)) → LimitsFit m → LimitsFit (delete key m)
delete_limit-fit key m h = record {
  distinct = delete-Distinct key m h.distinct;
  size = omega (arith, length-delete-le key m, h.size);
}

pub remember_view-size :
    (name : Text) (view : List ModelCandidate) (views : List (Text × List ModelCandidate))
    → length (remember_view name view views) ≤ max_views
unfolding remember_view
remember_view-size name view views = elim (Bool-cases (leb max_views (length views))) [
  | inl full ↦ rw full (omega (arith, length-insert-le name view []))
  | inr room ↦ rw room (ground (arith, length-insert-le name view views))
]
