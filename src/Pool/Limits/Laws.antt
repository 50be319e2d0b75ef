-- ===== src/Pool/Limits/Laws.antt =====
-- What marking and clearing a limit does to the limits and to the sessions.
use antigravity2api.Base.{
  ℕ, ◌≤◌, ◌<◌, ◌≡◌, ◌≢◌, sym, ◌∙◌, ap, true, false, ◌⊎◌, List, [], ◌∷◌, some, Text, text_eq,
  text_beq_iff, lookup, lookup-insert, Distinct, length, lt→ltb, arith,
}
use antigravity2api.Time.{after}
use antigravity2api.Pool.Bounded.{make_room}
use antigravity2api.Pool.Bounded.Laws.{lookup-make_room, make_room-evicts}
use antigravity2api.Pool.State.{
  Pool, LimitKey, LimitRecord, SessionBinding, limit_key_eq, limit_key_beq, limit_key_beq_iff,
  max_limits,
}
use antigravity2api.Pool.View.{model_name}
use antigravity2api.Pool.Limits.{
  limit_key, key_of, until_of, limited_until, unbind, extended, add_limit, mark_limited,
  clear_limited_before,
}

-- The record of the key after a limit that lies ahead.
add_limit-lookup :
    (now : ℕ) (key : LimitKey) (until : ℕ) (m : List (LimitKey × LimitRecord))
    → lookup key (add_limit now key until m)
      ≡ some (record { until = extended key until m; marked_at = now })
unfolding add_limit
add_limit-lookup now key until m = ground (
  arith,
  lookup-insert key key (record { until = extended key until m; marked_at = now })
      (make_room (λ (r : LimitRecord). r.until) now (limit_key [] []) max_limits m),
  limit_key_beq_iff key key,
)

unbind-lookup :
    (id sid : Text) (b : SessionBinding) (m : List (Text × SessionBinding))
    → Distinct m
    → lookup sid (unbind id m) ≡ some b
    → (lookup sid m ≡ some b) × (b.account_id ≢ id)
unfolding lookup unbind
unbind-lookup id sid b [] d h = absurd (ground arith)
unbind-lookup id sid b ((j, c) ∷ m) d h =
    ground (arith, text_beq_iff j sid, text_beq_iff c.account_id id, unbind-lookup id sid b m d.1)

unbind-others :
    (id sid : Text) (b : SessionBinding) (m : List (Text × SessionBinding))
    → lookup sid m ≡ some b
    → b.account_id ≢ id
    → lookup sid (unbind id m) ≡ some b
unfolding lookup unbind
unbind-others id sid b [] h other = absurd (ground arith)
unbind-others id sid b ((j, c) ∷ m) h other =
    ground (arith, text_beq_iff j sid, text_beq_iff c.account_id id, unbind-others id sid b m)

module _ (now : ℕ) (id model : Text) (until : ℕ) (p : Pool) (ahead : now < until) where
  mark-limits :
      (mark_limited now id model until p).limits ≡ add_limit now (key_of id model) until p.limits
  unfolding mark_limited
  mark-limits = ground arith

  mark-sessions : (mark_limited now id model until p).sessions ≡ unbind id p.sessions
  unfolding mark_limited
  mark-sessions = ground arith

  pub extended_bounds :
      (until ≤ extended (key_of id model) until p.limits)
      × (until_of (key_of id model) p.limits ≤ extended (key_of id model) until p.limits)
  unfolding extended
  extended_bounds = ground arith

  pub mark-until :
      until_of (key_of id model) (mark_limited now id model until p).limits
      ≡ extended (key_of id model) until p.limits
  unfolding until_of
  mark-until =
      rw (mark-limits, until_of)
        (rw (add_limit-lookup now (key_of id model) until p.limits, until_of))

  -- The new limit holds for the account and the model, and is no earlier than an older one.
  pub mark_limited_bounds :
      (until ≤ limited_until (mark_limited now id model until p).limits id (model_name model))
      × (until_of (key_of id model) p.limits
          ≤ until_of (key_of id model) (mark_limited now id model until p).limits)
  unfolding limited_until
  mark_limited_bounds =
      let (u, old) = extended_bounds in
      let at = mark-until in (ground (arith, u, at), omega (arith, old, at))

  -- Where no session is bound twice, the bindings after marking a limit that lies ahead are those
  -- before it that lead to another account: none of the account's is left, none is new or changed,
  -- and none of another account's is lost.
  pub mark_limited_sessions :
      Distinct p.sessions
      → (sid : Text) (b : SessionBinding)
      → (lookup sid (mark_limited now id model until p).sessions ≡ some b
          → (lookup sid p.sessions ≡ some b) × (b.account_id ≢ id))
        × (lookup sid p.sessions ≡ some b
            → b.account_id ≢ id
            → lookup sid (mark_limited now id model until p).sessions ≡ some b)
  mark_limited_sessions d sid b = (
    (λ h. unbind-lookup id sid b p.sessions d (rw mark-sessions at h)),
    (λ h other. rw mark-sessions (unbind-others id sid b p.sessions h other)),
  )

  -- Where no key has two limits and the map keeps to its bound, marking a limit that lies ahead
  -- makes and changes no limit of another key, and loses one only if the map is full, and then one
  -- that is over, or the nearest of limits that all lie ahead.
  pub mark_limited_others :
      Distinct p.limits
      → length p.limits ≤ max_limits
      → (k : LimitKey) (r : LimitRecord) → k ≢ (key_of id model)
      → (lookup k (mark_limited now id model until p).limits ≡ some r → lookup k p.limits ≡ some r)
        × (lookup k p.limits ≡ some r
            → (lookup k (mark_limited now id model until p).limits ≡ some r)
              ⊎ ((max_limits ≤ length p.limits)
                  × ((after r.until now ≡ false)
                      ⊎ ((j : LimitKey) (w : LimitRecord)
                          → lookup j p.limits ≡ some w
                          → (after w.until now ≡ true) × (r.until ≤ w.until)))))
  unfolding add_limit
  mark_limited_others d le k r ne =
      let room =
        make_room (λ (x : LimitRecord). x.until) now (limit_key [] []) max_limits p.limits in
      let new : LimitRecord = record {
        until = extended (key_of id model) until p.limits;
        marked_at = now;
      } in
      let other : limit_key_beq (key_of id model) k ≡ false =
        ground (
          arith,
          limit_key_beq_iff (key_of id model) k,
          λ (q : (key_of id model) ≡ k). ne (sym q),
        ) in
      let at : lookup k (mark_limited now id model until p).limits ≡ lookup k room =
        ap (λ (m : List (LimitKey × LimitRecord)). lookup k m) mark-limits
        ∙ (lookup-insert (key_of id model) k new room ∙ rw other) in
      (
        (λ h.
            lookup-make_room (λ (x : LimitRecord). x.until) now (limit_key [] []) max_limits
              p.limits d k r (sym at ∙ h)),
        (λ h. rw at (
            make_room-evicts (λ (x : LimitRecord). x.until) now (limit_key [] []) max_limits
              p.limits d le k r h)),
      )

  -- A success that began before the mark does not clear it.
  pub clear_limited_before-keeps :
      (attempt_started : ℕ)
      → attempt_started < now
      → clear_limited_before id model attempt_started (mark_limited now id model until p)
        ≡ mark_limited now id model until p
  unfolding clear_limited_before
  clear_limited_before-keeps attempt_started older =
      rw
        (
          ap (λ (m : List (LimitKey × LimitRecord)). lookup (key_of id model) m) mark-limits
              ∙ add_limit-lookup now (key_of id model) until p.limits,
          clear_limited_before,
        )
        (rw (lt→ltb attempt_started now older))
