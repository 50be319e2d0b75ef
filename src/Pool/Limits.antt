-- ===== src/Pool/Limits.antt =====
-- Rate limits: limitedUntilLocked, MarkLimited, ClearLimited and ClearLimitedBefore of
-- server/internal/pool/scheduler.go. `now` is the reading of the clock under the lock.
pub mod Laws
use antigravity2api.Base.{
  ℕ, Bool, true, false, not, List, [], ◌∷◌, Option, none, some, Text, text_beq, lookup, insert,
  delete, if◌then◌else◌,
}
use antigravity2api.Time.{after}
use antigravity2api.Pool.Bounded.{make_room}
use antigravity2api.Pool.State.{
  Pool, LimitKey, LimitRecord, SessionBinding, limit_key_eq, limit_key_beq, max_limits, notify,
}
use antigravity2api.Pool.View.{model_name}

abbrev pub limit_key : Text → Text → LimitKey
limit_key account_id model = record { account_id = account_id; model = model }

-- The key of a model as it is asked for.
abbrev pub key_of : Text → Text → LimitKey
key_of account_id model = limit_key account_id (model_name model)

-- p.limits[key].until; a key that is missing reads as the zero time.
unfoldable pub until_of : LimitKey → List (LimitKey × LimitRecord) → ℕ
unfolding lookup limit_key_beq
until_of key limits = elim (lookup key limits) [ none ↦ 0 | some record_of ↦ record_of.until ]

-- limitedUntilLocked
unfoldable pub limited_until : List (LimitKey × LimitRecord) → Text → Text → ℕ
unfolding until_of
limited_until limits id model =
    let until = until_of (limit_key id []) limits in
    let t = until_of (limit_key id model) limits in if after t until then t else until

-- for sid, b := range p.sessions { if b.accountID == accountID { delete(p.sessions, sid) } }
unfoldable pub unbind : Text → List (Text × SessionBinding) → List (Text × SessionBinding)
unfolding text_beq
unbind account_id [] = []
unbind account_id ((sid, b) ∷ m) =
    let rest = unbind account_id m in
    if text_beq b.account_id account_id then rest else (sid, b) ∷ rest

-- What `until` becomes: a limit is never shortened.
unfoldable pub extended : LimitKey → ℕ → List (LimitKey × LimitRecord) → ℕ
unfolding until_of
extended key until limits = if after (until_of key limits) until then until_of key limits else until

-- p.limits with the new record.
unfoldable pub add_limit :
    ℕ → LimitKey → ℕ → List (LimitKey × LimitRecord) → List (LimitKey × LimitRecord)
unfolding extended make_room insert limit_key_beq
add_limit now key until limits =
    insert key (record { until = extended key until limits; marked_at = now })
      (make_room (λ r. r.until) now (limit_key [] []) max_limits limits)

-- MarkLimited
unfoldable pub mark_limited : ℕ → Text → Text → ℕ → Pool → Pool
unfolding add_limit unbind notify delete model_name limit_key_beq
mark_limited now account_id model until p =
    let key = key_of account_id model in
    if not (after until now)
    then notify (record p { limits = delete key p.limits })
    else notify (record p {
      limits = add_limit now key until p.limits;
      sessions = unbind account_id p.sessions;
    })

-- ClearLimited
unfoldable pub clear_limited : Text → Text → Pool → Pool
unfolding notify delete model_name limit_key_beq
clear_limited account_id model p =
    notify (record p { limits = delete (key_of account_id model) p.limits })

-- ClearLimitedBefore
unfoldable pub clear_limited_before : Text → Text → ℕ → Pool → Pool
unfolding notify delete lookup model_name limit_key_beq
clear_limited_before account_id model attempt_started p =
    let key = key_of account_id model in
    elim (lookup key p.limits) [
      | none ↦ p
      | some limit ↦
          if after limit.marked_at attempt_started
          then p
          else notify (record p { limits = delete key p.limits })
    ]
