-- ===== src/Pool/Select.antt =====
-- One round of selectAccount in server/internal/pool/scheduler.go, from the lock to the unlock.
pub mod Outcome
pub mod Cooling
use antigravity2api.Base.{
  ℕ, ◌+◌, ◌*◌, ◌%◌, ◌^◌, Bool, true, false, ◌&&◌, ◌||◌, not, List, [], ◌∷◌, Option, none, some,
  Text, text_eq, text_beq, lookup, insert, delete, leb, nat_beq, ℤ, pos, sub_ℕ, if◌then◌else◌,
}
use antigravity2api.Time.{after, is_zero, minute}
use antigravity2api.Accounts.{Account}
use antigravity2api.Pool.Slots.{Slots, occupy}
use antigravity2api.Pool.Bounded.{make_room}
use antigravity2api.Pool.State.{Pool, SessionBinding, ModelCandidate, max_sessions}
use antigravity2api.Pool.View.{model_view}
use antigravity2api.Pool.Scan.{Env, Scan, start, scan}

abbrev pub session_ttl : ℕ
session_ttl = 30 * minute

-- The cap on one account's requests.
abbrev pub capacity : Pool → ℕ
capacity p = if leb p.max_per_account 0 then 4 else p.max_per_account

-- bound, hasBinding := p.sessions[sid], and the deletion of a binding that is over.
unfoldable pub live_binding : ℕ → Text → List (Text × SessionBinding) → Option Text
unfolding lookup text_beq
live_binding now sid sessions = elim (lookup sid sessions) [
  | none ↦ none
  | some b ↦ if after b.expires now then some b.account_id else none
]

unfoldable pub drop_stale_binding :
    ℕ → Text → List (Text × SessionBinding) → List (Text × SessionBinding)
unfolding lookup delete text_beq
drop_stale_binding now sid sessions = elim (lookup sid sessions) [
  | none ↦ sessions
  | some b ↦ if after b.expires now then sessions else delete sid sessions
]

-- p.sessions with the session bound to the account; a request without session binds nothing.
unfoldable pub bind_session :
    ℕ → Text → Text → List (Text × SessionBinding) → List (Text × SessionBinding)
unfolding make_room insert text_beq
bind_session now sid account_id sessions =
    if text_beq sid []
    then sessions
    else insert sid (record { account_id = account_id; expires = now + session_ttl })
        (make_room (λ b. b.expires) now [] max_sessions sessions)

-- How a round ends. A granted account comes with its reservation.
pub data Selected : Type 0 where
  granted : Account → ℕ → Selected
  all_busy : Selected
  unavailable : ℤ → Selected

-- What the round decides when the scan is over; `later` is the reading of time.Until.
unfoldable pub conclude : ℕ → ℕ → Text → Scan → Pool → Pool × Selected
unfolding occupy bind_session
conclude now later sid st p = elim st.picked [
  | none ↦ (
    record p { slots = st.slots },
    if st.busy
        then all_busy
        else unavailable (if is_zero st.earliest then pos 0 else sub_ℕ st.earliest later),
  )
  | some (a, r) ↦
      let sequence = (p.sequence + 1) % 2 ^ 64 in
      (
        record p {
          sequence = sequence;
          slots = occupy r sequence st.slots;
          sessions = bind_session now sid a.id p.sessions;
        },
        granted a r,
      )
]

-- What the scan reads. `skip_expired` is the setting of that name.
abbrev pub env_of : Bool → ℕ → Text → List Text → Pool → Env
env_of skip_expired now sid excluded p = record {
  limits = p.limits;
  skip_expired = skip_expired;
  now = now;
  excluded = excluded;
  cap = capacity p;
  bound = live_binding now sid p.sessions;
}

-- The round.
unfoldable pub select_round : Bool → ℕ → ℕ → Text → Text → List Text → Pool → Pool × Selected
unfolding model_view live_binding drop_stale_binding conclude scan
select_round skip_expired now later model sid excluded p =
    let (p', view) = model_view model p in
    conclude now later sid
      (scan (env_of skip_expired now sid excluded p) p.accounts view (start p.slots))
      (record p' { sessions = drop_stale_binding now sid p'.sessions })
