-- ===== src/Examples/Pools.antt =====
-- A pool of two accounts, one slot each, and what happens to it.
use antigravity2api.Base.{
  ℕ, ◌+◌, ◌-◌, ◌*◌, ◌≤◌, ◌≡◌, ◌≢◌, refl, true, false, List, [], ◌∷◌, map, none, some, Text, text_eq,
  pos, length, lookup, ne_of_beq, text_beq, ◌⊎◌, arith,
}
use antigravity2api.Strings.{codes}
use antigravity2api.Time.{second, minute, from_unix, after}
use antigravity2api.Accounts.{Account}
use antigravity2api.Pool.Slots.Laws.{IsWf}
use antigravity2api.Pool.State.{
  Pool, SessionBinding, LimitKey, LimitRecord, limit_key_eq, limit_key_beq, max_sessions, new_pool,
  max_limits,
}
use antigravity2api.Pool.View.{model_view, model_name, candidate_for}
use antigravity2api.Pool.Limits.{
  limit_key, key_of, until_of, limited_until, mark_limited, clear_limited_before,
}
use antigravity2api.Pool.Limits.Laws.{
  mark_limited_bounds, mark_limited_sessions, mark_limited_others, clear_limited_before-keeps,
}
use antigravity2api.Pool.Scan.Turn.{Somewhere}
use antigravity2api.Pool.Select.{all_busy, unavailable, env_of, select_round}
use antigravity2api.Pool.Select.Outcome.{Outcome, select_round-Outcome}
use antigravity2api.Pool.Select.Cooling.{granted_not_limited}
use antigravity2api.Pool.System.{
  System, Call, acquires, releases, loads, marks, clears, clears_before, acquire, run, new_system,
}
use antigravity2api.Pool.System.Ledger.{held_by, holders}
use antigravity2api.Pool.System.Capacity.{
  run-held_by-le, run-active, run-Invariant, new_system-Invariant,
}
use antigravity2api.Pool.System.Sizes.{run-sizes}
use antigravity2api.Pool.System.Views.{run-model_view}

abbrev plain : Text → Account
plain id = record {
  id = id;
  email = codes "someone@example.com";
  refresh_token = codes "1//token";
  access_token = codes "access";
  expiry_timestamp = 2_000_000_000;
  project_id = codes "project";
  quota = none;
  disabled = false;
  last_used = 0;
  rate_limited_until = 0;
  expires_at = 2_000_000_000;
}

abbrev first_id : Text
first_id = codes "a"

abbrev second_id : Text
second_id = codes "b"

-- A reading of the clock in 2026.
abbrev today : ℕ
today = from_unix 1_780_000_000

abbrev ask : Text → Call
ask sid = acquires true today today (codes "gemini-3-flash") sid []

abbrev opening : List Call
opening = loads (plain first_id ∷ plain second_id ∷ []) 1 ∷ ask (codes "s") ∷ ask [] ∷ []

opened : System
unfolding run new_system
opened = run opening (new_system 1)

-- Both accounts are taken, one after the other.
opened_leases :
    opened.leases
    ≡ record { account_id = first_id; slot = 0; held = true }
      ∷ record { account_id = second_id; slot = 1; held = true }
      ∷ []
unfolding opened
opened_leases = refl

third_waits : (acquire true today today (codes "gemini-3-flash") [] [] opened).1 ≡ all_busy
unfolding opened acquire
third_waits = refl

-- A limit on one account leaves the other, and a limit on both is reported with its delay.
limited_delay :
    (acquire true today today (codes "gemini-3-flash") [] [] (
      run
        (releases 0
          ∷ releases 1
          ∷ marks today first_id [] (today + 30 * second)
          ∷ marks today second_id (codes "gemini-3-flash") (today + minute)
          ∷ [])
        opened)).1
    ≡ unavailable (pos (30 * second))
unfolding opened acquire run
limited_delay = refl

run-held_by-le_example :
    held_by first_id
      (run
        (loads (plain first_id ∷ []) 1
          ∷ ask []
          ∷ ask []
          ∷ ask []
          ∷ releases 0
          ∷ releases 0
          ∷ ask []
          ∷ [])
        (new_system 2)).leases
    ≤ 2
run-held_by-le_example =
    run-held_by-le 2
      (loads (plain first_id ∷ []) 1
        ∷ ask []
        ∷ ask []
        ∷ ask []
        ∷ releases 0
        ∷ releases 0
        ∷ ask []
        ∷ [])
      first_id

select_round-Outcome_example :
    Outcome
      (env_of true today [] [] opened.pool)
      opened.pool.slots
      today
      opened.pool.accounts
      (model_view (codes "gemini-3-flash") opened.pool).1
      all_busy
unfolding opened select_round
select_round-Outcome_example =
    select_round-Outcome true today today (codes "gemini-3-flash") [] [] opened.pool
      (run-Invariant opening (new_system 1) (new_system-Invariant 1)).wf

abbrev busy_history : List Call
busy_history =
    loads (plain first_id ∷ plain second_id ∷ []) 1
    ∷ ask (codes "s")
    ∷ releases 0
    ∷ releases 0
    ∷ marks today first_id [] (today + minute)
    ∷ ask (codes "s")
    ∷ clears_before first_id [] today
    ∷ clears second_id []
    ∷ []

run-active_example :
    ((run busy_history (new_system 2)).pool.slots.cell 0).active
    ≡ holders 0 (run busy_history (new_system 2)).leases
run-active_example = (run-active 2 busy_history).1 0

run-sizes_example : length (run busy_history (new_system 2)).pool.sessions ≤ max_sessions
run-sizes_example = (run-sizes 2 busy_history).0

run-model_view_example :
    (model_view (codes "gemini-3-flash") (run busy_history (new_system 2)).pool).1
    ≡ map
        (candidate_for (model_name (codes "gemini-3-flash")))
        (run busy_history (new_system 2)).pool.accounts
run-model_view_example = run-model_view 2 busy_history (codes "gemini-3-flash")

-- The accounts as they stand in memory, none of them in use.
idle : System
unfolding run new_system
idle = run (loads (plain first_id ∷ plain second_id ∷ []) 1 ∷ []) (new_system 1)

idle-IsWf : IsWf idle.pool.slots
unfolding idle
idle-IsWf =
    (run-Invariant (loads (plain first_id ∷ plain second_id ∷ []) 1 ∷ []) (new_system 1)
      (new_system-Invariant 1)).wf

granted_not_limited_example :
    Somewhere
      (λ b c.
        (b ≡ plain second_id)
        × (b.id ≡ first_id → (model_name [] ≢ []) × (c.mapped ≢ model_name [])))
      (mark_limited today first_id [] (today + minute) idle.pool).accounts
      (model_view
        (codes "gemini-3-flash")
        (mark_limited today first_id [] (today + minute) idle.pool)).1
unfolding idle select_round mark_limited
granted_not_limited_example =
    granted_not_limited today first_id [] (today + minute) idle.pool (omega arith) idle-IsWf true
      (today + second) (today + second) (codes "gemini-3-flash") [] [] (omega arith)
      (plain second_id) 0 refl

mark_limited_bounds_example :
    (today + minute
      ≤ limited_until
          (mark_limited today first_id (codes "models/x") (today + minute) idle.pool).limits
          first_id
          (model_name (codes "models/x")))
    × (until_of (key_of first_id (codes "models/x")) idle.pool.limits
        ≤ until_of
            (key_of first_id (codes "models/x"))
            (mark_limited today first_id (codes "models/x") (today + minute) idle.pool).limits)
mark_limited_bounds_example =
    mark_limited_bounds today first_id (codes "models/x") (today + minute) idle.pool (omega arith)

-- One session is bound to each account.
abbrev bound_to : Text → SessionBinding
bound_to id = record { account_id = id; expires = today + minute }

abbrev two_sessions : Pool
two_sessions = record (new_pool 1) {
  sessions = (codes "s", bound_to first_id) ∷ (codes "t", bound_to second_id) ∷ [];
  limits = (limit_key second_id [], record { until = today + second; marked_at = today }) ∷ [];
}

mark_limited_sessions_example :
    (lookup (codes "t") (mark_limited today first_id [] (today + minute) two_sessions).sessions
        ≡ some (bound_to second_id)
      → (lookup (codes "t") two_sessions.sessions ≡ some (bound_to second_id))
        × (second_id ≢ first_id))
    × (lookup (codes "t") two_sessions.sessions ≡ some (bound_to second_id)
        → second_id ≢ first_id
        → lookup (codes "t") (mark_limited today first_id [] (today + minute) two_sessions).sessions
          ≡ some (bound_to second_id))
unfolding lookup text_beq
mark_limited_sessions_example =
    mark_limited_sessions today first_id [] (today + minute) two_sessions (omega arith)
      (refl, (refl, tt)) (codes "t") (bound_to second_id)

mark_limited_others_example :
    (lookup
          (limit_key second_id [])
          (mark_limited today first_id [] (today + minute) two_sessions).limits
        ≡ some (record { until = today + second; marked_at = today })
      → lookup (limit_key second_id []) two_sessions.limits
        ≡ some (record { until = today + second; marked_at = today }))
    × (lookup (limit_key second_id []) two_sessions.limits
          ≡ some (record { until = today + second; marked_at = today })
        → (lookup
              (limit_key second_id [])
              (mark_limited today first_id [] (today + minute) two_sessions).limits
            ≡ some (record { until = today + second; marked_at = today }))
          ⊎ ((max_limits ≤ length two_sessions.limits)
              × ((after (today + second) today ≡ false)
                  ⊎ ((j : LimitKey) (w : LimitRecord)
                      → lookup j two_sessions.limits ≡ some w
                      → (after w.until today ≡ true) × (today + second ≤ w.until)))))
unfolding lookup limit_key_beq text_beq
mark_limited_others_example =
    mark_limited_others today first_id [] (today + minute) two_sessions (omega arith) (refl, tt)
      (omega arith) (limit_key second_id []) (record { until = today + second; marked_at = today })
      (ne_of_beq (limit_key second_id []) (key_of first_id []) refl)

clear_limited_before-keeps_example :
    clear_limited_before first_id []
      (today - second)
      (mark_limited today first_id [] (today + minute) two_sessions)
    ≡ mark_limited today first_id [] (today + minute) two_sessions
clear_limited_before-keeps_example =
    clear_limited_before-keeps today first_id [] (today + minute) two_sessions (omega arith)
      (today - second) (omega arith)
