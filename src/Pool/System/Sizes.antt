-- ===== src/Pool/System/Sizes.antt =====
-- The maps of the pool stay within their limits, in any order of the pool's calls.
use antigravity2api.Base.{
  ℕ, ◌≤◌, Bool, inl, inr, List, [], ◌∷◌, Text, text_eq, lookup, Distinct, length, Option-cases,
  Bool-cases, arith, nat_beq, get_elem?,
}
use antigravity2api.Time.{after}
use antigravity2api.Accounts.{Account}
use antigravity2api.Pool.State.{Pool, limit_key_eq, max_sessions, max_limits, max_views}
use antigravity2api.Pool.View.{model_view, model_name}
use antigravity2api.Pool.Limits.{limit_key, mark_limited, clear_limited, clear_limited_before}
use antigravity2api.Pool.Snapshot.{load_snapshot, live}
use antigravity2api.Pool.Select.{env_of, drop_stale_binding, conclude, select_round}
use antigravity2api.Pool.Scan.{Scan, start, scan}
use antigravity2api.Pool.System.{
  System, Call, acquires, releases, loads, marks, clears, clears_before, acquire, release,
  give_back, step, run, new_system,
}
use antigravity2api.Pool.System.Fit.{
  SessionsFit, LimitsFit, bind_session-fit, drop-fit, add_limit-fit, delete_limit-fit,
  remember_view-size, unbind-fit, sessions-fit, limits-fit,
}

pub record Fits (p : Pool) : Type 0 where
  pub sessions_fit : SessionsFit p.sessions
  pub limits_fit : LimitsFit p.limits
  pub views_fit : length p.model_views ≤ max_views

conclude-Fits :
    (now later : ℕ) (sid : Text) (st : Scan) (p : Pool)
    → Fits p
    → Fits (conclude now later sid st p).0
unfolding conclude
conclude-Fits now later sid st p h = elim (Option-cases st.picked) [
  | inl e ↦
      rw (e, conclude)
        (record {
          sessions_fit = h.sessions_fit;
          limits_fit = h.limits_fit;
          views_fit = h.views_fit;
        })
  | inr ((a, r), e) ↦
      rw (e, conclude)
        (record {
          sessions_fit = bind_session-fit now sid a.id p.sessions h.sessions_fit;
          limits_fit = h.limits_fit;
          views_fit = h.views_fit;
        })
]

model_view-Fits : (model : Text) (p : Pool) → Fits p → Fits (model_view model p).0
unfolding model_view
model_view-Fits model p h = elim (Option-cases (lookup (model_name model) p.model_views)) [
  | inl e ↦
      rw (e, model_view)
        (record {
          sessions_fit = h.sessions_fit;
          limits_fit = h.limits_fit;
          views_fit = remember_view-size (model_name model) _ p.model_views;
        })
  | inr (view, e) ↦ rw (e, model_view) h
]

select_round-Fits :
    (skip_expired : Bool) (now later : ℕ) (model sid : Text) (excluded : List Text) (p : Pool)
    → Fits p
    → Fits (select_round skip_expired now later model sid excluded p).0
unfolding select_round
select_round-Fits skip_expired now later model sid excluded p h =
    let k = model_view-Fits model p h in
    let p' = (model_view model p).0 in
    let st =
      scan (env_of skip_expired now sid excluded p) p.accounts (model_view model p).1
        (start p.slots) in
    conclude-Fits now later sid st (record p' { sessions = drop_stale_binding now sid p'.sessions })
      (record {
        sessions_fit = drop-fit now sid (model_view model p).0.sessions k.sessions_fit;
        limits_fit = k.limits_fit;
        views_fit = k.views_fit;
      })

load-Fits :
    (accounts : List Account) (version : ℕ) (p : Pool)
    → Fits p
    → Fits (load_snapshot accounts version p)
unfolding load_snapshot
load-Fits accounts version p h =
    let (sd, sl) = sessions-fit (live accounts) p.sessions h.sessions_fit.distinct in
    let (ld, ll) = limits-fit (live accounts) p.limits h.limits_fit.distinct in
    elim (Bool-cases (nat_beq p.version version)) [
      | inl fresh ↦ rw fresh h
      | inr stale ↦ rw stale (record {
        sessions_fit = record { distinct = sd; size = omega (arith, h.sessions_fit) };
        limits_fit = record { distinct = ld; size = omega (arith, h.limits_fit) };
        views_fit = omega arith;
      })
    ]

mark-Fits :
    (now : ℕ) (id model : Text) (until : ℕ) (p : Pool)
    → Fits p
    → Fits (mark_limited now id model until p)
unfolding mark_limited
mark-Fits now id model until p h =
    let key = limit_key id (model_name model) in
    elim (Bool-cases (after until now)) [
      | inl later ↦ rw later (record {
        sessions_fit = unbind-fit id p.sessions h.sessions_fit;
        limits_fit = add_limit-fit now key until p.limits h.limits_fit;
        views_fit = h.views_fit;
      })
      | inr over ↦ rw over (record {
        sessions_fit = h.sessions_fit;
        limits_fit = delete_limit-fit key p.limits h.limits_fit;
        views_fit = h.views_fit;
      })
    ]

-- Deleting one limit keeps the sizes.
clear-Fits : (id model : Text) (p : Pool) → Fits p → Fits (clear_limited id model p)
unfolding clear_limited
clear-Fits id model p h = record {
  sessions_fit = h.sessions_fit;
  limits_fit = delete_limit-fit (limit_key id (model_name model)) p.limits h.limits_fit;
  views_fit = h.views_fit;
}

clear_before-Fits :
    (id model : Text) (started : ℕ) (p : Pool)
    → Fits p
    → Fits (clear_limited_before id model started p)
unfolding clear_limited_before clear_limited
clear_before-Fits id model started p h =
    elim (Option-cases (lookup (limit_key id (model_name model)) p.limits)) [
      | inl e ↦ rw (e, clear_limited_before) h
      | inr (limit, e) ↦
          rw (e, clear_limited_before)
            (elim (Bool-cases (after limit.marked_at started)) [
              | inl newer ↦ rw newer h
              | inr older ↦ rw older (clear-Fits id model p h)
            ])
    ]

release-Fits : (i : ℕ) (s : System) → Fits s.pool → Fits (release i s).pool
unfolding release give_back
release-Fits i s h = elim (Option-cases (get_elem? s.leases i)) [
  | inl e ↦ rw (e, release) h
  | inr (l, e) ↦
      rw (e, release)
        (elim (Bool-cases l.held) [
          | inl held ↦ rw held (record {
            sessions_fit = h.sessions_fit;
            limits_fit = h.limits_fit;
            views_fit = h.views_fit;
          })
          | inr spent ↦ rw spent h
        ])
]

step-Fits : (c : Call) (s : System) → Fits s.pool → Fits (step c s).pool
unfolding step acquire
step-Fits (acquires skip now later model sid excluded) s h =
    select_round-Fits skip now later model sid excluded s.pool h
step-Fits (releases i) s h = release-Fits i s h
step-Fits (loads accounts version) s h = load-Fits accounts version s.pool h
step-Fits (marks now id model until) s h = mark-Fits now id model until s.pool h
step-Fits (clears id model) s h = clear-Fits id model s.pool h
step-Fits (clears_before id model started) s h = clear_before-Fits id model started s.pool h

run-Fits : (cs : List Call) (s : System) → Fits s.pool → Fits (run cs s).pool
unfolding run
run-Fits [] s h = h
run-Fits (c ∷ cs) s h = run-Fits cs (step c s) (step-Fits c s h)

-- From a new pool, after any sequence of its calls, there are at most `max_sessions` session
-- bindings, `max_limits` limits and `max_views` cached views, and no session or limit has two
-- entries.
pub run-sizes :
    (n : ℕ) (cs : List Call)
    → let p = (run cs (new_system n)).pool in
      (length p.sessions ≤ max_sessions)
      × (length p.limits ≤ max_limits)
      × (length p.model_views ≤ max_views)
      × Distinct p.sessions
      × Distinct p.limits
unfolding new_system
run-sizes n cs =
    let h = run-Fits cs (new_system n) (record {
      sessions_fit = record { distinct = tt; size = omega arith };
      limits_fit = record { distinct = tt; size = omega arith };
      views_fit = omega arith;
    }) in
    (
      h.sessions_fit.size, h.limits_fit.size, h.views_fit, h.sessions_fit.distinct,
      h.limits_fit.distinct,
    )
