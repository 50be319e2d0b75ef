-- ===== src/Pool/System/Views.antt =====
-- The cached model views agree with the accounts, in any order of the pool's calls.
use antigravity2api.Base.{
  ℕ, ◌≡◌, Bool, inl, inr, List, [], ◌∷◌, map, Text, text_eq, Bool-cases, nat_beq, arith,
}
use antigravity2api.Accounts.{Account}
use antigravity2api.Pool.State.{Pool}
use antigravity2api.Pool.View.{model_name, candidate_for, model_view}
use antigravity2api.Pool.View.Laws.{
  Coherent, model_view-Coherent, model_view_lem, no_views-Coherent,
}
use antigravity2api.Pool.Limits.{mark_limited, clear_limited, clear_limited_before}
use antigravity2api.Pool.Snapshot.{load_snapshot}
use antigravity2api.Pool.Scan.{Scan, start, scan}
use antigravity2api.Pool.Select.{env_of, drop_stale_binding, conclude, select_round}
use antigravity2api.Pool.System.{
  System, Call, acquires, releases, loads, marks, clears, clears_before, acquire, release,
  give_back, step, run, new_system,
}

abbrev Cached : Pool → Type 0
Cached p = Coherent p.accounts p.model_views

-- Two pools with the same accounts and views.
abbrev SameViews : Pool → Pool → Type 0
SameViews p q = (q.accounts ≡ p.accounts) × (q.model_views ≡ p.model_views)

of_same : (p q : Pool) → SameViews p q → Cached p → Cached q
of_same p q s h = rw (s.0, s.1) h

conclude-same :
    (now later : ℕ) (sid : Text) (st : Scan) (p : Pool)
    → SameViews p (conclude now later sid st p).0
unfolding conclude
conclude-same now later sid st p = ground arith

model_view-accounts : (model : Text) (p : Pool) → (model_view model p).0.accounts ≡ p.accounts
unfolding model_view
model_view-accounts model p = ground arith

model_view-Cached : (model : Text) (p : Pool) → Cached p → Cached (model_view model p).0
model_view-Cached model p h = rw (model_view-accounts model p) (model_view-Coherent model p h)

select_round-Cached :
    (skip_expired : Bool) (now later : ℕ) (model sid : Text) (excluded : List Text) (p : Pool)
    → Cached p
    → Cached (select_round skip_expired now later model sid excluded p).0
unfolding select_round
select_round-Cached skip_expired now later model sid excluded p h =
    let p' = (model_view model p).0 in
    let before = record p' { sessions = drop_stale_binding now sid p'.sessions } in
    let st =
      scan (env_of skip_expired now sid excluded p) p.accounts (model_view model p).1
        (start p.slots) in
    of_same before (conclude now later sid st before).0 (conclude-same now later sid st before)
      (model_view-Cached model p h)

load-Cached :
    (accounts : List Account) (version : ℕ) (p : Pool)
    → Cached p
    → Cached (load_snapshot accounts version p)
unfolding load_snapshot
load-Cached accounts version p h = elim (Bool-cases (nat_beq p.version version)) [
  | inl fresh ↦ rw fresh h
  | inr stale ↦ rw stale (no_views-Coherent accounts)
]

mark-same :
    (now : ℕ) (id model : Text) (until : ℕ) (p : Pool)
    → SameViews p (mark_limited now id model until p)
unfolding mark_limited
mark-same now id model until p = ground arith

clear_before-same :
    (id model : Text) (started : ℕ) (p : Pool)
    → SameViews p (clear_limited_before id model started p)
unfolding clear_limited_before
clear_before-same id model started p = ground arith

release-same : (i : ℕ) (s : System) → SameViews s.pool (release i s).pool
unfolding release give_back
release-same i s = ground arith

step-Cached : (c : Call) (s : System) → Cached s.pool → Cached (step c s).pool
unfolding step acquire clear_limited
step-Cached (acquires skip now later model sid excluded) s h =
    select_round-Cached skip now later model sid excluded s.pool h
step-Cached (releases i) s h = of_same s.pool (release i s).pool (release-same i s) h
step-Cached (loads accounts version) s h = load-Cached accounts version s.pool h
step-Cached (marks now id model until) s h =
    of_same s.pool (mark_limited now id model until s.pool) (mark-same now id model until s.pool) h
step-Cached (clears id model) s h = h
step-Cached (clears_before id model started) s h =
    of_same s.pool (clear_limited_before id model started s.pool)
      (clear_before-same id model started s.pool) h

run-Cached : (cs : List Call) (s : System) → Cached s.pool → Cached (run cs s).pool
unfolding run
run-Cached [] s h = h
run-Cached (c ∷ cs) s h = run-Cached cs (step c s) (step-Cached c s h)

-- From a new pool, after any sequence of its calls, the view for a requested model is the one that
-- the accounts now in memory give, whether it was cached or not.
pub run-model_view :
    (n : ℕ) (cs : List Call) (model : Text)
    → let p = (run cs (new_system n)).pool in
      (model_view model p).1 ≡ map (candidate_for (model_name model)) p.accounts
unfolding new_system
run-model_view n cs model =
    model_view_lem model (run cs (new_system n)).pool
      (run-Cached cs (new_system n) (no_views-Coherent []))
