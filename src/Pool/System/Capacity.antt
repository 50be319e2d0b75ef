-- ===== src/Pool/System/Capacity.antt =====
-- No account serves more requests at once than its cap, in any order of the pool's calls.
use antigravity2api.Base.{
  ℕ, ◌≤◌, ◌≡◌, refl, ◌∙◌, Bool, true, inl, inr, List, [], ◌∷◌, none, some, Text, text_eq,
  text_beq_iff, nat_beq, lookup, get_elem?, All, Option-cases, Bool-cases, if◌then◌else◌, arith,
  leb,
}
use antigravity2api.Accounts.{Account}
use antigravity2api.Pool.Slots.{Slots}
use antigravity2api.Pool.State.{Pool, notify}
use antigravity2api.Pool.View.{model_view}
use antigravity2api.Pool.Limits.{mark_limited, clear_limited, clear_limited_before}
use antigravity2api.Pool.Snapshot.{load_snapshot, live}
use antigravity2api.Pool.Scan.{Env, Scan, start, scan}
use antigravity2api.Pool.Scan.Laws.{PickFits, scan-Sound, start-Sound}
use antigravity2api.Pool.Select.{capacity, env_of, drop_stale_binding, conclude, select_round}
use antigravity2api.Pool.System.{
  Lease, System, Call, acquires, releases, loads, marks, clears, clears_before, give_back, release,
  lend, acquire, step, run, new_system,
}
use antigravity2api.Pool.System.Ledger.{
  Inv, Invariant, Owns, holders, held_by, new-Inv, Inv-Extends, occupy-Inv, vacate-Inv, prune-Inv,
}

release-Inv : (i : ℕ) (s : System) → Invariant s → Invariant (release i s)
unfolding release give_back notify
release-Inv i s h = elim (Option-cases (get_elem? s.leases i)) [
  | inl e ↦ rw (e, release) h
  | inr (l, e) ↦
      rw (e, release)
        (elim (Bool-cases l.held) [
          | inl held ↦ rw held (vacate-Inv (capacity s.pool) s.pool.slots s.leases h i l e held)
          | inr spent ↦ rw spent h
        ])
]

conclude-Inv :
    (cap now later : ℕ) (sid : Text) (st : Scan) (p : Pool) (leases : List Lease) (e : Env)
    → PickFits e st.slots st.picked
    → e.cap ≡ cap
    → Inv cap st.slots leases
    → let (q, r) = conclude now later sid st p in
      Inv cap q.slots (lend leases r) × (q.max_per_account ≡ p.max_per_account)
unfolding conclude
conclude-Inv cap now later sid st p leases e f c h = elim (Option-cases st.picked) [
  | inl none_picked ↦ elim (Bool-cases st.busy) [
    | inl b ↦ rw (none_picked, conclude) (rw b (h, refl))
    | inr b ↦ rw (none_picked, conclude) (rw b (h, refl))
  ]
  | inr ((a, r), picked) ↦
      rw (picked, conclude)
        (let fits : PickFits e st.slots (some (a, r)) = rw picked at f in
          (occupy-Inv cap st.slots leases h a.id r _ fits.0 (rw (← c) fits.1), refl))
]

model_view-keeps :
    (name : Text) (p : Pool)
    → ((model_view name p).0.slots ≡ p.slots)
      × ((model_view name p).0.max_per_account ≡ p.max_per_account)
unfolding model_view
model_view-keeps name p = ground arith

-- The cap is a constant of the pool.
capacity-const : (p q : Pool) → q.max_per_account ≡ p.max_per_account → capacity q ≡ capacity p
capacity-const p q e = rw e

at_capacity :
    (p q : Pool) (leases : List Lease)
    → q.max_per_account ≡ p.max_per_account
    → Inv (capacity p) q.slots leases
    → Inv (capacity q) q.slots leases
at_capacity p q leases e h = rw (capacity-const p q e) h

module _ (skip_expired : Bool) (now later : ℕ) (model sid : Text) (excluded : List Text) where
  acquire-Inv :
      (s : System) → Invariant s → Invariant (acquire skip_expired now later model sid excluded s).0
  unfolding acquire select_round
  acquire-Inv s h =
      let (p', view) = model_view model s.pool in
      let env = env_of skip_expired now sid excluded s.pool in
      let st = scan env s.pool.accounts view (start s.pool.slots) in
      let sound =
        scan-Sound env s.pool.slots s.pool.accounts view (start s.pool.slots)
          (start-Sound env s.pool.slots h.wf) in
      let before = record p' { sessions = drop_stale_binding now sid p'.sessions } in
      let (ok, same) =
        conclude-Inv (capacity s.pool) now later sid st before s.leases env sound.fits refl
          (Inv-Extends (capacity s.pool) s.pool.slots st.slots s.leases sound.extends sound.wf h) in
      at_capacity s.pool (conclude now later sid st before).0
        (lend s.leases (conclude now later sid st before).1)
        (same ∙ (model_view-keeps model s.pool).1) ok

load-Inv :
    (accounts : List Account) (version : ℕ) (s : System)
    → Invariant s
    → Inv (capacity s.pool) (load_snapshot accounts version s.pool).slots s.leases
unfolding load_snapshot
load-Inv accounts version s h = elim (Bool-cases (nat_beq s.pool.version version)) [
  | inl fresh ↦ rw fresh h
  | inr stale ↦ rw stale (prune-Inv (capacity s.pool) s.pool.slots s.leases h (live accounts))
]

-- The calls about limits leave the reservations alone.
abbrev KeepsSlots : Pool → Pool → Type 0
KeepsSlots p q = (q.slots ≡ p.slots) × (q.max_per_account ≡ p.max_per_account)

load-cap :
    (accounts : List Account) (version : ℕ) (p : Pool)
    → (load_snapshot accounts version p).max_per_account ≡ p.max_per_account
unfolding load_snapshot
load-cap accounts version p = ground arith

mark-keeps :
    (now : ℕ) (id model : Text) (until : ℕ) (p : Pool)
    → KeepsSlots p (mark_limited now id model until p)
unfolding mark_limited
mark-keeps now id model until p = ground arith

clear-keeps : (id model : Text) (p : Pool) → KeepsSlots p (clear_limited id model p)
unfolding clear_limited
clear-keeps id model p = (refl, refl)

clear_before-keeps :
    (id model : Text) (started : ℕ) (p : Pool)
    → KeepsSlots p (clear_limited_before id model started p)
unfolding clear_limited_before
clear_before-keeps id model started p = ground arith

of_kept :
    (s : System) (q : Pool) → KeepsSlots s.pool q → Invariant s → Invariant (record s { pool = q })
of_kept s q k h = rw (k.0, capacity-const s.pool q k.1) h

step-Invariant : (c : Call) (s : System) → Invariant s → Invariant (step c s)
unfolding step
step-Invariant (acquires skip now later model sid excluded) s h =
    acquire-Inv skip now later model sid excluded s h
step-Invariant (releases i) s h = release-Inv i s h
step-Invariant (loads accounts version) s h =
    at_capacity s.pool (load_snapshot accounts version s.pool) s.leases
      (load-cap accounts version s.pool) (load-Inv accounts version s h)
step-Invariant (marks now id model until) s h =
    of_kept s (mark_limited now id model until s.pool) (mark-keeps now id model until s.pool) h
step-Invariant (clears id model) s h =
    of_kept s (clear_limited id model s.pool) (clear-keeps id model s.pool) h
step-Invariant (clears_before id model started) s h =
    of_kept s (clear_limited_before id model started s.pool)
      (clear_before-keeps id model started s.pool) h

pub run-Invariant : (cs : List Call) (s : System) → Invariant s → Invariant (run cs s)
unfolding run
run-Invariant [] s h = h
run-Invariant (c ∷ cs) s h = run-Invariant cs (step c s) (step-Invariant c s h)

pub new_system-Invariant : (n : ℕ) → Invariant (new_system n)
unfolding new_system
new_system-Invariant n = new-Inv _

held_by-le :
    (id : Text) (r : ℕ) (s : Slots) (ls : List Lease)
    → All (Owns s) ls
    → lookup id s.reservations ≡ some r
    → held_by id ls ≤ holders r ls
unfolding held_by holders
held_by-le id r s [] o e = omega arith
held_by-le id r s (l ∷ ls) o e =
    ground (arith, o.0, text_beq_iff l.account_id id, held_by-le id r s ls o.1 e)

held_by-none :
    (id : Text) (s : Slots) (ls : List Lease)
    → All (Owns s) ls
    → lookup id s.reservations ≡ none
    → held_by id ls ≡ 0
unfolding held_by
held_by-none id s [] o e = refl
held_by-none id s (l ∷ ls) o e =
    ground (arith, o.0, text_beq_iff l.account_id id, held_by-none id s ls o.1 e)

held_by-cap : (s : System) (id : Text) → Invariant s → held_by id s.leases ≤ capacity s.pool
held_by-cap s id h = elim (Option-cases (lookup id s.pool.slots.reservations)) [
  | inl e ↦ omega (arith, held_by-none id s.pool.slots s.leases h.owned e)
  | inr (r, e) ↦
      omega (arith, held_by-le id r s.pool.slots s.leases h.owned e, h.counted r, h.capped r)
]

step-cap : (c : Call) (s : System) → (step c s).pool.max_per_account ≡ s.pool.max_per_account
unfolding step acquire select_round release give_back notify conclude
step-cap (acquires skip now later model sid excluded) s =
    ground (arith, model_view-keeps model s.pool)
step-cap (releases i) s = ground arith
step-cap (loads accounts version) s = load-cap accounts version s.pool
step-cap (marks now id model until) s = (mark-keeps now id model until s.pool).1
step-cap (clears id model) s = refl
step-cap (clears_before id model started) s = (clear_before-keeps id model started s.pool).1

run-cap : (cs : List Call) (s : System) → (run cs s).pool.max_per_account ≡ s.pool.max_per_account
unfolding run
run-cap [] s = refl
run-cap (c ∷ cs) s = run-cap cs (step c s) ∙ step-cap c s

-- From a new pool, after any sequence of rounds of selection, calls of release (repeated ones
-- included), snapshots and limits, the requests that hold an account are at most the configured
-- cap (4 where the configuration has none).
pub run-held_by-le :
    (n : ℕ) (cs : List Call) (id : Text)
    → held_by id (run cs (new_system n)).leases ≤ (if leb n 0 then 4 else n)
unfolding new_system
run-held_by-le n cs id =
    let s = run cs (new_system n) in
    let bound = held_by-cap s id (run-Invariant cs (new_system n) (new_system-Invariant n)) in
    rw (run-cap cs (new_system n)) at bound

-- From a new pool, after any sequence of the pool's calls, the cell that a closure not yet released
-- points to is the map's entry for its account, and the counter of every cell is the number of such
-- closures that point to it.
pub run-active :
    (n : ℕ) (cs : List Call)
    → let s = run cs (new_system n) in
      All
        (λ l. l.held ≡ true → lookup l.account_id s.pool.slots.reservations ≡ some l.slot)
        s.leases
      × ((r : ℕ) → (s.pool.slots.cell r).active ≡ holders r s.leases)
run-active n cs =
    let h = run-Invariant cs (new_system n) (new_system-Invariant n) in (h.owned, h.counted)
