-- ===== src/Pool/System.antt =====
-- The pool with the requests that hold its accounts: each has the closure `release`.
pub mod Ledger
pub mod Capacity
pub mod Fit
pub mod Sizes
pub mod Views
use antigravity2api.Base.{
  ℕ, zero, suc, ◌+◌, Bool, true, false, List, [], ◌∷◌, ◌++◌, Option, none, some, Text, length,
  get_elem?, if◌then◌else◌,
}
use antigravity2api.Accounts.{Account}
use antigravity2api.Pool.Slots.{vacate}
use antigravity2api.Pool.State.{Pool, notify, new_pool}
use antigravity2api.Pool.Limits.{mark_limited, clear_limited, clear_limited_before}
use antigravity2api.Pool.Snapshot.{load_snapshot}
use antigravity2api.Pool.Select.{Selected, granted, all_busy, unavailable, select_round}

-- What a release closure holds: the pointer `chosen`, and whether `once` still has to run. The id
-- is that of the account it was handed out with.
pub record Lease : Type 0 where
  pub account_id : Text
  pub slot : ℕ
  pub held : Bool

pub record System : Type 0 where
  pub pool : Pool
  pub leases : List Lease

-- The body of the closure, on its first call.
unfoldable pub give_back : ℕ → Pool → Pool
unfolding vacate notify
give_back r p = notify (record p { slots = vacate r p.slots })

-- once.Do marks the closure, by its place in the list.
unfoldable pub spend : ℕ → List Lease → List Lease
spend i [] = []
spend zero (l ∷ ls) = record l { held = false } ∷ ls
spend (suc i) (l ∷ ls) = l ∷ spend i ls

unfoldable pub release : ℕ → System → System
unfolding give_back spend
release i s = elim (get_elem? s.leases i) [
  | none ↦ s
  | some l ↦
      if l.held then record { pool = give_back l.slot s.pool; leases = spend i s.leases } else s
]

-- A grant adds a closure at the end.
abbrev pub lend : List Lease → Selected → List Lease
lend leases (granted a r) = leases ++ (record { account_id = a.id; slot = r; held = true }) ∷ []
lend leases all_busy = leases
lend leases (unavailable d) = leases

unfoldable pub acquire : Bool → ℕ → ℕ → Text → Text → List Text → System → System × Selected
unfolding select_round
acquire skip_expired now later model sid excluded s =
    let (p, r) = select_round skip_expired now later model sid excluded s.pool in
    (record { pool = p; leases = lend s.leases r }, r)

-- The critical sections of the pool, which run one after another in any order.
pub data Call : Type 0 where
  acquires : Bool → ℕ → ℕ → Text → Text → List Text → Call
  releases : ℕ → Call
  loads : List Account → ℕ → Call
  marks : ℕ → Text → Text → ℕ → Call
  clears : Text → Text → Call
  clears_before : Text → Text → ℕ → Call

abbrev pub on_pool : System → Pool → System
on_pool s p = record s { pool = p }

unfoldable pub step : Call → System → System
unfolding acquire release load_snapshot mark_limited clear_limited clear_limited_before
step (acquires skip now later model sid excluded) s =
    (acquire skip now later model sid excluded s).0
step (releases i) s = release i s
step (loads accounts version) s = on_pool s (load_snapshot accounts version s.pool)
step (marks now id model until) s = on_pool s (mark_limited now id model until s.pool)
step (clears id model) s = on_pool s (clear_limited id model s.pool)
step (clears_before id model started) s = on_pool s (clear_limited_before id model started s.pool)

unfoldable pub run : List Call → System → System
unfolding step
run [] s = s
run (c ∷ cs) s = run cs (step c s)

unfoldable pub new_system : ℕ → System
unfolding new_pool
new_system max_per_account = record { pool = new_pool max_per_account; leases = [] }
