-- ===== src/Pool/Snapshot.antt =====
-- loadSnapshot of server/internal/pool/scheduler.go: the accounts that the store lists replace the
-- ones in memory, and what belongs to accounts that are gone goes.
use antigravity2api.Base.{
  ℕ, ◌+◌, Bool, false, ◌||◌, List, [], ◌∷◌, Text, text_eq, text_beq, insert, nat_beq, if◌then◌else◌,
}
use antigravity2api.Accounts.{Account}
use antigravity2api.Pool.Slots.{prune}
use antigravity2api.Pool.State.{Pool, LimitKey, LimitRecord, SessionBinding}

-- live[id]
unfoldable pub live : List Account → Text → Bool
unfolding text_beq
live [] id = false
live (a ∷ accounts) id = text_beq a.id id || live accounts id

unfoldable pub live_limits :
    (Text → Bool) → List (LimitKey × LimitRecord) → List (LimitKey × LimitRecord)
live_limits lives [] = []
live_limits lives ((k, r) ∷ m) =
    let rest = live_limits lives m in if lives k.account_id then (k, r) ∷ rest else rest

unfoldable pub live_sessions :
    (Text → Bool) → List (Text × SessionBinding) → List (Text × SessionBinding)
live_sessions lives [] = []
live_sessions lives ((k, b) ∷ m) =
    let rest = live_sessions lives m in if lives b.account_id then (k, b) ∷ rest else rest

-- for i := range accounts { p.accountIndex[accounts[i].ID] = i }
unfoldable pub index_from : ℕ → List Account → List (Text × ℕ) → List (Text × ℕ)
unfolding insert text_beq
index_from i [] index = index
index_from i (a ∷ accounts) index = index_from (i + 1) accounts (insert a.id i index)

-- The part under the lock, for the accounts and the version that the store gave.
unfoldable pub install_snapshot : List Account → ℕ → Pool → Pool
unfolding live live_limits live_sessions index_from prune
install_snapshot accounts version p = record p {
  slots = prune (live accounts) p.slots;
  limits = live_limits (live accounts) p.limits;
  sessions = live_sessions (live accounts) p.sessions;
  accounts = accounts;
  version = version;
  account_index = index_from 0 accounts [];
  model_views = [];
}

-- A pool whose version is the store's is left alone.
unfoldable pub load_snapshot : List Account → ℕ → Pool → Pool
unfolding install_snapshot
load_snapshot accounts version p =
    if nat_beq p.version version then p else install_snapshot accounts version p
