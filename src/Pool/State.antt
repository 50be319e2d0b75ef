-- ===== src/Pool/State.antt =====
-- The state under `p.mu` of server/internal/pool/scheduler.go.
use antigravity2api.Base.{
  ℕ, ◌+◌, ◌≡◌, ◌↔◌, Bool, true, ◌&&◌, List, [], Text, text_eq, text_beq, text_beq_iff, Eq, ℤ, arith,
}
use antigravity2api.Accounts.{Account}
use antigravity2api.Pool.Slots.{Slots, no_slots}

-- maxSessions, maxLimits
abbrev pub max_sessions : ℕ
max_sessions = 4096

abbrev pub max_limits : ℕ
max_limits = 8192

-- The bound on the cached model views.
abbrev pub max_views : ℕ
max_views = 128

-- sessionBinding
pub record SessionBinding : Type 0 where
  pub account_id : Text
  pub expires : ℕ

-- limitKey
pub record LimitKey : Type 0 where
  pub account_id : Text
  pub model : Text

-- limitRecord
pub record LimitRecord : Type 0 where
  pub until : ℕ
  pub marked_at : ℕ

-- modelCandidate
pub record ModelCandidate : Type 0 where
  pub mapped : Text
  pub present : Bool
  pub percentage : ℤ
  pub reset : ℕ

unfoldable pub limit_key_beq : LimitKey → LimitKey → Bool
limit_key_beq k j = text_beq k.account_id j.account_id && text_beq k.model j.model

pub limit_key_beq_iff : (k j : LimitKey) → (limit_key_beq k j ≡ true) ↔ (k ≡ j)
unfolding limit_key_beq
limit_key_beq_iff k j =
    ground (arith, text_beq_iff k.account_id j.account_id, text_beq_iff k.model j.model)

instance abbrev pub limit_key_eq : Eq LimitKey
limit_key_eq = record { beq = limit_key_beq; beq_iff = limit_key_beq_iff }

-- Pool, without what is not under `p.mu`. `changed` counts the channels that were closed, and
-- `max_per_account` is cfg.MaxConcurrentPerAccount, where 0 stands for all that is not positive.
pub record Pool : Type 0 where
  pub max_per_account : ℕ
  pub accounts : List Account
  pub account_index : List (Text × ℕ)
  pub model_views : List (Text × List ModelCandidate)
  pub version : ℕ
  pub sequence : ℕ
  pub slots : Slots
  pub sessions : List (Text × SessionBinding)
  pub limits : List (LimitKey × LimitRecord)
  pub changed : ℕ

-- New
unfoldable pub new_pool : ℕ → Pool
new_pool max_per_account = record {
  max_per_account = max_per_account;
  accounts = [];
  account_index = [];
  model_views = [];
  version = 0;
  sequence = 0;
  slots = no_slots;
  sessions = [];
  limits = [];
  changed = 0;
}

-- notifyLocked
unfoldable pub notify : Pool → Pool
notify p = record p { changed = p.changed + 1 }
