-- ===== src/Store/Edits.antt =====
-- The changes of accounts that server/internal/store/scheduling.go, store.go and writer.go make for
-- callers who hold no gate of the account: an administrator, the proxy, the writer of timestamps. A
-- new account has an id of its own and is left out.
pub mod Laws
use antigravity2api.Base.{
  ℕ, Bool, true, List, [], ◌∷◌, Option, none, some, Text, text_eq, is_empty, lookup, insert, delete,
  if◌then◌else◌,
}
use antigravity2api.Accounts.{QuotaData, Account}

pub data Change : Type 0 where
  disabled_to : Bool → Change  -- SetDisabled, SetDisabledContext
  limited_until : ℕ → Change  -- MarkRateLimited
  project_and_quota : Text → Option QuotaData → Change  -- UpdateAccountMetadata
  forbidden : Change  -- SetForbidden
  used_at : ℕ → Change  -- the timestamps of MarkUsed

pub data Edit : Type 0 where
  changes : Text → Change → Edit
  removes : Text → Edit  -- DeleteAccount

-- json_set(COALESCE(...), '$.is_forbidden', true)
abbrev forbid_quota : Option QuotaData → QuotaData
forbid_quota none = record { quota_models = []; is_forbidden = true; forwarding_rules = [] }
forbid_quota (some q) = record q { is_forbidden = true }

-- The SET part of each UPDATE.
unfoldable pub apply_change : Change → Account → Account
apply_change (disabled_to off) row = record row { disabled = off }
apply_change (limited_until until) row = record row { rate_limited_until = until }
apply_change (project_and_quota project quota) row = record row {
  project_id = if is_empty project then row.project_id else project;
  quota = elim quota [ none ↦ row.quota | some q ↦ some q ];
}
apply_change forbidden row = record row { quota = some (forbid_quota row.quota) }
apply_change (used_at now) row = record row { last_used = now }

unfoldable pub edit_row : Edit → List (Text × Account) → List (Text × Account)
unfolding apply_change lookup insert delete
edit_row (changes id change) rows = elim (lookup id rows) [
  | none ↦ rows
  | some row ↦ insert id (apply_change change row) rows
]
edit_row (removes id) rows = delete id rows

unfoldable pub edit_rows : List Edit → List (Text × Account) → List (Text × Account)
unfolding edit_row
edit_rows [] rows = rows
edit_rows (e ∷ edits) rows = edit_rows edits (edit_row e rows)
