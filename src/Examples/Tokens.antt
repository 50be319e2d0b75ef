-- ===== src/Examples/Tokens.antt =====
-- Refreshes of tokens.
use antigravity2api.Base.{
  ℕ, ◌+◌, ◌*◌, ◌≤◌, ◌≡◌, refl, true, false, [], ◌∷◌, none, some, text_eq, text_beq, text_beq_iff,
  lookup, insert, delete, length, is_empty, arith,
}
use antigravity2api.Strings.{codes, trim_space}
use antigravity2api.Time.{second, from_unix}
use antigravity2api.Accounts.{Account}
use antigravity2api.Pool.State.{max_sessions}
use antigravity2api.Store.Edits.{changes, disabled_to, apply_change, edit_row, edit_rows}
use antigravity2api.Pool.Refresh.{
  Tokens, World, granted, refused, found, needs_refresh, get_account, update_row, with_token,
  with_project, backoff, store_token, renew, refresh_row, ensure_fresh, load_project, project_row,
  ensure_project, refresh_token,
}
use antigravity2api.Pool.Refresh.Rows.{Keyed}
use antigravity2api.Pool.Refresh.Usable.{Usable, ensure_fresh-Usable, refresh_token-account}
use antigravity2api.Pool.Refresh.Backoff.{ensure_fresh-bound}
use antigravity2api.Pool.Refresh.Projects.{ensure_project-project_id}

-- An account whose token is over.
abbrev stale : Account
stale = record {
  id = codes "ada";
  email = codes "ada@example.com";
  refresh_token = codes "1//r";
  access_token = codes "old";
  expiry_timestamp = 0;
  project_id = [];
  quota = none;
  disabled = false;
  last_used = 0;
  rate_limited_until = 0;
  expires_at = 0;
}

abbrev table : Tokens
table = record { rows = (codes "ada", stale) ∷ []; failures = []; asked = [] }

table-Keyed : Keyed table
unfolding lookup
table-Keyed id row e = ground (arith, e, text_beq_iff (codes "ada") id)

abbrev now : ℕ
now = from_unix 1000

abbrev good_world : World
good_world = record {
  entered = true;
  gated = true;
  checked = now;
  read = true;
  rechecked = now;
  has_client = true;
  tested = now;
  permitted = true;
  token_reply = λ token. granted (codes "new") [] 3600;
  project_reply = λ token. found (codes "project-1");
  live = true;
  failed_at = now;
  stored_at = now;
  written = true;
  reread = true;
  during = [];
  before_reread = [];
}

abbrev bad_world : World
bad_world = record good_world { token_reply = λ token. refused (codes "invalid_grant") }

abbrev renewed : Account
renewed = record stale { access_token = codes "new"; expiry_timestamp = 4600 }

abbrev renewed_table : Tokens
renewed_table = record {
  rows = (codes "ada", renewed) ∷ [];
  failures = [];
  asked = codes "1//r" ∷ [];
}

renew_run : ensure_fresh good_world stale table ≡ (renewed_table, renewed, none)
unfolding ensure_fresh refresh_row renew store_token needs_refresh get_account update_row with_token
    backoff text_beq delete insert
renew_run = refl

-- An administrator disables the account while the upstream is asked.
abbrev disabling_world : World
disabling_world = record good_world { during = changes (codes "ada") (disabled_to true) ∷ [] }

abbrev renewed_off : Account
renewed_off = record renewed { disabled = true }

abbrev renewed_off_table : Tokens
renewed_off_table = record renewed_table { rows = (codes "ada", renewed_off) ∷ [] }

renew_off_run : ensure_fresh disabling_world stale table ≡ (renewed_off_table, renewed_off, none)
unfolding ensure_fresh refresh_row renew store_token needs_refresh get_account update_row with_token
    backoff text_beq delete insert edit_rows edit_row apply_change
renew_off_run = refl

ensure_fresh-Usable_example :
    Usable disabling_world stale table (renewed_off_table, renewed_off, none)
ensure_fresh-Usable_example =
    ensure_fresh-Usable disabling_world stale renewed_off table renewed_off_table table-Keyed
      renew_off_run

refresh_run : (refresh_token true good_world (codes "ada") table).1 ≡ some renewed
unfolding refresh_token ensure_fresh refresh_row renew store_token needs_refresh get_account
    update_row with_token backoff text_beq delete insert
refresh_run = refl

refresh_token-account_example : (renewed.id ≡ codes "ada") × (renewed.disabled ≡ false)
refresh_token-account_example =
    refresh_token-account true good_world (codes "ada") table renewed table-Keyed refresh_run

abbrev failed_table : Tokens
failed_table = record {
  rows = (codes "ada", stale) ∷ [];
  failures =
      (codes "ada", record { message = codes "invalid_grant"; until = now + 5 * second }) ∷ [];
  asked = codes "1//r" ∷ [];
}

abbrev soon : World
soon = record good_world { tested = now + 4 * second }

ensure_fresh-bound_example : length (ensure_fresh bad_world stale table).0.failures ≤ max_sessions
ensure_fresh-bound_example = ensure_fresh-bound bad_world stale table (omega arith)

abbrev with_one : Account
with_one = record stale { project_id = codes "project-1" }

abbrev project_table : Tokens
project_table = record table { rows = (codes "ada", with_one) ∷ [] }

project_run : ensure_project good_world stale table ≡ (project_table, with_one, none)
unfolding ensure_project project_row load_project get_account update_row with_project trim_space
    text_beq delete insert edit_rows
project_run = refl

abbrev with_one_off : Account
with_one_off = record with_one { disabled = true }

abbrev project_off_table : Tokens
project_off_table = record table { rows = (codes "ada", with_one_off) ∷ [] }

project_off_run :
    ensure_project disabling_world stale table ≡ (project_off_table, with_one_off, none)
unfolding ensure_project project_row load_project get_account update_row with_project trim_space
    text_beq delete insert edit_rows edit_row apply_change
project_off_run = refl

ensure_project-project_id_example :
    (is_empty with_one_off.project_id ≡ false)
    × (lookup (codes "ada") project_off_table.rows ≡ some with_one_off)
    × ((row : Account) × (lookup (codes "ada") table.rows ≡ some row) × (row.disabled ≡ false))
ensure_project-project_id_example =
    ensure_project-project_id disabling_world stale with_one_off table project_off_table table-Keyed
      project_off_run
