-- ===== src/Examples/Acquire.antt =====
-- Acquire, with an account whose refresh token is revoked and one that is fine.
use antigravity2api.Pool.Scan.{scan}
use antigravity2api.Pool.View.{model_view}
use antigravity2api.Pool.Select.{
  select_round, live_binding, drop_stale_binding, conclude, bind_session,
}
use antigravity2api.Pool.Slots.{prune}
use antigravity2api.Pool.Snapshot.{
  load_snapshot, install_snapshot, live, live_limits, live_sessions, index_from,
}
use antigravity2api.Pool.State.{new_pool}
use antigravity2api.Base.{
  ℕ, ◌≡◌, refl, true, false, List, [], ◌∷◌, none, some, text_eq, text_beq_iff, lookup, arith,
  insert, delete, text_beq,
}
use antigravity2api.Strings.{codes}
use antigravity2api.Time.{from_unix}
use antigravity2api.Accounts.{Account}
use antigravity2api.Pool.System.{
  new_system, acquires, release, give_back, spend, step, run, acquire,
}
use antigravity2api.Pool.Refresh.{
  Tokens, World, granted, refused, found, ensure_fresh, refresh_row, renew, store_token,
  needs_refresh, get_account, update_row, with_token, with_project, record_failure,
  make_room_for_failure, backoff, ensure_project, project_row, load_project,
}
use antigravity2api.Pool.Refresh.Rows.{Keyed}
use antigravity2api.Pool.Acquire.{
  Round, Visit, Errand, Acquired, lent, Listing, acquire_account, set_out, attempt_account,
  use_slot, confirm, hand_over, revalidate, give_up, disable_row, is_invalid_grant, look_up,
  select_account, settle, others,
}
use antigravity2api.Pool.Acquire.Turns.{Settled, acquire_account-slots}

abbrev revoked : Account
revoked = record {
  id = codes "ada";
  email = codes "ada@example.com";
  refresh_token = codes "1//r";
  access_token = [];
  expiry_timestamp = 0;
  project_id = [];
  quota = none;
  disabled = false;
  last_used = 0;
  rate_limited_until = 0;
  expires_at = 0;
}

abbrev ready : Account
ready = record revoked { id = codes "bob"; refresh_token = codes "1//s" }

abbrev table : Tokens
table = record {
  rows = (codes "ada", revoked) ∷ (codes "bob", ready) ∷ [];
  failures = [];
  asked = [];
}

table-Keyed : Keyed table
unfolding lookup
table-Keyed id row e =
    ground (arith, e, text_beq_iff (codes "ada") id, text_beq_iff (codes "bob") id)

abbrev now : ℕ
now = from_unix 1000

abbrev world : World
world = record {
  entered = true;
  gated = true;
  checked = now;
  read = true;
  rechecked = now;
  has_client = true;
  tested = now;
  permitted = true;
  token_reply = λ token. granted (codes "new") [] 3600;
  project_reply = λ token. found (codes "project-1");
  live = true;
  failed_at = now;
  stored_at = now;
  written = true;
  reread = true;
  during = [];
  before_reread = [];
}

abbrev listing : Listing
listing = some (revoked ∷ ready ∷ [], 1)

abbrev round : Round
round = record {
  meanwhile = [];
  alive = true;
  listing = listing;
  skip_expired = false;
  now = now;
  later = now;
}

abbrev visit : Visit
visit = record {
  rounds = round ∷ [];
  refreshes = world;
  projects = world;
  between_calls = acquires false now now (codes "gemini") [] [] ∷ [];
  alive = true;
  disable_works = true;
  failed_at = now;
  listing = listing;
  skip_expired = false;
  now = now;
  still_alive = true;
  marks_used = true;
  used_at = now;
}

-- The first account's token is refused, so that the second is asked for.
abbrev visits : List Visit
visits =
    record visit {
      refreshes = record world { token_reply = λ token. refused (codes "invalid_grant") };
    }
    ∷ visit
    ∷ []

abbrev errand : Errand × Acquired
errand = acquire_account (codes "gemini") [] visits (set_out (new_system 2) table [])

acquire_run :
    (errand.1
      ≡ lent
          (record ready {
            access_token = codes "new";
            expiry_timestamp = 4600;
            project_id = codes "project-1";
            last_used = 1000;
          })
          2)
    × (errand.0.got ≡ 2 ∷ 0 ∷ [])
    × (errand.0.excluded ≡ codes "ada" ∷ [])
unfolding acquire_account attempt_account use_slot confirm hand_over revalidate give_up disable_row
    is_invalid_grant look_up select_account settle others set_out acquire release give_back spend
    step run new_system new_pool load_snapshot install_snapshot live live_limits live_sessions
    index_from prune select_round model_view live_binding drop_stale_binding conclude bind_session
    scan ensure_fresh refresh_row renew store_token needs_refresh get_account update_row with_token
    with_project record_failure make_room_for_failure backoff ensure_project project_row
    load_project lookup insert delete text_beq
acquire_run = (refl, refl, refl)

acquire_account-slots_example :
    Settled (acquire_account (codes "gemini") [] visits (set_out (new_system 2) table []))
acquire_account-slots_example =
    acquire_account-slots (codes "gemini") [] visits (new_system 2) table [] table-Keyed
