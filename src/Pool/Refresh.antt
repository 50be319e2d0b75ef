-- ===== src/Pool/Refresh.antt =====
-- ensureFresh, ensureProject, InvalidateToken and RefreshToken of server/internal/pool/lifecycle.go,
-- on the rows of accounts that server/internal/store/scheduling.go keeps. An operation holds the
-- gate of its account, so those of one account run one after another; other changes of the rows take
-- no gate, and come while the upstream is asked and before the row is read again. What the clock,
-- the context, the database, the upstream and others do in a run is a record. Waiting for a permit to use the
-- network is left out but for its end with the context.
pub mod Rows
pub mod Usable
pub mod Backoff
pub mod Projects
use antigravity2api.Base.{
  ℕ, ◌+◌, ◌*◌, ◌≤◌, Bool, true, false, ◌&&◌, ◌||◌, not, List, [], ◌∷◌, Option, none, some, Text,
  text_eq, text_beq, is_empty, length, lookup, insert, delete, leb, ltb, if◌then◌else◌,
}
use antigravity2api.Strings.{clip, trim_space}
use antigravity2api.Time.{second, unix, after}
use antigravity2api.Accounts.{Account}
use antigravity2api.Pool.State.{max_sessions}
use antigravity2api.Store.Edits.{Edit, edit_rows}

-- refreshFailure
pub record RefreshFailure : Type 0 where
  pub message : Text
  pub until : ℕ

-- The table of accounts, the failures under gateMu, and the refresh tokens sent upstream, newest
-- first.
pub record Tokens : Type 0 where
  pub rows : List (Text × Account)
  pub failures : List (Text × RefreshFailure)
  pub asked : List Text

pub data RefreshError : Type 0 where
  ended database_failed account_disabled no_client no_project : RefreshError
  backed_off : Text → RefreshError
  upstream_failed : Text → RefreshError

-- What the token endpoint says: an access token, a refresh token or none, and the seconds that the
-- access token lasts; or an error.
pub data TokenReply : Type 0 where
  granted : Text → Text → ℕ → TokenReply
  refused : Text → TokenReply

-- What loadCodeAssist says: a project, or an error.
pub data ProjectReply : Type 0 where
  found : Text → ProjectReply
  lost : Text → ProjectReply

pub record World : Type 0 where
  pub entered : Bool  -- ctx.Err() == nil on entry
  pub gated : Bool  -- acquireGate succeeds
  pub checked : ℕ
  pub read : Bool  -- GetAccountContext does not fail
  pub rechecked : ℕ
  pub has_client : Bool
  pub tested : ℕ
  pub permitted : Bool  -- networkPermit succeeds
  pub token_reply : Text → TokenReply
  pub project_reply : Text → ProjectReply
  pub live : Bool  -- ctx.Err() == nil after a failure
  pub failed_at : ℕ
  pub stored_at : ℕ
  pub written : Bool  -- the UPDATE does not fail
  pub reread : Bool  -- the second GetAccountContext does not fail
  pub during : List Edit  -- others' changes from the first read to the UPDATE or the failure
  pub before_reread : List Edit  -- others' changes from the UPDATE to the second read

-- The table after changes by others.
abbrev pub edited : List Edit → Tokens → Tokens
edited edits s = record s { rows = edit_rows edits s.rows }

-- oauth.NeedsRefresh
unfoldable pub needs_refresh : ℕ → ℕ → Bool
needs_refresh expiry now = leb expiry (unix now + 900)

abbrev pub is_fresh : Account → ℕ → Bool
is_fresh acc now = not (is_empty acc.access_token) && not (needs_refresh acc.expiry_timestamp now)

-- GetAccountContext
unfoldable pub get_account : Bool → Text → Tokens → Option Account
unfolding lookup
get_account works id s = if works then lookup id s.rows else none

-- accountUpdateContext: the row changes, if there is one.
unfoldable pub update_row : Bool → Text → (Account → Account) → Tokens → Option Tokens
unfolding lookup insert
update_row works id change s =
    if works
    then elim (lookup id s.rows) [
      | none ↦ none
      | some row ↦ some (record s { rows = insert id (change row) s.rows })
    ]
    else none

-- UpdateTokenContext
unfoldable pub with_token : Text → Text → ℕ → Account → Account
with_token access refresh expiry row = record row {
  access_token = access;
  refresh_token = if is_empty refresh then row.refresh_token else refresh;
  expiry_timestamp = expiry;
}

-- The outcome of an operation: the state, what the caller's account becomes, and an error or none.
abbrev pub Result : Type 0
Result = Tokens × Account × Option RefreshError

unfoldable pub drop_expired : ℕ → List (Text × RefreshFailure) → List (Text × RefreshFailure)
drop_expired now [] = []
drop_expired now ((id, f) ∷ failures) =
    let rest = drop_expired now failures in if not (after f.until now) then rest else (id, f) ∷ rest

unfoldable pub make_room_for_failure :
    ℕ → List (Text × RefreshFailure) → List (Text × RefreshFailure)
make_room_for_failure now failures =
    let kept = drop_expired now failures in
    if leb max_sessions (length failures)
    then (if leb max_sessions (length kept) then [] else kept)
    else failures

-- What a failed refresh leaves behind for five seconds.
unfoldable pub record_failure : ℕ → Text → Text → Tokens → Tokens
record_failure now id message s = record s {
  failures =
      insert id (record { message = clip 2048 message; until = now + 5 * second })
        (make_room_for_failure now s.failures);
}

-- From the deletion of the failure on.
unfoldable pub store_token : World → Text → Text → ℕ → Account → Tokens → Result
unfolding edit_rows
store_token w access refresh expires_in acc s =
    let cleared = record s { failures = delete acc.id s.failures } in
    elim (update_row w.written acc.id (with_token access refresh (unix w.stored_at + expires_in))
      cleared) [
        | none ↦ (cleared, acc, some database_failed)
        | some updated ↦
            let now_there = edited w.before_reread updated in
            elim (get_account w.reread acc.id now_there) [
              | none ↦ (now_there, acc, some database_failed)
              | some latest ↦ (now_there, latest, none)
            ]
      ]

-- The call of refreshToken and what follows it.
unfoldable pub renew : World → Account → Tokens → Result
unfolding edit_rows
renew w acc s =
    let sent = edited w.during (record s { asked = acc.refresh_token ∷ s.asked }) in
    if not w.permitted then (s, acc, some ended) else elim (w.token_reply acc.refresh_token) [
      | granted access refresh expires_in ↦ store_token w access refresh expires_in acc sent
      | refused message ↦ (
        if w.live then record_failure w.failed_at acc.id message sent else sent,
        acc,
        some (upstream_failed message),
      )
    ]

-- The message of a failure that still holds.
unfoldable pub backoff : Text → ℕ → Tokens → Option Text
unfolding lookup
backoff id now s = elim (lookup id s.failures) [
  | some f ↦ if after f.until now then some f.message else none
  | none ↦ none
]

-- What follows the first read, with the account that was read.
unfoldable pub refresh_row : World → Account → Tokens → Result
refresh_row w acc s =
    if acc.disabled
    then (s, acc, some account_disabled)
    else (if is_fresh acc w.rechecked
        then (s, acc, none)
        else (if not w.has_client
            then (s, acc, some no_client)
            else elim (backoff acc.id w.tested s) [
              | some message ↦ (s, acc, some (backed_off message))
              | none ↦ renew w acc s
            ]))

-- ensureFreshContext
unfoldable pub ensure_fresh : World → Account → Tokens → Result
ensure_fresh w acc s =
    if not w.entered
    then (s, acc, some ended)
    else (if is_fresh acc w.checked
        then (s, acc, none)
        else (if not w.gated then (s, acc, some ended) else elim (get_account w.read acc.id s) [
          | none ↦ (s, acc, some database_failed)
          | some latest ↦ refresh_row w latest s
        ]))

-- UpdateAccountMetadataContext, as far as the project.
unfoldable pub with_project : Text → Account → Account
with_project project row = record row {
  project_id = if is_empty project then row.project_id else project;
}

-- From the call of loadCodeAssist on.
unfoldable pub load_project : World → Account → Tokens → Result
unfolding edit_rows
load_project w acc s =
    let meanwhile = edited w.during s in
    if not w.permitted then (s, acc, some ended) else elim (w.project_reply acc.access_token) [
      | lost message ↦ (meanwhile, acc, some (upstream_failed message))
      | found project ↦
          if is_empty (trim_space project)
          then (meanwhile, acc, some no_project)
          else elim (update_row w.written acc.id (with_project project) meanwhile) [
            | none ↦ (meanwhile, acc, some database_failed)
            | some updated ↦
                let now_there = edited w.before_reread updated in
                elim (get_account w.reread acc.id now_there) [
                  | none ↦ (now_there, acc, some database_failed)
                  | some latest ↦ (now_there, latest, none)
                ]
          ]
    ]

-- What follows the first read of ensureProject.
unfoldable pub project_row : World → Account → Tokens → Result
project_row w acc s =
    if acc.disabled
    then (s, acc, some account_disabled)
    else (if not (is_empty acc.project_id)
        then (s, acc, none)
        else (if not w.has_client then (s, acc, some no_client) else load_project w acc s))

-- ensureProject
unfoldable pub ensure_project : World → Account → Tokens → Result
ensure_project w acc s =
    if not w.entered
    then (s, acc, some ended)
    else (if not w.gated then (s, acc, some ended) else elim (get_account w.read acc.id s) [
      | none ↦ (s, acc, some database_failed)
      | some latest ↦ project_row w latest s
    ])

-- InvalidateTokenContext
unfoldable pub invalidate_token : World → Text → Tokens → Tokens × Option RefreshError
invalidate_token w id s =
    let cleared = record s { failures = delete id s.failures } in
    if not (w.entered && w.gated)
    then (s, some ended)
    else elim (update_row w.written id (λ row. record row { expiry_timestamp = 0 }) cleared) [
      | none ↦ (cleared, some database_failed)
      | some updated ↦ (updated, none)
    ]

-- RefreshTokenContext: the account, or an error. The first flag says whether its own read works.
unfoldable pub refresh_token : Bool → World → Text → Tokens → Tokens × Option Account
refresh_token works w id s = elim (get_account works id s) [
  | none ↦ (s, none)
  | some acc ↦
      let (t, latest, err) = ensure_fresh w acc s in
      elim err [ some e ↦ (t, none) | none ↦ (t, if latest.disabled then none else some latest) ]
]
