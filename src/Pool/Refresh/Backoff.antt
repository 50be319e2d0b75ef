-- ===== src/Pool/Refresh/Backoff.antt =====
-- A refresh that failed is not tried again at once, and the failures that are kept are bounded.
use antigravity2api.Base.{
  ℕ, ◌+◌, ◌*◌, ◌≤◌, ◌<◌, ◌≡◌, refl, sym, ap, subst, inl, inr, Bool, true, List, [], ◌∷◌, some, Text,
  text_eq, lookup, delete, length, length-insert-le, length-delete-le, Option-cases, arith,
}
use antigravity2api.Strings.{clip}
use antigravity2api.Time.{second, unix}
use antigravity2api.Accounts.{Account}
use antigravity2api.Pool.State.{max_sessions}
use antigravity2api.Pool.Refresh.{
  edited, RefreshFailure, Tokens, Result, upstream_failed, TokenReply, granted, refused, World,
  get_account, update_row, with_token, drop_expired, make_room_for_failure, record_failure,
  store_token, renew, refresh_row, ensure_fresh,
}
use antigravity2api.Pool.Refresh.Rows.{update_row-Updated}

-- A failure of the account is kept until the instant.
abbrev pub HeldUntil : Text → ℕ → Tokens → Type 0
HeldUntil id until s = (f : RefreshFailure) × (lookup id s.failures ≡ some f) × (f.until ≡ until)

-- After an upstream failure that was not the caller's end, the failure is held.
abbrev Marks : World → Text → Result → Type 0
Marks w id (t, a, err) =
    (m : Text)
    → err ≡ some (upstream_failed m)
    → w.live ≡ true
    → HeldUntil id (w.failed_at + 5 * second) t

length-drop_expired :
    (now : ℕ) (failures : List (Text × RefreshFailure))
    → length (drop_expired now failures) ≤ length failures
unfolding drop_expired
length-drop_expired now [] = omega arith
length-drop_expired now ((id, f) ∷ failures) = ground (arith, length-drop_expired now failures)

record_failure-bound :
    (now : ℕ) (id message : Text) (s : Tokens)
    → length s.failures ≤ max_sessions
    → length (record_failure now id message s).failures ≤ max_sessions
unfolding record_failure make_room_for_failure
record_failure-bound now id message s h =
    let f : RefreshFailure = record { message = clip 2048 message; until = now + 5 * second } in
    let room = make_room_for_failure now s.failures in
    let roomy : length room < max_sessions = ground arith in
    omega (arith, length-insert-le id f room, roomy)

abbrev Bounded : Tokens → Type 0
Bounded s = length s.failures ≤ max_sessions

update_row-failures :
    (works : Bool) (id : Text) (change : Account → Account) (s t : Tokens)
    → update_row works id change s ≡ some t
    → t.failures ≡ s.failures
update_row-failures works id change s t e =
    ap (λ (v : Tokens). v.failures) (update_row-Updated works id change s t e).is

store_token-Bounded :
    (w : World) (access refresh : Text) (lasts : ℕ) (row : Account) (s : Tokens)
    → Bounded s
    → Bounded (store_token w access refresh lasts row s).0
unfolding store_token
store_token-Bounded w access refresh lasts row s h =
    let change = with_token access refresh (unix w.stored_at + lasts) in
    let cleared = record s { failures = delete row.id s.failures } in
    let fewer : Bounded cleared = omega (arith, length-delete-le row.id s.failures, h) in
    elim (Option-cases (update_row w.written row.id change cleared)) [
      | inl q ↦ ground (arith, q, fewer)
      | inr (t, q) ↦
          let same = update_row-failures w.written row.id change cleared t q in
          let kept : Bounded t =
            subst (λ (m : List (Text × RefreshFailure)). length m ≤ max_sessions) (sym same)
              fewer in
          ground (arith, q, kept)
    ]

renew-Bounded : (w : World) (row : Account) (s : Tokens) → Bounded s → Bounded (renew w row s).0
unfolding renew
renew-Bounded w row s h = go (w.token_reply row.refresh_token) refl
  where
    go : (g : TokenReply) → w.token_reply row.refresh_token ≡ g → Bounded (renew w row s).0
    go (granted access refresh lasts) q =
        let sent = edited w.during (record s { asked = row.refresh_token ∷ s.asked }) in
        ground (arith, q, h, store_token-Bounded w access refresh lasts row sent h)
    go (refused message) q =
        let sent = edited w.during (record s { asked = row.refresh_token ∷ s.asked }) in
        ground (arith, q, h, record_failure-bound w.failed_at row.id message sent h)

refresh_row-Bounded :
    (w : World) (row : Account) (s : Tokens) → Bounded s → Bounded (refresh_row w row s).0
unfolding refresh_row
refresh_row-Bounded w row s h = ground (arith, h, renew-Bounded w row s h)

-- No more than 4096 failures are kept, whatever a refresh comes to.
pub ensure_fresh-bound :
    (w : World) (acc : Account) (s : Tokens)
    → length s.failures ≤ max_sessions
    → length (ensure_fresh w acc s).0.failures ≤ max_sessions
unfolding ensure_fresh
ensure_fresh-bound w acc s h = elim (Option-cases (get_account w.read acc.id s)) [
  | inl q ↦ ground (arith, q, h)
  | inr (row, q) ↦ ground (arith, q, h, refresh_row-Bounded w row s h)
]
