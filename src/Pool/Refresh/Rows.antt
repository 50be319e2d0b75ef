-- ===== src/Pool/Refresh/Rows.antt =====
-- The rows of the table of accounts through a refresh, and the account that a caller gets.
use antigravity2api.Base.{
  ℕ, ◌+◌, ◌≡◌, refl, sym, ap, subst, ◌∙◌, ◌⊎◌, inl, inr, Bool, true, false, List, ◌∷◌, none, some,
  Text, text_eq, text_beq_iff, lookup, insert, delete, lookup-insert, Option-cases, Bool-cases,
  arith, if◌then◌else◌, is_empty,
}
use antigravity2api.Accounts.{Account}
use antigravity2api.Time.{unix}
use antigravity2api.Store.Edits.{Edit}
use antigravity2api.Store.Edits.Laws.{Follows, edit_rows-Former}
use antigravity2api.Pool.Refresh.{
  edited, Tokens, Result, RefreshError, upstream_failed, ended, database_failed, account_disabled,
  no_client, backed_off, TokenReply, granted, refused, World, is_fresh, get_account, update_row,
  with_token, record_failure, store_token, renew, backoff, refresh_row,
}

-- A row is found under its own id.
abbrev pub Keyed : Tokens → Type 0
Keyed s = (id : Text) (row : Account) → lookup id s.rows ≡ some row → row.id ≡ id

abbrev pub KeepsRowId : (Account → Account) → Type 0
KeepsRowId change = (row : Account) → (change row).id ≡ row.id

with_token-id : (access refresh : Text) (expiry : ℕ) → KeepsRowId (with_token access refresh expiry)
unfolding with_token
with_token-id access refresh expiry row = refl

pub get_account-lookup :
    (works : Bool) (id : Text) (s : Tokens) (a : Account)
    → get_account works id s ≡ some a
    → lookup id s.rows ≡ some a
unfolding get_account
get_account-lookup true id s a e = e
get_account-lookup false id s a e = absurd (ground (arith, e))

-- What an update does to the state.
pub record Updated (id : Text) (change : Account → Account) (s t : Tokens) : Type 0 where
  pub row : Account
  pub was : lookup id s.rows ≡ some row
  pub is : t ≡ record s { rows = insert id (change row) s.rows }

pub update_row-Updated :
    (works : Bool) (id : Text) (change : Account → Account) (s t : Tokens)
    → update_row works id change s ≡ some t
    → Updated id change s t
unfolding update_row
update_row-Updated false id change s t e = absurd (ground (arith, e))
update_row-Updated true id change s t e = elim (Option-cases (lookup id s.rows)) [
  | inl q ↦ absurd (ground (arith, e, q))
  | inr (row, q) ↦ record { row = row; was = q; is = ground (arith, e, q) }
]

insert-Keyed :
    (id : Text) (row : Account) (s : Tokens)
    → row.id ≡ id
    → Keyed s
    → Keyed (record s { rows = insert id row s.rows })
insert-Keyed id row s own k j found_row e =
    ground (arith, text_beq_iff id j, lookup-insert id j row s.rows, k j found_row)

pub Updated-Keyed :
    (id : Text) (change : Account → Account) (s t : Tokens)
    → KeepsRowId change
    → Keyed s
    → Updated id change s t
    → Keyed t
Updated-Keyed id change s t keeps k u =
    subst Keyed (sym u.is) (insert-Keyed id (change u.row) s (keeps u.row ∙ k id u.row u.was) k)

-- The row that is there after an update.
pub Updated-row :
    (id : Text) (change : Account → Account) (s t : Tokens) (row : Account)
    → (u : Updated id change s t) → lookup id t.rows ≡ some row
    → row ≡ change u.row
Updated-row id change s t row u there =
    let put : lookup id t.rows ≡ some (change u.row) =
      ap (λ (v : Tokens). lookup id v.rows) u.is
      ∙ lookup-insert id id (change u.row) s.rows
      ∙ ground (arith, text_beq_iff id id) in
    ground (arith, put, there)

-- The changes of others keep the rows under their ids.
pub edited-Keyed : (edits : List Edit) (s : Tokens) → Keyed s → Keyed (edited edits s)
edited-Keyed edits s k id row e =
    let (former, there, f) = edit_rows-Former edits id s.rows row e in f.id ∙ k id former there

-- What is read after an update and the changes of others that came after it.
pub reread-Follows :
    (works : Bool) (edits : List Edit) (id : Text) (change : Account → Account) (s t : Tokens)
    (latest : Account)
    → (u : Updated id change s t) → get_account works id (edited edits t) ≡ some latest
    → Follows (change u.row) latest
reread-Follows works edits id change s t latest u q =
    let there = get_account-lookup works id (edited edits t) latest q in
    let (middle, at, f) = edit_rows-Former edits id t.rows latest there in
    subst (λ a. Follows a latest) (Updated-row id change s t middle u at) f

-- How an account that needed a token became what it is: another request had refreshed it, or the
-- upstream granted a token, which was stored.
abbrev pub Renewed : World → Account → Account → Type 0
Renewed w row a =
    ((is_fresh row w.rechecked ≡ true) × (a ≡ row))
    ⊎ ((access : Text) × (refresh : Text) × (lasts : ℕ) × (w.token_reply row.refresh_token
          ≡ granted access refresh lasts)
        × (a.access_token ≡ access)
        × (a.expiry_timestamp ≡ unix w.stored_at + lasts)
        × (a.refresh_token ≡ (if is_empty refresh then row.refresh_token else refresh)))

with_token-Follows :
    (access refresh : Text) (expiry : ℕ) (row former a : Account)
    → former.refresh_token ≡ row.refresh_token
    → Follows (with_token access refresh expiry former) a
    → (a.access_token ≡ access)
      × (a.expiry_timestamp ≡ expiry)
      × (a.refresh_token ≡ (if is_empty refresh then row.refresh_token else refresh))
unfolding with_token
with_token-Follows access refresh expiry row former a same f =
    (f.access, f.expiry, f.refresh ∙ ground (arith, same))

-- What holds after a refresh of a row that was read.
abbrev pub After : World → Account → Tokens → Result → Type 0
After w row s (t, a, err) =
    Keyed t
    × (a.id ≡ row.id)
    × (err ≡ none → (row.disabled ≡ false) × (lookup row.id t.rows ≡ some a) × Renewed w row a)

along :
    (w : World) (row : Account) (s : Tokens) (p q : Result)
    → p ≡ q
    → After w row s q
    → After w row s p
along w row s p q e = subst (After w row s) (sym e)

failed-After :
    (w : World) (row : Account) (s t : Tokens) (e : RefreshError)
    → Keyed t
    → After w row s (t, row, some e)
failed-After w row s t e k = (k, refl, λ n. absurd (ground (arith, n)))

store_token-After :
    (w : World) (access refresh : Text) (lasts : ℕ) (row : Account) (s : Tokens)
    → Keyed s
    → ((former : Account)
        → lookup row.id s.rows ≡ some former
        → former.refresh_token ≡ row.refresh_token)
    → row.disabled ≡ false
    → w.token_reply row.refresh_token ≡ granted access refresh lasts
    → After w row s (store_token w access refresh lasts row s)
unfolding store_token
store_token-After w access refresh lasts row s k same on reply =
    let change = with_token access refresh (unix w.stored_at + lasts) in
    let cleared = record s { failures = delete row.id s.failures } in
    elim (Option-cases (update_row w.written row.id change cleared)) [
      | inl q ↦
          along w row s (store_token w access refresh lasts row s)
            (cleared, row, some database_failed) (ground (arith, q))
            (failed-After w row s cleared _ k)
      | inr (updated, q) ↦
          let u = update_row-Updated w.written row.id change cleared updated q in
          let t = edited w.before_reread updated in
          let keyed =
            edited-Keyed w.before_reread updated
              (Updated-Keyed row.id change cleared updated (with_token-id access refresh _) k u) in
          elim (Option-cases (get_account w.reread row.id t)) [
            | inl r ↦
                along w row s (store_token w access refresh lasts row s)
                  (t, row, some database_failed) (ground (arith, q, r))
                  (failed-After w row s t _ keyed)
            | inr (latest, r) ↦
                let there = get_account-lookup w.reread row.id t latest r in
                let told =
                  with_token-Follows access refresh (unix w.stored_at + lasts) row u.row latest
                    (same u.row u.was)
                    (reread-Follows w.reread w.before_reread row.id change cleared updated latest u
                      r) in
                along w row s (store_token w access refresh lasts row s) (t, latest, none)
                  (ground (arith, q, r))
                  (
                    keyed,
                    keyed row.id latest there,
                    λ n. (on, there, inr (access, refresh, lasts, reply, told.0, told.1, told.2)),
                  )
          ]
    ]

-- The token that is sent is the one of the row, whatever others change meanwhile.
edited_refresh_token :
    (edits : List Edit) (row : Account) (s : Tokens)
    → lookup row.id s.rows ≡ some row
    → (former : Account) → lookup row.id (edited edits s).rows ≡ some former
    → former.refresh_token ≡ row.refresh_token
edited_refresh_token edits row s e former there =
    let (first, at, f) = edit_rows-Former edits row.id s.rows former there in
    let is : first ≡ row = ground (arith, at, e) in
    f.refresh ∙ ap (λ (a : Account). a.refresh_token) is

renew-After :
    (w : World) (row : Account) (s : Tokens)
    → Keyed s
    → lookup row.id s.rows ≡ some row
    → row.disabled ≡ false
    → After w row s (renew w row s)
unfolding renew record_failure
renew-After w row s k e on = go (w.token_reply row.refresh_token) refl
  where
    go : (g : TokenReply) → w.token_reply row.refresh_token ≡ g → After w row s (renew w row s)
    go (granted access refresh lasts) q =
        let asked = record s { asked = row.refresh_token ∷ s.asked } in
        let sent = edited w.during asked in
        let stored : After w row s (store_token w access refresh lasts row sent) =
          store_token-After w access refresh lasts row sent (edited-Keyed w.during asked k)
            (edited_refresh_token w.during row asked e) on q in
        elim (Bool-cases w.permitted) [
          | inl p ↦
              along w row s (renew w row s) (store_token w access refresh lasts row sent)
                (ground (arith, q, p)) stored
          | inr p ↦
              along w row s (renew w row s) (s, row, some ended) (ground (arith, p))
                (failed-After w row s s _ k)
        ]
    go (refused message) q =
        let asked = record s { asked = row.refresh_token ∷ s.asked } in
        let sent = edited w.during asked in
        let t = if w.live then record_failure w.failed_at row.id message sent else sent in
        let same : t.rows ≡ sent.rows = ground arith in
        let keyed : Keyed t =
          subst
            (λ (m : List (Text × Account)).
              (id : Text) (r : Account) → lookup id m ≡ some r → r.id ≡ id)
            (sym same) (edited-Keyed w.during asked k) in
        elim (Bool-cases w.permitted) [
          | inl p ↦
              along w row s (renew w row s) (t, row, some (upstream_failed message))
                (ground (arith, q, p)) (failed-After w row s t _ keyed)
          | inr p ↦
              along w row s (renew w row s) (s, row, some ended) (ground (arith, p))
                (failed-After w row s s _ k)
        ]

pub refresh_row-After :
    (w : World) (row : Account) (s : Tokens)
    → Keyed s
    → lookup row.id s.rows ≡ some row
    → After w row s (refresh_row w row s)
unfolding refresh_row
refresh_row-After w row s k e = elim (Bool-cases row.disabled) [
  | inl off ↦
      along w row s (refresh_row w row s) (s, row, some account_disabled) (ground (arith, off))
        (failed-After w row s s _ k)
  | inr on ↦ elim (Bool-cases (is_fresh row w.rechecked)) [
    | inl fresh ↦
        along w row s (refresh_row w row s) (s, row, none) (ground (arith, on, fresh))
          (k, refl, λ n. (on, e, inl (fresh, refl)))
    | inr stale ↦ elim (Bool-cases w.has_client) [
      | inr lacks ↦
          along w row s (refresh_row w row s) (s, row, some no_client)
            (ground (arith, on, stale, lacks)) (failed-After w row s s _ k)
      | inl has ↦ elim (Option-cases (backoff row.id w.tested s)) [
        | inl free ↦
            along w row s (refresh_row w row s) (renew w row s)
              (ground (arith, on, stale, has, free)) (renew-After w row s k e on)
        | inr (m, held) ↦
            along w row s (refresh_row w row s) (s, row, some (backed_off m))
              (ground (arith, on, stale, has, held)) (failed-After w row s s _ k)
      ]
    ]
  ]
]
