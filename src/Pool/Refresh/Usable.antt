-- ===== src/Pool/Refresh/Usable.antt =====
-- The account that a caller of ensureFresh and RefreshToken gets.
use antigravity2api.Base.{
  ◌≡◌, refl, sym, subst, ◌∙◌, ◌⊎◌, inl, inr, Bool, true, false, none, some, Text, text_eq, lookup,
  Option-cases, Bool-cases, arith,
}
use antigravity2api.Accounts.{Account}
use antigravity2api.Pool.Refresh.{
  Tokens, Result, RefreshError, ended, database_failed, World, is_fresh, get_account, refresh_row,
  ensure_fresh, refresh_token,
}
use antigravity2api.Pool.Refresh.Rows.{Keyed, get_account-lookup, Renewed, After, refresh_row-After}

-- What a caller of ensureFresh has when there is no error.
abbrev pub Usable : World → Account → Tokens → Result → Type 0
Usable w acc s (t, a, err) =
    ((is_fresh acc w.checked ≡ true) × (a ≡ acc) × (t ≡ s))
    ⊎ ((row : Account) × (lookup acc.id s.rows ≡ some row)
        × (row.disabled ≡ false)
        × (lookup acc.id t.rows ≡ some a)
        × Renewed w row a)

-- The whole of it, errors included.
abbrev Kept : World → Account → Tokens → Result → Type 0
Kept w acc s (t, a, err) = Keyed t × (a.id ≡ acc.id) × (err ≡ none → Usable w acc s (t, a, err))

along-Kept :
    (w : World) (acc : Account) (s : Tokens) (p q : Result)
    → p ≡ q
    → Kept w acc s q
    → Kept w acc s p
along-Kept w acc s p q e = subst (Kept w acc s) (sym e)

failed-Kept :
    (w : World) (acc : Account) (s : Tokens) (e : RefreshError)
    → Keyed s
    → Kept w acc s (s, acc, some e)
failed-Kept w acc s e k = (k, refl, λ n. absurd (ground (arith, n)))

After-Kept :
    (w : World) (acc row : Account) (s : Tokens) (r : Result)
    → row.id ≡ acc.id
    → lookup acc.id s.rows ≡ some row
    → After w row s r
    → Kept w acc s r
After-Kept w acc row s (t, a, err) i e h = (
  h.0,
  h.1 ∙ i,
  λ n.
      let (on, there, renewed) = h.2 n in
      inr (row, e, on, subst (λ id. lookup id t.rows ≡ some a) i there, renewed),
)

ensure_fresh-Kept :
    (w : World) (acc : Account) (s : Tokens) → Keyed s → Kept w acc s (ensure_fresh w acc s)
unfolding ensure_fresh
ensure_fresh-Kept w acc s k = elim (Bool-cases w.entered) [
  | inr out ↦
      along-Kept w acc s (ensure_fresh w acc s) (s, acc, some ended) (ground (arith, out))
        (failed-Kept w acc s _ k)
  | inl entered ↦ elim (Bool-cases (is_fresh acc w.checked)) [
    | inl fresh ↦
        along-Kept w acc s (ensure_fresh w acc s) (s, acc, none) (ground (arith, entered, fresh))
          (k, refl, λ n. inl (fresh, refl, refl))
    | inr stale ↦ elim (Bool-cases w.gated) [
      | inr out ↦
          along-Kept w acc s (ensure_fresh w acc s) (s, acc, some ended)
            (ground (arith, entered, stale, out)) (failed-Kept w acc s _ k)
      | inl gated ↦ elim (Option-cases (get_account w.read acc.id s)) [
        | inl missing ↦
            along-Kept w acc s (ensure_fresh w acc s) (s, acc, some database_failed)
              (ground (arith, entered, stale, gated, missing)) (failed-Kept w acc s _ k)
        | inr (row, q) ↦
            let e = get_account-lookup w.read acc.id s row q in
            let own = k acc.id row e in
            along-Kept w acc s (ensure_fresh w acc s) (refresh_row w row s)
              (ground (arith, entered, stale, gated, q))
              (After-Kept w acc row s (refresh_row w row s) own e (
                refresh_row-After w row s k
                  (subst (λ id. lookup id s.rows ≡ some row) (sym own) e)))
      ]
    ]
  ]
]

-- When ensureFresh, on a table that keeps its rows under their ids, reports no error, whatever others
-- change meanwhile: the account was fresh and nothing has changed; or its row, as it was read under the gate, was not disabled, the caller has
-- the row as the table holds it in the end, and either another request had refreshed it or its
-- tokens and their end are those that the upstream granted for the row's refresh token.
pub ensure_fresh-Usable :
    (w : World) (acc a : Account) (s t : Tokens)
    → Keyed s
    → ensure_fresh w acc s ≡ (t, a, none)
    → Usable w acc s (t, a, none)
ensure_fresh-Usable w acc a s t k e = (subst (Kept w acc s) e (ensure_fresh-Kept w acc s k)).2 refl

-- The table keeps its rows under their own ids, whatever ensureFresh comes to.
pub ensure_fresh-Keyed :
    (w : World) (acc : Account) (s : Tokens) → Keyed s → Keyed (ensure_fresh w acc s).0
ensure_fresh-Keyed w acc s k = (ensure_fresh-Kept w acc s k).0

-- RefreshTokenContext gives the account that it is asked for, and never a disabled one.
pub refresh_token-account :
    (works : Bool) (w : World) (id : Text) (s : Tokens) (a : Account)
    → Keyed s
    → (refresh_token works w id s).1 ≡ some a
    → (a.id ≡ id) × (a.disabled ≡ false)
unfolding refresh_token
refresh_token-account works w id s a k e = elim (Option-cases (get_account works id s)) [
  | inl gone ↦ ground (arith, e, gone)
  | inr (acc, q) ↦
      let own = k id acc (get_account-lookup works id s acc q) in
      let kept = (ensure_fresh-Kept w acc s k).1 in ground (arith, e, q, own, kept)
]

-- The account keeps its id, whatever ensureFresh comes to.
pub ensure_fresh-id :
    (w : World) (acc : Account) (s : Tokens) → Keyed s → (ensure_fresh w acc s).1.id ≡ acc.id
ensure_fresh-id w acc s k = (ensure_fresh-Kept w acc s k).1
