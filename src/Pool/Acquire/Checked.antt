-- ===== src/Pool/Acquire/Checked.antt =====
-- The account that Acquire gives: its id and its project are those of the table.
use antigravity2api.Base.{
  ◌≡◌, refl, sym, subst, ◌∙◌, inl, inr, Bool, true, false, none, some, Text, text_eq, is_empty,
  lookup, Option-cases, Bool-cases, arith, ◌&&◌, if◌then◌else◌,
}
use antigravity2api.Strings.{trim_space}
use antigravity2api.Accounts.{Account}
use antigravity2api.Pool.Refresh.{
  edited, Tokens, Result, ended, database_failed, no_project, upstream_failed, account_disabled,
  no_client, ProjectReply, found, lost, World, get_account, update_row, with_project, load_project,
  project_row, ensure_project, ensure_fresh,
}
use antigravity2api.Pool.Refresh.Rows.{
  Keyed, KeepsRowId, get_account-lookup, update_row-Updated, Updated-Keyed, edited-Keyed,
}
use antigravity2api.Pool.Refresh.Usable.{ensure_fresh-Keyed, ensure_fresh-id}
use antigravity2api.Pool.Refresh.Projects.{ensure_project-project_id}
use antigravity2api.Pool.Acquire.{look_up, disable_row}

-- The rows keep their ids, and the account keeps its own.
abbrev Keeps : Text → Result → Type 0
Keeps id (t, a, err) = Keyed t × (a.id ≡ id)

along : (id : Text) (p q : Result) → p ≡ q → Keeps id q → Keeps id p
along id p q e = subst (Keeps id) (sym e)

with_project-KeepsRowId : (project : Text) → KeepsRowId (with_project project)
unfolding with_project
with_project-KeepsRowId project row = refl

load_project-Keeps :
    (w : World) (row : Account) (s : Tokens)
    → Keyed s
    → lookup row.id s.rows ≡ some row
    → Keeps row.id (load_project w row s)
unfolding load_project
load_project-Keeps w row s k e = go (w.project_reply row.access_token) refl
  where
    m : Tokens
    m = edited w.during s

    km : Keyed m
    km = edited-Keyed w.during s k

    becomes :
        (r : Result)
        → load_project w row s ≡ r
        → Keeps row.id r
        → Keeps row.id (load_project w row s)
    becomes r q = subst (Keeps row.id) (sym q)

    go :
        (g : ProjectReply)
        → w.project_reply row.access_token ≡ g
        → Keeps row.id (load_project w row s)
    go g q = elim (Bool-cases w.permitted) [
      | inr out ↦ becomes (s, row, some ended) (ground (arith, out)) (k, refl)
      | inl on ↦ permitted on g q
    ]
      where
        permitted :
            w.permitted ≡ true
            → (g : ProjectReply) → w.project_reply row.access_token ≡ g
            → Keeps row.id (load_project w row s)
        permitted on (lost message) q =
            becomes (m, row, some (upstream_failed message)) (ground (arith, on, q)) (km, refl)
        permitted on (found project) q = elim (Bool-cases (is_empty (trim_space project))) [
          | inl blank ↦ becomes (m, row, some no_project) (ground (arith, on, q, blank)) (km, refl)
          | inr named ↦ elim (Option-cases (update_row w.written row.id (with_project project) m)) [
            | inl u ↦
                becomes (m, row, some database_failed) (ground (arith, on, q, named, u)) (km, refl)
            | inr (updated, u) ↦
                let update =
                  update_row-Updated w.written row.id (with_project project) m updated u in
                let t = edited w.before_reread updated in
                let keyed = edited-Keyed w.before_reread updated (
                  Updated-Keyed row.id (with_project project) m updated
                    (with_project-KeepsRowId project) km update) in
                elim (Option-cases (get_account w.reread row.id t)) [
                  | inl r ↦
                      becomes (t, row, some database_failed) (ground (arith, on, q, named, u, r))
                        (keyed, refl)
                  | inr (latest, r) ↦
                      becomes (t, latest, none) (ground (arith, on, q, named, u, r))
                        (keyed, keyed row.id latest (get_account-lookup w.reread row.id t latest r))
                ]
          ]
        ]

project_row-Keeps :
    (w : World) (row : Account) (s : Tokens)
    → Keyed s
    → lookup row.id s.rows ≡ some row
    → Keeps row.id (project_row w row s)
unfolding project_row
project_row-Keeps w row s k e =
    let from : (r : Result)
        → project_row w row s ≡ r
        → Keeps row.id r
        → Keeps row.id (project_row w row s) =
      λ r. along row.id (project_row w row s) r in
    elim (Bool-cases row.disabled) [
      | inl off ↦ from (s, row, some account_disabled) (ground (arith, off)) (k, refl)
      | inr on ↦ elim (Bool-cases (is_empty row.project_id)) [
        | inr has ↦ from (s, row, none) (ground (arith, on, has)) (k, refl)
        | inl bare ↦ elim (Bool-cases w.has_client) [
          | inr out ↦ from (s, row, some no_client) (ground (arith, on, bare, out)) (k, refl)
          | inl client ↦
              from (load_project w row s) (ground (arith, on, bare, client))
                (load_project-Keeps w row s k e)
        ]
      ]
    ]

ensure_project-Keeps :
    (w : World) (acc : Account) (s : Tokens) → Keyed s → Keeps acc.id (ensure_project w acc s)
unfolding ensure_project
ensure_project-Keeps w acc s k = elim (Bool-cases (w.entered && w.gated)) [
  | inr out ↦ becomes (s, acc, some ended) (ground (arith, out)) (k, refl)
  | inl on ↦ elim (Option-cases (get_account w.read acc.id s)) [
    | inl q ↦ becomes (s, acc, some database_failed) (ground (arith, on, q)) (k, refl)
    | inr (row, q) ↦
        let there = get_account-lookup w.read acc.id s row q in
        let own = k acc.id row there in
        let kept =
          project_row-Keeps w row s k (subst (λ id. lookup id s.rows ≡ some row) (sym own) there) in
        becomes (project_row w row s) (ground (arith, on, q))
          (subst (λ id. Keeps id (project_row w row s)) own kept)
  ]
]
  where
    becomes :
        (r : Result)
        → ensure_project w acc s ≡ r
        → Keeps acc.id r
        → Keeps acc.id (ensure_project w acc s)
    becomes r q = subst (Keeps acc.id) (sym q)

pub disable_row-Keyed :
    (works : Bool) (id : Text) (s : Tokens) → Keyed s → Keyed (disable_row works id s)
unfolding disable_row
disable_row-Keyed works id s k =
    let off : Account → Account = λ row. record row { disabled = true } in
    elim (Option-cases (update_row works id off s)) [
      | inl q ↦ subst Keyed (sym (same s (ground (arith, q)))) k
      | inr (t, q) ↦
          subst Keyed (sym (same t (ground (arith, q))))
            (Updated-Keyed id off s t (λ row. refl) k (update_row-Updated works id off s t q))
    ]
  where
    same : (t : Tokens) → disable_row works id s ≡ t → disable_row works id s ≡ t
    same t e = e

-- What is known of the account once its credentials were looked up.
abbrev pub Checked : Account → Result → Type 0
Checked a (t, b, err) =
    Keyed t × (b.id ≡ a.id) × (err ≡ none → (b.disabled ≡ false) × (is_empty b.project_id ≡ false))

pub look_up-Checked :
    (f p : World) (a : Account) (s : Tokens) → Keyed s → Checked a (look_up f p a s)
unfolding look_up
look_up-Checked f p a s k =
    go (ensure_fresh f a s) refl (ensure_fresh-Keyed f a s k, ensure_fresh-id f a s k)
  where
    from : (r : Result) → look_up f p a s ≡ r → Checked a r → Checked a (look_up f p a s)
    from r e = subst (Checked a) (sym e)

    second :
        (t : Tokens) (b : Account) (r : Result)
        → ensure_fresh f a s ≡ (t, b, none)
        → is_empty b.project_id ≡ true
        → ensure_project p b t ≡ r
        → Keyed t
        → b.id ≡ a.id
        → Keeps b.id r
        → Checked a (look_up f p a s)
    second t b (u, c, some e) q bare h kt own kept =
        from (u, c, some e) (ground (arith, q, bare, h))
          (kept.0, kept.1 ∙ own, λ n. absurd (ground (arith, n)))
    second t b (u, c, none) q bare h kt own kept =
        let project = ensure_project-project_id p b c t u kt h in
        from (u, c, if c.disabled then some account_disabled else none) (ground (arith, q, bare, h))
          (kept.0, kept.1 ∙ own, λ n. (ground (arith, n), project.0))

    go : (r : Result) → ensure_fresh f a s ≡ r → Keeps a.id r → Checked a (look_up f p a s)
    go (t, b, some e) q kept =
        from (t, b, some e) (ground (arith, q)) (kept.0, kept.1, λ n. absurd (ground (arith, n)))
    go (t, b, none) q kept = elim (Bool-cases (is_empty b.project_id)) [
      | inl bare ↦
          second t b (ensure_project p b t) q bare refl kept.0 kept.1
            (ensure_project-Keeps p b t kept.0)
      | inr has ↦
          from (t, b, if b.disabled then some account_disabled else none) (ground (arith, q, has))
            (kept.0, kept.1, λ n. (ground (arith, n), has))
    ]
