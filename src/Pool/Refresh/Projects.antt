-- ===== src/Pool/Refresh/Projects.antt =====
-- The project that an account is used with.
use antigravity2api.Base.{
  ◌≡◌, refl, sym, subst, inl, inr, false, [], ◌∷◌, none, some, Text, text_eq, is_empty, lookup,
  Option-cases, Bool-cases, arith,
}
use antigravity2api.Strings.{trim_space}
use antigravity2api.Accounts.{Account}
use antigravity2api.Pool.Refresh.{
  edited, Tokens, Result, ProjectReply, found, lost, World, get_account, update_row, with_project,
  load_project, project_row, ensure_project,
}
use antigravity2api.Pool.Refresh.Rows.{
  Keyed, get_account-lookup, update_row-Updated, reread-Follows,
}

-- Without an error the account has a project, and the table holds its row.
abbrev pub HasProject : Text → Result → Type 0
HasProject id (t, a, err) =
    err ≡ none → (is_empty a.project_id ≡ false) × (lookup id t.rows ≡ some a)

trim_space-empty : (s : Text) → is_empty (trim_space s) ≡ false → is_empty s ≡ false
unfolding trim_space
trim_space-empty [] h = h
trim_space-empty (c ∷ s) h = refl

with_project-project_id :
    (project : Text) (row : Account)
    → is_empty project ≡ false
    → is_empty (with_project project row).project_id ≡ false
unfolding with_project
with_project-project_id project row h = ground (arith, h)

load_project-HasProject :
    (w : World) (row : Account) (s : Tokens) → HasProject row.id (load_project w row s)
unfolding load_project
load_project-HasProject w row s = go (w.project_reply row.access_token) refl
  where
    go :
        (g : ProjectReply)
        → w.project_reply row.access_token ≡ g
        → HasProject row.id (load_project w row s)
    go (lost message) q = λ n. absurd (ground (arith, q, n))
    go (found project) q = λ n. elim (Bool-cases (is_empty (trim_space project))) [
      | inl blank ↦ absurd (ground (arith, q, n, blank))
      | inr named ↦
          let kept = with_project-project_id project in
          let meanwhile = edited w.during s in
          elim (Option-cases (update_row w.written row.id (with_project project) meanwhile)) [
            | inl u ↦ absurd (ground (arith, q, n, named, u))
            | inr (updated, u) ↦
                let t = edited w.before_reread updated in
                elim (Option-cases (get_account w.reread row.id t)) [
                  | inl r ↦ absurd (ground (arith, q, n, named, u, r))
                  | inr (latest, r) ↦
                      let update =
                        update_row-Updated w.written row.id (with_project project) meanwhile updated
                          u in
                      let f =
                        reread-Follows w.reread w.before_reread row.id (with_project project)
                          meanwhile updated latest update r in
                      let has = f.project (kept update.row (trim_space-empty project named)) in
                      let there = get_account-lookup w.reread row.id t latest r in
                      let is : load_project w row s ≡ (t, latest, none) =
                        ground (arith, q, n, named, u, r) in
                      subst (HasProject row.id) (sym is) (λ z. (has, there)) n
                ]
          ]
    ]

project_row-HasProject :
    (w : World) (row : Account) (s : Tokens)
    → lookup row.id s.rows ≡ some row
    → HasProject row.id (project_row w row s)
unfolding project_row
project_row-HasProject w row s e = λ n. elim (Bool-cases row.disabled) [
  | inl off ↦ absurd (ground (arith, n, off))
  | inr on ↦ elim (Bool-cases (is_empty row.project_id)) [
    | inr has ↦ ground (arith, on, has, e)
    | inl bare ↦ elim (Bool-cases w.has_client) [
      | inr lacks ↦ absurd (ground (arith, n, on, bare, lacks))
      | inl client ↦
          let is : project_row w row s ≡ load_project w row s = ground (arith, on, bare, client) in
          subst (HasProject row.id) (sym is) (load_project-HasProject w row s) n
    ]
  ]
]

project_row_enabled :
    (w : World) (row a : Account) (s t : Tokens)
    → project_row w row s ≡ (t, a, none)
    → row.disabled ≡ false
unfolding project_row
project_row_enabled w row a s t e = ground (arith, e)

-- When ensureProject, on a table that keeps its rows under their ids, reports no error, whatever
-- others change meanwhile, the account has a project, it is the row as the table holds it in the end, and the row was not disabled when it was read
-- under the gate.
pub ensure_project-project_id :
    (w : World) (acc a : Account) (s t : Tokens)
    → Keyed s
    → ensure_project w acc s ≡ (t, a, none)
    → (is_empty a.project_id ≡ false)
      × (lookup acc.id t.rows ≡ some a)
      × ((row : Account) × (lookup acc.id s.rows ≡ some row) × (row.disabled ≡ false))
unfolding ensure_project
ensure_project-project_id w acc a s t k e = elim (Option-cases (get_account w.read acc.id s)) [
  | inl q ↦ absurd (ground (arith, e, q))
  | inr (row, q) ↦
      let there = get_account-lookup w.read acc.id s row q in
      let own = k acc.id row there in
      let is : project_row w row s ≡ (t, a, none) = ground (arith, e, q) in
      let has : HasProject row.id (t, a, none) = subst (HasProject row.id) is (
        project_row-HasProject w row s
          (subst (λ id. lookup id s.rows ≡ some row) (sym own) there)) in
      (
        (has refl).0,
        subst (λ id. lookup id t.rows ≡ some a) own (has refl).1,
        (row, there, project_row_enabled w row a s t is),
      )
]
