-- ===== src/Pool/View/Laws.antt =====
-- The cache of model views is transparent.
use antigravity2api.Base.{
  ◌≡◌, inl, inr, List, [], map, some, Text, text_eq, text_beq_iff, lookup, insert, ◌==◌,
  lookup-insert, length, leb, Bool-cases, Option-cases, arith,
}
use antigravity2api.Accounts.{Account}
use antigravity2api.Pool.State.{Pool, ModelCandidate, max_views}
use antigravity2api.Pool.View.{model_name, candidate_for, remember_view, model_view}

-- Each cached view is what the accounts give.
abbrev pub Coherent : List Account → List (Text × List ModelCandidate) → Type 0
Coherent accounts views =
    (name : Text) (view : List ModelCandidate)
    → lookup name views ≡ some view
    → view ≡ map (candidate_for name) accounts

module _ (accounts : List Account) where
  insert-Coherent :
      (name : Text) (views : List (Text × List ModelCandidate))
      → Coherent accounts views
      → Coherent accounts (insert name (map (candidate_for name) accounts) views)
  insert-Coherent name views c j view m =
      let fresh = map (candidate_for name) accounts in
      let at = rw (lookup-insert name j fresh views) at m in
      elim (Bool-cases (name == j)) [
        | inl here ↦
            let same : name ≡ j = (text_beq_iff name j).0 here in
            let found : some fresh ≡ some view = rw here at at in
            rw (← same) (ground (arith, found))
        | inr there ↦ c j view (rw there at at)
      ]

  pub no_views-Coherent : Coherent accounts []
  unfolding lookup
  no_views-Coherent name view m = absurd (cc)

  pub remember_view-Coherent :
      (name : Text) (views : List (Text × List ModelCandidate))
      → Coherent accounts views
      → Coherent accounts (remember_view name (map (candidate_for name) accounts) views)
  unfolding remember_view
  remember_view-Coherent name views h = elim (Bool-cases (leb max_views (length views))) [
    | inl full ↦ rw full (insert-Coherent name [] no_views-Coherent)
    | inr room ↦ rw room (insert-Coherent name views h)
  ]

pub model_view-Coherent :
    (model : Text) (p : Pool)
    → Coherent p.accounts p.model_views
    → Coherent p.accounts (model_view model p).0.model_views
unfolding model_view
model_view-Coherent model p h = elim (Option-cases (lookup (model_name model) p.model_views)) [
  | inl e ↦
      rw (e, model_view) (remember_view-Coherent p.accounts (model_name model) p.model_views h)
  | inr (view, e) ↦ rw (e, model_view) h
]

-- A coherent cache gives what the accounts would give.
pub model_view_lem :
    (model : Text) (p : Pool)
    → Coherent p.accounts p.model_views
    → (model_view model p).1 ≡ map (candidate_for (model_name model)) p.accounts
unfolding model_view
model_view_lem model p h = elim (Option-cases (lookup (model_name model) p.model_views)) [
  | inl e ↦ rw (e, model_view)
  | inr (view, e) ↦ rw (e, model_view) (h (model_name model) view e)
]
