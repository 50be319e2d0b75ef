-- ===== src/Store/Edits/Laws.antt =====
-- What a row keeps through the changes of others: its id, its tokens, and a project that it has.
use antigravity2api.Base.{
  ◌≡◌, refl, sym, subst, ◌∙◌, false, List, [], ◌∷◌, some, Text, text_eq, text_beq, text_beq_iff,
  is_empty, lookup, lookup-insert, lookup-delete, Option-cases, Bool-cases, inl, inr, arith,
}
use antigravity2api.Accounts.{Account}
use antigravity2api.Store.Edits.{
  Change, disabled_to, limited_until, project_and_quota, forbidden, used_at, Edit, changes, removes,
  apply_change, edit_row, edit_rows,
}

-- The later row has the credentials of the former, and a project if that had one.
pub record Follows (former later : Account) : Type 0 where
  pub id : later.id ≡ former.id
  pub access : later.access_token ≡ former.access_token
  pub expiry : later.expiry_timestamp ≡ former.expiry_timestamp
  pub refresh : later.refresh_token ≡ former.refresh_token
  pub project : is_empty former.project_id ≡ false → is_empty later.project_id ≡ false

Follows-self : (a : Account) → Follows a a
Follows-self a = record {
  id = refl;
  access = refl;
  expiry = refl;
  refresh = refl;
  project = λ h. h;
}

Follows-trans : (a b c : Account) → Follows a b → Follows b c → Follows a c
Follows-trans a b c f g = record {
  id = g.id ∙ f.id;
  access = g.access ∙ f.access;
  expiry = g.expiry ∙ f.expiry;
  refresh = g.refresh ∙ f.refresh;
  project = λ h. g.project (f.project h);
}

apply_change-Follows : (change : Change) (row : Account) → Follows row (apply_change change row)
unfolding apply_change
apply_change-Follows (disabled_to off) row = record {
  id = refl;
  access = refl;
  expiry = refl;
  refresh = refl;
  project = λ h. h;
}
apply_change-Follows (limited_until until) row = record {
  id = refl;
  access = refl;
  expiry = refl;
  refresh = refl;
  project = λ h. h;
}
apply_change-Follows (project_and_quota project quota) row = record {
  id = refl;
  access = refl;
  expiry = refl;
  refresh = refl;
  project = λ h. ground (arith, h);
}
apply_change-Follows forbidden row = record {
  id = refl;
  access = refl;
  expiry = refl;
  refresh = refl;
  project = λ h. h;
}
apply_change-Follows (used_at now) row = record {
  id = refl;
  access = refl;
  expiry = refl;
  refresh = refl;
  project = λ h. h;
}

-- What stood under an id before the changes, if there is a row after them.
abbrev Former : Text → List (Text × Account) → Account → Type 0
Former id rows later = (former : Account) × (lookup id rows ≡ some former) × Follows former later

edit_row-Former :
    (e : Edit) (id : Text) (rows : List (Text × Account)) (later : Account)
    → lookup id (edit_row e rows) ≡ some later
    → Former id rows later
unfolding edit_row
edit_row-Former (removes gone) id rows later h =
    (later, ground (arith, h, lookup-delete gone id rows), Follows-self later)
edit_row-Former (changes target change) id rows later h = elim (Option-cases (lookup target rows)) [
  | inl absent ↦ (later, ground (arith, h, absent), Follows-self later)
  | inr (row, there) ↦ elim (Bool-cases (text_beq target id)) [
    | inr other ↦ (
      later,
      ground (arith, h, there, other, lookup-insert target id (apply_change change row) rows),
      Follows-self later,
    )
    | inl this ↦
        let same : target ≡ id = (text_beq_iff target id).0 this in
        let is : later ≡ apply_change change row =
          ground (arith, h, there, this, lookup-insert target id (apply_change change row) rows) in
        (
          row,
          subst (λ j. lookup j rows ≡ some row) same there,
          subst (Follows row) (sym is) (apply_change-Follows change row),
        )
  ]
]

pub edit_rows-Former :
    (edits : List Edit) (id : Text) (rows : List (Text × Account)) (later : Account)
    → lookup id (edit_rows edits rows) ≡ some later
    → Former id rows later
unfolding edit_rows
edit_rows-Former [] id rows later h = (later, h, Follows-self later)
edit_rows-Former (e ∷ edits) id rows later h =
    let (middle, there, f) = edit_rows-Former edits id (edit_row e rows) later h in
    let (former, here, g) = edit_row-Former e id rows middle there in
    (former, here, Follows-trans former middle later g f)
