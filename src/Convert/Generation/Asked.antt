-- ===== src/Convert/Generation/Asked.antt =====
-- The budget of thoughts that a client asks normalizeGenerationConfig for, up to the clamps, and the
-- bounds on the budgets that the code chooses itself.
use antigravity2api.Base.{
  ℕ, ◌≤◌, ◌^◌, ◌-◌, ◌/◌, ◌≡◌, refl, sym, ap, subst, ◌∙◌, Bool, true, false, ◌&&◌, ◌||◌, List, [],
  ◌∷◌, some, Text, text_beq, text_eq, lookup, leb, ltb, ℤ, pos, exceeds, is_empty, Bool-cases,
  Option-cases, inl, inr, arith, if◌then◌else◌,
}
use antigravity2api.Strings.{codes, to_lower}
use antigravity2api.Json.{
  Json, Fields, get, set, remove, is_set, fields_or_empty, as_fields, null, bool, num, str, arr,
  obj,
}
use antigravity2api.Json.Laws.{get-set, get-set_other, get-remove_other}
use antigravity2api.Convert.Values.{int_val, text_of}
use antigravity2api.Convert.Usage.{int_json}
use antigravity2api.Convert.Catalog.{
  calibrated_budgets, family_budget, default_thinking_budget, contains,
}
use antigravity2api.Convert.Generation.{
  drop_penalties, penalties, set_default, with_samples, thinking_budget_from_level, read_level,
  cap_budget, is_claude, is_zero_penalty, to_upper,
}

-- The budget in a generationConfig, 0 if there is none.
unfoldable pub asked_budget : Json → ℤ
unfolding fields_or_empty get int_val
asked_budget gen = int_val (
    get (codes "thinkingBudget")
      (fields_or_empty (get (codes "thinkingConfig") (fields_or_empty gen))))

-- What holds of both branches.
if-both {ℓ m} :
    {A : Type ℓ} (P : A → Type m) (c : Bool) (a b : A) → P a → P b → P (if c then a else b)
if-both P true a b p q = p
if-both P false a b p q = q

abbrev values_le : ℕ → List (Text × ℕ) → Bool
values_le bound [] = true
values_le bound ((k, v) ∷ m) = leb v bound && values_le bound m

lookup-le :
    (bound : ℕ) (k : Text) (v : ℕ) (m : List (Text × ℕ))
    → values_le bound m ≡ true
    → lookup k m ≡ some v
    → v ≤ bound
unfolding lookup
lookup-le bound k v [] all e = absurd (ground (arith, e))
lookup-le bound k v ((j, w) ∷ m) all e = ground (arith, all, e, lookup-le bound k v m)

calibrated_le : values_le 49152 calibrated_budgets ≡ true
unfolding calibrated_budgets
calibrated_le = refl

family_budget-le : (m : Text) → family_budget m ≤ 49152
unfolding family_budget
family_budget-le m = ground arith

default_thinking_budget-le : (model : Text) → default_thinking_budget model ≤ 49152
unfolding default_thinking_budget
default_thinking_budget-le model =
    elim (Option-cases (lookup (to_lower model) calibrated_budgets)) [
      | inl q ↦ ground (arith, q, family_budget-le (to_lower model))
      | inr (v, q) ↦
          ground (arith, q, lookup-le 49152 (to_lower model) v calibrated_budgets calibrated_le q)
    ]

pub cap_budget-le : (model : Text) → cap_budget model ≤ 65536
unfolding cap_budget
cap_budget-le model =
    let low : default_thinking_budget model ≤ 65536 =
      omega (arith, default_thinking_budget-le model) in
    if-both (λ n. n ≤ 65536) _ 32768 (default_thinking_budget model) (omega arith) low

nested-le :
    (most : ℕ) (off low high : Bool)
    → most ≤ 49152
    → (if off
        then 0
        else (if low
            then (if ltb 4096 (most / 4) then most / 4 else 4096)
            else (if high then most else (if ltb 8192 (most / 2) then most / 2 else 8192))))
      ≤ 65536
nested-le most off low high h = ground (arith, h)

thinking_budget_from_level-le :
    (model level : Text) → thinking_budget_from_level model level ≤ 65536
unfolding thinking_budget_from_level
thinking_budget_from_level-le model level =
    let l = to_upper level in
    nested-le (default_thinking_budget model) (text_beq l (codes "NONE")) (text_beq l (codes "LOW"))
      (text_beq l (codes "HIGH")) (default_thinking_budget-le model)

drop_penalties-get :
    (keys : List Text) (other : Text) (m : Fields)
    → contains keys other ≡ false
    → get other (drop_penalties keys m) ≡ get other m
unfolding drop_penalties contains
drop_penalties-get [] other m h = refl
drop_penalties-get (key ∷ keys) other m h = elim (Bool-cases (is_zero_penalty (get key m))) [
  | inl zero_at ↦ ground (
    arith,
    h,
    zero_at,
    drop_penalties-get keys other (remove key m),
    get-remove_other key other m,
  )
  | inr kept ↦ ground (arith, h, kept, drop_penalties-get keys other m)
]

set_default-get :
    (key other : Text) (v : Json) (m : Fields)
    → text_beq key other ≡ false
    → get other (set_default key v m) ≡ get other m
unfolding set_default
set_default-get key other v m h = ground (arith, get-set_other key other v m h)

-- The defaults and the penalties leave the thinkingConfig as it is.
pub sampled-get :
    (gen : Json)
    → get (codes "thinkingConfig") (with_samples (drop_penalties penalties (fields_or_empty gen)))
      ≡ get (codes "thinkingConfig") (fields_or_empty gen)
unfolding with_samples contains text_beq
sampled-get gen =
    let gc = drop_penalties penalties (fields_or_empty gen) in
    let with_k = set_default (codes "topK") (int_json (pos 40)) gc in
    set_default-get (codes "topP") (codes "thinkingConfig") (int_json (pos 1)) with_k refl
    ∙ set_default-get (codes "topK") (codes "thinkingConfig") (int_json (pos 40)) gc refl
    ∙ drop_penalties-get penalties (codes "thinkingConfig") (fields_or_empty gen) refl

fields-some : (j : Json) (m : Fields) → as_fields j ≡ some m → fields_or_empty j ≡ m
unfolding as_fields fields_or_empty
fields-some (obj fs) m e = ground (arith, e)
fields-some (arr xs) m e = absurd (ground (arith, e))
fields-some (str s) m e = absurd (ground (arith, e))
fields-some (num n) m e = absurd (ground (arith, e))
fields-some (bool b) m e = absurd (ground (arith, e))
fields-some null m e = absurd (ground (arith, e))

-- The budget that is asked for stands in the thinkingConfig that is read.
pub asked_budget-given :
    (gen : Json) (given : Fields)
    → as_fields (
        get
          (codes "thinkingConfig")
          (with_samples (drop_penalties penalties (fields_or_empty gen))))
      ≡ some given
    → asked_budget gen ≡ int_val (get (codes "thinkingBudget") given)
unfolding asked_budget
asked_budget-given gen given e =
    ap (λ (m : Fields). int_val (get (codes "thinkingBudget") m))
      (fields-some (get (codes "thinkingConfig") (fields_or_empty gen)) given
        (ap as_fields (sym (sampled-get gen)) ∙ e))

-- A level in place of a budget is far from the end of int64, and no level changes a budget.
pub read_level-budget :
    (model : Text) (given : Fields)
    → exceeds (pos (2 ^ 63 - 8192)) (int_val (get (codes "thinkingBudget") given)) ≡ true
    → exceeds
        (pos (2 ^ 63 - 8192))
        (int_val (get (codes "thinkingBudget") (read_level model given)))
      ≡ true
unfolding read_level int_val text_beq
read_level-budget model given near =
    let level = text_of (codes "thinkingLevel") given in
    let rest = remove (codes "thinkingLevel") given in
    let chosen = thinking_budget_from_level model level in
    let same : get (codes "thinkingBudget") rest ≡ get (codes "thinkingBudget") given =
      get-remove_other (codes "thinkingLevel") (codes "thinkingBudget") given refl in
    let told : int_val
          (get (codes "thinkingBudget") (set (codes "thinkingBudget") (int_json (pos chosen)) rest))
        ≡ pos chosen =
      ap int_val (get-set (codes "thinkingBudget") (int_json (pos chosen)) rest) in
    let Q : Fields → Type 0 =
      λ tc. exceeds (pos (2 ^ 63 - 8192)) (int_val (get (codes "thinkingBudget") tc)) ≡ true in
    let near_rest : Q rest =
      subst (λ j. exceeds (pos (2 ^ 63 - 8192)) (int_val j) ≡ true) (sym same) near in
    let put : Q (set (codes "thinkingBudget") (int_json (pos chosen)) rest) =
      subst (λ i. exceeds (pos (2 ^ 63 - 8192)) i ≡ true) (sym told)
        (small chosen (thinking_budget_from_level-le model level)) in
    if-both Q (is_empty level || is_claude model) given
      (if is_set (get (codes "thinkingBudget") rest)
        then rest
        else set (codes "thinkingBudget") (int_json (pos chosen)) rest)
      near
      (if-both Q (is_set (get (codes "thinkingBudget") rest)) rest
        (set (codes "thinkingBudget") (int_json (pos chosen)) rest) near_rest put)
  where
    small : (n : ℕ) → n ≤ 65536 → exceeds (pos (2 ^ 63 - 8192)) (pos n) ≡ true
    small n h = ground (arith, h)
