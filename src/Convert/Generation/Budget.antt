-- ===== src/Convert/Generation/Budget.antt =====
-- The tokens that the upstream is told of fit the model and the budget of thoughts.
use antigravity2api.Base.{
  ◌^◌, ◌-◌, ℕ, ◌≤◌, ◌<◌, ◌≡◌, refl, sym, ap, subst, ◌∙◌, Bool, true, false, ◌&&◌, ◌||◌, not, Option,
  none, some, Text, text_beq, ltb, ℤ, pos, negsuc, positive, exceeds, Bool-cases, inl, inr, arith,
}
use antigravity2api.Strings.{codes}
use antigravity2api.Json.{Json, obj, Fields, get, has, set, fields_or_empty, as_fields}
use antigravity2api.Json.Laws.{get-set, get-set_other}
use antigravity2api.Convert.Values.{int_val}
use antigravity2api.Convert.Usage.{int_json}
use antigravity2api.Convert.Catalog.{max_output_tokens}
use antigravity2api.Convert.Generation.Asked.{
  asked_budget, asked_budget-given, cap_budget-le, read_level-budget,
}
use antigravity2api.Convert.Generation.{
  drop_penalties, penalties, read_level, cap_budget, fit_budget, first_max, fit_thinking,
  with_samples, normalize_generation_config, wrapped,
}

-- A thinkingConfig leaves tokens for the answer, and keeps to the cap if there is one.
abbrev pub budget_fits : ℕ → ℤ → Option Fields → Bool
budget_fits cap m none = true
budget_fits cap m (some tc) =
    let b = int_val (get (codes "thinkingBudget") tc) in
    not (has (codes "thinkingBudget") tc)
    || (exceeds m b && (not (ltb 0 cap) || not (exceeds b (pos cap))))

-- The number of tokens is positive and one that the model can write.
abbrev pub tokens_fit : Text → Fields → Bool
tokens_fit model gc =
    let m = int_val (get (codes "maxOutputTokens") gc) in
    positive m
    && not (exceeds m (pos (max_output_tokens model)))
    && budget_fits (cap_budget model) m (as_fields (get (codes "thinkingConfig") gc))

max_output_tokens-le : (model : Text) → 16384 ≤ max_output_tokens model
unfolding max_output_tokens
max_output_tokens-le model = ground arith

first_max-bounds :
    (model : Text) (gc : Fields)
    → (0 < first_max model gc) × (first_max model gc ≤ max_output_tokens model)
unfolding first_max
first_max-bounds model gc = go (int_val (get (codes "maxOutputTokens") gc)) refl
  where
    go :
        (i : ℤ)
        → int_val (get (codes "maxOutputTokens") gc) ≡ i
        → (0 < first_max model gc) × (first_max model gc ≤ max_output_tokens model)
    go (pos n) e = ground (arith, e, max_output_tokens-le model)
    go (negsuc n) e = ground (arith, e, max_output_tokens-le model)

positive-pos : (n : ℕ) → 0 < n → positive (pos n) ≡ true
positive-pos n h = ground (arith, h)

exceeds-pos : (m n : ℕ) → m ≤ n → exceeds (pos m) (pos n) ≡ false
exceeds-pos m n h = ground (arith, h)

or-map : (a b c : Bool) → (b ≡ true → c ≡ true) → (a || b) ≡ true → (a || c) ≡ true
or-map true b c f h = refl
or-map false b c f h = f h

-- A budget that is capped, or far enough from the end of int64.
abbrev pub in_range : ℕ → ℤ → Bool
in_range cap budget = ltb 0 cap || exceeds (pos (2 ^ 63 - 8192)) budget

fit_budget-fits :
    (cap model_max max_tokens : ℕ) (budget : ℤ)
    → 16384 ≤ model_max
    → 0 < max_tokens
    → max_tokens ≤ model_max
    → cap ≤ 65536
    → in_range cap budget ≡ true
    → let (b, m) = fit_budget cap model_max budget max_tokens in
      (positive m ≡ true)
      × (exceeds m (pos model_max) ≡ false)
      × (exceeds m b ≡ true)
      × ((not (ltb 0 cap) || not (exceeds b (pos cap))) ≡ true)
unfolding fit_budget wrapped
fit_budget-fits cap model_max max_tokens (pos n) big some_tokens fits low near =
    ground (arith, big, some_tokens, fits, low, near)
fit_budget-fits cap model_max max_tokens (negsuc n) big some_tokens fits low near =
    ground (arith, big, some_tokens, fits, low, near)

read_after : (key : Text) (j : ℤ) (m : Fields) → int_val (get key (set key (int_json j) m)) ≡ j
unfolding int_val
read_after key j m = ap int_val (get-set key (int_json j) m)

-- What is told, from the number of tokens and the thinkingConfig.
fits_when :
    (model : Text) (gc : Fields) (m : ℤ) (tc : Option Fields)
    → int_val (get (codes "maxOutputTokens") gc) ≡ m
    → as_fields (get (codes "thinkingConfig") gc) ≡ tc
    → positive m ≡ true
    → exceeds m (pos (max_output_tokens model)) ≡ false
    → budget_fits (cap_budget model) m tc ≡ true
    → tokens_fit model gc ≡ true
fits_when model gc m tc e q some_tokens fits b =
    let told : budget_fits (cap_budget model) (int_val (get (codes "maxOutputTokens") gc))
          (as_fields (get (codes "thinkingConfig") gc))
        ≡ true =
      subst
        (λ i. budget_fits (cap_budget model) i (as_fields (get (codes "thinkingConfig") gc)) ≡ true)
        (sym e) (subst (λ o. budget_fits (cap_budget model) m o ≡ true) (sym q) b) in
    ground (arith, e, some_tokens, fits, told)

as_obj : (m : Fields) → as_fields (obj m) ≡ some m
unfolding as_fields
as_obj m = refl

-- A thinkingConfig with a number of tokens.
abbrev Fitted : Text → Fields × ℤ → Type 0
Fitted model (tc, m) =
    (positive m ≡ true)
    × (exceeds m (pos (max_output_tokens model)) ≡ false)
    × (budget_fits (cap_budget model) m (some tc) ≡ true)

without-Fitted :
    (model : Text) (tc : Fields) (max_tokens : ℕ)
    → 0 < max_tokens
    → max_tokens ≤ max_output_tokens model
    → has (codes "thinkingBudget") tc ≡ false
    → Fitted model (tc, pos max_tokens)
without-Fitted model tc max_tokens some_tokens fits none_given =
    (ground (arith, some_tokens), ground (arith, fits), ground (arith, none_given))

budgeted-Fitted :
    (model : Text) (tc : Fields) (b m : ℤ)
    → int_val (get (codes "thinkingBudget") tc) ≡ b
    → positive m ≡ true
    → exceeds m (pos (max_output_tokens model)) ≡ false
    → exceeds m b ≡ true
    → (not (ltb 0 (cap_budget model)) || not (exceeds b (pos (cap_budget model)))) ≡ true
    → Fitted model (tc, m)
budgeted-Fitted model tc b m e some_tokens fits above capped =
    (some_tokens, fits, ground (arith, e, above, capped))

fit_thinking-Fitted :
    (model : Text) (max_tokens : ℕ) (given : Fields)
    → 0 < max_tokens
    → max_tokens ≤ max_output_tokens model
    → in_range (cap_budget model) (int_val (get (codes "thinkingBudget") given)) ≡ true
    → Fitted model (fit_thinking model max_tokens given)
unfolding fit_thinking
fit_thinking-Fitted model max_tokens given some_tokens fits near =
    let tc = read_level model given in
    let asked = int_val (get (codes "thinkingBudget") tc) in
    let (b, m) = fit_budget (cap_budget model) (max_output_tokens model) asked max_tokens in
    let still : in_range (cap_budget model) asked ≡ true =
      or-map (ltb 0 (cap_budget model)) _ _ (read_level-budget model given) near in
    let facts =
      fit_budget-fits (cap_budget model) (max_output_tokens model) max_tokens asked
        (max_output_tokens-le model) some_tokens fits (cap_budget-le model) still in
    elim (Bool-cases (has (codes "thinkingBudget") tc)) [
      | inr without ↦
          let is : fit_thinking model max_tokens given ≡ (tc, pos max_tokens) =
            ground (arith, without) in
          subst (Fitted model) (sym is)
            (without-Fitted model tc max_tokens some_tokens fits without)
      | inl budgeted ↦
          let told = set (codes "thinkingBudget") (int_json b) tc in
          let is : fit_thinking model max_tokens given ≡ (told, m) = ground (arith, budgeted) in
          subst (Fitted model) (sym is) (
            budgeted-Fitted model told b m (read_after (codes "thinkingBudget") b tc) facts.0
              facts.1 facts.2 facts.3)
    ]

-- The configuration after the penalties and the samples.
abbrev sampled_of : Json → Fields
sampled_of gen = with_samples (drop_penalties penalties (fields_or_empty gen))

normalize-without :
    (model : Text) (gen : Json)
    → as_fields (get (codes "thinkingConfig") (sampled_of gen)) ≡ none
    → normalize_generation_config model gen false
      ≡ set
          (codes "maxOutputTokens")
          (int_json (pos (first_max model (sampled_of gen))))
          (sampled_of gen)
unfolding normalize_generation_config
normalize-without model gen e = ground (arith, e)

normalize-with :
    (model : Text) (gen : Json) (given : Fields)
    → as_fields (get (codes "thinkingConfig") (sampled_of gen)) ≡ some given
    → let (tc, m) = fit_thinking model (first_max model (sampled_of gen)) given in
      normalize_generation_config model gen false
      ≡ set
          (codes "maxOutputTokens")
          (int_json m)
          (set (codes "thinkingConfig") (obj tc) (sampled_of gen))
unfolding normalize_generation_config
normalize-with model gen given e = ground (arith, e)

-- For a request that is not for an image, to a model that has a cap on the budget or with a budget
-- that is more than 8192 below the end of int64 (or absent): the request tells a positive number of
-- tokens that the model can write, and a thinkingBudget, if there is one, is below that number and
-- keeps to the model's cap, if there is one.
pub normalize_generation_config-tokens_fit :
    (model : Text) (gen : Json)
    → in_range (cap_budget model) (asked_budget gen) ≡ true
    → tokens_fit model (normalize_generation_config model gen false) ≡ true
unfolding normalize_generation_config text_beq
normalize_generation_config-tokens_fit model gen near =
    go (as_fields (get (codes "thinkingConfig") sampled)) refl
  where
    sampled : Fields
    sampled = with_samples (drop_penalties penalties (fields_or_empty gen))

    first : ℕ
    first = first_max model sampled

    bounds : (0 < first) × (first ≤ max_output_tokens model)
    bounds = first_max-bounds model sampled

    out : Fields
    out = normalize_generation_config model gen false

    go :
        (tc : Option Fields)
        → as_fields (get (codes "thinkingConfig") sampled) ≡ tc
        → tokens_fit model out ≡ true
    go none e =
        let is : out ≡ set (codes "maxOutputTokens") (int_json (pos first)) sampled =
          normalize-without model gen e in
        fits_when model out (pos first) none
          (ap (λ gc. int_val (get (codes "maxOutputTokens") gc)) is
            ∙ read_after (codes "maxOutputTokens") (pos first) sampled)
          (ap (λ gc. as_fields (get (codes "thinkingConfig") gc)) is
            ∙ ap as_fields (
                get-set_other (codes "maxOutputTokens") (codes "thinkingConfig")
                  (int_json (pos first)) sampled refl)
            ∙ e)
          (positive-pos first bounds.0) (exceeds-pos first (max_output_tokens model) bounds.1) refl
    go (some given) e =
        let fitted = fit_thinking model first given in
        let inner = set (codes "thinkingConfig") (obj fitted.0) sampled in
        let is : out ≡ set (codes "maxOutputTokens") (int_json fitted.1) inner =
          normalize-with model gen given e in
        let asked : in_range (cap_budget model) (int_val (get (codes "thinkingBudget") given))
            ≡ true =
          subst (λ b. in_range (cap_budget model) b ≡ true) (asked_budget-given gen given e) near in
        let facts = fit_thinking-Fitted model first given bounds.0 bounds.1 asked in
        fits_when model out fitted.1 (some fitted.0)
          (ap (λ gc. int_val (get (codes "maxOutputTokens") gc)) is
            ∙ read_after (codes "maxOutputTokens") fitted.1 inner)
          (ap (λ gc. as_fields (get (codes "thinkingConfig") gc)) is
            ∙ ap as_fields (
                get-set_other (codes "maxOutputTokens") (codes "thinkingConfig") (int_json fitted.1)
                  inner refl)
            ∙ ap as_fields (get-set (codes "thinkingConfig") (obj fitted.0) sampled)
            ∙ as_obj fitted.0)
          facts.0 facts.1 facts.2
