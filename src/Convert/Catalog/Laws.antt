-- ===== src/Convert/Catalog/Laws.antt =====
-- Which model a request is served by.
use antigravity2api.Base.{◌≡◌, refl, [], ◌∷◌}
use antigravity2api.Strings.{codes}
use antigravity2api.Convert.Catalog.{map_model, rewrite_to_available, default_thinking_budget}

map_runs : map_model (codes " models/GPT-4o ") ≡ codes "gemini-2.5-flash"
unfolding map_model
map_runs = refl

rewrite_runs :
    rewrite_to_available (codes "gemini-3-pro-low") (codes "x" ∷ codes "Gemini-3-Pro" ∷ []) []
    ≡ codes "Gemini-3-Pro"
unfolding rewrite_to_available
rewrite_runs = refl

budget_runs : default_thinking_budget (codes "gemini-2.5-pro") ≡ 32768
unfolding default_thinking_budget
budget_runs = refl
