-- ===== src/Convert/Catalog.antt =====
-- server/internal/convert/models.go: the table of model aliases, and the choice of a model that an
-- account really has.
pub mod Laws
use antigravity2api.Base.{
  ℕ, Bool, true, false, ◌&&◌, ◌||◌, not, List, [], ◌∷◌, Option, none, some, Text, text_beq, text_eq,
  lookup, insert, is_empty, if◌then◌else◌,
}
use antigravity2api.Strings.{
  codes, trim_space, trim_prefix, to_lower, contains as contains_text, or_else,
}

-- The prefix "models/".
abbrev pub models_prefix : Text
models_prefix = codes "models/"

unfoldable pub model_map : List (Text × Text)
model_map =
    (codes "gpt-4", codes "gemini-2.5-flash")
    ∷ (codes "gpt-4-turbo", codes "gemini-2.5-flash")
    ∷ (codes "gpt-4o", codes "gemini-2.5-flash")
    ∷ (codes "gpt-4o-mini", codes "gemini-2.5-flash")
    ∷ (codes "gpt-3.5-turbo", codes "gemini-2.5-flash")
    ∷ (codes "o1", codes "gemini-3.1-pro-preview")
    ∷ (codes "o3", codes "gemini-3.1-pro-preview")
    ∷ (codes "o4-mini", codes "gemini-3-flash")
    ∷ (codes "claude-3-5-sonnet", codes "claude-sonnet-4-6")
    ∷ (codes "claude-3-5-sonnet-20241022", codes "claude-sonnet-4-6")
    ∷ (codes "claude-3-7-sonnet", codes "claude-sonnet-4-6")
    ∷ (codes "claude-sonnet-4", codes "claude-sonnet-4-6")
    ∷ (codes "claude-sonnet-4-5", codes "claude-sonnet-4-6")
    ∷ (codes "claude-sonnet-4-5-thinking", codes "claude-sonnet-4-6-thinking")
    ∷ (codes "claude-sonnet-4-6", codes "claude-sonnet-4-6")
    ∷ (codes "claude-sonnet-4-6-thinking", codes "claude-sonnet-4-6-thinking")
    ∷ (codes "claude-opus-4", codes "claude-opus-4-6-thinking")
    ∷ (codes "claude-opus-4-5", codes "claude-opus-4-6-thinking")
    ∷ (codes "claude-opus-4-5-thinking", codes "claude-opus-4-6-thinking")
    ∷ (codes "claude-opus-4-6", codes "claude-opus-4-6-thinking")
    ∷ (codes "claude-opus-4-6-thinking", codes "claude-opus-4-6-thinking")
    ∷ (codes "claude-haiku-4", codes "claude-sonnet-4-6")
    ∷ (codes "gemini-2.5-flash-lite", codes "gemini-2.5-flash")
    ∷ (codes "gemini-2.5-flash", codes "gemini-2.5-flash")
    ∷ (codes "gemini-2.5-pro", codes "gemini-2.5-pro")
    ∷ (codes "gemini-3-flash", codes "gemini-3-flash")
    ∷ (codes "gemini-3.5-flash", codes "gemini-3.5-flash")
    ∷ (codes "gemini-3.7-flash", codes "gemini-3.7-flash")
    ∷ (codes "gemini-3-pro", codes "gemini-3-pro-preview")
    ∷ (codes "gemini-3-pro-preview", codes "gemini-3-pro-preview")
    ∷ (codes "gemini-3.1-pro", codes "gemini-3.1-pro-preview")
    ∷ (codes "gemini-3.1-pro-preview", codes "gemini-3.1-pro-preview")
    ∷ (codes "gemini-3-pro-image", codes "gemini-3-pro-image")
    ∷ (codes "gpt-4-turbo-preview", codes "gemini-2.5-flash")
    ∷ (codes "gpt-4-0125-preview", codes "gemini-2.5-flash")
    ∷ (codes "gpt-4-1106-preview", codes "gemini-2.5-flash")
    ∷ (codes "gpt-4-0613", codes "gemini-2.5-flash")
    ∷ (codes "gpt-4o-2024-05-13", codes "gemini-2.5-flash")
    ∷ (codes "gpt-4o-2024-08-06", codes "gemini-2.5-flash")
    ∷ (codes "gpt-4o-mini-2024-07-18", codes "gemini-2.5-flash")
    ∷ (codes "claude-sonnet-4-5-20250929", codes "claude-sonnet-4-6-thinking")
    ∷ (codes "claude-3-5-sonnet-20240620", codes "claude-sonnet-4-6")
    ∷ (codes "claude-opus-4-5-20251101", codes "claude-opus-4-6-thinking")
    ∷ (codes "claude-opus-4-6-20260201", codes "claude-opus-4-6-thinking")
    ∷ (codes "claude-opus-4.6", codes "claude-opus-4-6-thinking")
    ∷ (codes "claude-opus-4.6-thinking", codes "claude-opus-4-6-thinking")
    ∷ (codes "claude-3-haiku-20240307", codes "claude-sonnet-4-6")
    ∷ (codes "claude-haiku-4-5-20251001", codes "claude-sonnet-4-6")
    ∷ (codes "gemini-3-flash-preview", codes "gemini-3-flash")
    ∷ (codes "gemini-3-pro-image-preview", codes "gemini-3-pro-image")
    ∷ []

-- MapModel
unfoldable pub map_model : Text → Text
unfolding model_map lookup text_beq trim_space trim_prefix to_lower
map_model input =
    let name : Text = trim_prefix (trim_space input) models_prefix in
    if text_beq name []
    then codes "gemini-2.5-flash"
    else or_else (lookup name model_map) (or_else (lookup (to_lower name) model_map) name)

-- contains
unfoldable pub contains : List Text → Text → Bool
unfolding text_beq
contains [] v = false
contains (item ∷ list) v = text_beq item v || contains list v

-- The loop of uniquePrefixed; `seen` is the set of what is already in the output.
unique_from : List Text → List Text → List Text
unfolding contains
unique_from seen [] = []
unique_from seen (v ∷ rest) =
    let skipped = unique_from seen rest in
    let taken = v ∷ unique_from (v ∷ seen) rest in if contains seen v then skipped else taken

unfoldable pub unique_prefixed : Text → List Text → List Text
unfolding unique_from
unique_prefixed first rest = first ∷ unique_from (first ∷ []) rest

unfoldable pub pro_image : List Text
pro_image = codes "gemini-3-pro-image" ∷ codes "gemini-3.1-pro-image" ∷ []

unfoldable pub flash_image : List Text
flash_image = codes "gemini-3-flash-image" ∷ codes "gemini-3.1-flash-image" ∷ []

unfoldable pub pro_family : List Text
pro_family =
    codes "gemini-pro-agent"
    ∷ codes "gemini-3.1-pro-preview"
    ∷ codes "gemini-3-pro-preview"
    ∷ codes "gemini-3.1-pro-high"
    ∷ codes "gemini-3-pro-high"
    ∷ codes "gemini-3.1-pro-low"
    ∷ codes "gemini-3-pro-low"
    ∷ codes "gemini-3.1-pro"
    ∷ codes "gemini-3-pro"
    ∷ []

-- familyCandidates
unfoldable pub family_candidates : Text → List Text
unfolding pro_image flash_image pro_family contains unique_prefixed to_lower trim_space
family_candidates model =
    let m : Text = to_lower (trim_space model) in
    if contains pro_image m
    then unique_prefixed m pro_image
    else (if contains flash_image m
        then unique_prefixed m flash_image
        else (if contains pro_family m then unique_prefixed m pro_family else []))

-- The map from a name in lower case to the name, of the names that are not blank.
unfoldable pub index_available : List Text → List (Text × Text) → List (Text × Text)
unfolding text_beq insert to_lower trim_space
index_available [] index = index
index_available (entry ∷ available) index =
    let name : Text = trim_space entry in
    index_available available
      (if text_beq name [] then index else insert (to_lower name) name index)

-- The first candidate that the index has.
unfoldable pub first_candidate : List Text → List (Text × Text) → Text
unfolding lookup text_beq
first_candidate [] index = []
first_candidate (cand ∷ rest) index = or_else (lookup cand index) (first_candidate rest index)

-- matchAvailable; the empty text says that nothing matches.
unfoldable pub match_available : Text → List Text → Text
unfolding index_available first_candidate family_candidates lookup to_lower text_beq
match_available mapped available =
    let index : List (Text × Text) = index_available available [] in
    if text_beq mapped [] || is_empty available
    then []
    else or_else (lookup (to_lower mapped) index) (first_candidate (family_candidates mapped) index)

-- RewriteToAvailable; a rule that is missing reads as the empty text.
unfoldable pub rewrite_to_available : Text → List Text → List (Text × Text) → Text
unfolding match_available trim_space trim_prefix lookup text_beq
rewrite_to_available requested available forwarding =
    let name : Text = trim_space (trim_prefix requested models_prefix) in
    let next : Text = trim_space (or_else (lookup name forwarding) []) in
    let forwarded : Text = if text_beq next [] then name else next in
    let id : Text = match_available forwarded available in
    if text_beq name [] then name else (if text_beq id [] then forwarded else id)

-- IsImageModel
unfoldable pub is_image_model : Text → Bool
unfolding to_lower contains_text
is_image_model model = contains_text (to_lower model) (codes "image")

-- IsThinkingModel
unfoldable pub is_thinking_model : Text → Bool
unfolding to_lower contains_text is_image_model
is_thinking_model model =
    let m : Text = to_lower model in
    if contains_text m (codes "claude")
      && (contains_text m (codes "thinking") || contains_text m (codes "sonnet-4-6"))
    then true
    else (if not (contains_text m (codes "gemini"))
          || is_image_model m
          || contains_text m (codes "flash-lite")
        then false
        else (contains_text m (codes "thinking")
            || contains_text m (codes "pro")
            || contains_text m (codes "flash")))

-- The cases of the switch in DefaultThinkingBudget.
unfoldable pub calibrated_budgets : List (Text × ℕ)
calibrated_budgets =
    (codes "gemini-3.7-flash-low", 1000)
    ∷ (codes "gemini-3.6-flash-low", 1000)
    ∷ (codes "gemini-3.5-flash-extra-low", 1000)
    ∷ (codes "gemini-3.7-flash-medium", 4000)
    ∷ (codes "gemini-3.6-flash-medium", 4000)
    ∷ (codes "gemini-3.5-flash-low", 4000)
    ∷ (codes "gemini-3.7-flash-high", 10000)
    ∷ (codes "gemini-3.6-flash-high", 10000)
    ∷ (codes "gemini-3-flash-agent", 10000)
    ∷ (codes "gemini-3.1-pro-low", 1001)
    ∷ (codes "gemini-3-pro-low", 1001)
    ∷ (codes "gemini-pro-agent", 10001)
    ∷ (codes "claude-sonnet-4-6", 1024)
    ∷ []

-- What follows the switch in DefaultThinkingBudget.
unfoldable pub family_budget : Text → ℕ
unfolding contains_text
family_budget m =
    if contains_text m (codes "flash-lite")
    then 0
    else (if contains_text m (codes "claude-opus-4-6")
        then 24576
        else (if contains_text m (codes "gemini-3.1-pro")
              || contains_text m (codes "gemini-3-pro-high")
            then 49152
            else (if contains_text m (codes "pro")
                  || contains_text m (codes "flash")
                  || contains_text m (codes "thinking")
                then 32768
                else 8192)))

-- DefaultThinkingBudget
unfoldable pub default_thinking_budget : Text → ℕ
unfolding calibrated_budgets family_budget to_lower lookup text_beq
default_thinking_budget model =
    let m : Text = to_lower model in or_else (lookup m calibrated_budgets) (family_budget m)

-- MaxOutputTokens
unfoldable pub max_output_tokens : Text → ℕ
unfolding to_lower contains_text text_beq
max_output_tokens model =
    let m : Text = to_lower model in
    if contains_text m (codes "flash-lite")
    then 16384
    else (if contains_text m (codes "opus-4-6")
        then 57344
        else (if text_beq m (codes "gemini-pro-agent") || text_beq m (codes "gemini-3.1-pro-low")
            then 65535
            else (if contains_text m (codes "claude") then 64000 else 65536)))
