-- ===== src/Pool/View.antt =====
-- modelViewLocked and available of server/internal/pool/scheduler.go: which model an account would
-- serve a request with, cached by the requested name.
pub mod Laws
use antigravity2api.Base.{
  ℕ, Bool, true, false, ◌&&◌, ◌||◌, not, List, [], ◌∷◌, map, Option, none, some, Text, text_eq,
  text_beq, lookup, insert, leb, length, is_empty, ℤ, negsuc, int_is_zero, if◌then◌else◌,
}
use antigravity2api.Strings.{trim_space, trim_prefix}
use antigravity2api.Time.{after, is_zero, parse_or_zero}
use antigravity2api.Accounts.{Account, QuotaData, ModelQuota}
use antigravity2api.Convert.Catalog.{models_prefix, rewrite_to_available}
use antigravity2api.Pool.State.{Pool, ModelCandidate, max_views}

-- strings.TrimPrefix(strings.TrimSpace(model), "models/")
unfoldable pub model_name : Text → Text
unfolding trim_space trim_prefix
model_name model = trim_prefix (trim_space model) models_prefix

-- The inner loop: the first quota entry of that name.
unfoldable pub find_quota : Text → List ModelQuota → Option ModelQuota
unfolding text_beq
find_quota name [] = none
find_quota name (m ∷ ms) = if text_beq m.name name then some m else find_quota name ms

-- The candidate of an account without quota data, which may serve anything.
unfoldable pub unknown_quota : Text → ModelCandidate
unknown_quota requested = record {
  mapped = requested;
  present = true;
  percentage = negsuc 0;
  reset = 0;
}

unfoldable pub quota_candidate : Text → QuotaData → ModelCandidate
unfolding rewrite_to_available find_quota parse_or_zero
quota_candidate requested q =
    let mapped : Text =
      rewrite_to_available requested (map (λ m. m.name) q.quota_models) q.forwarding_rules in
    elim (find_quota mapped q.quota_models) [
      | none ↦ record { mapped = mapped; present = false; percentage = negsuc 0; reset = 0 }
      | some m ↦ record {
        mapped = mapped;
        present = true;
        percentage = m.percentage;
        reset = parse_or_zero m.reset_time;
      }
    ]

-- The body of the loop over the accounts.
unfoldable pub candidate_for : Text → Account → ModelCandidate
unfolding quota_candidate unknown_quota text_beq
candidate_for requested a = elim a.quota [
  | none ↦ unknown_quota requested
  | some q ↦
      if not (text_beq requested []) && not (is_empty q.quota_models)
      then quota_candidate requested q
      else unknown_quota requested
]

-- The cache after a miss: a full cache is cleared first.
unfoldable pub remember_view :
    Text
    → List ModelCandidate
    → List (Text × List ModelCandidate)
    → List (Text × List ModelCandidate)
unfolding insert
remember_view name view views =
    insert name view (if leb max_views (length views) then [] else views)

-- modelViewLocked
unfoldable pub model_view : Text → Pool → Pool × List ModelCandidate
unfolding candidate_for remember_view lookup model_name
model_view requested p =
    let name : Text = model_name requested in
    let view = map (candidate_for name) p.accounts in
    elim (lookup name p.model_views) [
      | some cached ↦ (p, cached)
      | none ↦ (record p { model_views = remember_view name view p.model_views }, view)
    ]

-- available
unfoldable pub available : ModelCandidate → ℕ → Bool
available c now =
    c.present
    && (not (int_is_zero c.percentage) || (not (is_zero c.reset) && not (after c.reset now)))
