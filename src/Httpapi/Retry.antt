-- ===== src/Httpapi/Retry.antt =====
-- server/internal/httpapi/retry.go: what to do after a failed attempt. The hint of the upstream
-- (upstreamRetryHint) and the random margin are arguments.
pub mod Laws
use antigravity2api.Base.{
  ℕ, ◌+◌, ◌*◌, ◌^◌, ◌-◌, Bool, true, false, ◌&&◌, ◌||◌, not, List, [], ◌∷◌, Option, none, some,
  Text, text_beq, nat_beq, leb, min, max, if◌then◌else◌,
}
use antigravity2api.Strings.{codes, to_lower, to_upper, contains}
use antigravity2api.Time.{second, minute, millisecond}
use antigravity2api.Json.{
  Json, Items, Fields, nil, cons, get, as_fields, fields_or_empty, items_or_empty, string_or_empty,
}

-- The values of `category`.
pub data Category : Type 0 where
  upstream_error unauthorized forbidden endpoint_unavailable upstream_unavailable : Category
  quota_exhausted rate_limit model_capacity_exhausted resource_exhausted : Category
  unknown_rate_limit : Category

-- A response body: its text, and the object that it decodes to, if it does.
pub record Body : Type 0 where
  pub text : Text
  pub object : Option Fields

-- The switch on `reason`.
unfoldable pub reason_category : Text → Option Category
unfolding to_upper text_beq
reason_category reason =
    let r = to_upper reason in
    if text_beq r (codes "QUOTA_EXHAUSTED")
    then some quota_exhausted
    else (if text_beq r (codes "RATE_LIMIT_EXCEEDED")
        then some rate_limit
        else (if text_beq r (codes "MODEL_CAPACITY_EXHAUSTED")
            then some model_capacity_exhausted
            else none))

-- The loop over the details: the first that says a reason we know.
unfoldable pub details_category : Items → Option Category
unfolding reason_category fields_or_empty string_or_empty get
details_category nil = none
details_category (cons detail details) =
    let rest = details_category details in
    elim (reason_category (string_or_empty (get (codes "reason") (fields_or_empty detail)))) [
      | some c ↦ some c
      | none ↦ rest
    ]

-- object["response"] in place of the object, if it is one.
unfoldable pub unwrap_response : Fields → Fields
unfolding as_fields get
unwrap_response object = elim (as_fields (get (codes "response") object)) [
  | some inner ↦ inner
  | none ↦ object
]

unfoldable pub object_category : Fields → Option Category
unfolding details_category unwrap_response as_fields items_or_empty get
object_category object = elim (as_fields (get (codes "error") (unwrap_response object))) [
  | some upstream ↦ details_category (items_or_empty (get (codes "details") upstream))
  | none ↦ none
]

unfoldable pub mentions : List Text → Text → Bool
unfolding contains
mentions [] text = false
mentions (phrase ∷ phrases) text = contains text phrase || mentions phrases text

abbrev pub capacity_phrases : List Text
capacity_phrases =
    codes "model_capacity_exhausted" ∷ codes "no capacity available" ∷ codes "model capacity" ∷ []

abbrev pub rate_phrases : List Text
rate_phrases =
    codes "rate_limit_exceeded"
    ∷ codes "per minute"
    ∷ codes "rate limit"
    ∷ codes "too many requests"
    ∷ []

abbrev pub quota_phrases : List Text
quota_phrases =
    codes "quota_exhausted"
    ∷ codes "quota exhausted"
    ∷ codes "quota has been exhausted"
    ∷ codes "quotareset"
    ∷ codes "quota reset"
    ∷ codes "quota will reset"
    ∷ codes "daily limit"
    ∷ codes "weekly limit"
    ∷ codes "daily quota"
    ∷ codes "per day"
    ∷ []

abbrev pub resource_phrases : List Text
resource_phrases = codes "resource_exhausted" ∷ codes "resource has been exhausted" ∷ []

-- The switch on the text.
unfoldable pub text_category : Text → Category
unfolding mentions to_lower
text_category body =
    let text = to_lower body in
    if mentions capacity_phrases text
    then model_capacity_exhausted
    else (if mentions rate_phrases text
        then rate_limit
        else (if mentions quota_phrases text
            then quota_exhausted
            else (if mentions resource_phrases text
                then resource_exhausted
                else unknown_rate_limit)))

abbrev pub structured_category : Body → Option Category
structured_category body = elim body.object [ none ↦ none | some object ↦ object_category object ]

-- rateLimitCategory
unfoldable pub rate_limit_category : Body → Category
unfolding object_category text_category
rate_limit_category body = elim (structured_category body) [
  | some c ↦ c
  | none ↦ text_category body.text
]

-- retryDecision
pub record RetryDecision : Type 0 where
  pub retry : Bool
  pub delay : ℕ
  pub cooldown : ℕ
  pub model_scoped : Bool
  pub grace : Bool
  pub category : Category

-- What upstreamRetryHint found: a delay, and whether it stood in the text of the body.
abbrev pub Hint : Type 0
Hint = Option (ℕ × Bool)

abbrev pub is_quota : Category → Bool
is_quota quota_exhausted = true
is_quota _ = false

-- The cooldown of a rate limit with no hint.
unfoldable pub unhinted_cooldown : Category → ℕ → ℕ
unhinted_cooldown quota_exhausted delay = minute
unhinted_cooldown resource_exhausted delay = 30 * second
unhinted_cooldown unknown_rate_limit delay = minute
unhinted_cooldown _ delay = max delay second

-- The case of status 429; the delay is what the margin is added to.
unfoldable pub on_rate_limit : Hint → Body → ℕ → RetryDecision
unfolding rate_limit_category unhinted_cooldown
on_rate_limit hint body attempt =
    let category = rate_limit_category body in
    elim hint [
      | some (d, from_text) ↦ record {
        retry = true;
        delay = d;
        cooldown = max d second;
        model_scoped = is_quota category;
        grace = leb d (5 * second) && not (is_quota category);
        category = category;
      }
      | none ↦
          let d = min (attempt + 1) 6 * (5 * second) in
          record {
            retry = true;
            delay = d;
            cooldown = unhinted_cooldown category d;
            model_scoped = is_quota category;
            grace = false;
            category = category;
          }
    ]

-- The case of a status from 500 on.
unfoldable pub on_server_error : Hint → ℕ → RetryDecision
on_server_error hint attempt =
    let d : ℕ = elim hint [ some (d, from_text) ↦ d | none ↦ 2 ^ min attempt 4 * second ] in
    record {
      retry = true;
      delay = d;
      cooldown = min d (30 * second);
      model_scoped = false;
      grace = false;
      category = upstream_unavailable;
    }

-- `jitter` is rand.Intn(100), in milliseconds.
unfoldable pub margin : Hint → ℕ → ℕ
margin none jitter = (jitter + 50) * millisecond
margin (some (d, true)) jitter = (jitter + 50) * millisecond + second
margin (some (d, false)) jitter = (jitter + 50) * millisecond + 200 * millisecond

-- What follows the switch.
unfoldable pub with_margin : Hint → ℕ → RetryDecision → RetryDecision
unfolding margin
with_margin hint jitter p = record p { delay = min p.delay (30 * second) + margin hint jitter }

abbrev pub fixed : Bool → ℕ → ℕ → Category → RetryDecision
fixed retry delay cooldown category = record {
  retry = retry;
  delay = delay;
  cooldown = cooldown;
  model_scoped = false;
  grace = false;
  category = category;
}

-- retryPolicy
unfoldable pub retry_policy : ℕ → Hint → Body → ℕ → ℕ → RetryDecision
unfolding on_rate_limit on_server_error with_margin
retry_policy status hint body attempt jitter =
    if nat_beq status 429
    then with_margin hint jitter (on_rate_limit hint body attempt)
    else (if nat_beq status 401
        then fixed true (200 * millisecond) 0 unauthorized
        else (if nat_beq status 403
            then fixed true 0 (10 * minute) forbidden
            else (if nat_beq status 404 || nat_beq status 408
                then with_margin hint jitter (fixed true (300 * millisecond) 0 endpoint_unavailable)
                else (if leb 500 status
                    then with_margin hint jitter (on_server_error hint attempt)
                    else fixed false 0 0 upstream_error))))
