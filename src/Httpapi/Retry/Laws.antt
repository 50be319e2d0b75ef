-- ===== src/Httpapi/Retry/Laws.antt =====
-- What the decision after a failed attempt promises.
use antigravity2api.Base.{
  ℕ, ◌+◌, ◌*◌, ◌^◌, ◌≤◌, ◌<◌, ◌≡◌, ◌⊎◌, Bool, true, false, ◌||◌, ◌&&◌, none, some, nat_beq, leb,
  min, arith,
}
use native.Mathlib.Nat.{pow-le-pow_right}
use antigravity2api.Time.{second, millisecond}
use antigravity2api.Httpapi.Retry.{Body, Hint, rate_limit_category, margin, is_quota, retry_policy}

-- The statuses that another attempt may cure.
abbrev pub is_retryable : ℕ → Bool
is_retryable status =
    nat_beq status 429
    || nat_beq status 401
    || nat_beq status 403
    || nat_beq status 404
    || nat_beq status 408
    || leb 500 status

-- An attempt is retried exactly for the statuses 401, 403, 404, 408, 429 and from 500 on.
pub retry_policy-retry :
    (status : ℕ) (hint : Hint) (body : Body) (attempt jitter : ℕ)
    → (retry_policy status hint body attempt jitter).retry ≡ is_retryable status
unfolding retry_policy
retry_policy-retry status none body attempt jitter = ground arith
retry_policy-retry status (some (d, t)) body attempt jitter = ground arith

margin_bound : (hint : Hint) (jitter : ℕ) → jitter < 100 → margin hint jitter ≤ 1149 * millisecond
unfolding margin
margin_bound none jitter h = omega arith
margin_bound (some (d, true)) jitter h = omega arith
margin_bound (some (d, false)) jitter h = omega arith

-- With a random margin below 100 ms, no attempt is delayed by more than 30 seconds and 1149 ms,
-- whatever the status, the hint of the upstream and the number of attempts.
pub retry_policy-delay :
    (status : ℕ) (hint : Hint) (body : Body) (attempt jitter : ℕ)
    → jitter < 100
    → (retry_policy status hint body attempt jitter).delay ≤ 30 * second + 1149 * millisecond
unfolding retry_policy
retry_policy-delay status hint body attempt jitter h = ground (arith, margin_bound hint jitter h)

-- The margin of a hint, at least.
margin-hint :
    (d : ℕ) (from_text : Bool) (jitter : ℕ)
    → 250 * millisecond ≤ margin (some (d, from_text)) jitter
unfolding margin
margin-hint d true jitter = omega arith
margin-hint d false jitter = omega arith

-- For status 429 or from 500 on, the wait is longer than a hint of the upstream of at most 30
-- seconds, and the account's cooldown is at least as long as the hint.
pub retry_policy-hint :
    (status d : ℕ) (from_text : Bool) (body : Body) (attempt jitter : ℕ)
    → d ≤ 30 * second
    → (status ≡ 429) ⊎ (500 ≤ status)
    → let p = retry_policy status (some (d, from_text)) body attempt jitter in
      (d < p.delay) × (d ≤ p.cooldown)
unfolding retry_policy
retry_policy-hint status d from_text body attempt jitter short kind =
    ground (arith, margin-hint d from_text jitter)

-- The limit covers only the model exactly for a rate limit whose category is the exhausted quota,
-- and such a limit gets no grace retry.
pub retry_policy-scope :
    (status : ℕ) (hint : Hint) (body : Body) (attempt jitter : ℕ)
    → let p = retry_policy status hint body attempt jitter in
      (p.model_scoped ≡ nat_beq status 429 && is_quota (rate_limit_category body))
      × (p.grace ≡ true → (status ≡ 429) × (p.model_scoped ≡ false))
unfolding retry_policy
retry_policy-scope status none body attempt jitter = (ground arith, ground arith)
retry_policy-scope status (some (d, t)) body attempt jitter = (ground arith, ground arith)

pow_min_mono : (a b : ℕ) → a ≤ b → 2 ^ min a 4 ≤ 2 ^ min b 4
pow_min_mono a b h = pow-le-pow_right (omega arith) (omega arith)

-- Later attempts wait no less: with the same answer of the upstream and the same margin, the delay
-- and the cooldown do not fall as the attempts go on.
pub retry_policy_mono :
    (status : ℕ) (hint : Hint) (body : Body) (attempt later jitter : ℕ)
    → attempt ≤ later
    → let p = retry_policy status hint body attempt jitter in
      let q = retry_policy status hint body later jitter in
      (p.delay ≤ q.delay) × (p.cooldown ≤ q.cooldown)
unfolding retry_policy
retry_policy_mono status (some (d, t)) body attempt later jitter h = (ground arith, ground arith)
retry_policy_mono status none body attempt later jitter h =
    (ground (arith, pow_min_mono attempt later h), ground (arith, pow_min_mono attempt later h))
