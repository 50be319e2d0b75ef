-- ===== src/Examples/Retry.antt =====
-- Decisions after failed attempts.
use antigravity2api.Base.{◌+◌, ◌*◌, ◌≤◌, ◌<◌, ◌≡◌, refl, true, false, none, some, inl, arith}
use antigravity2api.Strings.{codes}
use antigravity2api.Time.{second, minute, millisecond}
use antigravity2api.Httpapi.Retry.{Body, retry_policy, quota_exhausted}
use antigravity2api.Httpapi.Retry.Laws.{retry_policy-delay, retry_policy-hint, retry_policy_mono}

abbrev daily : Body
daily = record { text = codes "Your daily quota is used up"; object = none }

-- A quota that is used up limits the model for a minute, if the upstream gives no hint.
daily_run : retry_policy 429 none daily 2 10 ≡ record {
  retry = true;
  delay = 15 * second + 60 * millisecond;
  cooldown = minute;
  model_scoped = true;
  grace = false;
  category = quota_exhausted;
}
unfolding retry_policy
daily_run = refl

retry_policy-delay_example :
    (retry_policy 503 (some (90 * second, true)) daily 2 10).delay
    ≤ 30 * second + 1149 * millisecond
retry_policy-delay_example =
    retry_policy-delay 503 (some (90 * second, true)) daily 2 10 (omega arith)

retry_policy-hint_example :
    (4 * second < (retry_policy 429 (some (4 * second, false)) daily 0 0).delay)
    × (4 * second ≤ (retry_policy 429 (some (4 * second, false)) daily 0 0).cooldown)
retry_policy-hint_example =
    retry_policy-hint 429 (4 * second) false daily 0 0 (omega arith) (inl refl)

retry_policy_mono_example :
    ((retry_policy 500 none daily 1 10).delay ≤ (retry_policy 500 none daily 3 10).delay)
    × ((retry_policy 500 none daily 1 10).cooldown ≤ (retry_policy 500 none daily 3 10).cooldown)
retry_policy_mono_example = retry_policy_mono 500 none daily 1 3 10 (omega arith)
