-- ===== src/Config/Laws.antt =====
-- What every configuration of a running server satisfies.
use antigravity2api.Base.{ℕ, ◌*◌, ◌≤◌, ◌≡◌, Text, ℤ, pos, negsuc, to_nat, arith}
use antigravity2api.Time.{second}
use antigravity2api.Config.{Config, default_to, cap_at, with_defaults, Getenv, settings, load}

-- Between 1 and `most`.
abbrev pub Within : ℕ → ℤ → Type 0
Within most i = (1 ≤ to_nat i) × (to_nat i ≤ most)

pub record InBounds (c : Config) : Type 0 where
  pub requests : Within 4096 c.max_concurrent_requests
  pub per_account : Within (to_nat c.max_concurrent_requests) c.max_concurrent_per_account
  pub retries : Within 20 c.max_retry_attempts
  pub request_time : 1 ≤ to_nat c.request_timeout
  pub admission_time : 1 ≤ to_nat c.admission_timeout
  pub shutdown_time : 1 ≤ to_nat c.shutdown_timeout

default_to-positive : (d i : ℤ) → 1 ≤ to_nat d → 1 ≤ to_nat (default_to d i)
unfolding default_to
default_to-positive d (pos n) h = ground arith
default_to-positive d (negsuc n) h = h

default_to-bound : (m : ℕ) (d i : ℤ) → Within m d → to_nat i ≤ m → Within m (default_to d i)
unfolding default_to
default_to-bound m d (pos n) h k = ground arith
default_to-bound m d (negsuc n) h k = h

cap_at-bound : (m i : ℤ) → 1 ≤ to_nat m → to_nat (cap_at m i) ≤ to_nat m
unfolding cap_at
cap_at-bound (pos m) (pos n) h = ground arith
cap_at-bound (pos m) (negsuc n) h = omega arith
cap_at-bound (negsuc m) i h = absurd (omega (arith, h))

cap_at-Within : (m i : ℤ) → 1 ≤ to_nat m → 1 ≤ to_nat i → Within (to_nat m) (cap_at m i)
unfolding cap_at
cap_at-Within (pos m) (pos n) h k = ground arith
cap_at-Within (pos m) (negsuc n) h k = absurd (omega (arith, k))
cap_at-Within (negsuc m) i h k = absurd (omega (arith, h))

-- Whatever a configuration says, WithDefaults brings it into bounds: 1 to 4096 requests at once, 1
-- to as many for one account, 1 to 20 attempts, and timeouts that are positive.
pub with_defaults-InBounds : (c : Config) → InBounds (with_defaults c)
unfolding with_defaults
with_defaults-InBounds c =
    let requests =
      cap_at-Within (pos 4096) (default_to (pos 128) c.max_concurrent_requests) (omega arith)
        (default_to-positive (pos 128) c.max_concurrent_requests (omega arith)) in
    record {
      requests = requests;
      per_account =
          default_to-bound _ _ _ (cap_at-Within _ (pos 4) requests.0 (omega arith))
            (cap_at-bound _ c.max_concurrent_per_account requests.0);
      retries =
          cap_at-Within (pos 20) _ (omega arith) (default_to-positive (pos 5) _ (omega arith));
      request_time = default_to-positive _ _ (omega arith);
      admission_time = default_to-positive _ _ (omega arith);
      shutdown_time = default_to-positive _ _ (omega arith);
    }

-- The server that reads its configuration from the environment has it in bounds, whatever the
-- environment holds: texts that are no numbers, numbers out of range, seconds that overflow.
pub load-InBounds :
    (getenv : Getenv) (client_id client_secret : Text)
    → InBounds (load getenv client_id client_secret)
unfolding load
load-InBounds getenv client_id client_secret =
    with_defaults-InBounds (settings getenv client_id client_secret)

default_to-kept : (d i : ℤ) → 1 ≤ to_nat i → default_to d i ≡ i
unfolding default_to
default_to-kept d (pos n) h = ground arith
default_to-kept d (negsuc n) h = absurd (omega (arith, h))

cap_at-kept : (m i : ℤ) → 1 ≤ to_nat i → to_nat i ≤ to_nat m → cap_at m i ≡ i
unfolding cap_at
cap_at-kept (pos m) (pos n) h k = ground arith
cap_at-kept (pos m) (negsuc n) h k = absurd (omega (arith, h))
cap_at-kept (negsuc m) i h k = absurd (omega (arith, h, k))

-- A configuration in bounds is left as it is; so WithDefaults may be called again, as the server
-- does.
pub with_defaults-kept : (c : Config) → InBounds c → with_defaults c ≡ c
unfolding with_defaults
with_defaults-kept c h =
    let requests = c.max_concurrent_requests in
    rw (
      default_to-kept (pos 128) requests h.requests.0,
      cap_at-kept (pos 4096) requests h.requests.0 h.requests.1,
      cap_at-kept requests c.max_concurrent_per_account h.per_account.0 h.per_account.1,
      default_to-kept (cap_at requests (pos 4)) c.max_concurrent_per_account h.per_account.0,
      default_to-kept (pos 5) c.max_retry_attempts h.retries.0,
      cap_at-kept (pos 20) c.max_retry_attempts h.retries.0 h.retries.1,
      default_to-kept (pos (600 * second)) c.request_timeout h.request_time,
      default_to-kept (pos (5 * second)) c.admission_timeout h.admission_time,
      default_to-kept (pos (30 * second)) c.shutdown_timeout h.shutdown_time,
    )
