-- ===== src/Config.antt =====
-- server/internal/config/config.go: the configuration, read from the environment. os.Getenv is an
-- argument. Durations and counts are Go's 64-bit int and wrap around in the multiplication.
pub mod Laws
use antigravity2api.Base.{
  ℕ, zero, suc, ◌+◌, ◌-◌, ◌*◌, ◌^◌, ◌%◌, Bool, true, false, ◌&&◌, ◌||◌, List, [], ◌∷◌, ◌++◌, Option,
  none, some, Text, ℤ, pos, negsuc, positive, exceeds, text_beq, nat_beq, is_empty, leb, ltb,
  if◌then◌else◌,
}
use antigravity2api.Strings.{codes, trim_space, to_lower, or_else}
use antigravity2api.Time.{second}

pub record Config : Type 0 where
  pub listen_addr : Text
  pub data_dir : Text
  pub admin_token : Text
  pub api_key : Text
  pub batch_validity_days : ℤ
  pub skip_expired_default : Bool
  pub user_agent : Text
  pub oauth_user_agent : Text
  pub oauth_client_id : Text
  pub oauth_client_secret : Text
  pub request_timeout : ℤ
  pub max_concurrent_requests : ℤ
  pub max_concurrent_per_account : ℤ
  pub max_retry_attempts : ℤ
  pub admission_timeout : ℤ
  pub shutdown_timeout : ℤ

-- `fallback` in place of a value that is not positive.
unfoldable pub default_to : ℤ → ℤ → ℤ
default_to fallback i = if positive i then i else fallback

unfoldable pub cap_at : ℤ → ℤ → ℤ
cap_at most i = if exceeds i most then most else i

-- Config.WithDefaults
unfoldable pub with_defaults : Config → Config
with_defaults c =
    let requests = cap_at (pos 4096) (default_to (pos 128) c.max_concurrent_requests) in
    record c {
      request_timeout = default_to (pos (600 * second)) c.request_timeout;
      max_concurrent_requests = requests;
      max_concurrent_per_account =
          default_to (cap_at requests (pos 4)) (cap_at requests c.max_concurrent_per_account);
      max_retry_attempts = cap_at (pos 20) (default_to (pos 5) c.max_retry_attempts);
      admission_timeout = default_to (pos (5 * second)) c.admission_timeout;
      shutdown_timeout = default_to (pos (30 * second)) c.shutdown_timeout;
    }

-- The environment: os.Getenv.
abbrev pub Getenv : Type 0
Getenv = Text → Text

-- env
unfoldable pub env : Getenv → Text → Text → Text
unfolding trim_space
env getenv key fallback = let v = trim_space (getenv key) in if is_empty v then fallback else v

unfoldable pub digits : ℕ → Text → Option ℕ
digits n [] = some n
digits n (c ∷ s) =
    let rest = digits (10 * n + (c - b'0')) s in if leb b'0' c && leb c b'9' then rest else none

-- The digits of a number, one at least.
unfoldable pub magnitude : Text → Option ℕ
unfolding digits
magnitude [] = none
magnitude (c ∷ s) = digits 0 (c ∷ s)

unfoldable pub positive_int : Text → Option ℤ
unfolding magnitude
positive_int s = elim (magnitude s) [
  | none ↦ none
  | some n ↦ if ltb n (2 ^ 63) then some (pos n) else none
]

unfoldable pub negative_int : Text → Option ℤ
unfolding magnitude
negative_int s = elim (magnitude s) [
  | none ↦ none
  | some n ↦
      if nat_beq n 0 then some (pos 0) else (if leb n (2 ^ 63) then some (negsuc (n - 1)) else none)
]

-- strconv.Atoi
unfoldable pub atoi : Text → Option ℤ
unfolding positive_int negative_int
atoi [] = none
atoi (c ∷ s) =
    if nat_beq c b'-'
    then negative_int s
    else (if nat_beq c b'+' then positive_int s else positive_int (c ∷ s))

-- envInt
unfoldable pub env_int : Getenv → Text → ℤ → ℤ
unfolding atoi trim_space
env_int getenv key fallback =
    let v = trim_space (getenv key) in if is_empty v then fallback else or_else (atoi v) fallback

-- envBool
unfoldable pub env_bool : Getenv → Text → Bool → Bool
unfolding to_lower trim_space text_beq
env_bool getenv key fallback =
    let v = to_lower (trim_space (getenv key)) in
    if is_empty v
    then fallback
    else text_beq v (codes "1")
      || text_beq v (codes "true")
      || text_beq v (codes "yes")
      || text_beq v (codes "on")

-- i * time.Second, which wraps around.
unfoldable pub seconds : ℤ → ℤ
seconds (pos n) =
    let m = n * second % 2 ^ 64 in if ltb m (2 ^ 63) then pos m else negsuc (2 ^ 64 - m - 1)
seconds (negsuc n) =
    let m = suc n * second % 2 ^ 64 in
    if nat_beq m 0 then pos 0 else (if leb m (2 ^ 63) then negsuc (m - 1) else pos (2 ^ 64 - m))

-- What Load reads; the built-in OAuth client is an argument.
unfoldable pub settings : Getenv → Text → Text → Config
unfolding env env_int env_bool seconds
settings getenv client_id client_secret = record {
  listen_addr = env getenv (codes "LISTEN_ADDR") (codes ":8080");
  data_dir = env getenv (codes "DATA_DIR") (codes "./data");
  admin_token = env getenv (codes "ADMIN_TOKEN") (codes "admin-token");
  api_key = env getenv (codes "API_KEY") (codes "sk-antigravity");
  batch_validity_days = env_int getenv (codes "BATCH_VALIDITY_DAYS") (pos 30);
  skip_expired_default = env_bool getenv (codes "SKIP_EXPIRED_ACCOUNTS") true;
  user_agent =
      env getenv (codes "USER_AGENT")
        (codes "Antigravity/4.6.7 (X11; Linux x86_64) Chrome/132.0.6834.160 Electron/39.2.3");
  oauth_user_agent =
      env getenv (codes "OAUTH_USER_AGENT") (codes "vscode/1.X.X (Antigravity/4.6.7)");
  oauth_client_id = env getenv (codes "OAUTH_CLIENT_ID") client_id;
  oauth_client_secret = env getenv (codes "OAUTH_CLIENT_SECRET") client_secret;
  request_timeout = seconds (env_int getenv (codes "REQUEST_TIMEOUT_SECONDS") (pos 600));
  max_concurrent_requests = env_int getenv (codes "MAX_CONCURRENT_REQUESTS") (pos 128);
  max_concurrent_per_account = env_int getenv (codes "MAX_CONCURRENT_PER_ACCOUNT") (pos 4);
  max_retry_attempts = env_int getenv (codes "MAX_RETRY_ATTEMPTS") (pos 5);
  admission_timeout = seconds (env_int getenv (codes "ADMISSION_TIMEOUT_SECONDS") (pos 5));
  shutdown_timeout = seconds (env_int getenv (codes "SHUTDOWN_TIMEOUT_SECONDS") (pos 30));
}

-- Load
unfoldable pub load : Getenv → Text → Text → Config
load getenv client_id client_secret = with_defaults (settings getenv client_id client_secret)
