-- ===== src/Accounts.antt =====
-- server/internal/models/models.go: the fields of an account and of its quota that the scheduler,
-- the token refresh and the proxy read. Instants are Unix seconds.
use antigravity2api.Base.{ℕ, Bool, List, Option, Text, ℤ}

pub record ModelQuota : Type 0 where
  pub name : Text
  pub percentage : ℤ
  pub reset_time : Text

pub record QuotaData : Type 0 where
  pub quota_models : List ModelQuota
  pub is_forbidden : Bool
  pub forwarding_rules : List (Text × Text)

pub record Account : Type 0 where
  pub id : Text
  pub email : Text
  pub refresh_token : Text
  pub access_token : Text
  pub expiry_timestamp : ℕ
  pub project_id : Text
  pub quota : Option QuotaData
  pub disabled : Bool
  pub last_used : ℕ
  pub rate_limited_until : ℕ
  pub expires_at : ℕ
