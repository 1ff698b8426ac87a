-- ===== src/Gslb/Types.antt =====
-- The rows of model/gslb.go and the health of gslb/health_status.go. Ids, weights and TTLs are
-- int64 bit patterns.
use dns_go.Base.{ℕ, Bool, List}
use dns_go.Base.Text.{Text}

pub record Policy : Type 0 where
  pub id : ℕ
  pub name : Text
  pub domain : Text
  pub record_type : Text
  pub ttl : ℕ
  pub enabled : Bool
  pub created_at : ℕ

pub record Pool : Type 0 where
  pub id : ℕ
  pub policy_id : ℕ
  pub name : Text
  pub match_type : Text
  pub match_value : Text
  pub priority : ℕ
  pub fallback_pool : Bool

pub record Member : Type 0 where
  pub id : ℕ
  pub pool_id : ℕ
  pub address : Text
  pub weight : ℕ
  pub enabled : Bool

pub record HealthCheck : Type 0 where
  pub id : ℕ
  pub policy_id : ℕ
  pub check_type : Text
  pub target : Text
  pub interval_sec : ℕ
  pub timeout_sec : ℕ
  pub healthy_threshold : ℕ
  pub unhealthy_threshold : ℕ
  pub expected_codes : List ℕ
  pub enabled : Bool

pub record HealthStatus : Type 0 where
  pub healthy : Bool
  pub consecutive_fails : ℕ
  pub consecutive_oks : ℕ
  pub last_check : ℕ
  pub last_error : Text
