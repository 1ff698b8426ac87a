-- ===== src/Storage/Types.antt =====
-- The record of model/record.go, without the times of its making and of its last change.
use dns_go.Base.{ℕ, Bool, Option}
use dns_go.Base.Text.{Text}

pub record Record : Type 0 where
  pub id : ℕ
  pub zone_id : ℕ
  pub name : Text
  pub record_type : Text
  pub content : Text
  pub ttl : ℕ
  pub priority : ℕ
  pub enabled : Bool
  pub last_query_at : Option ℕ

-- The zone of model/zone.go, likewise.
pub record Zone : Type 0 where
  pub id : ℕ
  pub name : Text
  pub soa_mname : Text
  pub soa_rname : Text
  pub soa_serial : ℕ
  pub soa_refresh : ℕ
  pub soa_retry : ℕ
  pub soa_expire : ℕ
  pub soa_minimum : ℕ
  pub enabled : Bool
  pub allow_fallback : Bool
