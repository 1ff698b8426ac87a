-- ===== src/Sync/Export.antt =====
-- The export of a primary: the functions `GetAll…` and `CalculateChecksum` of
-- storage/sync_version.go, and the handlers `GetMetadata` and `GetFull` of web/api_sync.go.
-- Each query meets the database as it is then: `at i` is the database at the `i`-th query of a
-- request.
use mathlib.Core.List.{map}
use dns_go.Base.{◌>>=◌, ℕ, suc, List, [], ◌∷◌, Option, none, some, Result, ok, if◌then◌else◌}
use dns_go.Base.Text.{Text, codes, text_eq}
use dns_go.Sync.{
  Table, zones, records, upstream_servers, gslb_policies, gslb_pools, gslb_members, health_checks,
  adblock_sources, adblock_domains, Cells, Row, Snapshot,
}
use dns_go.Sync.Rows.{same_table}

-- `query` is the SELECT of a table's `selected` columns with its loop of Scan, ordered by the key; it
-- fails where NULL stands in a column other than `last_sync` and `last_modified`. `digest` is the
-- hexadecimal SHA-256 of the JSON of the tables under their names.
pub record Primary (Value : Type 0) : Type 1 where
  pub Db : Type 0
  pub query : Table → Db → Result (List (Cells Value))
  pub version : Db → Result ℕ
  pub state : Db → Result (ℕ × Option Text)
  pub digest : List (Table × List (Row Value)) → Result Text

-- The columns of the SELECT statements.
unfoldable pub selected : Table → List Text
selected zones =
    codes "id"
    ∷ codes "name"
    ∷ codes "soa_mname"
    ∷ codes "soa_rname"
    ∷ codes "soa_serial"
    ∷ codes "soa_refresh"
    ∷ codes "soa_retry"
    ∷ codes "soa_expire"
    ∷ codes "soa_minimum"
    ∷ codes "enabled"
    ∷ codes "allow_fallback"
    ∷ codes "created_at"
    ∷ codes "updated_at"
    ∷ []
selected records =
    codes "id"
    ∷ codes "zone_id"
    ∷ codes "name"
    ∷ codes "type"
    ∷ codes "content"
    ∷ codes "ttl"
    ∷ codes "priority"
    ∷ codes "enabled"
    ∷ codes "created_at"
    ∷ codes "updated_at"
    ∷ []
selected upstream_servers =
    codes "id"
    ∷ codes "name"
    ∷ codes "address"
    ∷ codes "protocol"
    ∷ codes "priority"
    ∷ codes "enabled"
    ∷ codes "created_at"
    ∷ codes "updated_at"
    ∷ []
selected gslb_policies =
    codes "id"
    ∷ codes "name"
    ∷ codes "domain"
    ∷ codes "record_type"
    ∷ codes "ttl"
    ∷ codes "enabled"
    ∷ codes "created_at"
    ∷ []
selected gslb_pools =
    codes "id"
    ∷ codes "policy_id"
    ∷ codes "name"
    ∷ codes "match_type"
    ∷ codes "match_value"
    ∷ codes "priority"
    ∷ codes "fallback_pool"
    ∷ []
selected gslb_members =
    codes "id" ∷ codes "pool_id" ∷ codes "address" ∷ codes "weight" ∷ codes "enabled" ∷ []
selected health_checks =
    codes "id"
    ∷ codes "policy_id"
    ∷ codes "check_type"
    ∷ codes "target"
    ∷ codes "interval_sec"
    ∷ codes "timeout_sec"
    ∷ codes "healthy_threshold"
    ∷ codes "unhealthy_threshold"
    ∷ codes "enabled"
    ∷ []
selected adblock_sources =
    codes "id"
    ∷ codes "name"
    ∷ codes "url"
    ∷ codes "enabled"
    ∷ codes "last_sync"
    ∷ codes "last_modified"
    ∷ codes "rule_count"
    ∷ codes "created_at"
    ∷ codes "updated_at"
    ∷ []
selected adblock_domains = codes "domain" ∷ codes "source_id" ∷ []

-- The `map[string]interface{}` of one row.
unfoldable pub export_row : {Value : Type 0} → List Text → Cells Value → Row Value
export_row [] vs = []
export_row (n ∷ ns) [] = []
export_row (n ∷ ns) (none ∷ vs) = export_row ns vs
export_row (n ∷ ns) (some v ∷ vs) = (n, v) ∷ export_row ns vs

-- The order of the tables in an answer and in the checksum.
unfoldable pub export_order : List Table
export_order =
    zones ∷ records ∷ upstream_servers ∷ gslb_policies ∷ gslb_pools ∷ gslb_members ∷ health_checks
    ∷ adblock_sources ∷ adblock_domains ∷ []

unfoldable pub rows_of :
    {Value : Type 0} → List (Table × List (Row Value)) → Table → List (Row Value)
rows_of [] u = []
rows_of ((t, rs) ∷ more) u = if same_table t u then rs else rows_of more u

-- A missing checksum is the empty text.
abbrev pub text_of : Option Text → Text
text_of none = []
text_of (some s) = s

module _ {Value : Type 0} (p : Primary Value) where
  unfoldable pub get_all : Table → p.Db → Result (List (Row Value))
  get_all t db = p.query t db >>= λ rs. ok (map (export_row (selected t)) rs)

  -- One table after the other, from the `i`-th query on.
  unfoldable pub get_tables : List Table → (ℕ → p.Db) → ℕ → Result (List (Table × List (Row Value)))
  get_tables [] at i = ok []
  get_tables (t ∷ ts) at i = do
    rs ← get_all t (at i)
    more ← get_tables ts at (suc i)
    ok ((t, rs) ∷ more)

  unfoldable pub calculate_checksum : (ℕ → p.Db) → ℕ → Result Text
  calculate_checksum at i = get_tables export_order at i >>= p.digest

  -- The version is read before the data.
  unfoldable pub get_full : (ℕ → p.Db) → Result (Snapshot Value)
  get_full at = do
    v ← p.version (at 0)
    sum ← calculate_checksum at 1
    tables ← get_tables export_order at 10
    ok record { version = v; checksum = sum; rows = rows_of tables }

  unfoldable pub get_metadata : p.Db → Result (ℕ × Text)
  get_metadata db = p.state db >>= λ (v, sum). ok (v, text_of sum)
