-- ===== src/Sync/Schema.antt =====
-- The tables of the database, as `Migrate` of storage/migration.go makes them, and what a
-- synchronisation leaves out of them.
use mathlib.Core.List.{map}
use dns_go.Base.{List, [], ◌∷◌, not, contains, keep}
use dns_go.Base.Map
use dns_go.Base.Text.{Text, codes, text_eq}
use dns_go.Sync.{
  Table, zones, records, upstream_servers, gslb_policies, gslb_pools, gslb_members, health_checks,
  adblock_sources, adblock_domains, Cells, Row,
}

-- The columns of a table, those that were added to it later included.
unfoldable pub schema : Table → List Text
schema zones =
    codes "id"
    ∷ codes "name"
    ∷ codes "soa_mname"
    ∷ codes "soa_rname"
    ∷ codes "soa_serial"
    ∷ codes "soa_refresh"
    ∷ codes "soa_retry"
    ∷ codes "soa_expire"
    ∷ codes "soa_minimum"
    ∷ codes "enabled"
    ∷ codes "allow_fallback"
    ∷ codes "created_at"
    ∷ codes "updated_at"
    ∷ []
schema records =
    codes "id"
    ∷ codes "zone_id"
    ∷ codes "name"
    ∷ codes "type"
    ∷ codes "content"
    ∷ codes "ttl"
    ∷ codes "priority"
    ∷ codes "enabled"
    ∷ codes "last_query_at"
    ∷ codes "created_at"
    ∷ codes "updated_at"
    ∷ []
schema upstream_servers =
    codes "id"
    ∷ codes "name"
    ∷ codes "address"
    ∷ codes "protocol"
    ∷ codes "priority"
    ∷ codes "enabled"
    ∷ codes "created_at"
    ∷ codes "updated_at"
    ∷ []
schema gslb_policies =
    codes "id"
    ∷ codes "name"
    ∷ codes "domain"
    ∷ codes "record_type"
    ∷ codes "ttl"
    ∷ codes "enabled"
    ∷ codes "created_at"
    ∷ []
schema gslb_pools =
    codes "id"
    ∷ codes "policy_id"
    ∷ codes "name"
    ∷ codes "match_type"
    ∷ codes "match_value"
    ∷ codes "priority"
    ∷ codes "fallback_pool"
    ∷ []
schema gslb_members =
    codes "id" ∷ codes "pool_id" ∷ codes "address" ∷ codes "weight" ∷ codes "enabled" ∷ []
schema health_checks =
    codes "id"
    ∷ codes "policy_id"
    ∷ codes "check_type"
    ∷ codes "target"
    ∷ codes "interval_sec"
    ∷ codes "timeout_sec"
    ∷ codes "healthy_threshold"
    ∷ codes "unhealthy_threshold"
    ∷ codes "enabled"
    ∷ codes "expected_codes"
    ∷ []
schema adblock_sources =
    codes "id"
    ∷ codes "name"
    ∷ codes "url"
    ∷ codes "enabled"
    ∷ codes "last_sync"
    ∷ codes "last_modified"
    ∷ codes "rule_count"
    ∷ codes "created_at"
    ∷ codes "updated_at"
    ∷ []
schema adblock_domains = codes "id" ∷ codes "domain" ∷ codes "source_id" ∷ codes "added_at" ∷ []

-- The columns that a synchronisation does not bring over.
unfoldable pub left_out : Table → List Text
left_out records = codes "last_query_at" ∷ []
left_out health_checks = codes "expected_codes" ∷ []
left_out adblock_domains = codes "id" ∷ codes "added_at" ∷ []
left_out t = []

unfoldable pub copied_columns : Table → List Text
copied_columns t = keep (λ n. not (contains n (left_out t))) (schema t)

-- What a row has in the columns `ns`.
abbrev pub picked : {Value : Type 0} → List Text → Row Value → Cells Value
picked ns row = map (λ n. Map.get n row) ns

-- A table without the columns that are left out.
abbrev pub copied_rows : {Value : Type 0} → Table → List (Row Value) → List (Cells Value)
copied_rows t rows = map (picked (copied_columns t)) rows
