-- ===== src/Storage/Lookup.antt =====
-- `GetRecordsByNameAndZone`, `DomainExistsInZone` and `hasWildcardMatch` of storage/record.go, on
-- what `GetRecordsByZone` gives.
pub mod Exists
use dns_go.Base.{
  Bool, true, false, not, ◌&&◌, ◌||◌, List, [], ◌∷◌, Result, ok, err, if◌then◌else◌, nat_eq, ◌==◌,
  keep, any,
}
use dns_go.Base.Text.{
  Text, codes, text_eq, has_suffix, has_prefix, has_byte, trim_prefix, trim_suffix,
}
use dns_go.Storage.Types.{Record}
use dns_go.Storage.Wildcard.{find_wildcard_records}

unfoldable pub has_wildcard_match : Text → Text → Bool
has_wildcard_match record_name query_name =
    let suffix = trim_prefix record_name (codes "*.") in
    let prefix = trim_suffix (trim_suffix query_name suffix) (codes ".") in
    if has_prefix record_name (codes "*.")
    then if has_suffix query_name suffix
      then if prefix == [] then false else not (has_byte b'.' prefix)
      else false
    else false

-- The enabled records of the name and the type, or else those of a wildcard.
unfoldable pub select_records : List Record → Text → Text → List Record
select_records all_records name kind =
    elim (keep (λ r. r.name == name && (r.record_type == kind && r.enabled)) all_records) [
      | [] ↦ find_wildcard_records all_records name kind
      | r ∷ rs ↦ r ∷ rs
    ]

unfoldable pub get_records_by_name_and_zone :
    Result (List Record) → Text → Text → Result (List Record)
get_records_by_name_and_zone err name kind = err
get_records_by_name_and_zone (ok all_records) name kind = ok (select_records all_records name kind)

-- The two loops over the records.
unfoldable pub domain_exists_in_zone : Result (List Record) → Text → Result Bool
domain_exists_in_zone err name = err
domain_exists_in_zone (ok all_records) name = ok (
    any (λ r. r.name == name && r.enabled) all_records
    || any (λ r. r.enabled && has_wildcard_match r.name name) all_records)
