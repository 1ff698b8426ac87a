-- ===== src/Storage/Wildcard.antt =====
-- `findWildcardRecords` and `isValidWildcardMatch` of storage/record.go.
use dns_go.Base.{Bool, false, not, ◌&&◌, ◌||◌, List, [], ◌∷◌, ◌++◌, if◌then◌else◌, nat_eq, ◌==◌}
use dns_go.Base.Text.{
  Text, codes, text_eq, has_suffix, has_byte, trim_prefix, trim_suffix, split, join,
}
use dns_go.Storage.Types.{Record}

unfoldable pub is_valid_wildcard_match : Text → Text → Bool
is_valid_wildcard_match pattern query_name =
    let suffix = trim_prefix pattern (codes "*.") in
    let prefix = trim_suffix (trim_suffix query_name suffix) (codes ".") in
    if has_suffix query_name suffix
    then if prefix == [] then false else not (has_byte b'.' prefix)
    else false

-- The loop over the records: copies with the name that is asked for.
unfoldable pub matches : Text → Text → Text → List Record → List Record
matches pattern query_name kind [] = []
matches pattern query_name kind (r ∷ rs) =
    if (r.name == pattern && (r.record_type == kind && r.enabled))
      && is_valid_wildcard_match pattern query_name
    then record r { name = query_name } ∷ matches pattern query_name kind rs
    else matches pattern query_name kind rs

-- The rounds: the labels behind the first one, then behind the first two, and so on.
unfoldable pub wildcard_rounds : List Record → Text → Text → List Text → List Record
wildcard_rounds all_records query_name kind [] = []
wildcard_rounds all_records query_name kind (l ∷ labels) =
    elim (matches (join (codes "*" ∷ l ∷ labels) (codes ".") ++ codes ".") query_name kind
      all_records) [ [] ↦ wildcard_rounds all_records query_name kind labels | m ∷ ms ↦ m ∷ ms ]

abbrev pub behind_first : List Text → List Text
behind_first [] = []
behind_first (l ∷ labels) = labels

unfoldable pub find_wildcard_records : List Record → Text → Text → List Record
find_wildcard_records all_records query_name kind =
    if query_name == [] || query_name == codes "."
    then []
    else wildcard_rounds all_records query_name kind
        (behind_first (split (trim_suffix query_name (codes ".")) b'.'))
