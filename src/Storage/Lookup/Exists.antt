-- ===== src/Storage/Lookup/Exists.antt =====
-- How the lookup of records and the test for a domain in storage/record.go fit together.
use dns_go.Base.{
  true, false, ◌&&◌, ◌||◌, List, [], ◌∷◌, ◌++◌, ok, nat_eq, ◌==◌, keep, any, ◌≡◌, ◌≢◌, refl, arith,
  Bool-cases, inl, inr, nat_beq_iff,
}
use dns_go.Base.Text
use dns_go.Base.Text.{
  Text, codes, text_eq, text_beq_iff, has_suffix, has_prefix, has_byte, trim_prefix, trim_suffix,
  split, join,
}
use dns_go.Storage.Types.{Record}
use dns_go.Storage.Wildcard.{
  is_valid_wildcard_match, matches, wildcard_rounds, behind_first, find_wildcard_records,
}
use dns_go.Storage.Lookup.{
  has_wildcard_match, select_records, get_records_by_name_and_zone, domain_exists_in_zone,
}

keep-any :
    (name kind : Text) (all_records : List Record) (r : Record) (rs : List Record)
    → keep (λ q. q.name == name && (q.record_type == kind && q.enabled)) all_records ≡ r ∷ rs
    → any (λ q. q.name == name && q.enabled) all_records ≡ true
keep-any name kind [] r rs h = absurd (ground arith)
keep-any name kind (q ∷ all_records) r rs h = ground (arith, keep-any name kind all_records r rs)

has_wildcard_match-is_valid :
    (suffix query_name : Text)
    → has_wildcard_match (b'*' ∷ b'.' ∷ suffix) query_name
      ≡ is_valid_wildcard_match (b'*' ∷ b'.' ∷ suffix) query_name
unfolding has_wildcard_match is_valid_wildcard_match has_prefix
has_wildcard_match-is_valid suffix query_name = refl

matches-any :
    (suffix name kind : Text) (all_records : List Record) (m : Record) (ms : List Record)
    → matches (b'*' ∷ b'.' ∷ suffix) name kind all_records ≡ m ∷ ms
    → any (λ q. q.enabled && has_wildcard_match q.name name) all_records ≡ true
unfolding matches
matches-any suffix name kind [] m ms h = absurd (ground arith)
matches-any suffix name kind (q ∷ all_records) m ms h = ground (
  arith,
  matches-any suffix name kind all_records m ms,
  text_beq_iff q.name (b'*' ∷ b'.' ∷ suffix),
  has_wildcard_match-is_valid suffix name,
)

wildcard_rounds-any :
    (labels : List Text) (name kind : Text) (all_records : List Record) (m : Record)
    (ms : List Record)
    → wildcard_rounds all_records name kind labels ≡ m ∷ ms
    → any (λ q. q.enabled && has_wildcard_match q.name name) all_records ≡ true
unfolding wildcard_rounds join
wildcard_rounds-any [] name kind all_records m ms h = absurd (ground arith)
wildcard_rounds-any (l ∷ labels) name kind all_records m ms h =
    go (λ e. wildcard_rounds-any labels name kind all_records m ms e)
      (matches (b'*' ∷ b'.' ∷ (join (l ∷ labels) (codes ".") ++ codes ".")) name kind all_records)
      refl h
  where
    go :
        (wildcard_rounds all_records name kind labels ≡ m ∷ ms
          → any (λ q. q.enabled && has_wildcard_match q.name name) all_records ≡ true)
        → (found : List Record)
        → matches (b'*' ∷ b'.' ∷ (join (l ∷ labels) (codes ".") ++ codes ".")) name kind all_records
          ≡ found
        → elim found as (λ _. List Record) [
          | [] ↦ wildcard_rounds all_records name kind labels
          | x ∷ xs ↦ x ∷ xs
        ]
          ≡ m ∷ ms
        → any (λ q. q.enabled && has_wildcard_match q.name name) all_records ≡ true
    go rest [] e h' = rest h'
    go rest (x ∷ xs) e h' =
        matches-any (join (l ∷ labels) (codes ".") ++ codes ".") name kind all_records x xs e

-- A domain with records of some type, its own or those of a wildcard, is one that exists.
pub get_records_by_name_and_zone-exists :
    (all_records : List Record) (name kind : Text) (r : Record) (rs : List Record)
    → get_records_by_name_and_zone (ok all_records) name kind ≡ ok (r ∷ rs)
    → domain_exists_in_zone (ok all_records) name ≡ ok true
unfolding get_records_by_name_and_zone domain_exists_in_zone select_records find_wildcard_records
get_records_by_name_and_zone-exists all_records name kind r rs h =
    go (keep (λ q. q.name == name && (q.record_type == kind && q.enabled)) all_records) refl
  where
    go :
        (exact : List Record)
        → keep (λ q. q.name == name && (q.record_type == kind && q.enabled)) all_records ≡ exact
        → domain_exists_in_zone (ok all_records) name ≡ ok true
    go (x ∷ xs) e = ground (arith, keep-any name kind all_records x xs e)
    go [] e = elim (Bool-cases (name == [] || name == codes ".")) [
      | inl root ↦ absurd (ground (arith, h, e, root))
      | inr below ↦ ground (
        arith,
        wildcard_rounds-any (behind_first (split (trim_suffix name (codes ".")) b'.')) name kind
            all_records r rs (ground (arith, h, e, below)),
      )
    ]

trim_suffix-dotless : (t : Text) → has_byte b'.' t ≡ false → trim_suffix t (codes ".") ≡ t
unfolding trim_suffix has_byte
trim_suffix-dotless [] h = refl
trim_suffix-dotless (c ∷ t) h =
    ground (arith, trim_suffix-dotless t, text_beq_iff (c ∷ t) (codes "."), nat_beq_iff c b'.')

-- A wildcard record is taken to match every name that ends in what stands behind `*.`, with
-- anything without a dot before it: a part of a label too.
has_wildcard_match-prefix :
    (prefix suffix : Text)
    → prefix ≢ []
    → has_byte b'.' prefix ≡ false
    → suffix ≢ []
    → has_wildcard_match (codes "*." ++ suffix) (prefix ++ suffix) ≡ true
unfolding has_wildcard_match has_prefix trim_prefix
has_wildcard_match-prefix prefix [] ne plain full = absurd (full refl)
has_wildcard_match-prefix prefix (d ∷ suffix) ne plain full =
    rw
      (
        Text.has_suffix-append prefix (d ∷ suffix),
        Text.trim_suffix-append prefix d suffix,
        trim_suffix-dotless prefix plain,
      )
      (ground (arith, plain, ne, text_beq_iff prefix []))
