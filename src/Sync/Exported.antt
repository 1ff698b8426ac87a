-- ===== src/Sync/Exported.antt =====
-- A row that is exported and read again by the columns of its table.
use mathlib.Core.Path.{◌≡◌, refl, ap, ◌∙◌}
use dns_go.Base.{
  Bool, true, false, List, [], ◌∷◌, none, if◌then◌else◌, arith, contains, Option-cases, Bool-cases,
  inl, inr,
}
use dns_go.Base.Map
use dns_go.Base.Text.{Text, text_eq, text_beq}
use dns_go.Sync.{
  Table, zones, records, upstream_servers, gslb_policies, gslb_pools, gslb_members, health_checks,
  adblock_sources, adblock_domains, columns, Row, cells,
}
use dns_go.Sync.Schema.{schema, left_out, copied_columns, picked}
use dns_go.Sync.Export.{selected, export_row}

abbrev all_in : List Text → List Text → Bool
all_in [] ns = true
all_in (m ∷ ms) ns = if contains m ns then all_in ms ns else false

-- Every column that is filled is exported.
columns-selected : (t : Table) → all_in (columns t) (selected t) ≡ true
unfolding columns selected text_beq
columns-selected zones = refl
columns-selected records = refl
columns-selected upstream_servers = refl
columns-selected gslb_policies = refl
columns-selected gslb_pools = refl
columns-selected gslb_members = refl
columns-selected health_checks = refl
columns-selected adblock_sources = refl
columns-selected adblock_domains = refl

columns-copied : (t : Table) → columns t ≡ copied_columns t
unfolding columns copied_columns schema left_out text_beq
columns-copied zones = refl
columns-copied records = refl
columns-copied upstream_servers = refl
columns-copied gslb_policies = refl
columns-copied gslb_pools = refl
columns-copied gslb_members = refl
columns-copied health_checks = refl
columns-copied adblock_sources = refl
columns-copied adblock_domains = refl

module _ {Value : Type 0} where
  get-export_row :
      (n : Text) (ns : List Text) (row : Row Value)
      → Map.get n (export_row ns (picked ns row)) ≡ (if contains n ns then Map.get n row else none)
  unfolding export_row Map.get
  get-export_row n [] row = refl
  get-export_row n (m ∷ ns) row = elim (Bool-cases (text_beq m n)) [
    | inl here ↦
        let it : m ≡ n = (text_eq.beq_iff m n).0 here in
        let same : Map.get m row ≡ Map.get n row = ap (λ k. Map.get k row) it in
        elim (Option-cases (Map.get m row)) [
          | inl e ↦ rw (e) (ground (arith, e, here, same, get-export_row n ns row))
          | inr (v, e) ↦
              rw (e) (ground (arith, e, here, same, text_eq.beq_iff n m, text_eq.beq_iff m n))
        ]
    | inr away ↦ elim (Option-cases (Map.get m row)) [
      | inl e ↦ rw (e) (ground (arith, away, get-export_row n ns row))
      | inr (v, e) ↦
          rw (e) (
            ground (arith, away, get-export_row n ns row, text_eq.beq_iff n m, text_eq.beq_iff m n))
    ]
  ]

  picked-export_row :
      (ms ns : List Text) (row : Row Value)
      → all_in ms ns ≡ true
      → picked ms (export_row ns (picked ns row)) ≡ picked ms row
  picked-export_row [] ns row inside = refl
  picked-export_row (m ∷ ms) ns row inside =
      let first : Map.get m (export_row ns (picked ns row)) ≡ Map.get m row =
        ground (arith, inside, get-export_row m ns row) in
      ap (λ x. x ∷ picked ms (export_row ns (picked ns row))) first
      ∙ ap (λ xs. Map.get m row ∷ xs) (picked-export_row ms ns row (ground (arith, inside)))

  pub cells-export_row :
      (t : Table) (row : Row Value)
      → cells t (export_row (selected t) (picked (selected t) row)) ≡ picked (copied_columns t) row
  unfolding cells
  cells-export_row t row =
      picked-export_row (columns t) (selected t) row (columns-selected t)
      ∙ ap (λ ns. picked ns row) (columns-copied t)
