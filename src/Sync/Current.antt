-- ===== src/Sync/Current.antt =====
-- A primary's export at work: what a full answer of web/api_sync.go holds, table by table.
use mathlib.Core.List.{map}
use mathlib.Core.Path.{◌≡◌, refl, sym, ap, ◌∙◌}
use dns_go.Base.{
  bind-ok, ◌>>=◌, ℕ, suc, ◌+◌, ◌≤◌, ◌<◌, Bool, true, false, List, [], ◌∷◌, Option, ok,
  if◌then◌else◌, ◌==◌, nat_eq, Bool-cases, arith, inl, inr, length,
}
use dns_go.Base.Text.{Text}
use dns_go.Sync.{
  Table, zones, records, upstream_servers, gslb_policies, gslb_pools, gslb_members, health_checks,
  adblock_sources, adblock_domains, Cells, Row, Snapshot,
}
use dns_go.Sync.Rows.{same_table, number}
use dns_go.Sync.Export.{
  Primary, selected, export_row, export_order, rows_of, get_all, get_tables, calculate_checksum,
  get_full, text_of, get_metadata,
}
use dns_go.Sync.Schema.{picked}

-- The table of a number.
named : ℕ → Table
named n =
    if n == 0
    then zones
    else if n == 1
    then records
    else if n == 2
    then upstream_servers
    else if n == 3
    then gslb_policies
    else if n == 4
    then gslb_pools
    else if n == 5
    then gslb_members
    else if n == 6
    then health_checks
    else if n == 7
    then adblock_sources
    else adblock_domains

named-number : (t : Table) → named (number t) ≡ t
unfolding named
named-number zones = refl
named-number records = refl
named-number upstream_servers = refl
named-number gslb_policies = refl
named-number gslb_pools = refl
named-number gslb_members = refl
named-number health_checks = refl
named-number adblock_sources = refl
named-number adblock_domains = refl

same_table-≡ : (t u : Table) → same_table t u ≡ true → t ≡ u
unfolding same_table
same_table-≡ t u h =
    let equal : number t ≡ number u = ground (arith, h) in
    sym (named-number t) ∙ ap named equal ∙ named-number u

unfoldable pub listed : List Table → Table → Bool
listed [] u = false
listed (t ∷ ts) u = if same_table t u then true else listed ts u

export_order-listed : (t : Table) → listed export_order t ≡ true
unfolding listed export_order same_table
export_order-listed zones = refl
export_order-listed records = refl
export_order-listed upstream_servers = refl
export_order-listed gslb_policies = refl
export_order-listed gslb_pools = refl
export_order-listed gslb_members = refl
export_order-listed health_checks = refl
export_order-listed adblock_sources = refl
export_order-listed adblock_domains = refl

-- The exported rows of a table.
abbrev pub exported_rows : {Value : Type 0} → Table → List (Row Value) → List (Row Value)
exported_rows t rows = map (export_row (selected t)) (map (picked (selected t)) rows)

-- What a database of the primary holds, every column of a row by its name, and that its queries read
-- the columns that they select of it.
pub record PrimaryLaws {Value : Type 0} (p : Primary Value) : Type 0 where
  pub rows_in : p.Db → Table → List (Row Value)
  pub version_in : p.Db → ℕ
  pub query-rows :
      (t : Table) (db : p.Db) (rs : List (Cells Value))
      → p.query t db ≡ ok rs
      → rs ≡ map (picked (selected t)) (rows_in db t)
  pub version-reads : (db : p.Db) (v : ℕ) → p.version db ≡ ok v → v ≡ version_in db
  pub state-reads :
      (db : p.Db) (v : ℕ) (sum : Option Text) → p.state db ≡ ok (v, sum) → v ≡ version_in db

module _ {Value : Type 0} (p : Primary Value) (laws : PrimaryLaws p) where
  get_all-rows :
      (t : Table) (db : p.Db) (rs : List (Row Value))
      → get_all p t db ≡ ok rs
      → rs ≡ exported_rows t (laws.rows_in db t)
  unfolding get_all
  get_all-rows t db rs e =
      let (cs, asked, made) =
        bind-ok (p.query t db) (λ cs. ok (map (export_row (selected t)) cs)) rs e in
      let same : rs ≡ map (export_row (selected t)) cs = ground (arith, made) in
      same ∙ ap (map (export_row (selected t))) (laws.query-rows t db cs asked)

  get_tables-rows :
      (ts : List Table) (at : ℕ → p.Db) (i : ℕ) (out : List (Table × List (Row Value)))
      → get_tables p ts at i ≡ ok out
      → (t : Table) → listed ts t ≡ true
      → (k : ℕ) × (i ≤ k)
        × (k < i + length ts)
        × (rows_of out t ≡ exported_rows t (laws.rows_in (at k) t))
  unfolding get_tables rows_of listed
  get_tables-rows [] at i out e t there = absurd (ground (arith, there))
  get_tables-rows (u ∷ ts) at i out e t there =
      let next =
        λ (rs : List (Row Value)). get_tables p ts at (suc i) >>= λ more. ok ((u, rs) ∷ more) in
      let (rs, first, e1) = bind-ok (get_all p u (at i)) next out e in
      let (more, rest, made) =
        bind-ok (get_tables p ts at (suc i)) (λ more. ok ((u, rs) ∷ more)) out e1 in
      let same : out ≡ (u, rs) ∷ more = ground (arith, made) in
      elim (Bool-cases (same_table u t)) [
        | inl here ↦
            let it : u ≡ t = same_table-≡ u t here in
            let found : rows_of ((u, rs) ∷ more) t ≡ rs = ground (arith, here) in
            (
              i,
              ground arith,
              ground arith,
              ap (λ o. rows_of o t) same
                  ∙ found
                  ∙ get_all-rows u (at i) rs first
                  ∙ ap (λ x. exported_rows x (laws.rows_in (at i) x)) it,
            )
        | inr other ↦
            let skipped : rows_of ((u, rs) ∷ more) t ≡ rows_of more t = ground (arith, other) in
            let (k, low, high, holds) =
              get_tables-rows ts at (suc i) more rest t (ground (arith, there, other)) in
            (
              k,
              ground (arith, low),
              ground (arith, high),
              ap (λ o. rows_of o t) same ∙ skipped ∙ holds,
            )
      ]

  -- Every table of an answer is the table at a moment after its version was read.
  pub get_full-rows :
      (at : ℕ → p.Db) (d : Snapshot Value)
      → get_full p at ≡ ok d
      → (d.version ≡ laws.version_in (at 0))
        × ((t : Table) → (k : ℕ) × (k < 19) × (d.rows t ≡ exported_rows t (laws.rows_in (at k) t)))
  unfolding get_full export_order
  get_full-rows at d e =
      let answer = λ (v : ℕ) (sum : Text) (tables : List (Table × List (Row Value))).
        let made : Snapshot Value = record { version = v; checksum = sum; rows = rows_of tables } in
        made in
      let summed = λ (v : ℕ). calculate_checksum p at 1 >>= λ sum.
      get_tables p export_order at 10 >>= λ tables. ok (answer v sum tables) in
      let (v, read, e1) = bind-ok (p.version (at 0)) summed d e in
      let (sum, digested, e2) =
        bind-ok (calculate_checksum p at 1)
          (λ sum. get_tables p export_order at 10 >>= λ tables. ok (answer v sum tables)) d e1 in
      let (tables, got, made) =
        bind-ok (get_tables p export_order at 10) (λ tables. ok (answer v sum tables)) d e2 in
      let same : d ≡ answer v sum tables = ground (arith, made) in
      (
        ap (λ x. x.version) same ∙ laws.version-reads (at 0) v read,
        (λ t.
            let (k, low, high, holds) =
              get_tables-rows export_order at 10 tables got t (export_order-listed t) in
            (k, high, ap (λ x. x.rows t) same ∙ holds)),
      )

  pub get_metadata-version :
      (db : p.Db) (v : ℕ) (sum : Text) → get_metadata p db ≡ ok (v, sum) → v ≡ laws.version_in db
  unfolding get_metadata
  get_metadata-version db v sum e =
      let ((w, stored), read, made) =
        bind-ok (p.state db) (λ (x : ℕ × Option Text). ok (x.0, text_of x.1)) (v, sum) e in
      let equal : w ≡ v = ground (arith, made) in sym equal ∙ laws.state-reads db w stored read
