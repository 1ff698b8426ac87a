-- ===== src/Sync/Carried.antt =====
-- A full synchronisation from end to end: the export of the primary, JSON, and the transaction of
-- the secondary.
use mathlib.Core.List.{map}
use mathlib.Core.Path.{◌≡◌, refl, sym, ap, subst, ◌∙◌}
use mathlib.Core.Option
use dns_go.Base.{ℕ, ◌≤◌, Bool, true, List, [], ◌∷◌, ok, arith}
use dns_go.Base.Map
use dns_go.Base.Text.{Text, text_eq}
use dns_go.Sync.{
  Table, zones, records, upstream_servers, gslb_policies, gslb_pools, gslb_members, health_checks,
  adblock_sources, adblock_domains, columns, Cells, Row, Snapshot, Backend, Secondary, cells,
  fetch_full, full_sync,
}
use dns_go.Sync.Rows.{same_table}
use dns_go.Sync.Replaced.{copied}
use dns_go.Sync.Full.{SyncLaws, Outcome, full_sync-Outcome}
use dns_go.Sync.Export.{Primary, selected, export_row, get_full, get_metadata}
use dns_go.Sync.Schema.{copied_columns, picked, copied_rows}
use dns_go.Sync.Exported.{cells-export_row}
use dns_go.Sync.Current.{PrimaryLaws, exported_rows, listed, get_full-rows, get_metadata-version}

module _ {V W : Type 0} (carry : V → W) where
  -- A row after `json.Marshal` and `json.Unmarshal`, which keep the names: a number comes back as a
  -- float64 and a time as a text.
  unfoldable pub carried_row : Row V → Row W
  carried_row [] = []
  carried_row ((n, v) ∷ row) = (n, carry v) ∷ carried_row row

  unfoldable pub carried : Snapshot V → Snapshot W
  carried d = record {
    version = d.version;
    checksum = d.checksum;
    rows = λ t. map carried_row (d.rows t);
  }

  get-carried_row :
      (n : Text) (row : Row V) → Map.get n (carried_row row) ≡ Option.map carry (Map.get n row)
  unfolding Map.get carried_row
  get-carried_row n [] = refl
  get-carried_row n ((m, v) ∷ row) = grind (arith, get-carried_row n row)

  map-get-carried_row :
      (row : Row V) (ns : List Text)
      → map (λ n. Map.get n (carried_row row)) ns
        ≡ map (Option.map carry) (map (λ n. Map.get n row) ns)
  map-get-carried_row row [] = refl
  map-get-carried_row row (n ∷ ns) =
      ap (λ x. x ∷ map (λ k. Map.get k (carried_row row)) ns) (get-carried_row n row)
      ∙ ap (λ xs. Option.map carry (Map.get n row) ∷ xs) (map-get-carried_row row ns)

  -- A table that was exported, carried and read again.
  cells-carried_row :
      (t : Table) (rows : List (Row V))
      → map (cells t) (map carried_row (exported_rows t rows))
        ≡ map (map (Option.map carry)) (copied_rows t rows)
  unfolding cells
  cells-carried_row t [] = refl
  cells-carried_row t (row ∷ rows) =
      let sent = export_row (selected t) (picked (selected t) row) in
      ap (λ x. x ∷ map (cells t) (map carried_row (exported_rows t rows)))
        (map-get-carried_row sent (columns t)
          ∙ ap (map (Option.map carry)) (cells-export_row t row))
      ∙ ap (λ xs. map (Option.map carry) (picked (copied_columns t) row) ∷ xs)
          (cells-carried_row t rows)

-- The tables of which every change by the storage and by the web server raises the version.
abbrev versioned_tables : List Table
versioned_tables = zones ∷ records ∷ gslb_policies ∷ gslb_pools ∷ gslb_members ∷ health_checks ∷ []

copied-listed :
    {W : Type 0} (same_domain : Cells W → Cells W → Bool) (d : Snapshot W)
    (c : Table → List (Cells W)) (t : Table)
    → listed versioned_tables t ≡ true
    → copied same_domain d c t ≡ map (cells t) (d.rows t)
unfolding copied listed same_table
copied-listed same_domain d c zones h = refl
copied-listed same_domain d c records h = refl
copied-listed same_domain d c upstream_servers h = absurd (ground (arith, h))
copied-listed same_domain d c gslb_policies h = refl
copied-listed same_domain d c gslb_pools h = refl
copied-listed same_domain d c gslb_members h = refl
copied-listed same_domain d c health_checks h = refl
copied-listed same_domain d c adblock_sources h = absurd (ground (arith, h))
copied-listed same_domain d c adblock_domains h = absurd (ground (arith, h))

module _ {V : Type 0} (p : Primary V) (plaws : PrimaryLaws p) where
  -- Every change of the copied columns of the table `t` raises the version, and nothing lowers it.
  abbrev pub IsVersioned : (ℕ → p.Db) → Table → Type 0
  IsVersioned at t =
      ((i j : ℕ) → i ≤ j → plaws.version_in (at i) ≤ plaws.version_in (at j))
      × ((i j : ℕ)
          → i ≤ j
          → plaws.version_in (at i) ≡ plaws.version_in (at j)
          → copied_rows t (plaws.rows_in (at i) t) ≡ copied_rows t (plaws.rows_in (at j) t))

  module _ (b : Backend) (laws : SyncLaws b) (carry : V → b.Value) where
    -- An answer of the primary takes nineteen reads, between which others may change the data. Where
    -- every change of a table's copied columns raises the version, the answer arrived as JSON carries
    -- it and the secondary took it over, the secondary's table has the primary's rows, in their order,
    -- for as long as the primary reports the version of the answer: every column of the table, as JSON
    -- carries it, but `last_query_at` of a record and `expected_codes` of a health check. This is for
    -- zones, records, policies, pools, members and health checks.
    pub full_sync-current :
        (at : ℕ → p.Db) (d : Snapshot V) (s s' : Secondary b) (t : Table) (m : ℕ) (sum : Text)
        → IsVersioned at t
        → get_full p at ≡ ok d
        → fetch_full b ≡ ok (carried carry d)
        → full_sync b s ≡ (ok tt, s')
        → 19 ≤ m
        → get_metadata p (at m) ≡ ok (d.version, sum)
        → listed versioned_tables t ≡ true
        → laws.contents s'.db t
          ≡ map (map (Option.map carry)) (copied_rows t (plaws.rows_in (at m) t))
    unfolding carried
    full_sync-current at d s s' t m sum (grows, kept) answer fetched synced late same there =
        let (d', got, (tables, version, called, callback)) =
          subst (Outcome b laws s) synced (full_sync-Outcome b laws s) in
        let (first, found) = get_full-rows p plaws at d answer in
        let (k, soon, rows) = found t in
        let now : d.version ≡ plaws.version_in (at m) =
          get_metadata-version p plaws (at m) d.version sum same in
        let mid : plaws.version_in (at k) ≡ plaws.version_in (at m) =
          let below = grows 0 k (ground arith) in
          let above = grows k m (ground (arith, soon, late)) in
          ground (arith, first, now, below, above) in
        let taken : d' ≡ carried carry d = let equal = sym got ∙ fetched in ground (arith, equal) in
        tables t
        ∙ copied-listed laws.same_domain d' (laws.contents s.db) t there
        ∙ ap (λ x. map (cells t) (x.rows t)) taken
        ∙ ap (λ x. map (cells t) (map (carried_row carry) x)) rows
        ∙ cells-carried_row carry t (plaws.rows_in (at k) t)
        ∙ ap (map (map (Option.map carry))) (kept k m (ground (arith, soon, late)) mid)
