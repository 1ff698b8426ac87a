-- ===== src/Sync/Tests.antt =====
-- Tests and witnesses of the synchronisation: a primary with one zone and one blocked domain, and a
-- secondary that holds an upstream of its own and an old zone.
use mathlib.Core.List.{map}
use mathlib.Core.Path.{◌≡◌, refl, ap}
use mathlib.Core.Option
use dns_go.Base.{
  ℕ, ◌+◌, Bool, true, false, List, [], ◌∷◌, Option, none, some, ok, nat_eq, ◌==◌, leb,
  if◌then◌else◌, arith,
}
use dns_go.Base.Map
use dns_go.Base.Text.{codes, text_eq, text_beq}
use dns_go.Sync.{
  Table, zones, upstream_servers, health_checks, adblock_sources, adblock_domains, columns, Cells,
  Row, Snapshot, Backend, Secondary, cells, insert_order, fetch, fetch_full, fetch_metadata,
  full_sync, incremental_sync, compare, finish, replaced, run_all, replacement, deletions,
  insertions, insert_all, domains_batch, ignore_all,
}
use dns_go.Sync.Rows.{Tables, same_table, written, holds, add, add_all}
use dns_go.Sync.Versions.{versioned}
use dns_go.Sync.Full.{SyncLaws, IncrementalOutcome, incremental_sync-Outcome}
use dns_go.Sync.Export.{
  Primary, selected, export_row, export_order, rows_of, get_all, get_tables, calculate_checksum,
  get_full, get_metadata,
}
use dns_go.Sync.Schema.{schema, picked, copied_rows}
use dns_go.Sync.Current.{PrimaryLaws, exported_rows, listed}
use dns_go.Sync.Carried.{carried, carried_row, full_sync-current, IsVersioned}

record Store : Type 0 where
  tables : Tables ℕ
  version : Option ℕ

abbrev store_of : Tables ℕ → Option ℕ → Store
store_of tables version = record { tables = tables; version = version }

abbrev zone : ℕ → Cells ℕ
zone n =
    some n
    ∷ some 2
    ∷ some 3
    ∷ some 4
    ∷ some 5
    ∷ some 6
    ∷ some 7
    ∷ some 8
    ∷ some 9
    ∷ some 1
    ∷ some 0
    ∷ some 10
    ∷ some 11
    ∷ []

abbrev source : Cells ℕ
source = some 1 ∷ some 2 ∷ some 3 ∷ some 1 ∷ none ∷ none ∷ some 9 ∷ some 10 ∷ some 11 ∷ []

-- A health check, with its expected codes at the end.
abbrev check : ℕ → Cells ℕ
check n =
    some 1 ∷ some 2 ∷ some 3 ∷ some 4 ∷ some n ∷ some 6 ∷ some 7 ∷ some 8 ∷ some 1 ∷ some 200 ∷ []

-- The primary's tables at a version, the rows with every column by its name.
abbrev primary_tables : ℕ → Table → List (Row ℕ)
primary_tables v zones = export_row (schema zones) (zone v) ∷ []
primary_tables v health_checks = export_row (schema health_checks) (check v) ∷ []
primary_tables v adblock_sources = export_row (schema adblock_sources) source ∷ []
primary_tables v adblock_domains =
    export_row (schema adblock_domains) (some 9 ∷ some 40 ∷ some 1 ∷ some 10 ∷ []) ∷ []
primary_tables v t = []

abbrev secondary_tables : Tables ℕ
secondary_tables zones = zone 70 ∷ zone 80 ∷ []
secondary_tables upstream_servers = (some 5 ∷ []) ∷ []
secondary_tables t = []

abbrev apart : Table → Table → Bool
apart t u = false

-- Domains are the same where their first columns are.
abbrev same_first : Cells ℕ → Cells ℕ → Bool
same_first (some m ∷ c) (some n ∷ d) = m == n
same_first c d = false

abbrev primary : Primary ℕ
primary = record {
  Db = ℕ;
  query = λ t db. ok (map (picked (selected t)) (primary_tables db t));
  version = λ db. ok db;
  state = λ db. ok (db, none);
  digest = λ tables. ok (codes "sum");
}

abbrev exported : List (Table × List (Row ℕ))
exported = map (λ t. (t, exported_rows t (primary_tables 3 t))) export_order

abbrev answer : Snapshot ℕ
answer = record { version = 3; checksum = codes "sum"; rows = rows_of exported }

-- JSON is a change of the values here, by 100.
abbrev backend : Backend
backend = record {
  Db = Store;
  Value = ℕ;
  get = λ path. ok record { status = 200; body = ok path };
  unmarshal_full = λ body. ok (carried (λ n. n + 100) answer);
  unmarshal_metadata = λ body. ok (3, codes "sum");
  local_version = λ db. ok db.version;
  begin = λ db. ok db;
  exec = λ st db.
      ok record {
        tables = written apart same_first st db.tables;
        version = versioned st db.version;
      };
  commit = λ db. ok db;
}

ok-injective : {A : Type 0} {x y : A} → ok x ≡ ok y → y ≡ x
ok-injective e = ground (arith, e)

-- Nothing refers to an upstream.
upstreams : (t : Table) → apart t upstream_servers ≡ false
upstreams t = refl

abbrev laws : SyncLaws backend
laws = record {
  cascades = apart;
  upstreams_apart = upstreams;
  same_domain = same_first;
  contents = λ db. db.tables;
  version_of = λ db. db.version;
  begin-contents =
      λ db tx e. (ap (λ x. x.tables) (ok-injective e), ap (λ x. x.version) (ok-injective e));
  exec-contents =
      λ st db tx e. (ap (λ x. x.tables) (ok-injective e), ap (λ x. x.version) (ok-injective e));
  commit-contents =
      λ tx db e. (ap (λ x. x.tables) (ok-injective e), ap (λ x. x.version) (ok-injective e));
  local_version-reads = λ db v e. ok-injective e;
}

abbrev primary_laws : PrimaryLaws primary
primary_laws = record {
  rows_in = primary_tables;
  version_in = λ db. db;
  query-rows = λ t db rs e. ok-injective e;
  version-reads = λ db v e. ok-injective e;
  state-reads = λ db v sum e. ap (λ x. x.0) (ok-injective e);
}

abbrev secondary : Option ℕ → Secondary backend
secondary v = record {
  db = record { tables = secondary_tables; version = v };
  has_callback = true;
  synced = 0;
}

abbrev take_first : Cells ℕ → Option ℕ
take_first [] = none
take_first (c ∷ cs) = c

abbrev after : Secondary backend
after = (full_sync backend (secondary (some 0))).1

incremental_sync-Outcome_example :
    IncrementalOutcome backend laws
      (secondary (some 2))
      (incremental_sync backend (secondary (some 2)))
incremental_sync-Outcome_example = incremental_sync-Outcome backend laws (secondary (some 2))

-- The primary while it answers, and after a change.
abbrev history : ℕ → ℕ
history i = if leb i 30 then 3 else 4

history-IsVersioned : IsVersioned primary primary_laws history health_checks
history-IsVersioned = (
  (λ i j le. ground (arith, le)),
  (λ i j le same. ap (λ v. copied_rows health_checks (primary_tables v health_checks)) same),
)

full_sync-current_example :
    after.db.tables health_checks
    ≡ map
        (map (Option.map (λ n. n + 100)))
        (copied_rows health_checks (primary_tables (history 25) health_checks))
unfolding export_row export_order rows_of get_all get_tables calculate_checksum get_full
    get_metadata carried listed fetch_full fetch full_sync finish replaced run_all replacement
    deletions insertions insert_all domains_batch ignore_all insert_order written versioned
    same_table
full_sync-current_example =
    full_sync-current primary primary_laws backend laws (λ n. n + 100) history answer
      (secondary (some 0)) after health_checks 25 [] history-IsVersioned refl refl refl
      (ground arith) refl refl

-- The upstream stays, the old zones and the old version go, and the callback was called.
after-replaced :
    (after.db.tables upstream_servers ≡ (some 5 ∷ []) ∷ [])
    × (map (λ row. take_first row) (after.db.tables zones) ≡ some 103 ∷ [])
    × (after.db.tables health_checks
        ≡ (some 101
            ∷ some 102
            ∷ some 103
            ∷ some 104
            ∷ some 103
            ∷ some 106
            ∷ some 107
            ∷ some 108
            ∷ some 101
            ∷ [])
          ∷ [])
    × (after.db.tables adblock_domains ≡ (some 140 ∷ some 101 ∷ []) ∷ [])
    × (after.db.version ≡ some 3)
    × (after.synced ≡ 1)
unfolding fetch_full fetch full_sync finish replaced run_all replacement deletions insertions
    insert_all domains_batch ignore_all insert_order written versioned same_table carried
    carried_row rows_of export_row export_order cells columns selected schema Map.get text_beq add
    add_all holds
after-replaced = (refl, refl, refl, refl, refl, refl)

-- A secondary of the version 3 has nothing to do.
unchanged : incremental_sync backend (secondary (some 3)) ≡ (ok tt, secondary (some 3))
unfolding incremental_sync compare fetch_metadata fetch
unchanged = refl
