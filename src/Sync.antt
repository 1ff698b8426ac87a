-- ===== src/Sync.antt =====
-- A primary server and the secondaries that copy its data: `Worker` of sync/worker.go, and the
-- export of storage/sync_version.go and web/api_sync.go.
-- The SQL database and the HTTP exchange are `Backend`: every call of them may fail. A transaction that
-- fails is rolled back. A row is what
-- its columns hold, in the order of `columns`; NULL is `none`.
pub mod Schema
pub mod Rows
pub mod Replaced
pub mod Versions
pub mod Full
pub mod Export
pub mod Exported
pub mod Current
pub mod Carried
mod Tests
use mathlib.Core.List.{map}
use dns_go.Base.{
  ◌>>=◌, ℕ, zero, suc, ◌+◌, Bool, true, false, not, List, [], ◌∷◌, ◌++◌, Option, none, some, Result,
  ok, err, if◌then◌else◌, nat_eq, ◌==◌,
}
use dns_go.Base.Map
use dns_go.Base.Map.{Map}
use dns_go.Base.Text.{Text, codes, text_eq}

pub data Table : Type 0 where
  zones records upstream_servers gslb_policies gslb_pools gslb_members health_checks : Table
  adblock_sources adblock_domains : Table

-- The columns of the INSERT statements.
unfoldable pub columns : Table → List Text
columns zones =
    codes "id"
    ∷ codes "name"
    ∷ codes "soa_mname"
    ∷ codes "soa_rname"
    ∷ codes "soa_serial"
    ∷ codes "soa_refresh"
    ∷ codes "soa_retry"
    ∷ codes "soa_expire"
    ∷ codes "soa_minimum"
    ∷ codes "enabled"
    ∷ codes "allow_fallback"
    ∷ codes "created_at"
    ∷ codes "updated_at"
    ∷ []
columns records =
    codes "id"
    ∷ codes "zone_id"
    ∷ codes "name"
    ∷ codes "type"
    ∷ codes "content"
    ∷ codes "ttl"
    ∷ codes "priority"
    ∷ codes "enabled"
    ∷ codes "created_at"
    ∷ codes "updated_at"
    ∷ []
columns upstream_servers =
    codes "id"
    ∷ codes "name"
    ∷ codes "address"
    ∷ codes "protocol"
    ∷ codes "priority"
    ∷ codes "enabled"
    ∷ codes "created_at"
    ∷ codes "updated_at"
    ∷ []
columns gslb_policies =
    codes "id"
    ∷ codes "name"
    ∷ codes "domain"
    ∷ codes "record_type"
    ∷ codes "ttl"
    ∷ codes "enabled"
    ∷ codes "created_at"
    ∷ []
columns gslb_pools =
    codes "id"
    ∷ codes "policy_id"
    ∷ codes "name"
    ∷ codes "match_type"
    ∷ codes "match_value"
    ∷ codes "priority"
    ∷ codes "fallback_pool"
    ∷ []
columns gslb_members =
    codes "id" ∷ codes "pool_id" ∷ codes "address" ∷ codes "weight" ∷ codes "enabled" ∷ []
columns health_checks =
    codes "id"
    ∷ codes "policy_id"
    ∷ codes "check_type"
    ∷ codes "target"
    ∷ codes "interval_sec"
    ∷ codes "timeout_sec"
    ∷ codes "healthy_threshold"
    ∷ codes "unhealthy_threshold"
    ∷ codes "enabled"
    ∷ []
columns adblock_sources =
    codes "id"
    ∷ codes "name"
    ∷ codes "url"
    ∷ codes "enabled"
    ∷ codes "last_sync"
    ∷ codes "last_modified"
    ∷ codes "rule_count"
    ∷ codes "created_at"
    ∷ codes "updated_at"
    ∷ []
columns adblock_domains = codes "domain" ∷ codes "source_id" ∷ []

-- What the columns of one row hold.
abbrev pub Cells : Type 0 → Type 0
Cells Value = List (Option Value)

-- A row as JSON carries it: the names of its columns with what they hold.
abbrev pub Row : Type 0 → Type 0
Row Value = Map Text Value

-- `insert_or_ignore` is for the table of blocked domains, and `prepare` prepares it.
pub data Statement (Value : Type 0) : Type 0 where
  delete_all : Table → Statement Value
  insert : Table → Cells Value → Statement Value
  prepare : Statement Value
  insert_or_ignore : Cells Value → Statement Value
  set_state : (version : ℕ) (checksum : Text) → Statement Value

pub record Snapshot (Value : Type 0) : Type 0 where
  pub version : ℕ
  pub checksum : Text
  pub rows : Table → List (Row Value)

-- An answer over HTTP; reading its body may fail.
pub record Response : Type 0 where
  pub status : ℕ
  pub body : Result Text

-- `get` asks the primary for a path, and the two functions after it are `json.Unmarshal`.
-- `local_version` is none where there is no row of the state.
pub record Backend : Type 1 where
  pub Db : Type 0
  pub Value : Type 0
  pub get : Text → Result Response
  pub unmarshal_full : Text → Result (Snapshot Value)
  pub unmarshal_metadata : Text → Result (ℕ × Text)
  pub local_version : Db → Result (Option ℕ)
  pub begin : Db → Result Db
  pub exec : Statement Value → Db → Result Db
  pub commit : Db → Result Db

-- `row[name]` for each column.
unfoldable pub cells : {Value : Type 0} → Table → Row Value → Cells Value
cells t row = map (λ name. Map.get name row) (columns t)

-- The tables in the order in which `fullSync` fills them.
unfoldable pub insert_order : List Table
insert_order =
    zones ∷ records ∷ gslb_policies ∷ gslb_pools ∷ gslb_members ∷ health_checks ∷ adblock_sources
    ∷ []

module _ {Value : Type 0} where
  -- The loops over the rows of a table.
  unfoldable pub insert_all : Table → List (Row Value) → List (Statement Value)
  insert_all t [] = []
  insert_all t (r ∷ rs) = insert t (cells t r) ∷ insert_all t rs

  unfoldable pub ignore_all : List (Row Value) → List (Statement Value)
  ignore_all [] = []
  ignore_all (r ∷ rs) = insert_or_ignore (cells adblock_domains r) ∷ ignore_all rs

  -- `insertAdblockDomainsBatch`, which is called only for a list that is not empty.
  unfoldable pub domains_batch : List (Row Value) → List (Statement Value)
  domains_batch [] = []
  domains_batch (r ∷ rs) = prepare ∷ ignore_all (r ∷ rs)

  -- The tables in the order in which they are emptied: what refers to a table goes before it.
  unfoldable pub deletions : List (Statement Value)
  deletions =
      delete_all records
      ∷ delete_all zones
      ∷ delete_all health_checks
      ∷ delete_all gslb_members
      ∷ delete_all gslb_pools
      ∷ delete_all gslb_policies
      ∷ delete_all adblock_domains
      ∷ delete_all adblock_sources
      ∷ []

  unfoldable pub insertions : List Table → Snapshot Value → List (Statement Value)
  insertions [] d = []
  insertions (t ∷ ts) d = insert_all t (d.rows t) ++ insertions ts d

  -- The statements of a transaction of `fullSync`, each of which is the last one if it fails.
  unfoldable pub replacement : Snapshot Value → List (Statement Value)
  replacement d =
      deletions
      ++ (insertions insert_order d
          ++ (domains_batch (d.rows adblock_domains) ++ set_state d.version d.checksum ∷ []))

module _ (b : Backend) where
  open b use {
    Db, Value, get, unmarshal_full, unmarshal_metadata, local_version, begin, exec, commit,
  }

  -- `synced` counts the calls of the callback, if there is one.
  pub record Secondary : Type 0 where
    pub db : Db
    pub has_callback : Bool
    pub synced : ℕ

  unfoldable pub run_all : List (Statement Value) → Db → Result Db
  run_all [] db = ok db
  run_all (st ∷ sts) db = exec st db >>= λ db'. run_all sts db'

  -- The body of an answer with the status 200.
  unfoldable pub fetch : Text → Result Text
  fetch path = get path >>= λ resp. if resp.status == 200 then resp.body else err

  unfoldable pub fetch_full : Result (Snapshot Value)
  fetch_full = fetch (codes "/api/sync/full") >>= λ body. unmarshal_full body

  -- The transaction of `fullSync`.
  unfoldable pub replaced : Snapshot Value → Db → Result Db
  replaced d db = do tx ← begin db; tx' ← run_all (replacement d) tx; commit tx'

  unfoldable pub finish : Secondary → Result Db → Result (Unit {0}) × Secondary
  finish s err = (err, s)
  finish s (ok db) =
      (ok tt, record s { db = db; synced = if s.has_callback then s.synced + 1 else s.synced })

  unfoldable pub full_sync : Secondary → Result (Unit {0}) × Secondary
  full_sync s = finish s (fetch_full >>= λ d. replaced d s.db)

  -- A version of 0 stands also for a row that is missing or cannot be read.
  abbrev pub version_or_zero : Result (Option ℕ) → ℕ
  version_or_zero err = 0
  version_or_zero (ok none) = 0
  version_or_zero (ok (some v)) = v

  -- The version and the checksum of the primary.
  unfoldable pub fetch_metadata : Result (ℕ × Text)
  fetch_metadata = fetch (codes "/api/sync/metadata") >>= λ body. unmarshal_metadata body

  unfoldable pub compare :
      Result (Unit {0}) × Secondary
      → Secondary
      → ℕ
      → Result (ℕ × Text)
      → Result (Unit {0}) × Secondary
  compare full s version err = (err, s)
  compare full s version (ok (remote, checksum)) = if remote == version then (ok tt, s) else full

  unfoldable pub incremental_sync : Secondary → Result (Unit {0}) × Secondary
  incremental_sync s =
      let version = version_or_zero (local_version s.db) in
      let full = full_sync s in if version == 0 then full else compare full s version fetch_metadata
