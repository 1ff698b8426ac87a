-- ===== src/Storage/Records.antt =====
-- `RecordCache` and `RecordStorage` of storage/record.go, without the lookup by name and type. The SQL
-- database is `RecordDatabase`: a state, and calls of which every one may fail.
pub mod Laws
pub mod Touch
pub mod Writes
pub mod Fresh
mod Tests
use dns_go.Base.{
  ◌>>=◌, ℕ, ◌+◌, Bool, List, [], ◌∷◌, ◌++◌, Option, none, some, Result, ok, err, ltb, if◌then◌else◌,
  nat_eq, ◌==◌,
}
use dns_go.Base.Map
use dns_go.Base.Map.{Map}
use dns_go.Base.Text.{Text, codes, text_eq, split, join, trim_suffix}
use dns_go.Storage.Types.{Record}
use dns_go.Storage.Zones.{Outcome}

-- The two statements of a touch set the time of the last query, the second one for enabled rows only.
pub data Statement : Type 0 where
  insert_record : Record → Statement
  update_row : Record → Statement
  delete_row : ℕ → Statement
  touch : (time : ℕ) → Text → Statement
  touch_enabled : (time : ℕ) → Text → Statement

-- `zone_records` is ordered by name and type.
pub record RecordDatabase : Type 1 where
  pub Db : Type 0
  pub find_record : Db → ℕ → Result (Option Record)
  pub zone_records : Db → ℕ → Result (List Record)
  pub begin : Db → Result Db
  pub prepare : Db → Result Db
  pub exec : Statement → Db → Result (Outcome Db)
  pub increment_version : Db → Result Db
  pub commit : Db → Result Db

-- One minute.
abbrev pub record_ttl : ℕ
record_ttl = 60000000000

pub record RecordCache : Type 0 where
  pub cache : Map ℕ (List Record)
  pub expiry : Map ℕ ℕ
  pub ttl : ℕ

unfoldable pub new_record_cache : ℕ → RecordCache
new_record_cache ttl = record { cache = []; expiry = []; ttl = ttl }

unfoldable pub get : ℕ → ℕ → RecordCache → Option (List Record)
get now zone c = elim (Map.get zone c.expiry) [
  | none ↦ none
  | some expiry ↦ if ltb expiry now then none else Map.get zone c.cache
]

unfoldable pub set : ℕ → ℕ → List Record → RecordCache → RecordCache
set now zone rs c = record c {
  cache = Map.put zone rs c.cache;
  expiry = Map.put zone (now + c.ttl) c.expiry;
}

unfoldable pub invalidate : ℕ → RecordCache → RecordCache
invalidate zone c = record c { cache = Map.delete zone c.cache; expiry = Map.delete zone c.expiry }

unfoldable pub invalidate_all : RecordCache → RecordCache
invalidate_all c = record c { cache = []; expiry = [] }

-- A star before each tail of the labels, from the longest on.
unfoldable pub starred : List Text → List Text
starred [] = []
starred (l ∷ []) = []
starred (l ∷ m ∷ ls) = (codes "*." ++ join (m ∷ ls) (codes ".") ++ codes ".") ∷ starred (m ∷ ls)

unfoldable pub wildcard_query_candidates : Text → List Text
wildcard_query_candidates query_name =
    if query_name == []
    then []
    else if query_name == codes "."
    then []
    else starred (split (trim_suffix query_name (codes ".")) b'.')

module _ (d : RecordDatabase) where
  open d use {Db, find_record, zone_records, begin, prepare, exec, increment_version, commit}

  pub record RecordStorage : Type 0 where
    pub db : Db
    pub cache : RecordCache

  unfoldable pub new_record_storage : Db → RecordStorage
  new_record_storage db = record { db = db; cache = new_record_cache record_ttl }

  unfoldable pub clear_cache : RecordStorage → RecordStorage
  clear_cache s = record s { cache = invalidate_all s.cache }

  unfoldable pub get_records_by_zone : ℕ → ℕ → RecordStorage → Result (List Record) × RecordStorage
  get_records_by_zone now zone s = elim (get now zone s.cache) [
    | some rs ↦ (ok rs, s)
    | none ↦ elim (zone_records s.db zone) [
      | err ↦ (err, s)
      | ok rs ↦ (ok rs, record s { cache = set now zone rs s.cache })
    ]
  ]

  -- The step of the version and the commit that end every write, and the zone that is dropped from
  -- the cache.
  unfoldable pub finish : ℕ → Db → RecordStorage → Result (Unit {0}) × RecordStorage
  finish zone db s = elim (increment_version db) [
    | err ↦ (err, s)
    | ok db' ↦ elim (commit db') [
      | err ↦ (err, s)
      | ok db'' ↦ (ok tt, record { db = db''; cache = invalidate zone s.cache })
    ]
  ]

  -- The time to live of `CreateRecord`, where none is given.
  unfoldable pub with_ttl : Record → Record
  with_ttl r = record r { ttl = if r.ttl == 0 then 300 else r.ttl }

  unfoldable pub create_record : Record → RecordStorage → Result ℕ × RecordStorage
  create_record r s = elim (begin s.db) [
    | err ↦ (err, s)
    | ok tx ↦ elim (exec (insert_record (with_ttl r)) tx) [
      | err ↦ (err, s)
      | ok o ↦ elim o.last_insert_id [
        | err ↦ (err, s)
        | ok id ↦
            let (result, s') = finish r.zone_id o.after s in
            elim result [ err ↦ (err, s') | ok _ ↦ (ok id, s') ]
      ]
    ]
  ]

  -- The transaction that `UpdateRecord` and `DeleteRecord` share, and the zone that it drops.
  unfoldable pub change : ℕ → Statement → RecordStorage → Result (Unit {0}) × RecordStorage
  change zone statement s = elim (begin s.db) [
    | err ↦ (err, s)
    | ok tx ↦ elim (exec statement tx) [
      | err ↦ (err, s)
      | ok o ↦ elim o.rows_affected [
        | err ↦ (err, s)
        | ok rows ↦ if rows == 0 then (err, s) else finish zone o.after s
      ]
    ]
  ]

  unfoldable pub update_record : Record → RecordStorage → Result (Unit {0}) × RecordStorage
  update_record r s = change r.zone_id (update_row r) s

  unfoldable pub delete_record : ℕ → RecordStorage → Result (Unit {0}) × RecordStorage
  delete_record id s = elim (find_record s.db id) [
    | err ↦ (err, s)
    | ok none ↦ (err, s)
    | ok (some r) ↦ change r.zone_id (delete_row id) s
  ]

  -- The wildcards in turn, up to the first that has a row.
  unfoldable pub touch_first : ℕ → List Text → Db → Result Db
  touch_first time [] tx = ok tx
  touch_first time (c ∷ cs) tx = do
    o ← exec (touch_enabled time c) tx
    rows ← o.rows_affected
    let next = touch_first time cs o.after in if rows == 0 then next else ok o.after

  unfoldable pub touch_domain : Text → ℕ → Db → Result Db
  touch_domain domain time tx = do
    o ← exec (touch time domain) tx
    rows ← o.rows_affected
    if rows == 0 then touch_first time (wildcard_query_candidates domain) o.after else ok o.after

  unfoldable pub touch_all : Map Text ℕ → Db → Result Db
  touch_all [] tx = ok tx
  touch_all ((domain, time) ∷ queries) tx = do
    tx' ← if domain == [] then ok tx else touch_domain domain time tx
    touch_all queries tx'

  -- `prepare` prepares both statements.
  unfoldable pub touched : Map Text ℕ → Db → Result Db
  touched queries db = do
    tx ← begin db
    ready ← prepare tx
    done ← touch_all queries ready
    commit done

  unfoldable pub batch_update_last_query_at :
      Map Text ℕ → RecordStorage → Result (Unit {0}) × RecordStorage
  batch_update_last_query_at [] s = (ok tt, s)
  batch_update_last_query_at (q ∷ qs) s = elim (touched (q ∷ qs) s.db) [
    | err ↦ (err, s)
    | ok db ↦ (ok tt, record s { db = db })
  ]
