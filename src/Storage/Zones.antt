-- ===== src/Storage/Zones.antt =====
-- `ZoneCache` and `ZoneStorage` of storage/zone.go. The SQL database is `ZoneDatabase`: a state, and
-- calls of which every one may fail.
pub mod Fresh
use dns_go.Base.{
  ℕ, ◌+◌, Bool, List, [], ◌∷◌, Option, none, some, Result, ok, err, ltb, if◌then◌else◌, nat_eq,
  ◌==◌,
}
use dns_go.Base.Map
use dns_go.Base.Map.{Map}
use dns_go.Base.Text.{Text, text_eq}
use dns_go.Storage.Types.{Zone}

pub data Statement : Type 0 where
  insert_zone : Zone → Statement
  update_row : Zone → Statement
  delete_row : ℕ → Statement

pub record Outcome (Db : Type 0) : Type 0 where
  pub last_insert_id : Result ℕ
  pub rows_affected : Result ℕ
  pub after : Db

pub record ZoneDatabase : Type 1 where
  pub Db : Type 0
  pub find_zone : Db → ℕ → Result (Option Zone)
  pub find_enabled_zone : Db → Text → Result (Option Zone)
  pub all_zones : Db → Result (List Zone)
  pub begin : Db → Result Db
  pub exec : Statement → Db → Result (Outcome Db)
  pub increment_version : Db → Result Db
  pub commit : Db → Result Db

-- Five minutes.
abbrev pub zone_ttl : ℕ
zone_ttl = 300000000000

-- `expiry` 0 is the zero time, which any clock has passed.
pub record ZoneCache : Type 0 where
  pub zones : Map Text Zone
  pub expiry : ℕ
  pub ttl : ℕ

unfoldable pub new_zone_cache : ℕ → ZoneCache
new_zone_cache ttl = record { zones = []; expiry = 0; ttl = ttl }

unfoldable pub get : ℕ → Text → ZoneCache → Option Zone
get now name c = if ltb c.expiry now then none else Map.get name c.zones

unfoldable pub add_zones : List Zone → Map Text Zone → Map Text Zone
add_zones [] m = m
add_zones (z ∷ zs) m = add_zones zs (Map.put z.name z m)

unfoldable pub set : ℕ → List Zone → ZoneCache → ZoneCache
set now zs c = record c { zones = add_zones zs []; expiry = now + c.ttl }

unfoldable pub invalidate : ZoneCache → ZoneCache
invalidate c = record c { zones = []; expiry = 0 }

abbrev pub or_default : ℕ → ℕ → ℕ
or_default default value = if value == 0 then default else value

-- The values that `CreateZone` puts in for zeros.
unfoldable pub with_defaults : Zone → Zone
with_defaults z = record z {
  soa_serial = or_default 1 z.soa_serial;
  soa_refresh = or_default 3600 z.soa_refresh;
  soa_retry = or_default 900 z.soa_retry;
  soa_expire = or_default 86400 z.soa_expire;
  soa_minimum = or_default 300 z.soa_minimum;
}

module _ (d : ZoneDatabase) where
  open d use {Db, find_zone, find_enabled_zone, all_zones, begin, exec, increment_version, commit}

  pub record ZoneStorage : Type 0 where
    pub db : Db
    pub cache : ZoneCache

  unfoldable pub new_zone_storage : Db → ZoneStorage
  new_zone_storage db = record { db = db; cache = new_zone_cache zone_ttl }

  unfoldable pub clear_cache : ZoneStorage → ZoneStorage
  clear_cache s = record s { cache = invalidate s.cache }

  unfoldable pub get_zone : ℕ → ZoneStorage → Result (Option Zone)
  get_zone id s = find_zone s.db id

  unfoldable pub get_zone_by_name : ℕ → Text → ZoneStorage → Result (Option Zone) × ZoneStorage
  get_zone_by_name now name s = elim (get now name s.cache) [
    | some z ↦ (ok (some z), s)
    | none ↦ elim (find_enabled_zone s.db name) [
      | err ↦ (err, s)
      | ok none ↦ (ok none, s)
      | ok (some z) ↦ (ok (some z), record s { cache = set now (z ∷ []) s.cache })
    ]
  ]

  unfoldable pub list_zones : ℕ → ZoneStorage → Result (List Zone) × ZoneStorage
  list_zones now s = elim (all_zones s.db) [
    | err ↦ (err, s)
    | ok zs ↦ (ok zs, record s { cache = set now zs s.cache })
  ]

  -- The step of the version and the commit that end every write, and the cache that is cleared.
  unfoldable pub finish : Db → ZoneStorage → Result (Unit {0}) × ZoneStorage
  finish db s = elim (increment_version db) [
    | err ↦ (err, s)
    | ok db' ↦ elim (commit db') [
      | err ↦ (err, s)
      | ok db'' ↦ (ok tt, record { db = db''; cache = invalidate s.cache })
    ]
  ]

  unfoldable pub create_zone : Zone → ZoneStorage → Result ℕ × ZoneStorage
  create_zone z s = elim (begin s.db) [
    | err ↦ (err, s)
    | ok tx ↦ elim (exec (insert_zone (with_defaults z)) tx) [
      | err ↦ (err, s)
      | ok o ↦ elim o.last_insert_id [
        | err ↦ (err, s)
        | ok id ↦ let (r, s') = finish o.after s in elim r [ err ↦ (err, s') | ok _ ↦ (ok id, s') ]
      ]
    ]
  ]

  -- `UpdateZone` and `DeleteZone` differ in their statement.
  unfoldable pub change : Statement → ZoneStorage → Result (Unit {0}) × ZoneStorage
  change statement s = elim (begin s.db) [
    | err ↦ (err, s)
    | ok tx ↦ elim (exec statement tx) [
      | err ↦ (err, s)
      | ok o ↦ elim o.rows_affected [
        | err ↦ (err, s)
        | ok rows ↦ if rows == 0 then (err, s) else finish o.after s
      ]
    ]
  ]

  unfoldable pub update_zone : Zone → ZoneStorage → Result (Unit {0}) × ZoneStorage
  update_zone z s = change (update_row z) s

  unfoldable pub delete_zone : ℕ → ZoneStorage → Result (Unit {0}) × ZoneStorage
  delete_zone id s = change (delete_row id) s
