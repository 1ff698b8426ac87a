-- ===== src/Storage/Records/Laws.antt =====
-- The calls of `RecordStorage` of storage/record.go, and the laws of its database.
use mathlib.Core.List.{map}
use dns_go.Base.{ℕ, List, [], ◌∷◌, Option, none, some, Result, ok, err, nat_eq, ◌≡◌, ◌≢◌}
use dns_go.Base.Map.{Map}
use dns_go.Base.Text.{Text, text_eq}
use dns_go.Storage.Types.{Record}
use dns_go.Storage.Zones.{Outcome}
use dns_go.Storage.Records.{
  RecordDatabase, RecordStorage, insert_record, update_row, delete_row, touch, touch_enabled,
  clear_cache, get_records_by_zone, create_record, update_record, delete_record,
  batch_update_last_query_at,
}

pub data RecordCall : Type 0 where
  read_call : (now zone : ℕ) → RecordCall
  create_call : Record → RecordCall
  update_call : Record → RecordCall
  delete_call : ℕ → RecordCall
  touch_call : Map Text ℕ → RecordCall
  clear_call : RecordCall

-- The records without the times of their last queries.
abbrev pub untimed : Record → Record
untimed r = record r { last_query_at = none }

unfoldable pub untimed_all : Result (List Record) → Result (List Record)
untimed_all err = err
untimed_all (ok rs) = ok (map untimed rs)

module _ (d : RecordDatabase) where
  open d use {Db, find_record, zone_records, begin, prepare, exec, increment_version, commit}

  unfoldable pub perform : RecordCall → RecordStorage d → RecordStorage d
  perform (read_call now zone) s = (get_records_by_zone d now zone s).1
  perform (create_call r) s = (create_record d r s).1
  perform (update_call r) s = (update_record d r s).1
  perform (delete_call id) s = (delete_record d id s).1
  perform (touch_call queries) s = (batch_update_last_query_at d queries s).1
  perform clear_call s = clear_cache d s

  unfoldable pub run : List RecordCall → RecordStorage d → RecordStorage d
  run [] s = s
  run (c ∷ cs) s = run cs (perform c s)

  -- The zone has the same records in both states, but for the times of the last query.
  abbrev pub SameZone : ℕ → Db → Db → Type 0
  SameZone zone db db' = untimed_all (zone_records db' zone) ≡ untimed_all (zone_records db zone)

-- What SQL promises of the statements: each changes the records of no zone but those that it names,
-- and a touch changes nothing but times of the last query.
-- `row` is the record with an id.
pub record RecordLaws (d : RecordDatabase) : Type 0 where
  pub row : d.Db → ℕ → Option Record
  pub find-row :
      (db : d.Db) (id : ℕ) (o : Option Record) → d.find_record db id ≡ ok o → o ≡ row db id
  pub begin-SameZone : (zone : ℕ) (db tx : d.Db) → d.begin db ≡ ok tx → SameZone d zone db tx
  pub begin-row : (id : ℕ) (db tx : d.Db) → d.begin db ≡ ok tx → row tx id ≡ row db id
  pub prepare-SameZone : (zone : ℕ) (db tx : d.Db) → d.prepare db ≡ ok tx → SameZone d zone db tx
  pub increment-SameZone :
      (zone : ℕ) (db tx : d.Db) → d.increment_version db ≡ ok tx → SameZone d zone db tx
  pub commit-SameZone : (zone : ℕ) (db tx : d.Db) → d.commit db ≡ ok tx → SameZone d zone db tx
  pub insert-SameZone :
      (zone : ℕ) (r : Record) (db : d.Db) (o : Outcome d.Db)
      → d.exec (insert_record r) db ≡ ok o
      → zone ≢ r.zone_id
      → SameZone d zone db o.after
  pub update-SameZone :
      (zone : ℕ) (r : Record) (db : d.Db) (o : Outcome d.Db)
      → d.exec (update_row r) db ≡ ok o
      → zone ≢ r.zone_id
      → ((old : Record) → row db r.id ≡ some old → zone ≢ old.zone_id)
      → SameZone d zone db o.after
  pub delete-SameZone :
      (zone id : ℕ) (db : d.Db) (o : Outcome d.Db)
      → d.exec (delete_row id) db ≡ ok o
      → ((old : Record) → row db id ≡ some old → zone ≢ old.zone_id)
      → SameZone d zone db o.after
  pub touch-SameZone :
      (zone time : ℕ) (name : Text) (db : d.Db) (o : Outcome d.Db)
      → d.exec (touch time name) db ≡ ok o
      → SameZone d zone db o.after
  pub touch_enabled-SameZone :
      (zone time : ℕ) (name : Text) (db : d.Db) (o : Outcome d.Db)
      → d.exec (touch_enabled time name) db ≡ ok o
      → SameZone d zone db o.after
