-- ===== src/Storage/Records/Tests.antt =====
-- Tests and the witness of the storage of records, over a table with room for one row.
use mathlib.Core.List.{map}
use dns_go.Base.{
  ℕ, Bool, true, false, List, [], ◌∷◌, Option, none, some, Result, ok, err, nat_eq, ◌==◌, ◌≡◌, refl,
  ◌∙◌, sym, ap, arith, ◌≢◌, if◌then◌else◌,
}
use dns_go.Base.Map
use dns_go.Base.Text.{Text, codes, text_eq, text_beq, split, join, trim_suffix}
use dns_go.Storage.Types.{Record}
use dns_go.Storage.Zones.{Outcome}
use dns_go.Storage.Records.{
  RecordDatabase, Statement, insert_record, update_row, delete_row, touch, touch_enabled,
  new_record_storage, get_records_by_zone, wildcard_query_candidates, starred, create_record,
  update_record, delete_record, change, finish, invalidate, batch_update_last_query_at, touched,
  touch_all, touch_domain, touch_first, get, set, new_record_cache, with_ttl,
}
use dns_go.Storage.Records.Laws.{
  RecordCall, read_call, create_call, update_call, delete_call, touch_call, perform, run, untimed,
  untimed_all, SameZone, RecordLaws,
}
use dns_go.Storage.Records.Fresh.{run-get_records_by_zone}

abbrev zone_of : Option Record → ℕ → List Record
zone_of none zone = []
zone_of (some r) zone = if r.zone_id == zone then r ∷ [] else []

abbrev found : Option Record → ℕ → Option Record
found none id = none
found (some r) id = if r.id == id then some r else none

abbrev result : Option Record → ℕ → Outcome (Option Record)
result after rows = record { last_insert_id = ok 1; rows_affected = ok rows; after = after }

abbrev asked_at : ℕ → Record → Record
asked_at time r = record r { last_query_at = some time }

abbrev execute : Statement → Option Record → Result (Outcome (Option Record))
execute (insert_record r) none = ok (result (some r) 1)
execute (insert_record r) (some old) = err
execute (update_row r) none = ok (result none 0)
execute (update_row r) (some old) =
    ok (if old.id == r.id then result (some r) 1 else result (some old) 0)
execute (delete_row id) none = ok (result none 0)
execute (delete_row id) (some old) =
    ok (if old.id == id then result none 1 else result (some old) 0)
execute (touch time name) none = ok (result none 0)
execute (touch time name) (some old) =
    ok (if old.name == name then result (some (asked_at time old)) 1 else result (some old) 0)
execute (touch_enabled time name) none = ok (result none 0)
execute (touch_enabled time name) (some old) = ok (
    if (if old.name == name then old.enabled else false)
    then result (some (asked_at time old)) 1
    else result (some old) 0)

abbrev table : RecordDatabase
table = record {
  Db = Option Record;
  find_record = λ db id. ok (found db id);
  zone_records = λ db zone. ok (zone_of db zone);
  begin = λ db. ok db;
  prepare = λ db. ok db;
  exec = execute;
  increment_version = λ db. ok db;
  commit = λ db. ok db;
}

abbrev Db : Type 0
Db = Option Record

ok-injective : {A : Type 0} {x y : A} → ok x ≡ ok y → y ≡ x
ok-injective e = ground (arith, e)

same : (zone : ℕ) (db tx : Db) → ok db ≡ ok tx → SameZone table zone db tx
same zone db tx e = ap (λ x. untimed_all (ok (zone_of x zone))) (ok-injective e)

absent : (zone : ℕ) (r : Record) → zone ≢ r.zone_id → zone_of (some r) zone ≡ []
absent zone r away = ground (arith, away)

after_timed :
    (zone : ℕ) (db : Db) (x o : Outcome Db)
    → ok x ≡ ok o
    → map untimed (zone_of x.after zone) ≡ map untimed (zone_of db zone)
    → SameZone table zone db o.after
unfolding untimed_all
after_timed zone db x o e here =
    ap (λ y. untimed_all (ok (zone_of y.after zone))) (ok-injective e) ∙ ap (λ y. ok y) here

after_is :
    (zone : ℕ) (db : Db) (x o : Outcome Db)
    → ok x ≡ ok o
    → zone_of x.after zone ≡ zone_of db zone
    → SameZone table zone db o.after
after_is zone db x o e here = after_timed zone db x o e (ap (map untimed) here)

-- A touch of the row, under any test, leaves all but its time.
later :
    (zone time : ℕ) (old : Record) (test : Bool)
    → map untimed (
        zone_of
          (if test then result (some (asked_at time old)) 1 else result (some old) 0).after
          zone)
      ≡ map untimed (zone_of (some old) zone)
later zone time old false = refl
later zone time old true = go (old.zone_id == zone)
  where
    go :
        (here : Bool)
        → map untimed (if here then asked_at time old ∷ [] else [])
          ≡ map untimed (if here then old ∷ [] else [])
    go true = refl
    go false = refl

touches :
    (zone time : ℕ) (name : Text) (db : Db) (o : Outcome Db)
    → execute (touch time name) db ≡ ok o
    → SameZone table zone db o.after
touches zone time name none o e = after_is zone none (result none 0) o e refl
touches zone time name (some old) o e =
    after_timed zone (some old)
      (if old.name == name then result (some (asked_at time old)) 1 else result (some old) 0) o e
      (later zone time old (old.name == name))

touches_enabled :
    (zone time : ℕ) (name : Text) (db : Db) (o : Outcome Db)
    → execute (touch_enabled time name) db ≡ ok o
    → SameZone table zone db o.after
touches_enabled zone time name none o e = after_is zone none (result none 0) o e refl
touches_enabled zone time name (some old) o e =
    let test = if old.name == name then old.enabled else false in
    after_timed zone (some old)
      (if test then result (some (asked_at time old)) 1 else result (some old) 0) o e
      (later zone time old test)

-- The statements change no zone but their own.
inserted :
    (zone : ℕ) (r : Record) (db : Db) (o : Outcome Db)
    → execute (insert_record r) db ≡ ok o
    → zone ≢ r.zone_id
    → SameZone table zone db o.after
inserted zone r none o e away = after_is zone none (result (some r) 1) o e (absent zone r away)
inserted zone r (some old) o e away = absurd (ground (arith, e))

updated :
    (zone : ℕ) (r : Record) (db : Db) (o : Outcome Db)
    → execute (update_row r) db ≡ ok o
    → zone ≢ r.zone_id
    → ((old : Record) → found db r.id ≡ some old → zone ≢ old.zone_id)
    → SameZone table zone db o.after
updated zone r none o e away others = after_is zone none (result none 0) o e refl
updated zone r (some old) o e away others =
    after_is zone (some old) (if old.id == r.id then result (some r) 1 else result (some old) 0) o e
      (go (old.id == r.id) refl)
  where
    go :
        (t : Bool)
        → (old.id == r.id) ≡ t
        → zone_of (if t then result (some r) 1 else result (some old) 0).after zone
          ≡ zone_of (some old) zone
    go true here =
        absent zone r away
        ∙ sym (absent zone old (others old (ap (λ c. if c then some old else none) here)))
    go false other = refl

deleted :
    (zone id : ℕ) (db : Db) (o : Outcome Db)
    → execute (delete_row id) db ≡ ok o
    → ((old : Record) → found db id ≡ some old → zone ≢ old.zone_id)
    → SameZone table zone db o.after
deleted zone id none o e others = after_is zone none (result none 0) o e refl
deleted zone id (some old) o e others =
    after_is zone (some old) (if old.id == id then result none 1 else result (some old) 0) o e
      (go (old.id == id) refl)
  where
    go :
        (t : Bool)
        → (old.id == id) ≡ t
        → zone_of (if t then result none 1 else result (some old) 0).after zone
          ≡ zone_of (some old) zone
    go true here = sym (absent zone old (others old (ap (λ c. if c then some old else none) here)))
    go false other = refl

abbrev laws : RecordLaws table
laws = record {
  row = found;
  find-row = λ db id o e. ok-injective e;
  begin-SameZone = same;
  begin-row = λ id db tx e. ap (λ x. found x id) (ok-injective e);
  prepare-SameZone = same;
  increment-SameZone = same;
  commit-SameZone = same;
  insert-SameZone = inserted;
  update-SameZone = updated;
  delete-SameZone = deleted;
  touch-SameZone = touches;
  touch_enabled-SameZone = touches_enabled;
}

abbrev row : ℕ → ℕ → Record
row zone ttl = record {
  id = 1;
  zone_id = zone;
  name = codes "*.a.org.";
  record_type = codes "A";
  content = codes "10.0.0.1";
  ttl = ttl;
  priority = 0;
  enabled = true;
  last_query_at = none;
}

-- A change, a read that fills the cache, a touch of the cached row, and a deletion that finds nothing.
abbrev calls : List RecordCall
calls =
    create_call (row 7 0)
    ∷ read_call 5 7
    ∷ read_call 5 8
    ∷ update_call (row 7 60)
    ∷ read_call 5 7
    ∷ touch_call ((codes "b.a.org.", 9) ∷ [])
    ∷ delete_call 2
    ∷ []

in_seven :
    (old : Record)
    → found
        (run table
          (create_call (row 7 0) ∷ read_call 5 7 ∷ read_call 5 8 ∷ [])
          (new_record_storage table none)).db
        1
      ≡ some old
    → old.zone_id ≡ 7
unfolding perform run create_record update_record delete_record change finish invalidate
    batch_update_last_query_at touched touch_all touch_domain touch_first get_records_by_zone get
    set new_record_storage new_record_cache with_ttl Map.get Map.put Map.delete text_beq
    wildcard_query_candidates starred split trim_suffix join
in_seven old e = ground (arith, e)

run-get_records_by_zone_example :
    untimed_all (get_records_by_zone table 6 7 (run table calls (new_record_storage table none))).0
    ≡ ok (row 7 60 ∷ [])
unfolding untimed_all perform run create_record update_record delete_record change finish invalidate
    batch_update_last_query_at touched touch_all touch_domain touch_first get_records_by_zone get
    set new_record_storage new_record_cache with_ttl Map.get Map.put Map.delete text_beq
    wildcard_query_candidates starred split trim_suffix join
run-get_records_by_zone_example =
    run-get_records_by_zone table laws calls none 6 7
      (tt, (tt, (tt, (in_seven, (tt, (tt, (tt, tt)))))))

-- The touch does not drop the zone: the cache has the row without the time that the table has.
touched_behind :
    ((get_records_by_zone table 6 7 (run table calls (new_record_storage table none))).0
      ≡ ok (row 7 60 ∷ []))
    × (zone_of (run table calls (new_record_storage table none)).db 7 ≡ asked_at 9 (row 7 60) ∷ [])
unfolding perform run create_record update_record delete_record change finish invalidate
    batch_update_last_query_at touched touch_all touch_domain touch_first get_records_by_zone get
    set new_record_storage new_record_cache with_ttl Map.get Map.put Map.delete text_beq
    wildcard_query_candidates starred split trim_suffix join
touched_behind = (refl, refl)

-- An update that moves a record leaves it in the zone that it left, for as long as the cache holds.
moved : List RecordCall
moved = create_call (row 7 60) ∷ read_call 5 7 ∷ update_call (row 8 60) ∷ []

moved_still_there :
    ((get_records_by_zone table 6 7 (run table moved (new_record_storage table none))).0
      ≡ ok (row 7 60 ∷ []))
    × (zone_of (run table moved (new_record_storage table none)).db 7 ≡ [])
unfolding moved perform run create_record update_record delete_record change finish invalidate
    batch_update_last_query_at touched touch_all touch_domain touch_first get_records_by_zone get
    set new_record_storage new_record_cache with_ttl Map.get Map.put Map.delete text_beq
    wildcard_query_candidates starred split trim_suffix join
moved_still_there = (refl, refl)

-- Wildcards that answer no query of the name are touched too: they match one label only.
candidates :
    wildcard_query_candidates (codes "c.b.a.org.")
    ≡ codes "*.b.a.org." ∷ codes "*.a.org." ∷ codes "*.org." ∷ []
unfolding wildcard_query_candidates starred split trim_suffix join text_beq
candidates = refl
