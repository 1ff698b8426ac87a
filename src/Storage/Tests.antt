-- ===== src/Storage/Tests.antt =====
-- The wildcards of storage/record.go on a few records.
use dns_go.Base.{
  ℕ, true, List, [], ◌∷◌, ◌≡◌, refl, arith, nat_eq, Option, none, some, ok, err, ap, sym, ◌⊎◌, In,
  inl, inr, if◌then◌else◌, false, Bool, ◌==◌,
}
use mathlib.Core.Path.{subst}
use dns_go.Base.Map
use dns_go.Storage.Lookup.{
  has_wildcard_match, select_records, get_records_by_name_and_zone, domain_exists_in_zone,
}
use dns_go.Storage.Lookup.Exists.{get_records_by_name_and_zone-exists}
use dns_go.Storage.Zones
use dns_go.Storage.Zones.{ZoneDatabase, get_zone_by_name, list_zones, new_zone_storage}
use dns_go.Storage.Zones.Fresh
use dns_go.Storage.Zones.Fresh.{
  ZoneLaws, ZoneCall, read_call, delete_call, list_call, run-get_zone_by_name,
}
use dns_go.Base.Text
use dns_go.Base.Text.{text_eq, text_beq_iff, Text, codes, text_beq}
use dns_go.Storage.OneLevel.{answers, find_wildcard_records-parent}
use dns_go.Storage.Types.{Record, Zone}
use dns_go.Storage.Wildcard.{
  find_wildcard_records, wildcard_rounds, matches, is_valid_wildcard_match,
}

abbrev a_record : ℕ → Text → Text → Record
a_record id name content = record {
  id = id;
  zone_id = 1;
  name = name;
  record_type = codes "A";
  content = content;
  ttl = 60;
  priority = 0;
  enabled = true;
  last_query_at = none;
}

abbrev records : List Record
records =
    a_record 1 (codes "*.example.com.") (codes "10.0.0.1")
    ∷ a_record 2 (codes "*.bar.org.") (codes "10.0.0.2")
    ∷ []

program : Unit {0}
unfolding find_wildcard_records wildcard_rounds matches is_valid_wildcard_match text_beq
    Text.has_suffix Text.has_prefix Text.has_byte Text.trim_prefix Text.trim_suffix Text.split
    Text.join
program = tt

-- The wildcard of the parent answers, and one further up does not.
levels :
    (find_wildcard_records records (codes "foo.example.com.") (codes "A")
      ≡ a_record 1 (codes "foo.example.com.") (codes "10.0.0.1") ∷ [])
    × (find_wildcard_records records (codes "foo.bar.example.com.") (codes "A") ≡ [])
unfolding program
levels = (refl, refl)

find_wildcard_records-parent_example :
    find_wildcard_records records (codes "foo.bar.example.com.") (codes "A")
    ≡ answers (codes "*.bar.example.com.") (codes "foo.bar.example.com.") (codes "A") records
unfolding program
find_wildcard_records-parent_example =
    find_wildcard_records-parent records (codes "A") (codes "foo") (codes "bar")
      (codes "example" ∷ codes "com" ∷ []) (ground arith) (refl, (refl, (refl, (refl, tt))))

abbrev zone : Bool → Zone
zone enabled = record {
  id = 1;
  name = codes "a.org.";
  soa_mname = [];
  soa_rname = [];
  soa_serial = 1;
  soa_refresh = 3600;
  soa_retry = 900;
  soa_expire = 86400;
  soa_minimum = 300;
  enabled = enabled;
  allow_fallback = false;
}

-- A database of one zone, which its state may hold; every write of it fails.
abbrev row : Text → Option Zone → Option Zone
row name none = none
row name (some z) = if z.name == name then if z.enabled then some z else none else none

abbrev rows : Option Zone → List Zone
rows none = []
rows (some z) = z ∷ []

abbrev zones_db : ZoneDatabase
zones_db = record {
  Db = Option Zone;
  find_zone = λ db id. ok db;
  find_enabled_zone = λ db name. ok (row name db);
  all_zones = λ db. ok (rows db);
  begin = λ db. ok db;
  exec = λ statement db. err;
  increment_version = λ db. ok db;
  commit = λ db. ok db;
}

row-named : (name : Text) (db : Option Zone) (z : Zone) → row name db ≡ some z → z.name ≡ name
row-named name none z h = absurd (ground arith)
row-named name (some y) z h = ground (arith, h, text_beq_iff y.name name)

row-rows :
    (db : Option Zone) (z : Zone) → In z (rows db) → z.enabled ≡ true → row z.name db ≡ some z
row-rows none z at on = absurd at
row-rows (some y) z (inl same) on =
    subst (λ w. row z.name (some w) ≡ some z) same (ground (arith, on, text_beq_iff z.name z.name))
row-rows (some y) z (inr never) on = absurd never

zones_db_laws : ZoneLaws zones_db
zones_db_laws = record {
  named = λ db name z h. row-named name db z (ground (arith, h));
  listed = λ db zs z all at on.
      ap (λ r. ok r) (row-rows db z (subst (λ l. In z l) (sym (ground (arith, all))) at) on);
}

abbrev zone_calls : List ZoneCall
zone_calls = read_call 5 (codes "a.org.") ∷ delete_call 1 ∷ list_call 6 ∷ []

run-get_zone_by_name_example :
    ((get_zone_by_name zones_db 7
        (codes "a.org.")
        (Fresh.run zones_db zone_calls (new_zone_storage zones_db (some (zone false))))).0
      ≡ zones_db.find_enabled_zone
          (Fresh.run zones_db zone_calls (new_zone_storage zones_db (some (zone false)))).db
          (codes "a.org."))
    ⊎ ((z : Zone) × ((get_zone_by_name zones_db 7
            (codes "a.org.")
            (Fresh.run zones_db zone_calls (new_zone_storage zones_db (some (zone false))))).0
          ≡ ok (some z))
        × (z.enabled ≡ false))
run-get_zone_by_name_example =
    run-get_zone_by_name zones_db zones_db_laws zone_calls (some (zone false)) 7 (codes "a.org.")

-- After a listing, the disabled zone is answered.
disabled :
    (get_zone_by_name zones_db 7
      (codes "a.org.")
      (list_zones zones_db 6 (new_zone_storage zones_db (some (zone false)))).1).0
    ≡ ok (some (zone false))
unfolding get_zone_by_name list_zones new_zone_storage Zones.new_zone_cache Zones.get Zones.set
    Zones.add_zones Map.get Map.put text_beq
disabled = refl

abbrev wild : List Record
wild = a_record 3 (codes "*.bar.example.com.") (codes "10.0.0.3") ∷ []

get_records_by_name_and_zone-exists_example :
    domain_exists_in_zone (ok wild) (codes "x.bar.example.com.") ≡ ok true
unfolding program get_records_by_name_and_zone select_records
get_records_by_name_and_zone-exists_example =
    get_records_by_name_and_zone-exists wild (codes "x.bar.example.com.") (codes "A")
      (a_record 3 (codes "x.bar.example.com.") (codes "10.0.0.3")) [] refl

-- The name exists by that test, and has no record of any type.
half_label :
    (domain_exists_in_zone (ok wild) (codes "foobar.example.com.") ≡ ok true)
    × (get_records_by_name_and_zone (ok wild) (codes "foobar.example.com.") (codes "A") ≡ ok [])
unfolding program domain_exists_in_zone has_wildcard_match get_records_by_name_and_zone
    select_records
half_label = (refl, refl)
