-- ===== src/Storage/Sources/Tests.antt =====
-- The witness of the storage of sources, over a table with room for one row.
use dns_go.Base.{
  ℕ, suc, Bool, true, false, List, [], ◌∷◌, Option, none, some, Result, ok, err, nat_eq, ◌==◌, ◌≡◌,
  refl, sym, ◌∙◌, ap, arith, if◌then◌else◌, keep, ◌≢◌,
}
use dns_go.Base.Text.{codes}
use dns_go.Storage.Zones.{Outcome}
use dns_go.Storage.Sources.{
  Source, Statement, insert_source, update_row, delete_row, insert_domain, delete_domains,
  insert_stat, create_adblock_source, list_adblock_sources, add_blocked_domains_batch, write_batch,
  batch, exec_all, domain_inserts, change, set, invalidate, new_adblock_cache, SourceDatabase,
  new_adblock_storage, get_enabled_adblock_sources,
}
use dns_go.Storage.Sources.Laws.{
  SourceCall, list_call, create_call, delete_call, domains_call, IsApart, perform, run, SameSources,
  SourceLaws,
}
use dns_go.Storage.Sources.Fresh.{run-get_enabled_adblock_sources}

abbrev Db : Type 0
Db = Option Source

abbrev rows : Db → List Source
rows none = []
rows (some r) = r ∷ []

abbrev result : Db → ℕ → Outcome Db
result after count = record { last_insert_id = ok 1; rows_affected = ok count; after = after }

abbrev execute : Statement → Db → Result (Outcome Db)
execute (insert_source r) none = ok (result (some r) 1)
execute (insert_source r) (some old) = err
execute (update_row r) none = ok (result none 0)
execute (update_row r) (some old) =
    ok (if old.id == r.id then result (some r) 1 else result (some old) 0)
execute (delete_row id) none = ok (result none 0)
execute (delete_row id) (some old) =
    ok (if old.id == id then result none 1 else result (some old) 0)
execute (insert_domain id t) db = ok (result db 1)
execute (delete_domains id) db = ok (result db 1)
execute (insert_stat t ip) db = ok (result db 1)

abbrev table : SourceDatabase
table = record {
  Db = Db;
  all_sources = λ db. ok (rows db);
  enabled_sources = λ db. ok (keep (λ r. r.enabled) (rows db));
  has_domain = λ db name. ok false;
  begin = λ db. ok db;
  prepare = λ db. ok db;
  exec = execute;
  commit = λ db. ok db;
}

ok-injective : {A : Type 0} {x y : A} → ok x ≡ ok y → y ≡ x
ok-injective e = ground (arith, e)

same : (db tx : Db) → ok db ≡ ok tx → SameSources table db tx
same db tx e = ap (λ x. ok (rows x)) (ok-injective e)

-- Each outcome is a table with a count, and the table is the same where the count is 0.
abbrev Shape : Db → Outcome Db → Type 0
Shape db o =
    (after : Db) × (count : ℕ) × (o ≡ result after count) × (count ≡ 0 → rows after ≡ rows db)

one_not_zero : {A : Type 0} (n : ℕ) → suc n ≡ 0 → A
one_not_zero n e = absurd (ground (arith, e))

picked :
    (t : Bool) (after old : Db) (o : Outcome Db)
    → o ≡ (if t then result after 1 else result old 0)
    → Shape old o
picked true after old o e = (after, 1, e, (λ z. one_not_zero 0 z))
picked false after old o e = (old, 0, e, (λ z. refl))

shape : (st : Statement) (db : Db) (o : Outcome Db) → execute st db ≡ ok o → Shape db o
shape (insert_source r) none o e = (some r, 1, ok-injective e, (λ z. one_not_zero 0 z))
shape (insert_source r) (some old) o e = absurd (ground (arith, e))
shape (update_row r) none o e = (none, 0, ok-injective e, (λ z. refl))
shape (update_row r) (some old) o e = picked (old.id == r.id) (some r) (some old) o (ok-injective e)
shape (delete_row id) none o e = (none, 0, ok-injective e, (λ z. refl))
shape (delete_row id) (some old) o e = picked (old.id == id) none (some old) o (ok-injective e)
shape (insert_domain id t) db o e = (db, 1, ok-injective e, (λ z. refl))
shape (delete_domains id) db o e = (db, 1, ok-injective e, (λ z. refl))
shape (insert_stat t ip) db o e = (db, 1, ok-injective e, (λ z. refl))

apart_same :
    (st : Statement) (db : Db) (o : Outcome Db)
    → execute st db ≡ ok o
    → IsApart st
    → SameSources table db o.after
apart_same (insert_source r) db o e never = absurd never
apart_same (update_row r) db o e never = absurd never
apart_same (delete_row id) db o e never = absurd never
apart_same (insert_domain id t) db o e apart = ap (λ y. ok (rows y.after)) (ok-injective e)
apart_same (delete_domains id) db o e apart = ap (λ y. ok (rows y.after)) (ok-injective e)
apart_same (insert_stat t ip) db o e apart = ap (λ y. ok (rows y.after)) (ok-injective e)

untouched :
    (st : Statement) (db : Db) (o : Outcome Db)
    → execute st db ≡ ok o
    → o.rows_affected ≡ ok 0
    → SameSources table db o.after
untouched st db o e none_hit =
    let (after, count, it, kept) = shape st db o e in
    let zero_count : count ≡ 0 = ok-injective (sym none_hit ∙ ap (λ y. y.rows_affected) it) in
    ap (λ y. ok (rows y.after)) it ∙ ap (λ rs. ok rs) (kept zero_count)

never_err : {A : Type 0} {x : A} (r : Result A) → r ≡ ok x → r ≢ err
never_err r e f = ground (arith, e, f)

abbrev laws : SourceLaws table
laws = record {
  enabled-listed = λ db rs e. ap (λ x. ok (keep (λ r. r.enabled) x)) (sym (ok-injective e));
  begin-SameSources = same;
  prepare-SameSources = same;
  commit-SameSources = same;
  exec-SameSources = apart_same;
  unaffected = untouched;
  has_id = λ st db o e. never_err o.last_insert_id (ap (λ y. y.last_insert_id) (shape st db o e).2);
  has_count =
      λ st db o e. never_err o.rows_affected (ap (λ y. y.rows_affected) (shape st db o e).2);
}

abbrev source : Bool → Source
source on = record {
  id = 1;
  name = codes "list";
  url = codes "http://a.org/list";
  enabled = on;
  rule_count = 2;
}

-- A list that is cached, domains that are added, and a deletion that finds nothing.
abbrev calls : List SourceCall
calls =
    create_call (source true)
    ∷ list_call 5
    ∷ domains_call 1 (codes "Ads.org." ∷ [])
    ∷ delete_call 7
    ∷ []

run-get_enabled_adblock_sources_example :
    get_enabled_adblock_sources table 6 (run table calls (new_adblock_storage table none))
    ≡ ok (source true ∷ [])
unfolding run perform new_adblock_storage new_adblock_cache create_adblock_source
    list_adblock_sources add_blocked_domains_batch write_batch batch exec_all domain_inserts change
    set invalidate
run-get_enabled_adblock_sources_example = run-get_enabled_adblock_sources table laws calls none 6
