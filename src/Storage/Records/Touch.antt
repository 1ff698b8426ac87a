-- ===== src/Storage/Records/Touch.antt =====
-- `BatchUpdateLastQueryAt` of storage/record.go leaves the records of every zone as they are,
-- but for the times of their last queries.
use dns_go.Base.{
  ℕ, Bool, true, false, List, [], ◌∷◌, Result, ok, ◌>>=◌, bind-ok, nat_eq, ◌==◌, ◌≡◌, ◌∙◌, ap,
  arith, if◌then◌else◌,
}
use dns_go.Base.Map.{Map}
use dns_go.Base.Text.{Text, text_eq}
use dns_go.Storage.Zones.{Outcome}
use dns_go.Storage.Records.{
  RecordDatabase, touch, touch_enabled, touch_first, touch_domain, touch_all, touched,
  wildcard_query_candidates,
}
use dns_go.Storage.Records.Laws.{untimed_all, SameZone, RecordLaws}

module _ (d : RecordDatabase) (laws : RecordLaws d) where
  open d use {Db, zone_records, begin, prepare, exec, commit}

  same-SameZone : (zone : ℕ) (tx db : Db) → ok tx ≡ ok db → SameZone d zone tx db
  same-SameZone zone tx db e =
      let same : db ≡ tx = ground (arith, e) in ap (λ x. untimed_all (zone_records x zone)) same

  -- The two ways that go on from a test.
  either_way :
      (zone : ℕ) (c : Bool) (r r' : Result Db) (tx db : Db)
      → (if c then r else r') ≡ ok db
      → (r ≡ ok db → SameZone d zone tx db)
      → (r' ≡ ok db → SameZone d zone tx db)
      → SameZone d zone tx db
  either_way zone true r r' tx db e first second = first e
  either_way zone false r r' tx db e first second = second e

  touch_first-SameZone :
      (zone time : ℕ) (names : List Text) (tx db : Db)
      → touch_first d time names tx ≡ ok db
      → SameZone d zone tx db
  unfolding touch_first
  touch_first-SameZone zone time [] tx db e = same-SameZone zone tx db e
  touch_first-SameZone zone time (c ∷ cs) tx db e =
      let rest = λ (o : Outcome Db) (rows : ℕ).
        if rows == 0 then touch_first d time cs o.after else ok o.after in
      let (o, ran, e1) =
        bind-ok (exec (touch_enabled time c) tx) (λ o. o.rows_affected >>= rest o) db e in
      let (rows, counted, e2) = bind-ok o.rows_affected (rest o) db e1 in
      let now = laws.touch_enabled-SameZone zone time c tx o ran in
      either_way zone (rows == 0) (touch_first d time cs o.after) (ok o.after) tx db e2
        (λ f. touch_first-SameZone zone time cs o.after db f ∙ now)
        (λ f. same-SameZone zone o.after db f ∙ now)

  touch_domain-SameZone :
      (zone : ℕ) (domain : Text) (time : ℕ) (tx db : Db)
      → touch_domain d domain time tx ≡ ok db
      → SameZone d zone tx db
  unfolding touch_domain
  touch_domain-SameZone zone domain time tx db e =
      let candidates = wildcard_query_candidates domain in
      let rest = λ (o : Outcome Db) (rows : ℕ).
        if rows == 0 then touch_first d time candidates o.after else ok o.after in
      let (o, ran, e1) =
        bind-ok (exec (touch time domain) tx) (λ o. o.rows_affected >>= rest o) db e in
      let (rows, counted, e2) = bind-ok o.rows_affected (rest o) db e1 in
      let now = laws.touch-SameZone zone time domain tx o ran in
      either_way zone (rows == 0) (touch_first d time candidates o.after) (ok o.after) tx db e2
        (λ f. touch_first-SameZone zone time candidates o.after db f ∙ now)
        (λ f. same-SameZone zone o.after db f ∙ now)

  touch_all-SameZone :
      (zone : ℕ) (queries : Map Text ℕ) (tx db : Db)
      → touch_all d queries tx ≡ ok db
      → SameZone d zone tx db
  unfolding touch_all
  touch_all-SameZone zone [] tx db e = same-SameZone zone tx db e
  touch_all-SameZone zone ((domain, time) ∷ queries) tx db e =
      let touched_one = if domain == [] then ok tx else touch_domain d domain time tx in
      let (tx', one, rest) = bind-ok touched_one (touch_all d queries) db e in
      touch_all-SameZone zone queries tx' db rest
      ∙ either_way zone (domain == []) (ok tx) (touch_domain d domain time tx) tx tx' one
          (same-SameZone zone tx tx') (touch_domain-SameZone zone domain time tx tx')

  pub touched-SameZone :
      (zone : ℕ) (queries : Map Text ℕ) (db db' : Db)
      → touched d queries db ≡ ok db'
      → SameZone d zone db db'
  unfolding touched
  touched-SameZone zone queries db db' e =
      let (tx, begun, e1) =
        bind-ok (begin db) (λ tx. prepare tx >>= λ ready. touch_all d queries ready >>= commit) db'
          e in
      let (ready, prepared, e2) =
        bind-ok (prepare tx) (λ ready. touch_all d queries ready >>= commit) db' e1 in
      let (done, ran, ended) = bind-ok (touch_all d queries ready) commit db' e2 in
      laws.commit-SameZone zone done db' ended
      ∙ touch_all-SameZone zone queries ready done ran
      ∙ laws.prepare-SameZone zone tx ready prepared
      ∙ laws.begin-SameZone zone db tx begun
