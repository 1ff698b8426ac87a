-- ===== src/Storage/Records/Fresh.antt =====
-- What `GetRecordsByZone` of storage/record.go answers after any calls of its storage.
use dns_go.Base.{
  ℕ, List, [], ◌∷◌, Option, none, some, ok, nat_eq, ◌==◌, ◌≡◌, refl, ◌∙◌, sym, ap, arith,
  Bool-cases, Option-cases, Result-cases, inl, inr, ltb, if◌then◌else◌,
}
use dns_go.Base.Map
use dns_go.Base.Map.{Map}
use dns_go.Base.Text.{text_eq}
use dns_go.Storage.Types.{Record}
use dns_go.Storage.Records.{
  RecordDatabase, RecordStorage, RecordCache, get, set, invalidate_all, new_record_storage,
  new_record_cache, clear_cache, get_records_by_zone,
}
use dns_go.Storage.Records.Laws.{
  RecordCall, read_call, create_call, update_call, delete_call, touch_call, clear_call, perform,
  run, untimed_all, RecordLaws,
}
use dns_go.Storage.Records.Writes.{
  KeepsZone, KeepZones, IsFresh, Fresh, create_record-Fresh, update_record-Fresh,
  delete_record-Fresh, batch_update_last_query_at-Fresh,
}

module _ (d : RecordDatabase) (laws : RecordLaws d) where
  open d use {Db, find_record, zone_records, begin, prepare, exec, increment_version, commit}

  none-IsFresh : (db : Db) → IsFresh d laws db []
  unfolding Map.get
  none-IsFresh db zone rs held = absurd (ground (arith, held))

  -- A zone that a query gave is put into the cache.
  put-IsFresh :
      (db : Db) (zone : ℕ) (rs : List Record) (m : Map ℕ (List Record))
      → zone_records db zone ≡ ok rs
      → IsFresh d laws db m
      → IsFresh d laws db (Map.put zone rs m)
  put-IsFresh db zone rs m e fresh other rs' held = elim (Bool-cases (zone == other)) [
    | inl here ↦
        let it : zone ≡ other = ground (arith, here) in
        let same : rs ≡ rs' = ground (arith, here, held, Map.get-put zone other rs m) in
        ap untimed_all (ap (zone_records db) (sym it) ∙ e ∙ ap (λ x. ok x) same)
    | inr away ↦ fresh other rs' (ground (arith, away, held, Map.get-put zone other rs m))
  ]

  get-held :
      (now zone : ℕ) (rs : List Record) (c : RecordCache)
      → get now zone c ≡ some rs
      → Map.get zone c.cache ≡ some rs
  unfolding get
  get-held now zone rs c kept = go (Map.get zone c.expiry) kept
    where
      go :
          (o : Option ℕ)
          → (elim o as (λ _. Option (List Record)) [
            | none ↦ none
            | some expiry ↦ if ltb expiry now then none else Map.get zone c.cache
          ])
            ≡ some rs
          → Map.get zone c.cache ≡ some rs
      go none k = absurd (ground (arith, k))
      go (some expiry) k = ground (arith, k)

  get_records_by_zone-Fresh :
      (now zone : ℕ) (s : RecordStorage d)
      → Fresh d laws s
      → Fresh d laws (get_records_by_zone d now zone s).1
        × (untimed_all (get_records_by_zone d now zone s).0 ≡ untimed_all (zone_records s.db zone))
  unfolding get_records_by_zone set
  get_records_by_zone-Fresh now zone s fresh = elim (Option-cases (get now zone s.cache)) [
    | inr (rs, kept) ↦
        let held : Map.get zone s.cache.cache ≡ some rs = get-held now zone rs s.cache kept in
        rw (get_records_by_zone, kept) (fresh, sym (fresh zone rs held))
    | inl missing ↦ elim (Result-cases (zone_records s.db zone)) [
      | inl e ↦ rw (get_records_by_zone, missing, e) (fresh, refl)
      | inr (rs, e) ↦
          rw (get_records_by_zone, missing, e)
            (put-IsFresh s.db zone rs s.cache.cache e fresh, refl)
    ]
  ]

  perform-Fresh :
      (c : RecordCall) (s : RecordStorage d)
      → KeepsZone d laws c s
      → Fresh d laws s
      → Fresh d laws (perform d c s)
  unfolding perform clear_cache invalidate_all
  perform-Fresh (read_call now zone) s k h = (get_records_by_zone-Fresh now zone s h).0
  perform-Fresh (create_call r) s k h = create_record-Fresh d laws r s h
  perform-Fresh (update_call r) s k h = update_record-Fresh d laws r s k h
  perform-Fresh (delete_call id) s k h = delete_record-Fresh d laws id s h
  perform-Fresh (touch_call queries) s k h = batch_update_last_query_at-Fresh d laws queries s h
  perform-Fresh clear_call s k h = none-IsFresh s.db

  run-Fresh :
      (cs : List RecordCall) (s : RecordStorage d)
      → KeepZones d laws cs s
      → Fresh d laws s
      → Fresh d laws (run d cs s)
  unfolding run
  run-Fresh [] s k h = h
  run-Fresh (c ∷ cs) s (k, ks) h = run-Fresh cs (perform d c s) ks (perform-Fresh c s k h)

  -- After any calls on new storage, a read of a zone fails exactly where the database fails to give
  -- the zone's records, and else answers these records in the same order, each field of each but the
  -- time of its last query, whatever is in the cache. Given are that no update moved a record into
  -- another zone, that a statement changes the records of no zone but those that it names, and that a
  -- touch changes times of the last query only.
  pub run-get_records_by_zone :
      (cs : List RecordCall) (db : Db) (now zone : ℕ)
      → KeepZones d laws cs (new_record_storage d db)
      → untimed_all (get_records_by_zone d now zone (run d cs (new_record_storage d db))).0
        ≡ untimed_all (zone_records (run d cs (new_record_storage d db)).db zone)
  unfolding new_record_storage new_record_cache
  run-get_records_by_zone cs db now zone keep =
      let s = run d cs (new_record_storage d db) in
      (get_records_by_zone-Fresh now zone s
        (run-Fresh cs (new_record_storage d db) keep (none-IsFresh db))).1
