-- ===== src/Storage/Records/Writes.antt =====
-- What the cache of storage/record.go comes to under the calls that change records.
use dns_go.Base.{
  ℕ, List, [], ◌∷◌, Option, none, some, Result, ok, err, nat_eq, ◌==◌, ◌≡◌, refl, ◌∙◌, sym, ap,
  arith, Bool-cases, Result-cases, inl, inr, ◌≢◌,
}
use dns_go.Base.Map
use dns_go.Base.Map.{Map}
use dns_go.Base.Text.{Text, text_eq}
use dns_go.Storage.Types.{Record}
use dns_go.Storage.Zones.{Outcome}
use dns_go.Storage.Records.{
  RecordDatabase, RecordStorage, Statement, insert_record, update_row, delete_row, invalidate,
  with_ttl, finish, create_record, change, update_record, delete_record, touched,
  batch_update_last_query_at,
}
use dns_go.Storage.Records.Laws.{
  RecordCall, update_call, perform, untimed_all, SameZone, RecordLaws,
}
use dns_go.Storage.Records.Touch.{touched-SameZone}

some-injective : {A : Type 0} {x y : A} → some x ≡ some y → x ≡ y
some-injective e = ground (arith, e)

module _ (d : RecordDatabase) (laws : RecordLaws d) where
  open d use {Db, find_record, zone_records, begin, prepare, exec, increment_version, commit}

  -- The update leaves the record in its zone.
  abbrev pub KeepsZone : RecordCall → RecordStorage d → Type 0
  KeepsZone (update_call r) s =
      (old : Record) → laws.row s.db r.id ≡ some old → old.zone_id ≡ r.zone_id
  KeepsZone c s = Unit

  abbrev pub KeepZones : List RecordCall → RecordStorage d → Type 0
  KeepZones [] s = Unit
  KeepZones (c ∷ cs) s = KeepsZone c s × KeepZones cs (perform d c s)

  -- Every zone of the cache, even an outdated one, is what the database has, but for the times of the
  -- last query.
  abbrev pub IsFresh : Db → Map ℕ (List Record) → Type 0
  IsFresh db m =
      (zone : ℕ) (rs : List Record)
      → Map.get zone m ≡ some rs
      → untimed_all (zone_records db zone) ≡ untimed_all (ok rs)

  abbrev pub Fresh : RecordStorage d → Type 0
  Fresh s = IsFresh s.db s.cache.cache

  delete-IsFresh :
      (zone : ℕ) (db db' : Db) (m : Map ℕ (List Record))
      → ((other : ℕ) → other ≢ zone → SameZone d other db db')
      → IsFresh db m
      → IsFresh db' (Map.delete zone m)
  delete-IsFresh zone db db' m same fresh other rs held = elim (Bool-cases (zone == other)) [
    | inl here ↦ absurd (ground (arith, here, held, Map.get-delete zone other m))
    | inr away ↦
        same other (λ e. ground (arith, away, e))
        ∙ fresh other rs (ground (arith, away, held, Map.get-delete zone other m))
  ]

  finish-Fresh :
      (zone : ℕ) (tx : Db) (s : RecordStorage d)
      → ((other : ℕ) → other ≢ zone → SameZone d other s.db tx)
      → Fresh s
      → Fresh (finish d zone tx s).1
  unfolding finish invalidate
  finish-Fresh zone tx s same fresh = elim (Result-cases (increment_version tx)) [
    | inl e ↦ rw (finish, e) fresh
    | inr (db', e) ↦ elim (Result-cases (commit db')) [
      | inl e' ↦ rw (finish, e, e') fresh
      | inr (db'', e') ↦
          rw (finish, e, e')
            (delete-IsFresh zone s.db db'' s.cache.cache
              (λ other away.
                laws.commit-SameZone other db' db'' e'
                ∙ laws.increment-SameZone other tx db' e
                ∙ same other away)
              fresh)
    ]
  ]

  change-Fresh :
      (zone : ℕ) (statement : Statement) (s : RecordStorage d)
      → ((tx : Db) (o : Outcome Db) (other : ℕ)
          → begin s.db ≡ ok tx
          → exec statement tx ≡ ok o
          → other ≢ zone
          → SameZone d other s.db o.after)
      → Fresh s
      → Fresh (change d zone statement s).1
  unfolding change
  change-Fresh zone statement s same fresh = elim (Result-cases (begin s.db)) [
    | inl e ↦ rw (change, e) fresh
    | inr (tx, e) ↦ elim (Result-cases (exec statement tx)) [
      | inl e' ↦ rw (change, e, e') fresh
      | inr (o, e') ↦ elim (Result-cases o.rows_affected) [
        | inl e'' ↦ rw (change, e, e', e'') fresh
        | inr (rows, e'') ↦ elim (Bool-cases (rows == 0)) [
          | inl gone ↦ rw (change, e, e', e'', gone) fresh
          | inr there ↦
              rw (change, e, e', e'', there)
                (finish-Fresh zone o.after s (λ other away. same tx o other e e' away) fresh)
        ]
      ]
    ]
  ]

  pub create_record-Fresh :
      (r : Record) (s : RecordStorage d) → Fresh s → Fresh (create_record d r s).1
  unfolding create_record with_ttl
  create_record-Fresh r s fresh = elim (Result-cases (begin s.db)) [
    | inl e ↦ rw (create_record, e) fresh
    | inr (tx, e) ↦ elim (Result-cases (exec (insert_record (with_ttl d r)) tx)) [
      | inl e' ↦ rw (create_record, e, e') fresh
      | inr (o, e') ↦ elim (Result-cases o.last_insert_id) [
        | inl e'' ↦ rw (create_record, e, e', e'') fresh
        | inr (id, e'') ↦
            rw (create_record, e, e', e'')
              (either (finish d r.zone_id o.after s).0 (finish d r.zone_id o.after s).1 id (
                finish-Fresh r.zone_id o.after s
                  (λ other away.
                    laws.insert-SameZone other (with_ttl d r) tx o e' away
                    ∙ laws.begin-SameZone other s.db tx e)
                  fresh))
      ]
    ]
  ]
    where
      either :
          (r : Result (Unit {0})) (s' : RecordStorage d) (id : ℕ)
          → Fresh s'
          → Fresh
              (elim r as (λ _. Result ℕ × RecordStorage d) [
                | err ↦ (err, s')
                | ok _ ↦ (ok id, s')
              ]).1
      either err s' id h = h
      either (ok u) s' id h = h

  pub update_record-Fresh :
      (r : Record) (s : RecordStorage d)
      → KeepsZone (update_call r) s
      → Fresh s
      → Fresh (update_record d r s).1
  unfolding update_record
  update_record-Fresh r s stays fresh =
      change-Fresh r.zone_id (update_row r) s
        (λ tx o other e e' away.
          laws.update-SameZone other r tx o e' away
            (λ old is same. away (same ∙ stays old (sym (laws.begin-row r.id s.db tx e) ∙ is)))
          ∙ laws.begin-SameZone other s.db tx e)
        fresh

  pub delete_record-Fresh :
      (id : ℕ) (s : RecordStorage d) → Fresh s → Fresh (delete_record d id s).1
  unfolding delete_record
  delete_record-Fresh id s fresh = go (find_record s.db id) refl
    where
      go : (o : Result (Option Record)) → find_record s.db id ≡ o → Fresh (delete_record d id s).1
      go err e = rw (delete_record, e) fresh
      go (ok none) e = rw (delete_record, e) fresh
      go (ok (some r)) e =
          rw (delete_record, e)
            (change-Fresh r.zone_id (delete_row id) s
              (λ tx o other e1 e2 away.
                laws.delete-SameZone other id tx o e2 (λ old is same.
                  let it : some r ≡ some old =
                    laws.find-row s.db id (some r) e ∙ sym (laws.begin-row id s.db tx e1) ∙ is in
                  away (same ∙ ap (λ x. x.zone_id) (sym (some-injective it))))
                ∙ laws.begin-SameZone other s.db tx e1)
              fresh)

  pub batch_update_last_query_at-Fresh :
      (queries : Map Text ℕ) (s : RecordStorage d)
      → Fresh s
      → Fresh (batch_update_last_query_at d queries s).1
  unfolding batch_update_last_query_at
  batch_update_last_query_at-Fresh [] s fresh = fresh
  batch_update_last_query_at-Fresh (q ∷ qs) s fresh =
      elim (Result-cases (touched d (q ∷ qs) s.db)) [
        | inl e ↦ rw (batch_update_last_query_at, e) fresh
        | inr (db, e) ↦
            rw (batch_update_last_query_at, e)
              (λ zone rs held. touched-SameZone d laws zone (q ∷ qs) s.db db e ∙ fresh zone rs held)
      ]
