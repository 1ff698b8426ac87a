-- ===== src/Storage/Zones/Fresh.antt =====
-- What `GetZoneByName` of storage/zone.go answers after any calls of its storage.
use dns_go.Base.{
  ℕ, true, false, List, [], ◌∷◌, Option, none, some, Result, ok, err, nat_eq, ◌==◌, ◌≡◌, refl, ◌∙◌,
  sym, ap, arith, Bool-cases, Option-cases, Result-cases, inl, inr, ◌⊎◌, In,
}
use mathlib.Core.Path.{subst}
use dns_go.Base.Map
use dns_go.Base.Map.{Map}
use dns_go.Base.Text.{Text, text_eq, text_beq_iff}
use dns_go.Storage.Types.{Zone}
use dns_go.Storage.Zones.{
  ZoneDatabase, ZoneStorage, Statement, insert_zone, update_row, delete_row, with_defaults, get,
  set, add_zones, invalidate, new_zone_storage, new_zone_cache, clear_cache, get_zone_by_name,
  list_zones, create_zone, update_zone, delete_zone, change, finish,
}

pub data ZoneCall : Type 0 where
  read_call : ℕ → Text → ZoneCall
  list_call : ℕ → ZoneCall
  create_call : Zone → ZoneCall
  update_call : Zone → ZoneCall
  delete_call : ℕ → ZoneCall
  clear_call : ZoneCall

module _ (d : ZoneDatabase) where
  open d use {Db, find_enabled_zone, all_zones, begin, exec, increment_version, commit}

  unfoldable pub perform : ZoneCall → ZoneStorage d → ZoneStorage d
  perform (read_call now name) s = (get_zone_by_name d now name s).1
  perform (list_call now) s = (list_zones d now s).1
  perform (create_call z) s = (create_zone d z s).1
  perform (update_call z) s = (update_zone d z s).1
  perform (delete_call id) s = (delete_zone d id s).1
  perform clear_call s = clear_cache d s

  unfoldable pub run : List ZoneCall → ZoneStorage d → ZoneStorage d
  run [] s = s
  run (c ∷ cs) s = run cs (perform c s)

  -- What SQL promises of the two queries: a row that is found by a name has that name, and an
  -- enabled row of the list is found by its name, which is unique.
  pub record ZoneLaws : Type 0 where
    pub named :
        (db : Db) (name : Text) (z : Zone) → find_enabled_zone db name ≡ ok (some z) → z.name ≡ name
    pub listed :
        (db : Db) (zs : List Zone) (z : Zone)
        → all_zones db ≡ ok zs
        → In z zs
        → z.enabled ≡ true
        → find_enabled_zone db z.name ≡ ok (some z)

  -- Every enabled zone of the cache is the one that the database has, even an outdated one.
  abbrev IsFresh : Db → Map Text Zone → Type 0
  IsFresh db m =
      (name : Text) (z : Zone)
      → Map.get name m ≡ some z
      → z.enabled ≡ true
      → find_enabled_zone db name ≡ ok (some z)

  add_zones-IsFresh :
      (db : Db) (zs : List Zone) (m : Map Text Zone)
      → ((z : Zone) → In z zs → z.enabled ≡ true → find_enabled_zone db z.name ≡ ok (some z))
      → IsFresh db m
      → IsFresh db (add_zones zs m)
  unfolding add_zones
  add_zones-IsFresh db [] m h fresh = fresh
  add_zones-IsFresh db (z ∷ zs) m h fresh =
      add_zones-IsFresh db zs (Map.put z.name z m) (λ y at. h y (inr at))
        (λ name y held on. elim (Bool-cases (z.name == name)) [
          | inl here ↦ ground (
            arith,
            here,
            held,
            on,
            Map.get-put z.name name z m,
            text_beq_iff z.name name,
            h z (inl refl),
          )
          | inr other ↦ fresh name y (ground (arith, other, held, Map.get-put z.name name z m)) on
        ])

  none-IsFresh : (db : Db) → IsFresh db []
  unfolding Map.get
  none-IsFresh db name z held on = absurd (ground arith)

  finish-IsFresh :
      (db : Db) (s : ZoneStorage d)
      → IsFresh s.db s.cache.zones
      → IsFresh (finish d db s).1.db (finish d db s).1.cache.zones
  unfolding finish invalidate
  finish-IsFresh db s fresh = elim (Result-cases (increment_version db)) [
    | inl e ↦ rw (finish, e) fresh
    | inr (db', e) ↦ elim (Result-cases (commit db')) [
      | inl e' ↦ rw (finish, e, e') fresh
      | inr (db'', e') ↦ rw (finish, e, e') (none-IsFresh db'')
    ]
  ]

  abbrev Fresh : ZoneStorage d → Type 0
  Fresh s = IsFresh s.db s.cache.zones

  change-Fresh :
      (statement : Statement) (s : ZoneStorage d) → Fresh s → Fresh (change d statement s).1
  unfolding change
  change-Fresh statement s fresh = elim (Result-cases (begin s.db)) [
    | inl e ↦ rw (change, e) fresh
    | inr (tx, e) ↦ elim (Result-cases (exec statement tx)) [
      | inl e' ↦ rw (change, e, e') fresh
      | inr (o, e') ↦ elim (Result-cases o.rows_affected) [
        | inl e'' ↦ rw (change, e, e', e'') fresh
        | inr (rows, e'') ↦ elim (Bool-cases (rows == 0)) [
          | inl gone ↦ rw (change, e, e', e'', gone) fresh
          | inr there ↦ rw (change, e, e', e'', there) (finish-IsFresh o.after s fresh)
        ]
      ]
    ]
  ]

  create_zone-Fresh : (z : Zone) (s : ZoneStorage d) → Fresh s → Fresh (create_zone d z s).1
  unfolding create_zone
  create_zone-Fresh z s fresh = elim (Result-cases (begin s.db)) [
    | inl e ↦ rw (create_zone, e) fresh
    | inr (tx, e) ↦ elim (Result-cases (exec (insert_zone (with_defaults z)) tx)) [
      | inl e' ↦ rw (create_zone, e, e') fresh
      | inr (o, e') ↦ elim (Result-cases o.last_insert_id) [
        | inl e'' ↦ rw (create_zone, e, e', e'') fresh
        | inr (id, e'') ↦
            rw (create_zone, e, e', e'')
              (either (finish d o.after s).0 (finish d o.after s).1 id
                (finish-IsFresh o.after s fresh))
      ]
    ]
  ]
    where
      either :
          (r : Result (Unit {0})) (s' : ZoneStorage d) (id : ℕ)
          → Fresh s'
          → Fresh
              (elim r as (λ _. Result ℕ × ZoneStorage d) [ err ↦ (err, s') | ok _ ↦ (ok id, s') ]).1
      either err s' id h = h
      either (ok u) s' id h = h

  module _ (laws : ZoneLaws) where
    get_zone_by_name-Fresh :
        (now : ℕ) (name : Text) (s : ZoneStorage d)
        → Fresh s
        → Fresh (get_zone_by_name d now name s).1
          × (((get_zone_by_name d now name s).0 ≡ find_enabled_zone s.db name)
              ⊎ ((z : Zone) × ((get_zone_by_name d now name s).0 ≡ ok (some z))
                  × (z.enabled ≡ false)))
    unfolding get_zone_by_name set
    get_zone_by_name-Fresh now name s fresh = elim (Option-cases (get now name s.cache)) [
      | inr (z, kept) ↦
          let held : Map.get name s.cache.zones ≡ some z = unfold get in ground (arith, kept) in
          rw (get_zone_by_name, kept)
            (
              fresh,
              elim (Bool-cases z.enabled) [
                | inl on ↦ inl (sym (fresh name z held on))
                | inr off ↦ inr (z, refl, off)
              ],
            )
      | inl missing ↦ go missing (find_enabled_zone s.db name) refl
    ]
      where
        go :
            get now name s.cache ≡ none
            → (r : Result (Option Zone)) → find_enabled_zone s.db name ≡ r
            → Fresh (get_zone_by_name d now name s).1
              × (((get_zone_by_name d now name s).0 ≡ find_enabled_zone s.db name)
                  ⊎ ((z : Zone) × ((get_zone_by_name d now name s).0 ≡ ok (some z))
                      × (z.enabled ≡ false)))
        go missing err e = rw (get_zone_by_name, missing, e) (fresh, inl refl)
        go missing (ok none) e = rw (get_zone_by_name, missing, e) (fresh, inl refl)
        go missing (ok (some z)) e =
            rw (get_zone_by_name, missing, e)
              (
                add_zones-IsFresh s.db (z ∷ []) []
                    (λ y at on. elim at [
                      | inl same ↦
                          subst (λ w. find_enabled_zone s.db w.name ≡ ok (some w)) (sym same)
                            (ap (λ n. find_enabled_zone s.db n) (laws.named s.db name z e) ∙ e)
                      | inr never ↦ absurd never
                    ])
                    (none-IsFresh s.db),
                inl refl,
              )

    list_zones-Fresh : (now : ℕ) (s : ZoneStorage d) → Fresh s → Fresh (list_zones d now s).1
    unfolding list_zones set
    list_zones-Fresh now s fresh = elim (Result-cases (all_zones s.db)) [
      | inl e ↦ rw (list_zones, e) fresh
      | inr (zs, e) ↦
          rw (list_zones, e)
            (add_zones-IsFresh s.db zs [] (λ z at on. laws.listed s.db zs z e at on)
              (none-IsFresh s.db))
    ]

    perform-Fresh : (c : ZoneCall) (s : ZoneStorage d) → Fresh s → Fresh (perform c s)
    unfolding perform update_zone delete_zone clear_cache invalidate
    perform-Fresh (read_call now name) s h = (get_zone_by_name-Fresh now name s h).0
    perform-Fresh (list_call now) s h = list_zones-Fresh now s h
    perform-Fresh (create_call z) s h = create_zone-Fresh z s h
    perform-Fresh (update_call z) s h = change-Fresh (update_row z) s h
    perform-Fresh (delete_call id) s h = change-Fresh (delete_row id) s h
    perform-Fresh clear_call s h = none-IsFresh s.db

    run-Fresh : (cs : List ZoneCall) (s : ZoneStorage d) → Fresh s → Fresh (run cs s)
    unfolding run
    run-Fresh [] s h = h
    run-Fresh (c ∷ cs) s h = run-Fresh cs (perform c s) (perform-Fresh c s h)

    -- After any calls on new storage, a read by name answers as the database does, or with a zone
    -- that is disabled, which the database would not give. A row found by a name has that name,
    -- and an enabled row that is listed is found by its name.
    pub run-get_zone_by_name :
        (cs : List ZoneCall) (db : Db) (now : ℕ) (name : Text)
        → ((get_zone_by_name d now name (run cs (new_zone_storage d db))).0
            ≡ find_enabled_zone (run cs (new_zone_storage d db)).db name)
          ⊎ ((z : Zone) × ((get_zone_by_name d now name (run cs (new_zone_storage d db))).0
                ≡ ok (some z))
              × (z.enabled ≡ false))
    unfolding new_zone_storage new_zone_cache
    run-get_zone_by_name cs db now name =
        (get_zone_by_name-Fresh now name (run cs (new_zone_storage d db))
          (run-Fresh cs (new_zone_storage d db) (none-IsFresh db))).1
