-- ===== src/Storage/Sources/Fresh.antt =====
-- What `GetEnabledAdblockSources` of storage/adblock.go answers after any calls of its storage.
use dns_go.Base.{
  ℕ, Bool, true, false, List, [], ◌∷◌, Option, none, some, ok, ◌>>=◌, bind-ok, nat_eq, ◌==◌, ◌≡◌,
  refl, ◌∙◌, sym, ap, arith, Bool-cases, Option-cases, Result-cases, inl, inr, keep, All, ltb,
  if◌then◌else◌,
}
use dns_go.Base.Text.{Text, text_eq}
use dns_go.Storage.Sources.{
  Source, Statement, insert_source, update_row, delete_row, insert_domain, delete_domains,
  insert_stat, SourceDatabase, AdblockCache, AdblockStorage, get, set, invalidate, normalize_domain,
  new_adblock_storage, new_adblock_cache, list_adblock_sources, get_enabled_adblock_sources,
  create_adblock_source, change, write, add_blocked_domain, remove_blocked_domains,
  record_blocked_query, exec_all, batch, write_batch, domain_inserts, add_blocked_domains_batch,
  stat_inserts, batch_record_blocked_queries, normalize_adblock_entry,
}
use dns_go.Storage.Sources.Laws.{
  SourceCall, list_call, create_call, update_call, delete_call, domain_call, domains_call,
  remove_call, query_call, queries_call, IsApart, perform, run, SameSources, SourceLaws,
}

module _ (d : SourceDatabase) (laws : SourceLaws d) where
  open d use {Db, all_sources, enabled_sources, begin, prepare, exec, commit}

  -- A list that is cached, even an outdated one, is what the database has.
  abbrev IsFresh : Db → AdblockCache → Type 0
  IsFresh db c = (e : ℕ) → c.expiry ≡ some e → all_sources db ≡ ok c.sources

  abbrev Fresh : AdblockStorage d → Type 0
  Fresh s = IsFresh s.db s.cache

  moved-IsFresh :
      (db db' : Db) (c : AdblockCache) → SameSources d db db' → IsFresh db c → IsFresh db' c
  moved-IsFresh db db' c same fresh e held = same ∙ fresh e held

  invalidate-IsFresh : (db : Db) (c : AdblockCache) → IsFresh db (invalidate c)
  unfolding invalidate
  invalidate-IsFresh db c e held = absurd (ground (arith, held))

  list-Fresh : (now : ℕ) (s : AdblockStorage d) → Fresh s → Fresh (list_adblock_sources d now s).1
  unfolding list_adblock_sources set
  list-Fresh now s fresh = elim (Result-cases (all_sources s.db)) [
    | inl e ↦ rw (list_adblock_sources, e) fresh
    | inr (rs, e) ↦ rw (list_adblock_sources, e) (λ x held. e)
  ]

  create-Fresh :
      (r : Source) (s : AdblockStorage d) → Fresh s → Fresh (create_adblock_source d r s).1
  unfolding create_adblock_source
  create-Fresh r s fresh = elim (Result-cases (exec (insert_source r) s.db)) [
    | inl e ↦ rw (create_adblock_source, e) fresh
    | inr (o, e) ↦ elim (Result-cases o.last_insert_id) [
      | inl e' ↦ absurd (laws.has_id (insert_source r) s.db o e e')
      | inr (id, e') ↦ rw (create_adblock_source, e, e') (invalidate-IsFresh o.after s.cache)
    ]
  ]

  change-Fresh : (st : Statement) (s : AdblockStorage d) → Fresh s → Fresh (change d st s).1
  unfolding change
  change-Fresh st s fresh = elim (Result-cases (exec st s.db)) [
    | inl e ↦ rw (change, e) fresh
    | inr (o, e) ↦ elim (Result-cases o.rows_affected) [
      | inl e' ↦ absurd (laws.has_count st s.db o e e')
      | inr (rows, e') ↦ elim (Bool-cases (rows == 0)) [
        | inl gone ↦
            let zero_rows : rows ≡ 0 = ground (arith, gone) in
            rw (change, e, e', gone)
              (moved-IsFresh s.db o.after s.cache
                (laws.unaffected st s.db o e (e' ∙ ap (λ n. ok n) zero_rows)) fresh)
        | inr there ↦ rw (change, e, e', there) (invalidate-IsFresh o.after s.cache)
      ]
    ]
  ]

  write-Fresh :
      (st : Statement) (s : AdblockStorage d) → IsApart st → Fresh s → Fresh (write d st s).1
  unfolding write
  write-Fresh st s apart fresh = elim (Result-cases (exec st s.db)) [
    | inl e ↦ rw (write, e) fresh
    | inr (o, e) ↦
        rw (write, e)
          (moved-IsFresh s.db o.after s.cache (laws.exec-SameSources st s.db o e apart) fresh)
  ]

  exec_all-SameSources :
      (sts : List Statement) (tx db : Db)
      → All IsApart sts
      → exec_all d sts tx ≡ ok db
      → SameSources d tx db
  unfolding exec_all
  exec_all-SameSources [] tx db apart e =
      let same : db ≡ tx = ground (arith, e) in ap (λ x. all_sources x) same
  exec_all-SameSources (st ∷ sts) tx db (apart, rest) e =
      let (o, ran, more) = bind-ok (exec st tx) (λ o. exec_all d sts o.after) db e in
      exec_all-SameSources sts o.after db rest more ∙ laws.exec-SameSources st tx o ran apart

  batch-SameSources :
      (sts : List Statement) (db db' : Db)
      → All IsApart sts
      → batch d sts db ≡ ok db'
      → SameSources d db db'
  unfolding batch
  batch-SameSources sts db db' apart e =
      let (tx, begun, e1) =
        bind-ok (begin db) (λ tx. prepare tx >>= λ ready. exec_all d sts ready >>= commit) db' e in
      let (ready, prepared, e2) =
        bind-ok (prepare tx) (λ ready. exec_all d sts ready >>= commit) db' e1 in
      let (done, ran, ended) = bind-ok (exec_all d sts ready) commit db' e2 in
      laws.commit-SameSources done db' ended
      ∙ exec_all-SameSources sts ready done apart ran
      ∙ laws.prepare-SameSources tx ready prepared
      ∙ laws.begin-SameSources db tx begun

  write_batch-Fresh :
      (sts : List Statement) (s : AdblockStorage d)
      → All IsApart sts
      → Fresh s
      → Fresh (write_batch d sts s).1
  unfolding write_batch
  write_batch-Fresh sts s apart fresh = elim (Result-cases (batch d sts s.db)) [
    | inl e ↦ rw (write_batch, e) fresh
    | inr (db, e) ↦
        rw (write_batch, e)
          (moved-IsFresh s.db db s.cache (batch-SameSources sts s.db db apart e) fresh)
  ]

  domain_inserts-IsApart : (id : ℕ) (ts : List Text) → All IsApart (domain_inserts d id ts)
  unfolding domain_inserts
  domain_inserts-IsApart id [] = tt
  domain_inserts-IsApart id (t ∷ ts) = (tt, domain_inserts-IsApart id ts)

  either_way :
      (c : Bool) (xs ys : List Statement)
      → All IsApart xs
      → All IsApart ys
      → All IsApart (if c then xs else ys)
  either_way true xs ys h k = h
  either_way false xs ys h k = k

  stat_inserts-IsApart : (qs : List (Text × Text)) → All IsApart (stat_inserts d qs)
  unfolding stat_inserts
  stat_inserts-IsApart [] = tt
  stat_inserts-IsApart ((domain, ip) ∷ qs) =
      let rest = stat_inserts d qs in
      let name = normalize_domain domain in
      either_way (name == []) rest (insert_stat name ip ∷ rest) (stat_inserts-IsApart qs)
        (tt, stat_inserts-IsApart qs)

  perform-Fresh : (c : SourceCall) (s : AdblockStorage d) → Fresh s → Fresh (perform d c s)
  unfolding perform add_blocked_domain add_blocked_domains_batch remove_blocked_domains
      record_blocked_query batch_record_blocked_queries
  perform-Fresh (list_call now) s h = list-Fresh now s h
  perform-Fresh (create_call r) s h = create-Fresh r s h
  perform-Fresh (update_call r) s h = change-Fresh (update_row r) s h
  perform-Fresh (delete_call id) s h = change-Fresh (delete_row id) s h
  perform-Fresh (domain_call id t) s h =
      write-Fresh (insert_domain id (normalize_adblock_entry t)) s tt h
  perform-Fresh (domains_call id ts) s h =
      write_batch-Fresh (domain_inserts d id ts) s (domain_inserts-IsApart id ts) h
  perform-Fresh (remove_call id) s h = write-Fresh (delete_domains id) s tt h
  perform-Fresh (query_call domain ip) s h =
      write-Fresh (insert_stat (normalize_domain domain) ip) s tt h
  perform-Fresh (queries_call []) s h = h
  perform-Fresh (queries_call (q ∷ qs)) s h =
      write_batch-Fresh (stat_inserts d (q ∷ qs)) s (stat_inserts-IsApart (q ∷ qs)) h

  run-Fresh : (cs : List SourceCall) (s : AdblockStorage d) → Fresh s → Fresh (run d cs s)
  unfolding run
  run-Fresh [] s h = h
  run-Fresh (c ∷ cs) s h = run-Fresh cs (perform d c s) (perform-Fresh c s h)

  get-held :
      (now : ℕ) (rs : List Source) (c : AdblockCache)
      → get now c ≡ some rs
      → (e : ℕ) × (c.expiry ≡ some e) × (rs ≡ c.sources)
  unfolding get
  get-held now rs c kept = go c.expiry refl kept
    where
      go :
          (o : Option ℕ)
          → c.expiry ≡ o
          → (elim o as (λ _. Option (List Source)) [
            | none ↦ none
            | some expiry ↦ if ltb expiry now then none else some c.sources
          ])
            ≡ some rs
          → (e : ℕ) × (c.expiry ≡ some e) × (rs ≡ c.sources)
      go none e k = absurd (ground (arith, k))
      go (some expiry) e k = (expiry, e, ground (arith, k))

  -- After any calls on new storage, the enabled sources are exactly those that the database would
  -- give, whatever is in the cache, where a statement's id and count can be read and one that
  -- touches no source leaves them as they are.
  pub run-get_enabled_adblock_sources :
      (cs : List SourceCall) (db : Db) (now : ℕ)
      → get_enabled_adblock_sources d now (run d cs (new_adblock_storage d db))
        ≡ enabled_sources (run d cs (new_adblock_storage d db)).db
  unfolding new_adblock_storage new_adblock_cache get_enabled_adblock_sources get
  run-get_enabled_adblock_sources cs db now =
      go (run d cs (new_adblock_storage d db))
        (run-Fresh cs (new_adblock_storage d db) (λ e held. absurd (ground (arith, held))))
    where
      go :
          (s : AdblockStorage d)
          → Fresh s
          → get_enabled_adblock_sources d now s ≡ enabled_sources s.db
      go s fresh = elim (Option-cases (get now s.cache)) [
        | inl missing ↦ rw (get_enabled_adblock_sources, missing) refl
        | inr (rs, kept) ↦
            let (e, held, same) = get-held now rs s.cache kept in
            rw (get_enabled_adblock_sources, kept)
              (ap (λ x. ok (keep (λ r. r.enabled) x)) same
                ∙ sym (laws.enabled-listed s.db s.cache.sources (fresh e held)))
      ]
