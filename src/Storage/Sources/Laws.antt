-- ===== src/Storage/Sources/Laws.antt =====
-- The calls of `AdblockStorage` of storage/adblock.go, and the laws of its database.
use dns_go.Base.{ℕ, List, [], ◌∷◌, ok, err, nat_eq, ◌≡◌, ◌≢◌, keep}
use dns_go.Base.Text.{Text, text_eq}
use dns_go.Storage.Zones.{Outcome}
use dns_go.Storage.Sources.{
  Source, Statement, insert_source, update_row, delete_row, SourceDatabase, AdblockStorage,
  list_adblock_sources, create_adblock_source, change, add_blocked_domain, remove_blocked_domains,
  record_blocked_query, add_blocked_domains_batch, batch_record_blocked_queries,
}

pub data SourceCall : Type 0 where
  list_call : ℕ → SourceCall
  create_call : Source → SourceCall
  update_call : Source → SourceCall
  delete_call : ℕ → SourceCall
  domain_call : ℕ → Text → SourceCall
  domains_call : ℕ → List Text → SourceCall
  remove_call : ℕ → SourceCall
  query_call : Text → Text → SourceCall
  queries_call : List (Text × Text) → SourceCall

-- The statements that leave the table of sources alone.
abbrev pub IsApart : Statement → Type 0
IsApart (insert_source r) = ⊥
IsApart (update_row r) = ⊥
IsApart (delete_row id) = ⊥
IsApart st = Unit

module _ (d : SourceDatabase) where
  open d use {Db, all_sources, enabled_sources, begin, prepare, exec, commit}

  unfoldable pub perform : SourceCall → AdblockStorage d → AdblockStorage d
  perform (list_call now) s = (list_adblock_sources d now s).1
  perform (create_call r) s = (create_adblock_source d r s).1
  perform (update_call r) s = (change d (update_row r) s).1
  perform (delete_call id) s = (change d (delete_row id) s).1
  perform (domain_call id t) s = (add_blocked_domain d id t s).1
  perform (domains_call id ts) s = (add_blocked_domains_batch d id ts s).1
  perform (remove_call id) s = (remove_blocked_domains d id s).1
  perform (query_call domain ip) s = (record_blocked_query d domain ip s).1
  perform (queries_call qs) s = (batch_record_blocked_queries d qs s).1

  unfoldable pub run : List SourceCall → AdblockStorage d → AdblockStorage d
  run [] s = s
  run (c ∷ cs) s = run cs (perform c s)

  abbrev pub SameSources : Db → Db → Type 0
  SameSources db db' = all_sources db' ≡ all_sources db

  -- What SQL promises: the enabled sources are those of the list, other tables do not matter, a
  -- statement that touches no row changes nothing, and its id and its count can be read.
  pub record SourceLaws : Type 0 where
    pub enabled-listed :
        (db : Db) (rs : List Source)
        → all_sources db ≡ ok rs
        → enabled_sources db ≡ ok (keep (λ r. r.enabled) rs)
    pub begin-SameSources : (db tx : Db) → begin db ≡ ok tx → SameSources db tx
    pub prepare-SameSources : (db tx : Db) → prepare db ≡ ok tx → SameSources db tx
    pub commit-SameSources : (db tx : Db) → commit db ≡ ok tx → SameSources db tx
    pub exec-SameSources :
        (st : Statement) (db : Db) (o : Outcome Db)
        → exec st db ≡ ok o
        → IsApart st
        → SameSources db o.after
    pub unaffected :
        (st : Statement) (db : Db) (o : Outcome Db)
        → exec st db ≡ ok o
        → o.rows_affected ≡ ok 0
        → SameSources db o.after
    pub has_id :
        (st : Statement) (db : Db) (o : Outcome Db) → exec st db ≡ ok o → o.last_insert_id ≢ err
    pub has_count :
        (st : Statement) (db : Db) (o : Outcome Db) → exec st db ≡ ok o → o.rows_affected ≢ err
