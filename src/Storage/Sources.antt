-- ===== src/Storage/Sources.antt =====
-- `AdblockCache` and `AdblockStorage` of storage/adblock.go. The SQL database is `SourceDatabase`: a
-- state, and calls of which every one may fail. A statement outside a transaction is committed at
-- once.
pub mod Laws
pub mod Fresh
mod Tests
use dns_go.Base.{
  ℕ, ◌+◌, Bool, true, false, not, ◌||◌, List, [], ◌∷◌, Option, none, some, Result, ok, err, ◌>>=◌,
  ltb, if◌then◌else◌, nat_eq, ◌==◌, keep,
}
use dns_go.Base.Text.{Text, codes, text_eq, trim_space, to_lower, trim_suffix, has_any, has_prefix}
use dns_go.Storage.Zones.{Outcome}

-- The source of model/adblock.go, without the fields that nothing here reads.
pub record Source : Type 0 where
  pub id : ℕ
  pub name : Text
  pub url : Text
  pub enabled : Bool
  pub rule_count : ℕ

pub data Statement : Type 0 where
  insert_source : Source → Statement
  update_row : Source → Statement
  delete_row : ℕ → Statement
  insert_domain : ℕ → Text → Statement
  delete_domains : ℕ → Statement
  insert_stat : Text → Text → Statement

-- `all_sources` and `enabled_sources` are ordered by the id.
pub record SourceDatabase : Type 1 where
  pub Db : Type 0
  pub all_sources : Db → Result (List Source)
  pub enabled_sources : Db → Result (List Source)
  pub has_domain : Db → Text → Result Bool
  pub begin : Db → Result Db
  pub prepare : Db → Result Db
  pub exec : Statement → Db → Result (Outcome Db)
  pub commit : Db → Result Db

-- Ten minutes.
abbrev pub source_ttl : ℕ
source_ttl = 600000000000

-- The zero time, which any clock has passed, is none.
pub record AdblockCache : Type 0 where
  pub sources : List Source
  pub expiry : Option ℕ
  pub ttl : ℕ

unfoldable pub new_adblock_cache : ℕ → AdblockCache
new_adblock_cache ttl = record { sources = []; expiry = none; ttl = ttl }

unfoldable pub get : ℕ → AdblockCache → Option (List Source)
get now c = elim c.expiry [
  | none ↦ none
  | some expiry ↦ if ltb expiry now then none else some c.sources
]

unfoldable pub set : ℕ → List Source → AdblockCache → AdblockCache
set now rs c = record c { sources = rs; expiry = some (now + c.ttl) }

unfoldable pub invalidate : AdblockCache → AdblockCache
invalidate c = record c { sources = []; expiry = none }

unfoldable pub normalize_domain : Text → Text
normalize_domain domain = trim_suffix (to_lower (trim_space domain)) (codes ".")

unfoldable pub is_plain_adblock_domain : Text → Bool
is_plain_adblock_domain entry =
    not (entry == [] || (has_any entry (codes "|^*/:$") || has_prefix entry (codes "@@")))

unfoldable pub normalize_adblock_entry : Text → Text
normalize_adblock_entry entry =
    let lower = to_lower (trim_space entry) in
    if is_plain_adblock_domain lower then trim_suffix lower (codes ".") else lower

module _ (d : SourceDatabase) where
  open d use {Db, all_sources, enabled_sources, has_domain, begin, prepare, exec, commit}

  pub record AdblockStorage : Type 0 where
    pub db : Db
    pub cache : AdblockCache

  unfoldable pub new_adblock_storage : Db → AdblockStorage
  new_adblock_storage db = record { db = db; cache = new_adblock_cache source_ttl }

  unfoldable pub list_adblock_sources : ℕ → AdblockStorage → Result (List Source) × AdblockStorage
  list_adblock_sources now s = elim (all_sources s.db) [
    | err ↦ (err, s)
    | ok rs ↦ (ok rs, record s { cache = set now rs s.cache })
  ]

  -- The list that the query gives does not go into the cache.
  unfoldable pub get_enabled_adblock_sources : ℕ → AdblockStorage → Result (List Source)
  get_enabled_adblock_sources now s = elim (get now s.cache) [
    | some rs ↦ ok (keep (λ r. r.enabled) rs)
    | none ↦ enabled_sources s.db
  ]

  unfoldable pub create_adblock_source : Source → AdblockStorage → Result ℕ × AdblockStorage
  create_adblock_source r s = elim (exec (insert_source r) s.db) [
    | err ↦ (err, s)
    | ok o ↦ elim o.last_insert_id [
      | err ↦ (err, record s { db = o.after })
      | ok id ↦ (ok id, record { db = o.after; cache = invalidate s.cache })
    ]
  ]

  -- `UpdateAdblockSource` and `DeleteAdblockSource` differ in their statement.
  unfoldable pub change : Statement → AdblockStorage → Result (Unit {0}) × AdblockStorage
  change statement s = elim (exec statement s.db) [
    | err ↦ (err, s)
    | ok o ↦ elim o.rows_affected [
      | err ↦ (err, record s { db = o.after })
      | ok rows ↦
          if rows == 0
          then (err, record s { db = o.after })
          else (ok tt, record { db = o.after; cache = invalidate s.cache })
    ]
  ]

  -- A statement whose counts nobody reads, committed at once.
  unfoldable pub write : Statement → AdblockStorage → Result (Unit {0}) × AdblockStorage
  write statement s = elim (exec statement s.db) [
    | err ↦ (err, s)
    | ok o ↦ (ok tt, record s { db = o.after })
  ]

  unfoldable pub add_blocked_domain : ℕ → Text → AdblockStorage → Result (Unit {0}) × AdblockStorage
  add_blocked_domain source domain s =
      write (insert_domain source (normalize_adblock_entry domain)) s

  unfoldable pub remove_blocked_domains : ℕ → AdblockStorage → Result (Unit {0}) × AdblockStorage
  remove_blocked_domains source s = write (delete_domains source) s

  unfoldable pub record_blocked_query :
      Text → Text → AdblockStorage → Result (Unit {0}) × AdblockStorage
  record_blocked_query domain client_ip s =
      write (insert_stat (normalize_domain domain) client_ip) s

  unfoldable pub is_blocked : Text → AdblockStorage → Result Bool
  is_blocked domain s = has_domain s.db (normalize_domain domain)

  unfoldable pub exec_all : List Statement → Db → Result Db
  exec_all [] tx = ok tx
  exec_all (st ∷ sts) tx = do o ← exec st tx; exec_all sts o.after

  -- A transaction of one prepared statement.
  unfoldable pub batch : List Statement → Db → Result Db
  batch sts db = do tx ← begin db; ready ← prepare tx; done ← exec_all sts ready; commit done

  unfoldable pub write_batch : List Statement → AdblockStorage → Result (Unit {0}) × AdblockStorage
  write_batch sts s = elim (batch sts s.db) [
    | err ↦ (err, s)
    | ok db ↦ (ok tt, record s { db = db })
  ]

  unfoldable pub domain_inserts : ℕ → List Text → List Statement
  domain_inserts source [] = []
  domain_inserts source (t ∷ ts) =
      insert_domain source (normalize_adblock_entry t) ∷ domain_inserts source ts

  unfoldable pub add_blocked_domains_batch :
      ℕ → List Text → AdblockStorage → Result (Unit {0}) × AdblockStorage
  add_blocked_domains_batch source domains s = write_batch (domain_inserts source domains) s

  -- A query without a name is left out.
  unfoldable pub stat_inserts : List (Text × Text) → List Statement
  stat_inserts [] = []
  stat_inserts ((domain, client_ip) ∷ qs) =
      let rest = stat_inserts qs in
      let name = normalize_domain domain in
      if name == [] then rest else insert_stat name client_ip ∷ rest

  unfoldable pub batch_record_blocked_queries :
      List (Text × Text) → AdblockStorage → Result (Unit {0}) × AdblockStorage
  batch_record_blocked_queries [] s = (ok tt, s)
  batch_record_blocked_queries (q ∷ qs) s = write_batch (stat_inserts (q ∷ qs)) s
