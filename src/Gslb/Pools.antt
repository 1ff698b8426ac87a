-- ===== src/Gslb/Pools.antt =====
-- `PoolCache` and `PoolStorage` of gslb/pool.go.
use dns_go.Base.{ℕ, ◌+◌, List, [], Option, none, some, Result, ok, err, ltb, if◌then◌else◌, nat_eq}
use dns_go.Base.Map
use dns_go.Base.Map.{Map}
use dns_go.Gslb.Database.{
  Database, create, change, insert_pool, update_pool as update_pool_row,
  delete_pool as delete_pool_row, insert_member, update_member as update_member_row,
  delete_member as delete_member_row,
}
use dns_go.Gslb.Types.{Pool, Member}

-- Five minutes.
abbrev pub pool_ttl : ℕ
pool_ttl = 300000000000

pub record PoolCache : Type 0 where
  pub pools : Map ℕ (List Pool)
  pub members : Map ℕ (List Member)
  pub pool_expiry : Map ℕ ℕ
  pub member_expiry : Map ℕ ℕ
  pub ttl : ℕ

unfoldable pub new_pool_cache : ℕ → PoolCache
new_pool_cache ttl = record {
  pools = [];
  members = [];
  pool_expiry = [];
  member_expiry = [];
  ttl = ttl;
}

unfoldable pub get_pools : ℕ → ℕ → PoolCache → Option (List Pool)
get_pools now policy_id c = elim (Map.get policy_id c.pool_expiry) [
  | none ↦ none
  | some end ↦ if ltb end now then none else Map.get policy_id c.pools
]

unfoldable pub set_pools : ℕ → ℕ → List Pool → PoolCache → PoolCache
set_pools now policy_id pools c = record c {
  pools = Map.put policy_id pools c.pools;
  pool_expiry = Map.put policy_id (now + c.ttl) c.pool_expiry;
}

unfoldable pub get_members : ℕ → ℕ → PoolCache → Option (List Member)
get_members now pool_id c = elim (Map.get pool_id c.member_expiry) [
  | none ↦ none
  | some end ↦ if ltb end now then none else Map.get pool_id c.members
]

unfoldable pub set_members : ℕ → ℕ → List Member → PoolCache → PoolCache
set_members now pool_id members c = record c {
  members = Map.put pool_id members c.members;
  member_expiry = Map.put pool_id (now + c.ttl) c.member_expiry;
}

unfoldable pub invalidate : ℕ → PoolCache → PoolCache
invalidate policy_id c = record c {
  pools = Map.delete policy_id c.pools;
  pool_expiry = Map.delete policy_id c.pool_expiry;
}

unfoldable pub invalidate_members : ℕ → PoolCache → PoolCache
invalidate_members pool_id c = record c {
  members = Map.delete pool_id c.members;
  member_expiry = Map.delete pool_id c.member_expiry;
}

module _ (d : Database) where
  open d use {Db, find_pool, list_pools, find_member, list_members}

  pub record PoolStorage : Type 0 where
    pub db : Db
    pub cache : PoolCache

  unfoldable pub new_pool_storage : Db → PoolStorage
  unfolding new_pool_cache
  new_pool_storage db = record { db = db; cache = new_pool_cache pool_ttl }

  unfoldable pub get_pool : ℕ → PoolStorage → Result (Option Pool)
  get_pool id s = find_pool s.db id

  unfoldable pub get_pools_by_policy : ℕ → ℕ → PoolStorage → Result (List Pool) × PoolStorage
  get_pools_by_policy now policy_id s = elim (get_pools now policy_id s.cache) [
    | some pools ↦ (ok pools, s)
    | none ↦ elim (list_pools s.db policy_id) [
      | err ↦ (err, s)
      | ok pools ↦ (ok pools, record s { cache = set_pools now policy_id pools s.cache })
    ]
  ]

  unfoldable pub create_pool : Pool → PoolStorage → Result ℕ × PoolStorage
  create_pool pool s = elim (create d (insert_pool pool) s.db) [
    | err ↦ (err, s)
    | ok (id, db) ↦ (ok id, record { db = db; cache = invalidate pool.policy_id s.cache })
  ]

  unfoldable pub update_pool : Pool → PoolStorage → Result (Unit {0}) × PoolStorage
  update_pool pool s = elim (get_pool pool.id s) [
    | err ↦ (err, s)
    | ok none ↦ (err, s)
    | ok (some existing) ↦ elim (change d (update_pool_row pool) s.db) [
      | err ↦ (err, s)
      | ok (_, db) ↦ (ok tt, record { db = db; cache = invalidate existing.policy_id s.cache })
    ]
  ]

  unfoldable pub delete_pool : ℕ → PoolStorage → Result (Unit {0}) × PoolStorage
  delete_pool id s = elim (get_pool id s) [
    | err ↦ (err, s)
    | ok none ↦ (err, s)
    | ok (some pool) ↦ elim (change d (delete_pool_row id) s.db) [
      | err ↦ (err, s)
      | ok (_, db) ↦ (ok tt, record { db = db; cache = invalidate pool.policy_id s.cache })
    ]
  ]

  unfoldable pub get_member : ℕ → PoolStorage → Result (Option Member)
  get_member id s = find_member s.db id

  unfoldable pub get_members_by_pool : ℕ → ℕ → PoolStorage → Result (List Member) × PoolStorage
  get_members_by_pool now pool_id s = elim (get_members now pool_id s.cache) [
    | some members ↦ (ok members, s)
    | none ↦ elim (list_members s.db pool_id) [
      | err ↦ (err, s)
      | ok members ↦ (ok members, record s { cache = set_members now pool_id members s.cache })
    ]
  ]

  unfoldable pub create_member : Member → PoolStorage → Result ℕ × PoolStorage
  create_member member s = elim (create d (insert_member member) s.db) [
    | err ↦ (err, s)
    | ok (id, db) ↦ (ok id, record { db = db; cache = invalidate_members member.pool_id s.cache })
  ]

  -- The members of the pool that the caller names are forgotten.
  unfoldable pub update_member : Member → PoolStorage → Result (Unit {0}) × PoolStorage
  update_member member s = elim (change d (update_member_row member) s.db) [
    | err ↦ (err, s)
    | ok (_, db) ↦ (ok tt, record { db = db; cache = invalidate_members member.pool_id s.cache })
  ]

  unfoldable pub delete_member : ℕ → PoolStorage → Result (Unit {0}) × PoolStorage
  delete_member id s = elim (get_member id s) [
    | err ↦ (err, s)
    | ok none ↦ (err, s)
    | ok (some member) ↦ elim (change d (delete_member_row id) s.db) [
      | err ↦ (err, s)
      | ok (_, db) ↦ (ok tt, record { db = db; cache = invalidate_members member.pool_id s.cache })
    ]
  ]
