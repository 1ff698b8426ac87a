-- ===== src/Gslb/Policies.antt =====
-- `PolicyCache` and `PolicyStorage` of gslb/policy.go.
use dns_go.Base.{
  ℕ, ◌+◌, List, [], ◌∷◌, ◌++◌, Option, none, some, Result, ok, err, ltb, if◌then◌else◌, nat_eq,
  ◌==◌,
}
use dns_go.Base.Map
use dns_go.Base.Map.{Map}
use dns_go.Base.Text.{Text, codes, text_eq, to_lower, to_upper}
use dns_go.Gslb.Database.{Database, create, change, insert_policy, update_policy, delete_policy}
use dns_go.Gslb.Types.{Policy}

-- Five minutes.
abbrev pub policy_ttl : ℕ
policy_ttl = 300000000000

-- `expiry` 0 is the zero time, which any clock has passed.
pub record PolicyCache : Type 0 where
  pub policies : Map Text Policy
  pub expiry : ℕ
  pub ttl : ℕ

unfoldable pub new_policy_cache : ℕ → PolicyCache
new_policy_cache ttl = record { policies = []; expiry = 0; ttl = ttl }

unfoldable pub get : ℕ → Text → PolicyCache → Option Policy
get now key c = if ltb c.expiry now then none else Map.get key c.policies

unfoldable pub cache_policy_key : Text → Text → Text
cache_policy_key domain record_type = to_lower domain ++ b':' ∷ to_upper record_type

unfoldable pub add_policies : List Policy → Map Text Policy → Map Text Policy
add_policies [] m = m
add_policies (p ∷ ps) m = add_policies ps (Map.put (cache_policy_key p.domain p.record_type) p m)

unfoldable pub set : ℕ → List Policy → PolicyCache → PolicyCache
set now ps c = record c { policies = add_policies ps []; expiry = now + c.ttl }

unfoldable pub invalidate : PolicyCache → PolicyCache
invalidate c = record c { policies = []; expiry = 0 }

module _ (d : Database) where
  open d use {Db, find_policy, find_enabled_policy, list_policies}

  pub record PolicyStorage : Type 0 where
    pub db : Db
    pub cache : PolicyCache

  unfoldable pub new_policy_storage : Db → PolicyStorage
  unfolding new_policy_cache
  new_policy_storage db = record { db = db; cache = new_policy_cache policy_ttl }

  unfoldable pub get_policy : ℕ → PolicyStorage → Result (Option Policy)
  get_policy id s = find_policy s.db id

  unfoldable pub get_policy_by_domain : ℕ → Text → Text → PolicyStorage → Result (Option Policy)
  get_policy_by_domain now domain record_type s =
      elim (get now (cache_policy_key domain record_type) s.cache) [
        | some p ↦ ok (some p)
        | none ↦ find_enabled_policy s.db domain record_type
      ]

  unfoldable pub list : ℕ → PolicyStorage → Result (List Policy) × PolicyStorage
  list now s = elim (list_policies s.db) [
    | err ↦ (err, s)
    | ok ps ↦ (ok ps, record s { cache = set now ps s.cache })
  ]

  -- The policy as it is written: `A` where no type is given, the type in upper case.
  unfoldable pub with_default_type : Policy → Policy
  with_default_type p = if p.record_type == [] then record p { record_type = codes "A" } else p

  unfoldable pub upper_type : Policy → Policy
  upper_type p = record p { record_type = to_upper p.record_type }

  unfoldable pub create_policy : Policy → PolicyStorage → Result ℕ × PolicyStorage
  create_policy p s = elim (create d (insert_policy (upper_type (with_default_type p))) s.db) [
    | err ↦ (err, s)
    | ok (id, db) ↦ (ok id, record { db = db; cache = invalidate s.cache })
  ]

  unfoldable pub update : Policy → PolicyStorage → Result (Unit {0}) × PolicyStorage
  update p s = elim (change d (update_policy (upper_type p)) s.db) [
    | err ↦ (err, s)
    | ok (_, db) ↦ (ok tt, record { db = db; cache = invalidate s.cache })
  ]

  unfoldable pub delete : ℕ → PolicyStorage → Result (Unit {0}) × PolicyStorage
  delete id s = elim (change d (delete_policy id) s.db) [
    | err ↦ (err, s)
    | ok (_, db) ↦ (ok tt, record { db = db; cache = invalidate s.cache })
  ]
