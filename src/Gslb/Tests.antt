-- ===== src/Gslb/Tests.antt =====
-- The policies, pools and members of gslb on concrete rows.
use dns_go.Base.{
  ℕ, if◌then◌else◌, ◌==◌, ◌↔◌, Bool, true, false, List, [], ◌∷◌, Option, none, some, ◌≡◌, ◌≢◌, refl,
  arith, nat_eq, Result, ok, err, inl,
}
use dns_go.Gslb.Runners.{Loop, new_worker, start_check, add_check, remove_check, update_check}
use dns_go.Gslb.Runners.Single
use dns_go.Gslb.Runners.Single.{after_single}
use dns_go.Base.Map
use dns_go.Base.Text.{Text, codes, text_eq, text_beq, to_lower, to_upper}
use dns_go.Gslb.Coherence.{MemberLaws}
use dns_go.Gslb.Database.{Database, Statement, Outcome, insert_member, update_member, delete_member}
use dns_go.Gslb.Engine.{Network, Engine, match_pool, resolve}
use dns_go.Gslb.History.{
  MemberCall, read_call, update_call, delete_call, perform, run, run-get_members_by_pool,
  get_policy_by_domain-list,
}
use dns_go.Gslb.Members.{is_healthy, value, Health, weighted_select, select_members}
use dns_go.Gslb.Policies
use dns_go.Gslb.Pools
use dns_go.Gslb.Resolve.{Chosen, fallback_members, addresses, resolve-Chosen}
use dns_go.Gslb.Select.{Selects, weighted_select-share, select_members-Selects}
use dns_go.Gslb.Types.{Policy, Pool, Member, HealthCheck, HealthStatus}
use dns_go.Gslb.Health.{get_status, observe, run_check}
use dns_go.Gslb.Health.Hysteresis.{Probe, after, results, IsDown, after-IsDown}

abbrev member : ℕ → ℕ → ℕ → Text → Member
member id pool weight address = record {
  id = id;
  pool_id = pool;
  address = address;
  weight = weight;
  enabled = true;
}

abbrev east : Member
east = member 1 10 3 (codes "10.0.0.1")

abbrev west : Member
west = member 2 10 5 (codes "10.0.0.2")

abbrev spare : Member
spare = member 3 20 1 (codes "10.0.0.3")

abbrev down : HealthStatus
down = record {
  healthy = false;
  consecutive_fails = 3;
  consecutive_oks = 0;
  last_check = 0;
  last_error = codes "timeout";
}

-- Five of the eight draws fall on the second member.
weighted_select-share_example : weighted_select 12 (east ∷ west ∷ []) ≡ value (some west)
weighted_select-share_example =
    weighted_select-share 12 (east ∷ []) [] west (omega arith) (omega arith) (omega arith)

abbrev one_down : Health
one_down = some ((1, down) ∷ [])

select_members-Selects_example :
    (c : List Member × Bool) × (select_members 12 one_down (east ∷ west ∷ []) ≡ value c)
    × Selects one_down (east ∷ west ∷ []) c
select_members-Selects_example = select_members-Selects 12 one_down (east ∷ west ∷ []) (omega arith)

-- A database whose state is its list of members.
abbrev members_of : List Member → ℕ → List Member
members_of [] p = []
members_of (m ∷ ms) p = if m.pool_id == p then m ∷ members_of ms p else members_of ms p

-- The row of an id, and what an update or a delete of it leaves.
abbrev row_of : ℕ → List Member → Option Member
row_of id [] = none
row_of id (m ∷ ms) = if m.id == id then some m else row_of id ms

abbrev updated : Member → List Member → List Member
updated u [] = []
updated u (m ∷ ms) =
    if m.id == u.id
    then record m { address = u.address; weight = u.weight; enabled = u.enabled } ∷ ms
    else m ∷ updated u ms

abbrev removed : ℕ → List Member → List Member
removed id [] = []
removed id (m ∷ ms) = if m.id == id then ms else m ∷ removed id ms

abbrev outcome : List Member → Outcome (List Member)
outcome db = record { last_insert_id = ok 7; rows_affected = ok 1; after = db }

abbrev execute : Statement → List Member → Result (Outcome (List Member))
execute (insert_member m) db = ok (outcome (m ∷ db))
execute (update_member m) db = ok (outcome (updated m db))
execute (delete_member id) db = ok (outcome (removed id db))
execute _ db = err

abbrev policy : Policy
policy = record {
  id = 1;
  name = codes "www";
  domain = codes "www.a.org";
  record_type = codes "A";
  ttl = 30;
  enabled = true;
  created_at = 0;
}

abbrev off_policy : Policy
off_policy = record policy { enabled = false }

abbrev pool : ℕ → Text → Bool → Pool
pool id kind fallback = record {
  id = id;
  policy_id = 1;
  name = codes "pool";
  match_type = kind;
  match_value = codes "10.0.0.0/8";
  priority = 1;
  fallback_pool = fallback;
}

abbrev pools : List Pool
pools = pool 10 (codes "CIDR") false ∷ pool 20 (codes "default") true ∷ []

abbrev members_db : Database
members_db = record {
  Db = List Member;
  find_policy = λ db id. ok (some policy);
  find_enabled_policy = λ db domain kind. ok (some policy);
  list_policies = λ db. ok (off_policy ∷ []);
  find_pool = λ db id. ok none;
  list_pools = λ db id. ok pools;
  find_member = λ db id. ok (row_of id db);
  list_members = λ db p. ok (members_of db p);
  begin = λ db. ok db;
  exec = execute;
  increment_version = λ db. ok db;
  commit = λ db. ok db;
}

updated-members_of :
    (u row : Member) (db : List Member) (p : ℕ)
    → row_of u.id db ≡ some row
    → p ≢ row.pool_id
    → members_of (updated u db) p ≡ members_of db p
updated-members_of u row [] p h ne = refl
updated-members_of u row (m ∷ ms) p h ne = ground (arith, updated-members_of u row ms p)

removed-members_of :
    (id : ℕ) (row : Member) (db : List Member) (p : ℕ)
    → row_of id db ≡ some row
    → p ≢ row.pool_id
    → members_of (removed id db) p ≡ members_of db p
removed-members_of id row [] p h ne = refl
removed-members_of id row (m ∷ ms) p h ne = ground (arith, removed-members_of id row ms p)

members_db_laws : MemberLaws members_db
members_db_laws = record {
  begin_keeps = λ db tx e p. ground (arith, e);
  version_keeps = λ tx tx' e p. ground (arith, e);
  commit_keeps = λ tx db e p. ground (arith, e);
  insert_local = λ m tx o e p ne. ground (arith, e);
  update_local =
      λ m row db tx o b at_row e p ne. ground (arith, b, e, at_row, updated-members_of m row db p);
  delete_local = λ id row db tx o b at_row e p ne.
      ground (arith, b, e, at_row, removed-members_of id row db p);
}

abbrev rows : List Member
rows = east ∷ west ∷ spare ∷ []

abbrev heavier : Member
heavier = record west { weight = 50 }

abbrev calls : List MemberCall
calls = read_call 5 10 ∷ update_call heavier ∷ read_call 6 10 ∷ delete_call 1 ∷ []

run-get_members_by_pool_example :
    (Pools.get_members_by_pool members_db 7 10
      (run members_db calls (Pools.new_pool_storage members_db rows))).0
    ≡ members_db.list_members (run members_db calls (Pools.new_pool_storage members_db rows)).db 10
unfolding perform run Pools.new_pool_storage Pools.get_members_by_pool Map.get Pools.get_members
    Pools.new_pool_cache
run-get_members_by_pool_example =
    run-get_members_by_pool members_db members_db_laws calls rows 7 10 ((west, refl, refl), tt)

abbrev policies : Policies.PolicyStorage members_db
policies = Policies.new_policy_storage members_db rows

get_policy_by_domain-list_example :
    Policies.get_policy_by_domain members_db 900
      (codes "WWW.a.org")
      (codes "a")
      (Policies.list members_db 800 policies).1
    ≡ ok (some off_policy)
unfolding Policies.cache_policy_key Policies.new_policy_storage Policies.new_policy_cache to_lower
    to_upper
get_policy_by_domain-list_example =
    get_policy_by_domain-list members_db 800 900 policies [] [] off_policy (codes "WWW.a.org")
      (codes "a") refl refl tt (omega arith)

-- Addresses are texts, and every one of them is in the network.
abbrev network : Network
network = record {
  IP = Text;
  parse_ip = λ t. some t;
  cidr_contains = λ t ip. ok true;
  country = λ ip. err;
}

abbrev engine : Engine network members_db
engine = record {
  policy_storage = policies;
  pool_storage = Pools.new_pool_storage members_db rows;
  geoip = false;
  health = one_down;
}

abbrev engine_pools : Pools.PoolStorage members_db
engine_pools = (Pools.get_pools_by_policy members_db 5 1 engine.pool_storage).1

resolve-Chosen_example :
    (c : List Member × Bool) × ((resolve network members_db 5 12 12
        (codes "www.a.org")
        (codes "A")
        (some (codes "10.1.1.1"))
        engine).0
      ≡ value (addresses members_db network policy c.0))
    × Chosen one_down (east ∷ west ∷ []) (spare ∷ []) c
unfolding Pools.new_pool_storage Pools.get_pools_by_policy Pools.get_members_by_pool Map.get
    Pools.get_members Pools.new_pool_cache Pools.get_pools Pools.set_pools
    Policies.get_policy_by_domain Policies.get Policies.new_policy_storage Policies.new_policy_cache
    match_pool to_lower fallback_members text_beq Pools.set_members Map.put
resolve-Chosen_example =
    resolve-Chosen members_db network 5 12 12 (codes "www.a.org") (codes "A")
      (some (codes "10.1.1.1")) engine policy pools (pool 10 (codes "CIDR") false)
      (east ∷ west ∷ []) engine_pools (Pools.get_members_by_pool members_db 5 10 engine_pools).1
      refl refl refl refl (omega arith) (omega arith)

abbrev health_check : HealthCheck
health_check = record {
  id = 1;
  policy_id = 1;
  check_type = codes "tcp";
  target = codes "80";
  interval_sec = 10;
  timeout_sec = 2;
  healthy_threshold = 2;
  unhealthy_threshold = 3;
  expected_codes = [];
  enabled = true;
}

abbrev probe : ℕ → Member → Option Text → Probe
probe now m outcome = record { at_time = now; member = m; outcome = outcome }

-- The newest stands first: three failures, then one success.
abbrev probes : List Probe
probes =
    probe 4 east none
    ∷ probe 4 west none
    ∷ probe 3 east (some (codes "timeout"))
    ∷ probe 2 east (some (codes "timeout"))
    ∷ probe 1 east (some (codes "timeout"))
    ∷ []

after-IsDown_example :
    (is_healthy (some (after health_check probes)) east ≡ false) ↔ IsDown 2 3 (results 1 probes)
after-IsDown_example =
    after-IsDown health_check east probes (omega arith) (omega arith) (omega arith) (omega arith)
      (omega arith)

still_down : is_healthy (some (after health_check probes)) east ≡ false
unfolding after is_healthy run_check observe get_status Map.get Map.put
still_down = refl

-- A check is added, and then its settings change while its goroutine runs.
abbrev faster : HealthCheck
faster = record health_check { interval_sec = 1 }

abbrev check_steps : List Single.Step
check_steps = Single.add_step health_check ∷ Single.add_step health_check ∷ []

abbrev newest : Loop
newest = record { check = faster; channel = 1 }

restarted : (Single.after (Single.update_step faster ∷ check_steps)).closed ≡ 0 ∷ []
unfolding Single.after Single.step update_check add_check start_check remove_check new_worker
    Map.get Map.put Map.delete
restarted = refl

after_single_example : newest ≡ newest
unfolding Single.after Single.step update_check add_check start_check remove_check new_worker
    Map.get Map.put Map.delete
after_single_example =
    after_single (Single.update_step faster ∷ check_steps) newest newest (inl refl) (inl refl) refl
      refl refl
