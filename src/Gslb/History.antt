-- ===== src/Gslb/History.antt =====
-- Histories of the storages of gslb: what their caches come to after any calls.
use dns_go.Base.{ℕ, ◌+◌, ◌≤◌, List, [], ◌∷◌, ◌++◌, some, ◌≡◌, refl, ◌∙◌, arith, nat_eq, All, ok}
use dns_go.Base.Map
use dns_go.Base.Map.{Map}
use dns_go.Base.Text.{Text, text_eq, text_beq_iff}
use dns_go.Gslb.Database.{Database}
use dns_go.Gslb.Policies
use dns_go.Gslb.Policies.{PolicyStorage, PolicyCache, cache_policy_key, add_policies}
use dns_go.Gslb.Pools
use dns_go.Gslb.Pools.{PoolStorage, PoolCache}
use dns_go.Gslb.Types.{Member, Policy}
use dns_go.Gslb.Coherence.{
  MemberLaws, IsCoherent, NamesPool, get_members_by_pool-IsCoherent, create_member-IsCoherent,
  update_member-IsCoherent, delete_member-IsCoherent,
}

-- The calls that read or write members.
pub data MemberCall : Type 0 where
  read_call : ℕ → ℕ → MemberCall
  create_call : Member → MemberCall
  update_call : Member → MemberCall
  delete_call : ℕ → MemberCall

-- The last policy of a list that has a key.
abbrev pub HasKey : Text → Policy → Type 0
HasKey key p = cache_policy_key p.domain p.record_type ≡ key

add_policies_other :
    (ps : List Policy) (key : Text) (m : Map Text Policy)
    → All (λ q. ¬ (HasKey key q)) ps
    → Map.get key (add_policies ps m) ≡ Map.get key m
unfolding add_policies
add_policies_other [] key m h = refl
add_policies_other (q ∷ ps) key m (other, h) =
    let k = cache_policy_key q.domain q.record_type in
    add_policies_other ps key (Map.put k q m) h
    ∙ ground (arith, Map.get-put k key q m, text_beq_iff k key, other)

add_policies-last :
    (before after : List Policy) (p : Policy) (key : Text) (m : Map Text Policy)
    → HasKey key p
    → All (λ q. ¬ (HasKey key q)) after
    → Map.get key (add_policies (before ++ p ∷ after) m) ≡ some p
unfolding add_policies
add_policies-last [] after p key m h none_later =
    add_policies_other after key _ none_later ∙ put_found
  where
    put_found : Map.get key (Map.put (cache_policy_key p.domain p.record_type) p m) ≡ some p
    put_found = ground (
      arith,
      Map.get-put (cache_policy_key p.domain p.record_type) key p m,
      text_beq_iff (cache_policy_key p.domain p.record_type) key,
      h,
    )
add_policies-last (q ∷ before) after p key m h none_later =
    add_policies-last before after p key _ h none_later

module _ (d : Database) where
  open d use {list_members, list_policies}

  unfoldable pub perform : MemberCall → PoolStorage d → PoolStorage d
  perform (read_call now pool) s = (Pools.get_members_by_pool d now pool s).1
  perform (create_call m) s = (Pools.create_member d m s).1
  perform (update_call m) s = (Pools.update_member d m s).1
  perform (delete_call id) s = (Pools.delete_member d id s).1

  unfoldable pub run : List MemberCall → PoolStorage d → PoolStorage d
  run [] s = s
  run (call ∷ calls) s = run calls (perform call s)

  -- Every update of the history names the pool in which the member stands at that time.
  abbrev pub IsHonest : PoolStorage d → List MemberCall → Type 0
  IsHonest s [] = Unit
  IsHonest s (read_call now pool ∷ calls) = IsHonest (perform (read_call now pool) s) calls
  IsHonest s (create_call m ∷ calls) = IsHonest (perform (create_call m) s) calls
  IsHonest s (update_call m ∷ calls) = NamesPool d s m × IsHonest (perform (update_call m) s) calls
  IsHonest s (delete_call id ∷ calls) = IsHonest (perform (delete_call id) s) calls

  new_pool_storage-IsCoherent : (db : d.Db) → IsCoherent d (Pools.new_pool_storage d db)
  unfolding Pools.new_pool_storage Map.get
  new_pool_storage-IsCoherent db p ms h = absurd (ground arith)

  run-IsCoherent :
      (laws : MemberLaws d) (calls : List MemberCall) (s : PoolStorage d)
      → IsCoherent d s
      → IsHonest s calls
      → IsCoherent d (run calls s)
  unfolding run perform
  run-IsCoherent laws [] s coh h = coh
  run-IsCoherent laws (read_call now pool ∷ calls) s coh h =
      run-IsCoherent laws calls _ (get_members_by_pool-IsCoherent d laws now pool s coh).1 h
  run-IsCoherent laws (create_call m ∷ calls) s coh h =
      run-IsCoherent laws calls _ (create_member-IsCoherent d laws m s coh) h
  run-IsCoherent laws (update_call m ∷ calls) s coh (names, h) =
      run-IsCoherent laws calls _ (update_member-IsCoherent d laws m s names coh) h
  run-IsCoherent laws (delete_call id ∷ calls) s coh h =
      run-IsCoherent laws calls _ (delete_member-IsCoherent d laws id s coh) h

  -- After any reads and writes of members on new storage, a read answers with what stands in the
  -- database, whatever is cached. The statements change the lists of their own pools only, and
  -- every update names the pool in which the member stands.
  pub run-get_members_by_pool :
      (laws : MemberLaws d) (calls : List MemberCall) (db : d.Db) (now pool : ℕ)
      → IsHonest (Pools.new_pool_storage d db) calls
      → (Pools.get_members_by_pool d now pool (run calls (Pools.new_pool_storage d db))).0
        ≡ list_members (run calls (Pools.new_pool_storage d db)).db pool
  run-get_members_by_pool laws calls db now pool h =
      (get_members_by_pool-IsCoherent d laws now pool _
        (run-IsCoherent laws calls _ (new_pool_storage-IsCoherent db) h)).0

  -- Once the policies were listed, a lookup by domain answers from the list for the cache's time:
  -- with the last policy listed under the name, be it enabled or not.
  pub get_policy_by_domain-list :
      (now later : ℕ) (s : PolicyStorage d) (before after : List Policy) (p : Policy)
      (domain record_type : Text)
      → list_policies s.db ≡ ok (before ++ p ∷ after)
      → HasKey (cache_policy_key domain record_type) p
      → All (λ q. ¬ (HasKey (cache_policy_key domain record_type) q)) after
      → later ≤ now + s.cache.ttl
      → Policies.get_policy_by_domain d later domain record_type (Policies.list d now s).1
        ≡ ok (some p)
  unfolding Policies.get_policy_by_domain Policies.get Policies.list Policies.set
  get_policy_by_domain-list now later s before after p domain record_type listed h none_later
        fresh =
      let found =
        add_policies-last before after p (cache_policy_key domain record_type) [] h none_later in
      rw (listed, Policies.list) (ground (arith, found))
