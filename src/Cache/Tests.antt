-- ===== src/Cache/Tests.antt =====
-- The cache of dns/cache.go on concrete calls: two answers in a cache of size two.
use dns_go.Base.{
  ℕ, ◌*◌, ◌+◌, ◌≤◌, false, List, [], ◌∷◌, Option, none, some, ◌≡◌, ◌≢◌, ◌↔◌, ◌⊎◌, refl, arith,
  length,
}
use dns_go.Base.Map
use dns_go.Base.Text.{Text, codes, text_eq, text_beq}
use dns_go.Cache.{
  Entry, Cache, new_cache, get, get_round, get_loop, set, delete, clear, remove_expired, make_key,
  make_entry, is_domain_key, set_prefetch_func, drop_key, drop_keys, touch, check_prefetch,
  drop_if_current, effective_ttl, make_room, store, oldest, evict_oldest_locked,
}
use dns_go.Cache.Size.{IsValid, capacity}
use dns_go.Cache.Evict.{IsVictim, evicted, evict_oldest_locked-IsVictim}
use dns_go.Cache.Store.{set_entries, get-set, AnswersUntil, effective}
use dns_go.Cache.Run.{Call, get_call, set_call, prefetch_call, perform, run, run_new-IsValid}
use dns_go.Cache.Prefetch.{LaunchedOnce, run-LaunchedOnce}
use dns_go.Cache.Removal.{delete_lem, remove_expired_lem}
use dns_go.Cache.Race.{get_round_safe, get_loop_total, get_loop_fresh}

program : Unit {0}
unfolding new_cache get get_round get_loop set delete clear remove_expired make_key make_entry
    is_domain_key set_prefetch_func drop_key drop_keys touch check_prefetch drop_if_current
    effective_ttl make_room store oldest evict_oldest_locked effective perform run Map.get Map.put
    Map.delete text_beq
program = tt

abbrev a_org : Text
a_org = codes "a.org."

abbrev b_org : Text
b_org = codes "b.org."

abbrev type_a : Text
type_a = codes "A"

-- Records are numbers here.
abbrev calls : List (Call ℕ)
calls =
    prefetch_call
    ∷ set_call 1000 a_org type_a (7 ∷ []) 5 false
    ∷ set_call 2000 b_org type_a (8 ∷ []) 0 false
    ∷ get_call 3000 a_org type_a
    ∷ []

abbrev empty : Cache ℕ
empty = new_cache 2 300 60 (λ t. t * 10)

abbrev two : Cache ℕ
two = run calls empty

run_new-IsValid_example : IsValid two
run_new-IsValid_example = run_new-IsValid calls 2 300 60 (λ t. t * 10) (omega arith)

-- A third name takes the place of the one that was used longest ago.
eviction :
    Map.keys (set 4000 (codes "c.org.") type_a (9 ∷ []) 60 false two).entries
    ≡ make_key a_org type_a ∷ make_key (codes "c.org.") type_a ∷ []
unfolding program
eviction = refl

set_entries_example :
    (Map.get
        (make_key (codes "c.org.") type_a)
        (set 4000 (codes "c.org.") type_a (9 ∷ []) 60 false two).entries
      ≡ some (make_entry 4000 (9 ∷ []) 60 false two))
    × ((j : Text)
        → j ≢ make_key (codes "c.org.") type_a
        → (Map.get j (set 4000 (codes "c.org.") type_a (9 ∷ []) 60 false two).entries
            ≡ Map.get j two.entries)
          ⊎ (IsVictim two.items j × (length two.items ≡ capacity two)))
set_entries_example =
    set_entries 4000 (codes "c.org.") type_a (9 ∷ []) 60 false two run_new-IsValid_example

get-set_example :
    AnswersUntil
      (5000 + effective two 60 false * 1000000000)
      6000
      (9 ∷ [])
      false
      (get 6000 a_org type_a (set 5000 a_org type_a (9 ∷ []) 60 false two)).1
get-set_example =
    get-set 5000 6000 a_org type_a (9 ∷ []) 60 false two run_new-IsValid_example
      (unfold effective in omega arith)

evict_oldest_locked-IsVictim_example :
    (k : Text) × IsVictim two.items k × (evict_oldest_locked two ≡ evicted k two)
evict_oldest_locked-IsVictim_example =
    evict_oldest_locked-IsVictim two run_new-IsValid_example (unfold program in omega arith)

delete_lem_example :
    ((qtype : Text) → Map.get (make_key a_org qtype) (delete a_org two).entries ≡ none)
    × ((k : Text)
        → ((qtype : Text) → k ≢ make_key a_org qtype)
        → Map.get k (delete a_org two).entries ≡ Map.get k two.entries)
delete_lem_example = delete_lem a_org two run_new-IsValid_example

abbrev stored : Entry ℕ
stored = make_entry 1000 (7 ∷ []) 5 false (set_prefetch_func empty)

remove_expired_lem_example :
    (Map.get (make_key a_org type_a) (remove_expired 9000 two).entries ≡ some stored)
    ↔ ((Map.get (make_key a_org type_a) two.entries ≡ some stored) × (9000 ≤ stored.expiry))
remove_expired_lem_example =
    remove_expired_lem 9000 two run_new-IsValid_example (make_key a_org type_a) stored

run-LaunchedOnce_example : LaunchedOnce two
run-LaunchedOnce_example = run-LaunchedOnce calls empty (unfold program in (tt, refl))

-- Another goroutine stores a name again while a reader has its old entry in hand.
abbrev meanwhile : Cache ℕ → Cache ℕ
meanwhile = set 6000000000 a_org type_a (9 ∷ []) 60 false

get_round_safe_example :
    Map.get
      (make_key a_org type_a)
      (get_round 6000000000 6000000000 6000000000 meanwhile a_org type_a two).0.entries
    ≡ some (make_entry 6000000000 (9 ∷ []) 60 false two)
get_round_safe_example =
    get_round_safe 6000000000 6000000000 6000000000 meanwhile a_org type_a two stored
      (unfold program in refl) (make_key a_org type_a) (make_entry 6000000000 (9 ∷ []) 60 false two)
      (unfold program in refl) (unfold program in omega arith)

abbrev rounds : List (ℕ × (Cache ℕ → Cache ℕ))
rounds = (6000000000, meanwhile) ∷ []

get_loop_total_example :
    (r : Cache ℕ × Option (Entry ℕ)) × (get_loop
        ((6000000000, meanwhile) ∷ (6000000001, λ d. d) ∷ [])
        a_org
        type_a
        two
      ≡ some r)
get_loop_total_example = get_loop_total rounds [] 6000000001 a_org type_a two

get_loop_fresh_example : 3000 ≤ stored.expiry
get_loop_fresh_example =
    get_loop_fresh 3000 ((3000, λ d. d) ∷ []) a_org type_a two
      (get_round 3000 3000 3000 (λ d. d) a_org type_a two).0 stored (omega arith, tt)
      (unfold program in refl)
