-- ===== src/Cache.antt =====
-- The L1 answer cache of dns/cache.go: `DNSCache` over the type `RR` of resource records. The
-- methods here are the whole methods; the proofs are in the modules below.
-- A time is a count of nanoseconds, and an entry's `id` is its address: two entries are the same
-- pointer when their ids are equal. `flags` holds the ids whose `prefetchTriggered` is 1.
pub mod Size
pub mod Read
mod Evict
pub mod Store
pub mod Run
mod Prefetch
mod Removal
mod Race
mod Tests
use dns_go.Base.{
  ℕ, ◌+◌, ◌-◌, ◌*◌, ◌%◌, ◌<◌, Bool, true, false, not, ◌&&◌, ◌||◌, List, [], ◌∷◌, ◌++◌, Option, none,
  some, ltb, leb, if◌then◌else◌, nat_eq, ◌==◌, keep, length, contains,
}
use dns_go.Base.Map
use dns_go.Base.Map.{Map, keys}
use dns_go.Base.Text.{Text, codes, text_eq, has_prefix}
use dns_go.Base.Word.{word, half, slt, mul64}

pub record Entry (RR : Type 0) : Type 0 where
  pub id : ℕ
  pub rrs : List RR
  pub expiry : ℕ
  pub prefetch_time : ℕ
  pub is_negative : Bool

-- The LRU record of an entry; its `key` field repeats the key of the map.
pub record Item (RR : Type 0) : Type 0 where
  pub entry : Entry RR
  pub key : Text
  pub last_access : ℕ

pub record Stats : Type 0 where
  pub hits : ℕ
  pub misses : ℕ
  pub evictions : ℕ
  pub size : ℕ

-- `prefetch_delay` is the delay that `prefetchTrigger`, a float64, gives for a TTL.
-- `has_prefetch` tells whether a callback is set, and `launched` lists its calls, newest first.
pub record Cache (RR : Type 0) : Type 0 where
  pub entries : Map Text (Entry RR)
  pub items : Map Text (Item RR)
  pub flags : List ℕ
  pub next_id : ℕ
  pub max_size : ℕ
  pub default_ttl : ℕ
  pub negative_ttl : ℕ
  pub prefetch_delay : ℕ → ℕ
  pub has_prefetch : Bool
  pub launched : List (Text × Text)
  pub stats : Stats

-- `time.Add` of an int64 duration. A time is more than 2 ^ 63 nanoseconds after the zero time.
abbrev pub add_time : ℕ → ℕ → ℕ
add_time t d = if ltb d half then t + d else t - (word - d)

-- `atomic.AddUint64(&n, ^uint64(0))`.
abbrev pub decrement : ℕ → ℕ
decrement n = (n + (word - 1)) % word

abbrev pub increment : ℕ → ℕ
increment n = (n + 1) % word

unfoldable pub make_key : Text → Text → Text
make_key domain qtype = domain ++ b':' ∷ qtype

-- The keys of a domain: longer than it, beginning with it, with a colon behind it.
unfoldable pub is_domain_key : Text → Text → Bool
is_domain_key domain k = has_prefix k (domain ++ b':' ∷ [])

-- What one round of the loop of `Get` ends in.
pub data Round (RR : Type 0) : Type 0 where
  miss : Round RR
  hit : Entry RR → Round RR
  again : Round RR

module _ {RR : Type 0} where
  abbrev pub is_expired : ℕ → Entry RR → Bool
  is_expired now e = ltb e.expiry now

  abbrev pub should_prefetch : ℕ → Entry RR → Bool
  should_prefetch now e = ltb e.prefetch_time now

  unfoldable pub new_cache : ℕ → ℕ → ℕ → (ℕ → ℕ) → Cache RR
  new_cache max_size default_ttl negative_ttl prefetch_delay = record {
    entries = [];
    items = [];
    flags = [];
    next_id = 0;
    max_size = max_size;
    default_ttl = default_ttl;
    negative_ttl = negative_ttl;
    prefetch_delay = prefetch_delay;
    has_prefetch = false;
    launched = [];
    stats = record { hits = 0; misses = 0; evictions = 0; size = 0 };
  }

  unfoldable pub set_prefetch_func : Cache RR → Cache RR
  set_prefetch_func c = record c { has_prefetch = true }

  -- Deletes a key from both maps and counts the size down.
  unfoldable pub drop_key : Text → Cache RR → Cache RR
  drop_key k c = record c {
    entries = Map.delete k c.entries;
    items = Map.delete k c.items;
    stats = record (c.stats) { size = decrement c.stats.size };
  }

  unfoldable pub drop_keys : List Text → Cache RR → Cache RR
  drop_keys [] c = c
  drop_keys (k ∷ ks) c = drop_keys ks (drop_key k c)

  -- The loop of `evictOldestLocked`: the oldest item so far, unless this is the first.
  unfoldable pub oldest : Option (Text × ℕ) → Map Text (Item RR) → Option (Text × ℕ)
  oldest best [] = best
  oldest none ((k, i) ∷ m) = oldest (some (k, i.last_access)) m
  oldest (some (k', t)) ((k, i) ∷ m) =
      oldest (if ltb i.last_access t then some (k, i.last_access) else some (k', t)) m

  unfoldable pub evict_oldest_locked : Cache RR → Cache RR
  evict_oldest_locked c = elim (oldest none c.items) [
    | none ↦ c
    | some (k, t) ↦
        if k == []
        then c
        else let d = drop_key k c in
          record d { stats = record (d.stats) { evictions = increment d.stats.evictions } }
  ]

  -- `checkPrefetch`: the compare-and-swap lets one caller through for each entry.
  unfoldable pub check_prefetch : ℕ → Entry RR → Text → Text → Cache RR → Cache RR
  check_prefetch now e domain qtype c =
      if c.has_prefetch && (should_prefetch now e && not e.is_negative)
      then if contains e.id c.flags
        then c
        else record c { flags = e.id ∷ c.flags; launched = (domain, qtype) ∷ c.launched }
      else c

  abbrev pub count_miss : Cache RR → Cache RR
  count_miss c = record c { stats = record (c.stats) { misses = increment c.stats.misses } }

  abbrev pub count_hit : Cache RR → Cache RR
  count_hit c = record c { stats = record (c.stats) { hits = increment c.stats.hits } }

  -- `item.lastAccess = time.Now()`, if the item still belongs to the entry that was read.
  unfoldable pub touch : ℕ → Text → Entry RR → Cache RR → Cache RR
  touch now k e c = elim (Map.get k c.items) [
    | none ↦ c
    | some i ↦
        if i.entry.id == e.id
        then record c { items = Map.put k (record i { last_access = now }) c.items }
        else c
  ]

  -- The locked section for an expired entry: it deletes only the entry that was loaded.
  unfoldable pub drop_if_current : Text → Entry RR → Cache RR → Cache RR × Round RR
  drop_if_current k e c = elim (Map.get k c.entries) [
    | none ↦ (c, again)
    | some current ↦ if current.id == e.id then (count_miss (drop_key k c), miss) else (c, again)
  ]

  -- One round of `Get`. `others` is what other goroutines do between the load and the lock; the
  -- three times are the readings of the clock.
  unfoldable pub get_round :
      (checked accessed prefetched : ℕ) (others : Cache RR → Cache RR) (domain qtype : Text)
      → Cache RR
      → Cache RR × Round RR
  get_round checked accessed prefetched others domain qtype c =
      let k = make_key domain qtype in
      elim (Map.get k c.entries) [
        | none ↦ (count_miss c, miss)
        | some e ↦ if is_expired checked e then drop_if_current k e (others c) else (
          check_prefetch prefetched e domain qtype (count_hit (touch accessed k e (others c))),
          hit e,
        )
      ]

  -- `Get` with the time and the interference of each round given; `none` when the rounds run out.
  unfoldable pub get_loop :
      List (ℕ × (Cache RR → Cache RR))
      → Text
      → Text
      → Cache RR
      → Option (Cache RR × Option (Entry RR))
  get_loop [] domain qtype c = none
  get_loop ((now, others) ∷ rest) domain qtype c =
      let (c', r) = get_round now now now others domain qtype c in
      let retry = get_loop rest domain qtype c' in
      elim r [ miss ↦ some (c', none) | hit e ↦ some (c', some e) | again ↦ retry ]

  -- `Get` with nobody else at work, in one round.
  unfoldable pub get : ℕ → Text → Text → Cache RR → Cache RR × Option (Entry RR)
  get now domain qtype c =
      let (c', r) = get_round now now now (λ c. c) domain qtype c in
      elim r [ hit e ↦ (c', some e) | _ ↦ (c', none) ]

  unfoldable pub effective_ttl : Cache RR → ℕ → Bool → ℕ
  effective_ttl c ttl negative =
      if ttl == 0 then if negative then c.negative_ttl else c.default_ttl else ttl

  unfoldable pub make_entry : ℕ → List RR → ℕ → Bool → Cache RR → Entry RR
  make_entry now rrs ttl negative c =
      let t = effective_ttl c ttl negative in
      record {
        id = c.next_id;
        rrs = rrs;
        expiry = add_time now (mul64 t 1000000000);
        prefetch_time = add_time now (c.prefetch_delay t);
        is_negative = negative;
      }

  -- Evicts if a new key would pass the bound.
  unfoldable pub make_room : Text → Cache RR → Cache RR
  make_room k c = elim (Map.get k c.entries) [
    | none ↦ if slt (length c.items) c.max_size then c else evict_oldest_locked c
    | some _ ↦ c
  ]

  -- Stores an entry in both maps; `exists` is the outcome of the first `Load`.
  unfoldable pub store : ℕ → Text → Entry RR → Option (Entry RR) → Cache RR → Cache RR
  store now k e exists c = record c {
    entries = Map.put k e c.entries;
    items = Map.put k (record { entry = e; key = k; last_access = now }) c.items;
    next_id = c.next_id + 1;
    stats = record (c.stats) {
      size = elim exists [ none ↦ increment c.stats.size | some _ ↦ c.stats.size ];
    };
  }

  unfoldable pub set : ℕ → Text → Text → List RR → ℕ → Bool → Cache RR → Cache RR
  set now domain qtype rrs ttl negative c =
      let k = make_key domain qtype in
      store now k (make_entry now rrs ttl negative c) (Map.get k c.entries) (make_room k c)

  unfoldable pub delete : Text → Cache RR → Cache RR
  delete domain c = drop_keys (keep (is_domain_key domain) (keys c.items)) c

  unfoldable pub clear : Cache RR → Cache RR
  clear c = record c { entries = []; items = []; stats = record (c.stats) { size = 0 } }

  unfoldable pub remove_expired : ℕ → Cache RR → Cache RR
  remove_expired now c = drop_keys (keys (keep (λ x. is_expired now x.1.entry) c.items)) c
