-- ===== src/Cache/Evict.antt =====
-- `Set` and `evictOldestLocked` of dns/cache.go: room for a new key, and what is stored.
use dns_go.Base.{
  ℕ, ◌+◌, ◌≤◌, ◌<◌, [], ◌∷◌, none, some, ltb, ◌≡◌, refl, sym, ap, arith, nat_eq, length, Bool-cases,
  Option-cases, inl, inr, ◌⊎◌,
}
use dns_go.Base.Map
use dns_go.Base.Map.{Map, keys}
use dns_go.Base.Text.{Text, text_eq, text_beq_iff}
use dns_go.Base.Word.{slt}
use dns_go.Cache.{Entry, Item, Cache, increment, drop_key, oldest, evict_oldest_locked, make_room}
use dns_go.Cache.Size.{IsValid, transfer, capacity, capacity-lt-half}
use dns_go.Cache.Read.{drop_key-IsValid}

module _ {RR : Type 0} where
  -- Where a search starts from `best`, it ends at `best` or at an item of the map.
  abbrev Found : Text → ℕ → Map Text (Item RR) → Type 0
  Found k t m = (i : Item RR) × (Map.get k m ≡ some i) × (i.last_access ≡ t)

  Found-cons :
      (k j : Text) (t : ℕ) (i : Item RR) (m : Map Text (Item RR))
      → Map.get j m ≡ none
      → Found k t m
      → Found k t ((j, i) ∷ m)
  unfolding Map.get
  Found-cons k j t i m fresh (i', held, e) = (i', ground (arith, text_beq_iff j k), e)

  oldest-Found :
      (k' : Text) (t' : ℕ) (m : Map Text (Item RR)) (k : Text) (t : ℕ)
      → Map.IsDistinct m
      → oldest (some (k', t')) m ≡ some (k, t)
      → ((k ≡ k') × (t ≡ t')) ⊎ Found k t m
  unfolding oldest
  oldest-Found k' t' [] k t d h = inl (ground arith, ground arith)
  oldest-Found k' t' ((j, i) ∷ m) k t (fresh, d) h = elim (Bool-cases (ltb i.last_access t')) [
    | inl lower ↦ elim (oldest-Found j i.last_access m k t d (rw lower at h)) [
      | inl (ek, et) ↦ inr (i, unfold Map.get in ground (arith, text_beq_iff j k), sym et)
      | inr f ↦ inr (Found-cons k j t i m fresh f)
    ]
    | inr same ↦ elim (oldest-Found k' t' m k t d (rw same at h)) [
      | inl e ↦ inl e
      | inr f ↦ inr (Found-cons k j t i m fresh f)
    ]
  ]

  oldest_least :
      (k' : Text) (t' : ℕ) (m : Map Text (Item RR)) (k : Text) (t : ℕ)
      → oldest (some (k', t')) m ≡ some (k, t)
      → (t ≤ t') × ((j : Text) (i : Item RR) → Map.get j m ≡ some i → t ≤ i.last_access)
  unfolding oldest Map.get
  oldest_least k' t' [] k t h = (ground arith, λ j i e. absurd (ground arith))
  oldest_least k' t' ((j, i) ∷ m) k t h = elim (Bool-cases (ltb i.last_access t')) [
    | inl lower ↦
        let (a, b) = oldest_least j i.last_access m k t (rw lower at h) in
        (ground (arith, a), λ q iq e. ground (arith, a, b q iq))
    | inr same ↦
        let (a, b) = oldest_least k' t' m k t (rw same at h) in
        (a, λ q iq e. ground (arith, a, b q iq))
  ]

  oldest-some :
      (k' : Text) (t' : ℕ) (m : Map Text (Item RR))
      → (r : Text × ℕ) × (oldest (some (k', t')) m ≡ some r)
  unfolding oldest
  oldest-some k' t' [] = ((k', t'), refl)
  oldest-some k' t' ((j, i) ∷ m) = elim (Bool-cases (ltb i.last_access t')) [
    | inl lower ↦ rw lower (oldest-some j i.last_access m)
    | inr same ↦ rw same (oldest-some k' t' m)
  ]

  -- The key that an eviction removes: it is held, and no item was used longer ago.
  pub record IsVictim (m : Map Text (Item RR)) (k : Text) : Type 0 where
    pub item : Item RR
    pub held : Map.get k m ≡ some item
    pub least : (j : Text) (i : Item RR) → Map.get j m ≡ some i → item.last_access ≤ i.last_access

  oldest-IsVictim :
      (j : Text) (i : Item RR) (m : Map Text (Item RR))
      → Map.IsDistinct ((j, i) ∷ m)
      → (k : Text) × (t : ℕ) × (oldest none ((j, i) ∷ m) ≡ some (k, t)) × IsVictim ((j, i) ∷ m) k
  unfolding oldest Map.get
  oldest-IsVictim j i m (fresh, d) =
      let ((k, t), e) = oldest-some j i.last_access m in
      let (first, rest) = oldest_least j i.last_access m k t e in
      elim (oldest-Found j i.last_access m k t d e) [
        | inl (ek, et) ↦ (
          k,
          t,
          e,
          record {
            item = i;
            held = ground (arith, text_beq_iff j k);
            least = λ q iq h. ground (arith, rest q iq);
          },
        )
        | inr (i', held, at_t) ↦ (
          k,
          t,
          e,
          record {
            item = i';
            held = ground (arith, text_beq_iff j k);
            least = λ q iq h. ground (arith, rest q iq);
          },
        )
      ]

  abbrev pub evicted : Text → Cache RR → Cache RR
  evicted k c =
      let d = drop_key k c in
      record d { stats = record (d.stats) { evictions = increment d.stats.evictions } }

  -- On a cache that keeps the invariant and is not empty, `evictOldestLocked` removes an item
  -- that was used longest ago, and nothing else.
  pub evict_oldest_locked-IsVictim :
      (c : Cache RR)
      → IsValid c
      → 0 < length c.items
      → (k : Text) × IsVictim c.items k × (evict_oldest_locked c ≡ evicted k c)
  unfolding evict_oldest_locked
  evict_oldest_locked-IsVictim c v h = go c.items refl
    where
      go :
          (m : Map Text (Item RR))
          → c.items ≡ m
          → (k : Text) × IsVictim c.items k × (evict_oldest_locked c ≡ evicted k c)
      go [] e = absurd (omega (arith, ap length e, h))
      go ((j, i) ∷ m) e =
          let (k, t, found, victim) = oldest-IsVictim j i m (rw e at (v.items_distinct)) in
          let held : Map.get k c.items ≡ some victim.item = rw e victim.held in
          (
            k,
            rw e victim,
            rw (e, found, evict_oldest_locked)
                (ground (arith, text_beq_iff k [], v.keyed victim.item, held)),
          )

  evict-empty : (c : Cache RR) → length c.items ≡ 0 → evict_oldest_locked c ≡ c
  unfolding evict_oldest_locked oldest
  evict-empty c h = go c.items refl
    where
      go : (m : Map Text (Item RR)) → c.items ≡ m → evict_oldest_locked c ≡ c
      go [] e = let o : oldest none c.items ≡ none = rw e refl in rw (o, evict_oldest_locked)
      go ((j, i) ∷ m) e = absurd (omega (arith, ap length e, h))

  pub evicted-IsValid :
      (k : Text) (c : Cache RR)
      → IsValid c
      → IsVictim c.items k
      → IsValid (evicted k c) × (length (evicted k c).items + 1 ≡ length c.items)
  evicted-IsValid k c v w =
      let (d, shorter) = drop_key-IsValid k w.item c v w.held in
      (transfer (drop_key k c) (evicted k c) (refl, refl, refl, refl, refl, refl) d, shorter)

  -- What `Set` makes of the cache before it stores: nothing changes where the key is held or
  -- there is room, and otherwise one item goes.
  pub data Room (k : Text) (c : Cache RR) : Cache RR → Type 0 where
    held : (e : Entry RR) → Map.get k c.entries ≡ some e → Room k c c
    free : Map.get k c.entries ≡ none → length c.items < capacity c → Room k c c
    full :
        (k' : Text)
        → Map.get k c.entries ≡ none
        → length c.items ≡ capacity c
        → IsVictim c.items k'
        → Room k c (evicted k' c)

  pub make_room-Room : (k : Text) (c : Cache RR) → IsValid c → Room k c (make_room k c)
  unfolding make_room
  make_room-Room k c v = elim (Option-cases (Map.get k c.entries)) [
    | inr (e, found) ↦ rw (found, make_room) (held e found)
    | inl absent ↦ elim (Bool-cases (slt (length c.items) c.max_size)) [
      | inl fits ↦
          rw (absent, fits, make_room)
            (free absent (ground (arith, v.bounded, v.configured, capacity-lt-half c)))
      | inr tight ↦ elim (Bool-cases (ltb 0 (length c.items))) [
        | inl some_item ↦
            let (k', victim, e) = evict_oldest_locked-IsVictim c v (ground arith) in
            rw (absent, tight, make_room, e)
              (full k' absent (ground (arith, v.bounded, v.configured, capacity-lt-half c)) victim)
        | inr empty ↦
            let e : evict_oldest_locked c ≡ c = evict-empty c (ground arith) in
            rw (absent, tight, make_room, e) (free absent (ground (arith, capacity-lt-half c)))
      ]
    ]
  ]
