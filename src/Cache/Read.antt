-- ===== src/Cache/Read.antt =====
-- `Delete`, `Clear`, `removeExpired` and `Get` of dns/cache.go: the invariant, and what is read.
use dns_go.Base.{
  ℕ, ◌+◌, ◌≤◌, ◌<◌, Bool, not, ◌&&◌, [], ◌∷◌, some, ◌≡◌, refl, arith, nat_eq, ◌==◌, keep, length,
  contains, Bool-cases, Option-cases, inl, inr, nat_beq_iff,
}
use dns_go.Base.Map
use dns_go.Base.Map.{Map, keys}
use dns_go.Base.Text.{Text, text_eq, text_beq_iff}
use dns_go.Base.Word.{word}
use dns_go.Cache.{
  Entry, Item, Cache, count_miss, count_hit, drop_key, delete, clear, remove_expired, is_domain_key,
  is_expired, make_key, touch, check_prefetch, drop_if_current, get_round, should_prefetch,
  new_cache, set_prefetch_func,
}
use dns_go.Cache.Size.{IsValid, transfer, capacity-lt-half, dropped, dropped-IsValid}

module _ {RR : Type 0} where
  keep-keys :
      (p : Text → Bool) (m : Map Text (Item RR)) → keep p (keys m) ≡ keys (keep (λ x. p x.0) m)
  keep-keys p [] = refl
  keep-keys p ((k, i) ∷ m) = ground (arith, keep-keys p m)

  abbrev in_domain : Text → Text × Item RR → Bool
  in_domain domain x = is_domain_key domain x.0

  pub delete-dropped :
      (domain : Text) (c : Cache RR) (v : IsValid c)
      → delete domain c ≡ dropped (in_domain domain) c v
  unfolding delete dropped
  delete-dropped domain c v = rw (keep-keys (is_domain_key domain) c.items)

  pub remove_expired-dropped :
      (now : ℕ) (c : Cache RR) (v : IsValid c)
      → remove_expired now c ≡ dropped (λ x. is_expired now x.1.entry) c v
  unfolding remove_expired dropped
  remove_expired-dropped now c v = refl

  pub delete-IsValid : (domain : Text) (c : Cache RR) → IsValid c → IsValid (delete domain c)
  delete-IsValid domain c v =
      rw (delete-dropped domain c v) (dropped-IsValid (in_domain domain) c v)

  pub remove_expired-IsValid : (now : ℕ) (c : Cache RR) → IsValid c → IsValid (remove_expired now c)
  remove_expired-IsValid now c v = rw (remove_expired-dropped now c v) (dropped-IsValid _ c v)

  pub clear-IsValid : (c : Cache RR) → IsValid c → IsValid (clear c)
  unfolding clear Map.get
  clear-IsValid c v = record {
    entries_distinct = tt;
    items_distinct = tt;
    paired = λ k. refl;
    counted = refl;
    bounded = omega arith;
    configured = v.configured;
    keyed = λ i h. cc;
    issued = λ k e h. absurd (ground arith);
    flags_issued = v.flags_issued;
  }

  pub new_cache-IsValid :
      (max_size default_ttl negative_ttl : ℕ) (delay : ℕ → ℕ)
      → max_size < word
      → IsValid (new_cache {RR = RR} max_size default_ttl negative_ttl delay)
  unfolding new_cache Map.get
  new_cache-IsValid max_size default_ttl negative_ttl delay h = record {
    entries_distinct = tt;
    items_distinct = tt;
    paired = λ k. refl;
    counted = refl;
    bounded = omega arith;
    configured = h;
    keyed = λ i e. cc;
    issued = λ k e g. absurd (ground arith);
    flags_issued = λ i g. absurd (ground arith);
  }

  pub drop_key-IsValid :
      (k : Text) (i : Item RR) (c : Cache RR)
      → IsValid c
      → Map.get k c.items ≡ some i
      → IsValid (drop_key k c) × (length (drop_key k c).items + 1 ≡ length c.items)
  unfolding drop_key
  drop_key-IsValid k i c v h =
      let shorter = Map.length-delete k i c.items v.items_distinct h in
      (
        record {
          entries_distinct = Map.delete-IsDistinct k c.entries v.entries_distinct;
          items_distinct = Map.delete-IsDistinct k c.items v.items_distinct;
          paired = λ j.
              ground (arith, Map.get-delete k j c.entries, Map.get-delete k j c.items, v.paired j);
          counted = omega (arith, shorter, v.counted, v.bounded, capacity-lt-half c);
          bounded = omega (arith, shorter, v.bounded);
          configured = v.configured;
          keyed = λ i' e. ground (arith, Map.get-delete k [] c.items, v.keyed i');
          issued = λ j e h'. ground (arith, Map.get-delete k j c.entries, v.issued j e);
          flags_issued = v.flags_issued;
        },
        shorter,
      )

  pub count_miss-IsValid : (c : Cache RR) → IsValid c → IsValid (count_miss c)
  count_miss-IsValid c = transfer c (count_miss c) (refl, refl, refl, refl, refl, refl)

  pub count_hit-IsValid : (c : Cache RR) → IsValid c → IsValid (count_hit c)
  count_hit-IsValid c = transfer c (count_hit c) (refl, refl, refl, refl, refl, refl)

  pub set_prefetch_func-IsValid : (c : Cache RR) → IsValid c → IsValid (set_prefetch_func c)
  set_prefetch_func-IsValid c =
      transfer c (set_prefetch_func c)
        (unfold set_prefetch_func in (refl, refl, refl, refl, refl, refl))

  module _ (now : ℕ) (k : Text) (e : Entry RR) (c : Cache RR) where
    pub touch-IsValid : IsValid c → IsValid (touch now k e c)
    unfolding touch
    touch-IsValid v = elim (Option-cases (Map.get k c.items)) [
      | inl absent ↦ rw (absent, touch) v
      | inr (i, found) ↦ elim (Bool-cases (i.entry.id == e.id)) [
        | inr other ↦ rw (found, other, touch) v
        | inl same ↦
            rw (found, same, touch)
              (record {
                entries_distinct = v.entries_distinct;
                items_distinct = Map.put-IsDistinct k _ c.items v.items_distinct;
                paired = λ j. ground (
                  arith,
                  Map.get-put k j (record i { last_access = now }) c.items,
                  text_beq_iff k j,
                  v.paired j,
                  v.paired k,
                );
                counted =
                    ground
                      (arith, v.counted, Map.length-put k (record i { last_access = now }) c.items);
                bounded =
                    ground
                      (arith, v.bounded, Map.length-put k (record i { last_access = now }) c.items);
                configured = v.configured;
                keyed = λ i' h. ground (
                  arith,
                  text_beq_iff k [],
                  Map.get-put k [] (record i { last_access = now }) c.items,
                  v.keyed i,
                  v.keyed i',
                );
                issued = v.issued;
                flags_issued = v.flags_issued;
              })
      ]
    ]

  pub check_prefetch-IsValid :
      (now : ℕ) (e : Entry RR) (domain qtype : Text) (c : Cache RR)
      → IsValid c
      → e.id < c.next_id
      → IsValid (check_prefetch now e domain qtype c)
  unfolding check_prefetch
  check_prefetch-IsValid now e domain qtype c v h =
      elim (Bool-cases (c.has_prefetch && (should_prefetch now e && not e.is_negative))) [
        | inr off ↦ rw (off, check_prefetch) v
        | inl on ↦ elim (Bool-cases (contains e.id c.flags)) [
          | inl seen ↦ rw (on, seen, check_prefetch) v
          | inr fresh ↦
              rw (on, fresh, check_prefetch)
                (record {
                  entries_distinct = v.entries_distinct;
                  items_distinct = v.items_distinct;
                  paired = v.paired;
                  counted = v.counted;
                  bounded = v.bounded;
                  configured = v.configured;
                  keyed = v.keyed;
                  issued = v.issued;
                  flags_issued = λ i at_i. ground (arith, v.flags_issued i, nat_beq_iff e.id i);
                })
        ]
      ]

  item_of_entry :
      (k : Text) (e : Entry RR) (c : Cache RR)
      → IsValid c
      → Map.get k c.entries ≡ some e
      → (i : Item RR) × (Map.get k c.items ≡ some i) × (i.entry ≡ e)
  item_of_entry k e c v h = elim (Option-cases (Map.get k c.items)) [
    | inl absent ↦ absurd (ground (arith, v.paired k))
    | inr (i, found) ↦ (i, found, ground (arith, v.paired k))
  ]

  pub drop_if_current-IsValid :
      (k : Text) (e : Entry RR) (c : Cache RR) → IsValid c → IsValid (drop_if_current k e c).0
  unfolding drop_if_current
  drop_if_current-IsValid k e c v = elim (Option-cases (Map.get k c.entries)) [
    | inl absent ↦ rw (absent, drop_if_current) v
    | inr (e', found) ↦ elim (Bool-cases (e'.id == e.id)) [
      | inr other ↦ rw (found, other, drop_if_current) v
      | inl same ↦
          let (i, held, _) = item_of_entry k e' c v found in
          rw (found, same, drop_if_current)
            (count_miss-IsValid (drop_key k c) (drop_key-IsValid k i c v held).0)
    ]
  ]

  touch-next_id :
      (now : ℕ) (k : Text) (e : Entry RR) (c : Cache RR) → (touch now k e c).next_id ≡ c.next_id
  unfolding touch
  touch-next_id now k e c = ground arith

  -- What others do between the load and the lock may be any work that keeps the invariant and
  -- gives out ids in order.
  pub record Interference (others : Cache RR → Cache RR) : Type 0 where
    pub keeps : (c : Cache RR) → IsValid c → IsValid (others c)
    pub later : (c : Cache RR) → c.next_id ≤ (others c).next_id

  module _ (others : Cache RR → Cache RR) (calm : Interference others) where
    -- A round of `Get` keeps the invariant, where the others that work between its load and its
    -- lock keep it and take back no id.
    pub get_round-IsValid :
        (checked accessed prefetched : ℕ) (domain qtype : Text) (c : Cache RR)
        → IsValid c
        → IsValid (get_round checked accessed prefetched others domain qtype c).0
    unfolding get_round
    get_round-IsValid checked accessed prefetched domain qtype c v =
        let k = make_key domain qtype in
        elim (Option-cases (Map.get k c.entries)) [
          | inl absent ↦ rw (absent, get_round) (count_miss-IsValid c v)
          | inr (e, found) ↦ elim (Bool-cases (is_expired checked e)) [
            | inl old ↦
                rw (found, old, get_round) (drop_if_current-IsValid k e (others c) (calm.keeps c v))
            | inr fresh ↦
                rw (found, fresh, get_round)
                  (check_prefetch-IsValid prefetched e domain qtype
                    (count_hit (touch accessed k e (others c)))
                    (count_hit-IsValid _ (touch-IsValid accessed k e (others c) (calm.keeps c v)))
                    (omega (
                      arith,
                      touch-next_id accessed k e (others c),
                      calm.later c,
                      v.issued k e found,
                    )))
          ]
        ]
