-- ===== src/Cache/Store.antt =====
-- `Set` of dns/cache.go: the invariant, and what the cache holds afterwards.
use dns_go.Base.{
  ℕ, zero, suc, ◌+◌, ◌*◌, ◌≤◌, ◌<◌, Bool, true, false, List, [], ◌∷◌, Option, none, some,
  if◌then◌else◌, ◌≡◌, ◌≢◌, refl, sym, arith, nat_eq, ◌==◌, length, Bool-cases, inl, inr, ◌⊎◌,
  nat_beq_iff,
}
use dns_go.Base.Map
use dns_go.Base.Map.{Map, keys}
use dns_go.Base.Text.{Text, text_eq, text_beq_iff}
use dns_go.Base.Word.{half}
use dns_go.Cache.{
  Entry, Item, Cache, drop_key, make_room, store, set, make_entry, effective_ttl, make_key, get,
  get_round, drop_if_current, is_expired,
}
use dns_go.Cache.Size.{IsValid, capacity, capacity-lt-half}
use mathlib.Core.Path.{subst}
use dns_go.Cache.Evict.{IsVictim, Room, held, free, full, evicted-IsValid, make_room-Room}

make_key-ne-nil : (domain qtype : Text) → make_key domain qtype ≢ []
unfolding make_key
make_key-ne-nil [] qtype = ground arith
make_key-ne-nil (b ∷ domain) qtype = ground arith

module _ {RR : Type 0} where
  Room-IsValid :
      (k : Text) (c c' : Cache RR)
      → Room k c c'
      → IsValid c
      → IsValid c'
        × ((length c'.items < capacity c') ⊎ ((e : Entry RR) × (Map.get k c'.entries ≡ some e)))
        × (Map.get k c'.entries ≡ Map.get k c.entries)
        × (c'.next_id ≡ c.next_id)
  unfolding drop_key
  Room-IsValid k c c' (held e found) v = (v, inr (e, found), refl, refl)
  Room-IsValid k c c' (free absent fits) v = (v, inl fits, refl, refl)
  Room-IsValid k c c' (full k' absent tight w) v =
      let (v', shorter) = evicted-IsValid k' c v w in
      (v', inl (omega (arith, shorter, tight)), ground (arith, Map.get-delete k' k c.entries), refl)

  store-IsValid :
      (now : ℕ) (k : Text) (e : Entry RR) (c : Cache RR)
      → IsValid c
      → (length c.items < capacity c) ⊎ ((e' : Entry RR) × (Map.get k c.entries ≡ some e'))
      → k ≢ []
      → e.id ≡ c.next_id
      → IsValid (store now k e (Map.get k c.entries) c)
  unfolding store
  store-IsValid now k e c v room named new =
      let i : Item RR = record { entry = e; key = k; last_access = now } in
      record {
        entries_distinct = Map.put-IsDistinct k e c.entries v.entries_distinct;
        items_distinct = Map.put-IsDistinct k i c.items v.items_distinct;
        paired =
            λ j. ground (arith, Map.get-put k j e c.entries, Map.get-put k j i c.items, v.paired j);
        counted = ground (
          arith,
          Map.length-put k i c.items,
          v.paired k,
          v.counted,
          v.bounded,
          capacity-lt-half c,
        );
        bounded = ground (arith, Map.length-put k i c.items, v.paired k, v.bounded, room);
        configured = v.configured;
        keyed = λ i' h. ground (arith, Map.get-put k [] i c.items, text_beq_iff k [], v.keyed i');
        issued = λ j e' h. ground (arith, Map.get-put k j e c.entries, v.issued j e', new);
        flags_issued = λ f h. omega (arith, v.flags_issued f h);
      }

  -- `Set` keeps the invariant: no more entries than the capacity, and the counter in step.
  pub set-IsValid :
      (now : ℕ) (domain qtype : Text) (rrs : List RR) (ttl : ℕ) (negative : Bool) (c : Cache RR)
      → IsValid c
      → IsValid (set now domain qtype rrs ttl negative c)
  unfolding set make_entry
  set-IsValid now domain qtype rrs ttl negative c v =
      let k = make_key domain qtype in
      let (v', room, same, id) = Room-IsValid k c (make_room k c) (make_room-Room k c v) v in
      rw (← same) (
        store-IsValid now k (make_entry now rrs ttl negative c) (make_room k c) v' room
          (make_key-ne-nil domain qtype) (sym id))

  Room-entries :
      (k : Text) (c c' : Cache RR)
      → Room k c c'
      → (j : Text)
      → (Map.get j c'.entries ≡ Map.get j c.entries)
        ⊎ (IsVictim c.items j × (length c.items ≡ capacity c))
  unfolding drop_key
  Room-entries k c c' (held e found) j = inl refl
  Room-entries k c c' (free absent fits) j = inl refl
  Room-entries k c c' (full k' absent tight w) j = elim (Bool-cases (k' == j)) [
    | inl same ↦ inr (subst (IsVictim c.items) ((text_beq_iff k' j).0 same) w, tight)
    | inr other ↦ inl (rw (Map.get-delete, other))
  ]

  -- After `Set` on a cache that keeps the invariant, the key holds the new entry; every other key
  -- holds what it held, but for the one that made room, which was used longest ago.
  pub set_entries :
      (now : ℕ) (domain qtype : Text) (rrs : List RR) (ttl : ℕ) (negative : Bool) (c : Cache RR)
      → IsValid c
      → (Map.get (make_key domain qtype) (set now domain qtype rrs ttl negative c).entries
          ≡ some (make_entry now rrs ttl negative c))
        × ((j : Text)
            → j ≢ make_key domain qtype
            → (Map.get j (set now domain qtype rrs ttl negative c).entries ≡ Map.get j c.entries)
              ⊎ (IsVictim c.items j × (length c.items ≡ capacity c)))
  unfolding set store
  set_entries now domain qtype rrs ttl negative c v =
      let k = make_key domain qtype in
      let e = make_entry now rrs ttl negative c in
      (
        ground (arith, Map.get-put k k e (make_room k c).entries, text_beq_iff k k),
        λ j ne.
            let kept = Map.get-put k j e (make_room k c).entries in
            elim (Room-entries k c (make_room k c) (make_room-Room k c v) j) [
              | inl same ↦ inl (ground (arith, kept, text_beq_iff k j, same))
              | inr gone ↦ inr gone
            ],
      )

  abbrev now_held : ℕ → Entry RR → Option (Entry RR)
  now_held now e = if is_expired now e then none else some e

  get-now_held :
      (now : ℕ) (domain qtype : Text) (e : Entry RR) (c : Cache RR)
      → Map.get (make_key domain qtype) c.entries ≡ some e
      → (get now domain qtype c).1 ≡ now_held now e
  unfolding get get_round drop_if_current
  get-now_held now domain qtype e c h = elim (Bool-cases (is_expired now e)) [
    | inl old ↦ ground (arith, h, old, nat_beq_iff e.id e.id)
    | inr fresh ↦ ground (arith, h, fresh)
  ]

  pub get-set-make_entry :
      (now later : ℕ) (domain qtype : Text) (rrs : List RR) (ttl : ℕ) (negative : Bool)
      (c : Cache RR)
      → IsValid c
      → (get later domain qtype (set now domain qtype rrs ttl negative c)).1
        ≡ now_held later (make_entry now rrs ttl negative c)
  get-set-make_entry now later domain qtype rrs ttl negative c v =
      get-now_held later domain qtype _ _ (set_entries now domain qtype rrs ttl negative c v).0

  -- An answer of `Get` with these records, good until a time.
  abbrev pub AnswersUntil : ℕ → ℕ → List RR → Bool → Option (Entry RR) → Type 0
  AnswersUntil end later rrs negative none = end < later
  AnswersUntil end later rrs negative (some e) =
      (later ≤ end) × (e.rrs ≡ rrs) × (e.is_negative ≡ negative) × (e.expiry ≡ end)

  unfoldable pub effective : Cache RR → ℕ → Bool → ℕ
  effective c zero true = c.negative_ttl
  effective c zero false = c.default_ttl
  effective c (suc n) negative = suc n

  effective_ttl-effective :
      (c : Cache RR) (ttl : ℕ) (negative : Bool)
      → effective_ttl c ttl negative ≡ effective c ttl negative
  unfolding effective_ttl effective
  effective_ttl-effective c zero true = refl
  effective_ttl-effective c zero false = refl
  effective_ttl-effective c (suc n) negative = ground arith

  -- A `Get` after a `Set` of the same name answers with what was stored for exactly the time to
  -- live in seconds, and misses from then on. A time to live of 0 stands for the default of the
  -- cache, or its negative one. The cache keeps the invariant, and the time to live in
  -- nanoseconds is below 2 ^ 63.
  pub get-set :
      (now later : ℕ) (domain qtype : Text) (rrs : List RR) (ttl : ℕ) (negative : Bool)
      (c : Cache RR)
      → IsValid c
      → effective c ttl negative * 1000000000 < half
      → AnswersUntil
          (now + effective c ttl negative * 1000000000)
          later
          rrs
          negative
          (get later domain qtype (set now domain qtype rrs ttl negative c)).1
  unfolding make_entry
  get-set now later domain qtype rrs ttl negative c v small =
      let e : effective_ttl c ttl negative ≡ effective c ttl negative =
        effective_ttl-effective c ttl negative in
      rw (get-set-make_entry now later domain qtype rrs ttl negative c v) (ground (arith, e))
