-- ===== src/Cache/Size.antt =====
-- The invariant of the cache, and the operations that remove keys: `Delete`, `Clear` and
-- `removeExpired` of dns/cache.go.
use dns_go.Base.{
  ℕ, zero, suc, ◌-◌, ◌≤◌, ◌<◌, Bool, true, not, List, [], ◌∷◌, none, some, if◌then◌else◌, ◌≡◌, ◌≢◌,
  refl, ap, ◌∙◌, arith, nat_eq, keep, length, contains, length-keep-not, length-keep-le,
}
use dns_go.Base.Map
use dns_go.Base.Map.{Map, keys, length-keys}
use dns_go.Base.Text.{Text, text_eq}
use dns_go.Base.Word.{word, half, is_positive}
use dns_go.Cache.{Entry, Item, Cache, decrement, drop_key, drop_keys}

-- How many entries the cache may hold: a bound that is not positive still lets one in.
abbrev pub capacity : {RR : Type 0} → Cache RR → ℕ
capacity c = if is_positive c.max_size then c.max_size else 1

decrement_by : ℕ → ℕ → ℕ
decrement_by zero s = s
decrement_by (suc n) s = decrement_by n (decrement s)

decrement_by-sub : (n s : ℕ) → n ≤ s → s < word → decrement_by n s ≡ s - n
unfolding decrement_by
decrement_by-sub zero s h k = omega arith
decrement_by-sub (suc n) s h k =
    let e : decrement s ≡ s - 1 = omega arith in
    rw e (omega (arith, decrement_by-sub n (s - 1) (omega arith) (omega arith)))

module _ {RR : Type 0} where
  -- Both maps hold the same entries, once for each key; the counter says how many, and they are
  -- no more than the capacity. No key is empty, and every id was given out before.
  pub record IsValid (c : Cache RR) : Type 0 where
    pub entries_distinct : Map.IsDistinct c.entries
    pub items_distinct : Map.IsDistinct c.items
    pub paired :
        (k : Text)
        → Map.get k c.entries ≡ elim (Map.get k c.items) [ none ↦ none | some i ↦ some i.entry ]
    pub counted : c.stats.size ≡ length c.items
    pub bounded : length c.items ≤ capacity c
    pub configured : c.max_size < word
    pub keyed : (i : Item RR) → Map.get [] c.items ≢ some i
    pub issued : (k : Text) (e : Entry RR) → Map.get k c.entries ≡ some e → e.id < c.next_id
    pub flags_issued : (i : ℕ) → contains i c.flags ≡ true → i < c.next_id

  pub capacity-lt-half : (c : Cache RR) → (capacity c < half) × (0 < capacity c)
  capacity-lt-half c = ground arith

  -- The invariant reads neither the other counters nor the launched callbacks.
  pub transfer :
      (c c' : Cache RR)
      → (c'.entries ≡ c.entries)
        × (c'.items ≡ c.items)
        × (c'.stats.size ≡ c.stats.size)
        × (c'.max_size ≡ c.max_size)
        × (c'.next_id ≡ c.next_id)
        × (c'.flags ≡ c.flags)
      → IsValid c
      → IsValid c'
  transfer c c' (e, i, s, m, n, f) v = record {
    entries_distinct = rw e v.entries_distinct;
    items_distinct = rw i v.items_distinct;
    paired = λ k. rw (e, i) (v.paired k);
    counted = rw (i, s) v.counted;
    bounded = rw (i, m) v.bounded;
    configured = rw m v.configured;
    keyed = λ a h. v.keyed a (rw i at h);
    issued = λ k a h. rw n (v.issued k a (rw e at h));
    flags_issued = λ a h. rw n (v.flags_issued a (rw f at h));
  }

  -- What a loop of deletions leaves.
  drop_keys_lem :
      (ks : List Text) (c : Cache RR)
      → drop_keys ks c ≡ record c {
        entries = Map.delete_all ks c.entries;
        items = Map.delete_all ks c.items;
        stats = record (c.stats) { size = decrement_by (length ks) c.stats.size };
      }
  unfolding drop_keys Map.delete_all decrement_by
  drop_keys_lem [] c = refl
  drop_keys_lem (k ∷ ks) c = drop_keys_lem ks (drop_key k c) ∙ unfold drop_key in refl

  module _ (p : Text × Item RR → Bool) (c : Cache RR) (v : IsValid c) where
    unfoldable pub dropped : Cache RR
    dropped = drop_keys (keys (keep p c.items)) c

    -- A loop that drops the items that pass a test keeps exactly the others.
    pub dropped-items : dropped.items ≡ keep (λ x. not (p x)) c.items
    unfolding dropped
    dropped-items =
        ap (λ d. d.items) (drop_keys_lem (keys (keep p c.items)) c)
        ∙ Map.delete_all-keep p c.items v.items_distinct

    pub dropped-size : dropped.stats.size ≡ length dropped.items
    unfolding dropped
    dropped-size =
        rw
          (
            drop_keys_lem (keys (keep p c.items)) c,
            Map.delete_all-keep p c.items v.items_distinct,
            v.counted,
            length-keys,
          )
          (omega (
            arith,
            decrement_by-sub (length (keep p c.items)) (length c.items) (length-keep-le p c.items)
                (omega (arith, capacity-lt-half c, v.bounded)),
            length-keep-not p c.items,
          ))

    pub dropped-get :
        (k : Text)
        → Map.get k dropped.items ≡ elim (Map.get k c.items) [
          | none ↦ none
          | some i ↦ if not (p (k, i)) then some i else none
        ]
    dropped-get k = rw dropped-items (Map.get-keep _ k c.items v.items_distinct)

    pub dropped-entries :
        (k : Text)
        → Map.get k dropped.entries ≡ elim (Map.get k c.items) [
          | none ↦ none
          | some i ↦ if not (p (k, i)) then some i.entry else none
        ]
    unfolding dropped
    dropped-entries k = rw (drop_keys_lem (keys (keep p c.items)) c) (
        ground (
          arith,
          Map.get-delete_all (keys (keep p c.items)) k c.entries,
          Map.contains-keys p k c.items v.items_distinct,
          v.paired k,
        ))

    pub dropped_rest :
        (dropped.flags ≡ c.flags)
        × (dropped.next_id ≡ c.next_id)
        × (dropped.max_size ≡ c.max_size)
        × (dropped.launched ≡ c.launched)
        × (dropped.has_prefetch ≡ c.has_prefetch)
    unfolding dropped
    dropped_rest = rw (drop_keys_lem (keys (keep p c.items)) c) (refl, refl, refl, refl, refl)

    pub dropped-IsValid : IsValid dropped
    dropped-IsValid = record {
      entries_distinct =
          unfold dropped in
          rw (drop_keys_lem (keys (keep p c.items)) c)
            (Map.delete_all-IsDistinct _ c.entries v.entries_distinct);
      items_distinct = rw dropped-items (Map.keep-IsDistinct _ c.items v.items_distinct);
      paired = λ k. ground (arith, dropped-get k, dropped-entries k);
      counted = dropped-size;
      bounded =
          rw dropped-items
            (ground (arith, dropped_rest, v.bounded, length-keep-le (λ x. not (p x)) c.items));
      configured = ground (arith, dropped_rest, v.configured);
      keyed = λ i h. ground (arith, dropped-get [], v.keyed i);
      issued = λ k e h. ground (arith, dropped-entries k, v.paired k, v.issued k e, dropped_rest);
      flags_issued = λ i h. ground (arith, v.flags_issued i, dropped_rest);
    }
