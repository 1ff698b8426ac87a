-- ===== src/Cache/Race.antt =====
-- `Get` of dns/cache.go beside other goroutines: what a slow reader may delete, when its loop ends,
-- and how often an entry is prefetched.
use dns_go.Base.{
  ℕ, ◌≤◌, List, [], ◌∷◌, ◌++◌, Option, none, some, ◌≡◌, ◌≢◌, refl, arith, nat_eq, Bool-cases,
  Option-cases, inl, inr, ◌⊎◌, nat_beq_iff, All,
}
use dns_go.Base.Map
use dns_go.Base.Map.{Map, keys}
use dns_go.Base.Text.{Text, text_eq, text_beq_iff}
use dns_go.Cache.{
  Entry, Cache, drop_key, make_key, get_round, get_loop, drop_if_current, touch, check_prefetch,
  is_expired, Round, miss, hit, again,
}

module _ {RR : Type 0} where
  touch-entries :
      (now : ℕ) (k : Text) (e : Entry RR) (c : Cache RR) → (touch now k e c).entries ≡ c.entries
  unfolding touch
  touch-entries now k e c = ground arith

  check_prefetch-entries :
      (now : ℕ) (e : Entry RR) (domain qtype : Text) (c : Cache RR)
      → (check_prefetch now e domain qtype c).entries ≡ c.entries
  unfolding check_prefetch
  check_prefetch-entries now e domain qtype c = ground arith

  drop_if_current_safe :
      (k : Text) (e : Entry RR) (c : Cache RR) (j : Text) (e' : Entry RR)
      → Map.get j c.entries ≡ some e'
      → e'.id ≢ e.id
      → Map.get j (drop_if_current k e c).0.entries ≡ some e'
  unfolding drop_if_current drop_key
  drop_if_current_safe k e c j e' h ne =
      ground (arith, text_beq_iff k j, Map.get-delete k j c.entries)

  -- A round of `Get` that has loaded the entry `e` leaves alone every other entry that is in the
  -- cache when it takes the lock: one that others stored for the same name in between too.
  pub get_round_safe :
      (checked accessed prefetched : ℕ) (others : Cache RR → Cache RR) (domain qtype : Text)
      (c : Cache RR) (e : Entry RR)
      → Map.get (make_key domain qtype) c.entries ≡ some e
      → (j : Text) (e' : Entry RR) → Map.get j (others c).entries ≡ some e'
      → e'.id ≢ e.id
      → Map.get j (get_round checked accessed prefetched others domain qtype c).0.entries ≡ some e'
  unfolding get_round
  get_round_safe checked accessed prefetched others domain qtype c e found j e' h ne =
      let k = make_key domain qtype in
      elim (Bool-cases (is_expired checked e)) [
        | inl old ↦ rw (found, old, get_round) (drop_if_current_safe k e (others c) j e' h ne)
        | inr fresh ↦ rw (found, fresh, get_round, check_prefetch-entries, touch-entries) h
      ]

  get_round_quiet :
      (now : ℕ) (domain qtype : Text) (c : Cache RR)
      → (get_round now now now (λ c. c) domain qtype c).1 ≢ again
  unfolding get_round drop_if_current
  get_round_quiet now domain qtype c =
      elim (Option-cases (Map.get (make_key domain qtype) c.entries)) [
        | inl absent ↦ ground (arith, absent)
        | inr (e, found) ↦ ground (arith, found, nat_beq_iff e.id e.id)
      ]

  get_round_hit :
      (now : ℕ) (others : Cache RR → Cache RR) (domain qtype : Text) (c : Cache RR) (e : Entry RR)
      → (get_round now now now others domain qtype c).1 ≡ hit e
      → now ≤ e.expiry
  unfolding get_round drop_if_current
  get_round_hit now others domain qtype c e h = ground arith

  -- How a round's outcome ends the loop, or goes on to the rounds behind it.
  abbrev ending :
      Cache RR
      → Option (Cache RR × Option (Entry RR))
      → Round RR
      → Option (Cache RR × Option (Entry RR))
  ending c retry miss = some (c, none)
  ending c retry (hit e) = some (c, some e)
  ending c retry again = retry

  ending_total :
      (c : Cache RR) (retry : Option (Cache RR × Option (Entry RR))) (r : Round RR)
      → (r ≢ again) ⊎ ((x : Cache RR × Option (Entry RR)) × (retry ≡ some x))
      → (x : Cache RR × Option (Entry RR)) × (ending c retry r ≡ some x)
  ending_total c retry miss h = ((c, none), refl)
  ending_total c retry (hit e) h = ((c, some e), refl)
  ending_total c retry again (inl h) = absurd (h refl)
  ending_total c retry again (inr r) = r

  get_loop-ending :
      (now : ℕ) (others : Cache RR → Cache RR) (rest : List (ℕ × (Cache RR → Cache RR)))
      (domain qtype : Text) (c : Cache RR)
      → get_loop ((now, others) ∷ rest) domain qtype c
        ≡ ending
            (get_round now now now others domain qtype c).0
            (get_loop rest domain qtype (get_round now now now others domain qtype c).0)
            (get_round now now now others domain qtype c).1
  unfolding get_loop
  get_loop-ending now others rest domain qtype c = ground arith

  -- The loop of `Get` ends at the latest in the first round in which nobody interferes, whatever
  -- came before.
  pub get_loop_total :
      (before rest : List (ℕ × (Cache RR → Cache RR))) (now : ℕ) (domain qtype : Text)
      (c : Cache RR)
      → (r : Cache RR × Option (Entry RR)) × (get_loop
            (before ++ (now, λ d. d) ∷ rest)
            domain
            qtype
            c
          ≡ some r)
  get_loop_total [] rest now domain qtype c =
      rw get_loop-ending (ending_total _ _ _ (inl (get_round_quiet now domain qtype c)))
  get_loop_total ((at_time, others) ∷ before) rest now domain qtype c =
      rw (get_loop-ending at_time others)
        (ending_total _ _ _ (inr (get_loop_total before rest now domain qtype _)))

  -- No answer had expired when `Get` was called, whatever others do meanwhile: every round reads
  -- the clock at that time or later.
  pub get_loop_fresh :
      (start : ℕ) (rounds : List (ℕ × (Cache RR → Cache RR))) (domain qtype : Text)
      (c c' : Cache RR) (e : Entry RR)
      → All (λ r. start ≤ r.0) rounds
      → get_loop rounds domain qtype c ≡ some (c', some e)
      → start ≤ e.expiry
  unfolding get_loop
  get_loop_fresh start [] domain qtype c c' e a h = absurd (ground arith)
  get_loop_fresh start ((now, others) ∷ rest) domain qtype c c' e (le, a) h = ground (
    arith,
    get_round_hit now others domain qtype c e,
    get_loop_fresh start rest domain qtype (get_round now now now others domain qtype c).0 c' e a,
  )
