-- ===== src/Cache/Prefetch.antt =====
-- The prefetch callback of dns/cache.go: how often it is called.
use dns_go.Base.{
  ℕ, Bool, false, List, [], ◌∷◌, ◌≡◌, refl, arith, nat_eq, length, contains, Bool-cases,
  Option-cases, inl, inr,
}
use dns_go.Base.Map
use dns_go.Base.Map.{Map, keys}
use dns_go.Base.Text.{Text, text_eq}
use dns_go.Cache.{
  Entry, Cache, set_prefetch_func, get_round, set, delete, clear, remove_expired, make_key,
  drop_keys, drop_key, touch, check_prefetch, count_hit, store, make_room, evict_oldest_locked,
  drop_if_current, is_expired,
}
use dns_go.Cache.Run.{
  Call, get_call, set_call, delete_call, clear_call, cleanup_call, prefetch_call, perform, run,
  get-get_round,
}

-- No flag stands twice.
abbrev pub IsSetOf : List ℕ → Type 0
IsSetOf [] = Unit
IsSetOf (i ∷ is) = (contains i is ≡ false) × IsSetOf is

module _ {RR : Type 0} where
  -- Each call of the callback belongs to one entry, whose flag it has set.
  abbrev pub LaunchedOnce : Cache RR → Type 0
  LaunchedOnce c = IsSetOf c.flags × (length c.launched ≡ length c.flags)

  abbrev Quiet : Cache RR → Cache RR → Type 0
  Quiet c c' = (c'.flags ≡ c.flags) × (c'.launched ≡ c.launched)

  LaunchedOnce-Quiet : (c c' : Cache RR) → Quiet c c' → LaunchedOnce c → LaunchedOnce c'
  LaunchedOnce-Quiet c c' (f, l) h = rw (f, l) h

  check_prefetch-LaunchedOnce :
      (now : ℕ) (e : Entry RR) (domain qtype : Text) (c : Cache RR)
      → LaunchedOnce c
      → LaunchedOnce (check_prefetch now e domain qtype c)
  unfolding check_prefetch
  check_prefetch-LaunchedOnce now e domain qtype c h = ground arith

  touch-Quiet : (now : ℕ) (k : Text) (e : Entry RR) (c : Cache RR) → Quiet c (touch now k e c)
  unfolding touch
  touch-Quiet now k e c = ground arith

  drop_if_current-Quiet :
      (k : Text) (e : Entry RR) (c : Cache RR) → Quiet c (drop_if_current k e c).0
  unfolding drop_if_current drop_key
  drop_if_current-Quiet k e c = ground arith

  get_round-LaunchedOnce :
      (now : ℕ) (domain qtype : Text) (c : Cache RR)
      → LaunchedOnce c
      → LaunchedOnce (get_round now now now (λ d. d) domain qtype c).0
  unfolding get_round
  get_round-LaunchedOnce now domain qtype c h =
      let k = make_key domain qtype in
      elim (Option-cases (Map.get k c.entries)) [
        | inl absent ↦ rw (absent, get_round) h
        | inr (e, found) ↦ elim (Bool-cases (is_expired now e)) [
          | inl old ↦
              rw (found, old, get_round)
                (LaunchedOnce-Quiet c (drop_if_current k e c).0 (drop_if_current-Quiet k e c) h)
          | inr fresh ↦
              rw (found, fresh, get_round)
                (check_prefetch-LaunchedOnce now e domain qtype (count_hit (touch now k e c))
                  (LaunchedOnce-Quiet c (touch now k e c) (touch-Quiet now k e c) h))
        ]
      ]

  drop_keys-Quiet : (ks : List Text) (c : Cache RR) → Quiet c (drop_keys ks c)
  unfolding drop_keys drop_key
  drop_keys-Quiet [] c = (refl, refl)
  drop_keys-Quiet (k ∷ ks) c = drop_keys-Quiet ks (drop_key k c)

  set-Quiet :
      (now : ℕ) (domain qtype : Text) (rrs : List RR) (ttl : ℕ) (negative : Bool) (c : Cache RR)
      → Quiet c (set now domain qtype rrs ttl negative c)
  unfolding set store make_room evict_oldest_locked drop_key
  set-Quiet now domain qtype rrs ttl negative c = ground arith

  perform-LaunchedOnce :
      (call : Call RR) (c : Cache RR) → LaunchedOnce c → LaunchedOnce (perform call c)
  unfolding perform delete clear remove_expired set_prefetch_func
  perform-LaunchedOnce (get_call now domain qtype) c h =
      rw get-get_round (get_round-LaunchedOnce now domain qtype c h)
  perform-LaunchedOnce (set_call now domain qtype rrs ttl negative) c h =
      LaunchedOnce-Quiet c (set now domain qtype rrs ttl negative c)
        (set-Quiet now domain qtype rrs ttl negative c) h
  perform-LaunchedOnce (delete_call domain) c h =
      LaunchedOnce-Quiet c (delete domain c) (drop_keys-Quiet _ c) h
  perform-LaunchedOnce clear_call c h = h
  perform-LaunchedOnce (cleanup_call now) c h =
      LaunchedOnce-Quiet c (remove_expired now c) (drop_keys-Quiet _ c) h
  perform-LaunchedOnce prefetch_call c h = h

  -- In any history from a cache for which it holds, the callbacks launched are as many as the
  -- entries whose flag is set, and no entry is counted twice: each entry is prefetched at most
  -- once.
  pub run-LaunchedOnce :
      (calls : List (Call RR)) (c : Cache RR) → LaunchedOnce c → LaunchedOnce (run calls c)
  unfolding run
  run-LaunchedOnce [] c h = h
  run-LaunchedOnce (call ∷ calls) c h =
      run-LaunchedOnce calls (perform call c) (perform-LaunchedOnce call c h)
