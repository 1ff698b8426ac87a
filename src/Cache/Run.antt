-- ===== src/Cache/Run.antt =====
-- Histories of `DNSCache`: calls of its methods in any order, from a new cache.
use dns_go.Base.{ℕ, ◌<◌, Bool, List, [], ◌∷◌, ◌≡◌, arith, nat_eq}
use dns_go.Base.Text.{Text, text_eq}
use dns_go.Base.Word.{word}
use dns_go.Cache.{
  Cache, new_cache, set_prefetch_func, get, get_round, set, delete, clear, remove_expired,
}
use dns_go.Cache.Size.{IsValid}
use dns_go.Cache.Read.{
  Interference, get_round-IsValid, delete-IsValid, clear-IsValid, remove_expired-IsValid,
  new_cache-IsValid, set_prefetch_func-IsValid,
}
use dns_go.Cache.Store.{set-IsValid}

-- A call of a method, with the reading of the clock that it takes.
pub data Call (RR : Type 0) : Type 0 where
  get_call : ℕ → Text → Text → Call RR
  set_call : ℕ → Text → Text → List RR → ℕ → Bool → Call RR
  delete_call : Text → Call RR
  clear_call : Call RR
  cleanup_call : ℕ → Call RR
  prefetch_call : Call RR

module _ {RR : Type 0} where
  unfoldable pub perform : Call RR → Cache RR → Cache RR
  perform (get_call now domain qtype) c = (get now domain qtype c).0
  perform (set_call now domain qtype rrs ttl negative) c = set now domain qtype rrs ttl negative c
  perform (delete_call domain) c = delete domain c
  perform clear_call c = clear c
  perform (cleanup_call now) c = remove_expired now c
  perform prefetch_call c = set_prefetch_func c

  unfoldable pub run : List (Call RR) → Cache RR → Cache RR
  run [] c = c
  run (call ∷ calls) c = run calls (perform call c)

  alone : Interference {RR = RR} (λ c. c)
  alone = record { keeps = λ c v. v; later = λ c. omega arith }

  pub get-get_round :
      (now : ℕ) (domain qtype : Text) (c : Cache RR)
      → (get now domain qtype c).0 ≡ (get_round now now now (λ d. d) domain qtype c).0
  unfolding get
  get-get_round now domain qtype c = ground arith

  pub perform-IsValid : (call : Call RR) (c : Cache RR) → IsValid c → IsValid (perform call c)
  unfolding perform
  perform-IsValid (get_call now domain qtype) c v =
      rw get-get_round (get_round-IsValid (λ d. d) alone now now now domain qtype c v)
  perform-IsValid (set_call now domain qtype rrs ttl negative) c v =
      set-IsValid now domain qtype rrs ttl negative c v
  perform-IsValid (delete_call domain) c v = delete-IsValid domain c v
  perform-IsValid clear_call c v = clear-IsValid c v
  perform-IsValid (cleanup_call now) c v = remove_expired-IsValid now c v
  perform-IsValid prefetch_call c v = set_prefetch_func-IsValid c v

  run-IsValid : (calls : List (Call RR)) (c : Cache RR) → IsValid c → IsValid (run calls c)
  unfolding run
  run-IsValid [] c v = v
  run-IsValid (call ∷ calls) c v = run-IsValid calls (perform call c) (perform-IsValid call c v)

  -- After any calls on a new cache whose size is an int64, both maps hold the same entries, once
  -- for each key, the size counter says how many, and they are within the capacity.
  pub run_new-IsValid :
      (calls : List (Call RR)) (max_size default_ttl negative_ttl : ℕ) (delay : ℕ → ℕ)
      → max_size < word
      → IsValid (run calls (new_cache max_size default_ttl negative_ttl delay))
  run_new-IsValid calls max_size default_ttl negative_ttl delay h =
      run-IsValid calls _ (new_cache-IsValid max_size default_ttl negative_ttl delay h)
