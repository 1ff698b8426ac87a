-- ===== src/Dns/Serve/Lifecycle/Invariant.antt =====
-- `Handler` of dns/handler.go keeps its answer cache in order, over any calls.
use mathlib.Core.Path.{subst}
use mathlib.Core.Option
use dns_go.Base.{
  ◌<◌, Bool, true, false, List, [], ◌∷◌, Option, none, some, ok, if◌then◌else◌, ◌≡◌, arith, All,
}
use dns_go.Base.Text.{Text}
use dns_go.Base.Word.{word}
use dns_go.Cache
use dns_go.Cache.{Cache}
use dns_go.Cache.Read.{
  new_cache-IsValid, set_prefetch_func-IsValid, clear-IsValid, remove_expired-IsValid,
}
use dns_go.Cache.Size.{IsValid}
use dns_go.Dns.Message.{Rr, Packages}
use dns_go.Dns.Serve.State.{Handler, World, Times, emit}
use dns_go.Dns.Serve.Valid.{
  CacheIsValid, WorldIsValid, set_cache-WorldIsValid, emit-WorldIsValid, serve_dns-WorldIsValid,
}
use dns_go.Dns.Serve.Lifecycle.{
  CacheSettings, new_cache_of, new_handler, reconfigure_cache, clear_cache, cleanup,
  prefetch_upstream, prefetch_records, handle_prefetch, Call, serve_call, prefetch_call, clear_call,
  cleanup_call, reconfigure_call, perform, run,
}

module _ (p : Packages) where
  open p use {IP}

  -- Sizes are 64-bit numbers.
  abbrev pub IsSized : Call p → Type 0
  IsSized (reconfigure_call (some settings)) = settings.max_size < word
  IsSized (reconfigure_call none) = Unit
  IsSized (serve_call h t remote req) = Unit
  IsSized (prefetch_call h t domain qtype) = Unit
  IsSized clear_call = Unit
  IsSized (cleanup_call now) = Unit

  new_cache_of-CacheIsValid :
      (settings : CacheSettings)
      → settings.max_size < word
      → CacheIsValid {IP = IP} (new_cache_of settings)
  unfolding new_cache_of
  new_cache_of-CacheIsValid settings sized = go settings.enabled
    where
      go :
          (b : Bool)
          → CacheIsValid (
              if b
              then some (
                  Cache.set_prefetch_func (
                    Cache.new_cache {RR = Rr IP} settings.max_size settings.default_ttl
                      settings.negative_ttl settings.prefetch_delay))
              else none)
      go false = tt
      go true = set_prefetch_func-IsValid _ (
          new_cache-IsValid settings.max_size settings.default_ttl settings.negative_ttl
            settings.prefetch_delay sized)

  map-CacheIsValid :
      (f : Cache (Rr IP) → Cache (Rr IP)) (cache : Option (Cache (Rr IP)))
      → ((c : Cache (Rr IP)) → IsValid c → IsValid (f c))
      → CacheIsValid cache
      → CacheIsValid (Option.map f cache)
  map-CacheIsValid f none keeps v = tt
  map-CacheIsValid f (some c) keeps v = keeps c v

  handle_prefetch-WorldIsValid :
      (h : Handler p) (t : Times) (domain qtype : Text) (s : World IP)
      → WorldIsValid s
      → WorldIsValid (handle_prefetch p h t domain qtype s)
  unfolding handle_prefetch prefetch_records prefetch_upstream
  handle_prefetch-WorldIsValid h t domain qtype s v =
      grind (arith, set_cache-WorldIsValid, emit-WorldIsValid)

  perform-WorldIsValid :
      (call : Call p) (s : World IP)
      → IsSized call
      → WorldIsValid s
      → WorldIsValid (perform p call s)
  unfolding perform clear_cache cleanup reconfigure_cache emit
  perform-WorldIsValid (serve_call h t remote req) s sized v =
      serve_dns-WorldIsValid p h t remote req s v
  perform-WorldIsValid (prefetch_call h t domain qtype) s sized v =
      handle_prefetch-WorldIsValid h t domain qtype s v
  perform-WorldIsValid clear_call s sized v = record {
    valid = map-CacheIsValid Cache.clear s.cache clear-IsValid v.valid;
  }
  perform-WorldIsValid (cleanup_call now) s sized v = record {
    valid =
        map-CacheIsValid (Cache.remove_expired now) s.cache (remove_expired-IsValid now) v.valid;
  }
  perform-WorldIsValid (reconfigure_call none) s sized v = v
  perform-WorldIsValid (reconfigure_call (some settings)) s sized v = record {
    valid = new_cache_of-CacheIsValid settings sized;
  }

  run-WorldIsValid :
      (calls : List (Call p)) (s : World IP)
      → All IsSized calls
      → WorldIsValid s
      → WorldIsValid (run p calls s)
  unfolding run
  run-WorldIsValid [] s sized v = v
  run-WorldIsValid (call ∷ calls) s (one, more) v =
      run-WorldIsValid calls (perform p call s) more (perform-WorldIsValid call s one v)

  -- From a new handler on, any queries, prefetches, clearings, removals of what has expired and
  -- changes of the settings, in any order and whatever the parts of the handler answer, leave the
  -- answer cache within its bound and with its invariant. Sizes are below 2 ^ 64.
  pub run-new_handler-WorldIsValid :
      (settings : CacheSettings) (calls : List (Call p)) (s : World IP)
      → settings.max_size < word
      → All IsSized calls
      → new_handler (ok settings) ≡ ok s
      → WorldIsValid (run p calls s)
  unfolding new_handler
  run-new_handler-WorldIsValid settings calls s sized all made =
      let start : World IP = record { cache = new_cache_of settings; events = [] } in
      let same : start ≡ s = ground (arith, made) in
      run-WorldIsValid calls s all
        (subst WorldIsValid same (record { valid = new_cache_of-CacheIsValid settings sized }))
