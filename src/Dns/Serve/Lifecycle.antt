-- ===== src/Dns/Serve/Lifecycle.antt =====
-- The rest of `Handler` in dns/handler.go: `NewHandler`, `handlePrefetch`, `ClearCache` and
-- `ReconfigureCache`, and what any calls of a handler do one after the other.
pub mod Invariant
use mathlib.Core.List.{map}
use mathlib.Core.Option
use dns_go.Base.{
  ℕ, ◌<◌, Bool, true, false, List, [], ◌∷◌, Option, none, some, Result, ok, err, if◌then◌else◌,
  Bool-cases, inl, inr, ◌≡◌, refl, arith, All,
}
use dns_go.Base.Text.{Text, codes}
use dns_go.Base.Word.{word}
use dns_go.Cache
use dns_go.Cache.{Cache}
use dns_go.Cache.Read.{
  new_cache-IsValid, set_prefetch_func-IsValid, clear-IsValid, remove_expired-IsValid,
}
use dns_go.Cache.Size.{IsValid}
use dns_go.Dns.Message.{Rr, Msg, Packages}
use dns_go.Dns.Message.Convert.{enabled_rrs}
use dns_go.Dns.Serve.Back.{min_ttl}
use dns_go.Dns.Serve.{serve_dns}
use dns_go.Dns.Serve.State.{
  asked, zones_cleared, records_cleared, Remote, Handler, World, Times, emit, set_cache, zone_of,
}
use dns_go.Dns.Serve.Valid.{
  CacheIsValid, WorldIsValid, set_cache-WorldIsValid, emit-WorldIsValid, serve_dns-WorldIsValid,
}
use dns_go.Storage.Types.{Record}

-- What the handler reads of the settings (model/cache.go). `prefetch_delay` is the delay that
-- `PrefetchTrigger` gives for a time to live.
pub record CacheSettings : Type 0 where
  pub enabled : Bool
  pub max_size : ℕ
  pub default_ttl : ℕ
  pub negative_ttl : ℕ
  pub prefetch_delay : ℕ → ℕ

module _ {IP : Type 0} where
  unfoldable pub new_cache_of : CacheSettings → Option (Cache (Rr IP))
  new_cache_of settings =
      if settings.enabled
      then some (
          Cache.set_prefetch_func (
            Cache.new_cache settings.max_size settings.default_ttl settings.negative_ttl
              settings.prefetch_delay))
      else none

  -- `NewHandler`, on the row of the settings.
  unfoldable pub new_handler : Result CacheSettings → Result (World IP)
  new_handler err = err
  new_handler (ok settings) = ok (record { cache = new_cache_of settings; events = [] })

  unfoldable pub reconfigure_cache : Option CacheSettings → World IP → World IP
  reconfigure_cache none s = s
  reconfigure_cache (some settings) s = record s { cache = new_cache_of settings }

  unfoldable pub clear_cache : World IP → World IP
  clear_cache s =
      emit records_cleared
        (emit zones_cleared (record s { cache = Option.map Cache.clear s.cache }))

  -- The loop of the cache that removes what has expired.
  unfoldable pub cleanup : ℕ → World IP → World IP
  cleanup now s = record s { cache = Option.map (Cache.remove_expired now) s.cache }

module _ (p : Packages) where
  open p use {IP, set_question, string_to_type}

  module _ (h : Handler p) (t : Times) (domain qtype : Text) where
    -- Without a record, the upstream servers are asked.
    unfoldable pub prefetch_upstream : World IP → World IP
    prefetch_upstream s =
        let req = set_question domain (string_to_type qtype) in
        let s1 = emit (asked req) s in
        elim (h.forward req) [
          | err ↦ s1
          | ok m ↦ elim m.answer [
            | [] ↦ s1
            | rr ∷ rrs ↦
                set_cache t domain qtype m.answer (min_ttl (map (λ r. r.hdr.ttl) m.answer)) false s1
          ]
        ]

    unfoldable pub prefetch_records : List Record → World IP → World IP
    prefetch_records [] s = prefetch_upstream s
    prefetch_records (r ∷ rs) s =
        set_cache t domain qtype (enabled_rrs p (r ∷ rs)) (min_ttl (map (λ q. q.ttl) (r ∷ rs)))
          false s

    unfoldable pub handle_prefetch : World IP → World IP
    handle_prefetch s = elim (h.get_zone_by_name (zone_of p h domain)) [
      | err ↦ s
      | ok none ↦ s
      | ok (some zone) ↦ elim (h.get_records_by_name domain qtype) [
        | err ↦ s
        | ok records ↦ prefetch_records records s
      ]
    ]

  -- A call of the handler, with the answers of its parts while it runs.
  pub data Call : Type 0 where
    serve_call : Handler p → Times → Option Remote → Msg IP → Call
    prefetch_call : Handler p → Times → Text → Text → Call
    clear_call : Call
    cleanup_call : ℕ → Call
    reconfigure_call : Option CacheSettings → Call

  unfoldable pub perform : Call → World IP → World IP
  perform (serve_call h t remote req) s = serve_dns p h t remote req s
  perform (prefetch_call h t domain qtype) s = handle_prefetch h t domain qtype s
  perform clear_call s = clear_cache s
  perform (cleanup_call now) s = cleanup now s
  perform (reconfigure_call settings) s = reconfigure_cache settings s

  unfoldable pub run : List Call → World IP → World IP
  run [] s = s
  run (call ∷ calls) s = run calls (perform call s)
