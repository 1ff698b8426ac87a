-- ===== src/Dns/Serve/Valid.antt =====
-- `ServeDNS` of dns/handler.go keeps the invariant of the answer cache.
use mathlib.Core.Option
use dns_go.Base.{ℕ, Bool, List, [], ◌∷◌, Option, none, some, nat_eq, arith}
use dns_go.Base.Text.{Text, text_eq, to_lower}
use dns_go.Cache
use dns_go.Cache.{Cache, Entry}
use dns_go.Cache.Run.{get_call, perform, perform-IsValid}
use dns_go.Cache.Size.{IsValid}
use dns_go.Cache.Store.{set-IsValid}
use dns_go.Dns.Message.{Rr, Question, Msg, Packages}
use dns_go.Dns.Serve.Back.{
  upstream_stage, local_stage, no_record_stage, zone_records_stage, zone_answer, zone_stage,
}
use dns_go.Dns.Serve.{
  gslb_empty_stage, engine_stage, blocked_stage, count_blocked, adblock_stage, found_stage,
  lookup_stage, question_stage, first_reply, serve_dns,
}
use dns_go.Dns.Serve.State.{
  Event, total, tracked, Remote, Gslb, Handler, World, Times, emit, emit_if, emit_targets,
  log_query, respond, respond_untimed, set_cache,
}
use dns_go.Storage.Types.{Record, Zone}

module _ {IP : Type 0} where
  abbrev pub CacheIsValid : Option (Cache (Rr IP)) → Type 0
  CacheIsValid none = Unit
  CacheIsValid (some c) = IsValid c

  -- The cache of a world, if it has one, keeps its invariant.
  pub record WorldIsValid (s : World IP) : Type 0 where
    pub valid : CacheIsValid s.cache

  set-CacheIsValid :
      (now : ℕ) (domain qtype : Text) (rrs : List (Rr IP)) (ttl : ℕ) (negative : Bool)
      (cache : Option (Cache (Rr IP)))
      → CacheIsValid cache
      → CacheIsValid (Option.map (Cache.set now domain qtype rrs ttl negative) cache)
  set-CacheIsValid now domain qtype rrs ttl negative none v = tt
  set-CacheIsValid now domain qtype rrs ttl negative (some c) v =
      set-IsValid now domain qtype rrs ttl negative c v

  pub set_cache-WorldIsValid :
      (t : Times) (domain qtype : Text) (rrs : List (Rr IP)) (ttl : ℕ) (negative : Bool)
      (s : World IP)
      → WorldIsValid s
      → WorldIsValid (set_cache t domain qtype rrs ttl negative s)
  unfolding set_cache
  set_cache-WorldIsValid t domain qtype rrs ttl negative s v = record {
    valid = set-CacheIsValid t.stored domain qtype rrs ttl negative s.cache v.valid;
  }

  pub emit-WorldIsValid : (e : Event IP) (s : World IP) → WorldIsValid s → WorldIsValid (emit e s)
  unfolding emit
  emit-WorldIsValid e s v = record { valid = v.valid }

  pub emit_if-WorldIsValid :
      (b : Bool) (e : Event IP) (s : World IP) → WorldIsValid s → WorldIsValid (emit_if b e s)
  unfolding emit_if
  emit_if-WorldIsValid b e s v = record { valid = v.valid }

  emit_targets-WorldIsValid :
      (ms : List (Msg IP)) (s : World IP) → WorldIsValid s → WorldIsValid (emit_targets ms s)
  unfolding emit_targets
  emit_targets-WorldIsValid ms s v = record { valid = v.valid }

module _ (p : Packages) (h : Handler p) (t : Times) (remote : Option Remote) (req : Msg p.IP) where
  open p use {IP}

  log_query-WorldIsValid :
      (resp : Msg IP) (source : Text) (s : World IP)
      → WorldIsValid s
      → WorldIsValid (log_query p h t remote req resp source s)
  unfolding log_query
  log_query-WorldIsValid resp source s v = grind (arith, emit-WorldIsValid)

  respond-WorldIsValid :
      (qtype source : Text) (resp : Msg IP) (s : World IP)
      → WorldIsValid s
      → WorldIsValid (respond p h t remote qtype source req resp s)
  unfolding respond
  respond-WorldIsValid qtype source resp s v =
      grind (arith, emit-WorldIsValid, log_query-WorldIsValid)

  respond_untimed-WorldIsValid :
      (qtype source : Text) (resp : Msg IP) (s : World IP)
      → WorldIsValid s
      → WorldIsValid (respond_untimed p h t remote qtype source req resp s)
  unfolding respond_untimed
  respond_untimed-WorldIsValid qtype source resp s v =
      grind (arith, emit-WorldIsValid, log_query-WorldIsValid)

ruleset keeps_valid = (
  arith, emit-WorldIsValid, emit_if-WorldIsValid, set_cache-WorldIsValid, log_query-WorldIsValid,
  respond-WorldIsValid, respond_untimed-WorldIsValid, emit_targets-WorldIsValid,
)

module _ (p : Packages) (h : Handler p) (t : Times) (remote : Option Remote) (req : Msg p.IP) where
  open p use {IP}

  module _ (q : Question) (domain qtype : Text) where
    upstream_stage-WorldIsValid :
        (resp : Msg IP) (s : World IP)
        → WorldIsValid s
        → WorldIsValid (upstream_stage p h t remote req q domain qtype resp s)
    unfolding upstream_stage
    upstream_stage-WorldIsValid resp s v = grind keeps_valid

    local_stage-WorldIsValid :
        (resp : Msg IP) (s : World IP)
        → WorldIsValid s
        → WorldIsValid (local_stage p h t remote req q domain qtype resp s)
    unfolding local_stage
    local_stage-WorldIsValid resp s v = grind (keeps_valid, upstream_stage-WorldIsValid)

    no_record_stage-WorldIsValid :
        (zone : Zone) (zone_name : Text) (resp : Msg IP) (s : World IP)
        → WorldIsValid s
        → WorldIsValid (no_record_stage p h t remote req q domain qtype zone zone_name resp s)
    unfolding no_record_stage
    no_record_stage-WorldIsValid zone zone_name resp s v =
        grind (keeps_valid, local_stage-WorldIsValid)

    zone_records_stage-WorldIsValid :
        (zone : Zone) (zone_name : Text) (records : List Record × Bool) (resp : Msg IP)
        (s : World IP)
        → WorldIsValid s
        → WorldIsValid
            (zone_records_stage p h t remote req q domain qtype zone zone_name records resp s)
    unfolding zone_records_stage zone_answer
    zone_records_stage-WorldIsValid zone zone_name ([], via_gslb) resp s v =
        no_record_stage-WorldIsValid zone zone_name resp s v
    zone_records_stage-WorldIsValid zone zone_name (r ∷ rs, via_gslb) resp s v = grind keeps_valid

    zone_stage-WorldIsValid :
        (client : Option IP) (resp : Msg IP) (s : World IP)
        → WorldIsValid s
        → WorldIsValid (zone_stage p h t remote req q domain qtype client resp s)
    unfolding zone_stage
    zone_stage-WorldIsValid client resp s v =
        grind (keeps_valid, local_stage-WorldIsValid, zone_records_stage-WorldIsValid)

    engine_stage-WorldIsValid :
        (engine : Option (Gslb IP)) (resp : Msg IP) (s : World IP)
        → WorldIsValid s
        → WorldIsValid (engine_stage p h t remote req q domain qtype engine resp s)
    unfolding engine_stage gslb_empty_stage
    engine_stage-WorldIsValid engine resp s v = grind (keeps_valid, zone_stage-WorldIsValid)

    blocked_stage-WorldIsValid :
        (resp : Msg IP) (s : World IP)
        → WorldIsValid s
        → WorldIsValid (blocked_stage p h t remote req q domain qtype resp s)
    unfolding blocked_stage count_blocked
    blocked_stage-WorldIsValid resp s v = grind (keeps_valid)

    found_stage-WorldIsValid :
        (found : Option (Entry (Rr IP))) (resp : Msg IP) (s : World IP)
        → WorldIsValid s
        → WorldIsValid (found_stage p h t remote req q domain qtype found resp s)
    unfolding found_stage adblock_stage
    found_stage-WorldIsValid found resp s v =
        grind (keeps_valid, blocked_stage-WorldIsValid, engine_stage-WorldIsValid)

    lookup_stage-WorldIsValid :
        (cache : Option (Cache (Rr IP))) (resp : Msg IP) (s : World IP)
        → CacheIsValid cache
        → WorldIsValid s
        → WorldIsValid (lookup_stage p h t remote req q domain qtype cache resp s)
    unfolding lookup_stage
    lookup_stage-WorldIsValid none resp s c v = found_stage-WorldIsValid none resp s v
    lookup_stage-WorldIsValid (some cache) resp s c v =
        found_stage-WorldIsValid (Cache.get t.looked_up domain qtype cache).1 resp
          (record s { cache = some (Cache.get t.looked_up domain qtype cache).0 })
          (record {
            valid = unfold perform in perform-IsValid (get_call t.looked_up domain qtype) cache c;
          })

  question_stage-WorldIsValid :
      (qs : List Question) (resp : Msg IP) (s : World IP)
      → WorldIsValid s
      → WorldIsValid (question_stage p h t remote req qs resp s)
  unfolding question_stage
  question_stage-WorldIsValid [] resp s v = grind keeps_valid
  question_stage-WorldIsValid (q ∷ qs) resp s v =
      let counted = emit_if-WorldIsValid h.has_tracker (tracked (to_lower q.name)) s v in
      grind (
        keeps_valid,
        lookup_stage-WorldIsValid q (to_lower q.name) (p.type_to_string q.qtype)
            (emit_if h.has_tracker (tracked (to_lower q.name)) s).cache resp
            (emit_if h.has_tracker (tracked (to_lower q.name)) s) counted.valid counted,
      )

  pub serve_dns-WorldIsValid :
      (s : World IP) → WorldIsValid s → WorldIsValid (serve_dns p h t remote req s)
  unfolding serve_dns
  serve_dns-WorldIsValid s v =
      question_stage-WorldIsValid req.question (first_reply p h t remote req)
        (emit_if h.has_stats total s) (emit_if-WorldIsValid h.has_stats total s v)
