-- ===== src/Dns/Serve/Passing.antt =====
-- The stages of `ServeDNS` of dns/handler.go where they pass a name on, and what is asked for a
-- target on the way.
use mathlib.Core.List.{map}
use dns_go.Base.{
  ◌<◌, ◌≤◌, Bool, true, false, List, [], ◌∷◌, Option, none, some, nat_eq, ◌≡◌, refl, ap, ◌∙◌, arith,
  inl, inr,
}
use dns_go.Base.Text.{Text, text_eq}
use dns_go.Cache
use dns_go.Cache.{Cache, Entry}
use dns_go.Dns.Chain.Calls.{cname_chain_calls-first}
use dns_go.Dns.Message.{Rr, Question, Msg, Packages}
use dns_go.Dns.Serve.Back.{
  upstream_stage, local_stage, no_record_stage, zone_records_stage, zone_stage, zone_answer,
  chained, chained_calls, or_false,
}
use dns_go.Dns.Serve.{
  gslb_empty_stage, engine_stage, blocks, adblock_stage, found_stage, lookup_stage,
}
use dns_go.Dns.Serve.State.{
  Event, Remote, Gslb, Handler, World, Times, sources, target_query, emit, emit_if, emit_targets,
  push_targets, set_cache, zone_of, l1_miss,
}
use dns_go.Storage.Types.{Record, Zone}
use dns_go.Dns.Serve.Forward.{
  asks, push_targets-asks, MayLeave, ZonesSilent, Chases, EngineSilent, CacheSilent, zone_client,
}
use dns_go.Dns.Serve.Asks.{respond-asks, respond_untimed-asks}

module _ (p : Packages) (h : Handler p) (t : Times) (remote : Option Remote) (req : Msg p.IP)
    (q : Question) (domain qtype : Text) where
  open p use {IP}

  local_stage-passes :
      (resp : Msg IP) (s : World IP)
      → MayLeave p h t remote req q domain qtype
      → local_stage p h t remote req q domain qtype resp s
        ≡ upstream_stage p h t remote req q domain qtype resp s
  unfolding local_stage
  local_stage-passes resp s (a, b, c) = ground arith

  no_record_stage-passes :
      (zone : Zone) (zone_name : Text) (resp : Msg IP) (s : World IP)
      → zone.allow_fallback ≡ true
      → or_false (h.domain_exists_in_zone zone.id domain) ≡ false
      → MayLeave p h t remote req q domain qtype
      → no_record_stage p h t remote req q domain qtype zone zone_name resp s
        ≡ upstream_stage p h t remote req q domain qtype resp s
  unfolding no_record_stage
  no_record_stage-passes zone zone_name resp s fallback missing leave =
      ground (arith, local_stage-passes resp s leave)

  zone_records_stage-passes :
      (zone : Zone) (zone_name : Text) (records : List Record × Bool) (resp : Msg IP) (s : World IP)
      → records.0 ≡ []
      → zone_records_stage p h t remote req q domain qtype zone zone_name records resp s
        ≡ no_record_stage p h t remote req q domain qtype zone zone_name resp s
  unfolding zone_records_stage
  zone_records_stage-passes zone zone_name ([], via_gslb) resp s e = refl
  zone_records_stage-passes zone zone_name (r ∷ rs, via_gslb) resp s e = absurd (ground arith)

  -- The events behind the zones that pass the name on: a walk along CNAME records that found nothing
  -- may have asked for targets.
  abbrev pub walked :
      (client : Option IP)
      → ZonesSilent p h t remote req q domain qtype client
      → List (Event IP)
      → List (Event IP)
  walked client (inl missing) es = es
  walked client (inr (zone, found, passes)) es =
      push_targets (chained_calls p h t remote req q domain qtype zone client []) es

  pub zone_stage-passes :
      (client : Option IP) (resp : Msg IP) (s : World IP)
      (silent : ZonesSilent p h t remote req q domain qtype client)
      → MayLeave p h t remote req q domain qtype
      → zone_stage p h t remote req q domain qtype client resp s
        ≡ upstream_stage p h t remote req q domain qtype resp
            (record s { events = walked client silent s.events })
  unfolding zone_stage emit_targets
  zone_stage-passes client resp s (inl missing) leave =
      rw (zone_stage, missing) (local_stage-passes resp s leave)
  zone_stage-passes client resp s (inr (zone, found, (read, no_chain, fallback, missing))) leave =
      rw (zone_stage, found, read)
        (zone_records_stage-passes zone (zone_of p h domain)
            (chained p h t remote req q domain qtype zone client []) resp
            (emit_targets (chained_calls p h t remote req q domain qtype zone client []) s) no_chain
          ∙ no_record_stage-passes zone (zone_of p h domain) resp
              (emit_targets (chained_calls p h t remote req q domain qtype zone client []) s)
              fallback missing leave)

  local_stage-grows :
      (targets : Bool) (resp : Msg IP) (s : World IP)
      → asks targets s ≤ asks targets (local_stage p h t remote req q domain qtype resp s)
  unfolding local_stage upstream_stage set_cache emit emit_if
  local_stage-grows targets resp s =
      let timed = respond-asks p h t remote req targets in
      let untimed = respond_untimed-asks p h t remote req targets in grind (arith, timed, untimed)

  no_record_stage-grows :
      (targets : Bool) (zone : Zone) (zone_name : Text) (resp : Msg IP) (s : World IP)
      → asks targets s
        ≤ asks targets (no_record_stage p h t remote req q domain qtype zone zone_name resp s)
  unfolding no_record_stage set_cache
  no_record_stage-grows targets zone zone_name resp s =
      let timed = respond-asks p h t remote req targets in
      let onward = local_stage-grows targets in grind (arith, timed, onward)

  zone_records_stage-grows :
      (targets : Bool) (zone : Zone) (zone_name : Text) (records : List Record × Bool)
      (resp : Msg IP) (s : World IP)
      → asks targets s
        ≤ asks targets
            (zone_records_stage p h t remote req q domain qtype zone zone_name records resp s)
  unfolding zone_records_stage zone_answer set_cache
  zone_records_stage-grows targets zone zone_name ([], via_gslb) resp s =
      no_record_stage-grows targets zone zone_name resp s
  zone_records_stage-grows targets zone zone_name (r ∷ rs, via_gslb) resp s =
      let timed = respond-asks p h t remote req targets in grind (arith, timed)

  -- The calls for targets count, whatever the zone answers then.
  pub zone_stage-Chases :
      (client : Option IP) (resp : Msg IP) (s : World IP)
      → Chases p h t remote req q domain qtype client
      → asks true s < asks true (zone_stage p h t remote req q domain qtype client resp s)
  unfolding zone_stage emit_targets chained_calls sources
  zone_stage-Chases client resp s (zone, found, read, address, leads) =
      let (target, targets, walk) =
        cname_chain_calls-first (sources p h client) zone.id qtype domain _ refl leads in
      let m = target_query p h target qtype in
      let ms = map (λ x. target_query p h x qtype) targets in
      let calls : chained_calls p h t remote req q domain qtype zone client [] ≡ m ∷ ms =
        rw (chained_calls, address, walk) refl in
      let grown =
        zone_records_stage-grows true zone (zone_of p h domain)
          (chained p h t remote req q domain qtype zone client []) resp (emit_targets (m ∷ ms) s) in
      let counted = (push_targets-asks (m ∷ ms) s.events).1 in
      rw (zone_stage, found, read, calls) (omega (arith, grown, counted))

  engine_stage-zones :
      (engine : Option (Gslb IP)) (resp : Msg IP) (s : World IP)
      → EngineSilent p h t remote req q domain qtype engine
      → engine_stage p h t remote req q domain qtype engine resp s
        ≡ zone_stage p h t remote req q domain qtype
            (zone_client p h t remote req q domain qtype engine)
            resp
            s
  unfolding engine_stage gslb_empty_stage
  engine_stage-zones none resp s silent = refl
  engine_stage-zones (some engine) resp s (free, silent) = grind arith

  -- The cache after a lookup.
  abbrev pub looked : Option (Cache (Rr IP)) → Option (Cache (Rr IP))
  looked none = none
  looked (some c) = some (Cache.get t.looked_up domain qtype c).0

  abbrev missed : World IP → World IP
  missed s = emit_if h.has_stats l1_miss s

  module _ (silent : EngineSilent p h t remote req q domain qtype h.gslb)
      (allowed : blocks p h t remote req q domain qtype h.is_blocked ≡ false) where
    adblock_stage-zones :
        (resp : Msg IP) (s : World IP)
        → adblock_stage p h t remote req q domain qtype resp s
          ≡ zone_stage p h t remote req q domain qtype
              (zone_client p h t remote req q domain qtype h.gslb)
              resp
              s
    unfolding adblock_stage
    adblock_stage-zones resp s =
        rw (adblock_stage, allowed) (engine_stage-zones h.gslb resp s silent)

    pub lookup_stage-zones :
        (cache : Option (Cache (Rr IP))) (resp : Msg IP) (s : World IP)
        → s.cache ≡ cache
        → CacheSilent p h t remote req q domain qtype cache
        → lookup_stage p h t remote req q domain qtype cache resp s
          ≡ zone_stage p h t remote req q domain qtype
              (zone_client p h t remote req q domain qtype h.gslb)
              resp
              (record (missed s) { cache = looked cache })
    unfolding lookup_stage found_stage emit_if
    lookup_stage-zones none resp s e unstored =
        adblock_stage-zones resp (missed s)
        ∙ ap
            (λ held.
              zone_stage p h t remote req q domain qtype
                (zone_client p h t remote req q domain qtype h.gslb) resp
                (record (missed s) { cache = held }))
            e
    lookup_stage-zones (some c) resp s e unstored =
        rw (unstored, found_stage)
          (adblock_stage-zones resp
            (missed (record s { cache = some (Cache.get t.looked_up domain qtype c).0 })))
