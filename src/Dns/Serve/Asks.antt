-- ===== src/Dns/Serve/Asks.antt =====
-- Where a stage of `ServeDNS` of dns/handler.go sends a query on, every part passes it on.
use dns_go.Base.{
  ℕ, ◌<◌, Bool, true, false, List, [], ◌∷◌, Option, none, some, Result, ok, err, nat_eq, ◌==◌, ◌≡◌,
  refl, arith, Bool-cases, Result-cases, inl, inr, ◌⊎◌, ◌||◌,
}
use dns_go.Base.Text.{Text, codes, text_eq, to_lower}
use dns_go.Cache
use dns_go.Cache.{Cache, Entry}
use dns_go.Dns.Chain.{cname_chain_calls}
use dns_go.Dns.Chain.Calls.{LeadsOut, cname_chain_calls-LeadsOut}
use dns_go.Dns.Message.{Rr, Question, Msg, Packages, class_chaos, type_any}
use dns_go.Dns.Serve.Back.{
  local_stage, no_record_stage, zone_records_stage, zone_answer, zone_stage, chained, chained_calls,
  or_false,
}
use dns_go.Dns.Serve.{
  gslb_empty_stage, gslb_answers, engine_stage, blocked_stage, count_blocked, blocks, adblock_stage,
  found_stage, lookup_stage, question_stage, first_reply, serve_dns,
}
use dns_go.Dns.Serve.State.{
  Remote, Gslb, Handler, World, Times, emit, emit_if, log_query, respond, respond_untimed,
  set_cache, client_ip, zone_of, sources, emit_targets, total, l1_miss, tracked,
}
use dns_go.Storage.Types.{Record, Zone}
use dns_go.Dns.Serve.Forward.{
  asks, push_targets-asks, MayLeave, Leaves, zone_client, EngineSilent, Sends, IsSent,
}

module _ (p : Packages) (h : Handler p) (t : Times) (remote : Option Remote) (req : Msg p.IP)
    (targets : Bool) where
  open p use {IP}

  log_query-asks :
      (resp : Msg IP) (source : Text) (s : World IP)
      → asks targets (log_query p h t remote req resp source s) ≡ asks targets s
  unfolding log_query emit
  log_query-asks resp source s = ground arith

  pub respond-asks :
      (qtype source : Text) (resp : Msg IP) (s : World IP)
      → asks targets (respond p h t remote qtype source req resp s) ≡ asks targets s
  unfolding respond emit
  respond-asks qtype source resp s = grind (arith, log_query-asks)

  pub respond_untimed-asks :
      (qtype source : Text) (resp : Msg IP) (s : World IP)
      → asks targets (respond_untimed p h t remote qtype source req resp s) ≡ asks targets s
  unfolding respond_untimed emit
  respond_untimed-asks qtype source resp s = grind (arith, log_query-asks)

  module _ (q : Question) (domain qtype : Text) where
    local_stage-asks :
        (resp : Msg IP) (s : World IP)
        → asks targets s < asks targets (local_stage p h t remote req q domain qtype resp s)
        → MayLeave p h t remote req q domain qtype
    unfolding local_stage set_cache
    local_stage-asks resp s more = grind (arith, respond-asks, respond_untimed-asks)

    no_record_stage-asks :
        (zone : Zone) (zone_name : Text) (resp : Msg IP) (s : World IP)
        → asks targets s
          < asks targets (no_record_stage p h t remote req q domain qtype zone zone_name resp s)
        → (zone.allow_fallback ≡ true)
          × (or_false (h.domain_exists_in_zone zone.id domain) ≡ false)
          × MayLeave p h t remote req q domain qtype
    unfolding no_record_stage set_cache
    no_record_stage-asks zone zone_name resp s more =
        grind (arith, respond-asks, local_stage-asks resp s)

    zone_records_stage-asks :
        (zone : Zone) (zone_name : Text) (records : List Record × Bool) (resp : Msg IP)
        (s : World IP)
        → asks targets s
          < asks targets
              (zone_records_stage p h t remote req q domain qtype zone zone_name records resp s)
        → (records.0 ≡ [])
          × (zone.allow_fallback ≡ true)
          × (or_false (h.domain_exists_in_zone zone.id domain) ≡ false)
          × MayLeave p h t remote req q domain qtype
    unfolding zone_records_stage zone_answer set_cache
    zone_records_stage-asks zone zone_name ([], via_gslb) resp s more =
        let rest = no_record_stage-asks zone zone_name resp s more in (refl, rest.0, rest.1, rest.2)
    zone_records_stage-asks zone zone_name (r ∷ rs, via_gslb) resp s more =
        absurd (grind (arith, respond-asks))

    chained-nil :
        (zone : Zone) (client : Option IP) (records : List Record)
        → (chained p h t remote req q domain qtype zone client records).0 ≡ []
        → records ≡ []
    unfolding chained
    chained-nil zone client [] e = refl
    chained-nil zone client (r ∷ rs) e = absurd (ground arith)

    -- What the calls for targets count.
    called :
        (calls : List (Msg IP)) (s : World IP)
        → ((targets ≡ true) × (m : Msg IP) × (ms : List (Msg IP)) × (calls ≡ m ∷ ms))
          ⊎ (asks targets (emit_targets calls s) ≡ asks targets s)
    unfolding emit_targets
    called [] s = inr refl
    called (m ∷ ms) s = elim (Bool-cases targets) [
      | inl on ↦ inl (on, m, ms, refl)
      | inr off ↦ inr (rw off (push_targets-asks (m ∷ ms) s.events).0)
    ]

    chained_calls-LeadsOut :
        (zone : Zone) (client : Option IP) (m : Msg IP) (ms : List (Msg IP))
        → chained_calls p h t remote req q domain qtype zone client [] ≡ m ∷ ms
        → ((qtype == codes "A" || qtype == codes "AAAA") ≡ true)
          × LeadsOut (sources p h client) zone.id qtype domain
    unfolding chained_calls
    chained_calls-LeadsOut zone client m ms e =
        elim (Bool-cases (qtype == codes "A" || qtype == codes "AAAA")) [
          | inl address ↦ (
            address,
            go address (cname_chain_calls (sources p h client) zone.id domain qtype) refl,
          )
          | inr no_address ↦
              absurd (let e0 = rw (chained_calls, no_address) at e in ground (arith, e0))
        ]
      where
        go :
            (qtype == codes "A" || qtype == codes "AAAA") ≡ true
            → (calls : List Text)
            → cname_chain_calls (sources p h client) zone.id domain qtype ≡ calls
            → LeadsOut (sources p h client) zone.id qtype domain
        go address [] e1 =
            absurd (let e0 = rw (chained_calls, address, e1) at e in ground (arith, e0))
        go address (target ∷ targets) e1 =
            cname_chain_calls-LeadsOut (sources p h client) zone.id qtype domain target targets e1

    zone_stage-asks :
        (client : Option IP) (resp : Msg IP) (s : World IP)
        → asks targets s < asks targets (zone_stage p h t remote req q domain qtype client resp s)
        → Leaves p h t remote req q domain qtype targets client
    unfolding zone_stage emit_targets chained_calls
    zone_stage-asks client resp s more =
        elim (Result-cases (h.get_zone_by_name (zone_of p h domain))) [
          | inl failed ↦ absurd (grind (arith, respond_untimed-asks))
          | inr (none, missing) ↦
              inr (inl missing, local_stage-asks resp s (rw (zone_stage, missing) at more))
          | inr (some zone, found) ↦
              elim (Result-cases (h.get_records_by_name_and_zone zone.id domain qtype)) [
                | inl failed ↦ absurd (grind (arith, respond_untimed-asks))
                | inr (records, read) ↦ served zone found records read
              ]
        ]
      where
        served :
            (zone : Zone)
            → h.get_zone_by_name (zone_of p h domain) ≡ ok (some zone)
            → (records : List Record)
            → h.get_records_by_name_and_zone zone.id domain qtype ≡ ok records
            → Leaves p h t remote req q domain qtype targets client
        served zone found [] read =
            let calls = chained_calls p h t remote req q domain qtype zone client [] in
            let records = chained p h t remote req q domain qtype zone client [] in
            elim (called calls s) [
              | inl (on, m, ms, e) ↦
                  let (address, leads) = chained_calls-LeadsOut zone client m ms e in
                  inl (on, (zone, found, read, address, leads))
              | inr same ↦
                  let (none_left, fallback, missing, leave) =
                    zone_records_stage-asks zone (zone_of p h domain) records resp
                      (emit_targets calls s) (rw same (rw (zone_stage, found, read) at more)) in
                  inr (inr (zone, found, (read, none_left, fallback, missing)), leave)
            ]
        served zone found (r ∷ rs) read =
            let calls = chained_calls p h t remote req q domain qtype zone client (r ∷ rs) in
            let (none_left, fallback, missing, leave) =
              zone_records_stage-asks zone (zone_of p h domain)
                (chained p h t remote req q domain qtype zone client (r ∷ rs)) resp
                (emit_targets calls s) (rw (zone_stage, found, read) at more) in
            absurd (ground (arith, chained-nil zone client (r ∷ rs) none_left))

    gslb_empty_stage-asks :
        (engine : Gslb IP) (resp : Msg IP) (s : World IP)
        → asks targets s
          < asks targets (
              gslb_empty_stage p h t remote req q domain qtype engine.has_domain
                (client_ip p remote req)
                resp
                s)
        → (engine.has_domain domain ≡ false)
          × Leaves p h t remote req q domain qtype targets (client_ip p remote req)
    unfolding gslb_empty_stage set_cache
    gslb_empty_stage-asks engine resp s more = elim (Bool-cases (engine.has_domain domain)) [
      | inl held ↦ absurd (grind (arith, respond-asks))
      | inr free ↦
          let rest =
            zone_stage-asks (client_ip p remote req) resp s (rw (gslb_empty_stage, free) at more) in
          (free, rest)
    ]

    engine_stage-asks :
        (engine : Option (Gslb IP)) (resp : Msg IP) (s : World IP)
        → asks targets s < asks targets (engine_stage p h t remote req q domain qtype engine resp s)
        → EngineSilent p h t remote req q domain qtype engine
          × Leaves p h t remote req q domain qtype targets
              (zone_client p h t remote req q domain qtype engine)
    unfolding engine_stage
    engine_stage-asks none resp s more = (tt, zone_stage-asks none resp s more)
    engine_stage-asks (some engine) resp s more =
        go (engine.resolve domain qtype (client_ip p remote req)) refl
      where
        within :
            (ips : List IP) (ttl : ℕ)
            → engine.resolve domain qtype (client_ip p remote req) ≡ ok (ips, ttl)
            → (rrs : List (Rr IP)) → gslb_answers p h t remote req q domain qtype ttl ips ≡ rrs
            → EngineSilent p h t remote req q domain qtype (some engine)
              × Leaves p h t remote req q domain qtype targets (client_ip p remote req)
        within ips ttl e [] answers =
            let rest =
              gslb_empty_stage-asks engine resp s (rw (engine_stage, e, answers) at more) in
            ((rest.0, rw e answers), rest.1)
        within ips ttl e (rr ∷ rrs) answers =
            let grew = rw (engine_stage, e, answers) at more in
            absurd (
              omega (
                arith,
                grew,
                respond-asks qtype (codes "gslb") (record resp { answer = rr ∷ rrs; rcode = 0 }) s,
              ))

        go :
            (r : Result (List IP × ℕ))
            → engine.resolve domain qtype (client_ip p remote req) ≡ r
            → EngineSilent p h t remote req q domain qtype (some engine)
              × Leaves p h t remote req q domain qtype targets (client_ip p remote req)
        go err e =
            let rest = gslb_empty_stage-asks engine resp s (rw (engine_stage, e) at more) in
            ((rest.0, rw e tt), rest.1)
        go (ok (ips, ttl)) e =
            within ips ttl e (gslb_answers p h t remote req q domain qtype ttl ips) refl

    blocked_stage-asks :
        (resp : Msg IP) (s : World IP)
        → asks targets (blocked_stage p h t remote req q domain qtype resp s) ≡ asks targets s
    unfolding blocked_stage count_blocked set_cache emit emit_if
    blocked_stage-asks resp s = grind (arith, respond-asks)

    adblock_stage-asks :
        (resp : Msg IP) (s : World IP)
        → asks targets s < asks targets (adblock_stage p h t remote req q domain qtype resp s)
        → (blocks p h t remote req q domain qtype h.is_blocked ≡ false)
          × EngineSilent p h t remote req q domain qtype h.gslb
          × Leaves p h t remote req q domain qtype targets
              (zone_client p h t remote req q domain qtype h.gslb)
    unfolding adblock_stage
    adblock_stage-asks resp s more = go (blocks p h t remote req q domain qtype h.is_blocked) refl
      where
        go :
            (b : Bool)
            → blocks p h t remote req q domain qtype h.is_blocked ≡ b
            → (blocks p h t remote req q domain qtype h.is_blocked ≡ false)
              × EngineSilent p h t remote req q domain qtype h.gslb
              × Leaves p h t remote req q domain qtype targets
                  (zone_client p h t remote req q domain qtype h.gslb)
        go true e = absurd (omega (arith, rw (adblock_stage, e) at more, blocked_stage-asks resp s))
        go false e =
            let rest = engine_stage-asks h.gslb resp s (rw (adblock_stage, e) at more) in
            (e, rest.0, rest.1)

    found_stage-asks :
        (found : Option (Entry (Rr IP))) (resp : Msg IP) (s : World IP)
        → asks targets s < asks targets (found_stage p h t remote req q domain qtype found resp s)
        → (found ≡ none)
          × (blocks p h t remote req q domain qtype h.is_blocked ≡ false)
          × EngineSilent p h t remote req q domain qtype h.gslb
          × Leaves p h t remote req q domain qtype targets
              (zone_client p h t remote req q domain qtype h.gslb)
    unfolding found_stage emit_if
    found_stage-asks none resp s more =
        let rest = adblock_stage-asks resp (emit_if h.has_stats l1_miss s) (grind arith) in
        (refl, rest.0, rest.1, rest.2)
    found_stage-asks (some e) resp s more = absurd (grind (arith, respond-asks))

    lookup_stage-asks :
        (cache : Option (Cache (Rr IP))) (resp : Msg IP) (s : World IP)
        → asks targets s < asks targets (lookup_stage p h t remote req q domain qtype cache resp s)
        → Sends p h t remote req q domain qtype targets cache
    unfolding lookup_stage
    lookup_stage-asks none resp s more =
        let rest = found_stage-asks none resp s more in
        record { not_stored = tt; not_blocked = rest.1; not_balanced = rest.2; leaves = rest.3 }
    lookup_stage-asks (some c) resp s more =
        let (c', found) = Cache.get t.looked_up domain qtype c in
        let rest = found_stage-asks found resp (record s { cache = some c' }) more in
        record { not_stored = rest.0; not_blocked = rest.1; not_balanced = rest.2; leaves = rest.3 }

  question_stage-asks :
      (qs : List Question) (resp : Msg IP) (s : World IP)
      → asks targets s < asks targets (question_stage p h t remote req qs resp s)
      → IsSent p h t remote req targets qs s.cache
  unfolding question_stage emit emit_if
  question_stage-asks [] resp s more = absurd (grind (arith, respond_untimed-asks))
  question_stage-asks (q ∷ qs) resp s more = elim (Bool-cases (q.qclass == class_chaos)) [
    | inl chaos ↦ absurd (grind (arith, log_query-asks))
    | inr inet ↦ elim (Bool-cases (q.qtype == type_any)) [
      | inl any ↦ absurd (grind (arith, respond_untimed-asks))
      | inr one ↦ record {
        not_chaos = inet;
        not_any = one;
        sends =
            lookup_stage-asks q (to_lower q.name) (p.type_to_string q.qtype) s.cache resp
              (emit_if h.has_tracker (tracked (to_lower q.name)) s) (grind arith);
      }
    ]
  ]

  pub serve_dns-asks :
      (s : World IP)
      → asks targets s < asks targets (serve_dns p h t remote req s)
      → IsSent p h t remote req targets req.question s.cache
  unfolding serve_dns emit_if
  serve_dns-asks s more =
      question_stage-asks req.question (first_reply p h t remote req) (emit_if h.has_stats total s)
        (grind arith)
