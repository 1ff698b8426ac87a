-- ===== src/Dns/Serve.antt =====
-- `ServeDNS` of dns/handler.go, stage by stage: the cache, the ad filter, the engine, the zones,
-- the names that are answered here, and the upstream servers.
-- What the handler calls answers as the functions of `Handler` do while one query is served. What
-- it does to others is a list of events, the newest first: its counters, its log, what it
-- asks the upstream servers and the message that it writes.
pub mod State
pub mod Back
mod Reply
mod Forward
mod Asks
mod Passing
mod Passes
mod Stored
mod Again
mod Zones
mod Valid
pub mod Lifecycle
mod Samples
mod Tests
use mathlib.Core.List.{map}
use mathlib.Core.Option
use dns_go.Base.{
  ℕ, Bool, true, false, not, ◌&&◌, ◌||◌, List, [], ◌∷◌, ◌++◌, Option, none, some, Result, ok, err,
  if◌then◌else◌, nat_eq, ◌==◌,
}
use dns_go.Base.Text.{Text, codes, text_eq, to_lower, to_upper}
use dns_go.Base.Word.{slt}
use dns_go.Cache
use dns_go.Cache.{Cache, Entry}
use dns_go.Dns.Chain
use dns_go.Dns.Chain.{Sources, extract_domain, resolve_cname_chain}
use dns_go.Dns.Local.{private_ipv4_reverse_zone, local_use_response}
use dns_go.Dns.Message.{
  Header, Rr, Question, Msg, Packages, a, aaaa, rcode_success, rcode_format_error,
  rcode_server_failure, rcode_name_error, rcode_not_implemented, rcode_refused, type_a, type_aaaa,
  type_any, class_inet, class_chaos, build_soa, set_edns0, chaos_reply, extract_client_ip,
}
use dns_go.Dns.Message.Convert.{enabled_rrs}
use dns_go.Dns.Serve.State.{
  Event, total, l1_hit, l1_miss, upstream_hit, queries_total, queries_blocked, adblock_blocked,
  queries_forwarded, tracked, blocked_client, asked, wrote, Remote, Gslb, Handler, World, Times,
  emit, emit_if, log_query, respond, respond_untimed, set_cache, client_ip, sources, zone_of,
}
use dns_go.Storage.Types.{Record, Zone}
use dns_go.Dns.Serve.Back.{
  lowest, min_ttl, or_false, name_error, no_data, upstream_stage, local_stage, name_server_rrs,
  zone_answer, no_record_stage, chained, zone_records_stage, zone_stage,
}

module _ (p : Packages) (h : Handler p) (t : Times) (remote : Option Remote) where
  open p use {IP, set_reply, type_to_string}

  module _ (req : Msg IP) (q : Question) (domain qtype : Text) where
    -- The addresses of the engine that are of the type; none of them is nil.
    unfoldable pub gslb_answers : ℕ → List IP → List (Rr IP)
    gslb_answers ttl [] = []
    gslb_answers ttl (ip ∷ ips) =
        let rest = gslb_answers ttl ips in
        if qtype == codes "A"
        then elim (p.to4 ip) [
          | none ↦ rest
          | some ip4 ↦
              record {
                hdr = record { name = domain; rrtype = type_a; class = class_inet; ttl = ttl };
                body = a ip4;
              }
              ∷ rest
        ]
        else if qtype == codes "AAAA"
        then elim (p.to4 ip) [
          | none ↦
              record {
                hdr = record { name = domain; rrtype = type_aaaa; class = class_inet; ttl = ttl };
                body = aaaa ip;
              }
              ∷ rest
          | some _ ↦ rest
        ]
        else rest

    -- A domain of the engine for which it gave no address of the type.
    unfoldable pub gslb_empty_stage : (Text → Bool) → Option IP → Msg IP → World IP → World IP
    gslb_empty_stage has_domain client resp s =
        if has_domain domain
        then respond p h t remote qtype (codes "gslb") req
            (no_data p h t remote (zone_of p h domain) resp) (set_cache t domain qtype [] 0 false s)
        else zone_stage p h t remote req q domain qtype client resp s

    -- Step 3, by the engine.
    unfoldable pub engine_stage : Option (Gslb IP) → Msg IP → World IP → World IP
    engine_stage none resp s = zone_stage p h t remote req q domain qtype none resp s
    engine_stage (some engine) resp s =
        let client = client_ip p remote req in
        elim (engine.resolve domain qtype client) [
          | err ↦ gslb_empty_stage engine.has_domain client resp s
          | ok (ips, ttl) ↦ elim (gslb_answers ttl ips) [
            | [] ↦ gslb_empty_stage engine.has_domain client resp s
            | rr ∷ rrs ↦
                respond p h t remote qtype (codes "gslb") req
                  (record resp { answer = rr ∷ rrs; rcode = rcode_success }) s
          ]
        ]

    abbrev gslb_stage : Msg IP → World IP → World IP
    gslb_stage resp s = engine_stage h.gslb resp s

    abbrev blocked_header : ℕ → Header
    blocked_header rrtype = record { name = domain; rrtype = rrtype; class = class_inet; ttl = 60 }

    unfoldable pub count_blocked : World IP → World IP
    count_blocked s = elim (client_ip p remote req) [
      | none ↦ s
      | some ip ↦ emit_if h.has_adblock_stats (blocked_client domain (p.ip_text ip)) s
    ]

    -- A blocked name: NXDOMAIN, or the unspecified address for a type of addresses.
    unfoldable pub blocked_stage : Msg IP → World IP → World IP
    blocked_stage resp s =
        let s2 = count_blocked (emit adblock_blocked (emit queries_blocked s)) in
        let denied =
          respond p h t remote qtype (codes "adblock") req
            (name_error p h t remote (zone_of p h domain) resp)
            (set_cache t domain qtype [] 0 true s2) in
        let with_address = λ (rrs : List (Rr IP)).
          respond p h t remote qtype (codes "adblock") req
            (record resp { answer = rrs; rcode = rcode_success })
            (set_cache t domain qtype rrs 60 false s2) in
        if to_upper h.adblock_response == codes "NXDOMAIN"
        then denied
        else if qtype == codes "A"
        then with_address (record { hdr = blocked_header type_a; body = a p.unspecified4 } ∷ [])
        else if qtype == codes "AAAA"
        then with_address
            (record { hdr = blocked_header type_aaaa; body = aaaa p.unspecified6 } ∷ [])
        else denied

    abbrev pub blocks : Option (Text → Result Bool) → Bool
    blocks none = false
    blocks (some is_blocked) = or_false (is_blocked domain)

    -- Step 2.
    unfoldable pub adblock_stage : Msg IP → World IP → World IP
    adblock_stage resp s = if blocks h.is_blocked then blocked_stage resp s else gslb_stage resp s

    -- What a hit of the cache answers.
    unfoldable pub cached_reply : Entry (Rr IP) → Msg IP → Msg IP
    cached_reply e resp =
        if e.is_negative
        then name_error p h t remote (zone_of p h domain) resp
        else record resp { answer = e.rrs; rcode = rcode_success }

    -- Step 1, on what `Get` gives.
    unfoldable pub found_stage : Option (Entry (Rr IP)) → Msg IP → World IP → World IP
    found_stage none resp s = adblock_stage resp (emit_if h.has_stats l1_miss s)
    found_stage (some e) resp s =
        respond p h t remote qtype (codes "cache") req (cached_reply e resp)
          (emit_if h.has_stats l1_hit s)

    unfoldable pub lookup_stage : Option (Cache (Rr IP)) → Msg IP → World IP → World IP
    lookup_stage none resp s = found_stage none resp s
    lookup_stage (some c) resp s =
        let (c', found) = Cache.get t.looked_up domain qtype c in
        found_stage found resp (record s { cache = some c' })

    abbrev pub cache_stage : Msg IP → World IP → World IP
    cache_stage resp s = lookup_stage s.cache resp s

  -- The message that every answer begins as.
  unfoldable pub first_reply : Msg IP → Msg IP
  first_reply req =
      set_edns0 p h.nsid
        (record (set_reply req) { authoritative = false; recursion_available = true }) req

  -- What is done by the first question: no question, CHAOS and ANY are answered at once.
  unfoldable pub question_stage : Msg IP → List Question → Msg IP → World IP → World IP
  question_stage req [] resp s =
      respond_untimed p h t remote [] (codes "error") req
        (record resp { rcode = rcode_format_error }) s
  question_stage req (q ∷ _) resp s =
      let domain = to_lower q.name in
      let qtype = type_to_string q.qtype in
      if q.qclass == class_chaos
      then emit (wrote (chaos_reply p h.version h.nsid q resp))
          (log_query p h t remote req (chaos_reply p h.version h.nsid q resp) (codes "chaos") s)
      else if q.qtype == type_any
      then respond_untimed p h t remote qtype (codes "blocked") req
          (record resp { rcode = rcode_not_implemented }) s
      else cache_stage req q domain qtype resp (emit_if h.has_tracker (tracked domain) s)

  unfoldable pub serve_dns : Msg IP → World IP → World IP
  serve_dns req s = question_stage req req.question (first_reply req) (emit_if h.has_stats total s)
