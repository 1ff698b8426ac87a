-- ===== src/Dns/Serve/Back.antt =====
-- The stages of `ServeDNS` in dns/handler.go behind the engine: the zones, the names that are answered
-- here, and the upstream servers.
use mathlib.Core.List.{map}
use dns_go.Base.{
  ℕ, Bool, true, false, not, ◌||◌, List, [], ◌∷◌, ◌++◌, Option, none, some, Result, ok, err,
  if◌then◌else◌, nat_eq, ◌==◌,
}
use dns_go.Base.Text.{Text, codes, text_eq}
use dns_go.Base.Word.{slt}
use dns_go.Dns.Chain.{resolve_cname_chain, cname_chain_calls}
use dns_go.Dns.Local.{private_ipv4_reverse_zone, local_use_response}
use dns_go.Dns.Message.{
  Rr, Question, Msg, Packages, rcode_success, rcode_server_failure, rcode_name_error, rcode_refused,
  build_soa,
}
use dns_go.Dns.Message.Convert.{enabled_rrs}
use dns_go.Dns.Serve.State.{
  upstream_hit, queries_forwarded, asked, Remote, Handler, World, Times, emit, emit_if, respond,
  respond_untimed, set_cache, sources, zone_of, emit_targets, target_query,
}
use dns_go.Storage.Types.{Record, Zone}

-- The loop for the lowest of some times to live, int64 values.
unfoldable pub lowest : ℕ → List ℕ → ℕ
lowest t [] = t
lowest t (u ∷ us) = lowest (if slt u t then u else t) us

-- The lowest of a list, or 300 for an empty one.
unfoldable pub min_ttl : List ℕ → ℕ
min_ttl [] = 300
min_ttl (t ∷ ts) = lowest t (t ∷ ts)

-- A test that failed counts as false.
abbrev pub or_false : Result Bool → Bool
or_false err = false
or_false (ok b) = b

module _ (p : Packages) (h : Handler p) (t : Times) (remote : Option Remote) where
  open p use {IP, set_reply, type_to_string}

  abbrev soa_of : Text → List (Rr IP)
  soa_of zone_name = build_soa h.negative_ttl zone_name ∷ []

  abbrev pub name_error : Text → Msg IP → Msg IP
  name_error zone_name resp = record resp { rcode = rcode_name_error; authority = soa_of zone_name }

  abbrev pub no_data : Text → Msg IP → Msg IP
  no_data zone_name resp = record resp { rcode = rcode_success; authority = soa_of zone_name }

  module _ (req : Msg IP) (q : Question) (domain qtype : Text) where
    -- The end of `ServeDNS`, from the call of `Forward` on.
    unfoldable pub upstream_stage : Msg IP → World IP → World IP
    upstream_stage resp s =
        let s1 = emit (asked req) s in
        elim (h.forward req) [
          | err ↦
              respond p h t remote qtype (codes "upstream") req
                (name_error (zone_of p h domain) resp) (set_cache t domain qtype [] 0 true s1)
          | ok m ↦
              let s2 = emit queries_forwarded (emit_if h.has_stats upstream_hit s1) in
              respond p h t remote qtype (codes "upstream") req m (elim m.answer [
                | [] ↦
                    if m.rcode == rcode_name_error
                    then set_cache t domain qtype [] 0 true s2
                    else s2
                | rr ∷ rrs ↦
                    set_cache t domain qtype m.answer (min_ttl (map (λ r. r.hdr.ttl) m.answer))
                      false s2
              ])
        ]

    -- Step 5: names that stay here, and `RD = 0`.
    unfoldable pub local_stage : Msg IP → World IP → World IP
    local_stage resp s = elim (private_ipv4_reverse_zone domain) [
      | some zone_name ↦
          respond p h t remote qtype (codes "local") req (name_error zone_name resp)
            (set_cache t domain qtype [] 0 true s)
      | none ↦ elim (local_use_response p.loopback4 p.loopback6 domain qtype) [
        | some (answer, zone_name) ↦
            respond p h t remote qtype (codes "local") req
              (record (no_data zone_name resp) { answer = answer })
              (set_cache t domain qtype answer 300 false s)
        | none ↦
            if req.recursion_desired
            then upstream_stage resp s
            else respond_untimed p h t remote qtype (codes "refused") req
                (record resp { rcode = rcode_refused }) s
      ]
    ]

    abbrev server_failure : Msg IP → World IP → World IP
    server_failure resp s =
        respond_untimed p h t remote qtype (codes "error") req
          (record resp { rcode = rcode_server_failure }) s

    -- The NS records of the zone; none where they cannot be read.
    unfoldable pub name_server_rrs : Zone → Text → List (Rr IP)
    name_server_rrs zone zone_name =
        elim (h.get_records_by_name_and_zone zone.id zone_name (codes "NS")) [
          | err ↦ []
          | ok name_servers ↦ enabled_rrs p name_servers
        ]

    -- The answer from the records of a zone, with its NS records.
    unfoldable pub zone_answer : Zone → Text → List Record → Bool → Msg IP → World IP → World IP
    zone_answer zone zone_name records via_gslb resp s =
        let answer = enabled_rrs p records in
        respond p h t remote qtype (codes "zone") req
          (record resp {
            authoritative = true;
            answer = answer;
            rcode = rcode_success;
            authority = resp.authority ++ name_server_rrs zone zone_name;
          })
          (if via_gslb
            then s
            else set_cache t domain qtype answer (min_ttl (map (λ r. r.ttl) records)) false s)

    -- A zone without a record of the name and the type.
    unfoldable pub no_record_stage : Zone → Text → Msg IP → World IP → World IP
    no_record_stage zone zone_name resp s =
        let exists = or_false (h.domain_exists_in_zone zone.id domain) in
        if not zone.allow_fallback
        then if not exists
          then respond p h t remote qtype (codes "zone") req (name_error zone_name resp) s
          else respond p h t remote qtype (codes "zone") req (no_data zone_name resp)
              (set_cache t domain qtype [] 0 false s)
        else if exists
        then respond p h t remote qtype (codes "zone") req
            (record (no_data zone_name resp) { authoritative = true })
            (set_cache t domain qtype [] 0 false s)
        else local_stage resp s

    -- The records of the zone, or else those at the end of a chain of CNAME records; and whether
    -- the engine answered for its end.
    unfoldable pub chained : Zone → Option IP → List Record → List Record × Bool
    chained zone client (r ∷ rs) = (r ∷ rs, false)
    chained zone client [] =
        if qtype == codes "A" || qtype == codes "AAAA"
        then (
          (resolve_cname_chain (sources p h client) zone.id domain qtype).0,
          or_false (resolve_cname_chain (sources p h client) zone.id domain qtype).1,
        )
        else ([], false)

    -- The calls of `Forward` of that chain.
    unfoldable pub chained_calls : Zone → Option IP → List Record → List (Msg IP)
    chained_calls zone client (r ∷ rs) = []
    chained_calls zone client [] =
        if qtype == codes "A" || qtype == codes "AAAA"
        then map (λ target. target_query p h target qtype)
            (cname_chain_calls (sources p h client) zone.id domain qtype)
        else []

    unfoldable pub zone_records_stage :
        Zone → Text → List Record × Bool → Msg IP → World IP → World IP
    zone_records_stage zone zone_name ([], via_gslb) resp s = no_record_stage zone zone_name resp s
    zone_records_stage zone zone_name (r ∷ rs, via_gslb) resp s =
        zone_answer zone zone_name (r ∷ rs) via_gslb resp s

    -- Step 4.
    unfoldable pub zone_stage : Option IP → Msg IP → World IP → World IP
    zone_stage client resp s = elim (h.get_zone_by_name (zone_of p h domain)) [
      | err ↦ server_failure resp s
      | ok none ↦ local_stage resp s
      | ok (some zone) ↦ elim (h.get_records_by_name_and_zone zone.id domain qtype) [
        | err ↦ server_failure resp s
        | ok records ↦
            zone_records_stage zone (zone_of p h domain) (chained zone client records) resp
              (emit_targets (chained_calls zone client records) s)
      ]
    ]
