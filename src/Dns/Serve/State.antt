-- ===== src/Dns/Serve/State.antt =====
-- What `Handler` of dns/handler.go holds and calls, the events that it causes, and `logQuery` and
-- `setCache`.
use mathlib.Core.List.{map}
use mathlib.Core.Option
use dns_go.Base.{
  ℕ, Bool, true, false, List, [], ◌∷◌, Option, none, some, Result, ok, err, if◌then◌else◌,
}
use dns_go.Base.Text.{Text, codes, to_lower}
use dns_go.Cache
use dns_go.Cache.{Cache}
use dns_go.Dns.Chain.{Sources, Answer, extract_domain}
use dns_go.Dns.Message.{Rr, Question, Msg, Packages, a, aaaa, extract_client_ip, summarize_answers}
use dns_go.Storage.Types.{Record, Zone}

-- The log entry of model/query_log.go, without the latency.
pub record LogEntry : Type 0 where
  pub timestamp : ℕ
  pub client_ip : Text
  pub domain : Text
  pub query_type : Text
  pub response_code : Text
  pub response_source : Text
  pub response_data : Text
  pub protocol : Text
  pub response_size : ℕ
  pub edns_present : Bool
  pub edns_version : ℕ
  pub edns_buffer_size : ℕ

-- The first four count in `QueryStats`, the next five in package metrics; `asked` is a call of
-- `Forward` for the query itself, `asked_target` one for the target of a CNAME record, and `wrote` a
-- call of `WriteMsg`; the two before `tracked` clear the caches of the storages.
pub data Event (IP : Type 0) : Type 0 where
  total l1_hit l1_miss upstream_hit : Event IP
  queries_total : Text → Text → Event IP
  query_duration : Text → Event IP
  queries_blocked adblock_blocked queries_forwarded : Event IP
  zones_cleared records_cleared : Event IP
  tracked : Text → Event IP
  blocked_client : Text → Text → Event IP
  logged : LogEntry → Event IP
  asked asked_target wrote : Msg IP → Event IP

pub record World (IP : Type 0) : Type 0 where
  pub cache : Option (Cache (Rr IP))
  pub events : List (Event IP)

-- The address of a client: the host that `SplitHostPort` gives, and whether it came over TCP.
pub record Remote : Type 0 where
  pub host : Option Text
  pub is_tcp : Bool

-- The clock at the start of a query, at the lookup in the cache, and at the store.
pub record Times : Type 0 where
  pub start : ℕ
  pub looked_up : ℕ
  pub stored : ℕ

-- `Resolve` and `HasDomain` of the engine.
pub record Gslb (IP : Type 0) : Type 0 where
  pub resolve : Text → Text → Option IP → Result (List IP × ℕ)
  pub has_domain : Text → Bool

-- The first four fields tell which of the parts are set, and `is_blocked` and `gslb` are missing
-- where the filter or the engine is.
pub record Handler (p : Packages) : Type 0 where
  pub has_stats : Bool
  pub has_tracker : Bool
  pub has_log : Bool
  pub has_adblock_stats : Bool
  pub is_blocked : Option (Text → Result Bool)
  pub gslb : Option (Gslb p.IP)
  pub get_zone_by_name : Text → Result (Option Zone)
  pub get_records_by_name_and_zone : ℕ → Text → Text → Result (List Record)
  pub get_records_by_name : Text → Text → Result (List Record)
  pub domain_exists_in_zone : ℕ → Text → Result Bool
  pub forward : Msg p.IP → Result (Msg p.IP)
  pub adblock_response : Text
  pub nsid : Text
  pub version : Text
  pub negative_ttl : ℕ

module _ {IP : Type 0} where
  unfoldable pub emit : Event IP → World IP → World IP
  emit e s = record s { events = e ∷ s.events }

  unfoldable pub emit_if : Bool → Event IP → World IP → World IP
  emit_if b e s = record s { events = if b then e ∷ s.events else s.events }

  abbrev pub push_targets : List (Msg IP) → List (Event IP) → List (Event IP)
  push_targets [] es = es
  push_targets (m ∷ ms) es = push_targets ms (asked_target m ∷ es)

  unfoldable pub emit_targets : List (Msg IP) → World IP → World IP
  emit_targets ms s = record s { events = push_targets ms s.events }

  unfoldable pub set_cache : Times → Text → Text → List (Rr IP) → ℕ → Bool → World IP → World IP
  set_cache t domain qtype rrs ttl negative s = record s {
    cache = Option.map (Cache.set t.stored domain qtype rrs ttl negative) s.cache;
  }

module _ (p : Packages) where
  open p use {IP, parse_ip, to4, ip_text, type_to_string, rcode_to_string, message_len}

  -- The client of the EDNS option, or else the sender.
  unfoldable pub client_ip : Option Remote → Msg IP → Option IP
  client_ip remote req = elim (extract_client_ip req) [
    | some ip ↦ some ip
    | none ↦ elim remote [
      | none ↦ none
      | some r ↦ elim r.host [ none ↦ none | some host ↦ parse_ip host ]
    ]
  ]

  module _ (h : Handler p) where
    answer_of : Rr IP → Answer
    answer_of rr = elim rr.body [
      | a ip ↦ Answer.a (ip_text ip) rr.hdr.ttl
      | aaaa ip ↦ Answer.aaaa (ip_text ip) rr.hdr.ttl
      | _ ↦ Answer.other
    ]

    -- The message that asks for the target of a CNAME record.
    unfoldable pub target_query : Text → Text → Msg IP
    target_query target qtype = record (p.set_question (p.fqdn target) (p.string_to_type qtype)) {
      recursion_desired = true;
    }

    -- What the walk along CNAME records asks for a client.
    unfoldable pub sources : Option IP → Sources
    unfolding answer_of target_query
    sources client = record {
      IP = IP;
      to4 = λ ip. Option.map ip_text (to4 ip);
      ip_text = ip_text;
      get_records_by_name_and_zone = h.get_records_by_name_and_zone;
      get_zone_by_name = λ name. elim (h.get_zone_by_name name) [
        | err ↦ err
        | ok zone ↦ ok (Option.map (λ z. z.id) zone)
      ];
      gslb =
          Option.map
            (λ g name qtype. elim (g.resolve name qtype client) [
              | err ↦ err
              | ok (ips, ttl) ↦ ok ips
            ])
            h.gslb;
      forward = some (λ target qtype. elim (h.forward (target_query target qtype)) [
        | err ↦ err
        | ok m ↦ ok (map answer_of m.answer)
      ]);
    }

    -- `extractDomain`, which asks only for zones.
    unfoldable pub zone_of : Text → Text
    zone_of domain = extract_domain (sources none) domain

    module _ (t : Times) (remote : Option Remote) where
      unfoldable pub log_entry : Msg IP → Question → Msg IP → Text → LogEntry
      log_entry req q resp source = record {
        timestamp = t.start;
        client_ip = elim remote [
          | none ↦ []
          | some r ↦ elim r.host [ none ↦ [] | some host ↦ host ]
        ];
        domain = to_lower q.name;
        query_type = type_to_string q.qtype;
        response_code = rcode_to_string resp.rcode;
        response_source = source;
        response_data = summarize_answers ip_text p.rr_string resp.answer;
        protocol = elim remote [
          | none ↦ codes "udp"
          | some r ↦ if r.is_tcp then codes "tcp" else codes "udp"
        ];
        response_size = message_len resp;
        edns_present = elim req.edns [ none ↦ false | some _ ↦ true ];
        edns_version = elim req.edns [ none ↦ 0 | some opt ↦ opt.version ];
        edns_buffer_size = elim req.edns [ none ↦ 0 | some opt ↦ opt.udp_size ];
      }

      -- `logQuery`.
      unfoldable pub log_query : Msg IP → Msg IP → Text → World IP → World IP
      log_query req resp source s =
          if h.has_log
          then elim req.question [ [] ↦ s | q ∷ _ ↦ emit (logged (log_entry req q resp source)) s ]
          else s

      -- The end of a branch: the counter of the type and the code, the log, and the message.
      unfoldable pub respond_untimed : Text → Text → Msg IP → Msg IP → World IP → World IP
      respond_untimed qtype source req resp s =
          emit (wrote resp)
            (log_query req resp source (emit (queries_total qtype (rcode_to_string resp.rcode)) s))

      -- The same with the time that the query took.
      unfoldable pub respond : Text → Text → Msg IP → Msg IP → World IP → World IP
      respond qtype source req resp s = emit (wrote resp) (
          log_query req resp source (
            emit (query_duration source)
              (emit (queries_total qtype (rcode_to_string resp.rcode)) s)))
