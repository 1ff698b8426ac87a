-- ===== src/Dns/Serve/Tests.antt =====
-- The theorems about `ServeDNS` and its parts at small queries.
use dns_go.Base.{
  ◌^◌, ◌<◌, true, false, List, [], ◌∷◌, none, some, Result, ok, err, nat_eq, ◌≡◌, refl, arith, inl,
  ◌↔◌,
}
use dns_go.Base.Map
use dns_go.Base.Text
use dns_go.Base.Text.{Text, codes, text_eq, text_beq, has_byte, has_suffix, trim_suffix, to_lower}
use dns_go.Cache
use dns_go.Cache.Read.{new_cache-IsValid}
use dns_go.Dns.Local
use dns_go.Dns.Message.{Rr, Msg, srv, rcode_success}
use dns_go.Dns.Serve.Back.{name_error, min_ttl, lowest}
use dns_go.Dns.Serve.{serve_dns, first_reply}
use dns_go.Dns.Serve.Again.{serve_dns-again, serve_dns-outage}
use dns_go.Dns.Serve.Stored.{AnswersWith, last_event}
use dns_go.Dns.Serve.Forward.{asks, IsForwarded, IsSent, LeavesWith}
use dns_go.Dns.Serve.Lifecycle.{
  new_handler, new_cache_of, Call, serve_call, clear_call, cleanup_call, reconfigure_call, run,
}
use dns_go.Dns.Serve.Lifecycle.Invariant.{run-new_handler-WorldIsValid}
use dns_go.Dns.Serve.Passes.{ReachesZones, serve_dns-IsForwarded}
use dns_go.Dns.Serve.Reply.{Answered, serve_dns-Answered}
use dns_go.Dns.Serve.State.{wrote, zone_of}
use dns_go.Dns.Serve.Valid.{WorldIsValid}
use dns_go.Dns.Serve.Zones.{last_code, code_of, on_storage, on_storage-RecordLaws, serve_dns-code}
use dns_go.Storage.Lookup
use dns_go.Storage.Types.{Record}
use dns_go.Base.Decimal
use dns_go.Dns.Chain
use dns_go.Dns.Local.Private.{reverse_name, private_ipv4_reverse_zone-private}
use dns_go.Dns.Message.Convert
use dns_go.Dns.Message.Convert.Range.{IsWire, record_to_rr-IsWire}
use dns_go.Dns.Serve.Samples.{
  message, packages, rr, query, forwarder, settings, fresh, world, early, late, answered, question,
  zone, v6_record, zoned,
}

serve_dns-Answered_example :
    Answered packages
      (forwarder (ok (message [] (rr ∷ []))))
      early
      none
      query
      (serve_dns packages (forwarder (ok (message [] (rr ∷ [])))) early none query world)
      world
serve_dns-Answered_example =
    serve_dns-Answered packages (forwarder (ok (message [] (rr ∷ [])))) early none query world

leaves :
    (upstream : Result (Msg Text))
    → LeavesWith packages
        (forwarder upstream)
        early
        none
        query
        (record { name = codes "A.org."; qtype = 1; qclass = 1 })
        (some fresh)
unfolding Cache.get Cache.get_round Cache.new_cache Map.get Local.private_ipv4_reverse_zone
    Local.local_use_response has_suffix to_lower trim_suffix text_beq has_byte Cache.make_key
leaves upstream = record {
  not_chaos = refl;
  not_any = refl;
  passed_on = record {
    not_stored = refl;
    not_blocked = refl;
    not_balanced = tt;
    not_served = inl refl;
    may_leave = (refl, refl, refl);
  };
}

serve_dns-IsForwarded_example :
    ((asks false world < asks false (serve_dns packages answered early none query world))
      ↔ IsForwarded packages answered early none query (question ∷ []) (some fresh))
    × ((asks true world < asks true (serve_dns packages answered early none query world))
        ↔ IsSent packages answered early none query true (question ∷ []) (some fresh))
serve_dns-IsForwarded_example = serve_dns-IsForwarded packages answered early none query world

-- The answer is given again 20 seconds later, by a server that would fail.
serve_dns-again_example :
    AnswersWith packages
      (forwarder err)
      late
      none
      query
      (record (first_reply packages (forwarder err) late none query) {
        answer = rr ∷ [];
        rcode = rcode_success;
      })
      (serve_dns packages
        (forwarder err)
        late
        none
        query
        (serve_dns packages answered early none query world))
      (serve_dns packages answered early none query world)
unfolding min_ttl lowest Cache.new_cache
serve_dns-again_example =
    serve_dns-again packages answered (forwarder err) early late none none query question [] world
      fresh refl refl (new_cache-IsValid 100 300 60 (λ ttl. ttl) (omega arith))
      (leaves (ok (message [] (rr ∷ [])))) (message [] (rr ∷ [])) rr [] refl refl (omega arith)
      (omega arith)

-- The failure is answered as NXDOMAIN 20 seconds later, by a server that would answer.
serve_dns-outage_example :
    (last_event packages
        (forwarder err)
        early
        none
        query
        (serve_dns packages (forwarder err) early none query world)
      ≡ some (
          wrote (
            name_error packages
              (forwarder err)
              early
              none
              (zone_of packages (forwarder err) (codes "a.org."))
              (first_reply packages (forwarder err) early none query))))
    × AnswersWith packages answered late none query
        (name_error packages answered late none
          (zone_of packages answered (codes "a.org."))
          (first_reply packages answered late none query))
        (serve_dns packages answered late none query
          (serve_dns packages (forwarder err) early none query world))
        (serve_dns packages (forwarder err) early none query world)
unfolding to_lower Cache.new_cache
serve_dns-outage_example =
    serve_dns-outage packages (forwarder err) answered early late none none query question [] world
      fresh refl refl (new_cache-IsValid 100 300 60 (λ ttl. ttl) (omega arith)) (leaves err) refl
      (omega arith) (omega arith)

reaches : ReachesZones packages zoned early none query question (some fresh)
unfolding Cache.get Cache.get_round Cache.new_cache Map.get on_storage
reaches = record {
  not_chaos = refl;
  not_any = refl;
  not_stored = refl;
  not_blocked = refl;
  not_balanced = tt;
}

serve_dns-code_example :
    last_code packages zoned early none query (serve_dns packages zoned early none query world)
    ≡ some (
        code_of packages zoned early none query
          (zoned.get_records_by_name_and_zone 1 (codes "a.org.") (codes "A")))
unfolding to_lower on_storage Lookup.get_records_by_name_and_zone Lookup.select_records text_beq
serve_dns-code_example =
    serve_dns-code packages zoned early none query question [] world zone (codes "AAAA") v6_record
      []
      (on_storage-RecordLaws (λ zone. ok (v6_record ∷ []))
        (record (forwarder err) { get_zone_by_name = λ name. ok (some zone) }))
      refl reaches refl refl

abbrev calls : List (Call packages)
calls =
    serve_call answered early none query
    ∷ cleanup_call 5
    ∷ clear_call
    ∷ reconfigure_call (some settings)
    ∷ []

run-new_handler-WorldIsValid_example :
    WorldIsValid (run packages calls (record { cache = new_cache_of settings; events = [] }))
unfolding new_handler
run-new_handler-WorldIsValid_example =
    run-new_handler-WorldIsValid packages settings calls _ (omega arith)
      (tt, (tt, (tt, (omega arith, tt)))) refl

abbrev srv_record : Record
srv_record = record v6_record {
  record_type = codes "SRV";
  content = codes "5 443 b.org";
  priority = 65537;
}

abbrev srv_rr : Rr Text
srv_rr = record {
  hdr = record { name = codes "a.org."; rrtype = 28; class = 1; ttl = 60 };
  body = srv 1 5 443 (codes "b.org.");
}

record_to_rr-IsWire_example :
    IsWire packages srv_rr.body
    × (60 < 2 ^ 32)
    × (srv_rr.hdr.name ≡ codes "a.org.")
    × (srv_rr.hdr.rrtype ≡ 28)
    × (srv_rr.hdr.class ≡ 1)
unfolding Convert.record_to_rr Convert.header_of Convert.body_of Convert.srv_body
    Convert.parse_uint16_strict Decimal.parse_below Decimal.parse_digits Text.fields Text.is_space
    text_beq Chain.with_dot has_suffix
record_to_rr-IsWire_example = record_to_rr-IsWire packages srv_record srv_rr refl

private_ipv4_reverse_zone-private_example :
    Local.private_ipv4_reverse_zone (reverse_name 172 20 1 2) ≡ some (codes "20.172.in-addr.arpa.")
unfolding Decimal.decimal
private_ipv4_reverse_zone-private_example =
    private_ipv4_reverse_zone-private 172 20 1 2 (omega arith) (omega arith) (omega arith)
      (omega arith)
