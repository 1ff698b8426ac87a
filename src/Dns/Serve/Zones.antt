-- ===== src/Dns/Serve/Zones.antt =====
-- The codes that `ServeDNS` of dns/handler.go answers for the names of a zone.
use dns_go.Base.{
  ℕ, Bool, true, List, [], ◌∷◌, Option, none, some, Result, ok, err, nat_eq, ◌≡◌, refl, arith,
  Result-cases, inl, inr,
}
use dns_go.Base.Text.{Text, to_lower}
use dns_go.Dns.Message.{Question, Msg, Packages, rcode_success, rcode_server_failure}
use dns_go.Dns.Serve.Back.{
  no_record_stage, zone_records_stage, zone_answer, zone_stage, chained, chained_calls,
}
use dns_go.Dns.Serve.{question_stage, first_reply, serve_dns}
use dns_go.Dns.Serve.Passes.{arrived, ReachesZones, question_stage-zones}
use dns_go.Dns.Serve.State.{
  wrote, total, Remote, Handler, World, Times, emit, emit_if, emit_targets, respond,
  respond_untimed, zone_of,
}
use dns_go.Storage.Lookup.{get_records_by_name_and_zone, domain_exists_in_zone}
use dns_go.Storage.Lookup.Exists.{get_records_by_name_and_zone-exists}
use dns_go.Storage.Types.{Record, Zone}

exists_in :
    (stored : Result (List Record)) (name kind : Text) (r : Record) (rs : List Record)
    → get_records_by_name_and_zone stored name kind ≡ ok (r ∷ rs)
    → domain_exists_in_zone stored name ≡ ok true
exists_in err name kind r rs e = absurd (unfold get_records_by_name_and_zone in cc e)
exists_in (ok records) name kind r rs e =
    get_records_by_name_and_zone-exists records name kind r rs e

-- What the two readings of one storage owe each other: a name with a record of some type is one
-- that exists.
pub record RecordLaws (p : Packages) (h : Handler p) : Type 0 where
  pub exists :
      (zone : ℕ) (name kind : Text) (r : Record) (rs : List Record)
      → h.get_records_by_name_and_zone zone name kind ≡ ok (r ∷ rs)
      → h.domain_exists_in_zone zone name ≡ ok true

module _ (p : Packages) (h : Handler p) (t : Times) (remote : Option Remote) (req : Msg p.IP) where
  open p use {IP}

  -- The code of the message that was written last.
  abbrev pub last_code : World IP → Option ℕ
  last_code s = elim s.events [ (wrote m ∷ _) ↦ some m.rcode | _ ↦ none ]

  -- The code for a name that exists, by the reading of the records of the type.
  abbrev pub code_of : Result (List Record) → ℕ
  code_of err = rcode_server_failure
  code_of (ok records) = rcode_success

  module _ (q : Question) (domain qtype : Text) where
    no_record_stage-code :
        (zone : Zone) (zone_name : Text) (resp : Msg IP) (s : World IP)
        → h.domain_exists_in_zone zone.id domain ≡ ok true
        → last_code (no_record_stage p h t remote req q domain qtype zone zone_name resp s)
          ≡ some rcode_success
    unfolding no_record_stage respond emit
    no_record_stage-code zone zone_name resp s exists = ground arith

    zone_records_stage-code :
        (zone : Zone) (zone_name : Text) (records : List Record × Bool) (resp : Msg IP)
        (s : World IP)
        → h.domain_exists_in_zone zone.id domain ≡ ok true
        → last_code
            (zone_records_stage p h t remote req q domain qtype zone zone_name records resp s)
          ≡ some rcode_success
    unfolding zone_records_stage
    zone_records_stage-code zone zone_name ([], via_gslb) resp s exists =
        no_record_stage-code zone zone_name resp s exists
    zone_records_stage-code zone zone_name (r ∷ rs, via_gslb) resp s exists =
        unfold zone_answer respond emit in refl

    zone_stage-code :
        (zone : Zone) (client : Option IP) (resp : Msg IP) (s : World IP)
        → h.get_zone_by_name (zone_of p h domain) ≡ ok (some zone)
        → h.domain_exists_in_zone zone.id domain ≡ ok true
        → last_code (zone_stage p h t remote req q domain qtype client resp s)
          ≡ some (code_of (h.get_records_by_name_and_zone zone.id domain qtype))
    unfolding zone_stage
    zone_stage-code zone client resp s found exists =
        elim (Result-cases (h.get_records_by_name_and_zone zone.id domain qtype)) [
          | inl failed ↦ rw (zone_stage, found, failed) (unfold respond_untimed emit in refl)
          | inr (records, read) ↦
              rw (zone_stage, found, read)
                (zone_records_stage-code zone (zone_of p h domain)
                  (chained p h t remote req q domain qtype zone client records) resp
                  (emit_targets (chained_calls p h t remote req q domain qtype zone client records)
                    s)
                  exists)
        ]

  question_stage-code :
      (qs : List Question) (q : Question) (others : List Question) (s : World IP) (zone : Zone)
      → qs ≡ q ∷ others
      → ReachesZones p h t remote req q s.cache
      → h.get_zone_by_name (zone_of p h (to_lower q.name)) ≡ ok (some zone)
      → h.domain_exists_in_zone zone.id (to_lower q.name) ≡ ok true
      → last_code (
          question_stage p h t remote req qs
            (first_reply p h t remote req)
            (emit_if h.has_stats total s))
        ≡ some (
            code_of
              (h.get_records_by_name_and_zone zone.id (to_lower q.name) (p.type_to_string q.qtype)))
  question_stage-code qs q others s zone first reaches found exists =
      rw
        (
          first,
          question_stage-zones p h t remote req q others (first_reply p h t remote req) s reaches,
        )
        (zone_stage-code q (to_lower q.name) (p.type_to_string q.qtype) zone _
          (first_reply p h t remote req) (arrived p h t remote req q s) found exists)

  -- A name of a zone that has a record of any type, its own or that of a wildcard, is never denied:
  -- a query for it, of any type, is answered NOERROR, or SERVFAIL where the records of the type
  -- cannot be read. The query reaches the zones, that of the name is found, and a name with a
  -- record is one that exists for the storage.
  pub serve_dns-code :
      (q : Question) (others : List Question) (s : World IP) (zone : Zone) (kind : Text)
      (r : Record) (rs : List Record)
      → RecordLaws p h
      → req.question ≡ q ∷ others
      → ReachesZones p h t remote req q s.cache
      → h.get_zone_by_name (zone_of p h (to_lower q.name)) ≡ ok (some zone)
      → h.get_records_by_name_and_zone zone.id (to_lower q.name) kind ≡ ok (r ∷ rs)
      → last_code (serve_dns p h t remote req s)
        ≡ some (
            code_of
              (h.get_records_by_name_and_zone zone.id (to_lower q.name) (p.type_to_string q.qtype)))
  unfolding serve_dns
  serve_dns-code q others s zone kind r rs laws first reaches found record_of =
      question_stage-code req.question q others s zone first reaches found
        (laws.exists zone.id (to_lower q.name) kind r rs record_of)

-- A handler that reads the records of a zone from storage/record.go.
unfoldable pub on_storage : {p : Packages} → (ℕ → Result (List Record)) → Handler p → Handler p
on_storage records_of h = record h {
  get_records_by_name_and_zone =
      λ zone name kind. get_records_by_name_and_zone (records_of zone) name kind;
  domain_exists_in_zone = λ zone name. domain_exists_in_zone (records_of zone) name;
}

pub on_storage-RecordLaws :
    {p : Packages} (records_of : ℕ → Result (List Record)) (h : Handler p)
    → RecordLaws p (on_storage records_of h)
unfolding on_storage
on_storage-RecordLaws records_of h = record {
  exists = λ zone name kind r rs. exists_in (records_of zone) name kind r rs;
}
