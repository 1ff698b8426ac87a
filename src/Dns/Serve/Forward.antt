-- ===== src/Dns/Serve/Forward.antt =====
-- Which queries `ServeDNS` of dns/handler.go sends on to the upstream servers.
use dns_go.Base.{
  ℕ, Bool, true, false, List, [], ◌∷◌, Option, none, some, ok, err, nat_eq, ◌==◌, keep, length,
  ◌||◌, ◌≡◌, refl, ◌⊎◌, ◌+◌, arith,
}
use dns_go.Base.Text.{Text, codes, text_eq, to_lower}
use dns_go.Cache
use dns_go.Cache.{Cache, Entry}
use dns_go.Dns.Chain.Calls.{LeadsOut}
use dns_go.Dns.Local.{private_ipv4_reverse_zone, local_use_response}
use dns_go.Dns.Message.{Rr, Question, Msg, Packages, class_chaos, type_any}
use dns_go.Dns.Serve.Back.{chained, or_false}
use dns_go.Dns.Serve.{gslb_answers, blocks}
use dns_go.Dns.Serve.State.{
  Event, Remote, Gslb, Handler, World, Times, client_ip, zone_of, sources, asked, asked_target,
  push_targets,
}
use dns_go.Storage.Types.{Zone}

module _ {IP : Type 0} where
  -- A call of `Forward` for the query itself and, where `targets` holds, one for the target of a CNAME
  -- record.
  abbrev pub is_asked : Bool → Event IP → Bool
  is_asked targets (asked m) = true
  is_asked targets (asked_target m) = targets
  is_asked targets _ = false

  -- How often `Forward` was called: `asks false` counts the calls for a query itself, and `asks true`
  -- all of them.
  abbrev pub asks : Bool → World IP → ℕ
  asks targets s = length (keep (is_asked targets) s.events)

  pub push_targets-asks :
      (ms : List (Msg IP)) (es : List (Event IP))
      → (length (keep (is_asked false) (push_targets ms es)) ≡ length (keep (is_asked false) es))
        × (length (keep (is_asked true) (push_targets ms es))
            ≡ length (keep (is_asked true) es) + length ms)
  push_targets-asks [] es = (refl, ground arith)
  push_targets-asks (m ∷ ms) es = ground (arith, push_targets-asks ms (asked_target m ∷ es))

module _ (p : Packages) (h : Handler p) (t : Times) (remote : Option Remote) (req : Msg p.IP) where
  open p use {IP}

  module _ (q : Question) (domain qtype : Text) where
    -- The name does not stay here, and the client wants recursion.
    abbrev pub MayLeave : Type 0
    MayLeave =
        (private_ipv4_reverse_zone domain ≡ none)
        × (local_use_response p.loopback4 p.loopback6 domain qtype ≡ none)
        × (req.recursion_desired ≡ true)

    -- A zone that leaves the name to others.
    abbrev pub PassesOn : Option IP → Zone → Type 0
    PassesOn client zone =
        (h.get_records_by_name_and_zone zone.id domain qtype ≡ ok [])
        × ((chained p h t remote req q domain qtype zone client []).0 ≡ [])
        × (zone.allow_fallback ≡ true)
        × (or_false (h.domain_exists_in_zone zone.id domain) ≡ false)

    abbrev pub ZonesSilent : Option IP → Type 0
    ZonesSilent client =
        (h.get_zone_by_name (zone_of p h domain) ≡ ok none)
        ⊎ ((zone : Zone) × (h.get_zone_by_name (zone_of p h domain) ≡ ok (some zone))
            × PassesOn client zone)

    -- A query for an address of a name whose zone has no such record but a CNAME record for it, whose
    -- target has one neither in the engine nor in a zone.
    abbrev pub Chases : Option IP → Type 0
    Chases client =
        (zone : Zone) × (h.get_zone_by_name (zone_of p h domain) ≡ ok (some zone))
        × (h.get_records_by_name_and_zone zone.id domain qtype ≡ ok [])
        × ((qtype == codes "A" || qtype == codes "AAAA") ≡ true)
        × LeadsOut (sources p h client) zone.id qtype domain

    -- What the zones send to the upstream servers: a target, or the query itself.
    abbrev pub Leaves : Bool → Option IP → Type 0
    Leaves targets client = ((targets ≡ true) × Chases client) ⊎ (ZonesSilent client × MayLeave)

    -- The client for which the zones are read; nil without an engine.
    abbrev pub zone_client : Option (Gslb IP) → Option IP
    zone_client none = none
    zone_client (some engine) = client_ip p remote req

    -- The engine does not have the domain, and gave no address of the type.
    abbrev pub EngineSilent : Option (Gslb IP) → Type 0
    EngineSilent none = Unit
    EngineSilent (some engine) =
        (engine.has_domain domain ≡ false)
        × (elim (engine.resolve domain qtype (client_ip p remote req)) [
          | err ↦ Unit
          | ok (ips, ttl) ↦ gslb_answers p h t remote req q domain qtype ttl ips ≡ []
        ])

    -- Nothing that is in force is stored for the name and the type.
    abbrev pub CacheSilent : Option (Cache (Rr IP)) → Type 0
    CacheSilent none = Unit
    CacheSilent (some c) = (Cache.get t.looked_up domain qtype c).1 ≡ none

    -- Every part before the upstream servers passes on the name.
    pub record PassedOn (cache : Option (Cache (Rr IP))) : Type 0 where
      pub not_stored : CacheSilent cache
      pub not_blocked : blocks p h t remote req q domain qtype h.is_blocked ≡ false
      pub not_balanced : EngineSilent h.gslb
      pub not_served : ZonesSilent (zone_client h.gslb)
      pub may_leave : MayLeave

    -- Every part before the zones passes on the name, and something leaves there.
    pub record Sends (targets : Bool) (cache : Option (Cache (Rr IP))) : Type 0 where
      pub not_stored : CacheSilent cache
      pub not_blocked : blocks p h t remote req q domain qtype h.is_blocked ≡ false
      pub not_balanced : EngineSilent h.gslb
      pub leaves : Leaves targets (zone_client h.gslb)

  -- The first question of a query for which something leaves.
  pub record SendsWith (targets : Bool) (q : Question) (cache : Option (Cache (Rr IP)))
      : Type 0 where
    pub not_chaos : (q.qclass == class_chaos) ≡ false
    pub not_any : (q.qtype == type_any) ≡ false
    pub sends : Sends q (to_lower q.name) (p.type_to_string q.qtype) targets cache

  abbrev pub IsSent : Bool → List Question → Option (Cache (Rr IP)) → Type 0
  IsSent targets [] cache = ⊥
  IsSent targets (q ∷ others) cache = SendsWith targets q cache

  -- The first question of a query that is sent on.
  pub record LeavesWith (q : Question) (cache : Option (Cache (Rr IP))) : Type 0 where
    pub not_chaos : (q.qclass == class_chaos) ≡ false
    pub not_any : (q.qtype == type_any) ≡ false
    pub passed_on : PassedOn q (to_lower q.name) (p.type_to_string q.qtype) cache

  abbrev pub IsForwarded : List Question → Option (Cache (Rr IP)) → Type 0
  IsForwarded [] cache = ⊥
  IsForwarded (q ∷ others) cache = LeavesWith q cache
