-- ===== src/Dns/Serve/Passes.antt =====
-- The way of a query through `ServeDNS` of dns/handler.go to the upstream servers, where every
-- part before them passes it on.
use dns_go.Base.{
  ◌+◌, ◌<◌, ◌≤◌, length, keep, Bool, true, false, List, [], ◌∷◌, Option, nat_eq, ◌==◌, ◌≡◌, refl,
  ◌∙◌, arith, inl, inr, ◌↔◌,
}
use dns_go.Base.Text.{Text, text_eq, to_lower}
use dns_go.Cache.{Cache}
use dns_go.Dns.Message.{Rr, Question, Msg, Packages, class_chaos, type_any}
use dns_go.Dns.Serve.Back.{upstream_stage, zone_stage, chained_calls}
use dns_go.Dns.Serve.{blocks, question_stage, first_reply, serve_dns}
use dns_go.Dns.Serve.State.{
  Event, Remote, Handler, World, Times, emit, emit_if, set_cache, total, l1_miss, tracked,
}
use dns_go.Dns.Serve.Forward.{
  asks, is_asked, push_targets-asks, ZonesSilent, Leaves, EngineSilent, CacheSilent, IsForwarded,
  IsSent, LeavesWith, zone_client,
}
use dns_go.Dns.Serve.Asks.{respond-asks, serve_dns-asks}
use dns_go.Dns.Serve.Passing.{
  walked, zone_stage-passes, zone_stage-Chases, looked, lookup_stage-zones,
}

module _ (p : Packages) (h : Handler p) (t : Times) (remote : Option Remote) (req : Msg p.IP) where
  open p use {IP}

  -- The world in which the zones are read.
  abbrev pub arrived : Question → World IP → World IP
  arrived q s =
      let domain = to_lower q.name in
      let qtype = p.type_to_string q.qtype in
      let counted = emit_if h.has_tracker (tracked domain) (emit_if h.has_stats total s) in
      record (emit_if h.has_stats l1_miss counted) {
        cache = looked p h t remote req q domain qtype s.cache;
      }

  -- A query for which the zones are read: of a common class and type, with nothing stored for it,
  -- not blocked, and without an answer of the engine.
  pub record ReachesZones (q : Question) (cache : Option (Cache (Rr IP))) : Type 0 where
    pub not_chaos : (q.qclass == class_chaos) ≡ false
    pub not_any : (q.qtype == type_any) ≡ false
    pub not_stored :
        CacheSilent p h t remote req q (to_lower q.name) (p.type_to_string q.qtype) cache
    pub not_blocked :
        blocks p h t remote req q (to_lower q.name) (p.type_to_string q.qtype) h.is_blocked ≡ false
    pub not_balanced :
        EngineSilent p h t remote req q (to_lower q.name) (p.type_to_string q.qtype) h.gslb

  pub question_stage-zones :
      (q : Question) (others : List Question) (resp : Msg IP) (s : World IP)
      → ReachesZones q s.cache
      → question_stage p h t remote req (q ∷ others) resp (emit_if h.has_stats total s)
        ≡ zone_stage p h t remote req q
            (to_lower q.name)
            (p.type_to_string q.qtype)
            (zone_client p h t remote req q (to_lower q.name) (p.type_to_string q.qtype) h.gslb)
            resp
            (arrived q s)
  unfolding question_stage emit_if
  question_stage-zones q others resp s on =
      rw (on.not_chaos, on.not_any)
        (lookup_stage-zones p h t remote req q (to_lower q.name) (p.type_to_string q.qtype)
          on.not_balanced on.not_blocked s.cache resp
          (emit_if h.has_tracker (tracked (to_lower q.name)) (emit_if h.has_stats total s)) refl
          on.not_stored)

  -- The world in which the upstream servers are asked.
  abbrev pub left : (q : Question) (s : World IP) → LeavesWith p h t remote req q s.cache → World IP
  left q s on = record (arrived q s) {
    events =
        walked p h t remote req q (to_lower q.name) (p.type_to_string q.qtype)
          (zone_client p h t remote req q (to_lower q.name) (p.type_to_string q.qtype) h.gslb)
          on.passed_on.not_served (arrived q s).events;
  }

  pub question_stage-passes :
      (q : Question) (others : List Question) (resp : Msg IP) (s : World IP)
      (on : LeavesWith p h t remote req q s.cache)
      → question_stage p h t remote req (q ∷ others) resp (emit_if h.has_stats total s)
        ≡ upstream_stage p h t remote req q
            (to_lower q.name)
            (p.type_to_string q.qtype)
            resp
            (left q s on)
  question_stage-passes q others resp s on =
      question_stage-zones q others resp s (record {
        not_chaos = on.not_chaos;
        not_any = on.not_any;
        not_stored = on.passed_on.not_stored;
        not_blocked = on.passed_on.not_blocked;
        not_balanced = on.passed_on.not_balanced;
      })
      ∙ zone_stage-passes p h t remote req q (to_lower q.name) (p.type_to_string q.qtype) _ resp
          (arrived q s) on.passed_on.not_served on.passed_on.may_leave

  walked-asks :
      (q : Question) (domain qtype : Text) (client : Option IP)
      (silent : ZonesSilent p h t remote req q domain qtype client) (es : List (Event IP))
      → length (keep (is_asked false) (walked p h t remote req q domain qtype client silent es))
        ≡ length (keep (is_asked false) es)
  walked-asks q domain qtype client (inl missing) es = refl
  walked-asks q domain qtype client (inr (zone, found, passes)) es =
      (push_targets-asks (chained_calls p h t remote req q domain qtype zone client []) es).0

  walked-grows :
      (q : Question) (domain qtype : Text) (client : Option IP)
      (silent : ZonesSilent p h t remote req q domain qtype client) (es : List (Event IP))
      → length (keep (is_asked true) es)
        ≤ length (keep (is_asked true) (walked p h t remote req q domain qtype client silent es))
  walked-grows q domain qtype client (inl missing) es = ground arith
  walked-grows q domain qtype client (inr (zone, found, passes)) es =
      let calls = chained_calls p h t remote req q domain qtype zone client [] in
      let more = (push_targets-asks calls es).1 in omega (arith, more)

  upstream_stage-asks :
      (targets : Bool) (q : Question) (domain qtype : Text) (resp : Msg IP) (s : World IP)
      → asks targets (upstream_stage p h t remote req q domain qtype resp s) ≡ asks targets s + 1
  unfolding upstream_stage set_cache emit emit_if
  upstream_stage-asks targets q domain qtype resp s =
      let timed = respond-asks p h t remote req targets in grind (arith, timed)

  forwarded :
      (qs : List Question) (resp : Msg IP) (s : World IP)
      → IsForwarded p h t remote req qs s.cache
      → asks false s
        < asks false (question_stage p h t remote req qs resp (emit_if h.has_stats total s))
  unfolding emit_if
  forwarded [] resp s on = absurd on
  forwarded (q ∷ others) resp s on = rw (question_stage-passes q others resp s on) (
      ground (
        arith,
        upstream_stage-asks false q (to_lower q.name) (p.type_to_string q.qtype) resp (left q s on),
        walked-asks q (to_lower q.name) (p.type_to_string q.qtype)
            (zone_client p h t remote req q (to_lower q.name) (p.type_to_string q.qtype) h.gslb)
            on.passed_on.not_served (arrived q s).events,
      ))

  -- Without a target, what is sent is the query.
  query_alone :
      (qs : List Question) (cache : Option (Cache (Rr IP)))
      → IsSent p h t remote req false qs cache
      → IsForwarded p h t remote req qs cache
  query_alone [] cache on = on
  query_alone (q ∷ others) cache on = go on.sends.leaves
    where
      go :
          Leaves p h t remote req q
            (to_lower q.name)
            (p.type_to_string q.qtype)
            false
            (zone_client p h t remote req q (to_lower q.name) (p.type_to_string q.qtype) h.gslb)
          → LeavesWith p h t remote req q cache
      go (inl (never, chases)) = absurd (ground (arith, never))
      go (inr (silent, leave)) = record {
        not_chaos = on.not_chaos;
        not_any = on.not_any;
        passed_on = record {
          not_stored = on.sends.not_stored;
          not_blocked = on.sends.not_blocked;
          not_balanced = on.sends.not_balanced;
          not_served = silent;
          may_leave = leave;
        };
      }

  sent :
      (qs : List Question) (resp : Msg IP) (s : World IP)
      → IsSent p h t remote req true qs s.cache
      → asks true s
        < asks true (question_stage p h t remote req qs resp (emit_if h.has_stats total s))
  unfolding emit_if
  sent [] resp s on = absurd on
  sent (q ∷ others) resp s on = go on.sends.leaves
    where
      go :
          Leaves p h t remote req q
            (to_lower q.name)
            (p.type_to_string q.qtype)
            true
            (zone_client p h t remote req q (to_lower q.name) (p.type_to_string q.qtype) h.gslb)
          → asks true s
            < asks true
                (question_stage p h t remote req (q ∷ others) resp (emit_if h.has_stats total s))
      go (inl (on_targets, chases)) =
          rw
            (question_stage-zones q others resp s (record {
              not_chaos = on.not_chaos;
              not_any = on.not_any;
              not_stored = on.sends.not_stored;
              not_blocked = on.sends.not_blocked;
              not_balanced = on.sends.not_balanced;
            }))
            (ground (
              arith,
              zone_stage-Chases p h t remote req q (to_lower q.name) (p.type_to_string q.qtype)
                  (zone_client p h t remote req q (to_lower q.name) (p.type_to_string q.qtype)
                    h.gslb)
                  resp (arrived q s) chases,
            ))
      go (inr (silent, leave)) =
          let leaves : LeavesWith p h t remote req q s.cache = record {
            not_chaos = on.not_chaos;
            not_any = on.not_any;
            passed_on = record {
              not_stored = on.sends.not_stored;
              not_blocked = on.sends.not_blocked;
              not_balanced = on.sends.not_balanced;
              not_served = silent;
              may_leave = leave;
            };
          } in
          rw (question_stage-passes q others resp s leaves) (
            ground (
              arith,
              upstream_stage-asks true q (to_lower q.name) (p.type_to_string q.qtype) resp
                  (left q s leaves),
              walked-grows q (to_lower q.name) (p.type_to_string q.qtype)
                  (zone_client p h t remote req q (to_lower q.name) (p.type_to_string q.qtype)
                    h.gslb)
                  silent (arrived q s).events,
            ))

  -- A query goes to the upstream servers exactly where nothing in force is stored for it, the name
  -- is not blocked, the engine does not have the domain and gave no address of the type, and there
  -- is no zone of the name, or one with fallback that has no record for it, no end of a chain and
  -- no such name; and the name is no private reverse name and none of local use, the class is not
  -- CHAOS, the type is not ANY, and the client wants recursion. Anything is sent there exactly where
  -- the query is, or where it comes as far as the zones, is for an address, and the name has in its
  -- zone no such record but a CNAME record, for whose target neither the engine nor a zone has one.
  -- Such a target is asked for whether or not the zone has fallback and the client wants recursion.
  pub serve_dns-IsForwarded :
      (s : World IP)
      → ((asks false s < asks false (serve_dns p h t remote req s))
          ↔ IsForwarded p h t remote req req.question s.cache)
        × ((asks true s < asks true (serve_dns p h t remote req s))
            ↔ IsSent p h t remote req true req.question s.cache)
  unfolding serve_dns
  serve_dns-IsForwarded s = (
    (
      (λ more. query_alone req.question s.cache (serve_dns-asks p h t remote req false s more)),
      forwarded req.question (first_reply p h t remote req) s,
    ),
    (serve_dns-asks p h t remote req true s, sent req.question (first_reply p h t remote req) s),
  )
