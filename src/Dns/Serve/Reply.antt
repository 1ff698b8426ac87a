-- ===== src/Dns/Serve/Reply.antt =====
-- `ServeDNS` of dns/handler.go answers: one message for each query, on every path.
use dns_go.Base.{
  ℕ, ◌+◌, Bool, true, false, List, [], ◌∷◌, Option, if◌then◌else◌, nat_eq, keep, length, ◌≡◌, refl,
  arith,
}
use dns_go.Base.Text.{Text, text_eq}
use dns_go.Cache.{Cache}
use dns_go.Dns.Message.{Rr, Question, Msg, Packages}
use dns_go.Dns.Serve.Back.{
  upstream_stage, local_stage, no_record_stage, zone_records_stage, zone_answer, zone_stage,
}
use dns_go.Dns.Serve.{
  gslb_empty_stage, engine_stage, blocked_stage, count_blocked, adblock_stage, found_stage,
  lookup_stage, question_stage, serve_dns,
}
use dns_go.Dns.Serve.State.{
  Event, asked_target, emit_targets, logged, wrote, Remote, Gslb, Handler, World, Times, emit,
  emit_if, log_query, respond, respond_untimed, set_cache,
}
use dns_go.Storage.Types.{Record, Zone}

module _ {IP : Type 0} where
  abbrev pub is_wrote : Event IP → Bool
  is_wrote (wrote m) = true
  is_wrote _ = false

  abbrev pub is_logged : Event IP → Bool
  is_logged (logged e) = true
  is_logged _ = false

  -- How many messages were written, and how many entries logged.
  abbrev pub writes : World IP → ℕ
  writes s = length (keep is_wrote s.events)

  abbrev pub logs : World IP → ℕ
  logs s = length (keep is_logged s.events)

  -- The calls for targets write and log nothing.
  emit_targets-quiet :
      (ms : List (Msg IP)) (s : World IP)
      → (writes (emit_targets ms s) ≡ writes s) × (logs (emit_targets ms s) ≡ logs s)
  unfolding emit_targets
  emit_targets-quiet [] s = (refl, refl)
  emit_targets-quiet (m ∷ ms) s =
      emit_targets-quiet ms (record s { events = asked_target m ∷ s.events })

module _ (p : Packages) (h : Handler p) (t : Times) (remote : Option Remote) (req : Msg p.IP) where
  open p use {IP}

  -- An entry for a query with a question, where there is a log.
  abbrev pub entries : ℕ
  entries = if h.has_log then (elim req.question [ [] ↦ 0 | _ ↦ 1 ]) else 0

  abbrev Quiet : World IP → World IP → Type 0
  Quiet s' s = (writes s' ≡ writes s) × (logs s' ≡ logs s)

  abbrev pub Answered : World IP → World IP → Type 0
  Answered out s = (writes out ≡ writes s + 1) × (logs out ≡ logs s + entries)

  log_query-writes :
      (resp : Msg IP) (source : Text) (s : World IP)
      → (writes (log_query p h t remote req resp source s) ≡ writes s)
        × (logs (log_query p h t remote req resp source s) ≡ logs s + entries)
  unfolding log_query emit
  log_query-writes resp source s = ground arith

  respond-Answered :
      (qtype source : Text) (resp : Msg IP) (s : World IP)
      → Answered (respond p h t remote qtype source req resp s) s
  unfolding respond emit
  respond-Answered qtype source resp s = grind (arith, log_query-writes)

  respond_untimed-Answered :
      (qtype source : Text) (resp : Msg IP) (s : World IP)
      → Answered (respond_untimed p h t remote qtype source req resp s) s
  unfolding respond_untimed emit
  respond_untimed-Answered qtype source resp s = grind (arith, log_query-writes)

  module _ (q : Question) (domain qtype : Text) where
    upstream_stage-Answered :
        (resp : Msg IP) (s : World IP)
        → Answered (upstream_stage p h t remote req q domain qtype resp s) s
    unfolding upstream_stage set_cache emit emit_if
    upstream_stage-Answered resp s = grind (arith, respond-Answered)

    local_stage-Answered :
        (resp : Msg IP) (s : World IP)
        → Answered (local_stage p h t remote req q domain qtype resp s) s
    unfolding local_stage set_cache
    local_stage-Answered resp s =
        grind (arith, respond-Answered, respond_untimed-Answered, upstream_stage-Answered)

    no_record_stage-Answered :
        (zone : Zone) (zone_name : Text) (resp : Msg IP) (s : World IP)
        → Answered (no_record_stage p h t remote req q domain qtype zone zone_name resp s) s
    unfolding no_record_stage set_cache
    no_record_stage-Answered zone zone_name resp s =
        grind (arith, respond-Answered, local_stage-Answered)

    zone_records_stage-Answered :
        (zone : Zone) (zone_name : Text) (records : List Record × Bool) (resp : Msg IP)
        (s : World IP)
        → Answered
            (zone_records_stage p h t remote req q domain qtype zone zone_name records resp s)
            s
    unfolding zone_records_stage zone_answer set_cache
    zone_records_stage-Answered zone zone_name ([], via_gslb) resp s =
        no_record_stage-Answered zone zone_name resp s
    zone_records_stage-Answered zone zone_name (r ∷ rs, via_gslb) resp s =
        grind (arith, respond-Answered)

    zone_stage-Answered :
        (client : Option IP) (resp : Msg IP) (s : World IP)
        → Answered (zone_stage p h t remote req q domain qtype client resp s) s
    unfolding zone_stage
    zone_stage-Answered client resp s = grind (
      arith, respond_untimed-Answered, local_stage-Answered, zone_records_stage-Answered,
      emit_targets-quiet,
    )

    engine_stage-Answered :
        (engine : Option (Gslb IP)) (resp : Msg IP) (s : World IP)
        → Answered (engine_stage p h t remote req q domain qtype engine resp s) s
    unfolding engine_stage gslb_empty_stage set_cache
    engine_stage-Answered engine resp s = grind (arith, respond-Answered, zone_stage-Answered)

    blocked_stage-Answered :
        (resp : Msg IP) (s : World IP)
        → Answered (blocked_stage p h t remote req q domain qtype resp s) s
    unfolding blocked_stage count_blocked set_cache emit emit_if
    blocked_stage-Answered resp s = grind (arith, respond-Answered)

    lookup_stage-Answered :
        (cache : Option (Cache (Rr IP))) (resp : Msg IP) (s : World IP)
        → Answered (lookup_stage p h t remote req q domain qtype cache resp s) s
    unfolding lookup_stage found_stage adblock_stage emit emit_if
    lookup_stage-Answered cache resp s =
        grind (arith, respond-Answered, blocked_stage-Answered, engine_stage-Answered)

  -- Each query is answered by exactly one message, on every path, and where there is a log and the
  -- query has a question, exactly one entry is logged for it, and else none.
  pub serve_dns-Answered : (s : World IP) → Answered (serve_dns p h t remote req s) s
  unfolding serve_dns question_stage emit emit_if
  serve_dns-Answered s =
      grind (arith, log_query-writes, respond_untimed-Answered, lookup_stage-Answered)
