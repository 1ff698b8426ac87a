-- ===== src/Dns/Serve/Stored.antt =====
-- What `ServeDNS` of dns/handler.go stores in the answer cache for a query that was sent on, and
-- what it answers where the cache holds an entry.
use mathlib.Core.List.{map}
use dns_go.Base.{
  ℕ, ◌+◌, ◌*◌, ◌≤◌, ◌<◌, Bool, true, false, List, [], ◌∷◌, Option, none, some, ok, err,
  if◌then◌else◌, nat_eq, ◌==◌, ◌≡◌, refl, sym, arith,
}
use dns_go.Base.Text.{Text, to_lower}
use dns_go.Base.Word.{half}
use dns_go.Cache
use dns_go.Cache.{Cache, Entry}
use dns_go.Cache.Size.{IsValid}
use dns_go.Cache.Store.{effective, AnswersUntil, get-set}
use dns_go.Dns.Message.{Rr, Question, Msg, Packages, rcode_success}
use dns_go.Dns.Serve.Back.{upstream_stage, min_ttl, name_error}
use dns_go.Dns.Serve.{found_stage, lookup_stage, question_stage, cached_reply}
use dns_go.Dns.Serve.Forward.{asks}
use dns_go.Dns.Serve.Asks.{respond-asks}
use dns_go.Dns.Serve.State.{
  Event, wrote, total, tracked, Remote, Handler, World, Times, emit, emit_if, log_query, respond,
  set_cache, zone_of,
}

module _ (p : Packages) (h : Handler p) (t : Times) (remote : Option Remote) (req : Msg p.IP) where
  open p use {IP}

  log_query-cache :
      (resp : Msg IP) (source : Text) (s : World IP)
      → (log_query p h t remote req resp source s).cache ≡ s.cache
  unfolding log_query emit
  log_query-cache resp source s = ground arith

  respond-cache :
      (qtype source : Text) (resp : Msg IP) (s : World IP)
      → (respond p h t remote qtype source req resp s).cache ≡ s.cache
  unfolding respond emit
  respond-cache qtype source resp s = grind (arith, log_query-cache)

  -- The message that was written last.
  abbrev pub last_event : World IP → Option (Event IP)
  last_event s = elim s.events [ [] ↦ none | e ∷ _ ↦ some e ]

  -- The time to live of an answer.
  abbrev pub answer_ttl : Msg IP → ℕ
  answer_ttl m = min_ttl (map (λ r. r.hdr.ttl) m.answer)

  pub upstream_stage-stored :
      (q : Question) (domain qtype : Text) (resp : Msg IP) (s : World IP) (c : Cache (Rr IP))
      (m : Msg IP) (rr : Rr IP) (rrs : List (Rr IP))
      → s.cache ≡ some c
      → h.forward req ≡ ok m
      → m.answer ≡ rr ∷ rrs
      → (upstream_stage p h t remote req q domain qtype resp s).cache
        ≡ some (Cache.set t.stored domain qtype m.answer (answer_ttl m) false c)
  unfolding upstream_stage set_cache emit emit_if
  upstream_stage-stored q domain qtype resp s c m rr rrs held sent answer =
      grind (arith, respond-cache)

  pub upstream_stage-failed :
      (q : Question) (domain qtype : Text) (resp : Msg IP) (s : World IP) (c : Cache (Rr IP))
      → s.cache ≡ some c
      → h.forward req ≡ err
      → (upstream_stage p h t remote req q domain qtype resp s).cache
        ≡ some (Cache.set t.stored domain qtype [] 0 true c)
  unfolding upstream_stage set_cache emit
  upstream_stage-failed q domain qtype resp s c held failed = grind (arith, respond-cache)

  pub upstream_stage-name_error :
      (q : Question) (domain qtype : Text) (resp : Msg IP) (s : World IP)
      → h.forward req ≡ err
      → last_event (upstream_stage p h t remote req q domain qtype resp s)
        ≡ some (wrote (name_error p h t remote (zone_of p h domain) resp))
  unfolding upstream_stage respond emit
  upstream_stage-name_error q domain qtype resp s failed = ground arith

  -- What a world has done since another: a message at last, and no query sent on.
  abbrev pub AnswersWith : Msg IP → World IP → World IP → Type 0
  AnswersWith m out s = (last_event out ≡ some (wrote m)) × (asks true out ≡ asks true s)

  found_stage-some :
      (q : Question) (domain qtype : Text) (e : Entry (Rr IP)) (resp : Msg IP) (s : World IP)
      → AnswersWith
          (cached_reply p h t remote req q domain qtype e resp)
          (found_stage p h t remote req q domain qtype (some e) resp s)
          s
  unfolding found_stage emit_if
  found_stage-some q domain qtype e resp s = (
    unfold respond emit in refl,
    (let timed = respond-asks p h t remote req true in grind (arith, timed)),
  )

  -- The answer of an entry.
  abbrev pub stored_reply : Text → List (Rr IP) → Bool → Msg IP → Msg IP
  stored_reply domain rrs negative resp =
      if negative
      then name_error p h t remote (zone_of p h domain) resp
      else record resp { answer = rrs; rcode = rcode_success }

  cached_reply-stored :
      (q : Question) (domain qtype : Text) (e : Entry (Rr IP)) (rrs : List (Rr IP))
      (negative : Bool) (resp : Msg IP)
      → e.rrs ≡ rrs
      → e.is_negative ≡ negative
      → cached_reply p h t remote req q domain qtype e resp ≡ stored_reply domain rrs negative resp
  unfolding cached_reply
  cached_reply-stored q domain qtype e rrs negative resp same kind = ground arith

  lookup_stage-hit :
      (q : Question) (domain qtype : Text) (now : ℕ) (rrs : List (Rr IP)) (ttl : ℕ)
      (negative : Bool) (c : Cache (Rr IP)) (cache : Option (Cache (Rr IP))) (resp : Msg IP)
      (s : World IP)
      → cache ≡ some (Cache.set now domain qtype rrs ttl negative c)
      → IsValid c
      → effective c ttl negative * 1000000000 < half
      → t.looked_up ≤ now + effective c ttl negative * 1000000000
      → AnswersWith
          (stored_reply domain rrs negative resp)
          (lookup_stage p h t remote req q domain qtype cache resp s)
          s
  unfolding lookup_stage
  lookup_stage-hit q domain qtype now rrs ttl negative c cache resp s held v small early = rw held (
      go (Cache.get t.looked_up domain qtype (Cache.set now domain qtype rrs ttl negative c)).1 refl
        (get-set now t.looked_up domain qtype rrs ttl negative c v small))
    where
      go :
          (found : Option (Entry (Rr IP)))
          → (Cache.get t.looked_up domain qtype (Cache.set now domain qtype rrs ttl negative c)).1
            ≡ found
          → AnswersUntil
              (now + effective c ttl negative * 1000000000)
              t.looked_up
              rrs
              negative
              (Cache.get t.looked_up domain qtype (Cache.set now domain qtype rrs ttl negative c)).1
          → AnswersWith
              (stored_reply domain rrs negative resp)
              (lookup_stage p h t remote req q domain qtype
                (some (Cache.set now domain qtype rrs ttl negative c))
                resp
                s)
              s
      go none e answers =
          let late : now + effective c ttl negative * 1000000000 < t.looked_up = rw e at answers in
          absurd (omega arith)
      go (some entry) e answers =
          let kept : AnswersUntil (now + effective c ttl negative * 1000000000) t.looked_up rrs
              negative (some entry) =
            rw e at answers in
          rw (e, sym (cached_reply-stored q domain qtype entry rrs negative resp kept.1 kept.2))
            (found_stage-some q domain qtype entry resp (record s {
              cache =
                  some
                    (Cache.get t.looked_up domain qtype
                      (Cache.set now domain qtype rrs ttl negative c)).0;
            }))

  pub question_stage-hit :
      (q : Question) (others : List Question) (now : ℕ) (rrs : List (Rr IP)) (ttl : ℕ)
      (negative : Bool) (c : Cache (Rr IP)) (resp : Msg IP) (s : World IP)
      → (q.qclass == 3) ≡ false
      → (q.qtype == 255) ≡ false
      → s.cache
        ≡ some (Cache.set now (to_lower q.name) (p.type_to_string q.qtype) rrs ttl negative c)
      → IsValid c
      → effective c ttl negative * 1000000000 < half
      → t.looked_up ≤ now + effective c ttl negative * 1000000000
      → AnswersWith
          (stored_reply (to_lower q.name) rrs negative resp)
          (question_stage p h t remote req (q ∷ others) resp (emit_if h.has_stats total s))
          s
  unfolding question_stage emit_if
  question_stage-hit q others now rrs ttl negative c resp s inet one held v small early =
      let hit =
        lookup_stage-hit q (to_lower q.name) (p.type_to_string q.qtype) now rrs ttl negative c
          s.cache resp
          (emit_if h.has_tracker (tracked (to_lower q.name)) (emit_if h.has_stats total s)) held v
          small early in
      rw (inet, one) (hit.0, ground (arith, hit.1))
