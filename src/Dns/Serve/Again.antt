-- ===== src/Dns/Serve/Again.antt =====
-- What `ServeDNS` of dns/handler.go answers from the cache, after an answer of the upstream servers
-- was stored there, or their failure.
use dns_go.Base.{
  ℕ, zero, suc, ◌+◌, ◌*◌, ◌≤◌, ◌<◌, Bool, true, false, List, [], ◌∷◌, Option, some, ok, err,
  if◌then◌else◌, nat_eq, ◌==◌, ◌≡◌, refl, ap, ◌∙◌, arith,
}
use dns_go.Base.Text.{Text, to_lower}
use dns_go.Base.Word.{half}
use dns_go.Cache
use dns_go.Cache.{Cache, Entry}
use dns_go.Cache.Run.{get_call, perform, perform-IsValid}
use dns_go.Cache.Size.{IsValid}
use dns_go.Cache.Store.{effective}
use dns_go.Dns.Message.{Rr, Question, Msg, Packages, rcode_success}
use dns_go.Dns.Serve.Back.{upstream_stage, name_error}
use dns_go.Dns.Serve.{question_stage, first_reply, serve_dns}
use dns_go.Dns.Serve.Forward.{LeavesWith}
use dns_go.Dns.Serve.Passing.{looked}
use dns_go.Dns.Serve.Passes.{left, question_stage-passes}
use dns_go.Dns.Serve.State.{wrote, total, Remote, Handler, World, Times, emit_if, zone_of}
use dns_go.Dns.Serve.Stored.{
  last_event, answer_ttl, AnswersWith, stored_reply, upstream_stage-stored, upstream_stage-failed,
  upstream_stage-name_error, question_stage-hit,
}

-- A lookup leaves the settings of the cache alone.
get-settings :
    {A : Type 0} (now : ℕ) (domain qtype : Text) (c : Cache A)
    → ((Cache.get now domain qtype c).0.default_ttl ≡ c.default_ttl)
      × ((Cache.get now domain qtype c).0.negative_ttl ≡ c.negative_ttl)
unfolding Cache.get Cache.get_round Cache.touch Cache.check_prefetch Cache.drop_if_current
    Cache.drop_key
get-settings now domain qtype c = ground arith

-- How long an answer with a time to live is kept.
abbrev pub kept_for : ℕ → ℕ → ℕ
kept_for default_ttl ttl = if ttl == 0 then default_ttl else ttl

effective-kept_for :
    {A : Type 0} (c : Cache A) (ttl : ℕ)
    → (effective c ttl false ≡ kept_for c.default_ttl ttl) × (effective c 0 true ≡ c.negative_ttl)
unfolding effective
effective-kept_for c zero = (refl, refl)
effective-kept_for c (suc n) = (ground arith, refl)

module _ (p : Packages) (h h' : Handler p) (t t' : Times) (remote remote' : Option Remote)
    (req : Msg p.IP) where
  open p use {IP}

  again :
      (qs : List Question) (q : Question) (others : List Question) (rrs : List (Rr IP)) (ttl : ℕ)
      (negative : Bool) (c : Cache (Rr IP)) (resp : Msg IP) (s : World IP)
      → qs ≡ q ∷ others
      → (q.qclass == 3) ≡ false
      → (q.qtype == 255) ≡ false
      → s.cache
        ≡ some (Cache.set t.stored (to_lower q.name) (p.type_to_string q.qtype) rrs ttl negative c)
      → IsValid c
      → effective c ttl negative * 1000000000 < half
      → t'.looked_up ≤ t.stored + effective c ttl negative * 1000000000
      → AnswersWith p h' t' remote' req
          (stored_reply p h' t' remote' req (to_lower q.name) rrs negative resp)
          (question_stage p h' t' remote' req qs resp (emit_if h'.has_stats total s))
          s
  again qs q others rrs ttl negative c resp s first inet one held v small early = rw first (
      question_stage-hit p h' t' remote' req q others t.stored rrs ttl negative c resp s inet one
        held v small early)

  arrived_at :
      (qs : List Question) (q : Question) (others : List Question) (s : World IP)
      → qs ≡ q ∷ others
      → (leaves : LeavesWith p h t remote req q s.cache)
      → question_stage p h t remote req qs
          (first_reply p h t remote req)
          (emit_if h.has_stats total s)
        ≡ upstream_stage p h t remote req q
            (to_lower q.name)
            (p.type_to_string q.qtype)
            (first_reply p h t remote req)
            (left p h t remote req q s leaves)
  arrived_at qs q others s first leaves =
      rw first
        (question_stage-passes p h t remote req q others (first_reply p h t remote req) s leaves)

  module _ (q : Question) (others : List Question) (s : World IP) (c : Cache (Rr IP))
      (first : req.question ≡ q ∷ others) (held : s.cache ≡ some c) (v : IsValid c)
      (leaves : LeavesWith p h t remote req q s.cache) where
    -- The cache when the upstream servers are asked.
    looked_up : Cache (Rr IP)
    looked_up = (Cache.get t.looked_up (to_lower q.name) (p.type_to_string q.qtype) c).0

    looked_up-IsValid : IsValid looked_up
    unfolding looked_up
    looked_up-IsValid =
        unfold perform in
        perform-IsValid (get_call t.looked_up (to_lower q.name) (p.type_to_string q.qtype)) c v

    arrived-cache : (left p h t remote req q s leaves).cache ≡ some looked_up
    unfolding looked_up
    arrived-cache = ap (looked p h t remote req q (to_lower q.name) (p.type_to_string q.qtype)) held

    -- What the upstream servers answered is answered again from the cache, and nobody is asked, for
    -- its lowest time to live, or for the default one where that is 0: whatever the parts of the
    -- handler would answer by then, for any sender and with any settings. The first query had a
    -- question, found a valid cache, and was sent on; and the time is below 2 ^ 63 nanoseconds.
    pub serve_dns-again :
        (m : Msg IP) (rr : Rr IP) (rrs : List (Rr IP))
        → h.forward req ≡ ok m
        → m.answer ≡ rr ∷ rrs
        → kept_for c.default_ttl (answer_ttl p h t remote req m) * 1000000000 < half
        → t'.looked_up
          ≤ t.stored + kept_for c.default_ttl (answer_ttl p h t remote req m) * 1000000000
        → AnswersWith p h' t' remote' req
            (record (first_reply p h' t' remote' req) { answer = m.answer; rcode = rcode_success })
            (serve_dns p h' t' remote' req (serve_dns p h t remote req s))
            (serve_dns p h t remote req s)
    unfolding serve_dns looked_up
    serve_dns-again m rr rrs sent answer small early =
        let ttl = answer_ttl p h t remote req m in
        let kept : effective looked_up ttl false ≡ kept_for c.default_ttl ttl = grind (
          arith,
          effective-kept_for looked_up ttl,
          get-settings t.looked_up (to_lower q.name) (p.type_to_string q.qtype) c,
        ) in
        again req.question q others m.answer ttl false looked_up (first_reply p h' t' remote' req)
          (serve_dns p h t remote req s) first leaves.not_chaos leaves.not_any
          (ap (λ (w : World IP). w.cache) (arrived_at req.question q others s first leaves)
            ∙ upstream_stage-stored p h t remote req q (to_lower q.name) (p.type_to_string q.qtype)
                (first_reply p h t remote req) (left p h t remote req q s leaves) looked_up m rr rrs
                arrived-cache sent answer)
          looked_up-IsValid (rw kept small) (rw kept early)

    -- A query that was sent on and failed is answered NXDOMAIN, and so is the next one, from the
    -- cache and with nobody asked, for the negative time to live: also if an upstream server, or a
    -- zone that was added, would answer by then. The first query had a question, found a valid
    -- cache, and was sent on; and the time is below 2 ^ 63 nanoseconds.
    pub serve_dns-outage :
        h.forward req ≡ err
        → c.negative_ttl * 1000000000 < half
        → t'.looked_up ≤ t.stored + c.negative_ttl * 1000000000
        → (last_event p h t remote req (serve_dns p h t remote req s)
            ≡ some (
                wrote (
                  name_error p h t remote
                    (zone_of p h (to_lower q.name))
                    (first_reply p h t remote req))))
          × AnswersWith p h' t' remote' req
              (name_error p h' t' remote'
                (zone_of p h' (to_lower q.name))
                (first_reply p h' t' remote' req))
              (serve_dns p h' t' remote' req (serve_dns p h t remote req s))
              (serve_dns p h t remote req s)
    unfolding serve_dns looked_up
    serve_dns-outage failed small early =
        let kept : effective looked_up 0 true ≡ c.negative_ttl = grind (
          arith,
          effective-kept_for looked_up 0,
          get-settings t.looked_up (to_lower q.name) (p.type_to_string q.qtype) c,
        ) in
        (
          ap (λ (w : World IP). last_event p h t remote req w)
                (arrived_at req.question q others s first leaves)
              ∙ upstream_stage-name_error p h t remote req q (to_lower q.name)
                  (p.type_to_string q.qtype) (first_reply p h t remote req)
                  (left p h t remote req q s leaves) failed,
          again req.question q others [] 0 true looked_up (first_reply p h' t' remote' req)
              (serve_dns p h t remote req s) first leaves.not_chaos leaves.not_any
              (ap (λ (w : World IP). w.cache) (arrived_at req.question q others s first leaves)
                ∙ upstream_stage-failed p h t remote req q (to_lower q.name)
                    (p.type_to_string q.qtype) (first_reply p h t remote req)
                    (left p h t remote req q s leaves) looked_up arrived-cache failed)
              looked_up-IsValid (rw kept small) (rw kept early),
        )
