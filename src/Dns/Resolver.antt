-- ===== src/Dns/Resolver.antt =====
-- `Resolver` of dns/resolver.go: a query goes to all upstream servers at once, and the first
-- good answer counts.
use dns_go.Base.{
  ℕ, Bool, ◌||◌, List, [], ◌∷◌, Result, ok, err, if◌then◌else◌, nat_eq, ◌==◌, In, ◌≡◌, refl, inl,
  inr, ◌↔◌,
}
use dns_go.Base.Text.{Text, codes, text_eq}

-- What the resolver reads of an upstream server (model/upstream.go).
pub record UpstreamServer : Type 0 where
  pub id : ℕ
  pub name : Text
  pub address : Text
  pub protocol : Text

-- A DNS client: `exchange` sends a message over a protocol to an address.
pub record Client : Type 1 where
  pub Msg : Type 0
  pub exchange : Text → Text → Msg → Result Msg

abbrev is_supported : Text → Bool
is_supported protocol =
    protocol == codes "udp" || (protocol == codes "tcp" || protocol == codes "tcp-tls")

module _ (c : Client) where
  open c use {Msg, exchange}

  unfoldable pub forward_to_server : UpstreamServer → Msg → Result Msg
  forward_to_server server req =
      if is_supported server.protocol then exchange server.protocol server.address req else err

  -- The loop over the channel: the servers stand in the order in which they answer.
  unfoldable pub first_success : List UpstreamServer → Msg → Result Msg
  first_success [] req = err
  first_success (s ∷ servers) req = elim (forward_to_server s req) [
    | ok resp ↦ ok resp
    | err ↦ first_success servers req
  ]

  -- `Forward` on the list of enabled servers; `arrivals` puts several servers in the order in
  -- which they answer.
  unfoldable pub forward :
      (List UpstreamServer → List UpstreamServer) → Result (List UpstreamServer) → Msg → Result Msg
  forward arrivals err req = err
  forward arrivals (ok []) req = err
  forward arrivals (ok (s ∷ [])) req = forward_to_server s req
  forward arrivals (ok (s ∷ t ∷ servers)) req = first_success (arrivals (s ∷ t ∷ servers)) req

  -- A good answer of one of the servers, or an error where each of them has failed.
  abbrev pub Answers : List UpstreamServer → Msg → Result Msg → Type 0
  Answers servers req (ok resp) =
      (s : UpstreamServer) × In s servers × (forward_to_server s req ≡ ok resp)
  Answers servers req err = (s : UpstreamServer) → In s servers → forward_to_server s req ≡ err

  Answers-cons :
      (s : UpstreamServer) (servers : List UpstreamServer) (req : Msg) (r : Result Msg)
      → forward_to_server s req ≡ err
      → Answers servers req r
      → Answers (s ∷ servers) req r
  Answers-cons s servers req (ok resp) e (t, at, good) = (t, inr at, good)
  Answers-cons s servers req err e h =
      λ t at. elim at [ inl same ↦ rw same e | inr there ↦ h t there ]

  first_success-Answers :
      (servers : List UpstreamServer) (req : Msg) → Answers servers req (first_success servers req)
  unfolding first_success
  first_success-Answers [] req = λ s at. absurd at
  first_success-Answers (s ∷ servers) req =
      go (first_success-Answers servers req) (forward_to_server s req) refl
    where
      go :
          Answers servers req (first_success servers req)
          → (r : Result Msg) → forward_to_server s req ≡ r
          → Answers (s ∷ servers) req (first_success (s ∷ servers) req)
      go rest (ok resp) e = rw (first_success, e) (s, inl refl, e)
      go rest err e =
          rw (first_success, e) (Answers-cons s servers req (first_success servers req) e rest)

  Answers-In :
      (servers others : List UpstreamServer) (req : Msg) (r : Result Msg)
      → ((s : UpstreamServer) → In s servers ↔ In s others)
      → Answers others req r
      → Answers servers req r
  Answers-In servers others req (ok resp) same (s, at, good) = (s, (same s).1 at, good)
  Answers-In servers others req err same h = λ s at. h s ((same s).0 at)

  -- `Forward` answers with what some enabled server answered, and with an error only where every
  -- one of them has failed: in whatever order the servers answer, each of them once.
  pub forward-Answers :
      (arrivals : List UpstreamServer → List UpstreamServer) (servers : List UpstreamServer)
      (req : Msg)
      → ((s : UpstreamServer) → In s servers ↔ In s (arrivals servers))
      → Answers servers req (forward arrivals (ok servers) req)
  unfolding forward
  forward-Answers arrivals [] req same = λ s at. absurd at
  forward-Answers arrivals (s ∷ []) req same = go (forward_to_server s req) refl
    where
      go :
          (r : Result Msg)
          → forward_to_server s req ≡ r
          → Answers (s ∷ []) req (forward arrivals (ok (s ∷ [])) req)
      go (ok resp) e = rw (forward, e) (s, inl refl, e)
      go err e =
          rw (forward, e) (λ t at. elim at [ inl here ↦ rw here e | inr never ↦ absurd never ])
  forward-Answers arrivals (s ∷ t ∷ servers) req same =
      Answers-In (s ∷ t ∷ servers) (arrivals (s ∷ t ∷ servers)) req _ same
        (first_success-Answers (arrivals (s ∷ t ∷ servers)) req)
