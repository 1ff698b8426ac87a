-- ===== src/Dns/Chain/Calls.antt =====
-- When the walk along CNAME records of dns/handler.go asks the upstream servers: at its first
-- target or never.
use dns_go.Base.{
  ℕ, suc, Bool, false, List, [], ◌∷◌, Option, none, some, Result, ok, err, contains, ◌≡◌, refl,
  arith, Bool-cases, inl, inr, nat_eq,
}
use dns_go.Base.Text.{Text, text_eq}
use dns_go.Storage.Types.{Record}
use dns_go.Dns.Chain.{
  Sources, Answer, cross_zone_target, local_target, known_target, resolve_target_records,
  target_calls, cname_records, chain_calls, cname_chain_calls, with_dot,
}

module _ (s : Sources) (zone : ℕ) (qtype : Text) where
  -- The name has a CNAME record, and neither the engine nor a zone has a record of the type for its
  -- target.
  abbrev pub LeadsOut : Text → Type 0
  LeadsOut current =
      (cname : Record) × (more : List Record) × (cname_records s zone current ≡ ok (cname ∷ more))
      × (known_target s zone (with_dot cname.content) qtype ≡ ok none)

  -- What is found is never the empty list.
  cross_zone_target-cons :
      (target : Text) (via : Bool) → cross_zone_target s zone target qtype ≡ ok (some ([], via)) → ⊥
  unfolding cross_zone_target
  cross_zone_target-cons target via e = grind (arith, e)

  local_target-cons :
      (target : Text) (via : Bool) → local_target s zone target qtype ≡ ok (some ([], via)) → ⊥
  unfolding local_target
  local_target-cons target via e = grind (arith, e, cross_zone_target-cons target via)

  known_target-cons :
      (target : Text) (via : Bool) → known_target s zone target qtype ≡ ok (some ([], via)) → ⊥
  unfolding known_target
  known_target-cons target via e = grind (arith, e, local_target-cons target via)

  -- A walk that asks for a target asks for its first one.
  chain_calls-LeadsOut :
      (rounds : ℕ) (visited : List Text) (current m : Text) (ms : List Text)
      → chain_calls s (suc rounds) zone qtype visited current ≡ m ∷ ms
      → LeadsOut current
  unfolding chain_calls resolve_target_records target_calls
  chain_calls-LeadsOut rounds visited current m ms e =
      elim (Bool-cases (contains current visited)) [
        | inl met ↦ absurd (let e0 = rw (chain_calls, met) at e in ground (arith, e0))
        | inr new ↦ go (cname_records s zone current) refl new
      ]
    where
      first :
          contains current visited ≡ false
          → (c : Record) (more : List Record) → cname_records s zone current ≡ ok (c ∷ more)
          → (k : Result (Option (List Record × Bool)))
          → known_target s zone (with_dot c.content) qtype ≡ k
          → LeadsOut current
      first new c more e1 (ok none) e2 = (c, more, e1, e2)
      first new c more e1 err e2 =
          let e0 = rw (chain_calls, new, e1, resolve_target_records, target_calls, e2) at e in
          absurd (ground (arith, e0))
      first new c more e1 (ok (some ([], via))) e2 =
          absurd (known_target-cons (with_dot c.content) via e2)
      first new c more e1 (ok (some (r ∷ rs, via))) e2 =
          let e0 = rw (chain_calls, new, e1, resolve_target_records, target_calls, e2) at e in
          absurd (ground (arith, e0))

      go :
          (o : Result (List Record))
          → cname_records s zone current ≡ o
          → contains current visited ≡ false
          → LeadsOut current
      go err e1 new = absurd (let e0 = rw (chain_calls, new, e1) at e in ground (arith, e0))
      go (ok []) e1 new = absurd (let e0 = rw (chain_calls, new, e1) at e in ground (arith, e0))
      go (ok (c ∷ more)) e1 new =
          first new c more e1 (known_target s zone (with_dot c.content) qtype) refl

  chain_calls-first :
      (rounds : ℕ) (visited : List Text) (current : Text) (ask : Text → Text → Result (List Answer))
      → s.forward ≡ some ask
      → contains current visited ≡ false
      → LeadsOut current
      → (m : Text) × (ms : List Text) × (chain_calls s (suc rounds) zone qtype visited current
          ≡ m ∷ ms)
  unfolding chain_calls resolve_target_records target_calls
  chain_calls-first rounds visited current ask there new (c, more, e1, e2) =
      go (resolve_target_records s zone (with_dot c.content) qtype) refl
    where
      go :
          (o : Result (List Record × Bool))
          → resolve_target_records s zone (with_dot c.content) qtype ≡ o
          → (m : Text) × (ms : List Text) × (chain_calls s (suc rounds) zone qtype visited current
              ≡ m ∷ ms)
      go err e =
          (with_dot c.content, [], rw (chain_calls, new, e1, e, target_calls, e2, there) refl)
      go (ok ([], via)) e = (
        with_dot c.content,
        chain_calls s rounds zone qtype (current ∷ visited) (with_dot c.content),
        rw (chain_calls, new, e1, e, target_calls, e2, there) refl,
      )
      go (ok (r ∷ rs, via)) e =
          (with_dot c.content, [], rw (chain_calls, new, e1, e, target_calls, e2, there) refl)

  pub cname_chain_calls-LeadsOut :
      (domain m : Text) (ms : List Text)
      → cname_chain_calls s zone domain qtype ≡ m ∷ ms
      → LeadsOut domain
  unfolding cname_chain_calls
  cname_chain_calls-LeadsOut domain m ms e = chain_calls-LeadsOut 7 [] domain m ms e

  pub cname_chain_calls-first :
      (domain : Text) (ask : Text → Text → Result (List Answer))
      → s.forward ≡ some ask
      → LeadsOut domain
      → (m : Text) × (ms : List Text) × (cname_chain_calls s zone domain qtype ≡ m ∷ ms)
  unfolding cname_chain_calls
  cname_chain_calls-first domain ask there leads =
      chain_calls-first 7 [] domain ask there refl leads
