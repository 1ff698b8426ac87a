-- ===== src/Gslb/Resolve.antt =====
-- What `Resolve` of gslb/engine.go answers: the pool, the members, and the reply.
use dns_go.Base.{
  ℕ, ◌%◌, ◌^◌, ◌<◌, Bool, true, false, not, ◌&&◌, ◌||◌, List, [], ◌∷◌, Option, none, some,
  if◌then◌else◌, ◌≡◌, refl, ap, ◌∙◌, arith, nat_eq, ◌==◌, keep, is_nil, In, All, Bool-cases, inl,
  inr, Result, ok, err,
}
use dns_go.Base.Text.{Text}
use dns_go.Base.Word.{half}
use dns_go.Gslb.Database.{Database}
use dns_go.Gslb.Engine.{
  Network, Engine, prefer, or_else, scan_pools, parse_members, reply, try_fallback, choose_members,
  resolve_policy, resolve, match_pool,
}
use dns_go.Gslb.Members.{Health, value, is_up}
use dns_go.Gslb.Policies.{get_policy_by_domain}
use dns_go.Gslb.Pools.{PoolStorage, get_members_by_pool, get_pools_by_policy}
use dns_go.Gslb.Select.{Selects, one, failed, nobody, select_members-Selects, sum_shares}
use dns_go.Gslb.Types.{Policy, Pool, Member}

-- The first element that passes a test.
abbrev pub first {ℓ} : {A : Type ℓ} → (A → Bool) → List A → Option A
first p [] = none
first p (x ∷ xs) = if p x then some x else first p xs

-- The last element that passes a test.
abbrev pub last {ℓ} : {A : Type ℓ} → (A → Bool) → List A → Option A
last p [] = none
last p (x ∷ xs) = or_else (last p xs) (if p x then some x else none)

-- The loop over the pools finds the first pool that matches and the last fallback pool.
scan_pools_lem :
    (matches : Pool → Bool) (matched fallback : Option Pool) (ps : List Pool)
    → scan_pools matches matched fallback ps
      ≡ (or_else matched (first matches ps), or_else (last (λ p. p.fallback_pool) ps) fallback)
unfolding scan_pools
scan_pools_lem matches matched fallback [] = ground arith
scan_pools_lem matches matched fallback (p ∷ ps) = scan_pools_lem matches _ _ ps ∙ ground arith

scan_pools-none :
    (matches : Pool → Bool) (ps : List Pool)
    → scan_pools matches none none ps ≡ (first matches ps, last (λ p. p.fallback_pool) ps)
scan_pools-none matches ps = scan_pools_lem matches none none ps ∙ ground arith

-- The members that the engine wants, by rank: one healthy member of the matched pool; one of the
-- fallback pool; all the enabled members of the matched pool; all those of the fallback pool; or
-- nobody.
pub data Chosen (health : Health) (ms fs : List Member) : List Member × Bool → Type 0 where
  healthy : (p : Member) → In p ms → is_up health p ≡ true → Chosen health ms fs (p ∷ [], false)
  healthy_fallback :
      (p : Member)
      → All (λ m. is_up health m ≡ false) ms
      → In p fs
      → is_up health p ≡ true
      → Chosen health ms fs (p ∷ [], false)
  all_failed :
      (r : List Member)
      → All (λ m. is_up health m ≡ false) ms
      → All (λ m. is_up health m ≡ false) fs
      → r ≡ keep (λ m. m.enabled) ms
      → is_nil r ≡ false
      → Chosen health ms fs (r, true)
  fallback_failed :
      (r : List Member)
      → All (λ m. m.enabled ≡ false) ms
      → All (λ m. is_up health m ≡ false) fs
      → r ≡ keep (λ m. m.enabled) fs
      → is_nil r ≡ false
      → Chosen health ms fs (r, true)
  nobody_left :
      All (λ m. m.enabled ≡ false) ms
      → All (λ m. m.enabled ≡ false) fs
      → Chosen health ms fs ([], false)

down_of_disabled :
    (health : Health) (ms : List Member)
    → All (λ m. m.enabled ≡ false) ms
    → All (λ m. is_up health m ≡ false) ms
down_of_disabled health [] h = tt
down_of_disabled health (m ∷ ms) (e, h) = (rw e, down_of_disabled health ms h)

-- With no members in the fallback pool, what the matched pool gives stands.
Chosen-alone :
    (health : Health) (ms : List Member) (c : List Member × Bool)
    → Selects health ms c
    → Chosen health ms [] c
Chosen-alone health ms c (one p at_p up) = healthy p at_p up
Chosen-alone health ms c (failed r down e full) = all_failed r down tt e full
Chosen-alone health ms c (nobody off) = nobody_left off tt

-- Whether the fallback pool is asked. A healthy answer of the matched pool stands.
abbrev is_wanting : List Member × Bool → Bool
is_wanting c = c.1 || is_nil c.0 && not c.1

Chosen-settled :
    (health : Health) (ms fs : List Member) (c : List Member × Bool)
    → Selects health ms c
    → is_wanting c ≡ false
    → Chosen health ms fs c
Chosen-settled health ms fs c (one p at_p up) h = healthy p at_p up
Chosen-settled health ms fs c (failed r down e full) h = absurd (ground arith)
Chosen-settled health ms fs c (nobody off) h = absurd (ground arith)

prefer-Chosen :
    (health : Health) (ms fs : List Member) (c c' : List Member × Bool)
    → Selects health ms c
    → Selects health fs c'
    → is_wanting c ≡ true
    → Chosen health ms fs (prefer (is_nil c.0 && not c.1) c c')
unfolding prefer
prefer-Chosen health ms fs c c' (one p at_p up) s' h = absurd (ground arith)
prefer-Chosen health ms fs c c' (failed r down e full) (one p at_p up) h =
    healthy_fallback p down at_p up
prefer-Chosen health ms fs c c' (failed [] down e full) (failed r' down' e' full') h =
    absurd (ground arith)
prefer-Chosen health ms fs c c' (failed (x ∷ r) down e full) (failed [] down' e' full') h =
    absurd (ground arith)
prefer-Chosen health ms fs c c' (failed (x ∷ r) down e full) (failed (y ∷ r') down' e' full') h =
    all_failed (x ∷ r) down down' e full
prefer-Chosen health ms fs c c' (failed r down e full) (nobody off) h =
    all_failed r down (down_of_disabled health fs off) e full
prefer-Chosen health ms fs c c' (nobody off) (one p at_p up) h =
    healthy_fallback p (down_of_disabled health ms off) at_p up
prefer-Chosen health ms fs c c' (nobody off) (failed [] down' e' full') h = absurd (ground arith)
prefer-Chosen health ms fs c c' (nobody off) (failed (y ∷ r') down' e' full') h =
    fallback_failed (y ∷ r') off down' e' full'
prefer-Chosen health ms fs c c' (nobody off) (nobody off') h = nobody_left off off'

module _ (d : Database) where
  -- The members of the fallback pool that the engine can count on: none where there is no such
  -- pool, where it is the matched pool, or where they cannot be read.
  unfoldable pub fallback_members : ℕ → Pool → Option Pool → PoolStorage d → List Member
  fallback_members now matched none s = []
  fallback_members now matched (some f) s =
      if f.id == matched.id
      then []
      else elim (get_members_by_pool d now f.id s).0 [ ok fs ↦ fs | err ↦ [] ]

  try_fallback-Chosen :
      (n : Network) (now draw : ℕ) (health : Health) (matched : Pool) (fallback : Option Pool)
      (ms : List Member) (c : List Member × Bool) (s : PoolStorage d)
      → Selects health ms c
      → sum_shares (fallback_members now matched fallback s) < half
      → (c' : List Member × Bool) × ((try_fallback n d now draw health matched fallback c s).0
          ≡ value c')
        × Chosen health ms (fallback_members now matched fallback s) c'
  unfolding try_fallback fallback_members
  try_fallback-Chosen n now draw health matched none ms c s sel h =
      (c, refl, Chosen-alone health ms c sel)
  try_fallback-Chosen n now draw health matched (some f) ms c s sel h =
      elim (Bool-cases (is_wanting c)) [
        | inr calm ↦ (c, rw calm, Chosen-settled health ms _ c sel calm)
        | inl asks ↦ elim (Bool-cases (f.id == matched.id)) [
          | inl same ↦ (c, rw (asks, same), rw same (Chosen-alone health ms c sel))
          | inr other ↦ go asks other (get_members_by_pool d now f.id s).0 refl
        ]
      ]
    where
      go :
          is_wanting c ≡ true
          → (f.id == matched.id) ≡ false
          → (a : Result (List Member)) → (get_members_by_pool d now f.id s).0 ≡ a
          → (c' : List Member × Bool) × ((try_fallback n d now draw health matched (some f) c s).0
              ≡ value c')
            × Chosen health ms (fallback_members now matched (some f) s) c'
      go asks other err e = (c, rw (asks, other, e), rw (other, e) (Chosen-alone health ms c sel))
      go asks other (ok []) e =
          (c, rw (asks, other, e), rw (other, e) (Chosen-alone health ms c sel))
      go asks other (ok (m ∷ fs)) e =
          let (c', chosen, sel') =
            select_members-Selects draw health (m ∷ fs) (rw (other, e) at h) in
          (
            prefer (is_nil c.0 && not c.1) c c',
            rw (asks, other, e, chosen),
            rw (other, e) (prefer-Chosen health ms (m ∷ fs) c c' sel sel' asks),
          )

  -- From the pool that was matched to the members that answer: nothing panics where the weights of
  -- a pool add up to an int64, and the answer is the best that the two pools have. Members that
  -- cannot be read are an error in the matched pool, and none in the fallback pool.
  choose_members-Chosen :
      (n : Network) (now draw draw' : ℕ) (health : Health) (matched : Pool) (fallback : Option Pool)
      (ms : List Member) (s s' : PoolStorage d)
      → get_members_by_pool d now matched.id s ≡ (ok ms, s')
      → sum_shares ms < half
      → sum_shares (fallback_members now matched fallback s') < half
      → (c : List Member × Bool) × ((choose_members n d now draw draw' health matched fallback s).0
          ≡ value (ok c))
        × Chosen health ms (fallback_members now matched fallback s') c
  unfolding choose_members
  choose_members-Chosen n now draw draw' health matched fallback ms s s' read small small' =
      let (c, chosen, sel) = select_members-Selects draw health ms small in
      let (c', tried, best) =
        try_fallback-Chosen n now draw' health matched fallback ms c s' sel small' in
      (c', rw (read, choose_members, chosen, read, tried), best)

  module _ (n : Network) where
    open n use {IP}

    -- The addresses of the members that were chosen, all of them, with the TTL of the policy.
    unfoldable pub addresses : Policy → List Member → Result (List IP × ℕ)
    addresses policy [] = ok ([], 0)
    addresses policy (m ∷ ms) = elim (parse_members n (m ∷ ms)) [
      | err ↦ err
      | ok ips ↦ ok (ips, policy.ttl % 2 ^ 32)
    ]

    reply-addresses :
        (policy : Policy) (health : Health) (ms fs : List Member) (c : List Member × Bool)
        → Chosen health ms fs c
        → reply n policy c ≡ addresses policy c.0
    unfolding reply addresses parse_members
    reply-addresses policy health ms fs c (healthy p _ _) = ground arith
    reply-addresses policy health ms fs c (healthy_fallback p _ _ _) = ground arith
    reply-addresses policy health ms fs c (all_failed [] _ _ _ h) = refl
    reply-addresses policy health ms fs c (all_failed (r ∷ rs) _ _ _ h) = ground arith
    reply-addresses policy health ms fs c (fallback_failed [] _ _ _ h) = refl
    reply-addresses policy health ms fs c (fallback_failed (r ∷ rs) _ _ _ h) = ground arith
    reply-addresses policy health ms fs c (nobody_left _ _) = refl

    -- `Resolve` takes the first pool that matches the client, or else the last fallback pool, and
    -- answers with the addresses of the best members that this pool and the fallback pool have:
    -- of one healthy member, or of all the enabled ones where none is healthy. It is asked where
    -- the reads of the policy, of its pools and of the members of the pool succeed and the
    -- weights add up to an int64.
    pub resolve-Chosen :
        (now draw draw' : ℕ) (domain qtype : Text) (client : Option IP) (e : Engine n d)
        (policy : Policy) (ps : List Pool) (m : Pool) (ms : List Member) (s s' : PoolStorage d)
        → get_policy_by_domain d now domain qtype e.policy_storage ≡ ok (some policy)
        → get_pools_by_policy d now policy.id e.pool_storage ≡ (ok ps, s)
        → or_else (first (λ p. match_pool n e.geoip p client) ps) (last (λ p. p.fallback_pool) ps)
          ≡ some m
        → get_members_by_pool d now m.id s ≡ (ok ms, s')
        → sum_shares ms < half
        → sum_shares (fallback_members now m (last (λ p. p.fallback_pool) ps) s') < half
        → (c : List Member × Bool) × ((resolve n d now draw draw' domain qtype client e).0
            ≡ value (addresses policy c.0))
          × Chosen e.health ms (fallback_members now m (last (λ p. p.fallback_pool) ps) s') c
    unfolding resolve resolve_policy
    resolve-Chosen now draw draw' domain qtype client e policy ps m ms s s' hp hps hm hms small
          small' =
        let fallback = last (λ (p : Pool). p.fallback_pool) ps in
        let (c, chosen, best) =
          choose_members-Chosen n now draw draw' e.health m fallback ms s s' hms small small' in
        (
          c,
          rw (hp, resolve, hps, resolve_policy, scan_pools-none, hm, hps, scan_pools-none, chosen)
              (ap value (reply-addresses policy e.health ms _ c best)),
          best,
        )
