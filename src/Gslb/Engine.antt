-- ===== src/Gslb/Engine.antt =====
-- `Engine` of gslb/engine.go: which pool a client is sent to, and which members answer.
-- Addresses and the GeoIP database are those of `Network`.
use dns_go.Base.{
  ℕ, ◌%◌, ◌^◌, Bool, true, false, not, ◌&&◌, ◌||◌, List, [], ◌∷◌, Option, none, some, Result, ok,
  err, if◌then◌else◌, nat_eq, ◌==◌, is_nil,
}
use dns_go.Base.Text.{Text, codes, text_eq, to_lower}
use dns_go.Gslb.Database.{Database}
use dns_go.Gslb.Members.{Health, Run, value, panic, select_members}
use dns_go.Gslb.Policies.{PolicyStorage, get_policy_by_domain}
use dns_go.Gslb.Pools.{PoolStorage, get_pools_by_policy, get_members_by_pool}
use dns_go.Gslb.Types.{Policy, Pool, Member}

-- Package net, and the GeoIP reader.
pub record Network : Type 1 where
  pub IP : Type 0
  pub parse_ip : Text → Option IP
  -- `ParseCIDR` and `Contains`; an error where the text is no network.
  pub cidr_contains : Text → IP → Result Bool
  -- `Country`: the codes of the country and of the continent.
  pub country : IP → Result (Text × Text)

-- What the members of the fallback pool change: healthy ones are taken, and failed ones only
-- where the matched pool has none at all.
unfoldable pub prefer : Bool → List Member × Bool → List Member × Bool → List Member × Bool
prefer empty_pool (selected, all_failed) ([], fallback_failed) = (selected, all_failed)
prefer empty_pool (selected, all_failed) (f ∷ fs, fallback_failed) =
    if not fallback_failed
    then (f ∷ fs, false)
    else if empty_pool
    then (f ∷ fs, true)
    else (selected, all_failed)

-- `a`, or `b` where `a` is nil.
abbrev pub or_else {ℓ} : {A : Type ℓ} → Option A → Option A → Option A
or_else (some a) b = some a
or_else none b = b

abbrev found : Result (Option Policy) → Bool
found (ok (some p)) = true
found (ok none) = false
found err = false

-- The loop over the pools of a policy: the first that matches, and the last fallback pool.
unfoldable pub scan_pools :
    (Pool → Bool) → Option Pool → Option Pool → List Pool → Option Pool × Option Pool
scan_pools matches matched fallback [] = (matched, fallback)
scan_pools matches matched fallback (p ∷ ps) =
    scan_pools matches
      (elim matched [ some m ↦ some m | none ↦ if matches p then some p else none ])
      (if p.fallback_pool then some p else fallback) ps

module _ (n : Network) where
  open n use {IP, parse_ip, cidr_contains, country}

  -- `geoip` tells whether a resolver is set. A pool is never nil here.
  unfoldable pub match_pool : Bool → Pool → Option IP → Bool
  match_pool geoip pool client =
      let kind = to_lower pool.match_type in
      if kind == codes "cidr"
      then elim client [
        | none ↦ false
        | some ip ↦ elim (cidr_contains pool.match_value ip) [ err ↦ false | ok b ↦ b ]
      ]
      else if kind == codes "geo_country"
      then elim client [
        | none ↦ false
        | some ip ↦ elim geoip [
          | false ↦ false
          | true ↦ elim (country ip) [
            | err ↦ false
            | ok (c, _) ↦ to_lower c == to_lower pool.match_value
          ]
        ]
      ]
      else if kind == codes "geo_continent"
      then elim client [
        | none ↦ false
        | some ip ↦ elim geoip [
          | false ↦ false
          | true ↦ elim (country ip) [
            | err ↦ false
            | ok (_, c) ↦ to_lower c == to_lower pool.match_value
          ]
        ]
      ]
      else kind == codes "default"

  -- The addresses of the members; an error at the first that does not parse.
  unfoldable pub parse_members : List Member → Result (List IP)
  parse_members [] = ok []
  parse_members (m ∷ ms) = elim (parse_ip m.address) [
    | none ↦ err
    | some ip ↦ elim (parse_members ms) [ err ↦ err | ok ips ↦ ok (ip ∷ ips) ]
  ]

  -- What the selection comes to in a reply: no answer, an error, or addresses with a TTL.
  unfoldable pub reply : Policy → List Member × Bool → Result (List IP × ℕ)
  reply policy ([], all_failed) = ok ([], 0)
  reply policy (m ∷ ms, all_failed) = elim (parse_members (m ∷ ms)) [
    | err ↦ err
    | ok [] ↦ ok ([], policy.ttl % 2 ^ 32)
    | ok (ip ∷ ips) ↦
        if all_failed then ok (ip ∷ ips, policy.ttl % 2 ^ 32) else ok (ip ∷ [], policy.ttl % 2 ^ 32)
  ]

  module _ (d : Database) where
    pub record Engine : Type 0 where
      pub policy_storage : PolicyStorage d
      pub pool_storage : PoolStorage d
      pub geoip : Bool
      pub health : Health

    -- The fallback pool is asked where the matched pool is another and has nothing healthy.
    unfoldable pub try_fallback :
        (now draw : ℕ)
        → Health
        → Pool
        → Option Pool
        → List Member × Bool
        → PoolStorage d
        → Run (List Member × Bool) × PoolStorage d
    try_fallback now draw health matched none (selected, all_failed) s =
        (value (selected, all_failed), s)
    try_fallback now draw health matched (some fallback) (selected, all_failed) s =
        let empty_pool = is_nil selected && not all_failed in
        let (answer, s') = get_members_by_pool d now fallback.id s in
        if (all_failed || empty_pool) && not (fallback.id == matched.id)
        then elim answer [
          | err ↦ (value (selected, all_failed), s')
          | ok [] ↦ (value (selected, all_failed), s')
          | ok (m ∷ ms) ↦ elim (select_members draw health (m ∷ ms)) [
            | panic ↦ (panic, s')
            | value chosen ↦ (value (prefer empty_pool (selected, all_failed) chosen), s')
          ]
        ]
        else (value (selected, all_failed), s)

    -- From the matched pool to the members that answer.
    unfoldable pub choose_members :
        (now draw draw' : ℕ)
        → Health
        → Pool
        → Option Pool
        → PoolStorage d
        → Run (Result (List Member × Bool)) × PoolStorage d
    choose_members now draw draw' health matched fallback s =
        let (answer, s') = get_members_by_pool d now matched.id s in
        elim answer [
          | err ↦ (value err, s')
          | ok members ↦ elim (select_members draw health members) [
            | panic ↦ (panic, s')
            | value chosen ↦
                let (r, s'') = try_fallback now draw' health matched fallback chosen s' in
                elim r [ panic ↦ (panic, s'') | value c ↦ (value (ok c), s'') ]
          ]
        ]

    unfoldable pub resolve_policy :
        (now draw draw' : ℕ) → Policy → Option IP → Engine → Run (Result (List IP × ℕ)) × Engine
    resolve_policy now draw draw' policy client e =
        let (answer, s) = get_pools_by_policy d now policy.id e.pool_storage in
        elim answer [
          | err ↦ (value err, record e { pool_storage = s })
          | ok pools ↦
              let (matched, fallback) =
                scan_pools (λ p. match_pool e.geoip p client) none none pools in
              elim (or_else matched fallback) [
                | none ↦ (value (ok ([], 0)), record e { pool_storage = s })
                | some m ↦
                    let (r, s') = choose_members now draw draw' e.health m fallback s in
                    elim r [
                      | panic ↦ (panic, record e { pool_storage = s' })
                      | value err ↦ (value err, record e { pool_storage = s' })
                      | value (ok c) ↦ (value (reply policy c), record e { pool_storage = s' })
                    ]
              ]
        ]

    -- `Resolve` of an engine that is there. No policy gives no address.
    unfoldable pub resolve :
        (now draw draw' : ℕ)
        → Text
        → Text
        → Option IP
        → Engine
        → Run (Result (List IP × ℕ)) × Engine
    resolve now draw draw' domain qtype client e =
        elim (get_policy_by_domain d now domain qtype e.policy_storage) [
          | err ↦ (value err, e)
          | ok none ↦ (value (ok ([], 0)), e)
          | ok (some policy) ↦ resolve_policy now draw draw' policy client e
        ]

    -- `HasDomain`: a policy for either type of address.
    unfoldable pub has_domain : ℕ → Text → Engine → Bool
    has_domain now domain e =
        found (get_policy_by_domain d now domain (codes "A") e.policy_storage)
        || found (get_policy_by_domain d now domain (codes "AAAA") e.policy_storage)
