-- ===== src/Dns/Chain.antt =====
-- `resolveCNAMEChain`, `resolveTargetRecords` and `extractDomain` of dns/handler.go. What the
-- storages, the engine and the resolver answer while one query is resolved is `Sources`.
pub mod Walk
pub mod Calls
use dns_go.Base.{
  ℕ, zero, suc, Bool, true, false, List, [], ◌∷◌, ◌++◌, Option, none, some, Result, ok, err,
  if◌then◌else◌, nat_eq, ◌==◌, contains,
}
use dns_go.Storage.Types.{Record}
use dns_go.Base.Text.{Text, codes, text_eq, has_suffix, trim_suffix, split, join}

-- A record of an upstream answer: the text of its address, and its TTL.
pub data Answer : Type 0 where
  a : Text → ℕ → Answer
  aaaa : Text → ℕ → Answer
  other : Answer

-- `get_zone_by_name` gives the id of a zone. `gslb` is `Resolve` for the client, and `forward`
-- the answer section of `Forward`; both may be missing. `to4` is the text of an IPv4 address.
pub record Sources : Type 1 where
  pub IP : Type 0
  pub to4 : IP → Option Text
  pub ip_text : IP → Text
  pub get_records_by_name_and_zone : ℕ → Text → Text → Result (List Record)
  pub get_zone_by_name : Text → Result (Option ℕ)
  pub gslb : Option (Text → Text → Result (List IP))
  pub forward : Option (Text → Text → Result (List Answer))

abbrev pub max_cname_chain_depth : ℕ
max_cname_chain_depth = 8

-- The record that is made of an address; it has no id, zone or priority.
unfoldable pub new_record : Text → Text → Text → ℕ → Record
new_record name kind content ttl = record {
  id = 0;
  zone_id = 0;
  name = name;
  record_type = kind;
  content = content;
  ttl = ttl;
  priority = 0;
  enabled = true;
  last_query_at = none;
}

unfoldable pub upstream_records : Text → Text → List Answer → List Record
upstream_records target qtype [] = []
upstream_records target qtype (a text ttl ∷ answers) =
    let rest = upstream_records target qtype answers in
    if qtype == codes "A" then new_record target (codes "A") text ttl ∷ rest else rest
upstream_records target qtype (aaaa text ttl ∷ answers) =
    let rest = upstream_records target qtype answers in
    if qtype == codes "AAAA" then new_record target (codes "AAAA") text ttl ∷ rest else rest
upstream_records target qtype (other ∷ answers) = upstream_records target qtype answers

-- A target with a dot behind it.
unfoldable pub with_dot : Text → Text
with_dot target = if has_suffix target (codes ".") then target else target ++ codes "."

-- The last two labels, as a domain.
unfoldable pub last_two : List Text → Option Text
last_two [] = none
last_two (p ∷ []) = none
last_two (p ∷ q ∷ []) = some (join (p ∷ q ∷ []) (codes ".") ++ codes ".")
last_two (p ∷ q ∷ r ∷ ps) = last_two (q ∷ r ∷ ps)

module _ (s : Sources) where
  open s use {IP, to4, ip_text, get_records_by_name_and_zone, get_zone_by_name, gslb, forward}

  -- The loop of `extractDomain`: the longest suffix that is a zone.
  unfoldable pub find_zone : List Text → Option Text
  find_zone [] = none
  find_zone (p ∷ ps) =
      let candidate = join (p ∷ ps) (codes ".") ++ codes "." in
      elim (get_zone_by_name candidate) [ ok (some _) ↦ some candidate | _ ↦ find_zone ps ]

  unfoldable pub extract_domain : Text → Text
  extract_domain fqdn =
      let parts = split (trim_suffix fqdn (codes ".")) b'.' in
      elim (find_zone parts) [
        | some candidate ↦ candidate
        | none ↦ elim (last_two parts) [ some domain ↦ domain | none ↦ fqdn ]
      ]

  -- The loop over the addresses of the engine; none of them is nil.
  unfoldable pub address_records : Text → Text → List IP → List Record
  address_records target qtype [] = []
  address_records target qtype (ip ∷ ips) =
      let rest = address_records target qtype ips in
      if qtype == codes "A"
      then elim (to4 ip) [ some text ↦ new_record target (codes "A") text 60 ∷ rest | none ↦ rest ]
      else if qtype == codes "AAAA"
      then elim (to4 ip) [
        | some _ ↦ rest
        | none ↦ new_record target (codes "AAAA") (ip_text ip) 60 ∷ rest
      ]
      else rest

  -- Step 4: the upstream servers.
  unfoldable pub upstream_target : Text → Text → Result (List Record × Bool)
  upstream_target target qtype = elim forward [
    | none ↦ ok ([], false)
    | some ask ↦ elim (ask target qtype) [
      | err ↦ ok ([], false)
      | ok answers ↦ ok (upstream_records target qtype answers, false)
    ]
  ]

  -- Step 3: another zone. It is none, here and below, where the target goes to step 4.
  unfoldable pub cross_zone_target : ℕ → Text → Text → Result (Option (List Record × Bool))
  cross_zone_target zone target qtype = elim (get_zone_by_name (extract_domain target)) [
    | ok (some z) ↦
        if z == zone then ok none else elim (get_records_by_name_and_zone z target qtype) [
          | err ↦ err
          | ok [] ↦ ok none
          | ok (r ∷ rs) ↦ ok (some (r ∷ rs, false))
        ]
    | _ ↦ ok none
  ]

  -- Step 2: the zone of the query.
  unfoldable pub local_target : ℕ → Text → Text → Result (Option (List Record × Bool))
  local_target zone target qtype = elim (get_records_by_name_and_zone zone target qtype) [
    | err ↦ err
    | ok [] ↦ cross_zone_target zone target qtype
    | ok (r ∷ rs) ↦ ok (some (r ∷ rs, false))
  ]

  -- Step 1: the engine.
  unfoldable pub known_target : ℕ → Text → Text → Result (Option (List Record × Bool))
  known_target zone target qtype = elim gslb [
    | none ↦ local_target zone target qtype
    | some resolve ↦ elim (resolve target qtype) [
      | err ↦ local_target zone target qtype
      | ok ips ↦ elim (address_records target qtype ips) [
        | [] ↦ local_target zone target qtype
        | r ∷ rs ↦ ok (some (r ∷ rs, true))
      ]
    ]
  ]

  unfoldable pub resolve_target_records : ℕ → Text → Text → Result (List Record × Bool)
  resolve_target_records zone target qtype = elim (known_target zone target qtype) [
    | err ↦ err
    | ok (some found) ↦ ok found
    | ok none ↦ upstream_target target qtype
  ]

  -- The target, where `resolveTargetRecords` calls `Forward` for it.
  unfoldable pub target_calls : ℕ → Text → Text → List Text
  target_calls zone target qtype = elim (known_target zone target qtype) [
    | ok none ↦ elim forward [ some ask ↦ target ∷ [] | none ↦ [] ]
    | _ ↦ []
  ]

  -- The CNAME records of a name, in the zone of the query or else in the name's own.
  unfoldable pub cname_records : ℕ → Text → Result (List Record)
  cname_records zone current = elim (get_records_by_name_and_zone zone current (codes "CNAME")) [
    | err ↦ err
    | ok (r ∷ rs) ↦ ok (r ∷ rs)
    | ok [] ↦ elim (get_zone_by_name (extract_domain current)) [
      | ok (some z) ↦
          if z == zone then ok [] else get_records_by_name_and_zone z current (codes "CNAME")
      | _ ↦ ok []
    ]
  ]

  -- The rounds of the loop: the records so far, and whether the engine answered.
  unfoldable pub chain_rounds :
      ℕ → ℕ → Text → List Text → Text → List Record → List Record × Result Bool
  chain_rounds zero zone qtype visited current records = (records, ok false)
  chain_rounds (suc rounds) zone qtype visited current records =
      if contains current visited then (records, ok false) else elim (cname_records zone current) [
        | err ↦ (records, err)
        | ok [] ↦ (records, ok false)
        | ok (cname ∷ _) ↦ elim (resolve_target_records zone (with_dot cname.content) qtype) [
          | err ↦ (records ++ cname ∷ [], err)
          | ok ([], _) ↦
              chain_rounds rounds zone qtype (current ∷ visited) (with_dot cname.content)
                (records ++ cname ∷ [])
          | ok (r ∷ rs, via_gslb) ↦ ((records ++ cname ∷ []) ++ r ∷ rs, ok via_gslb)
        ]
      ]

  unfoldable pub resolve_cname_chain : ℕ → Text → Text → List Record × Result Bool
  resolve_cname_chain zone domain qtype = chain_rounds max_cname_chain_depth zone qtype [] domain []

  -- The targets for which the rounds call `Forward`, in turn.
  unfoldable pub chain_calls : ℕ → ℕ → Text → List Text → Text → List Text
  chain_calls zero zone qtype visited current = []
  chain_calls (suc rounds) zone qtype visited current =
      if contains current visited then [] else elim (cname_records zone current) [
        | err ↦ []
        | ok [] ↦ []
        | ok (cname ∷ _) ↦ elim (resolve_target_records zone (with_dot cname.content) qtype) [
          | ok ([], _) ↦
              target_calls zone (with_dot cname.content) qtype
              ++ chain_calls rounds zone qtype (current ∷ visited) (with_dot cname.content)
          | _ ↦ target_calls zone (with_dot cname.content) qtype
        ]
      ]

  unfoldable pub cname_chain_calls : ℕ → Text → Text → List Text
  cname_chain_calls zone domain qtype = chain_calls max_cname_chain_depth zone qtype [] domain
