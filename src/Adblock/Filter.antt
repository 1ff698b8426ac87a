-- ===== src/Adblock/Filter.antt =====
-- The compiled rules and the filter of adblock/filter.go. The Bloom filter is filled and never
-- read; it is left out.
use dns_go.Base.{
  ℕ, zero, suc, Bool, true, false, ◌&&◌, ◌||◌, List, [], ◌∷◌, ◌++◌, Option, none, some, Result, ok,
  err, if◌then◌else◌, nat_eq, ◌==◌, any, length,
}
use dns_go.Base.Map
use dns_go.Base.Map.{Map}
use dns_go.Base.Text.{Text, codes, text_eq, has_suffix, cut_at}
use dns_go.Adblock.Rule.{
  Regexp, RuleKind, domain_kind, domain_pattern_kind, ParsedRule, parse_rule_line, normalize_domain,
}

-- `map[string]struct{}`
abbrev pub Names : Type 0
Names = Map Text (Unit {0})

unfoldable pub has_name : Text → Names → Bool
has_name k m = elim (Map.get k m) [ none ↦ false | some _ ↦ true ]

-- The rounds of `matchDomainMap` on a candidate; each goes on behind the first dot.
unfoldable pub match_rounds : ℕ → Names → Text → Bool
match_rounds zero domains candidate = false
match_rounds (suc rounds) domains candidate =
    if candidate == []
    then false
    else if has_name candidate domains
    then true
    else elim (cut_at b'.' candidate) [
      | none ↦ false
      | some (_, []) ↦ false
      | some (_, c ∷ rest) ↦ match_rounds rounds domains (c ∷ rest)
    ]

-- Every round shortens the candidate, so that there are at most as many as the name has bytes.
unfoldable pub match_domain_map : Names → Text → Bool
match_domain_map domains qname = match_rounds (length qname) domains qname

unfoldable pub matches_domain_rule : Text → Text → Bool
matches_domain_rule qname rule_domain =
    let q = normalize_domain qname in
    let r = normalize_domain rule_domain in q == r || has_suffix q (b'.' ∷ r)

-- What a name is compared with besides itself.
unfoldable pub candidates_of : Text → List Text
candidates_of qname =
    qname
    ∷ (qname ++ codes ":80")
    ∷ (qname ++ codes ":443")
    ∷ (codes "http://" ++ qname)
    ∷ (codes "http://" ++ (qname ++ codes "/"))
    ∷ (codes "https://" ++ qname)
    ∷ (codes "https://" ++ (qname ++ codes "/"))
    ∷ []

module _ (x : Regexp) where
  open x use {Re, match_string}

  pub record CompiledRule : Type 0 where
    pub raw : Text
    pub exception : Bool
    pub important : Bool
    pub kind : RuleKind
    pub domain : Text
    pub re : Option Re

  unfoldable pub rule_matches : CompiledRule → Text → List Text → Bool
  rule_matches rule qname candidates = elim rule.kind [
    | domain_kind ↦ matches_domain_rule qname rule.domain
    | domain_pattern_kind ↦ elim rule.re [ none ↦ false | some re ↦ match_string re qname ]
    | _ ↦ elim rule.re [ none ↦ false | some re ↦ any (match_string re) candidates ]
  ]

  unfoldable pub match_rule_list : List CompiledRule → Text → List Text → Bool
  match_rule_list [] qname candidates = false
  match_rule_list (rule ∷ rules) qname candidates =
      rule_matches rule qname candidates || match_rule_list rules qname candidates

  pub record CompiledRules : Type 0 where
    pub block_domains : Names
    pub allow_domains : Names
    pub important_block_domains : Names
    pub important_allow_domains : Names
    pub block_rules : List CompiledRule
    pub allow_rules : List CompiledRule
    pub important_block_rules : List CompiledRule
    pub important_allow_rules : List CompiledRule

  unfoldable pub new_compiled_rules : CompiledRules
  new_compiled_rules = record {
    block_domains = [];
    allow_domains = [];
    important_block_domains = [];
    important_allow_domains = [];
    block_rules = [];
    allow_rules = [];
    important_block_rules = [];
    important_allow_rules = [];
  }

  abbrev pub is_domain_rule : ParsedRule x → Bool
  is_domain_rule rule = elim rule.kind [ domain_kind ↦ true | _ ↦ false ]

  unfoldable pub compiled : ParsedRule x → CompiledRule
  compiled rule = record {
    raw = rule.raw;
    exception = rule.exception;
    important = rule.important;
    kind = rule.kind;
    domain = rule.domain;
    re = rule.re;
  }

  unfoldable pub add : ParsedRule x → CompiledRules → CompiledRules
  add rule r =
      if is_domain_rule rule
      then if rule.exception && rule.important
        then record r { important_allow_domains = Map.put rule.domain tt r.important_allow_domains }
        else if rule.exception
        then record r { allow_domains = Map.put rule.domain tt r.allow_domains }
        else if rule.important
        then record r { important_block_domains = Map.put rule.domain tt r.important_block_domains }
        else record r { block_domains = Map.put rule.domain tt r.block_domains }
      else if rule.exception && rule.important
      then record r { important_allow_rules = r.important_allow_rules ++ compiled rule ∷ [] }
      else if rule.exception
      then record r { allow_rules = r.allow_rules ++ compiled rule ∷ [] }
      else if rule.important
      then record r { important_block_rules = r.important_block_rules ++ compiled rule ∷ [] }
      else record r { block_rules = r.block_rules ++ compiled rule ∷ [] }

  unfoldable pub is_blocked_by : CompiledRules → Text → Bool
  is_blocked_by r qname =
      let candidates = candidates_of qname in
      if match_domain_map r.important_allow_domains qname
        || match_rule_list r.important_allow_rules qname candidates
      then false
      else if match_domain_map r.important_block_domains qname
          || match_rule_list r.important_block_rules qname candidates
      then true
      else if match_domain_map r.allow_domains qname
          || match_rule_list r.allow_rules qname candidates
      then false
      else match_domain_map r.block_domains qname || match_rule_list r.block_rules qname candidates

  pub record Filter : Type 0 where
    pub rules : Option CompiledRules
    pub enabled : Bool

  unfoldable pub set_enabled : Bool → Filter → Filter
  set_enabled enabled f = record f { enabled = enabled }

  unfoldable pub is_blocked : Text → Filter → Bool
  is_blocked domain f =
      if f.enabled
      then elim f.rules [
        | none ↦ false
        | some rules ↦ is_blocked_by rules (normalize_domain domain)
      ]
      else false

  -- The loop of `Rebuild`: a line that does not parse, and one with `badfilter`, is passed over.
  unfoldable pub add_lines : List Text → CompiledRules → CompiledRules
  add_lines [] r = r
  add_lines (raw ∷ lines) r = add_lines lines (elim (parse_rule_line x raw) [
    | err ↦ r
    | ok none ↦ r
    | ok (some rule) ↦ if rule.bad_filter then r else add rule r
  ])

  -- `Rebuild` with what the storage lists; its error leaves the filter as it was.
  unfoldable pub rebuild : Result (List Text) → Filter → Result (Unit {0}) × Filter
  rebuild err f = (err, f)
  rebuild (ok lines) f = (ok tt, record f { rules = some (add_lines lines new_compiled_rules) })

  unfoldable pub new_filter : Result (List Text) → Bool → Filter
  new_filter stored enabled = (rebuild stored (record { rules = none; enabled = enabled })).1
