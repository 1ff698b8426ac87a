-- ===== src/Adblock/Priority.antt =====
-- `IsBlocked` after `Rebuild` of adblock/filter.go, against the rules themselves: which rule
-- outranks which.
use dns_go.Base.{
  Bool, true, false, not, ◌&&◌, ◌||◌, List, [], ◌∷◌, ◌++◌, Option, none, some, Result, ok, err,
  Bool-cases, inl, inr, if◌then◌else◌, nat_eq, ◌==◌, any, ◌≡◌, ◌≢◌, refl, ◌∙◌, arith,
}
use dns_go.Base.Map
use dns_go.Base.Map.{Map}
use dns_go.Base.Text.{Text, text_eq, text_beq_iff}
use dns_go.Adblock.Rule.{
  Regexp, domain_kind, domain_pattern_kind, ParsedRule, parse_rule_line, normalize_domain,
}
use dns_go.Adblock.Filter.{
  Names, CompiledRule, CompiledRules, Filter, new_compiled_rules, add, compiled, is_domain_rule,
  is_blocked_by, is_blocked, rebuild, add_lines, match_rule_list, rule_matches, candidates_of,
}
use dns_go.Adblock.Suffix.{covers, covered, IsNamed, match_domain_map-covered}
use dns_go.Adblock.Named.{HasDomain, parse_rule_line-HasDomain}

covered-put :
    (domain : Text) (domains : Names) (name : Text)
    → covered (Map.put domain tt domains) name ≡ (covered domains name || covers domain name)
unfolding Map.put
covered-put domain [] name = ground arith
covered-put domain ((k, u) ∷ domains) name =
    ground (arith, covered-put domain domains name, text_beq_iff k domain)

put-IsNamed :
    (domain : Text) (domains : Names)
    → IsNamed domains
    → domain ≢ []
    → IsNamed (Map.put domain tt domains)
unfolding Map.put
put-IsNamed domain [] named ne = (ne, tt)
put-IsNamed domain ((k, u) ∷ domains) (kn, named) ne = elim (Bool-cases (k == domain)) [
  | inl same ↦ rw same (ne, named)
  | inr other ↦ rw other (kn, put-IsNamed domain domains named ne)
]

module _ (x : Regexp) where
  open x use {match_string}

  match_rule_list-append :
      (rules : List (CompiledRule x)) (rule : CompiledRule x) (name : Text) (candidates : List Text)
      → match_rule_list x (rules ++ rule ∷ []) name candidates
        ≡ (match_rule_list x rules name candidates || rule_matches x rule name candidates)
  unfolding match_rule_list
  match_rule_list-append [] rule name candidates = ground arith
  match_rule_list-append (r ∷ rules) rule name candidates =
      ground (arith, match_rule_list-append rules rule name candidates)

  -- Whether a rule is about a name: a domain covers the name, the expression of a domain with
  -- `*` matches it, and any other expression matches it, its ports or its addresses.
  abbrev pub applies : Text → ParsedRule x → Bool
  applies name rule = elim rule.kind [
    | domain_kind ↦ covers rule.domain name
    | domain_pattern_kind ↦ elim rule.re [ none ↦ false | some re ↦ match_string re name ]
    | _ ↦ elim rule.re [ none ↦ false | some re ↦ any (match_string re) (candidates_of name) ]
  ]

  -- Some rule about the name, with these marks.
  abbrev pub some_rule : (exception important : Bool) → Text → List (ParsedRule x) → Bool
  some_rule true true name = any (λ r. (r.exception && r.important) && applies name r)
  some_rule true false name = any (λ r. (r.exception && not r.important) && applies name r)
  some_rule false true name = any (λ r. (not r.exception && r.important) && applies name r)
  some_rule false false name = any (λ r. (not r.exception && not r.important) && applies name r)

  -- The rules that the lines hold, without those that carry `badfilter`.
  unfoldable pub rules_of : List Text → List (ParsedRule x)
  rules_of [] = []
  rules_of (raw ∷ lines) = elim (parse_rule_line x raw) [
    | err ↦ rules_of lines
    | ok none ↦ rules_of lines
    | ok (some rule) ↦ if rule.bad_filter then rules_of lines else rule ∷ rules_of lines
  ]

  -- An important exception outranks every rule, an important rule every other exception, and an
  -- exception every other rule.
  unfoldable pub verdict : Text → List (ParsedRule x) → Bool
  verdict name rules =
      not (some_rule true true name rules)
      && (some_rule false true name rules
          || (not (some_rule true false name rules) && some_rule false false name rules))

  abbrev AllNamed : CompiledRules x → Type 0
  AllNamed r =
      IsNamed r.block_domains
      × IsNamed r.allow_domains
      × IsNamed r.important_block_domains
      × IsNamed r.important_allow_domains

  add-AllNamed :
      (rule : ParsedRule x) (r : CompiledRules x)
      → HasDomain x rule
      → AllNamed r
      → AllNamed (add x rule r)
  unfolding add
  add-AllNamed rule r h (b, a, ib, ia) = elim (Bool-cases (is_domain_rule x rule)) [
    | inr list ↦ ground (arith, list, b, a, ib, ia)
    | inl domain ↦ ground (
      arith,
      domain,
      b,
      a,
      ib,
      ia,
      put-IsNamed rule.domain r.block_domains b (h domain),
      put-IsNamed rule.domain r.allow_domains a (h domain),
      put-IsNamed rule.domain r.important_block_domains ib (h domain),
      put-IsNamed rule.domain r.important_allow_domains ia (h domain),
    )
  ]

  -- What the compiled rules find among the domains and the lists with these marks.
  unfoldable found : (exception important : Bool) → Text → CompiledRules x → Bool
  found true true name r =
      covered r.important_allow_domains name
      || match_rule_list x r.important_allow_rules name (candidates_of name)
  found true false name r =
      covered r.allow_domains name || match_rule_list x r.allow_rules name (candidates_of name)
  found false true name r =
      covered r.important_block_domains name
      || match_rule_list x r.important_block_rules name (candidates_of name)
  found false false name r =
      covered r.block_domains name || match_rule_list x r.block_rules name (candidates_of name)

  rule_matches-applies :
      (name : Text) (rule : ParsedRule x)
      → is_domain_rule x rule ≡ false
      → rule_matches x (compiled x rule) name (candidates_of name) ≡ applies name rule
  unfolding rule_matches compiled
  rule_matches-applies name rule h = ground arith

  add-found :
      (exception important : Bool) (name : Text) (rule : ParsedRule x) (r : CompiledRules x)
      → found exception important name (add x rule r)
        ≡ (found exception important name r || some_rule exception important name (rule ∷ []))
  unfolding found add
  add-found true true name rule r = ground (
    arith,
    rule_matches-applies name rule,
    covered-put rule.domain r.important_allow_domains name,
    match_rule_list-append r.important_allow_rules (compiled x rule) name (candidates_of name),
  )
  add-found true false name rule r = ground (
    arith,
    rule_matches-applies name rule,
    covered-put rule.domain r.allow_domains name,
    match_rule_list-append r.allow_rules (compiled x rule) name (candidates_of name),
  )
  add-found false true name rule r = ground (
    arith,
    rule_matches-applies name rule,
    covered-put rule.domain r.important_block_domains name,
    match_rule_list-append r.important_block_rules (compiled x rule) name (candidates_of name),
  )
  add-found false false name rule r = ground (
    arith,
    rule_matches-applies name rule,
    covered-put rule.domain r.block_domains name,
    match_rule_list-append r.block_rules (compiled x rule) name (candidates_of name),
  )

  some_rule-cons :
      (exception important : Bool) (name : Text) (rule : ParsedRule x) (rules : List (ParsedRule x))
      → some_rule exception important name (rule ∷ rules) ≡ (
          some_rule exception important name (rule ∷ [])
          || some_rule exception important name rules)
  some_rule-cons true true name rule rules = ground arith
  some_rule-cons true false name rule rules = ground arith
  some_rule-cons false true name rule rules = ground arith
  some_rule-cons false false name rule rules = ground arith

  some_rule-nil :
      (exception important : Bool) (name : Text) → some_rule exception important name [] ≡ false
  some_rule-nil true true name = refl
  some_rule-nil true false name = refl
  some_rule-nil false true name = refl
  some_rule-nil false false name = refl

  -- What the compiled rules hold beside those they had is what the lines say.
  abbrev Adds : List (ParsedRule x) → CompiledRules x → CompiledRules x → Type 0
  Adds rules r r' =
      (AllNamed r → AllNamed r')
      × ((exception important : Bool) (name : Text)
          → found exception important name r'
            ≡ (found exception important name r || some_rule exception important name rules))

  rule-Adds :
      (lines : List Text) (rule : ParsedRule x) (r : CompiledRules x)
      → HasDomain x rule
      → ((r' : CompiledRules x) → Adds (rules_of lines) r' (add_lines x lines r'))
      → (bad : Bool)
      → Adds
          (if bad then rules_of lines else rule ∷ rules_of lines)
          r
          (add_lines x lines (if bad then r else add x rule r))
  rule-Adds lines rule r h rest true = rest r
  rule-Adds lines rule r h rest false =
      let (named, founds) = rest (add x rule r) in
      (
        λ n. named (add-AllNamed rule r h n),
        λ ex im name.
            founds ex im name
            ∙ ground (
              arith,
              add-found ex im name rule r,
              some_rule-cons ex im name rule (rules_of lines),
            ),
      )

  add_lines-Adds :
      (lines : List Text) (r : CompiledRules x) → Adds (rules_of lines) r (add_lines x lines r)
  unfolding rules_of add_lines
  add_lines-Adds [] r = (λ n. n, λ e i name. ground (arith, some_rule-nil e i name))
  add_lines-Adds (raw ∷ lines) r = go (λ r'. add_lines-Adds lines r') (parse_rule_line x raw) refl
    where
      go :
          ((r' : CompiledRules x) → Adds (rules_of lines) r' (add_lines x lines r'))
          → (o : Result (Option (ParsedRule x))) → parse_rule_line x raw ≡ o
          → Adds (rules_of (raw ∷ lines)) r (add_lines x (raw ∷ lines) r)
      go rest err e = rw (rules_of, add_lines, e) (rest r)
      go rest (ok none) e = rw (rules_of, add_lines, e) (rest r)
      go rest (ok (some rule)) e =
          rw (rules_of, add_lines, e)
            (rule-Adds lines rule r (parse_rule_line-HasDomain x raw rule e) rest rule.bad_filter)

  found-new :
      (exception important : Bool) (name : Text)
      → found exception important name (new_compiled_rules x) ≡ false
  unfolding found new_compiled_rules match_rule_list
  found-new true true name = refl
  found-new true false name = refl
  found-new false true name = refl
  found-new false false name = refl

  is_blocked_by-found :
      (name : Text) (r : CompiledRules x)
      → AllNamed r
      → is_blocked_by x r name ≡ (
          not (found true true name r)
          && (found false true name r
              || (not (found true false name r) && found false false name r)))
  unfolding is_blocked_by found
  is_blocked_by-found name r (b, a, ib, ia) = ground (
    arith,
    match_domain_map-covered r.block_domains name b,
    match_domain_map-covered r.allow_domains name a,
    match_domain_map-covered r.important_block_domains name ib,
    match_domain_map-covered r.important_allow_domains name ia,
  )

  -- After `Rebuild`, a name is blocked exactly if the filter is on and the rules of the stored
  -- lines say so: unless an important exception is about it, by an important rule, or by any
  -- rule if no exception is about it. Lines that do not parse and those with `badfilter` count
  -- for nothing.
  pub is_blocked-rebuild :
      (lines : List Text) (domain : Text) (f : Filter x)
      → is_blocked x domain (rebuild x (ok lines) f).1
        ≡ (f.enabled && verdict (normalize_domain domain) (rules_of lines))
  unfolding is_blocked rebuild verdict
  is_blocked-rebuild lines domain f =
      let name = normalize_domain domain in
      let r = add_lines x lines (new_compiled_rules x) in
      let (named, founds) = add_lines-Adds lines (new_compiled_rules x) in
      let n : AllNamed r = named (unfold new_compiled_rules in (tt, tt, tt, tt)) in
      ground (
        arith,
        is_blocked_by-found name r n,
        founds true true name,
        found-new true true name,
        founds true false name,
        found-new true false name,
        founds false true name,
        found-new false true name,
        founds false false name,
        found-new false false name,
      )
