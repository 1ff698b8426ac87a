-- ===== src/Adblock/Named.antt =====
-- The domain that `parseRuleLine` of adblock/rule.go gives to a rule for a domain is never empty.
use dns_go.Base.{
  Bool, true, false, not, ◌&&◌, ◌||◌, [], ◌++◌, Option, none, some, Result, ok, err, Result-cases,
  Bool-cases, inl, inr, nat_eq, ◌==◌, ◌≡◌, ◌≢◌, refl, arith,
}
use dns_go.Base.Text.{
  Text, codes, text_eq, text_beq_iff, has_prefix, has_suffix, has_byte, trim_prefix, trim_space,
}
use dns_go.Adblock.Rule.{
  Regexp, RuleKind, domain_kind, ParsedRule, parse_rule_line, parse_pattern, parse_other, new_rule,
  with_expression, with_wildcard, looks_like_domain_pattern, normalize_domain_pattern,
  is_plain_domain, split_rule_options, domain_pattern_kind, pattern_kind, regex_kind,
}
use dns_go.Adblock.Filter.{is_domain_rule}

module _ (x : Regexp) where
  open x use {compile}

  abbrev pub HasDomain : ParsedRule x → Type 0
  HasDomain rule = is_domain_rule x rule ≡ true → rule.domain ≢ []

  -- A rule that was parsed has a domain where its kind asks for one.
  abbrev AllNamed : Result (Option (ParsedRule x)) → Type 0
  AllNamed err = Unit
  AllNamed (ok none) = Unit
  AllNamed (ok (some rule)) = HasDomain rule

  with_expression-AllNamed :
      (kind : RuleKind) (expr : Text) (rule : ParsedRule x)
      → kind ≢ domain_kind
      → AllNamed (with_expression x kind expr rule)
  unfolding with_expression
  with_expression-AllNamed kind expr rule other =
      elim (Result-cases (compile (codes "(?i)" ++ expr))) [
        | inl e ↦ rw (e, with_expression) tt
        | inr (re, e) ↦ rw (e, with_expression) (λ h. absurd (no_domain kind other h))
      ]
    where
      no_domain :
          (k : RuleKind)
          → k ≢ domain_kind
          → elim k as (λ _. Bool) [ domain_kind ↦ true | _ ↦ false ] ≡ true
          → ⊥
      no_domain domain_kind n h = n refl
      no_domain domain_pattern_kind n h = absurd (ground arith)
      no_domain pattern_kind n h = absurd (ground arith)
      no_domain regex_kind n h = absurd (ground arith)

  with_wildcard-AllNamed :
      (domain : Text) (rule : ParsedRule x) → AllNamed (with_wildcard x domain rule)
  unfolding with_wildcard
  with_wildcard-AllNamed domain rule =
      with_expression-AllNamed domain_pattern_kind _ _ (ground arith)

  parse_other-AllNamed : (rule : ParsedRule x) → AllNamed (parse_other x rule)
  unfolding parse_other
  parse_other-AllNamed rule = elim (Bool-cases (looks_like_domain_pattern rule.pattern)) [
    | inr odd ↦ rw odd (with_expression-AllNamed pattern_kind _ rule (ground arith))
    | inl nice ↦ elim (Bool-cases (has_byte b'*' (normalize_domain_pattern rule.pattern))) [
      | inl star ↦ rw (nice, star) (with_wildcard-AllNamed _ rule)
      | inr plain ↦
          rw (nice, plain)
            (λ _ e.
              unfold looks_like_domain_pattern in
              ground (arith, nice, e, text_beq_iff (normalize_domain_pattern rule.pattern) []))
    ]
  ]

  parse_pattern-AllNamed : (rule : ParsedRule x) → AllNamed (parse_pattern x rule)
  unfolding parse_pattern
  parse_pattern-AllNamed rule =
      let domain = normalize_domain_pattern (trim_prefix rule.pattern (codes "||")) in
      elim (Bool-cases (
        has_prefix rule.pattern (codes "/")
        && (has_suffix rule.pattern (codes "/") && not (rule.pattern == codes "/")))) [
          | inl slashes ↦ rw slashes (with_expression-AllNamed regex_kind _ rule (ground arith))
          | inr text ↦ elim (Bool-cases (has_prefix rule.pattern (codes "||"))) [
            | inr bare ↦ rw (text, bare) (parse_other-AllNamed rule)
            | inl bars ↦ elim (Bool-cases (domain == [])) [
              | inl empty ↦ rw (text, bars, empty) tt
              | inr named ↦ elim (Bool-cases (has_byte b'*' domain)) [
                | inl star ↦ rw (text, bars, named, star) (with_wildcard-AllNamed domain rule)
                | inr plain ↦ elim (Bool-cases (is_plain_domain domain)) [
                  | inr odd ↦ rw (text, bars, named, plain, odd) (parse_other-AllNamed _)
                  | inl fine ↦
                      rw (text, bars, named, plain, fine)
                        (λ _ e. ground (arith, named, e, text_beq_iff domain []))
                ]
              ]
            ]
          ]
        ]

  pub parse_rule_line-HasDomain :
      (line : Text) (rule : ParsedRule x) → parse_rule_line x line ≡ ok (some rule) → HasDomain rule
  unfolding parse_rule_line
  parse_rule_line-HasDomain line rule h =
      let t = trim_space line in
      let (raw, options) = split_rule_options t in
      let pattern = trim_space raw in
      elim (Bool-cases (t == [] || (has_prefix t (codes "!") || has_prefix t (codes "#")))) [
        | inl comment ↦ absurd (ground (arith, comment))
        | inr text ↦ elim (Bool-cases (pattern == [])) [
          | inl empty ↦ absurd (ground (arith, text, empty))
          | inr there ↦
              let e : parse_pattern x (new_rule x pattern options) ≡ ok (some rule) =
                rw (text, there) at h in
              rw e at (parse_pattern-AllNamed (new_rule x pattern options))
        ]
      ]
