-- ===== src/Adblock/Rule.antt =====
-- The rules of adblock/rule.go: how a line is parsed. Regular expressions and addresses are those
-- of the packages regexp and net, the parameters `Regexp` and `Address`.
use dns_go.Base.{
  ℕ, Bool, false, not, ◌&&◌, ◌||◌, List, [], ◌∷◌, ◌++◌, Option, none, some, Result, ok, err,
  if◌then◌else◌, nat_eq, ◌==◌, leb, contains, any, is_nil,
}
use dns_go.Base.Text.{
  Text, codes, text_eq, has_prefix, has_suffix, has_byte, has_any, trim_prefix, trim_suffix,
  trim_space, to_lower, split, join, fields, cut_at,
}

pub record Regexp : Type 1 where
  pub Re : Type 0
  pub compile : Text → Result Re
  pub match_string : Re → Text → Bool
  pub quote_meta : Text → Text

pub record Address : Type 1 where
  pub IP : Type 0
  pub parse_ip : Text → Option IP
  pub is_loopback : IP → Bool
  pub is_unspecified : IP → Bool

pub data RuleKind : Type 0 where
  domain_kind : RuleKind
  domain_pattern_kind : RuleKind
  pattern_kind : RuleKind
  regex_kind : RuleKind

-- `strings.LastIndex(s, string(b))`: what stands before the last `b`, and what stands behind it.
unfoldable pub cut_last : ℕ → Text → Option (Text × Text)
cut_last b [] = none
cut_last b (c ∷ s) = elim (cut_last b s) [
  | some (l, r) ↦ some (c ∷ l, r)
  | none ↦ if c == b then some ([], s) else none
]

-- `s` up to the first of the bytes `bs`: `line[:strings.IndexAny(line, bs)]`.
unfoldable pub up_to_any : Text → Text → Text
up_to_any bs [] = []
up_to_any bs (c ∷ s) = if contains c bs then [] else c ∷ up_to_any bs s

unfoldable pub normalize_domain : Text → Text
normalize_domain domain = trim_suffix (to_lower (trim_space domain)) (codes ".")

unfoldable pub normalize_domain_pattern : Text → Text
normalize_domain_pattern pattern = to_lower (
    trim_suffix (trim_suffix (trim_suffix (trim_space pattern) (codes "|")) (codes "^"))
      (codes "."))

abbrev pub is_name_byte : ℕ → Bool
is_name_byte c =
    (leb b'a' c && leb c b'z')
    || ((leb b'0' c && leb c b'9') || (c == b'-' || (c == b'_' || c == b'.')))

abbrev pub every : (ℕ → Bool) → Text → Bool
every p s = not (any (λ c. not (p c)) s)

unfoldable pub is_plain_domain : Text → Bool
is_plain_domain domain =
    if domain == [] || has_any domain (codes "*^|/:")
    then false
    else every is_name_byte domain && has_byte b'.' domain

unfoldable pub looks_like_domain_pattern : Text → Bool
looks_like_domain_pattern raw =
    let pattern = normalize_domain_pattern raw in
    if pattern == []
      || (has_prefix pattern (codes ".")
          || (not (has_byte b'.' pattern) || has_any pattern (codes "/:|")))
    then false
    else every (λ c. is_name_byte c || c == b'*') pattern

-- One option: lower case, without `~` before it and without what follows `=`.
unfoldable pub option_name : Text → Text
option_name part =
    let name = trim_prefix (trim_space (to_lower part)) (codes "~") in
    elim (cut_at b'=' name) [ some (l, _) ↦ l | none ↦ name ]

unfoldable pub option_names : List Text → List Text
option_names [] = []
option_names (part ∷ parts) =
    if option_name part == [] then option_names parts else option_name part ∷ option_names parts

unfoldable pub parse_options : Text → List Text
parse_options raw = if raw == [] then [] else option_names (split raw b',')

unfoldable pub has_option : List Text → Text → Bool
has_option options want = any (λ o. o == want) options

unfoldable pub split_at_dollar : Text → Text × List Text
split_at_dollar line = elim (cut_at b'$' line) [
  | none ↦ (line, [])
  | some (pattern, options) ↦ (pattern, parse_options options)
]

-- A line that is a regular expression between slashes may have options behind the last slash.
unfoldable pub split_rule_options : Text → Text × List Text
split_rule_options line =
    if has_prefix line (codes "/")
    then elim (cut_last b'/' line) [
      | none ↦ split_at_dollar line
      | some ([], _) ↦ split_at_dollar line
      | some (c ∷ l, []) ↦ (line, [])
      | some (c ∷ l, d ∷ r) ↦
          if d == b'$' then ((c ∷ l) ++ codes "/", parse_options r) else (line, [])
    ]
    else split_at_dollar line

unfoldable pub kept_options : List Text → List Text
kept_options [] = []
kept_options (o ∷ os) =
    if o == codes "badfilter"
    then kept_options os
    else if o == codes "important"
    then o ∷ kept_options os
    else kept_options os

unfoldable pub canonical_rule : Text → List Text → Text
canonical_rule raw options =
    let pattern = to_lower (trim_space raw) in
    if is_nil options then pattern else elim (kept_options options) [
      | [] ↦ pattern
      | o ∷ os ↦ pattern ++ (codes "$" ++ join (o ∷ os) (codes ","))
    ]

module _ (x : Regexp) where
  open x use {Re, compile, match_string, quote_meta}

  pub record ParsedRule : Type 0 where
    pub raw : Text
    pub pattern : Text
    pub kind : RuleKind
    pub domain : Text
    pub exception : Bool
    pub important : Bool
    pub bad_filter : Bool
    pub re : Option Re

  unfoldable pub bad_filter_key : ParsedRule → Text
  bad_filter_key rule = canonical_rule (trim_prefix rule.pattern (codes "@@")) []

  unfoldable pub wildcard_to_regexp : Text → Text
  wildcard_to_regexp [] = []
  wildcard_to_regexp (c ∷ s) =
      if c == b'*'
      then codes ".*" ++ wildcard_to_regexp s
      else quote_meta (c ∷ []) ++ wildcard_to_regexp s

  unfoldable pub pattern_bytes : Text → Text
  pattern_bytes [] = []
  pattern_bytes (c ∷ s) =
      if c == b'*'
      then codes ".*" ++ pattern_bytes s
      else if c == b'^'
      then codes "(?:[^A-Za-z0-9_.%-]|$)" ++ pattern_bytes s
      else quote_meta (c ∷ []) ++ pattern_bytes s

  unfoldable pub adblock_pattern_to_regexp : Text → Text
  adblock_pattern_to_regexp raw =
      let anchored = has_prefix raw (codes "|") && not (has_prefix raw (codes "||")) in
      let pattern = if anchored then trim_prefix raw (codes "|") else raw in
      let end_anchored = has_suffix pattern (codes "|") in
      let body = if end_anchored then trim_suffix pattern (codes "|") else pattern in
      (if anchored then codes "^" else [])
      ++ (pattern_bytes body ++ (if end_anchored then codes "$" else []))

  -- A rule with the expression that it compiles to; an error where it does not compile.
  unfoldable pub with_expression : RuleKind → Text → ParsedRule → Result (Option ParsedRule)
  with_expression kind expr rule = elim (compile (codes "(?i)" ++ expr)) [
    | err ↦ err
    | ok re ↦ ok (some (record rule { kind = kind; re = some re }))
  ]

  unfoldable pub with_wildcard : Text → ParsedRule → Result (Option ParsedRule)
  with_wildcard domain rule =
      with_expression domain_pattern_kind
        (codes "(^|.*\\.)" ++ (wildcard_to_regexp domain ++ codes "$"))
        (record rule { domain = domain })

  -- The branches behind the one for `||`.
  unfoldable pub parse_other : ParsedRule → Result (Option ParsedRule)
  parse_other rule =
      let domain = normalize_domain_pattern rule.pattern in
      if looks_like_domain_pattern rule.pattern
      then if has_byte b'*' domain
        then with_wildcard domain rule
        else ok (some (record rule { domain = domain; kind = domain_kind }))
      else with_expression pattern_kind (adblock_pattern_to_regexp rule.pattern) rule

  -- The branches on the pattern of a rule.
  unfoldable pub parse_pattern : ParsedRule → Result (Option ParsedRule)
  parse_pattern rule =
      let domain = normalize_domain_pattern (trim_prefix rule.pattern (codes "||")) in
      if has_prefix rule.pattern (codes "/")
        && (has_suffix rule.pattern (codes "/") && not (rule.pattern == codes "/"))
      then with_expression regex_kind
          (trim_suffix (trim_prefix rule.pattern (codes "/")) (codes "/")) rule
      else if has_prefix rule.pattern (codes "||")
      then if domain == []
        then ok none
        else if has_byte b'*' domain
        then with_wildcard domain rule
        else if is_plain_domain domain
        then ok (some (record rule { domain = domain; kind = domain_kind }))
        else parse_other (record rule { domain = domain })
      else parse_other rule

  -- The rule that a pattern and its options make, before its kind is known: kind 0 and no domain.
  unfoldable pub new_rule : Text → List Text → ParsedRule
  new_rule pattern options =
      let exception = has_prefix pattern (codes "@@") in
      record {
        raw = canonical_rule pattern options;
        pattern =
            if exception then trim_prefix (to_lower pattern) (codes "@@") else to_lower pattern;
        kind = domain_kind;
        domain = [];
        exception = exception;
        important = has_option options (codes "important");
        bad_filter = has_option options (codes "badfilter");
        re = none;
      }

  -- `ok none` where the line holds no rule.
  unfoldable pub parse_rule_line : Text → Result (Option ParsedRule)
  parse_rule_line raw_line =
      let line = trim_space raw_line in
      if line == [] || (has_prefix line (codes "!") || has_prefix line (codes "#"))
      then ok none
      else let (raw_pattern, options) = split_rule_options line in
        let pattern = trim_space raw_pattern in
        if pattern == [] then ok none else parse_pattern (new_rule pattern options)

  module _ (a : Address) where
    open a use {parse_ip, is_loopback, is_unspecified}

    unfoldable pub plain_domains : List Text → List Text
    plain_domains [] = []
    plain_domains (f ∷ fs) =
        let domain = normalize_domain f in
        if is_plain_domain domain then domain ∷ plain_domains fs else plain_domains fs

    -- `none` where the line is not one of a hosts file.
    unfoldable pub parse_hosts_line : Text → Option (List Text)
    parse_hosts_line line = elim (fields (up_to_any (codes "#!") line)) [
      | [] ↦ none
      | _ ∷ [] ↦ none
      | f ∷ g ∷ fs ↦ elim (parse_ip f) [
        | none ↦ none
        | some ip ↦
            if not (is_loopback ip) && not (is_unspecified ip)
            then some []
            else some (plain_domains (g ∷ fs))
      ]
    ]

    unfoldable pub parse_domains : List Text → Result (List ParsedRule)
    parse_domains [] = ok []
    parse_domains (f ∷ fs) = elim (parse_rule_line f) [
      | err ↦ err
      | ok rule ↦ elim (parse_domains fs) [
        | err ↦ err
        | ok rules ↦ ok (elim rule [ none ↦ rules | some r ↦ r ∷ rules ])
      ]
    ]

    -- `ok []` where the line holds no rule.
    unfoldable pub parse_rule_lines : Text → Result (List ParsedRule)
    parse_rule_lines line = elim (parse_hosts_line line) [
      | some domains ↦ parse_domains domains
      | none ↦ elim (parse_rule_line line) [
        | err ↦ err
        | ok none ↦ ok []
        | ok (some rule) ↦ ok (rule ∷ [])
      ]
    ]
