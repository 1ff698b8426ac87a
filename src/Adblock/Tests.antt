-- ===== src/Adblock/Tests.antt =====
-- The ad blocking of adblock on a few lines.
use dns_go.Base.{Bool, true, false, ◌&&◌, ◌≡◌, refl, List, [], ◌∷◌, ok, none, nat_eq}
use dns_go.Base.Map
use dns_go.Base.Text
use dns_go.Base.Text.{Text, codes, text_beq, text_beq_iff}
use dns_go.Adblock.Rule
use dns_go.Adblock.Loader.{parse_rules}
use dns_go.Adblock.Loader
use dns_go.Adblock.Loader.Survivors.{survivors, rules_of_lines, parse_rules-survivors}
use dns_go.Adblock.Rule.{Address, Regexp, ParsedRule, normalize_domain, parse_rule_line}
use dns_go.Adblock.Filter
use dns_go.Adblock.Filter.{Filter, Names, is_blocked, rebuild, match_domain_map}
use dns_go.Adblock.Priority.{verdict, rules_of, is_blocked-rebuild}

-- An expression that matches its own text.
abbrev literal : Regexp
literal = record {
  Re = Text;
  compile = λ t. ok t;
  match_string = λ re t. text_beq re t;
  quote_meta = λ t. t;
}

abbrev lines : List Text
lines =
    codes "! a comment"
    ∷ codes "||Ads.example.com^"
    ∷ codes "@@||good.ads.example.com^"
    ∷ codes "||bad.good.ads.example.com^$important"
    ∷ codes "tracker.org"
    ∷ []

abbrev off : Filter literal
off = record { rules = none; enabled = true }

abbrev blocks : Text → Bool
blocks name = is_blocked literal name (rebuild literal (ok lines) off).1

program : Unit {0}
unfolding is_blocked rebuild Filter.add_lines Filter.new_compiled_rules Filter.add Filter.compiled
    Filter.is_blocked_by match_domain_map Filter.match_rounds Filter.has_name Filter.match_rule_list
    Filter.rule_matches Filter.candidates_of Map.get Map.put text_beq Text.has_prefix
    Text.has_suffix Text.trim_prefix Text.trim_suffix Text.trim_space Text.trim_left Text.trim_right
    Text.is_space Text.to_lower Text.has_byte Text.has_any Text.cut_at Text.split Text.join
    parse_rule_line Rule.cut_last Rule.normalize_domain Rule.normalize_domain_pattern
    Rule.is_plain_domain Rule.looks_like_domain_pattern Rule.option_name Rule.option_names
    Rule.parse_options Rule.has_option Rule.split_at_dollar Rule.split_rule_options
    Rule.kept_options Rule.canonical_rule Rule.wildcard_to_regexp Rule.pattern_bytes
    Rule.adblock_pattern_to_regexp Rule.with_expression Rule.with_wildcard Rule.parse_other
    Rule.parse_pattern Rule.new_rule
program = tt

priorities :
    (blocks (codes "www.ads.example.com.") ≡ true)
    × (blocks (codes "good.ads.example.com") ≡ false)
    × (blocks (codes "x.Bad.good.ads.example.com") ≡ true)
    × (blocks (codes "example.com") ≡ false)
    × (blocks (codes "tracker.org") ≡ true)
unfolding program
priorities = (refl, refl, refl, refl, refl)

is_blocked-rebuild_example :
    is_blocked literal (codes "www.ads.example.com.") (rebuild literal (ok lines) off).1 ≡ (
      true
      && verdict literal (normalize_domain (codes "www.ads.example.com.")) (rules_of literal lines))
is_blocked-rebuild_example = is_blocked-rebuild literal lines (codes "www.ads.example.com.") off

-- No text is an address.
abbrev no_address : Address
no_address = record {
  IP = Unit {0};
  parse_ip = λ t. none;
  is_loopback = λ ip. false;
  is_unspecified = λ ip. false;
}

-- The first rule stands twice, and the second is taken back.
abbrev list : List Text
list = codes "a.org" ∷ codes "b.org" ∷ codes "A.org" ∷ codes "c.org" ∷ codes "b.org$badfilter" ∷ []

loaded : parse_rules literal no_address list ≡ codes "a.org" ∷ codes "c.org" ∷ []
unfolding program parse_rules Loader.load_lines Loader.load_rules Loader.load_rule Loader.compact
    Loader.append_rule Loader.cancel Loader.blank_at Rule.parse_rule_lines Rule.parse_hosts_line
    Rule.bad_filter_key Text.fields Rule.up_to_any Map.delete
loaded = refl

parse_rules-survivors_example :
    parse_rules literal no_address list ≡ survivors literal (rules_of_lines literal no_address list)
parse_rules-survivors_example = parse_rules-survivors literal no_address list
