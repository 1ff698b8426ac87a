-- ===== src/Adblock/Loader.antt =====
-- `ParseRules` of adblock/loader.go: the rules of a downloaded list, each once. The lines are
-- those that `bufio.Scanner` reads.
pub mod Cancel
pub mod Append
pub mod Survivors
use dns_go.Base.{
  ℕ, zero, suc, Bool, not, List, [], ◌∷◌, ◌++◌, Option, none, some, ok, err, if◌then◌else◌, nat_eq,
  ◌==◌, length, keep,
}
use dns_go.Base.Map
use dns_go.Base.Map.{Map}
use dns_go.Base.Text.{Text, text_eq}
use dns_go.Adblock.Rule.{Regexp, Address, ParsedRule, parse_rule_lines, bad_filter_key}

-- `rules[i] = ""`
unfoldable pub blank_at : ℕ → List Text → List Text
blank_at i [] = []
blank_at zero (r ∷ rules) = [] ∷ rules
blank_at (suc i) (r ∷ rules) = r ∷ blank_at i rules

-- `rules` and `active`: the texts so far, and where each of them stands.
pub record Loaded : Type 0 where
  pub rules : List Text
  pub active : Map Text ℕ

-- The branch for a rule with `badfilter`: the rule with its key goes.
unfoldable pub cancel : Text → Loaded → Loaded
cancel key l = elim (Map.get key l.active) [
  | none ↦ l
  | some i ↦ record { rules = blank_at i l.rules; active = Map.delete key l.active }
]

-- The branch for any other rule: an earlier one with the same text goes.
unfoldable pub append_rule : Text → Loaded → Loaded
append_rule raw l =
    let rules : List Text = elim (Map.get raw l.active) [
      | none ↦ l.rules
      | some i ↦ blank_at i l.rules
    ] in
    record { rules = rules ++ raw ∷ []; active = Map.put raw (length rules) l.active }

-- The last loop: the texts that are not empty.
unfoldable pub compact : List Text → List Text
compact rules = keep (λ r. not (r == [])) rules

module _ (x : Regexp) where
  unfoldable pub load_rule : ParsedRule x → Loaded → Loaded
  load_rule rule l =
      if rule.bad_filter then cancel (bad_filter_key x rule) l else append_rule rule.raw l

  unfoldable pub load_rules : List (ParsedRule x) → Loaded → Loaded
  load_rules [] l = l
  load_rules (rule ∷ rules) l = load_rules rules (load_rule rule l)

  module _ (a : Address) where
    -- The loop over the lines; one that does not parse is passed over.
    unfoldable pub load_lines : List Text → Loaded → Loaded
    load_lines [] l = l
    load_lines (line ∷ lines) l =
        load_lines lines
          (elim (parse_rule_lines x a line) [ err ↦ l | ok rules ↦ load_rules rules l ])

    unfoldable pub parse_rules : List Text → List Text
    parse_rules lines = compact (load_lines lines (record { rules = []; active = [] })).rules
