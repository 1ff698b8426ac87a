-- ===== src/Adblock/Loader/Survivors.antt =====
-- Which rules `ParseRules` of adblock/loader.go returns.
use dns_go.Base.{
  Bool, false, not, ◌&&◌, ◌||◌, List, [], ◌∷◌, ◌++◌, Result, ok, err, if◌then◌else◌, nat_eq, ◌==◌,
  keep, any, ◌≡◌, refl, ◌∙◌, sym, ap, arith, Bool-cases, inl, inr, append_assoc, append-nil,
}
use dns_go.Base.Map
use dns_go.Base.Map.{Map}
use dns_go.Base.Text.{Text, text_eq, text_beq_iff}
use dns_go.Adblock.Rule.{Regexp, Address, ParsedRule, parse_rule_lines, bad_filter_key}
use dns_go.Adblock.Loader.{Loaded, cancel, compact, load_rule, load_rules, load_lines, parse_rules}
use dns_go.Adblock.Loader.Cancel.{IsIndexed, cancel-Without}
use dns_go.Adblock.Loader.Append.{append_rule-cancel, appended-IsIndexed, compact-append}

keep-append : (p : Text → Bool) (xs ys : List Text) → keep p (xs ++ ys) ≡ keep p xs ++ keep p ys
keep-append p [] ys = refl
keep-append p (x ∷ xs) ys = ground (arith, keep-append p xs ys)

keep-and :
    (p q r : Text → Bool) (xs : List Text)
    → ((a : Text) → r a ≡ (p a && q a))
    → keep p (keep q xs) ≡ keep r xs
keep-and p q r [] h = refl
keep-and p q r (a ∷ xs) h = ground (arith, h a, keep-and p q r xs h)

module _ (x : Regexp) where
  -- A rule takes earlier ones with this text away: it has the text, or is a `badfilter` for it.
  abbrev pub cancels : Text → ParsedRule x → Bool
  cancels text rule = if rule.bad_filter then bad_filter_key x rule == text else rule.raw == text

  -- The texts of the rules that no later rule takes away, without the empty ones.
  unfoldable pub survivors : List (ParsedRule x) → List Text
  survivors [] = []
  survivors (rule ∷ rules) =
      if rule.bad_filter || (rule.raw == [] || any (cancels rule.raw) rules)
      then survivors rules
      else rule.raw ∷ survivors rules

  abbrev kept_texts : List (ParsedRule x) → Loaded → List Text
  kept_texts rules l = keep (λ t. not (any (cancels t) rules)) (compact l.rules) ++ survivors rules

  load_rule-kept_texts :
      (rule : ParsedRule x) (rules : List (ParsedRule x)) (l : Loaded)
      → IsIndexed l
      → IsIndexed (load_rule x rule l)
        × (kept_texts rules (load_rule x rule l) ≡ kept_texts (rule ∷ rules) l)
  unfolding load_rule survivors
  load_rule-kept_texts rule rules l v = elim (Bool-cases rule.bad_filter) [
    | inl bad ↦
        let w = cancel-Without (bad_filter_key x rule) l v in
        (
          ground (arith, bad, w.indexed),
          ground (
            arith,
            bad,
            w.rest,
            keep-and (λ t. not (any (cancels t) rules)) (λ t. not (t == bad_filter_key x rule))
                (λ t. not (any (cancels t) (rule ∷ rules))) (compact l.rules)
                (λ a. ground (
                  arith,
                  bad,
                  text_beq_iff a (bad_filter_key x rule),
                  text_beq_iff (bad_filter_key x rule) a,
                )),
          ),
        )
    | inr good ↦
        let w = cancel-Without rule.raw l v in
        let p : Text → Bool = λ t. not (any (cancels t) rules) in
        let c = cancel rule.raw l in
        let tail : List Text = if rule.raw == [] then [] else rule.raw ∷ [] in
        (
          rw (good, append_rule-cancel) (appended-IsIndexed rule.raw l c w),
          rw (good, append_rule-cancel)
              (ground (
                arith,
                good,
                compact-append rule.raw c.rules,
                keep-append p (compact c.rules) tail,
                w.rest,
                append_assoc (keep p (compact c.rules)) (keep p tail) (survivors rules),
                keep-and p (λ t. not (t == rule.raw)) (λ t. not (any (cancels t) (rule ∷ rules)))
                    (compact l.rules)
                    (λ a. ground (arith, good, text_beq_iff a rule.raw, text_beq_iff rule.raw a)),
              )),
        )
  ]

  load_rules-kept_texts :
      (rules more : List (ParsedRule x)) (l : Loaded)
      → IsIndexed l
      → IsIndexed (load_rules x rules l)
        × (kept_texts more (load_rules x rules l) ≡ kept_texts (rules ++ more) l)
  unfolding load_rules
  load_rules-kept_texts [] more l v = (v, refl)
  load_rules-kept_texts (rule ∷ rules) more l v =
      let (v', kept) = load_rule-kept_texts rule (rules ++ more) l v in
      let (v'', kept') = load_rules-kept_texts rules more (load_rule x rule l) v' in
      (v'', kept' ∙ kept)

  module _ (a : Address) where
    -- The rules of all lines, in their order; a line that does not parse has none.
    unfoldable pub rules_of_lines : List Text → List (ParsedRule x)
    rules_of_lines [] = []
    rules_of_lines (line ∷ lines) = elim (parse_rule_lines x a line) [
      | err ↦ rules_of_lines lines
      | ok rules ↦ rules ++ rules_of_lines lines
    ]

    load_lines-kept_texts :
        (lines : List Text) (l : Loaded)
        → IsIndexed l
        → kept_texts [] (load_lines x a lines l) ≡ kept_texts (rules_of_lines lines) l
    unfolding load_lines rules_of_lines
    load_lines-kept_texts [] l v = refl
    load_lines-kept_texts (line ∷ lines) l v =
        go (λ l' v'. load_lines-kept_texts lines l' v') (parse_rule_lines x a line) refl
      where
        go :
            ((l' : Loaded)
              → IsIndexed l'
              → kept_texts [] (load_lines x a lines l') ≡ kept_texts (rules_of_lines lines) l')
            → (o : Result (List (ParsedRule x))) → parse_rule_lines x a line ≡ o
            → kept_texts [] (load_lines x a (line ∷ lines) l)
              ≡ kept_texts (rules_of_lines (line ∷ lines)) l
        go rest err e = rw (load_lines, rules_of_lines, e) (rest l v)
        go rest (ok rules) e =
            let (v', kept) = load_rules-kept_texts rules (rules_of_lines lines) l v in
            rw (load_lines, rules_of_lines, e) (rest (load_rules x rules l) v' ∙ kept)

    keep_all : (ts : List Text) → keep (λ t. not false) ts ≡ ts
    keep_all [] = refl
    keep_all (t ∷ ts) = ap (λ l. t ∷ l) (keep_all ts)

    -- The list is loaded to exactly the texts of its rules that no later rule takes away, in
    -- their order: a later rule does so that has the same text, or is a `badfilter` with the
    -- text as its key.
    pub parse_rules-survivors :
        (lines : List Text) → parse_rules x a lines ≡ survivors (rules_of_lines lines)
    unfolding parse_rules survivors Map.get
    parse_rules-survivors lines =
        sym (append-nil _)
        ∙ ap (λ t. t ++ []) (sym (keep_all _))
        ∙ load_lines-kept_texts lines (record { rules = []; active = [] }) new
        ∙ (unfold compact in refl)
      where
        new : IsIndexed (record { rules = []; active = [] })
        new = record { once = tt; placed = λ k ne. refl; blank = λ i h. absurd (ground arith) }
