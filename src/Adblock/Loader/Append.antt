-- ===== src/Adblock/Loader/Append.antt =====
-- Adding a rule to those that `ParseRules` of adblock/loader.go has read so far.
use dns_go.Base.{
  ℕ, zero, suc, ◌<◌, false, ◌||◌, List, [], ◌∷◌, ◌++◌, none, some, if◌then◌else◌, nat_eq, ◌==◌,
  length, contains, ◌≡◌, ◌≢◌, refl, ◌∙◌, ap, arith, Bool-cases, Option-cases, inl, inr,
  length-append,
}
use dns_go.Base.Map
use dns_go.Base.Map.{Map}
use dns_go.Base.Text.{Text, text_eq, text_beq_iff}
use dns_go.Adblock.Loader.{blank_at, Loaded, cancel, append_rule, compact}
use dns_go.Adblock.Loader.Cancel.{position, position-none, IsOnce, IsIndexed, Without}

contains-append :
    (k r : Text) (rules : List Text) → contains k (rules ++ r ∷ []) ≡ (contains k rules || r == k)
contains-append k r [] = ground arith
contains-append k r (q ∷ rules) = ground (arith, contains-append k r rules)

IsOnce-append :
    (r : Text) (rules : List Text)
    → IsOnce rules
    → (r ≢ [] → contains r rules ≡ false)
    → IsOnce (rules ++ r ∷ [])
IsOnce-append r [] once fresh = (λ _. refl, tt)
IsOnce-append r (q ∷ rules) (alone, once) fresh = (
  λ ne. ground (
    arith,
    contains-append q r rules,
    alone ne,
    text_beq_iff r q,
    text_beq_iff q r,
    fresh,
    text_beq_iff q [],
  ),
  IsOnce-append r rules once (λ ne. ground (arith, fresh ne)),
)

position-append :
    (k r : Text) (rules : List Text)
    → position k (rules ++ r ∷ []) ≡ elim (position k rules) [
      | some i ↦ some i
      | none ↦ if r == k then some (length rules) else none
    ]
position-append k r [] = ground arith
position-append k r (q ∷ rules) = ground (arith, position-append k r rules)

blank_at-append :
    (i : ℕ) (r : Text) (rules : List Text)
    → i < length rules
    → blank_at i (rules ++ r ∷ []) ≡ blank_at i rules ++ r ∷ []
unfolding blank_at
blank_at-append i r [] h = absurd (omega arith)
blank_at-append zero r (q ∷ rules) h = refl
blank_at-append (suc i) r (q ∷ rules) h = ap (λ l. q ∷ l) (blank_at-append i r rules (omega arith))

blank_at-end : (rules : List Text) → blank_at (length rules) (rules ++ [] ∷ []) ≡ rules ++ [] ∷ []
unfolding blank_at
blank_at-end [] = refl
blank_at-end (q ∷ rules) = ap (λ l. q ∷ l) (blank_at-end rules)

pub compact-append :
    (r : Text) (rules : List Text)
    → compact (rules ++ r ∷ []) ≡ compact rules ++ (if r == [] then [] else r ∷ [])
unfolding compact
compact-append r [] = ground arith
compact-append r (q ∷ rules) = ground (arith, compact-append r rules)

pub append_rule-cancel :
    (raw : Text) (l : Loaded)
    → append_rule raw l ≡ record {
      rules = (cancel raw l).rules ++ raw ∷ [];
      active = Map.put raw (length (cancel raw l).rules) l.active;
    }
unfolding append_rule cancel
append_rule-cancel raw l = elim (Option-cases (Map.get raw l.active)) [
  | inl e ↦ rw (append_rule, cancel, e)
  | inr (i, e) ↦ rw (append_rule, cancel, e)
]

pub appended-IsIndexed :
    (raw : Text) (l l' : Loaded)
    → Without raw l l'
    → IsIndexed
        (record { rules = l'.rules ++ raw ∷ []; active = Map.put raw (length l'.rules) l.active })
appended-IsIndexed raw l l' w = record {
  once = IsOnce-append raw l'.rules w.indexed.once (λ ne. position-none raw l'.rules (w.gone ne));
  placed = λ k ne. ground (
    arith,
    Map.get-put raw k (length l'.rules) l.active,
    position-append k raw l'.rules,
    text_beq_iff raw k,
    w.indexed.placed k ne,
    w.others k,
    w.gone,
  );
  blank = λ i h. elim (Bool-cases (raw == [])) [
    | inl empty ↦
        let e : raw ≡ [] = (text_beq_iff raw []).0 empty in
        let at_end : i ≡ length l'.rules =
          ground (arith, h, Map.get-put raw [] (length l'.rules) l.active, empty) in
        rw (e, at_end) (omega (arith, length-append l'.rules ([] ∷ [])), blank_at-end l'.rules)
    | inr named ↦
        let (inside, same) = w.indexed.blank i (
          ground (
            arith,
            h,
            Map.get-put raw [] (length l'.rules) l.active,
            named,
            w.others [],
            text_beq_iff raw [],
          )) in
        (
          omega (arith, inside, length-append l'.rules (raw ∷ [])),
          blank_at-append i raw l'.rules inside ∙ ap (λ t. t ++ raw ∷ []) same,
        )
  ];
}
