-- ===== src/Adblock/Loader/Cancel.antt =====
-- Taking a rule out of those that `ParseRules` of adblock/loader.go has read so far.
use dns_go.Base.{
  ℕ, zero, suc, ◌<◌, false, not, List, [], ◌∷◌, Option, none, some, if◌then◌else◌, nat_eq, ◌==◌,
  length, keep, contains, ◌≡◌, ◌≢◌, refl, ◌∙◌, sym, ap, arith, Bool-cases, Option-cases, inl, inr,
}
use dns_go.Base.Map
use dns_go.Base.Map.{Map}
use dns_go.Base.Text.{Text, text_eq, text_beq_iff}
use dns_go.Adblock.Loader.{blank_at, Loaded, cancel, compact}

-- Where a text stands first.
abbrev pub position : Text → List Text → Option ℕ
position k [] = none
position k (r ∷ rules) =
    if r == k then some 0 else elim (position k rules) [ none ↦ none | some i ↦ some (suc i) ]

-- No text but the empty one stands twice.
abbrev pub IsOnce : List Text → Type 0
IsOnce [] = Unit
IsOnce (r ∷ rules) = (r ≢ [] → contains r rules ≡ false) × IsOnce rules

-- `active` says where each text stands; where the empty text stands, blanking changes nothing.
pub record IsIndexed (l : Loaded) : Type 0 where
  pub once : IsOnce l.rules
  pub placed : (k : Text) → k ≢ [] → Map.get k l.active ≡ position k l.rules
  pub blank :
      (i : ℕ) → Map.get [] l.active ≡ some i → (i < length l.rules) × (blank_at i l.rules ≡ l.rules)

keep-absent :
    (k : Text) (rules : List Text)
    → contains k rules ≡ false
    → keep (λ r. not (r == k)) (compact rules) ≡ compact rules
unfolding compact
keep-absent k [] h = refl
keep-absent k (r ∷ rules) h = ground (arith, keep-absent k rules)

pub position-none :
    (k : Text) (rules : List Text) → position k rules ≡ none → contains k rules ≡ false
position-none k [] h = refl
position-none k (r ∷ rules) h = elim (Option-cases (position k rules)) [
  | inl e ↦ ground (arith, e, position-none k rules e)
  | inr (i, e) ↦ ground (arith, e)
]

position-absent :
    (k : Text) (rules : List Text) → contains k rules ≡ false → position k rules ≡ none
position-absent k [] h = refl
position-absent k (r ∷ rules) h = ground (arith, position-absent k rules)

compact-blank_at :
    (k : Text) (rules : List Text) (i : ℕ)
    → k ≢ []
    → IsOnce rules
    → position k rules ≡ some i
    → compact (blank_at i rules) ≡ keep (λ r. not (r == k)) (compact rules)
unfolding compact blank_at
compact-blank_at k [] i ne once h = absurd (ground arith)
compact-blank_at k (r ∷ rules) i ne (alone, once) h = elim (Bool-cases (r == k)) [
  | inl here ↦
      let e : i ≡ 0 = ground (arith, here) in
      rw e (
        ground (
          arith,
          here,
          alone,
          text_beq_iff r k,
          text_beq_iff r [],
          text_beq_iff [] [],
          keep-absent k rules,
        ))
  | inr other ↦ elim (Option-cases (position k rules)) [
    | inl nothing ↦ absurd (ground (arith, other, nothing))
    | inr (j, found) ↦
        let e : i ≡ suc j = ground (arith, other, found) in
        rw e (ground (arith, other, compact-blank_at k rules j ne once found))
  ]
]

contains-blank_at :
    (k : Text) (rules : List Text) (i : ℕ)
    → k ≢ []
    → contains k rules ≡ false
    → contains k (blank_at i rules) ≡ false
unfolding blank_at
contains-blank_at k [] i ne h = refl
contains-blank_at k (r ∷ rules) zero ne h = ground (arith, text_beq_iff [] k)
contains-blank_at k (r ∷ rules) (suc i) ne h = ground (arith, contains-blank_at k rules i ne)

blank_at-IsOnce : (rules : List Text) (i : ℕ) → IsOnce rules → IsOnce (blank_at i rules)
unfolding blank_at
blank_at-IsOnce [] i h = h
blank_at-IsOnce (r ∷ rules) zero (alone, once) = (λ ne. absurd (ne refl), once)
blank_at-IsOnce (r ∷ rules) (suc i) (alone, once) =
    (λ ne. contains-blank_at r rules i ne (alone ne), blank_at-IsOnce rules i once)

length-blank_at : (rules : List Text) (i : ℕ) → length (blank_at i rules) ≡ length rules
unfolding blank_at
length-blank_at [] i = refl
length-blank_at (r ∷ rules) zero = refl
length-blank_at (r ∷ rules) (suc i) = ap suc (length-blank_at rules i)

-- Blanking a text moves no other, and takes the text away.
position-blank_at :
    (k j : Text) (rules : List Text) (i : ℕ)
    → k ≢ []
    → j ≢ []
    → IsOnce rules
    → position k rules ≡ some i
    → position j (blank_at i rules) ≡ (if k == j then none else position j rules)
unfolding blank_at
position-blank_at k j [] i nk nj once h = absurd (ground arith)
position-blank_at k j (r ∷ rules) i nk nj (alone, once) h = elim (Bool-cases (r == k)) [
  | inl here ↦
      let e : i ≡ 0 = ground (arith, here) in
      rw e (
        ground (
          arith,
          here,
          alone,
          text_beq_iff r k,
          text_beq_iff k j,
          text_beq_iff r j,
          text_beq_iff [] j,
          position-absent j rules,
        ))
  | inr other ↦ elim (Option-cases (position k rules)) [
    | inl nothing ↦ absurd (ground (arith, other, nothing))
    | inr (n, found) ↦
        let e : i ≡ suc n = ground (arith, other, found) in
        rw e (
          ground (
            arith,
            other,
            text_beq_iff r k,
            text_beq_iff k j,
            text_beq_iff r j,
            position-blank_at k j rules n nk nj once found,
          ))
  ]
]

keep-compact : (rules : List Text) → keep (λ r. not (r == [])) (compact rules) ≡ compact rules
unfolding compact
keep-compact [] = refl
keep-compact (r ∷ rules) = ground (arith, keep-compact rules)

-- The text is gone, and nothing else.
pub record Without (k : Text) (l l' : Loaded) : Type 0 where
  pub indexed : IsIndexed l'
  pub rest : compact l'.rules ≡ keep (λ r. not (r == k)) (compact l.rules)
  pub gone : k ≢ [] → position k l'.rules ≡ none
  pub others : (j : Text) → j ≢ k → Map.get j l'.active ≡ Map.get j l.active

blank_at-swap :
    (n i : ℕ) (rules : List Text)
    → blank_at n rules ≡ rules
    → blank_at n (blank_at i rules) ≡ blank_at i rules
unfolding blank_at
blank_at-swap n i [] h = refl
blank_at-swap zero zero (r ∷ rules) h = refl
blank_at-swap zero (suc i) (r ∷ rules) h = ground (arith, h)
blank_at-swap (suc n) zero (r ∷ rules) h = ground (arith, h)
blank_at-swap (suc n) (suc i) (r ∷ rules) h = ground (arith, h, blank_at-swap n i rules)

deleted-get : (k j : Text) (m : Map Text ℕ) → j ≢ k → Map.get j (Map.delete k m) ≡ Map.get j m
deleted-get k j m ne = ground (arith, Map.get-delete k j m, text_beq_iff k j)

pub cancel-Without : (k : Text) (l : Loaded) → IsIndexed l → Without k l (cancel k l)
unfolding cancel
cancel-Without k l v = elim (Option-cases (Map.get k l.active)) [
  | inl absent ↦ elim (Bool-cases (k == [])) [
    | inl empty ↦
        rw (absent, cancel)
          record {
            indexed = v;
            rest = rw ((text_beq_iff k []).0 empty) (sym (keep-compact l.rules));
            gone = λ ne. absurd (ne ((text_beq_iff k []).0 empty));
            others = λ j ne. refl;
          }
    | inr named ↦
        let ne : k ≢ [] = ground (arith, named, text_beq_iff k []) in
        let nowhere : position k l.rules ≡ none = sym (v.placed k ne) ∙ absent in
        rw (absent, cancel)
          record {
            indexed = v;
            rest = sym (keep-absent k l.rules (position-none k l.rules nowhere));
            gone = λ _. nowhere;
            others = λ j ne'. refl;
          }
  ]
  | inr (i, found) ↦ rw (found, cancel) (blanked i found)
]
  where
    blanked :
        (i : ℕ)
        → Map.get k l.active ≡ some i
        → Without k l (record { rules = blank_at i l.rules; active = Map.delete k l.active })
    blanked i found = elim (Bool-cases (k == [])) [
      | inl empty ↦
          let e : k ≡ [] = (text_beq_iff k []).0 empty in
          let (inside, same) = v.blank i (rw e at found) in
          record {
            indexed = record {
              once = rw same v.once;
              placed =
                  λ j ne. rw (same, deleted-get k j l.active (λ q. ne (q ∙ e))) (v.placed j ne);
              blank = λ n h. absurd (ground (arith, h, Map.get-delete k [] l.active, empty));
            };
            rest = rw (same, e) (sym (keep-compact l.rules));
            gone = λ ne. absurd (ne e);
            others = λ j ne. deleted-get k j l.active ne;
          }
      | inr named ↦
          let ne : k ≢ [] = ground (arith, named, text_beq_iff k []) in
          let here : position k l.rules ≡ some i = sym (v.placed k ne) ∙ found in
          record {
            indexed = record {
              once = blank_at-IsOnce l.rules i v.once;
              placed = λ j nj. ground (
                arith,
                Map.get-delete k j l.active,
                v.placed j nj,
                position-blank_at k j l.rules i ne nj v.once here,
              );
              blank = λ n h.
                  let (inside, same) =
                    v.blank n (ground (arith, h, Map.get-delete k [] l.active)) in
                  (
                    omega (arith, inside, length-blank_at l.rules i),
                    blank_at-swap n i l.rules same,
                  );
            };
            rest = compact-blank_at k l.rules i ne v.once here;
            gone = λ _.
                ground (arith, position-blank_at k k l.rules i ne ne v.once here, text_beq_iff k k);
            others = λ j nj. deleted-get k j l.active nj;
          }
    ]
