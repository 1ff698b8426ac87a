-- ===== src/Adblock/Suffix.antt =====
-- `matchDomainMap` of adblock/filter.go against a look at every name of the map.
use dns_go.Base.{
  ℕ, zero, suc, ◌≤◌, Bool, false, ◌||◌, [], ◌∷◌, Option, none, some, nat_eq, ◌==◌, any, length, ◌≡◌,
  ◌≢◌, refl, arith, All, Bool-cases, Option-cases, inl, inr, nat_beq_iff, ◌+◌,
}
use dns_go.Base.Map
use dns_go.Base.Map.{Map}
use dns_go.Base.Text.{Text, text_eq, text_beq_iff, has_suffix, cut_at}
use dns_go.Adblock.Filter.{Names, has_name, match_rounds, match_domain_map}

-- A name is a domain, or lies below it.
abbrev pub covers : Text → Text → Bool
covers domain name = name == domain || has_suffix name (b'.' ∷ domain)

abbrev pub IsNamed : Names → Type 0
IsNamed = All (λ x. x.0 ≢ [])

has_suffix-none :
    (name domain : Text) → cut_at b'.' name ≡ none → has_suffix name (b'.' ∷ domain) ≡ false
unfolding has_suffix cut_at
has_suffix-none [] domain h = ground (arith, text_beq_iff [] (b'.' ∷ domain))
has_suffix-none (c ∷ name) domain h = ground (
  arith,
  has_suffix-none name domain,
  text_beq_iff (c ∷ name) (b'.' ∷ domain),
  nat_beq_iff c b'.',
)

has_suffix-cut_at :
    (name domain label rest : Text)
    → cut_at b'.' name ≡ some (label, rest)
    → has_suffix name (b'.' ∷ domain) ≡ covers domain rest
unfolding has_suffix cut_at
has_suffix-cut_at [] domain label rest h = absurd (ground arith)
has_suffix-cut_at (c ∷ name) domain label rest h = elim (Bool-cases (c == b'.')) [
  | inl dot ↦ ground (
    arith,
    dot,
    text_beq_iff (c ∷ name) (b'.' ∷ domain),
    text_beq_iff rest domain,
    nat_beq_iff c b'.',
  )
  | inr other ↦ elim (Option-cases (cut_at b'.' name)) [
    | inl nothing ↦ absurd (ground (arith, other, nothing))
    | inr ((l, r), cut) ↦ ground (
      arith,
      other,
      cut,
      has_suffix-cut_at name domain l r cut,
      text_beq_iff (c ∷ name) (b'.' ∷ domain),
      nat_beq_iff c b'.',
    )
  ]
]

cut_at-shorter :
    (name label rest : Text) → cut_at b'.' name ≡ some (label, rest) → length rest + 1 ≤ length name
unfolding cut_at
cut_at-shorter [] label rest h = absurd (ground arith)
cut_at-shorter (c ∷ name) label rest h = elim (Option-cases (cut_at b'.' name)) [
  | inl nothing ↦ ground (arith, nothing)
  | inr ((l, r), cut) ↦ ground (arith, cut, cut_at-shorter name l r cut)
]

-- The names of a map that cover a name.
abbrev pub covered : Names → Text → Bool
covered domains name = any (λ x. covers x.0 name) domains

any-or :
    (domains : Names) (p q r : Text × Unit {0} → Bool)
    → ((x : Text × Unit {0}) → p x ≡ (q x || r x))
    → any p domains ≡ (any q domains || any r domains)
any-or [] p q r h = refl
any-or (x ∷ domains) p q r h = ground (arith, h x, any-or domains p q r h)

has_name-any :
    (domains : Names) (name : Text) → has_name name domains ≡ any (λ x. name == x.0) domains
unfolding has_name Map.get
has_name-any [] name = refl
has_name-any ((k, u) ∷ domains) name =
    ground (arith, has_name-any domains name, text_beq_iff k name, text_beq_iff name k)

covered-split :
    (domains : Names) (name label rest : Text)
    → cut_at b'.' name ≡ some (label, rest)
    → covered domains name ≡ (has_name name domains || covered domains rest)
covered-split domains name label rest cut = rw has_name-any (
    any-or domains (λ x. covers x.0 name) (λ x. name == x.0) (λ x. covers x.0 rest)
      (λ x. ground (arith, has_suffix-cut_at name x.0 label rest cut)))

covered-last :
    (domains : Names) (name : Text)
    → cut_at b'.' name ≡ none
    → covered domains name ≡ has_name name domains
unfolding has_name Map.get
covered-last [] name cut = refl
covered-last ((k, u) ∷ domains) name cut = ground (
  arith,
  covered-last domains name cut,
  has_suffix-none name k cut,
  text_beq_iff k name,
  text_beq_iff name k,
)

covered-empty : (domains : Names) → IsNamed domains → covered domains [] ≡ false
unfolding has_suffix
covered-empty [] h = refl
covered-empty ((k, u) ∷ domains) (named, h) =
    ground (arith, covered-empty domains h, named, text_beq_iff [] k, text_beq_iff [] (b'.' ∷ k))

match_rounds-covered :
    (rounds : ℕ) (domains : Names) (name : Text)
    → IsNamed domains
    → length name ≤ rounds
    → match_rounds rounds domains name ≡ covered domains name
unfolding match_rounds
match_rounds-covered zero domains [] named h = ground (arith, covered-empty domains named)
match_rounds-covered zero domains (c ∷ name) named h = absurd (omega arith)
match_rounds-covered (suc rounds) domains [] named h =
    ground (arith, covered-empty domains named, text_beq_iff [] [])
match_rounds-covered (suc rounds) domains (c ∷ name) named h =
    go (λ rest shorter. match_rounds-covered rounds domains rest named shorter)
      (cut_at b'.' (c ∷ name)) refl
  where
    go :
        ((rest : Text)
          → length rest ≤ rounds
          → match_rounds rounds domains rest ≡ covered domains rest)
        → (o : Option (Text × Text)) → cut_at b'.' (c ∷ name) ≡ o
        → match_rounds (suc rounds) domains (c ∷ name) ≡ covered domains (c ∷ name)
    go below none cut =
        ground (arith, cut, covered-last domains (c ∷ name) cut, text_beq_iff (c ∷ name) [])
    go below (some (l, [])) cut = ground (
      arith,
      cut,
      covered-split domains (c ∷ name) l [] cut,
      covered-empty domains named,
      text_beq_iff (c ∷ name) [],
    )
    go below (some (l, d ∷ rest)) cut = ground (
      arith,
      cut,
      covered-split domains (c ∷ name) l (d ∷ rest) cut,
      below (d ∷ rest) (omega (arith, cut_at-shorter (c ∷ name) l (d ∷ rest) cut, h)),
      text_beq_iff (c ∷ name) [],
    )

-- The walk from label to label finds a name exactly if some domain of the map is that name or
-- one above it; the domains are not empty.
pub match_domain_map-covered :
    (domains : Names) (name : Text)
    → IsNamed domains
    → match_domain_map domains name ≡ covered domains name
unfolding match_domain_map
match_domain_map-covered domains name named =
    match_rounds-covered (length name) domains name named (omega arith)
