-- ===== src/Storage/OneLevel.antt =====
-- Which wildcards `findWildcardRecords` of storage/record.go uses: those of the parent alone.
use dns_go.Base.{
  true, false, not, ◌&&◌, ◌||◌, List, [], ◌∷◌, ◌++◌, if◌then◌else◌, nat_eq, ◌==◌, All, ◌≡◌, ◌≢◌,
  refl, ◌∙◌, sym, ap, arith, append_assoc, nat_beq_iff,
}
use dns_go.Base.Text
use dns_go.Base.Text.{
  Text, codes, text_eq, text_beq_iff, has_suffix, has_prefix, has_byte, trim_prefix, trim_suffix,
  split, join,
}
use dns_go.Storage.Types.{Record}
use dns_go.Storage.Wildcard.{
  is_valid_wildcard_match, matches, wildcard_rounds, find_wildcard_records,
}

-- A domain name of some labels, with the dot at its end.
abbrev pub dotted : List Text → Text
dotted labels = join labels (codes ".") ++ codes "."

-- What a wildcard answers: copies under another name of the enabled records that stand at a name
-- and have a type.
abbrev pub answers : Text → Text → Text → List Record → List Record
answers at_name new_name kind [] = []
answers at_name new_name kind (r ∷ rs) =
    if r.name == at_name && (r.record_type == kind && r.enabled)
    then record r { name = new_name } ∷ answers at_name new_name kind rs
    else answers at_name new_name kind rs

abbrev wildcard : Text → Text
wildcard suffix = b'*' ∷ b'.' ∷ suffix

trim_prefix-wildcard : (suffix : Text) → trim_prefix (wildcard suffix) (codes "*.") ≡ suffix
unfolding trim_prefix has_prefix
trim_prefix-wildcard suffix = refl

is_valid-split :
    (prefix suffix : Text)
    → suffix ≢ []
    → is_valid_wildcard_match (wildcard suffix) (prefix ++ b'.' ∷ suffix)
      ≡ (not (prefix == []) && not (has_byte b'.' prefix))
unfolding is_valid_wildcard_match
is_valid-split prefix [] ne = absurd (ne refl)
is_valid-split prefix (d ∷ suffix) ne =
    let e : prefix ++ b'.' ∷ d ∷ suffix ≡ (prefix ++ codes ".") ++ d ∷ suffix =
      sym (append_assoc prefix (codes ".") (d ∷ suffix)) in
    rw
      (
        e,
        trim_prefix-wildcard (d ∷ suffix),
        Text.has_suffix-append (prefix ++ codes ".") (d ∷ suffix),
        Text.trim_suffix-append (prefix ++ codes ".") d suffix,
        Text.trim_suffix-append prefix b'.' [],
      )
      (ground arith)

matches-valid :
    (pattern name kind : Text) (rs : List Record)
    → is_valid_wildcard_match pattern name ≡ true
    → matches pattern name kind rs ≡ answers pattern name kind rs
unfolding matches
matches-valid pattern name kind [] h = refl
matches-valid pattern name kind (r ∷ rs) h = ground (arith, h, matches-valid pattern name kind rs h)

matches-invalid :
    (pattern name kind : Text) (rs : List Record)
    → is_valid_wildcard_match pattern name ≡ false
    → matches pattern name kind rs ≡ []
unfolding matches
matches-invalid pattern name kind [] h = refl
matches-invalid pattern name kind (r ∷ rs) h =
    ground (arith, h, matches-invalid pattern name kind rs h)

dotted-ne : (labels : List Text) → dotted labels ≢ []
dotted-ne labels e = go (join labels (codes ".")) e
  where
    go : (t : Text) → t ++ codes "." ≢ []
    go [] h = absurd (ground arith)
    go (c ∷ t) h = absurd (ground arith)

-- More than one label before a wildcard's own: it does not match.
above-invalid :
    (label above suffix : Text)
    → suffix ≢ []
    → is_valid_wildcard_match (wildcard suffix) ((label ++ b'.' ∷ above) ++ b'.' ∷ suffix) ≡ false
unfolding has_byte
above-invalid label above suffix ne =
    is_valid-split (label ++ b'.' ∷ above) suffix ne
    ∙ ground (arith, Text.has_byte-append b'.' label (b'.' ∷ above), nat_beq_iff b'.' b'.')

-- One label more before the dot.
longer :
    (label above l q : Text) (qs : List Text)
    → (label ++ b'.' ∷ above) ++ b'.' ∷ dotted (l ∷ q ∷ qs)
      ≡ (label ++ b'.' ∷ (above ++ b'.' ∷ l)) ++ b'.' ∷ dotted (q ∷ qs)
unfolding join
longer label above l q qs = ground (
  arith,
  append_assoc l (b'.' ∷ join (q ∷ qs) (codes ".")) (codes "."),
  append_assoc label (b'.' ∷ above) (b'.' ∷ l),
  append_assoc (label ++ b'.' ∷ above) (b'.' ∷ l) (b'.' ∷ dotted (q ∷ qs)),
)

-- What is found, or else what comes after.
abbrev or_rest : List Record → List Record → List Record
or_rest [] rest = rest
or_rest (m ∷ ms) rest = m ∷ ms

wildcard_rounds-or_rest :
    (all_records : List Record) (name kind l : Text) (labels : List Text)
    → wildcard_rounds all_records name kind (l ∷ labels)
      ≡ or_rest
          (matches (wildcard (dotted (l ∷ labels))) name kind all_records)
          (wildcard_rounds all_records name kind labels)
unfolding wildcard_rounds join
wildcard_rounds-or_rest all_records name kind l labels = ground arith

-- No wildcard above the parent is used.
wildcard_rounds-above :
    (all_records : List Record) (kind label above l : Text) (labels : List Text)
    → wildcard_rounds all_records
        ((label ++ b'.' ∷ above) ++ b'.' ∷ dotted (l ∷ labels))
        kind
        (l ∷ labels)
      ≡ []
unfolding wildcard_rounds
wildcard_rounds-above all_records kind label above l [] =
    wildcard_rounds-or_rest all_records _ kind l []
    ∙ ap (λ m. or_rest m [])
        (matches-invalid (wildcard (dotted (l ∷ []))) _ kind all_records
          (above-invalid label above (dotted (l ∷ [])) (dotted-ne (l ∷ []))))
wildcard_rounds-above all_records kind label above l (q ∷ qs) =
    wildcard_rounds-or_rest all_records _ kind l (q ∷ qs)
    ∙ ap
        (λ m. or_rest m (
          wildcard_rounds all_records ((label ++ b'.' ∷ above) ++ b'.' ∷ dotted (l ∷ q ∷ qs)) kind
            (q ∷ qs)))
        (matches-invalid (wildcard (dotted (l ∷ q ∷ qs))) _ kind all_records
          (above-invalid label above (dotted (l ∷ q ∷ qs)) (dotted-ne (l ∷ q ∷ qs))))
    ∙ ap (λ n. wildcard_rounds all_records n kind (q ∷ qs)) (longer label above l q qs)
    ∙ wildcard_rounds-above all_records kind label (above ++ b'.' ∷ l) q qs

wildcard_rounds-behind :
    (all_records : List Record) (kind label p : Text) (ps : List Text)
    → wildcard_rounds all_records (label ++ b'.' ∷ dotted (p ∷ ps)) kind ps ≡ []
unfolding wildcard_rounds join
wildcard_rounds-behind all_records kind label p [] = refl
wildcard_rounds-behind all_records kind label p (q ∷ qs) =
    ap (λ n. wildcard_rounds all_records n kind (q ∷ qs))
      (ap (λ t. label ++ b'.' ∷ t) (append_assoc p (b'.' ∷ join (q ∷ qs) (codes ".")) (codes "."))
        ∙ sym (append_assoc label (b'.' ∷ p) (b'.' ∷ dotted (q ∷ qs))))
    ∙ wildcard_rounds-above all_records kind label p q qs

or_rest-nil : (found : List Record) → or_rest found [] ≡ found
or_rest-nil [] = refl
or_rest-nil (m ∷ ms) = refl

first_round :
    (all_records : List Record) (kind label p : Text) (ps : List Text)
    → label ≢ []
    → has_byte b'.' label ≡ false
    → wildcard_rounds all_records (label ++ b'.' ∷ dotted (p ∷ ps)) kind (p ∷ ps)
      ≡ answers (wildcard (dotted (p ∷ ps))) (label ++ b'.' ∷ dotted (p ∷ ps)) kind all_records
first_round all_records kind label p ps ne plain =
    let name = label ++ b'.' ∷ dotted (p ∷ ps) in
    let valid : is_valid_wildcard_match (wildcard (dotted (p ∷ ps))) name ≡ true =
      is_valid-split label (dotted (p ∷ ps)) (dotted-ne (p ∷ ps))
      ∙ ground (arith, plain, ne, text_beq_iff label []) in
    wildcard_rounds-or_rest all_records name kind p ps
    ∙ ap (λ m. or_rest m (wildcard_rounds all_records name kind ps))
        (matches-valid (wildcard (dotted (p ∷ ps))) name kind all_records valid)
    ∙ ap (λ r. or_rest (answers (wildcard (dotted (p ∷ ps))) name kind all_records) r)
        (wildcard_rounds-behind all_records kind label p ps)
    ∙ or_rest-nil _

name-ne :
    (label rest : Text)
    → label ≢ []
    → ((label ++ b'.' ∷ rest == []) || (label ++ b'.' ∷ rest == codes ".")) ≡ false
name-ne [] rest ne = absurd (ne refl)
name-ne (c ∷ []) rest ne =
    ground (arith, text_beq_iff (c ∷ b'.' ∷ rest) [], text_beq_iff (c ∷ b'.' ∷ rest) (codes "."))
name-ne (c ∷ d ∷ label) rest ne = ground (
  arith,
  text_beq_iff (c ∷ d ∷ label ++ b'.' ∷ rest) [],
  text_beq_iff (c ∷ d ∷ label ++ b'.' ∷ rest) (codes "."),
)

-- For a name of a label, which is not empty, and its parent's labels, none of them with a dot
-- inside, the answer is the enabled records of the type at the wildcard of the parent, under the name: a wildcard
-- further up is never used, whether the parent has one or not.
pub find_wildcard_records-parent :
    (all_records : List Record) (kind label p : Text) (ps : List Text)
    → label ≢ []
    → All (λ l. has_byte b'.' l ≡ false) (label ∷ p ∷ ps)
    → find_wildcard_records all_records (dotted (label ∷ p ∷ ps)) kind
      ≡ answers (codes "*." ++ dotted (p ∷ ps)) (dotted (label ∷ p ∷ ps)) kind all_records
unfolding find_wildcard_records join
find_wildcard_records-parent all_records kind label p ps ne plain =
    let name : dotted (label ∷ p ∷ ps) ≡ label ++ b'.' ∷ dotted (p ∷ ps) =
      append_assoc label (b'.' ∷ join (p ∷ ps) (codes ".")) (codes ".") in
    let labels : split (trim_suffix (dotted (label ∷ p ∷ ps)) (codes ".")) b'.' ≡ label ∷ p ∷ ps =
      ap (λ t. split t b'.') (Text.trim_suffix-append (join (label ∷ p ∷ ps) (codes ".")) b'.' [])
      ∙ Text.split-join b'.' label (p ∷ ps) plain in
    rw (labels, name, name-ne label (dotted (p ∷ ps)) ne)
      (first_round all_records kind label p ps ne plain.0)
