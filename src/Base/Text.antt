-- ===== src/Base/Text.antt =====
-- Go strings as lists of bytes, and the functions of package strings that the program calls.
-- Texts are ASCII: on them `ToLower`, `ToUpper` and `TrimSpace` work byte by byte.
use Prim.Native.Nat.{ℕ, ◌+◌, ◌-◌}
use Prim.Native.Char.{code}
use Prim.Native.String.{String}
use mathlib.Core.Bool.{Bool, true, false, ◌&&◌, ◌||◌}
use mathlib.Core.List.{List, [], ◌∷◌, ◌++◌, append_assoc, append-nil}
use mathlib.Core.Logic.{◌↔◌, ◌≢◌}
use mathlib.Core.Option.{Option, none, some}
use mathlib.Core.Path.{◌≡◌, refl, ap, ◌∙◌}
use dns_go.Base.Lists.{All, length, length-append}
use native.Mathlib.Omega.{arith}
use dns_go.Base.Test.{leb, nat_beq, nat_beq_iff, nat_eq, if◌then◌else◌, Eq, ◌==◌}

abbrev pub Text : Type 0
Text = List ℕ

-- The bytes of a literal.
abbrev pub codes : String → Text
codes String.[] = []
codes (String.◌∷◌ c s) = code c ∷ codes s

unfoldable pub text_beq : Text → Text → Bool
text_beq [] [] = true
text_beq [] (d ∷ t) = false
text_beq (c ∷ s) [] = false
text_beq (c ∷ s) (d ∷ t) = nat_beq c d && text_beq s t

pub text_beq_iff : (s t : Text) → (text_beq s t ≡ true) ↔ (s ≡ t)
unfolding text_beq
text_beq_iff [] [] = ground arith
text_beq_iff [] (d ∷ t) = ground arith
text_beq_iff (c ∷ s) [] = ground arith
text_beq_iff (c ∷ s) (d ∷ t) = ground (arith, nat_beq_iff c d, text_beq_iff s t)

instance abbrev pub text_eq : Eq Text
text_eq = record { beq = text_beq; beq_iff = text_beq_iff }

-- `strings.HasPrefix(s, p)`.
unfoldable pub has_prefix : Text → Text → Bool
has_prefix s [] = true
has_prefix [] (d ∷ p) = false
has_prefix (c ∷ s) (d ∷ p) = nat_beq c d && has_prefix s p

-- `strings.HasSuffix(s, p)`.
unfoldable pub has_suffix : Text → Text → Bool
has_suffix [] p = [] == p
has_suffix (c ∷ s) p = (c ∷ s) == p || has_suffix s p

-- `strings.TrimPrefix(s, p)`.
unfoldable pub trim_prefix : Text → Text → Text
trim_prefix s [] = s
trim_prefix [] (d ∷ p) = []
trim_prefix (c ∷ s) (d ∷ p) = if has_prefix (c ∷ s) (d ∷ p) then trim_prefix s p else c ∷ s

-- `strings.TrimSuffix(s, p)`.
unfoldable pub trim_suffix : Text → Text → Text
trim_suffix [] p = []
trim_suffix (c ∷ s) p = if (c ∷ s) == p then [] else c ∷ trim_suffix s p

-- `strings.IndexByte(s, c)`: what stands before the first `c`, and what stands behind it.
unfoldable pub cut_at : ℕ → Text → Option (Text × Text)
cut_at b [] = none
cut_at b (c ∷ s) =
    if c == b
    then some ([], s)
    else elim (cut_at b s) [ none ↦ none | some (l, r) ↦ some (c ∷ l, r) ]

-- `strings.Contains(s, string(b))`.
unfoldable pub has_byte : ℕ → Text → Bool
has_byte b [] = false
has_byte b (c ∷ s) = c == b || has_byte b s

-- `strings.ContainsAny(s, bs)`.
unfoldable pub has_any : Text → Text → Bool
has_any s [] = false
has_any s (b ∷ bs) = has_byte b s || has_any s bs

abbrev lower_byte : ℕ → ℕ
lower_byte c = if leb b'A' c && leb c b'Z' then c + 32 else c

abbrev upper_byte : ℕ → ℕ
upper_byte c = if leb b'a' c && leb c b'z' then c - 32 else c

-- `strings.ToLower`.
unfoldable pub to_lower : Text → Text
to_lower [] = []
to_lower (c ∷ s) = lower_byte c ∷ to_lower s

-- `strings.ToUpper`.
unfoldable pub to_upper : Text → Text
to_upper [] = []
to_upper (c ∷ s) = upper_byte c ∷ to_upper s

-- `unicode.IsSpace` on ASCII: tab to carriage return, and the space.
unfoldable pub is_space : ℕ → Bool
is_space c = c == 32 || (leb 9 c && leb c 13)

unfoldable pub trim_left : Text → Text
trim_left [] = []
trim_left (c ∷ s) = if is_space c then trim_left s else c ∷ s

unfoldable pub trim_right : Text → Text
trim_right [] = []
trim_right (c ∷ s) = let t = trim_right s in if is_space c && t == [] then [] else c ∷ t

-- `strings.TrimSpace`.
unfoldable pub trim_space : Text → Text
trim_space s = trim_right (trim_left s)

-- `strings.Split(s, string(b))`, the part that is being read last.
split_from : ℕ → Text → Text → List Text
split_from b cur [] = cur ∷ []
split_from b cur (c ∷ s) = elim (c == b) [
  | true ↦ cur ∷ split_from b [] s
  | false ↦ split_from b (cur ++ c ∷ []) s
]

unfoldable pub split : Text → ℕ → List Text
unfolding split_from
split s b = split_from b [] s

-- `strings.Join(parts, sep)`.
unfoldable pub join : List Text → Text → Text
join [] sep = []
join (p ∷ []) sep = p
join (p ∷ q ∷ ps) sep = p ++ (sep ++ join (q ∷ ps) sep)

-- `strings.Fields(s)`: the maximal runs without white space.
fields_from : Text → Text → List Text
fields_from cur [] = if cur == [] then [] else cur ∷ []
fields_from cur (c ∷ s) = elim (is_space c) [
  | true ↦ if cur == [] then fields_from [] s else cur ∷ fields_from [] s
  | false ↦ fields_from (cur ++ c ∷ []) s
]

unfoldable pub fields : Text → List Text
unfolding fields_from
fields s = fields_from [] s

pub has_prefix_append : (p s : Text) → has_prefix (p ++ s) p ≡ true
unfolding has_prefix
has_prefix_append [] s = refl
has_prefix_append (c ∷ p) s = ground (arith, has_prefix_append p s)

pub has_prefix_split : (s p : Text) → has_prefix s p ≡ true → (r : Text) × (s ≡ p ++ r)
unfolding has_prefix
has_prefix_split s [] h = (s, refl)
has_prefix_split [] (d ∷ p) h = absurd (ground arith)
has_prefix_split (c ∷ s) (d ∷ p) h =
    let (r, e) = has_prefix_split s p (ground arith) in (r, ground arith)

pub has_byte-append : (b : ℕ) (s t : Text) → has_byte b (s ++ t) ≡ (has_byte b s || has_byte b t)
unfolding has_byte
has_byte-append b [] t = refl
has_byte-append b (c ∷ s) t = ground (arith, has_byte-append b s t)

split_from-last :
    (b : ℕ) (cur s : Text) → has_byte b s ≡ false → split_from b cur s ≡ (cur ++ s) ∷ []
unfolding split_from has_byte
split_from-last b cur [] h = ground (arith, append-nil cur)
split_from-last b cur (c ∷ s) h =
    ground (arith, split_from-last b (cur ++ c ∷ []) s, append_assoc cur (c ∷ []) s)

split_from-more :
    (b : ℕ) (cur s rest : Text)
    → has_byte b s ≡ false
    → split_from b cur (s ++ b ∷ rest) ≡ (cur ++ s) ∷ split_from b [] rest
unfolding split_from has_byte
split_from-more b cur [] rest h = ground (arith, append-nil cur, nat_beq_iff b b)
split_from-more b cur (c ∷ s) rest h =
    ground (arith, split_from-more b (cur ++ c ∷ []) s rest, append_assoc cur (c ∷ []) s)

-- Parts without the separator come back from what `Join` makes of them.
pub split-join :
    (b : ℕ) (p : Text) (ps : List Text)
    → All (λ s. has_byte b s ≡ false) (p ∷ ps)
    → split (join (p ∷ ps) (b ∷ [])) b ≡ p ∷ ps
unfolding split join
split-join b p [] (h, hs) = split_from-last b [] p h
split-join b p (q ∷ ps) (h, hs) =
    split_from-more b [] p (join (q ∷ ps) (b ∷ [])) h ∙ ap (λ l. p ∷ l) (split-join b q ps hs)

pub has_suffix-append : (s p : Text) → has_suffix (s ++ p) p ≡ true
unfolding has_suffix
has_suffix-append [] [] = ground (arith, text_beq_iff [] [])
has_suffix-append [] (d ∷ p) = ground (arith, text_beq_iff (d ∷ p) (d ∷ p))
has_suffix-append (c ∷ s) p = ground (arith, has_suffix-append s p)

pub trim_suffix-append : (s : Text) (d : ℕ) (p : Text) → trim_suffix (s ++ d ∷ p) (d ∷ p) ≡ s
unfolding trim_suffix
trim_suffix-append [] d p = ground (arith, text_beq_iff (d ∷ p) (d ∷ p))
trim_suffix-append (c ∷ s) d p =
    ground (arith, trim_suffix-append s d p, text_beq_iff (c ∷ s ++ d ∷ p) (d ∷ p), longer)
  where
    longer : (c ∷ s ++ d ∷ p) ≢ (d ∷ p)
    longer e = omega (arith, ap length e, length-append s (d ∷ p))

text_checks :
    (has_suffix (codes "a.b.") (codes ".") ≡ true)
    × (trim_suffix (codes "a.b.") (codes ".") ≡ codes "a.b")
    × (trim_prefix (codes "@@x") (codes "@@") ≡ codes "x")
    × (trim_space (codes "  A b ") ≡ codes "A b")
    × (to_lower (codes "A-z") ≡ codes "a-z")
    × (split (codes "a..b") b'.' ≡ codes "a" ∷ [] ∷ codes "b" ∷ [])
    × (join (codes "a" ∷ [] ∷ codes "b" ∷ []) (codes ".") ≡ codes "a..b")
    × (fields (codes " a  bc ") ≡ codes "a" ∷ codes "bc" ∷ [])
    × (cut_at b'.' (codes "a.b.") ≡ some (codes "a", codes "b."))
unfolding has_suffix trim_suffix trim_prefix has_prefix trim_space trim_left trim_right is_space
    to_lower split join fields cut_at text_beq
text_checks = (refl, refl, refl, refl, refl, refl, refl, refl, refl)
