-- ===== src/Dns/Local/Private.antt =====
-- Which reverse names `privateIPv4ReverseZone` of dns/handler.go keeps back: those of the private
-- networks of RFC 1918.
use dns_go.Base.{
  ℕ, zero, suc, ◌/◌, ◌<◌, Bool, true, false, ◌&&◌, [], ◌∷◌, ◌++◌, Option, none, some, Result, ok,
  err, if◌then◌else◌, nat_eq, ◌==◌, ◌≡◌, refl, sym, arith,
}
use dns_go.Base.Decimal.{decimal, atoi}
use dns_go.Base.Decimal
use dns_go.Base.Text
use dns_go.Base.Text.{
  Text, codes, text_eq, text_beq, text_beq_iff, has_suffix, trim_suffix, has_byte, to_lower, split,
  join,
}
use dns_go.Dns.Local.{from_labels, private_ipv4_reverse_zone}

-- A test on all numbers below a bound.
all_below : ℕ → (ℕ → Bool) → Bool
all_below zero test = true
all_below (suc n) test = test n && all_below n test

all_below_sound :
    (n : ℕ) (test : ℕ → Bool) (x : ℕ) → all_below n test ≡ true → x < n → test x ≡ true
unfolding all_below
all_below_sound zero test x h lt = absurd (omega arith)
all_below_sound (suc n) test x h lt = ground (arith, all_below_sound n test x)

-- Equal Booleans.
same_bool : Bool → Bool → Bool
same_bool true b = b
same_bool false true = false
same_bool false false = true

same_bool_eq : (b c : Bool) → same_bool b c ≡ true → b ≡ c
unfolding same_bool
same_bool_eq true c h = sym h
same_bool_eq false true h = h
same_bool_eq false false h = refl

is_ok : ℕ → Result ℕ → Bool
is_ok n err = false
is_ok n (ok m) = m == n

-- What one octet must be for a label that is its number.
octet_test : ℕ → Bool
octet_test n =
    same_bool (decimal n == codes "10") (n == 10)
    && (same_bool (decimal n == codes "192") (n == 192)
        && (same_bool (decimal n == codes "172") (n == 172)
            && (same_bool (decimal n == codes "168") (n == 168)
                && (is_ok n (atoi (decimal n))
                    && (to_lower (decimal n) == decimal n
                        && same_bool (has_byte b'.' (decimal n)) false)))))

octets : all_below 256 octet_test ≡ true
unfolding all_below octet_test same_bool is_ok decimal atoi to_lower has_byte text_beq
    Decimal.parse_below Decimal.parse_digits
octets = refl

-- What its number says of the label of an octet.
record Octet (n : ℕ) : Type 0 where
  ten : (decimal n == codes "10") ≡ (n == 10)
  high_192 : (decimal n == codes "192") ≡ (n == 192)
  high_172 : (decimal n == codes "172") ≡ (n == 172)
  next_168 : (decimal n == codes "168") ≡ (n == 168)
  number : atoi (decimal n) ≡ ok n
  plain : to_lower (decimal n) ≡ decimal n
  dotless : has_byte b'.' (decimal n) ≡ false

both : (b c : Bool) → (b && c) ≡ true → (b ≡ true) × (c ≡ true)
both b c h = ground arith

is_ok_eq : (n : ℕ) (r : Result ℕ) → is_ok n r ≡ true → r ≡ ok n
unfolding is_ok
is_ok_eq n err h = absurd (ground arith)
is_ok_eq n (ok m) h = ground arith

octet : (n : ℕ) → n < 256 → Octet n
unfolding octet_test
octet n h =
    let all = all_below_sound 256 octet_test n octets h in
    let (t10, r1) = both _ _ all in
    let (t192, r2) = both _ _ r1 in
    let (t172, r3) = both _ _ r2 in
    let (t168, r4) = both _ _ r3 in
    let (num, r5) = both _ _ r4 in
    let (low, dot) = both _ _ r5 in
    record {
      ten = same_bool_eq _ _ t10;
      high_192 = same_bool_eq _ _ t192;
      high_172 = same_bool_eq _ _ t172;
      next_168 = same_bool_eq _ _ t168;
      number = is_ok_eq n _ num;
      plain = (text_beq_iff _ _).0 low;
      dotless = same_bool_eq _ _ dot;
    }

to_lower-append : (s t : Text) → to_lower (s ++ t) ≡ to_lower s ++ to_lower t
unfolding to_lower
to_lower-append [] t = refl
to_lower-append (c ∷ s) t = ground (arith, to_lower-append s t)

-- The reverse name of the address a.b.c.d.
abbrev pub reverse_labels : (a b c d : ℕ) → Text
reverse_labels a b c d = join (decimal d ∷ decimal c ∷ decimal b ∷ decimal a ∷ []) (codes ".")

abbrev pub reverse_name : (a b c d : ℕ) → Text
reverse_name a b c d = (reverse_labels a b c d ++ codes ".in-addr.arpa") ++ codes "."

-- The networks 10/8, 172.16/12 and 192.168/16, by the first two octets.
abbrev pub private_zone : ℕ → ℕ → Option Text
private_zone a b =
    if a == 10
    then some (codes "10.in-addr.arpa.")
    else if a == 192 && b == 168
    then some (codes "168.192.in-addr.arpa.")
    else if a == 172 && b / 16 == 1
    then some (decimal b ++ codes ".172.in-addr.arpa.")
    else none

reverse_labels-plain :
    (a b c d : ℕ)
    → Octet a
    → Octet b
    → Octet c
    → Octet d
    → to_lower (reverse_labels a b c d) ≡ reverse_labels a b c d
unfolding join to_lower
reverse_labels-plain a b c d oa ob oc od =
    simp (to_lower-append, oa.plain, ob.plain, oc.plain, od.plain)

suffix_plain : to_lower (codes ".in-addr.arpa") ≡ codes ".in-addr.arpa"
unfolding to_lower
suffix_plain = refl

from_two :
    (a b : ℕ) → Octet a → Octet b → from_labels (decimal b ∷ decimal a ∷ []) ≡ private_zone a b
unfolding from_labels
from_two a b oa ob = rw (oa.ten, oa.high_192, oa.high_172, ob.next_168, ob.number) (ground arith)

-- The reverse name of an address is kept back exactly when the address lies in one of the private
-- networks 10/8, 172.16/12 and 192.168/16, and it is put into the reverse zone of that network;
-- of 172.16/12, into the zone of its second octet. The octets are below 256.
pub private_ipv4_reverse_zone-private :
    (a b c d : ℕ)
    → a < 256
    → b < 256
    → c < 256
    → d < 256
    → private_ipv4_reverse_zone (reverse_name a b c d) ≡ private_zone a b
unfolding private_ipv4_reverse_zone from_labels
private_ipv4_reverse_zone-private a b c d ha hb hc hd =
    let oa = octet a ha in
    let ob = octet b hb in
    let oc = octet c hc in
    let od = octet d hd in
    rw
      (
        Text.trim_suffix-append (reverse_labels a b c d ++ codes ".in-addr.arpa") b'.' [],
        to_lower-append (reverse_labels a b c d) (codes ".in-addr.arpa"),
        reverse_labels-plain a b c d oa ob oc od,
        suffix_plain,
        Text.has_suffix-append (reverse_labels a b c d) (codes ".in-addr.arpa"),
        Text.trim_suffix-append (reverse_labels a b c d) b'.' (codes "in-addr.arpa"),
        Text.split-join b'.' (decimal d) (decimal c ∷ decimal b ∷ decimal a ∷ [])
            (od.dotless, (oc.dotless, (ob.dotless, (oa.dotless, tt)))),
        from_labels,
      )
      (from_two a b oa ob)
