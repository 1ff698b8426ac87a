-- ===== src/Dns/Message/Convert.antt =====
-- `recordToRR` and `buildResponse` of dns/handler.go: from the rows of the database to records of
-- the wire, with `parseUint16Strict` and `parseUint32Strict`.
pub mod Range
use dns_go.Base.{
  ℕ, ◌%◌, ◌^◌, Bool, true, false, List, [], ◌∷◌, ◌++◌, Option, none, some, Result, ok, err, ltb,
  if◌then◌else◌, nat_eq, ◌==◌,
}
use dns_go.Base.Decimal.{parse_uint}
use dns_go.Base.Text.{Text, codes, text_eq, fields, join}
use dns_go.Dns.Chain.{with_dot}
use dns_go.Dns.Message.{
  Header, Body, Rr, Packages, class_inet, a, aaaa, cname, ns, ptr, mx, txt, soa, srv, caa,
}
use dns_go.Storage.Types.{Record}

unfoldable pub parse_uint32_strict : Text → Result ℕ
parse_uint32_strict s = parse_uint 32 s

unfoldable pub parse_uint16_strict : Text → Result ℕ
parse_uint16_strict s = parse_uint 16 s

unfoldable pub parse_uint16 : Text → ℕ
parse_uint16 s = elim (parse_uint16_strict s) [ err ↦ 0 | ok n ↦ n ]

infixl 5 ◌>>=◌
-- A chain of numbers that must parse: nil at the first that does not.
abbrev pub ◌>>=◌ {ℓ κ} : {A : Type ℓ} {B : Type κ} → Result A → (A → Option B) → Option B
ok x >>= f = f x
err >>= f = none

module _ {IP : Type 0} where
  -- A content of seven fields or more: two names and five numbers.
  unfoldable pub soa_body : List Text → Option (Body IP)
  soa_body (mname ∷ rname ∷ s ∷ f ∷ r ∷ e ∷ m ∷ _) = do
    serial ← parse_uint32_strict s
    refresh ← parse_uint32_strict f
    retry ← parse_uint32_strict r
    expire ← parse_uint32_strict e
    minttl ← parse_uint32_strict m
    some (soa (with_dot mname) (with_dot rname) serial refresh retry expire minttl)
  soa_body _ = none

  -- A content of four fields has the priority itself; one of three leaves it to the row.
  unfoldable pub srv_body : ℕ → List Text → Option (Body IP)
  srv_body row_priority (p ∷ w ∷ o ∷ target ∷ _) = do
    priority ← parse_uint16_strict p
    weight ← parse_uint16_strict w
    port ← parse_uint16_strict o
    some (srv priority weight port (with_dot target))
  srv_body row_priority (w ∷ o ∷ target ∷ []) = do
    weight ← parse_uint16_strict w
    port ← parse_uint16_strict o
    some (srv (row_priority % 2 ^ 16) weight port (with_dot target))
  srv_body row_priority _ = none

  unfoldable pub caa_body : List Text → Option (Body IP)
  caa_body (f ∷ tag ∷ value ∷ values) = do
    flag ← parse_uint16_strict f
    if ltb 255 flag then none else some (caa flag tag (join (value ∷ values) (codes " ")))
  caa_body _ = none

module _ (p : Packages) where
  open p use {IP, parse_ip, to4, string_to_type}

  unfoldable pub a_body : Text → Option (Body IP)
  a_body content = elim (parse_ip content) [
    | none ↦ none
    | some ip ↦ elim (to4 ip) [ none ↦ none | some ip4 ↦ some (a ip4) ]
  ]

  unfoldable pub aaaa_body : Text → Option (Body IP)
  aaaa_body content = elim (parse_ip content) [
    | none ↦ none
    | some ip ↦ elim (to4 ip) [ none ↦ some (aaaa ip) | some _ ↦ none ]
  ]

  -- The switch over the type of the row.
  unfoldable pub body_of : Record → Option (Body IP)
  body_of r =
      if r.record_type == codes "A"
      then a_body r.content
      else if r.record_type == codes "AAAA"
      then aaaa_body r.content
      else if r.record_type == codes "CNAME"
      then some (cname (with_dot r.content))
      else if r.record_type == codes "MX"
      then some (mx (r.priority % 2 ^ 16) (with_dot r.content))
      else if r.record_type == codes "TXT"
      then some (txt (r.content ∷ []))
      else if r.record_type == codes "NS"
      then some (ns (with_dot r.content))
      else if r.record_type == codes "SOA"
      then soa_body (fields r.content)
      else if r.record_type == codes "SRV"
      then srv_body r.priority (fields r.content)
      else if r.record_type == codes "PTR"
      then some (ptr (with_dot r.content))
      else if r.record_type == codes "CAA"
      then caa_body (fields r.content)
      else none

  unfoldable pub header_of : Record → Header
  header_of r = record {
    name = r.name;
    rrtype = string_to_type r.record_type;
    class = class_inet;
    ttl = r.ttl % 2 ^ 32;
  }

  unfoldable pub record_to_rr : Record → Option (Rr IP)
  record_to_rr r = elim (body_of r) [
    | none ↦ none
    | some body ↦ some (record { hdr = header_of r; body = body })
  ]

  -- The loop over rows, of `buildResponse` and of the section `Ns` of an answer: the enabled ones
  -- that convert.
  unfoldable pub enabled_rrs : List Record → List (Rr IP)
  enabled_rrs [] = []
  enabled_rrs (r ∷ rs) =
      let rest = enabled_rrs rs in
      if r.enabled then elim (record_to_rr r) [ none ↦ rest | some rr ↦ rr ∷ rest ] else rest
