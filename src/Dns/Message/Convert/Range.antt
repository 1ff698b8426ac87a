-- ===== src/Dns/Message/Convert/Range.antt =====
-- Every record that `recordToRR` of dns/handler.go makes fits the fields of the wire, and what a
-- content of numbers says is read back.
use dns_go.Base.{
  ℕ, ◌^◌, ◌<◌, List, [], ◌∷◌, Option, none, some, ltb, nat_eq, ◌≡◌, refl, arith, Bool-cases,
  Option-cases, Result-cases, inl, inr,
}
use mathlib.Core.Path.{subst}
use dns_go.Base.Decimal.{parse_uint, parse_below-lt}
use dns_go.Base.Text.{Text, text_eq, fields}
use dns_go.Dns.Message.{
  Body, Rr, Packages, class_inet, a, aaaa, cname, ns, ptr, mx, txt, soa, srv, caa, other,
}
use dns_go.Dns.Message.Convert.{
  parse_uint16_strict, parse_uint32_strict, ◌>>=◌, soa_body, srv_body, caa_body, a_body, aaaa_body,
  body_of, header_of, record_to_rr,
}
use dns_go.Storage.Types.{Record}

module _ (p : Packages) where
  open p use {IP, to4, string_to_type}

  -- The numbers of a record are in the range of its fields, and its address is one of its family.
  abbrev pub IsWire : Body IP → Type 0
  IsWire (a ip) = (whole : IP) × (to4 whole ≡ some ip)
  IsWire (aaaa ip) = to4 ip ≡ none
  IsWire (cname target) = Unit
  IsWire (ns host) = Unit
  IsWire (ptr host) = Unit
  IsWire (mx preference host) = preference < 2 ^ 16
  IsWire (txt texts) = Unit
  IsWire (soa mname rname serial refresh retry expire minttl) =
      (serial < 2 ^ 32)
      × (refresh < 2 ^ 32)
      × (retry < 2 ^ 32)
      × (expire < 2 ^ 32)
      × (minttl < 2 ^ 32)
  IsWire (srv priority weight port target) =
      (priority < 2 ^ 16) × (weight < 2 ^ 16) × (port < 2 ^ 16)
  IsWire (caa flag tag value) = flag < 2 ^ 8
  IsWire (other text) = ⊥

  abbrev Fits : Option (Body IP) → Type 0
  Fits none = Unit
  Fits (some b) = IsWire b

  bind16 :
      (s : Text) (f : ℕ → Option (Body IP))
      → ((n : ℕ) → n < 2 ^ 16 → Fits (f n))
      → Fits (parse_uint16_strict s >>= f)
  unfolding parse_uint16_strict
  bind16 s f h = elim (Result-cases (parse_uint 16 s)) [
    | inl e ↦ rw (e, ◌>>=◌) tt
    | inr (n, e) ↦ rw (e, ◌>>=◌) (h n (parse_below-lt (2 ^ 16) s n e))
  ]

  bind32 :
      (s : Text) (f : ℕ → Option (Body IP))
      → ((n : ℕ) → n < 2 ^ 32 → Fits (f n))
      → Fits (parse_uint32_strict s >>= f)
  unfolding parse_uint32_strict
  bind32 s f h = elim (Result-cases (parse_uint 32 s)) [
    | inl e ↦ rw (e, ◌>>=◌) tt
    | inr (n, e) ↦ rw (e, ◌>>=◌) (h n (parse_below-lt (2 ^ 32) s n e))
  ]

  soa_body-Fits : (parts : List Text) → Fits (soa_body parts)
  unfolding soa_body
  soa_body-Fits (mname ∷ rname ∷ s ∷ f ∷ r ∷ e ∷ m ∷ more) = bind32 s _ (λ n1 h1.
      bind32 f _ (λ n2 h2.
        bind32 r _ (λ n3 h3. bind32 e _ (λ n4 h4. bind32 m _ (λ n5 h5. (h1, h2, h3, h4, h5))))))
  soa_body-Fits [] = tt
  soa_body-Fits (x1 ∷ []) = tt
  soa_body-Fits (x1 ∷ x2 ∷ []) = tt
  soa_body-Fits (x1 ∷ x2 ∷ x3 ∷ []) = tt
  soa_body-Fits (x1 ∷ x2 ∷ x3 ∷ x4 ∷ []) = tt
  soa_body-Fits (x1 ∷ x2 ∷ x3 ∷ x4 ∷ x5 ∷ []) = tt
  soa_body-Fits (x1 ∷ x2 ∷ x3 ∷ x4 ∷ x5 ∷ x6 ∷ []) = tt

  srv_body-Fits : (row_priority : ℕ) (parts : List Text) → Fits (srv_body row_priority parts)
  unfolding srv_body
  srv_body-Fits q (x1 ∷ x2 ∷ x3 ∷ x4 ∷ more) =
      bind16 x1 _ (λ n1 h1. bind16 x2 _ (λ n2 h2. bind16 x3 _ (λ n3 h3. (h1, h2, h3))))
  srv_body-Fits q (x1 ∷ x2 ∷ x3 ∷ []) =
      bind16 x1 _ (λ n1 h1. bind16 x2 _ (λ n2 h2. (omega arith, h1, h2)))
  srv_body-Fits q [] = tt
  srv_body-Fits q (x1 ∷ []) = tt
  srv_body-Fits q (x1 ∷ x2 ∷ []) = tt

  caa_body-Fits : (parts : List Text) → Fits (caa_body parts)
  unfolding caa_body
  caa_body-Fits (f ∷ tag ∷ value ∷ more) = bind16 f _ (λ n h. elim (Bool-cases (ltb 255 n)) [
    | inl large ↦ rw large tt
    | inr small ↦ rw small (ground arith)
  ])
  caa_body-Fits [] = tt
  caa_body-Fits (x1 ∷ []) = tt
  caa_body-Fits (x1 ∷ x2 ∷ []) = tt

  a_body-Fits : (content : Text) → Fits (a_body p content)
  unfolding a_body
  a_body-Fits content = elim (Option-cases (p.parse_ip content)) [
    | inl e ↦ rw (a_body, e) tt
    | inr (ip, e) ↦ elim (Option-cases (to4 ip)) [
      | inl f ↦ rw (a_body, e, f) tt
      | inr (ip4, f) ↦ rw (a_body, e, f) (ip, f)
    ]
  ]

  aaaa_body-Fits : (content : Text) → Fits (aaaa_body p content)
  unfolding aaaa_body
  aaaa_body-Fits content = elim (Option-cases (p.parse_ip content)) [
    | inl e ↦ rw (aaaa_body, e) tt
    | inr (ip, e) ↦ elim (Option-cases (to4 ip)) [
      | inl f ↦ rw (aaaa_body, e, f) f
      | inr (ip4, f) ↦ rw (aaaa_body, e, f) tt
    ]
  ]

  body_of-Fits : (r : Record) → Fits (body_of p r)
  unfolding body_of
  body_of-Fits r = ground (
    arith,
    a_body-Fits r.content,
    aaaa_body-Fits r.content,
    soa_body-Fits (fields r.content),
    srv_body-Fits r.priority (fields r.content),
    caa_body-Fits (fields r.content),
  )

  -- A record that is made of a row fits the wire: its numbers are in the ranges of their fields,
  -- its time to live is below 2 ^ 32, an A record holds what `To4` gives and an AAAA record an
  -- address that `To4` refuses; it has the name of the row, the number of its type, and class IN.
  pub record_to_rr-IsWire :
      (r : Record) (rr : Rr IP)
      → record_to_rr p r ≡ some rr
      → IsWire rr.body
        × (rr.hdr.ttl < 2 ^ 32)
        × (rr.hdr.name ≡ r.name)
        × (rr.hdr.rrtype ≡ string_to_type r.record_type)
        × (rr.hdr.class ≡ class_inet)
  unfolding record_to_rr header_of
  record_to_rr-IsWire r rr h = go (body_of p r) refl (body_of-Fits r)
    where
      go :
          (b : Option (Body IP))
          → body_of p r ≡ b
          → Fits b
          → IsWire rr.body
            × (rr.hdr.ttl < 2 ^ 32)
            × (rr.hdr.name ≡ r.name)
            × (rr.hdr.rrtype ≡ string_to_type r.record_type)
            × (rr.hdr.class ≡ class_inet)
      go none e fits = absurd (ground (arith, e, h))
      go (some b) e fits =
          let made : Rr IP = record { hdr = header_of p r; body = b } in
          let same : made ≡ rr = ground (arith, e, h) in
          subst
            (λ (q : Rr IP).
              IsWire q.body
              × (q.hdr.ttl < 2 ^ 32)
              × (q.hdr.name ≡ r.name)
              × (q.hdr.rrtype ≡ string_to_type r.record_type)
              × (q.hdr.class ≡ class_inet))
            same (fits, omega arith, refl, refl, refl)
