-- ===== src/Dns/Local.antt =====
-- `privateIPv4ReverseZone` and `localUseResponse` of dns/handler.go: names that are answered
-- here, so that they never reach an upstream server.
pub mod Private
use dns_go.Base.{
  ℕ, ◌&&◌, Bool, true, false, not, List, [], ◌∷◌, ◌++◌, Option, none, some, Result, ok, err, leb,
  if◌then◌else◌, nat_eq, ◌==◌,
}
use dns_go.Base.Decimal.{atoi}
use dns_go.Base.Text.{Text, codes, text_eq, has_suffix, trim_suffix, has_byte, to_lower, split}
use dns_go.Dns.Message.{Header, Rr, a, aaaa, type_a, type_aaaa, class_inet}

-- The last label and the one before it. A negative number is a pattern above 31.
unfoldable pub from_labels : List Text → Option Text
from_labels [] = none
from_labels (last ∷ []) = if last == codes "10" then some (codes "10.in-addr.arpa.") else none
from_labels (second_last ∷ last ∷ []) =
    if last == codes "10"
    then some (codes "10.in-addr.arpa.")
    else if last == codes "192" && second_last == codes "168"
    then some (codes "168.192.in-addr.arpa.")
    else if last == codes "172"
    then elim (atoi second_last) [
      | err ↦ none
      | ok n ↦
          if leb 16 n && leb n 31 then some (second_last ++ codes ".172.in-addr.arpa.") else none
    ]
    else none
from_labels (l ∷ m ∷ n ∷ labels) = from_labels (m ∷ n ∷ labels)

unfoldable pub private_ipv4_reverse_zone : Text → Option Text
private_ipv4_reverse_zone name =
    let plain = to_lower (trim_suffix name (codes ".")) in
    if has_suffix plain (codes ".in-addr.arpa")
    then from_labels (split (trim_suffix plain (codes ".in-addr.arpa")) b'.')
    else none

abbrev local_header : Text → ℕ → Header
local_header domain rrtype = record {
  name = domain;
  rrtype = rrtype;
  class = class_inet;
  ttl = 300;
}

module _ {IP : Type 0} where
  -- The answer section and the zone of the SOA record. `loopback4` and `loopback6` are what
  -- `ParseIP` makes of `127.0.0.1` and of `::1`.
  unfoldable pub local_use_response :
      (loopback4 loopback6 : IP) → Text → Text → Option (List (Rr IP) × Text)
  local_use_response loopback4 loopback6 domain qtype =
      let name = to_lower (trim_suffix domain (codes ".")) in
      if name == []
      then none
      else if name == codes "localhost"
      then if qtype == codes "A"
        then some (
          record { hdr = local_header domain type_a; body = a loopback4 } ∷ [],
          codes "localhost.",
        )
        else if qtype == codes "AAAA"
        then some (
          record { hdr = local_header domain type_aaaa; body = aaaa loopback6 } ∷ [],
          codes "localhost.",
        )
        else some ([], codes "localhost.")
      else if has_suffix name (codes ".local")
      then some ([], codes "local.")
      else if not (has_byte b'.' name)
      then some ([], domain)
      else none
