-- ===== src/Dns/Message.antt =====
-- DNS messages as dns/handler.go reads and writes them, and the parts of an answer that it makes
-- without a lookup: `buildSOA`, `setEDNS0`, `handleCHAOS` and `summarizeAnswers`. The packages
-- net and miekg/dns are the record `Packages`.
pub mod Convert
use mathlib.Core.List.{map}
use dns_go.Base.{
  ℕ, ◌+◌, ◌/◌, ◌%◌, Bool, true, false, ◌&&◌, ◌||◌, List, [], ◌∷◌, ◌++◌, Option, none, some, ltb,
  if◌then◌else◌, nat_eq, ◌==◌, any,
}
use dns_go.Base.Decimal.{decimal}
use dns_go.Dns.Chain.{with_dot}
use dns_go.Base.Text.{Text, codes, text_eq, to_lower, join}

-- `class` is the class of the record, and `rrtype` its type.
pub record Header : Type 0 where
  pub name : Text
  pub rrtype : ℕ
  pub class : ℕ
  pub ttl : ℕ

-- `other` is a record of any other type, by the text of its data.
pub data Body (IP : Type 0) : Type 0 where
  a aaaa : IP → Body IP
  cname ns ptr : Text → Body IP
  mx : ℕ → Text → Body IP
  txt : List Text → Body IP
  soa : Text → Text → (serial refresh retry expire minttl : ℕ) → Body IP
  srv : (priority weight port : ℕ) → Text → Body IP
  caa : ℕ → Text → Text → Body IP
  other : Text → Body IP

pub record Rr (IP : Type 0) : Type 0 where
  pub hdr : Header
  pub body : Body IP

pub data EdnsOption (IP : Type 0) : Type 0 where
  nsid_option : Text → EdnsOption IP
  subnet_option : Option IP → EdnsOption IP
  unknown_option : EdnsOption IP

pub record Opt (IP : Type 0) : Type 0 where
  pub udp_size : ℕ
  pub version : ℕ
  pub options : List (EdnsOption IP)

pub record Question : Type 0 where
  pub name : Text
  pub qtype : ℕ
  pub qclass : ℕ

-- `authority` is the section `Ns`, and `edns` the OPT record of the section `Extra`.
pub record Msg (IP : Type 0) : Type 0 where
  pub id : ℕ
  pub authoritative : Bool
  pub recursion_desired : Bool
  pub recursion_available : Bool
  pub rcode : ℕ
  pub question : List Question
  pub answer : List (Rr IP)
  pub authority : List (Rr IP)
  pub edns : Option (Opt IP)

-- The four constants are what `ParseIP` makes of 0.0.0.0, ::, 127.0.0.1 and ::1.
-- `to4` gives the address itself where it is one of IPv4, and `ip_text` is its `String`.
-- `set_reply` is `SetReply` on a new message, and `new_opt` the record that `SetEdns0` adds.
pub record Packages : Type 1 where
  pub IP : Type 0
  pub parse_ip : Text → Option IP
  pub to4 : IP → Option IP
  pub unspecified4 : IP
  pub unspecified6 : IP
  pub loopback4 : IP
  pub loopback6 : IP
  pub ip_text : IP → Text
  pub rr_string : Rr IP → Text
  pub set_reply : Msg IP → Msg IP
  pub set_question : Text → ℕ → Msg IP
  pub fqdn : Text → Text
  pub new_opt : ℕ → Bool → Opt IP
  pub type_to_string : ℕ → Text
  pub string_to_type : Text → ℕ
  pub rcode_to_string : ℕ → Text
  pub message_len : Msg IP → ℕ

-- The numbers of RFC 1035 that the source names.
abbrev pub rcode_success : ℕ
rcode_success = 0

abbrev pub rcode_format_error : ℕ
rcode_format_error = 1

abbrev pub rcode_server_failure : ℕ
rcode_server_failure = 2

abbrev pub rcode_name_error : ℕ
rcode_name_error = 3

abbrev pub rcode_not_implemented : ℕ
rcode_not_implemented = 4

abbrev pub rcode_refused : ℕ
rcode_refused = 5

abbrev pub type_a : ℕ
type_a = 1

abbrev pub type_soa : ℕ
type_soa = 6

abbrev pub type_txt : ℕ
type_txt = 16

abbrev pub type_aaaa : ℕ
type_aaaa = 28

abbrev pub type_any : ℕ
type_any = 255

abbrev pub class_inet : ℕ
class_inet = 1

abbrev pub class_chaos : ℕ
class_chaos = 3

-- `hex.EncodeToString`.
abbrev hex_digit : ℕ → ℕ
hex_digit n = if ltb n 10 then b'0' + n else 87 + n

unfoldable pub hex_encode : Text → Text
hex_encode [] = []
hex_encode (c ∷ s) = hex_digit (c / 16) ∷ hex_digit (c % 16) ∷ hex_encode s

module _ {IP : Type 0} where
  unfoldable pub build_soa : ℕ → Text → Rr IP
  build_soa negative_ttl zone_name = record {
    hdr = record {
      name = with_dot zone_name;
      rrtype = type_soa;
      class = class_inet;
      ttl = negative_ttl;
    };
    body =
        soa (codes "ns." ++ with_dot zone_name) (codes "admin." ++ with_dot zone_name) 1 3600 900
          86400 negative_ttl;
  }

  -- The switch of `summarizeAnswers`; `rr_string` is the `String` of a record.
  unfoldable pub summary : (IP → Text) → (Rr IP → Text) → Rr IP → Text
  summary ip_text rr_string rr = elim rr.body [
    | a ip ↦ ip_text ip
    | aaaa ip ↦ ip_text ip
    | cname target ↦ codes "CNAME:" ++ target
    | mx preference host ↦ codes "MX:" ++ (decimal preference ++ (codes ":" ++ host))
    | txt texts ↦ codes "TXT:" ++ join texts (codes " ")
    | ns host ↦ codes "NS:" ++ host
    | soa host mbox serial refresh retry expire minttl ↦ codes "SOA:" ++ host
    | srv priority weight port target ↦
        codes "SRV:"
        ++ (decimal priority
            ++ (codes ":"
                ++ (decimal weight ++ (codes ":" ++ (decimal port ++ (codes ":" ++ target))))))
    | ptr host ↦ codes "PTR:" ++ host
    | caa flag tag value ↦ rr_string rr
    | other text ↦ rr_string rr
  ]

  unfoldable pub summarize_answers : (IP → Text) → (Rr IP → Text) → List (Rr IP) → Text
  summarize_answers ip_text rr_string rrs = join (map (summary ip_text rr_string) rrs) (codes ", ")

  abbrev pub is_nsid : EdnsOption IP → Bool
  is_nsid (nsid_option text) = true
  is_nsid (subnet_option ip) = false
  is_nsid unknown_option = false

  -- `ExtractClientIP` of dns/server.go: the loop over the options.
  unfoldable pub first_subnet : List (EdnsOption IP) → Option IP
  first_subnet [] = none
  first_subnet (nsid_option text ∷ options) = first_subnet options
  first_subnet (unknown_option ∷ options) = first_subnet options
  first_subnet (subnet_option ip ∷ options) = ip

  unfoldable pub extract_client_ip : Msg IP → Option IP
  extract_client_ip r = elim r.edns [ none ↦ none | some opt ↦ first_subnet opt.options ]

module _ (p : Packages) where
  open p use {IP, new_opt}

  -- An OPT record goes only into the answer of a request that has one.
  unfoldable pub set_edns0 : Text → Msg IP → Msg IP → Msg IP
  set_edns0 nsid resp req = elim req.edns [
    | none ↦ resp
    | some opt ↦
        let fresh = new_opt 1232 false in
        if any is_nsid opt.options
        then if nsid == [] then record resp { edns = some fresh } else record resp {
          edns =
              some (record fresh { options = fresh.options ++ nsid_option (hex_encode nsid) ∷ [] });
        }
        else record resp { edns = some fresh }
  ]

  -- An answer of the class CHAOS: one text, not to be kept.
  unfoldable pub chaos_answer : Question → Text → Msg IP → Msg IP
  chaos_answer q text resp = record resp {
    authoritative = true;
    answer =
        record {
          hdr = record { name = q.name; rrtype = type_txt; class = class_chaos; ttl = 0 };
          body = txt (text ∷ []);
        }
        ∷ [];
    rcode = rcode_success;
  }

  -- What `handleCHAOS` answers.
  unfoldable pub chaos_reply : (version nsid : Text) → Question → Msg IP → Msg IP
  chaos_reply version nsid q resp =
      let domain = to_lower q.name in
      let is_txt = q.qtype == type_txt in
      if (domain == codes "version.bind." || domain == codes "version.server.") && is_txt
      then chaos_answer q version resp
      else if (domain == codes "hostname.bind." || domain == codes "hostname.server.") && is_txt
      then chaos_answer q nsid resp
      else if domain == codes "id.server." && is_txt
      then chaos_answer q nsid resp
      else record resp { rcode = rcode_refused }
