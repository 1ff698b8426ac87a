-- ===== src/Dns/Serve/Samples.antt =====
-- Small servers and queries, for the tests of `ServeDNS`.
use dns_go.Base.{
  true, false, List, [], ◌∷◌, none, some, Result, ok, err, if◌then◌else◌, nat_eq, ◌==◌,
}
use dns_go.Base.Text.{Text, codes, text_eq, has_byte}
use dns_go.Cache
use dns_go.Dns.Message.{Rr, Question, Msg, Packages, a, rcode_success}
use dns_go.Dns.Serve.Lifecycle.{CacheSettings}
use dns_go.Dns.Serve.State.{Handler, World, Times}
use dns_go.Dns.Serve.Zones.{on_storage}
use dns_go.Storage.Types.{Record, Zone}

abbrev pub message : List Question → List (Rr Text) → Msg Text
message qs answer = record {
  id = 1;
  authoritative = false;
  recursion_desired = true;
  recursion_available = false;
  rcode = rcode_success;
  question = qs;
  answer = answer;
  authority = [];
  edns = none;
}

-- Addresses are their texts.
abbrev pub packages : Packages
packages = record {
  IP = Text;
  parse_ip = λ s. some s;
  to4 = λ ip. if has_byte b'.' ip then some ip else none;
  ip_text = λ ip. ip;
  unspecified4 = codes "0.0.0.0";
  unspecified6 = codes "::";
  loopback4 = codes "127.0.0.1";
  loopback6 = codes "::1";
  rr_string = λ rr. rr.hdr.name;
  set_reply = λ m. m;
  set_question = λ name qtype. message (record { name = name; qtype = qtype; qclass = 1 } ∷ []) [];
  fqdn = λ name. name;
  new_opt = λ size dnssec. record { udp_size = size; version = 0; options = [] };
  type_to_string = λ qtype. if qtype == 1 then codes "A" else codes "AAAA";
  string_to_type = λ name. if name == codes "A" then 1 else 28;
  rcode_to_string = λ rcode. [];
  message_len = λ m. 12;
}

abbrev pub rr : Rr Text
rr = record {
  hdr = record { name = codes "a.org."; rrtype = 1; class = 1; ttl = 30 };
  body = a (codes "10.0.0.1");
}

abbrev pub query : Msg Text
query = message (record { name = codes "A.org."; qtype = 1; qclass = 1 } ∷ []) []

-- A server without zones.
abbrev pub forwarder : Result (Msg Text) → Handler packages
forwarder upstream = record {
  has_stats = true;
  has_tracker = true;
  has_log = true;
  has_adblock_stats = false;
  is_blocked = none;
  gslb = none;
  get_zone_by_name = λ name. ok none;
  get_records_by_name_and_zone = λ zone name kind. ok [];
  get_records_by_name = λ name kind. ok [];
  domain_exists_in_zone = λ zone name. ok false;
  forward = λ m. upstream;
  adblock_response = [];
  nsid = [];
  version = codes "1";
  negative_ttl = 60;
}

abbrev pub settings : CacheSettings
settings = record {
  enabled = true;
  max_size = 100;
  default_ttl = 300;
  negative_ttl = 60;
  prefetch_delay = λ ttl. ttl;
}

abbrev pub fresh : Cache.Cache (Rr Text)
fresh = Cache.new_cache 100 300 60 (λ ttl. ttl)

abbrev pub world : World Text
world = record { cache = some fresh; events = [] }

abbrev pub early : Times
early = record { start = 0; looked_up = 0; stored = 0 }

abbrev pub late : Times
late = record { start = 20000000000; looked_up = 20000000000; stored = 20000000000 }

abbrev pub answered : Handler packages
answered = forwarder (ok (message [] (rr ∷ [])))

abbrev pub question : Question
question = record { name = codes "A.org."; qtype = 1; qclass = 1 }

abbrev pub zone : Zone
zone = record {
  id = 1;
  name = codes "org.";
  soa_mname = [];
  soa_rname = [];
  soa_serial = 1;
  soa_refresh = 3600;
  soa_retry = 900;
  soa_expire = 86400;
  soa_minimum = 300;
  enabled = true;
  allow_fallback = false;
}

abbrev pub v6_record : Record
v6_record = record {
  id = 1;
  zone_id = 1;
  name = codes "a.org.";
  record_type = codes "AAAA";
  content = codes "fe80::1";
  ttl = 60;
  priority = 0;
  enabled = true;
  last_query_at = none;
}

-- A server with one zone, and one record in it.
abbrev pub zoned : Handler packages
zoned =
    on_storage (λ zone. ok (v6_record ∷ []))
      (record (forwarder err) { get_zone_by_name = λ name. ok (some zone) })
