-- ===== src/Dns/Tests.antt =====
-- The tracker, the batches and the resolver of dns on short runs.
use dns_go.Base.{
  if◌then◌else◌, ◌==◌, inl, inr, ℕ, false, List, [], ◌∷◌, ◌++◌, ok, err, ◌≡◌, ◌≤◌, arith, length,
  In, ◌↔◌, none, some, nat_eq, true, refl,
}
use dns_go.Base.Text.{Text, codes, text_eq}
use dns_go.Base.Text
use dns_go.Base.Text.{text_beq}
use dns_go.Dns.Chain
use dns_go.Dns.Chain.{Sources, resolve_cname_chain, max_cname_chain_depth}
use dns_go.Dns.Chain.Walk.{IsChain, resolve_cname_chain-IsChain}
use dns_go.Storage.Lookup.{get_records_by_name_and_zone, select_records}
use dns_go.Storage.Wildcard.{
  find_wildcard_records, wildcard_rounds, matches, is_valid_wildcard_match,
}
use dns_go.Storage.Types.{Record}
use dns_go.Dns.Tracker
use dns_go.Dns.Tracker.{Step, query, take, write_done, write_failed}
use dns_go.Dns.Tracker.Latest.{known, last_query, after-known}
use dns_go.Dns.Batch.{new_buffered_batch}
use dns_go.Dns.Batch.Order
use dns_go.Dns.Batch.Order.{add_step, flush_step, all_given, accepted, run, run-accepted}
use dns_go.Dns.Resolver.{UpstreamServer, Client, forward, Answers, forward-Answers}

-- The newest step stands first: a write fails after a later query has come in.
abbrev steps : List Step
steps =
    write_failed
    ∷ query (codes "a.org.") 40
    ∷ query (codes "b.org.") 35
    ∷ take
    ∷ query (codes "a.org.") 50
    ∷ query (codes "b.org.") 30
    ∷ []

after-known_example :
    known (codes "a.org.") (Tracker.after steps) ≡ last_query (codes "a.org.") steps
after-known_example = after-known steps (codes "a.org.") (ground arith)

abbrev additions : List (Order.Step ℕ)
additions = add_step 1 ∷ add_step 2 ∷ add_step 3 ∷ flush_step false ∷ add_step 4 ∷ []

run-accepted_example :
    (all_given (run additions (new_buffered_batch 5 2)).given
        ++ (run additions (new_buffered_batch 5 2)).pending
      ≡ accepted additions (new_buffered_batch 5 2))
    × (length (run additions (new_buffered_batch 5 2)).pending
        ≤ (new_buffered_batch {T = ℕ} 5 2).buffer_size)
run-accepted_example = run-accepted additions 5 2

-- Messages are texts; only one address answers.
abbrev client : Client
client = record {
  Msg = Text;
  exchange = λ protocol address req. if address == codes "1.1.1.1:53" then ok req else err;
}

abbrev server : ℕ → Text → UpstreamServer
server id address = record { id = id; name = codes "up"; address = address; protocol = codes "udp" }

abbrev servers : List UpstreamServer
servers = server 1 (codes "9.9.9.9:53") ∷ server 2 (codes "1.1.1.1:53") ∷ []

-- The second server answers first.
abbrev swapped : List UpstreamServer → List UpstreamServer
swapped [] = []
swapped (s ∷ []) = s ∷ []
swapped (s ∷ t ∷ rest) = t ∷ s ∷ rest

swapped-In : (s : UpstreamServer) → In s servers ↔ In s (swapped servers)
swapped-In s = (
  λ at. elim at [ inl e ↦ inr (inl e) | inr (inl e) ↦ inl e | inr (inr never) ↦ absurd never ],
  λ at. elim at [ inl e ↦ inr (inl e) | inr (inl e) ↦ inl e | inr (inr never) ↦ absurd never ],
)

forward-Answers_example :
    Answers client servers (codes "a.org?") (forward client swapped (ok servers) (codes "a.org?"))
forward-Answers_example = forward-Answers client swapped servers (codes "a.org?") swapped-In

abbrev cname : Text → Text → Record
cname name content = record {
  id = 1;
  zone_id = 1;
  name = name;
  record_type = codes "CNAME";
  content = content;
  ttl = 60;
  priority = 0;
  enabled = true;
  last_query_at = none;
}

-- Two names that point at each other, and one that points at an address.
abbrev all_records : List Record
all_records =
    cname (codes "a.org.") (codes "b.org")
    ∷ cname (codes "b.org.") (codes "a.org.")
    ∷ cname (codes "c.org.") (codes "d.org.")
    ∷ record (cname (codes "d.org.") (codes "10.0.0.4")) { record_type = codes "A" }
    ∷ []

-- The lookup of the storage, on one zone.
abbrev sources : Sources
sources = record {
  IP = Text;
  to4 = λ ip. some ip;
  ip_text = λ ip. ip;
  get_records_by_name_and_zone =
      λ zone name kind. get_records_by_name_and_zone (ok all_records) name kind;
  get_zone_by_name = λ name. ok none;
  gslb = none;
  forward = none;
}

resolve_cname_chain-IsChain_example :
    IsChain sources 1
      (codes "A")
      max_cname_chain_depth
      []
      (codes "a.org.")
      []
      (resolve_cname_chain sources 1 (codes "a.org.") (codes "A"))
resolve_cname_chain-IsChain_example =
    resolve_cname_chain-IsChain sources 1 (codes "A") (codes "a.org.")

chains :
    (resolve_cname_chain sources 1 (codes "a.org.") (codes "A") ≡ (
      cname (codes "a.org.") (codes "b.org") ∷ cname (codes "b.org.") (codes "a.org.") ∷ [],
      ok false,
    ))
    × (length (resolve_cname_chain sources 1 (codes "c.org.") (codes "A")).0 ≡ 2)
unfolding get_records_by_name_and_zone select_records find_wildcard_records wildcard_rounds matches
    is_valid_wildcard_match resolve_cname_chain Chain.chain_rounds Chain.cname_records
    Chain.resolve_target_records Chain.known_target Chain.local_target Chain.cross_zone_target
    Chain.upstream_target Chain.extract_domain Chain.find_zone Chain.last_two Chain.with_dot
    text_beq Text.has_suffix Text.trim_suffix Text.split Text.join
chains = (refl, refl)
