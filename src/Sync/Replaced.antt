-- ===== src/Sync/Replaced.antt =====
-- What the transaction of `fullSync` in sync/worker.go leaves in the tables.
use mathlib.Core.List.{map}
use mathlib.Core.Path.{◌≡◌, sym, ◌∙◌}
use dns_go.Base.{Bool, false, List, [], ◌∷◌, ◌++◌, if◌then◌else◌, arith, append-nil, append_assoc}
use dns_go.Sync.{
  Table, zones, records, upstream_servers, gslb_policies, gslb_pools, gslb_members, health_checks,
  adblock_sources, adblock_domains, Cells, set_state, Snapshot, cells, insert_all, deletions,
  insertions, insert_order, replacement, domains_batch,
}
use dns_go.Sync.Rows.{
  same_table, Tables, add_all, written, written_all, written_all-++, written_all-insert_all,
  written_all-domains_batch,
}

module _ {Value : Type 0} (same_domain : Cells Value → Cells Value → Bool) where
  -- What a secondary's tables hold after it took over a snapshot.
  unfoldable pub copied : Snapshot Value → Tables Value → Tables Value
  copied d c zones = map (cells zones) (d.rows zones)
  copied d c records = map (cells records) (d.rows records)
  copied d c upstream_servers = c upstream_servers
  copied d c gslb_policies = map (cells gslb_policies) (d.rows gslb_policies)
  copied d c gslb_pools = map (cells gslb_pools) (d.rows gslb_pools)
  copied d c gslb_members = map (cells gslb_members) (d.rows gslb_members)
  copied d c health_checks = map (cells health_checks) (d.rows health_checks)
  copied d c adblock_sources = map (cells adblock_sources) (d.rows adblock_sources)
  copied d c adblock_domains = add_all same_domain (d.rows adblock_domains) []

module _ {Value : Type 0} (cascades : Table → Table → Bool)
    (same_domain : Cells Value → Cells Value → Bool) where
  unfoldable gathered : List Table → Snapshot Value → Tables Value
  gathered [] d u = []
  gathered (t ∷ ts) d u =
      (if same_table t u then map (cells t) (d.rows t) else []) ++ gathered ts d u

  written_all-insertions :
      (ts : List Table) (d : Snapshot Value) (c : Tables Value) (u : Table)
      → written_all cascades same_domain (insertions ts d) c u ≡ c u ++ gathered ts d u
  unfolding written_all insertions gathered
  written_all-insertions [] d c u = sym (append-nil (c u))
  written_all-insertions (t ∷ ts) d c u = grind (
    arith,
    written_all-++ cascades same_domain (insert_all t (d.rows t)) (insertions ts d) c,
    written_all-insert_all cascades same_domain t u (d.rows t) c,
    written_all-insertions ts d (written_all cascades same_domain (insert_all t (d.rows t)) c) u,
    append_assoc,
  )

  emptied :
      (c : Tables Value)
      → ((t : Table) → cascades t upstream_servers ≡ false)
      → (u : Table)
      → written_all cascades same_domain deletions c u
        ≡ (if same_table u upstream_servers then c u else [])
  unfolding written_all written deletions same_table
  emptied c apart zones = grind arith
  emptied c apart upstream_servers = grind (arith, apart)
  emptied c apart records = grind arith
  emptied c apart gslb_policies = grind arith
  emptied c apart gslb_pools = grind arith
  emptied c apart gslb_members = grind arith
  emptied c apart health_checks = grind arith
  emptied c apart adblock_sources = grind arith
  emptied c apart adblock_domains = grind arith

  -- The three parts of the transaction, one after the other.
  in_parts :
      (d : Snapshot Value) (c : Tables Value)
      → written_all cascades same_domain (replacement d) c
        ≡ written_all cascades same_domain (domains_batch (d.rows adblock_domains)) (
            written_all cascades same_domain
              (insertions insert_order d)
              (written_all cascades same_domain deletions c))
  unfolding replacement written_all written
  in_parts d c =
      let batch = domains_batch (d.rows adblock_domains) in
      let ending = set_state d.version d.checksum ∷ [] in
      let c1 = written_all cascades same_domain deletions c in
      let c2 = written_all cascades same_domain (insertions insert_order d) c1 in
      written_all-++ cascades same_domain deletions (insertions insert_order d ++ (batch ++ ending))
        c
      ∙ written_all-++ cascades same_domain (insertions insert_order d) (batch ++ ending) c1
      ∙ written_all-++ cascades same_domain batch ending c2

  assembled :
      (d : Snapshot Value) (c : Tables Value) (u : Table)
      → (if same_table adblock_domains u
          then add_all same_domain
              (d.rows adblock_domains)
              ((if same_table u upstream_servers then c u else []) ++ gathered insert_order d u)
          else (if same_table u upstream_servers then c u else []) ++ gathered insert_order d u)
        ≡ copied same_domain d c u
  unfolding gathered insert_order copied same_table
  assembled d c zones = grind (arith, append-nil)
  assembled d c records = grind (arith, append-nil)
  assembled d c upstream_servers = grind (arith, append-nil)
  assembled d c gslb_policies = grind (arith, append-nil)
  assembled d c gslb_pools = grind (arith, append-nil)
  assembled d c gslb_members = grind (arith, append-nil)
  assembled d c health_checks = grind (arith, append-nil)
  assembled d c adblock_sources = grind (arith, append-nil)
  assembled d c adblock_domains = grind (arith, append-nil)

  pub written_all-replacement :
      (d : Snapshot Value) (c : Tables Value)
      → ((t : Table) → cascades t upstream_servers ≡ false)
      → (u : Table)
      → written_all cascades same_domain (replacement d) c u ≡ copied same_domain d c u
  written_all-replacement d c apart u =
      let c1 = written_all cascades same_domain deletions c in
      let c2 = written_all cascades same_domain (insertions insert_order d) c1 in
      grind (
        arith,
        in_parts d c,
        assembled d c u,
        emptied c apart u,
        written_all-insertions insert_order d c1 u,
        written_all-domains_batch cascades same_domain u (d.rows adblock_domains) c2,
      )
