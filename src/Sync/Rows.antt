-- ===== src/Sync/Rows.antt =====
-- What the statements of a synchronisation do to the tables, as SQLite documents them, and the
-- effect of a list of them.
use mathlib.Core.List.{map}
use mathlib.Core.Path.{◌≡◌, refl}
use dns_go.Base.{
  ℕ, Bool, true, false, List, [], ◌∷◌, ◌++◌, if◌then◌else◌, nat_eq, ◌==◌, arith, append_assoc,
  append-nil,
}
use dns_go.Sync.{
  Table, zones, records, upstream_servers, gslb_policies, gslb_pools, gslb_members, health_checks,
  adblock_sources, adblock_domains, Cells, Row, Statement, delete_all, insert, prepare,
  insert_or_ignore, set_state, cells, insert_all, ignore_all, domains_batch,
}

abbrev pub number : Table → ℕ
number zones = 0
number records = 1
number upstream_servers = 2
number gslb_policies = 3
number gslb_pools = 4
number gslb_members = 5
number health_checks = 6
number adblock_sources = 7
number adblock_domains = 8

unfoldable pub same_table : Table → Table → Bool
same_table t u = number t == number u

-- The rows of each table, in the order of their insertion.
abbrev pub Tables : Type 0 → Type 0
Tables Value = Table → List (Cells Value)

-- `same_domain`: the key of the table of blocked domains.
module _ {Value : Type 0} (same_domain : Cells Value → Cells Value → Bool) where
  unfoldable pub holds : Cells Value → List (Cells Value) → Bool
  holds c [] = false
  holds c (d ∷ ds) = if same_domain c d then true else holds c ds

  -- `INSERT OR IGNORE`: a row whose domain is there already is dropped.
  unfoldable pub add : Cells Value → List (Cells Value) → List (Cells Value)
  add c ds = if holds c ds then ds else ds ++ c ∷ []

  unfoldable pub add_all : List (Row Value) → List (Cells Value) → List (Cells Value)
  add_all [] ds = ds
  add_all (r ∷ rs) ds = add_all rs (add (cells adblock_domains r) ds)

-- `cascades t u`: a row of `t` takes the rows of `u` that refer to it with it.
module _ {Value : Type 0} (cascades : Table → Table → Bool)
    (same_domain : Cells Value → Cells Value → Bool) where
  unfoldable pub written : Statement Value → Tables Value → Tables Value
  written (delete_all t) c u = if same_table t u then [] else if cascades t u then [] else c u
  written (insert t row) c u = if same_table t u then c u ++ row ∷ [] else c u
  written prepare c u = c u
  written (insert_or_ignore row) c u =
      if same_table adblock_domains u then add same_domain row (c u) else c u
  written (set_state v s) c u = c u

  unfoldable pub written_all : List (Statement Value) → Tables Value → Tables Value
  written_all [] c = c
  written_all (st ∷ sts) c = written_all sts (written st c)

  pub written_all-++ :
      (xs ys : List (Statement Value)) (c : Tables Value)
      → written_all (xs ++ ys) c ≡ written_all ys (written_all xs c)
  unfolding written_all
  written_all-++ [] ys c = refl
  written_all-++ (st ∷ xs) ys c = written_all-++ xs ys (written st c)

  pub written_all-insert_all :
      (t u : Table) (rs : List (Row Value)) (c : Tables Value)
      → written_all (insert_all t rs) c u
        ≡ (if same_table t u then c u ++ map (cells t) rs else c u)
  unfolding written_all written insert_all
  written_all-insert_all t u [] c = grind (arith, append-nil)
  written_all-insert_all t u (r ∷ rs) c = grind (arith, written_all-insert_all t u rs, append_assoc)

  written_all-ignore_all :
      (u : Table) (rs : List (Row Value)) (c : Tables Value)
      → written_all (ignore_all rs) c u
        ≡ (if same_table adblock_domains u then add_all same_domain rs (c u) else c u)
  unfolding written_all written ignore_all add_all
  written_all-ignore_all u [] c = grind arith
  written_all-ignore_all u (r ∷ rs) c = grind (arith, written_all-ignore_all u rs)

  pub written_all-domains_batch :
      (u : Table) (rs : List (Row Value)) (c : Tables Value)
      → written_all (domains_batch rs) c u
        ≡ (if same_table adblock_domains u then add_all same_domain rs (c u) else c u)
  unfolding written_all written domains_batch add_all
  written_all-domains_batch u [] c = grind arith
  written_all-domains_batch u (r ∷ rs) c = written_all-ignore_all u (r ∷ rs) (written prepare c)
