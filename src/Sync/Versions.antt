-- ===== src/Sync/Versions.antt =====
-- What the transaction of `fullSync` in sync/worker.go leaves as the version of the data.
use mathlib.Core.Path.{◌≡◌, refl, ap, ◌∙◌}
use mathlib.Core.Option
use dns_go.Base.{ℕ, List, [], ◌∷◌, ◌++◌, Option}
use dns_go.Sync.{
  Table, adblock_domains, Row, Statement, delete_all, insert, prepare, insert_or_ignore, set_state,
  Snapshot, insert_all, ignore_all, deletions, insertions, insert_order, replacement, domains_batch,
}

module _ {Value : Type 0} where
  unfoldable pub versioned : Statement Value → Option ℕ → Option ℕ
  versioned (delete_all t) v = v
  versioned (insert t row) v = v
  versioned prepare v = v
  versioned (insert_or_ignore row) v = v
  versioned (set_state n s) v = Option.map (λ o. n) v

  unfoldable pub versioned_all : List (Statement Value) → Option ℕ → Option ℕ
  versioned_all [] v = v
  versioned_all (st ∷ sts) v = versioned_all sts (versioned st v)

  versioned_all-++ :
      (xs ys : List (Statement Value)) (v : Option ℕ)
      → versioned_all (xs ++ ys) v ≡ versioned_all ys (versioned_all xs v)
  unfolding versioned_all
  versioned_all-++ [] ys v = refl
  versioned_all-++ (st ∷ xs) ys v = versioned_all-++ xs ys (versioned st v)

  versioned_all-insert_all :
      (t : Table) (rs : List (Row Value)) (v : Option ℕ) → versioned_all (insert_all t rs) v ≡ v
  unfolding versioned_all versioned insert_all
  versioned_all-insert_all t [] v = refl
  versioned_all-insert_all t (r ∷ rs) v = versioned_all-insert_all t rs v

  versioned_all-insertions :
      (ts : List Table) (d : Snapshot Value) (v : Option ℕ) → versioned_all (insertions ts d) v ≡ v
  unfolding versioned_all insertions
  versioned_all-insertions [] d v = refl
  versioned_all-insertions (t ∷ ts) d v =
      versioned_all-++ (insert_all t (d.rows t)) (insertions ts d) v
      ∙ ap (versioned_all (insertions ts d)) (versioned_all-insert_all t (d.rows t) v)
      ∙ versioned_all-insertions ts d v

  versioned_all-ignore_all :
      (rs : List (Row Value)) (v : Option ℕ) → versioned_all (ignore_all rs) v ≡ v
  unfolding versioned_all versioned ignore_all
  versioned_all-ignore_all [] v = refl
  versioned_all-ignore_all (r ∷ rs) v = versioned_all-ignore_all rs v

  versioned_all-domains_batch :
      (rs : List (Row Value)) (v : Option ℕ) → versioned_all (domains_batch rs) v ≡ v
  unfolding versioned_all versioned domains_batch
  versioned_all-domains_batch [] v = refl
  versioned_all-domains_batch (r ∷ rs) v = versioned_all-ignore_all (r ∷ rs) v

  pub versioned_all-replacement :
      (d : Snapshot Value) (v : Option ℕ)
      → versioned_all (replacement d) v ≡ Option.map (λ o. d.version) v
  unfolding versioned_all versioned replacement deletions
  versioned_all-replacement d v =
      let batch = domains_batch (d.rows adblock_domains) in
      let ending = set_state d.version d.checksum ∷ [] in
      versioned_all-++ (insertions insert_order d) (batch ++ ending) v
      ∙ ap (versioned_all (batch ++ ending)) (versioned_all-insertions insert_order d v)
      ∙ versioned_all-++ batch ending v
      ∙ ap (versioned_all ending) (versioned_all-domains_batch (d.rows adblock_domains) v)
