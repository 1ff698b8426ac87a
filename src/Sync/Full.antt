-- ===== src/Sync/Full.antt =====
-- `fullSync` and `incrementalSync` of sync/worker.go, over a database that keeps the laws `SyncLaws`.
use mathlib.Core.Path.{◌≡◌, refl, sym, ap, ◌∙◌}
use mathlib.Core.Option
use dns_go.Base.Text.{Text}
use dns_go.Base.{
  bind-ok, ◌>>=◌, ℕ, ◌+◌, ◌==◌, nat_eq, Bool, true, false, List, [], ◌∷◌, Option, none, some,
  Result, ok, err, if◌then◌else◌, arith, ◌⊎◌, inl, inr,
}
use dns_go.Sync.{
  Table, upstream_servers, Cells, Statement, Snapshot, Backend, Secondary, replacement, run_all,
  fetch_full, replaced, finish, full_sync, fetch_metadata, compare, version_or_zero,
  incremental_sync,
}
use dns_go.Sync.Rows.{Tables, written, written_all}
use dns_go.Sync.Replaced.{copied, written_all-replacement}
use dns_go.Sync.Versions.{versioned, versioned_all, versioned_all-replacement}

-- What SQLite documents of the statements that `fullSync` sends, where they succeed: the rows that
-- each leaves and the version in the row of the state. `cascades` are the foreign keys with ON DELETE
-- CASCADE; nothing refers to an upstream.
pub record SyncLaws (b : Backend) : Type 0 where
  pub cascades : Table → Table → Bool
  pub upstreams_apart : (t : Table) → cascades t upstream_servers ≡ false
  pub same_domain : Cells b.Value → Cells b.Value → Bool
  pub contents : b.Db → Tables b.Value
  pub version_of : b.Db → Option ℕ
  pub begin-contents :
      (db tx : b.Db)
      → b.begin db ≡ ok tx
      → (contents tx ≡ contents db) × (version_of tx ≡ version_of db)
  pub exec-contents :
      (st : Statement b.Value) (db tx : b.Db)
      → b.exec st db ≡ ok tx
      → (contents tx ≡ written cascades same_domain st (contents db))
        × (version_of tx ≡ versioned st (version_of db))
  pub commit-contents :
      (tx db : b.Db)
      → b.commit tx ≡ ok db
      → (contents db ≡ contents tx) × (version_of db ≡ version_of tx)
  pub local_version-reads :
      (db : b.Db) (v : Option ℕ) → b.local_version db ≡ ok v → v ≡ version_of db

module _ (b : Backend) (laws : SyncLaws b) where
  open b use {Db, Value, begin, exec, commit}
  open laws use {cascades, upstreams_apart, same_domain, contents, version_of}

  run_all-contents :
      (sts : List (Statement Value)) (db tx : Db)
      → run_all b sts db ≡ ok tx
      → (contents tx ≡ written_all cascades same_domain sts (contents db))
        × (version_of tx ≡ versioned_all sts (version_of db))
  unfolding run_all written_all versioned_all
  run_all-contents [] db tx e =
      let same : db ≡ tx = ground (arith, e) in (sym (ap contents same), sym (ap version_of same))
  run_all-contents (st ∷ sts) db tx e =
      let (mid, first, rest) = bind-ok (exec st db) (run_all b sts) tx e in
      let (now, version) = laws.exec-contents st db mid first in
      let (later, version') = run_all-contents sts mid tx rest in
      (
        later ∙ ap (written_all cascades same_domain sts) now,
        version' ∙ ap (versioned_all sts) version,
      )

  pub replaced-contents :
      (d : Snapshot Value) (db db' : Db)
      → replaced b d db ≡ ok db'
      → ((t : Table) → contents db' t ≡ copied same_domain d (contents db) t)
        × (version_of db' ≡ Option.map (λ o. d.version) (version_of db))
  unfolding replaced
  replaced-contents d db db' e =
      let (tx, begun, e1) =
        bind-ok (begin db) (λ tx. run_all b (replacement d) tx >>= commit) db' e in
      let (tx', ran, ended) = bind-ok (run_all b (replacement d) tx) commit db' e1 in
      let (c1, v1) = laws.begin-contents db tx begun in
      let (c2, v2) = run_all-contents (replacement d) tx tx' ran in
      let (c3, v3) = laws.commit-contents tx' db' ended in
      let started = ap (written_all cascades same_domain (replacement d)) c1 in
      (
        (λ t.
            ap (λ f. f t) (c3 ∙ c2 ∙ started)
            ∙ written_all-replacement cascades same_domain d (contents db) upstreams_apart t),
        v3
            ∙ v2
            ∙ ap (versioned_all (replacement d)) v1
            ∙ versioned_all-replacement d (version_of db),
      )

  -- The secondary after a synchronisation that took over `d`.
  abbrev pub IsReplaced : Secondary b → Snapshot Value → Secondary b → Type 0
  IsReplaced s d s' =
      ((t : Table) → contents s'.db t ≡ copied same_domain d (contents s.db) t)
      × (version_of s'.db ≡ Option.map (λ o. d.version) (version_of s.db))
      × (s'.synced ≡ (if s.has_callback then s.synced + 1 else s.synced))
      × (s'.has_callback ≡ s.has_callback)

  -- All or nothing.
  abbrev pub Outcome : Secondary b → Result (Unit {0}) × Secondary b → Type 0
  Outcome s (err, s') = s' ≡ s
  Outcome s (ok u, s') = (d : Snapshot Value) × (fetch_full b ≡ ok d) × IsReplaced s d s'

  pub full_sync-Outcome : (s : Secondary b) → Outcome s (full_sync b s)
  unfolding full_sync finish
  full_sync-Outcome s = go (fetch_full b >>= λ d. replaced b d s.db) refl
    where
      go :
          (o : Result Db) → (fetch_full b >>= λ d. replaced b d s.db) ≡ o → Outcome s (finish b s o)
      go err e = refl
      go (ok db') e =
          let (d, asked, rest) = bind-ok (fetch_full b) (λ d. replaced b d s.db) db' e in
          let (tables, version) = replaced-contents d s.db db' rest in
          (d, asked, (tables, version, refl, refl))

  -- Nothing changed where the versions are equal.
  abbrev pub IncrementalOutcome : Secondary b → Result (Unit {0}) × Secondary b → Type 0
  IncrementalOutcome s (err, s') = s' ≡ s
  IncrementalOutcome s (ok u, s') =
      ((v : ℕ) × (checksum : Text) × (version_of s.db ≡ some v)
        × (fetch_metadata b ≡ ok (v, checksum))
        × (s' ≡ s))
      ⊎ ((d : Snapshot Value) × (fetch_full b ≡ ok d) × IsReplaced s d s')

  full_sync-IncrementalOutcome :
      (s : Secondary b) (r : Result (Unit {0}) × Secondary b) → Outcome s r → IncrementalOutcome s r
  full_sync-IncrementalOutcome s (err, s') h = h
  full_sync-IncrementalOutcome s (ok u, s') h = inr h

  either_way :
      (s : Secondary b) (c : Bool) (r r' : Result (Unit {0}) × Secondary b)
      → (c ≡ true → IncrementalOutcome s r)
      → (c ≡ false → IncrementalOutcome s r')
      → IncrementalOutcome s (if c then r else r')
  either_way s true r r' first second = first refl
  either_way s false r r' first second = second refl

  compare-IncrementalOutcome :
      (s : Secondary b) (v : ℕ) (m : Result (ℕ × Text))
      → b.local_version s.db ≡ ok (some v)
      → fetch_metadata b ≡ m
      → IncrementalOutcome s (full_sync b s)
      → IncrementalOutcome s (compare b (full_sync b s) s v m)
  unfolding compare
  compare-IncrementalOutcome s v err e f full = refl
  compare-IncrementalOutcome s v (ok (remote, checksum)) e f full =
      let unchanged = λ (same : (remote == v) ≡ true).
        let equal : remote ≡ v = ground (arith, same) in
        inl (
          v,
          checksum,
          sym (laws.local_version-reads s.db (some v) e),
          f ∙ ap (λ n. ok (n, checksum)) equal,
          refl,
        ) in
      either_way s (remote == v) (ok tt, s) (full_sync b s) unchanged (λ other. full)

  -- A periodic synchronisation either fails and leaves the secondary as it was, or finds the version
  -- of the primary equal to its own and changes nothing, or takes over one answer of the primary: then
  -- every table that is copied holds the rows of the answer and nothing else (of blocked domains the
  -- first row of each), the upstreams are as before, the version is that of the answer, and the
  -- callback was called once, if there is one.
  pub incremental_sync-Outcome : (s : Secondary b) → IncrementalOutcome s (incremental_sync b s)
  unfolding incremental_sync
  incremental_sync-Outcome s = go (b.local_version s.db) refl
    where
      full : IncrementalOutcome s (full_sync b s)
      full = full_sync-IncrementalOutcome s (full_sync b s) (full_sync-Outcome s)

      go :
          (v : Result (Option ℕ))
          → b.local_version s.db ≡ v
          → IncrementalOutcome s (
              if version_or_zero b v == 0
              then full_sync b s
              else compare b (full_sync b s) s (version_or_zero b v) (fetch_metadata b))
      go err e = full
      go (ok none) e = full
      go (ok (some v)) e =
          either_way s (v == 0) (full_sync b s) (compare b (full_sync b s) s v (fetch_metadata b))
            (λ unset. full) (λ more. compare-IncrementalOutcome s v (fetch_metadata b) e refl full)
