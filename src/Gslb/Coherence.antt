-- ===== src/Gslb/Coherence.antt =====
-- The member lists that `PoolStorage` of gslb/pool.go keeps beside the database, and the policies
-- that `PolicyStorage` of gslb/policy.go keeps.
use dns_go.Base.{
  ℕ, List, Option, none, some, ◌≡◌, ◌≢◌, refl, sym, ◌∙◌, arith, nat_eq, ◌==◌, Bool-cases,
  Option-cases, inl, inr, Result, ok, err, Result-cases, nat_beq_iff,
}
use dns_go.Base.Map
use dns_go.Base.Map.{Map}
use dns_go.Base.Text.{text_eq}
use dns_go.Gslb.Database.{
  Database, Outcome, Statement, insert_member, update_member as update_row,
  delete_member as delete_row, create, change, finish,
}
use dns_go.Gslb.Pools
use dns_go.Gslb.Pools.{PoolStorage, PoolCache}
use dns_go.Gslb.Types.{Member}

module _ (d : Database) where
  open d use {Db, find_member, list_members, begin, exec, increment_version, commit}

  -- What SQL promises of the statements on members: beginning, counting the version and
  -- committing change no list of members, and a statement changes only the list of its own pool.
  pub record MemberLaws : Type 0 where
    pub begin_keeps :
        (db tx : Db) → begin db ≡ ok tx → (p : ℕ) → list_members tx p ≡ list_members db p
    pub version_keeps :
        (tx tx' : Db)
        → increment_version tx ≡ ok tx'
        → (p : ℕ) → list_members tx' p ≡ list_members tx p
    pub commit_keeps :
        (tx db : Db) → commit tx ≡ ok db → (p : ℕ) → list_members db p ≡ list_members tx p
    pub insert_local :
        (m : Member) (tx : Db) (o : Outcome Db)
        → exec (insert_member m) tx ≡ ok o
        → (p : ℕ) → p ≢ m.pool_id
        → list_members o.after p ≡ list_members tx p
    pub update_local :
        (m row : Member) (db tx : Db) (o : Outcome Db)
        → begin db ≡ ok tx
        → find_member db m.id ≡ ok (some row)
        → exec (update_row m) tx ≡ ok o
        → (p : ℕ) → p ≢ row.pool_id
        → list_members o.after p ≡ list_members tx p
    pub delete_local :
        (id : ℕ) (row : Member) (db tx : Db) (o : Outcome Db)
        → begin db ≡ ok tx
        → find_member db id ≡ ok (some row)
        → exec (delete_row id) tx ≡ ok o
        → (p : ℕ) → p ≢ row.pool_id
        → list_members o.after p ≡ list_members tx p

  -- Every list of members that is kept, even an outdated one, is the one in the database.
  abbrev pub IsCoherent : PoolStorage d → Type 0
  IsCoherent s =
      (p : ℕ) (ms : List Member) → Map.get p s.cache.members ≡ some ms → list_members s.db p ≡ ok ms

  -- A member that is to be written stands in the database in the pool that it names.
  abbrev pub NamesPool : PoolStorage d → Member → Type 0
  NamesPool s m =
      (row : Member) × (find_member s.db m.id ≡ ok (some row)) × (row.pool_id ≡ m.pool_id)

  module _ (laws : MemberLaws) where
    finish_keeps :
        {A : Type 0} (a : A) (tx : Db) (r : A × Db)
        → finish d a tx ≡ ok r
        → (p : ℕ) → list_members r.1 p ≡ list_members tx p
    unfolding finish
    finish_keeps a tx r h p = elim (Result-cases (increment_version tx)) [
      | inl e ↦ absurd (ground (arith, e))
      | inr (tx', e) ↦ elim (Result-cases (commit tx')) [
        | inl e' ↦ absurd (ground (arith, e, e'))
        | inr (db, e') ↦
            ground (arith, e, e', laws.version_keeps tx tx' e p, laws.commit_keeps tx' db e' p)
      ]
    ]

    -- A write that succeeds has begun and executed its statement, and what it commits has the
    -- lists that the statement left.
    abbrev Wrote : Statement → Db → Db → Type 0
    Wrote s db db' =
        (tx : Db) × (o : Outcome Db) × (begin db ≡ ok tx)
        × (exec s tx ≡ ok o)
        × ((p : ℕ) → list_members db' p ≡ list_members o.after p)

    create-Wrote :
        (s : Statement) (db : Db) (id : ℕ) (db' : Db)
        → create d s db ≡ ok (id, db')
        → Wrote s db db'
    unfolding create
    create-Wrote s db id db' h = elim (Result-cases (begin db)) [
      | inl e ↦ absurd (ground (arith, e))
      | inr (tx, e) ↦ elim (Result-cases (exec s tx)) [
        | inl e' ↦ absurd (ground (arith, e, e'))
        | inr (o, e') ↦ elim (Result-cases o.last_insert_id) [
          | inl e'' ↦ absurd (ground (arith, e, e', e''))
          | inr (id', e'') ↦
              (tx, o, e, e', finish_keeps id' o.after (id, db') (ground (arith, e, e', e'')))
        ]
      ]
    ]

    change-Wrote :
        (s : Statement) (db : Db) (u : Unit {0}) (db' : Db)
        → change d s db ≡ ok (u, db')
        → Wrote s db db'
    unfolding change
    change-Wrote s db u db' h = elim (Result-cases (begin db)) [
      | inl e ↦ absurd (ground (arith, e))
      | inr (tx, e) ↦ elim (Result-cases (exec s tx)) [
        | inl e' ↦ absurd (ground (arith, e, e'))
        | inr (o, e') ↦ elim (Result-cases o.rows_affected) [
          | inl e'' ↦ absurd (ground (arith, e, e', e''))
          | inr (rows, e'') ↦
              (tx, o, e, e', finish_keeps tt o.after (u, db') (ground (arith, e, e', e'')))
        ]
      ]
    ]

    -- Forgetting the list of the pool that was written keeps the others right.
    written-IsCoherent :
        (s : PoolStorage d) (pool : ℕ) (db : Db)
        → IsCoherent s
        → ((p : ℕ) → p ≢ pool → list_members db p ≡ list_members s.db p)
        → IsCoherent (record { db = db; cache = Pools.invalidate_members pool s.cache })
    unfolding Pools.invalidate_members
    written-IsCoherent s pool db coh same p ms h = elim (Bool-cases (pool == p)) [
      | inl here ↦ absurd (ground (arith, here, Map.get-delete pool p s.cache.members))
      | inr other ↦
          same p (λ e. absurd (ground (arith, other, e)))
          ∙ coh p ms (ground (arith, other, Map.get-delete pool p s.cache.members))
    ]

    get_members-get :
        (now pool : ℕ) (c : PoolCache) (ms : List Member)
        → Pools.get_members now pool c ≡ some ms
        → Map.get pool c.members ≡ some ms
    unfolding Pools.get_members
    get_members-get now pool c ms h = ground arith

    set_members-IsCoherent :
        (now pool : ℕ) (ms : List Member) (s : PoolStorage d)
        → IsCoherent s
        → list_members s.db pool ≡ ok ms
        → IsCoherent (record s { cache = Pools.set_members now pool ms s.cache })
    unfolding Pools.set_members
    set_members-IsCoherent now pool ms s coh read p ms' h = elim (Bool-cases (pool == p)) [
      | inl here ↦
          ground (arith, here, nat_beq_iff pool p, read, Map.get-put pool p ms s.cache.members)
      | inr other ↦ coh p ms' (ground (arith, other, Map.get-put pool p ms s.cache.members))
    ]

    -- Reading a list answers with the list in the database, whether it was kept or not, and
    -- keeps the cache right.
    pub get_members_by_pool-IsCoherent :
        (now pool : ℕ) (s : PoolStorage d)
        → IsCoherent s
        → ((Pools.get_members_by_pool d now pool s).0 ≡ list_members s.db pool)
          × IsCoherent (Pools.get_members_by_pool d now pool s).1
    unfolding Pools.get_members_by_pool
    get_members_by_pool-IsCoherent now pool s coh =
        elim (Option-cases (Pools.get_members now pool s.cache)) [
          | inr (ms, kept) ↦ (
            rw (kept, Pools.get_members_by_pool)
                (sym (coh pool ms (get_members-get now pool s.cache ms kept))),
            rw (kept, Pools.get_members_by_pool) coh,
          )
          | inl missing ↦ elim (Result-cases (list_members s.db pool)) [
            | inl e ↦ (
              rw (missing, Pools.get_members_by_pool, e),
              rw (missing, Pools.get_members_by_pool, e) coh,
            )
            | inr (ms, e) ↦ (
              rw (missing, Pools.get_members_by_pool, e),
              rw (missing, Pools.get_members_by_pool, e)
                  (set_members-IsCoherent now pool ms s coh e),
            )
          ]
        ]

    pub create_member-IsCoherent :
        (m : Member) (s : PoolStorage d) → IsCoherent s → IsCoherent (Pools.create_member d m s).1
    unfolding Pools.create_member
    create_member-IsCoherent m s coh = elim (Result-cases (create d (insert_member m) s.db)) [
      | inl e ↦ rw (e, Pools.create_member) coh
      | inr ((id, db), e) ↦
          let (tx, o, begun, ran, kept) = create-Wrote (insert_member m) s.db id db e in
          rw (e, Pools.create_member)
            (written-IsCoherent s m.pool_id db coh (λ p ne.
              kept p ∙ laws.insert_local m tx o ran p ne ∙ laws.begin_keeps s.db tx begun p))
    ]

    pub update_member-IsCoherent :
        (m : Member) (s : PoolStorage d)
        → NamesPool s m
        → IsCoherent s
        → IsCoherent (Pools.update_member d m s).1
    unfolding Pools.update_member
    update_member-IsCoherent m s (row, at_row, same) coh =
        elim (Result-cases (change d (update_row m) s.db)) [
          | inl e ↦ rw (e, Pools.update_member) coh
          | inr ((u, db), e) ↦
              let (tx, o, begun, ran, kept) = change-Wrote (update_row m) s.db u db e in
              rw (e, Pools.update_member)
                (written-IsCoherent s m.pool_id db coh (λ p ne.
                  kept p
                  ∙ laws.update_local m row s.db tx o begun at_row ran p (λ q. ne (q ∙ same))
                  ∙ laws.begin_keeps s.db tx begun p))
        ]

    pub delete_member-IsCoherent :
        (id : ℕ) (s : PoolStorage d) → IsCoherent s → IsCoherent (Pools.delete_member d id s).1
    unfolding Pools.delete_member Pools.get_member
    delete_member-IsCoherent id s coh = go (find_member s.db id) refl
      where
        go :
            (f : Result (Option Member))
            → find_member s.db id ≡ f
            → IsCoherent (Pools.delete_member d id s).1
        go err f = rw (f, Pools.delete_member) coh
        go (ok none) f = rw (f, Pools.delete_member) coh
        go (ok (some row)) f = elim (Result-cases (change d (delete_row id) s.db)) [
          | inl e ↦ rw (f, e, Pools.delete_member) coh
          | inr ((u, db), e) ↦
              let (tx, o, begun, ran, kept) = change-Wrote (delete_row id) s.db u db e in
              rw (f, e, Pools.delete_member)
                (written-IsCoherent s row.pool_id db coh (λ p ne.
                  kept p
                  ∙ laws.delete_local id row s.db tx o begun f ran p ne
                  ∙ laws.begin_keeps s.db tx begun p))
        ]
