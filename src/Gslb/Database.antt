-- ===== src/Gslb/Database.antt =====
-- The SQL database behind the storages of gslb: what the queries answer, and the shape of every
-- write, a transaction of one statement and a step of the synchronisation version.
use dns_go.Base.{ℕ, List, Option, Result, ok, err, nat_eq, ◌==◌, if◌then◌else◌}
use dns_go.Base.Text.{Text}
use dns_go.Gslb.Types.{Policy, Pool, Member}

-- The statements that the storages execute, with the values bound to them.
pub data Statement : Type 0 where
  insert_policy : Policy → Statement
  update_policy : Policy → Statement
  delete_policy : ℕ → Statement
  insert_pool : Pool → Statement
  update_pool : Pool → Statement
  delete_pool : ℕ → Statement
  insert_member : Member → Statement
  update_member : Member → Statement
  delete_member : ℕ → Statement

-- The `sql.Result` of a statement, with the database as the transaction sees it.
pub record Outcome (Db : Type 0) : Type 0 where
  pub last_insert_id : Result ℕ
  pub rows_affected : Result ℕ
  pub after : Db

-- The database is not part of the repository: a state, and what each call makes of it. Every
-- call may fail.
pub record Database : Type 1 where
  pub Db : Type 0
  pub find_policy : Db → ℕ → Result (Option Policy)
  pub find_enabled_policy : Db → Text → Text → Result (Option Policy)
  pub list_policies : Db → Result (List Policy)
  pub find_pool : Db → ℕ → Result (Option Pool)
  pub list_pools : Db → ℕ → Result (List Pool)
  pub find_member : Db → ℕ → Result (Option Member)
  pub list_members : Db → ℕ → Result (List Member)
  pub begin : Db → Result Db
  pub exec : Statement → Db → Result (Outcome Db)
  pub increment_version : Db → Result Db
  pub commit : Db → Result Db

module _ (d : Database) where
  open d use {Db, begin, exec, increment_version, commit}

  -- `incrementSyncVersion` and `Commit`, which end every write.
  unfoldable pub finish {ℓ} : {A : Type ℓ} → A → Db → Result (A × Db)
  finish a db = elim (increment_version db) [
    | err ↦ err
    | ok db' ↦ elim (commit db') [ err ↦ err | ok db'' ↦ ok (a, db'') ]
  ]

  -- An insert: the new id, and the committed database. On an error the transaction is rolled
  -- back, and the caller keeps the database that it had.
  unfoldable pub create : Statement → Db → Result (ℕ × Db)
  create s db = elim (begin db) [
    | err ↦ err
    | ok tx ↦ elim (exec s tx) [
      | err ↦ err
      | ok o ↦ elim o.last_insert_id [ err ↦ err | ok id ↦ finish id o.after ]
    ]
  ]

  -- An update or a delete: an error where no row is affected.
  unfoldable pub change : Statement → Db → Result (Unit {0} × Db)
  change s db = elim (begin db) [
    | err ↦ err
    | ok tx ↦ elim (exec s tx) [
      | err ↦ err
      | ok o ↦ elim o.rows_affected [
        | err ↦ err
        | ok rows ↦ if rows == 0 then err else finish tt o.after
      ]
    ]
  ]
