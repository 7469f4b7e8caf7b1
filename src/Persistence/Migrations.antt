-- ===== src/Persistence/Migrations.antt =====
-- trade_post/persistence/migrations.py: `run_migrations`. What a statement does to the tables is an
-- argument, and so are the statements; the table of the applied migrations is a list of their ids.
pub mod Once
use trade_post.Base.{
  ℕ, String, Bool, true, false, ◌&&◌, ◌||◌, Option, none, some, List, [], ◌∷◌, ◌++◌, ◌==◌, any_of,
  str_eq, if◌then◌else◌, starts, occurs,
}

-- What the execution of a statement does: it changes the tables, or raises with a text.
pub data Executed (T : Type 0) : Type 0 where
  ran : T → Executed T
  failed : String → Executed T

pub record Schema (T : Type 0) : Type 0 where
  pub tables : T
  pub applied : List String

pub record Migration : Type 0 where
  pub id : String
  pub statements : List String

-- The driver: the execution of a statement, `str.lower` and `str.format` with the type of money.
pub record Driver (T : Type 0) : Type 0 where
  pub execute : String → T → Executed T
  pub lower : String → String
  pub format_money : String → String

module _ {T : Type 0} where
  -- `_migration_applied`
  unfoldable pub migration_applied : String → Schema T → Bool
  migration_applied id s = any_of (λ i. str_eq i id) s.applied

  -- `_record_migration`, an `INSERT OR IGNORE`
  unfoldable pub record_migration : String → Schema T → Schema T
  unfolding migration_applied
  record_migration id s =
      if migration_applied id s then s else record s { applied = s.applied ++ (id ∷ []) }

module _ {T : Type 0} (d : Driver T) where
  abbrev pub is_tolerated : String → Bool
  is_tolerated why =
      occurs "duplicate column" (d.lower why) || occurs "already exists" (d.lower why)

  -- The statements of the baseline, of which each may raise.
  unfoldable pub run_baseline : List String → T → Option T
  run_baseline [] t = some t
  run_baseline (stmt ∷ stmts) t = elim (d.execute stmt t) [
    | ran t' ↦ run_baseline stmts t'
    | failed why ↦ none
  ]

  abbrev pub rendered : String → String
  rendered stmt = if occurs "{money}" stmt then d.format_money stmt else stmt

  -- The statements of a migration.
  unfoldable pub run_statements : List String → T → Option T
  unfolding occurs
  run_statements [] t = some t
  run_statements (stmt ∷ stmts) t =
      let skipped = run_statements stmts t in
      elim (d.execute (rendered stmt) t) [
        | ran t' ↦ run_statements stmts t'
        | failed why ↦ if is_tolerated why then skipped else none
      ]

  -- One round of the loop over the migrations.
  unfoldable pub migrate : Migration → Schema T → Option (Schema T)
  migrate m s =
      if migration_applied m.id s then some s else elim (run_statements m.statements s.tables) [
        | none ↦ none
        | some t ↦ some (record_migration m.id (record s { tables = t }))
      ]

  unfoldable pub migrate_all : List Migration → Schema T → Option (Schema T)
  migrate_all [] s = some s
  migrate_all (m ∷ ms) s = elim (migrate m s) [ none ↦ none | some s' ↦ migrate_all ms s' ]

  -- `run_migrations`; none is an exception, which rolls the transaction back.
  unfoldable pub run_migrations : List String → List Migration → Schema T → Option (Schema T)
  run_migrations baseline migrations s = elim (run_baseline baseline s.tables) [
    | none ↦ none
    | some t ↦ migrate_all migrations (record_migration "0001_init" (record s { tables = t }))
  ]
