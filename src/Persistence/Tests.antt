-- ===== src/Persistence/Tests.antt =====
-- The migrations on tables that are the list of the statements that ran.
use trade_post.Base.{
  ◌≡◌, refl, String, true, List, [], ◌∷◌, ◌++◌, str_eq, any_of, All, if◌then◌else◌, ◌&&◌, starts,
  occurs,
}
use mathlib.Core.Option
use trade_post.Persistence.Migrations.{
  Executed, ran, failed, Schema, Migration, Driver, migration_applied, record_migration,
  run_baseline, run_statements, migrate, migrate_all, run_migrations,
}
use trade_post.Persistence.Migrations.Once.{IsApplied, migrations_once}

-- A column is added once.
abbrev execute : String → List String → Executed (List String)
execute stmt t =
    if str_eq stmt "ALTER" && any_of (λ x. str_eq x stmt) t
    then failed "duplicate column name"
    else ran (t ++ (stmt ∷ []))

abbrev driver : Driver (List String)
driver = record { execute = execute; lower = λ why. why; format_money = λ stmt. stmt }

abbrev migrations : List Migration
migrations =
    record { id = "0002"; statements = "ALTER" ∷ "INDEX" ∷ [] }
    ∷ record { id = "0003"; statements = "ALTER" ∷ [] }
    ∷ []

abbrev fresh : Schema (List String)
fresh = record { tables = []; applied = [] }

abbrev migrated : Schema (List String)
migrated = record {
  tables = "CREATE" ∷ "ALTER" ∷ "INDEX" ∷ [];
  applied = "0001_init" ∷ "0002" ∷ "0003" ∷ [];
}

migrations_once_example :
    All (IsApplied migrated) migrations
    × ((k : String) → migration_applied k fresh ≡ true → migration_applied k migrated ≡ true)
    × (run_migrations driver ("CREATE" ∷ []) migrations (record migrated { tables = [] })
        ≡ Option.map (λ u. record migrated { tables = u }) (run_baseline driver ("CREATE" ∷ []) []))
unfolding any_of migration_applied record_migration starts occurs run_baseline run_statements
    migrate migrate_all run_migrations
migrations_once_example = migrations_once driver ("CREATE" ∷ []) migrations fresh migrated [] refl
