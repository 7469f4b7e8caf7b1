-- ===== src/Persistence/Migrations/Once.antt =====
-- A migration runs once.
use mathlib.Core.Option
use trade_post.Base.{
  ◌≡◌, refl, arith, String, true, false, ◌||◌, Option, none, some, List, [], ◌∷◌, ◌++◌, any_of,
  str_eq, eq_iff, All, subst, Bool-cases, inl, inr,
}
use trade_post.Persistence.Migrations.{
  Schema, Migration, Driver, migration_applied, record_migration, run_baseline, run_statements,
  migrate, migrate_all, run_migrations,
}

any-append :
    (k id : String) (ids : List String)
    → any_of (λ i. str_eq i k) (ids ++ (id ∷ [])) ≡ (any_of (λ i. str_eq i k) ids || str_eq id k)
unfolding any_of
any-append k id [] = ground arith
any-append k id (i ∷ ids) = ground (arith, any-append k id ids)

module _ {T : Type 0} where
  abbrev pub IsApplied : Schema T → Migration → Type 0
  IsApplied s m = migration_applied m.id s ≡ true

  recorded : (id : String) (s : Schema T) → migration_applied id (record_migration id s) ≡ true
  unfolding record_migration migration_applied
  recorded id s = ground (arith, any-append id id s.applied, eq_iff id id)

  record_kept :
      (k id : String) (s : Schema T)
      → migration_applied k s ≡ true
      → migration_applied k (record_migration id s) ≡ true
  unfolding record_migration migration_applied
  record_kept k id s h = ground (arith, any-append k id s.applied)

-- What a migration leaves in the table: its own id, and all that were there.
record Follows {T : Type 0} (id : String) (s s' : Schema T) : Type 0 where
  done : migration_applied id s' ≡ true
  kept : (k : String) → migration_applied k s ≡ true → migration_applied k s' ≡ true

recorded-Follows :
    {T : Type 0} (id : String) (s : Schema T) (t : T)
    → Follows id s (record_migration id (record s { tables = t }))
unfolding migration_applied
recorded-Follows id s t = record {
  done = recorded id (record s { tables = t });
  kept = λ k h. record_kept k id (record s { tables = t }) h;
}

known_of :
    {T : Type 0} (k : String) (s : Schema T) (t : T)
    → migration_applied k s ≡ true
    → migration_applied k (record s { tables = t }) ≡ true
unfolding migration_applied
known_of k s t h = h

IsApplied-kept :
    {T : Type 0} (ms : List Migration) (s : Schema T) (t : T)
    → All (IsApplied s) ms
    → All (IsApplied (record s { tables = t })) ms
IsApplied-kept [] s t h = tt
IsApplied-kept (m ∷ ms) s t h = (known_of m.id s t h.0, IsApplied-kept ms s t h.1)

module _ {T : Type 0} (d : Driver T) where
  migrate-Follows : (m : Migration) (s s' : Schema T) → migrate d m s ≡ some s' → Follows m.id s s'
  unfolding migrate
  migrate-Follows m s s' h = elim (Bool-cases (migration_applied m.id s)) [
    | inl before ↦
        let same : s ≡ s' = ground arith in
        subst (Follows m.id s) same (record { done = before; kept = λ k h. h })
    | inr missing ↦ at missing (run_statements d m.statements s.tables) refl
  ]
    where
      at :
          migration_applied m.id s ≡ false
          → (o : Option T) → run_statements d m.statements s.tables ≡ o
          → Follows m.id s s'
      at missing none e = absurd (ground arith)
      at missing (some t) e =
          let same : record_migration m.id (record s { tables = t }) ≡ s' = ground arith in
          subst (Follows m.id s) same (recorded-Follows m.id s t)

  migrate_all-IsApplied :
      (ms : List Migration) (s s' : Schema T)
      → migrate_all d ms s ≡ some s'
      → All (IsApplied s') ms
        × ((k : String) → migration_applied k s ≡ true → migration_applied k s' ≡ true)
  unfolding migrate_all
  migrate_all-IsApplied [] s s' h =
      let same : s ≡ s' = ground arith in
      (tt, λ k e. subst (λ r. migration_applied k r ≡ true) same e)
  migrate_all-IsApplied (m ∷ ms) s s' h =
      at (migrate d m s) refl (λ r. migrate_all-IsApplied ms r s')
    where
      at :
          (o : Option (Schema T))
          → migrate d m s ≡ o
          → ((r : Schema T)
              → migrate_all d ms r ≡ some s'
              → All (IsApplied s') ms
                × ((k : String) → migration_applied k r ≡ true → migration_applied k s' ≡ true))
          → All (IsApplied s') (m ∷ ms)
            × ((k : String) → migration_applied k s ≡ true → migration_applied k s' ≡ true)
      at none e rest = absurd (ground arith)
      at (some r) e rest =
          let follows = migrate-Follows m s r e in
          let (all, kept) = rest r (ground arith) in
          ((kept m.id follows.done, all), λ k h. kept k (follows.kept k h))

  migrate_all-none :
      (ms : List Migration) (s : Schema T) → All (IsApplied s) ms → migrate_all d ms s ≡ some s
  unfolding migrate_all migrate
  migrate_all-none [] s h = refl
  migrate_all-none (m ∷ ms) s h = rw (h.0, migrate, migrate_all) (migrate_all-none ms s h.1)

  -- Where the migrations run without an exception, each of them is recorded, whatever was recorded
  -- before stays, and from then on a run executes the statements of the baseline only, on any tables
  -- that are there by then: it fails exactly if one of these does, and records nothing more.
  pub migrations_once :
      (baseline : List String) (ms : List Migration) (s s' : Schema T) (t : T)
      → run_migrations d baseline ms s ≡ some s'
      → All (IsApplied s') ms
        × ((k : String) → migration_applied k s ≡ true → migration_applied k s' ≡ true)
        × (run_migrations d baseline ms (record s' { tables = t })
            ≡ Option.map (λ u. record s' { tables = u }) (run_baseline d baseline t))
  unfolding run_migrations record_migration
  migrations_once baseline ms s s' t h = at (run_baseline d baseline s.tables) refl
    where
      again :
          migration_applied "0001_init" s' ≡ true
          → All (IsApplied s') ms
          → (o : Option T) → run_baseline d baseline t ≡ o
          → run_migrations d baseline ms (record s' { tables = t })
            ≡ Option.map (λ u. record s' { tables = u }) o
      again init all none e = ground arith
      again init all (some u) e =
          let known = known_of "0001_init" s' u init in
          rw (e, run_migrations)
            (rw (known, record_migration)
              (migrate_all-none ms (record s' { tables = u }) (IsApplied-kept ms s' u all)))

      at :
          (o : Option T)
          → run_baseline d baseline s.tables ≡ o
          → All (IsApplied s') ms
            × ((k : String) → migration_applied k s ≡ true → migration_applied k s' ≡ true)
            × (run_migrations d baseline ms (record s' { tables = t })
                ≡ Option.map (λ u. record s' { tables = u }) (run_baseline d baseline t))
      at none e = absurd (ground arith)
      at (some u) e =
          let first = recorded-Follows "0001_init" s u in
          let (all, kept) =
            migrate_all-IsApplied ms (record_migration "0001_init" (record s { tables = u })) s'
              (ground arith) in
          (
            all,
            (λ k h. kept k (first.kept k h)),
            again (kept "0001_init" first.done) all (run_baseline d baseline t) refl,
          )
