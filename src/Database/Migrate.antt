-- ===== src/Database/Migrate.antt =====
-- internal/platform/database/migrate.go: Migrate, over a database with any schema. `read` stands for
-- fs.ReadFile, `execute` for the SQL of a migration, where it raises no error.
use yet_another_go_boilerpla.Base.{
  Bool, true, false, Option, none, some, List, [], ◌∷◌, ltb, ◌==◌, if◌then◌else◌, any, Outcome, ok,
  err, Text, eq_text,
}

-- schema_migrations is the list of the applied files, the last one first.
pub record Database (S : Type 0) : Type 0 where
  pub schema : S
  pub applied : List Text

-- What happens to the transaction of a migration: it works; it fails; or it commits and the client
-- sees an error.
pub data Fault : Type 0 where
  works fails lost : Fault

pub data MigrateError : Type 0 where
  not_locked not_listed unreadable not_applied : MigrateError

abbrev pub next_fault : List Fault → Fault
next_fault [] = works
next_fault (f ∷ fs) = f

abbrev pub later_faults : List Fault → List Fault
later_faults [] = []
later_faults (f ∷ fs) = fs

-- The order of Go strings
abbrev pub text_le : Text → Text → Bool
text_le [] t = true
text_le (c ∷ s) [] = false
text_le (c ∷ s) (d ∷ t) = if c == d then text_le s t else ltb c d

abbrev pub insert_sorted : Text → List Text → List Text
insert_sorted f [] = f ∷ []
insert_sorted f (g ∷ gs) = if text_le f g then f ∷ g ∷ gs else g ∷ insert_sorted f gs

-- slices.Sort
abbrev pub sort : List Text → List Text
sort [] = []
sort (f ∷ fs) = insert_sorted f (sort fs)

-- slices.Contains
abbrev pub mem : Text → List Text → Bool
mem f files = any (λ g. eq_text g f) files

module _ {S : Type 0} (read : Text → Option Text) (execute : Text → S → Option S) where
  abbrev pub Run : Type 0
  Run = Outcome {0, 0} MigrateError Unit × Database S

  -- The database after a migration.
  abbrev pub with_file : Text → S → Database S → Database S
  with_file file schema db = record { schema = schema; applied = file ∷ db.applied }

  abbrev pub settle : Fault → Database S → Database S → Run
  settle works before after = (ok tt, after)
  settle fails before after = (err not_applied, before)
  settle lost before after = (err not_applied, after)

  -- The transaction: the SQL, then the INSERT, whose key is the file.
  abbrev pub transact : Text → Fault → Database S → Option S → Run
  transact file fault db none = (err not_applied, db)
  transact file fault db (some schema) =
      if mem file db.applied
      then (err not_applied, db)
      else settle fault db (with_file file schema db)

  abbrev pub apply_read : Text → Fault → Database S → Option Text → Run
  apply_read file fault db none = (err unreadable, db)
  apply_read file fault db (some sql) = transact file fault db (execute sql db.schema)

  -- applyMigration
  unfoldable pub apply_migration : Text → Fault → Database S → Run
  apply_migration file fault db = apply_read file fault db (read file)

  abbrev pub continue_with : Run → (Database S → Run) → Run
  continue_with (ok u, db) go = go db
  continue_with (err e, db) go = (err e, db)

  -- The loop of Migrate, over the sorted files.
  unfoldable pub apply_files : List Fault → List Text → List Text → Database S → Run
  unfolding apply_migration
  apply_files faults applied [] db = (ok tt, db)
  apply_files faults applied (file ∷ files) db =
      if mem file applied
      then apply_files faults applied files db
      else continue_with (apply_migration file (next_fault faults) db)
          (apply_files (later_faults faults) applied files)

  -- Migrate; `locks` and `lists` say that acquireMigrationLock and appliedMigrations work
  unfoldable pub migrate : Bool → Bool → List Fault → List Text → Database S → Run
  unfolding apply_files
  migrate locks lists faults files db =
      if locks
      then (if lists then apply_files faults db.applied (sort files) db else (err not_listed, db))
      else (err not_locked, db)
