-- ===== src/Database/Examples.antt =====
-- Two migrations, and a run whose second commit loses its answer.
use yet_another_go_boilerpla.Base.{◌≡◌, refl, true, Option, some, List, [], ◌∷◌, ◌++◌, Text, lit}
use yet_another_go_boilerpla.Database.Migrate.{Database, Fault, works, lost, migrate}
use yet_another_go_boilerpla.Database.Resume.{migrate-resume}

abbrev read : Text → Option Text
read file = some file

-- The schema is the text of what ran.
abbrev execute : Text → Text → Option Text
execute sql schema = some (schema ++ sql)

abbrev files : List Text
files = lit "2_notes" ∷ lit "1_users" ∷ []

abbrev fresh : Database Text
fresh = record { schema = []; applied = [] }

abbrev faults : List Fault
faults = works ∷ lost ∷ []

-- Both ran once, in their order.
applies_sorted : (migrate read execute true true faults files fresh).1.schema ≡ lit "1_users2_notes"
unfolding migrate
applies_sorted = refl

migrate-resume_example :
    migrate read execute true true [] files (migrate read execute true true faults files fresh).1
    ≡ migrate read execute true true [] files fresh
migrate-resume_example =
    migrate-resume read execute true true faults files fresh ((refl, tt), (tt, tt))
