-- ===== src/Database/Resume.antt =====
-- internal/platform/database/migrate.go: what a run of Migrate leaves for the next one.
use yet_another_go_boilerpla.Base.{
  ◌≡◌, refl, sym, subst, ap, ◌⊎◌, ◌∙◌, inl, inr, Bool, true, false, Option, none, some, List, [],
  ◌∷◌, arith, Bool-cases, Option-cases, ok, err, Text, eq_text, eq_text_refl, All,
}
use yet_another_go_boilerpla.Database.Migrate.{
  Database, Run, MigrateError, Fault, works, fails, lost, next_fault, later_faults, sort, mem,
  with_file, settle, transact, apply_read, apply_migration, continue_with, apply_files, migrate,
}
use yet_another_go_boilerpla.Database.Files.{
  IsUnique, Agree, sort-IsUnique, Agree-self, Agree-next, Agree-trans,
}

module _ {S : Type 0} (read : Text → Option Text) (execute : Text → S → Option S) where
  skip :
      (φ : List Fault) (a : List Text) (f : Text) (fs : List Text) (db : Database S)
      → mem f a ≡ true
      → apply_files read execute φ a (f ∷ fs) db ≡ apply_files read execute φ a fs db
  unfolding apply_files
  skip φ a f fs db e = rw e refl

  attempt :
      (φ : List Fault) (a : List Text) (f : Text) (fs : List Text) (db : Database S)
      → mem f a ≡ false
      → apply_files read execute φ a (f ∷ fs) db
        ≡ continue_with read execute
            (apply_migration read execute f (next_fault φ) db)
            (apply_files read execute (later_faults φ) a fs)
  unfolding apply_files
  attempt φ a f fs db e = rw e refl

  continue_with-same :
      (r : Run read execute) (g h : Database S → Run read execute)
      → ((d : Database S) → g d ≡ h d)
      → continue_with read execute r g ≡ continue_with read execute r h
  continue_with-same (ok u, d) g h same = same d
  continue_with-same (err e, d) g h same = refl

  apply_files-Agree :
      (φ : List Fault) (a b fs : List Text) (db : Database S)
      → Agree a b fs
      → apply_files read execute φ a fs db ≡ apply_files read execute φ b fs db
  unfolding apply_files
  apply_files-Agree φ a b [] db h = refl
  apply_files-Agree φ a b (f ∷ fs) db h = elim (Bool-cases (mem f b)) [
    | inl e ↦
        skip φ a f fs db (h.0 ∙ e) ∙ apply_files-Agree φ a b fs db h.1 ∙ sym (skip φ b f fs db e)
    | inr e ↦
        attempt φ a f fs db (h.0 ∙ e)
        ∙ continue_with-same _ _ _ (λ d. apply_files-Agree (later_faults φ) a b fs d h.1)
        ∙ sym (attempt φ b f fs db e)
  ]

  -- A migration that leaves the database as it was; or one that works without a fault, and whose
  -- result is stored, with or without an error for the client.
  abbrev Kept : Text → Fault → Database S → Type 0
  Kept f x db = (e : MigrateError) × (apply_migration read execute f x db ≡ (err e, db))

  record Stored (f : Text) (x : Fault) (db : Database S) : Type 0 where
    after : Database S
    listed : after.applied ≡ f ∷ db.applied
    clean : apply_migration read execute f works db ≡ (ok tt, after)
    result :
        (apply_migration read execute f x db ≡ (ok tt, after))
        ⊎ ((e : MigrateError) × (apply_migration read execute f x db ≡ (err e, after)))

  settled :
      (f : Text) (x : Fault) (db : Database S) (schema : S)
      → apply_migration read execute f works db ≡ (ok tt, with_file read execute f schema db)
      → apply_migration read execute f x db
        ≡ settle read execute x db (with_file read execute f schema db)
      → Kept f x db ⊎ Stored f x db
  settled f works db schema clean h = inr (record {
    after = with_file read execute f schema db;
    listed = refl;
    clean = clean;
    result = inl h;
  })
  settled f fails db schema clean h = inl (MigrateError.not_applied, h)
  settled f lost db schema clean h = inr (record {
    after = with_file read execute f schema db;
    listed = refl;
    clean = clean;
    result = inr (MigrateError.not_applied, h);
  })

  apply_migration-cases :
      (f : Text) (x : Fault) (db : Database S)
      → mem f db.applied ≡ false
      → Kept f x db ⊎ Stored f x db
  unfolding apply_migration
  apply_migration-cases f x db new = elim (Option-cases (read f)) [
    | inl e ↦ inl (MigrateError.unreadable, ground (arith, e))
    | inr (sql, e) ↦ elim (Option-cases (execute sql db.schema)) [
      | inl g ↦ inl (MigrateError.not_applied, ground (arith, e, g))
      | inr (schema, g) ↦
          settled f x db schema (ground (arith, e, g, new)) (ground (arith, e, g, new))
    ]
  ]

  settle-grows :
      (g : Text) (x : Fault) (before after : Database S)
      → mem g before.applied ≡ true
      → mem g after.applied ≡ true
      → mem g (settle read execute x before after).1.applied ≡ true
  settle-grows g works before after h k = k
  settle-grows g fails before after h k = h
  settle-grows g lost before after h k = k

  transact-grows :
      (g f : Text) (x : Fault) (db : Database S) (o : Option S)
      → mem g db.applied ≡ true
      → mem g (transact read execute f x db o).1.applied ≡ true
  transact-grows g f x db none h = h
  transact-grows g f x db (some schema) h = elim (Bool-cases (mem f db.applied)) [
    | inl e ↦ rw e h
    | inr e ↦ rw e (settle-grows g x db (with_file read execute f schema db) h (ground (arith, h)))
  ]

  apply_read-grows :
      (g f : Text) (x : Fault) (db : Database S) (o : Option Text)
      → mem g db.applied ≡ true
      → mem g (apply_read read execute f x db o).1.applied ≡ true
  apply_read-grows g f x db none h = h
  apply_read-grows g f x db (some sql) h = transact-grows g f x db (execute sql db.schema) h

  continue_with-grows :
      (g : Text) (r : Run read execute) (go : Database S → Run read execute)
      → mem g r.1.applied ≡ true
      → ((d : Database S) → mem g d.applied ≡ true → mem g (go d).1.applied ≡ true)
      → mem g (continue_with read execute r go).1.applied ≡ true
  continue_with-grows g (ok u, d) go h next = next d h
  continue_with-grows g (err e, d) go h next = h

  -- A file in the table stays there.
  apply_files-grows :
      (g : Text) (φ : List Fault) (a fs : List Text) (db : Database S)
      → mem g db.applied ≡ true
      → mem g (apply_files read execute φ a fs db).1.applied ≡ true
  unfolding apply_files apply_migration
  apply_files-grows g φ a [] db h = h
  apply_files-grows g φ a (f ∷ fs) db h = elim (Bool-cases (mem f a)) [
    | inl e ↦ rw e (apply_files-grows g φ a fs db h)
    | inr e ↦ rw e (
        continue_with-grows g (apply_migration read execute f (next_fault φ) db) _
          (apply_read-grows g f (next_fault φ) db (read f) h)
          (apply_files-grows g (later_faults φ) a fs))
  ]

  attempt_at :
      (φ : List Fault) (a : List Text) (f : Text) (fs : List Text) (db : Database S)
      (q : Run read execute)
      → mem f a ≡ false
      → apply_migration read execute f (next_fault φ) db ≡ q
      → apply_files read execute φ a (f ∷ fs) db
        ≡ continue_with read execute q (apply_files read execute (later_faults φ) a fs)
  attempt_at φ a f fs db q e h =
      attempt φ a f fs db e
      ∙ ap (λ q. continue_with read execute q (apply_files read execute (later_faults φ) a fs)) h

  listed-mem :
      (f : Text) {x : Fault} {db : Database S} (st : Stored f x db) → mem f st.after.applied ≡ true
  listed-mem f st = rw (st.listed, eq_text_refl f) refl

  Agree-Stored :
      (f : Text) (a fs : List Text) {x : Fault} {db : Database S} (st : Stored f x db)
      → All (λ g. eq_text f g ≡ false) fs
      → Agree a db.applied fs
      → Agree a st.after.applied fs
  Agree-Stored f a fs {x} {db} st other h =
      subst (λ l. Agree a l fs) (sym st.listed) (Agree-next f a fs db.applied other h)

  abbrev Goal : Text → List Text → List Text → List Text → Database S → Run read execute → Type 0
  Goal f fs a b db q =
      Agree b q.1.applied (f ∷ fs)
      → apply_files read execute [] b (f ∷ fs) q.1 ≡ apply_files read execute [] a (f ∷ fs) db

  -- A run without faults does from what a run left just what it does from the start.
  resume :
      (fs : List Text) (φ : List Fault) (a b : List Text) (db : Database S) (r : Run read execute)
      → IsUnique fs
      → Agree a db.applied fs
      → apply_files read execute φ a fs db ≡ r
      → Agree b r.1.applied fs
      → apply_files read execute [] b fs r.1 ≡ apply_files read execute [] a fs db
  unfolding apply_files
  resume [] φ a b db r unique agree ran later = ap (λ q. (ok tt, q.1)) (sym ran)
  resume (f ∷ fs) φ a b db r unique agree ran later = elim (Bool-cases (mem f a)) [
    | inl e ↦
        let ran' = sym (skip φ a f fs db e) ∙ ran in
        let kept =
          subst (λ q. mem f q.1.applied ≡ true) ran'
            (apply_files-grows f φ a fs db (sym agree.0 ∙ e)) in
        skip [] b f fs r.1 (later.0 ∙ kept)
        ∙ resume fs φ a b db r unique.1 agree.1 ran' later.1
        ∙ sym (skip [] a f fs db e)
    | inr e ↦ elim (apply_migration-cases f (next_fault φ) db (sym agree.0 ∙ e)) [
      | inl (x, k) ↦
          let p = sym (attempt_at φ a f fs db (err x, db) e k) ∙ ran in
          subst (λ q. Goal f fs a b db q) p
            (λ l.
              apply_files-Agree [] b a (f ∷ fs) db (Agree-trans b db.applied a (f ∷ fs) l agree))
            later
      | inr st ↦
          let clean = attempt_at [] a f fs db (ok tt, st.after) e st.clean in
          let agree' = Agree-Stored f a fs st unique.0 agree.1 in
          let here = listed-mem f st in
          elim st.result [
            | inl h ↦
                let ran' = sym (attempt_at φ a f fs db (ok tt, st.after) e h) ∙ ran in
                let kept =
                  subst (λ q. mem f q.1.applied ≡ true) ran'
                    (apply_files-grows f (later_faults φ) a fs st.after here) in
                skip [] b f fs r.1 (later.0 ∙ kept)
                ∙ resume fs (later_faults φ) a b st.after r unique.1 agree' ran' later.1
                ∙ sym clean
            | inr (x, h) ↦
                let p = sym (attempt_at φ a f fs db (err x, st.after) e h) ∙ ran in
                subst (λ q. Goal f fs a b db q) p
                  (λ l.
                    skip [] b f fs st.after (l.0 ∙ here)
                    ∙ apply_files-Agree [] b a fs st.after
                        (Agree-trans b st.after.applied a fs l.1 agree')
                    ∙ sym clean)
                  later
          ]
    ]
  ]

-- Whatever fails in a run of Migrate, also when a commit loses its answer: a run without a fault does,
-- from the database that it left, just what it would have done from the start, with the same result
-- and the same database. The files have different names.
pub migrate-resume :
    {S : Type 0} (read : Text → Option Text) (execute : Text → S → Option S) (locks lists : Bool)
    (faults : List Fault) (files : List Text) (db : Database S)
    → IsUnique files
    → migrate read execute true true [] files (migrate read execute locks lists faults files db).1
      ≡ migrate read execute true true [] files db
unfolding migrate
migrate-resume read execute false lists faults files db unique = refl
migrate-resume read execute true false faults files db unique = refl
migrate-resume read execute true true faults files db unique =
    resume read execute (sort files) faults db.applied _ db _ (sort-IsUnique files unique)
      (Agree-self db.applied (sort files)) refl (Agree-self _ (sort files))
