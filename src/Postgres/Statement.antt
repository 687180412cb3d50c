-- ===== src/Postgres/Statement.antt =====
-- One call of the pool: it runs on the database unless the network fails it.
use hermes_manager.Prelude.{ℕ, ◌≡◌, List, [], ◌∷◌, Result, ok, err, Exec, arith}
use hermes_manager.World.{World, Fault, through, unreached, answer_lost, Db}

-- A statement of the database at an instant.
abbrev pub Run : Type 0 → Type 0
Run A = ℕ → Db → Result A × Db

abbrev pub fault_of : List Fault → Fault
fault_of [] = through
fault_of (f ∷ fs) = f

abbrev pub rest_of : List Fault → List Fault
rest_of [] = []
rest_of (f ∷ fs) = fs

abbrev pub deliver : {A : Type 0} → Fault → Result A × Db → Db → Result A × Db
deliver through done db = done
deliver (unreached e) done db = (err e, db)
deliver (answer_lost e) done db = (err e, done.1)

unfoldable pub statement : {A : Type 0} → Run A → Exec World A
statement run w =
    let delivered = deliver (fault_of w.net) (run w.now w.db) w.db in
    (delivered.0, record w { db = delivered.1; net = rest_of w.net })

module _ {A : Type 0} where
  -- A statement that returned without an error has run.
  pub statement-eq-ok :
      (run : Run A) (w w' : World) (a : A)
      → statement run w ≡ (ok a, w')
      → (run w.now w.db ≡ (ok a, w'.db))
        × (w'.net ≡ rest_of w.net)
        × (w'.random ≡ w.random)
        × (w'.now ≡ w.now)
        × (w'.host ≡ w.host)
  unfolding statement
  statement-eq-ok run w w' a h = ground arith

  deliver-db :
      (P : Db → Type 0) (f : Fault) (done : Result A × Db) (db : Db)
      → P db
      → P done.1
      → P (deliver f done db).1
  deliver-db P through done db before after = after
  deliver-db P (unreached e) done db before after = before
  deliver-db P (answer_lost e) done db before after = after

  -- Whatever the network does, the database is as before or as the statement leaves it.
  pub statement-db :
      (P : Db → Type 0) (run : Run A) (w : World)
      → P w.db
      → P (run w.now w.db).1
      → P (statement run w).1.db
  unfolding statement
  statement-db P run w before after =
      deliver-db P (fault_of w.net) (run w.now w.db) w.db before after

  -- Over a network that fails nothing, a statement does what it says.
  pub statement_through :
      (run : Run A) (w : World)
      → w.net ≡ []
      → statement run w ≡ ((run w.now w.db).0, record w { db = (run w.now w.db).1 })
  unfolding statement
  statement_through run w quiet = ground arith
