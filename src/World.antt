-- ===== src/World.antt =====
-- The state that the program's calls read and change: the database, the outcome of each coming
-- database call, the bytes that `crypto/rand` will give, the clock, the agents' host, and the objects
-- in the Kubernetes namespace.
mod Tables
mod Agents
mod Objects
pub use Tables.*
pub use Agents.*
unfoldable pub use Objects.*
use hermes_manager.Prelude.{
  ℕ, String, Bool, Option, none, some, List, [], ◌∷◌, Error, Exec, ok, err, error, library,
}
use Tables.{Db}
use Agents.{Host}
use Objects.{Cluster}

-- What happens to a database call: it goes through, it never reaches the server or the server refuses
-- the statement, or the server runs it and the answer is lost. The last two return the error that the
-- driver reports.
pub data Fault : Type 0 where
  through : Fault
  unreached : Error → Fault
  answer_lost : Error → Fault

pub record World : Type 0 where
  pub db : Db
  pub net : List Fault
  pub random : List (Option (List ℕ))
  pub now : ℕ
  -- whether the server takes a text of a query: it refuses a zero byte and malformed UTF-8
  pub admits : String → Bool
  -- the places at which a scan of a table visits its rows, by the instant
  pub scan : ℕ → List ℕ
  pub host : Host
  pub cluster : Cluster

-- `rand.Read`: the bytes, or the error of a source that has failed or run out.
unfoldable pub rand_read : Exec World (List ℕ)
rand_read w = elim w.random [
  | [] ↦ (err (library "crypto/rand"), w)
  | bytes ∷ rest ↦ elim bytes [
    | none ↦ (err (library "crypto/rand"), record w { random = rest })
    | some b ↦ (ok b, record w { random = rest })
  ]
]
