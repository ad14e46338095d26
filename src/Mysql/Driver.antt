-- ===== src/Mysql/Driver.antt =====
-- The database handle `*sql.DB` as the program sees it. What the server answers is not the
-- program's to choose: a state holds the answers to come, one for each call, so a theorem about
-- every state is one about every server. The log records the SQL that was sent, oldest first.
pub mod Runs
use flashaccess.Base.{
  ℕ, Text, codes, Option, none, some, List, [], ◌∷◌, ◌++◌, Result, ok, err, ◌≡◌, refl,
}

-- a column of a row, as the driver hands it over
pub data Value : Type 0 where
  null : Value
  bytes : Text → Value
  int : ℕ → Value

-- The server's answer to one call. `returns` has the column names, the rows, and the error that
-- ended the reading of the rows, if any.
pub data Answer : Type 0 where
  fails : Text → Answer
  affects : ℕ → Answer
  returns : List Text → List (List Value) → Option Text → Answer

-- The Go errors of the package: one constructor for each message, with the message's arguments.
pub data DbError : Type 0 where
  driver : Text → DbError
  context : Text → DbError → DbError
  unsafe_create unsafe_drop : Text → DbError
  unsafe_password short_password : DbError
  invalid_user invalid_host invalid_database : Text → DbError
  session_user system_database not_playground : Text → DbError
  invalid_source invalid_target invalid_sample : Text → DbError
  invalid_cidr : Text → DbError
  no_columns nothing_to_update : DbError

-- SQL text, with the arguments bound to its placeholders
pub record Statement : Type 0 where
  pub text : Text
  pub args : List Value

abbrev pub bare : Text → Statement
bare q = record { text = q; args = [] }

pub record Driver : Type 0 where
  pub log : List Statement
  pub answers : List Answer

-- A call that returns `(A, error)`.
abbrev pub Call {ℓ} : Type ℓ → Type ℓ
Call A = Driver → Result DbError A × Driver

abbrev pub next_answer : List Answer → Answer
next_answer [] = affects 0
next_answer (a ∷ _) = a

abbrev pub later_answers : List Answer → List Answer
later_answers [] = []
later_answers (_ ∷ r) = r

-- the state behind one call that sends `q`
abbrev pub sent : Statement → Driver → Driver
sent q d = record { log = d.log ++ q ∷ []; answers = later_answers d.answers }

abbrev pub affected : Answer → Result DbError ℕ
affected (fails e) = err (driver e)
affected (affects n) = ok n
affected (returns _ _ _) = ok 0

-- `ExecContext`, with the count of `RowsAffected`
unfoldable pub exec : Statement → Call ℕ
exec q d = (affected (next_answer d.answers), sent q d)

-- what `QueryContext` and the loop over its rows see
pub record Rows : Type 0 where
  pub columns : List Text
  pub items : List (List Value)
  pub fault : Option Text

abbrev pub fetched : Answer → Result DbError Rows
fetched (fails e) = err (driver e)
fetched (affects _) = ok (record { columns = []; items = []; fault = none })
fetched (returns cs rs f) = ok (record { columns = cs; items = rs; fault = f })

-- `QueryContext`
unfoldable pub query : Statement → Call Rows
query q d = (fetched (next_answer d.answers), sent q d)

-- `db.Conn`, which sends no SQL
unfoldable pub connect : Call (Unit {0})
connect d = (
  elim (affected (next_answer d.answers)) [ ok _ ↦ ok tt | err e ↦ err e ],
  record d { answers = later_answers d.answers },
)

abbrev pub forgotten : Result DbError ℕ → Result DbError (Unit {0})
forgotten (ok _) = ok tt
forgotten (err e) = err e

-- `_, err := ExecContext(…); return err`
unfoldable pub exec_only : Statement → Call (Unit {0})
unfolding exec
exec_only q d = let (r, after) = exec q d in (forgotten r, after)
