-- ===== src/Disk.antt =====
-- The files that the program reads and writes through package os, and the JSON of a value. How a
-- call of the disk ends is not the program's to choose: a disk holds the outcomes of the calls to
-- come, so a theorem about every disk is one about every pattern of failures.
pub mod Atomic
use flashaccess.Base.{
  Text, codes, Option, none, some, List, [], ◌∷◌, ◌++◌, Result, ok, err, find, put, remove,
}

-- What package json makes of the values of a type, and what it reads back.
pub record Json (A : Type 0) : Type 0 where
  pub marshal : A → Text
  pub unmarshal : Text → Option A

-- A call of the disk succeeds, or fails; a write that fails leaves some text in the file.
pub data IoOutcome : Type 0 where
  done : IoOutcome
  fails : Text → IoOutcome

pub record Disk : Type 0 where
  pub files : List (Text × Text)
  pub outcomes : List IoOutcome

-- an error of the disk; `os.IsNotExist` tells the first
pub data IoError : Type 0 where
  not_exist io_error : IoError

abbrev pub next_outcome : List IoOutcome → IoOutcome
next_outcome [] = done
next_outcome (o ∷ _) = o

abbrev pub later_outcomes : List IoOutcome → List IoOutcome
later_outcomes [] = []
later_outcomes (_ ∷ r) = r

-- the same files, on a disk that fails no more
abbrev pub healthy : Disk → Disk
healthy d = record d { outcomes = [] }

abbrev pub spent : Disk → Disk
spent d = record d { outcomes = later_outcomes d.outcomes }

abbrev pub seen : IoOutcome → Option Text → Result IoError Text
seen done (some content) = ok content
seen done none = err not_exist
seen (fails _) found = err io_error

-- `os.ReadFile`
abbrev pub read_file : Text → Disk → Result IoError Text × Disk
read_file path d = (seen (next_outcome d.outcomes) (find path d.files), spent d)

abbrev pub written : IoOutcome → Text → Text → Disk → Result IoError (Unit {0}) × Disk
written done path content d = (ok tt, record (spent d) { files = put path content d.files })
written (fails left) path content d =
    (err io_error, record (spent d) { files = put path left d.files })

-- `os.WriteFile`
abbrev pub write_file : Text → Text → Disk → Result IoError (Unit {0}) × Disk
write_file path content d = written (next_outcome d.outcomes) path content d

abbrev pub moved : IoOutcome → Option Text → Text → Text → Disk → Result IoError (Unit {0}) × Disk
moved done (some content) from to d =
    (ok tt, record (spent d) { files = put to content (remove from d.files) })
moved done none from to d = (err not_exist, spent d)
moved (fails _) content from to d = (err io_error, spent d)

-- `os.Rename`
abbrev pub rename : Text → Text → Disk → Result IoError (Unit {0}) × Disk
rename from to d = moved (next_outcome d.outcomes) (find from d.files) from to d

abbrev pub made : IoOutcome → Result IoError (Unit {0})
made done = ok tt
made (fails _) = err io_error

-- `os.MkdirAll`
abbrev pub make_dirs : Disk → Result IoError (Unit {0}) × Disk
make_dirs d = (made (next_outcome d.outcomes), spent d)

abbrev pub tmp_path : Text → Text
tmp_path path = path ++ codes ".tmp"

abbrev pub renamed : Text → Result IoError (Unit {0}) × Disk → Result IoError (Unit {0}) × Disk
renamed path (err e, d) = (err e, d)
renamed path (ok _, d) = rename (tmp_path path) path d

-- the write of a file beside, and its rename to the file, as four places of the program do it
unfoldable pub write_atomically : Text → Text → Disk → Result IoError (Unit {0}) × Disk
write_atomically path content d = renamed path (write_file (tmp_path path) content d)
