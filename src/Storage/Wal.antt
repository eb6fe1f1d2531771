-- ===== src/Storage/Wal.antt =====
-- internal/storage/wal.go: the write-ahead log, a file of one line of JSON for each atom. `marshal` and
-- `unmarshal` are json.Marshal and json.Unmarshal of an atom; what the operating system answers is an
-- argument. Removing a file and closing one are taken to succeed.
pub mod Rewriting
pub mod Replay
use wavicle.Prelude.{
  ℕ, ◌^◌, Bytes, Bool, true, false, not, ltb, leb, if◌then◌else◌, Option, none, some, List, [], ◌∷◌,
  ◌++◌, length, take, split, Outcome, ok, err, is_some,
}
use wavicle.Core.{Atom, is_zero}

-- maxLineSize
abbrev pub max_line_size : ℕ
max_line_size = 2 ^ 20

-- the files path, path.old and path.tmp; none for one that does not exist
pub record Files : Type 0 where
  pub log : Option Bytes
  pub old : Option Bytes
  pub tmp : Option Bytes

-- WAL; `is_open` is a file handle that is not nil
pub record Wal : Type 0 where
  pub is_open : Bool
  pub files : Files

pub data WalError : Type 0 where
  closed : WalError
  marshal_failed : WalError
  too_large : ℕ → WalError
  write_failed : WalError
  sync_failed : WalError
  create_failed : WalError
  rename_failed : WalError
  reopen_failed : WalError

-- os.OpenFile with O_CREATE: a file that is missing is made
unfoldable pub open_log : Files → Files
open_log f = record f { log = some (elim f.log [ none ↦ [] | some b ↦ b ]) }

-- NewWAL, when the file opens: a stale temporary file is removed, and path.old is left alone
unfoldable pub new_wal : Files → Wal
unfolding open_log
new_wal f = record { is_open = true; files = open_log (record f { tmp = none }) }

-- a write behind the end of the log
unfoldable pub extend : Bytes → Files → Files
extend text f = record f { log = some (elim f.log [ none ↦ text | some b ↦ b ++ text ]) }

-- the write and the Sync of Append: a write that fails has written `some n` bytes
unfoldable pub write_line : Option ℕ → Bool → Bytes → Wal → Wal × Outcome WalError (Unit {0})
unfolding extend
write_line (some n) sync_fails text w =
    (record w { files = extend (take n text) w.files }, err write_failed)
write_line none sync_fails text w =
    (record w { files = extend text w.files }, if sync_fails then err sync_failed else ok tt)

-- Append
unfoldable pub append :
    (Atom → Option Bytes) → Option ℕ → Bool → Atom → Wal → Wal × Outcome WalError (Unit {0})
unfolding write_line
append marshal cut sync_fails atom w =
    if not w.is_open then (w, err closed) else elim (marshal atom) [
      | none ↦ (w, err marshal_failed)
      | some text ↦
          if ltb max_line_size (length text)
          then (w, err (too_large (length text)))
          else write_line cut sync_fails (text ++ 10 ∷ []) w
    ]

-- what the operating system fails at in one Rewrite
pub record Faults : Type 0 where
  pub create : Bool
  pub write : Bool
  pub sync : Bool
  pub rename_log : Bool
  pub rename_tmp : Bool
  pub restore : Bool
  pub reopen : Bool

-- the lines of the atoms; none if one of them cannot be marshalled
unfoldable pub render : (Atom → Option Bytes) → List Atom → Option Bytes
render marshal [] = some []
render marshal (a ∷ atoms) = elim (marshal a) [
  | none ↦ none
  | some text ↦ elim (render marshal atoms) [ none ↦ none | some rest ↦ some (text ++ 10 ∷ rest) ]
]

-- a rename, which fails without its source
unfoldable pub rename_to_old : Bool → Files → Files
rename_to_old fails f = elim f.log [
  | none ↦ f
  | some b ↦ if fails then f else record f { log = none; old = some b }
]

unfoldable pub rename_to_log : Bool → Files → Files
rename_to_log fails f = elim f.old [
  | none ↦ f
  | some b ↦ if fails then f else record f { log = some b; old = none }
]

-- reopenFile, with the error of Rewrite before it, if there is one
unfoldable pub reopen_file : Bool → Option WalError → Files → Wal × Outcome WalError (Unit {0})
unfolding open_log
reopen_file fails e f =
    if fails then (record { is_open = false; files = f }, err reopen_failed) else (
      record { is_open = true; files = open_log f },
      elim e [ none ↦ ok tt | some reason ↦ err reason ],
    )

-- steps 2 to 5 of Rewrite, with the new log in path.tmp
unfoldable pub replace_log : Faults → Bytes → Files → Wal × Outcome WalError (Unit {0})
unfolding rename_to_old rename_to_log reopen_file
replace_log faults text f =
    let moved = rename_to_old faults.rename_log (record f { old = none; tmp = some text }) in
    if faults.rename_tmp
    then reopen_file faults.reopen (some rename_failed) (rename_to_log faults.restore moved)
    else reopen_file faults.reopen none (record { log = some text; old = none; tmp = none })

-- Rewrite
unfoldable pub rewrite :
    (Atom → Option Bytes) → Faults → List Atom → Wal → Wal × Outcome WalError (Unit {0})
unfolding render replace_log
rewrite marshal faults atoms w =
    if not w.is_open
    then (w, err closed)
    else if faults.create
    then (w, err create_failed)
    else let removed : Wal = record w { files = record w.files { tmp = none } } in
      elim (render marshal atoms) [
        | none ↦ (removed, err marshal_failed)
        | some text ↦
            if faults.write
            then (removed, err write_failed)
            else if faults.sync
            then (removed, err sync_failed)
            else replace_log faults text w.files
      ]

-- The files after each system call of a Rewrite that goes well, with k bytes of the temporary file
-- written: up to the removal of path.old, after the first rename, and after the second.
unfoldable pub crash_points : ℕ → Bytes → Files → List Files × Files × List Files
unfolding rename_to_old
crash_points k text f =
    let cleared = record f { old = none; tmp = some text } in
    let moved = rename_to_old false cleared in
    (
      record f { tmp = some [] }
          ∷ record f { tmp = some (take k text) }
          ∷ record f { tmp = some text }
          ∷ cleared
          ∷ [],
      moved,
      record moved { log = some text; tmp = none }
          ∷ record { log = some text; old = none; tmp = none }
          ∷ [],
    )

-- the lines that bufio.Scanner gives: it stops for good at one that does not fit its buffer with its end
-- (That it takes a carriage return off a line is left out: json.Marshal writes none there.)
unfoldable pub scan : List Bytes → List Bytes
scan [] = []
scan (line ∷ lines) =
    let rest = scan lines in if leb max_line_size (length line) then [] else line ∷ rest

-- the loop of ReadAll: empty lines, lines that do not parse and atoms with a zero hash are skipped
unfoldable pub atoms_of : (Bytes → Option Atom) → List Bytes → List Atom
unfolding is_zero
atoms_of unmarshal [] = []
atoms_of unmarshal ([] ∷ lines) = atoms_of unmarshal lines
atoms_of unmarshal ((c ∷ line) ∷ lines) =
    let rest = atoms_of unmarshal lines in
    elim (unmarshal (c ∷ line)) [ none ↦ rest | some a ↦ if is_zero a.hash then rest else a ∷ rest ]

-- ReadAll of an open log; the error of the scanner is not asked for
unfoldable pub read_all : (Bytes → Option Atom) → Wal → Outcome WalError (List Atom)
unfolding scan atoms_of split
read_all unmarshal w =
    if w.is_open
    then ok (atoms_of unmarshal (scan (split 10 (elim w.files.log [ none ↦ [] | some b ↦ b ]))))
    else err closed
