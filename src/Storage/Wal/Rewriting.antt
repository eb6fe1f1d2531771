-- ===== src/Storage/Wal/Rewriting.antt =====
-- What Rewrite of internal/storage/wal.go leaves: after its errors, and after a crash at any of its steps.
use wavicle.Prelude.{
  get_elem?, ℕ, Bytes, Bool, true, false, ◌≡◌, refl, arith, Bool-cases, if_cases, ◌⊎◌, inl, inr,
  Option, none, some, List, [], All, Outcome, ok,
}
use wavicle.Core.{Atom}
use wavicle.Storage.Wal.{
  crash_points, Files, Wal, WalError, rename_failed, Faults, open_log, new_wal, render,
  rename_to_old, rename_to_log, reopen_file, replace_log, rewrite,
}

-- the log is the text before or the text after
abbrev pub Holds : Bytes → Bytes → Option Bytes → Type 0
Holds before after log = (log ≡ some before) ⊎ (log ≡ some after)

-- what one Rewrite may leave
abbrev Leaves : Bool → Bytes → Bytes → Wal × Outcome WalError (Unit {0}) → Type 0
Leaves reopen_fails before after r =
    Holds before after r.0.files.log
    × (r.1 ≡ ok tt → r.0.files.log ≡ some after)
    × (reopen_fails ≡ false → r.0.is_open ≡ true)

moved_back :
    (fails restore_fails : Bool) (b : Bytes) (f : Files)
    → f.log ≡ some b
    → f.old ≡ none
    → restore_fails ≡ false
    → (rename_to_log restore_fails (rename_to_old fails f)).log ≡ some b
unfolding rename_to_old rename_to_log
moved_back true x b f there gone back = rw (there, rename_to_old, gone) there
moved_back false x b f there gone back = rw (there, rename_to_old, back) refl

reopened :
    (fails : Bool) (b after : Bytes) (f : Files)
    → f.log ≡ some b
    → Leaves fails b after (reopen_file fails (some rename_failed) f)
unfolding reopen_file open_log
reopened true b after f there =
    (inl there, λ e. absurd (ground (arith, e)), λ n. absurd (ground (arith, n)))
reopened false b after f there = rw there (inl refl, λ e. absurd (ground (arith, e)), λ n. refl)

replaced :
    (fails : Bool) (before after : Bytes) (f : Files)
    → f.log ≡ some after
    → Leaves fails before after (reopen_file fails none f)
unfolding reopen_file open_log
replaced true before after f there = (inr there, λ e. there, λ n. absurd (ground (arith, n)))
replaced false before after f there = rw there (inr refl, λ e. refl, λ n. refl)

replace_log-Leaves :
    (faults : Faults) (text b : Bytes) (f : Files)
    → f.log ≡ some b
    → faults.restore ≡ false
    → Leaves faults.reopen b text (replace_log faults text f)
unfolding replace_log
replace_log-Leaves faults text b f there back =
    if_cases (Leaves faults.reopen b text) faults.rename_tmp _ _
      (reopened faults.reopen b text _ (
        moved_back faults.rename_log faults.restore b (record f { old = none; tmp = some text })
          there refl back))
      (replaced faults.reopen b text (record { log = some text; old = none; tmp = none }) refl)

-- Rewrite of an open log with the lines of some atoms, whatever the system calls fail at but the rename
-- that puts the old log back: afterwards the log is the old one or the lines of the atoms, it is these
-- lines if Rewrite has returned no error, and it is open unless reopening it failed.
pub rewrite-log :
    (marshal : Atom → Option Bytes) (faults : Faults) (atoms : List Atom) (w : Wal) (b text : Bytes)
    → w.is_open ≡ true
    → w.files.log ≡ some b
    → render marshal atoms ≡ some text
    → faults.restore ≡ false
    → let r = rewrite marshal faults atoms w in
      Holds b text r.0.files.log
      × (r.1 ≡ ok tt → r.0.files.log ≡ some text)
      × (faults.reopen ≡ false → r.0.is_open ≡ true)
unfolding rewrite
rewrite-log marshal faults atoms w b text opened there lines back =
    elim (Bool-cases faults.create) [
      | inl c ↦ rw (rewrite, opened, c) (inl there, λ e. absurd (ground (arith, e)), λ n. refl)
      | inr c ↦ elim (Bool-cases faults.write) [
        | inl x ↦
            rw (rewrite, opened, c, lines, x)
              (inl there, λ e. absurd (ground (arith, e)), λ n. opened)
        | inr x ↦ elim (Bool-cases faults.sync) [
          | inl y ↦
              rw (rewrite, opened, c, lines, x, y)
                (inl there, λ e. absurd (ground (arith, e)), λ n. opened)
          | inr y ↦
              rw (rewrite, opened, c, lines, x, y)
                (replace_log-Leaves faults text b w.files there back)
        ]
      ]
    ]

-- A crash of Rewrite and the NewWAL after it: until the old log is renamed to path.old the log is the old
-- one, and once path.tmp has been renamed to it the lines of the atoms; but between the two renames
-- NewWAL makes an empty log, although both texts are still on the disk.
pub new_wal-crash_points :
    (k : ℕ) (text b : Bytes) (f : Files)
    → f.log ≡ some b
    → let (early, between, late) = crash_points k text f in
      All (λ d. (new_wal d).files.log ≡ some b) early
      × ((new_wal between).files.log ≡ some [] × between.old ≡ some b × between.tmp ≡ some text)
      × All (λ d. (new_wal d).files.log ≡ some text) late
unfolding new_wal open_log crash_points rename_to_old
new_wal-crash_points k text b f there =
    rw (there, rename_to_old)
      ((refl, (refl, (refl, (refl, tt)))), (refl, refl, refl), (refl, (refl, tt)))

-- The last of these states is what Rewrite leaves when no system call fails.
rewrite-crash_points :
    (k : ℕ) (text : Bytes) (f : Files)
    → let none_fails : Faults = record {
      create = false;
      write = false;
      sync = false;
      rename_log = false;
      rename_tmp = false;
      restore = false;
      reopen = false;
    } in
      get_elem? (crash_points k text f).2 1 ≡ some (replace_log none_fails text f).0.files
unfolding crash_points replace_log reopen_file open_log
rewrite-crash_points k text f = refl
