-- ===== src/Tests/Log.antt =====
-- The log of internal/storage/wal.go and the crystal of internal/storage/crystal.go on concrete data.
use wavicle.Prelude.{
  bytes_eq, lookup, ◌^◌, ◌≡◌, refl, ap, zero, bytes_beq, arith, Bytes, codes, true, false, Option,
  none, some, [], ◌∷◌, ◌++◌, All, length, ok, nat_eq, ◌≢◌, ℕ, suc,
}
use wavicle.Core.{Atom, string, const, is_zero, compute_hash, atom_text, big_endian}
use wavicle.Storage.Crystal.{
  Crystal, no_indexes, draft_atom, append_atom, recover_atoms, new_causal_crystal, get_current,
  get_current_hash, compact, evict_if_needed,
}
use wavicle.Storage.Crystal.Recovery.{append_atom-new_causal_crystal}
use wavicle.Storage.Crystal.Compaction.{compact-get_current}
use wavicle.Tests.{host, sum_hash, checksum}
use wavicle.Storage.Wal.{
  Files, Wal, Faults, new_wal, append, rewrite, render, crash_points, read_all, atoms_of, extend,
}
use wavicle.Storage.Wal.Rewriting.{Holds, rewrite-log, new_wal-crash_points}
use wavicle.Storage.Wal.Replay.{text_of, IsLine, append-read_all, append-read_all_cut}

-- Stand-ins for JSON: the text of an atom is its path, and every text is an atom.
abbrev atom_at : Bytes → Atom
atom_at path = record {
  hash = 1 ∷ [];
  expr = const (string path);
  causal_past = [];
  causal_depth = 0;
  logical_clock = 1;
  physical_time = 0;
  nonce = [];
  branch_id = [];
  path = path;
  expires_at = 0;
}

abbrev marshal : Atom → Option Bytes
marshal a = some a.path

abbrev unmarshal : Bytes → Option Atom
unmarshal line = some (atom_at line)

abbrev one_line : Files
one_line = record { log = some (codes "a" ++ 10 ∷ []); old = none; tmp = none }

abbrev log_of_one : Wal
log_of_one = record { is_open = true; files = one_line }

-- The rename of the new log fails, and so does reopening.
abbrev rename_faults : Faults
rename_faults = record {
  create = false;
  write = false;
  sync = false;
  rename_log = false;
  rename_tmp = true;
  restore = false;
  reopen = true;
}

rewrite-log_example :
    let r = rewrite marshal rename_faults (atom_at (codes "b") ∷ []) log_of_one in
    Holds (codes "a" ++ 10 ∷ []) (codes "b" ++ 10 ∷ []) r.0.files.log
    × (r.1 ≡ ok tt → r.0.files.log ≡ some (codes "b" ++ 10 ∷ []))
    × (true ≡ false → r.0.is_open ≡ true)
unfolding render
rewrite-log_example =
    rewrite-log marshal rename_faults (atom_at (codes "b") ∷ []) log_of_one (codes "a" ++ 10 ∷ [])
      (codes "b" ++ 10 ∷ []) refl refl refl refl

new_wal-crash_points_example :
    let (early, between, late) = crash_points 1 (codes "b" ++ 10 ∷ []) one_line in
    All (λ d. (new_wal d).files.log ≡ some (codes "a" ++ 10 ∷ [])) early
    × ((new_wal between).files.log ≡ some []
        × between.old ≡ some (codes "a" ++ 10 ∷ [])
        × between.tmp ≡ some (codes "b" ++ 10 ∷ []))
    × All (λ d. (new_wal d).files.log ≡ some (codes "b" ++ 10 ∷ [])) late
new_wal-crash_points_example =
    new_wal-crash_points 1 (codes "b" ++ 10 ∷ []) (codes "a" ++ 10 ∷ []) one_line refl

not_empty : codes "b" ≢ []
not_empty e = ground (arith, e)

append-read_all_example :
    let r = append marshal none false (atom_at (codes "b")) log_of_one in
    (r.1 ≡ ok tt)
    × (r.0.files.log ≡ some (text_of (codes "a" ∷ codes "b" ∷ [])))
    × (read_all unmarshal r.0
        ≡ ok (atoms_of unmarshal (codes "a" ∷ []) ++ atom_at (codes "b") ∷ []))
unfolding is_zero bytes_beq
append-read_all_example =
    append-read_all marshal unmarshal (atom_at (codes "b")) (atom_at (codes "b")) (codes "a" ∷ [])
      (codes "b") log_of_one refl refl (((refl, tt), omega arith), tt) refl
      ((refl, tt), omega arith) not_empty refl refl

-- A text of n bytes.
repeat_byte : ℕ → Bytes
repeat_byte zero = []
repeat_byte (suc n) = b'b' ∷ repeat_byte n

length-repeat_byte : (n : ℕ) → length (repeat_byte n) ≡ n
unfolding repeat_byte
length-repeat_byte zero = refl
length-repeat_byte (suc n) = ap suc (length-repeat_byte n)

repeat_byte-IsLine : (n : ℕ) → IsLine (repeat_byte n)
unfolding repeat_byte
repeat_byte-IsLine zero = tt
repeat_byte-IsLine (suc n) = (refl, repeat_byte-IsLine n)

append-read_all_cut_example :
    let r = append marshal none false (atom_at (repeat_byte (2 ^ 20))) log_of_one in
    (r.1 ≡ ok tt)
    × (read_all unmarshal (record r.0 { files = extend (codes "c" ++ 10 ∷ []) r.0.files })
        ≡ ok (atoms_of unmarshal (codes "a" ∷ [])))
append-read_all_cut_example =
    append-read_all_cut marshal unmarshal (atom_at (repeat_byte (2 ^ 20))) (codes "a" ∷ [])
      (repeat_byte (2 ^ 20)) (codes "c" ++ 10 ∷ []) log_of_one refl refl
      (((refl, tt), omega arith), tt) refl (repeat_byte-IsLine (2 ^ 20))
      (length-repeat_byte (2 ^ 20))

-- A crystal that has just started on an empty log, and the atom of its first append.
abbrev new_crystal : Crystal
new_crystal = record {
  wal = record { is_open = true; files = record { log = some []; old = none; tmp = none } };
  indexes = no_indexes;
}

abbrev first_atom : Atom
first_atom = draft_atom host (const (string (codes "v"))) (codes "k") [] 0 5 [] no_indexes

abbrev parse_first : Bytes → Option Atom
parse_first line = some first_atom

first_not_zero : is_zero first_atom.hash ≡ false
unfolding draft_atom compute_hash sum_hash checksum is_zero bytes_beq atom_text big_endian
first_not_zero = refl

k_not_empty : codes "k" ≢ []
k_not_empty e = ground (arith, e)

append_atom-new_causal_crystal_example :
    let r =
      append_atom host marshal none false
        (const (string (codes "v")))
        (codes "k")
        []
        0
        5
        []
        new_crystal in
    (r.1 ≡ ok first_atom.hash)
    × (get_current (codes "k") r.0.indexes ≡ some first_atom)
    × (new_causal_crystal parse_first r.0.wal.files
        ≡ ok (record { wal = new_wal r.0.wal.files; indexes = r.0.indexes }))
unfolding recover_atoms atoms_of draft_atom
append_atom-new_causal_crystal_example =
    append_atom-new_causal_crystal host marshal parse_first (const (string (codes "v"))) (codes "k")
      [] 0 5 [] [] (codes "k") new_crystal refl refl tt refl refl ((refl, tt), omega arith)
      k_not_empty refl first_not_zero (omega arith)

-- A crystal whose log has two atoms of one path: the first one is an orphan, which Compact drops.
abbrev later_atom : Atom
later_atom = record (atom_at (codes "k")) {
  hash = 2 ∷ [];
  causal_past = (1 ∷ []) ∷ [];
  logical_clock = 2;
}

abbrev busy_crystal : Crystal
busy_crystal = record {
  wal = record {
    is_open = true;
    files = record { log = some (codes "k" ++ 10 ∷ codes "k" ++ 10 ∷ []); old = none; tmp = none };
  };
  indexes = recover_atoms (atom_at (codes "k") ∷ later_atom ∷ []) no_indexes;
}

abbrev no_faults : Faults
no_faults = record rename_faults { rename_tmp = false; reopen = false }

-- Compact drops the orphan, and writes the log with the other atom.
compacted :
    (lookup (1 ∷ []) (compact marshal no_faults busy_crystal).indexes.atoms ≡ none)
    × (get_current (codes "k") (compact marshal no_faults busy_crystal).indexes ≡ some later_atom)
    × ((compact marshal no_faults busy_crystal).wal.files.log ≡ some (codes "k" ++ 10 ∷ []))
unfolding compact recover_atoms get_current lookup bytes_beq
compacted = (refl, refl, refl)

compact-get_current_example :
    (get_current (codes "k") (compact marshal no_faults busy_crystal).indexes
      ≡ get_current (codes "k") busy_crystal.indexes)
    × (get_current_hash (codes "k") (compact marshal no_faults busy_crystal).indexes
        ≡ get_current_hash (codes "k") busy_crystal.indexes)
    × (get_current (codes "k") (evict_if_needed busy_crystal.indexes)
        ≡ get_current (codes "k") busy_crystal.indexes)
    × (get_current_hash (codes "k") (evict_if_needed busy_crystal.indexes)
        ≡ get_current_hash (codes "k") busy_crystal.indexes)
compact-get_current_example = compact-get_current marshal no_faults busy_crystal (codes "k")
