-- ===== src/Storage/Crystal/Recovery.antt =====
-- AppendAtom and Recover of internal/storage/crystal.go: what a restart finds.
use wavicle.Prelude.{
  suc, ◌<◌, Bytes, bytes_eq, ◌≡◌, ◌≢◌, refl, ap, ◌∙◌, arith, true, false, ltb, Option, none, some,
  List, [], ◌∷◌, ◌++◌, All, lookup-insert, ==_refl, ok,
}
use wavicle.Core.{Hash, Expr, Atom, Time, Platform, is_zero}
use wavicle.Storage.Wal.{Wal, Files, new_wal, open_log, append, read_all, atoms_of}
use wavicle.Storage.Wal.Replay.{text_of, IsShort, append-read_all, append-is_open}
use wavicle.Storage.Crystal.{
  Indexes, Crystal, no_indexes, index_atom, recover_atom, recover_atoms, new_causal_crystal,
  draft_atom, append_atom, get_atom, get_current_hash, get_current, max_atom_cache_entries,
}

recover_atoms-append :
    (xs : List Atom) (a : Atom) (x : Indexes)
    → recover_atoms (xs ++ a ∷ []) x ≡ recover_atom a (recover_atoms xs x)
unfolding recover_atoms
recover_atoms-append [] a x = refl
recover_atoms-append (b ∷ xs) a x = recover_atoms-append xs a (recover_atom b x)

-- a restart reads the same log
read_all-new_wal :
    (unmarshal : Bytes → Option Atom) (w : Wal) (text : Bytes)
    → w.is_open ≡ true
    → w.files.log ≡ some text
    → read_all unmarshal (new_wal w.files) ≡ read_all unmarshal w
unfolding read_all new_wal open_log
read_all-new_wal unmarshal w text opened there = rw (opened, there) refl

recover_atom-ticked :
    (a : Atom) (x : Indexes)
    → a.logical_clock ≡ suc x.clock
    → recover_atom a x ≡ index_atom a (record x { clock = suc x.clock })
unfolding recover_atom index_atom
recover_atom-ticked a x e =
    let later : ltb x.clock (suc x.clock) ≡ true = ground arith in rw (e, later) refl

get_current-index_atom : (a : Atom) (x : Indexes) → get_current a.path (index_atom a x) ≡ some a
unfolding get_current get_current_hash get_atom index_atom
get_current-index_atom a x =
    rw
      (
        get_current,
        lookup-insert a.path a.path a.hash x.frontier,
        ==_refl a.path,
        lookup-insert a.hash a.hash a x.atoms,
        ==_refl a.hash,
      )
      refl

restarted :
    (unmarshal : Bytes → Option Atom) (files : Files) (atoms : List Atom) (x : Indexes)
    → read_all unmarshal (new_wal files) ≡ ok atoms
    → recover_atoms atoms no_indexes ≡ x
    → new_causal_crystal unmarshal files ≡ ok (record { wal = new_wal files; indexes = x })
unfolding new_causal_crystal new_wal
restarted unmarshal files atoms x read same = rw (new_causal_crystal, read, same) refl

module _ (os : Platform) (marshal : Atom → Option Bytes) (unmarshal : Bytes → Option Atom) where
  -- If the log has whole lines shorter than 2^20 bytes and what Recover makes of them is what the crystal has in
  -- memory, if the JSON of the new atom is such a line and parses to the atom itself, whose hash is not zero, and if
  -- there are fewer than 100,000 atoms and no system call fails, AppendAtom succeeds, GetCurrent of the
  -- path is the new atom, and a crystal started from the files finds exactly the indexes in memory.
  pub append_atom-new_causal_crystal :
      (expr : Expr) (path : Bytes) (causal_past : List Hash) (expires_at now : Time) (nonce : Bytes)
      (lines : List Bytes) (line : Bytes) (c : Crystal)
      → let a = draft_atom os expr path causal_past expires_at now nonce c.indexes in
        c.wal.is_open ≡ true
        → c.wal.files.log ≡ some (text_of lines)
        → All IsShort lines
        → recover_atoms (atoms_of unmarshal lines) no_indexes ≡ c.indexes
        → marshal a ≡ some line
        → IsShort line
        → line ≢ []
        → unmarshal line ≡ some a
        → is_zero a.hash ≡ false
        → c.indexes.atom_count < 100000
        → let r = append_atom os marshal none false expr path causal_past expires_at now nonce c in
          (r.1 ≡ ok a.hash)
          × (get_current path r.0.indexes ≡ some a)
          × (new_causal_crystal unmarshal r.0.wal.files
              ≡ ok (record { wal = new_wal r.0.wal.files; indexes = r.0.indexes }))
  unfolding append_atom new_causal_crystal draft_atom index_atom
  append_atom-new_causal_crystal expr path causal_past expires_at now nonce lines line c opened
        there whole synced json short n parsed nz few =
      let a = draft_atom os expr path causal_past expires_at now nonce c.indexes in
      let (done, log, read) =
        append-read_all marshal unmarshal a a lines line c.wal opened there whole json short n
          parsed nz in
      let open_still = append-is_open marshal a line c.wal opened json short.1 in
      let ticked : Indexes = record c.indexes { clock = suc c.indexes.clock } in
      let few_still : ltb max_atom_cache_entries (suc c.indexes.atom_count) ≡ false =
        ground (arith, few) in
      let again =
        read_all-new_wal unmarshal (append marshal none false a c.wal).0
          (text_of (lines ++ line ∷ [])) open_still log in
      let same =
        recover_atoms-append (atoms_of unmarshal lines) a no_indexes
        ∙ ap (recover_atom a) synced
        ∙ recover_atom-ticked a c.indexes refl in
      rw (append_atom, done, few_still)
        (
          refl,
          get_current-index_atom a ticked,
          restarted unmarshal (append marshal none false a c.wal).0.files _ _ (again ∙ read) same,
        )
