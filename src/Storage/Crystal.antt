-- ===== src/Storage/Crystal.antt =====
-- internal/storage/crystal.go: CausalCrystal, with FrontierIndex and ParentIndex of frontier.go and
-- parent_index.go as its maps. The counter of atoms is one of its own, and may differ from the map; the Merkle tree
-- is its leaves. The requests for a compaction and the metrics are left out: Compact is a step by itself.
pub mod Recovery
pub mod Compaction
use wavicle.Prelude.{
  ℕ, zero, suc, ◌-◌, ◌/◌, ◌+◌, Bytes, bytes_eq, nat_eq, ◌==◌, Bool, true, false, not, ◌||◌, ltb,
  leb, if◌then◌else◌, Option, none, some, List, [], ◌∷◌, ◌++◌, length, elem, Dict, keys, lookup,
  insert, delete, Outcome, ok, err, is_some,
}
use wavicle.Core.{Hash, Expr, Atom, Time, Platform, compute_hash, zeros}
use wavicle.Storage.Merkle.{insert_leaf}
use wavicle.Storage.Wal
use wavicle.Storage.Wal.{Wal, WalError, Faults}

-- maxAtomCacheEntries
abbrev pub max_atom_cache_entries : ℕ
max_atom_cache_entries = 100000

-- the hot indexes of CausalCrystal
pub record Indexes : Type 0 where
  pub frontier : Dict Bytes Hash
  pub parents : Dict Hash (List Hash)
  pub depths : Dict Hash ℕ
  pub atoms : Dict Hash Atom
  pub atom_count : ℕ
  pub leaves : List Hash
  pub clock : ℕ

pub record Crystal : Type 0 where
  pub wal : Wal
  pub indexes : Indexes

abbrev pub no_indexes : Indexes
no_indexes = record {
  frontier = [];
  parents = [];
  depths = [];
  atoms = [];
  atom_count = 0;
  leaves = [];
  clock = 0;
}

-- the update of the hot indexes, whose lines AppendAtom and Recover both have
unfoldable pub index_atom : Atom → Indexes → Indexes
unfolding insert
index_atom a x = record x {
  frontier = insert a.path a.hash x.frontier;
  parents = insert a.hash a.causal_past x.parents;
  depths = insert a.hash a.causal_depth x.depths;
  atoms = insert a.hash a x.atoms;
  atom_count = suc x.atom_count;
  leaves = insert_leaf a.hash x.leaves;
}

-- the step of Recover for one atom: the clock is the greatest one
unfoldable pub recover_atom : Atom → Indexes → Indexes
unfolding index_atom
recover_atom a x =
    let y = index_atom a x in
    record y { clock = if ltb x.clock a.logical_clock then a.logical_clock else x.clock }

unfoldable pub recover_atoms : List Atom → Indexes → Indexes
unfolding recover_atom
recover_atoms [] x = x
recover_atoms (a ∷ atoms) x = recover_atoms atoms (recover_atom a x)

-- NewCausalCrystal, when the log opens: Recover
unfoldable pub new_causal_crystal : (Bytes → Option Atom) → Wal.Files → Outcome WalError Crystal
new_causal_crystal unmarshal files =
    let wal = Wal.new_wal files in
    elim (Wal.read_all unmarshal wal) [
      | err e ↦ err e
      | ok atoms ↦ ok (record { wal = wal; indexes = recover_atoms atoms no_indexes })
    ]

-- the depth of an atom: one more than its deepest parent that is known
unfoldable pub depth_of : Dict Hash ℕ → List Hash → ℕ → ℕ
unfolding lookup
depth_of depths [] depth = depth
depth_of depths (h ∷ hs) depth =
    depth_of depths hs (elim (lookup h depths) [
      | none ↦ depth
      | some d ↦ if ltb depth (suc d) then suc d else depth
    ])

-- the hashes that the frontier holds
abbrev pub frontier_hashes : Dict Bytes Hash → List Hash
frontier_hashes [] = []
frontier_hashes ((p, h) ∷ frontier) = h ∷ frontier_hashes frontier

-- an atom that leaves the maps
unfoldable pub drop_atom : Hash → Indexes → Indexes
unfolding delete
drop_atom h x = record x {
  atoms = delete h x.atoms;
  atom_count = x.atom_count - 1;
  parents = delete h x.parents;
  depths = delete h x.depths;
}

-- the Range of evictIfNeeded and of Compact over the hashes of the atoms, which drops those that the
-- frontier has not, up to a target
unfoldable pub drop_orphans : List Hash → ℕ → List Hash → Indexes → Indexes
unfolding elem drop_atom
drop_orphans live zero hs x = x
drop_orphans live (suc n) [] x = x
drop_orphans live (suc n) (h ∷ hs) x = elim (elem h live) [
  | true ↦ drop_orphans live (suc n) hs x
  | false ↦ drop_orphans live n hs (drop_atom h x)
]

-- evictIfNeeded: a tenth of the atoms at most, which int(float64(count) * 0.1) gives, too. The second
-- look at the frontier, under the path of the atom, finds a hash only if the first has it.
unfoldable pub evict_if_needed : Indexes → Indexes
unfolding drop_orphans
evict_if_needed x =
    if ltb x.atom_count max_atom_cache_entries
    then x
    else drop_orphans (frontier_hashes x.frontier) (x.atom_count / 10) (keys x.atoms) x

-- the atom that AppendAtom makes
unfoldable pub draft_atom :
    Platform → Expr → Bytes → List Hash → Time → Time → Bytes → Indexes → Atom
unfolding compute_hash depth_of
draft_atom os expr path causal_past expires_at now nonce x =
    let a : Atom = record {
      hash = zeros 32;
      expr = expr;
      causal_past = causal_past;
      causal_depth = depth_of x.depths causal_past 0;
      logical_clock = suc x.clock;
      physical_time = now;
      nonce = nonce;
      branch_id = zeros 16;
      path = path;
      expires_at = expires_at;
    } in
    record a { hash = compute_hash os a }

-- AppendAtom; `nonce` is randomNonce, and `cut` and `sync_fails` what the log's file fails at
unfoldable pub append_atom :
    Platform
    → (Atom → Option Bytes)
    → Option ℕ
    → Bool
    → Expr
    → Bytes
    → List Hash
    → Time
    → Time
    → Bytes
    → Crystal
    → Crystal × Outcome WalError Hash
unfolding draft_atom Wal.append index_atom evict_if_needed
append_atom os marshal cut sync_fails expr path causal_past expires_at now nonce c =
    let a = draft_atom os expr path causal_past expires_at now nonce c.indexes in
    let ticked = record c.indexes { clock = suc c.indexes.clock } in
    let r = Wal.append marshal cut sync_fails a c.wal in
    elim r.1 [
      | err e ↦ (record { wal = r.0; indexes = ticked }, err e)
      | ok _ ↦
          let x = index_atom a ticked in
          (
            record {
              wal = r.0;
              indexes = if ltb max_atom_cache_entries x.atom_count then evict_if_needed x else x;
            },
            ok a.hash,
          )
    ]

-- GetAtom
unfoldable pub get_atom : Hash → Indexes → Option Atom
unfolding lookup
get_atom h x = lookup h x.atoms

-- GetCurrentHash
unfoldable pub get_current_hash : Bytes → Indexes → Option Hash
unfolding lookup
get_current_hash path x = lookup path x.frontier

-- GetCurrent
unfoldable pub get_current : Bytes → Indexes → Option Atom
unfolding get_current_hash get_atom
get_current path x = elim (get_current_hash path x) [ none ↦ none | some h ↦ get_atom h x ]

-- the alive atoms of Compact, sorted by their clocks
unfoldable pub put_alive : Atom → List Atom → List Atom
put_alive a [] = a ∷ []
put_alive a (b ∷ bs) =
    let rest = put_alive a bs in
    if ltb b.logical_clock a.logical_clock then b ∷ rest else a ∷ b ∷ bs

unfoldable pub alive_atoms : List Bytes → Indexes → List Atom
unfolding get_current put_alive
alive_atoms [] x = []
alive_atoms (p ∷ ps) x = elim (get_current p x) [
  | none ↦ alive_atoms ps x
  | some a ↦ put_alive a (alive_atoms ps x)
]

abbrev pub hashes_of : List Atom → List Hash
hashes_of [] = []
hashes_of (a ∷ atoms) = a.hash ∷ hashes_of atoms

-- Compact; a failed Rewrite leaves the indexes
unfoldable pub compact : (Atom → Option Bytes) → Faults → Crystal → Crystal
unfolding alive_atoms Wal.rewrite drop_orphans
compact marshal faults c =
    let x = c.indexes in
    let alive = alive_atoms (keys x.frontier) x in
    let r = Wal.rewrite marshal faults alive c.wal in
    elim r.1 [
      | err e ↦ record { wal = r.0; indexes = x }
      | ok _ ↦ record {
        wal = r.0;
        indexes =
            drop_orphans (frontier_hashes x.frontier) (length x.atoms) (keys x.atoms)
              (record x { leaves = hashes_of alive });
      }
    ]
