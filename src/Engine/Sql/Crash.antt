-- ===== src/Engine/Sql/Crash.antt =====
-- Queries on which SQLToProofTree slices out of range.
use wavicle.Prelude.{
  ℕ, ◌+◌, ◌<◌, ◌≡◌, refl, Bytes, codes, true, leb, ◌&&◌, has_prefix, to_upper, some, length, ok,
  err, ◌⊎◌, inl, inr, arith, Bool-cases,
}
use wavicle.Core.{Time}
use wavicle.Storage.Store.{Store}
use wavicle.Engine.Sql.{
  SqlError, missing_clause, out_of_range, index_of, slice, find_clause, parse_query,
  sql_to_proof_tree,
}

slice-short : (s : Bytes) (from to : ℕ) → to < from → slice s from to ≡ err out_of_range
unfolding slice
slice-short s from to h = ground arith

-- a slice is a text or the panic
slice-cases :
    (s : Bytes) (from to : ℕ)
    → (slice s from to ≡ err out_of_range) ⊎ ((t : Bytes) × (slice s from to ≡ ok t))
unfolding slice
slice-cases s from to = elim (Bool-cases (leb from to && leb to (length s))) [
  | inl m ↦ rw m (inr (_, refl))
  | inr m ↦ rw m (inl refl)
]

find_clause-some :
    (e : SqlError) (sub s : Bytes) (n : ℕ) → index_of sub s ≡ some n → find_clause e sub s ≡ ok n
unfolding find_clause
find_clause-some e sub s n h = rw (find_clause, h) refl

module _ (query : Bytes) (from where_at : ℕ) where
  parse_query-panics :
      has_prefix (to_upper query) (codes "SELECT") ≡ true
      → index_of (codes "FROM") (to_upper query) ≡ some from
      → index_of (codes "WHERE") (to_upper query) ≡ some where_at
      → (from < 7) ⊎ (where_at < from + 4)
      → parse_query query ≡ err out_of_range
  unfolding parse_query
  parse_query-panics select f w early =
      rw
        (
          select,
          find_clause-some missing_clause (codes "FROM") (to_upper query) from f,
          find_clause-some missing_clause (codes "WHERE") (to_upper query) where_at w,
        )
        (elim early [
          | inl short ↦ rw (slice-short query 7 from short) refl
          | inr crossed ↦ elim (slice-cases query 7 from) [
            | inl e ↦ rw e refl
            | inr (t, e) ↦ rw (e, slice-short query (from + 4) where_at crossed) refl
          ]
        ])

-- SQLToProofTree panics on every query that begins with SELECT, in any case, if its first FROM stands before the
-- eighth byte or its first WHERE before the end of that FROM; the store stays as it is.
pub sql_to_proof_tree-panics :
    {S : Type 0} (st : Store S) (now : Time) (query : Bytes) (s : S) (from where_at : ℕ)
    → has_prefix (to_upper query) (codes "SELECT") ≡ true
    → index_of (codes "FROM") (to_upper query) ≡ some from
    → index_of (codes "WHERE") (to_upper query) ≡ some where_at
    → (from < 7) ⊎ (where_at < from + 4)
    → sql_to_proof_tree st now query s ≡ (s, err out_of_range)
unfolding sql_to_proof_tree parse_query find_clause
sql_to_proof_tree-panics st now query s from where_at select f w early =
    rw (sql_to_proof_tree, parse_query-panics query from where_at select f w early) refl
