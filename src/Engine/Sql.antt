-- ===== src/Engine/Sql.antt =====
-- SQLToProofTree of internal/engine/sqlparser.go, on ASCII text.
pub mod Crash
use wavicle.Prelude.{
  ℕ, zero, suc, ◌+◌, ◌-◌, Bytes, codes, Bool, true, false, ◌&&◌, ◌||◌, leb, ◌==◌, nat_eq, bytes_eq,
  if◌then◌else◌, Option, none, some, List, [], ◌∷◌, ◌++◌, length, take, drop, reverse, map,
  has_prefix, to_upper, split, trim_space, Outcome, ok, err, ◌>>=◌,
}
use wavicle.Core.{Hash, Expr, compose, Atom, Time}
use wavicle.Storage.Store.{Store}

-- The errors of SQLToProofTree; `out_of_range` is the panic of a slice expression.
pub data SqlError : Type 0 where
  not_a_select : SqlError
  missing_clause : SqlError
  missing_equals : SqlError
  dependency_not_found : Bytes → SqlError
  no_data : SqlError
  out_of_range : SqlError

-- strings.Index(s, sub)
unfoldable pub index_of : Bytes → Bytes → Option ℕ
index_of sub [] = if sub == [] then some 0 else none
index_of sub (c ∷ s) =
    let rest = index_of sub s in
    if has_prefix (c ∷ s) sub then some 0 else elim rest [ none ↦ none | some n ↦ some (suc n) ]

-- s[from:to]
unfoldable pub slice : Bytes → ℕ → ℕ → Outcome SqlError Bytes
slice s from to =
    if leb from to && leb to (length s)
    then ok (take (to - from) (drop from s))
    else err out_of_range

unfoldable pub skip_quotes : Bytes → Bytes
skip_quotes [] = []
skip_quotes (c ∷ s) = let rest = skip_quotes s in if c == 39 || c == 34 then rest else c ∷ s

-- strings.Trim(s, "'\"")
unfoldable pub trim_quotes : Bytes → Bytes
unfolding skip_quotes
trim_quotes s = reverse (skip_quotes (reverse (skip_quotes s)))

-- strings.Index, whose -1 is an error
unfoldable pub find_clause : SqlError → Bytes → Bytes → Outcome SqlError ℕ
unfolding index_of
find_clause e sub s = elim (index_of sub s) [ none ↦ err e | some n ↦ ok n ]

-- What the text of a query asks for.
pub record Query : Type 0 where
  pub table : Bytes
  pub id : Bytes
  pub columns : List Bytes

-- the first part of SQLToProofTree, on the text alone
unfoldable pub parse_query : Bytes → Outcome SqlError Query
unfolding find_clause slice trim_quotes has_prefix to_upper
parse_query query =
    let q = to_upper query in
    if has_prefix q (codes "SELECT")
    then (do
      from ← find_clause missing_clause (codes "FROM") q
      where_at ← find_clause missing_clause (codes "WHERE") q
      columns ← slice query 7 from
      table ← slice query (from + 4) where_at
      condition ← slice query (where_at + 5) (length query)
      equals ← find_clause missing_equals (codes "=") condition
      ok (record {
        table = trim_space table;
        id = trim_quotes (trim_space (drop (suc equals) condition));
        columns = map trim_space (split 44 columns);
      }))
    else err not_a_select

module _ {S : Type 0} (st : Store S) (now : Time) where
  -- the loop over the columns
  unfoldable pub column_hashes : Bytes → List Bytes → S → S × Outcome SqlError (List Hash)
  column_hashes prefix [] s = (s, ok [])
  column_hashes prefix (c ∷ cs) s =
      let r = st.get_current (prefix ++ c) now s in
      elim r.1 [
        | none ↦ (r.0, err (dependency_not_found (prefix ++ c)))
        | some a ↦
            let rest = column_hashes prefix cs r.0 in (rest.0, (do hs ← rest.1; ok (a.hash ∷ hs)))
      ]

  abbrev composed : Query → List Hash → Outcome SqlError (Expr × Bytes)
  composed q [] = err no_data
  composed q (h ∷ hs) = ok (compose (h ∷ hs), codes "sql:" ++ q.table ++ codes ":" ++ q.id)

  -- SQLToProofTree
  unfoldable pub sql_to_proof_tree : Bytes → S → S × Outcome SqlError (Expr × Bytes)
  unfolding parse_query column_hashes
  sql_to_proof_tree query s = elim (parse_query query) [
    | err e ↦ (s, err e)
    | ok q ↦
        let r = column_hashes (q.table ++ codes ":" ++ q.id ++ codes ":") q.columns s in
        (r.0, (do hs ← r.1; composed q hs))
  ]
