-- ===== src/Server/Reader.antt =====
-- readCommand of internal/protocol/resp3/server.go, on the bytes that the client has sent; what it
-- leaves unread is handed on. Text outside ASCII is not told apart as white space.
pub mod RoundTrip
use wavicle.Prelude.{
  ℕ, zero, suc, ◌+◌, ◌^◌, Bytes, codes, Bool, true, false, ◌&&◌, ◌||◌, ltb, leb, ◌==◌, nat_eq,
  bytes_eq, if◌then◌else◌, Option, none, some, List, [], ◌∷◌, ◌++◌, length, take, drop, fields, ℤ,
  pos, negsuc, atoi, decimal, Outcome, ok, err, ◌>>=◌,
}

-- The errors of readCommand; `eof` is any error of the reader.
pub data ReadError : Type 0 where
  eof : ReadError
  invalid_array_length : Bytes → ReadError
  expected_bulk_string : ℕ → ReadError
  invalid_bulk_length : ℕ → Bytes → ReadError
  too_many_arguments : ℕ → ReadError

-- r.ReadString('\n'), and what is left
unfoldable pub read_string : Bytes → Outcome ReadError (Bytes × Bytes)
read_string [] = err eof
read_string (c ∷ s) =
    if c == 10 then ok (10 ∷ [], s) else (do (line, rest) ← read_string s; ok (c ∷ line, rest))

-- strings.TrimRight(line, "\r\n")
unfoldable pub trim_line : Bytes → Bytes
trim_line [] = []
trim_line (c ∷ s) =
    let rest = trim_line s in if (c == 13 || c == 10) && rest == [] then [] else c ∷ rest

-- the limits: maxArgs and maxArgLen
abbrev pub max_args : ℕ
max_args = 10000

abbrev pub max_arg_len : ℕ
max_arg_len = 2 ^ 20

-- the count of an array, if Atoi and the limits allow it
unfoldable pub valid_count : Option ℤ → Option ℕ
valid_count (some (pos n)) = if ltb 0 n && leb n max_args then some n else none
valid_count _ = none

-- a length, or none for the length -1, if Atoi and the limits allow it
unfoldable pub valid_length : Option ℤ → Option (Option ℕ)
valid_length (some (pos n)) = if leb n max_arg_len then some (some n) else none
valid_length (some (negsuc n)) = if n == 0 then some none else none
valid_length none = none

-- io.ReadFull of the text and the two bytes behind it
unfoldable pub read_text : ℕ → Bytes → Outcome ReadError (Bytes × Bytes)
read_text n s = if leb (n + 2) (length s) then ok (take n s, drop (n + 2) s) else err eof

-- one bulk string; `i` is the argument's number
unfoldable pub read_bulk : ℕ → Bytes → Outcome ReadError (Bytes × Bytes)
unfolding read_string trim_line valid_length read_text
read_bulk i s = do
  (line, rest) ← read_string s
  elim (trim_line line) [
    | [] ↦ err (expected_bulk_string i)
    | c ∷ number ↦
        if c == b'$'
        then elim (valid_length (atoi number)) [
          | none ↦ err (invalid_bulk_length i number)
          | some none ↦ ok ([], rest)
          | some (some n) ↦ read_text n rest
        ]
        else err (expected_bulk_string i)
  ]

-- the loop over the bulk strings, from argument `i` on
unfoldable pub read_bulks : ℕ → ℕ → Bytes → Outcome ReadError (List Bytes × Bytes)
unfolding read_bulk
read_bulks i zero s = ok ([], s)
read_bulks i (suc n) s = do
  (arg, rest) ← read_bulk i s
  (args, rest') ← read_bulks (suc i) n rest
  ok (arg ∷ args, rest')

-- what a line without its end asks for
unfoldable pub read_line : Bytes → Bytes → Outcome ReadError (List Bytes × Bytes)
unfolding valid_count read_bulks
read_line [] rest = ok ([], rest)
read_line (c ∷ line) rest =
    if c == b'*'
    then elim (valid_count (atoi line)) [
      | none ↦ err (invalid_array_length line)
      | some n ↦ read_bulks 0 n rest
    ]
    else let args = fields (c ∷ line) in
      if ltb max_args (length args) then err (too_many_arguments (length args)) else ok (args, rest)

-- readCommand
unfoldable pub read_command : Bytes → Outcome ReadError (List Bytes × Bytes)
unfolding read_line
read_command s = do (line, rest) ← read_string s; read_line (trim_line line) rest
