-- ===== src/Server/Reader/RoundTrip.antt =====
-- What readCommand makes of a command written as an array of bulk strings.
use wavicle.Prelude.{
  ℕ, suc, ◌+◌, ◌≤◌, ◌<◌, ◌≡◌, ◌≢◌, refl, Bytes, true, nat_eq, bytes_eq, bytes_beq, List, [], ◌∷◌,
  ◌++◌, length, drop, All, decimal, atoi-decimal, decimal-All, ok, arith, length-append, leb, ltb,
  take-append,
}
use wavicle.Server.Reader.{
  read_string, trim_line, valid_count, valid_length, read_text, read_bulk, read_bulks, read_line,
  read_command, max_args, max_arg_len,
}

-- a line with its end
abbrev pub line_of : Bytes → Bytes → Bytes
line_of s rest = s ++ 13 ∷ 10 ∷ rest

-- `$<length>`, the text, and the ends of the two lines
abbrev pub bulk_of : Bytes → Bytes → Bytes
bulk_of arg rest = line_of (b'$' ∷ decimal (length arg)) (line_of arg rest)

unfoldable pub bulks_of : List Bytes → Bytes → Bytes
bulks_of [] rest = rest
bulks_of (arg ∷ args) rest = bulk_of arg (bulks_of args rest)

-- A command as clients send it: `*<count>`, and a bulk string for each argument.
unfoldable pub command_of : List Bytes → Bytes → Bytes
unfolding bulks_of
command_of args rest = line_of (b'*' ∷ decimal (length args)) (bulks_of args rest)

-- neither end of a line
abbrev Plain : ℕ → Type 0
Plain c = (c ≢ 10) × (c ≢ 13)

read_string-line :
    (s rest : Bytes) → All Plain s → read_string (line_of s rest) ≡ ok (s ++ 13 ∷ 10 ∷ [], rest)
unfolding read_string
read_string-line [] rest h = refl
read_string-line (c ∷ s) rest ((n, _), h) = rw (read_string-line s rest h) (ground arith)

trim_line-end : (s : Bytes) → All Plain s → trim_line (s ++ 13 ∷ 10 ∷ []) ≡ s
unfolding trim_line bytes_beq
trim_line-end [] h = refl
trim_line-end (c ∷ s) ((n, m), h) = rw (trim_line-end s h) (ground arith)

-- A number behind its sign is a line by itself.
tagged-All : (c n : ℕ) → 14 ≤ c → All Plain (c ∷ decimal n)
tagged-All c n h = (
  (λ e. omega arith, λ e. omega arith),
  decimal-All Plain (λ d low high. (λ e. omega arith, λ e. omega arith)) n,
)

drop-line : (arg rest : Bytes) → drop (length arg + 2) (line_of arg rest) ≡ rest
drop-line [] rest = refl
drop-line (c ∷ arg) rest =
    let e : length (c ∷ arg) + 2 ≡ suc (length arg + 2) = omega arith in rw e (drop-line arg rest)

read_text-line : (arg rest : Bytes) → read_text (length arg) (line_of arg rest) ≡ ok (arg, rest)
unfolding read_text
read_text-line arg rest =
    let long : leb (length arg + 2) (length (line_of arg rest)) ≡ true =
      ground (arith, length-append arg (13 ∷ 10 ∷ rest)) in
    rw (long, take-append arg (13 ∷ 10 ∷ rest), drop-line arg rest) refl

within : (m n : ℕ) → m ≤ n → leb m n ≡ true
within m n h = ground arith

read_bulk-bulk_of :
    (i : ℕ) (arg rest : Bytes)
    → length arg ≤ max_arg_len
    → read_bulk i (bulk_of arg rest) ≡ ok (arg, rest)
unfolding read_bulk valid_length
read_bulk-bulk_of i arg rest fits =
    let n = length arg in
    let plain = tagged-All b'$' n (omega arith) in
    rw
      (
        read_string-line (b'$' ∷ decimal n) (line_of arg rest) plain,
        trim_line-end (decimal n) plain.1,
        atoi-decimal n (omega arith),
        within n max_arg_len fits,
      )
      (read_text-line arg rest)

read_bulks-bulks_of :
    (i : ℕ) (args : List Bytes) (rest : Bytes)
    → All (λ (arg : Bytes). length arg ≤ max_arg_len) args
    → read_bulks i (length args) (bulks_of args rest) ≡ ok (args, rest)
unfolding read_bulks bulks_of
read_bulks-bulks_of i [] rest h = refl
read_bulks-bulks_of i (arg ∷ args) rest (fits, h) =
    rw (read_bulk-bulk_of i arg (bulks_of args rest) fits, read_bulks-bulks_of (suc i) args rest h)
      refl

-- A command of 1 to 10,000 arguments of at most 2^20 bytes each, whatever bytes these are, is read back from
-- its array of bulk strings, and what the client sent behind it is left unread.
pub read_command-command_of :
    (args : List Bytes) (rest : Bytes)
    → 0 < length args
    → length args ≤ max_args
    → All (λ (arg : Bytes). length arg ≤ max_arg_len) args
    → read_command (command_of args rest) ≡ ok (args, rest)
unfolding read_command command_of valid_count read_line
read_command-command_of args rest some_args few fit =
    let n = length args in
    let plain = tagged-All b'*' n (omega arith) in
    let some_test : ltb 0 n ≡ true = ground arith in
    rw
      (
        read_string-line (b'*' ∷ decimal n) (bulks_of args rest) plain,
        trim_line-end (decimal n) plain.1,
        atoi-decimal n (omega arith),
        some_test,
        within n max_args few,
      )
      (read_bulks-bulks_of 0 args rest fit)
