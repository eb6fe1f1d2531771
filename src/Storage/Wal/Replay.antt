-- ===== src/Storage/Wal/Replay.antt =====
-- ReadAll of internal/storage/wal.go after Append.
use wavicle.Prelude.{
  Option-cases, Bool-cases, inl, inr, ◌≢◌, ◌<◌, ◌^◌, Bytes, true, false, ltb, leb, nat_eq, ◌==◌,
  ◌≡◌, refl, ap, ◌∙◌, arith, Option, none, some, List, [], ◌∷◌, ◌++◌, append_assoc, append-nil,
  length, split, All, ok,
}
use wavicle.Core.{Atom, is_zero}
use wavicle.Storage.Wal.{max_line_size, Wal, append, write_line, extend, scan, atoms_of, read_all}

-- a log of whole lines
abbrev pub text_of : List Bytes → Bytes
text_of [] = []
text_of (line ∷ lines) = line ++ 10 ∷ text_of lines

abbrev pub IsLine : Bytes → Type 0
IsLine line = All (λ c. (c == 10) ≡ false) line

-- a line that the buffer of the scanner takes
abbrev pub IsShort : Bytes → Type 0
IsShort line = IsLine line × length line < 2 ^ 20

split-line : (line s : Bytes) → IsLine line → split 10 (line ++ 10 ∷ s) ≡ line ∷ split 10 s
unfolding split
split-line [] s h = refl
split-line (c ∷ line) s (n, h) = rw (n, split-line line s h) refl

split-text_of :
    (lines : List Bytes) (s : Bytes)
    → All IsLine lines
    → split 10 (text_of lines ++ s) ≡ lines ++ split 10 s
unfolding split
split-text_of [] s h = refl
split-text_of (line ∷ lines) s (l, h) =
    ap (split 10) (append_assoc line (10 ∷ text_of lines) s)
    ∙ split-line line (text_of lines ++ s) l
    ∙ ap (λ r. line ∷ r) (split-text_of lines s h)

scan-append :
    (lines rest : List Bytes)
    → All (λ line. length line < 2 ^ 20) lines
    → scan (lines ++ rest) ≡ lines ++ scan rest
unfolding scan
scan-append [] rest h = refl
scan-append (line ∷ lines) rest (l, h) =
    let fits : leb max_line_size (length line) ≡ false = ground (arith, l) in
    rw (fits, scan-append lines rest h) refl

atoms_of-append :
    (unmarshal : Bytes → Option Atom) (lines rest : List Bytes)
    → atoms_of unmarshal (lines ++ rest) ≡ atoms_of unmarshal lines ++ atoms_of unmarshal rest
unfolding atoms_of
atoms_of-append unmarshal [] rest = refl
atoms_of-append unmarshal ([] ∷ lines) rest = atoms_of-append unmarshal lines rest
atoms_of-append unmarshal ((c ∷ line) ∷ lines) rest =
    let more = atoms_of-append unmarshal lines rest in
    elim (Option-cases (unmarshal (c ∷ line))) [
      | inl n ↦ rw (n, atoms_of) more
      | inr (a, e) ↦ elim (Bool-cases (is_zero a.hash)) [
        | inl z ↦ rw (e, z, atoms_of) more
        | inr nz ↦ rw (e, nz, atoms_of) (ap (λ r. a ∷ r) more)
      ]
    ]

lines_only :
    (P : Bytes → Type 0) (Q : Bytes → Type 0) (xs : List Bytes)
    → All (λ x. P x × Q x) xs
    → All P xs × All Q xs
lines_only P Q [] h = (tt, tt)
lines_only P Q (x ∷ xs) ((p, q), h) = let (ps, qs) = lines_only P Q xs h in ((p, ps), (q, qs))

text_of-append :
    (xs : List Bytes) (line : Bytes) → text_of xs ++ (line ++ 10 ∷ []) ≡ text_of (xs ++ line ∷ [])
text_of-append [] line = refl
text_of-append (x ∷ xs) line =
    append_assoc x (10 ∷ text_of xs) (line ++ 10 ∷ [])
    ∙ ap (λ s. x ++ 10 ∷ s) (text_of-append xs line)

-- what ReadAll makes of the lines before a last one that ends the text
read_lines :
    (unmarshal : Bytes → Option Atom) (lines : List Bytes) (s : Bytes)
    → All IsShort lines
    → atoms_of unmarshal (scan (split 10 (text_of lines ++ s)))
      ≡ atoms_of unmarshal lines ++ atoms_of unmarshal (scan (split 10 s))
read_lines unmarshal lines s h =
    let (whole, short) = lines_only IsLine (λ line. length line < 2 ^ 20) lines h in
    rw (split-text_of lines s whole, scan-append lines (split 10 s) short)
      (atoms_of-append unmarshal lines (scan (split 10 s)))

-- one line and the end of the text
last_line :
    (unmarshal : Bytes → Option Atom) (line : Bytes) (a : Atom)
    → IsShort line
    → unmarshal line ≡ some a
    → is_zero a.hash ≡ false
    → line ≢ []
    → atoms_of unmarshal (scan (split 10 (line ++ 10 ∷ []))) ≡ a ∷ []
unfolding scan atoms_of split
last_line unmarshal [] a h e nz n = absurd (n refl)
last_line unmarshal (c ∷ line) a (whole, short) e nz n =
    let fits : leb max_line_size (length (c ∷ line)) ≡ false = ground (arith, short) in
    rw (split-line (c ∷ line) [] whole, fits, e, nz) refl

cut_line :
    (unmarshal : Bytes → Option Atom) (line later : Bytes)
    → IsLine line
    → leb max_line_size (length line) ≡ true
    → atoms_of unmarshal (scan (split 10 (line ++ 10 ∷ later))) ≡ []
unfolding scan atoms_of
cut_line unmarshal line later whole stops = rw (split-line line later whole, scan, stops) refl

-- On an open log of whole lines shorter than 2^20 bytes, Append of an atom whose JSON is such a line, and a parse of
-- which gives an atom b with a hash that is not zero, succeeds if no system call fails, leaves whole lines,
-- and ReadAll then gives the atoms that it gave before, and b behind them.
pub append-read_all :
    (marshal : Atom → Option Bytes) (unmarshal : Bytes → Option Atom) (atom b : Atom)
    (lines : List Bytes) (line : Bytes) (w : Wal)
    → w.is_open ≡ true
    → w.files.log ≡ some (text_of lines)
    → All IsShort lines
    → marshal atom ≡ some line
    → IsShort line
    → line ≢ []
    → unmarshal line ≡ some b
    → is_zero b.hash ≡ false
    → let r = append marshal none false atom w in
      (r.1 ≡ ok tt)
      × (r.0.files.log ≡ some (text_of (lines ++ line ∷ [])))
      × (read_all unmarshal r.0 ≡ ok (atoms_of unmarshal lines ++ b ∷ []))
unfolding append write_line extend read_all
append-read_all marshal unmarshal atom b lines line w opened there whole json short n parsed nz =
    let fits : ltb max_line_size (length line) ≡ false = ground (arith, short.1) in
    rw (opened, json, fits, there)
      (
        refl,
        ap some (text_of-append lines line),
        rw opened (
            ap ok (
              read_lines unmarshal lines (line ++ 10 ∷ []) whole
              ∙ ap (λ r. atoms_of unmarshal lines ++ r)
                  (last_line unmarshal line b short parsed nz n))),
      )

pub append-is_open :
    (marshal : Atom → Option Bytes) (atom : Atom) (line : Bytes) (w : Wal)
    → w.is_open ≡ true
    → marshal atom ≡ some line
    → length line < 2 ^ 20
    → (append marshal none false atom w).0.is_open ≡ true
unfolding append write_line
append-is_open marshal atom line w opened json short =
    let fits : ltb max_line_size (length line) ≡ false = ground (arith, short) in
    rw (opened, json, fits) opened

-- Append accepts a line of 2^20 bytes, but ReadAll stops at it: from a log of short lines, that line and any text behind
-- it, as later appends leave it, it gives the atoms of the short lines only, and no error.
pub append-read_all_cut :
    (marshal : Atom → Option Bytes) (unmarshal : Bytes → Option Atom) (atom : Atom)
    (lines : List Bytes) (line later : Bytes) (w : Wal)
    → w.is_open ≡ true
    → w.files.log ≡ some (text_of lines)
    → All IsShort lines
    → marshal atom ≡ some line
    → IsLine line
    → length line ≡ 2 ^ 20
    → let r = append marshal none false atom w in
      (r.1 ≡ ok tt)
      × (read_all unmarshal (record r.0 { files = extend later r.0.files })
          ≡ ok (atoms_of unmarshal lines))
unfolding append write_line extend read_all
append-read_all_cut marshal unmarshal atom lines line later w opened there whole json one long =
    let fits : ltb max_line_size (length line) ≡ false = ground (arith, long) in
    let stops : leb max_line_size (length line) ≡ true = ground (arith, long) in
    rw (opened, json, fits, there)
      (
        refl,
        rw opened (
            ap ok (
              ap (λ s. atoms_of unmarshal (scan (split 10 s)))
                (append_assoc (text_of lines) (line ++ 10 ∷ []) later
                  ∙ ap (λ s. text_of lines ++ s) (append_assoc line (10 ∷ []) later))
              ∙ read_lines unmarshal lines (line ++ 10 ∷ later) whole
              ∙ ap (λ r. atoms_of unmarshal lines ++ r) (cut_line unmarshal line later one stops)
              ∙ append-nil (atoms_of unmarshal lines))),
      )
