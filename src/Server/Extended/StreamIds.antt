-- ===== src/Server/Extended/StreamIds.antt =====
-- The IDs of streams: their texts, their order, and the entries that XRANGE does not see.
use wavicle.Prelude.{
  ◌∙◌, true, Bool-cases, Option-cases, inl, inr, ◌⊎◌, ok, err, ==_refl, lookup-insert, ℕ, ◌^◌, ◌<◌,
  Bytes, codes, bytes_eq, nat_eq, ◌==◌, ◌≡◌, refl, ap, arith, false, Dict, lookup, insert, Option,
  none, some, List, [], ◌∷◌, ◌++◌, All, decimal, decimal-All, atoi-decimal,
}
use wavicle.Core.{Value, string, array, dict, const, Atom, Time}
use wavicle.Storage.Store.{Store}
use wavicle.Server.State.{Server, stream_key, set_key_type}
use wavicle.Server.Commands.{bulk_string}
use wavicle.Server.Extended.Pushed.{read_as-array}
use wavicle.Server.Values.{
  Runtime, given, as_array, of_items, to_string, entries, of_entries, put_atom, put_value,
  require_type, read_as,
}
use wavicle.Server.Extended.Streams.{
  split_dash, parse_stream_id, record_of, entry_id, in_range, select_range, with_fields, is_even,
  new_id, xadd_command, range_bound, bad_min, bad_max, xrange_command,
}

split_dash-append :
    (s t : Bytes) → All (λ c. (c == b'-') ≡ false) s → split_dash (s ++ b'-' ∷ t) ≡ some (s, t)
unfolding split_dash
split_dash-append [] t h = refl
split_dash-append (c ∷ s) t (n, h) = rw (n, split_dash-append s t h) refl

-- The text `ms-seq` of two numbers below 2^63 is parsed to these numbers.
parse_stream_id-decimal :
    (ms seq : ℕ)
    → ms < 2 ^ 63
    → seq < 2 ^ 63
    → parse_stream_id (decimal ms ++ b'-' ∷ decimal seq) ≡ some (ms, seq)
unfolding parse_stream_id
parse_stream_id-decimal ms seq p q =
    let digits = decimal-All (λ c. (c == b'-') ≡ false) (λ c low high. ground arith) ms in
    rw
      (
        parse_stream_id,
        split_dash-append (decimal ms) (decimal seq) digits,
        atoi-decimal ms p,
        atoi-decimal seq q,
      )
      refl

select_range-append :
    (go : Runtime) (low high : Option (ℕ × ℕ)) (xs : List Value) (e : Value)
    → in_range go low high e ≡ false
    → select_range go low high (xs ++ e ∷ []) ≡ select_range go low high xs
unfolding select_range
select_range-append go low high [] e h = rw h refl
select_range-append go low high (x ∷ xs) e h = rw (select_range-append go low high xs e h) refl

entries-of_entries : (m : Dict Bytes Value) → entries (of_entries m) ≡ m
unfolding entries of_entries
entries-of_entries [] = refl
entries-of_entries ((k, v) ∷ m) = ap (λ r. (k, v) ∷ r) (entries-of_entries m)

hidden-entry_id :
    (go : Runtime) (m : Dict Bytes Value) (text : Bytes)
    → lookup (codes "_id") m ≡ some (string text)
    → entry_id go (dict (of_entries m)) ≡ text
unfolding entry_id record_of to_string
hidden-entry_id go m text h = rw (entry_id, entries-of_entries m, h) refl

with_fields-last :
    (args : List Bytes) (f val : Bytes) (m : Dict Bytes Value)
    → is_even args ≡ true
    → with_fields (args ++ f ∷ val ∷ []) m ≡ insert f (string val) (with_fields args m)
unfolding with_fields
with_fields-last [] f val m even = refl
with_fields-last (g ∷ []) f val m even = absurd (ground (arith, even))
with_fields-last (g ∷ v ∷ more) f val m even =
    with_fields-last more f val (insert g (string v) m) even

is_even-last :
    (args : List Bytes) (f val : Bytes)
    → is_even args ≡ true
    → is_even (args ++ f ∷ val ∷ []) ≡ true
is_even-last [] f val even = refl
is_even-last (g ∷ []) f val even = absurd (ground (arith, even))
is_even-last (g ∷ v ∷ more) f val even = is_even-last more f val even

-- the entry that XADD makes of its fields
abbrev pub entry_of : Bytes → List Bytes → Value
entry_of text args = dict (of_entries (with_fields args ((codes "_id", string text) ∷ [])))

-- An entry whose last field is "_id" with a text that is no ID is in no range.
select_range-hidden :
    (go : Runtime) (low high : Option (ℕ × ℕ)) (xs : List Value) (args : List Bytes)
    (text bad : Bytes)
    → is_even args ≡ true
    → parse_stream_id bad ≡ none
    → select_range go low high (xs ++ entry_of text (args ++ codes "_id" ∷ bad ∷ []) ∷ [])
      ≡ select_range go low high xs
unfolding in_range
select_range-hidden go low high xs args text bad even h =
    let base : Dict Bytes Value = (codes "_id", string text) ∷ [] in
    let m = with_fields args base in
    let id : lookup (codes "_id") (insert (codes "_id") (string bad) m) ≡ some (string bad) =
      lookup-insert (codes "_id") (codes "_id") (string bad) m ∙ rw (==_refl (codes "_id")) refl in
    let shown = hidden-entry_id go (insert (codes "_id") (string bad) m) bad id in
    rw (with_fields-last args (codes "_id") bad base even) (
      select_range-append go low high xs (dict (of_entries (insert (codes "_id") (string bad) m)))
        (rw (shown, in_range, h) refl))

module _ {S : Type 0} (go : Runtime) (st : Store S) (now later : Time) where
  xadd_command-reply :
      (key text f val : Bytes) (more : List Bytes) (id : ℕ × ℕ) (xs : List Value)
      (s s1 t : Server S)
      → require_type st now key stream_key s ≡ (s1, ok tt)
      → read_as st now as_array key s1 ≡ (t, ok (some xs))
      → (text == codes "*") ≡ false
      → parse_stream_id text ≡ some id
      → is_even more ≡ true
      → let r = xadd_command go st now (key ∷ text ∷ f ∷ val ∷ more) s in
        (r.1 ≡ ok (bulk_string text))
        × (r.0.store
            ≡ (st.append_atom
                (const (array (of_items (xs ++ entry_of text (f ∷ val ∷ more) ∷ []))))
                key
                []
                0
                now
                t.store).0)
  unfolding xadd_command new_id given put_value put_atom set_key_type
  xadd_command-reply key text f val more id xs s s1 t typed read plain parsed even =
      (rw (even, typed, plain, parsed, read) refl, rw (even, typed, plain, parsed, read) refl)

  -- a bound of XRANGE does not depend on the server
  range_bound-cases :
      (free bad text : Bytes)
      → ((o : Option (ℕ × ℕ)) × ((s : Server S)
            → range_bound go st later free bad text s ≡ (s, ok o)))
        ⊎ ((s : Server S) → range_bound go st later free bad text s ≡ (s, err bad))
  unfolding range_bound given
  range_bound-cases free bad text = elim (Bool-cases (text == free)) [
    | inl y ↦ inl (none, λ s. rw (y, range_bound) refl)
    | inr n ↦ elim (Option-cases (parse_stream_id text)) [
      | inl k ↦ inr (λ s. rw (n, k, range_bound) refl)
      | inr (id, k) ↦ inl (some id, λ s. rw (n, k, range_bound) refl)
    ]
  ]

  xrange_command-same :
      (key low high : Bytes) (xs ys : List Value) (s t u v : Server S)
      → read_as st later as_array key s ≡ (t, ok (some xs))
      → read_as st later as_array key u ≡ (v, ok (some ys))
      → ((a b : Option (ℕ × ℕ)) → select_range go a b ys ≡ select_range go a b xs)
      → (xrange_command go st later (key ∷ low ∷ high ∷ []) u).1
        ≡ (xrange_command go st later (key ∷ low ∷ high ∷ []) s).1
  unfolding xrange_command given
  xrange_command-same key low high xs ys s t u v before after same =
      elim (range_bound-cases (codes "-") bad_min low) [
        | inr e ↦ rw (before, after, e t, e v) refl
        | inl (a, e) ↦ elim (range_bound-cases (codes "+") bad_max high) [
          | inr f ↦ rw (before, after, e t, e v, f t, f v) refl
          | inl (b, f) ↦ rw (before, after, e t, e v, f t, f v, same a b) refl
        ]
      ]

  -- XADD to a stream, with an ID that parses and fields of which the last one is named "_id" and has a
  -- value that is no stream ID, replies with the ID; but if the store then has what was appended, XRANGE
  -- replies, for any bounds, what it replied before: no XRANGE shows the entry.
  pub xadd_command-xrange_command :
      (key text bad low high : Bytes) (args : List Bytes) (id : ℕ × ℕ) (xs : List Value)
      (s s1 t u : Server S) (a : Atom) (x : S)
      → require_type st now key stream_key s ≡ (s1, ok tt)
      → read_as st now as_array key s1 ≡ (t, ok (some xs))
      → read_as st later as_array key s ≡ (u, ok (some xs))
      → (text == codes "*") ≡ false
      → parse_stream_id text ≡ some id
      → is_even args ≡ true
      → parse_stream_id bad ≡ none
      → let fields = args ++ codes "_id" ∷ bad ∷ [] in
        let ys = xs ++ entry_of text fields ∷ [] in
        st.get_current key later
            (st.append_atom (const (array (of_items ys))) key [] 0 now t.store).0
          ≡ (x, some a)
        → a.expr ≡ const (array (of_items ys))
        → let r = xadd_command go st now (key ∷ text ∷ fields) s in
          (r.1 ≡ ok (bulk_string text))
          × ((xrange_command go st later (key ∷ low ∷ high ∷ []) r.0).1
              ≡ (xrange_command go st later (key ∷ low ∷ high ∷ []) s).1)
  xadd_command-xrange_command key text bad low high [] id xs s s1 t u a x typed read before plain
        parsed even wrong current written =
      let (reply, left) =
        xadd_command-reply key text (codes "_id") bad [] id xs s s1 t typed read plain parsed
          refl in
      let ys = xs ++ entry_of text (codes "_id" ∷ bad ∷ []) ∷ [] in
      let r = xadd_command go st now (key ∷ text ∷ codes "_id" ∷ bad ∷ []) s in
      let after = read_as-array go st now later key ys a r.0 x (rw left current) written in
      (
        reply,
        xrange_command-same key low high xs ys s u r.0 (record r.0 { store = x }) before after
            (λ p q. select_range-hidden go p q xs [] text bad refl wrong),
      )
  xadd_command-xrange_command key text bad low high (f ∷ []) id xs s s1 t u a x typed read before
        plain parsed even wrong current written =
      absurd (ground (arith, even))
  xadd_command-xrange_command key text bad low high (f ∷ val ∷ more) id xs s s1 t u a x typed read
        before plain parsed even wrong current written =
      let rest = more ++ codes "_id" ∷ bad ∷ [] in
      let (reply, left) =
        xadd_command-reply key text f val rest id xs s s1 t typed read plain parsed
          (is_even-last more (codes "_id") bad even) in
      let ys = xs ++ entry_of text (f ∷ val ∷ rest) ∷ [] in
      let r = xadd_command go st now (key ∷ text ∷ f ∷ val ∷ rest) s in
      let after = read_as-array go st now later key ys a r.0 x (rw left current) written in
      (
        reply,
        xrange_command-same key low high xs ys s u r.0 (record r.0 { store = x }) before after
            (λ p q. select_range-hidden go p q xs (f ∷ val ∷ more) text bad even wrong),
      )
