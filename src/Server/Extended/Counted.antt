-- ===== src/Server/Extended/Counted.antt =====
-- INCRBY, and the overflow of its sum.
use wavicle.Prelude.{
  Bytes, codes, bytes_eq, bytes_beq, ◌≡◌, ◌↔◌, refl, some, [], ◌∷◌, show_int, atoi, trim_space, ℤ,
  add64, ◌+ℤ◌, IsInt64, add64_iff, atoi-IsInt64, ok,
}
use wavicle.Core.{string, const, Time}
use wavicle.Storage.Store.{Store}
use wavicle.Server.State.{Server, string_key, set_key_type}
use wavicle.Server.Values.{
  Runtime, given, as_string, int_reply, put_atom, put_value, require_type, read_as,
}
use wavicle.Server.Extended.Strings.{counter_command, counter_delta, counter_value, store_string}

module _ {S : Type 0} (go : Runtime) (st : Store S) (now : Time) where
  -- INCRBY of a key that may hold a string and holds a number n, by a number d, replies with an int64
  -- and appends its text; that is the sum n + d exactly when the sum is an int64: beyond
  -- -2^63 to 2^63 - 1 the counter wraps, and the reply is no error.
  pub counter_command-sum :
      (key amount text : Bytes) (n d : ℤ) (s s1 s2 : Server S)
      → require_type st now key string_key s ≡ (s1, ok tt)
      → read_as st now (as_string go) key s1 ≡ (s2, ok (some text))
      → atoi amount ≡ some d
      → atoi (trim_space text) ≡ some n
      → let r = counter_command go st now (codes "INCRBY") (key ∷ amount ∷ []) s in
        (r.1 ≡ ok (int_reply (add64 n d)))
        × (r.0.store
            ≡ (st.append_atom (const (string (show_int (add64 n d)))) key [] 0 now s2.store).0)
        × IsInt64 (add64 n d)
        × ((add64 n d ≡ n +ℤ d) ↔ IsInt64 (n +ℤ d))
  unfolding counter_command counter_delta counter_value given store_string put_value put_atom
      set_key_type bytes_beq
  counter_command-sum key amount text n d s s1 s2 typed read by held =
      let (kept, exact) =
        add64_iff n d (atoi-IsInt64 (trim_space text) n held) (atoi-IsInt64 amount d by) in
      (rw (by, typed, read, held) refl, rw (by, typed, read, held) refl, kept, exact)
