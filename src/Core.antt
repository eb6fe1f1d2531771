-- ===== src/Core.antt =====
-- internal/core/types.go: values, expressions and atoms, with their serialised forms.
pub mod Order
use wavicle.Prelude.{
  ℕ, zero, suc, ◌+◌, ◌/◌, ◌%◌, ◌^◌, Bytes, Bool, true, false, ltb, ◌==◌, nat_eq, bytes_eq,
  if◌then◌else◌, Option, none, some, List, [], ◌∷◌, ◌++◌, length,
}

-- `Hash`, 32 bytes
abbrev pub Hash : Type 0
Hash = Bytes

abbrev pub zeros : ℕ → Bytes
zeros zero = []
zeros (suc n) = 0 ∷ zeros n

abbrev pub zero_hash : Hash
zero_hash = zeros 32

-- IsZero
unfoldable pub is_zero : Hash → Bool
is_zero h = h == zero_hash

-- `Value`. An int64 and a float64 are given by their 64 bits, and a map by its entries, in the
-- order in which a `range` loop happens to meet them.
mutual
  pub data Value : Type 0 where
    null : Value
    bool : Bool → Value
    int : ℕ → Value
    float : ℕ → Value
    string : Bytes → Value
    bytes : Bytes → Value
    array : Values → Value
    dict : Fields → Value

  pub data Values : Type 0 where
    nil : Values
    cons : Value → Values → Values

  pub data Fields : Type 0 where
    end : Fields
    field : Bytes → Value → Fields → Fields

-- `CombinatorExpr`; a vector is the bits of its floats
pub data Expr : Type 0 where
  const : Value → Expr
  field_access : Bytes → Expr → Expr
  embed : ℕ → List ℕ → Expr
  compose : List Hash → Expr
  apply : Expr → Expr → Expr
  resonate : List (List ℕ) → Expr

-- `Level`
unfoldable pub level : Expr → ℕ
level (const v) = 0
level (field_access f e) = 1
level (embed m v) = 1
level (compose hs) = 2
level (apply f a) = 2
level (resonate qs) = 3

-- A time.Time is a count of nanoseconds, and 0 is the zero time.
abbrev pub Time : Type 0
Time = ℕ

-- `CausalAtom`, without the embedding and the domain, which its hash and its users leave aside.
pub record Atom : Type 0 where
  pub hash : Hash
  pub expr : Expr
  pub causal_past : List Hash
  pub causal_depth : ℕ
  pub logical_clock : ℕ
  pub physical_time : Time
  pub nonce : Bytes
  pub branch_id : Bytes
  pub path : Bytes
  pub expires_at : Time

-- What the atoms take from other packages: SHA3-256, `fmt`'s %f, UnixNano on 64 bits, and the
-- floating-point products with 0.90 and 0.80.
pub record Platform : Type 0 where
  pub sha3 : Bytes → Hash
  pub format_float : ℕ → Bytes
  pub unix_nano : Time → ℕ
  pub ninety_percent : ℕ → ℕ
  pub eighty_percent : ℕ → ℕ

-- binary.BigEndian on k bytes
unfoldable pub big_endian : ℕ → ℕ → Bytes
big_endian zero n = []
big_endian (suc k) n = big_endian k (n / 256) ++ (n % 256) ∷ []

-- Go's `<` on strings
unfoldable pub str_less : Bytes → Bytes → Bool
str_less [] [] = false
str_less [] (_ ∷ _) = true
str_less (_ ∷ _) [] = false
str_less (a ∷ s) (b ∷ t) = if a == b then str_less s t else ltb a b

-- one step of sort.Strings on the keys
unfoldable pub put_sorted : Bytes → Bytes → List (Bytes × Bytes) → List (Bytes × Bytes)
put_sorted k s [] = (k, s) ∷ []
put_sorted k s ((j, t) ∷ r) =
    let rest = put_sorted k s r in if str_less j k then (j, t) ∷ rest else (k, s) ∷ (j, t) ∷ r

abbrev pub join_sorted : List (Bytes × Bytes) → Bytes
join_sorted [] = []
join_sorted ((k, s) ∷ r) = (k ++ s) ++ join_sorted r

module _ (os : Platform) where
  -- `Serialize` of each value
  unfoldable mutual
    pub serialize : Value → Bytes
    serialize null = 0 ∷ []
    serialize (bool b) = if b then 1 ∷ [] else 2 ∷ []
    serialize (int n) = big_endian 8 n
    serialize (float x) = os.format_float x
    serialize (string s) = s
    serialize (bytes s) = s
    serialize (array vs) = serialize_all vs
    serialize (dict fs) = join_sorted (serialize_fields fs)

    pub serialize_all : Values → Bytes
    serialize_all nil = []
    serialize_all (cons v vs) = serialize v ++ serialize_all vs

    pub serialize_fields : Fields → List (Bytes × Bytes)
    serialize_fields end = []
    serialize_fields (field k v fs) = put_sorted k (serialize v) (serialize_fields fs)

  unfoldable pub float32s : List ℕ → Bytes
  float32s [] = []
  float32s (x ∷ xs) = big_endian 4 x ++ float32s xs

  unfoldable pub vectors : List (List ℕ) → Bytes
  unfolding float32s
  vectors [] = []
  vectors (q ∷ qs) = float32s q ++ vectors qs

  abbrev hashes : List Hash → Bytes
  hashes [] = []
  hashes (h ∷ hs) = h ++ hashes hs

  -- `Serialize` of each expression
  unfoldable pub serialize_expr : Expr → Bytes
  unfolding serialize vectors
  serialize_expr (const v) = 0 ∷ serialize v
  serialize_expr (field_access f e) = (1 ∷ f) ++ serialize_expr e
  serialize_expr (embed m v) = (2 ∷ big_endian 2 m) ++ float32s v
  serialize_expr (compose hs) = 3 ∷ hashes hs
  serialize_expr (apply f a) = (4 ∷ serialize_expr f) ++ serialize_expr a
  serialize_expr (resonate qs) = (5 ∷ big_endian 4 (length qs)) ++ vectors qs

  -- ComputeHash: the text that is hashed, and its hash
  unfoldable pub atom_text : Atom → Bytes
  unfolding serialize_expr
  atom_text a =
      serialize_expr a.expr
      ++ big_endian 8 a.logical_clock
      ++ big_endian 8 (os.unix_nano a.physical_time)
      ++ big_endian 8 (os.unix_nano a.expires_at)
      ++ a.nonce
      ++ a.branch_id
      ++ big_endian 4 (length a.causal_past)
      ++ hashes a.causal_past

  unfoldable pub compute_hash : Atom → Hash
  unfolding atom_text
  compute_hash a = os.sha3 (atom_text a)
