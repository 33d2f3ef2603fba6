-- ===== src/Examples/Flex.antt =====
-- FlexBuffers whose buffers are the trees that were written, and msgpack whose bytes are,
-- with the laws.
use Prim.Native.String.{String}
use text.Mathlib.Text.{◌==◌ as str_eq}
use text.Mathlib.TextEquality.{eq_iff}
use mathlib.Core.List.{Memᴰ}
use mathlib.Core.List.Memᴰ.{head, tail}
use dchain.Prelude.{
  ℕ, zero, suc, ◌≡◌, refl, ap, sym, Bool, true, false, not, ◌&&◌, ◌||◌, Option, none, some, List,
  [], ◌∷◌, arith, if◌then◌else◌, Bool-cases, inl, inr, subst,
}
use dchain.Wire.Msgpack.{Msgpack, MsgpackLaws}
use dchain.Wire.Flex.{plain, FlexBuffers, FlexLaws, names, has, distinct, IsBytes}

mutual
  pub data Value : Type 0 where
    null : Value
    uint : ℕ → Value
    str : String → Value
    blob : Buffer → Value
    vector : Values → Value
    map : Fields → Value

  pub data Buffer : Type 0 where
    raw : List ℕ → Buffer
    finished : Value → Buffer

  pub data Values : Type 0 where
    no_values : Values
    with_value : Value → Values → Values

  pub data Fields : Type 0 where
    no_fields : Fields
    with_field : String → Value → Fields → Fields

abbrev to_values : List Value → Values
to_values [] = no_values
to_values (v ∷ vs) = with_value v (to_values vs)

abbrev of_values : Values → List Value
of_values no_values = []
of_values (with_value v vs) = v ∷ of_values vs

abbrev to_fields : List (String × Value) → Fields
to_fields [] = no_fields
to_fields ((k, v) ∷ kvs) = with_field k v (to_fields kvs)

abbrev field_names : Fields → List String
field_names no_fields = []
field_names (with_field k v fs) = k ∷ field_names fs

abbrev field_at : Fields → String → Value
field_at no_fields k = null
field_at (with_field j v fs) k = let rest = field_at fs k in if str_eq j k then v else rest

abbrev contents_of : Buffer → List ℕ
contents_of (raw xs) = xs
contents_of (finished v) = []

abbrev root_of : Buffer → Option Value
root_of (raw xs) = none
root_of (finished v) = some v

abbrev null? : Value → Bool
null? null = true
null? _ = false

abbrev number : Value → ℕ
number (uint n) = n
number _ = 0

abbrev characters : Value → String
characters (str s) = s
characters _ = ""

abbrev bytes : Value → Buffer
bytes (blob b) = b
bytes _ = raw []

abbrev elements : Value → List Value
elements (vector vs) = of_values vs
elements _ = []

abbrev keys_of : Value → List String
keys_of (map fs) = field_names fs
keys_of _ = []

abbrev value_at : Value → String → Value
value_at (map fs) k = field_at fs k
value_at _ k = null

abbrev pub trees : FlexBuffers Buffer Value
trees = record {
  raw = raw;
  contents = contents_of;
  null = null;
  uint = uint;
  str = str;
  blob = blob;
  vector = λ vs. vector (to_values vs);
  map = λ kvs. map (to_fields kvs);
  finish = finished;
  get_root = root_of;
  is_null = null?;
  as_uint64 = number;
  as_string = characters;
  as_blob = bytes;
  as_vector = elements;
  keys = keys_of;
  at = value_at;
}

of_values-to_values : (vs : List Value) → of_values (to_values vs) ≡ vs
of_values-to_values [] = refl
of_values-to_values (v ∷ vs) = ap (λ ws. v ∷ ws) (of_values-to_values vs)

field_names-to_fields : (kvs : List (String × Value)) → field_names (to_fields kvs) ≡ names kvs
field_names-to_fields [] = refl
field_names-to_fields ((k, v) ∷ kvs) = ap (λ ks. k ∷ ks) (field_names-to_fields kvs)

or_true : (b : Bool) → (b || true) ≡ true
or_true true = refl
or_true false = refl

and_both : (a b : Bool) → (a && b) ≡ true → (a ≡ true) × (b ≡ true)
and_both true b e = (refl, e)
and_both false b e = cc

absent : (b : Bool) → not b ≡ true → b ≡ false
absent true e = cc
absent false e = refl

-- What `distinct` says of a key and the keys after it.
distinct_split :
    (k : String) (ks : List String)
    → distinct (k ∷ ks) ≡ true
    → (has ks k ≡ false) × (distinct ks ≡ true)
distinct_split k ks d =
    let (_, e) = and_both (plain k) (not (has ks k) && distinct ks) d in
    let (a, b) = and_both (not (has ks k)) (distinct ks) e in (absent (has ks k) a, b)

clash : (ks : List String) (j k : String) → j ≡ k → has ks j ≡ false → has ks k ≡ true → ⊥
clash ks j k e absent present = cc

has_written :
    (kvs : List (String × Value)) (k : String) (v : Value)
    → Memᴰ (k, v) kvs
    → has (names kvs) k ≡ true
has_written [] k v m = elim m [ ]
has_written ((j, w) ∷ kvs) k v (head e) = rw ((eq_iff j k).1 (sym (ap (λ p. p.0) e))) refl
has_written ((j, w) ∷ kvs) k v (tail m) = rw (has_written kvs k v m) (or_true (str_eq j k))

field_at-to_fields :
    (kvs : List (String × Value)) (k : String) (v : Value)
    → distinct (names kvs) ≡ true
    → Memᴰ (k, v) kvs
    → field_at (to_fields kvs) k ≡ v
field_at-to_fields [] k v d m = elim m [ ]
field_at-to_fields ((j, w) ∷ kvs) k v d (head e) =
    rw ((eq_iff j k).1 (sym (ap (λ p. p.0) e))) (sym (ap (λ p. p.1) e))
field_at-to_fields ((j, w) ∷ kvs) k v d (tail m) = elim (Bool-cases (str_eq j k)) [
  | inl same ↦ absurd (
      clash (names kvs) j k ((eq_iff j k).0 same) (distinct_split j (names kvs) d).0
        (has_written kvs k v m))
  | inr apart ↦ rw apart (field_at-to_fields kvs k v (distinct_split j (names kvs) d).1 m)
]

pub trees_laws : FlexLaws trees
trees_laws = record {
  raw_lem = λ xs h. refl;
  root_lem = λ v. refl;
  null_lem = refl;
  blob_not_null = λ b. refl;
  uint_lem = λ n h. refl;
  str_lem = λ s. refl;
  blob_lem = λ b. refl;
  vector_lem = of_values-to_values;
  keys_sound = λ kvs k d m. subst (λ ks. Memᴰ k ks) (field_names-to_fields kvs) m;
  keys_complete = λ kvs k d m. subst (λ ks. Memᴰ k ks) (sym (field_names-to_fields kvs)) m;
  at_lem = field_at-to_fields;
}

-- A table is a list of its keys and values in turn.
abbrev to_table : List (ℕ × Value) → Values
to_table [] = no_values
to_table ((k, v) ∷ kvs) = with_value (uint k) (with_value v (to_table kvs))

abbrev of_table : Values → List (ℕ × Value)
of_table (with_value k (with_value v vs)) = (number k, v) ∷ of_table vs
of_table _ = []

of_table-to_table : (kvs : List (ℕ × Value)) → of_table (to_table kvs) ≡ kvs
of_table-to_table [] = refl
of_table-to_table ((k, v) ∷ kvs) = ap (λ rest. (k, v) ∷ rest) (of_table-to_table kvs)

abbrev tree_of : Buffer → Value
tree_of (raw xs) = null
tree_of (finished v) = v

abbrev table_of : Value → List (ℕ × Value)
table_of (vector vs) = of_table vs
table_of _ = []

abbrev point_of : Value → List ℕ
point_of (blob (raw xs)) = xs
point_of _ = []

-- msgpack over the same trees.
abbrev pub objects : Msgpack Buffer Value
objects = record {
  nil = null;
  uint = uint;
  str = str;
  bin = λ xs. blob (raw xs);
  array = λ vs. vector (to_values vs);
  struct = λ kvs. map (to_fields kvs);
  table = λ kvs. vector (to_table kvs);
  pack = finished;
  unpack = tree_of;
  is_nil = null?;
  as_uint64 = number;
  as_str = characters;
  as_bin = point_of;
  as_array = elements;
  as_table = table_of;
  field = value_at;
}

pub objects_laws : MsgpackLaws objects
objects_laws = record {
  unpack_lem = λ o. refl;
  nil_lem = refl;
  struct_not_nil = λ kvs. refl;
  uint_lem = λ n h. refl;
  str_lem = λ s. refl;
  bin_lem = λ xs h. refl;
  array_lem = of_values-to_values;
  table_lem = λ kvs h. of_table-to_table kvs;
  field_lem = field_at-to_fields;
}

-- 96 bytes of a point.
abbrev pub zeros : ℕ → List ℕ
zeros zero = []
zeros (suc n) = 0 ∷ zeros n

pub zeros-IsBytes : (n : ℕ) → IsBytes (zeros n)
zeros-IsBytes zero = tt
zeros-IsBytes (suc n) = (omega arith, zeros-IsBytes n)
