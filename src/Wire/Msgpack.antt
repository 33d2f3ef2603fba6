-- ===== src/Wire/Msgpack.antt =====
-- `msgpack::packer` and the objects that it writes, as an interface with what the format promises:
-- what was packed can be read back.
use Prim.Native.String.{String}
use mathlib.Core.List.{Memᴰ}
use dchain.Prelude.{ℕ, ◌<◌, ◌≡◌, Bool, true, false, List, All, u64_mod}
use dchain.Wire.Flex.{names, distinct, IsBytes}

-- `struct` is a map whose keys are texts, `table` one whose keys are numbers; `bin` is a vector of
-- bytes. `unpack` and the readers are those of `msgpack::object`.
pub record Msgpack (Bytes Object : Type 0) : Type 0 where
  pub nil : Object
  pub uint : ℕ → Object
  pub str : String → Object
  pub bin : List ℕ → Object
  pub array : List Object → Object
  pub struct : List (String × Object) → Object
  pub table : List (ℕ × Object) → Object
  pub pack : Object → Bytes
  pub unpack : Bytes → Object
  pub is_nil : Object → Bool
  pub as_uint64 : Object → ℕ
  pub as_str : Object → String
  pub as_bin : Object → List ℕ
  pub as_array : Object → List Object
  pub as_table : Object → List (ℕ × Object)
  pub field : Object → String → Object

pub record MsgpackLaws {Bytes Object : Type 0} (mp : Msgpack Bytes Object) : Type 0 where
  pub unpack_lem : (o : Object) → mp.unpack (mp.pack o) ≡ o
  pub nil_lem : mp.is_nil mp.nil ≡ true
  pub struct_not_nil : (kvs : List (String × Object)) → mp.is_nil (mp.struct kvs) ≡ false
  pub uint_lem : (n : ℕ) → n < u64_mod → mp.as_uint64 (mp.uint n) ≡ n
  pub str_lem : (s : String) → mp.as_str (mp.str s) ≡ s
  pub bin_lem : (xs : List ℕ) → IsBytes xs → mp.as_bin (mp.bin xs) ≡ xs
  pub array_lem : (os : List Object) → mp.as_array (mp.array os) ≡ os
  pub table_lem :
      (kvs : List (ℕ × Object))
      → All (λ entry. entry.0 < u64_mod) kvs
      → mp.as_table (mp.table kvs) ≡ kvs
  pub field_lem :
      (kvs : List (String × Object)) (k : String) (o : Object)
      → distinct (names kvs) ≡ true
      → Memᴰ (k, o) kvs
      → mp.field (mp.struct kvs) k ≡ o
