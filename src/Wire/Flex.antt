-- ===== src/Wire/Flex.antt =====
-- `flexbuffers::Builder` and `flexbuffers::Reference`, which FlatBuffers provides, as an interface
-- with what its documentation promises of reading back what was built.
use Prim.Native.String.{String}
use Prim.Native.Char.{code}
use text.Mathlib.Text.{◌==◌ as str_eq}
use mathlib.Core.List.{Memᴰ}
use dchain.Prelude.{
  ℕ, ◌<◌, ◌≡◌, Bool, true, false, Option, some, List, [], ◌∷◌, ◌&&◌, ◌||◌, not, ◌==◌, All, u64_mod,
}

-- A `Value` is both what the builder writes and what a reference reads; `as_map` is part of `at`
-- and `keys`. `get_root` is `none` on a buffer that it must not be called on. `raw` and `contents`
-- go between 96 bytes of memory and a blob.
pub record FlexBuffers (Bytes Value : Type 0) : Type 0 where
  pub raw : List ℕ → Bytes
  pub contents : Bytes → List ℕ
  pub null : Value
  pub uint : ℕ → Value
  pub str : String → Value
  pub blob : Bytes → Value
  pub vector : List Value → Value
  pub map : List (String × Value) → Value
  pub finish : Value → Bytes
  pub get_root : Bytes → Option Value
  pub is_null : Value → Bool
  pub as_uint64 : Value → ℕ
  pub as_string : Value → String
  pub as_blob : Value → Bytes
  pub as_vector : Value → List Value
  pub keys : Value → List String
  pub at : Value → String → Value

abbrev pub names : {Value : Type 0} → List (String × Value) → List String
names [] = []
names ((k, v) ∷ kvs) = k ∷ names kvs

abbrev pub has : List String → String → Bool
has [] k = false
has (j ∷ js) k = str_eq j k || has js k

-- A key is a text without the character 0, which ends it.
abbrev pub plain : String → Bool
plain String.[] = true
plain (String.◌∷◌ c s) = not (code c == 0) && plain s

-- The keys of a map: each is there once.
abbrev pub distinct : List String → Bool
distinct [] = true
distinct (k ∷ ks) = plain k && (not (has ks k) && distinct ks)

abbrev pub IsBytes : List ℕ → Type 0
IsBytes xs = All (λ x. x < 256) xs

pub record FlexLaws {Bytes Value : Type 0} (fb : FlexBuffers Bytes Value) : Type 0 where
  pub raw_lem : (xs : List ℕ) → IsBytes xs → fb.contents (fb.raw xs) ≡ xs
  pub root_lem : (v : Value) → fb.get_root (fb.finish v) ≡ some v
  pub null_lem : fb.is_null fb.null ≡ true
  pub blob_not_null : (b : Bytes) → fb.is_null (fb.blob b) ≡ false
  pub uint_lem : (n : ℕ) → n < u64_mod → fb.as_uint64 (fb.uint n) ≡ n
  pub str_lem : (s : String) → fb.as_string (fb.str s) ≡ s
  pub blob_lem : (b : Bytes) → fb.as_blob (fb.blob b) ≡ b
  pub vector_lem : (vs : List Value) → fb.as_vector (fb.vector vs) ≡ vs
  -- The keys of a map come in an order of the library's own.
  pub keys_sound :
      (kvs : List (String × Value)) (k : String)
      → distinct (names kvs) ≡ true
      → Memᴰ k (fb.keys (fb.map kvs))
      → Memᴰ k (names kvs)
  pub keys_complete :
      (kvs : List (String × Value)) (k : String)
      → distinct (names kvs) ≡ true
      → Memᴰ k (names kvs)
      → Memᴰ k (fb.keys (fb.map kvs))
  pub at_lem :
      (kvs : List (String × Value)) (k : String) (v : Value)
      → distinct (names kvs) ≡ true
      → Memᴰ (k, v) kvs
      → fb.at (fb.map kvs) k ≡ v
