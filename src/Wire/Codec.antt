-- ===== src/Wire/Codec.antt =====
-- The interface of `flexbuffers_adapter` that the handlers use: the specializations for headers,
-- votes and blocks.
use dchain.Prelude.{◌≡◌, ◌≢◌, refl, ◌⊎◌, inl, inr}
use dchain.Entity.Block.{Block, BlockHeader, BlockVote}

-- What a `from_bytes` ends with: a value, an exception, or an abort, which is a failed assertion or
-- a buffer that is none of FlexBuffers.
pub data Decoded (A : Type 0) : Type 0 where
  decoded : A → Decoded A
  invalid aborted : Decoded A

pub Decoded-cases :
    {A : Type 0} (d : Decoded A) → ((a : A) × (d ≡ decoded a)) ⊎ ((d ≡ invalid) ⊎ (d ≡ aborted))
Decoded-cases (decoded a) = inl (a, refl)
Decoded-cases invalid = inr (inl refl)
Decoded-cases aborted = inr (inr refl)

-- Reading does not abort.
abbrev pub Sound : {A : Type 0} → Decoded A → Type 0
Sound d = d ≢ aborted

pub record Codec (Bytes : Type 0) : Type 0 where
  pub header_to_bytes : BlockHeader → Bytes
  pub header_from_bytes : Bytes → Decoded BlockHeader
  pub vote_to_bytes : BlockVote → Bytes
  pub vote_from_bytes : Bytes → Decoded BlockVote
  pub block_to_bytes : Block → Bytes
  pub block_from_bytes : Bytes → Decoded Block

-- What follows a decoding, which an exception and an abort skip.
abbrev pub and_read : {A B : Type 0} → Decoded A → (A → Decoded B) → Decoded B
and_read (decoded a) rest = rest a
and_read invalid rest = invalid
and_read aborted rest = aborted
