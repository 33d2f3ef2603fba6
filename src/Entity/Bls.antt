-- ===== src/Entity/Bls.antt =====
-- The objects of libBLS that the program stores, by what their constructors take and their
-- getters return, and the operations of libBLS that it calls, as an interface. Of those only what
-- the documentation of `BLSSigShareSet` promises is assumed, in `ShareSetLaws`.
use dchain.Prelude.{ℕ, ◌≡◌, Bool, true, false, Option, some, List, [], ◌∷◌, leb, length}
use dchain.Container.OrdSet.{contains}
use Prim.Native.String.{String}

-- `BLSSigShare(g1, hint, signer_index, t, n)`; the 96 bytes of `alt_bn128_G1` are a list.
pub record SigShare : Type 0 where
  pub g1 : List ℕ
  pub hint : String
  pub signer_index : ℕ
  pub t : ℕ
  pub n : ℕ

-- `BLSSignature(g1, hint, t, n)`
pub record Signature : Type 0 where
  pub g1 : List ℕ
  pub hint : String
  pub t : ℕ
  pub n : ℕ

-- `BLSSigShareSet`: `none` is an exception. The constructor is taken to accept its two numbers,
-- which are both the `client-count`.
pub record ShareSets (ShareSet : Type 0) : Type 0 where
  pub new_set : ℕ → ℕ → ShareSet
  pub add_sig_share : ShareSet → Option SigShare → Option ShareSet
  pub is_enough : ShareSet → Bool
  pub merge : ShareSet → ℕ → Option Signature

-- A set made for `t` signers keeps one share for each signer index, has enough with `t` of them,
-- and then merges.
pub record ShareSetLaws {ShareSet : Type 0} (bls : ShareSets ShareSet) : Type 0 where
  pub signers : ShareSet → List ℕ
  pub required : ShareSet → ℕ
  pub new_signers : (t n : ℕ) → signers (bls.new_set t n) ≡ []
  pub new_required : (t n : ℕ) → required (bls.new_set t n) ≡ t
  pub add_lem :
      (s : ShareSet) (share : SigShare)
      → contains (signers s) share.signer_index ≡ false
      → (s' : ShareSet) × (bls.add_sig_share s (some share) ≡ some s')
        × (signers s' ≡ share.signer_index ∷ signers s)
        × (required s' ≡ required s)
  pub enough_lem : (s : ShareSet) → bls.is_enough s ≡ leb (required s) (length (signers s))
  pub merge_lem :
      (s : ShareSet) (threads : ℕ)
      → bls.is_enough s ≡ true
      → (sig : Signature) × (bls.merge s threads ≡ some sig)
