-- ===== src/Examples/Wire.antt =====
-- The adapter at a block with a transaction and the vote of one client.
use dchain.Prelude.{ap, ◌≢◌, refl, ◌≡◌, Bool, some, none, [], ◌∷◌, arith, leb, ℕ}
use dchain.Entity.Bls.{SigShare}
use dchain.Entity.Block.{Block, BlockVote, new_block}
use dchain.Entity.Transaction.{new_transaction}
use dchain.Wire.Hash.{hashed}
use dchain.Wire.Hashing.{IsPackedBlock, hashed_apart}
use dchain.Wire.Codec.{decoded, invalid}
use dchain.Wire.Adapter.{vote_to_bytes, vote_from_bytes, block_to_bytes, block_from_bytes}
use dchain.Wire.Records.{IsWord, IsWireVote, vote_from_bytes-vote_to_bytes}
use dchain.Container.OrdMap.{find_head}
use dchain.Wire.RoundTrip.{IsWireBlock, block_from_bytes-block_to_bytes, block_from_bytes_throws}
use dchain.Examples.Data.{proposed}
use dchain.Examples.Flex.{objects, objects_laws, trees, trees_laws, zeros, zeros-IsBytes}

-- what the constructor of `BLSSigShare` checks of a share's index and hint
abbrev pub is_share : SigShare → Bool
is_share s = leb 1 s.signer_index

abbrev pub share : SigShare
share = record { g1 = zeros 96; hint = "5"; signer_index = 1; t = 1; n = 1 }

-- The vote of a voter, and the block that it votes for, with an aggregated signature.
abbrev pub vote_of : ℕ → BlockVote
vote_of voter = record { block_id = 1000000; voter_id = voter; sig_share = some share }

abbrev pub block_of : ℕ → Block
block_of voter = record (new_block 1000000 0xDEADBEEF 40) {
  tx_vec = new_transaction 3 1 2 0 5 ∷ [];
  votes = (voter, vote_of voter) ∷ [];
  tss_sig = some (record { g1 = zeros 96; hint = "5"; t = 1; n = 1 });
}

pub vote_of-IsWireVote : (voter : ℕ) → IsWord voter → IsWireVote is_share (vote_of voter)
vote_of-IsWireVote voter w = record {
  block_id = omega arith;
  voter_id = w;
  sig_share = record {
    g1 = (zeros-IsBytes 96, refl);
    signer_index = omega arith;
    t = omega arith;
    n = omega arith;
    accepted = refl;
  };
}

pub block_of-IsWireBlock : (voter : ℕ) → IsWord voter → IsWireBlock is_share (block_of voter)
block_of-IsWireBlock voter w = record {
  header = record {
    id = omega arith;
    base_id = omega arith;
    proposal_ts = omega arith;
    dist_ts = omega arith;
    commit_ts = omega arith;
    recv_ts = omega arith;
  };
  tx_vec = (
    record {
      id = omega arith;
      sender = omega arith;
      receiver = omega arith;
      value = omega arith;
      fee = omega arith;
    },
    tt,
  );
  sorted = tt;
  votes = ((w, vote_of-IsWireVote voter w), tt);
}

pub proposed-IsWireBlock : IsWireBlock is_share proposed
proposed-IsWireBlock = record {
  header = record {
    id = omega arith;
    base_id = omega arith;
    proposal_ts = omega arith;
    dist_ts = omega arith;
    commit_ts = omega arith;
    recv_ts = omega arith;
  };
  tx_vec = (
    record {
      id = omega arith;
      sender = omega arith;
      receiver = omega arith;
      value = omega arith;
      fee = omega arith;
    },
    (
      record {
        id = omega arith;
        sender = omega arith;
        receiver = omega arith;
        value = omega arith;
        fee = omega arith;
      },
      tt,
    ),
  );
  sorted = tt;
  votes = tt;
}

vote_from_bytes-vote_to_bytes_example :
    vote_from_bytes trees is_share (vote_to_bytes trees (vote_of 1)) ≡ decoded (vote_of 1)
vote_from_bytes-vote_to_bytes_example =
    vote_from_bytes-vote_to_bytes trees trees_laws is_share (vote_of 1)
      (vote_of-IsWireVote 1 (omega arith))

block_from_bytes-block_to_bytes_example :
    block_from_bytes trees is_share (block_to_bytes trees (block_of 1))
    ≡ decoded (record (block_of 1) { tss_sig = none })
block_from_bytes-block_to_bytes_example =
    block_from_bytes-block_to_bytes trees trees_laws is_share (block_of 1)
      (block_of-IsWireBlock 1 (omega arith)) (omega arith, tt)

block_from_bytes_throws_example :
    block_from_bytes trees is_share (block_to_bytes trees (block_of 3000000000)) ≡ invalid
block_from_bytes_throws_example =
    block_from_bytes_throws trees trees_laws is_share (block_of 3000000000)
      (block_of-IsWireBlock 3000000000 (omega arith)) 3000000000 (vote_of 3000000000)
      (find_head 3000000000 (vote_of 3000000000) []) (omega arith)

-- The proposed block as two clients get it, at the times 40 and 90.
abbrev at_time : ℕ → Block
at_time t = record proposed { header = record proposed.header { dist_ts = t } }

at_time-IsPackedBlock : (t : ℕ) → IsWord t → IsPackedBlock (at_time t)
at_time-IsPackedBlock t h = record {
  header = record {
    id = omega arith;
    base_id = omega arith;
    proposal_ts = omega arith;
    dist_ts = h;
    commit_ts = omega arith;
    recv_ts = omega arith;
  };
  tx_vec = proposed-IsWireBlock.tx_vec;
  votes = tt;
}

times_apart : at_time 40 ≢ at_time 90
times_apart e = ground (arith, ap (λ b. b.header.dist_ts) e)

hashed_apart_example :
    hashed objects (λ s. s.hint) (at_time 40) ≢ hashed objects (λ s. s.hint) (at_time 90)
hashed_apart_example =
    hashed_apart objects objects_laws (λ s. s.hint) (at_time 40) (at_time 90)
      (at_time-IsPackedBlock 40 (omega arith)) (at_time-IsPackedBlock 90 (omega arith)) refl refl
      times_apart
