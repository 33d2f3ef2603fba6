-- ===== src/Examples/Clients.antt =====
-- The theorems on the client at the data of `Examples.Data`.
use dchain.Prelude.{ℕ, ◌≡◌, ◌≢◌, refl, none, some, List, [], ◌∷◌, returned}
use dchain.Container.Assoc.{find}
use dchain.Client.State.{Client}
use dchain.Client.Fetch.{add_blocks}
use dchain.Client.Vote.{Calls}
use dchain.Client.Fetching.{add_blocks_queues}
use dchain.Examples.Data.{of_block, codec, proposed, voted}
use Prim.Native.String.{String}

-- A database that keeps a log of its writes and finds nothing, and buffers of size 0, which
-- `snprintf` leaves alone. The hash of a block is its id.
abbrev calls : Calls ℕ (List (String × String)) ℕ
calls = record {
  print = λ s n. s;
  get = λ db k buf. buf;
  put = λ db k v. (k, v) ∷ db;
  get_sha256 = λ b. b.header.id;
  sign = λ key hash i. record { g1 = key ∷ hash ∷ []; hint = "0"; signer_index = i; t = 1; n = 1 };
}

abbrev client : Client ℕ (List (String × String))
client = record {
  client_id = 1;
  pending_blks = proposed ∷ [];
  pending_blkhdr = (1000000, proposed.header) ∷ [];
  tss_key = some 9;
  sender_strvec = "" ∷ "" ∷ [];
  receiver_strvec = "" ∷ "" ∷ [];
  sender_bal_strvec = "" ∷ "" ∷ [];
  receiver_bal_strvec = "" ∷ "" ∷ [];
  db = [];
}

add_blocks_queues_example :
    let r = add_blocks codec client (of_block voted ∷ []) in
    (r.0.pending_blks ≡ proposed ∷ voted ∷ [])
    × (find r.0.pending_blkhdr 1000000 ≡ none)
    × (r.1 ≡ returned)
unfolding find
add_blocks_queues_example = add_blocks_queues codec client (voted ∷ []) 1000000 (refl, tt)

named : ◌≢◌ {A = String} "" "1"
named = λ e. cc
