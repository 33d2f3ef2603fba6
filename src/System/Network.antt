-- ===== src/System/Network.antt =====
-- All the servers, and what they tell one another of blocks. gRPC may deliver a request or lose it,
-- and the turns of the handlers that it starts mix with all others; so what was sent may be taken
-- in at any time, in any order, also never. What clients send is arbitrary.
use mathlib.Core.List.{Memᴰ}
use dchain.Prelude.{ℕ, List, [], ◌∷◌, ◌++◌, ◌==◌, if◌then◌else◌}
use dchain.Entity.Bls.{ShareSets}
use dchain.Server.State.{Conf, Server}
use dchain.Server.Init.{init}
use dchain.Server.Peer.{relay_block_item, bcast_item}
use dchain.Server.Send.{Message, Sent, blocks, commits, relay_block_call, bcast_commit_call}
use dchain.Server.Pack.{packed_block, pack_one}
use dchain.Server.Safety.Send.{IsPeer}
use dchain.Wire.Codec.{Codec}
use dchain.Wire.Plan.{Plan, plan_of, IsPlan}
use dchain.System.Step.{Turn}

-- The servers by their ids; the requests with blocks that were sent, with their targets; and, for
-- the statements, the blocks that were packed, both oldest first.
pub record Net (Bytes Key : Type 0) : Type 0 where
  pub servers : ℕ → Server Bytes Key
  pub sent : List (ℕ × Message Bytes)
  pub proposed : List Plan

-- The configuration files of the servers differ in `server-id`.
abbrev pub conf_at : Conf → ℕ → Conf
conf_at conf k = record conf { server_id = k }

-- `k` is in a new state, and has sent requests.
abbrev pub put : {Bytes Key : Type 0} → Net Bytes Key → ℕ → Sent Bytes Key → Net Bytes Key
put net k (t, ms) = record net {
  servers = λ j. if j == k then t else net.servers j;
  sent = net.sent ++ ms;
}

-- `pack_thread` runs where `server-id` is `server-count`.
abbrev pub propose : {Bytes Key : Type 0} → Conf → Net Bytes Key → ℕ → ℕ → Net Bytes Key
propose conf net num_tx now =
    let s = net.servers conf.server_count in
    record (put net conf.server_count (pack_one s num_tx now, [])) {
      proposed = net.proposed ++ plan_of (packed_block s num_tx now) ∷ [];
    }

module _ {Bytes Key ShareSet : Type 0} (conf : Conf) (codec : Codec Bytes)
    (bls : ShareSets ShareSet) where
  pub data NetStep (net : Net Bytes Key) : Net Bytes Key → Type 0 where
    -- `remove_dead_blocks` is no turn of the network: `TcServer::schedule` does not run it.
    takes_turn :
        (k : ℕ) (t : Server Bytes Key)
        → Turn (conf_at conf k) codec bls (net.servers k) t
        → NetStep net (put net k (t, []))
    -- The numbers of a block are words, as their types have it.
    proposes :
        (num_tx now : ℕ)
        → IsPlan (plan_of (packed_block (net.servers conf.server_count) num_tx now))
        → NetStep net (propose conf net num_tx now)
    sends_blocks :
        (k target : ℕ)
        → IsPeer (conf_at conf k) target
        → NetStep net (put net k (relay_block_call codec (net.servers k, []) target).0)
    sends_commits :
        (now k target : ℕ)
        → IsPeer (conf_at conf k) target
        → NetStep net (put net k (bcast_commit_call codec now (net.servers k, []) target).0)
    receives_block :
        (k : ℕ) (bs : List Bytes) (bytes : Bytes)
        → Memᴰ (k, blocks bs) net.sent
        → Memᴰ bytes bs
        → NetStep net
            (put net k ((relay_block_item (conf_at conf k) codec (net.servers k) bytes).0, []))
    receives_commit :
        (now : ℕ → ℕ) (k : ℕ) (bs : List Bytes) (at : ℕ) (bytes : Bytes)
        → Memᴰ (k, commits bs at) net.sent
        → Memᴰ bytes bs
        → NetStep net
            (put net k ((bcast_item (conf_at conf k) codec now (net.servers k) bytes).0, []))

  -- All servers start with nothing sent.
  abbrev pub initial : (ℕ → ℕ → Key) → Net Bytes Key
  initial keys = record { servers = λ k. init (conf_at conf k) (keys k); sent = []; proposed = [] }

  -- What the network may become by any number of steps.
  pub data NetReach (keys : ℕ → ℕ → Key) : Net Bytes Key → Type 0 where
    start : NetReach keys (initial keys)
    continue :
        {net net' : Net Bytes Key} → NetReach keys net → NetStep net net' → NetReach keys net'
