-- ===== src/Server/Register.antt =====
-- The handler `Register` of include/server/tc-server-grpc.hpp. `Heartbeat` and the peers'
-- `SPHeartbeat` only set the status of their response.
use dchain.Prelude.{ℕ, Bool, Option, none, some, Outcome, returned, thrown, faulted, if◌then◌else◌}
use dchain.Container.Assoc.{find, assign}
use dchain.Server.State.{Server, ClientProfile}

pub record RegisterResponse (Bytes : Type 0) : Type 0 where
  pub id : ℕ
  pub tss_sk : Bytes

module _ {Bytes Key : Type 0} (is_pkey : Bytes → Bool) (key_to_string : Key → Bytes) where
  -- the rest of `Register`, once the client's profile is looked up
  unfoldable pub register_found :
      Server Bytes Key
      → ℕ
      → Bytes
      → Option (ClientProfile Bytes Key)
      → Server Bytes Key × Outcome × Option (RegisterResponse Bytes)
  register_found s client_id pkey none = (s, faulted, none)
  register_found s client_id pkey (some client) = (
    record s { clients = assign s.clients client_id (record client { ecc_pkey = some pkey }) },
    returned,
    some (record { id = client_id; tss_sk = key_to_string client.tss_key }),
  )

  -- `Register`: `is_pkey` is whether `ecdsa::PubKey` accepts the bytes, and it throws otherwise.
  -- To follow the accessor of a client that is not there is a fault.
  unfoldable pub register :
      Server Bytes Key → ℕ → Bytes → Server Bytes Key × Outcome × Option (RegisterResponse Bytes)
  unfolding register_found
  register s client_id pkey =
      if is_pkey pkey
      then register_found s client_id pkey (find s.clients client_id)
      else (s, thrown, none)
