-- ===== src/Server/Safety/Defs.antt =====
-- What a turn of a loop leaves behind.
use dchain.Prelude.{◌≢◌, Outcome, returned, thrown, faulted, List}
use dchain.Entity.Block.{Block}
use dchain.Server.State.{Conf, Server}
use dchain.Server.Invariant.{Safe}

abbrev pub NoFault : Outcome → Type 0
NoFault o = o ≢ faulted

pub returned-NoFault : NoFault returned
returned-NoFault = λ e. cc

pub thrown-NoFault : NoFault thrown
thrown-NoFault = λ e. cc

-- Valid and grown, and not ended by a fault.
abbrev pub Runs : {Bytes Key : Type 0} → Conf → List Block → Server Bytes Key × Outcome → Type 0
Runs conf h₀ r = Safe conf h₀ r.0 × NoFault r.1
