-- ===== src/Scheduler/Types.antt =====
-- The state of class ConnectionsScheduler, and what it reads of a Connection.
use gnu_my_server_gso_c.Base.{ℕ, List, Bool, Option}
use gnu_my_server_gso_c.Base.Int.{ℤ}
use gnu_my_server_gso_c.HashMap.Types.{Float, HashMap}

-- `handle` is that of the socket, if there is one; `host_priority` is `host->getDefaultPriority ()`,
-- if there is a host.
pub record Connection : Type 0 where
  pub id : ℕ
  pub scheduled : ℕ
  pub priority : ℤ
  pub host_priority : Option ℤ
  pub handle : Option ℕ

-- The array `ready` with currentPriority and currentPriorityDone. A connection is known by its
-- address.
pub record Ready : Type 0 where
  pub queues : List (List ℕ)
  pub current : ℕ
  pub done : ℕ

-- What is written to the socket pair.
pub data Message : Type 0 where
  watch : (handle connection timeout : ℕ) → Message
  wake : Message

-- `permits` is the count of readySemaphore, `store` holds the connections by address, `events` the
-- handles that were passed to event_once. `timeout` is tv.tv_sec. `closed` has the
-- handles of the sockets that terminateConnections closed.
pub record Scheduler (fl : Float) : Type 0 where
  pub ready : Ready
  pub permits : ℕ
  pub releasing : Bool
  pub terminate : Bool
  pub n_total_connections : ℕ
  pub connections : HashMap fl ℕ ℕ
  pub store : ℕ → Connection
  pub messages : List Message
  pub events : List ℕ
  pub timeout : ℕ
  pub closed : List ℕ
