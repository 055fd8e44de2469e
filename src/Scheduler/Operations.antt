-- ===== src/Scheduler/Operations.antt =====
-- The methods of class ConnectionsScheduler. `server` is null or not, and what the methods read of it
-- is a parameter; `checkThreadsNumber`, `notifyDeleteConnection` and `deleteConnection` of Server
-- change nothing of this class. What a mutex protects is one step. Connection 0 is the null pointer.
use gnu_my_server_gso_c.Base.{
  ℕ, zero, suc, ◌+◌, ◌*◌, ◌/◌, ◌%◌, ◌^◌, List, [], ◌∷◌, ◌++◌, Bool, true, false, Option, none, some,
  ◌==◌, if◌then◌else◌, replicate,
}
use gnu_my_server_gso_c.HashMap.Types.{Key, Float, Shkv}
use gnu_my_server_gso_c.HashMap.Table.{get, clear, size}
use gnu_my_server_gso_c.HashMap.Methods.{new, put, remove}
use gnu_my_server_gso_c.HashMap.Iterator.{begin, walk}
use gnu_my_server_gso_c.Scheduler.Types.{Connection, Ready, Message, Scheduler}
use gnu_my_server_gso_c.Scheduler.Queues.{priority_classes, class_of, push, pick}

-- `c->setScheduled (np)`
abbrev pub set_scheduled : (ℕ → Connection) → ℕ → ℕ → ℕ → Connection
set_scheduled store c np a = if a == c then record (store a) { scheduled = np } else store a

-- `connection->setID (id)`
abbrev pub set_id : (ℕ → Connection) → ℕ → ℕ → ℕ → Connection
set_id store c n a = if a == c then record (store a) { id = n } else store a

-- The new `tv.tv_sec`.
unfoldable pub seconds : Option ℕ → ℕ
seconds none = 30
seconds (some server_timeout) = server_timeout / 1000000

unfoldable pub values : List (Shkv ℕ ℕ) → List ℕ
values [] = []
values (e ∷ es) = e.value ∷ values es

-- The loop of terminateConnections over the table: the handles of the sockets that it closes.
unfoldable pub closes : (ℕ → Bool) → (ℕ → Bool) → (ℕ → Connection) → List ℕ → List ℕ
closes notified allows store [] = []
closes notified allows store (c ∷ cs) =
    let rest = closes notified allows store cs in
    if notified c
    then rest
    else if allows c
    then elim (store c).handle [ none ↦ rest | some handle ↦ handle ∷ rest ]
    else rest

-- `while (ready[i].size ()) ready[i].pop ()`
unfoldable pub pop_all : List ℕ → List ℕ
pop_all [] = []
pop_all (c ∷ q) = pop_all q

unfoldable pub empty_queues : List (List ℕ) → List (List ℕ)
unfolding pop_all
empty_queues [] = []
empty_queues (q ∷ qs) = pop_all q ∷ empty_queues qs

module _ {fl : Float} where
  -- The constructor. `releasing` is set by `initialize`, which `restart` calls too.
  unfoldable pub create : (ℕ → Connection) → Scheduler fl
  create store = record {
    ready = record { queues = replicate priority_classes []; current = 0; done = 0 };
    permits = 0;
    releasing = false;
    terminate = false;
    n_total_connections = 0;
    connections = new;
    store = store;
    messages = [];
    events = [];
    timeout = 10;
    closed = [];
  }

  -- restart: a new semaphore, and `initialize`, which clears the flags unless the socket pair cannot
  -- be created. The queues and the table stay.
  unfoldable pub restart : Bool → Scheduler fl → Scheduler fl
  restart has_pair s = record s {
    permits = 0;
    terminate = false;
    releasing = if has_pair then false else s.releasing;
  }

  unfoldable pub register_connection_id : ℕ → Scheduler fl → Scheduler fl
  register_connection_id c s = record s {
    store = set_id s.store c s.n_total_connections;
    n_total_connections = (s.n_total_connections + 1) % 2 ^ 64;
  }

  -- addReadyConnectionImpl up to `readyMutex.unlock ()`.
  unfoldable pub enqueue : ℕ → Scheduler fl → Scheduler fl
  enqueue c s = record s {
    store = set_scheduled s.store c 1;
    ready = push (class_of (s.store c)) c s.ready;
  }

  -- `readySemaphore->unlock ()`, at the end of addReadyConnectionImpl and in the listeners after a
  -- time-out.
  unfoldable pub unlock_ready : Scheduler fl → Scheduler fl
  unlock_ready s = record s { permits = s.permits + 1 }

  -- addReadyConnection, addNewReadyConnection and addReadyConnectionImpl, without other threads.
  unfoldable pub add_ready_connection : ℕ → Scheduler fl → Scheduler fl
  unfolding enqueue unlock_ready
  add_ready_connection c s = unlock_ready (enqueue c s)

  -- getConnection up to `readySemaphore->lock ()`: `none` while the semaphore blocks.
  unfoldable pub lock_ready : Scheduler fl → Option (Scheduler fl)
  lock_ready s = elim s.permits [ zero ↦ none | suc n ↦ some (record s { permits = n }) ]

  -- What getConnection does with the outcome of its loop. The result 0 is NULL.
  unfoldable pub hand_out : Scheduler fl → Ready × Option ℕ → Scheduler fl × ℕ
  hand_out s (r, none) = (record s { ready = r }, 0)
  hand_out s (r, some c) = (record s { ready = r; store = set_scheduled s.store c 0 }, c)

  -- getConnection after the semaphore.
  unfoldable pub take_ready : Scheduler fl → Scheduler fl × ℕ
  unfolding hand_out
  take_ready s = if s.releasing then (s, 0) else hand_out s (pick priority_classes s.ready)

  -- getConnection goes on when the semaphore lets it through.
  unfoldable pub resume : Option (Scheduler fl) → Option (Scheduler fl × ℕ)
  unfolding take_ready
  resume none = none
  resume (some s) = some (take_ready s)

  unfoldable pub get_connection : Scheduler fl → Option (Scheduler fl × ℕ)
  unfolding lock_ready resume
  get_connection s = if s.releasing then some (s, 0) else resume (lock_ready s)

  module _ ⦃key : Key ℕ⦄ where
    -- addWaitingConnection (`lock` is 1) and addNewWaitingConnection (`lock` is 0);
    -- `server_timeout` is `server->getTimeout ()` if there is a server. Without a socket the call
    -- is undefined in C++; here it changes nothing.
    unfoldable pub add_waiting_connection : Option ℕ → Bool → ℕ → Scheduler fl → Scheduler fl
    unfolding seconds
    add_waiting_connection server_timeout lock c s = elim (s.store c).handle [
      | none ↦ s
      | some handle ↦ record s {
        timeout = seconds server_timeout;
        store = set_scheduled s.store c 0;
        connections = (put 0 s.connections handle c).0;
        messages =
            if lock
            then s.messages ++ Message.watch handle c (seconds server_timeout) ∷ []
            else s.messages;
        events = if lock then s.events else s.events ++ handle ∷ [];
      }
    ]

    -- newData for EV_READ: `notified` is what the connection's own handler answers.
    unfoldable pub new_data_read : Bool → (ℕ → Bool) → ℕ → Scheduler fl → Scheduler fl
    new_data_read has_server notified handle s =
        let c = get 0 s.connections handle in
        if c == 0
        then s
        else if has_server
        then (if notified c then s else add_ready_connection c s)
        else s

    unfoldable pub remove_connection : ℕ → Scheduler fl → Scheduler fl
    remove_connection c s = elim (s.store c).handle [
      | none ↦ s
      | some handle ↦ record s { connections = (remove 0 s.connections handle).0 }
    ]

    -- terminateConnections: `notified` is what the handlers of the connections answer, `allows` what
    -- `allowDelete (true)` does.
    unfoldable pub terminate_connections : (ℕ → Bool) → (ℕ → Bool) → Scheduler fl → Scheduler fl
    unfolding closes values empty_queues
    terminate_connections notified allows s =
        let all = values (walk (size s.connections) s.connections (begin s.connections)) in
        record s {
          closed = s.closed ++ closes notified allows s.store all;
          connections = clear s.connections;
          ready = record (s.ready) { queues = empty_queues s.ready.queues };
        }

    -- release, with twice the number of threads as permits, up to the joins and event_del.
    unfoldable pub release : (ℕ → Bool) → (ℕ → Bool) → ℕ → Scheduler fl → Scheduler fl
    unfolding terminate_connections
    release notified allows threads s = terminate_connections notified allows (record s {
      releasing = true;
      terminate = true;
      permits = s.permits + threads * 2;
      messages = s.messages ++ Message.wake ∷ [];
    })

  -- getConnections: the elements from begin to end.
  unfoldable pub get_connections : Scheduler fl → List ℕ
  unfolding values
  get_connections s = values (walk (size s.connections) s.connections (begin s.connections))

  unfoldable pub get_num_alive_connections : Scheduler fl → ℕ
  get_num_alive_connections s = size s.connections
