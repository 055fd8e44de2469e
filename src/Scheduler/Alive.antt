-- ===== src/Scheduler/Alive.antt =====
-- The table of the connections in the scheduler: waiting, waking up, removing and terminating.
use gnu_my_server_gso_c.Base.{
  ℕ, zero, suc, get_or, ◌+◌, ◌%◌, ◌^◌, ◌<◌, List, [], ◌∷◌, ◌++◌, ==_iff, if◌then◌else◌, Bool, true,
  false, Option, none, some, ◌≡◌, ◌≢◌, refl, ◌∙◌, ap, subst, inl, inr, arith, ◌==◌, length,
  Bool-cases,
}
use mathlib.Core.List.{Mem, mem-cons_self, mem-cons_of_mem}
use mathlib.Core.Logic.Or
use mathlib.Core.Option.{some-injective}
use gnu_my_server_gso_c.HashMap.Types.{Key, Float, Shkv, HashMap}
use gnu_my_server_gso_c.HashMap.Table.{get, size, clear}
use gnu_my_server_gso_c.HashMap.Chain.{find}
use gnu_my_server_gso_c.HashMap.Methods.{put}
use gnu_my_server_gso_c.HashMap.Iterator.{begin, walk}
use gnu_my_server_gso_c.HashMap.Models.{Models}
use gnu_my_server_gso_c.HashMap.Refine.{write, get_lem}
use gnu_my_server_gso_c.HashMap.Laws.{put_lem, clear-Models}
use gnu_my_server_gso_c.HashMap.Walk.{walk_lem}
use gnu_my_server_gso_c.Scheduler.Types.{Scheduler}
use gnu_my_server_gso_c.Scheduler.Queues.{queue, class_of, asked_priority, Valid}
use gnu_my_server_gso_c.Scheduler.Logs.{queue-push, class_of-lt}
use gnu_my_server_gso_c.Scheduler.Operations.{
  add_ready_connection, enqueue, unlock_ready, add_waiting_connection, new_data_read,
  terminate_connections, pop_all, empty_queues, get_connections, get_num_alive_connections, values,
}

not_zero : (c : ℕ) → c ≢ 0 → (c == 0) ≡ false
not_zero c h = ground (arith, h)

size-clear {ℓ} : {fl : Float} {K V : Type ℓ} (m : HashMap fl K V) → size (clear m) ≡ 0
unfolding size clear
size-clear m = elim (Bool-cases ((m.offset + 1) % 2 ^ 32 == 0)) [
  | inl round ↦ rw round refl
  | inr on ↦ rw on refl
]

length-values : (w : List (Shkv ℕ ℕ)) → length (values w) ≡ length w
unfolding values
length-values [] = refl
length-values (x ∷ w) = ap suc (length-values w)

find-Mem : ⦃key : Key ℕ⦄ (q c : ℕ) (w : List (Shkv ℕ ℕ)) → find q w ≡ some c → Mem c (values w)
unfolding values find
find-Mem q c [] e = absurd (cc e)
find-Mem ⦃key⦄ q c (x ∷ w) e = elim (Bool-cases (key.eq x.key q)) [
  | inl same ↦
      subst (λ z. Mem z (x.value ∷ values w)) (some-injective x.value c (rw same at e))
        mem-cons_self
  | inr other ↦ mem-cons_of_mem x.value (find-Mem q c w (rw other at e))
]

no_entry : (q : List ℕ) → pop_all q ≡ []
unfolding pop_all
no_entry [] = refl
no_entry (c ∷ q) = no_entry q

no_queue : (qs : List (List ℕ)) (p : ℕ) → get_or (empty_queues qs) p [] ≡ []
unfolding empty_queues
no_queue [] p = refl
no_queue (q ∷ qs) zero = no_entry q
no_queue (q ∷ qs) (suc p) = no_queue qs p

-- The scheduler `s'` after a connection was handed to the ready queues of `s`.
pub record Handed {fl : Float} (c : ℕ) (s s' : Scheduler fl) : Type 0 where
  pub queues :
      (q : ℕ)
      → queue s'.ready q ≡ queue s.ready q ++ (if class_of (s.store c) == q then c ∷ [] else [])
  pub one_more : s'.permits ≡ s.permits + 1
  pub marked : (s'.store c).scheduled ≡ 1

module _ {fl : Float} ⦃key : Key ℕ⦄ {f : ℕ → Option ℕ} (s : Scheduler fl)
    (v : Models f s.connections) where
  -- A connection with a socket that waits and then has data to read, on a server and without a
  -- handler of its own, is put at the end of the queue of its class, the other queues stay, there is a
  -- permit more, and it is marked as scheduled; the table has it under its handle. The table is
  -- well-formed with a power below 30, and the queues are well-formed.
  pub wait-read :
      (t : Option ℕ) (locks : Bool) (notified : ℕ → Bool) (c handle : ℕ)
      → c ≢ 0
      → (s.store c).handle ≡ some handle
      → s.connections.power < 30
      → notified c ≡ false
      → Valid s.ready
      → Models (write f handle (some c)) (add_waiting_connection t locks c s).connections
        × Handed c s (new_data_read true notified handle (add_waiting_connection t locks c s))
  unfolding add_waiting_connection new_data_read add_ready_connection enqueue unlock_ready class_of
      asked_priority
  wait-read t locks notified c handle alive has room quiet valid =
      let w = put_lem v 0 handle c room in
      let self : key.eq handle handle ≡ true = (key.eq_iff handle handle).1 refl in
      let found : get 0 (put 0 s.connections handle c).0 handle ≡ c =
        get_lem w.0 handle 0 ∙ (rw self refl) in
      let self_c : (c == c) ≡ true = (==_iff c c).1 refl in
      rw (add_waiting_connection, has)
        (
          w.0,
          rw (found, not_zero c alive, quiet)
              (record {
                queues = λ q.
                    rw self_c (
                      queue-push s.ready valid (class_of (s.store c)) (class_of-lt (s.store c)) c
                        q);
                one_more = refl;
                marked = rw self_c refl;
              }),
        )

  -- `newData` for reading on a handle that the table does not have changes nothing.
  pub read-unknown :
      (has_server : Bool) (notified : ℕ → Bool) (handle : ℕ)
      → f handle ≡ none
      → new_data_read has_server notified handle s ≡ s
  unfolding new_data_read
  read-unknown has_server notified handle absent =
      let nothing : get 0 s.connections handle ≡ 0 = get_lem v handle 0 ∙ (rw absent refl) in
      rw nothing refl

  -- getConnections lists as many connections as are alive, every one of the table among them.
  pub get_connections_lem :
      (length (get_connections s) ≡ get_num_alive_connections s)
      × ((q c : ℕ) → f q ≡ some c → Mem c (get_connections s))
  unfolding get_connections get_num_alive_connections
  get_connections_lem =
      let (n, once, reads) = walk_lem v (size s.connections) (omega arith) in
      (
        length-values (walk (size s.connections) s.connections (begin s.connections)) ∙ n,
        λ q c h.
            find-Mem q c (walk (size s.connections) s.connections (begin s.connections))
              (reads q ∙ h),
      )

  -- After terminateConnections no connection waits or is in the table, unless the table's counter
  -- comes round.
  pub terminate_connections_lem :
      (notified allows : ℕ → Bool)
      → s.connections.offset + 1 < 2 ^ 32
      → Models (λ q. none) (terminate_connections notified allows s).connections
        × ((p : ℕ) → queue (terminate_connections notified allows s).ready p ≡ [])
        × (get_num_alive_connections (terminate_connections notified allows s) ≡ 0)
  unfolding terminate_connections get_num_alive_connections
  terminate_connections_lem notified allows early =
      (clear-Models v early, no_queue s.ready.queues, size-clear s.connections)
