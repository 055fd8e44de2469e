-- ===== src/Scheduler/Tests.antt =====
-- Runs of the scheduler with two connections.
use gnu_my_server_gso_c.Base.{
  ℕ, if◌then◌else◌, ◌==◌, ◌+◌, ◌^◌, ◌<◌, [], ◌∷◌, true, false, Option, none, some, ◌≡◌, refl, arith,
}
use gnu_my_server_gso_c.Base.Int.{pos, negsuc}
use gnu_my_server_gso_c.HashMap.Samples.{letter, thousandths}
use gnu_my_server_gso_c.HashMap.Methods.{new, with_power, put, grow, add_entry}
use gnu_my_server_gso_c.HashMap.Table.{search_in, slot, hash, mask_of}
use gnu_my_server_gso_c.HashMap.Hash.{elf_hash}
use gnu_my_server_gso_c.HashMap.Resize.{push_front}
use gnu_my_server_gso_c.HashMap.Models.{Models}
use gnu_my_server_gso_c.HashMap.Refine.{write}
use gnu_my_server_gso_c.HashMap.Create.{new_lem}
use gnu_my_server_gso_c.Scheduler.Types.{Connection, Ready, Scheduler}
use gnu_my_server_gso_c.Scheduler.Queues.{queue, class_of, asked_priority, Valid}
use gnu_my_server_gso_c.Scheduler.Operations.{
  create, add_ready_connection, enqueue, unlock_ready, add_waiting_connection, new_data_read,
  lock_ready, terminate_connections, get_num_alive_connections,
}
use gnu_my_server_gso_c.Scheduler.Runs.{Kept, start, queued, unlocked, lock}
use gnu_my_server_gso_c.Scheduler.Order.{Run-Kept}
use gnu_my_server_gso_c.Scheduler.Calls.{Call, get_connection-Call}
use gnu_my_server_gso_c.Scheduler.Alive.{Handed, wait-read, terminate_connections_lem}

-- Connection 1 has the lowest class, the others ask for their host's, the highest.
abbrev connections : ℕ → Connection
connections n =
    if n == 1
    then record { id = 0; scheduled = 0; priority = pos 0; host_priority = none; handle = some 5 }
    else record {
      id = 0;
      scheduled = 0;
      priority = negsuc 0;
      host_priority = some (pos 7);
      handle = some 6;
    }

abbrev started : Scheduler thousandths
started = create connections

abbrev two_ready : Ready
two_ready = record { queues = (1 ∷ []) ∷ [] ∷ (2 ∷ []) ∷ []; current = 0; done = 1 }

two_ready-Valid : Valid two_ready
two_ready-Valid = record { classes = refl; within = omega arith }

run_example : Kept ((2, 2) ∷ []) [] 1 0 (record (add_ready_connection 2 started) { permits = 0 })
unfolding class_of asked_priority lock_ready add_ready_connection enqueue unlock_ready create
run_example = Run-Kept (lock (unlocked (queued 2 (start connections))) locked)
  where
    locked :
        lock_ready (add_ready_connection 2 started)
        ≡ some (record (add_ready_connection 2 started) { permits = 0 })
    locked = refl

no_connection : ℕ → Option ℕ
no_connection q = none

started-Models : Models no_connection started.connections
unfolding create no_connection
started-Models = (new_lem (pos 0) 750 (omega arith)).0

small_table : started.connections.power < 30
unfolding create new with_power
small_table = omega arith

started-Valid : Valid started.ready
unfolding create
started-Valid = record { classes = refl; within = omega arith }

wait-read_example :
    Models (write no_connection 6 (some 2)) (add_waiting_connection none true 2 started).connections
    × Handed 2 started
        (new_data_read true (λ c. false) 6 (add_waiting_connection none true 2 started))
unfolding create
wait-read_example =
    wait-read started started-Models none true (λ c. false) 2 6 (λ e. omega (arith, e)) refl
      small_table refl started-Valid

one_waits :
    Models (write no_connection 6 (some 2)) (add_waiting_connection none true 2 started).connections
one_waits = wait-read_example.0

-- Connection 2 waits on its socket 6.
abbrev one_waiting : Scheduler thousandths
one_waiting = add_waiting_connection none true 2 started

still_early : one_waiting.connections.offset + 1 < 2 ^ 32
unfolding create new with_power add_waiting_connection put search_in slot hash elf_hash letter
    mask_of grow add_entry push_front
still_early = omega arith

terminate_connections_example :
    Models no_connection (terminate_connections (λ c. false) (λ c. true) one_waiting).connections
    × ((p : ℕ) → queue (terminate_connections (λ c. false) (λ c. true) one_waiting).ready p ≡ [])
    × (get_num_alive_connections (terminate_connections (λ c. false) (λ c. true) one_waiting) ≡ 0)
unfolding no_connection
terminate_connections_example =
    terminate_connections_lem one_waiting one_waits (λ c. false) (λ c. true) still_early

abbrev ready_two : Scheduler thousandths
ready_two = record started { ready = two_ready; permits = 1 }

get_connection_example : Call ready_two
get_connection_example = get_connection-Call ready_two two_ready-Valid
