-- ===== src/Scheduler/Runs.antt =====
-- Runs of the scheduler as sequences of steps of its threads.
use gnu_my_server_gso_c.Base.{
  ℕ, suc, ◌+◌, ◌≤◌, List, [], ◌∷◌, ◌++◌, Bool, false, Option, none, some, ◌≡◌, ◌==◌, if◌then◌else◌,
  length,
}
use gnu_my_server_gso_c.HashMap.Types.{Key, Float}
use gnu_my_server_gso_c.Scheduler.Types.{Connection, Ready, Scheduler}
use gnu_my_server_gso_c.Scheduler.Queues.{priority_classes, queue, class_of, pick, Valid}
use gnu_my_server_gso_c.Scheduler.Operations.{
  create, register_connection_id, enqueue, unlock_ready, lock_ready, take_ready,
  add_waiting_connection, remove_connection,
}

-- The connections of class `p` in a log of pairs of a class and a connection.
unfoldable pub of_class : ℕ → List (ℕ × ℕ) → List ℕ
of_class p [] = []
of_class p (e ∷ es) = let rest = of_class p es in if e.0 == p then e.1 ∷ rest else rest

-- What a thread takes with an outcome of the loop, with its class.
unfoldable pub taken_by : Ready × Option ℕ → List (ℕ × ℕ)
taken_by (r, none) = []
taken_by (r, some c) = (r.current, c) ∷ []

-- What the thread that has passed the semaphore takes.
unfoldable pub taken : Ready → List (ℕ × ℕ)
unfolding taken_by
taken r = taken_by (pick priority_classes r)

unfoldable pub waiting : Ready → ℕ
waiting r = length (queue r 0) + length (queue r 1) + length (queue r 2)

-- The runs of the threads on one scheduler: the connections queued and those taken, each with its
-- class and in their order, the number `h` of threads between the semaphore and the queues, and the
-- number `u` of threads that have queued a connection and not yet unlocked the semaphore.
pub data Run {fl : Float} ⦃key : Key ℕ⦄
    : List (ℕ × ℕ) → List (ℕ × ℕ) → ℕ → ℕ → Scheduler fl → Type 1 where
  start : (store : ℕ → Connection) → Run [] [] 0 0 (create store)
  queued :
      {a d : List (ℕ × ℕ)} {h u : ℕ} {s : Scheduler fl} (c : ℕ)
      → Run a d h u s
      → Run (a ++ (class_of (s.store c), c) ∷ []) d h (suc u) (enqueue c s)
  unlocked :
      {a d : List (ℕ × ℕ)} {h u : ℕ} {s : Scheduler fl}
      → Run a d h (suc u) s
      → Run a d h u (unlock_ready s)
  wake :
      {a d : List (ℕ × ℕ)} {h u : ℕ} {s : Scheduler fl}
      → Run a d h u s
      → Run a d h u (unlock_ready s)
  lock :
      {a d : List (ℕ × ℕ)} {h u : ℕ} {s s' : Scheduler fl}
      → Run a d h u s
      → lock_ready s ≡ some s'
      → Run a d (suc h) u s'
  take :
      {a d : List (ℕ × ℕ)} {h u : ℕ} {s : Scheduler fl}
      → Run a d (suc h) u s
      → Run a (d ++ taken s.ready) h u (take_ready s).0
  register :
      {a d : List (ℕ × ℕ)} {h u : ℕ} {s : Scheduler fl} (c : ℕ)
      → Run a d h u s
      → Run a d h u (register_connection_id c s)
  wait :
      {a d : List (ℕ × ℕ)} {h u : ℕ} {s : Scheduler fl} (t : Option ℕ) (locks : Bool) (c : ℕ)
      → Run a d h u s
      → Run a d h u (add_waiting_connection t locks c s)
  drop_connection :
      {a d : List (ℕ × ℕ)} {h u : ℕ} {s : Scheduler fl} (c : ℕ)
      → Run a d h u s
      → Run a d h u (remove_connection c s)

-- Between steps: three queues, each class given out in the order in which it was queued, and for every
-- waiting connection a permit, a thread that has passed the semaphore, or one that is to unlock it.
pub record Kept {fl : Float} (a d : List (ℕ × ℕ)) (h u : ℕ) (s : Scheduler fl) : Type 0 where
  pub valid : Valid s.ready
  pub in_order : (p : ℕ) → of_class p d ++ queue s.ready p ≡ of_class p a
  pub enough : waiting s.ready ≤ s.permits + h + u
  pub running : s.releasing ≡ false
