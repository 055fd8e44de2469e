-- ===== src/Scheduler/Calls.antt =====
-- What one whole call of getConnection does.
use gnu_my_server_gso_c.Base.{
  ℕ, zero, suc, ◌+◌, List, ◌∷◌, true, false, Option, none, some, ◌≡◌, refl, ◌∙◌, ap, arith, set,
  if◌then◌else◌, inl, inr, Bool-cases, ==_refl,
}
use gnu_my_server_gso_c.HashMap.Types.{Float}
use gnu_my_server_gso_c.Scheduler.Types.{Scheduler}
use gnu_my_server_gso_c.Scheduler.Queues.{priority_classes, queue, Valid}
use gnu_my_server_gso_c.Scheduler.Turns.{served, pick-none}
use gnu_my_server_gso_c.Scheduler.Cases.{nothing, front, Pick-cases}
use gnu_my_server_gso_c.Scheduler.Operations.{
  hand_out, lock_ready, get_connection, resume, set_scheduled,
}
use gnu_my_server_gso_c.Scheduler.Runs.{waiting}
use gnu_my_server_gso_c.Scheduler.Logs.{take_ready_lem, no_waiting, waiting-served}

-- The outcomes of a call: NULL at once on a release, a wait for the semaphore, NULL with a permit
-- used up when no connection waits, or the front of a queue.
pub data Call {fl : Float} (s : Scheduler fl) : Type 1 where
  released : s.releasing ≡ true → get_connection s ≡ some (s, 0) → Call s
  blocked : s.releasing ≡ false → s.permits ≡ 0 → get_connection s ≡ none → Call s
  idle :
      (s' : Scheduler fl)
      → waiting s.ready ≡ 0
      → get_connection s ≡ some (s', 0)
      → s'.permits + 1 ≡ s.permits
      → Call s
  given :
      (s' : Scheduler fl) (p c : ℕ) (q : List ℕ)
      → queue s.ready p ≡ c ∷ q
      → get_connection s ≡ some (s', c)
      → s'.ready.queues ≡ set s.ready.queues p q
      → s'.permits + 1 ≡ s.permits
      → waiting s'.ready + 1 ≡ waiting s.ready
      → (s'.store c).scheduled ≡ 0
      → Call s

running_call :
    {fl : Float} (s : Scheduler fl) → s.releasing ≡ false → get_connection s ≡ resume (lock_ready s)
unfolding get_connection
running_call s run = ap (λ b. if b then some (s, 0) else resume (lock_ready s)) run

released_call :
    {fl : Float} (s : Scheduler fl) → s.releasing ≡ true → get_connection s ≡ some (s, 0)
unfolding get_connection
released_call s release = ap (λ b. if b then some (s, 0) else resume (lock_ready s)) release

permit : {fl : Float} → Scheduler fl → ℕ → Option (Scheduler fl)
permit s zero = none
permit s (suc n) = some (record s { permits = n })

lock_ready-permit : {fl : Float} (s : Scheduler fl) → lock_ready s ≡ permit s s.permits
unfolding lock_ready permit
lock_ready-permit {fl = fl} s = by_permits s.permits
  where
    by_permits :
        (n : ℕ)
        → (elim n as (λ n. Option (Scheduler fl)) [
          | zero ↦ none
          | suc k ↦ some (record s { permits = k })
        ])
          ≡ permit s n
    by_permits zero = refl
    by_permits (suc n) = refl

-- With three queues, a call of getConnection returns NULL at once on a release, waits while the
-- semaphore has no permit, returns NULL where no connection waits, and else returns the front of a
-- queue, which leaves it, and uses up one permit: it never returns NULL while a connection waits,
-- unless the scheduler is being released.
pub get_connection-Call : {fl : Float} (s : Scheduler fl) → Valid s.ready → Call s
unfolding permit resume hand_out
get_connection-Call s v = elim (Bool-cases s.releasing) [
  | inl release ↦ released release (released_call s release)
  | inr run ↦ locked s.permits refl run
]
  where
    locked : (n : ℕ) → s.permits ≡ n → s.releasing ≡ false → Call s
    locked zero e run =
        blocked run e (running_call s run ∙ ap resume (lock_ready-permit s ∙ ap (permit s) e))
    locked (suc n) e run =
        let call = running_call s run ∙ ap resume (lock_ready-permit s ∙ ap (permit s) e) in
        elim (Pick-cases v) [
          | nothing empty ↦
              let (r, pick_e, same, v') = pick-none priority_classes s.ready v empty in
              let t = (take_ready_lem (record s { permits = n }) (r, none) run pick_e).0 in
              idle (record s { permits = n; ready = r }) (no_waiting s.ready empty)
                (call ∙ ap some t) (omega (arith, e))
          | front p c q before l queue_e pick_e ↦
              let r = served s.ready p q before in
              let t = (take_ready_lem (record s { permits = n }) (r, some c) run pick_e).0 in
              given (record s { permits = n; ready = r; store = set_scheduled s.store c 0 }) p c q
                queue_e (call ∙ ap some t) refl (omega (arith, e))
                (waiting-served s.ready v p c q before l queue_e) (rw (==_refl c) refl)
        ]
