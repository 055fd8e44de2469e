-- ===== src/Scheduler/Order.antt =====
-- What every run of the scheduler keeps.
use mathlib.Core.List.{append-nil, append_assoc}
use mathlib.Core.Option.{some-injective}
use gnu_my_server_gso_c.Base.{
  ℕ, zero, suc, ◌-◌, ◌≤◌, List, [], ◌∷◌, ◌++◌, Bool, Option, none, some, ◌≡◌, refl, sym, ◌∙◌, ap,
  inl, inr, arith, ◌==◌, if◌then◌else◌, get_or, get_or-replicate, length-set, Option-cases,
}
use gnu_my_server_gso_c.HashMap.Types.{Key, Float}
use gnu_my_server_gso_c.Scheduler.Types.{Connection, Scheduler}
use gnu_my_server_gso_c.Scheduler.Queues.{queue, class_of}
use gnu_my_server_gso_c.Scheduler.Turns.{served, pick-none}
use gnu_my_server_gso_c.Scheduler.Cases.{nothing, front, Pick-cases}
use gnu_my_server_gso_c.Scheduler.Operations.{
  hand_out, create, register_connection_id, enqueue, unlock_ready, lock_ready, take_ready,
  add_waiting_connection, remove_connection,
}
use gnu_my_server_gso_c.Scheduler.Runs.{
  of_class, taken_by, taken, waiting, Run, Kept, start, queued, unlocked, wake, lock, take,
  register, wait, drop_connection,
}
use gnu_my_server_gso_c.Scheduler.Logs.{
  of_class-append, of_class-one, class_of-lt, queue-push, queue-served, push-Valid, waiting-push,
  no_waiting, waiting-served, take_ready_lem,
}

module _ {fl : Float} {a d : List (ℕ × ℕ)} {h u : ℕ} where
  -- A step that leaves the queues, the permits and the flag alone.
  Kept-frame :
      {s s' : Scheduler fl}
      → s'.ready ≡ s.ready
      → s'.permits ≡ s.permits
      → s'.releasing ≡ s.releasing
      → Kept a d h u s
      → Kept a d h u s'
  Kept-frame r p l k = record {
    valid = rw r k.valid;
    in_order = rw r k.in_order;
    enough = rw (r, p) k.enough;
    running = l ∙ k.running;
  }

  Kept-enqueue :
      {s : Scheduler fl} (c : ℕ)
      → Kept a d h u s
      → Kept (a ++ (class_of (s.store c), c) ∷ []) d h (suc u) (enqueue c s)
  unfolding enqueue
  Kept-enqueue {s = s} c k =
      let p = class_of (s.store c) in
      let l = class_of-lt (s.store c) in
      record {
        valid = push-Valid s.ready k.valid p c;
        in_order = λ q.
            rw
              (
                queue-push s.ready k.valid p l c q,
                of_class-append q a ((p, c) ∷ []),
                of_class-one q p c,
              )
              (sym (append_assoc (of_class q d) (queue s.ready q) (if p == q then c ∷ [] else []))
                ∙ ap (λ x. x ++ (if p == q then c ∷ [] else [])) (k.in_order q));
        enough = omega (arith, waiting-push s.ready k.valid p c l, k.enough);
        running = k.running;
      }

  Kept-take :
      {s : Scheduler fl} → Kept a d (suc h) u s → Kept a (d ++ taken s.ready) h u (take_ready s).0
  unfolding hand_out taken_by
  Kept-take {s = s} k = elim (Pick-cases k.valid) [
    | nothing empty ↦
        let (r, e, same, v) = pick-none 3 s.ready k.valid empty in
        let (t, log) = take_ready_lem s (r, none) k.running e in
        let again : (p : ℕ) → queue r p ≡ queue s.ready p = λ p. ap (λ qs. get_or qs p []) same in
        rw (t, log, append-nil d)
          (record {
            valid = v;
            in_order = λ p. ap (λ x. of_class p d ++ x) (again p) ∙ k.in_order p;
            enough = omega (arith, no_waiting r (λ p. again p ∙ empty p));
            running = k.running;
          })
    | front p c q before l e pick_e ↦
        let r = served s.ready p q before in
        let (t, log) = take_ready_lem s (r, some c) k.running pick_e in
        rw (t, log)
          (record {
            valid = record {
              classes = length-set s.ready.queues p q ∙ k.valid.classes;
              within = l;
            };
            in_order = λ j.
                rw (of_class-append j d ((p, c) ∷ []), of_class-one j p c)
                  (append_assoc (of_class j d) (if p == j then c ∷ [] else []) (queue r j)
                    ∙ ap (λ x. of_class j d ++ x) (queue-served s.ready k.valid p l c q before j e)
                    ∙ k.in_order j);
            enough = omega (arith, waiting-served s.ready k.valid p c q before l e, k.enough);
            running = k.running;
          })
  ]

-- The fields that the order of the ready connections depends on.
Untouched : {fl : Float} → Scheduler fl → Scheduler fl → Type 0
Untouched s s' = (s'.ready ≡ s.ready) × (s'.permits ≡ s.permits) × (s'.releasing ≡ s.releasing)

lock_ready_lem :
    {fl : Float} (n : ℕ) (s s' : Scheduler fl)
    → s.permits ≡ n
    → lock_ready s ≡ some s'
    → (s' ≡ record s { permits = n - 1 }) × (1 ≤ n)
unfolding lock_ready
lock_ready_lem zero s s' e h = absurd (cc (rw (lock_ready, e) at h))
lock_ready_lem (suc n) s s' e h = (
  sym (some-injective (record s { permits = n }) s' (rw (lock_ready, e) at h))
      ∙ ap (λ k. record s { permits = k }) (omega arith),
  omega arith,
)

module _ (fl : Float) (store : ℕ → Connection) where
  none_waits : waiting (create {fl = fl} store).ready ≡ 0
  unfolding create waiting
  none_waits = refl

  create-order : (p : ℕ) → queue (create {fl = fl} store).ready p ≡ []
  unfolding create
  create-order p = get_or-replicate 3 p []

module _ {fl : Float} ⦃key : Key ℕ⦄ where
  wait_frame :
      (t : Option ℕ) (locks : Bool) (c : ℕ) (s : Scheduler fl)
      → Untouched s (add_waiting_connection t locks c s)
  unfolding add_waiting_connection Untouched
  wait_frame t locks c s = elim (Option-cases (s.store c).handle) [
    | inl e ↦ rw (add_waiting_connection, e) (refl, refl, refl)
    | inr (handle, e) ↦ rw (add_waiting_connection, e) (refl, refl, refl)
  ]

  drop_frame : (c : ℕ) (s : Scheduler fl) → Untouched s (remove_connection c s)
  unfolding remove_connection Untouched
  drop_frame c s = elim (Option-cases (s.store c).handle) [
    | inl e ↦ rw (remove_connection, e) (refl, refl, refl)
    | inr (handle, e) ↦ rw (remove_connection, e) (refl, refl, refl)
  ]

  -- In every run of the threads, without release: the connections of each class are given out in the
  -- order in which they were queued, those not yet given out wait in its queue, and no more connections
  -- wait than there are permits, threads that have passed the semaphore on their way to the queues, and
  -- threads that have queued a connection and are to unlock the semaphore.
  pub Run-Kept : {a d : List (ℕ × ℕ)} {h u : ℕ} {s : Scheduler fl} → Run a d h u s → Kept a d h u s
  unfolding create unlock_ready register_connection_id of_class Untouched
  Run-Kept (start store) = record {
    valid = record { classes = refl; within = omega arith };
    in_order = create-order fl store;
    enough = omega (arith, none_waits fl store);
    running = refl;
  }
  Run-Kept (queued c r) = Kept-enqueue c (Run-Kept r)
  Run-Kept (unlocked r) =
      let k = Run-Kept r in
      record {
        valid = k.valid;
        in_order = k.in_order;
        enough = omega (arith, k.enough);
        running = k.running;
      }
  Run-Kept (wake r) =
      let k = Run-Kept r in
      record {
        valid = k.valid;
        in_order = k.in_order;
        enough = omega (arith, k.enough);
        running = k.running;
      }
  Run-Kept (lock {s = s} {s' = s'} r e) =
      let k = Run-Kept r in
      let (l, one) = lock_ready_lem s.permits s s' refl e in
      rw l (record {
        valid = k.valid;
        in_order = k.in_order;
        enough = omega (arith, k.enough, one);
        running = k.running;
      })
  Run-Kept (take r) = Kept-take (Run-Kept r)
  Run-Kept (register c r) = Kept-frame refl refl refl (Run-Kept r)
  Run-Kept (wait {s = s} t locks c r) =
      let (e, p, l) = wait_frame t locks c s in Kept-frame e p l (Run-Kept r)
  Run-Kept (drop_connection {s = s} c r) =
      let (e, p, l) = drop_frame c s in Kept-frame e p l (Run-Kept r)
