-- ===== src/Scheduler/Queues.antt =====
-- The part of addReadyConnectionImpl and getConnection that works on the array `ready`.
use gnu_my_server_gso_c.Base.{
  ℕ, zero, suc, ◌+◌, ◌-◌, ◌%◌, ◌<◌, min, List, [], ◌∷◌, ◌++◌, ◌||◌, Option, none, some, ◌≡◌, refl,
  inl, inr, arith, ltb, ◌==◌, if◌then◌else◌, get_or, set, length, Bool-cases,
}
use gnu_my_server_gso_c.Base.Int.{ℤ, pos, negsuc}
use gnu_my_server_gso_c.Scheduler.Types.{Connection, Ready}

-- PRIORITY_CLASSES
abbrev pub priority_classes : ℕ
priority_classes = 3

abbrev pub queue : Ready → ℕ → List ℕ
queue r p = get_or r.queues p []

-- `std::max (0, priority)`
abbrev at_least_0 : ℤ → ℕ
at_least_0 (pos n) = n
at_least_0 (negsuc n) = 0

-- `priority == -1 && c->host`
unfoldable pub asked_priority : Connection → ℤ
asked_priority c = elim c.priority [
  | negsuc n ↦ elim c.host_priority [
    | none ↦ c.priority
    | some h ↦ if n == 0 then h else c.priority
  ]
  | pos n ↦ c.priority
]

unfoldable pub class_of : Connection → ℕ
unfolding asked_priority
class_of c = min (priority_classes - 1) (at_least_0 (asked_priority c))

-- `ready[priority].push (c)`
unfoldable pub push : ℕ → ℕ → Ready → Ready
push p c r = record r { queues = set r.queues p (queue r p ++ c ∷ []) }

-- The first if of the loop in getConnection.
unfoldable pub advance : Ready → Ready
advance r =
    if ltb r.current r.done || (length (queue r r.current) == 0)
    then record r { current = (r.current + 1) % priority_classes; done = 0 }
    else r

-- The loop in getConnection, with the number of rounds left.
unfoldable pub pick : ℕ → Ready → Ready × Option ℕ
pick zero r = (r, none)
pick (suc n) r =
    let r' = advance r in
    let rest = pick n r' in
    elim (queue r' r'.current) [
      | [] ↦ rest
      | c ∷ q ↦ (record r' { queues = set r'.queues r'.current q; done = r'.done + 1 }, some c)
    ]

-- There are PRIORITY_CLASSES queues, and one of them is the current one.
pub record Valid (r : Ready) : Type 0 where
  pub classes : length r.queues ≡ priority_classes
  pub within : r.current < priority_classes

module _ {r : Ready} (v : Valid r) where
  pub queues-advance : (advance r).queues ≡ r.queues
  unfolding advance
  queues-advance = ground arith

  pub advance-Valid : Valid (advance r)
  unfolding advance
  advance-Valid = elim (Bool-cases (ltb r.current r.done || (length (queue r r.current) == 0))) [
    | inl moves ↦ rw moves (record { classes = v.classes; within = omega arith })
    | inr stays ↦ rw stays v
  ]

  -- From an empty queue the loop goes on to the next one.
  pub advance_empty :
      queue r r.current ≡ [] → advance r ≡ record r { current = (r.current + 1) % 3; done = 0 }
  unfolding advance
  advance_empty e = elim (Bool-cases (ltb r.current r.done)) [
    | inl late ↦ rw late refl
    | inr early ↦ rw (early, e) refl
  ]

pub pick_here :
    (n : ℕ) (r : Ready) (c : ℕ) (q : List ℕ)
    → queue (advance r) (advance r).current ≡ c ∷ q
    → pick (suc n) r ≡ (
      record {
        queues = set (advance r).queues (advance r).current q;
        current = (advance r).current;
        done = (advance r).done + 1;
      },
      some c,
    )
unfolding pick
pick_here n r c q here = rw (pick, here) refl

pub pick_on :
    (n : ℕ) (r : Ready)
    → queue (advance r) (advance r).current ≡ []
    → pick (suc n) r ≡ pick n (advance r)
unfolding pick
pick_on n r here = rw (pick, here) refl
