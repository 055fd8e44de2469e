-- ===== src/Scheduler/Turns.antt =====
-- Which connection getConnection takes: the front of the first queue that is not empty, in turn.
use gnu_my_server_gso_c.Base.{
  ℕ, zero, suc, ◌+◌, ◌%◌, ◌<◌, List, [], ◌∷◌, none, some, ◌≡◌, refl, sym, ◌∙◌, ap, arith, ◌==◌,
  if◌then◌else◌, set,
}
use gnu_my_server_gso_c.Scheduler.Types.{Ready}
use gnu_my_server_gso_c.Scheduler.Queues.{
  priority_classes, queue, advance, pick, Valid, queues-advance, advance-Valid, advance_empty,
  pick_here, pick_on,
}

-- The classes in the order in which the loop looks at their queues.
abbrev pub turn : Ready → ℕ → ℕ
turn r k = ((advance r).current + k) % priority_classes

-- What is left of the array when the front of a queue is taken: its class is the current one.
abbrev pub served : Ready → ℕ → List ℕ → ℕ → Ready
served r p q before = record { queues = set r.queues p q; current = p; done = before + 1 }

module _ {r : Ready} (v : Valid r) where
  queue-advance : (p : ℕ) → queue (advance r) p ≡ queue r p
  queue-advance p = rw (queues-advance v) refl

  turn_zero : turn r 0 ≡ (advance r).current
  turn_zero = omega (arith, (advance-Valid v).within)

  turn-suc : queue r (turn r 0) ≡ [] → (k : ℕ) → turn (advance r) k ≡ turn r (suc k)
  turn-suc e k =
      let here : queue (advance r) (advance r).current ≡ [] =
        queue-advance (advance r).current ∙ ap (queue r) (sym turn_zero) ∙ e in
      rw (advance_empty (advance-Valid v) here) (omega arith)

  here_first : (c : List ℕ) → queue r (turn r 0) ≡ c → queue (advance r) (advance r).current ≡ c
  here_first c e = queue-advance (advance r).current ∙ ap (queue r) (sym turn_zero) ∙ e

  -- Past an empty queue, the array has started again with the next class.
  past_empty : queue r (turn r 0) ≡ [] → (advance (advance r)).done ≡ 0
  past_empty e = rw (advance_empty (advance-Valid v) (here_first [] e)) refl

pub pick_first :
    (n : ℕ) (r : Ready) (k c : ℕ) (q : List ℕ)
    → Valid r
    → k < n
    → ((j : ℕ) → j < k → queue r (turn r j) ≡ [])
    → queue r (turn r k) ≡ c ∷ q
    → pick n r ≡ (served r (turn r k) q (if k == 0 then (advance r).done else 0), some c)
pick_first zero r k c q v l empty e = absurd (omega arith)
pick_first (suc n) r zero c q v l empty e =
    pick_here n r c q (here_first v (c ∷ q) e) ∙ (rw (queues-advance v, turn_zero v) refl)
pick_first (suc n) r (suc k) c q v l empty e =
    let first = empty 0 (omega arith) in
    let done_0 : (if k == 0 then (advance (advance r)).done else 0) ≡ 0 =
      rw (past_empty v first) (ground arith) in
    let not_first : (if suc k == 0 then (advance r).done else 0) ≡ 0 = ground arith in
    let ih =
      pick_first n (advance r) k c q (advance-Valid v) (omega arith)
        (λ j h.
          queue-advance v (turn (advance r) j)
          ∙ ap (queue r) (turn-suc v first j)
          ∙ empty (suc j) (omega arith))
        (queue-advance v (turn (advance r) k) ∙ ap (queue r) (turn-suc v first k) ∙ e) in
    pick_on n r (here_first v [] first)
    ∙ ih
    ∙ (rw (done_0, not_first, turn-suc v first k, queues-advance v) refl)

-- Where all the queues are empty, getConnection takes no connection.
pub pick-none :
    (n : ℕ) (r : Ready)
    → Valid r
    → ((p : ℕ) → queue r p ≡ [])
    → (r' : Ready) × (pick n r ≡ (r', none)) × (r'.queues ≡ r.queues) × Valid r'
unfolding pick
pick-none zero r v empty = (r, refl, refl, v)
pick-none (suc n) r v empty =
    let (r', e, same, v') =
      pick-none n (advance r) (advance-Valid v) (λ p. queue-advance v p ∙ empty p) in
    let here = queue-advance v (advance r).current ∙ empty (advance r).current in
    (r', pick_on n r here ∙ e, same ∙ queues-advance v, v')
