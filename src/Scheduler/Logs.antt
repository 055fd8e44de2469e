-- ===== src/Scheduler/Logs.antt =====
-- What a push and a call of getConnection do to the queues, their lengths and the logs.
use mathlib.Core.List.{append-nil}
use gnu_my_server_gso_c.Base.{
  ℕ, ◌+◌, ◌<◌, List, [], ◌∷◌, ◌++◌, false, Option, ◌≡◌, refl, sym, ◌∙◌, ap, inl, inr, arith, ◌==◌,
  ==_iff, if◌then◌else◌, length, get_or-set, length-set, length-append, Bool-cases,
}
use gnu_my_server_gso_c.HashMap.Types.{Float}
use gnu_my_server_gso_c.Scheduler.Types.{Connection, Ready, Scheduler}
use gnu_my_server_gso_c.Scheduler.Queues.{priority_classes, queue, class_of, push, pick, Valid}
use gnu_my_server_gso_c.Scheduler.Turns.{served}
use gnu_my_server_gso_c.Scheduler.Operations.{hand_out, take_ready}
use gnu_my_server_gso_c.Scheduler.Runs.{of_class, taken_by, taken, waiting}

pub of_class-append :
    (p : ℕ) (xs ys : List (ℕ × ℕ)) → of_class p (xs ++ ys) ≡ of_class p xs ++ of_class p ys
unfolding of_class
of_class-append p [] ys = refl
of_class-append p (e ∷ xs) ys = ground (arith, of_class-append p xs ys)

pub of_class-one : (p q c : ℕ) → of_class p ((q, c) ∷ []) ≡ (if q == p then c ∷ [] else [])
unfolding of_class
of_class-one p q c = refl

pub class_of-lt : (c : Connection) → class_of c < priority_classes
unfolding class_of
class_of-lt c = omega arith

module _ (r : Ready) (v : Valid r) (p : ℕ) (l : p < 3) where
  pub queue-push : (c q : ℕ) → queue (push p c r) q ≡ queue r q ++ (if p == q then c ∷ [] else [])
  unfolding push
  queue-push c q = elim (Bool-cases (p == q)) [
    | inl same ↦
        let e : p ≡ q = (==_iff p q).0 same in
        get_or-set r.queues p q (queue r p ++ c ∷ []) [] (omega (arith, v.classes))
        ∙ (rw (same, ← e) refl)
    | inr other ↦
        get_or-set r.queues p q (queue r p ++ c ∷ []) [] (omega (arith, v.classes))
        ∙ (rw (other, append-nil (queue r q)) refl)
  ]

  pub queue-served :
      (c : ℕ) (rest : List ℕ) (before q : ℕ)
      → queue r p ≡ c ∷ rest
      → (if p == q then c ∷ [] else []) ++ queue (served r p rest before) q ≡ queue r q
  queue-served c rest before q e = elim (Bool-cases (p == q)) [
    | inl same ↦
        let at : p ≡ q = (==_iff p q).0 same in
        rw (get_or-set r.queues p q rest [] (omega (arith, v.classes)), same)
          (sym e ∙ ap (queue r) at)
    | inr other ↦ rw (get_or-set r.queues p q rest [] (omega (arith, v.classes)), other) refl
  ]

pub push-Valid : (r : Ready) → Valid r → (p c : ℕ) → Valid (push p c r)
unfolding push
push-Valid r v p c = record {
  classes = length-set r.queues p (queue r p ++ c ∷ []) ∙ v.classes;
  within = v.within;
}

pub waiting-push :
    (r : Ready) (v : Valid r) (p c : ℕ) → p < 3 → waiting (push p c r) ≡ waiting r + 1
unfolding waiting
waiting-push r v p c l =
    rw
      (
        queue-push r v p l c 0,
        queue-push r v p l c 1,
        queue-push r v p l c 2,
        length-append (queue r 0) (if p == 0 then c ∷ [] else []),
        length-append (queue r 1) (if p == 1 then c ∷ [] else []),
        length-append (queue r 2) (if p == 2 then c ∷ [] else []),
      )
      (grind arith)

pub no_waiting : (r : Ready) → ((p : ℕ) → queue r p ≡ []) → waiting r ≡ 0
unfolding waiting
no_waiting r empty = rw (empty 0, empty 1, empty 2) (omega arith)

pub waiting-served :
    (r : Ready) (v : Valid r) (p c : ℕ) (q : List ℕ) (before : ℕ)
    → p < 3
    → queue r p ≡ c ∷ q
    → waiting (served r p q before) + 1 ≡ waiting r
unfolding waiting
waiting-served r v p c q before l e = grind (arith, part 0, part 1, part 2)
  where
    part :
        (j : ℕ)
        → (if p == j then 1 else 0) + length (queue (served r p q before) j) ≡ length (queue r j)
    part j = ground (arith, ap length (queue-served r v p l c q before j e))

pub take_ready_lem :
    {fl : Float} (s : Scheduler fl) (o : Ready × Option ℕ)
    → s.releasing ≡ false
    → pick priority_classes s.ready ≡ o
    → (take_ready s ≡ hand_out s o) × (taken s.ready ≡ taken_by o)
unfolding take_ready taken
take_ready_lem s o run e = (
  ap (λ b. if b then (s, 0) else hand_out s (pick priority_classes s.ready)) run
      ∙ ap (hand_out s) e,
  ap taken_by e,
)
