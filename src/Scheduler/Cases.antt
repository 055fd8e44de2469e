-- ===== src/Scheduler/Cases.antt =====
-- The two outcomes of the loop in getConnection.
use gnu_my_server_gso_c.Base.{
  ℕ, zero, suc, ◌<◌, List, [], ◌∷◌, false, some, ◌≡◌, refl, sym, subst, inl, inr, ◌⊎◌, arith, ltb,
  ◌==◌, ==_iff, ltb→lt, ◌≢◌, get_or-out, Bool-cases,
}
use gnu_my_server_gso_c.Scheduler.Types.{Ready}
use gnu_my_server_gso_c.Scheduler.Queues.{priority_classes, queue, advance, pick, Valid}
use gnu_my_server_gso_c.Scheduler.Turns.{turn, served, pick_first}

List-cases {ℓ} : {A : Type ℓ} (xs : List A) → (xs ≡ []) ⊎ ((x : A) × (ys : List A) × (xs ≡ x ∷ ys))
List-cases [] = inl refl
List-cases (x ∷ xs) = inr (x, xs, refl)

not_eq : (a b : ℕ) → (a == b) ≡ false → a ≢ b
not_eq a b h e = ground arith

-- The loop of getConnection found every queue empty, or it took the front of one.
pub data Pick (r : Ready) : Type 0 where
  nothing : ((p : ℕ) → queue r p ≡ []) → Pick r
  front :
      (p c : ℕ) (q : List ℕ) (before : ℕ)
      → p < priority_classes
      → queue r p ≡ c ∷ q
      → pick priority_classes r ≡ (served r p q before, some c)
      → Pick r

module _ {r : Ready} (v : Valid r) where
  all_empty :
      queue r (turn r 0) ≡ []
      → queue r (turn r 1) ≡ []
      → queue r (turn r 2) ≡ []
      → (p : ℕ) → queue r p ≡ []
  all_empty a b c p = elim (Bool-cases (ltb p 3)) [
    | inr out ↦ get_or-out r.queues p [] (ground (arith, v.classes))
    | inl within ↦ elim (Bool-cases (p == turn r 0)) [
      | inl zeroth ↦ subst (λ p. queue r p ≡ []) (sym ((==_iff p (turn r 0)).0 zeroth)) a
      | inr not_zeroth ↦ elim (Bool-cases (p == turn r 1)) [
        | inl first ↦ subst (λ p. queue r p ≡ []) (sym ((==_iff p (turn r 1)).0 first)) b
        | inr not_first ↦
            let second : p ≡ turn r 2 = omega (
              arith,
              not_eq p (turn r 0) not_zeroth,
              not_eq p (turn r 1) not_first,
              ltb→lt p 3 within,
            ) in
            subst (λ p. queue r p ≡ []) (sym second) c
      ]
    ]
  ]

  pub Pick-cases : Pick r
  Pick-cases = elim (List-cases (queue r (turn r 0))) [
    | inr (c, q, e) ↦
        front (turn r 0) c q (advance r).done (omega arith) e
          (pick_first 3 r 0 c q v (omega arith) (λ j h. absurd (omega arith)) e)
    | inl a ↦ elim (List-cases (queue r (turn r 1))) [
      | inr (c, q, e) ↦
          front (turn r 1) c q 0 (omega arith) e
            (pick_first 3 r 1 c q v (omega arith) (λ j h. before_one a j h) e)
      | inl b ↦ elim (List-cases (queue r (turn r 2))) [
        | inr (c, q, e) ↦
            front (turn r 2) c q 0 (omega arith) e
              (pick_first 3 r 2 c q v (omega arith) (λ j h. before_two a b j h) e)
        | inl d ↦ nothing (all_empty a b d)
      ]
    ]
  ]
    where
      before_one : queue r (turn r 0) ≡ [] → (j : ℕ) → j < 1 → queue r (turn r j) ≡ []
      before_one a zero h = a
      before_one a (suc j) h = absurd (omega arith)

      before_two :
          queue r (turn r 0) ≡ []
          → queue r (turn r 1) ≡ []
          → (j : ℕ) → j < 2
          → queue r (turn r j) ≡ []
      before_two a b zero h = a
      before_two a b (suc zero) h = b
      before_two a b (suc (suc j)) h = absurd (omega arith)
