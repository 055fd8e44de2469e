-- ===== src/HashMap/Shrink.antt =====
-- decreaseSize: one round of the loop pushes the entries of a list that goes away to their slots.
use mathlib.Core.Path.{fun_ext}
use gnu_my_server_gso_c.Base.{
  ℕ, ◌<◌, List, [], ◌∷◌, ◌≡◌, sym, ◌∙◌, subst, inl, inr, true, false, arith, if◌then◌else◌, ◌==◌,
  ==_iff, ==_refl, Bool-cases, ltb, set-set,
}
use gnu_my_server_gso_c.HashMap.Types.{Float, Shkv, HashMap}
use gnu_my_server_gso_c.HashMap.Table.{bucket, stamp, live, set_bucket, set_stamp, slot}
use gnu_my_server_gso_c.HashMap.Resize.{push_front, pull_entry, pull, merge_bucket}
use gnu_my_server_gso_c.HashMap.Sum.{update}
use gnu_my_server_gso_c.HashMap.Entries.{arrivals, arrivals_nil, arrivals_one, arrivals_hit}
use gnu_my_server_gso_c.HashMap.Shape.{
  alive, bucket-set, Shape, Frame, Frame-refl, Frame-vectors, Frame-trans, written, alive-written,
  written-Shape, alive-set_bucket, set_bucket-Shape,
}
use gnu_my_server_gso_c.HashMap.Grow.{slot-Frame}

module _ {ℓ} {fl : Float} {K V : Type ℓ} where
  pub record Pulled (n : ℕ) (c : List (Shkv K V)) (m r : HashMap fl K V) : Type ℓ where
    pub shape : Shape n r
    pub frame : Frame m r
    pub lists : (j : ℕ) → alive r j ≡ arrivals (slot m) j c (alive m j)

  module _ {n : ℕ} {m : HashMap fl K V} (v : Shape n m) (e : Shkv K V) (l : slot m e.hash < n) where
    pull_live :
        ltb (stamp m (slot m e.hash)) m.offset ≡ false
        → Pulled n (e ∷ []) m (push_front m (slot m e.hash) e)
    unfolding push_front
    pull_live new =
        let d = slot m e.hash in
        let on : live m d ≡ true = ground arith in
        record {
          shape = set_bucket-Shape v d l (e ∷ bucket m d) (omega arith);
          frame = Frame-vectors m _ _;
          lists = λ j.
              alive-set_bucket v d l on (e ∷ bucket m d) j
              ∙ sym (
                  arrivals_hit (slot m) j e (alive m j) ∙ elim (Bool-cases (d == j)) [
                    | inl here ↦
                        subst
                          (λ j.
                            (if d == j then e ∷ alive m j else alive m j)
                            ≡ update (alive m) d (e ∷ bucket m d) j)
                          ((==_iff d j).0 here) (rw (==_refl d, on))
                    | inr other ↦ rw other
                  ]);
        }

    pull_stale_lem :
        push_front
          (set_bucket (set_stamp m (slot m e.hash) m.offset) (slot m e.hash) [])
          (slot m e.hash)
          e
        ≡ written v (slot m e.hash) l (e ∷ [])
    unfolding push_front
    pull_stale_lem =
        let d = slot m e.hash in
        rw (bucket-set v d l [] d, ==_refl d, set-set m.buckets d [] (e ∷ []))

    pull_stale :
        ltb (stamp m (slot m e.hash)) m.offset ≡ true
        → Pulled n (e ∷ []) m (
            push_front
              (set_bucket (set_stamp m (slot m e.hash) m.offset) (slot m e.hash) [])
              (slot m e.hash)
              e)
    pull_stale stale =
        let d = slot m e.hash in
        let off : live m d ≡ false = ground arith in
        rw pull_stale_lem (record {
          shape = written-Shape v d l (e ∷ []) (omega arith);
          frame = Frame-vectors m _ _;
          lists = λ j.
              alive-written v d l (e ∷ []) j
              ∙ sym (
                  arrivals_hit (slot m) j e (alive m j) ∙ elim (Bool-cases (d == j)) [
                    | inl here ↦
                        subst
                          (λ j.
                            (if d == j then e ∷ alive m j else alive m j)
                            ≡ update (alive m) d (e ∷ []) j)
                          ((==_iff d j).0 here) (rw (==_refl d, off))
                    | inr other ↦ rw other
                  ]);
        })

    pub pull_entry-Pulled : Pulled n (e ∷ []) m (pull_entry e m)
    unfolding pull_entry
    pull_entry-Pulled = elim (Bool-cases (ltb (stamp m (slot m e.hash)) m.offset)) [
      | inl stale ↦ rw stale (pull_stale stale)
      | inr new ↦ rw new (pull_live new)
    ]

  pub pull-Pulled :
      {n : ℕ} (c : List (Shkv K V)) (m : HashMap fl K V)
      → Shape n m
      → ((h : ℕ) → slot m h < n)
      → Pulled n c m (pull c m)
  unfolding pull
  pull-Pulled [] m v below = record {
    shape = v;
    frame = Frame-refl m;
    lists = λ j. sym (arrivals_nil (slot m) j (alive m j));
  }
  pull-Pulled (e ∷ c) m v below =
      let first = pull_entry-Pulled v e (below e.hash) in
      let r = pull_entry e m in
      let slots : slot r ≡ slot m = fun_ext (slot-Frame first.frame) in
      let rest = pull-Pulled c r first.shape (λ h. rw slots (below h)) in
      record {
        shape = rest.shape;
        frame = Frame-trans first.frame rest.frame;
        lists = λ j.
            rest.lists j
            ∙ rw (slots, first.lists j) (sym (arrivals_one (slot m) j e c (alive m j)));
      }

  -- A round of the loop: the lists get the entries of list `i`.
  pub merge_bucket-Pulled :
      {n : ℕ} (i : ℕ) (m : HashMap fl K V)
      → Shape n m
      → ((h : ℕ) → slot m h < n)
      → Pulled n (alive m i) m (merge_bucket i m)
  unfolding merge_bucket
  merge_bucket-Pulled i m v below = elim (Bool-cases (live m i)) [
    | inl on ↦ rw on (pull-Pulled (bucket m i) m v below)
    | inr off ↦ rw off (record {
      shape = v;
      frame = Frame-refl m;
      lists = λ j. sym (arrivals_nil (slot m) j (alive m j));
    })
  ]
