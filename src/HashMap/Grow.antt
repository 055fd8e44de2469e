-- ===== src/HashMap/Grow.antt =====
-- increaseSize: one round of the loop sends list `i` to its slots under the new mask.
use mathlib.Core.Path.{fun_ext}
use gnu_my_server_gso_c.Base.{
  ℕ, ◌≤◌, ◌<◌, List, [], ◌∷◌, ◌≡◌, sym, ◌∙◌, ap, subst, inl, inr, true, false, arith, if◌then◌else◌,
  length, ◌==◌, ==_iff, ==_refl, leb_refl, Bool-cases,
}
use gnu_my_server_gso_c.HashMap.Types.{Float, Shkv, HashMap}
use gnu_my_server_gso_c.HashMap.Table.{bucket, live, set_bucket, slot}
use gnu_my_server_gso_c.HashMap.Resize.{move_entry, move_out, drop_stamp, stays, rehash_bucket}
use gnu_my_server_gso_c.HashMap.Entries.{
  arrivals, arrivals_nil, stays_nil, arrivals_one, arrivals_hit, spread, Goes,
}
use gnu_my_server_gso_c.HashMap.Shape.{
  alive, alive-live, bucket-drop_stamp, drop_stamp-Frame, bucket-set, stamp-set, Shape, Frame,
  Frame-refl, Frame-vectors, Frame-trans, written, alive-written, written-Shape, alive-drop_stamp,
  drop_stamp-Shape,
}

module _ {ℓ} {fl : Float} {K V : Type ℓ} where
  pub slot-Frame : {m r : HashMap fl K V} → Frame m r → (h : ℕ) → slot r h ≡ slot m h
  unfolding slot
  slot-Frame fr h = rw fr.mask

  -- The lists from `old` on hold nothing old.
  abbrev pub Fresh : ℕ → HashMap fl K V → Type ℓ
  Fresh old m = (j : ℕ) → old ≤ j → bucket m j ≡ alive m j

  pub record Moved (old n i : ℕ) (c : List (Shkv K V)) (m r : HashMap fl K V) : Type ℓ where
    pub shape : Shape n r
    pub fresh : Fresh old r
    pub frame : Frame m r
    pub lists :
        (j : ℕ) → alive r j ≡ (if i == j then alive m j else arrivals (slot m) j c (alive m j))

  written-Fresh :
      {n old : ℕ} {m : HashMap fl K V} (v : Shape n m) (d : ℕ) (l : d < n) (c : List (Shkv K V))
      → Fresh old m
      → Fresh old (written v d l c)
  written-Fresh {m = m} v d l c fresh j h = elim (Bool-cases (d == j)) [
    | inl same ↦ rw (bucket-set v d l c j, stamp-set v d l m.offset j, same, leb_refl m.offset)
    | inr other ↦ rw (bucket-set v d l c j, stamp-set v d l m.offset j, other) (fresh j h)
  ]

  move_entry_stay :
      (i : ℕ) (e : Shkv K V) (m : HashMap fl K V)
      → (slot m e.hash == i) ≡ true
      → move_entry i e m ≡ m
  unfolding move_entry
  move_entry_stay i e m h = rw h

  move_entry_go :
      {n : ℕ} {m : HashMap fl K V} (i : ℕ) (e : Shkv K V) (v : Shape n m) (l : slot m e.hash < n)
      → (slot m e.hash == i) ≡ false
      → move_entry i e m ≡ written v (slot m e.hash) l (e ∷ bucket m (slot m e.hash))
  unfolding move_entry
  move_entry_go i e v l h = rw h

  module _ {n old : ℕ} {m : HashMap fl K V} (i : ℕ) (l : i < old) (v : Shape n m)
      (fresh : Fresh old m) (e : Shkv K V) where
    stay-Moved : slot m e.hash ≡ i → Moved old n i (e ∷ []) m m
    stay-Moved same = record {
      shape = v;
      fresh = fresh;
      frame = Frame-refl m;
      lists = λ j. elim (Bool-cases (i == j)) [
        | inl here ↦ rw here
        | inr other ↦ rw (other, arrivals_hit (slot m) j e (alive m j), same, other)
      ];
    }

    go-Moved :
        (below : slot m e.hash < n)
        → old ≤ slot m e.hash
        → Moved old n i (e ∷ []) m (written v (slot m e.hash) below (e ∷ bucket m (slot m e.hash)))
    go-Moved below new =
        let d = slot m e.hash in
        record {
          shape = written-Shape v d below (e ∷ bucket m d) (omega arith);
          fresh = written-Fresh v d below (e ∷ bucket m d) fresh;
          frame = Frame-vectors m _ _;
          lists = λ j.
              rw (alive-written v d below (e ∷ bucket m d) j, arrivals_hit (slot m) j e (alive m j))
                (elim (Bool-cases (d == j)) [
                  | inl here ↦
                      let apart : (i == j) ≡ false = ground (arith, ==_iff d j) in
                      rw (here, apart, fresh d new, (==_iff d j).0 here)
                  | inr other ↦ rw other (ground arith)
                ]);
        }

    pub move_entry-Moved :
        Goes (slot m) old n i (e ∷ []) → Moved old n i (e ∷ []) m (move_entry i e m)
    move_entry-Moved (inl same, g) =
        rw (move_entry_stay i e m (rw same (==_refl i))) (stay-Moved same)
    move_entry-Moved (inr (new, below), g) =
        rw (move_entry_go i e v below (ground arith)) (go-Moved below new)

  pub move_out-Moved :
      {n old : ℕ} {m : HashMap fl K V} (i : ℕ) (c : List (Shkv K V))
      → i < old
      → Shape n m
      → Fresh old m
      → Goes (slot m) old n i c
      → Moved old n i c m (move_out i c m)
  unfolding move_out
  move_out-Moved {m = m} i [] l v fresh g = record {
    shape = v;
    fresh = fresh;
    frame = Frame-refl m;
    lists = λ j. rw (arrivals_nil (slot m) j (alive m j)) (ground arith);
  }
  move_out-Moved {n} {old} {m} i (e ∷ c) l v fresh g =
      let r = move_entry i e m in
      let first = move_entry-Moved i l v fresh e (g.0, tt) in
      let slots : slot r ≡ slot m = fun_ext (slot-Frame first.frame) in
      let rest =
        move_out-Moved {m = r} i c l first.shape first.fresh
          (subst (λ σ. Goes σ old n i c) (sym slots) g.1) in
      record {
        shape = rest.shape;
        fresh = rest.fresh;
        frame = Frame-trans first.frame rest.frame;
        lists = λ j. elim (Bool-cases (i == j)) [
          | inl here ↦ rest.lists j ∙ rw here (first.lists j ∙ rw here)
          | inr other ↦
              rest.lists j
              ∙ rw (other, slots, first.lists j, other)
                  (sym (arrivals_one (slot m) j e c (alive m j)))
        ];
      }

  pub record Rehashed (old n i : ℕ) (m r : HashMap fl K V) : Type ℓ where
    pub shape : Shape n r
    pub fresh : Fresh old r
    pub frame : Frame m r
    pub lists : (j : ℕ) → alive r j ≡ spread (slot m) i (alive m i) (alive m) j

  module _ {n old : ℕ} {m : HashMap fl K V} (i : ℕ) (l : i < old) (le : old ≤ n) (v : Shape n m)
      (fresh : Fresh old m) where
    rehash_live :
        live m i ≡ true
        → Goes (slot m) old n i (bucket m i)
        → Rehashed old n i m (
            drop_stamp i (set_bucket (move_out i (bucket m i) m) i (stays (slot m) i (bucket m i))))
    rehash_live on g =
        let c = bucket m i in
        let r = move_out i c m in
        let moved = move_out-Moved i c l v fresh g in
        let same : alive r i ≡ c = moved.lists i ∙ rw (==_refl i, on) in
        let on' : live r i ≡ true = alive-live r i (omega (arith, ap length same, v.filled i on)) in
        let s = stays (slot m) i c in
        record {
          shape = drop_stamp-Shape moved.shape i (omega arith) s;
          fresh = λ j h.
              let apart : (i == j) ≡ false = ground arith in
              bucket-drop_stamp moved.shape i (omega arith) s j apart
              ∙ moved.fresh j h
              ∙ sym (alive-drop_stamp moved.shape i (omega arith) on' s j ∙ rw apart);
          frame = Frame-trans moved.frame (drop_stamp-Frame moved.shape i (omega arith) s);
          lists = λ j.
              alive-drop_stamp moved.shape i (omega arith) on' s j ∙ elim (Bool-cases (i == j)) [
                | inl here ↦ rw (here, on)
                | inr other ↦ rw other (moved.lists j ∙ rw (other, on))
              ];
        }

    rehash_dead : live m i ≡ false → Rehashed old n i m m
    rehash_dead off = record {
      shape = v;
      fresh = fresh;
      frame = Frame-refl m;
      lists = λ j. elim (Bool-cases (i == j)) [
        | inl here ↦ rw (here, off, ← (==_iff i j).0 here, off) (sym (stays_nil (slot m) i))
        | inr other ↦ rw (other, off) (sym (arrivals_nil (slot m) j (alive m j)))
      ];
    }

    -- A round sends the list to its slots and leaves the others as they were.
    pub rehash_bucket-Rehashed :
        Goes (slot m) old n i (alive m i) → Rehashed old n i m (rehash_bucket i m)
    unfolding rehash_bucket
    rehash_bucket-Rehashed g = elim (Bool-cases (live m i)) [
      | inl on ↦ rw on (rehash_live on (rw on at g))
      | inr off ↦ rw off (rehash_dead off)
    ]
