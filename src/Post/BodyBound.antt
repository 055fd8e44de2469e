-- ===== src/Post/BodyBound.antt =====
-- Whatever the network does, readPostData stores a first part of what comes, and no more than was
-- announced.
use mathlib.Core.List.{append-nil, append_assoc}
use gnu_my_server_gso_c.Base.{
  ℕ, zero, suc, ◌+◌, ◌≤◌, List, [], ◌++◌, Bool, true, false, ◌||◌, Option, none, some, leb, ◌==◌,
  length, length-append, ◌≡◌, refl, sym, ap, ◌∙◌, inl, inr, Bool-cases, arith,
}
use gnu_my_server_gso_c.Post.Streams.{Stream, IsReliable}
use gnu_my_server_gso_c.Post.Reader.{Reader, Got, read_contiguous}
use gnu_my_server_gso_c.Post.Flow.{coming, read_contiguous_lem}
use gnu_my_server_gso_c.Post.Body.{
  Answer, dim_buffer, complete, end_round, save_bytes, counted, read_plain,
}
use gnu_my_server_gso_c.Post.BodyStored.{minus, count_down_lem, save_bytes-Wrote}

-- At most the announced length, if there is one.
unfoldable pub within : Option ℕ → ℕ → Bool
within none n = true
within (some left) n = leb n left

within-add :
    (room : ℕ) (left : Option ℕ) (m n : ℕ)
    → m ≤ dim_buffer room left
    → within (minus left m) n ≡ true
    → within left (m + n) ≡ true
unfolding within minus dim_buffer
within-add room none m n l h = refl
within-add room (some left) m n l h = ground (arith, l, h)

within_zero : (left : Option ℕ) → within left 0 ≡ true
unfolding within
within_zero none = refl
within_zero (some n) = ground arith

module _ {F : Type 0} (view : F → List ℕ) where
  -- `ys` is stored after what the file had, of the bytes `xs` and of the announced length.
  pub record Prefix (left : Option ℕ) (f g : F) (xs : List ℕ) : Type 0 where
    pub stored : List ℕ
    pub after : List ℕ
    pub parts : stored ++ after ≡ xs
    pub told : view g ≡ view f ++ stored
    pub fits : within left (length stored) ≡ true

  Prefix-none : (left : Option ℕ) (f : F) (xs : List ℕ) → Prefix left f f xs
  Prefix-none left f xs = record {
    stored = [];
    after = xs;
    parts = refl;
    told = sym (append-nil (view f));
    fits = within_zero left;
  }

  module _ (file : Stream F) (reliable : IsReliable file view) where
    Prefix-round :
        (room : ℕ) (left : Option ℕ) (bs ys : List ℕ) (f g h : F)
        → length bs ≤ dim_buffer room left
        → view g ≡ view f ++ bs
        → Prefix (minus left (length bs)) g h ys
        → Prefix left f h (bs ++ ys)
    Prefix-round room left bs ys f g h l v p = record {
      stored = bs ++ p.stored;
      after = p.after;
      parts = append_assoc bs p.stored p.after ∙ ap (◌++◌ bs) p.parts;
      told = p.told ∙ ap (λ z. z ++ p.stored) v ∙ append_assoc (view f) bs p.stored;
      fits =
          rw (length-append bs p.stored)
            (within-add room left (length bs) (length p.stored) l p.fits);
    }

    end_round-Prefix :
        (loop : Option ℕ → Reader → F → Answer × F) (left : Option ℕ) (got : Got) (o : Bool × F)
        → ((g : F) → Prefix left g (loop left got.reader g).1 (coming got.reader))
        → Prefix left o.1 (end_round loop left got o).1 (coming got.reader)
    unfolding end_round
    end_round-Prefix loop left got (false, f) k = Prefix-none left f (coming got.reader)
    end_round-Prefix loop left got (true, f) k =
        elim (Bool-cases (got.timed_out || length got.bytes == 0 || complete left)) [
          | inl stops ↦ rw stops (Prefix-none left f (coming got.reader))
          | inr goes ↦ rw goes (k f)
        ]

    pub read_plain-Prefix :
        (room fuel : ℕ) (left : Option ℕ) (r : Reader) (f : F)
        → Prefix left f (read_plain file room fuel left r f).1 (coming r)
    unfolding read_plain counted
    read_plain-Prefix room zero left r f = Prefix-none left f (coming r)
    read_plain-Prefix room (suc fuel) left r f =
        let got = read_contiguous (dim_buffer room left) r in
        let (keeps, short) = read_contiguous_lem (dim_buffer room left) r in
        let left' = minus left (length got.bytes) in
        let g = (save_bytes file got.bytes f).1 in
        let wrote = save_bytes-Wrote view file reliable got.bytes f in
        rw (count_down_lem room left (length got.bytes) short, sym keeps)
          (Prefix-round room left got.bytes (coming got.reader) f g
            (end_round (read_plain file room fuel) left' got (save_bytes file got.bytes f)).1 short
            wrote.told
            (end_round-Prefix (read_plain file room fuel) left' got (save_bytes file got.bytes f)
              λ h. read_plain-Prefix room fuel left' got.reader h))
