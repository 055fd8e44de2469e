-- ===== src/Post/Lines.antt =====
-- Reading the line of a chunk's size from a smooth reader.
use mathlib.Core.List.{append-nil, append_assoc}
use gnu_my_server_gso_c.Base.{
  ℕ, zero, suc, ◌≤◌, ◌<◌, List, [], ◌∷◌, ◌++◌, Bool, true, false, ◌&&◌, Option, none, some, length,
  ◌≡◌, refl, sym, ◌∙◌, arith,
}
use gnu_my_server_gso_c.Text.Hex.{isxdigit}
use gnu_my_server_gso_c.Text.HexLaws.{all_digits}
use gnu_my_server_gso_c.Post.Reader.{Reader, Got, read_contiguous}
use gnu_my_server_gso_c.Post.Flow.{coming, read_contiguous_lem}
use gnu_my_server_gso_c.Post.Smooth.{Smooth, read_contiguous-Smooth, read_contiguous_progress}
use gnu_my_server_gso_c.Post.Chunked.{read_line, end_line, read_size}
use gnu_my_server_gso_c.Post.Digits.{IsSize, plain_digit}

first_byte :
    (bs xs : List ℕ) (c : ℕ) (w : List ℕ)
    → length bs ≤ 1
    → 0 < length bs
    → bs ++ xs ≡ c ∷ w
    → (bs ≡ c ∷ []) × (xs ≡ w)
first_byte [] xs c w l p e = absurd (omega arith)
first_byte (b ∷ []) xs c w l p e = (ground (arith, e), ground (arith, e))
first_byte (b ∷ d ∷ bs) xs c w l p e = absurd (omega arith)

-- A read of one byte.
pub record OneRead (g : Got) (c : ℕ) (w : List ℕ) : Type 0 where
  pub bytes : g.bytes ≡ c ∷ []
  pub later : coming g.reader ≡ w
  pub in_time : g.timed_out ≡ false
  pub smooth : Smooth g.reader

pub read_contiguous-OneRead :
    (r : Reader) (c : ℕ) (w : List ℕ)
    → Smooth r
    → coming r ≡ c ∷ w
    → OneRead (read_contiguous 1 r) c w
read_contiguous-OneRead r c w s e =
    let (keeps, short) = read_contiguous_lem 1 r in
    let (smooth, in_time) = read_contiguous-Smooth 1 r s in
    let p : 0 < length (coming r) = rw e (omega arith) in
    let (one, others) =
      first_byte (read_contiguous 1 r).bytes (coming (read_contiguous 1 r).reader) c w short
        (read_contiguous_progress 1 r s (omega arith) p) (keeps ∙ e) in
    record { bytes = one; later = others; in_time = in_time; smooth = smooth }

-- A result that leaves `w` to come on a smooth reader.
pub record Leaves {A : Type 0} (o : Option A × Reader) (a : A) (w : List ℕ) : Type 0 where
  pub result : o.0 ≡ some a
  pub later : coming o.1 ≡ w
  pub smooth : Smooth o.1

both : (a b : Bool) → a && b ≡ true → (a ≡ true) × (b ≡ true)
both a b h = ground arith

read_line-Leaves :
    (room : ℕ) (line ds : List ℕ) (r : Reader) (w : List ℕ)
    → Smooth r
    → all_digits ds ≡ true
    → length ds ≤ room
    → coming r ≡ ds ++ (13 ∷ w)
    → Leaves (read_line room line r) (line ++ ds) w
unfolding read_line all_digits
read_line-Leaves zero line [] r w s h l e =
    let one = read_contiguous-OneRead r 13 w s e in
    rw (one.bytes, append-nil line)
      (record { result = refl; later = one.later; smooth = one.smooth })
read_line-Leaves zero line (d ∷ ds) r w s h l e = absurd (omega arith)
read_line-Leaves (suc room) line [] r w s h l e =
    let one = read_contiguous-OneRead r 13 w s e in
    rw (one.bytes, append-nil line)
      (record { result = refl; later = one.later; smooth = one.smooth })
read_line-Leaves (suc room) line (d ∷ ds) r w s h l e =
    let one = read_contiguous-OneRead r d (ds ++ (13 ∷ w)) s e in
    let (digit, digits) = both (isxdigit d) (all_digits ds) h in
    rw (one.bytes, (plain_digit d digit).0, one.in_time, sym (append_assoc line (d ∷ []) ds))
      (read_line-Leaves room (line ++ (d ∷ [])) ds (read_contiguous 1 r).reader w one.smooth digits
        (omega arith) one.later)

end_line-Leaves :
    (o : Option (List ℕ) × Reader) (ds w : List ℕ) (n : ℕ)
    → Leaves o ds (10 ∷ w)
    → IsSize ds n
    → Leaves (end_line o) n w
unfolding end_line
end_line-Leaves (none, r) ds w n h z = absurd (ground (arith, h.result))
end_line-Leaves (some line, r) ds w n h z =
    let one = read_contiguous-OneRead r 10 w h.smooth h.later in
    let same : line ≡ ds = ground (arith, h.result) in
    rw (one.in_time, same, z.value)
      (record { result = refl; later = one.later; smooth = one.smooth })

-- The size is read, with the end of its line.
pub read_size-Leaves :
    (r : Reader) (ds w : List ℕ) (n : ℕ)
    → Smooth r
    → IsSize ds n
    → coming r ≡ ds ++ (13 ∷ 10 ∷ w)
    → Leaves (read_size r) n w
unfolding read_size
read_size-Leaves r ds w n s z e =
    end_line-Leaves (read_line 19 [] r) ds w n
      (read_line-Leaves 19 [] ds r (10 ∷ w) s z.digits z.short e) z
