-- ===== src/Post/BodyLaws.antt =====
-- What readPostData stores, and that it ends.
use gnu_my_server_gso_c.Base.{
  ℕ, zero, suc, ◌<◌, Bool, true, false, ◌||◌, Option, none, some, ◌==◌, length, ◌≢◌, inl, inr,
  Bool-cases, arith,
}
use gnu_my_server_gso_c.Post.Streams.{Stream}
use gnu_my_server_gso_c.Post.Reader.{Reader, Got, read_contiguous}
use gnu_my_server_gso_c.Post.Ends.{rest, read_contiguous-rest}
use gnu_my_server_gso_c.Post.Body.{
  Answer, no_fuel, dim_buffer, count_down, complete, end_round, save_bytes, counted, read_plain,
}

module _ {F : Type 0} (file : Stream F) where
  end_round-Ends :
      (loop : Option ℕ → Reader → F → Answer × F) (left : Option ℕ) (got : Got) (o : Bool × F)
      → (0 < length got.bytes → (g : F) → (loop left got.reader g).0 ≢ no_fuel)
      → (end_round loop left got o).0 ≢ no_fuel
  unfolding end_round
  end_round-Ends loop left got (false, f) k = λ e. cc
  end_round-Ends loop left got (true, f) k =
      elim (Bool-cases (got.timed_out || length got.bytes == 0 || complete left)) [
        | inl stops ↦ rw stops (λ e. cc)
        | inr goes ↦ rw goes (k (ground (arith, goes)) f)
      ]

  counted-Ends :
      (loop : Option ℕ → Reader → F → Answer × F) (o : Option (Option ℕ)) (got : Got) (f : F)
      → (0 < length got.bytes → (left : Option ℕ) (g : F) → (loop left got.reader g).0 ≢ no_fuel)
      → (counted file loop o got f).0 ≢ no_fuel
  unfolding counted
  counted-Ends loop none got f k = λ e. cc
  counted-Ends loop (some left) got f k =
      end_round-Ends loop left got (save_bytes file got.bytes f) (λ l g. k l left g)

  pub read_plain-Ends :
      (room fuel : ℕ) (left : Option ℕ) (r : Reader) (f : F)
      → rest r < fuel
      → (read_plain file room fuel left r f).0 ≢ no_fuel
  unfolding read_plain
  read_plain-Ends room zero left r f l = absurd (omega arith)
  read_plain-Ends room (suc fuel) left r f l =
      let dim = dim_buffer room left in
      counted-Ends (read_plain file room fuel)
        (count_down left (length (read_contiguous dim r).bytes)) (read_contiguous dim r) f
        λ m rest_left g.
          read_plain-Ends room fuel rest_left (read_contiguous dim r).reader g
            (omega (arith, read_contiguous-rest dim r))
