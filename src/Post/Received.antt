-- ===== src/Post/Received.antt =====
-- readPostData as a whole: its errors, its results and its end.
use gnu_my_server_gso_c.Base.{
  ℕ, ◌≤◌, ◌<◌, List, [], ◌++◌, Option, none, some, length, take, ◌≡◌, ◌≢◌, refl, ap, ◌∙◌, inl, inr,
  Bool-cases, arith,
}
use gnu_my_server_gso_c.Post.Streams.{Stream, IsReliable}
use gnu_my_server_gso_c.Post.Reader.{Reader}
use gnu_my_server_gso_c.Post.Flow.{coming}
use gnu_my_server_gso_c.Post.Smooth.{Steady}
use gnu_my_server_gso_c.Post.Ends.{rest, read_chunked-ne-stuck}
use gnu_my_server_gso_c.Post.Chunked.{Code, success, failure, stuck, Post, read_chunked}
use gnu_my_server_gso_c.Post.Body.{
  Request, Answer, received, no_fuel, Expected, bytes, same_text, chunked_text, expected, of_code,
  read_encoded, left_of, no_length, is_negative, read_encoding, open_file, read_plain,
  read_post_data,
}
use gnu_my_server_gso_c.Post.BodyLaws.{read_plain-Ends}
use gnu_my_server_gso_c.Post.BodyStored.{wanted, read_plain-Stored}
use gnu_my_server_gso_c.Post.BodyBound.{within, read_plain-Prefix}

module _ {F : Type 0} (file : Stream F) where
  of_code-Ends : (f : F) (o : Code × Post F) → o.0 ≢ stuck → (of_code f o).0 ≢ no_fuel
  unfolding of_code
  of_code-Ends f (success, p) h = λ e. cc
  of_code-Ends f (failure, p) h = λ e. cc
  of_code-Ends f (stuck, p) h = absurd (h refl)

  read_encoding-Ends :
      (room fuel : ℕ) (t : Option (List ℕ)) (e : Expected) (r : Reader) (f : F)
      → rest r < fuel
      → (read_encoding file room fuel t e r f).0 ≢ no_fuel
  unfolding read_encoding read_encoded
  read_encoding-Ends room fuel none e r f l = read_plain-Ends file room fuel (left_of e) r f l
  read_encoding-Ends room fuel (some t) e r f l = elim (Bool-cases (same_text t chunked_text)) [
    | inr other ↦ rw other (λ h. cc)
    | inl chunked ↦
        let start : Post F = record {
          reader = r;
          out = some f;
          out_nbr = 0;
          remaining = none;
          out_buffer = [];
        } in
        rw chunked (
          of_code-Ends f (read_chunked file room fuel 0 start)
            (read_chunked-ne-stuck file room fuel 0 start l))
  ]

  open_file-Ends :
      (room fuel : ℕ) (q : Request) (e : Expected) (made : Option F) (r : Reader)
      → rest r < fuel
      → (open_file file room fuel q e made r).0 ≢ no_fuel
  unfolding open_file
  open_file-Ends room fuel q e none r l = λ h. cc
  open_file-Ends room fuel q e (some f) r l =
      read_encoding-Ends room fuel q.transfer_encoding e r f l

  -- With fuel for the bytes that the network still has, readPostData returns, whatever the request,
  -- the network and the file are.
  pub read_post_data-ne-no_fuel :
      (room fuel : ℕ) (q : Request) (made : Option F) (r : Reader)
      → rest r < fuel
      → (read_post_data file room fuel q made r).0 ≢ no_fuel
  unfolding read_post_data
  read_post_data-ne-no_fuel room fuel q made r l =
      let e = expected q.content_length in
      elim (Bool-cases (is_negative e)) [
        | inl bad ↦ rw bad (λ h. cc)
        | inr good ↦ elim (Bool-cases (no_length q e)) [
          | inl no_size ↦ rw (good, no_size) (λ h. cc)
          | inr sized ↦ rw (good, sized) (open_file-Ends room fuel q e made r l)
        ]
      ]

  read_file :
      (room fuel n : ℕ) (q : Request) (f : F) (r : Reader)
      → expected q.content_length ≡ bytes n
      → q.transfer_encoding ≡ none
      → read_post_data file room fuel q (some f) r ≡ (
        (read_plain file room fuel (some n) r f).0,
        some (read_plain file room fuel (some n) r f).1,
      )
  unfolding read_post_data is_negative no_length open_file read_encoding left_of
  read_file room fuel n q f r e t = rw (e, t) refl

-- With a content length that is no negative number and no transfer encoding, over a file that could be
-- made and takes all, with room in the buffer, on a network without errors and without empty packets,
-- which stand for time-outs, and with fuel for the bytes that come, readPostData returns 0 and has
-- stored the announced number of bytes, or all that came if these were fewer.
pub read_post_data_lem :
    {F : Type 0} (view : F → List ℕ) (file : Stream F) (room fuel n : ℕ) (q : Request) (f : F)
    (r : Reader)
    → IsReliable file view
    → expected q.content_length ≡ bytes n
    → q.transfer_encoding ≡ none
    → 0 < room
    → Steady r
    → rest r < fuel
    → (g : F) × (read_post_data file room fuel q (some f) r ≡ (received, some g))
      × (view g ≡ view f ++ take n (coming r))
unfolding wanted
read_post_data_lem view file room fuel n q f r reliable e t p s l =
    let stored = read_plain-Stored view file reliable room fuel (some n) r f p s l in
    let o = read_plain file room fuel (some n) r f in
    (
      o.1,
      read_file file room fuel n q f r e t ∙ ap (λ (a : Answer). (a, some o.1)) stored.answer,
      stored.told,
    )

-- With a content length and no transfer encoding, over a file that takes all, readPostData has stored
-- a first part of the bytes that came, and no more than announced, whatever errors and time-outs the
-- network has and however the function ends.
pub read_post_data_bound :
    {F : Type 0} (view : F → List ℕ) (file : Stream F) (room fuel n : ℕ) (q : Request) (f : F)
    (r : Reader)
    → IsReliable file view
    → expected q.content_length ≡ bytes n
    → q.transfer_encoding ≡ none
    → (g : F) × (ys : List ℕ) × (zs : List ℕ) × ((read_post_data file room fuel q (some f) r).1
        ≡ some g)
      × (view g ≡ view f ++ ys)
      × (ys ++ zs ≡ coming r)
      × (length ys ≤ n)
unfolding within
read_post_data_bound view file room fuel n q f r reliable e t =
    let p = read_plain-Prefix view file reliable room fuel (some n) r f in
    (
      (read_plain file room fuel (some n) r f).1,
      p.stored,
      p.after,
      ap (λ (o : Answer × Option _). o.1) (read_file file room fuel n q f r e t),
      p.told,
      p.parts,
      ground (arith, p.fits),
    )
