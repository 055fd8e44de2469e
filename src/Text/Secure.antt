-- ===== src/Text/Secure.antt =====
-- myserver_strlcpy and myserver_strlcat of securestr.cpp, as they are built. Memory is the list of its
-- bytes, and a text has no 0.
use gnu_my_server_gso_c.Base.{
  ℕ, suc, ◌+◌, ◌-◌, ◌%◌, ◌^◌, List, [], ◌∷◌, ◌++◌, false, ltb, leb, ◌==◌, if◌then◌else◌, length,
  set, take, drop, ◌≡◌,
}

unfoldable pub strlen : List ℕ → ℕ
strlen [] = 0
strlen (c ∷ cs) = let n = strlen cs in if c == 0 then 0 else suc n

-- memcpy of all of `bs` to the offset `i`.
unfoldable pub memcpy : List ℕ → ℕ → List ℕ → List ℕ
memcpy dst i bs = take i dst ++ (bs ++ drop (i + length bs) dst)

-- min (src, size)
unfoldable pub to_copy : ℕ → ℕ → ℕ
to_copy n size = if ltb n size then n else size

-- What is copied, one less where the 0 would have no room.
unfoldable pub kept : ℕ → ℕ → ℕ
unfolding to_copy
kept n size = if leb size n then to_copy n size - 1 else to_copy n size

unfoldable pub strlcpy : List ℕ → List ℕ → ℕ → List ℕ × ℕ
unfolding memcpy to_copy kept
strlcpy dst src size =
    let n = length src in
    if to_copy n size == 0
    then (dst, n % 2 ^ 32)
    else (set (memcpy dst 0 (take (kept n size) src)) (kept n size) 0, n % 2 ^ 32)

-- The room that is left wraps where the text in `dst` is longer than `size`.
unfoldable pub room_behind : ℕ → ℕ → ℕ
room_behind size n = (size + (2 ^ 32 - n % 2 ^ 32)) % 2 ^ 32

unfoldable pub strlcat : List ℕ → List ℕ → ℕ → List ℕ × ℕ
unfolding strlen memcpy to_copy kept room_behind
strlcat dst src size =
    let m = strlen dst in
    let n = length src in
    let room = room_behind size m in
    if to_copy n room == 0
    then (dst, (m + n) % 2 ^ 32)
    else (set (memcpy dst m (take (kept n room) src)) (kept n room) 0, (m + n) % 2 ^ 32)

-- The text in memory.
unfoldable pub text_in : List ℕ → List ℕ
text_in [] = []
text_in (c ∷ cs) = let t = text_in cs in if c == 0 then [] else c ∷ t

abbrev pub IsText : List ℕ → Type 0
IsText [] = Unit
IsText (c ∷ cs) = ((c == 0) ≡ false) × IsText cs
