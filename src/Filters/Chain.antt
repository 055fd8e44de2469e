-- ===== src/Filters/Chain.antt =====
-- class FiltersChain. A filter, and a stream, is its address, a number; `parent` has the parent of
-- each filter. What the filters do with data is in the interface Links.
use gnu_my_server_gso_c.Base.{
  ℕ, ◌+◌, List, [], ◌∷◌, Bool, true, false, not, ◌&&◌, Option, none, some, ◌==◌, if◌then◌else◌,
  reverse,
}

-- A pointer to a stream, which may be null, or to a filter.
pub data Target : Type 0 where
  to_stream : Option ℕ → Target
  to_filter : ℕ → Target

pub record FiltersChain : Type 0 where
  pub filters : List ℕ
  pub first : Option ℕ
  pub stream : Option ℕ
  pub accept_duplicates : Bool
  pub parent : ℕ → Target

-- The virtual methods of the filters and streams, over the state `W` of their data: `none` stands for
-- a nonzero return, else there is the text or the number of bytes.
pub record Methods (W : Type 0) : Type 0 where
  pub header : ℕ → Option (List ℕ)
  pub footer : ℕ → Option (List ℕ)
  pub modifies : ℕ → Bool
  pub write : Target → List ℕ → W → Option ℕ × W
  pub flush : Target → W → Option ℕ × W

unfoldable pub empty_chain : (ℕ → Target) → FiltersChain
empty_chain parent = record {
  filters = [];
  first = none;
  stream = none;
  accept_duplicates = true;
  parent = parent;
}

-- setParent.
unfoldable pub set_parent : ℕ → Target → (ℕ → Target) → ℕ → Target
set_parent f t parent g = if g == f then t else parent g

unfoldable pub is_stream : Option ℕ → Option ℕ → Bool
is_stream none none = true
is_stream none (some t) = false
is_stream (some s) none = false
is_stream (some s) (some t) = s == t

unfoldable pub is_target : Option ℕ → Target → Bool
unfolding is_stream
is_target s (to_filter f) = false
is_target s (to_stream t) = is_stream t s

-- The loop of setStream.
unfoldable pub redirect : Option ℕ → Option ℕ → List ℕ → (ℕ → Target) → ℕ → Target
unfolding is_target set_parent
redirect old new [] parent = parent
redirect old new (f ∷ fs) parent =
    redirect old new fs
      (if is_target old (parent f) then set_parent f (to_stream new) parent else parent)

unfoldable pub set_stream : Option ℕ → FiltersChain → FiltersChain
unfolding redirect
set_stream s c = record c { parent = redirect c.stream s c.filters c.parent; stream = s }

-- isFilterPresent by address.
unfoldable pub is_filter_present : ℕ → List ℕ → Bool
is_filter_present f [] = false
is_filter_present f (g ∷ gs) = if g == f then true else is_filter_present f gs

-- The parent of a new filter.
unfoldable pub target_of : FiltersChain → Option ℕ → Target
target_of c none = to_stream c.stream
target_of c (some f) = to_filter f

-- Where the data given to the chain goes: to the first filter, or to the stream, if there is a stream.
unfoldable pub entrance : FiltersChain → Option ℕ → Option Target
unfolding target_of
entrance c none = none
entrance c (some s) = some (target_of c c.first)

unfoldable pub write_to : {W : Type 0} → Methods W → List ℕ → Option Target → W → Option ℕ × W
write_to m bs none w = (none, w)
write_to m bs (some t) w = m.write t bs w

unfoldable pub chain_write : {W : Type 0} → Methods W → FiltersChain → List ℕ → W → Option ℕ × W
unfolding entrance write_to
chain_write m c bs w = write_to m bs (entrance c c.stream) w

unfoldable pub add_front : ℕ → FiltersChain → FiltersChain
add_front f c = record c { first = some f; filters = f ∷ c.filters }

-- What addFilter returns: its value, `nbw` with `none` where it is not set, and the state.
pub record Added (W : Type 0) : Type 0 where
  pub ret : ℕ
  pub nbw : Option ℕ
  pub chain : FiltersChain
  pub world : W

-- The total and the last count after a write; a failed write leaves the count as it was.
unfoldable pub tally : ℕ → ℕ → Option ℕ → ℕ × ℕ
tally total last none = (total + last, last)
tally total last (some n) = (total + n, n)

module _ {W : Type 0} where
  unfoldable pub header_written : ℕ → FiltersChain → Option ℕ × W → Added W
  unfolding add_front
  header_written f c (none, w) = record { ret = 1; nbw = none; chain = add_front f c; world = w }
  header_written f c (some n, w) = record {
    ret = 0;
    nbw = some n;
    chain = add_front f c;
    world = w;
  }

  -- The header goes to the parent; an empty one is not written, and `nbw` is not set.
  unfoldable pub with_header : Methods W → ℕ → FiltersChain → W → Option (List ℕ) → Added W
  unfolding header_written add_front
  with_header m f c w none = record { ret = 1; nbw = none; chain = c; world = w }
  with_header m f c w (some []) = record { ret = 0; nbw = none; chain = add_front f c; world = w }
  with_header m f c w (some (b ∷ bs)) = header_written f c (m.write (c.parent f) (b ∷ bs) w)

  unfoldable pub add_filter : Methods W → ℕ → Bool → FiltersChain → W → Added W
  unfolding target_of is_filter_present with_header set_parent
  add_filter m f send_data c w =
      let d = record c { parent = set_parent f (target_of c c.first) c.parent } in
      if not c.accept_duplicates && is_filter_present f c.filters
      then record { ret = 0; nbw = none; chain = d; world = w }
      else if send_data
      then with_header m f d w (m.header f)
      else record { ret = 0; nbw = none; chain = add_front f d; world = w }

  -- The footers, in the order of the list given.
  unfoldable pub write_footers : Methods W → (ℕ → Target) → List ℕ → ℕ → ℕ → W → Option ℕ × W
  unfolding tally
  write_footers m parent [] total last w = (some total, w)
  write_footers m parent (f ∷ fs) total last w = elim (m.footer f) [
    | none ↦ (none, w)
    | some bs ↦
        let (o, v) = m.write (parent f) bs w in
        let (sum, n) = tally total last o in write_footers m parent fs sum n v
  ]

  unfoldable pub after_flush : Methods W → FiltersChain → Option ℕ × W → Option ℕ × W
  unfolding write_footers
  after_flush m c (none, w) = (none, w)
  after_flush m c (some n, w) = write_footers m c.parent (reverse c.filters) n n w

  unfoldable pub flush_first : Methods W → FiltersChain → Option ℕ → Option ℕ → W → Option ℕ × W
  flush_first m c (some f) s w = m.flush (to_filter f) w
  flush_first m c none (some s) w = m.flush (to_stream (some s)) w
  flush_first m c none none w = (some 0, w)

  -- `none` for a nonzero return, else the bytes written.
  unfoldable pub chain_flush : Methods W → FiltersChain → W → Option ℕ × W
  unfolding after_flush flush_first
  chain_flush m c w = after_flush m c (flush_first m c c.first c.stream w)

unfoldable pub head? : List ℕ → Option ℕ
head? [] = none
head? (f ∷ fs) = some f

-- The links after the filter `f` with `fs` behind it is taken out behind `prev`.
unfoldable pub unlink : Option ℕ → ℕ → List ℕ → (ℕ → Target) → Option ℕ → (ℕ → Target) × Option ℕ
unfolding set_parent head?
unlink (some g) f fs parent first = (set_parent g (parent f) parent, first)
unlink none f fs parent first = (parent, head? fs)

-- The loop of removeFilter.
unfoldable pub remove_loop :
    ℕ → Option ℕ → List ℕ → (ℕ → Target) → Option ℕ → List ℕ × (ℕ → Target) × Option ℕ
unfolding unlink
remove_loop f prev [] parent first = ([], parent, first)
remove_loop f prev (g ∷ gs) parent first =
    let (links, head) = unlink prev g gs parent first in
    let (hs, others, front) = remove_loop f (some g) gs parent first in
    if g == f then (gs, links, head) else (g ∷ hs, others, front)

unfoldable pub remove_filter : ℕ → FiltersChain → FiltersChain
unfolding remove_loop
remove_filter f c =
    let (fs, parent, first) = remove_loop f none c.filters c.parent c.first in
    record c { filters = fs; parent = parent; first = first }

unfoldable pub clear_all_filters : FiltersChain → FiltersChain
clear_all_filters c = record c { filters = []; first = none }

unfoldable pub set_accept_duplicates : Bool → FiltersChain → FiltersChain
set_accept_duplicates v c = record c { accept_duplicates = v }

unfoldable pub is_empty : FiltersChain → Bool
is_empty c = elim c.first [ none ↦ true | some f ↦ false ]

unfoldable pub has_modifiers : {W : Type 0} → Methods W → List ℕ → Bool
has_modifiers m [] = false
has_modifiers m (f ∷ fs) = if m.modifies f then true else has_modifiers m fs
