-- ===== src/Filters/Runs.antt =====
-- Every run of the operations on a chain, and the way of the data through it.
use gnu_my_server_gso_c.Base.{
  ℕ, zero, suc, List, [], ◌∷◌, Bool, true, false, not, ◌&&◌, Option, some, length, ◌≡◌, ◌≢◌, refl,
  sym, ap, ◌∙◌, subst, arith,
}
use gnu_my_server_gso_c.Filters.Chain.{
  Target, to_stream, to_filter, FiltersChain, Methods, empty_chain, set_parent, set_stream,
  is_filter_present, target_of, add_filter, head?, remove_filter, clear_all_filters,
  set_accept_duplicates,
}
use gnu_my_server_gso_c.Filters.Linked.{
  Absent, Distinct, next_target, Links, IsLinked, set_parent_self, head?-next_target,
  add_filter-IsLinked,
}
use gnu_my_server_gso_c.Filters.Moves.{without, set_stream-IsLinked, remove_filter-IsLinked}

-- A call of the chain's owner. A filter is added only where the chain does not have it yet.
pub data Step {W : Type 0} (m : Methods W) : FiltersChain → FiltersChain → Type 0 where
  stream_set : {c : FiltersChain} (s : Option ℕ) → Step m c (set_stream s c)
  added :
      {c : FiltersChain} (f : ℕ) (send_data : Bool) (w : W)
      → Absent f c.filters
      → Step m c (add_filter m f send_data c w).chain
  removed : {c : FiltersChain} (f : ℕ) → Step m c (remove_filter f c)
  cleared : {c : FiltersChain} → Step m c (clear_all_filters c)
  duplicates_set : {c : FiltersChain} (v : Bool) → Step m c (set_accept_duplicates v c)

pub data Run {W : Type 0} (m : Methods W) : FiltersChain → Type 0 where
  created : (parent : ℕ → Target) → Run m (empty_chain parent)
  then_ : {c d : FiltersChain} → Run m c → Step m c d → Run m d

empty_chain-IsLinked : (parent : ℕ → Target) → IsLinked (empty_chain parent)
unfolding empty_chain head?
empty_chain-IsLinked parent = record { links = tt; front = refl; distinct = tt }

clear_all_filters-IsLinked : (c : FiltersChain) → IsLinked (clear_all_filters c)
unfolding clear_all_filters head?
clear_all_filters-IsLinked c = record { links = tt; front = refl; distinct = tt }

set_accept_duplicates-IsLinked :
    (v : Bool) (c : FiltersChain) → IsLinked c → IsLinked (set_accept_duplicates v c)
unfolding set_accept_duplicates
set_accept_duplicates-IsLinked v c l = record {
  links = l.links;
  front = l.front;
  distinct = l.distinct;
}

Step-IsLinked :
    {W : Type 0} {m : Methods W} {c d : FiltersChain} → Step m c d → IsLinked c → IsLinked d
Step-IsLinked (stream_set {c} s) l = set_stream-IsLinked s c l
Step-IsLinked {m} (added {c} f send_data w a) l = add_filter-IsLinked m f send_data c w l a
Step-IsLinked (removed {c} f) l = (remove_filter-IsLinked f c l).0
Step-IsLinked (cleared {c}) l = clear_all_filters-IsLinked c
Step-IsLinked (duplicates_set {c} v) l = set_accept_duplicates-IsLinked v c l

Run-IsLinked : {W : Type 0} {m : Methods W} {c : FiltersChain} → Run m c → IsLinked c
Run-IsLinked (created parent) = empty_chain-IsLinked parent
Run-IsLinked (then_ r s) = Step-IsLinked s (Run-IsLinked r)

-- The filters that data passes when each gives it to its parent, and where it comes out.
unfoldable pub follow : ℕ → (ℕ → Target) → Target → List ℕ × Target
follow zero parent t = ([], t)
follow (suc n) parent (to_stream s) = ([], to_stream s)
follow (suc n) parent (to_filter f) = let (fs, t) = follow n parent (parent f) in (f ∷ fs, t)

follow-Links :
    (s : Option ℕ) (parent : ℕ → Target) (fs : List ℕ)
    → Links s parent fs
    → follow (length fs) parent (next_target s fs) ≡ (fs, to_stream s)
unfolding follow next_target
follow-Links s parent [] l = refl
follow-Links s parent (f ∷ fs) l =
    rw l.0 (ap (λ (o : List ℕ × Target). (f ∷ o.0, o.1)) (follow-Links s parent fs l.1))

-- In every run of the calls, in which no filter is added that the chain has, what is written to the
-- first filter passes each filter of the chain once, in the order of the list, and then goes to the
-- stream of the chain.
pub Run-follow :
    {W : Type 0} (m : Methods W) (c : FiltersChain)
    → Run m c
    → follow (length c.filters) c.parent (target_of c c.first) ≡ (c.filters, to_stream c.stream)
Run-follow m c r =
    let l = Run-IsLinked r in
    ap (follow (length c.filters) c.parent)
      (ap (target_of c) l.front ∙ head?-next_target c c.filters)
    ∙ follow-Links c.stream c.parent c.filters l.links

-- In every run, removeFilter takes exactly the first occurrence of the filter out of the way of the
-- data: the other filters are passed in the order they had.
pub Run-remove_filter :
    {W : Type 0} (m : Methods W) (c : FiltersChain) (f : ℕ)
    → Run m c
    → (let d = remove_filter f c in
        follow (length (without f c.filters)) d.parent (target_of d d.first)
        ≡ (without f c.filters, to_stream d.stream))
Run-remove_filter m c f r =
    let d = remove_filter f c in
    let e = (remove_filter-IsLinked f c (Run-IsLinked r)).1 in
    subst (λ fs. follow (length fs) d.parent (target_of d d.first) ≡ (fs, to_stream d.stream)) e
      (Run-follow m d (then_ r (removed f)))

own_parent : (s : Option ℕ) (f : ℕ) (fs : List ℕ) → Absent f fs → to_filter f ≢ next_target s fs
unfolding next_target
own_parent s f [] a e = ground (arith, e)
own_parent s f (g ∷ gs) a e = a.0 (ground (arith, e))

first-Links :
    (s : Option ℕ) (parent : ℕ → Target) (f : ℕ) (fs : List ℕ)
    → Distinct fs
    → Links s parent fs
    → some f ≡ head? fs
    → parent f ≢ to_filter f
unfolding head?
first-Links s parent f [] d l h = λ e. ground (arith, h)
first-Links s parent f (g ∷ gs) d l h =
    let same : f ≡ g = ground (arith, h) in
    λ e. own_parent s g gs d.0 (sym (subst (λ x. parent x ≡ to_filter x) same e) ∙ l.0)

present_step :
    {W : Type 0} (m : Methods W) (f : ℕ) (send_data : Bool) (c : FiltersChain) (w : W)
    → c.accept_duplicates ≡ false
    → is_filter_present f c.filters ≡ true
    → record c { parent = set_parent f (target_of c c.first) c.parent }
      ≡ (add_filter m f send_data c w).chain
unfolding add_filter
present_step m f send_data c w a p =
    let e : not c.accept_duplicates && is_filter_present f c.filters ≡ true = both a p in rw e refl
  where
    both : {x y : Bool} → x ≡ false → y ≡ true → not x && y ≡ true
    both q r = ground (arith, q, r)

-- A chain without duplicates that is given its first filter again makes this filter its own parent,
-- so that it is linked no more, though the list of filters is unchanged.
pub add_filter_again :
    {W : Type 0} (m : Methods W) (f : ℕ) (send_data : Bool) (c : FiltersChain) (w : W)
    → c.accept_duplicates ≡ false
    → c.first ≡ some f
    → is_filter_present f c.filters ≡ true
    → ((add_filter m f send_data c w).chain.filters ≡ c.filters)
      × ((add_filter m f send_data c w).chain.parent f ≡ to_filter f)
      × ¬ IsLinked (add_filter m f send_data c w).chain
unfolding target_of
add_filter_again m f send_data c w a h p =
    let q = set_parent_self f (target_of c c.first) c.parent ∙ ap (target_of c) h in
    subst (λ d. (d.filters ≡ c.filters) × (d.parent f ≡ to_filter f) × ¬ IsLinked d)
      (present_step m f send_data c w a p)
      (
        refl,
        q,
        λ l.
            first-Links c.stream (set_parent f (target_of c c.first) c.parent) f c.filters
              l.distinct l.links (sym h ∙ l.front) q,
      )
