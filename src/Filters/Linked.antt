-- ===== src/Filters/Linked.antt =====
-- The links between the filters of a chain, and what the operations do to them.
use gnu_my_server_gso_c.Base.{
  ℕ, List, [], ◌∷◌, Bool, false, not, ◌&&◌, Option, none, some, ◌==◌, ◌≡◌, ◌≢◌, refl, ap, ◌∙◌, inl,
  inr, Bool-cases, ==_refl, arith,
}
use gnu_my_server_gso_c.Filters.Chain.{
  Target, to_stream, to_filter, FiltersChain, Methods, set_parent, is_filter_present, target_of,
  add_front, header_written, with_header, add_filter, head?,
}

abbrev pub Absent : ℕ → List ℕ → Type 0
Absent f [] = Unit
Absent f (g ∷ gs) = (f ≢ g) × Absent f gs

abbrev pub Distinct : List ℕ → Type 0
Distinct [] = Unit
Distinct (f ∷ fs) = Absent f fs × Distinct fs

-- What the next filter of the list, or the stream after the last, is for the one before it.
unfoldable pub next_target : Option ℕ → List ℕ → Target
next_target s [] = to_stream s
next_target s (f ∷ fs) = to_filter f

-- Each filter has the next one as its parent, and the last the stream.
abbrev pub Links : Option ℕ → (ℕ → Target) → List ℕ → Type 0
Links s parent [] = Unit
Links s parent (f ∷ fs) = (parent f ≡ next_target s fs) × Links s parent fs

pub record IsLinked (c : FiltersChain) : Type 0 where
  pub links : Links c.stream c.parent c.filters
  pub front : c.first ≡ head? c.filters
  pub distinct : Distinct c.filters

pub different : (f g : ℕ) → f ≢ g → (f == g) ≡ false
different f g n = ground (arith, n)

pub Links-set_parent :
    (s : Option ℕ) (parent : ℕ → Target) (g : ℕ) (t : Target) (fs : List ℕ)
    → Absent g fs
    → Links s parent fs
    → Links s (set_parent g t parent) fs
unfolding set_parent
Links-set_parent s parent g t [] a l = tt
Links-set_parent s parent g t (f ∷ fs) a l =
    let e : (f == g) ≡ false = ground (arith, a.0) in
    (rw e l.0, Links-set_parent s parent g t fs a.1 l.1)

pub set_parent_self : (g : ℕ) (t : Target) (parent : ℕ → Target) → set_parent g t parent g ≡ t
unfolding set_parent
set_parent_self g t parent = rw (==_refl g) refl

pub head?-next_target :
    (c : FiltersChain) (fs : List ℕ) → target_of c (head? fs) ≡ next_target c.stream fs
unfolding target_of head? next_target
head?-next_target c [] = refl
head?-next_target c (f ∷ fs) = refl

add_front-IsLinked :
    (f : ℕ) (c : FiltersChain)
    → IsLinked c
    → Absent f c.filters
    → IsLinked (add_front f (record c { parent = set_parent f (target_of c c.first) c.parent }))
unfolding add_front head?
add_front-IsLinked f c l a =
    let t = target_of c c.first in
    record {
      links = (
        set_parent_self f t c.parent ∙ ap (target_of c) l.front ∙ head?-next_target c c.filters,
        Links-set_parent c.stream c.parent f t c.filters a l.links,
      );
      front = refl;
      distinct = (a, l.distinct);
    }

-- The links after a change of a parent that the chain does not have.
set_parent-IsLinked :
    (f : ℕ) (t : Target) (c : FiltersChain)
    → IsLinked c
    → Absent f c.filters
    → IsLinked (record c { parent = set_parent f t c.parent })
set_parent-IsLinked f t c l a = record {
  links = Links-set_parent c.stream c.parent f t c.filters a l.links;
  front = l.front;
  distinct = l.distinct;
}

module _ {W : Type 0} (m : Methods W) where
  header_written-IsLinked :
      (f : ℕ) (d : FiltersChain) (o : Option ℕ × W)
      → IsLinked (add_front f d)
      → IsLinked (header_written f d o).chain
  unfolding header_written
  header_written-IsLinked f d (none, w) l = l
  header_written-IsLinked f d (some n, w) l = l

  with_header-IsLinked :
      (f : ℕ) (d : FiltersChain) (w : W) (o : Option (List ℕ))
      → IsLinked d
      → IsLinked (add_front f d)
      → IsLinked (with_header m f d w o).chain
  unfolding with_header
  with_header-IsLinked f d w none k l = k
  with_header-IsLinked f d w (some []) k l = l
  with_header-IsLinked f d w (some (b ∷ bs)) k l =
      header_written-IsLinked f d (m.write (d.parent f) (b ∷ bs) w) l

  pub add_filter-IsLinked :
      (f : ℕ) (send_data : Bool) (c : FiltersChain) (w : W)
      → IsLinked c
      → Absent f c.filters
      → IsLinked (add_filter m f send_data c w).chain
  unfolding add_filter
  add_filter-IsLinked f send_data c w l a =
      let t = target_of c c.first in
      let d = record c { parent = set_parent f t c.parent } in
      let kept = set_parent-IsLinked f t c l a in
      let pushed = add_front-IsLinked f c l a in
      elim (Bool-cases (not c.accept_duplicates && is_filter_present f c.filters)) [
        | inl there ↦ rw there kept
        | inr new ↦ elim (Bool-cases send_data) [
          | inl send ↦ rw (new, send) (with_header-IsLinked f d w (m.header f) kept pushed)
          | inr quiet ↦ rw (new, quiet) pushed
        ]
      ]
