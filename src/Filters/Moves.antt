-- ===== src/Filters/Moves.antt =====
-- setStream and removeFilter keep a chain linked.
use gnu_my_server_gso_c.Base.{
  ℕ, List, [], ◌∷◌, true, false, Option, none, some, ◌==◌, if◌then◌else◌, ◌≡◌, ◌≢◌, refl, sym, ap,
  subst, ◌∙◌, inl, inr, Bool-cases, ==_refl,
}
use gnu_my_server_gso_c.Filters.Chain.{
  Target, to_stream, to_filter, FiltersChain, set_parent, is_stream, is_target, redirect,
  set_stream, head?, unlink, remove_loop, remove_filter,
}
use gnu_my_server_gso_c.Filters.Linked.{
  Absent, Distinct, next_target, Links, IsLinked, Links-set_parent, set_parent_self, different,
}

is_target_self : (s : Option ℕ) → is_target s (to_stream s) ≡ true
unfolding is_target is_stream
is_target_self none = refl
is_target_self (some s) = ==_refl s

set_parent_other :
    (f g : ℕ) (t : Target) (parent : ℕ → Target) → f ≢ g → set_parent g t parent f ≡ parent f
unfolding set_parent
set_parent_other f g t parent n = rw (different f g n) refl

redirect_other :
    (old new : Option ℕ) (f : ℕ) (fs : List ℕ) (parent : ℕ → Target)
    → Absent f fs
    → redirect old new fs parent f ≡ parent f
unfolding redirect
redirect_other old new f [] parent a = refl
redirect_other old new f (g ∷ gs) parent a = elim (Bool-cases (is_target old (parent g))) [
  | inr no_match ↦ rw no_match (redirect_other old new f gs parent a.1)
  | inl match_ ↦
      let q = set_parent g (to_stream new) parent in
      rw match_
        (redirect_other old new f gs q a.1 ∙ set_parent_other f g (to_stream new) parent a.0)
]

redirect_step :
    (old new : Option ℕ) (f : ℕ) (fs : List ℕ) (parent : ℕ → Target)
    → is_target old (parent f) ≡ false
    → redirect old new fs parent ≡ redirect old new (f ∷ fs) parent
unfolding redirect
redirect_step old new f fs parent e = rw e refl

is_target_filter : (s : Option ℕ) (g : ℕ) → is_target s (to_filter g) ≡ false
unfolding is_target
is_target_filter s g = refl

redirect_last :
    (old new : Option ℕ) (f : ℕ) (parent : ℕ → Target)
    → parent f ≡ to_stream old
    → redirect old new (f ∷ []) parent f ≡ to_stream new
unfolding redirect
redirect_last old new f parent e =
    rw (e, is_target_self old) (set_parent_self f (to_stream new) parent)

Links-redirect :
    (old new : Option ℕ) (fs : List ℕ) (parent : ℕ → Target)
    → Distinct fs
    → Links old parent fs
    → Links new (redirect old new fs parent) fs
unfolding next_target
Links-redirect old new [] parent d l = tt
Links-redirect old new (f ∷ []) parent d l = (redirect_last old new f parent l.0, tt)
Links-redirect old new (f ∷ g ∷ gs) parent d l =
    let rest = Links-redirect old new (g ∷ gs) parent d.1 l.1 in
    let e : is_target old (parent f) ≡ false = ap (is_target old) l.0 ∙ is_target_filter old g in
    subst (λ q. Links new q (f ∷ g ∷ gs)) (redirect_step old new f (g ∷ gs) parent e)
      (redirect_other old new f (g ∷ gs) parent d.0 ∙ l.0, rest)

pub set_stream-IsLinked : (s : Option ℕ) (c : FiltersChain) → IsLinked c → IsLinked (set_stream s c)
unfolding set_stream
set_stream-IsLinked s c l = record {
  links = Links-redirect c.stream s c.filters c.parent l.distinct l.links;
  front = l.front;
  distinct = l.distinct;
}

-- A list without the first `f`.
unfoldable pub without : ℕ → List ℕ → List ℕ
without f [] = []
without f (g ∷ gs) = if g == f then gs else g ∷ without f gs

Absent-without : (f g : ℕ) (fs : List ℕ) → Absent g fs → Absent g (without f fs)
unfolding without
Absent-without f g [] a = tt
Absent-without f g (h ∷ hs) a = elim (Bool-cases (h == f)) [
  | inl e ↦ rw e a.1
  | inr e ↦ rw e (a.0, Absent-without f g hs a.1)
]

Distinct-without : (f : ℕ) (fs : List ℕ) → Distinct fs → Distinct (without f fs)
unfolding without
Distinct-without f [] d = tt
Distinct-without f (g ∷ gs) d = elim (Bool-cases (g == f)) [
  | inl e ↦ rw e d.1
  | inr e ↦ rw e (Absent-without f g gs d.0, Distinct-without f gs d.1)
]

remove_loop-without :
    (f : ℕ) (prev : Option ℕ) (fs : List ℕ) (parent : ℕ → Target) (first : Option ℕ)
    → (remove_loop f prev fs parent first).0 ≡ without f fs
unfolding remove_loop without
remove_loop-without f prev [] parent first = refl
remove_loop-without f prev (g ∷ gs) parent first = elim (Bool-cases (g == f)) [
  | inl e ↦ rw e refl
  | inr e ↦ rw e (ap (◌∷◌ g) (remove_loop-without f (some g) gs parent first))
]

-- Behind another filter the front stays, and no parent changes but those of the list and before it.
remove_loop_front :
    (f g : ℕ) (fs : List ℕ) (parent : ℕ → Target) (first : Option ℕ)
    → (remove_loop f (some g) fs parent first).2 ≡ first
unfolding remove_loop unlink
remove_loop_front f g [] parent first = refl
remove_loop_front f g (h ∷ hs) parent first = elim (Bool-cases (h == f)) [
  | inl e ↦ rw e refl
  | inr e ↦ rw e (remove_loop_front f h hs parent first)
]

remove_loop_other :
    (f g x : ℕ) (fs : List ℕ) (parent : ℕ → Target) (first : Option ℕ)
    → x ≢ g
    → Absent x fs
    → (remove_loop f (some g) fs parent first).1 x ≡ parent x
unfolding remove_loop unlink
remove_loop_other f g x [] parent first n a = refl
remove_loop_other f g x (h ∷ hs) parent first n a = elim (Bool-cases (h == f)) [
  | inl e ↦ rw e (set_parent_other x g (parent h) parent n)
  | inr e ↦ rw e (remove_loop_other f h x hs parent first a.0 a.1)
]

-- The parents after the loop, at the filter and before it.
remove_loop_found :
    (f g h : ℕ) (hs : List ℕ) (parent : ℕ → Target) (first : Option ℕ)
    → (h == f) ≡ true
    → set_parent g (parent h) parent ≡ (remove_loop f (some g) (h ∷ hs) parent first).1
unfolding remove_loop unlink
remove_loop_found f g h hs parent first e = rw e refl

remove_loop_step :
    (f h : ℕ) (prev : Option ℕ) (hs : List ℕ) (parent : ℕ → Target) (first : Option ℕ)
    → (h == f) ≡ false
    → (remove_loop f (some h) hs parent first).1 ≡ (remove_loop f prev (h ∷ hs) parent first).1
unfolding remove_loop
remove_loop_step f h prev hs parent first e = rw e refl

without_found : (f h : ℕ) (hs : List ℕ) → (h == f) ≡ true → hs ≡ without f (h ∷ hs)
unfolding without
without_found f h hs e = rw e refl

without_step : (f h : ℕ) (hs : List ℕ) → (h == f) ≡ false → h ∷ without f hs ≡ without f (h ∷ hs)
unfolding without
without_step f h hs e = rw e refl

without_nothing : (f : ℕ) → [] ≡ without f []
unfolding without
without_nothing f = refl

remove_loop_nothing :
    (f : ℕ) (prev : Option ℕ) (parent : ℕ → Target) (first : Option ℕ)
    → parent ≡ (remove_loop f prev [] parent first).1
unfolding remove_loop
remove_loop_nothing f prev parent first = refl

Links-remove_loop :
    (f g : ℕ) (s : Option ℕ) (fs : List ℕ) (parent : ℕ → Target) (first : Option ℕ)
    → Distinct (g ∷ fs)
    → Links s parent (g ∷ fs)
    → Links s (remove_loop f (some g) fs parent first).1 (g ∷ without f fs)
unfolding next_target
Links-remove_loop f g s [] parent first d l =
    subst (λ ys. Links s (remove_loop f (some g) [] parent first).1 (g ∷ ys)) (without_nothing f)
      (subst (λ q. Links s q (g ∷ [])) (remove_loop_nothing f (some g) parent first) l)
Links-remove_loop f g s (h ∷ hs) parent first d l = elim (Bool-cases (h == f)) [
  | inl e ↦
      subst (λ ys. Links s (remove_loop f (some g) (h ∷ hs) parent first).1 (g ∷ ys))
        (without_found f h hs e)
        (subst (λ q. Links s q (g ∷ hs)) (remove_loop_found f g h hs parent first e)
          (
            set_parent_self g (parent h) parent ∙ l.1.0,
            Links-set_parent s parent g (parent h) hs d.0.1 l.1.1,
          ))
  | inr e ↦
      subst (λ ys. Links s (remove_loop f (some g) (h ∷ hs) parent first).1 (g ∷ ys))
        (without_step f h hs e)
        (subst (λ q. Links s q (g ∷ h ∷ without f hs))
          (remove_loop_step f h (some g) hs parent first e)
          (
            remove_loop_other f h g hs parent first d.0.0 d.0.1 ∙ l.0,
            Links-remove_loop f h s hs parent first d.1 l.1,
          ))
]

first_found :
    (f g : ℕ) (gs : List ℕ) (parent : ℕ → Target) (first : Option ℕ)
    → (g == f) ≡ true
    → (gs, parent, head? gs) ≡ remove_loop f none (g ∷ gs) parent first
unfolding remove_loop unlink
first_found f g gs parent first e = rw e refl

first_step :
    (f g : ℕ) (gs : List ℕ) (parent : ℕ → Target) (first : Option ℕ)
    → (g == f) ≡ false
    → (
      g ∷ (remove_loop f (some g) gs parent first).0,
      (remove_loop f (some g) gs parent first).1,
      (remove_loop f (some g) gs parent first).2,
    )
      ≡ remove_loop f none (g ∷ gs) parent first
unfolding remove_loop
first_step f g gs parent first e = rw e refl

first_nothing :
    (f : ℕ) (parent : ℕ → Target) (first : Option ℕ)
    → ([], parent, first) ≡ remove_loop f none [] parent first
unfolding remove_loop
first_nothing f parent first = refl

abbrev Good : Option ℕ → List ℕ × (ℕ → Target) × Option ℕ → List ℕ → Type 0
Good s o fs = Links s o.1 fs × (o.2 ≡ head? fs)

-- The first filter of the list, or one behind it, is taken out.
remove_first :
    (f : ℕ) (s : Option ℕ) (fs : List ℕ) (parent : ℕ → Target) (first : Option ℕ)
    → Distinct fs
    → Links s parent fs
    → first ≡ head? fs
    → Good s (remove_loop f none fs parent first) (without f fs)
unfolding head?
remove_first f s [] parent first d l h =
    subst (Good s (remove_loop f none [] parent first)) (without_nothing f)
      (subst (λ o. Good s o []) (first_nothing f parent first) (tt, h))
remove_first f s (g ∷ gs) parent first d l h = elim (Bool-cases (g == f)) [
  | inl e ↦
      subst (Good s (remove_loop f none (g ∷ gs) parent first)) (without_found f g gs e)
        (subst (λ o. Good s o gs) (first_found f g gs parent first e) (l.1, refl))
  | inr e ↦ subst (Good s (remove_loop f none (g ∷ gs) parent first)) (without_step f g gs e) (
      subst (λ o. Good s o (g ∷ without f gs)) (first_step f g gs parent first e)
        (Links-remove_loop f g s gs parent first d l, remove_loop_front f g gs parent first ∙ h))
]

-- removeFilter takes the first occurrence of the filter out of the list.
pub remove_filter-IsLinked :
    (f : ℕ) (c : FiltersChain)
    → IsLinked c
    → IsLinked (remove_filter f c) × ((remove_filter f c).filters ≡ without f c.filters)
unfolding remove_filter
remove_filter-IsLinked f c l =
    let o = remove_loop f none c.filters c.parent c.first in
    let e = remove_loop-without f none c.filters c.parent c.first in
    let (links, front) =
      remove_first f c.stream c.filters c.parent c.first l.distinct l.links l.front in
    (
      record {
        links = subst (λ ys. Links c.stream o.1 ys) (sym e) links;
        front = front ∙ ap head? (sym e);
        distinct = subst Distinct (sym e) (Distinct-without f c.filters l.distinct);
      },
      e,
    )
