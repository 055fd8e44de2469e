-- ===== src/Filters/Tests.antt =====
-- The theorems on the filters chain at concrete inputs, and runs of the code.
use gnu_my_server_gso_c.Base.{
  ℕ, List, [], ◌∷◌, ◌++◌, true, false, none, some, length, ◌≡◌, refl, arith,
}
use gnu_my_server_gso_c.Filters.Chain.{
  Target, to_stream, to_filter, FiltersChain, Methods, empty_chain, set_stream, add_filter,
  remove_filter, set_accept_duplicates, target_of, is_filter_present, chain_flush,
}
use gnu_my_server_gso_c.Filters.Linked.{IsLinked}
use gnu_my_server_gso_c.Filters.Moves.{without}
use gnu_my_server_gso_c.Filters.Runs.{
  Run, created, then_, stream_set, added, follow, Run-follow, Run-remove_filter, add_filter_again,
}

-- What was written, to each target.
abbrev Log : Type 0
Log = List (Target × List ℕ)

-- Filters whose footer is their own number.
abbrev numbered : Methods Log
numbered = record {
  header = λ f. some [];
  footer = λ f. some (f ∷ []);
  modifies = λ f. true;
  write = λ t bs w. (some (length bs), w ++ ((t, bs) ∷ []));
  flush = λ t w. (some 0, w);
}

abbrev no_parent : ℕ → Target
no_parent f = to_stream none

abbrev with_stream : FiltersChain
with_stream = set_stream (some 7) (empty_chain no_parent)

abbrev with_one : FiltersChain
with_one = (add_filter numbered 1 true with_stream []).chain

abbrev with_two : FiltersChain
with_two = (add_filter numbered 2 true with_one []).chain

first_absent : with_stream.filters ≡ []
unfolding set_stream empty_chain
first_absent = refl

run_to_two : Run numbered with_two
unfolding set_stream empty_chain add_filter
run_to_two =
    then_ (then_ (then_ (created no_parent) (stream_set (some 7))) (added 1 true [] tt))
      (added 2 true [] ((λ e. absurd (omega (arith, e))), tt))

run-follow_example :
    follow (length with_two.filters) with_two.parent (target_of with_two with_two.first)
    ≡ (with_two.filters, to_stream with_two.stream)
run-follow_example = Run-follow numbered with_two run_to_two

run-remove_filter_example :
    follow
      (length (without 1 with_two.filters))
      (remove_filter 1 with_two).parent
      (target_of (remove_filter 1 with_two) (remove_filter 1 with_two).first)
    ≡ (without 1 with_two.filters, to_stream (remove_filter 1 with_two).stream)
run-remove_filter_example = Run-remove_filter numbered with_two 1 run_to_two

two_filters : with_two.filters ≡ 2 ∷ 1 ∷ []
unfolding add_filter set_stream empty_chain
two_filters = refl

footers :
    chain_flush numbered with_two []
    ≡ (some 2, (to_stream (some 7), 1 ∷ []) ∷ (to_filter 1, 2 ∷ []) ∷ [])
unfolding chain_flush add_filter set_stream empty_chain
footers = refl

abbrev no_duplicates : FiltersChain
no_duplicates = set_accept_duplicates false with_two

refuses : no_duplicates.accept_duplicates ≡ false
unfolding set_accept_duplicates
refuses = refl

two_first : no_duplicates.first ≡ some 2
unfolding set_accept_duplicates add_filter set_stream empty_chain
two_first = refl

two_present : is_filter_present 2 no_duplicates.filters ≡ true
unfolding set_accept_duplicates add_filter set_stream empty_chain is_filter_present
two_present = refl

add_filter_again_example :
    ((add_filter numbered 2 false no_duplicates []).chain.filters ≡ no_duplicates.filters)
    × ((add_filter numbered 2 false no_duplicates []).chain.parent 2 ≡ to_filter 2)
    × ¬ IsLinked (add_filter numbered 2 false no_duplicates []).chain
add_filter_again_example =
    add_filter_again numbered 2 false no_duplicates [] refuses two_first two_present
