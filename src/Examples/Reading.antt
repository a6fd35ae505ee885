-- ===== src/Examples/Reading.antt =====
-- The theorems on filters, at entries of campaigns.
use tabmo_codding_challenge.Common.Text.{Bytes, codes, ◌=s=◌}
use tabmo_codding_challenge.Common.Result.{ok}
use tabmo_codding_challenge.Common.{◌≡◌, refl, some, [], ◌∷◌}
use tabmo_codding_challenge.Json.Tree.{
  Tree, tree_json, array, cons, end, member, nil, object, words,
}
use tabmo_codding_challenge.Campagne.{Filters, language, application}
use tabmo_codding_challenge.CampagnesManager.Parse.{get_filter_from_itr}
use tabmo_codding_challenge.CampagnesManager.Parse.FilterMap.{IsFilterMap, values_of}
use tabmo_codding_challenge.CampagnesManager.Parse.Reading.{
  Source, Lists, gathered, get_filter_from_itr_lem, empty_filters_dropped,
}
use tabmo_codding_challenge.Examples.Data.{
  puzzle_entry, puzzle_filters, puzzle_include, void_entry, void_include,
}

abbrev puzzle_source : Source tree_json
puzzle_source = (language, codes "EN" ∷ []) ∷ (application, codes "Puzzle" ∷ []) ∷ []

puzzle_node : tree_json.get puzzle_entry (codes "filters") ≡ some puzzle_filters
unfolding ◌=s=◌
puzzle_node = refl

puzzle_kind : tree_json.get puzzle_filters (codes "include") ≡ some puzzle_include
unfolding ◌=s=◌
puzzle_kind = refl

puzzle-Lists : Lists tree_json puzzle_include puzzle_source
unfolding ◌=s=◌
puzzle-Lists = (
  (array (cons (words (codes "EN")) nil), refl, (refl, tt)),
  ((array (cons (words (codes "Puzzle")) nil), refl, (refl, tt)), tt),
)

get_filter_from_itr_lem_example :
    (filters : Filters) × (get_filter_from_itr tree_json puzzle_entry (codes "include")
      ≡ ok filters)
    × IsFilterMap filters
    × ((key : Bytes) → values_of key filters ≡ gathered tree_json key puzzle_source)
get_filter_from_itr_lem_example =
    get_filter_from_itr_lem tree_json puzzle_entry puzzle_filters puzzle_include (codes "include")
      puzzle_node puzzle_kind puzzle_source refl puzzle-Lists

abbrev void_filters : Tree
void_filters = object (member (codes "include") void_include end)

void_node : tree_json.get void_entry (codes "filters") ≡ some void_filters
unfolding ◌=s=◌
void_node = refl

void_kind : tree_json.get void_filters (codes "include") ≡ some void_include
unfolding ◌=s=◌
void_kind = refl

void-Lists : Lists tree_json void_include ((language, []) ∷ [])
unfolding ◌=s=◌
void-Lists = ((array nil, refl, tt), tt)

empty_filters_dropped_example : get_filter_from_itr tree_json void_entry (codes "include") ≡ ok []
empty_filters_dropped_example =
    empty_filters_dropped tree_json void_entry void_filters void_include (codes "include") void_node
      void_kind ((language, []) ∷ []) refl void-Lists (refl, tt)
