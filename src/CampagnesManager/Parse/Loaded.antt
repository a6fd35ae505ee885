-- ===== src/CampagnesManager/Parse/Loaded.antt =====
-- The campaign of an entry that `ParseCampagnesFromJson` reads.
use tabmo_codding_challenge.Common.Text.{codes}
use tabmo_codding_challenge.Common.Result.{Ensures-then, Ensures, Ensures-bind}
use tabmo_codding_challenge.Common.{inl, inr}
use tabmo_codding_challenge.Json.{Json}
use tabmo_codding_challenge.Campagne.{Campagne, construct}
use tabmo_codding_challenge.Campagne.Validation.{IsAccepted, construct_iff, construct_outcome}
use tabmo_codding_challenge.Float.Stof.{stof}
use tabmo_codding_challenge.Float.Stof.Floats.{stof-IsFloat}
use tabmo_codding_challenge.Float.Value.{IsFloat}
use tabmo_codding_challenge.CampagnesManager.Parse.FilterMap.{IsFilterMap}
use tabmo_codding_challenge.CampagnesManager.Parse.Reading.{read_filters-Ensures}
use tabmo_codding_challenge.CampagnesManager.Parse.{
  read_campagne, read_filters, string_at, int_at, bool_at,
}

-- A campaign that the constructor accepted, with values that a `float` can have and filters as
-- `GetFilterFromItr` makes them.
pub record IsLoaded (c : Campagne) : Type 0 where
  pub accepted : IsAccepted c
  pub float_budget : IsFloat c.budget
  pub float_price : IsFloat c.bid_price
  include_map : IsFilterMap c.filter_include
  exclude_map : IsFilterMap c.filter_exclude

construct-Ensures :
    (c : Campagne)
    → IsFloat c.budget
    → IsFloat c.bid_price
    → IsFilterMap c.filter_include
    → IsFilterMap c.filter_exclude
    → Ensures IsLoaded (construct c)
construct-Ensures c b p i x = elim (construct_outcome c) [
  | inl e ↦ rw e (record {
    accepted = (construct_iff c).0 e;
    float_budget = b;
    float_price = p;
    include_map = i;
    exclude_map = x;
  })
  | inr e ↦ rw e tt
]

module _ (j : Json) where
  open j use {Value}

  -- An entry that is read is a campaign that the constructor accepted.
  pub read_campagne-Ensures : (itr : Value) → Ensures IsLoaded (read_campagne j itr)
  unfolding read_campagne
  read_campagne-Ensures itr =
      Ensures-then IsFilterMap _ (read_filters j itr (codes "include")) _
        (read_filters-Ensures j itr (codes "include"))
        λ included is_included.
          Ensures-then IsFilterMap _ (read_filters j itr (codes "exclude")) _
            (read_filters-Ensures j itr (codes "exclude"))
            λ excluded is_excluded. Ensures-bind _ (string_at j itr (codes "id")) _ λ id.
              Ensures-bind _ (string_at j itr (codes "budget")) _ λ budget_text.
                Ensures-then IsFloat _ (stof budget_text) _ (stof-IsFloat budget_text)
                  λ budget is_budget.
                    Ensures-bind _ (string_at j itr (codes "bidPrice")) _ λ price_text.
                      Ensures-then IsFloat _ (stof price_text) _ (stof-IsFloat price_text)
                        λ bid_price is_price.
                          Ensures-bind _ (int_at j itr (codes "width")) _ λ width.
                            Ensures-bind _ (int_at j itr (codes "height")) _ λ height.
                              Ensures-bind _ (bool_at j itr (codes "responsive")) _ λ responsive.
                                Ensures-bind _ (string_at j itr (codes "url")) _ λ url.
                                  construct-Ensures _ is_budget is_price is_included is_excluded
