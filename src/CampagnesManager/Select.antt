-- ===== src/CampagnesManager/Select.antt =====
-- `CampagnesManager::SelectCampagne` and `CreerJsonFromCampagne`, for one thread. The state is the
-- list of campaigns and the request, which is passed by reference; a selected campaign is its
-- position in the list, where the code has its address. `none` is undefined behaviour.
pub mod Sale
use tabmo_codding_challenge.Common.Text.{Bytes, codes}
use tabmo_codding_challenge.Common.Result.{Result, ok, err, logic_error}
use tabmo_codding_challenge.Common.{
  ℕ, Bool, true, false, Option, none, some, List, [], ◌∷◌, get_elem?, set,
}
use tabmo_codding_challenge.Float.{Float}
use tabmo_codding_challenge.Float.Print.{print_fixed}
use tabmo_codding_challenge.Json.{Json}
use tabmo_codding_challenge.BidRequest.{BidRequest}
use tabmo_codding_challenge.Campagne.{Campagne, decremente_budget}
use tabmo_codding_challenge.CampagnesManager.Compatible.{compatibles}
use tabmo_codding_challenge.CampagnesManager.Draw.{random_select}

-- The budgets that `RandomSelectCampagne` reads through the pointers.
unfoldable pub budgets_at : List Campagne → List ℕ → List Float
budgets_at cs [] = []
budgets_at cs (p ∷ ps) = elim (get_elem? cs p) [
  | none ↦ budgets_at cs ps
  | some c ↦ c.budget ∷ budgets_at cs ps
]

-- The position of the campaign that the draw selects.
unfoldable pub selected : ℕ → List Campagne → List ℕ → Option ℕ
unfolding budgets_at
selected drawn cs ps = elim (random_select drawn (budgets_at cs ps)) [
  | none ↦ none
  | some i ↦ get_elem? ps i
]

abbrev pub auction_id : Bytes
auction_id = codes "auctionId"

abbrev pub campaign_id : Bytes
campaign_id = codes "campaignId"

abbrev pub price : Bytes
price = codes "price"

abbrev pub url : Bytes
url = codes "url"

module _ (j : Json) where
  open j use {Value, null, put}

  unfoldable pub creer_json : Campagne → BidRequest → Value
  unfolding print_fixed
  creer_json c r =
      put (put (put (put null auction_id r.id) campaign_id c.id) price (print_fixed 2 c.bid_price))
        url c.url

  abbrev pub Outcome : Type 0
  Outcome = Option (List Campagne × BidRequest × Result Value)

  -- The purchase, at the position that was selected.
  unfoldable pub buy_sold : List Campagne → BidRequest → ℕ → Campagne × Bool → Outcome
  unfolding creer_json
  buy_sold cs r p (c, true) = some (set cs p c, r, ok (creer_json c r))
  buy_sold cs r p (c, false) = some (set cs p c, r, err logic_error)

  unfoldable pub buy : List Campagne → BidRequest → Option ℕ → Outcome
  unfolding buy_sold
  buy cs r none = none
  buy cs r (some p) = elim (get_elem? cs p) [
    | none ↦ none
    | some c ↦ buy_sold cs r p (decremente_budget c)
  ]

  unfoldable pub choose : ℕ → List Campagne → BidRequest × List ℕ → Outcome
  unfolding selected buy
  choose drawn cs (r, []) = some (cs, r, ok null)
  choose drawn cs (r, p ∷ ps) = buy cs r (selected drawn cs (p ∷ ps))

  unfoldable pub select_campagne : ℕ → List Campagne → BidRequest → Outcome
  unfolding choose
  select_campagne drawn cs r = choose drawn cs (compatibles r 0 cs)
