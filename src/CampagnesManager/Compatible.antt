-- ===== src/CampagnesManager/Compatible.antt =====
-- `CampagnesManager::SelectCampagne`, the body of the loop over the campaigns: whether one campaign
-- is compatible with a bid request.
pub mod Eligible
pub mod Positions
pub mod Ratio
use tabmo_codding_challenge.Common.Text.{Bytes, ◌=s=◌, is_empty, lower, contains}
use tabmo_codding_challenge.Common.Int.{ℤ, is_negative, abs}
use tabmo_codding_challenge.Common.{
  ℕ, suc, Bool, true, false, not, ◌&&◌, List, [], ◌∷◌, ◌==◌, if◌then◌else◌, any,
}
use tabmo_codding_challenge.Float.{eq, ge, div, from_int}
use tabmo_codding_challenge.BidRequest.{BidRequest}
use tabmo_codding_challenge.Campagne.{Campagne, Filters, language, application, ifa}

-- `==` of two `int`.
unfoldable pub eq_int : ℤ → ℤ → Bool
eq_int m n =
    if is_negative m then is_negative n && abs m == abs n else not (is_negative n) && abs m == abs n

unfoldable same_size : BidRequest → Campagne → Bool
unfolding eq_int
same_size r c = eq_int r.device_h c.height && eq_int r.device_w c.width

-- The quotients of the sizes, computed with `float`.
unfoldable pub same_ratio : BidRequest → Campagne → Bool
unfolding from_int div
same_ratio r c =
    eq (div (from_int r.device_h) (from_int r.device_w))
      (div (from_int c.height) (from_int c.width))

unfoldable pub fits : BidRequest → Campagne → Bool
unfolding same_size
fits r c = if not (same_size r c) && c.responsive then same_ratio r c else same_size r c

-- The budget covers the price, and the price the floor.
unfoldable pub can_pay : BidRequest → Campagne → Bool
can_pay r c = ge c.budget c.bid_price && ge c.bid_price r.bid_floor

-- The request keeps its language and its `ifa` in lower case.
unfoldable pub lower_request : BidRequest → BidRequest
unfolding lower
lower_request r = record r { device_lang = lower r.device_lang; device_ifa = lower r.device_ifa }

-- The three lambdas, each over the values of a filter.
unfoldable pub any_lang : BidRequest → List Bytes → Bool
unfolding ◌=s=◌
any_lang r = any (λ value. r.device_lang =s= value)

unfoldable pub any_app : BidRequest → List Bytes → Bool
unfolding contains
any_app r = any (λ value. contains value r.app_name)

unfoldable pub any_ifa : BidRequest → List Bytes → Bool
unfolding ◌=s=◌
any_ifa r = any (λ value. r.device_ifa =s= value)

-- One round of the loop over the entries of the include map, and of the exclude map. Each test runs
-- only while the campaign is still compatible.
unfoldable pub include_entry : BidRequest → Bool → Bytes × List Bytes → Bool
include_entry r ok (key, values) =
    let ok1 = if ok && key =s= language then any_lang r values else ok in
    let ok2 =
      if ok1 && key =s= application then not (is_empty r.app_name) && any_app r values else ok1 in
    if ok2 && key =s= ifa then not (is_empty r.device_ifa) && any_ifa r values else ok2

unfoldable pub exclude_entry : BidRequest → Bool → Bytes × List Bytes → Bool
exclude_entry r ok (key, values) =
    let ok1 = if ok && key =s= language then not (any_lang r values) else ok in
    let ok2 =
      if ok1 && key =s= application
      then not (is_empty r.app_name) && not (any_app r values)
      else ok1 in
    if ok2 && key =s= ifa then not (is_empty r.device_ifa) && not (any_ifa r values) else ok2

unfoldable pub include_loop : BidRequest → Bool → Filters → Bool
include_loop r ok [] = ok
include_loop r ok (entry ∷ entries) = include_loop r (include_entry r ok entry) entries

unfoldable pub exclude_loop : BidRequest → Bool → Filters → Bool
exclude_loop r ok [] = ok
exclude_loop r ok (entry ∷ entries) = exclude_loop r (exclude_entry r ok entry) entries

-- The filters are tested on the request in lower case, which the loop keeps.
unfoldable pub is_compatible : BidRequest → Campagne → Bool
is_compatible r c =
    let ok = if fits r c then can_pay r c else false in
    let r' = lower_request r in
    exclude_loop r' (include_loop r' ok c.filter_include) c.filter_exclude

-- The loop: the request at its end, and the compatible campaigns as positions in the list.
unfoldable pub compatibles : BidRequest → ℕ → List Campagne → BidRequest × List ℕ
compatibles r i [] = (r, [])
compatibles r i (c ∷ cs) =
    let (r', rest) = compatibles (lower_request r) (suc i) cs in
    (r', if is_compatible r c then i ∷ rest else rest)
