-- ===== src/CampagnesManager/Compatible/Eligible.antt =====
-- Which campaigns the loop of `SelectCampagne` keeps.
use tabmo_codding_challenge.Common.Text.{Bytes, =s=_iff, is_empty, lower}
use tabmo_codding_challenge.Common.Text.Search.{IsPart, contains_iff, any_iff}
use tabmo_codding_challenge.Common.Int.{ℤ}
use tabmo_codding_challenge.Common.{
  ◌≡◌, ◌≢◌, ◌↔◌, ◌⊎◌, Bool, true, false, not, List, [], ◌∷◌, arith, All, Any, if◌then◌else◌,
}
use tabmo_codding_challenge.Float.{ge}
use tabmo_codding_challenge.BidRequest.{BidRequest}
use tabmo_codding_challenge.Campagne.{Campagne, Filters, language, application, ifa}
use tabmo_codding_challenge.CampagnesManager.Compatible.{
  eq_int, same_ratio, fits, can_pay, lower_request, any_lang, any_app, any_ifa, include_entry,
  exclude_entry, include_loop, exclude_loop, is_compatible,
}

-- An include filter that a request passes: one of its values is the language, is a part of the name
-- of the application, or is the `ifa`. The name and the `ifa` must be present.
abbrev Includes : (lang app device : Bytes) → Bytes × List Bytes → Type 0
Includes lang app device (key, values) =
    (key ≡ language → Any (λ value. lang ≡ value) values)
    × (key ≡ application → (app ≢ []) × Any (λ value. IsPart value app) values)
    × (key ≡ ifa → (device ≢ []) × Any (λ value. device ≡ value) values)

-- An exclude filter that a request passes: no value is so, and again the name and the `ifa` must be
-- present.
abbrev Excludes : (lang app device : Bytes) → Bytes × List Bytes → Type 0
Excludes lang app device (key, values) =
    (key ≡ language → ¬ (Any (λ value. lang ≡ value) values))
    × (key ≡ application → (app ≢ []) × (¬ (Any (λ value. IsPart value app) values)))
    × (key ≡ ifa → (device ≢ []) × (¬ (Any (λ value. device ≡ value) values)))

-- The conditions that a campaign must meet, each for itself. The filters hold lower-case values of
-- `language` and `ifa`, and so they are compared with the request in lower case.
pub record IsEligible (r : BidRequest) (c : Campagne) : Type 0 where
  pub sized :
      ((r.device_h ≡ c.height) × (r.device_w ≡ c.width))
      ⊎ ((c.responsive ≡ true) × (same_ratio r c ≡ true))
  pub solvent : ge c.budget c.bid_price ≡ true
  above_floor : ge c.bid_price r.bid_floor ≡ true
  pub included :
      All (Includes (lower r.device_lang) r.app_name (lower r.device_ifa)) c.filter_include
  pub excluded :
      All (Excludes (lower r.device_lang) r.app_name (lower r.device_ifa)) c.filter_exclude

eq_int_iff : (m n : ℤ) → (eq_int m n ≡ true) ↔ (m ≡ n)
unfolding eq_int
eq_int_iff m n = ground arith

fits_iff :
    (r : BidRequest) (c : Campagne)
    → (fits r c ≡ true) ↔ (
        ((r.device_h ≡ c.height) × (r.device_w ≡ c.width))
        ⊎ ((c.responsive ≡ true) × (same_ratio r c ≡ true)))
unfolding fits
fits_iff r c = ground (arith, eq_int_iff r.device_h c.height, eq_int_iff r.device_w c.width)

any_lang_iff :
    (r : BidRequest) (values : List Bytes)
    → (any_lang r values ≡ true) ↔ Any (λ value. r.device_lang ≡ value) values
unfolding any_lang
any_lang_iff r = any_iff _ _ (=s=_iff r.device_lang)

any_app_iff :
    (r : BidRequest) (values : List Bytes)
    → (any_app r values ≡ true) ↔ Any (λ value. IsPart value r.app_name) values
unfolding any_app
any_app_iff r = any_iff _ _ (λ value. contains_iff value r.app_name)

any_ifa_iff :
    (r : BidRequest) (values : List Bytes)
    → (any_ifa r values ≡ true) ↔ Any (λ value. r.device_ifa ≡ value) values
unfolding any_ifa
any_ifa_iff r = any_iff _ _ (=s=_iff r.device_ifa)

pub is_empty_iff : (s : Bytes) → (not (is_empty s) ≡ true) ↔ (s ≢ [])
is_empty_iff [] = ground arith
is_empty_iff (x ∷ s) = ground arith

module _ (r : BidRequest) where
  include_entry_iff :
      (ok : Bool) (entry : Bytes × List Bytes)
      → (include_entry r ok entry ≡ true)
        ↔ ((ok ≡ true) × Includes r.device_lang r.app_name r.device_ifa entry)
  unfolding include_entry
  include_entry_iff ok (key, values) = ground (
    arith,
    =s=_iff key language,
    =s=_iff key application,
    =s=_iff key ifa,
    any_lang_iff r values,
    any_app_iff r values,
    any_ifa_iff r values,
    is_empty_iff r.app_name,
    is_empty_iff r.device_ifa,
  )

  exclude_entry_iff :
      (ok : Bool) (entry : Bytes × List Bytes)
      → (exclude_entry r ok entry ≡ true)
        ↔ ((ok ≡ true) × Excludes r.device_lang r.app_name r.device_ifa entry)
  unfolding exclude_entry
  exclude_entry_iff ok (key, values) = ground (
    arith,
    =s=_iff key language,
    =s=_iff key application,
    =s=_iff key ifa,
    any_lang_iff r values,
    any_app_iff r values,
    any_ifa_iff r values,
    is_empty_iff r.app_name,
    is_empty_iff r.device_ifa,
  )

  include_loop_iff :
      (ok : Bool) (entries : Filters)
      → (include_loop r ok entries ≡ true)
        ↔ ((ok ≡ true) × All (Includes r.device_lang r.app_name r.device_ifa) entries)
  unfolding include_loop
  include_loop_iff ok [] = ground arith
  include_loop_iff ok (entry ∷ entries) = (
    λ h.
        let (now, later) = (include_loop_iff (include_entry r ok entry) entries).0 h in
        let (before, here) = (include_entry_iff ok entry).0 now in (before, (here, later)),
    λ (before, (here, later)).
        unfold include_loop in
        (include_loop_iff (include_entry r ok entry) entries).1
          ((include_entry_iff ok entry).1 (before, here), later),
  )

  exclude_loop_iff :
      (ok : Bool) (entries : Filters)
      → (exclude_loop r ok entries ≡ true)
        ↔ ((ok ≡ true) × All (Excludes r.device_lang r.app_name r.device_ifa) entries)
  unfolding exclude_loop
  exclude_loop_iff ok [] = ground arith
  exclude_loop_iff ok (entry ∷ entries) = (
    λ h.
        let (now, later) = (exclude_loop_iff (exclude_entry r ok entry) entries).0 h in
        let (before, here) = (exclude_entry_iff ok entry).0 now in (before, (here, later)),
    λ (before, (here, later)).
        unfold exclude_loop in
        (exclude_loop_iff (exclude_entry r ok entry) entries).1
          ((exclude_entry_iff ok entry).1 (before, here), later),
  )

pays_iff :
    (r : BidRequest) (c : Campagne)
    → ((if fits r c then can_pay r c else false) ≡ true)
      ↔ ((fits r c ≡ true) × (ge c.budget c.bid_price ≡ true) × (ge c.bid_price r.bid_floor ≡ true))
unfolding can_pay
pays_iff r c = ground arith

-- The loop body finds a campaign compatible exactly when it meets every condition of `IsEligible`: the
-- size or the ratio, the budget, the floor, and each include and exclude filter.
pub is_compatible_iff :
    (r : BidRequest) (c : Campagne) → (is_compatible r c ≡ true) ↔ IsEligible r c
unfolding is_compatible lower_request
is_compatible_iff r c = (
  λ h.
      let (included', excluded') = (exclude_loop_iff (lower_request r) _ c.filter_exclude).0 h in
      let (ok, included) = (include_loop_iff (lower_request r) _ c.filter_include).0 included' in
      let (fit, pays, floor) = (pays_iff r c).0 ok in
      record {
        sized = (fits_iff r c).0 fit;
        solvent = pays;
        above_floor = floor;
        included = included;
        excluded = excluded';
      },
  λ e. (exclude_loop_iff (lower_request r) _ c.filter_exclude).1 (
    (include_loop_iff (lower_request r) _ c.filter_include).1
        ((pays_iff r c).1 ((fits_iff r c).1 e.sized, e.solvent, e.above_floor), e.included),
    e.excluded,
  ),
)
