-- ===== src/Startup/Serving.antt =====
-- What `main` starts the server with.
use tabmo_codding_challenge.Common.Result.{Result, ok, err}
use tabmo_codding_challenge.Common.{
  ◌≡◌, ◌≢◌, ◌⊎◌, inl, inr, refl, Bool, true, false, Option, List, [], ◌∷◌, arith, length, All,
}
use tabmo_codding_challenge.Float.Value.{IsFloat}
use tabmo_codding_challenge.Json.{Json}
use tabmo_codding_challenge.Campagne.{Campagne, budget_min, budget_max, price_min, price_max}
use tabmo_codding_challenge.Campagne.Validation.{IsNanOrWithin}
use tabmo_codding_challenge.Campagne.Budget.{IsSeller}
use tabmo_codding_challenge.CampagnesManager.Parse.{parse_campagnes_from_json}
use tabmo_codding_challenge.CampagnesManager.Parse.Loaded.{IsLoaded}
use tabmo_codding_challenge.CampagnesManager.Parse.Entries.{parse_campagnes-IsLoaded}
use tabmo_codding_challenge.Startup.{serving, start_from, main}

seller :
    (c : Campagne)
    → IsFloat c.budget
    → IsNanOrWithin budget_min budget_max c.budget
    → IsNanOrWithin price_min price_max c.bid_price
    → IsSeller c
seller c f (inl e) _ = inl (inl e)
seller c f (inr _) (inl e) = inl (inr e)
seller c f (inr (b, eb, low, high)) (inr (p, ep, cheap, dear)) = inr (
  b,
  p,
  record {
    is_budget = eb;
    is_price = ep;
    is_float = (rw eb at f).0;
    bounded = high;
    priced = cheap;
    cheap = dear;
  },
)

IsLoaded-IsSeller : (c : Campagne) → IsLoaded c → IsSeller c
IsLoaded-IsSeller c l = seller c l.float_budget l.accepted.funded l.accepted.priced

sellers : (cs : List Campagne) → All IsLoaded cs → All IsSeller cs
sellers [] _ = tt
sellers (c ∷ cs) (l, ls) = (IsLoaded-IsSeller c l, sellers cs ls)

pub start_cases :
    (r : Result (List Campagne × Bool)) (cs : List Campagne)
    → start_from r ≡ serving cs
    → (good : Bool) × (r ≡ ok (cs, good)) × ((good ≡ true) ⊎ (cs ≢ []))
unfolding start_from
start_cases (err e) cs h = absurd (cc)
start_cases (ok (cs', true)) cs h = (true, cc, inl refl)
start_cases (ok ([], false)) cs h = absurd (cc)
start_cases (ok (c ∷ cs', false)) cs h = (false, ground arith, inr (ground arith))

module _ (j : Json) where
  open j use {Value, size, items}

  -- If the size of a JSON value counts its items and the server starts, it has at least one campaign,
  -- and each is one that the constructor accepts and holds numbers or NaN.
  pub main-serving :
      ((v : Value) → size v ≡ length (items v))
      → (document : Option Value) (cs : List Campagne) → main j document ≡ serving cs
      → (cs ≢ []) × All IsLoaded cs × All IsSeller cs
  unfolding main
  main-serving sized document cs h =
      let (good, e, full) = start_cases (parse_campagnes_from_json j document []) cs h in
      let (loaded, full') = parse_campagnes-IsLoaded j sized document cs good e in
      let some_campaign : cs ≢ [] = elim full [
        | inr ne ↦ ne
        | inl yes_good ↦ elim full' [ inl no_good ↦ absurd (cc) | inr ne ↦ ne ]
      ] in
      (some_campaign, loaded, sellers cs loaded)
