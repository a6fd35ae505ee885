-- ===== src/CampagnesManager/Threads/Typing.antt =====
-- The numbers that a thread in `SelectCampagne` works with are of their types.
use tabmo_codding_challenge.Common.{
  ℕ, inl, inr, Bool, true, false, Option, some, none, List, [], ◌∷◌, get_elem?, All, All-set,
  All-append, All-get_elem?, Option-cases,
}
use tabmo_codding_challenge.Common.Int.{IsInt}
use tabmo_codding_challenge.Float.Value.{IsFloat}
use tabmo_codding_challenge.Json.{Json}
use tabmo_codding_challenge.BidRequest.{BidRequest}
use tabmo_codding_challenge.Campagne.{Campagne, decremente_budget}
use tabmo_codding_challenge.Campagne.Typing.{IsTyped, decremente_budget-IsTyped}
use tabmo_codding_challenge.CampagnesManager.Compatible.{lower_request}
use tabmo_codding_challenge.CampagnesManager.Draw.{random_select}
use tabmo_codding_challenge.CampagnesManager.Threads.{
  Stage, scanning, summing, buying, found_nothing, sold, refused, undefined, scanned, drawn_from,
  bought, advance,
}

pub record IsTypedRequest (r : BidRequest) : Type 0 where
  pub float_floor : IsFloat r.bid_floor
  pub int_width : IsInt r.device_w
  pub int_height : IsInt r.device_h

lower_request-IsTypedRequest :
    (r : BidRequest) → IsTypedRequest r → IsTypedRequest (lower_request r)
unfolding lower_request
lower_request-IsTypedRequest r typed = record {
  float_floor = typed.float_floor;
  int_width = typed.int_width;
  int_height = typed.int_height;
}

module _ (j : Json) where
  -- The request of a thread and the budgets that it has read.
  abbrev pub IsTypedStage : Stage j → Type 0
  IsTypedStage (scanning r i found) = IsTypedRequest r
  IsTypedStage (summing r ps left bs) = IsTypedRequest r × All IsFloat bs
  IsTypedStage (buying r k) = IsTypedRequest r
  IsTypedStage found_nothing = Unit {0}
  IsTypedStage (sold v) = Unit {0}
  IsTypedStage refused = Unit {0}
  IsTypedStage undefined = Unit {0}

  scanned-IsTypedStage :
      (r : BidRequest) (found : List ℕ) → IsTypedRequest r → IsTypedStage (scanned j r found)
  unfolding scanned
  scanned-IsTypedStage r [] typed = tt
  scanned-IsTypedStage r (p ∷ []) typed = typed
  scanned-IsTypedStage r (p ∷ q ∷ ps) typed = (typed, tt)

  drawn_from-IsTypedStage :
      (r : BidRequest) (ps : List ℕ) (o : Option ℕ)
      → IsTypedRequest r
      → IsTypedStage (drawn_from j r ps o)
  unfolding drawn_from
  drawn_from-IsTypedStage r ps none typed = tt
  drawn_from-IsTypedStage r ps (some i) typed = elim (Option-cases (get_elem? ps i)) [
    | inl e ↦ rw (e, drawn_from) tt
    | inr (k, e) ↦ rw (e, drawn_from) typed
  ]

  -- Campaigns and a thread whose numbers are of their types.
  abbrev pub AreTyped : List Campagne × Stage j → Type 0
  AreTyped (cs, stage) = All IsTyped cs × IsTypedStage stage

  bought-AreTyped :
      (cs : List Campagne) (r : BidRequest) (k : ℕ) (o : Campagne × Bool)
      → All IsTyped cs
      → IsTyped o.0
      → AreTyped (bought j cs r k o)
  unfolding bought
  bought-AreTyped cs r k (c, true) all typed = (All-set IsTyped cs k all typed, tt)
  bought-AreTyped cs r k (c, false) all typed = (All-set IsTyped cs k all typed, tt)

  pub advance-AreTyped :
      (drawn : ℕ) (cs : List Campagne) (stage : Stage j)
      → AreTyped (cs, stage)
      → AreTyped (advance j drawn cs stage)
  unfolding advance
  advance-AreTyped drawn cs (scanning r i found) (all, typed) =
      elim (Option-cases (get_elem? cs i)) [
        | inl e ↦ rw (e, advance) (all, scanned-IsTypedStage r found typed)
        | inr (c, e) ↦ rw (e, advance) (all, lower_request-IsTypedRequest r typed)
      ]
  advance-AreTyped drawn cs (summing r ps [] bs) (all, (typed, floats)) =
      (all, drawn_from-IsTypedStage r ps (random_select drawn bs) typed)
  advance-AreTyped drawn cs (summing r ps (p ∷ left) bs) (all, (typed, floats)) =
      elim (Option-cases (get_elem? cs p)) [
        | inl e ↦ rw (e, advance) (all, tt)
        | inr (c, e) ↦
            let read = All-get_elem? IsTyped cs p all e in
            rw (e, advance)
              (all, (typed, All-append IsFloat bs (c.budget ∷ []) floats (read.float_budget, tt)))
      ]
  advance-AreTyped drawn cs (buying r k) (all, typed) = elim (Option-cases (get_elem? cs k)) [
    | inl e ↦ rw (e, advance) (all, tt)
    | inr (c, e) ↦
        rw (e, advance)
          (bought-AreTyped cs r k (decremente_budget c) all
            (decremente_budget-IsTyped c (All-get_elem? IsTyped cs k all e)))
  ]
  advance-AreTyped drawn cs found_nothing typed = typed
  advance-AreTyped drawn cs (sold v) typed = typed
  advance-AreTyped drawn cs refused typed = typed
  advance-AreTyped drawn cs undefined typed = typed
