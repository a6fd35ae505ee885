-- ===== src/RtbCtrl/Server.antt =====
-- The handler of src/RtbCtrl.cpp in several threads, one for each request, as drogon calls it. A thread
-- reads its payload, runs `SelectCampagne` in the steps of `CampagnesManager/Threads`, and hands its
-- response to `callback`; other threads make steps between these.
pub mod Safety
pub mod Alone
pub mod Sequence
pub mod Progress
pub mod Typing
pub mod Locks
use tabmo_codding_challenge.Common.Result.{Result, ok, err}
use tabmo_codding_challenge.Common.{
  ℕ, Bool, Option, none, some, List, [], ◌∷◌, get_elem?, set, map, if◌then◌else◌,
}
use tabmo_codding_challenge.Json.{Json}
use tabmo_codding_challenge.BidRequest.{BidRequest}
use tabmo_codding_challenge.Campagne.{Campagne}
use tabmo_codding_challenge.CampagnesManager.Threads.{
  Stage, scanning, summing, buying, found_nothing, sold, refused, undefined, advance,
}
use tabmo_codding_challenge.RtbCtrl.{Response, respond, read_request, is_valid}

module _ (j : Json) where
  open j use {Value, null}

  -- A request that has come; one in `SelectCampagne`; one that is answered, or whose exception has left
  -- the handler.
  pub data Task : Type 0 where
    received : Task
    selecting : Stage j → Task
    answered : Result (Response j) → Task

  -- What follows the reading of the request.
  unfoldable pub admit : Result (Option BidRequest) → Task
  unfolding is_valid respond
  admit (err e) = answered (err e)
  admit (ok none) = answered (ok (respond j null))
  admit (ok (some r)) =
      if is_valid r then selecting (scanning r 0 []) else answered (ok (respond j null))

  unfoldable pub receive : Option Value → Task
  unfolding admit read_request
  receive none = answered (ok (respond j null))
  receive (some v) = admit (read_request j v)

  -- The answer at the end of `SelectCampagne`; the `logic_error` of a purchase that fails is caught.
  unfoldable pub answer_of : Stage j → Option (Result (Response j))
  unfolding respond
  answer_of (scanning r i found) = none
  answer_of (summing r ps left bs) = none
  answer_of (buying r k) = none
  answer_of found_nothing = some (ok (respond j null))
  answer_of (sold v) = some (ok (respond j v))
  answer_of refused = some (ok (respond j null))
  answer_of undefined = none

  abbrev select_more : List Campagne × Stage j → List Campagne × Task
  select_more (cs, stage) = (cs, selecting stage)

  -- One step of the handler, with the number that it draws if it does.
  unfoldable pub handle_step : ℕ → Option Value → List Campagne → Task → List Campagne × Task
  unfolding receive answer_of advance
  handle_step drawn payload cs received = (cs, receive payload)
  handle_step drawn payload cs (selecting stage) = elim (answer_of stage) [
    | none ↦ select_more (advance j drawn cs stage)
    | some a ↦ (cs, answered a)
  ]
  handle_step drawn payload cs (answered a) = (cs, answered a)

  -- The campaigns, and each request with its payload and where it stands.
  abbrev pub Server : Type 0
  Server = List Campagne × List (Option Value × Task)

  abbrev put_task : ℕ → List (Option Value × Task) → Option Value → List Campagne × Task → Server
  put_task t ts payload (cs, task) = (cs, set ts t (payload, task))

  unfoldable pub serve_step : ℕ × ℕ → Server → Server
  unfolding handle_step
  serve_step (t, drawn) (cs, ts) = elim (get_elem? ts t) [
    | none ↦ (cs, ts)
    | some (payload, task) ↦ put_task t ts payload (handle_step drawn payload cs task)
  ]

  -- A schedule says for each step which request it is for and what it draws.
  unfoldable pub serve_together : List (ℕ × ℕ) → Server → Server
  unfolding serve_step
  serve_together [] w = w
  serve_together (s ∷ schedule) w = serve_together schedule (serve_step s w)

  abbrev pub open_server : List Campagne → List (Option Value) → Server
  open_server cs payloads = (cs, map (λ payload. (payload, received)) payloads)
