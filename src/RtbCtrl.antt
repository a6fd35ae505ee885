-- ===== src/RtbCtrl.antt =====
-- src/RtbCtrl.h and src/RtbCtrl.cpp: the handler of `GET /rtb`. The payload is what drogon makes of
-- the body, `none` if it is no JSON. The response is what the handler hands to `callback`; `err` is
-- an exception that leaves the handler, and the outer `none` is undefined behaviour.
pub mod Answers
pub mod Ignored
pub mod Price
pub mod Requests
pub mod Server
use tabmo_codding_challenge.Common.Text.{Bytes, codes, is_empty}
use tabmo_codding_challenge.Common.Result.{
  Result, ok, err, json, json_logic_error, invalid_argument, out_of_range, logic_error, ◌>>=◌,
}
use tabmo_codding_challenge.Common.Int.{ℤ}
use tabmo_codding_challenge.Common.{
  ℕ, Bool, not, ◌&&◌, Option, none, some, List, ◌==◌, if◌then◌else◌,
}
use tabmo_codding_challenge.Float.{Float, eq}
use tabmo_codding_challenge.Float.Stof.{stof}
use tabmo_codding_challenge.Json.{Json}
use tabmo_codding_challenge.BidRequest.{BidRequest}
use tabmo_codding_challenge.Campagne.{Campagne, nought, is_zero}
use tabmo_codding_challenge.CampagnesManager.Parse.{string_at, int_at}
use tabmo_codding_challenge.CampagnesManager.Select.{Outcome, select_campagne}

-- The control of the critical data.
unfoldable pub is_valid : BidRequest → Bool
unfolding is_zero
is_valid r =
    not (is_empty r.id)
    && not (is_empty r.device_lang)
    && not (eq r.bid_floor nought)
    && not (is_zero r.device_w)
    && not (is_zero r.device_h)

module _ (j : Json) where
  open j use {Value, null, get, size}

  pub record Response : Type 0 where
    pub body : Value
    pub status_code : ℕ

  abbrev pub Handled : Type 0
  Handled = Option (List Campagne × Result Response)

  -- `lResult.size() != 0 ? k200OK : k204NoContent`.
  unfoldable pub respond : Value → Response
  respond v = record { body = v; status_code = if size v == 0 then 204 else 200 }

  -- `(*lJsonData)[outer][inner].asString()`.
  unfoldable pub string_in : Value → Bytes → Bytes → Result Bytes
  unfolding string_at
  string_in v outer inner = do node ← json (get v outer); string_at j node inner

  -- The numbers, read inside `try`: the two sizes and the floor.
  unfoldable pub read_numbers : Value → Result (ℤ × ℤ × Float)
  unfolding string_at int_at
  read_numbers v = do
    device ← json (get v (codes "device"))
    w ← int_at j device (codes "w")
    h ← int_at j device (codes "h")
    floor_text ← string_at j v (codes "bid-floor")
    bid_floor ← stof floor_text
    ok (w, h, bid_floor)

  -- The request that is built of the strings and, unless reading them threw, the numbers. `none` is
  -- `lErreurParsing`.
  unfoldable pub read_request : Value → Result (Option BidRequest)
  unfolding string_at string_in read_numbers
  read_request v = do
    id ← string_at j v (codes "id")
    lang ← string_in v (codes "device") (codes "lang")
    app_name ← string_in v (codes "app") (codes "name")
    ifa ← string_in v (codes "device") (codes "ifa")
    elim (read_numbers v) [
      | err e ↦ ok none
      | ok (w, h, bid_floor) ↦ ok (
          some (record {
            id = id;
            bid_floor = bid_floor;
            device_w = w;
            device_h = h;
            device_ifa = ifa;
            device_lang = lang;
            app_name = app_name;
          }))
    ]

  -- `catch (logic_error&)` round the selection leaves the result null.
  unfoldable pub answer : Outcome j → Handled
  unfolding respond
  answer none = none
  answer (some (cs, r, ok v)) = some (cs, ok (respond v))
  answer (some (cs, r, err json_logic_error)) = some (cs, err json_logic_error)
  answer (some (cs, r, err invalid_argument)) = some (cs, ok (respond null))
  answer (some (cs, r, err out_of_range)) = some (cs, ok (respond null))
  answer (some (cs, r, err logic_error)) = some (cs, ok (respond null))

  unfoldable pub process : ℕ → List Campagne → Result (Option BidRequest) → Handled
  unfolding is_valid answer
  process drawn cs (err e) = some (cs, err e)
  process drawn cs (ok none) = some (cs, ok (respond null))
  process drawn cs (ok (some r)) =
      if is_valid r then answer (select_campagne j drawn cs r) else some (cs, ok (respond null))

  unfoldable pub async_handle_http_request : ℕ → Option Value → List Campagne → Handled
  unfolding process read_request
  async_handle_http_request drawn none cs = some (cs, ok (respond null))
  async_handle_http_request drawn (some v) cs = process drawn cs (read_request v)
