-- ===== src/RtbCtrl/Price.antt =====
-- The price in the answers of src/RtbCtrl.cpp: what a reader of the JSON has of it.
use tabmo_codding_challenge.Common.Text.{Bytes}
use tabmo_codding_challenge.Common.Result.{ok}
use tabmo_codding_challenge.Common.{ℕ, ◌+◌, ◌*◌, ◌≤◌, ◌≡◌, arith, false}
use tabmo_codding_challenge.Float.{fin, one}
use tabmo_codding_challenge.Float.Print.{print_fixed}
use tabmo_codding_challenge.Float.Round.{round_ratio}
use tabmo_codding_challenge.Float.Stof.{stof}
use tabmo_codding_challenge.Float.Stof.Printed.{stof-print_fixed}
use tabmo_codding_challenge.Json.{Json, IsJson}
use tabmo_codding_challenge.BidRequest.{BidRequest}
use tabmo_codding_challenge.Campagne.{Campagne, price_max}
use tabmo_codding_challenge.CampagnesManager.Select.{creer_json, price}
use tabmo_codding_challenge.RtbCtrl.Answers.{Reads, creer_json_lem}

-- For a bid price that is a number up to 10: the member `price` of the JSON of the campaign reads as a
-- text from which `stof` reads the float nearest to a number of cents, and this number is within half
-- a cent of the price.
pub creer_json-price :
    (j : Json) (laws : IsJson j) (c : Campagne) (r : BidRequest) (p : ℕ)
    → c.bid_price ≡ fin false p
    → p ≤ price_max
    → (text : Bytes) × (cents : ℕ) × Reads j laws (creer_json j c r) price text
      × (stof text ≡ ok (fin false (round_ratio (cents * one) 100)))
      × (2 * (cents * one) ≤ 2 * (p * 100) + one)
      × (2 * (p * 100) ≤ 2 * (cents * one) + one)
creer_json-price j laws c r p is_price cheap =
    let (_, _, _, reads, _) = creer_json_lem j laws c r in
    let (cents, e, up, down) = stof-print_fixed p (omega arith) in
    (print_fixed 2 c.bid_price, cents, reads, rw is_price e, up, down)
