-- ===== src/Examples/Handling.antt =====
-- The theorems on the start of the program, the handler and the threads, at the same data.
use tabmo_codding_challenge.Common.Text.{Bytes, codes, ◌=s=◌}
use tabmo_codding_challenge.Common.Result.{Result, ok, err, json_logic_error, invalid_argument}
use tabmo_codding_challenge.Common.{
  inl, inr, map, List, length, count_if, arith, ◌≡◌, ◌≢◌, ◌⊎◌, inl, refl, false, some, [], ◌∷◌, ◌*◌,
  ◌+◌, ◌≤◌, ◌<◌, All, get_elem?, ℕ, set,
}
use tabmo_codding_challenge.Float.{fin, one}
use tabmo_codding_challenge.Float.Print.{print_fixed}
use tabmo_codding_challenge.Float.Round.{round_ratio}
use tabmo_codding_challenge.Float.Stof.{stof}
use tabmo_codding_challenge.Json.Tree.{tree_json, tree_json-IsJson, array, nil, nothing, words}
use tabmo_codding_challenge.Campagne.{Campagne}
use tabmo_codding_challenge.Campagne.Budget.{Holds, IsSeller}
use tabmo_codding_challenge.CampagnesManager.Compatible.{lower_request}
use tabmo_codding_challenge.CampagnesManager.Compatible.Eligible.{IsEligible}
use tabmo_codding_challenge.CampagnesManager.Select.{
  creer_json, auction_id, campaign_id, price, url,
}
use tabmo_codding_challenge.CampagnesManager.Select.Sale.{paid}
use tabmo_codding_challenge.CampagnesManager.Parse.Loaded.{IsLoaded}
use tabmo_codding_challenge.RtbCtrl.{Response, async_handle_http_request}
use tabmo_codding_challenge.RtbCtrl.Answers.{
  handle_valid, handle_throws, creer_json_lem, no_content, Reads,
}
use tabmo_codding_challenge.RtbCtrl.Ignored.{IsIgnored, handle_ignored}
use tabmo_codding_challenge.RtbCtrl.Price.{creer_json-price}
use tabmo_codding_challenge.RtbCtrl.Requests.{serve, is_sale, serve_lem}
use tabmo_codding_challenge.CampagnesManager.Bill.{Sold, total}
use tabmo_codding_challenge.CampagnesManager.Threads.{Thread, World, start, interleave}
use tabmo_codding_challenge.CampagnesManager.Threads.Interleaving.{Seen, IsSafe, interleave_lem}
use tabmo_codding_challenge.Startup.Serving.{main-serving}
use tabmo_codding_challenge.Examples.Data.{
  schedule, traffic, puzzle, ads, request, puzzle_price, document, payload, floorless_payload,
  odd_payload,
}
use tabmo_codding_challenge.Examples.Runs.{document_served, payload_read, request_valid}
use tabmo_codding_challenge.Examples.Witnesses.{ads-IsSeller}

main-serving_example : (ads ≢ []) × All IsLoaded ads × All IsSeller ads
main-serving_example = main-serving tree_json (λ v. refl) (some document) ads document_served

handle_valid_example :
    let handled = async_handle_http_request tree_json 42 (some payload) ads in
    (All (λ c. ¬ IsEligible request c) ads
      × (handled ≡ some (ads, ok (no_content tree_json tree_json-IsJson))))
    ⊎ ((k : ℕ) × (c : Campagne) × (b : ℕ) × (p : ℕ) × (get_elem? ads k ≡ some c)
        × IsEligible request c
        × Holds c b p
        × (p ≤ b)
        × (handled
            ≡ some (
              set ads k (paid c b p),
              ok (record {
                body = creer_json tree_json (paid c b p) (lower_request request);
                status_code = 200;
              }),
            )))
handle_valid_example =
    handle_valid tree_json tree_json-IsJson 42 ads ads-IsSeller (omega arith) payload request
      payload_read request_valid

-- The floor of this payload is read as the empty text, which is no number.
floorless-IsIgnored : IsIgnored tree_json tree_json-IsJson (some floorless_payload)
unfolding stof round_ratio ◌=s=◌
floorless-IsIgnored = (
  record {
    device = nothing;
    app = nothing;
    id = codes "488d874f";
    lang = [];
    name = [];
    ifa = [];
    device_at = refl;
    app_at = refl;
    id_at = (words (codes "488d874f"), refl, refl);
    lang_at = (nothing, refl, refl);
    name_at = (nothing, refl, refl);
    ifa_at = (nothing, refl, refl);
  },
  inl (inr (inr (inr ([], invalid_argument, (nothing, refl, refl), refl)))),
)

handle_ignored_example :
    async_handle_http_request tree_json 42 (some floorless_payload) ads
    ≡ some (ads, ok (no_content tree_json tree_json-IsJson))
handle_ignored_example =
    handle_ignored tree_json tree_json-IsJson 42 ads (some floorless_payload) floorless-IsIgnored

odd_id : tree_json.get odd_payload (codes "id") ≡ some (array nil)
unfolding ◌=s=◌
odd_id = refl

handle_throws_example :
    async_handle_http_request tree_json 42 (some odd_payload) ads ≡ some (ads, err json_logic_error)
handle_throws_example =
    handle_throws tree_json tree_json-IsJson 42 ads odd_payload (array nil) odd_id refl

creer_json_lem_example :
    let v = creer_json tree_json puzzle request in
    (0 < tree_json.size v)
    × Reads tree_json tree_json-IsJson v auction_id request.id
    × Reads tree_json tree_json-IsJson v campaign_id puzzle.id
    × Reads tree_json tree_json-IsJson v price (print_fixed 2 puzzle.bid_price)
    × Reads tree_json tree_json-IsJson v url puzzle.url
creer_json_lem_example = creer_json_lem tree_json tree_json-IsJson puzzle request

creer_json-price_example :
    (text : Bytes) × (cents : ℕ) × Reads tree_json tree_json-IsJson
      (creer_json tree_json puzzle request)
      price
      text
    × (stof text ≡ ok (fin false (round_ratio (cents * one) 100)))
    × (2 * (cents * one) ≤ 2 * (puzzle_price * 100) + one)
    × (2 * (puzzle_price * 100) ≤ 2 * (cents * one) + one)
creer_json-price_example =
    creer_json-price tree_json tree_json-IsJson puzzle request puzzle_price refl (omega arith)

serve_lem_example :
    (cs' : List Campagne) × (answers : List (Result (Response tree_json))) × (ns : List ℕ) × (serve
        tree_json traffic ads
      ≡ some (cs', answers))
    × (length answers ≡ length traffic)
    × All IsSeller cs'
    × Sold ns ads cs'
    × (total ns ≡ count_if (is_sale tree_json) answers)
serve_lem_example = serve_lem tree_json tree_json-IsJson traffic ads ads-IsSeller (omega arith)

abbrev pair : List (Thread tree_json)
pair = start tree_json request ∷ start tree_json request ∷ []

interleave_lem_example :
    let w : World tree_json = (ads, map (start tree_json) (request ∷ request ∷ [])) in
    IsSafe tree_json ads (Seen tree_json schedule w) (interleave tree_json schedule w)
interleave_lem_example =
    interleave_lem tree_json ads (omega arith) (request ∷ request ∷ []) schedule ads-IsSeller
