-- ===== src/Examples/Serving.antt =====
-- The theorems on the server, at two requests of which the first is valid.
use tabmo_codding_challenge.Common.Result.{Result}
use tabmo_codding_challenge.Common.{ℕ, ◌≡◌, Option, some, List, [], ◌∷◌, arith, map}
use tabmo_codding_challenge.Json.Tree.{Tree, tree_json, tree_json-IsJson}
use tabmo_codding_challenge.Campagne.{Campagne}
use tabmo_codding_challenge.CampagnesManager.Select.{select_campagne}
use tabmo_codding_challenge.CampagnesManager.Threads.{scanning}
use tabmo_codding_challenge.CampagnesManager.Threads.Alone.{Ends, select_campagne_alone}
use tabmo_codding_challenge.RtbCtrl.{Response}
use tabmo_codding_challenge.RtbCtrl.Requests.{serve, serve_lem}
use tabmo_codding_challenge.RtbCtrl.Server.{serve_together, open_server}
use tabmo_codding_challenge.RtbCtrl.Server.Sequence.{finished, payload_of, serve_is_schedule}
use tabmo_codding_challenge.Examples.Data.{ads, payload, floorless_payload, request, traffic}
use tabmo_codding_challenge.Examples.Witnesses.{ads-IsSeller}

abbrev payloads : List (Option Tree)
payloads = some payload ∷ some floorless_payload ∷ []

select_campagne_alone_example :
    Ends tree_json 42 (ads, scanning request 0 []) (select_campagne tree_json 42 ads request)
select_campagne_alone_example = select_campagne_alone tree_json 42 ads request

-- The campaigns and the answers of the three requests in a row.
abbrev served :
    (cs' : List Campagne) × (answers : List (Result (Response tree_json))) × (serve tree_json
        traffic ads
      ≡ some (cs', answers))
served =
    let (cs', answers, _, e, _, _, _, _) =
      serve_lem tree_json tree_json-IsJson traffic ads ads-IsSeller (omega arith) in
    (cs', answers, e)

serve_is_schedule_example :
    (schedule : List (ℕ × ℕ)) × (serve_together tree_json schedule
        (open_server tree_json ads (map (payload_of tree_json) traffic))
      ≡ (served.0, finished tree_json traffic served.1))
serve_is_schedule_example = serve_is_schedule tree_json traffic ads served.0 served.1 served.2
