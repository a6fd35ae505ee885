-- ===== src/Examples/Loading.antt =====
-- The start of the program on objects, with the documents of the examples. The vector has room for four
-- campaigns at most before it grows.
use tabmo_codding_challenge.Common.{
  ℕ, ◌≡◌, List, arith, ◌∷◌, [], ◌==◌, ◌||◌, Bool, refl, false, some,
}
use tabmo_codding_challenge.Common.Result.{out_of_range}
use tabmo_codding_challenge.Json.Tree.{tree_json, tree_json-IsJson}
use tabmo_codding_challenge.Campagne.{
  Campagne, construct, lacks_mandatory, has_common_filter, has_invalid_filter, is_out_of,
}
use tabmo_codding_challenge.Campagne.Objects.Copies.{object}
use tabmo_codding_challenge.CampagnesManager.Memory.{Memory, finished}
use tabmo_codding_challenge.CampagnesManager.Parse.{read_campagne, handle}
use tabmo_codding_challenge.Float.{le}
use tabmo_codding_challenge.Float.Round.{round_ratio}
use tabmo_codding_challenge.Float.Stof.{stof}
use tabmo_codding_challenge.Startup.{main, serving}
use tabmo_codding_challenge.Startup.Memory.{
  Launch, launched, crashed, launch, Matches, launch_lem, opened_on,
}
use tabmo_codding_challenge.Examples.Data.{puzzle, wide, document, fatal_document, schedule}
use tabmo_codding_challenge.Examples.Service.{payloads}
use tabmo_codding_challenge.RtbCtrl.Server.Safety.{IsServed}
use tabmo_codding_challenge.RtbCtrl.Server.Locks.{work_all, opened}
use tabmo_codding_challenge.RtbCtrl.Server.Locks.Refinement.{Observed, server_of}
use tabmo_codding_challenge.Startup.Service.{launch-work_all}

abbrev doubled : ℕ → Bool
doubled n = n == 0 || n == 1 || n == 2

abbrev memory_of_document : Memory
memory_of_document = record {
  objects = object puzzle ∷ object puzzle ∷ object wide ∷ object puzzle ∷ object wide ∷ [];
  elements = 3 ∷ 4 ∷ [];
  destroyed = 2 ∷ 1 ∷ 0 ∷ [];
  access = false;
}

document_launched :
    launch tree_json puzzle doubled (some document) ≡ finished (launched memory_of_document)
unfolding launch read_campagne stof round_ratio construct lacks_mandatory le has_common_filter
    has_invalid_filter is_out_of handle
document_launched = refl

fatal_document_crashes :
    launch tree_json puzzle doubled (some fatal_document) ≡ finished (crashed out_of_range)
unfolding launch read_campagne stof round_ratio construct lacks_mandatory le has_common_filter
    has_invalid_filter is_out_of handle
fatal_document_crashes = refl

launch_lem_example :
    (l : Launch) × (launch tree_json puzzle doubled (some document) ≡ finished l)
    × Matches (main tree_json (some document)) l
launch_lem_example = launch_lem tree_json puzzle doubled (some document)

launch-work_all_example :
    let s = opened_on tree_json memory_of_document payloads in
    (cs : List Campagne) × (main tree_json (some document) ≡ serving cs)
    × (s ≡ opened tree_json cs payloads)
    × IsServed tree_json tree_json-IsJson cs
        (Observed tree_json schedule s)
        (server_of tree_json (work_all tree_json schedule s))
launch-work_all_example =
    launch-work_all tree_json tree_json-IsJson (λ v. refl) puzzle doubled (some document)
      memory_of_document payloads schedule document_launched (omega arith)
