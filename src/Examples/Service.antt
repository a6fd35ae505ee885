-- ===== src/Examples/Service.antt =====
-- The theorems on the server with mutexes, at two requests, of which the second has no floor.
use mathlib.Core.List.{flatten}
use tabmo_codding_challenge.Common.Result.{Result}
use tabmo_codding_challenge.Common.{
  ℕ, zero, suc, ◌≡◌, refl, Option, some, List, [], ◌∷◌, arith, All, get_elem?, count_if, ◌≤◌, ◌*◌,
}
use tabmo_codding_challenge.Json.Tree.{Tree, tree_json, tree_json-IsJson, tree_json-GivesInts}
use tabmo_codding_challenge.RtbCtrl.{Response}
use tabmo_codding_challenge.RtbCtrl.Server.{serve_together, open_server}
use tabmo_codding_challenge.RtbCtrl.Server.Safety.{has_paid, IsAnswer, IsServed}
use tabmo_codding_challenge.RtbCtrl.Server.Locks.{replied, work_all, opened}
use tabmo_codding_challenge.RtbCtrl.Server.Locks.Refinement.{Observed, server_of, work_all_refines}
use tabmo_codding_challenge.RtbCtrl.Server.Locks.Rounds.{Covers}
use tabmo_codding_challenge.RtbCtrl.Server.Typing.{IsTypedServer}
use tabmo_codding_challenge.Startup.Typing.{main-IsTypedServer}
use tabmo_codding_challenge.Startup.Service.{main_answers, main_sales}
use tabmo_codding_challenge.Examples.Data.{ads, document, payload, floorless_payload, schedule}
use tabmo_codding_challenge.Examples.Runs.{document_served}

abbrev pub payloads : List (Option Tree)
payloads = some payload ∷ some floorless_payload ∷ []

-- A round in which the second thread comes first, and has a second turn.
abbrev round : List (ℕ × ℕ)
round = (1, 7) ∷ (0, 42) ∷ (1, 42) ∷ []

abbrev rounds_of : ℕ → List (List (ℕ × ℕ))
rounds_of zero = []
rounds_of (suc n) = round ∷ rounds_of n

round-Covers : Covers tree_json 2 round
round-Covers zero h = omega arith
round-Covers (suc zero) h = omega arith
round-Covers (suc (suc t)) h = absurd (omega arith)

rounds_of-Covers : (n : ℕ) → All (Covers tree_json 2) (rounds_of n)
rounds_of-Covers zero = tt
rounds_of-Covers (suc n) = (round-Covers, rounds_of-Covers n)

work_all_refines_example :
    (coarse : List (ℕ × ℕ)) × (server_of tree_json
        (work_all tree_json schedule (opened tree_json ads payloads))
      ≡ serve_together tree_json coarse (open_server tree_json ads payloads))
work_all_refines_example = work_all_refines tree_json ads payloads schedule

main_answers_example :
    let s = opened tree_json ads payloads in
    let seen = Observed tree_json (flatten (rounds_of 60)) s in
    let done = work_all tree_json (flatten (rounds_of 60)) s in
    (a : Result (Response tree_json)) × (get_elem? done.requests 0 ≡ some (some payload, replied a))
    × IsAnswer tree_json tree_json-IsJson ads seen (some payload) a
    × IsServed tree_json tree_json-IsJson ads seen (server_of tree_json done)
main_answers_example =
    main_answers tree_json tree_json-IsJson (λ v. refl) (some document) ads payloads (rounds_of 60)
      document_served (omega arith) (rounds_of-Covers 60) (omega arith) 0 (some payload) refl

main-IsTypedServer_example :
    IsTypedServer tree_json
      (server_of tree_json (work_all tree_json schedule (opened tree_json ads payloads)))
main-IsTypedServer_example =
    main-IsTypedServer tree_json tree_json-GivesInts (some document) ads payloads schedule
      document_served

main_sales_example :
    count_if
      (has_paid tree_json tree_json-IsJson ads)
      (server_of tree_json (work_all tree_json schedule (opened tree_json ads payloads))).1
    ≤ 100_307 * 2
main_sales_example =
    main_sales tree_json tree_json-IsJson (λ v. refl) (some document) ads payloads schedule
      document_served (omega arith)
