-- ===== src/Examples/Locking.antt =====
-- The theorems on mutexes, at two threads of which the first has taken the mutex of the first campaign.
use tabmo_codding_challenge.Common.{ℕ, ◌≡◌, refl, true, some, List, [], ◌∷◌, get_elem?, map}
use tabmo_codding_challenge.Json.Tree.{tree_json}
use tabmo_codding_challenge.BidRequest.{BidRequest}
use tabmo_codding_challenge.CampagnesManager.Threads.{scanning, start, interleave}
use tabmo_codding_challenge.CampagnesManager.Locks.{
  Place, locked, is_locked, step, move, enter, section_of, run, begin,
}
use tabmo_codding_challenge.CampagnesManager.Locks.Moves.{thread_holds}
use tabmo_codding_challenge.CampagnesManager.Locks.Exclusion.{mutual_exclusion}
use tabmo_codding_challenge.CampagnesManager.Locks.Refinement.{world_of, run_interleaves}
use tabmo_codding_challenge.CampagnesManager.Locks.Progress.{Frees, no_deadlock}
use tabmo_codding_challenge.Examples.Data.{ads, request, schedule}

abbrev first_in : List (ℕ × ℕ)
first_in = (0, 0) ∷ []

abbrev pair : List BidRequest
pair = request ∷ request ∷ []

abbrev holder : BidRequest × Place tree_json
holder = (request, locked 0 (scanning request 0 []))

entered : get_elem? (run tree_json first_in (begin tree_json ads pair)).threads 0 ≡ some holder
unfolding run step move enter section_of is_locked
entered = refl

taken : is_locked (run tree_json first_in (begin tree_json ads pair)).mutexes 0 ≡ true
unfolding run step move enter section_of is_locked
taken = refl

mutual_exclusion_example : ◌≡◌ {A = ℕ} 0 0
mutual_exclusion_example =
    mutual_exclusion tree_json ads pair first_in 0 0 0 holder holder entered entered refl refl

run_interleaves_example :
    (coarse : List (ℕ × ℕ)) × (world_of tree_json
        (run tree_json schedule (begin tree_json ads pair))
      ≡ interleave tree_json coarse (ads, map (start tree_json) pair))
run_interleaves_example = run_interleaves tree_json ads pair schedule

no_deadlock_example :
    let s = run tree_json first_in (begin tree_json ads pair) in
    (u : ℕ) × (x : BidRequest × Place tree_json) × (get_elem? s.threads u ≡ some x)
    × (thread_holds tree_json 0 x ≡ true)
    × Frees tree_json 3 0 u s
no_deadlock_example = no_deadlock tree_json ads pair first_in 0 taken
