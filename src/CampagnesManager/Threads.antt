-- ===== src/CampagnesManager/Threads.antt =====
-- `CampagnesManager::SelectCampagne` in several threads. A thread locks one campaign at a time: for a
-- round of the loop, for reading its budget in `RandomSelectCampagne`, and for the purchase. What it
-- does under one lock is one step, and so are the end of the loop and the draw; between its steps the
-- other threads make theirs.
pub mod Suited
pub mod Safety
pub mod Interleaving
pub mod Progress
pub mod Alone
pub mod Typing
use tabmo_codding_challenge.Common.{
  ℕ, suc, Bool, true, false, Option, none, some, List, [], ◌∷◌, ◌++◌, get_elem?, set, if◌then◌else◌,
}
use tabmo_codding_challenge.Float.{Float}
use tabmo_codding_challenge.Json.{Json}
use tabmo_codding_challenge.BidRequest.{BidRequest}
use tabmo_codding_challenge.Campagne.{Campagne, decremente_budget}
use tabmo_codding_challenge.CampagnesManager.Compatible.{is_compatible, lower_request}
use tabmo_codding_challenge.CampagnesManager.Draw.{random_select}
use tabmo_codding_challenge.CampagnesManager.Select.{creer_json}

module _ (j : Json) where
  open j use {Value}

  -- Where a thread stands: in the loop before a position, with the positions found; reading the
  -- budgets of the positions that are left, with those it has read; before the purchase; or behind it.
  -- `refused` is the `logic_error` of a purchase that fails, `undefined` undefined behaviour.
  pub data Stage : Type 0 where
    scanning : BidRequest → ℕ → List ℕ → Stage
    summing : BidRequest → (ps left : List ℕ) → List Float → Stage
    buying : BidRequest → ℕ → Stage
    found_nothing : Stage
    sold : Value → Stage
    refused undefined : Stage

  unfoldable pub scanned : BidRequest → List ℕ → Stage
  scanned r [] = found_nothing
  scanned r (p ∷ []) = buying r p
  scanned r (p ∷ q ∷ ps) = summing r (p ∷ q ∷ ps) (p ∷ q ∷ ps) []

  unfoldable pub drawn_from : BidRequest → List ℕ → Option ℕ → Stage
  drawn_from r ps none = undefined
  drawn_from r ps (some i) = elim (get_elem? ps i) [ none ↦ undefined | some k ↦ buying r k ]

  unfoldable pub bought : List Campagne → BidRequest → ℕ → Campagne × Bool → List Campagne × Stage
  bought cs r k (c, true) = (set cs k c, sold (creer_json j c r))
  bought cs r k (c, false) = (set cs k c, refused)

  -- One step of a thread, with the number that it draws if it does.
  unfoldable pub advance : ℕ → List Campagne → Stage → List Campagne × Stage
  advance drawn cs (scanning r i found) = elim (get_elem? cs i) [
    | none ↦ (cs, scanned r found)
    | some c ↦ (
      cs,
      scanning (lower_request r) (suc i) (if is_compatible r c then found ++ (i ∷ []) else found),
    )
  ]
  advance drawn cs (summing r ps [] bs) = (cs, drawn_from r ps (random_select drawn bs))
  advance drawn cs (summing r ps (p ∷ left) bs) = elim (get_elem? cs p) [
    | none ↦ (cs, undefined)
    | some c ↦ (cs, summing r ps left (bs ++ (c.budget ∷ [])))
  ]
  advance drawn cs (buying r k) = elim (get_elem? cs k) [
    | none ↦ (cs, undefined)
    | some c ↦ bought cs r k (decremente_budget c)
  ]
  advance drawn cs found_nothing = (cs, found_nothing)
  advance drawn cs (sold v) = (cs, sold v)
  advance drawn cs refused = (cs, refused)
  advance drawn cs undefined = (cs, undefined)

  -- A thread with the request that it was given, and what all threads share.
  abbrev pub Thread : Type 0
  Thread = BidRequest × Stage

  abbrev pub World : Type 0
  World = List Campagne × List Thread

  abbrev pub start : BidRequest → Thread
  start r = (r, scanning r 0 [])

  abbrev put_back : ℕ → List Thread → BidRequest → List Campagne × Stage → World
  put_back t ts asked (cs, stage) = (cs, set ts t (asked, stage))

  unfoldable pub turn : ℕ × ℕ → World → World
  turn (t, drawn) (cs, ts) = elim (get_elem? ts t) [
    | none ↦ (cs, ts)
    | some (asked, stage) ↦ put_back t ts asked (advance drawn cs stage)
  ]

  -- The threads in the order of a schedule, which says for each step whose it is and what it draws.
  unfoldable pub interleave : List (ℕ × ℕ) → World → World
  interleave [] w = w
  interleave (s ∷ schedule) w = interleave schedule (turn s w)
