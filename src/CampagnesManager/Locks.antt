-- ===== src/CampagnesManager/Locks.antt =====
-- The mutexes of the campaigns. `CampagnesManager/Threads` takes what a thread does under one mutex as
-- one step; here it locks the mutex, reads the campaign, does the rest, with the write of the budget
-- that `DecrementeBudget` makes, and unlocks, and other threads make steps between these.
pub mod Moves
pub mod Exclusion
pub mod Refinement
pub mod Progress
use tabmo_codding_challenge.Common.{
  ℕ, suc, Bool, true, false, Option, none, some, List, [], ◌∷◌, ◌++◌, get_elem?, set, length, ltb,
  map, if◌then◌else◌, ◌==◌,
}
use tabmo_codding_challenge.Json.{Json}
use tabmo_codding_challenge.BidRequest.{BidRequest}
use tabmo_codding_challenge.Campagne.{Campagne, decremente_budget}
use tabmo_codding_challenge.CampagnesManager.Compatible.{is_compatible, lower_request}
use tabmo_codding_challenge.CampagnesManager.Select.{creer_json}
use tabmo_codding_challenge.CampagnesManager.Threads.{
  Stage, scanning, summing, buying, found_nothing, sold, refused, undefined, advance, Thread, World,
  start,
}

-- Whether a mutex is locked.
unfoldable pub is_locked : List Bool → ℕ → Bool
is_locked ms k = elim (get_elem? ms k) [ none ↦ false | some b ↦ b ]

abbrev pub Shared : Type 0
Shared = List Campagne × List Bool

abbrev pub write : List Campagne → ℕ → Option Campagne → List Campagne
write cs k none = cs
write cs k (some c) = set cs k c

module _ (j : Json) where
  -- The campaign whose mutex a thread locks next, of `n` campaigns.
  unfoldable pub section_of : ℕ → Stage j → Option ℕ
  section_of n (scanning r i found) = if ltb i n then some i else none
  section_of n (summing r ps (p ∷ left) bs) = if ltb p n then some p else none
  section_of n (buying r k) = if ltb k n then some k else none
  section_of n _ = none

  -- The result of `DecrementeBudget` on the campaign that was read: what it writes, and what follows.
  unfoldable pub settle : BidRequest → Campagne × Bool → Option Campagne × Stage j
  settle r (c, true) = (some c, sold (creer_json j c r))
  settle r (c, false) = (none, refused)

  -- What a thread does with the campaign that it has read: the campaign that it writes, if it does,
  -- and where it stands afterwards.
  unfoldable pub perform : Campagne → Stage j → Option Campagne × Stage j
  unfolding settle
  perform c (scanning r i found) = (
    none,
    scanning (lower_request r) (suc i) (if is_compatible r c then found ++ (i ∷ []) else found),
  )
  perform c (summing r ps (p ∷ left) bs) = (none, summing r ps left (bs ++ (c.budget ∷ [])))
  perform c (buying r k) = settle r (decremente_budget c)
  perform c stage = (none, stage)

  -- A thread outside of the sections; with the mutex of a campaign; with the campaign read; or with
  -- the work done and the mutex not yet given back.
  pub data Place : Type 0 where
    outside : Stage j → Place
    locked : ℕ → Stage j → Place
    loaded : ℕ → Campagne → Stage j → Place
    unlocking : ℕ → Stage j → Place

  pub record System : Type 0 where
    pub campaigns : List Campagne
    pub mutexes : List Bool
    pub threads : List (BidRequest × Place)

  -- A thread that waits for a mutex stays where it is.
  unfoldable pub enter : ℕ → Shared → Stage j → Option ℕ → Shared × Place
  unfolding is_locked
  enter drawn (cs, ms) stage none =
      let (cs', stage') = advance j drawn cs stage in ((cs', ms), outside stage')
  enter drawn (cs, ms) stage (some k) =
      if is_locked ms k then ((cs, ms), outside stage) else ((cs, set ms k true), locked k stage)

  -- One step of a thread.
  unfoldable pub move : ℕ → Shared → Place → Shared × Place
  unfolding enter
  move drawn (cs, ms) (outside stage) = enter drawn (cs, ms) stage (section_of (length cs) stage)
  move drawn (cs, ms) (locked k stage) = elim (get_elem? cs k) [
    | none ↦ ((cs, ms), locked k stage)
    | some c ↦ ((cs, ms), loaded k c stage)
  ]
  move drawn (cs, ms) (loaded k c stage) =
      let (written, stage') = perform c stage in ((write cs k written, ms), unlocking k stage')
  move drawn (cs, ms) (unlocking k stage) = ((cs, set ms k false), outside stage)

  abbrev put_thread : ℕ → System → BidRequest → Shared × Place → System
  put_thread t s asked ((cs, ms), place) = record {
    campaigns = cs;
    mutexes = ms;
    threads = set s.threads t (asked, place);
  }

  unfoldable pub step : ℕ × ℕ → System → System
  step (t, drawn) s = elim (get_elem? s.threads t) [
    | none ↦ s
    | some (asked, place) ↦ put_thread t s asked (move drawn (s.campaigns, s.mutexes) place)
  ]

  unfoldable pub run : List (ℕ × ℕ) → System → System
  run [] s = s
  run (x ∷ schedule) s = run schedule (step x s)

  -- All mutexes are free, and each thread stands before the loop of `SelectCampagne`.
  abbrev pub begin : List Campagne → List BidRequest → System
  begin cs requests = record {
    campaigns = cs;
    mutexes = map (λ c. false) cs;
    threads = map (λ r. (r, outside (scanning r 0 []))) requests;
  }
