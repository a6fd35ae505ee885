-- ===== src/RtbCtrl/Server/Locks.antt =====
-- The server of `RtbCtrl/Server` with the mutexes of the campaigns: a request in `SelectCampagne` makes
-- the steps of `CampagnesManager/Locks`, where it locks a mutex, reads, does its work and unlocks, and
-- it may have to wait.
pub mod Invariant
pub mod Refinement
pub mod Work
pub mod Rounds
pub mod Answers
use tabmo_codding_challenge.Common.Result.{Result}
use tabmo_codding_challenge.Common.{
  ℕ, Bool, false, Option, none, some, List, [], ◌∷◌, get_elem?, set, map,
}
use tabmo_codding_challenge.Json.{Json}
use tabmo_codding_challenge.Campagne.{Campagne}
use tabmo_codding_challenge.CampagnesManager.Locks.{
  Place, outside, locked, loaded, unlocking, Shared, move,
}
use tabmo_codding_challenge.RtbCtrl.{Response}
use tabmo_codding_challenge.RtbCtrl.Server.{Task, received, selecting, answered, receive, answer_of}

module _ (j : Json) where
  open j use {Value}

  -- A request that has come; one in `SelectCampagne`; one that is answered, or whose exception has left
  -- the handler.
  pub data Handler : Type 0 where
    arrived : Handler
    inside : Place j → Handler
    replied : Result (Response j) → Handler

  unfoldable pub handler_of : Task j → Handler
  handler_of received = arrived
  handler_of (selecting stage) = inside (outside stage)
  handler_of (answered a) = replied a

  abbrev pub inside_of : Shared × Place j → Shared × Handler
  inside_of (shared, place) = (shared, inside place)

  -- One step of the handler. `SelectCampagne` returns when no mutex is held.
  unfoldable pub handle_move : ℕ → Option Value → Shared → Handler → Shared × Handler
  unfolding handler_of receive answer_of move
  handle_move drawn payload shared arrived = (shared, handler_of (receive j payload))
  handle_move drawn payload shared (inside (outside stage)) = elim (answer_of j stage) [
    | none ↦ inside_of (move j drawn shared (outside stage))
    | some a ↦ (shared, replied a)
  ]
  handle_move drawn payload shared (inside (locked k stage)) =
      inside_of (move j drawn shared (locked k stage))
  handle_move drawn payload shared (inside (loaded k c stage)) =
      inside_of (move j drawn shared (loaded k c stage))
  handle_move drawn payload shared (inside (unlocking k stage)) =
      inside_of (move j drawn shared (unlocking k stage))
  handle_move drawn payload shared (replied a) = (shared, replied a)

  pub record Service : Type 0 where
    pub campaigns : List Campagne
    pub mutexes : List Bool
    pub requests : List (Option Value × Handler)

  abbrev pub put_request : ℕ → Service → Option Value → Shared × Handler → Service
  put_request t s payload ((cs, ms), handler) = record {
    campaigns = cs;
    mutexes = ms;
    requests = set s.requests t (payload, handler);
  }

  unfoldable pub work : ℕ × ℕ → Service → Service
  unfolding handle_move
  work (t, drawn) s = elim (get_elem? s.requests t) [
    | none ↦ s
    | some (payload, handler) ↦
        put_request t s payload (handle_move drawn payload (s.campaigns, s.mutexes) handler)
  ]

  -- A schedule says for each step which request it is for and what it draws.
  unfoldable pub work_all : List (ℕ × ℕ) → Service → Service
  unfolding work
  work_all [] s = s
  work_all (x ∷ schedule) s = work_all schedule (work x s)

  -- All mutexes are free, and all requests have come.
  abbrev pub opened : List Campagne → List (Option Value) → Service
  opened cs payloads = record {
    campaigns = cs;
    mutexes = map (λ c. false) cs;
    requests = map (λ payload. (payload, arrived)) payloads;
  }
