-- ===== src/RtbCtrl/Server/Locks/Answers.antt =====
-- The server with mutexes answers every request, if its threads are scheduled in rounds.
use mathlib.Core.List.{flatten}
use mathlib.Core.Path.{ap₂}
use tabmo_codding_challenge.Common.Result.{Result}
use tabmo_codding_challenge.Common.{
  ℕ, suc, ◌+◌, ◌*◌, ◌≤◌, ◌≡◌, inl, inr, refl, ap, ◌∙◌, subst, Option, some, List, [], ◌∷◌, arith,
  get_elem?, set_same, length, get_elem?-map, get_elem?-map-some, All, All-get_elem?, map, map-set,
  sum_of-get, Option-cases,
}
use tabmo_codding_challenge.Json.{Json, IsJson}
use tabmo_codding_challenge.Campagne.{Campagne}
use tabmo_codding_challenge.Campagne.Budget.{IsSeller}
use tabmo_codding_challenge.CampagnesManager.Threads.{
  scanning, summing, buying, found_nothing, sold, refused, undefined,
}
use tabmo_codding_challenge.CampagnesManager.Locks.{outside, locked, loaded, unlocking}
use tabmo_codding_challenge.CampagnesManager.Locks.Moves.{IsFresh}
use tabmo_codding_challenge.RtbCtrl.{Response}
use tabmo_codding_challenge.RtbCtrl.Server.{Task}
use tabmo_codding_challenge.RtbCtrl.Server.Safety.{IsAnswer, SoundTask}
use tabmo_codding_challenge.RtbCtrl.Server.Locks.{
  Handler, arrived, inside, replied, handle_move, Service, work, work_all, opened,
}
use tabmo_codding_challenge.RtbCtrl.Server.Locks.Invariant.{
  place_of, work_all-Guarded, opened-Guarded,
}
use tabmo_codding_challenge.RtbCtrl.Server.Locks.Refinement.{Observed, entry_of, work_all-IsServed}
use tabmo_codding_challenge.RtbCtrl.Server.Locks.Work.{work_left, section_work}
use tabmo_codding_challenge.RtbCtrl.Server.Locks.Rounds.{
  total_work, Covers, handler-IsFresh, rounds_work,
}

module _ (j : Json) where
  open j use {Value}

  abbrev payloads_of : Service j → List (Option Value)
  payloads_of s = map (λ x. x.0) s.requests

  work_all-payloads_of :
      (schedule : List (ℕ × ℕ)) (s : Service j)
      → payloads_of (work_all j schedule s) ≡ payloads_of s
  unfolding work_all work
  work_all-payloads_of [] s = refl
  work_all-payloads_of ((t, drawn) ∷ schedule) s =
      work_all-payloads_of schedule (work j (t, drawn) s)
      ∙ elim (Option-cases (get_elem? s.requests t)) [
        | inl e ↦ rw (e, work) refl
        | inr ((payload, handler), e) ↦
            rw (e, work)
              (map-set (λ (x : Option Value × Handler j). x.0) s.requests t
                  (payload, (handle_move j drawn payload (s.campaigns, s.mutexes) handler).1)
                ∙ set_same (payloads_of s) t payload (
                    get_elem?-map (λ (x : Option Value × Handler j). x.0) s.requests t
                      (payload, handler) e))
      ]

  opened-payloads_of :
      (cs : List Campagne) (payloads : List (Option Value))
      → (payloads_of (opened j cs payloads) ≡ payloads)
        × (length (opened j cs payloads).requests ≡ length payloads)
        × (total_work j (opened j cs payloads) ≡ length payloads * (8 * length cs + 14))
  opened-payloads_of cs [] = (refl, refl, omega arith)
  opened-payloads_of cs (payload ∷ payloads) =
      let (same, long, total) = opened-payloads_of cs payloads in
      (ap (λ t. payload ∷ t) same, ap suc long, omega arith)

  -- Who has no step left and is not in undefined behaviour has its answer.
  no_work :
      (laws : IsJson j) (Past : Option Value × Task j → List Campagne → Type 0)
      (cs0 cs : List Campagne) (payload : Option Value) (handler : Handler j)
      → IsFresh j cs (place_of j handler)
      → SoundTask j laws cs0 Past (entry_of j (payload, handler))
      → work_left j (length cs) handler ≡ 0
      → (a : Result (Response j)) × (handler ≡ replied a) × IsAnswer j laws cs0 Past payload a
  no_work laws Past cs0 cs payload arrived fresh sound e = absurd (omega arith)
  no_work laws Past cs0 cs payload (inside (outside (scanning r i found))) fresh sound e =
      absurd (omega arith)
  no_work laws Past cs0 cs payload (inside (outside (summing r ps left bs))) fresh sound e =
      absurd (omega arith)
  no_work laws Past cs0 cs payload (inside (outside (buying r k))) fresh sound e =
      absurd (omega arith)
  no_work laws Past cs0 cs payload (inside (outside found_nothing)) fresh sound e =
      absurd (omega arith)
  no_work laws Past cs0 cs payload (inside (outside (sold v))) fresh sound e = absurd (omega arith)
  no_work laws Past cs0 cs payload (inside (outside refused)) fresh sound e = absurd (omega arith)
  no_work laws Past cs0 cs payload (inside (outside undefined)) fresh (_, _, sound) e =
      elim sound [ ]
  no_work laws Past cs0 cs payload (inside (locked k stage)) fresh sound e =
      absurd (omega (arith, section_work j (length cs) k stage fresh))
  no_work laws Past cs0 cs payload (inside (loaded k c stage)) fresh sound e =
      absurd (omega (arith, section_work j (length cs) k stage fresh.0))
  no_work laws Past cs0 cs payload (inside (unlocking k stage)) fresh sound e = absurd (omega arith)
  no_work laws Past cs0 cs payload (replied a) fresh sound e = (a, refl, sound)

  -- For up to 16777 campaigns with numbers or NaN, and any payloads, each handled in a thread of its
  -- own that locks the mutexes of the campaigns: after m (8 n + 14) rounds, with m requests and n
  -- campaigns, in each of which every thread has a turn, in any order, each request is done, with a
  -- result that `IsAnswer` says for this run. No thread waits for a mutex for ever.
  pub requests_are_answered :
      (laws : IsJson j) (cs : List Campagne) (payloads : List (Option Value))
      (rounds : List (List (ℕ × ℕ)))
      → length cs ≤ 16_777
      → All IsSeller cs
      → All (Covers j (length payloads)) rounds
      → length payloads * (8 * length cs + 14) ≤ length rounds
      → (t : ℕ) (payload : Option Value) → get_elem? payloads t ≡ some payload
      → (a : Result (Response j)) × (get_elem?
            (work_all j (flatten rounds) (opened j cs payloads)).requests
            t
          ≡ some (payload, replied a))
        × IsAnswer j laws cs (Observed j (flatten rounds) (opened j cs payloads)) payload a
  requests_are_answered laws cs payloads rounds few sellers covers enough t payload at =
      let seen = Observed j (flatten rounds) (opened j cs payloads) in
      let s = work_all j (flatten rounds) (opened j cs payloads) in
      let (same, long, total) = opened-payloads_of cs payloads in
      let start = opened-Guarded j cs payloads in
      let guarded = work_all-Guarded j (flatten rounds) (opened j cs payloads) start in
      let left = rounds_work j rounds (opened j cs payloads) start (rw long covers) in
      let ((payload', handler), here, e) =
        get_elem?-map-some (λ (x : Option Value × Handler j). x.0) s.requests t payload
          (rw (work_all-payloads_of (flatten rounds) (opened j cs payloads), same) at) in
      let (_, sound) = work_all-IsServed j laws cs payloads (flatten rounds) few sellers in
      let done =
        sum_of-get (λ (x : Option Value × Handler j). work_left j (length s.campaigns) x.1)
          s.requests t (payload', handler) here in
      let (a, answer, allowed) =
        no_work laws seen cs s.campaigns payload' handler
          (handler-IsFresh j s guarded t payload' handler here)
          (All-get_elem? (SoundTask j laws cs seen) (map (entry_of j) s.requests) t sound
            (get_elem?-map (entry_of j) s.requests t (payload', handler) here))
          (omega arith) in
      (
        a,
        here ∙ ap₂ (λ p h. some (p, h)) e answer,
        subst (λ p. IsAnswer j laws cs seen p a) e allowed,
      )
