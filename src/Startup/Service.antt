-- ===== src/Startup/Service.antt =====
-- The program from the file of its campaigns to the answers of its requests, which come at any time.
use mathlib.Core.List.{flatten}
use tabmo_codding_challenge.Common.Result.{Result}
use tabmo_codding_challenge.Common.{
  ℕ, Bool, arith, refl, ◌+◌, ◌*◌, ◌≤◌, ◌≡◌, Option, some, List, length, get_elem?, All, count_if,
}
use tabmo_codding_challenge.Json.{Json, IsJson}
use tabmo_codding_challenge.Campagne.{Campagne}
use tabmo_codding_challenge.CampagnesManager.Bill.{Billed-le}
use tabmo_codding_challenge.RtbCtrl.{Response}
use tabmo_codding_challenge.CampagnesManager.Threads.Progress.{turns_of}
use tabmo_codding_challenge.RtbCtrl.Server.{answered, serve_together, open_server}
use tabmo_codding_challenge.RtbCtrl.Server.Progress.{request_is_answered}
use tabmo_codding_challenge.RtbCtrl.Server.Safety.{
  Seen, has_paid, IsAnswer, IsServed, serve_together_lem,
}
use tabmo_codding_challenge.RtbCtrl.Server.Locks.{replied, work_all, opened}
use tabmo_codding_challenge.RtbCtrl.Server.Locks.Refinement.{Observed, server_of, work_all-IsServed}
use tabmo_codding_challenge.RtbCtrl.Server.Locks.Rounds.{Covers}
use tabmo_codding_challenge.RtbCtrl.Server.Locks.Answers.{requests_are_answered}
use tabmo_codding_challenge.CampagnesManager.Memory.{Memory, finished}
use tabmo_codding_challenge.Startup.{main, serving}
use tabmo_codding_challenge.Startup.Memory.{launch, launched, opened_on, launched_lem}
use tabmo_codding_challenge.Startup.Serving.{main-serving}

module _ (j : Json) (laws : IsJson j) where
  open j use {Value, size, items}

  -- The same of the server that starts from the list of campaigns.
  main-work_all :
      ((v : Value) → size v ≡ length (items v))
      → (document : Option Value) (cs : List Campagne) (payloads : List (Option Value))
        (schedule : List (ℕ × ℕ))
      → main j document ≡ serving cs
      → length cs ≤ 16_777
      → let s = opened j cs payloads in
        IsServed j laws cs (Observed j schedule s) (server_of j (work_all j schedule s))
  main-work_all sized document cs payloads schedule starts few =
      let (_, _, sellers) = main-serving j sized document cs starts in
      work_all-IsServed j laws cs payloads schedule few sellers

  -- The same of the server whose sections are single steps, and a request with 2 n + 5 turns is answered.
  main-serve_together :
      ((v : Value) → size v ≡ length (items v))
      → (document : Option Value) (cs : List Campagne) (payloads : List (Option Value))
        (schedule : List (ℕ × ℕ)) (t : ℕ) (payload : Option Value)
      → main j document ≡ serving cs
      → length cs ≤ 16_777
      → get_elem? payloads t ≡ some payload
      → 2 * length cs + 5 ≤ turns_of j t schedule
      → let server = serve_together j schedule (open_server j cs payloads) in
        let seen = Seen j schedule (open_server j cs payloads) in
        IsServed j laws cs seen server
        × (a : Result (Response j)) × (get_elem? server.1 t ≡ some (payload, answered a))
        × IsAnswer j laws cs seen payload a
  main-serve_together sized document cs payloads schedule t payload starts few at enough =
      let (_, _, sellers) = main-serving j sized document cs starts in
      let (a, here, allowed) =
        request_is_answered j laws cs payloads schedule t payload few sellers at enough in
      (serve_together_lem j laws cs few payloads schedule sellers, a, here, allowed)

  -- If the size of a JSON value counts its items and `main` starts the server with up to 16777 campaigns,
  -- then for any payloads, however many, each handled in a thread of its own that locks the mutexes of
  -- the n campaigns, and any order of their steps: at most 100307 n requests have an answer with the
  -- status 200, or have been sold to and are about to have it.
  pub main_sales :
      ((v : Value) → size v ≡ length (items v))
      → (document : Option Value) (cs : List Campagne) (payloads : List (Option Value))
        (schedule : List (ℕ × ℕ))
      → main j document ≡ serving cs
      → length cs ≤ 16_777
      → let service = work_all j schedule (opened j cs payloads) in
        count_if (has_paid j laws cs) (server_of j service).1 ≤ 100_307 * length cs
  main_sales sized document cs payloads schedule starts few =
      let s = server_of j (work_all j schedule (opened j cs payloads)) in
      let (billed, _) = main-work_all sized document cs payloads schedule starts few in
      Billed-le (has_paid j laws cs) cs s.0 s.1 billed

  -- If the size of a JSON value counts its items and `main` starts the server with up to 16777
  -- campaigns, then for any m payloads, each handled in a thread of its own that locks the mutexes
  -- of the n campaigns: after m (8 n + 14) rounds, in each of which every thread has at least one
  -- turn, in any order, no thread is in undefined behaviour, the budgets cover the sales up to a
  -- rounding of 2 ^ -15 for each, and each request is done with one of these results: 204 with the
  -- JSON null, if its payload is refused, if each campaign failed some condition at a moment of this
  -- run when a request with that payload stood before it in the loop, or if one that had met every
  -- condition had a budget below its price at a moment when such a request was about to buy it; the
  -- exception of its reading, which leaves the handler; or 200 with the JSON of a campaign of the
  -- file that met every condition of the request, with the budget that it had, at a moment of this
  -- run when a request with that payload stood before it in the loop. So no thread waits for a mutex
  -- for ever.
  pub main_answers :
      ((v : Value) → size v ≡ length (items v))
      → (document : Option Value) (cs : List Campagne) (payloads : List (Option Value))
        (rounds : List (List (ℕ × ℕ)))
      → main j document ≡ serving cs
      → length cs ≤ 16_777
      → All (Covers j (length payloads)) rounds
      → length payloads * (8 * length cs + 14) ≤ length rounds
      → (t : ℕ) (payload : Option Value) → get_elem? payloads t ≡ some payload
      → let s = opened j cs payloads in
        let seen = Observed j (flatten rounds) s in
        let done = work_all j (flatten rounds) s in
        (a : Result (Response j)) × (get_elem? done.requests t ≡ some (payload, replied a))
        × IsAnswer j laws cs seen payload a
        × IsServed j laws cs seen (server_of j done)
  main_answers sized document cs payloads rounds starts few covers enough t payload at =
      let (_, _, sellers) = main-serving j sized document cs starts in
      let (a, here, allowed) =
        requests_are_answered j laws cs payloads rounds few sellers covers enough t payload at in
      (a, here, allowed, work_all-IsServed j laws cs payloads (flatten rounds) few sellers)

  -- If the size of a JSON value counts its items and main on objects, whatever new objects hold and
  -- whenever the vector grows, starts the server with up to 16777 campaigns in its vector, then main
  -- on lists starts it with the campaigns of these objects, and it starts in the same state; and for
  -- any payloads, each handled in a thread of its own that locks the mutexes of the objects, and any
  -- order of the steps: no thread runs into undefined behaviour; the campaigns keep all but their
  -- budgets, which cover the sales up to a rounding of 2 ^ -15 for each; and a request that is done
  -- has one of these results: 204 with the JSON null, if its payload is refused, if each campaign
  -- failed some condition at a moment of this run when a request with that payload stood before it
  -- in the loop, or if one that had met every condition had a budget below its price at a moment
  -- when such a request was about to buy it; the exception of its reading, which leaves the handler;
  -- or 200 with the JSON of a campaign of the file that met every condition of the request, with the
  -- budget that it had, at a moment of this run when a request with that payload stood before it in
  -- the loop.
  pub launch-work_all :
      ((v : Value) → size v ≡ length (items v))
      → (fresh : Campagne) (is_full : ℕ → Bool) (document : Option Value) (m : Memory)
        (payloads : List (Option Value)) (schedule : List (ℕ × ℕ))
      → launch j fresh is_full document ≡ finished (launched m)
      → length m.elements ≤ 16_777
      → let s = opened_on j m payloads in
        (cs : List Campagne) × (main j document ≡ serving cs)
        × (s ≡ opened j cs payloads)
        × IsServed j laws cs (Observed j schedule s) (server_of j (work_all j schedule s))
  launch-work_all sized fresh is_full document m payloads schedule starts few =
      let (cs, serves, as_many, shared) = launched_lem j fresh is_full document m starts in
      let same : opened_on j m payloads ≡ opened j cs payloads = rw shared refl in
      (
        cs,
        serves,
        same,
        rw same (
            main-work_all sized document cs payloads schedule serves (omega (arith, as_many, few))),
      )
