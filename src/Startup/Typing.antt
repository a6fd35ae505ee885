-- ===== src/Startup/Typing.antt =====
-- The numbers of the program are of their types, from the start on.
use tabmo_codding_challenge.Common.{ℕ, ◌≡◌, Option, List, [], All, sym, subst}
use tabmo_codding_challenge.Json.{Json, GivesInts}
use tabmo_codding_challenge.Campagne.{Campagne}
use tabmo_codding_challenge.Campagne.Typing.{IsTyped}
use tabmo_codding_challenge.CampagnesManager.Parse.{parse_campagnes_from_json}
use tabmo_codding_challenge.CampagnesManager.Parse.Typing.{parse_campagnes-IsTyped}
use tabmo_codding_challenge.RtbCtrl.Server.Typing.{
  IsTypedServer, serve_together-IsTypedServer, open-IsTypedServer,
}
use tabmo_codding_challenge.RtbCtrl.Server.Locks.{work_all, opened}
use tabmo_codding_challenge.RtbCtrl.Server.Locks.Refinement.{server_of, work_all_refines}
use tabmo_codding_challenge.Startup.{main, serving}
use tabmo_codding_challenge.Startup.Serving.{start_cases}

module _ (j : Json) (ints : GivesInts j) where
  open j use {Value}

  main-IsTyped :
      (document : Option Value) (cs : List Campagne) → main j document ≡ serving cs → All IsTyped cs
  unfolding main
  main-IsTyped document cs starts =
      let (good, e, _) = start_cases (parse_campagnes_from_json j document []) cs starts in
      rw e at (parse_campagnes-IsTyped j ints document)

  -- If `asInt` returns an `int` and `main` starts the server, then for any payloads, each handled in
  -- a thread of its own that locks the mutexes of the campaigns, and any order of their steps: the
  -- budget and the price of each campaign, the floor of each request that is in `SelectCampagne` and
  -- the budgets that it has read are values that a `float` can have, and the sizes of the campaigns
  -- and of these requests are in the range of `int`.
  pub main-IsTypedServer :
      (document : Option Value) (cs : List Campagne) (payloads : List (Option Value))
      (schedule : List (ℕ × ℕ))
      → main j document ≡ serving cs
      → IsTypedServer j (server_of j (work_all j schedule (opened j cs payloads)))
  main-IsTypedServer document cs payloads schedule starts =
      let (coarse, e) = work_all_refines j cs payloads schedule in
      subst (IsTypedServer j) (sym e) (
        serve_together-IsTypedServer j ints coarse _
          (open-IsTypedServer j ints cs payloads (main-IsTyped document cs starts)))
