-- ===== src/Startup.antt =====
-- src/tabmo-coding-challenge.cpp: `main`, up to `drogon::app().run()`.
pub mod Serving
pub mod Service
pub mod Typing
pub mod Memory
use tabmo_codding_challenge.Common.Result.{Result, ok, err, Exception}
use tabmo_codding_challenge.Common.{ℕ, Bool, true, false, Option, List, [], if◌then◌else◌}
use tabmo_codding_challenge.Json.{Json}
use tabmo_codding_challenge.Campagne.{Campagne, is_zero}
use tabmo_codding_challenge.CampagnesManager.Parse.{parse_campagnes_from_json, get_campagnes_count}

-- How `main` goes on: an exception that nobody catches, `exit`, or the server with its campaigns.
pub data Start : Type 0 where
  terminated : Exception → Start
  exited : ℕ → Start
  serving : List Campagne → Start

unfoldable pub start_from : Result (List Campagne × Bool) → Start
unfolding get_campagnes_count is_zero
start_from (err e) = terminated e
start_from (ok (cs, true)) = serving cs
start_from (ok (cs, false)) = if is_zero (get_campagnes_count cs) then exited 1 else serving cs

module _ (j : Json) where
  open j use {Value}

  unfoldable pub main : Option Value → Start
  unfolding start_from
  main document = start_from (parse_campagnes_from_json j document [])
