-- ===== src/RtbCtrl/Server/Typing.antt =====
-- The numbers that the server works with are of their types.
use tabmo_codding_challenge.Common.Text.{codes}
use tabmo_codding_challenge.Common.Result.{
  json, ok, Ensures, Ensures-bind, Ensures-then, Result-cases,
}
use tabmo_codding_challenge.Common.{
  ℕ, inl, inr, Option, some, none, List, [], ◌∷◌, All, All-set, All-get_elem?, get_elem?,
  Bool-cases, Option-cases,
}
use tabmo_codding_challenge.Common.Int.{ℤ, IsInt}
use tabmo_codding_challenge.Float.{Float}
use tabmo_codding_challenge.Float.Stof.{stof}
use tabmo_codding_challenge.Float.Stof.Floats.{stof-IsFloat}
use tabmo_codding_challenge.Float.Value.{IsFloat}
use tabmo_codding_challenge.Json.{Json, GivesInts}
use tabmo_codding_challenge.BidRequest.{BidRequest}
use tabmo_codding_challenge.Campagne.{Campagne}
use tabmo_codding_challenge.Campagne.Typing.{IsTyped}
use tabmo_codding_challenge.CampagnesManager.Parse.{string_at, int_at}
use tabmo_codding_challenge.CampagnesManager.Parse.Typing.{int_at-IsInt}
use tabmo_codding_challenge.CampagnesManager.Threads.Typing.{
  IsTypedRequest, IsTypedStage, advance-AreTyped,
}
use tabmo_codding_challenge.RtbCtrl.{string_in, read_numbers, read_request, is_valid}
use tabmo_codding_challenge.RtbCtrl.Server.{
  Task, received, selecting, answered, admit, receive, answer_of, handle_step, serve_step,
  serve_together, Server, open_server,
}

module _ (j : Json) where
  open j use {Value, get}

  -- What an entry of the server holds.
  abbrev IsTypedTask : Option Value × Task j → Type 0
  IsTypedTask (payload, received) = Unit {0}
  IsTypedTask (payload, selecting stage) = IsTypedStage j stage
  IsTypedTask (payload, answered a) = Unit {0}

  abbrev pub IsTypedServer : Server j → Type 0
  IsTypedServer (cs, ts) = All IsTyped cs × All IsTypedTask ts

  module _ (ints : GivesInts j) where
    abbrev AreNumbers : ℤ × ℤ × Float → Type 0
    AreNumbers (w, h, x) = IsInt w × IsInt h × IsFloat x

    read_numbers-AreNumbers : (v : Value) → Ensures AreNumbers (read_numbers j v)
    unfolding read_numbers
    read_numbers-AreNumbers v = Ensures-bind AreNumbers (json (get v (codes "device"))) _ λ device.
        Ensures-then IsInt AreNumbers (int_at j device (codes "w")) _
          (int_at-IsInt j ints device (codes "w"))
          λ w is_w.
            Ensures-then IsInt AreNumbers (int_at j device (codes "h")) _
              (int_at-IsInt j ints device (codes "h"))
              λ h is_h. Ensures-bind AreNumbers (string_at j v (codes "bid-floor")) _ λ text.
                Ensures-then IsFloat AreNumbers (stof text) (λ x. ok (w, h, x)) (stof-IsFloat text)
                  λ x is_floor. (is_w, is_h, is_floor)

    abbrev MayBeTyped : Option BidRequest → Type 0
    MayBeTyped none = Unit {0}
    MayBeTyped (some r) = IsTypedRequest r

    read_request-MayBeTyped : (v : Value) → Ensures MayBeTyped (read_request j v)
    unfolding read_request
    read_request-MayBeTyped v = Ensures-bind _ (string_at j v (codes "id")) _ λ id.
        Ensures-bind _ (string_in j v (codes "device") (codes "lang")) _ λ lang.
          Ensures-bind _ (string_in j v (codes "app") (codes "name")) _ λ app_name.
            Ensures-bind _ (string_in j v (codes "device") (codes "ifa")) _ λ ifa.
              elim (Result-cases (read_numbers j v)) [
                | inl ((w, h, x), e) ↦
                    let (is_w, is_h, is_floor) = rw e at (read_numbers-AreNumbers v) in
                    rw e (record { float_floor = is_floor; int_width = is_w; int_height = is_h })
                | inr (x, e) ↦ rw e tt
              ]

    receive-IsTypedTask : (payload : Option Value) → IsTypedTask (payload, receive j payload)
    unfolding receive
    receive-IsTypedTask none = tt
    receive-IsTypedTask (some v) = elim (Result-cases (read_request j v)) [
      | inr (e, h) ↦ rw (h, admit) tt
      | inl (none, h) ↦ rw (h, admit) tt
      | inl (some r, h) ↦ elim (Bool-cases (is_valid r)) [
        | inr bad ↦ rw (h, admit) (rw bad tt)
        | inl good ↦ rw (h, admit) (rw good (rw h at (read_request-MayBeTyped v)))
      ]
    ]

    abbrev AreTyped : Option Value → List Campagne × Task j → Type 0
    AreTyped payload (cs, task) = All IsTyped cs × IsTypedTask (payload, task)

    handle_step-AreTyped :
        (drawn : ℕ) (payload : Option Value) (cs : List Campagne) (task : Task j)
        → AreTyped payload (cs, task)
        → AreTyped payload (handle_step j drawn payload cs task)
    unfolding handle_step
    handle_step-AreTyped drawn payload cs received (all, typed) = (all, receive-IsTypedTask payload)
    handle_step-AreTyped drawn payload cs (selecting stage) (all, typed) =
        elim (Option-cases (answer_of j stage)) [
          | inl e ↦ rw (e, handle_step) (advance-AreTyped j drawn cs stage (all, typed))
          | inr (a, e) ↦ rw (e, handle_step) (all, tt)
        ]
    handle_step-AreTyped drawn payload cs (answered a) typed = typed

    serve_step-IsTypedServer :
        (t drawn : ℕ) (w : Server j) → IsTypedServer w → IsTypedServer (serve_step j (t, drawn) w)
    unfolding serve_step
    serve_step-IsTypedServer t drawn (cs, ts) (all, typed) = elim (Option-cases (get_elem? ts t)) [
      | inl e ↦ rw (e, serve_step) (all, typed)
      | inr ((payload, task), e) ↦
          let (all', typed') =
            handle_step-AreTyped drawn payload cs task
              (all, All-get_elem? IsTypedTask ts t typed e) in
          rw (e, serve_step) (all', All-set IsTypedTask ts t typed typed')
    ]

    pub serve_together-IsTypedServer :
        (schedule : List (ℕ × ℕ)) (w : Server j)
        → IsTypedServer w
        → IsTypedServer (serve_together j schedule w)
    unfolding serve_together
    serve_together-IsTypedServer [] w typed = typed
    serve_together-IsTypedServer ((t, drawn) ∷ schedule) w typed =
        serve_together-IsTypedServer schedule (serve_step j (t, drawn) w)
          (serve_step-IsTypedServer t drawn w typed)

    pub open-IsTypedServer :
        (cs : List Campagne) (payloads : List (Option Value))
        → All IsTyped cs
        → IsTypedServer (open_server j cs payloads)
    open-IsTypedServer cs [] all = (all, tt)
    open-IsTypedServer cs (payload ∷ payloads) all =
        (all, (tt, (open-IsTypedServer cs payloads all).1))
