-- ===== src/RtbCtrl/Server/Alone.antt =====
-- A request that no other disturbs is handled as by the handler of one thread, and so are requests
-- that come one after the other.
use tabmo_codding_challenge.Common.Result.{
  Result, ok, err, json_logic_error, invalid_argument, out_of_range, logic_error,
}
use tabmo_codding_challenge.Common.{
  ℕ, zero, suc, ◌≡◌, refl, sym, ap, ◌∙◌, inl, inr, Option, none, some, List, [], Option-cases,
  Bool-cases, repeat, Reaches, Reaches-step,
}
use tabmo_codding_challenge.Json.{Json}
use tabmo_codding_challenge.BidRequest.{BidRequest}
use tabmo_codding_challenge.Campagne.{Campagne}
use tabmo_codding_challenge.CampagnesManager.Select.{Outcome, select_campagne}
use tabmo_codding_challenge.CampagnesManager.Threads.{
  Stage, scanning, summing, buying, found_nothing, sold, refused, undefined, advance,
}
use tabmo_codding_challenge.CampagnesManager.Threads.Alone.{
  State, advance_alone, returned, without_request, select_campagne_alone,
}
use tabmo_codding_challenge.RtbCtrl.{
  Response, Handled, respond, read_request, is_valid, answer, process, async_handle_http_request,
}
use tabmo_codding_challenge.RtbCtrl.Server.{
  Task, received, selecting, answered, admit, receive, answer_of, handle_step,
}

module _ (j : Json) where
  open j use {Value, null}

  abbrev answer_with : Option (List Campagne × Result Value) → Handled j
  answer_with none = none
  answer_with (some (cs, ok v)) = some (cs, ok (respond j v))
  answer_with (some (cs, err json_logic_error)) = some (cs, err json_logic_error)
  answer_with (some (cs, err invalid_argument)) = some (cs, ok (respond j null))
  answer_with (some (cs, err out_of_range)) = some (cs, ok (respond j null))
  answer_with (some (cs, err logic_error)) = some (cs, ok (respond j null))

  answer-without_request : (o : Outcome j) → answer j o ≡ answer_with (without_request j o)
  unfolding answer
  answer-without_request none = refl
  answer-without_request (some (cs, r, ok v)) = refl
  answer-without_request (some (cs, r, err json_logic_error)) = refl
  answer-without_request (some (cs, r, err invalid_argument)) = refl
  answer-without_request (some (cs, r, err out_of_range)) = refl
  answer-without_request (some (cs, r, err logic_error)) = refl

  -- At the end of `SelectCampagne` a thread answers what the handler answers.
  answer_returned :
      (end : State j) (cs : List Campagne) (a : Result (Response j))
      → answer_with (returned j end) ≡ some (cs, a)
      → (end.0 ≡ cs) × (answer_of j end.1 ≡ some a)
  unfolding answer_of
  answer_returned (ds, scanning r i found) cs a e = absurd (cc)
  answer_returned (ds, summing r ps left bs) cs a e = absurd (cc)
  answer_returned (ds, buying r k) cs a e = absurd (cc)
  answer_returned (ds, found_nothing) cs a e = (cc, cc)
  answer_returned (ds, sold v) cs a e = (cc, cc)
  answer_returned (ds, refused) cs a e = (cc, cc)
  answer_returned (ds, undefined) cs a e = absurd (cc)

  -- A thread at its end stays there.
  answer_of_stays :
      (drawn : ℕ) (cs : List Campagne) (stage : Stage j) (a : Result (Response j))
      → answer_of j stage ≡ some a
      → advance j drawn cs stage ≡ (cs, stage)
  unfolding answer_of advance
  answer_of_stays drawn cs (scanning r i found) a e = absurd (cc)
  answer_of_stays drawn cs (summing r ps left bs) a e = absurd (cc)
  answer_of_stays drawn cs (buying r k) a e = absurd (cc)
  answer_of_stays drawn cs found_nothing a e = refl
  answer_of_stays drawn cs (sold v) a e = refl
  answer_of_stays drawn cs refused a e = refl
  answer_of_stays drawn cs undefined a e = absurd (cc)

  abbrev pub handle_alone : ℕ → Option Value → List Campagne × Task j → List Campagne × Task j
  handle_alone drawn payload (cs, task) = handle_step j drawn payload cs task

  module _ (drawn : ℕ) (payload : Option Value) where
    answers :
        (n : ℕ) (cs : List Campagne) (stage : Stage j) (end : State j) (a : Result (Response j))
        → repeat n (advance_alone j drawn) (cs, stage) ≡ end
        → answer_of j end.1 ≡ some a
        → Reaches (handle_alone drawn payload) (cs, selecting stage) (end.0, answered a)
    unfolding handle_step
    answers zero cs stage end a e h =
        let h' : answer_of j stage ≡ some a = ap (λ x. answer_of j x.1) e ∙ h in
        (1, rw (h', handle_step) (ap (λ x. (x.0, answered a)) e))
    answers (suc n) cs stage end a e h = elim (Option-cases (answer_of j stage)) [
      | inl more ↦
          Reaches-step (handle_alone drawn payload) (cs, selecting stage)
            ((advance j drawn cs stage).0, selecting (advance j drawn cs stage).1) _
            (rw (more, handle_step) refl)
            (answers n (advance j drawn cs stage).0 (advance j drawn cs stage).1 end a e h)
      | inr (b, over) ↦
          answers n cs stage end a
            (ap (repeat n (advance_alone j drawn)) (sym (answer_of_stays drawn cs stage b over))
              ∙ e)
            h
    ]

    selecting_alone :
        (r : BidRequest) (cs cs' : List Campagne) (a : Result (Response j))
        → answer j (select_campagne j drawn cs r) ≡ some (cs', a)
        → Reaches (handle_alone drawn payload) (cs, selecting (scanning r 0 [])) (cs', answered a)
    selecting_alone r cs cs' a e =
        let (end, (n, steps), _, same) = select_campagne_alone j drawn cs r in
        let (at_end, h) =
          answer_returned end cs' a (
            ap answer_with same
            ∙ sym (answer-without_request (select_campagne j drawn cs r))
            ∙ e) in
        let (m, steps') = answers n cs (scanning r 0 []) end a steps h in
        (m, steps' ∙ ap (λ x. (x, answered a)) at_end)

    admit_alone :
        (reading : Result (Option BidRequest)) (cs cs' : List Campagne) (a : Result (Response j))
        → process j drawn cs reading ≡ some (cs', a)
        → Reaches (handle_alone drawn payload) (cs, admit j reading) (cs', answered a)
    unfolding process admit
    admit_alone (err x) cs cs' a e = (0, cc)
    admit_alone (ok none) cs cs' a e = (0, cc)
    admit_alone (ok (some r)) cs cs' a e = elim (Bool-cases (is_valid r)) [
      | inl good ↦ rw (good, admit) (selecting_alone r cs cs' a (rw good at e))
      | inr bad ↦ let e' = rw bad at e in rw (bad, admit) (0, cc)
    ]

  -- Where the handler of one thread is defined, the steps of a thread that no other disturbs lead to the
  -- same campaigns and the same answer or exception.
  pub handle_alone_lem :
      (drawn : ℕ) (payload : Option Value) (cs cs' : List Campagne) (a : Result (Response j))
      → async_handle_http_request j drawn payload cs ≡ some (cs', a)
      → Reaches (handle_alone drawn payload) (cs, received) (cs', answered a)
  unfolding async_handle_http_request handle_step receive
  handle_alone_lem drawn none cs cs' a e = (1, cc)
  handle_alone_lem drawn (some v) cs cs' a e =
      Reaches-step (handle_alone drawn (some v)) (cs, received) (cs, admit j (read_request j v)) _
        refl (admit_alone drawn (some v) (read_request j v) cs cs' a e)
