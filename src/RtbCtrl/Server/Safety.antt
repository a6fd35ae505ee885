-- ===== src/RtbCtrl/Server/Safety.antt =====
-- What the threads of the server keep, in any order of their steps.
use tabmo_codding_challenge.Common.Result.{Exception, Result, ok, err, Result-cases}
use tabmo_codding_challenge.Common.{
  ℕ, ◌≤◌, ◌≡◌, ◌⊎◌, inl, inr, refl, sym, ap, ◌∙◌, Bool, true, false, Option, none, some, List, [],
  ◌∷◌, ◌++◌, arith, length, All, All-set, All-get_elem?, get_elem?, Bool-cases, Option-cases,
  count_if,
}
use tabmo_codding_challenge.Json.{Json, IsJson}
use tabmo_codding_challenge.BidRequest.{BidRequest}
use tabmo_codding_challenge.Campagne.{Campagne}
use tabmo_codding_challenge.Campagne.Budget.{IsSeller}
use tabmo_codding_challenge.CampagnesManager.Bill.{
  Billed, Moves, Moves-Billed, Sold, nothing_sold, Sold-nothing, total_nothing,
}
use tabmo_codding_challenge.CampagnesManager.Threads.{
  Stage, scanning, summing, buying, found_nothing, sold, refused, undefined,
}
use tabmo_codding_challenge.CampagnesManager.Threads.Suited.{NothingFor, ShortAt}
use tabmo_codding_challenge.CampagnesManager.Threads.Safety.{IsOffer, Sound, is_sold, advance-Sound}
use tabmo_codding_challenge.RtbCtrl.{Response, read_request, is_valid, respond}
use tabmo_codding_challenge.RtbCtrl.Answers.{IsRefused, no_content, respond_null, respond_sold}
use tabmo_codding_challenge.RtbCtrl.Requests.{is_sale}
use tabmo_codding_challenge.RtbCtrl.Server.{
  Task, received, selecting, answered, admit, receive, answer_of, handle_step, serve_step,
  serve_together, Server, open_server,
}

-- In the run of the schedule there is a moment when some request is `x` and the campaigns are `ds`.
abbrev pub Seen :
    (j : Json) → List (ℕ × ℕ) → Server j → Option j.Value × Task j → List Campagne → Type 0
Seen j schedule w x ds =
    (before : List (ℕ × ℕ)) × (after : List (ℕ × ℕ)) × (t : ℕ) × (schedule ≡ before ++ after)
    × ((serve_together j before w).0 ≡ ds)
    × (get_elem? (serve_together j before w).1 t ≡ some x)

module _ (j : Json) (laws : IsJson j) (cs0 : List Campagne) where
  open j use {Value}

  -- The payload reads as a valid request.
  abbrev Asks : Option Value → BidRequest → Type 0
  Asks none r = ⊥
  Asks (some v) r = (read_request j v ≡ ok (some r)) × (is_valid r ≡ true)

  unfoldable pub has_paid : Option Value × Task j → Bool
  has_paid (payload, received) = false
  has_paid (payload, selecting stage) = is_sold j cs0 stage
  has_paid (payload, answered a) = is_sale j a

  module _ (Past : Option Value × Task j → List Campagne → Type 0) where
    abbrev PastOf : Option Value → Stage j → List Campagne → Type 0
    PastOf payload stage = Past (payload, selecting stage)

    -- Why a request is answered with 204: its payload is refused; no campaign met every condition when
    -- the loop came to it; or one that did was too poor when it was to be bought.
    abbrev pub IsUnsold : Option Value → Type 0
    IsUnsold payload =
        IsRefused j laws payload
        ⊎ ((r : BidRequest) × Asks payload r × NothingFor j (PastOf payload) r cs0)
        ⊎ ((r : BidRequest) × (k : ℕ) × Asks payload r × ShortAt j (PastOf payload) r cs0 k)

    -- An answer that the payload allows: 204 with the JSON null, where nothing is sold; the exception of
    -- the reading; or the JSON of a campaign that was suited for the request.
    abbrev pub IsAnswer : Option Value → Result (Response j) → Type 0
    IsAnswer payload answer =
        (IsUnsold payload × (answer ≡ ok (no_content j laws)))
        ⊎ ((v : Value) × (e : Exception) × (payload ≡ some v)
            × (read_request j v ≡ err e)
            × (answer ≡ err e))
        ⊎ ((r : BidRequest) × (v : Value) × Asks payload r
            × IsOffer j cs0 (PastOf payload) r v
            × (answer ≡ ok (record { body = v; status_code = 200 })))

    abbrev pub SoundTask : Option Value × Task j → Type 0
    SoundTask (payload, received) = Unit {0}
    SoundTask (payload, selecting stage) =
        (r : BidRequest) × Asks payload r × Sound j cs0 (PastOf payload) r stage
    SoundTask (payload, answered a) = IsAnswer payload a

    abbrev pub IsServed : Server j → Type 0
    IsServed (cs, ts) = Billed has_paid cs0 cs ts × All SoundTask ts

    abbrev Steps : List Campagne → Option Value → Task j → List Campagne × Task j → Type 0
    Steps cs payload task next =
        SoundTask (payload, next.1)
        × Moves cs (has_paid (payload, task)) next.0 (has_paid (payload, next.1))

    -- A task of which nothing is known but that it has not paid.
    abbrev Admits : Option Value → Task j → Type 0
    Admits payload task = SoundTask (payload, task) × (has_paid (payload, task) ≡ false)

    ignored :
        (payload : Option Value)
        → IsUnsold payload
        → Admits payload (answered (ok (respond j (j.null))))
    unfolding has_paid is_sale
    ignored payload unsold = rw (respond_null j laws) (inl (unsold, refl), refl)

    receive-Admits : (payload : Option Value) → Admits payload (receive j payload)
    unfolding receive has_paid is_sale is_sold
    receive-Admits none = ignored none (inl tt)
    receive-Admits (some v) = elim (Result-cases (read_request j v)) [
      | inr (e, h) ↦ rw (h, admit) (inr (inl (v, e, refl, h, refl)), refl)
      | inl (none, h) ↦ rw (h, admit) (ignored (some v) (inl (inl h)))
      | inl (some r, h) ↦ elim (Bool-cases (is_valid r)) [
        | inr bad ↦ rw (h, admit) (rw bad (ignored (some v) (inl (inr (r, h, bad)))))
        | inl good ↦
            rw (h, admit)
              (rw good (
                (
                  r,
                  (h, good),
                  (inl refl, tt, omega arith, omega arith, λ k low. absurd (omega arith)),
                ),
                refl,
              ))
      ]
    ]

    sold_answer :
        (payload : Option Value) (r : BidRequest) (v : Value)
        → Asks payload r
        → IsOffer j cs0 (PastOf payload) r v
        → let task = answered (ok (respond j v)) in
          SoundTask (payload, task) × (has_paid (payload, task) ≡ true)
    unfolding has_paid is_sale
    sold_answer payload r v asks (k, suited, (c, d, at, same, e)) =
        let sale : respond j v ≡ record { body = v; status_code = 200 } =
          ap (respond j) e
          ∙ respond_sold j laws d r
          ∙ ap (λ x. record { body = x; status_code = 200 }) (sym e) in
        rw sale (inr (inr (r, v, asks, (k, suited, (c, d, at, same, e)), refl)), refl)

    module _ (few : length cs0 ≤ 16_777) where
      step-Steps :
          (ns : List ℕ) (cs : List Campagne) (drawn : ℕ) (payload : Option Value) (task : Task j)
          → Past (payload, task) cs
          → Sold ns cs0 cs
          → All IsSeller cs
          → SoundTask (payload, task)
          → Steps cs payload task (handle_step j drawn payload cs task)
      unfolding handle_step answer_of has_paid is_sale is_sold
      step-Steps ns cs drawn payload received past s sellers sound =
          let (sound', none_paid) = receive-Admits payload in (sound', inl (refl, none_paid))
      step-Steps ns cs drawn payload (answered a) past s sellers sound = (sound, inl (refl, refl))
      step-Steps ns cs drawn payload (selecting found_nothing) past s sellers (r, asks, why) =
          let (sound', none_paid) = ignored payload (inr (inl (r, asks, why))) in
          (sound', inl (refl, none_paid))
      step-Steps ns cs drawn payload (selecting refused) past s sellers (r, asks, (k, short)) =
          let (sound', none_paid) = ignored payload (inr (inr (r, k, asks, short))) in
          (sound', inl (refl, none_paid))
      step-Steps ns cs drawn payload (selecting undefined) past s sellers (r, asks, sound) =
          elim sound [ ]
      step-Steps ns cs drawn payload (selecting (sold v)) past s sellers (r, asks, offer) =
          let (sound', paid_now) = sold_answer payload r v asks offer in
          (sound', inl (refl, paid_now))
      step-Steps ns cs drawn payload (selecting (scanning q i found)) past s sellers
            (r, asks, sound) =
          let (sound', moves) =
            advance-Sound j cs0 (PastOf payload) r ns cs s sellers few drawn (scanning q i found)
              past sound in
          ((r, asks, sound'), moves)
      step-Steps ns cs drawn payload (selecting (summing q ps left bs)) past s sellers
            (r, asks, sound) =
          let (sound', moves) =
            advance-Sound j cs0 (PastOf payload) r ns cs s sellers few drawn (summing q ps left bs)
              past sound in
          ((r, asks, sound'), moves)
      step-Steps ns cs drawn payload (selecting (buying q k)) past s sellers (r, asks, sound) =
          let (sound', moves) =
            advance-Sound j cs0 (PastOf payload) r ns cs s sellers few drawn (buying q k) past
              sound in
          ((r, asks, sound'), moves)

      pub serve_step-IsServed :
          (t drawn : ℕ) (w : Server j)
          → ((x : Option Value × Task j) → get_elem? w.1 t ≡ some x → Past x w.0)
          → IsServed w
          → IsServed (serve_step j (t, drawn) w)
      unfolding serve_step
      serve_step-IsServed t drawn (cs, ts) past (billed, sound) =
          elim (Option-cases (get_elem? ts t)) [
            | inl e ↦ rw (e, serve_step) (billed, sound)
            | inr ((payload, task), e) ↦
                let (ns, s, _, sellers) = billed in
                let (sound', moves) =
                  step-Steps ns cs drawn payload task (past (payload, task) e) s sellers
                    (All-get_elem? SoundTask ts t sound e) in
                rw (e, serve_step)
                  (
                    Moves-Billed has_paid cs0 cs _ ts t (payload, task) _ e moves billed,
                    All-set SoundTask ts t sound sound',
                  )
          ]

      serve_together-IsServed :
          (schedule : List (ℕ × ℕ)) (w : Server j)
          → ((x : Option Value × Task j) (ds : List Campagne) → Seen j schedule w x ds → Past x ds)
          → IsServed w
          → IsServed (serve_together j schedule w)
      unfolding serve_together
      serve_together-IsServed [] w past served = served
      serve_together-IsServed ((t, drawn) ∷ schedule) w past served =
          serve_together-IsServed schedule (serve_step j (t, drawn) w)
            (λ x ds (before, after, u, split, at, here).
              past x ds ((t, drawn) ∷ before, after, u, ap (λ l. (t, drawn) ∷ l) split, at, here))
            (serve_step-IsServed t drawn w
              (λ x e. past x w.0 ([], (t, drawn) ∷ schedule, t, refl, refl, e)) served)

    pub open-IsServed :
        (payloads : List (Option Value))
        → All SoundTask (open_server j cs0 payloads).1
          × (count_if has_paid (open_server j cs0 payloads).1 ≡ 0)
    unfolding has_paid
    open-IsServed [] = (tt, refl)
    open-IsServed (payload ∷ payloads) =
        let (sound, none_paid) = open-IsServed payloads in ((tt, sound), none_paid)

    pub opened-IsServed :
        (payloads : List (Option Value)) → All IsSeller cs0 → IsServed (open_server j cs0 payloads)
    opened-IsServed payloads sellers =
        let (sound, none_paid) = open-IsServed payloads in
        ((nothing_sold cs0, Sold-nothing cs0, omega (arith, total_nothing cs0), sellers), sound)

  module _ (few : length cs0 ≤ 16_777) where
    -- For up to 16777 campaigns with numbers or NaN, any payloads, each handled in a thread of its
    -- own, and any order of the steps of the threads: no thread runs into undefined behaviour; a
    -- request that is done has the result that `IsAnswer` says for this run; the campaigns keep all
    -- but their budgets, and the sales that have been made, answered or about to be, are paid by
    -- what the budgets have lost, up to a rounding of 2 ^ -15 for each.
    pub serve_together_lem :
        (payloads : List (Option Value)) (schedule : List (ℕ × ℕ))
        → All IsSeller cs0
        → let w = open_server j cs0 payloads in
          IsServed (Seen j schedule w) (serve_together j schedule w)
    serve_together_lem payloads schedule sellers =
        let w = open_server j cs0 payloads in
        serve_together-IsServed (Seen j schedule w) few schedule w (λ x ds seen. seen)
          (opened-IsServed (Seen j schedule w) payloads sellers)
