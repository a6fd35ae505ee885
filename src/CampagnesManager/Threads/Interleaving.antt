-- ===== src/CampagnesManager/Threads/Interleaving.antt =====
-- Threads that run `SelectCampagne`, in any order of their steps.
use tabmo_codding_challenge.Common.{
  ℕ, ◌≤◌, ◌≡◌, inl, inr, refl, Bool, List, [], ◌∷◌, ◌++◌, ap, some, arith, length, All, All-set,
  All-get_elem?, get_elem?, count_if, Option-cases, map,
}
use tabmo_codding_challenge.Json.{Json}
use tabmo_codding_challenge.BidRequest.{BidRequest}
use tabmo_codding_challenge.Campagne.{Campagne}
use tabmo_codding_challenge.Campagne.Budget.{IsSeller}
use tabmo_codding_challenge.CampagnesManager.Bill.{
  Billed, Moves-Billed, nothing_sold, Sold-nothing, total_nothing,
}
use tabmo_codding_challenge.CampagnesManager.Threads.{Thread, World, start, turn, interleave}
use tabmo_codding_challenge.CampagnesManager.Threads.Safety.{Sound, is_sold, advance-Sound}

-- In the run of the schedule there is a moment when some thread is `x` and the campaigns are `ds`.
abbrev pub Seen : (j : Json) → List (ℕ × ℕ) → World j → Thread j → List Campagne → Type 0
Seen j schedule w x ds =
    (before : List (ℕ × ℕ)) × (after : List (ℕ × ℕ)) × (t : ℕ) × (schedule ≡ before ++ after)
    × ((interleave j before w).0 ≡ ds)
    × (get_elem? (interleave j before w).1 t ≡ some x)

module _ (j : Json) (cs0 : List Campagne) where
  abbrev has_sold : Thread j → Bool
  has_sold (asked, stage) = is_sold j cs0 stage

  module _ (Past : Thread j → List Campagne → Type 0) where
    abbrev SoundThread : Thread j → Type 0
    SoundThread (asked, stage) = Sound j cs0 (λ at. Past (asked, at)) asked stage

    -- No thread has left the defined behaviour; what a thread has sold is the JSON of a campaign that was
    -- suited; and the sales of the threads are paid.
    abbrev pub IsSafe : World j → Type 0
    IsSafe (cs, ts) = Billed has_sold cs0 cs ts × All SoundThread ts

    module _ (few : length cs0 ≤ 16_777) where
      turn-IsSafe :
          (t drawn : ℕ) (w : World j)
          → ((x : Thread j) → get_elem? w.1 t ≡ some x → Past x w.0)
          → IsSafe w
          → IsSafe (turn j (t, drawn) w)
      unfolding turn
      turn-IsSafe t drawn (cs, ts) past (billed, sound) = elim (Option-cases (get_elem? ts t)) [
        | inl e ↦ rw (e, turn) (billed, sound)
        | inr ((asked, stage), e) ↦
            let (ns, s, _, sellers) = billed in
            let (sound', moves) =
              advance-Sound j cs0 (λ at. Past (asked, at)) asked ns cs s sellers few drawn stage
                (past (asked, stage) e) (All-get_elem? SoundThread ts t sound e) in
            rw (e, turn)
              (
                Moves-Billed has_sold cs0 cs _ ts t (asked, stage) _ e moves billed,
                All-set SoundThread ts t sound sound',
              )
      ]

      interleave-IsSafe :
          (schedule : List (ℕ × ℕ)) (w : World j)
          → ((x : Thread j) (ds : List Campagne) → Seen j schedule w x ds → Past x ds)
          → IsSafe w
          → IsSafe (interleave j schedule w)
      unfolding interleave
      interleave-IsSafe [] w past safe = safe
      interleave-IsSafe ((t, drawn) ∷ schedule) w past safe =
          interleave-IsSafe schedule (turn j (t, drawn) w)
            (λ x ds (before, after, u, split, at, here).
              past x ds ((t, drawn) ∷ before, after, u, ap (λ l. (t, drawn) ∷ l) split, at, here))
            (turn-IsSafe t drawn w (λ x e. past x w.0 ([], (t, drawn) ∷ schedule, t, refl, refl, e))
              safe)

      start-Sound :
          (requests : List BidRequest)
          → All SoundThread (map (start j) requests)
            × (count_if has_sold (map (start j) requests) ≡ 0)
      unfolding is_sold
      start-Sound [] = (tt, refl)
      start-Sound (r ∷ requests) =
          let (sound, none_sold) = start-Sound requests in
          (
            ((inl refl, tt, omega arith, omega arith, λ k low. absurd (omega arith)), sound),
            none_sold,
          )

  module _ (few : length cs0 ≤ 16_777) where
    -- For up to 16777 campaigns with numbers or NaN, any requests, each in a thread of its own, and
    -- any order of the steps of the threads: no thread runs into undefined behaviour; a thread that
    -- has sold has the JSON of a campaign that met every condition, with the budget that it had, at
    -- a moment of this run when a thread with that request stood before it in the loop; where a
    -- thread has found nothing, each campaign failed some condition at such a moment; where its
    -- purchase was refused, it was of a campaign that had met every condition and whose budget was
    -- below its price at a moment when a thread with that request was about to buy it; the campaigns
    -- keep all but their budgets; and there is a number of sales for each, together the number of
    -- threads that have sold, such that the price of the sales of a campaign is within what its
    -- budget has lost, up to a rounding of 2 ^ -15 for each sale.
    pub interleave_lem :
        (requests : List BidRequest) (schedule : List (ℕ × ℕ))
        → All IsSeller cs0
        → let w : World j = (cs0, map (start j) requests) in
          IsSafe (Seen j schedule w) (interleave j schedule w)
    interleave_lem requests schedule sellers =
        let w : World j = (cs0, map (start j) requests) in
        let (sound, none_sold) = start-Sound (Seen j schedule w) few requests in
        interleave-IsSafe (Seen j schedule w) few schedule w (λ x ds seen. seen)
          ((nothing_sold cs0, Sold-nothing cs0, omega (arith, total_nothing cs0), sellers), sound)
