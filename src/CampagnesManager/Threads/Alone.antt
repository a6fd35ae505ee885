-- ===== src/CampagnesManager/Threads/Alone.antt =====
-- A thread that nobody disturbs does what `SelectCampagne` does for one thread.
use mathlib.Core.List.{append_assoc}
use tabmo_codding_challenge.Common.Result.{Result, ok, err, logic_error}
use tabmo_codding_challenge.Common.{
  ℕ, suc, ◌+◌, ◌≡◌, refl, ap, ◌∙◌, inl, inr, Bool, true, false, Option, none, some, List, [], ◌∷◌,
  ◌++◌, arith, All, get_elem?, Option-cases, Reaches, Reaches-step, Reaches-trans, if◌then◌else◌,
}
use tabmo_codding_challenge.Json.{Json}
use tabmo_codding_challenge.BidRequest.{BidRequest}
use tabmo_codding_challenge.Float.{Float}
use tabmo_codding_challenge.Campagne.{Campagne, decremente_budget}
use tabmo_codding_challenge.CampagnesManager.Compatible.{compatibles, is_compatible, lower_request}
use tabmo_codding_challenge.CampagnesManager.Compatible.Positions.{compatibles_all}
use tabmo_codding_challenge.CampagnesManager.Draw.{random_select}
use tabmo_codding_challenge.CampagnesManager.Select.{
  Outcome, budgets_at, selected, buy_sold, buy, choose, select_campagne,
}
use tabmo_codding_challenge.CampagnesManager.Threads.{
  Stage, scanning, summing, buying, found_nothing, sold, refused, undefined, scanned, drawn_from,
  bought, advance,
}
use tabmo_codding_challenge.CampagnesManager.Threads.Progress.{IsDone}

append-nil : {A : Type 0} (xs : List A) → xs ++ [] ≡ xs
append-nil [] = refl
append-nil (x ∷ xs) = ap (λ t. x ∷ t) (append-nil xs)

found-append :
    (found : List ℕ) (i : ℕ) (good : Bool) (later : List ℕ)
    → (if good then found ++ (i ∷ []) else found) ++ later
      ≡ found ++ (if good then i ∷ later else later)
found-append found i true later = append_assoc found (i ∷ []) later
found-append found i false later = refl

All-map :
    {P : ℕ → Type 0} (Q : ℕ → Type 0) (ks : List ℕ) → ((k : ℕ) → P k → Q k) → All P ks → All Q ks
All-map Q [] h all = tt
All-map Q (k ∷ ks) h (p, ps) = (h k p, All-map Q ks h ps)

module _ (j : Json) where
  open j use {Value, null}

  abbrev pub State : Type 0
  State = List Campagne × Stage j

  abbrev pub advance_alone : ℕ → State → State
  advance_alone drawn (cs, stage) = advance j drawn cs stage

  -- What `SelectCampagne` returns or throws at the end of a thread.
  abbrev pub returned : State → Option (List Campagne × Result Value)
  returned (cs, scanning r i found) = none
  returned (cs, summing r ps left bs) = none
  returned (cs, buying r k) = none
  returned (cs, found_nothing) = some (cs, ok null)
  returned (cs, sold v) = some (cs, ok v)
  returned (cs, refused) = some (cs, err logic_error)
  returned (cs, undefined) = none

  abbrev pub without_request : Outcome j → Option (List Campagne × Result Value)
  without_request none = none
  without_request (some (cs, r, result)) = some (cs, result)

  -- Some steps lead from `x` to an end with that outcome.
  abbrev pub Ends : ℕ → State → Outcome j → Type 0
  Ends drawn x outcome =
      (end : State) × Reaches (advance_alone drawn) x end
      × IsDone j end.1
      × (returned end ≡ without_request outcome)

  Ends-later :
      (drawn : ℕ) (x y : State) (outcome : Outcome j)
      → Reaches (advance_alone drawn) x y
      → Ends drawn y outcome
      → Ends drawn x outcome
  Ends-later drawn x y outcome first (end, later, done, e) =
      (end, Reaches-trans (advance_alone drawn) x y end first later, done, e)

  abbrev Has : List Campagne → ℕ → Type 0
  Has cs k = (c : Campagne) × (get_elem? cs k ≡ some c)

  module _ (drawn : ℕ) (cs : List Campagne) where
    once :
        (stage : Stage j) (y : State)
        → advance j drawn cs stage ≡ y
        → Reaches (advance_alone drawn) (cs, stage) y
    once stage y e = (1, e)

    bought-Ends :
        (r : BidRequest) (k : ℕ) (o : Campagne × Bool)
        → IsDone j (bought j cs r k o).1
          × (returned (bought j cs r k o) ≡ without_request (buy_sold j cs r k o))
    unfolding bought buy_sold
    bought-Ends r k (c, true) = (tt, refl)
    bought-Ends r k (c, false) = (tt, refl)

    buying-Ends : (r : BidRequest) (k : ℕ) → Ends drawn (cs, buying r k) (buy j cs r (some k))
    unfolding advance buy
    buying-Ends r k = elim (Option-cases (get_elem? cs k)) [
      | inl e ↦ ((cs, undefined), (1, rw (e, advance) refl), tt, rw (e, buy) refl)
      | inr (c, e) ↦
          let (done, same) = bought-Ends r k (decremente_budget c) in
          (bought j cs r k (decremente_budget c), (1, rw (e, advance) refl), done, rw (e, buy) same)
    ]

    drawn_from-Ends :
        (r : BidRequest) (ps : List ℕ) (o : Option ℕ)
        → Ends drawn
            (cs, drawn_from j r ps o)
            (buy j cs r (elim o [ none ↦ none | some i ↦ get_elem? ps i ]))
    unfolding drawn_from buy
    drawn_from-Ends r ps none = ((cs, undefined), (0, refl), tt, refl)
    drawn_from-Ends r ps (some i) = elim (Option-cases (get_elem? ps i)) [
      | inl e ↦ rw (e, drawn_from) ((cs, undefined), (0, refl), tt, refl)
      | inr (k, e) ↦ rw (e, drawn_from) (buying-Ends r k)
    ]

    summed :
        (r : BidRequest) (ps left : List ℕ) (bs : List Float)
        → All (Has cs) left
        → Reaches
            (advance_alone drawn)
            (cs, summing r ps left bs)
            (cs, drawn_from j r ps (random_select drawn (bs ++ budgets_at cs left)))
    unfolding advance budgets_at
    summed r ps [] bs all = (1, rw (append-nil bs) refl)
    summed r ps (p ∷ left) bs ((c, at), all) =
        Reaches-step (advance_alone drawn) (cs, summing r ps (p ∷ left) bs)
          (cs, summing r ps left (bs ++ (c.budget ∷ []))) _ (rw (at, advance) refl)
          (rw (at, budgets_at)
            (rw (← (append_assoc bs (c.budget ∷ []) (budgets_at cs left)))
              (summed r ps left (bs ++ (c.budget ∷ [])) all)))

    selected_one :
        (p : ℕ) (c : Campagne) → get_elem? cs p ≡ some c → selected drawn cs (p ∷ []) ≡ some p
    unfolding selected budgets_at random_select
    selected_one p c at = rw (at, selected) refl

    summing-Ends :
        (r : BidRequest) (ps : List ℕ)
        → All (Has cs) ps
        → Ends drawn (cs, summing r ps ps []) (buy j cs r (selected drawn cs ps))
    unfolding selected
    summing-Ends r ps all =
        Ends-later drawn _ _ _ (summed r ps ps [] all)
          (drawn_from-Ends r ps (random_select drawn (budgets_at cs ps)))

    scanned-Ends :
        (r : BidRequest) (ps : List ℕ)
        → All (Has cs) ps
        → Ends drawn (cs, scanned j r ps) (choose j drawn cs (r, ps))
    unfolding scanned choose
    scanned-Ends r [] all = ((cs, found_nothing), (0, refl), tt, refl)
    scanned-Ends r (p ∷ []) ((c, at), _) = rw (selected_one p c at) (buying-Ends r p)
    scanned-Ends r (p ∷ q ∷ ps) all = summing-Ends r (p ∷ q ∷ ps) all

    -- The loop, from position `i` on, where the rest of the list is `rest`.
    scan :
        (rest : List Campagne) (r : BidRequest) (i : ℕ) (found : List ℕ)
        → ((k : ℕ) → get_elem? cs (i + k) ≡ get_elem? rest k)
        → Reaches
            (advance_alone drawn)
            (cs, scanning r i found)
            (cs, scanned j (compatibles r i rest).0 (found ++ (compatibles r i rest).1))
    unfolding advance compatibles
    scan [] r i found at =
        let e : get_elem? cs i ≡ none = ap (get_elem? cs) (omega arith) ∙ at 0 in
        rw (append-nil found) (1, rw (e, advance) refl)
    scan (c ∷ rest) r i found at =
        let e : get_elem? cs i ≡ some c = ap (get_elem? cs) (omega arith) ∙ at 0 in
        let found' = if is_compatible r c then found ++ (i ∷ []) else found in
        let later =
          scan rest (lower_request r) (suc i) found'
            (λ k. ap (get_elem? cs) (omega arith) ∙ at (suc k)) in
        Reaches-step (advance_alone drawn) (cs, scanning r i found)
          (cs, scanning (lower_request r) (suc i) found') _ (rw (e, advance) refl)
          (rw
            (← (
              found-append found i (is_compatible r c)
                (compatibles (lower_request r) (suc i) rest).1))
            later)

    -- For any list of campaigns, any request and any draw: a thread that makes its steps without another
    -- comes to an end, with the campaigns, the JSON value, the exception or the undefined behaviour that
    -- `SelectCampagne` has for one thread.
    pub select_campagne_alone :
        (r : BidRequest) → Ends drawn (cs, scanning r 0 []) (select_campagne j drawn cs r)
    unfolding select_campagne
    select_campagne_alone r =
        let all =
          All-map (Has cs) (compatibles r 0 cs).1 (λ k (c, at, _). (c, at))
            (compatibles_all r cs) in
        Ends-later drawn _ _ _ (scan cs r 0 [] (λ k. ap (get_elem? cs) (omega arith)))
          (scanned-Ends (compatibles r 0 cs).0 (compatibles r 0 cs).1 all)
