-- ===== src/CampagnesManager/Select/Sale.antt =====
-- What `SelectCampagne` does for one thread: it sells to a campaign that meets every condition, or
-- finds none.
use tabmo_codding_challenge.Common.Result.{ok}
use tabmo_codding_challenge.Common.{
  ℕ, suc, ◌≤◌, ◌≡◌, ◌≢◌, ◌⊎◌, inl, inr, refl, ap, false, some, List, [], ◌∷◌, arith, length, All,
  Any, All-get_elem?, All_of_get_elem?, get_elem?-All, get_elem?, set,
}
use tabmo_codding_challenge.Float.{fin}
use tabmo_codding_challenge.Json.{Json}
use tabmo_codding_challenge.BidRequest.{BidRequest}
use tabmo_codding_challenge.Campagne.{Campagne}
use tabmo_codding_challenge.Campagne.Budget.{
  Holds, IsSeller, remaining, solvent-Holds, decremente_budget_lem,
}
use tabmo_codding_challenge.CampagnesManager.Compatible.{compatibles, lower_request}
use tabmo_codding_challenge.CampagnesManager.Compatible.Eligible.{IsEligible}
use tabmo_codding_challenge.CampagnesManager.Compatible.Positions.{
  compatibles_iff, compatibles_all, length-compatibles-le, compatibles_request,
}
use tabmo_codding_challenge.CampagnesManager.Draw.Defined.{IsBudget, random_select_defined}
use tabmo_codding_challenge.CampagnesManager.Select.{
  budgets_at, selected, creer_json, Outcome, buy, buy_sold, choose, select_campagne,
}

-- The campaign after it has paid its price.
abbrev pub paid : Campagne → ℕ → ℕ → Campagne
paid c b p = record c { budget = fin false (remaining b p) }

-- At position `k` stands a campaign that meets every condition.
abbrev EligibleAt : BidRequest → List Campagne → ℕ → Type 0
EligibleAt r cs k = (c : Campagne) × (get_elem? cs k ≡ some c) × IsEligible r c

-- Where a campaign is compatible there is a campaign, and the loop has put the request in lower case.
lowered_of :
    (r : BidRequest) (cs : List Campagne)
    → (compatibles r 0 cs).1 ≢ []
    → (compatibles r 0 cs).0 ≡ lower_request r
lowered_of r [] h = absurd (h (unfold compatibles in refl))
lowered_of r (c ∷ cs) h = compatibles_request r 0 c cs

module _ (cs : List Campagne) (sellers : All IsSeller cs) (r : BidRequest) where
  budgets_at_lem :
      (ps : List ℕ)
      → All (EligibleAt r cs) ps
      → (length (budgets_at cs ps) ≡ length ps) × All IsBudget (budgets_at cs ps)
  unfolding budgets_at
  budgets_at_lem [] _ = (refl, tt)
  budgets_at_lem (p ∷ ps) ((c, at, e), all) =
      let (same, budgets) = budgets_at_lem ps all in
      let (b, _, h, _) = solvent-Holds c (All-get_elem? IsSeller cs p sellers at) e.solvent in
      rw (at, budgets_at) (ap suc same, ((b, h.is_budget, h.bounded), budgets))

  -- The draw gives the position of one of the compatible campaigns.
  selected_defined :
      (drawn p : ℕ) (ps : List ℕ)
      → All (EligibleAt r cs) (p ∷ ps)
      → length (p ∷ ps) ≤ 16_777
      → (k : ℕ) × (selected drawn cs (p ∷ ps) ≡ some k) × EligibleAt r cs k
  unfolding selected
  selected_defined drawn p ps all few =
      let (same, budgets) = budgets_at_lem (p ∷ ps) all in
      let some_budget : budgets_at cs (p ∷ ps) ≢ [] =
        λ nothing. let none_left = ap length nothing in omega (arith, none_left) in
      let (i, e, h) =
        random_select_defined drawn (budgets_at cs (p ∷ ps)) some_budget budgets (omega arith) in
      let (k, at, eligible) = get_elem?-All (p ∷ ps) i all (omega arith) in
      (k, rw (e, selected) at, eligible)

  module _ (j : Json) where
    buy_pays :
        (k : ℕ) (c : Campagne) (b p : ℕ) (r' : BidRequest)
        → get_elem? cs k ≡ some c
        → Holds c b p
        → p ≤ b
        → buy j cs r' (some k) ≡ some (set cs k (paid c b p), r', ok (creer_json j (paid c b p) r'))
    unfolding buy buy_sold
    buy_pays k c b p r' at h q = elim (decremente_budget_lem c b p h) [
      | inl (_, e) ↦ rw (at, buy, e)
      | inr (short, _) ↦ absurd (omega arith)
    ]

    -- What a selection has done: nothing, since no campaign meets the conditions, with null as its
    -- result; or one campaign that meets them has paid.
    abbrev pub Selects : Outcome j → Type 0
    Selects outcome =
        (All (λ c. ¬ IsEligible r c) cs
          × ((r' : BidRequest) × (outcome ≡ some (cs, r', ok j.null))))
        ⊎ ((k : ℕ) × (c : Campagne) × (b : ℕ) × (p : ℕ) × (get_elem? cs k ≡ some c)
            × IsEligible r c
            × Holds c b p
            × (p ≤ b)
            × (outcome
                ≡ some (
                  set cs k (paid c b p),
                  lower_request r,
                  ok (creer_json j (paid c b p) (lower_request r)),
                )))

    choose_lem :
        (drawn : ℕ) (r' : BidRequest) (ps : List ℕ)
        → All (EligibleAt r cs) ps
        → ((k : ℕ) → EligibleAt r cs k → Any (λ i. i ≡ k) ps)
        → length ps ≤ 16_777
        → (ps ≢ [] → r' ≡ lower_request r)
        → Selects (choose j drawn cs (r', ps))
    unfolding choose
    choose_lem drawn r' [] all complete few lowered =
        inl (All_of_get_elem? _ cs (λ k c at e. complete k (c, at, e)), (r', refl))
    choose_lem drawn r' (q ∷ ps) all complete few lowered =
        let (k, e, (c, at, eligible)) = selected_defined drawn q ps all few in
        let (b, p, h, enough) =
          solvent-Holds c (All-get_elem? IsSeller cs k sellers at) eligible.solvent in
        inr (
          k,
          c,
          b,
          p,
          at,
          eligible,
          h,
          enough,
          rw (e, lowered (ground arith)) (buy_pays k c b p (lower_request r) at h enough),
        )

    -- For up to 16777 campaigns, each with numbers that the constructor and purchases leave or with NaN,
    -- a selection is defined and throws nothing, whatever number is drawn. Either no campaign meets
    -- every condition, the campaigns stay as they are and the result is null; or one that meets every
    -- condition and can pay its price pays it, the others stay as they are, and the result is its JSON.
    pub select_campagne_lem :
        (drawn : ℕ) → length cs ≤ 16_777 → Selects (select_campagne j drawn cs r)
    unfolding select_campagne
    select_campagne_lem drawn few =
        choose_lem drawn (compatibles r 0 cs).0 (compatibles r 0 cs).1 (compatibles_all r cs)
          (λ k. (compatibles_iff r cs k).1) (omega (arith, length-compatibles-le cs r 0))
          (lowered_of r cs)
