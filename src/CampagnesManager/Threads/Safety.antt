-- ===== src/CampagnesManager/Threads/Safety.antt =====
-- What a step of a thread keeps.
use native.Mathlib.Decide.{ℕ_discrete}
use tabmo_codding_challenge.Common.{
  set_same, ℕ, suc, ◌+◌, ◌≤◌, ◌≡◌, ◌≢◌, inl, inr, refl, sym, ap, ◌∙◌, Bool, true, false, some, List,
  [], ◌∷◌, ◌++◌, arith, length, length-append, All, All-append, get_elem?-All, get_elem?,
  get_elem?-lt, get_elem?-none, ◌<◌, ◌⊎◌, Bool-cases, Option-cases, if◌then◌else◌,
}
use tabmo_codding_challenge.Float.{Float, fin}
use tabmo_codding_challenge.Json.{Json}
use tabmo_codding_challenge.BidRequest.{BidRequest}
use tabmo_codding_challenge.Campagne.{Campagne, decremente_budget}
use tabmo_codding_challenge.Campagne.Budget.{Holds, IsSeller, remaining, decremente_budget_lem}
use tabmo_codding_challenge.CampagnesManager.Bill.{Sold, Moves}
use tabmo_codding_challenge.CampagnesManager.Compatible.{is_compatible, lower_request}
use tabmo_codding_challenge.CampagnesManager.Compatible.Eligible.{is_compatible_iff}
use tabmo_codding_challenge.CampagnesManager.Draw.{random_select}
use tabmo_codding_challenge.CampagnesManager.Draw.Defined.{IsBudget, random_select_defined}
use tabmo_codding_challenge.CampagnesManager.Select.{creer_json}
use tabmo_codding_challenge.CampagnesManager.Select.Sale.{paid}
use tabmo_codding_challenge.CampagnesManager.Threads.{
  Stage, scanning, summing, buying, found_nothing, sold, refused, undefined, scanned, drawn_from,
  bought, advance,
}
use tabmo_codding_challenge.CampagnesManager.Threads.Suited.{
  SuitedAt, UnsuitedAt, ShortAt, NothingFor, Sold-length, IsLowered, Sold-from,
  lower_request-IsLowered, is_compatible-IsLowered, found-SuitedAt, SuitedAt-Holds,
}

not_both : (b : Bool) → b ≡ true → b ≡ false → ⊥
not_both b e f = absurd (cc)

some_last : (ks : List ℕ) (k : ℕ) → ks ++ (k ∷ []) ≢ []
some_last ks k e =
    let none_left = ap length e in omega (arith, length-append ks (k ∷ []), none_left)

module _ (j : Json) (cs0 : List Campagne) where
  open j use {Value}

  creer_json-IsLowered :
      (c : Campagne) (asked r : BidRequest)
      → IsLowered asked r
      → creer_json j c r ≡ creer_json j c asked
  unfolding creer_json lower_request
  creer_json-IsLowered c asked r (inl e) = rw e refl
  creer_json-IsLowered c asked r (inr e) = rw e refl

  unfoldable pub is_sold : Stage j → Bool
  is_sold (sold v) = true
  is_sold _ = false

  module _ (Past : Stage j → List Campagne → Type 0) where
    -- A JSON value that a thread has sold: that of a campaign that was suited.
    abbrev pub IsOffer : BidRequest → Value → Type 0
    IsOffer asked v =
        (k : ℕ) × SuitedAt j Past asked cs0 k
        × ((c : Campagne) × (d : Campagne) × (get_elem? cs0 k ≡ some c)
            × (d ≡ record c { budget = d.budget })
            × (v ≡ creer_json j d asked))

    abbrev pub Sound : BidRequest → Stage j → Type 0
    Sound asked (scanning r i found) =
        IsLowered asked r
        × All (SuitedAt j Past asked cs0) found
        × (length found ≤ i)
        × (i ≤ length cs0)
        × ((k : ℕ) → k < i → UnsuitedAt j Past asked cs0 k ⊎ (found ≢ []))
    Sound asked (summing r ps left bs) =
        IsLowered asked r
        × All (SuitedAt j Past asked cs0) ps
        × All (SuitedAt j Past asked cs0) left
        × All IsBudget bs
        × (length bs + length left ≡ length ps)
        × (1 ≤ length ps)
        × (length ps ≤ length cs0)
    Sound asked (buying r k) = IsLowered asked r × SuitedAt j Past asked cs0 k
    Sound asked found_nothing = NothingFor j Past asked cs0
    Sound asked (sold v) = IsOffer asked v
    Sound asked refused = (k : ℕ) × ShortAt j Past asked cs0 k
    Sound asked undefined = ⊥

    abbrev Advances : BidRequest → List Campagne → Stage j → List Campagne × Stage j → Type 0
    Advances asked cs stage next =
        Sound asked next.1 × Moves cs (is_sold stage) next.0 (is_sold next.1)

    module _ (asked : BidRequest) (ns : List ℕ) (cs : List Campagne) (s : Sold ns cs0 cs)
        (sellers : All IsSeller cs) (few : length cs0 ≤ 16_777) where
      scanned-Sound :
          (r : BidRequest) (found : List ℕ)
          → IsLowered asked r
          → All (SuitedAt j Past asked cs0) found
          → length found ≤ length cs0
          → ((k : ℕ) → k < length cs0 → UnsuitedAt j Past asked cs0 k ⊎ (found ≢ []))
          → Sound asked (scanned j r found) × (is_sold (scanned j r found) ≡ false)
      unfolding scanned is_sold
      scanned-Sound r [] l all bound why = (
        λ k inside. elim (why k inside) [
          | inl unsuited ↦ unsuited
          | inr some_found ↦ absurd (some_found refl)
        ],
        refl,
      )
      scanned-Sound r (p ∷ []) l (suited, _) bound why = ((l, suited), refl)
      scanned-Sound r (p ∷ q ∷ ps) l all bound why =
          ((l, all, all, tt, omega arith, omega arith, bound), refl)

      drawn_from-Sound :
          (drawn : ℕ) (r : BidRequest) (ps : List ℕ) (bs : List Float)
          → Sound asked (summing r ps [] bs)
          → Sound asked (drawn_from j r ps (random_select drawn bs))
            × (is_sold (drawn_from j r ps (random_select drawn bs)) ≡ false)
      unfolding drawn_from is_sold
      drawn_from-Sound drawn r ps bs (l, all, _, budgets, same, pos, bound) =
          let some_budget : bs ≢ [] = λ e. let e' = ap length e in omega (arith, e') in
          let (i, e, h) = random_select_defined drawn bs some_budget budgets (omega arith) in
          let (k, at, suited) = get_elem?-All ps i all (omega arith) in
          (rw (e, drawn_from, at) (l, suited), rw (e, drawn_from, at) refl)

      buying-Sound :
          (r : BidRequest) (k : ℕ) (d : Campagne) (b p : ℕ)
          → Past (buying r k) cs
          → IsLowered asked r
          → SuitedAt j Past asked cs0 k
          → get_elem? cs k ≡ some d
          → Holds d b p
          → Advances asked cs (buying r k) (bought j cs r k (decremente_budget d))
      unfolding bought is_sold
      buying-Sound r k d b p past l suited at h = elim (decremente_budget_lem d b p h) [
        | inr (short, e) ↦
            rw e
              ((k, (suited, (r, cs, d, b, p, past, at, h, short))), inl (set_same cs k d at, refl))
        | inl (enough, e) ↦ rw e (
          (
            k,
            suited,
            let (c, n, at0, bill) = Sold-from ns cs0 cs k d s at in
                (
                  c,
                  paid d b p,
                  at0,
                  ap {A = Campagne} (λ x. record x { budget = fin false (remaining b p) }) bill.0,
                  creer_json-IsLowered (paid d b p) asked r l,
                ),
          ),
          inr (k, d, b, p, at, h, enough, refl, refl, refl),
        )
      ]

      scan-Sound :
          (r : BidRequest) (i : ℕ) (found : List ℕ) (c : Campagne)
          → Past (scanning r i found) cs
          → Sound asked (scanning r i found)
          → get_elem? cs i ≡ some c
          → Sound asked (
              scanning
                (lower_request r)
                (suc i)
                (if is_compatible r c then found ++ (i ∷ []) else found))
      scan-Sound r i found c past (l, all, bound, inside, why) at =
          let (c0, n, at0, _) = Sold-from ns cs0 cs i c s at in
          let within = get_elem?-lt cs0 i at0 in
          let same = is_compatible-IsLowered asked r c l in
          elim (Bool-cases (is_compatible r c)) [
            | inr bad ↦ rw bad (
              lower_request-IsLowered asked r l,
              all,
              omega arith,
              omega arith,
              λ k low. elim (ℕ_discrete k i) [
                | yes e ↦ inl (
                    rw e (
                      r,
                      found,
                      cs,
                      c,
                      past,
                      at,
                      λ eligible. absurd (
                          not_both (is_compatible r c)
                            (same ∙ (is_compatible_iff asked c).1 eligible) bad),
                    ))
                | no ne ↦ why k (omega arith)
              ],
            )
            | inl good ↦ rw good (
              lower_request-IsLowered asked r l,
              All-append (SuitedAt j Past asked cs0) found (i ∷ []) all (
                found-SuitedAt j Past asked cs0 ns cs s r i found c past sellers at
                    ((is_compatible_iff asked c).0 (sym same ∙ good)),
                tt,
              ),
              omega (arith, length-append found (i ∷ [])),
              omega arith,
              λ k low. inr (some_last found i),
            )
          ]

      -- Every step of a thread.
      pub advance-Sound :
          (drawn : ℕ) (stage : Stage j)
          → Past stage cs
          → Sound asked stage
          → Advances asked cs stage (advance j drawn cs stage)
      unfolding advance is_sold
      advance-Sound drawn (scanning r i found) past sound = elim (Option-cases (get_elem? cs i)) [
        | inl e ↦
            let (l, all, bound, inside, why) = sound in
            let (sound', none_sold) =
              scanned-Sound r found l all (omega arith)
                (λ k low. why k (omega (arith, get_elem?-none cs i e, Sold-length ns cs0 cs s))) in
            rw (e, advance) (sound', inl (refl, none_sold))
        | inr (c, e) ↦ rw (e, advance) (scan-Sound r i found c past sound e, inl (refl, refl))
      ]
      advance-Sound drawn (summing r ps [] bs) past sound =
          let (sound', none_sold) = drawn_from-Sound drawn r ps bs sound in
          (sound', inl (refl, none_sold))
      advance-Sound drawn (summing r ps (p ∷ left) bs) past
            (l, all, (suited, later), budgets, same, pos, bound) =
          let (d, b, q, at, h) = SuitedAt-Holds j Past asked cs0 ns cs s p suited in
          rw (at, advance)
            (
              (
                l,
                all,
                later,
                All-append IsBudget bs (d.budget ∷ []) budgets ((b, h.is_budget, h.bounded), tt),
                omega (arith, length-append bs (d.budget ∷ [])),
                pos,
                bound,
              ),
              inl (refl, refl),
            )
      advance-Sound drawn (buying r k) past (l, suited) =
          let (d, b, p, at, h) = SuitedAt-Holds j Past asked cs0 ns cs s k suited in
          rw (at, advance) (buying-Sound r k d b p past l suited at h)
      advance-Sound drawn found_nothing past sound = (sound, inl (refl, refl))
      advance-Sound drawn (sold v) past sound = (sound, inl (refl, refl))
      advance-Sound drawn refused past sound = (sound, inl (refl, refl))
      advance-Sound drawn undefined past sound = elim sound [ ]
