-- ===== src/CampagnesManager/Compatible/Positions.antt =====
-- The list of compatible campaigns that the loop of `SelectCampagne` builds.
use mathlib.Core.Option.{some-injective}
use tabmo_codding_challenge.Common.Text.{lower_idem}
use tabmo_codding_challenge.Common.{
  All, All_of_Any, length, ℕ, zero, suc, ◌+◌, ◌≤◌, ◌<◌, ◌≡◌, ◌↔◌, ◌⊎◌, inl, inr, refl, ◌∙◌, Bool,
  true, false, List, [], ◌∷◌, some, arith, Any, get_elem?, Bool-cases, if◌then◌else◌,
}
use tabmo_codding_challenge.BidRequest.{BidRequest}
use tabmo_codding_challenge.Campagne.{Campagne}
use tabmo_codding_challenge.CampagnesManager.Compatible.{
  fits, same_ratio, can_pay, lower_request, is_compatible, compatibles,
}
use tabmo_codding_challenge.CampagnesManager.Compatible.Eligible.{IsEligible, is_compatible_iff}

pub lower_request_idem : (r : BidRequest) → lower_request (lower_request r) ≡ lower_request r
unfolding lower_request
lower_request_idem r = cc (lower_idem r.device_lang, lower_idem r.device_ifa)

fits-lower_request : (r : BidRequest) (c : Campagne) → fits (lower_request r) c ≡ fits r c
unfolding fits same_ratio lower_request
fits-lower_request r c = refl

can_pay-lower_request : (r : BidRequest) (c : Campagne) → can_pay (lower_request r) c ≡ can_pay r c
unfolding can_pay lower_request
can_pay-lower_request r c = refl

-- A campaign is compatible with a request that an earlier round put in lower case exactly when it is
-- with the original.
pub is_compatible-lower_request :
    (r : BidRequest) (c : Campagne) → is_compatible (lower_request r) c ≡ is_compatible r c
unfolding is_compatible
is_compatible-lower_request r c =
    rw (lower_request_idem r, fits-lower_request r c, can_pay-lower_request r c)

-- The loop leaves the request in lower case if there is a campaign.
pub compatibles_request :
    (r : BidRequest) (i : ℕ) (c : Campagne) (cs : List Campagne)
    → (compatibles r i (c ∷ cs)).0 ≡ lower_request r
unfolding compatibles
compatibles_request r i c [] = refl
compatibles_request r i c (d ∷ cs) =
    compatibles_request (lower_request r) (suc i) d cs ∙ lower_request_idem r

Any-head :
    (P : ℕ → Type 0) (b : Bool) (i : ℕ) (rest : List ℕ)
    → Any P (if b then i ∷ rest else rest) ↔ (((b ≡ true) × P i) ⊎ Any P rest)
Any-head P true i rest = ground arith
Any-head P false i rest = ground arith

-- The positions rise along the list, and so no campaign is in it twice.
abbrev IsRising : ℕ → List ℕ → Type 0
IsRising low [] = Unit {0}
IsRising low (j ∷ js) = (low ≤ j) × IsRising (suc j) js

IsRising-mono : {low low' : ℕ} (js : List ℕ) → low' ≤ low → IsRising low js → IsRising low' js
IsRising-mono [] h r = tt
IsRising-mono (j ∷ js) h (first, r) = (omega arith, r)

-- The positions of the compatible campaigns rise, from the start on.
compatibles-IsRising :
    (cs : List Campagne) (r : BidRequest) (i : ℕ) → IsRising i (compatibles r i cs).1
unfolding compatibles
compatibles-IsRising [] r i = tt
compatibles-IsRising (c ∷ cs) r i =
    let later = compatibles-IsRising cs (lower_request r) (suc i) in
    elim (Bool-cases (is_compatible r c)) [
      | inl good ↦ rw good (omega arith, later)
      | inr bad ↦ rw bad (IsRising-mono _ (omega arith) later)
    ]

not-Any-below : (js : List ℕ) {low n : ℕ} → n < low → IsRising low js → ¬ (Any (λ j. j ≡ n) js)
not-Any-below [] h _ none_left = elim none_left [ ]
not-Any-below (j ∷ js) h (first, r) (inl e) = omega arith
not-Any-below (j ∷ js) h (first, r) (inr later) = not-Any-below js (omega arith) r later

-- Position `n` belongs to the campaign `k` places behind the start.
Any-from :
    (cs : List Campagne) (r : BidRequest) (i k n : ℕ)
    → n ≡ i + k
    → Any (λ j. j ≡ n) (compatibles r i cs).1
      ↔ ((c : Campagne) × (get_elem? cs k ≡ some c) × (is_compatible r c ≡ true))
unfolding compatibles
Any-from [] r i k n e = (λ h. absurd h, λ (c, e', _). cc)
Any-from (c ∷ cs) r i zero n e = (
  λ h. elim ((Any-head (λ j. j ≡ n) (is_compatible r c) i _).0 h) [
    | inl (good, _) ↦ (c, refl, good)
    | inr later ↦ absurd (
        not-Any-below _ {low = suc i} (omega arith)
          (compatibles-IsRising cs (lower_request r) (suc i)) later)
  ],
  λ (d, same, good).
      (Any-head (λ j. j ≡ n) (is_compatible r c) i _).1
        (inl (rw (some-injective _ _ same) good, omega arith)),
)
Any-from (c ∷ cs) r i (suc k) n e =
    let (to, from) = Any-from cs (lower_request r) (suc i) k n (omega arith) in
    (
      λ h. elim ((Any-head (λ j. j ≡ n) (is_compatible r c) i _).0 h) [
        | inl (_, here) ↦ absurd (omega arith)
        | inr later ↦
            let (d, at, good) = to later in (d, at, rw (← is_compatible-lower_request r d) good)
      ],
      λ (d, at, good).
          (Any-head (λ j. j ≡ n) (is_compatible r c) i _).1
            (inr (from (d, at, rw (is_compatible-lower_request r d) good))),
    )

-- The list of compatible campaigns has position `k` exactly when a campaign stands at `k` and it meets
-- every condition, on the request as it was before the loop.
pub compatibles_iff :
    (r : BidRequest) (cs : List Campagne) (k : ℕ)
    → Any (λ j. j ≡ k) (compatibles r 0 cs).1
      ↔ ((c : Campagne) × (get_elem? cs k ≡ some c) × IsEligible r c)
compatibles_iff r cs k =
    let (to, from) = Any-from cs r 0 k k (omega arith) in
    (
      λ h. let (c, at, good) = to h in (c, at, (is_compatible_iff r c).0 good),
      λ (c, at, eligible). from (c, at, (is_compatible_iff r c).1 eligible),
    )

pub length-compatibles-le :
    (cs : List Campagne) (r : BidRequest) (i : ℕ) → length (compatibles r i cs).1 ≤ length cs
unfolding compatibles
length-compatibles-le [] r i = omega arith
length-compatibles-le (c ∷ cs) r i =
    ground (arith, length-compatibles-le cs (lower_request r) (suc i))

-- Each position in the list is that of a campaign that meets every condition.
pub compatibles_all :
    (r : BidRequest) (cs : List Campagne)
    → All (λ k. (c : Campagne) × (get_elem? cs k ≡ some c) × IsEligible r c) (compatibles r 0 cs).1
compatibles_all r cs = All_of_Any _ (λ k. (compatibles_iff r cs k).0)
