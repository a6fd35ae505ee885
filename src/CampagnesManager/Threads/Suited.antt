-- ===== src/CampagnesManager/Threads/Suited.antt =====
-- The campaigns that a thread has found compatible, while other threads sell.
use tabmo_codding_challenge.Common.{
  ℕ, ◌<◌, length, ap, suc, zero, ◌≡◌, ◌⊎◌, inl, inr, refl, some, List, [], ◌∷◌, All, All-get_elem?,
  get_elem?,
}
use mathlib.Core.Option.{some-injective}
use tabmo_codding_challenge.Json.{Json}
use tabmo_codding_challenge.CampagnesManager.Threads.{Stage, scanning, buying}
use tabmo_codding_challenge.BidRequest.{BidRequest}
use tabmo_codding_challenge.Campagne.{Campagne}
use tabmo_codding_challenge.Campagne.Budget.{Holds, IsSeller, solvent-Holds}
use tabmo_codding_challenge.CampagnesManager.Bill.{Paid, Sold}
use tabmo_codding_challenge.CampagnesManager.Compatible.{is_compatible, lower_request}
use tabmo_codding_challenge.CampagnesManager.Compatible.Eligible.{IsEligible}
use tabmo_codding_challenge.CampagnesManager.Compatible.Positions.{
  is_compatible-lower_request, lower_request_idem,
}

-- The campaigns of a list are those of the earlier list, at the same places.
pub Sold-from :
    (ns : List ℕ) (cs ds : List Campagne) (k : ℕ) (d : Campagne)
    → Sold ns cs ds
    → get_elem? ds k ≡ some d
    → (c : Campagne) × (n : ℕ) × (get_elem? cs k ≡ some c) × Paid n c d
Sold-from [] [] [] k d s e = cc
Sold-from (n ∷ ns) (c ∷ cs) (x ∷ ds) zero d (bill, s) e =
    (c, n, refl, rw (some-injective _ _ e) at bill)
Sold-from (n ∷ ns) (c ∷ cs) (x ∷ ds) (suc k) d (bill, s) e = Sold-from ns cs ds k d s e
Sold-from _ _ _ k d s e = elim s [ ]

Sold-to :
    (ns : List ℕ) (cs ds : List Campagne) (k : ℕ) (c : Campagne)
    → Sold ns cs ds
    → get_elem? cs k ≡ some c
    → (d : Campagne) × (n : ℕ) × (get_elem? ds k ≡ some d) × Paid n c d
Sold-to [] [] [] k c s e = cc
Sold-to (n ∷ ns) (x ∷ cs) (d ∷ ds) zero c (bill, s) e =
    (d, n, refl, rw (some-injective _ _ e) at bill)
Sold-to (n ∷ ns) (x ∷ cs) (d ∷ ds) (suc k) c (bill, s) e = Sold-to ns cs ds k c s e
Sold-to _ _ _ k c s e = elim s [ ]

pub Sold-length : (ns : List ℕ) (cs ds : List Campagne) → Sold ns cs ds → length ds ≡ length cs
Sold-length [] [] [] s = refl
Sold-length (n ∷ ns) (c ∷ cs) (d ∷ ds) (bill, s) = ap suc (Sold-length ns cs ds s)
Sold-length _ _ _ s = elim s [ ]

-- Numbers stay numbers, and were numbers before.
Paid-Holds :
    (n : ℕ) (c d : Campagne) (b p : ℕ)
    → Paid n c d
    → Holds c b p
    → (b' : ℕ) × (p' : ℕ) × Holds d b' p'
Paid-Holds n c d b p (_, inl (_, e)) h = (b, p, rw e h)
Paid-Holds n c d b p (_, inr (_, b', p', _, h', _)) h = (b', p', h')

Holds-Paid :
    (n : ℕ) (c d : Campagne) (b p : ℕ)
    → Paid n c d
    → Holds d b p
    → (b' : ℕ) × (p' : ℕ) × Holds c b' p'
Holds-Paid n c d b p (_, inl (_, e)) h = (b, p, rw (← e) h)
Holds-Paid n c d b p (_, inr (b0, _, p', h0, _, _)) h = (b0, p', h0)

-- `Past stage ds`: some thread with the same request stood at this stage when the campaigns were `ds`.
module _ (j : Json) (Past : Stage j → List Campagne → Type 0) (asked : BidRequest)
    (cs0 : List Campagne) where
  -- When a thread with the request stood before position `k` in the loop, the campaign that was there
  -- met every condition; it is the one of the first list, but for its budget, and holds numbers.
  abbrev pub SuitedAt : ℕ → Type 0
  SuitedAt k =
      (q : BidRequest) × (found : List ℕ) × (ds : List Campagne) × (d : Campagne) × Past
        (scanning q k found) ds
      × (get_elem? ds k ≡ some d)
      × IsEligible asked d
      × ((c : Campagne) × (b : ℕ) × (p : ℕ) × (get_elem? cs0 k ≡ some c)
          × Holds c b p
          × (d ≡ record c { budget = d.budget }))

  -- The campaign that was there then did not meet every condition.
  abbrev pub UnsuitedAt : ℕ → Type 0
  UnsuitedAt k =
      (q : BidRequest) × (found : List ℕ) × (ds : List Campagne) × (d : Campagne) × Past
        (scanning q k found) ds
      × (get_elem? ds k ≡ some d)
      × ¬ IsEligible asked d

  -- When a thread with the request was about to buy a campaign that had been suited, the budget of that
  -- campaign was below its price.
  abbrev pub ShortAt : ℕ → Type 0
  ShortAt k =
      SuitedAt k
      × ((q : BidRequest) × (ds : List Campagne) × (d : Campagne) × (b : ℕ) × (p : ℕ) × Past
            (buying q k) ds
          × (get_elem? ds k ≡ some d)
          × Holds d b p
          × (b < p))

  -- No campaign was suited when the loop came to it.
  abbrev pub NothingFor : Type 0
  NothingFor = (k : ℕ) → k < length cs0 → UnsuitedAt k

  module _ (ns : List ℕ) (cs : List Campagne) (s : Sold ns cs0 cs) where
    -- What is found compatible now is suited.
    pub found-SuitedAt :
        (q : BidRequest) (k : ℕ) (found : List ℕ) (d : Campagne)
        → Past (scanning q k found) cs
        → All IsSeller cs
        → get_elem? cs k ≡ some d
        → IsEligible asked d
        → SuitedAt k
    found-SuitedAt q k found d past sellers at e =
        let (b, p, h, _) = solvent-Holds d (All-get_elem? IsSeller cs k sellers at) e.solvent in
        let (c, n, at0, bill) = Sold-from ns cs0 cs k d s at in
        let (b0, p0, h0) = Holds-Paid n c d b p bill h in
        (q, found, cs, d, past, at, e, (c, b0, p0, at0, h0, bill.0))

    -- What was found suited still holds numbers.
    pub SuitedAt-Holds :
        (k : ℕ)
        → SuitedAt k
        → (d : Campagne) × (b : ℕ) × (p : ℕ) × (get_elem? cs k ≡ some d) × Holds d b p
    SuitedAt-Holds k (q, found, ds, e, past, at, eligible, (c, b, p, at0, h, same)) =
        let (d, n, here, bill) = Sold-to ns cs0 cs k c s at0 in
        let (b', p', h') = Paid-Holds n c d b p bill h in (d, b', p', here, h')

abbrev pub IsLowered : BidRequest → BidRequest → Type 0
IsLowered asked r = (r ≡ asked) ⊎ (r ≡ lower_request asked)

pub lower_request-IsLowered :
    (asked r : BidRequest) → IsLowered asked r → IsLowered asked (lower_request r)
lower_request-IsLowered asked r (inl e) = inr (rw e refl)
lower_request-IsLowered asked r (inr e) = inr (rw e (lower_request_idem asked))

pub is_compatible-IsLowered :
    (asked r : BidRequest) (c : Campagne)
    → IsLowered asked r
    → is_compatible r c ≡ is_compatible asked c
is_compatible-IsLowered asked r c (inl e) = rw e refl
is_compatible-IsLowered asked r c (inr e) = rw e (is_compatible-lower_request asked c)
