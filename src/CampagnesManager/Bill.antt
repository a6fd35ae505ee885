-- ===== src/CampagnesManager/Bill.antt =====
-- What the campaigns of a list have sold and paid since an earlier list.
use tabmo_codding_challenge.Common.{
  ℕ, zero, suc, ◌+◌, ◌*◌, ◌≤◌, ◌≡◌, ◌⊎◌, inl, inr, refl, sym, ap, ◌∙◌, Bool, false, some, List, [],
  ◌∷◌, arith, get_elem?, set, true, All, All-set, count_if, count_if-set_more, count_if-set_same,
  length,
}
use mathlib.Core.Option.{some-injective}
use native.Mathlib.Nat.{mul-le-mul_left}
use tabmo_codding_challenge.Float.{fin}
use tabmo_codding_challenge.Campagne.{Campagne}
use tabmo_codding_challenge.Campagne.Budget.{
  Holds, IsSeller, rounding, remaining, remaining_error, remaining-Holds,
}
use tabmo_codding_challenge.CampagnesManager.Select.Sale.{paid}

-- A campaign after `n` sales: only its budget is another, and the price of all sales is within what the
-- budget has lost, up to one rounding for each.
abbrev pub Paid : ℕ → Campagne → Campagne → Type 0
Paid n c d =
    (d ≡ record c { budget = d.budget })
    × (((n ≡ 0) × (d ≡ c))
        ⊎ ((b : ℕ) × (b' : ℕ) × (p : ℕ) × Holds c b p
            × Holds d b' p
            × (n * p + b' ≤ b + n * rounding)))

abbrev pub Sold : List ℕ → List Campagne → List Campagne → Type 0
Sold [] [] [] = Unit
Sold (n ∷ ns) (c ∷ cs) (d ∷ ds) = Paid n c d × Sold ns cs ds
Sold _ _ _ = ⊥

abbrev pub total : List ℕ → ℕ
total [] = 0
total (n ∷ ns) = n + total ns

abbrev pub nothing_sold : List Campagne → List ℕ
nothing_sold [] = []
nothing_sold (c ∷ cs) = 0 ∷ nothing_sold cs

pub Sold-nothing : (cs : List Campagne) → Sold (nothing_sold cs) cs cs
Sold-nothing [] = tt
Sold-nothing (c ∷ cs) = ((refl, inl (refl, refl)), Sold-nothing cs)

pub total_nothing : (cs : List Campagne) → total (nothing_sold cs) ≡ 0
total_nothing [] = refl
total_nothing (c ∷ cs) = omega (arith, total_nothing cs)

fin-injective : {s : Bool} {m n : ℕ} → fin s m ≡ fin s n → m ≡ n
fin-injective e = cc

-- One more sale.
Paid-again :
    (n : ℕ) (c d : Campagne) (b p : ℕ)
    → Paid n c d
    → Holds d b p
    → p ≤ b
    → Paid (suc n) c (paid d b p)
Paid-again n c d b p (same, inl (none_yet, e)) h q = (
  ap {A = Campagne} (λ x. record x { budget = fin false (remaining b p) }) same,
  inr (
    b,
    remaining b p,
    p,
    rw (← e) h,
    remaining-Holds d b p h q,
    rw none_yet (omega (arith, remaining_error b p h.bounded q)),
  ),
)
Paid-again n c d b p (same, inr (b0, b1, p1, h0, h1, bill)) h q =
    let eb : b ≡ b1 = fin-injective (sym h.is_budget ∙ h1.is_budget) in
    let ep : p1 ≡ p = fin-injective (sym h1.is_price ∙ h.is_price) in
    (
      ap {A = Campagne} (λ x. record x { budget = fin false (remaining b p) }) same,
      inr (
        b0,
        remaining b p,
        p,
        rw ep at h0,
        remaining-Holds d b p h q,
        omega (arith, remaining_error b p h.bounded q, (rw ep at bill)),
      ),
    )

-- A sale at position `k` counts there.
pub Sold-again :
    (ns : List ℕ) (cs ds : List Campagne) (k : ℕ) (d : Campagne) (b p : ℕ)
    → Sold ns cs ds
    → get_elem? ds k ≡ some d
    → Holds d b p
    → p ≤ b
    → (ns' : List ℕ) × Sold ns' cs (set ds k (paid d b p)) × (total ns' ≡ suc (total ns))
Sold-again [] [] [] k d b p sold at h q = cc
Sold-again (n ∷ ns) (c ∷ cs) (x ∷ ds) zero d b p (bill, sold) at h q =
    (suc n ∷ ns, (Paid-again n c d b p (rw (some-injective _ _ at) at bill) h q, sold), omega arith)
Sold-again (n ∷ ns) (c ∷ cs) (x ∷ ds) (suc k) d b p (bill, sold) at h q =
    let (ns', sold', e) = Sold-again ns cs ds k d b p sold at h q in
    (n ∷ ns', (bill, sold'), omega arith)
Sold-again _ _ _ k d b p sold at h q = elim sold [ ]

-- What a step of a thread does to the campaigns: nothing, or a sale, which turns a flag on.
abbrev pub Moves : List Campagne → Bool → List Campagne → Bool → Type 0
Moves cs before cs' after =
    ((cs' ≡ cs) × (after ≡ before))
    ⊎ ((k : ℕ) × (d : Campagne) × (b : ℕ) × (p : ℕ) × (get_elem? cs k ≡ some d)
        × Holds d b p
        × (p ≤ b)
        × (cs' ≡ set cs k (paid d b p))
        × (before ≡ false)
        × (after ≡ true))

-- The sales of the campaigns are those of the threads with the flag.
abbrev pub Billed {ℓ} : {A : Type ℓ} → (A → Bool) → List Campagne → List Campagne → List A → Type 0
Billed flag cs0 cs ts =
    (ns : List ℕ) × Sold ns cs0 cs × (total ns ≡ count_if flag ts) × All IsSeller cs

-- And they stay so when thread `t` makes a step.
pub Moves-Billed {ℓ} :
    {A : Type ℓ} (flag : A → Bool) (cs0 cs cs' : List Campagne) (ts : List A) (t : ℕ) (x y : A)
    → get_elem? ts t ≡ some x
    → Moves cs (flag x) cs' (flag y)
    → Billed flag cs0 cs ts
    → Billed flag cs0 cs' (set ts t y)
Moves-Billed flag cs0 cs cs' ts t x y at (inl (same, kept)) (ns, s, all, sellers) =
    (ns, rw same s, rw (count_if-set_same flag ts t x y at kept) all, rw same sellers)
Moves-Billed flag cs0 cs cs' ts t x y at (inr (k, d, b, p, at', h, enough, e, before, after))
      (ns, s, all, sellers) =
    let (ns', s', more) = Sold-again ns cs0 cs k d b p s at' h enough in
    (
      ns',
      rw e s',
      omega (arith, count_if-set_more flag ts t x y at before after),
      rw e (All-set IsSeller cs k sellers (inr (remaining b p, p, remaining-Holds d b p h enough))),
    )

-- A campaign has a budget for this many sales at most.
abbrev most_sales : ℕ
most_sales = 100_307

Paid-le : (n : ℕ) (c d : Campagne) → Paid n c d → n ≤ most_sales
Paid-le n c d (same, inl (none_yet, e)) = omega arith
Paid-le n c d (same, inr (b, b', p, h, h', bill)) =
    omega (arith, h.bounded, mul-le-mul_left n h.priced)

Sold-le : (ns : List ℕ) (cs ds : List Campagne) → Sold ns cs ds → total ns ≤ most_sales * length cs
Sold-le [] [] [] sold = omega arith
Sold-le (n ∷ ns) (c ∷ cs) (d ∷ ds) (bill, sold) =
    omega (arith, Paid-le n c d bill, Sold-le ns cs ds sold)
Sold-le _ _ _ sold = elim sold [ ]

pub Billed-le {ℓ} :
    {A : Type ℓ} (flag : A → Bool) (cs0 cs : List Campagne) (ts : List A)
    → Billed flag cs0 cs ts
    → count_if flag ts ≤ most_sales * length cs0
Billed-le flag cs0 cs ts (ns, s, all, sellers) = omega (arith, Sold-le ns cs0 cs s, all)
