-- ===== src/Campagne/Validation.antt =====
-- What the constructor of src/Campagne.cpp accepts.
use tabmo_codding_challenge.Common.Text.{Bytes, codes, ◌=s=◌, =s=_iff, is_empty}
use tabmo_codding_challenge.Common.Result.{ok-injective, ok, err, invalid_argument}
use tabmo_codding_challenge.Common.Int.{ℤ, pos}
use tabmo_codding_challenge.Common.{
  ℕ, ◌*◌, ◌≤◌, ◌<◌, ◌≡◌, ◌≢◌, ◌↔◌, ◌⊎◌, inl, inr, refl, sym, ◌∙◌, ◌^◌, true, false, List, [], ◌∷◌,
  arith, length, any, count_if, count_if-le, All,
}
use tabmo_codding_challenge.Float.{Float, nan, inf, fin, eq, le}
use tabmo_codding_challenge.Float.Stof.{stof}
use tabmo_codding_challenge.Float.Round.{round_ratio}
use tabmo_codding_challenge.Campagne.{
  Campagne, Filters, language, application, ifa, nought, budget_min, budget_max, price_min,
  price_max, is_valid_filter, has_common_filter, is_zero, lacks_mandatory, has_invalid_filter,
  is_out_of, construct,
}

-- A number of the range, or NaN.
abbrev pub IsNanOrWithin : ℕ → ℕ → Float → Type 0
IsNanOrWithin low high x =
    (x ≡ nan) ⊎ ((mag : ℕ) × (x ≡ fin false mag) × (low ≤ mag) × (mag ≤ high))

-- A known filter with a number of values that it admits.
abbrev IsFilter : Bytes × List Bytes → Type 0
IsFilter (key, values) =
    (1 ≤ length values)
    × (((key ≡ language) × (length values ≤ 10))
        ⊎ ((key ≡ application) × (length values ≤ 100))
        ⊎ ((key ≡ ifa) × (length values ≤ 100_000)))

-- What the comments and messages of the constructor ask of a campaign, except that they do not admit
-- NaN, and that the least price is the double 0.01, which is above the float 0.01.
pub record IsAccepted (c : Campagne) : Type 0 where
  named : c.id ≢ []
  linked : c.url ≢ []
  pub wide : c.width ≢ pos 0
  pub high : c.height ≢ pos 0
  pub included : All IsFilter c.filter_include
  pub excluded : All IsFilter c.filter_exclude
  disjoint : All (λ p. All (λ q. p.0 ≢ q.0) c.filter_exclude) c.filter_include
  pub funded : IsNanOrWithin budget_min budget_max c.budget
  pub priced : IsNanOrWithin price_min price_max c.bid_price

is_empty_iff : (s : Bytes) → (is_empty s ≡ false) ↔ (s ≢ [])
is_empty_iff [] = ground arith
is_empty_iff (x ∷ s) = ground arith

is_zero_iff : (n : ℤ) → (is_zero n ≡ false) ↔ (n ≢ pos 0)
unfolding is_zero
is_zero_iff n = ground arith

in_range_iff :
    (low high : ℕ) (x : Float)
    → 0 < low
    → ((eq x nought ≡ false) × (is_out_of low high x ≡ false)) ↔ IsNanOrWithin low high x
unfolding is_out_of le
in_range_iff low high nan h = ground arith
in_range_iff low high (inf s) h = ground arith
in_range_iff low high (fin true m) h = ground arith
in_range_iff low high (fin false m) h =
    (λ e. inr (m, refl, ground arith, ground arith), ground arith)

is_valid_filter_iff : (f : Bytes × List Bytes) → (is_valid_filter f ≡ true) ↔ IsFilter f
unfolding is_valid_filter
is_valid_filter_iff (key, values) =
    ground (arith, =s=_iff key language, =s=_iff key application, =s=_iff key ifa)

all_valid_iff : (fs : Filters) → (count_if is_valid_filter fs ≡ length fs) ↔ All IsFilter fs
all_valid_iff [] = ground arith
all_valid_iff (f ∷ fs) =
    ground (arith, is_valid_filter_iff f, all_valid_iff fs, count_if-le is_valid_filter fs)

no_key_iff :
    (key : Bytes) (fs : Filters) → (any (λ q. key =s= q.0) fs ≡ false) ↔ All (λ q. key ≢ q.0) fs
no_key_iff key [] = ground arith
no_key_iff key (f ∷ fs) = ground (arith, =s=_iff key f.0, no_key_iff key fs)

has_common_filter_iff :
    (included excluded : Filters)
    → (has_common_filter included excluded ≡ false)
      ↔ All (λ p. All (λ q. p.0 ≢ q.0) excluded) included
unfolding has_common_filter
has_common_filter_iff [] excluded = ground arith
has_common_filter_iff (p ∷ included) excluded =
    ground (arith, no_key_iff p.0 excluded, has_common_filter_iff included excluded)

-- The five tests, with what they read of the campaign left shut.
construct_tests :
    (c : Campagne)
    → (construct c ≡ ok c) ↔ (
        (lacks_mandatory c ≡ false)
        × (has_common_filter c.filter_include c.filter_exclude ≡ false)
        × (has_invalid_filter c ≡ false)
        × (is_out_of budget_min budget_max c.budget ≡ false)
        × (is_out_of price_min price_max c.bid_price ≡ false))
unfolding construct
construct_tests c = ground arith

has_invalid_filter_iff :
    (c : Campagne)
    → (has_invalid_filter c ≡ false)
      ↔ (All IsFilter c.filter_include × All IsFilter c.filter_exclude)
unfolding has_invalid_filter
has_invalid_filter_iff c =
    ground (arith, all_valid_iff c.filter_include, all_valid_iff c.filter_exclude)

lacks_mandatory_iff :
    (c : Campagne)
    → (lacks_mandatory c ≡ false) ↔ (
        (c.id ≢ [])
        × (eq c.budget nought ≡ false)
        × (eq c.bid_price nought ≡ false)
        × (c.width ≢ pos 0)
        × (c.height ≢ pos 0)
        × (c.url ≢ []))
unfolding lacks_mandatory
lacks_mandatory_iff c =
    ground (arith, is_empty_iff c.id, is_empty_iff c.url, is_zero_iff c.width, is_zero_iff c.height)

-- The constructor returns the campaign with the given fields exactly when the id and the url are not empty,
-- the sizes are not 0, each filter has a known name and as many values as it admits, no name is in
-- both maps, and the budget and the price are each in the range that the code tests or NaN. NaN is not
-- in the documented ranges, and the least price that the code tests is above the float 0.01.
pub construct_iff : (c : Campagne) → (construct c ≡ ok c) ↔ IsAccepted c
construct_iff c = (accepted, constructed)
  where
    accepted : construct c ≡ ok c → IsAccepted c
    accepted e =
        let (mandatory, common, filters, budget, price) = (construct_tests c).0 e in
        let (named, b, p, wide, high, linked) = (lacks_mandatory_iff c).0 mandatory in
        let (included, excluded) = (has_invalid_filter_iff c).0 filters in
        record {
          named = named;
          linked = linked;
          wide = wide;
          high = high;
          included = included;
          excluded = excluded;
          disjoint = (has_common_filter_iff c.filter_include c.filter_exclude).0 common;
          funded = (in_range_iff budget_min budget_max c.budget (omega arith)).0 (b, budget);
          priced = (in_range_iff price_min price_max c.bid_price (omega arith)).0 (p, price);
        }

    constructed : IsAccepted c → construct c ≡ ok c
    constructed a =
        let (b, budget) = (in_range_iff budget_min budget_max c.budget (omega arith)).1 a.funded in
        let (p, price) = (in_range_iff price_min price_max c.bid_price (omega arith)).1 a.priced in
        (construct_tests c).1 (
          (lacks_mandatory_iff c).1 (a.named, b, p, a.wide, a.high, a.linked),
          (has_common_filter_iff c.filter_include c.filter_exclude).1 a.disjoint,
          (has_invalid_filter_iff c).1 (a.included, a.excluded),
          budget,
          price,
        )

-- The constructor returns the campaign with the given fields or throws `invalid_argument`.
pub construct_outcome : (c : Campagne) → (construct c ≡ ok c) ⊎ (construct c ≡ err invalid_argument)
unfolding construct
construct_outcome c = ground arith

-- The `float` nearest to 0.01, in units.
abbrev cent : ℕ
cent = 10_737_418 * 2 ^ 119

stof-001 : stof (codes "0.01") ≡ ok (fin false cent)
unfolding stof round_ratio
stof-001 = refl

-- A campaign whose bid price is what `stof` reads from the text 0.01 is refused with
-- `invalid_argument`, whatever its other fields are.
pub price-001_refused :
    (c : Campagne) → stof (codes "0.01") ≡ ok c.bid_price → construct c ≡ err invalid_argument
price-001_refused c e = elim (construct_outcome c) [
  | inl built ↦ absurd (too_low c.bid_price (ok-injective (sym stof-001 ∙ e)) (priced built))
  | inr thrown ↦ thrown
]
  where
    priced : construct c ≡ ok c → IsNanOrWithin price_min price_max c.bid_price
    priced built = ((construct_iff c).0 built).priced

    too_low : (x : Float) → fin false cent ≡ x → ¬ (IsNanOrWithin price_min price_max x)
    too_low x e' within = ground arith

-- A campaign that the constructor accepts is accepted with NaN for its budget too.
pub nan_accepted :
    (c : Campagne)
    → construct c ≡ ok c
    → construct (record c { budget = nan }) ≡ ok (record c { budget = nan })
nan_accepted c e =
    let a = (construct_iff c).0 e in
    (construct_iff (record c { budget = nan })).1 (record {
      named = a.named;
      linked = a.linked;
      wide = a.wide;
      high = a.high;
      included = a.included;
      excluded = a.excluded;
      disjoint = a.disjoint;
      funded = inl refl;
      priced = a.priced;
    })
