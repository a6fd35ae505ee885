-- ===== src/Campagne.antt =====
-- src/Campagne.h and src/Campagne.cpp: a campaign, the checks of its constructor, its copies, and
-- the purchase that lowers its budget. The mutex is not part of the record.
-- `DecrementeBudget` returns the changed campaign beside its result.
pub mod Validation
pub mod Budget
pub mod Objects
pub mod Typing
use tabmo_codding_challenge.Common.Text.{Bytes, codes, ◌=s=◌, is_empty}
use tabmo_codding_challenge.Common.Result.{Result, ok, err, invalid_argument, throw_if, ◌>>=◌, ◌>>◌}
use tabmo_codding_challenge.Common.Int.{ℤ, pos, abs}
use tabmo_codding_challenge.Common.{
  ℕ, ◌*◌, ◌^◌, Bool, true, false, not, ◌&&◌, ◌||◌, List, [], ◌∷◌, ◌++◌, leb, ◌==◌, if◌then◌else◌,
  length, any, count_if,
}
use tabmo_codding_challenge.Float.{Float, fin, one, eq, lt, gt, ge, sub}
use tabmo_codding_challenge.Float.Print.{print_fixed, print_int}

-- `map<string, vector<string>>`: its entries in the order of the keys.
abbrev pub Filters : Type 0
Filters = List (Bytes × List Bytes)

pub record Campagne : Type 0 where
  pub id : Bytes
  pub budget : Float
  pub bid_price : Float
  pub width : ℤ
  pub height : ℤ
  pub responsive : Bool
  pub filter_include : Filters
  pub filter_exclude : Filters
  pub url : Bytes

abbrev pub language : Bytes
language = codes "language"

abbrev pub application : Bytes
application = codes "application"

abbrev pub ifa : Bytes
ifa = codes "ifa"

-- The constants that the constructor compares with. They are `double`: a `float` is widened for the
-- comparison, which is exact, and 0.01 is 5764607523034235 / 2 ^ 59.
abbrev pub nought : Float
nought = fin false 0

abbrev pub budget_min : ℕ
budget_min = one

abbrev pub budget_max : ℕ
budget_max = 1000 * one

abbrev pub price_min : ℕ
price_min = 5_764_607_523_034_235 * 2 ^ 90

abbrev pub price_max : ℕ
price_max = 10 * one

-- `lVerificationFiltre`.
unfoldable pub is_valid_filter : Bytes × List Bytes → Bool
unfolding ◌=s=◌
is_valid_filter (key, values) =
    let size = length values in
    if key =s= language
    then leb 1 size && leb size 10
    else if key =s= application
    then leb 1 size && leb size 100
    else if key =s= ifa
    then leb 1 size && leb size 100_000
    else false

-- The `find_if` over both maps.
unfoldable pub has_common_filter : Filters → Filters → Bool
unfolding ◌=s=◌
has_common_filter included excluded = any (λ p. any (λ q. p.0 =s= q.0) excluded) included

unfoldable pub is_zero : ℤ → Bool
is_zero n = abs n == 0

-- A mandatory value that is missing, or that the JSON reader replaced by its default.
unfoldable pub lacks_mandatory : Campagne → Bool
unfolding is_zero
lacks_mandatory c =
    is_empty c.id
    || eq c.budget nought
    || eq c.bid_price nought
    || is_zero c.width
    || is_zero c.height
    || is_empty c.url

unfoldable pub has_invalid_filter : Campagne → Bool
unfolding is_valid_filter
has_invalid_filter c =
    not (count_if is_valid_filter c.filter_include == length c.filter_include)
    || not (count_if is_valid_filter c.filter_exclude == length c.filter_exclude)

unfoldable pub is_out_of : ℕ → ℕ → Float → Bool
is_out_of low high x = lt x (fin false low) || gt x (fin false high)

-- The constructor, given the fields that its initialiser list sets.
unfoldable pub construct : Campagne → Result Campagne
construct c = do
  throw_if (lacks_mandatory c) invalid_argument
  throw_if (has_common_filter c.filter_include c.filter_exclude) invalid_argument
  throw_if (has_invalid_filter c) invalid_argument
  throw_if (is_out_of budget_min budget_max c.budget) invalid_argument
  throw_if (is_out_of price_min price_max c.bid_price) invalid_argument
  ok c

-- The copy constructor sets every field, between taking both locks and giving them back.
unfoldable pub copy : Campagne → Campagne
copy c = record {
  id = c.id;
  budget = c.budget;
  bid_price = c.bid_price;
  width = c.width;
  height = c.height;
  responsive = c.responsive;
  filter_include = c.filter_include;
  filter_exclude = c.filter_exclude;
  url = c.url;
}

unfoldable print_bool : Bool → Bytes
print_bool b = if b then codes "1" else codes "0"

unfoldable pub to_string : Campagne → Bytes
unfolding print_fixed print_int print_bool
to_string c =
    codes "Information sur la campagne "
    ++ (c.id
        ++ (codes "\n ** mBudget "
            ++ (print_fixed 6 c.budget
                ++ (codes "\n ** mBidPrice "
                    ++ (print_fixed 6 c.bid_price
                        ++ (codes "\n ** mWidth "
                            ++ (print_int c.width
                                ++ (codes "\n ** mHeight "
                                    ++ (print_int c.height
                                        ++ (codes "\n ** mResponsive "
                                            ++ (print_bool c.responsive
                                                ++ (codes "\n ** mUrl "
                                                    ++ (c.url ++ codes "\n")))))))))))))

-- `DecrementeBudget`.
unfoldable pub decremente_budget : Campagne → Campagne × Bool
unfolding sub
decremente_budget c =
    if ge c.budget c.bid_price
    then (record c { budget = sub c.budget c.bid_price }, true)
    else (c, false)
