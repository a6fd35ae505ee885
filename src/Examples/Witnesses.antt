-- ===== src/Examples/Witnesses.antt =====
-- The theorems on campaigns, the selection and the parse, at data that their conditions admit.
use tabmo_codding_challenge.Common.Text.{codes, ◌=s=◌}
use tabmo_codding_challenge.Common.Result.{ok, err, out_of_range, invalid_argument}
use tabmo_codding_challenge.Common.{
  arith, ◌≡◌, ◌↔◌, ◌⊎◌, inl, inr, refl, true, false, some, [], ◌∷◌, ◌*◌, ◌+◌, ◌≤◌, ◌<◌, All, Any,
  get_elem?, ℕ, ◌^◌, ltb, if◌then◌else◌,
}
use tabmo_codding_challenge.Float.{fin, nan, one, le}
use tabmo_codding_challenge.Float.Round.{round_ratio}
use tabmo_codding_challenge.Float.Stof.{stof}
use tabmo_codding_challenge.Json.Tree.{tree_json}
use tabmo_codding_challenge.Campagne.{
  Campagne, construct, decremente_budget, lacks_mandatory, has_common_filter, has_invalid_filter,
  is_out_of,
}
use tabmo_codding_challenge.Campagne.Validation.{
  IsAccepted, construct_iff, price-001_refused, nan_accepted,
}
use tabmo_codding_challenge.Campagne.Budget.{
  Holds, IsSeller, rounding, decremente_budget_pays, spend, spend_terminates,
}
use tabmo_codding_challenge.CampagnesManager.Compatible.{is_compatible, compatibles, same_ratio}
use tabmo_codding_challenge.CampagnesManager.Compatible.Ratio.{same_ratio_iff}
use tabmo_codding_challenge.CampagnesManager.Compatible.Eligible.{IsEligible, is_compatible_iff}
use tabmo_codding_challenge.CampagnesManager.Compatible.Positions.{compatibles_iff}
use tabmo_codding_challenge.CampagnesManager.Draw.Defined.{whole-IsRepresentable}
use tabmo_codding_challenge.CampagnesManager.Select.{select_campagne}
use tabmo_codding_challenge.CampagnesManager.Select.Sale.{Selects, select_campagne_lem}
use tabmo_codding_challenge.CampagnesManager.Parse.{parse_campagnes_from_json}
use tabmo_codding_challenge.CampagnesManager.Parse.Entries.{
  IsCaught, parse_campagnes_lem, parse_campagnes_escape, collect, all_read,
}
use tabmo_codding_challenge.Examples.Data.{
  puzzle, wide, ads, request, puzzle_price, wide_price, puzzle_entry, wide_entry, huge_entry,
  document, fatal_document,
}
use tabmo_codding_challenge.Examples.Runs.{
  puzzle_read, wide_read, broken_read, broken_handled, huge_read,
}

puzzle-Holds : Holds puzzle (100 * one) puzzle_price
puzzle-Holds = record {
  is_budget = refl;
  is_price = refl;
  is_float = whole-IsRepresentable 100 (omega arith);
  bounded = omega arith;
  priced = omega arith;
  cheap = omega arith;
}

wide-Holds : Holds wide (50 * one) wide_price
wide-Holds = record {
  is_budget = refl;
  is_price = refl;
  is_float = whole-IsRepresentable 50 (omega arith);
  bounded = omega arith;
  priced = omega arith;
  cheap = omega arith;
}

pub ads-IsSeller : All IsSeller ads
ads-IsSeller =
    (inr (100 * one, puzzle_price, puzzle-Holds), (inr (50 * one, wide_price, wide-Holds), tt))

select_campagne_lem_example :
    Selects ads ads-IsSeller request tree_json (select_campagne tree_json 42 ads request)
select_campagne_lem_example =
    select_campagne_lem ads ads-IsSeller request tree_json 42 (omega arith)

is_compatible_iff_example : (is_compatible request puzzle ≡ true) ↔ IsEligible request puzzle
is_compatible_iff_example = is_compatible_iff request puzzle

compatibles_iff_example :
    Any (λ j. j ≡ 1) (compatibles request 0 ads).1
    ↔ ((c : Campagne) × (get_elem? ads 1 ≡ some c) × IsEligible request c)
compatibles_iff_example = compatibles_iff request ads 1

construct_iff_example : (construct puzzle ≡ ok puzzle) ↔ IsAccepted puzzle
construct_iff_example = construct_iff puzzle

decremente_budget_pays_example :
    ((b' : ℕ) × (decremente_budget puzzle ≡ (record puzzle { budget = fin false b' }, true))
      × (puzzle_price ≤ 100 * one)
      × (b' < 100 * one)
      × (b' + puzzle_price ≤ 100 * one + rounding)
      × (100 * one ≤ b' + puzzle_price + rounding)
      × Holds (record puzzle { budget = fin false b' }) b' puzzle_price)
    ⊎ ((100 * one < puzzle_price) × (decremente_budget puzzle ≡ (puzzle, false)))
decremente_budget_pays_example = decremente_budget_pays puzzle (100 * one) puzzle_price puzzle-Holds

spend_terminates_example : (decremente_budget (spend 100_307 wide).1).1 ≡ false
spend_terminates_example = spend_terminates wide (50 * one) wide_price wide-Holds

cheap-001 : stof (codes "0.01") ≡ ok (fin false (10_737_418 * 2 ^ 119))
unfolding stof round_ratio
cheap-001 = refl

price-001_refused_example :
    construct (record puzzle { bid_price = fin false (10_737_418 * 2 ^ 119) })
    ≡ err invalid_argument
price-001_refused_example =
    price-001_refused (record puzzle { bid_price = fin false (10_737_418 * 2 ^ 119) }) cheap-001

puzzle_built : construct puzzle ≡ ok puzzle
unfolding construct lacks_mandatory le has_common_filter has_invalid_filter is_out_of ◌=s=◌
puzzle_built = refl

nan_accepted_example :
    construct (record puzzle { budget = nan }) ≡ ok (record puzzle { budget = nan })
nan_accepted_example = nan_accepted puzzle puzzle_built

same_ratio_iff_example : (same_ratio request wide ≡ true) ↔ (250 * 640 ≡ 500 * 320)
same_ratio_iff_example =
    same_ratio_iff request wide 250 320 500 640 (omega arith, omega arith)
      (omega arith, omega arith) (omega arith, omega arith) (omega arith, omega arith) refl refl
      refl refl

document-IsCaught : All (IsCaught tree_json) (tree_json.items document)
document-IsCaught = (
  inl (puzzle, puzzle_read),
  (inr (invalid_argument, broken_read, broken_handled), (inl (wide, wide_read), tt)),
)

parse_campagnes_lem_example : parse_campagnes_from_json tree_json (some document) [] ≡ (
    if ltb 0 (tree_json.size document)
    then ok (
      collect tree_json (tree_json.items document),
      all_read tree_json (tree_json.items document),
    )
    else ok ([], false))
parse_campagnes_lem_example = parse_campagnes_lem tree_json document document-IsCaught

parse_campagnes_escape_example :
    parse_campagnes_from_json tree_json (some fatal_document) [] ≡ err out_of_range
parse_campagnes_escape_example =
    parse_campagnes_escape tree_json fatal_document (puzzle_entry ∷ []) (wide_entry ∷ []) huge_entry
      (omega arith) refl (inl (puzzle, puzzle_read), tt) huge_read
