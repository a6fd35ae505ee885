-- ===== src/Examples/Runs.antt =====
-- What the model computes on these data.
use tabmo_codding_challenge.Common.Text.{◌=s=◌}
use tabmo_codding_challenge.Common.Result.{ok, err, invalid_argument, out_of_range}
use tabmo_codding_challenge.Common.{◌*◌, ◌∷◌, ◌≡◌, refl, true, false, some, []}
use tabmo_codding_challenge.Float.{le, fin, one, from_int, add, mul, div, to_int}
use tabmo_codding_challenge.Float.Round.{round_ratio}
use tabmo_codding_challenge.Float.Stof.{stof}
use tabmo_codding_challenge.Json.Tree.{tree_json}
use tabmo_codding_challenge.CampagnesManager.Draw.{random_select}
use tabmo_codding_challenge.Campagne.{
  construct, lacks_mandatory, has_common_filter, has_invalid_filter, is_out_of,
}
use tabmo_codding_challenge.CampagnesManager.Parse.{
  read_campagne, handle, parse_campagnes_from_json,
}
use tabmo_codding_challenge.RtbCtrl.{read_request, is_valid}
use tabmo_codding_challenge.Startup.{main, serving, terminated}
use tabmo_codding_challenge.Examples.Data.{
  puzzle, wide, ads, request, puzzle_entry, wide_entry, broken_entry, huge_entry, document,
  fatal_document, payload,
}

pub puzzle_read : read_campagne tree_json puzzle_entry ≡ ok puzzle
unfolding read_campagne stof round_ratio construct lacks_mandatory le has_common_filter
    has_invalid_filter is_out_of
puzzle_read = refl

pub wide_read : read_campagne tree_json wide_entry ≡ ok wide
unfolding read_campagne stof round_ratio construct lacks_mandatory le has_common_filter
    has_invalid_filter is_out_of
wide_read = refl

pub broken_read : read_campagne tree_json broken_entry ≡ err invalid_argument
unfolding read_campagne stof round_ratio construct lacks_mandatory le has_common_filter
    has_invalid_filter is_out_of
broken_read = refl

pub broken_handled : handle tree_json broken_entry invalid_argument ≡ ok tt
unfolding handle ◌=s=◌
broken_handled = refl

pub huge_read : read_campagne tree_json huge_entry ≡ err out_of_range
unfolding read_campagne stof round_ratio construct lacks_mandatory le has_common_filter
    has_invalid_filter is_out_of
huge_read = refl

document_parsed : parse_campagnes_from_json tree_json (some document) [] ≡ ok (ads, false)
unfolding parse_campagnes_from_json read_campagne stof round_ratio construct lacks_mandatory le
    has_common_filter has_invalid_filter is_out_of
document_parsed = refl

pub document_served : main tree_json (some document) ≡ serving ads
unfolding main read_campagne parse_campagnes_from_json stof round_ratio construct lacks_mandatory le
    has_common_filter has_invalid_filter is_out_of
document_served = refl

fatal_document_ends : main tree_json (some fatal_document) ≡ terminated out_of_range
unfolding main read_campagne parse_campagnes_from_json stof round_ratio construct lacks_mandatory le
    has_common_filter has_invalid_filter is_out_of
fatal_document_ends = refl

pub payload_read : read_request tree_json payload ≡ ok (some request)
unfolding read_request stof round_ratio ◌=s=◌
payload_read = refl

pub request_valid : is_valid request ≡ true
unfolding is_valid le
request_valid = refl

-- The intervals of the budgets 1 and 23 end below 100, so no campaign is hit and the first is taken.
short_intervals : random_select 100 (fin false one ∷ fin false (23 * one) ∷ []) ≡ some 0
unfolding random_select from_int add mul div to_int le round_ratio
short_intervals = refl
