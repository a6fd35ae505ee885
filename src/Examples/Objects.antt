-- ===== src/Examples/Objects.antt =====
-- The theorems on copies and moves, at a store of two campaigns. A text that is moved is left empty.
use tabmo_codding_challenge.Common.{◌≡◌, refl, [], ◌∷◌, arith}
use tabmo_codding_challenge.Common.Text.{Bytes}
use tabmo_codding_challenge.Campagne.{Filters}
use tabmo_codding_challenge.Campagne.Objects.{
  Store, done, copy_construct, copy_assign, left_behind, move_assign, move_construct,
}
use tabmo_codding_challenge.Campagne.Objects.Copies.{
  object, With, WithBoth, copy_assign_lem, move_assign_lem, move_construct_lem, copy_construct_lem,
}
use tabmo_codding_challenge.Examples.Data.{puzzle, wide}

abbrev store : Store
store = object puzzle ∷ object wide ∷ []

abbrev no_text : Bytes → Bytes
no_text s = []

abbrev no_filters : Filters → Filters
no_filters m = []

copy_assign_lem_example :
    (st' : Store) × (copy_assign 1 0 store ≡ done st') × With store 1 (object puzzle) st'
copy_assign_lem_example = copy_assign_lem store 1 0 wide puzzle (omega arith) refl refl

move_assign_lem_example :
    (st' : Store) × (move_assign no_text no_filters 1 0 store ≡ done st')
    × WithBoth store 0 (object (left_behind no_text no_filters puzzle)) 1 (object puzzle) st'
move_assign_lem_example =
    move_assign_lem store 1 0 wide puzzle (omega arith) refl refl no_text no_filters

move_construct_lem_example :
    (st' : Store) × (move_construct no_text no_filters wide 0 store ≡ done st')
    × WithBoth store 0 (object (left_behind no_text no_filters puzzle)) 2 (object puzzle) st'
move_construct_lem_example = move_construct_lem no_text no_filters store 0 wide puzzle refl

copy_construct_lem_example :
    (st' : Store) × (copy_construct wide 0 store ≡ done st') × With store 2 (object puzzle) st'
copy_construct_lem_example = copy_construct_lem store 0 wide puzzle refl
