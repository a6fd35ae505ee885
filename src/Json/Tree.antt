-- ===== src/Json/Tree.antt =====
-- A small JSON library of trees, to run the model and to show that the laws of `IsJson` can hold.
use mathlib.Core.Option.{some-injective}
use tabmo_codding_challenge.Common.Text.{Bytes, ◌=s=◌, =s=_iff}
use tabmo_codding_challenge.Common.Int.{ℤ, pos, negsuc, IsInt}
use tabmo_codding_challenge.Common.{
  ℕ, ◌<◌, ◌≡◌, refl, Bool, true, false, Option, none, some, List, [], ◌∷◌, arith, if◌then◌else◌,
  length, ltb, ltb→lt, ◌^◌, inl, inr, subst, Bool-cases,
}
use tabmo_codding_challenge.Json.{Json, IsJson, GivesInts}

mutual
  pub data Tree : Type 0 where
    nothing : Tree
    truth : Bool → Tree
    number : ℤ → Tree
    words : Bytes → Tree
    array : Trees → Tree
    object : Members → Tree

  pub data Trees : Type 0 where
    nil : Trees
    cons : Tree → Trees → Trees

  pub data Members : Type 0 where
    end : Members
    member : Bytes → Tree → Members → Members

abbrev find : Bytes → Members → Tree
find k end = nothing
find k (member i v ms) = if i =s= k then v else find k ms

abbrev set_member : Bytes → Tree → Members → Members
set_member k v end = member k v end
set_member k v (member i w ms) = if i =s= k then member i v ms else member i w (set_member k v ms)

abbrev names : Members → List Bytes
names end = []
names (member i v ms) = i ∷ names ms

abbrev values : Members → List Tree
values end = []
values (member i v ms) = v ∷ values ms

abbrev elements : Trees → List Tree
elements nil = []
elements (cons t ts) = t ∷ elements ts

abbrev get : Tree → Bytes → Option Tree
get nothing k = some nothing
get (object ms) k = some (find k ms)
get _ k = none

abbrev put : Tree → Bytes → Bytes → Tree
put nothing k s = object (member k (words s) end)
put (object ms) k s = object (set_member k (words s) ms)
put t k s = t

abbrev as_string : Tree → Option Bytes
as_string nothing = some []
as_string (words s) = some s
as_string _ = none

-- A number in the range of `int`.
abbrev fits_int : ℤ → Bool
fits_int (pos n) = ltb n (2 ^ 31)
fits_int (negsuc n) = ltb n (2 ^ 31)

abbrev as_int : Tree → Option ℤ
as_int nothing = some (pos 0)
as_int (number n) = if fits_int n then some n else none
as_int _ = none

abbrev as_bool : Tree → Option Bool
as_bool nothing = some false
as_bool (truth b) = some b
as_bool _ = none

abbrev get_member_names : Tree → Option (List Bytes)
get_member_names nothing = some []
get_member_names (object ms) = some (names ms)
get_member_names _ = none

abbrev items : Tree → List Tree
items (array ts) = elements ts
items (object ms) = values ms
items _ = []

abbrev size : Tree → ℕ
size t = length (items t)

abbrev empty : Tree → Bool
empty nothing = true
empty (array nil) = true
empty (object end) = true
empty _ = false

abbrev pub tree_json : Json
tree_json = record {
  Value = Tree;
  null = nothing;
  text = words;
  get = get;
  put = put;
  as_string = as_string;
  as_int = as_int;
  as_bool = as_bool;
  get_member_names = get_member_names;
  empty = empty;
  size = size;
  items = items;
}

abbrev IsObject : Tree → Type 0
IsObject nothing = Unit {0}
IsObject (object ms) = Unit {0}
IsObject _ = ⊥

find-set_member :
    (k i : Bytes) (v : Tree) (ms : Members)
    → find i (set_member k v ms) ≡ (if k =s= i then v else find i ms)
find-set_member k i v end = refl
find-set_member k i v (member l w ms) =
    ground (arith, =s=_iff k i, =s=_iff l k, =s=_iff l i, find-set_member k i v ms)

put-IsObject : (v : Tree) (k s : Bytes) → IsObject v → IsObject (put v k s)
put-IsObject nothing k s h = tt
put-IsObject (object ms) k s h = tt
put-IsObject _ k s h = elim h [ ]

get-put :
    (v : Tree) (k s i : Bytes)
    → IsObject v
    → get (put v k s) i ≡ (if k =s= i then some (words s) else get v i)
get-put nothing k s i h = ground (arith, =s=_iff k i)
get-put (object ms) k s i h = ground (arith, find-set_member k i (words s) ms)
get-put _ k s i h = elim h [ ]

set_member_size : (k : Bytes) (v : Tree) (ms : Members) → 0 < length (values (set_member k v ms))
set_member_size k v end = omega arith
set_member_size k v (member i w ms) = ground arith

size-put : (v : Tree) (k s : Bytes) → IsObject v → 0 < size (put v k s)
size-put nothing k s h = omega arith
size-put (object ms) k s h = set_member_size k (words s) ms
size-put _ k s h = elim h [ ]

pub tree_json-IsJson : IsJson tree_json
tree_json-IsJson = record {
  IsObject = IsObject;
  null-IsObject = tt;
  put-IsObject = put-IsObject;
  get-null = λ k. refl;
  get-put = get-put;
  as_string-text = λ s. refl;
  as_string-null = refl;
  size-items = λ v. refl;
  size-null = refl;
  size-put = size-put;
}

fits_int-IsInt : (n : ℤ) → fits_int n ≡ true → IsInt n
fits_int-IsInt (pos n) e = ltb→lt n (2 ^ 31) e
fits_int-IsInt (negsuc n) e = ltb→lt n (2 ^ 31) e

pub tree_json-GivesInts : GivesInts tree_json
tree_json-GivesInts nothing n e = subst IsInt (some-injective _ _ e) (omega arith)
tree_json-GivesInts (truth b) n e = cc
tree_json-GivesInts (number i) n e = elim (Bool-cases (fits_int i)) [
  | inl fits ↦ subst IsInt (some-injective _ _ (rw fits at e)) (fits_int-IsInt i fits)
  | inr wide ↦ let e' = rw wide at e in cc
]
tree_json-GivesInts (words s) n e = cc
tree_json-GivesInts (array vs) n e = cc
tree_json-GivesInts (object ms) n e = cc
