-- ===== src/Campagne/Objects.antt =====
-- The copies and moves of src/Campagne.cpp on objects with their mutexes. An object is its place in a
-- store, so two names may be one object. `std::lock` takes both mutexes or waits for both; to give it
-- one mutex twice is undefined behaviour. What `std::move` leaves of a text or of a map is not
-- specified by the standard library, and so it is a parameter.
pub mod Copies
use tabmo_codding_challenge.Common.Text.{Bytes}
use tabmo_codding_challenge.Common.{
  ℕ, Bool, true, false, ◌||◌, Option, none, some, List, [], ◌∷◌, ◌++◌, ◌==◌, get_elem?, set, length,
  if◌then◌else◌,
}
use tabmo_codding_challenge.Campagne.{Campagne, Filters}

pub record Object : Type 0 where
  pub attributes : Campagne
  pub mutex : Bool

abbrev pub Store : Type 0
Store = List Object

-- The store after a call; a call that waits for a mutex; or undefined behaviour.
pub data Outcome : Type 0 where
  done : Store → Outcome
  waiting undefined : Outcome

infixl 5 ◌>>=◌
abbrev pub ◌>>=◌ : Outcome → (Store → Outcome) → Outcome
done st >>= f = f st
waiting >>= f = waiting
undefined >>= f = undefined

abbrev set_mutex : Bool → Object → Object
set_mutex b o = record o { mutex = b }

-- A change of one object; there is none out of the store.
unfoldable pub change : ℕ → (Object → Object) → Store → Outcome
change k f st = elim (get_elem? st k) [ none ↦ undefined | some o ↦ done (set st k (f o)) ]

unfoldable pub lock_free : ℕ → ℕ → Option Object → Option Object → Store → Outcome
unfolding change
lock_free a b (some x) (some y) st =
    if x.mutex || y.mutex
    then waiting
    else change a (set_mutex true) st >>= change b (set_mutex true)
lock_free a b _ _ st = undefined

-- `lock(a.mMutex, b.mMutex)`.
unfoldable pub lock_both : ℕ → ℕ → Store → Outcome
unfolding lock_free
lock_both a b st = if a == b then undefined else lock_free a b (get_elem? st a) (get_elem? st b) st

unfoldable pub unlock_both : ℕ → ℕ → Store → Outcome
unfolding change
unlock_both a b st = change a (set_mutex false) st >>= change b (set_mutex false)

-- `mId = pCampagne.mId;` and so on.
unfoldable pub assign : Campagne → Campagne → Campagne
assign c d = record c {
  id = d.id;
  budget = d.budget;
  bid_price = d.bid_price;
  width = d.width;
  height = d.height;
  responsive = d.responsive;
  filter_include = d.filter_include;
  filter_exclude = d.filter_exclude;
  url = d.url;
}

abbrev set_attributes : (Campagne → Campagne) → Object → Object
set_attributes f o = record o { attributes = f o.attributes }

-- The attributes of object `src` are assigned to those of object `dst`.
unfoldable pub assign_object : ℕ → ℕ → Store → Outcome
unfolding assign change
assign_object dst src st = elim (get_elem? st src) [
  | none ↦ undefined
  | some o ↦ change dst (set_attributes (λ c. assign c o.attributes)) st
]

unfoldable pub copy_assign : ℕ → ℕ → Store → Outcome
unfolding lock_both assign_object unlock_both
copy_assign this other st =
    lock_both other this st >>= assign_object this other >>= unlock_both other this

-- The new object has its attributes, which nothing has set yet, and a free mutex.
unfoldable pub copy_construct : Campagne → ℕ → Store → Outcome
unfolding copy_assign
copy_construct fresh other st =
    copy_assign (length st) other (st ++ (record { attributes = fresh; mutex = false } ∷ []))

module _ (moved_text : Bytes → Bytes) (moved_filters : Filters → Filters) where
  -- What is left of the attributes that are moved away; a number is copied.
  unfoldable pub left_behind : Campagne → Campagne
  left_behind c = record c {
    id = moved_text c.id;
    filter_include = moved_filters c.filter_include;
    filter_exclude = moved_filters c.filter_exclude;
    url = moved_text c.url;
  }

  unfoldable pub move_assign : ℕ → ℕ → Store → Outcome
  unfolding lock_both assign_object left_behind unlock_both
  move_assign this other st =
      lock_both other this st
      >>= assign_object this other
      >>= change other (set_attributes left_behind)
      >>= unlock_both other this

  unfoldable pub move_construct : Campagne → ℕ → Store → Outcome
  unfolding move_assign
  move_construct fresh other st =
      move_assign (length st) other (st ++ (record { attributes = fresh; mutex = false } ∷ []))
