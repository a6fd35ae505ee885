-- ===== src/CampagnesManager/Memory.antt =====
-- `ParseCampagnesFromJson` and `GetCampagnesCount` on objects: the list `mListeCampagnes` with its
-- mutex `mAccesCampagnes`, the local `lCampagne` of each entry, and the copies that `push_back` makes
-- with the mutexes of the campaigns, all of them where the vector has no room left. When that is, is a
-- parameter, and so are the attributes that an object has before they are set.
pub mod Elements
pub mod Ends
pub mod Vector
pub mod Added
pub mod Refinement
use tabmo_codding_challenge.Common.Result.{Result, ok, err}
use tabmo_codding_challenge.Common.{
  ℕ, Bool, true, false, ◌||◌, Option, none, some, List, [], ◌∷◌, ◌++◌, get_elem?, length, any, ltb,
  ◌==◌, if◌then◌else◌,
}
use tabmo_codding_challenge.Common.Int.{ℤ}
use tabmo_codding_challenge.Json.{Json}
use tabmo_codding_challenge.Campagne.{Campagne}
use tabmo_codding_challenge.Campagne.Objects.{
  Object, Store, Outcome, done, waiting, undefined, copy_construct,
}
use tabmo_codding_challenge.CampagnesManager.Parse.{read_campagne, handle, int_of_size}

-- A call that returns, that waits for a mutex for ever, or that has undefined behaviour.
pub data Ran (A : Type 0) : Type 0 where
  finished : A → Ran A
  blocked broken : Ran A

infixl 5 ◌>>=◌
abbrev pub ◌>>=◌ : {A B : Type 0} → Ran A → (A → Ran B) → Ran B
finished a >>= f = f a
blocked >>= f = blocked
broken >>= f = broken

-- All objects that were made, the places of those in the vector, the places of those that are
-- destroyed, and whether `mAccesCampagnes` is locked.
pub record Memory : Type 0 where
  pub objects : Store
  pub elements : List ℕ
  pub destroyed : List ℕ
  pub access : Bool

abbrev pub is_destroyed : Memory → ℕ → Bool
is_destroyed m k = any (λ i. i == k) m.destroyed

-- `mAccesCampagnes.lock()`: the program has one thread then, so it would wait for itself.
unfoldable pub lock_access : Memory → Ran Memory
lock_access m = if m.access then blocked else finished (record m { access = true })

unfoldable pub unlock_access : Memory → Ran Memory
unlock_access m = finished (record m { access = false })

-- An object that a constructor has made, at the next place.
abbrev pub create : Campagne → Memory → Memory
create c m = record m { objects = m.objects ++ (record { attributes = c; mutex = false } ∷ []) }

abbrev with_objects : Memory → Outcome → Ran Memory
with_objects m (done st) = finished (record m { objects = st })
with_objects m waiting = blocked
with_objects m undefined = broken

-- The end of an object. To destroy a locked mutex is undefined, and so is a second end.
abbrev pub end_object : ℕ → Memory → Option Object → Ran Memory
end_object k m none = broken
end_object k m (some o) =
    if o.mutex || is_destroyed m k
    then broken
    else finished (record m { destroyed = k ∷ m.destroyed })

unfoldable pub destroy : ℕ → Memory → Ran Memory
destroy k m = end_object k m (get_elem? m.objects k)

unfoldable pub destroy_all : List ℕ → Memory → Ran Memory
unfolding destroy
destroy_all [] m = finished m
destroy_all (k ∷ ks) m = destroy k m >>= destroy_all ks

module _ (fresh : Campagne) where
  -- A copy of object `k`, at the next place.
  unfoldable pub copy_of : ℕ → Memory → Ran Memory
  unfolding copy_construct
  copy_of k m =
      if is_destroyed m k then broken else with_objects m (copy_construct fresh k m.objects)

  -- The copies of some objects, with their places.
  unfoldable pub copies_of : List ℕ → Memory → Ran (List ℕ × Memory)
  unfolding copy_of
  copies_of [] m = finished ([], m)
  copies_of (k ∷ ks) m = do
    m1 ← copy_of k m
    (ps, m2) ← copies_of ks m1
    finished (length m.objects ∷ ps, m2)

  -- The copy of object `k` behind the given elements.
  unfoldable pub append_copy : List ℕ → ℕ → Memory → Ran Memory
  unfolding copy_of
  append_copy elements k m = do
    m1 ← copy_of k m
    finished (record m1 { elements = elements ++ (length m.objects ∷ []) })

  -- The elements are copied to a larger array, since the move constructor is not `noexcept`, and the old
  -- ones are destroyed.
  unfoldable pub grow : ℕ → Memory → Ran Memory
  unfolding copies_of append_copy destroy_all
  grow k m = do
    (ps, m1) ← copies_of m.elements m
    m2 ← append_copy ps k m1
    destroy_all m.elements m2

  module _ (is_full : ℕ → Bool) where
    -- `mListeCampagnes.push_back` of object `k`.
    unfoldable pub push_back : ℕ → Memory → Ran Memory
    unfolding append_copy grow
    push_back k m = if is_full (length m.elements) then grow k m else append_copy m.elements k m

    -- `Campagne lCampagne(...)` and what follows it, to the end of the block.
    unfoldable pub add_campagne : Campagne → Memory → Ran Memory
    unfolding lock_access unlock_access push_back destroy
    add_campagne c m = do
      m1 ← lock_access (create c m)
      m2 ← push_back (length m.objects) m1
      m3 ← unlock_access m2
      destroy (length m.objects) m3

    module _ (j : Json) where
      open j use {Value, size, items}

      -- The memory, with `lReturn` or the exception that leaves the function.
      abbrev pub State : Type 0
      State = Memory × Result Bool

      abbrev pub caught : Result (Unit {0}) → Result Bool
      caught (ok logged) = ok false
      caught (err e) = err e

      abbrev with_result : Result Bool → Ran Memory → Ran State
      with_result r ran = ran >>= λ m. finished (m, r)

      -- One round of the loop.
      unfoldable pub load_entry : Value → Memory → Bool → Ran State
      unfolding add_campagne
      load_entry itr m good = elim (read_campagne j itr) [
        | ok c ↦ with_result (ok good) (add_campagne c m)
        | err e ↦ finished (m, caught (handle j itr e))
      ]

      unfoldable pub load_entries : List Value → State → Ran State
      unfolding load_entry
      load_entries [] state = finished state
      load_entries (itr ∷ rest) (m, err e) = finished (m, err e)
      load_entries (itr ∷ rest) (m, ok good) = load_entry itr m good >>= load_entries rest

      -- `ParseCampagnesFromJson`.
      unfoldable pub load_campagnes : Option Value → Memory → Ran State
      unfolding load_entries
      load_campagnes none m = finished (m, ok false)
      load_campagnes (some document) m =
          if ltb 0 (size document)
          then load_entries (items document) (m, ok true)
          else finished (m, ok false)

-- `GetCampagnesCount`.
unfoldable pub count_campagnes : Memory → Ran (Memory × ℤ)
unfolding lock_access unlock_access int_of_size
count_campagnes m = do
  m1 ← lock_access m
  m2 ← unlock_access m1
  finished (m2, int_of_size (length m1.elements))
