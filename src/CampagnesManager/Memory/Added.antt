-- ===== src/CampagnesManager/Memory/Added.antt =====
-- What an entry that is read does to the vector, from the lock of `mAccesCampagnes` to the end of
-- the local object.
use tabmo_codding_challenge.Common.{
  ℕ, suc, ◌+◌, ◌≤◌, ◌≡◌, refl, Bool, true, false, List, [], ◌∷◌, ◌++◌, arith, length-append,
  get_elem?-lt, length,
}
use tabmo_codding_challenge.Campagne.{Campagne}
use tabmo_codding_challenge.Campagne.Objects.Copies.{object, get_elem?-append}
use tabmo_codding_challenge.CampagnesManager.Memory.{
  finished, ◌>>=◌, Memory, create, lock_access, unlock_access, destroy, push_back, add_campagne,
}
use tabmo_codding_challenge.CampagnesManager.Memory.Elements.{
  Lives, Shows-Keeps, IsSane, raise, below-next,
}
use tabmo_codding_challenge.CampagnesManager.Memory.Ends.{
  ended, destroy_lem, ended-Shows, apart_of_below,
}
use tabmo_codding_challenge.CampagnesManager.Memory.Vector.{IsVector, Pushed, push_back-Pushed}

-- Between two entries: `mAccesCampagnes` is free, and as many objects are destroyed as are not in the
-- vector.
pub record Settled (m : Memory) (cs : List Campagne) : Type 0 where
  pub vector : IsVector m cs
  pub free : m.access ≡ false
  pub none_left : length m.elements + length m.destroyed ≡ length m.objects

created : (c d : Campagne) (m : Memory) (k : ℕ) → Lives m k d → Lives (create c m) k d
created c d m k (at, alive) =
    (ground (arith, get_elem?-append m.objects (object c) k, get_elem?-lt m.objects k at), alive)

-- The vector before the local object of an entry is made, seen after that, with the mutex locked.
abbrev entered : Campagne → Memory → Memory
entered c m = record (create c m) { access = true }

entered-longer : (c : Campagne) (m : Memory) → length (entered c m).objects ≡ suc (length m.objects)
entered-longer c m = omega (arith, length-append m.objects (object c ∷ []))

entered-IsVector :
    (c : Campagne) (m : Memory) (cs : List Campagne) → IsVector m cs → IsVector (entered c m) cs
entered-IsVector c m cs vector =
    let longer : length m.objects ≤ length (entered c m).objects =
      omega (arith, entered-longer c m) in
    record {
      shown = Shows-Keeps m (entered c m) m.elements cs (λ k d. created c d m k) vector.shown;
      rising = vector.rising;
      below =
          raise (length m.objects) (length (entered c m).objects) m.elements longer vector.below;
      sane = raise (length m.objects) (length (entered c m).objects) m.destroyed longer vector.sane;
    }

entered-Lives : (c : Campagne) (m : Memory) → IsSane m → Lives (entered c m) (length m.objects) c
entered-Lives c m sane = (
  ground (arith, get_elem?-append m.objects (object c) (length m.objects)),
  below-next (length m.objects) (length m.objects) m.destroyed (omega arith) sane,
)

-- The mutex of the list says nothing of the objects.
pub access-IsVector :
    (b : Bool) (m : Memory) (cs : List Campagne)
    → IsVector m cs
    → IsVector (record m { access = b }) cs
access-IsVector b m cs vector = record {
  shown = Shows-Keeps m (record m { access = b }) m.elements cs (λ i d lives. lives) vector.shown;
  rising = vector.rising;
  below = vector.below;
  sane = vector.sane;
}

module _ (fresh : Campagne) where
  -- The mutex is given back, and the local object destroyed.
  left-IsVector :
      (k : ℕ) (c : Campagne) (m m' : Memory) (cs : List Campagne)
      → Pushed fresh k cs c m m'
      → IsVector (ended k (record m' { access = false })) (cs ++ (c ∷ []))
  left-IsVector k c m m' cs pushed =
      let m3 = record m' { access = false } in
      let freed = access-IsVector false m' (cs ++ (c ∷ [])) pushed.vector in
      record {
        shown = ended-Shows k m'.elements m3 (cs ++ (c ∷ [])) pushed.apart freed.shown;
        rising = pushed.vector.rising;
        below = pushed.vector.below;
        sane = (get_elem?-lt m'.objects k pushed.lives.0, pushed.vector.sane);
      }

  lock_access_free :
      (c : Campagne) (m : Memory)
      → m.access ≡ false
      → lock_access (create c m) ≡ finished (entered c m)
  unfolding lock_access
  lock_access_free c m free = rw (free, lock_access) refl

  add_campagne_steps :
      (is_full : ℕ → Bool) (c : Campagne) (m m1 m2 m3 : Memory)
      → lock_access (create c m) ≡ finished m1
      → push_back fresh is_full (length m.objects) m1 ≡ finished m2
      → destroy (length m.objects) (record m2 { access = false }) ≡ finished m3
      → add_campagne fresh is_full c m ≡ finished m3
  unfolding add_campagne unlock_access
  add_campagne_steps is_full c m m1 m2 m3 e1 e2 e3 = rw (e1, add_campagne) (rw (e2, ◌>>=◌) e3)

  -- A campaign that is read goes to the end of the vector: no mutex is waited for, the local object is
  -- destroyed, and `mAccesCampagnes` is free again.
  pub add_campagne_lem :
      (is_full : ℕ → Bool) (c : Campagne) (m : Memory) (cs : List Campagne)
      → Settled m cs
      → (m' : Memory) × (add_campagne fresh is_full c m ≡ finished m') × Settled m' (cs ++ (c ∷ []))
  add_campagne_lem is_full c m cs settled =
      let k = length m.objects in
      let vector = settled.vector in
      let (m2, e, pushed) =
        push_back-Pushed fresh k (entered c m) cs c (entered-IsVector c m cs vector)
          (entered-Lives c m vector.sane) (apart_of_below k k m.elements (omega arith) vector.below)
          is_full in
      (
        ended k (record m2 { access = false }),
        add_campagne_steps is_full c m (entered c m) m2 (ended k (record m2 { access = false }))
            (lock_access_free c m settled.free) e
            (destroy_lem k (record m2 { access = false }) c pushed.lives),
        record {
          vector = left-IsVector k c (entered c m) m2 cs pushed;
          free = refl;
          none_left = omega (arith, pushed.balanced, entered-longer c m, settled.none_left);
        },
      )
