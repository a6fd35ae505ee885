-- ===== src/CampagnesManager/Memory/Vector.antt =====
-- What `push_back` does to the vector of the campaigns.
use tabmo_codding_challenge.Common.{
  ℕ, suc, ◌+◌, ap, ◌≤◌, ◌<◌, ◌≡◌, ◌≢◌, inl, inr, refl, ◌∙◌, Bool, List, [], ◌∷◌, ◌++◌, arith,
  length-append, get_elem?-lt, length, All, All-append, Bool-cases,
}
use tabmo_codding_challenge.Campagne.{Campagne}
use tabmo_codding_challenge.CampagnesManager.Memory.{
  finished, ◌>>=◌, Memory, append_copy, grow, push_back,
}
use tabmo_codding_challenge.CampagnesManager.Memory.Elements.{
  Lives, Shows, Keeps, Shows-Keeps, IsRising, IsSane, raise, copies-IsSane, copy_of_lem,
  copies_of_lem,
}
use tabmo_codding_challenge.CampagnesManager.Memory.Ends.{
  Ends-Shows, IsRising-apart, destroy_all_lem,
}

IsRising-append :
    (low n : ℕ) (ks : List ℕ)
    → IsRising low ks
    → All (λ k. k < n) ks
    → low ≤ n
    → IsRising low (ks ++ (n ∷ []))
IsRising-append low n [] rising below h = (h, tt)
IsRising-append low n (k ∷ ks) (from, rising) (b, below) h =
    (from, IsRising-append (suc k) n ks rising below b)

IsRising-lower : (low n : ℕ) (ks : List ℕ) → low ≤ n → IsRising n ks → IsRising low ks
IsRising-lower low n [] h rising = tt
IsRising-lower low n (k ∷ ks) h (from, rising) = (omega arith, rising)

Shows-append :
    (m : Memory) (ks : List ℕ) (cs : List Campagne) (k : ℕ) (c : Campagne)
    → Shows m ks cs
    → Lives m k c
    → Shows m (ks ++ (k ∷ [])) (cs ++ (c ∷ []))
Shows-append m [] [] k c shown lives = (lives, tt)
Shows-append m (i ∷ ks) (d ∷ cs) k c (first, shown) lives =
    (first, Shows-append m ks cs k c shown lives)
Shows-append m [] (d ∷ cs) k c shown lives = elim shown [ ]
Shows-append m (i ∷ ks) [] k c shown lives = elim shown [ ]

-- The elements of the vector are objects of their own, with free mutexes, and hold the campaigns.
pub record IsVector (m : Memory) (cs : List Campagne) : Type 0 where
  pub shown : Shows m m.elements cs
  pub rising : IsRising 0 m.elements
  pub below : All (λ k. k < length m.objects) m.elements
  pub sane : IsSane m

-- So many objects are made as are put in the vector or destroyed.
abbrev Balanced : Memory → Memory → Type 0
Balanced m m' =
    length m'.elements + length m'.destroyed + length m.objects
    ≡ length m.elements + length m.destroyed + length m'.objects

-- The memory after a copy of `k` behind the elements `ks`, which rise from `low` on.
record Appended (low : ℕ) (ks : List ℕ) (cs : List Campagne) (c : Campagne) (m m' : Memory)
    : Type 0 where
  keeps : Keeps m m'
  one_more : length m'.objects ≡ suc (length m.objects)
  same_destroyed : m'.destroyed ≡ m.destroyed
  elements_are : m'.elements ≡ ks ++ (length m.objects ∷ [])
  shown : Shows m' m'.elements (cs ++ (c ∷ []))
  rising : IsRising low m'.elements
  below : All (λ k. k < length m'.objects) m'.elements
  sane : IsSane m'
  same_access : m'.access ≡ m.access

grow_balance :
    (m m1 m2 m3 : Memory) (ps : List ℕ)
    → length ps ≡ length m.elements
    → length m1.objects ≡ length m.elements + length m.objects
    → m1.destroyed ≡ m.destroyed
    → m2.elements ≡ ps ++ (length m1.objects ∷ [])
    → length m2.objects ≡ suc (length m1.objects)
    → m2.destroyed ≡ m1.destroyed
    → m3.objects ≡ m2.objects
    → m3.elements ≡ m2.elements
    → length m3.destroyed ≡ length m.elements + length m2.destroyed
    → Balanced m m3
grow_balance m m1 m2 m3 ps as_many more same1 are one_more same2 same3 elements3 all_destroyed =
    let many : length m3.elements ≡ suc (length ps) =
      rw (elements3, are) (omega (arith, length-append ps (length m1.objects ∷ []))) in
    omega (arith, many, ap length same1, ap length same2, ap length same3)

module _ (fresh : Campagne) where
  append_copy_lem :
      (low : ℕ) (ks : List ℕ) (k : ℕ) (m : Memory) (cs : List Campagne) (c : Campagne)
      → IsSane m
      → Shows m ks cs
      → IsRising low ks
      → All (λ i. i < length m.objects) ks
      → low ≤ length m.objects
      → Lives m k c
      → (m' : Memory) × (append_copy fresh ks k m ≡ finished m') × Appended low ks cs c m m'
  unfolding append_copy
  append_copy_lem low ks k m cs c sane shown rising below room lives =
      let (m1, e, g, new, long) = copy_of_lem fresh k m c sane lives in
      (
        record m1 { elements = ks ++ (length m.objects ∷ []) },
        rw (e, append_copy) refl,
        record {
          keeps = g.keeps;
          one_more = long;
          same_destroyed = g.same_destroyed;
          elements_are = refl;
          shown =
              Shows-append m1 ks cs (length m.objects) c (Shows-Keeps m m1 ks cs g.keeps shown) new;
          rising = IsRising-append low (length m.objects) ks rising below room;
          below =
              All-append (λ i. i < length m1.objects) ks (length m.objects ∷ [])
                (raise (length m.objects) (length m1.objects) ks g.longer below)
                (omega (arith, long), tt);
          sane = copies-IsSane fresh m m1 g sane;
          same_access = g.same_access;
        },
      )

  -- The vector with one more campaign; the object that it was copied from lives on, apart from it.
  pub record Pushed (k : ℕ) (cs : List Campagne) (c : Campagne) (m m' : Memory) : Type 0 where
    pub vector : IsVector m' (cs ++ (c ∷ []))
    pub lives : Lives m' k c
    pub apart : All (λ i. i ≢ k) m'.elements
    pub same_access : m'.access ≡ m.access
    pub balanced : Balanced m m'

  module _ (k : ℕ) (m : Memory) (cs : List Campagne) (c : Campagne) (vector : IsVector m cs)
      (lives : Lives m k c) (apart : All (λ i. i ≢ k) m.elements) where
    here : k < length m.objects
    here = get_elem?-lt m.objects k lives.0

    append_copy-Pushed :
        (m' : Memory) × (append_copy fresh m.elements k m ≡ finished m') × Pushed k cs c m m'
    append_copy-Pushed =
        let (m', e, a) =
          append_copy_lem 0 m.elements k m cs c vector.sane vector.shown vector.rising vector.below
            (omega arith) lives in
        (
          m',
          e,
          record {
            vector = record { shown = a.shown; rising = a.rising; below = a.below; sane = a.sane };
            lives = a.keeps k c lives;
            apart = rw a.elements_are (
                All-append (λ i. i ≢ k) m.elements (length m.objects ∷ []) apart
                  (omega (arith, here), tt));
            same_access = a.same_access;
            balanced =
                rw (a.elements_are, a.same_destroyed)
                  (omega (arith, a.one_more, length-append m.elements (length m.objects ∷ [])));
          },
        )

    grow-Pushed : (m' : Memory) × (grow fresh k m ≡ finished m') × Pushed k cs c m m'
    unfolding grow
    grow-Pushed =
        let (ps, m1, e1, g, shown1, rising1, below1, as_many, more) =
          copies_of_lem fresh m.elements m cs vector.sane vector.shown in
        let (m2, e2, a) =
          append_copy_lem (length m.objects) ps k m1 cs c (copies-IsSane fresh m m1 g vector.sane)
            shown1 rising1 below1 g.longer (g.keeps k c lives) in
        let longer : length m.objects ≤ length m2.objects = omega (arith, g.longer, a.one_more) in
        let old =
          Shows-Keeps m m2 m.elements cs (λ i d alive. a.keeps i d (g.keeps i d alive))
            vector.shown in
        let (m3, e3, ends) =
          destroy_all_lem 0 m.elements m2 cs a.sane old vector.rising
            (raise (length m.objects) (length m2.objects) m.elements longer vector.below) in
        (
          m3,
          rw (e1, grow) (rw (e2, ◌>>=◌) e3),
          record {
            vector = record {
              shown = rw ends.same_elements (
                  Ends-Shows (length m.objects) m.elements m2.elements m2 m3 (cs ++ (c ∷ [])) ends
                    vector.below a.rising a.shown);
              rising =
                  rw ends.same_elements
                    (IsRising-lower 0 (length m.objects) m2.elements (omega arith) a.rising);
              below = rw (ends.same_elements, ends.same_objects) a.below;
              sane = ends.sane;
            };
            lives = ends.keeps_others k c apart (a.keeps k c (g.keeps k c lives));
            apart =
                rw ends.same_elements
                  (IsRising-apart k (length m.objects) m2.elements here a.rising);
            same_access = ends.same_access ∙ a.same_access ∙ g.same_access;
            balanced =
                grow_balance m m1 m2 m3 ps as_many more g.same_destroyed a.elements_are a.one_more
                  a.same_destroyed ends.same_objects ends.same_elements ends.all_destroyed;
          },
        )

    -- `push_back` adds the campaign of object `k`, whether the vector has room or not.
    pub push_back-Pushed :
        (is_full : ℕ → Bool)
        → (m' : Memory) × (push_back fresh is_full k m ≡ finished m') × Pushed k cs c m m'
    unfolding push_back
    push_back-Pushed is_full = elim (Bool-cases (is_full (length m.elements))) [
      | inl full ↦ let (m', e, pushed) = grow-Pushed in (m', rw (full, push_back) e, pushed)
      | inr room ↦ let (m', e, pushed) = append_copy-Pushed in (m', rw (room, push_back) e, pushed)
    ]
