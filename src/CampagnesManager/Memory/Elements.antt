-- ===== src/CampagnesManager/Memory/Elements.antt =====
-- What the copies and the ends of objects leave of the others.
use tabmo_codding_challenge.Common.{
  ℕ, suc, ◌+◌, ◌≤◌, ◌<◌, ◌≡◌, refl, ◌∙◌, false, some, none, List, [], ◌∷◌, arith, get_elem?,
  get_elem?-lt, get_elem?-none, get_elem?-ge, length, any, All, ◌==◌,
}
use tabmo_codding_challenge.Campagne.{Campagne}
use tabmo_codding_challenge.Campagne.Objects.{Store}
use tabmo_codding_challenge.Campagne.Objects.Copies.{object, With, copy_construct_lem}
use tabmo_codding_challenge.CampagnesManager.Memory.{
  finished, ◌>>=◌, Memory, is_destroyed, copy_of, copies_of,
}

-- Object `k` is there, with these attributes and a free mutex.
abbrev pub Lives : Memory → ℕ → Campagne → Type 0
Lives m k c = (get_elem? m.objects k ≡ some (object c)) × (is_destroyed m k ≡ false)

-- The objects at these places are campaigns, in their order.
abbrev pub Shows : Memory → List ℕ → List Campagne → Type 0
Shows m [] [] = Unit {0}
Shows m (k ∷ ks) (c ∷ cs) = Lives m k c × Shows m ks cs
Shows m _ _ = ⊥

-- What lives goes on living.
abbrev pub Keeps : Memory → Memory → Type 0
Keeps m m' = (k : ℕ) (c : Campagne) → Lives m k c → Lives m' k c

pub Shows-Keeps :
    (m m' : Memory) (ks : List ℕ) (cs : List Campagne) → Keeps m m' → Shows m ks cs → Shows m' ks cs
Shows-Keeps m m' [] [] keeps shown = tt
Shows-Keeps m m' (k ∷ ks) (c ∷ cs) keeps (lives, shown) =
    (keeps k c lives, Shows-Keeps m m' ks cs keeps shown)
Shows-Keeps m m' _ _ keeps shown = elim shown [ ]

-- Places that rise, from `low` on.
abbrev pub IsRising : ℕ → List ℕ → Type 0
IsRising low [] = Unit {0}
IsRising low (k ∷ ks) = (low ≤ k) × IsRising (suc k) ks

-- Only places of objects are destroyed.
abbrev pub IsSane : Memory → Type 0
IsSane m = All (λ k. k < length m.objects) m.destroyed

pub below-next :
    (n k : ℕ) (ks : List ℕ) → n ≤ k → All (λ i. i < n) ks → any (λ i. i == k) ks ≡ false
below-next n k [] h below = refl
below-next n k (i ∷ ks) h (b, below) = ground (arith, below-next n k ks h below)

pub raise : (m n : ℕ) (ks : List ℕ) → m ≤ n → All (λ i. i < m) ks → All (λ i. i < n) ks
raise m n [] h below = tt
raise m n (i ∷ ks) h (b, below) = (omega arith, raise m n ks h below)

-- What a call does to the memory but for its new objects.
pub record Grows (m m' : Memory) : Type 0 where
  pub keeps : Keeps m m'
  pub longer : length m.objects ≤ length m'.objects
  pub same_elements : m'.elements ≡ m.elements
  pub same_destroyed : m'.destroyed ≡ m.destroyed
  pub same_access : m'.access ≡ m.access

Grows-Grows : (m m1 m2 : Memory) → Grows m m1 → Grows m1 m2 → Grows m m2
Grows-Grows m m1 m2 g1 g2 = record {
  keeps = λ k c lives. g2.keeps k c (g1.keeps k c lives);
  longer = omega (arith, g1.longer, g2.longer);
  same_elements = g2.same_elements ∙ g1.same_elements;
  same_destroyed = g2.same_destroyed ∙ g1.same_destroyed;
  same_access = g2.same_access ∙ g1.same_access;
}

With-length :
    (st st' : Store) (c : Campagne)
    → With st (length st) (object c) st'
    → length st' ≡ suc (length st)
With-length st st' c same =
    let at : get_elem? st' (length st) ≡ some (object c) = ground (arith, same (length st)) in
    let beyond : get_elem? st' (suc (length st)) ≡ none =
      ground (arith, same (suc (length st)), get_elem?-ge st (suc (length st))) in
    omega (arith, get_elem?-lt st' (length st) at, get_elem?-none st' (suc (length st)) beyond)

module _ (fresh : Campagne) where
  -- A copy is a new object with the attributes of the other.
  pub copy_of_lem :
      (k : ℕ) (m : Memory) (c : Campagne)
      → IsSane m
      → Lives m k c
      → (m' : Memory) × (copy_of fresh k m ≡ finished m')
        × Grows m m'
        × Lives m' (length m.objects) c
        × (length m'.objects ≡ suc (length m.objects))
  unfolding copy_of
  copy_of_lem k m c sane (at, alive) =
      let (st, e, same) = copy_construct_lem m.objects k fresh c at in
      let long = With-length m.objects st c same in
      (
        record m { objects = st },
        rw (alive, copy_of) (rw e refl),
        record {
          keeps =
              λ i d (at', alive'). (ground (arith, same i, get_elem?-lt m.objects i at'), alive');
          longer = omega arith;
          same_elements = refl;
          same_destroyed = refl;
          same_access = refl;
        },
        (
          ground (arith, same (length m.objects)),
          below-next (length m.objects) (length m.objects) m.destroyed (omega arith) sane,
        ),
        long,
      )

  pub copies-IsSane : (m m' : Memory) → Grows m m' → IsSane m → IsSane m'
  copies-IsSane m m' grows sane =
      rw grows.same_destroyed
        (raise (length m.objects) (length m'.objects) m.destroyed grows.longer sane)

  -- The copies of the elements stand behind all other objects, in their order.
  pub copies_of_lem :
      (ks : List ℕ) (m : Memory) (cs : List Campagne)
      → IsSane m
      → Shows m ks cs
      → (ps : List ℕ) × (m' : Memory) × (copies_of fresh ks m ≡ finished (ps, m'))
        × Grows m m'
        × Shows m' ps cs
        × IsRising (length m.objects) ps
        × All (λ p. p < length m'.objects) ps
        × (length ps ≡ length ks)
        × (length m'.objects ≡ length ks + length m.objects)
  unfolding copies_of
  copies_of_lem [] m [] sane shown = (
    [],
    m,
    refl,
    record {
      keeps = λ k c lives. lives;
      longer = omega arith;
      same_elements = refl;
      same_destroyed = refl;
      same_access = refl;
    },
    tt,
    tt,
    tt,
    refl,
    omega arith,
  )
  copies_of_lem (k ∷ ks) m (c ∷ cs) sane (lives, shown) =
      let (m1, e1, g1, new, long) = copy_of_lem k m c sane lives in
      let (ps, m2, e2, g2, shown2, rising, below, as_many, more) =
        copies_of_lem ks m1 cs (copies-IsSane m m1 g1 sane)
          (Shows-Keeps m m1 ks cs g1.keeps shown) in
      (
        length m.objects ∷ ps,
        m2,
        rw (e1, copies_of) (rw (e2, ◌>>=◌) refl),
        Grows-Grows m m1 m2 g1 g2,
        (g2.keeps (length m.objects) c new, shown2),
        (omega arith, rw long at rising),
        (omega (arith, g2.longer), below),
        omega arith,
        omega arith,
      )
  copies_of_lem [] m (c ∷ cs) sane shown = elim shown [ ]
  copies_of_lem (k ∷ ks) m [] sane shown = elim shown [ ]
