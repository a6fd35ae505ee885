-- ===== src/CampagnesManager/Memory/Ends.antt =====
-- What the ends of objects leave of the others.
use tabmo_codding_challenge.Common.{
  ℕ, suc, ◌+◌, ◌≤◌, ◌<◌, ◌≡◌, ◌≢◌, refl, sym, List, [], ◌∷◌, arith, length, All,
}
use tabmo_codding_challenge.Campagne.{Campagne}
use tabmo_codding_challenge.CampagnesManager.Memory.{
  finished, Memory, end_object, destroy, destroy_all,
}
use tabmo_codding_challenge.CampagnesManager.Memory.Elements.{Lives, Shows, IsRising, IsSane, raise}

-- The memory after the end of object `k`.
abbrev pub ended : ℕ → Memory → Memory
ended k m = record m { destroyed = k ∷ m.destroyed }

pub destroy_lem :
    (k : ℕ) (m : Memory) (c : Campagne) → Lives m k c → destroy k m ≡ finished (ended k m)
unfolding destroy
destroy_lem k m c (at, alive) = rw (at, destroy) (rw (alive, end_object) refl)

ended-Lives : (k i : ℕ) (m : Memory) (d : Campagne) → i ≢ k → Lives m i d → Lives (ended k m) i d
ended-Lives k i m d apart (at, alive) = (at, ground arith)

-- The objects at other places go on living.
pub ended-Shows :
    (k : ℕ) (ks : List ℕ) (m : Memory) (cs : List Campagne)
    → All (λ i. i ≢ k) ks
    → Shows m ks cs
    → Shows (ended k m) ks cs
ended-Shows k [] m [] apart shown = tt
ended-Shows k (i ∷ ks) m (c ∷ cs) (ne, apart) (lives, shown) =
    (ended-Lives k i m c ne lives, ended-Shows k ks m cs apart shown)
ended-Shows k [] m (c ∷ cs) apart shown = elim shown [ ]
ended-Shows k (i ∷ ks) m [] apart shown = elim shown [ ]

-- Places that rise from above `k` on are not `k`.
pub IsRising-apart : (k low : ℕ) (ks : List ℕ) → k < low → IsRising low ks → All (λ i. i ≢ k) ks
IsRising-apart k low [] h rising = tt
IsRising-apart k low (i ∷ ks) h (from, rising) =
    (omega arith, IsRising-apart k (suc i) ks (omega arith) rising)

-- What the ends of the objects at some places do to the memory.
pub record Ends (ks : List ℕ) (m m' : Memory) : Type 0 where
  pub same_objects : m'.objects ≡ m.objects
  pub same_elements : m'.elements ≡ m.elements
  pub same_access : m'.access ≡ m.access
  pub keeps_others : (k : ℕ) (c : Campagne) → All (λ i. i ≢ k) ks → Lives m k c → Lives m' k c
  pub sane : IsSane m'
  pub all_destroyed : length m'.destroyed ≡ length ks + length m.destroyed

pub destroy_all_lem :
    (low : ℕ) (ks : List ℕ) (m : Memory) (cs : List Campagne)
    → IsSane m
    → Shows m ks cs
    → IsRising low ks
    → All (λ k. k < length m.objects) ks
    → (m' : Memory) × (destroy_all ks m ≡ finished m') × Ends ks m m'
unfolding destroy_all
destroy_all_lem low [] m [] sane shown rising below = (
  m,
  refl,
  record {
    same_objects = refl;
    same_elements = refl;
    same_access = refl;
    keeps_others = λ k c apart lives. lives;
    sane = sane;
    all_destroyed = omega arith;
  },
)
destroy_all_lem low (k ∷ ks) m (c ∷ cs) sane (lives, shown) (from, rising) (b, below) =
    let apart = IsRising-apart k (suc k) ks (omega arith) rising in
    let (m', e, ends) =
      destroy_all_lem (suc k) ks (ended k m) cs (b, sane) (ended-Shows k ks m cs apart shown) rising
        below in
    (
      m',
      rw (destroy_lem k m c lives, destroy_all) e,
      record {
        same_objects = ends.same_objects;
        same_elements = ends.same_elements;
        same_access = ends.same_access;
        keeps_others = λ i d (ne, others) alive.
            ends.keeps_others i d others (ended-Lives k i m d (λ h. ne (sym h)) alive);
        sane = ends.sane;
        all_destroyed = omega (arith, ends.all_destroyed);
      },
    )
destroy_all_lem low [] m (c ∷ cs) sane shown rising below = elim shown [ ]
destroy_all_lem low (k ∷ ks) m [] sane shown rising below = elim shown [ ]

pub apart_of_below : (n k : ℕ) (ks : List ℕ) → n ≤ k → All (λ i. i < n) ks → All (λ i. i ≢ k) ks
apart_of_below n k [] h below = tt
apart_of_below n k (i ∷ ks) h (b, below) = (omega arith, apart_of_below n k ks h below)

-- Objects that stand behind those that are destroyed.
pub Ends-Shows :
    (n : ℕ) (ks ps : List ℕ) (m m' : Memory) (cs : List Campagne)
    → Ends ks m m'
    → All (λ k. k < n) ks
    → IsRising n ps
    → Shows m ps cs
    → Shows m' ps cs
Ends-Shows n ks [] m m' [] ends below rising shown = tt
Ends-Shows n ks (p ∷ ps) m m' (c ∷ cs) ends below (from, rising) (lives, shown) = (
  ends.keeps_others p c (apart_of_below n p ks from below) lives,
  Ends-Shows (suc p) ks ps m m' cs ends (raise n (suc p) ks (omega arith) below) rising shown,
)
Ends-Shows n ks [] m m' (c ∷ cs) ends below rising shown = elim shown [ ]
Ends-Shows n ks (p ∷ ps) m m' [] ends below rising shown = elim shown [ ]
