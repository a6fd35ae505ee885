-- ===== src/CampagnesManager/Locks/Moves.antt =====
-- What one step of a thread does to the mutexes and the campaigns.
use native.Mathlib.Decide.{ℕ_discrete}
use tabmo_codding_challenge.Common.{
  get_elem?-none, get_elem?-ge, ℕ, ◌+◌, ◌≤◌, ◌<◌, ◌≡◌, ◌≢◌, inl, inr, refl, Bool, true, false,
  Option, none, some, List, [], ◌∷◌, arith, get_elem?, set, length, if◌then◌else◌, ◌==◌, bit,
  length-set, get_elem?-set_self, get_elem?-set_ne, Bool-cases, Option-cases,
}
use tabmo_codding_challenge.Json.{Json}
use tabmo_codding_challenge.BidRequest.{BidRequest}
use tabmo_codding_challenge.Campagne.{Campagne}
use tabmo_codding_challenge.CampagnesManager.Threads.{
  Stage, scanning, summing, buying, found_nothing, sold, refused, undefined, advance,
}
use tabmo_codding_challenge.CampagnesManager.Locks.{
  section_of, perform, Place, outside, locked, loaded, unlocking, is_locked, Shared, write, enter,
  move,
}

pub is_locked-set :
    (ms : List Bool) (k i : ℕ) (b : Bool)
    → k < length ms
    → is_locked (set ms k b) i ≡ (if k == i then b else is_locked ms i)
unfolding is_locked
is_locked-set ms k i b h = elim (ℕ_discrete k i) [
  | yes e ↦ rw (← e) (rw (get_elem?-set_self ms k b h, is_locked) (ground arith))
  | no ne ↦ rw (get_elem?-set_ne ms k i b ne, is_locked) (ground arith)
]

module _ (j : Json) where
  -- A thread that has locked the mutex of campaign `k`.
  abbrev pub holds : ℕ → Place j → Bool
  holds k (outside stage) = false
  holds k (locked i stage) = i == k
  holds k (loaded i c stage) = i == k
  holds k (unlocking i stage) = i == k

  abbrev pub thread_holds : ℕ → BidRequest × Place j → Bool
  thread_holds k (asked, place) = holds k place

  -- What a thread knows: the mutex is that of its section, and the campaign that it has read still
  -- stands in the list.
  abbrev pub IsFresh : List Campagne → Place j → Type 0
  IsFresh cs (outside stage) = Unit {0}
  IsFresh cs (locked k stage) = section_of j (length cs) stage ≡ some k
  IsFresh cs (loaded k c stage) =
      (section_of j (length cs) stage ≡ some k) × (get_elem? cs k ≡ some c)
  IsFresh cs (unlocking k stage) = k < length cs

  pub section_of-lt : (n k : ℕ) (stage : Stage j) → section_of j n stage ≡ some k → k < n
  unfolding section_of
  section_of-lt n k (scanning r i found) e = ground arith
  section_of-lt n k (summing r ps [] bs) e = ground arith
  section_of-lt n k (summing r ps (p ∷ left) bs) e = ground arith
  section_of-lt n k (buying r i) e = ground arith
  section_of-lt n k found_nothing e = ground arith
  section_of-lt n k (sold v) e = ground arith
  section_of-lt n k refused e = ground arith
  section_of-lt n k undefined e = ground arith

  -- What a thread does without a mutex changes no campaign.
  advance_outside :
      (drawn : ℕ) (cs : List Campagne) (stage : Stage j)
      → section_of j (length cs) stage ≡ none
      → (advance j drawn cs stage).0 ≡ cs
  unfolding section_of advance
  advance_outside drawn cs (scanning r i found) e =
      let out : length cs ≤ i = ground arith in rw (get_elem?-ge cs i out, advance)
  advance_outside drawn cs (summing r ps [] bs) e = refl
  advance_outside drawn cs (summing r ps (p ∷ left) bs) e =
      let out : length cs ≤ p = ground arith in rw (get_elem?-ge cs p out, advance)
  advance_outside drawn cs (buying r i) e =
      let out : length cs ≤ i = ground arith in rw (get_elem?-ge cs i out, advance)
  advance_outside drawn cs found_nothing e = refl
  advance_outside drawn cs (sold v) e = refl
  advance_outside drawn cs refused e = refl
  advance_outside drawn cs undefined e = refl

  -- What a step of a thread does to the mutexes, to itself and to the campaigns.
  pub record Moved (cs : List Campagne) (ms : List Bool) (place : Place j)
      (after : Shared × Place j) : Type 0 where
    pub kept_campaigns : length after.0.0 ≡ length cs
    pub kept_mutexes : length after.0.1 ≡ length ms
    pub balance :
        (k : ℕ)
        → bit (is_locked after.0.1 k) + bit (holds k place)
          ≡ bit (is_locked ms k) + bit (holds k after.1)
    pub fresh_after : IsFresh after.0.0 after.1
    pub others : (k : ℕ) → holds k place ≡ false → get_elem? after.0.0 k ≡ get_elem? cs k

  length-write :
      (cs : List Campagne) (k : ℕ) (o : Option Campagne) → length (write cs k o) ≡ length cs
  length-write cs k none = refl
  length-write cs k (some c) = length-set cs k c

  write_ne :
      (cs : List Campagne) (k i : ℕ) (o : Option Campagne)
      → k ≢ i
      → get_elem? (write cs k o) i ≡ get_elem? cs i
  write_ne cs k i none ne = refl
  write_ne cs k i (some c) ne = get_elem?-set_ne cs k i c ne

  module _ (drawn : ℕ) (cs : List Campagne) (ms : List Bool) (same : length ms ≡ length cs) where
    enter-Moved :
        (stage : Stage j) (o : Option ℕ)
        → section_of j (length cs) stage ≡ o
        → Moved cs ms (outside stage) (enter j drawn (cs, ms) stage o)
    unfolding enter
    enter-Moved stage none e =
        let unchanged = advance_outside drawn cs stage e in
        record {
          kept_campaigns = rw unchanged;
          kept_mutexes = refl;
          balance = λ k. refl;
          fresh_after = tt;
          others = λ k _. rw unchanged;
        }
    enter-Moved stage (some k) e = elim (Bool-cases (is_locked ms k)) [
      | inl taken ↦
          rw (taken, enter)
            (record {
              kept_campaigns = refl;
              kept_mutexes = refl;
              balance = λ i. refl;
              fresh_after = tt;
              others = λ i _. refl;
            })
      | inr free ↦
          rw (free, enter)
            (record {
              kept_campaigns = refl;
              kept_mutexes = length-set ms k true;
              balance = λ i.
                  let here = section_of-lt (length cs) k stage e in
                  ground (arith, is_locked-set ms k i true);
              fresh_after = e;
              others = λ i _. refl;
            })
    ]

    pub move-Moved :
        (place : Place j)
        → IsFresh cs place
        → ((k : ℕ) → holds k place ≡ true → is_locked ms k ≡ true)
        → Moved cs ms place (move j drawn (cs, ms) place)
    unfolding move
    move-Moved (outside stage) f own = enter-Moved stage (section_of j (length cs) stage) refl
    move-Moved (locked k stage) f own = elim (Option-cases (get_elem? cs k)) [
      | inl e ↦ absurd (omega (arith, get_elem?-none cs k e, section_of-lt (length cs) k stage f))
      | inr (c, e) ↦
          rw (e, move)
            (record {
              kept_campaigns = refl;
              kept_mutexes = refl;
              balance = λ i. refl;
              fresh_after = (f, e);
              others = λ i _. refl;
            })
    ]
    move-Moved (loaded k c stage) f own = record {
      kept_campaigns = length-write cs k (perform j c stage).0;
      kept_mutexes = refl;
      balance = λ i. refl;
      fresh_after =
          let here = section_of-lt (length cs) k stage f.0 in
          omega (arith, length-write cs k (perform j c stage).0);
      others = λ i free. write_ne cs k i (perform j c stage).0 (ground arith);
    }
    move-Moved (unlocking k stage) f own = record {
      kept_campaigns = refl;
      kept_mutexes = length-set ms k false;
      balance = λ i. ground (arith, own i, is_locked-set ms k i false);
      fresh_after = tt;
      others = λ i _. refl;
    }
