-- ===== src/CampagnesManager/Locks/Refinement.antt =====
-- The steps with mutexes implement those of `CampagnesManager/Threads`, where a section is one step.
use mathlib.Core.Path.{ap₂}
use tabmo_codding_challenge.Common.{
  ℕ, ◌≡◌, ◌⊎◌, inl, inr, refl, sym, ap, ◌∙◌, Bool, true, false, Option, none, some, List, [], ◌∷◌,
  arith, get_elem?, set, length, map, All-get_elem?, map-set, get_elem?-map, set_same, Bool-cases,
  Option-cases,
}
use tabmo_codding_challenge.Json.{Json}
use tabmo_codding_challenge.BidRequest.{BidRequest}
use tabmo_codding_challenge.Campagne.{Campagne, decremente_budget}
use tabmo_codding_challenge.CampagnesManager.Threads.{
  Stage, scanning, summing, buying, found_nothing, sold, refused, undefined, advance, bought,
  Thread, World, start, turn, interleave,
}
use tabmo_codding_challenge.CampagnesManager.Locks.{
  section_of, perform, settle, Place, outside, locked, loaded, unlocking, System, is_locked, Shared,
  write, enter, move, step, run, begin,
}
use tabmo_codding_challenge.CampagnesManager.Locks.Moves.{IsFresh}
use tabmo_codding_challenge.CampagnesManager.Locks.Exclusion.{Inv, step-Inv, begin-Inv}

module _ (j : Json) where
  -- A section counts as done when its work is, which is before the mutex is given back.
  abbrev pub stage_of : Place j → Stage j
  stage_of (outside stage) = stage
  stage_of (locked k stage) = stage
  stage_of (loaded k c stage) = stage
  stage_of (unlocking k stage) = stage

  abbrev thread_of : BidRequest × Place j → Thread j
  thread_of (asked, place) = (asked, stage_of place)

  abbrev pub world_of : System j → World j
  world_of s = (s.campaigns, map thread_of s.threads)

  decremente_budget_keeps :
      (c : Campagne) → (decremente_budget c).1 ≡ false → (decremente_budget c).0 ≡ c
  unfolding decremente_budget
  decremente_budget_keeps c h = ground arith

  settle_lem :
      (cs : List Campagne) (r : BidRequest) (k : ℕ) (c : Campagne) (o : Campagne × Bool)
      → get_elem? cs k ≡ some c
      → (o.1 ≡ false → o.0 ≡ c)
      → ◌≡◌ {A = List Campagne × Stage j}
          (write cs k (settle j r o).0, (settle j r o).1)
          (bought j cs r k o)
  unfolding settle bought
  settle_lem cs r k c (d, true) at keep = refl
  settle_lem cs r k c (d, false) at keep =
      ap (λ t. (t, refused)) (sym (rw (keep refl) (set_same cs k c at)))

  -- The work of a section on the campaign that stands in the list is a step without mutexes.
  pub perform_lem :
      (drawn : ℕ) (cs : List Campagne) (k : ℕ) (c : Campagne) (stage : Stage j)
      → section_of j (length cs) stage ≡ some k
      → get_elem? cs k ≡ some c
      → ◌≡◌ {A = List Campagne × Stage j}
          (write cs k (perform j c stage).0, (perform j c stage).1)
          (advance j drawn cs stage)
  unfolding section_of perform advance
  perform_lem drawn cs k c (scanning r i found) e at =
      let same : i ≡ k = ground arith in
      let at' : get_elem? cs i ≡ some c = rw same at in rw (at', advance)
  perform_lem drawn cs k c (summing r ps [] bs) e at = cc
  perform_lem drawn cs k c (summing r ps (p ∷ left) bs) e at =
      let same : p ≡ k = ground arith in
      let at' : get_elem? cs p ≡ some c = rw same at in rw (at', advance)
  perform_lem drawn cs k c (buying r i) e at =
      let same : i ≡ k = ground arith in
      let at' : get_elem? cs i ≡ some c = rw same at in
      rw (← same, at', advance)
        (settle_lem cs r i c (decremente_budget c) at' (decremente_budget_keeps c))
  perform_lem drawn cs k c found_nothing e at = cc
  perform_lem drawn cs k c (sold v) e at = cc
  perform_lem drawn cs k c refused e at = cc
  perform_lem drawn cs k c undefined e at = cc

  abbrev Refines : ℕ → List Campagne → Place j → Shared × Place j → Type 0
  Refines drawn cs place ((cs', ms'), place') =
      ((cs' ≡ cs) × (stage_of place' ≡ stage_of place))
      ⊎ (◌≡◌ {A = List Campagne × Stage j} (cs', stage_of place')
          (advance j drawn cs (stage_of place)))

  enter-Refines :
      (drawn : ℕ) (cs : List Campagne) (ms : List Bool) (stage : Stage j) (o : Option ℕ)
      → Refines drawn cs (outside stage) (enter j drawn (cs, ms) stage o)
  unfolding enter
  enter-Refines drawn cs ms stage none = inr refl
  enter-Refines drawn cs ms stage (some k) = elim (Bool-cases (is_locked ms k)) [
    | inl taken ↦ rw (taken, enter) (inl (refl, refl))
    | inr free ↦ rw (free, enter) (inl (refl, refl))
  ]

  pub move-Refines :
      (drawn : ℕ) (cs : List Campagne) (ms : List Bool) (place : Place j)
      → IsFresh j cs place
      → Refines drawn cs place (move j drawn (cs, ms) place)
  unfolding move
  move-Refines drawn cs ms (outside stage) f =
      enter-Refines drawn cs ms stage (section_of j (length cs) stage)
  move-Refines drawn cs ms (locked k stage) f = elim (Option-cases (get_elem? cs k)) [
    | inl e ↦ rw (e, move) (inl (refl, refl))
    | inr (c, e) ↦ rw (e, move) (inl (refl, refl))
  ]
  move-Refines drawn cs ms (loaded k c stage) (e, at) = inr (perform_lem drawn cs k c stage e at)
  move-Refines drawn cs ms (unlocking k stage) f = inl (refl, refl)

  -- A step with mutexes is a step without them, or none.
  step-Refines :
      (t drawn : ℕ) (s : System j)
      → Inv j s
      → (world_of (step j (t, drawn) s) ≡ world_of s)
        ⊎ (world_of (step j (t, drawn) s) ≡ turn j (t, drawn) (world_of s))
  unfolding step turn
  step-Refines t drawn s inv = elim (Option-cases (get_elem? s.threads t)) [
    | inl e ↦ inl (rw (e, step))
    | inr ((asked, place), e) ↦
        let f = All-get_elem? (λ x. IsFresh j s.campaigns x.1) s.threads t inv.fresh e in
        let e' = get_elem?-map thread_of s.threads t (asked, place) e in
        elim (move-Refines drawn s.campaigns s.mutexes place f) [
          | inl (same, stays) ↦ inl (
              rw (e, step)
                (ap₂ (λ a b. (a, b)) same
                  (map-set thread_of s.threads t
                      (asked, (move j drawn (s.campaigns, s.mutexes) place).1)
                    ∙ rw stays (set_same (map thread_of s.threads) t (asked, stage_of place) e'))))
          | inr moved ↦ inr (
              rw (e, step)
                (rw (e', turn)
                  (ap₂ (λ a b. (a, b)) (ap (λ x. x.0) moved)
                    (map-set thread_of s.threads t
                        (asked, (move j drawn (s.campaigns, s.mutexes) place).1)
                      ∙ ap (λ x. set (map thread_of s.threads) t (asked, x.1)) moved))))
        ]
  ]

  -- Any run with mutexes is a run without them, in some order of its steps.
  run-Refines :
      (schedule : List (ℕ × ℕ)) (s : System j)
      → Inv j s
      → (coarse : List (ℕ × ℕ)) × (world_of (run j schedule s) ≡ interleave j coarse (world_of s))
  unfolding run interleave
  run-Refines [] s inv = ([], refl)
  run-Refines ((t, drawn) ∷ schedule) s inv =
      let (coarse, e) = run-Refines schedule (step j (t, drawn) s) (step-Inv j t drawn s inv) in
      elim (step-Refines t drawn s inv) [
        | inl stutter ↦ (coarse, e ∙ ap (interleave j coarse) stutter)
        | inr moved ↦ ((t, drawn) ∷ coarse, e ∙ ap (interleave j coarse) moved)
      ]

  begin_world :
      (cs : List Campagne) (requests : List BidRequest)
      → map thread_of (begin j cs requests).threads ≡ map (start j) requests
  begin_world cs [] = refl
  begin_world cs (r ∷ requests) = ap (λ t. start j r ∷ t) (begin_world cs requests)

  -- From the start on, whatever the order of the steps with mutexes: the campaigns and the stages of the
  -- threads are those that some order of whole sections leads to.
  pub run_interleaves :
      (cs : List Campagne) (requests : List BidRequest) (schedule : List (ℕ × ℕ))
      → (coarse : List (ℕ × ℕ)) × (world_of (run j schedule (begin j cs requests))
          ≡ interleave j coarse (cs, map (start j) requests))
  run_interleaves cs requests schedule =
      let (coarse, e) = run-Refines schedule (begin j cs requests) (begin-Inv j cs requests) in
      (coarse, e ∙ ap (λ x. interleave j coarse (cs, x)) (begin_world cs requests))
