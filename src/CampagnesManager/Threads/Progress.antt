-- ===== src/CampagnesManager/Threads/Progress.antt =====
-- A thread that runs `SelectCampagne` comes to its end, whatever the other threads do.
use tabmo_codding_challenge.Common.{
  ℕ, ◌+◌, ◌-◌, ◌*◌, ◌≤◌, ◌<◌, ◌≡◌, ◌≢◌, inl, inr, refl, Bool, true, false, Option, some, none, List,
  [], ◌∷◌, ◌++◌, arith, length, get_elem?, Option-cases, Bool-cases, length-set, length-append,
  get_elem?-lt, get_elem?-set_self, get_elem?-set_ne, ◌==◌, count_if, if◌then◌else◌,
}
use tabmo_codding_challenge.Json.{Json}
use tabmo_codding_challenge.BidRequest.{BidRequest}
use tabmo_codding_challenge.Campagne.{Campagne, decremente_budget}
use tabmo_codding_challenge.CampagnesManager.Compatible.{is_compatible}
use tabmo_codding_challenge.CampagnesManager.Draw.{random_select}
use tabmo_codding_challenge.CampagnesManager.Threads.{
  Stage, scanning, summing, buying, found_nothing, sold, refused, undefined, scanned, drawn_from,
  bought, advance, Thread, World, start, turn, interleave,
}

module _ (j : Json) where
  -- The steps that are left at most, with `n` campaigns.
  abbrev pub left_steps : ℕ → Stage j → ℕ
  left_steps n (scanning r i found) = 2 * (n - i) + length found + 3
  left_steps n (summing r ps left bs) = length left + 2
  left_steps n (buying r k) = 1
  left_steps n found_nothing = 0
  left_steps n (sold v) = 0
  left_steps n refused = 0
  left_steps n undefined = 0

  -- A thread behind the purchase, or that has found nothing.
  abbrev pub IsDone : Stage j → Type 0
  IsDone (scanning r i found) = ⊥
  IsDone (summing r ps left bs) = ⊥
  IsDone (buying r k) = ⊥
  IsDone found_nothing = Unit {0}
  IsDone (sold v) = Unit {0}
  IsDone refused = Unit {0}
  IsDone undefined = Unit {0}

  left_steps-IsDone : (n : ℕ) (stage : Stage j) → left_steps n stage ≤ 0 → IsDone stage
  left_steps-IsDone n (scanning r i found) e = omega arith
  left_steps-IsDone n (summing r ps left bs) e = omega arith
  left_steps-IsDone n (buying r k) e = omega arith
  left_steps-IsDone n found_nothing e = tt
  left_steps-IsDone n (sold v) e = tt
  left_steps-IsDone n refused e = tt
  left_steps-IsDone n undefined e = tt

  scanned_steps :
      (n : ℕ) (r : BidRequest) (found : List ℕ)
      → left_steps n (scanned j r found) < length found + 3
  unfolding scanned
  scanned_steps n r [] = omega arith
  scanned_steps n r (p ∷ []) = omega arith
  scanned_steps n r (p ∷ q ∷ ps) = omega arith

  drawn_from_steps :
      (n : ℕ) (r : BidRequest) (ps : List ℕ) (o : Option ℕ) → left_steps n (drawn_from j r ps o) < 2
  unfolding drawn_from
  drawn_from_steps n r ps none = omega arith
  drawn_from_steps n r ps (some i) = elim (Option-cases (get_elem? ps i)) [
    | inl e ↦ rw (e, drawn_from) (omega arith)
    | inr (k, e) ↦ rw (e, drawn_from) (omega arith)
  ]

  bought_steps :
      (n : ℕ) (cs : List Campagne) (r : BidRequest) (k : ℕ) (o : Campagne × Bool)
      → (left_steps n (bought j cs r k o).1 ≡ 0) × (length (bought j cs r k o).0 ≡ length cs)
  unfolding bought
  bought_steps n cs r k (c, true) = (refl, length-set cs k c)
  bought_steps n cs r k (c, false) = (refl, length-set cs k c)

  -- A step uses one up, and keeps the number of campaigns.
  pub advance_steps :
      (drawn : ℕ) (cs : List Campagne) (stage : Stage j)
      → (left_steps (length cs) (advance j drawn cs stage).1 ≤ left_steps (length cs) stage - 1)
        × (length (advance j drawn cs stage).0 ≡ length cs)
  unfolding advance
  advance_steps drawn cs (scanning r i found) = elim (Option-cases (get_elem? cs i)) [
    | inl e ↦ rw (e, advance) (omega (arith, scanned_steps (length cs) r found), refl)
    | inr (c, e) ↦
        let within = get_elem?-lt cs i e in
        let grown : length (if is_compatible r c then found ++ (i ∷ []) else found)
            ≤ length found + 1 =
          ground (arith, length-append found (i ∷ [])) in
        rw (e, advance) (omega arith, refl)
  ]
  advance_steps drawn cs (summing r ps [] bs) =
      (omega (arith, drawn_from_steps (length cs) r ps (random_select drawn bs)), refl)
  advance_steps drawn cs (summing r ps (p ∷ left) bs) = elim (Option-cases (get_elem? cs p)) [
    | inl e ↦ rw (e, advance) (omega arith, refl)
    | inr (c, e) ↦ rw (e, advance) (omega arith, refl)
  ]
  advance_steps drawn cs (buying r k) = elim (Option-cases (get_elem? cs k)) [
    | inl e ↦ rw (e, advance) (omega arith, refl)
    | inr (c, e) ↦
        let (done, same) = bought_steps (length cs) cs r k (decremente_budget c) in
        rw (e, advance) (omega arith, same)
  ]
  advance_steps drawn cs found_nothing = (omega arith, refl)
  advance_steps drawn cs (sold v) = (omega arith, refl)
  advance_steps drawn cs refused = (omega arith, refl)
  advance_steps drawn cs undefined = (omega arith, refl)

  -- Thread `t` has at most `m` steps left.
  abbrev Within : ℕ → ℕ → BidRequest → World j → Type 0
  Within t m asked (cs, ts) =
      (stage : Stage j) × (get_elem? ts t ≡ some (asked, stage))
      × (left_steps (length cs) stage ≤ m)

  turn_own :
      (t drawn m : ℕ) (asked : BidRequest) (w : World j)
      → Within t m asked w
      → Within t (m - 1) asked (turn j (t, drawn) w)
  unfolding turn
  turn_own t drawn m asked (cs, ts) (stage, at, bound) =
      let (down, same) = advance_steps drawn cs stage in
      rw (at, turn)
        (
          (advance j drawn cs stage).1,
          get_elem?-set_self ts t _ (get_elem?-lt ts t at),
          rw same (omega arith),
        )

  turn_other :
      (t u drawn m : ℕ) (asked : BidRequest) (w : World j)
      → u ≢ t
      → Within t m asked w
      → Within t m asked (turn j (u, drawn) w)
  unfolding turn
  turn_other t u drawn m asked (cs, ts) other (stage, at, bound) =
      elim (Option-cases (get_elem? ts u)) [
        | inl e ↦ rw (e, turn) (stage, at, bound)
        | inr ((asked', stage'), e) ↦
            let (_, same) = advance_steps drawn cs stage' in
            rw (e, turn) (stage, rw (get_elem?-set_ne ts u t _ other) at, rw same bound)
      ]

  -- The steps of a schedule that are thread `t`'s.
  abbrev pub turns_of : ℕ → List (ℕ × ℕ) → ℕ
  turns_of t schedule = count_if (λ s. s.0 == t) schedule

  interleave-Within :
      (schedule : List (ℕ × ℕ)) (t m : ℕ) (asked : BidRequest) (w : World j)
      → Within t m asked w
      → Within t (m - turns_of t schedule) asked (interleave j schedule w)
  unfolding interleave
  interleave-Within [] t m asked w (stage, at, bound) = (stage, at, omega arith)
  interleave-Within ((u, drawn) ∷ schedule) t m asked w within = elim (Bool-cases (u == t)) [
    | inl own ↦
        let e : u ≡ t = ground arith in
        let (stage, at, bound) =
          interleave-Within schedule t (m - 1) asked (turn j (u, drawn) w)
            (rw e (turn_own t drawn m asked w within)) in
        (stage, at, rw (own, count_if) (omega arith))
    | inr other ↦
        let e : u ≢ t = ground arith in
        let (stage, at, bound) =
          interleave-Within schedule t m asked (turn j (u, drawn) w)
            (turn_other t u drawn m asked w e within) in
        (stage, at, rw (other, count_if) (omega arith))
  ]

  -- A thread that starts at the beginning of `SelectCampagne` and gets 2 * n + 3 turns of a schedule,
  -- with n campaigns, is done after the schedule, whatever turns the other threads get between.
  interleave_finishes :
      (schedule : List (ℕ × ℕ)) (t : ℕ) (asked : BidRequest) (cs : List Campagne)
      (ts : List (Thread j))
      → get_elem? ts t ≡ some (start j asked)
      → 2 * length cs + 3 ≤ turns_of t schedule
      → (stage : Stage j) × (get_elem? (interleave j schedule (cs, ts)).1 t ≡ some (asked, stage))
        × IsDone stage
  interleave_finishes schedule t asked cs ts at enough =
      let (stage, at', bound) =
        interleave-Within schedule t (2 * length cs + 3) asked (cs, ts)
          (scanning asked 0 [], at, omega arith) in
      (
        stage,
        at',
        left_steps-IsDone (length (interleave j schedule (cs, ts)).0) stage (omega arith),
      )
