-- ===== src/RtbCtrl/Server/Locks/Work.antt =====
-- How many steps with mutexes a request has left, and when a step of it changes nothing.
use tabmo_codding_challenge.Common.Result.{Result, Result-cases}
use tabmo_codding_challenge.Common.{
  ℕ, ◌+◌, ◌-◌, ◌*◌, ◌≤◌, ◌<◌, ◌≡◌, ◌⊎◌, inl, inr, refl, ap, ◌∙◌, Bool, true, Option, none, some,
  List, arith, get_elem?, get_elem?-none, length, Bool-cases, Option-cases,
}
use tabmo_codding_challenge.Json.{Json}
use tabmo_codding_challenge.Campagne.{Campagne}
use tabmo_codding_challenge.CampagnesManager.Threads.{
  Stage, scanning, summing, buying, found_nothing, sold, refused, undefined, advance,
}
use tabmo_codding_challenge.CampagnesManager.Threads.Progress.{left_steps, advance_steps}
use tabmo_codding_challenge.CampagnesManager.Locks.{
  section_of, outside, locked, loaded, unlocking, is_locked, Shared, enter, move,
}
use tabmo_codding_challenge.CampagnesManager.Locks.Moves.{IsFresh, section_of-lt}
use tabmo_codding_challenge.CampagnesManager.Locks.Refinement.{perform_lem}
use tabmo_codding_challenge.RtbCtrl.{Response, read_request, is_valid}
use tabmo_codding_challenge.RtbCtrl.Server.{admit, receive, answer_of}
use tabmo_codding_challenge.RtbCtrl.Server.Locks.{
  Handler, arrived, inside, replied, handler_of, inside_of, handle_move,
}
use tabmo_codding_challenge.RtbCtrl.Server.Locks.Invariant.{place_of}

module _ (j : Json) where
  open j use {Value}

  -- Outside of a section: four steps for each section that is left, and the answer.
  abbrev stage_work : ℕ → Stage j → ℕ
  stage_work n (scanning r i found) = 4 * left_steps j n (scanning r i found) + 1
  stage_work n (summing r ps left bs) = 4 * left_steps j n (summing r ps left bs) + 1
  stage_work n (buying r k) = 5
  stage_work n found_nothing = 1
  stage_work n (sold v) = 1
  stage_work n refused = 1
  stage_work n undefined = 0

  abbrev pub work_left : ℕ → Handler j → ℕ
  work_left n arrived = 8 * n + 14
  work_left n (inside (outside stage)) = stage_work n stage
  work_left n (inside (locked k stage)) = 4 * left_steps j n stage
  work_left n (inside (loaded k c stage)) = 4 * left_steps j n stage - 1
  work_left n (inside (unlocking k stage)) = 4 * left_steps j n stage + 2
  work_left n (replied a) = 0

  stage_work-le : (n : ℕ) (stage : Stage j) → stage_work n stage ≤ 4 * left_steps j n stage + 1
  stage_work-le n (scanning r i found) = omega arith
  stage_work-le n (summing r ps left bs) = omega arith
  stage_work-le n (buying r k) = omega arith
  stage_work-le n found_nothing = omega arith
  stage_work-le n (sold v) = omega arith
  stage_work-le n refused = omega arith
  stage_work-le n undefined = omega arith

  pub section_work :
      (n k : ℕ) (stage : Stage j)
      → section_of j n stage ≡ some k
      → (1 ≤ left_steps j n stage) × (stage_work n stage ≡ 4 * left_steps j n stage + 1)
  unfolding section_of
  section_work n k (scanning r i found) e = (omega arith, omega arith)
  section_work n k (summing r ps left bs) e = (omega arith, omega arith)
  section_work n k (buying r i) e = (omega arith, omega arith)
  section_work n k found_nothing e = cc
  section_work n k (sold v) e = cc
  section_work n k refused e = cc
  section_work n k undefined e = cc

  handler_of_work :
      (n : ℕ) (payload : Option Value) → work_left n (handler_of j (receive j payload)) < 8 * n + 14
  unfolding handler_of receive
  handler_of_work n none = omega arith
  handler_of_work n (some v) = elim (Result-cases (read_request j v)) [
    | inr (e, h) ↦ rw (h, admit) (omega arith)
    | inl (none, h) ↦ rw (h, admit) (omega arith)
    | inl (some r, h) ↦ elim (Bool-cases (is_valid r)) [
      | inr bad ↦ rw (h, admit) (rw bad (omega arith))
      | inl good ↦ rw (h, admit) (rw good (omega arith))
    ]
  ]

  -- A request of which a step changes nothing: it has its answer, is in undefined behaviour, or waits for
  -- a mutex.
  abbrev pub IsIdle : List Campagne → List Bool → Handler j → Type 0
  IsIdle cs ms arrived = ⊥
  IsIdle cs ms (inside (outside stage)) =
      (stage ≡ undefined)
      ⊎ ((k : ℕ) × (section_of j (length cs) stage ≡ some k) × (is_locked ms k ≡ true))
  IsIdle cs ms (inside (locked k stage)) = ⊥
  IsIdle cs ms (inside (loaded k c stage)) = ⊥
  IsIdle cs ms (inside (unlocking k stage)) = ⊥
  IsIdle cs ms (replied a) = Unit {0}

  -- A step leaves less work, or the request is idle and nothing changes.
  abbrev Works : List Campagne → List Bool → Handler j → Shared × Handler j → Type 0
  Works cs ms handler after =
      ((length after.0.0 ≡ length cs)
        × (work_left (length cs) after.1 < work_left (length cs) handler))
      ⊎ ((after ≡ ((cs, ms), handler)) × IsIdle cs ms handler)

  module _ (drawn : ℕ) (payload : Option Value) (cs : List Campagne) (ms : List Bool) where
    advance-Works :
        (stage : Stage j)
        → section_of j (length cs) stage ≡ none
        → answer_of j stage ≡ none
        → Works cs ms (inside (outside stage)) (
            inside_of j
              ((((advance j drawn cs stage).0), ms), outside (advance j drawn cs stage).1))
    unfolding answer_of
    advance-Works (scanning r i found) e no_answer =
        let (down, same) = advance_steps j drawn cs (scanning r i found) in
        inl (
          same,
          omega
              (arith, down, stage_work-le (length cs) (advance j drawn cs (scanning r i found)).1),
        )
    advance-Works (summing r ps left bs) e no_answer =
        let (down, same) = advance_steps j drawn cs (summing r ps left bs) in
        inl (
          same,
          omega (
            arith,
            down,
            stage_work-le (length cs) (advance j drawn cs (summing r ps left bs)).1,
          ),
        )
    advance-Works (buying r k) e no_answer =
        let (down, same) = advance_steps j drawn cs (buying r k) in
        inl
          (same, omega (arith, down, stage_work-le (length cs) (advance j drawn cs (buying r k)).1))
    advance-Works found_nothing e no_answer = cc
    advance-Works (sold v) e no_answer = cc
    advance-Works refused e no_answer = cc
    advance-Works undefined e no_answer = unfold advance in inr (refl, inl refl)

    -- The answer, when there is one, is handed over in one step.
    answered_work :
        (n : ℕ) (stage : Stage j) (a : Result (Response j))
        → answer_of j stage ≡ some a
        → stage_work n stage ≡ 1
    unfolding answer_of
    answered_work n (scanning r i found) a e = cc
    answered_work n (summing r ps left bs) a e = cc
    answered_work n (buying r k) a e = cc
    answered_work n found_nothing a e = refl
    answered_work n (sold v) a e = refl
    answered_work n refused a e = refl
    answered_work n undefined a e = cc

    enter-Works :
        (stage : Stage j) (o : Option ℕ)
        → section_of j (length cs) stage ≡ o
        → answer_of j stage ≡ none
        → Works cs ms (inside (outside stage)) (inside_of j (enter j drawn (cs, ms) stage o))
    unfolding enter
    enter-Works stage none e no_answer = advance-Works stage e no_answer
    enter-Works stage (some k) e no_answer =
        let (some_left, all) = section_work (length cs) k stage e in
        elim (Bool-cases (is_locked ms k)) [
          | inl taken ↦ rw (taken, enter) (inr (refl, inr (k, e, taken)))
          | inr free ↦ rw (free, enter) (inl (refl, omega arith))
        ]

    loaded-Works :
        (k : ℕ) (c : Campagne) (stage : Stage j)
        → IsFresh j cs (loaded k c stage)
        → Works cs ms
            (inside (loaded k c stage))
            (inside_of j (move j drawn (cs, ms) (loaded k c stage)))
    unfolding move
    loaded-Works k c stage (e, at) =
        let (some_left, all) = section_work (length cs) k stage e in
        let (down, same) = advance_steps j drawn cs stage in
        let moved = perform_lem j drawn cs k c stage e at in
        inl (
          ap (λ x. length x.0) moved ∙ same,
          omega (arith, down, ap (λ x. left_steps j (length cs) x.1) moved),
        )

    -- A step leaves less to do, or the request is idle and nothing changes.
    pub handle_move-Works :
        (handler : Handler j)
        → IsFresh j cs (place_of j handler)
        → Works cs ms handler (handle_move j drawn payload (cs, ms) handler)
    unfolding handle_move move
    handle_move-Works arrived fresh = inl (refl, handler_of_work (length cs) payload)
    handle_move-Works (inside (outside stage)) fresh = elim (Option-cases (answer_of j stage)) [
      | inl e ↦ rw (e, handle_move) (enter-Works stage (section_of j (length cs) stage) refl e)
      | inr (a, e) ↦
          rw (e, handle_move) (inl (refl, omega (arith, answered_work (length cs) stage a e)))
    ]
    handle_move-Works (inside (locked k stage)) fresh = elim (Option-cases (get_elem? cs k)) [
      | inl e ↦
          absurd (omega (arith, get_elem?-none cs k e, section_of-lt j (length cs) k stage fresh))
      | inr (c, e) ↦
          let (some_left, all) = section_work (length cs) k stage fresh in
          rw (e, move) (inl (refl, omega arith))
    ]
    handle_move-Works (inside (loaded k c stage)) fresh = loaded-Works k c stage fresh
    handle_move-Works (inside (unlocking k stage)) fresh =
        inl (refl, omega (arith, stage_work-le (length cs) stage))
    handle_move-Works (replied a) fresh = inr (refl, tt)
