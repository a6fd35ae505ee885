-- ===== src/RtbCtrl/Server/Progress.antt =====
-- A request of the server is answered, whatever the others do.
use tabmo_codding_challenge.Common.Result.{Result, Result-cases}
use tabmo_codding_challenge.Common.{
  ℕ, ◌+◌, ◌-◌, ◌*◌, ◌≤◌, ◌≡◌, ◌≢◌, inl, inr, refl, Option, some, none, List, [], ◌∷◌, arith, length,
  get_elem?, Option-cases, Bool-cases, All-get_elem?, All, get_elem?-lt, get_elem?-set_self,
  get_elem?-set_ne, ◌==◌, count_if, get_elem?-map,
}
use tabmo_codding_challenge.Json.{Json, IsJson}
use tabmo_codding_challenge.Campagne.{Campagne}
use tabmo_codding_challenge.Campagne.Budget.{IsSeller}
use tabmo_codding_challenge.CampagnesManager.Threads.{
  Stage, scanning, summing, buying, found_nothing, sold, refused, undefined, advance,
}
use tabmo_codding_challenge.CampagnesManager.Threads.Progress.{left_steps, advance_steps, turns_of}
use tabmo_codding_challenge.RtbCtrl.{Response, read_request, is_valid}
use tabmo_codding_challenge.RtbCtrl.Server.{
  Task, received, selecting, answered, admit, receive, answer_of, handle_step, serve_step,
  serve_together, Server, open_server,
}
use tabmo_codding_challenge.RtbCtrl.Server.Safety.{Seen, IsAnswer, SoundTask, serve_together_lem}

module _ (j : Json) where
  open j use {Value}

  -- The steps that are left at most, with `n` campaigns; a thread in undefined behaviour has none.
  abbrev task_steps : ℕ → Task j → ℕ
  task_steps n received = 2 * n + 5
  task_steps n (selecting undefined) = 0
  task_steps n (selecting (scanning r i found)) = left_steps j n (scanning r i found) + 1
  task_steps n (selecting (summing r ps left bs)) = left_steps j n (summing r ps left bs) + 1
  task_steps n (selecting (buying r k)) = 2
  task_steps n (selecting found_nothing) = 1
  task_steps n (selecting (sold v)) = 1
  task_steps n (selecting refused) = 1
  task_steps n (answered a) = 0

  task_steps-left_steps :
      (n : ℕ) (stage : Stage j) → task_steps n (selecting stage) ≤ left_steps j n stage + 1
  task_steps-left_steps n (scanning r i found) = omega arith
  task_steps-left_steps n (summing r ps left bs) = omega arith
  task_steps-left_steps n (buying r k) = omega arith
  task_steps-left_steps n found_nothing = omega arith
  task_steps-left_steps n (sold v) = omega arith
  task_steps-left_steps n refused = omega arith
  task_steps-left_steps n undefined = omega arith

  receive_steps : (n : ℕ) (payload : Option Value) → task_steps n (receive j payload) ≤ 2 * n + 4
  unfolding receive
  receive_steps n none = omega arith
  receive_steps n (some v) = elim (Result-cases (read_request j v)) [
    | inr (e, h) ↦ rw (h, admit) (omega arith)
    | inl (none, h) ↦ rw (h, admit) (omega arith)
    | inl (some r, h) ↦ elim (Bool-cases (is_valid r)) [
      | inr bad ↦ rw (h, admit) (rw bad (omega arith))
      | inl good ↦ rw (h, admit) (rw good (omega arith))
    ]
  ]

  -- A step uses one up, and keeps the number of campaigns.
  abbrev Shrinks : List Campagne → Task j → List Campagne × Task j → Type 0
  Shrinks cs task next =
      (task_steps (length cs) next.1 ≤ task_steps (length cs) task - 1)
      × (length next.0 ≡ length cs)

  handle_step_steps :
      (drawn : ℕ) (payload : Option Value) (cs : List Campagne) (task : Task j)
      → Shrinks cs task (handle_step j drawn payload cs task)
  unfolding handle_step answer_of
  handle_step_steps drawn payload cs received =
      (omega (arith, receive_steps (length cs) payload), refl)
  handle_step_steps drawn payload cs (answered a) = (omega arith, refl)
  handle_step_steps drawn payload cs (selecting found_nothing) = (omega arith, refl)
  handle_step_steps drawn payload cs (selecting (sold v)) = (omega arith, refl)
  handle_step_steps drawn payload cs (selecting refused) = (omega arith, refl)
  handle_step_steps drawn payload cs (selecting undefined) = unfold advance in (omega arith, refl)
  handle_step_steps drawn payload cs (selecting (scanning r i found)) =
      let (down, same) = advance_steps j drawn cs (scanning r i found) in
      (
        omega
            (arith, task_steps-left_steps (length cs) (advance j drawn cs (scanning r i found)).1),
        same,
      )
  handle_step_steps drawn payload cs (selecting (summing r ps left bs)) =
      let (down, same) = advance_steps j drawn cs (summing r ps left bs) in
      (
        omega (
          arith,
          task_steps-left_steps (length cs) (advance j drawn cs (summing r ps left bs)).1,
        ),
        same,
      )
  handle_step_steps drawn payload cs (selecting (buying r k)) =
      let (down, same) = advance_steps j drawn cs (buying r k) in
      (omega (arith, task_steps-left_steps (length cs) (advance j drawn cs (buying r k)).1), same)

  -- Request `t` has at most `m` steps left.
  abbrev Within : ℕ → ℕ → Option Value → Server j → Type 0
  Within t m payload (cs, ts) =
      (task : Task j) × (get_elem? ts t ≡ some (payload, task)) × (task_steps (length cs) task ≤ m)

  own_step :
      (t drawn m : ℕ) (payload : Option Value) (w : Server j)
      → Within t m payload w
      → Within t (m - 1) payload (serve_step j (t, drawn) w)
  unfolding serve_step
  own_step t drawn m payload (cs, ts) (task, at, bound) =
      let (down, same) = handle_step_steps drawn payload cs task in
      rw (at, serve_step)
        (
          (handle_step j drawn payload cs task).1,
          get_elem?-set_self ts t _ (get_elem?-lt ts t at),
          rw same (omega arith),
        )

  other_step :
      (t u drawn m : ℕ) (payload : Option Value) (w : Server j)
      → u ≢ t
      → Within t m payload w
      → Within t m payload (serve_step j (u, drawn) w)
  unfolding serve_step
  other_step t u drawn m payload (cs, ts) other (task, at, bound) =
      elim (Option-cases (get_elem? ts u)) [
        | inl e ↦ rw (e, serve_step) (task, at, bound)
        | inr ((payload', task'), e) ↦
            let (_, same) = handle_step_steps drawn payload' cs task' in
            rw (e, serve_step) (task, rw (get_elem?-set_ne ts u t _ other) at, rw same bound)
      ]

  serve_together-Within :
      (schedule : List (ℕ × ℕ)) (t m : ℕ) (payload : Option Value) (w : Server j)
      → Within t m payload w
      → Within t (m - turns_of j t schedule) payload (serve_together j schedule w)
  unfolding serve_together
  serve_together-Within [] t m payload w (task, at, bound) = (task, at, omega arith)
  serve_together-Within ((u, drawn) ∷ schedule) t m payload w within = elim (Bool-cases (u == t)) [
    | inl own ↦
        let e : u ≡ t = ground arith in
        let (task, at, bound) =
          serve_together-Within schedule t (m - 1) payload (serve_step j (u, drawn) w)
            (rw e (own_step t drawn m payload w within)) in
        (task, at, rw (own, count_if) (omega arith))
    | inr other ↦
        let e : u ≢ t = ground arith in
        let (task, at, bound) =
          serve_together-Within schedule t m payload (serve_step j (u, drawn) w)
            (other_step t u drawn m payload w e within) in
        (task, at, rw (other, count_if) (omega arith))
  ]

module _ (j : Json) (laws : IsJson j) (cs0 : List Campagne) where
  open j use {Value}

  over :
      (Past : Option Value × Task j → List Campagne → Type 0) (n : ℕ) (payload : Option Value)
      (task : Task j)
      → SoundTask j laws cs0 Past (payload, task)
      → task_steps j n task ≤ 0
      → (a : Result (Response j)) × (task ≡ answered a) × IsAnswer j laws cs0 Past payload a
  over Past n payload (answered a) sound few = (a, refl, sound)
  over Past n payload received sound few = absurd (omega arith)
  over Past n payload (selecting undefined) (_, _, sound) few = elim sound [ ]
  over Past n payload (selecting (scanning r i found)) sound few = absurd (omega arith)
  over Past n payload (selecting (summing r ps left bs)) sound few = absurd (omega arith)
  over Past n payload (selecting (buying r k)) sound few = absurd (omega arith)
  over Past n payload (selecting found_nothing) sound few = absurd (omega arith)
  over Past n payload (selecting (sold v)) sound few = absurd (omega arith)
  over Past n payload (selecting refused) sound few = absurd (omega arith)

  -- For up to 16777 campaigns with numbers or NaN, any payloads, each handled in a thread of its
  -- own, and any order of the steps: a request that gets 2 n + 5 turns, with n campaigns, is done,
  -- with a result that `IsAnswer` says for this run.
  pub request_is_answered :
      (payloads : List (Option Value)) (schedule : List (ℕ × ℕ)) (t : ℕ) (payload : Option Value)
      → length cs0 ≤ 16_777
      → All IsSeller cs0
      → get_elem? payloads t ≡ some payload
      → 2 * length cs0 + 5 ≤ turns_of j t schedule
      → (a : Result (Response j)) × (get_elem?
            (serve_together j schedule (open_server j cs0 payloads)).1
            t
          ≡ some (payload, answered a))
        × IsAnswer j laws cs0 (Seen j schedule (open_server j cs0 payloads)) payload a
  request_is_answered payloads schedule t payload few sellers at enough =
      let seen = Seen j schedule (open_server j cs0 payloads) in
      let w = serve_together j schedule (open_server j cs0 payloads) in
      let (task, here, bound) =
        serve_together-Within j schedule t (2 * length cs0 + 5) payload (open_server j cs0 payloads)
          (received, get_elem?-map (λ p. (p, received)) payloads t payload at, omega arith) in
      let (_, sound) = serve_together_lem j laws cs0 few payloads schedule sellers in
      let (a, e, allowed) =
        over seen (length w.0) payload task
          (All-get_elem? (SoundTask j laws cs0 seen) w.1 t sound here) (omega arith) in
      (a, rw (← e) here, allowed)
