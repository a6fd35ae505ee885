-- ===== src/RtbCtrl/Server/Locks/Refinement.antt =====
-- The server with mutexes implements the server of `RtbCtrl/Server`, where a section is one step.
use mathlib.Core.Path.{ap₂}
use tabmo_codding_challenge.Common.{
  ℕ, ◌≤◌, ◌≡◌, ◌⊎◌, inl, inr, refl, sym, ap, ◌∙◌, subst, Bool, Option, none, some, List, [], ◌∷◌,
  ◌++◌, get_elem?, set, set_same, length, map, map-set, get_elem?-map, All, All-get_elem?,
  Option-cases,
}
use tabmo_codding_challenge.Json.{Json, IsJson}
use tabmo_codding_challenge.Campagne.{Campagne}
use tabmo_codding_challenge.Campagne.Budget.{IsSeller}
use tabmo_codding_challenge.CampagnesManager.Threads.{
  Stage, scanning, summing, buying, found_nothing, sold, refused, undefined,
}
use tabmo_codding_challenge.CampagnesManager.Locks.{
  section_of, Place, outside, locked, loaded, unlocking, Shared, move,
}
use tabmo_codding_challenge.CampagnesManager.Locks.Moves.{IsFresh}
use tabmo_codding_challenge.CampagnesManager.Locks.Refinement.{stage_of, move-Refines}
use tabmo_codding_challenge.RtbCtrl.Server.{
  Task, received, selecting, answered, receive, answer_of, handle_step, serve_step, serve_together,
  Server, open_server,
}
use tabmo_codding_challenge.RtbCtrl.Server.Safety.{IsServed, serve_step-IsServed, opened-IsServed}
use tabmo_codding_challenge.RtbCtrl.Server.Locks.{
  Handler, arrived, inside, replied, handler_of, inside_of, handle_move, Service, work, work_all,
  opened,
}
use tabmo_codding_challenge.RtbCtrl.Server.Locks.Invariant.{
  place_of, thread_view, Guarded, work-Guarded, opened-Guarded,
}

module _ (j : Json) where
  open j use {Value}

  abbrev task_of : Handler j → Task j
  task_of arrived = received
  task_of (inside place) = selecting (stage_of j place)
  task_of (replied a) = answered a

  abbrev pub entry_of : Option Value × Handler j → Option Value × Task j
  entry_of (payload, handler) = (payload, task_of handler)

  abbrev pub server_of : Service j → Server j
  server_of s = (s.campaigns, map entry_of s.requests)

  task_of-handler_of : (task : Task j) → task_of (handler_of j task) ≡ task
  unfolding handler_of
  task_of-handler_of received = refl
  task_of-handler_of (selecting stage) = refl
  task_of-handler_of (answered a) = refl

  -- Who is in a section has no answer yet.
  answer_of-section_of :
      (n k : ℕ) (stage : Stage j) → section_of j n stage ≡ some k → answer_of j stage ≡ none
  unfolding section_of answer_of
  answer_of-section_of n k (scanning r i found) e = refl
  answer_of-section_of n k (summing r ps left bs) e = refl
  answer_of-section_of n k (buying r i) e = refl
  answer_of-section_of n k found_nothing e = cc
  answer_of-section_of n k (sold v) e = cc
  answer_of-section_of n k refused e = cc
  answer_of-section_of n k undefined e = cc

  module _ (drawn : ℕ) (payload : Option Value) (cs : List Campagne) (ms : List Bool) where
    -- A step of a request is one without mutexes, or none.
    abbrev Follows : Handler j → Shared × Handler j → Type 0
    Follows handler ((cs', ms'), handler') =
        ((cs' ≡ cs) × (task_of handler' ≡ task_of handler))
        ⊎ (◌≡◌ {A = List Campagne × Task j} (cs', task_of handler')
            (handle_step j drawn payload cs (task_of handler)))

    inside-Follows :
        (place : Place j)
        → IsFresh j cs place
        → answer_of j (stage_of j place) ≡ none
        → Follows (inside place) (inside_of j (move j drawn (cs, ms) place))
    unfolding handle_step
    inside-Follows place fresh no_answer = elim (move-Refines j drawn cs ms place fresh) [
      | inl (same, stays) ↦ inl (same, ap (λ stage. selecting stage) stays)
      | inr moved ↦ inr (rw (no_answer, handle_step) (ap (λ x. (x.0, selecting x.1)) moved))
    ]

    handle_move-Follows :
        (handler : Handler j)
        → IsFresh j cs (place_of j handler)
        → Follows handler (handle_move j drawn payload (cs, ms) handler)
    unfolding handle_move handle_step
    handle_move-Follows arrived fresh =
        inr (ap (λ task. (cs, task)) (task_of-handler_of (receive j payload)))
    handle_move-Follows (inside (outside stage)) fresh = elim (Option-cases (answer_of j stage)) [
      | inl e ↦ rw (e, handle_move) (inside-Follows (outside stage) fresh e)
      | inr (a, e) ↦ rw (e, handle_move) (inr (rw (e, handle_step) refl))
    ]
    handle_move-Follows (inside (locked k stage)) fresh =
        inside-Follows (locked k stage) fresh (answer_of-section_of (length cs) k stage fresh)
    handle_move-Follows (inside (loaded k c stage)) fresh =
        inside-Follows (loaded k c stage) fresh (answer_of-section_of (length cs) k stage fresh.0)
    handle_move-Follows (inside (unlocking k stage)) fresh = unfold move in inl (refl, refl)
    handle_move-Follows (replied a) fresh = inl (refl, refl)

  work_lem :
      (t drawn : ℕ) (s : Service j)
      → Guarded j s
      → (server_of (work j (t, drawn) s) ≡ server_of s)
        ⊎ (server_of (work j (t, drawn) s) ≡ serve_step j (t, drawn) (server_of s))
  unfolding work serve_step
  work_lem t drawn s guarded = elim (Option-cases (get_elem? s.requests t)) [
    | inl e ↦ inl (rw (e, work))
    | inr ((payload, handler), e) ↦
        let at = get_elem?-map (thread_view j) s.requests t (payload, handler) e in
        let fresh =
          All-get_elem? (λ x. IsFresh j s.campaigns x.1) (map (thread_view j) s.requests) t
            guarded.fresh at in
        let entry = get_elem?-map entry_of s.requests t (payload, handler) e in
        let after = handle_move j drawn payload (s.campaigns, s.mutexes) handler in
        elim (handle_move-Follows drawn payload s.campaigns s.mutexes handler fresh) [
          | inl (same, stays) ↦ inl (
              rw (e, work)
                (ap₂ (λ a b. (a, b)) same
                  (map-set entry_of s.requests t (payload, after.1)
                    ∙ rw stays
                        (set_same (map entry_of s.requests) t (payload, task_of handler) entry))))
          | inr moved ↦ inr (
              rw (e, work)
                (rw (entry, serve_step)
                  (ap₂ (λ a b. (a, b)) (ap (λ x. x.0) moved)
                    (map-set entry_of s.requests t (payload, after.1)
                      ∙ ap (λ x. set (map entry_of s.requests) t (payload, x.1)) moved))))
        ]
  ]

  work_all_lem :
      (schedule : List (ℕ × ℕ)) (s : Service j)
      → Guarded j s
      → (coarse : List (ℕ × ℕ)) × (server_of (work_all j schedule s)
          ≡ serve_together j coarse (server_of s))
  unfolding work_all serve_together
  work_all_lem [] s guarded = ([], refl)
  work_all_lem ((t, drawn) ∷ schedule) s guarded =
      let (coarse, e) =
        work_all_lem schedule (work j (t, drawn) s) (work-Guarded j t drawn s guarded) in
      elim (work_lem t drawn s guarded) [
        | inl stutter ↦ (coarse, e ∙ ap (serve_together j coarse) stutter)
        | inr moved ↦ ((t, drawn) ∷ coarse, e ∙ ap (serve_together j coarse) moved)
      ]

  opened_server :
      (cs : List Campagne) (payloads : List (Option Value))
      → server_of (opened j cs payloads) ≡ open_server j cs payloads
  opened_server cs [] = refl
  opened_server cs (payload ∷ payloads) =
      ap (λ x. (cs, (payload, received) ∷ x.1)) (opened_server cs payloads)

  -- From the start on, whatever the order of the steps with mutexes: the campaigns and where each request
  -- stands are those that some order of whole sections leads to.
  pub work_all_refines :
      (cs : List Campagne) (payloads : List (Option Value)) (schedule : List (ℕ × ℕ))
      → (coarse : List (ℕ × ℕ)) × (server_of (work_all j schedule (opened j cs payloads))
          ≡ serve_together j coarse (open_server j cs payloads))
  work_all_refines cs payloads schedule =
      let (coarse, e) =
        work_all_lem schedule (opened j cs payloads) (opened-Guarded j cs payloads) in
      (coarse, e ∙ ap (serve_together j coarse) (opened_server cs payloads))

  -- In the run of the schedule there is a moment when some request is `x`, but for its mutex, and the
  -- campaigns are `ds`.
  abbrev pub Observed : List (ℕ × ℕ) → Service j → Option Value × Task j → List Campagne → Type 0
  Observed schedule s x ds =
      (before : List (ℕ × ℕ)) × (after : List (ℕ × ℕ)) × (t : ℕ) × (schedule ≡ before ++ after)
      × ((work_all j before s).campaigns ≡ ds)
      × (get_elem? (server_of (work_all j before s)).1 t ≡ some x)

  module _ (laws : IsJson j) (cs0 : List Campagne) (few : length cs0 ≤ 16_777)
      (Past : Option Value × Task j → List Campagne → Type 0) where
    work-IsServed :
        (t drawn : ℕ) (s : Service j)
        → Guarded j s
        → ((x : Option Value × Task j) → get_elem? (server_of s).1 t ≡ some x → Past x s.campaigns)
        → IsServed j laws cs0 Past (server_of s)
        → IsServed j laws cs0 Past (server_of (work j (t, drawn) s))
    work-IsServed t drawn s guarded past served = elim (work_lem t drawn s guarded) [
      | inl stutter ↦ subst (IsServed j laws cs0 Past) (sym stutter) served
      | inr moved ↦
          subst (IsServed j laws cs0 Past) (sym moved)
            (serve_step-IsServed j laws cs0 Past few t drawn (server_of s) past served)
    ]

    work_all_keeps :
        (schedule : List (ℕ × ℕ)) (s : Service j)
        → Guarded j s
        → ((x : Option Value × Task j) (ds : List Campagne) → Observed schedule s x ds → Past x ds)
        → IsServed j laws cs0 Past (server_of s)
        → IsServed j laws cs0 Past (server_of (work_all j schedule s))
    unfolding work_all
    work_all_keeps [] s guarded past served = served
    work_all_keeps ((t, drawn) ∷ schedule) s guarded past served =
        work_all_keeps schedule (work j (t, drawn) s) (work-Guarded j t drawn s guarded)
          (λ x ds (before, after, u, split, at, here).
            past x ds ((t, drawn) ∷ before, after, u, ap (λ l. (t, drawn) ∷ l) split, at, here))
          (work-IsServed t drawn s guarded
            (λ x e. past x s.campaigns ([], (t, drawn) ∷ schedule, t, refl, refl, e)) served)

  pub work_all-IsServed :
      (laws : IsJson j) (cs : List Campagne) (payloads : List (Option Value))
      (schedule : List (ℕ × ℕ))
      → length cs ≤ 16_777
      → All IsSeller cs
      → let s = opened j cs payloads in
        IsServed j laws cs (Observed schedule s) (server_of (work_all j schedule s))
  work_all-IsServed laws cs payloads schedule few sellers =
      let s = opened j cs payloads in
      work_all_keeps laws cs few (Observed schedule s) schedule s (opened-Guarded j cs payloads)
        (λ x ds seen. seen)
        (subst (IsServed j laws cs (Observed schedule s)) (sym (opened_server cs payloads))
          (opened-IsServed j laws cs (Observed schedule s) payloads sellers))
