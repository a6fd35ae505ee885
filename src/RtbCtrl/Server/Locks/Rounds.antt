-- ===== src/RtbCtrl/Server/Locks/Rounds.antt =====
-- The server with mutexes in rounds: in each round every request makes at least one step.
use tabmo_codding_challenge.Common.{
  ℕ, ◌+◌, ◌-◌, ◌≤◌, ◌<◌, ◌≡◌, ◌≢◌, ◌⊎◌, inl, inr, refl, sym, ap, ◌∙◌, subst, Bool, true, Option,
  some, List, [], ◌∷◌, ◌++◌, arith, get_elem?, set_same, length, length-set, get_elem?-lt,
  get_elem?-map, get_elem?-map-some, All, All-get_elem?, map, count_if, count_if_pos, sum_of,
  sum_of-set, sum_of_zero, Bool-cases, Option-cases, ◌==◌,
}
use mathlib.Core.List.{flatten}
use mathlib.Core.Option.{some-injective}
use tabmo_codding_challenge.Json.{Json}
use tabmo_codding_challenge.Campagne.{Campagne}
use tabmo_codding_challenge.CampagnesManager.Threads.Progress.{turns_of}
use tabmo_codding_challenge.CampagnesManager.Locks.{
  Shared, outside, locked, loaded, unlocking, is_locked,
}
use tabmo_codding_challenge.CampagnesManager.Locks.Moves.{holds, thread_holds, IsFresh}
use tabmo_codding_challenge.RtbCtrl.Server.Locks.{
  Handler, arrived, inside, replied, handle_move, Service, put_request, work, work_all,
}
use tabmo_codding_challenge.RtbCtrl.Server.Locks.Invariant.{
  place_of, thread_view, Guarded, work-Guarded, work_all-Guarded,
}
use tabmo_codding_challenge.RtbCtrl.Server.Locks.Work.{work_left, IsIdle, handle_move-Works}

module _ (j : Json) where
  open j use {Value}

  -- What all requests have left to do.
  abbrev pub total_work : Service j → ℕ
  total_work s = sum_of (λ x. work_left j (length s.campaigns) x.1) s.requests

  -- If there is a request `t`, it is idle.
  abbrev IsWaiting : Service j → ℕ → Type 0
  IsWaiting s t =
      (payload : Option Value) (handler : Handler j)
      → get_elem? s.requests t ≡ some (payload, handler)
      → IsIdle j s.campaigns s.mutexes handler

  pub handler-IsFresh :
      (s : Service j)
      → Guarded j s
      → (t : ℕ) (payload : Option Value) (handler : Handler j)
      → get_elem? s.requests t ≡ some (payload, handler)
      → IsFresh j s.campaigns (place_of j handler)
  handler-IsFresh s guarded t payload handler at =
      All-get_elem? (λ x. IsFresh j s.campaigns x.1) (map (thread_view j) s.requests) t
        guarded.fresh (get_elem?-map (thread_view j) s.requests t (payload, handler) at)

  put_request_work :
      (t : ℕ) (s : Service j) (payload : Option Value) (handler : Handler j)
      (after : Shared × Handler j)
      → get_elem? s.requests t ≡ some (payload, handler)
      → length after.0.0 ≡ length s.campaigns
      → total_work (put_request j t s payload after) + work_left j (length s.campaigns) handler
        ≡ total_work s + work_left j (length s.campaigns) after.1
  put_request_work t s payload handler ((cs, ms), handler') at same = rw same (
      sum_of-set (λ x. work_left j (length s.campaigns) x.1) s.requests t (payload, handler)
        (payload, handler') at)

  -- A step leaves less to do, or its request is idle and nothing changes.
  work-Works :
      (t drawn : ℕ) (s : Service j)
      → Guarded j s
      → (total_work (work j (t, drawn) s) < total_work s)
        ⊎ ((work j (t, drawn) s ≡ s) × IsWaiting s t)
  unfolding work
  work-Works t drawn s guarded = elim (Option-cases (get_elem? s.requests t)) [
    | inl e ↦ inr (rw (e, work), λ payload handler at. cc)
    | inr ((payload, handler), e) ↦
        let after = handle_move j drawn payload (s.campaigns, s.mutexes) handler in
        elim (handle_move-Works j drawn payload s.campaigns s.mutexes handler
          (handler-IsFresh s guarded t payload handler e)) [
            | inl (same, less) ↦ inl (
                rw (e, work)
                  (omega (arith, put_request_work t s payload handler after e same, less)))
            | inr (stays, idle) ↦ inr (
              rw (e, work)
                  (ap (put_request j t s payload) stays
                    ∙ ap
                        (λ xs. record {
                          campaigns = s.campaigns;
                          mutexes = s.mutexes;
                          requests = xs;
                        })
                        (set_same s.requests t (payload, handler) e)),
              λ payload' handler' at.
                  subst (λ x. IsIdle j s.campaigns s.mutexes x.1) (some-injective _ _ (sym e ∙ at))
                    idle,
            )
          ]
  ]

  -- So does a schedule, for all the requests that it has a turn for.
  work_all-Works :
      (schedule : List (ℕ × ℕ)) (s : Service j)
      → Guarded j s
      → (total_work (work_all j schedule s) < total_work s)
        ⊎ ((work_all j schedule s ≡ s) × ((t : ℕ) → 1 ≤ turns_of j t schedule → IsWaiting s t))
  unfolding work_all
  work_all-Works [] s guarded = inr (refl, λ t h. absurd (omega arith))
  work_all-Works ((u, drawn) ∷ schedule) s guarded = elim (work-Works u drawn s guarded) [
    | inl less ↦
        elim (work_all-Works schedule (work j (u, drawn) s) (work-Guarded j u drawn s guarded)) [
          | inl more ↦ inl (omega arith)
          | inr (same, _) ↦ inl (rw same less)
        ]
    | inr (stays, waits) ↦ elim (work_all-Works schedule s guarded) [
      | inl less ↦ inl (rw (work_all, stays) less)
      | inr (same, all) ↦ inr (
        rw (work_all, stays) same,
        λ t h. elim (Bool-cases (u == t)) [
          | inl own ↦ let e : u ≡ t = ground arith in subst (IsWaiting s) e waits
          | inr other ↦ all t (ground arith)
        ],
      )
    ]
  ]

  holder-IsIdle :
      (k : ℕ) (cs : List Campagne) (ms : List Bool) (handler : Handler j)
      → holds j k (place_of j handler) ≡ true
      → ¬ IsIdle j cs ms handler
  holder-IsIdle k cs ms arrived h idle = idle
  holder-IsIdle k cs ms (inside (outside stage)) h idle = cc
  holder-IsIdle k cs ms (inside (locked i stage)) h idle = idle
  holder-IsIdle k cs ms (inside (loaded i c stage)) h idle = idle
  holder-IsIdle k cs ms (inside (unlocking i stage)) h idle = idle
  holder-IsIdle k cs ms (replied a) h idle = cc

  -- When all requests are idle, none waits for a mutex: who holds it would not be idle.
  idle_free :
      (s : Service j)
      → Guarded j s
      → ((t : ℕ) → t < length s.requests → IsWaiting s t)
      → (k : ℕ) → is_locked s.mutexes k ≢ true
  idle_free s guarded waits k taken =
      let one : 0 < count_if (thread_holds j k) (map (thread_view j) s.requests) =
        rw (guarded.exclusive k, taken) (omega arith) in
      let (u, x, at, h) = count_if_pos (thread_holds j k) (map (thread_view j) s.requests) one in
      let ((payload, handler), here, e) = get_elem?-map-some (thread_view j) s.requests u x at in
      holder-IsIdle k s.campaigns s.mutexes handler (ap (thread_holds j k) e ∙ h)
        (waits u (get_elem?-lt s.requests u here) payload handler here)

  idle_work :
      (s : Service j) (handler : Handler j)
      → ((k : ℕ) → is_locked s.mutexes k ≢ true)
      → IsIdle j s.campaigns s.mutexes handler
      → work_left j (length s.campaigns) handler ≡ 0
  idle_work s arrived free idle = elim idle [ ]
  idle_work s (inside (outside stage)) free (inl e) = rw e refl
  idle_work s (inside (outside stage)) free (inr (k, e, taken)) = absurd (free k taken)
  idle_work s (inside (locked i stage)) free idle = elim idle [ ]
  idle_work s (inside (loaded i c stage)) free idle = elim idle [ ]
  idle_work s (inside (unlocking i stage)) free idle = elim idle [ ]
  idle_work s (replied a) free idle = refl

  idle_total :
      (s : Service j)
      → Guarded j s
      → ((t : ℕ) → t < length s.requests → IsWaiting s t)
      → total_work s ≡ 0
  idle_total s guarded waits =
      sum_of_zero (λ x. work_left j (length s.campaigns) x.1) s.requests
        λ t x at.
          idle_work s x.1 (idle_free s guarded waits)
            (waits t (get_elem?-lt s.requests t at) x.0 x.1 at)

  -- In such a round each of `m` requests makes a step.
  abbrev pub Covers : ℕ → List (ℕ × ℕ) → Type 0
  Covers m round = (t : ℕ) → t < m → 1 ≤ turns_of j t round

  work_all-append :
      (early late : List (ℕ × ℕ)) (s : Service j)
      → work_all j (early ++ late) s ≡ work_all j late (work_all j early s)
  unfolding work_all
  work_all-append [] late s = refl
  work_all-append (x ∷ early) late s = work_all-append early late (work j x s)

  work_all-length :
      (schedule : List (ℕ × ℕ)) (s : Service j)
      → length (work_all j schedule s).requests ≡ length s.requests
  unfolding work_all work
  work_all-length [] s = refl
  work_all-length ((t, drawn) ∷ schedule) s =
      work_all-length schedule (work j (t, drawn) s)
      ∙ elim (Option-cases (get_elem? s.requests t)) [
        | inl e ↦ rw (e, work) refl
        | inr ((payload, handler), e) ↦ rw (e, work) (length-set s.requests t _)
      ]

  -- Each round leaves less to do, until nothing is left.
  pub rounds_work :
      (rounds : List (List (ℕ × ℕ))) (s : Service j)
      → Guarded j s
      → All (Covers (length s.requests)) rounds
      → total_work (work_all j (flatten rounds) s) ≤ total_work s - length rounds
  unfolding work_all flatten
  rounds_work [] s guarded covers = omega arith
  rounds_work (round ∷ rounds) s guarded (here, later) =
      rw (work_all-append round (flatten rounds) s) (elim (work_all-Works round s guarded) [
        | inl less ↦
            let more =
              rounds_work rounds (work_all j round s) (work_all-Guarded j round s guarded)
                (rw (work_all-length round s) later) in
            omega arith
        | inr (same, waits) ↦
            let more = rounds_work rounds s guarded later in
            rw same (omega (arith, idle_total s guarded λ t h. waits t (here t h)))
      ])
