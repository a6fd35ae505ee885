-- ===== src/RtbCtrl/Server/Locks/Invariant.antt =====
-- Each mutex is held by at most one request. The server is seen as the threads of
-- `CampagnesManager/Locks`: a request outside of `SelectCampagne` as a thread without a mutex.
use tabmo_codding_challenge.Common.{
  ℕ, ◌≡◌, inl, inr, refl, sym, ap, ◌∙◌, false, Option, some, List, [], ◌∷◌, get_elem?, set, map,
  map-set, get_elem?-map, All, All-set, count_if, count_if-set_same, Option-cases,
}
use tabmo_codding_challenge.Common.Int.{pos}
use tabmo_codding_challenge.Json.{Json}
use tabmo_codding_challenge.BidRequest.{BidRequest}
use tabmo_codding_challenge.Float.{nan}
use tabmo_codding_challenge.Campagne.{Campagne}
use tabmo_codding_challenge.CampagnesManager.Threads.{found_nothing}
use tabmo_codding_challenge.CampagnesManager.Locks.{
  Place, outside, locked, loaded, unlocking, System, move, step,
}
use tabmo_codding_challenge.CampagnesManager.Locks.Moves.{holds, thread_holds, IsFresh}
use tabmo_codding_challenge.CampagnesManager.Locks.Exclusion.{Inv, step-Inv, begin-Inv}
use tabmo_codding_challenge.RtbCtrl.Server.{Task, received, selecting, answered, receive, answer_of}
use tabmo_codding_challenge.RtbCtrl.Server.Locks.{
  Handler, arrived, inside, replied, handler_of, inside_of, handle_move, Service, put_request, work,
  work_all, opened,
}

-- The request of a thread, of which its mutexes do not depend.
abbrev nobody : BidRequest
nobody = record {
  id = [];
  bid_floor = nan;
  device_w = pos 0;
  device_h = pos 0;
  device_ifa = [];
  device_lang = [];
  app_name = [];
}

module _ (j : Json) where
  open j use {Value}

  abbrev pub place_of : Handler j → Place j
  place_of arrived = outside found_nothing
  place_of (inside place) = place
  place_of (replied a) = outside found_nothing

  abbrev pub thread_view : Option Value × Handler j → BidRequest × Place j
  thread_view (payload, handler) = (nobody, place_of handler)

  abbrev system_of : Service j → System j
  system_of s = record {
    campaigns = s.campaigns;
    mutexes = s.mutexes;
    threads = map thread_view s.requests;
  }

  -- The invariant of the mutexes, for the requests.
  abbrev pub Guarded : Service j → Type 0
  Guarded s = Inv j (system_of s)

  abbrev IsOutside : Place j → Type 0
  IsOutside (outside stage) = Unit {0}
  IsOutside (locked k stage) = ⊥
  IsOutside (loaded k c stage) = ⊥
  IsOutside (unlocking k stage) = ⊥

  outside-holds : (k : ℕ) (place : Place j) → IsOutside place → holds j k place ≡ false
  outside-holds k (outside stage) o = refl
  outside-holds k (locked i stage) o = elim o [ ]
  outside-holds k (loaded i c stage) o = elim o [ ]
  outside-holds k (unlocking i stage) o = elim o [ ]

  outside-IsFresh : (cs : List Campagne) (place : Place j) → IsOutside place → IsFresh j cs place
  outside-IsFresh cs (outside stage) o = tt
  outside-IsFresh cs (locked i stage) o = elim o [ ]
  outside-IsFresh cs (loaded i c stage) o = elim o [ ]
  outside-IsFresh cs (unlocking i stage) o = elim o [ ]

  -- A change of a thread outside of the sections to another such place.
  replace-Inv :
      (s : System j) (t : ℕ) (asked asked' : BidRequest) (place place' : Place j)
      → Inv j s
      → get_elem? s.threads t ≡ some (asked, place)
      → IsOutside place
      → IsOutside place'
      → Inv j (record s { threads = set s.threads t (asked', place') })
  replace-Inv s t asked asked' place place' inv at o o' = record {
    same_length = inv.same_length;
    exclusive = λ k.
        count_if-set_same (thread_holds j k) s.threads t (asked, place) (asked', place') at
          (outside-holds k place' o' ∙ sym (outside-holds k place o))
        ∙ inv.exclusive k;
    fresh =
        All-set (λ x. IsFresh j s.campaigns x.1) s.threads t inv.fresh
          (outside-IsFresh s.campaigns place' o');
  }

  handler_of-IsOutside : (task : Task j) → IsOutside (place_of (handler_of j task))
  unfolding handler_of
  handler_of-IsOutside received = tt
  handler_of-IsOutside (selecting stage) = tt
  handler_of-IsOutside (answered a) = tt

  module _ (t drawn : ℕ) (payload : Option Value) (s : Service j) (guarded : Guarded s) where
    replace-Guarded :
        (handler handler' : Handler j)
        → get_elem? s.requests t ≡ some (payload, handler)
        → IsOutside (place_of handler)
        → IsOutside (place_of handler')
        → Guarded (put_request j t s payload ((s.campaigns, s.mutexes), handler'))
    replace-Guarded handler handler' at o o' =
        rw (map-set thread_view s.requests t (payload, handler')) (
          replace-Inv (system_of s) t nobody nobody (place_of handler) (place_of handler') guarded
            (get_elem?-map thread_view s.requests t (payload, handler) at) o o')

    -- A step inside of `SelectCampagne` is one of `CampagnesManager/Locks`.
    inside_step :
        (place : Place j)
        → get_elem? s.requests t ≡ some (payload, inside place)
        → system_of
            (put_request j t s payload (inside_of j (move j drawn (s.campaigns, s.mutexes) place)))
          ≡ step j (t, drawn) (system_of s)
    unfolding step
    inside_step place at =
        let moved = move j drawn (s.campaigns, s.mutexes) place in
        let at' = get_elem?-map thread_view s.requests t (payload, inside place) at in
        rw (at', step)
          (ap (λ ts. record { campaigns = moved.0.0; mutexes = moved.0.1; threads = ts })
            (map-set thread_view s.requests t (payload, inside moved.1)))

    inside-Guarded :
        (place : Place j)
        → get_elem? s.requests t ≡ some (payload, inside place)
        → Guarded
            (put_request j t s payload (inside_of j (move j drawn (s.campaigns, s.mutexes) place)))
    inside-Guarded place at = rw (inside_step place at) (step-Inv j t drawn (system_of s) guarded)

    handle_move-Guarded :
        (handler : Handler j)
        → get_elem? s.requests t ≡ some (payload, handler)
        → Guarded (
            put_request j t s payload
              (handle_move j drawn payload (s.campaigns, s.mutexes) handler))
    unfolding handle_move
    handle_move-Guarded arrived at =
        replace-Guarded arrived (handler_of j (receive j payload)) at tt
          (handler_of-IsOutside (receive j payload))
    handle_move-Guarded (inside (outside stage)) at = elim (Option-cases (answer_of j stage)) [
      | inl e ↦ rw (e, handle_move) (inside-Guarded (outside stage) at)
      | inr (a, e) ↦
          rw (e, handle_move) (replace-Guarded (inside (outside stage)) (replied a) at tt tt)
    ]
    handle_move-Guarded (inside (locked k stage)) at = inside-Guarded (locked k stage) at
    handle_move-Guarded (inside (loaded k c stage)) at = inside-Guarded (loaded k c stage) at
    handle_move-Guarded (inside (unlocking k stage)) at = inside-Guarded (unlocking k stage) at
    handle_move-Guarded (replied a) at = replace-Guarded (replied a) (replied a) at tt tt

  pub work-Guarded : (t drawn : ℕ) (s : Service j) → Guarded s → Guarded (work j (t, drawn) s)
  unfolding work
  work-Guarded t drawn s guarded = elim (Option-cases (get_elem? s.requests t)) [
    | inl e ↦ rw (e, work) guarded
    | inr ((payload, handler), e) ↦
        rw (e, work) (handle_move-Guarded t drawn payload s guarded handler e)
  ]

  pub work_all-Guarded :
      (schedule : List (ℕ × ℕ)) (s : Service j) → Guarded s → Guarded (work_all j schedule s)
  unfolding work_all
  work_all-Guarded [] s guarded = guarded
  work_all-Guarded ((t, drawn) ∷ schedule) s guarded =
      work_all-Guarded schedule (work j (t, drawn) s) (work-Guarded t drawn s guarded)

  opened-IsFresh :
      (cs : List Campagne) (payloads : List (Option Value))
      → All (λ x. IsFresh j cs x.1) (map thread_view (opened j cs payloads).requests)
        × ((k : ℕ)
            → count_if (thread_holds j k) (map thread_view (opened j cs payloads).requests) ≡ 0)
  opened-IsFresh cs [] = (tt, λ k. refl)
  opened-IsFresh cs (payload ∷ payloads) = let (f, n) = opened-IsFresh cs payloads in ((tt, f), n)

  pub opened-Guarded :
      (cs : List Campagne) (payloads : List (Option Value)) → Guarded (opened j cs payloads)
  opened-Guarded cs payloads =
      let (fresh, none_held) = opened-IsFresh cs payloads in
      let empty = begin-Inv j cs [] in
      record {
        same_length = empty.same_length;
        exclusive = λ k. none_held k ∙ empty.exclusive k;
        fresh = fresh;
      }
