-- ===== src/CampagnesManager/Locks/Exclusion.antt =====
-- The invariant of the mutexes: who holds which, and that what was read under one is still true.
use tabmo_codding_challenge.Common.{
  All-set_other, ℕ, zero, suc, ◌≡◌, inl, inr, refl, ap, ◌∙◌, Bool, true, false, some, List, [], ◌∷◌,
  arith, get_elem?, length, map, All, All-get_elem?, bit, count_if, count_if-set, count_if_unique,
  count_if-pos_of_get, Bool-cases, Option-cases,
}
use tabmo_codding_challenge.Json.{Json}
use tabmo_codding_challenge.BidRequest.{BidRequest}
use tabmo_codding_challenge.Campagne.{Campagne}
use tabmo_codding_challenge.CampagnesManager.Locks.{
  Place, outside, locked, loaded, unlocking, System, is_locked, move, step, run, begin,
}
use tabmo_codding_challenge.CampagnesManager.Locks.Moves.{holds, thread_holds, IsFresh, move-Moved}

module _ (j : Json) where
  pub record Inv (s : System j) : Type 0 where
    pub same_length : length s.mutexes ≡ length s.campaigns
    pub exclusive : (k : ℕ) → count_if (thread_holds j k) s.threads ≡ bit (is_locked s.mutexes k)
    pub fresh : All (λ t. IsFresh j s.campaigns t.1) s.threads

  holder_locks :
      (s : System j)
      → Inv s
      → (t k : ℕ) (asked : BidRequest) (place : Place j)
      → get_elem? s.threads t ≡ some (asked, place)
      → holds j k place ≡ true
      → is_locked s.mutexes k ≡ true
  holder_locks s inv t k asked place at h = ground (
    arith,
    inv.exclusive k,
    count_if-pos_of_get (thread_holds j k) s.threads t (asked, place) at h,
  )

  -- No two threads have the mutex of one campaign.
  holder_unique :
      (s : System j)
      → Inv s
      → (k t u : ℕ) (x y : BidRequest × Place j) → get_elem? s.threads t ≡ some x
      → get_elem? s.threads u ≡ some y
      → thread_holds j k x ≡ true
      → thread_holds j k y ≡ true
      → t ≡ u
  holder_unique s inv k t u x y at at' h h' =
      count_if_unique (thread_holds j k) s.threads t u x y at at' h h'
        (ground (arith, inv.exclusive k, is_locked s.mutexes k))

  -- What a thread knows stays true while another thread moves.
  IsFresh-other :
      (cs cs' : List Campagne) (place : Place j)
      → IsFresh j cs place
      → length cs' ≡ length cs
      → ((k : ℕ) → holds j k place ≡ true → get_elem? cs' k ≡ get_elem? cs k)
      → IsFresh j cs' place
  IsFresh-other cs cs' (outside stage) f same keep = tt
  IsFresh-other cs cs' (locked k stage) f same keep = rw same f
  IsFresh-other cs cs' (loaded k c stage) (f, at) same keep =
      (rw same f, keep k (ground arith) ∙ at)
  IsFresh-other cs cs' (unlocking k stage) f same keep = rw same f

  pub step-Inv : (t drawn : ℕ) (s : System j) → Inv s → Inv (step j (t, drawn) s)
  unfolding step
  step-Inv t drawn s inv = elim (Option-cases (get_elem? s.threads t)) [
    | inl e ↦ rw (e, step) inv
    | inr ((asked, place), e) ↦
        let own = λ (k : ℕ) (h : holds j k place ≡ true). holder_locks s inv t k asked place e h in
        let moved =
          move-Moved j drawn s.campaigns s.mutexes inv.same_length place
            (All-get_elem? (λ x. IsFresh j s.campaigns x.1) s.threads t inv.fresh e) own in
        rw (e, step)
          (record {
            same_length = omega (arith, moved.kept_mutexes, moved.kept_campaigns, inv.same_length);
            exclusive = λ k. omega (
              arith,
              moved.balance k,
              inv.exclusive k,
              count_if-set (thread_holds j k) s.threads t (asked, place)
                  (asked, (move j drawn (s.campaigns, s.mutexes) place).1) e,
            );
            fresh = All-set_other s.threads t _ inv.fresh moved.fresh_after λ u x other at f.
                IsFresh-other s.campaigns _ x.1 f moved.kept_campaigns λ k held.
                  elim (Bool-cases (holds j k place)) [
                    | inr free ↦ moved.others k free
                    | inl both ↦
                        absurd (other (holder_unique s inv k u t x (asked, place) at e held both))
                  ];
          })
  ]

  pub run-Inv : (schedule : List (ℕ × ℕ)) (s : System j) → Inv s → Inv (run j schedule s)
  unfolding run
  run-Inv [] s inv = inv
  run-Inv ((t, drawn) ∷ schedule) s inv =
      run-Inv schedule (step j (t, drawn) s) (step-Inv t drawn s inv)

  all_free : (cs : List Campagne) (k : ℕ) → is_locked (map (λ c. false) cs) k ≡ false
  unfolding is_locked
  all_free [] k = refl
  all_free (c ∷ cs) zero = refl
  all_free (c ∷ cs) (suc k) = all_free cs k

  length-free : (cs : List Campagne) → length {A = Bool} (map (λ c. false) cs) ≡ length cs
  length-free [] = refl
  length-free (c ∷ cs) = ap suc (length-free cs)

  begin-IsFresh :
      (cs : List Campagne) (requests : List BidRequest)
      → All (λ t. IsFresh j cs t.1) (begin j cs requests).threads
        × ((k : ℕ) → count_if (thread_holds j k) (begin j cs requests).threads ≡ 0)
  begin-IsFresh cs [] = (tt, λ k. refl)
  begin-IsFresh cs (r ∷ requests) = let (f, n) = begin-IsFresh cs requests in ((tt, f), n)

  pub begin-Inv : (cs : List Campagne) (requests : List BidRequest) → Inv (begin j cs requests)
  begin-Inv cs requests = record {
    same_length = length-free cs;
    exclusive = λ k. rw (all_free cs k) ((begin-IsFresh cs requests).1 k);
    fresh = (begin-IsFresh cs requests).0;
  }

  -- From the start on, whatever the order of the steps: no two threads have the mutex of one campaign at
  -- the same time.
  pub mutual_exclusion :
      (cs : List Campagne) (requests : List BidRequest) (schedule : List (ℕ × ℕ)) (k t u : ℕ)
      (x y : BidRequest × Place j)
      → get_elem? (run j schedule (begin j cs requests)).threads t ≡ some x
      → get_elem? (run j schedule (begin j cs requests)).threads u ≡ some y
      → thread_holds j k x ≡ true
      → thread_holds j k y ≡ true
      → t ≡ u
  mutual_exclusion cs requests schedule k t u =
      holder_unique (run j schedule (begin j cs requests))
        (run-Inv schedule (begin j cs requests) (begin-Inv cs requests)) k t u
