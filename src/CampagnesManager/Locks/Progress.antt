-- ===== src/CampagnesManager/Locks/Progress.antt =====
-- No thread waits for ever: who has the mutex of a campaign gives it back by steps of its own.
use tabmo_codding_challenge.Common.{
  ℕ, zero, suc, ◌≤◌, ◌<◌, ◌≡◌, true, false, some, List, [], ◌∷◌, arith, get_elem?, length, count_if,
  count_if_pos, get_elem?-set_self, get_elem?-lt, get_elem?-none, Option-cases, inl, inr,
  All-get_elem?,
}
use tabmo_codding_challenge.Json.{Json}
use tabmo_codding_challenge.BidRequest.{BidRequest}
use tabmo_codding_challenge.Campagne.{Campagne}
use tabmo_codding_challenge.CampagnesManager.Threads.{Stage}
use tabmo_codding_challenge.CampagnesManager.Locks.{
  perform, Place, outside, locked, loaded, unlocking, System, is_locked, move, step, run, begin,
}
use tabmo_codding_challenge.CampagnesManager.Locks.Moves.{
  holds, thread_holds, IsFresh, section_of-lt, is_locked-set,
}
use tabmo_codding_challenge.CampagnesManager.Locks.Exclusion.{Inv, step-Inv, run-Inv, begin-Inv}

module _ (j : Json) where
  -- As many turns of one thread.
  abbrev pub turns : ℕ → ℕ → List (ℕ × ℕ)
  turns zero u = []
  turns (suc n) u = (u, 0) ∷ turns n u

  -- The mutex of campaign `k` is free after some of the next three turns of thread `u`.
  abbrev pub Frees : ℕ → ℕ → ℕ → System j → Type 0
  Frees most k u s = (n : ℕ) × (n ≤ most) × (is_locked (run j (turns n u) s).mutexes k ≡ false)

  later_Frees :
      (most k u : ℕ) (s : System j) → Frees most k u (step j (u, 0) s) → Frees (suc most) k u s
  unfolding run
  later_Frees most k u s (n, h, free) = (suc n, omega arith, free)

  unlocking_Frees :
      (k u : ℕ) (asked : BidRequest) (stage : Stage j) (s : System j)
      → Inv j s
      → get_elem? s.threads u ≡ some (asked, unlocking k stage)
      → Frees 1 k u s
  unfolding run step move
  unlocking_Frees k u asked stage s inv at =
      let here = All-get_elem? (λ x. IsFresh j s.campaigns x.1) s.threads u inv.fresh at in
      (
        1,
        omega arith,
        rw (at, step)
            (ground (arith, is_locked-set s.mutexes k k false (omega (arith, inv.same_length)))),
      )

  loaded_Frees :
      (k u : ℕ) (asked : BidRequest) (c : Campagne) (stage : Stage j) (s : System j)
      → Inv j s
      → get_elem? s.threads u ≡ some (asked, loaded k c stage)
      → Frees 2 k u s
  unfolding step move
  loaded_Frees k u asked c stage s inv at = later_Frees 1 k u s (
      unlocking_Frees k u asked (perform j c stage).1 (step j (u, 0) s) (step-Inv j u 0 s inv)
        (rw (at, step) (get_elem?-set_self s.threads u _ (get_elem?-lt s.threads u at))))

  locked_Frees :
      (k u : ℕ) (asked : BidRequest) (stage : Stage j) (s : System j)
      → Inv j s
      → get_elem? s.threads u ≡ some (asked, locked k stage)
      → Frees 3 k u s
  unfolding step move
  locked_Frees k u asked stage s inv at =
      let here = All-get_elem? (λ x. IsFresh j s.campaigns x.1) s.threads u inv.fresh at in
      elim (Option-cases (get_elem? s.campaigns k)) [
        | inl e ↦ absurd (
            omega (
              arith,
              get_elem?-none s.campaigns k e,
              section_of-lt j (length s.campaigns) k stage here,
            ))
        | inr (c, e) ↦ later_Frees 2 k u s (
            loaded_Frees k u asked c stage (step j (u, 0) s) (step-Inv j u 0 s inv) (
              rw (at, step, e, move)
                (get_elem?-set_self s.threads u _ (get_elem?-lt s.threads u at))))
      ]

  holder_Frees :
      (k u : ℕ) (asked : BidRequest) (place : Place j) (s : System j)
      → Inv j s
      → get_elem? s.threads u ≡ some (asked, place)
      → holds j k place ≡ true
      → Frees 3 k u s
  holder_Frees k u asked (outside stage) s inv at h = cc
  holder_Frees k u asked (locked i stage) s inv at h =
      let e : i ≡ k = ground arith in rw (← e) (locked_Frees i u asked stage s inv at)
  holder_Frees k u asked (loaded i c stage) s inv at h =
      let e : i ≡ k = ground arith in
      let (n, b, free) = loaded_Frees i u asked c stage s inv at in rw (← e) (n, omega arith, free)
  holder_Frees k u asked (unlocking i stage) s inv at h =
      let e : i ≡ k = ground arith in
      let (n, b, free) = unlocking_Frees i u asked stage s inv at in rw (← e) (n, omega arith, free)

  -- From the start on, whatever the order of the steps: if the mutex of a campaign is locked, a thread has
  -- it, and it is free after at most three turns of that thread. So no threads block one another.
  pub no_deadlock :
      (cs : List Campagne) (requests : List BidRequest) (schedule : List (ℕ × ℕ)) (k : ℕ)
      → is_locked (run j schedule (begin j cs requests)).mutexes k ≡ true
      → (u : ℕ) × (x : BidRequest × Place j) × (get_elem?
            (run j schedule (begin j cs requests)).threads
            u
          ≡ some x)
        × (thread_holds j k x ≡ true)
        × Frees 3 k u (run j schedule (begin j cs requests))
  no_deadlock cs requests schedule k taken =
      let s = run j schedule (begin j cs requests) in
      let inv = run-Inv j schedule (begin j cs requests) (begin-Inv j cs requests) in
      let one : 0 < count_if (thread_holds j k) s.threads =
        rw (inv.exclusive k, taken) (omega arith) in
      let (u, (asked, place), at, h) = count_if_pos (thread_holds j k) s.threads one in
      (u, (asked, place), at, h, holder_Frees k u asked place s inv at h)
