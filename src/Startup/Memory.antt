-- ===== src/Startup/Memory.antt =====
-- `main` on the objects of the program's start, up to `drogon::app().run()`.
use tabmo_codding_challenge.Common.Result.{Result, ok, err, Exception}
use tabmo_codding_challenge.Common.{
  ℕ, ◌≡◌, sym, ◌∙◌, inl, inr, refl, ap, Bool, true, false, Option, none, some, get_elem?, map, List,
  [], ◌∷◌, length, suc, if◌then◌else◌, Bool-cases,
}
use tabmo_codding_challenge.Common.Int.{ℤ}
use tabmo_codding_challenge.Json.{Json}
use tabmo_codding_challenge.Campagne.{Campagne, is_zero}
use tabmo_codding_challenge.CampagnesManager.Parse.{
  parse_campagnes_from_json, get_campagnes_count, int_of_size,
}
use tabmo_codding_challenge.Campagne.Objects.{Store}
use tabmo_codding_challenge.CampagnesManager.Locks.{Shared}
use tabmo_codding_challenge.CampagnesManager.Memory.{
  Ran, finished, ◌>>=◌, Memory, load_campagnes, count_campagnes, lock_access, unlock_access,
}
use tabmo_codding_challenge.CampagnesManager.Memory.Added.{Settled, access-IsVector}
use tabmo_codding_challenge.CampagnesManager.Memory.Elements.{Shows}
use tabmo_codding_challenge.CampagnesManager.Memory.Refinement.{Agrees, load_campagnes_lem}
use tabmo_codding_challenge.RtbCtrl.Server.Locks.{Service, arrived}
use tabmo_codding_challenge.Startup.{Start, terminated, exited, serving, start_from, main}

-- How `main` goes on: an exception that nobody catches, `exit`, or the server with its objects.
pub data Launch : Type 0 where
  crashed : Exception → Launch
  quit : ℕ → Launch
  launched : Memory → Launch

-- The static members `mListeCampagnes` and `mAccesCampagnes` at the start of the program.
abbrev empty_memory : Memory
empty_memory = record { objects = []; elements = []; destroyed = []; access = false }

-- `exit(1)` without a campaign, and else the server, when the count is taken once more for the log.
unfoldable launch_counted : Memory × ℤ → Ran Launch
unfolding count_campagnes is_zero
launch_counted (m, count) =
    if is_zero count
    then finished (quit 1)
    else count_campagnes m >>= λ logged. finished (launched logged.0)

unfoldable launch_from : Memory × Result Bool → Ran Launch
unfolding launch_counted
launch_from (m, err e) = finished (crashed e)
launch_from (m, ok true) = finished (launched m)
launch_from (m, ok false) = count_campagnes m >>= launch_counted

unfoldable pub launch : (j : Json) → Campagne → (ℕ → Bool) → Option j.Value → Ran Launch
unfolding load_campagnes launch_from
launch j fresh is_full document =
    load_campagnes fresh is_full j document empty_memory >>= launch_from

-- What the threads of the server share: the attributes and the mutexes of the objects in the vector.
unfoldable pub shared_at : Store → List ℕ → Shared
shared_at st [] = ([], [])
shared_at st (k ∷ ks) =
    let (cs, ms) = shared_at st ks in
    elim (get_elem? st k) [ none ↦ (cs, ms) | some o ↦ (o.attributes ∷ cs, o.mutex ∷ ms) ]

-- The server on the objects of the vector, before its first step.
abbrev pub opened_on : (j : Json) → Memory → List (Option j.Value) → Service j
opened_on j m payloads =
    let (cs, ms) = shared_at m.objects m.elements in
    record { campaigns = cs; mutexes = ms; requests = map (λ payload. (payload, arrived)) payloads }

-- The server that starts has the campaigns of the model on lists, each an object of its own with a
-- free mutex, in the same order; the list is not locked, and as many objects are destroyed as are not
-- in the vector.
abbrev pub Matches : Start → Launch → Type 0
Matches (terminated e) (crashed e') = e' ≡ e
Matches (exited n) (quit n') = n' ≡ n
Matches (serving cs) (launched m) =
    Settled m cs × (shared_at m.objects m.elements ≡ (cs, map (λ c. false) cs))
Matches _ _ = ⊥

Shows-length :
    (m : Memory) (ks : List ℕ) (cs : List Campagne) → Shows m ks cs → length ks ≡ length cs
Shows-length m [] [] shown = refl
Shows-length m (k ∷ ks) (c ∷ cs) (lives, shown) = ap suc (Shows-length m ks cs shown)
Shows-length m [] (c ∷ cs) shown = elim shown [ ]
Shows-length m (k ∷ ks) [] shown = elim shown [ ]

Shows-shared_at :
    (m : Memory) (ks : List ℕ) (cs : List Campagne)
    → Shows m ks cs
    → shared_at m.objects ks ≡ (cs, map (λ c. false) cs)
unfolding shared_at
Shows-shared_at m [] [] shown = refl
Shows-shared_at m (k ∷ ks) (c ∷ cs) ((at, alive), shown) =
    rw (at, shared_at, Shows-shared_at m ks cs shown) refl
Shows-shared_at m [] (c ∷ cs) shown = elim shown [ ]
Shows-shared_at m (k ∷ ks) [] shown = elim shown [ ]

-- `GetCampagnesCount` takes the free mutex, gives it back, and counts the campaigns.
count_campagnes_lem :
    (m : Memory) (cs : List Campagne)
    → Settled m cs
    → count_campagnes m ≡ finished (record m { access = false }, get_campagnes_count cs)
unfolding count_campagnes lock_access unlock_access get_campagnes_count
count_campagnes_lem m cs settled =
    rw (settled.free, count_campagnes, lock_access)
      (ap (λ n. finished (record m { access = false }, int_of_size n))
        (Shows-length m m.elements cs settled.vector.shown))

unlocked-Settled :
    (m : Memory) (cs : List Campagne) → Settled m cs → Settled (record m { access = false }) cs
unlocked-Settled m cs settled = record {
  vector = access-IsVector false m cs settled.vector;
  free = refl;
  none_left = settled.none_left;
}

started : (m : Memory) (cs : List Campagne) → Settled m cs → Matches (serving cs) (launched m)
started m cs settled = (settled, Shows-shared_at m m.elements cs settled.vector.shown)

launch_from_lem :
    (r : Result (List Campagne × Bool)) (out : Memory × Result Bool)
    → Agrees r out
    → (l : Launch) × (launch_from out ≡ finished l) × Matches (start_from r) l
unfolding launch_from start_from
launch_from_lem (err e) (m, r) (free, thrown) = (crashed e, rw (thrown, launch_from) refl, refl)
launch_from_lem (ok (cs, true)) (m, r) (settled, returned) =
    (launched m, rw (returned, launch_from) refl, started m cs settled)
launch_from_lem (ok (cs, false)) (m, r) (settled, returned) =
    elim (Bool-cases (is_zero (get_campagnes_count cs))) [
      | inl none_read ↦ (
        quit 1,
        rw (returned, launch_from)
            (rw (count_campagnes_lem m cs settled) (rw (none_read, launch_counted) refl)),
        rw (none_read, start_from) refl,
      )
      | inr some_read ↦
          let m1 = record m { access = false } in
          let settled1 = unlocked-Settled m cs settled in
          (
            launched m1,
            rw (returned, launch_from)
                (rw (count_campagnes_lem m cs settled) (rw (some_read, launch_counted) refl)),
            rw (some_read, start_from) (started m1 cs settled1),
          )
    ]

empty-Settled : Settled empty_memory []
empty-Settled = record {
  vector = record { shown = tt; rising = tt; below = tt; sane = tt };
  free = refl;
  none_left = refl;
}

-- Whatever the file, the attributes of new objects and the rounds in which the vector is full: main on
-- objects comes to an end, without waiting for a mutex for ever and without undefined behaviour, and
-- does what main on lists does. Where that ends with an exception or with exit, so does this; where it
-- starts the server, the vector has objects of its own, at different places and not destroyed, with
-- the campaigns of the list in their order and free mutexes; mAccesCampagnes is free, and as many
-- objects are destroyed as are made and not in the vector.
pub launch_lem :
    (j : Json) (fresh : Campagne) (is_full : ℕ → Bool) (document : Option j.Value)
    → (l : Launch) × (launch j fresh is_full document ≡ finished l) × Matches (main j document) l
unfolding launch main
launch_lem j fresh is_full document =
    let (out, ran, agrees) =
      load_campagnes_lem j fresh is_full document empty_memory [] empty-Settled in
    rw (ran, launch) (launch_from_lem (parse_campagnes_from_json j document []) out agrees)

Matches-launched :
    (s : Start) (m : Memory)
    → Matches s (launched m)
    → (cs : List Campagne) × (s ≡ serving cs) × Matches (serving cs) (launched m)
Matches-launched (serving cs) m matches = (cs, refl, matches)
Matches-launched (terminated e) m matches = elim matches [ ]
Matches-launched (exited n) m matches = elim matches [ ]

finished-injective : {l l' : Launch} → finished l ≡ finished l' → l ≡ l'
finished-injective e = cc

-- Objects with which the server starts show the campaigns with which it starts on lists.
pub launched_lem :
    (j : Json) (fresh : Campagne) (is_full : ℕ → Bool) (document : Option j.Value) (m : Memory)
    → launch j fresh is_full document ≡ finished (launched m)
    → (cs : List Campagne) × (main j document ≡ serving cs)
      × (length m.elements ≡ length cs)
      × (shared_at m.objects m.elements ≡ (cs, map (λ c. false) cs))
launched_lem j fresh is_full document m starts =
    let (l, ran, matches) = launch_lem j fresh is_full document in
    let same : l ≡ launched m = finished-injective (sym ran ∙ starts) in
    let (cs, serves, (settled, shared)) =
      Matches-launched (main j document) m (rw same at matches) in
    (cs, serves, Shows-length m m.elements cs settled.vector.shown, shared)
