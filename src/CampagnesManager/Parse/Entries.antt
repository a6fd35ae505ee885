-- ===== src/CampagnesManager/Parse/Entries.antt =====
-- What `ParseCampagnesFromJson` makes of the entries of its document.
use mathlib.Core.List.{append-nil, append_assoc}
use mathlib.Core.Path.{ap₂}
use tabmo_codding_challenge.Common.Result.{
  Result, ok, err, Exception, out_of_range, Result-cases, Ensures-then, Ensures, Ensures-bind,
}
use tabmo_codding_challenge.Common.{
  Bool-cases, ltb→lt, lt→ltb, ℕ, ◌<◌, ◌≡◌, ◌≢◌, ◌⊎◌, inl, inr, refl, subst, ◌∙◌, Bool, true, false,
  ◌&&◌, Option, some, none, List, [], ◌∷◌, ◌++◌, arith, length, All, All-append, length-append, ◌+◌,
  suc, ltb, if◌then◌else◌,
}
use tabmo_codding_challenge.Json.{Json}
use tabmo_codding_challenge.Campagne.{Campagne, copy}
use tabmo_codding_challenge.CampagnesManager.Parse.{
  read_campagne, handle, parse_entry, parse_entries, parse_campagnes_from_json,
}
use tabmo_codding_challenge.CampagnesManager.Parse.Loaded.{IsLoaded, read_campagne-Ensures}

module _ (j : Json) where
  open j use {Value, size, items}

  -- The campaigns of the entries that are read, in their order, and whether all entries are.
  pub collect : List Value → List Campagne
  collect [] = []
  collect (itr ∷ rest) = elim (read_campagne j itr) [
    | ok c ↦ c ∷ collect rest
    | err e ↦ collect rest
  ]

  pub all_read : List Value → Bool
  all_read [] = true
  all_read (itr ∷ rest) = elim (read_campagne j itr) [ ok c ↦ all_read rest | err e ↦ false ]

  -- An entry that is read, or whose exception a handler catches to the end.
  abbrev pub IsCaught : Value → Type 0
  IsCaught itr =
      ((c : Campagne) × (read_campagne j itr ≡ ok c))
      ⊎ ((e : Exception) × (read_campagne j itr ≡ err e) × (handle j itr e ≡ ok tt))

  -- One entry, as the loop sees it and as the two summaries do.
  abbrev Round : Value → List Value → List Campagne → Bool → List Campagne × Bool → Type 0
  Round itr vs cs good state =
      (parse_entry j itr (cs, good) ≡ ok state)
      × (state.0 ++ collect vs ≡ cs ++ collect (itr ∷ vs))
      × ((state.1 && all_read vs) ≡ (good && all_read (itr ∷ vs)))

  round :
      (itr : Value) (vs : List Value) (cs : List Campagne) (good : Bool)
      → IsCaught itr
      → (state : List Campagne × Bool) × Round itr vs cs good state
  unfolding parse_entry collect all_read copy
  round itr vs cs good (inl (c, e)) = (
    (cs ++ (c ∷ []), good),
    (
      rw (e, parse_entry),
      rw (e, collect) (append_assoc cs (c ∷ []) (collect vs)),
      rw (e, all_read),
    ),
  )
  round itr vs cs good (inr (x, e, h)) =
      ((cs, false), (rw (e, parse_entry, h), rw (e, collect), rw (e, all_read) (ground arith)))

  -- If no exception leaves it, the loop adds the campaigns of the entries that are read, in their
  -- order, and reports whether all are read.
  parse_entries_lem :
      (vs : List Value) (cs : List Campagne) (good : Bool)
      → All IsCaught vs
      → parse_entries j vs (cs, good) ≡ ok (cs ++ collect vs, good && all_read vs)
  unfolding parse_entries
  parse_entries_lem [] cs good _ = unfold collect all_read in rw append-nil (ground arith)
  parse_entries_lem (itr ∷ vs) cs good (caught, all) =
      let ((cs', good'), (e, same, flag)) = round itr vs cs good caught in
      rw (e, parse_entries) (parse_entries_lem vs cs' good' all ∙ ap₂ (λ a b. ok (a, b)) same flag)

  parse_entries_escape :
      (before after : List Value) (itr : Value) (cs : List Campagne) (good : Bool)
      → All IsCaught before
      → read_campagne j itr ≡ err out_of_range
      → parse_entries j (before ++ (itr ∷ after)) (cs, good) ≡ err out_of_range
  unfolding parse_entries parse_entry handle
  parse_entries_escape [] after itr cs good _ h = rw (h, parse_entry)
  parse_entries_escape (v ∷ before) after itr cs good (caught, all) h =
      let ((cs', good'), (e, _, _)) = round v before cs good caught in
      rw (e, parse_entries) (parse_entries_escape before after itr cs' good' all h)

  -- In a document with entries, if the first entries are read or caught and the reading of the next
  -- one throws `out_of_range`, the exception leaves the parse, whatever the later entries are.
  pub parse_campagnes_escape :
      (document : Value) (before after : List Value) (itr : Value)
      → 0 < size document
      → items document ≡ before ++ (itr ∷ after)
      → All IsCaught before
      → read_campagne j itr ≡ err out_of_range
      → parse_campagnes_from_json j (some document) [] ≡ err out_of_range
  unfolding parse_campagnes_from_json
  parse_campagnes_escape document before after itr full e all h =
      rw (lt→ltb 0 (size document) full, parse_campagnes_from_json, e)
        (parse_entries_escape before after itr [] true all h)

  -- What the loop keeps: the campaigns are loaded, and as long as the result is true there is one for
  -- each entry.
  abbrev Keeps : ℕ → List Campagne × Bool → Type 0
  Keeps done (cs, good) = All IsLoaded cs × (good ≡ true → length cs ≡ done)

  parse_entry-Keeps :
      (itr : Value) (done : ℕ) (state : List Campagne × Bool)
      → Keeps done state
      → Ensures (Keeps (done + 1)) (parse_entry j itr state)
  unfolding parse_entry copy
  parse_entry-Keeps itr done (cs, good) (loaded, counted) =
      elim (Result-cases (read_campagne j itr)) [
        | inl (c, e) ↦
            rw (e, parse_entry)
              (
                All-append IsLoaded cs (c ∷ []) loaded (rw e at (read_campagne-Ensures j itr), tt),
                λ h. omega (arith, counted h, length-append cs (c ∷ [])),
              )
        | inr (x, e) ↦
            rw (e, parse_entry) (Ensures-bind _ (handle j itr x) _ (λ _. (loaded, λ h. cc)))
      ]

  parse_entries-Keeps :
      (vs : List Value) (done : ℕ) (state : List Campagne × Bool)
      → Keeps done state
      → Ensures (Keeps (done + length vs)) (parse_entries j vs state)
  unfolding parse_entries
  parse_entries-Keeps [] done (cs, good) (loaded, counted) = (loaded, λ h. omega (arith, counted h))
  parse_entries-Keeps (itr ∷ vs) done state kept =
      Ensures-then (Keeps (done + 1)) _ (parse_entry j itr state) (parse_entries j vs)
        (parse_entry-Keeps itr done state kept)
        (λ state' kept'.
          let e : done + 1 + length vs ≡ done + suc (length vs) = omega arith in
          subst (λ n. Ensures (Keeps n) (parse_entries j vs state')) e
            (parse_entries-Keeps vs (done + 1) state' kept'))

  -- For a document with no entry whose exception escapes: the list holds the campaigns of the entries
  -- that are read, in their order, and the result is whether all are read. Without an entry the list
  -- is empty and the result false.
  pub parse_campagnes_lem :
      (document : Value)
      → All IsCaught (items document)
      → parse_campagnes_from_json j (some document) [] ≡ (
          if ltb 0 (size document)
          then ok (collect (items document), all_read (items document))
          else ok ([], false))
  unfolding parse_campagnes_from_json
  parse_campagnes_lem document all =
      rw (parse_entries_lem (items document) [] true all) (ground arith)

  -- The list and the result of a whole document.
  abbrev IsStock : List Campagne × Bool → Type 0
  IsStock (cs, good) = All IsLoaded cs × ((good ≡ false) ⊎ (cs ≢ []))

  Keeps-IsStock : (n : ℕ) (state : List Campagne × Bool) → 0 < n → Keeps n state → IsStock state
  Keeps-IsStock n (cs, false) pos (loaded, _) = (loaded, inl refl)
  Keeps-IsStock n ([], true) pos (loaded, counted) = absurd (omega (arith, counted refl))
  Keeps-IsStock n (c ∷ cs, true) pos (loaded, _) = (loaded, inr (λ e. cc))

  Ensures-IsStock :
      (n : ℕ) (r : Result (List Campagne × Bool)) → 0 < n → Ensures (Keeps n) r → Ensures IsStock r
  Ensures-IsStock n (ok state) pos h = Keeps-IsStock n state pos h
  Ensures-IsStock n (err e) pos h = tt

  module _ (sized : (v : Value) → size v ≡ length (items v)) where
    parse_campagnes-Ensures :
        (document : Option Value) → Ensures IsStock (parse_campagnes_from_json j document [])
    unfolding parse_campagnes_from_json
    parse_campagnes-Ensures none = (tt, inl refl)
    parse_campagnes-Ensures (some document) = elim (Bool-cases (ltb 0 (size document))) [
      | inl some_entry ↦
          rw (some_entry, parse_campagnes_from_json)
            (Ensures-IsStock (0 + length (items document)) _
              (omega (arith, ltb→lt 0 (size document) some_entry, sized document))
              (parse_entries-Keeps (items document) 0 ([], true) (tt, λ _. refl)))
      | inr empty ↦ rw (empty, parse_campagnes_from_json) (tt, inl refl)
    ]

    -- If the size of a JSON value counts its items and the parse returns, each campaign of the list is
    -- one that the constructor accepts, with values that a `float` can have and filters with their keys
    -- in order, a value at least, and `language` and `ifa` in lower case; and the result is true only
    -- if there is a campaign.
    pub parse_campagnes-IsLoaded :
        (document : Option Value) (cs : List Campagne) (good : Bool)
        → parse_campagnes_from_json j document [] ≡ ok (cs, good)
        → All IsLoaded cs × ((good ≡ false) ⊎ (cs ≢ []))
    parse_campagnes-IsLoaded document cs good e = rw e at (parse_campagnes-Ensures document)
