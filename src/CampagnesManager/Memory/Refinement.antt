-- ===== src/CampagnesManager/Memory/Refinement.antt =====
-- `ParseCampagnesFromJson` on objects does what `CampagnesManager/Parse` says on lists.
use tabmo_codding_challenge.Common.Result.{Result, ok, err, Result-cases, ◌>>=◌}
use tabmo_codding_challenge.Common.{
  ℕ, ◌≡◌, inl, inr, refl, Bool, true, false, Option, none, some, List, [], ◌∷◌, ltb, Bool-cases,
}
use tabmo_codding_challenge.Json.{Json}
use tabmo_codding_challenge.Campagne.{Campagne, copy}
use tabmo_codding_challenge.CampagnesManager.Parse.{
  read_campagne, handle, parse_entry, parse_entries, parse_campagnes_from_json,
}
use tabmo_codding_challenge.CampagnesManager.Memory.{
  finished, Memory, load_entry, load_entries, load_campagnes,
}
use tabmo_codding_challenge.CampagnesManager.Memory.Added.{Settled, add_campagne_lem}

-- The objects hold what the model on lists has, or the same exception leaves.
abbrev pub Agrees : Result (List Campagne × Bool) → Memory × Result Bool → Type 0
Agrees (ok (cs, good)) (m, r) = Settled m cs × (r ≡ ok good)
Agrees (err e) (m, r) = (m.access ≡ false) × (r ≡ err e)

module _ (j : Json) (fresh : Campagne) (is_full : ℕ → Bool) where
  open j use {Value, size, items}

  load_entry_lem :
      (itr : Value) (m : Memory) (cs : List Campagne) (good : Bool)
      → Settled m cs
      → (out : Memory × Result Bool) × (load_entry fresh is_full j itr m good ≡ finished out)
        × Agrees (parse_entry j itr (cs, good)) out
  unfolding load_entry parse_entry copy
  load_entry_lem itr m cs good settled = elim (Result-cases (read_campagne j itr)) [
    | inl (c, e) ↦
        let (m', ran, settled') = add_campagne_lem fresh is_full c m cs settled in
        ((m', ok good), rw (e, load_entry) (rw ran refl), rw (e, parse_entry) (settled', refl))
    | inr (x, e) ↦ elim (Result-cases (handle j itr x)) [
      | inl (u, h) ↦
          ((m, ok false), rw (e, load_entry, h) refl, rw (e, parse_entry, h) (settled, refl))
      | inr (y, h) ↦
          ((m, err y), rw (e, load_entry, h) refl, rw (e, parse_entry, h) (settled.free, refl))
    ]
  ]

  load_entries_lem :
      (entries : List Value) (r : Result (List Campagne × Bool)) (out : Memory × Result Bool)
      → Agrees r out
      → (out' : Memory × Result Bool) × (load_entries fresh is_full j entries out ≡ finished out')
        × Agrees (r >>= parse_entries j entries) out'
  unfolding load_entries parse_entries
  load_entries_lem [] (ok state) out agrees = (out, refl, agrees)
  load_entries_lem [] (err e) out agrees = (out, refl, agrees)
  load_entries_lem (itr ∷ rest) (err e) (m, r) (free, thrown) =
      ((m, err e), rw (thrown, load_entries) refl, (free, refl))
  load_entries_lem (itr ∷ rest) (ok (cs, good)) (m, r) (settled, returned) =
      let (out, ran, agrees) = load_entry_lem itr m cs good settled in
      let (out', rans, agrees') = load_entries_lem rest (parse_entry j itr (cs, good)) out agrees in
      (out', rw (returned, load_entries) (rw ran rans), agrees')

  pub load_campagnes_lem :
      (document : Option Value) (m : Memory) (cs : List Campagne)
      → Settled m cs
      → (out : Memory × Result Bool) × (load_campagnes fresh is_full j document m ≡ finished out)
        × Agrees (parse_campagnes_from_json j document cs) out
  unfolding load_campagnes parse_campagnes_from_json
  load_campagnes_lem none m cs settled = ((m, ok false), refl, (settled, refl))
  load_campagnes_lem (some document) m cs settled = elim (Bool-cases (ltb 0 (size document))) [
    | inl full ↦
        let (out, ran, agrees) =
          load_entries_lem (items document) (ok (cs, true)) (m, ok true) (settled, refl) in
        (out, rw (full, load_campagnes) ran, rw (full, parse_campagnes_from_json) agrees)
    | inr bare ↦ (
      (m, ok false),
      rw (bare, load_campagnes) refl,
      rw (bare, parse_campagnes_from_json) (settled, refl),
    )
  ]
