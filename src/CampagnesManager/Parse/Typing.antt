-- ===== src/CampagnesManager/Parse/Typing.antt =====
-- The numbers of the campaigns that `ParseCampagnesFromJson` reads are of their types.
use tabmo_codding_challenge.Common.Text.{Bytes, codes}
use tabmo_codding_challenge.Common.Result.{Ensures, Ensures-bind, Ensures-then, Result-cases}
use tabmo_codding_challenge.Common.{
  inl, inr, Bool, true, Option, some, none, List, [], ◌∷◌, All, All-append, ltb, Bool-cases,
  Option-cases,
}
use tabmo_codding_challenge.Common.Int.{IsInt}
use tabmo_codding_challenge.Float.Stof.{stof}
use tabmo_codding_challenge.Float.Stof.Floats.{stof-IsFloat}
use tabmo_codding_challenge.Float.Value.{IsFloat}
use tabmo_codding_challenge.Json.{Json, GivesInts}
use tabmo_codding_challenge.Campagne.{Campagne, copy}
use tabmo_codding_challenge.Campagne.Typing.{IsTyped, construct-IsTyped}
use tabmo_codding_challenge.CampagnesManager.Parse.{
  read_campagne, read_filters, string_at, int_at, bool_at, handle, parse_entry, parse_entries,
  parse_campagnes_from_json,
}

module _ (j : Json) (ints : GivesInts j) where
  open j use {Value, size, items}

  pub int_at-IsInt : (v : Value) (key : Bytes) → Ensures IsInt (int_at j v key)
  unfolding int_at
  int_at-IsInt v key = elim (Option-cases (j.get v key)) [
    | inl e ↦ rw (e, int_at) tt
    | inr (node, e) ↦ elim (Option-cases (j.as_int node)) [
      | inl f ↦ rw (e, int_at) (rw f tt)
      | inr (n, f) ↦ rw (e, int_at) (rw f (ints node n f))
    ]
  ]

  read_campagne-IsTyped : (itr : Value) → Ensures IsTyped (read_campagne j itr)
  unfolding read_campagne
  read_campagne-IsTyped itr = Ensures-bind _ (read_filters j itr (codes "include")) _ λ included.
      Ensures-bind _ (read_filters j itr (codes "exclude")) _ λ excluded.
        Ensures-bind _ (string_at j itr (codes "id")) _ λ id.
          Ensures-bind _ (string_at j itr (codes "budget")) _ λ budget_text.
            Ensures-then IsFloat _ (stof budget_text) _ (stof-IsFloat budget_text)
              λ budget is_budget.
                Ensures-bind _ (string_at j itr (codes "bidPrice")) _ λ price_text.
                  Ensures-then IsFloat _ (stof price_text) _ (stof-IsFloat price_text)
                    λ price is_price.
                      Ensures-then IsInt _ (int_at j itr (codes "width")) _
                        (int_at-IsInt itr (codes "width"))
                        λ w is_w.
                          Ensures-then IsInt _ (int_at j itr (codes "height")) _
                            (int_at-IsInt itr (codes "height"))
                            λ h is_h.
                              Ensures-bind _ (bool_at j itr (codes "responsive")) _ λ responsive.
                                Ensures-bind _ (string_at j itr (codes "url")) _ λ url.
                                  construct-IsTyped _ (record {
                                    float_budget = is_budget;
                                    float_price = is_price;
                                    int_width = is_w;
                                    int_height = is_h;
                                  })

  abbrev AreTyped : List Campagne × Bool → Type 0
  AreTyped (cs, good) = All IsTyped cs

  parse_entry-AreTyped :
      (itr : Value) (state : List Campagne × Bool)
      → AreTyped state
      → Ensures AreTyped (parse_entry j itr state)
  unfolding parse_entry copy
  parse_entry-AreTyped itr (cs, good) typed = elim (Result-cases (read_campagne j itr)) [
    | inl (c, e) ↦
        rw (e, parse_entry)
          (All-append IsTyped cs (c ∷ []) typed (rw e at (read_campagne-IsTyped itr), tt))
    | inr (x, e) ↦ rw (e, parse_entry) (Ensures-bind _ (handle j itr x) _ (λ _. typed))
  ]

  parse_entries-AreTyped :
      (vs : List Value) (state : List Campagne × Bool)
      → AreTyped state
      → Ensures AreTyped (parse_entries j vs state)
  unfolding parse_entries
  parse_entries-AreTyped [] (cs, good) typed = typed
  parse_entries-AreTyped (itr ∷ vs) state typed =
      Ensures-then AreTyped _ (parse_entry j itr state) (parse_entries j vs)
        (parse_entry-AreTyped itr state typed) (parse_entries-AreTyped vs)

  pub parse_campagnes-IsTyped :
      (document : Option Value) → Ensures AreTyped (parse_campagnes_from_json j document [])
  unfolding parse_campagnes_from_json
  parse_campagnes-IsTyped none = tt
  parse_campagnes-IsTyped (some document) = elim (Bool-cases (ltb 0 (size document))) [
    | inl some_entry ↦
        rw (some_entry, parse_campagnes_from_json)
          (parse_entries-AreTyped (items document) ([], true) tt)
    | inr empty ↦ rw (empty, parse_campagnes_from_json) tt
  ]
