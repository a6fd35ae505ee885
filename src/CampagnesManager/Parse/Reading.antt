-- ===== src/CampagnesManager/Parse/Reading.antt =====
-- What `GetFilterFromItr` makes of the filters of an entry.
use mathlib.Core.List.{append_assoc, append-nil}
use tabmo_codding_challenge.Common.Text.{Bytes, codes, ◌=s=◌, =s=_iff}
use tabmo_codding_challenge.Common.Result.{Result, ok, json, Ensures, Ensures-bind, Ensures-then}
use tabmo_codding_challenge.Common.{
  inl, inr, ◌≡◌, refl, ◌∙◌, ap, Bool, true, false, some, List, [], ◌∷◌, ◌++◌, All, map,
  if◌then◌else◌, Bool-cases,
}
use tabmo_codding_challenge.Json.{Json}
use tabmo_codding_challenge.Campagne.{Filters}
use tabmo_codding_challenge.CampagnesManager.Parse.{
  push_back_at, stored, add_values, add_keys, get_filter_from_itr, read_filters,
}
use tabmo_codding_challenge.CampagnesManager.Parse.FilterMap.{
  IsFilterMap, values_of, values_of-push_back_at, push_back_at-IsFilterMap,
}

nil-IsFilterMap : IsFilterMap []
nil-IsFilterMap = record { ordered = tt; stored_values = tt }

no_values :
    (filters : Filters)
    → IsFilterMap filters
    → ((key : Bytes) → values_of key filters ≡ [])
    → filters ≡ []
no_values [] m none_left = refl
no_values ((k, values) ∷ rest) m none_left =
    absurd (m.stored_values.0.0 (rw ((=s=_iff k k).1 refl) at (none_left k)))

module _ (j : Json) where
  open j use {Value, get, as_string, get_member_names, empty, items}

  add_values-Ensures :
      (key : Bytes) (vs : List Value) (filters : Filters)
      → IsFilterMap filters
      → Ensures IsFilterMap (add_values j key vs filters)
  unfolding add_values
  add_values-Ensures key [] filters m = m
  add_values-Ensures key (v ∷ vs) filters m = Ensures-bind _ (json (as_string v)) _ λ value.
      add_values-Ensures key vs (push_back_at key (stored key value) filters)
        (push_back_at-IsFilterMap key value filters m)

  add_keys-Ensures :
      (itr : Value) (kind : Bytes) (keys : List Bytes) (filters : Filters)
      → IsFilterMap filters
      → Ensures IsFilterMap (add_keys j itr kind keys filters)
  unfolding add_keys
  add_keys-Ensures itr kind [] filters m = m
  add_keys-Ensures itr kind (key ∷ keys) filters m =
      Ensures-bind _ (json (get itr (codes "filters"))) _ λ node.
        Ensures-bind _ (json (get node kind)) _ λ entries.
          Ensures-bind _ (json (get entries key)) _ λ list.
            Ensures-then IsFilterMap _ (add_values j key (items list) filters) _
              (add_values-Ensures key (items list) filters m)
              λ filters' m'. add_keys-Ensures itr kind keys filters' m'

  -- Filters that are read form a map: its keys are in order, each has a value, and the values of
  -- `language` and `ifa` are in lower case.
  pub read_filters-Ensures :
      (itr : Value) (kind : Bytes) → Ensures IsFilterMap (read_filters j itr kind)
  unfolding read_filters get_filter_from_itr
  read_filters-Ensures itr kind =
      Ensures-bind _ (json (get itr (codes "filters"))) _
        λ node. Ensures-bind _ (json (get node kind)) _ λ entries. go node entries (empty entries)
    where
      read : Ensures IsFilterMap (get_filter_from_itr j itr kind)
      read = Ensures-bind _ (json (get itr (codes "filters"))) _ λ node.
          Ensures-bind _ (json (get node kind)) _ λ entries.
            Ensures-bind _ (json (get_member_names entries)) _
              λ names. add_keys-Ensures itr kind names [] nil-IsFilterMap

      go :
          (node entries : Value) (b : Bool)
          → Ensures IsFilterMap (elim b [ true ↦ ok [] | false ↦ get_filter_from_itr j itr kind ])
      go node entries true = nil-IsFilterMap
      go node entries false = read

  -- The texts of a list of values.
  abbrev Texts : List Value → List Bytes → Type 0
  Texts [] [] = Unit {0}
  Texts (v ∷ vs) (s ∷ ss) = (as_string v ≡ some s) × Texts vs ss
  Texts _ _ = ⊥

  -- What an object of filters holds: its keys, each with its texts.
  abbrev pub Source : Type 0
  Source = List (Bytes × List Bytes)

  abbrev pub Lists : Value → Source → Type 0
  Lists entries =
      All (λ entry. (list : Value) × (get entries entry.0 ≡ some list) × Texts (items list) entry.1)

  -- The values that a key should have: its texts, stored, in their order.
  abbrev pub gathered : Bytes → Source → List Bytes
  gathered key [] = []
  gathered key ((k, texts) ∷ rest) =
      if k =s= key then map (stored k) texts ++ gathered key rest else gathered key rest

  -- Filters that have got what they should.
  abbrev Adds : Source → Filters → Result Filters → Type 0
  Adds source filters result =
      (filters' : Filters) × (result ≡ ok filters')
      × IsFilterMap filters'
      × ((key : Bytes) → values_of key filters' ≡ values_of key filters ++ gathered key source)

  add_values_lem :
      (k : Bytes) (vs : List Value) (texts : List Bytes) (filters : Filters)
      → Texts vs texts
      → IsFilterMap filters
      → Adds ((k, texts) ∷ []) filters (add_values j k vs filters)
  unfolding add_values
  add_values_lem k [] [] filters t m = (
    filters,
    refl,
    m,
    λ key. elim (Bool-cases (k =s= key)) [
      | inl h ↦ rw (h, append-nil)
      | inr h ↦ rw (h, append-nil)
    ],
  )
  add_values_lem k (v ∷ vs) (s ∷ ss) filters (e, t) m =
      let filters1 = push_back_at k (stored k s) filters in
      let (filters', r, m', same) =
        add_values_lem k vs ss filters1 t (push_back_at-IsFilterMap k s filters m) in
      (
        filters',
        rw (e, add_values) r,
        m',
        λ key.
            let pushed = values_of-push_back_at k (stored k s) key filters m.ordered in
            elim (Bool-cases (k =s= key)) [
              | inl h ↦ rw h (
                  (rw h at (same key))
                  ∙ ap (λ t. t ++ (map (stored k) ss ++ [])) (rw h at pushed)
                  ∙ append_assoc (values_of key filters) (stored k s ∷ [])
                      (map (stored k) ss ++ []))
              | inr h ↦ rw h ((rw h at (same key)) ∙ ap (λ t. t ++ []) (rw h at pushed))
            ],
      )
  add_values_lem _ _ _ filters t m = elim t [ ]

  gathered-∷ :
      (key : Bytes) (entry : Bytes × List Bytes) (source : Source)
      → gathered key (entry ∷ []) ++ gathered key source ≡ gathered key (entry ∷ source)
  gathered-∷ key (k, texts) source = elim (Bool-cases (k =s= key)) [
    | inl h ↦ rw (h, append-nil)
    | inr h ↦ rw h
  ]

  gathered_empty :
      (key : Bytes) (source : Source)
      → All (λ entry. entry.1 ≡ []) source
      → gathered key source ≡ []
  gathered_empty key [] all = refl
  gathered_empty key ((k, texts) ∷ source) (e, all) = elim (Bool-cases (k =s= key)) [
    | inl h ↦ rw (h, e) (gathered_empty key source all)
    | inr h ↦ rw h (gathered_empty key source all)
  ]

  -- The keys of the source, as `getMemberNames` gives them.
  abbrev pub keys : Source → List Bytes
  keys [] = []
  keys ((key, texts) ∷ rest) = key ∷ keys rest

  module _ (itr node entries : Value) (kind : Bytes)
      (has_node : get itr (codes "filters") ≡ some node)
      (has_kind : get node kind ≡ some entries) where
    add_keys_lem :
        (source : Source) (filters : Filters)
        → Lists entries source
        → IsFilterMap filters
        → Adds source filters (add_keys j itr kind (keys source) filters)
    unfolding add_keys
    add_keys_lem [] filters all m = (filters, refl, m, λ key. rw append-nil)
    add_keys_lem ((k, texts) ∷ source) filters ((list, e, t), all) m =
        let (filters1, r1, m1, same1) = add_values_lem k (items list) texts filters t m in
        let (filters2, r2, m2, same2) = add_keys_lem source filters1 all m1 in
        (
          filters2,
          rw (has_node, has_kind, e, r1, add_keys) r2,
          m2,
          λ key.
              same2 key
              ∙ ap (λ t. t ++ gathered key source) (same1 key)
              ∙ append_assoc (values_of key filters) (gathered key ((k, texts) ∷ []))
                  (gathered key source)
              ∙ ap (λ t. values_of key filters ++ t) (gathered-∷ key (k, texts) source),
        )

    -- If the filters of an entry are objects whose members are lists of texts, `GetFilterFromItr` returns
    -- a map with its keys in order, in which each key has exactly its texts, in their order and those of
    -- `language` and `ifa` in lower case, and no entry is empty.
    pub get_filter_from_itr_lem :
        (source : Source)
        → get_member_names entries ≡ some (keys source)
        → Lists entries source
        → (filters : Filters) × (get_filter_from_itr j itr kind ≡ ok filters)
          × IsFilterMap filters
          × ((key : Bytes) → values_of key filters ≡ gathered key source)
    unfolding get_filter_from_itr
    get_filter_from_itr_lem source names all =
        let (filters, r, m, same) = add_keys_lem source [] all nil-IsFilterMap in
        (filters, rw (has_node, has_kind, names, get_filter_from_itr) r, m, same)

    -- If the filters of an entry are objects whose members are all without values, `GetFilterFromItr`
    -- returns the empty map: such filters are dropped, though a filter should have 1 value at least.
    pub empty_filters_dropped :
        (source : Source)
        → get_member_names entries ≡ some (keys source)
        → Lists entries source
        → All (λ entry. entry.1 ≡ []) source
        → get_filter_from_itr j itr kind ≡ ok []
    empty_filters_dropped source names all none_left =
        let (filters, r, m, same) = get_filter_from_itr_lem source names all in
        let nothing = no_values filters m (λ key. same key ∙ gathered_empty key source none_left) in
        r ∙ ap ok nothing
