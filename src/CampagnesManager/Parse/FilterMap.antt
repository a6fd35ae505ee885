-- ===== src/CampagnesManager/Parse/FilterMap.antt =====
-- The `map<string, vector<string>>` that `GetFilterFromItr` fills: a list in the order of its keys.
use tabmo_codding_challenge.Common.Text.{Bytes, ◌=s=◌, =s=_iff, lower, lower_idem}
use tabmo_codding_challenge.Common.{
  ◌≡◌, ◌≢◌, ◌⊎◌, inl, inr, refl, true, false, List, [], ◌∷◌, ◌++◌, arith, All, All-append,
  if◌then◌else◌, Bool-cases,
}
use tabmo_codding_challenge.Campagne.{Filters, language, ifa}
use tabmo_codding_challenge.CampagnesManager.Parse.{lt_text, push_back_at, stored}

lt_text_trans : (a b c : Bytes) → lt_text a b ≡ true → lt_text b c ≡ true → lt_text a c ≡ true
unfolding lt_text
lt_text_trans a b [] h h' = cc
lt_text_trans a [] (z ∷ c) h h' = cc
lt_text_trans [] (y ∷ b) (z ∷ c) h h' = refl
lt_text_trans (x ∷ a) (y ∷ b) (z ∷ c) h h' = ground (arith, lt_text_trans a b c)

lt_text_irrefl : (a : Bytes) → lt_text a a ≡ false
unfolding lt_text
lt_text_irrefl [] = refl
lt_text_irrefl (x ∷ a) = ground (arith, lt_text_irrefl a)

-- Of two different keys one is the smaller.
lt_text_total : (a b : Bytes) → (a =s= b) ≡ false → lt_text a b ≡ false → lt_text b a ≡ true
unfolding lt_text ◌=s=◌
lt_text_total [] [] h h' = cc
lt_text_total [] (y ∷ b) h h' = cc
lt_text_total (x ∷ a) [] h h' = refl
lt_text_total (x ∷ a) (y ∷ b) h h' = ground (arith, lt_text_total a b)

-- All keys are larger than `key`.
abbrev Above : Bytes → Filters → Type 0
Above key = All (λ entry. lt_text key entry.0 ≡ true)

abbrev IsOrdered : Filters → Type 0
IsOrdered [] = Unit {0}
IsOrdered ((key, values) ∷ rest) = Above key rest × IsOrdered rest

-- A filter has a value, and those of `language` and `ifa` are in lower case.
abbrev IsStored : Bytes × List Bytes → Type 0
IsStored (key, values) =
    (values ≢ []) × (((key ≡ language) ⊎ (key ≡ ifa)) → All (λ value. lower value ≡ value) values)

pub record IsFilterMap (filters : Filters) : Type 0 where
  pub ordered : IsOrdered filters
  pub stored_values : All IsStored filters

-- The values of a key, none if the map has no entry for it.
abbrev pub values_of : Bytes → Filters → List Bytes
values_of key [] = []
values_of key ((k, values) ∷ rest) = if k =s= key then values else values_of key rest

Above-trans :
    (a b : Bytes) (filters : Filters) → lt_text a b ≡ true → Above b filters → Above a filters
Above-trans a b [] h above = tt
Above-trans a b ((k, values) ∷ rest) h (first, later) =
    (lt_text_trans a b k h first, Above-trans a b rest h later)

-- A key below all others has no entry.
values_of-Above : (key : Bytes) (filters : Filters) → Above key filters → values_of key filters ≡ []
values_of-Above key [] above = refl
values_of-Above key ((k, values) ∷ rest) (first, later) = elim (Bool-cases (k =s= key)) [
  | inl same ↦
      let e : k ≡ key = (=s=_iff k key).0 same in
      absurd
        (let first' : lt_text key key ≡ true = rw e at first in ground (arith, lt_text_irrefl key))
  | inr differ ↦ rw differ (values_of-Above key rest later)
]

push_back_at-Above :
    (low key value : Bytes) (filters : Filters)
    → lt_text low key ≡ true
    → Above low filters
    → Above low (push_back_at key value filters)
unfolding push_back_at
push_back_at-Above low key value [] h above = (h, tt)
push_back_at-Above low key value ((k, values) ∷ rest) h (first, later) =
    ground (arith, push_back_at-Above low key value rest h later)

push_back_at-IsOrdered :
    (key value : Bytes) (filters : Filters)
    → IsOrdered filters
    → IsOrdered (push_back_at key value filters)
unfolding push_back_at
push_back_at-IsOrdered key value [] o = (tt, tt)
push_back_at-IsOrdered key value ((k, values) ∷ rest) (above, o) = elim (Bool-cases (k =s= key)) [
  | inl same ↦ rw (same, push_back_at) (above, o)
  | inr differ ↦ elim (Bool-cases (lt_text key k)) [
    | inl below ↦
        rw (differ, push_back_at, below) ((below, Above-trans key k rest below above), (above, o))
    | inr not_below ↦
        rw (differ, push_back_at, not_below)
          (
            push_back_at-Above k key value rest
                (lt_text_total key k (ground (arith, =s=_iff k key, =s=_iff key k)) not_below)
                above,
            push_back_at-IsOrdered key value rest o,
          )
  ]
]

-- `map[key].push_back(value)` adds the value to the values of its key, and changes no others.
pub values_of-push_back_at :
    (key value other : Bytes) (filters : Filters)
    → IsOrdered filters
    → values_of other (push_back_at key value filters)
      ≡ (if key =s= other then values_of other filters ++ (value ∷ []) else values_of other filters)
unfolding push_back_at
values_of-push_back_at key value other [] o = refl
values_of-push_back_at key value other ((k, values) ∷ rest) (above, o) =
    elim (Bool-cases (k =s= key)) [
      | inl same ↦
          let e : k ≡ key = (=s=_iff k key).0 same in rw (same, push_back_at) (rw e (ground arith))
      | inr differ ↦ elim (Bool-cases (lt_text key k)) [
        | inl below ↦
            rw (differ, push_back_at, below)
              (ground (
                arith,
                =s=_iff k key,
                =s=_iff key other,
                =s=_iff k other,
                values_of-Above key rest (Above-trans key k rest below above),
              ))
        | inr not_below ↦
            rw (differ, push_back_at, not_below)
              (ground (
                arith,
                =s=_iff k key,
                =s=_iff key other,
                =s=_iff k other,
                values_of-push_back_at key value other rest o,
              ))
      ]
    ]

lower-stored :
    (key value : Bytes)
    → ((key ≡ language) ⊎ (key ≡ ifa))
    → lower (stored key value) ≡ stored key value
unfolding stored
lower-stored key value h = ground (arith, =s=_iff key language, =s=_iff key ifa, lower_idem value)

append-ne-nil : (values : List Bytes) (value : Bytes) → values ++ (value ∷ []) ≢ []
append-ne-nil [] value e = cc
append-ne-nil (v ∷ values) value e = cc

push_back_at-stored :
    (key value : Bytes) (filters : Filters)
    → All IsStored filters
    → All IsStored (push_back_at key (stored key value) filters)
unfolding push_back_at
push_back_at-stored key value [] all = (((λ e. cc), λ h. (lower-stored key value h, tt)), tt)
push_back_at-stored key value ((k, values) ∷ rest) ((some_value, lowered), all) =
    elim (Bool-cases (k =s= key)) [
      | inl same ↦
          let e : k ≡ key = (=s=_iff k key).0 same in
          rw (same, push_back_at)
            (
              (
                append-ne-nil values (stored key value),
                λ h.
                    All-append (λ v. lower v ≡ v) values (stored key value ∷ []) (lowered h)
                      (lower-stored key value (rw (← e) h), tt),
              ),
              all,
            )
      | inr differ ↦ elim (Bool-cases (lt_text key k)) [
        | inl below ↦
            rw (differ, push_back_at, below)
              (((λ e. cc), λ h. (lower-stored key value h, tt)), ((some_value, lowered), all))
        | inr not_below ↦
            rw (differ, push_back_at, not_below)
              ((some_value, lowered), push_back_at-stored key value rest all)
      ]
    ]

pub push_back_at-IsFilterMap :
    (key value : Bytes) (filters : Filters)
    → IsFilterMap filters
    → IsFilterMap (push_back_at key (stored key value) filters)
push_back_at-IsFilterMap key value filters m = record {
  ordered = push_back_at-IsOrdered key (stored key value) filters m.ordered;
  stored_values = push_back_at-stored key value filters m.stored_values;
}
