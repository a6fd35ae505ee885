-- ===== src/Common/Text/Search.antt =====
-- What `std::string::find` and `std::find_if` find.
use tabmo_codding_challenge.Common.{
  ◌≡◌, ◌↔◌, inl, inr, refl, ap, Bool, true, List, [], ◌∷◌, ◌++◌, arith, Bool-cases, any, Any,
}
use tabmo_codding_challenge.Common.Text.{Bytes, is_prefix, contains}

-- `s` stands somewhere in `t`.
abbrev pub IsPart : Bytes → Bytes → Type 0
IsPart s t = (before : Bytes) × (after : Bytes) × (t ≡ before ++ (s ++ after))

is_prefix_sound : (s t : Bytes) → is_prefix s t ≡ true → (after : Bytes) × (t ≡ s ++ after)
unfolding is_prefix
is_prefix_sound [] t h = (t, refl)
is_prefix_sound (x ∷ s) [] h = absurd (cc)
is_prefix_sound (x ∷ s) (y ∷ t) h =
    let (after, e) = is_prefix_sound s t (ground arith) in (after, ground arith)

is_prefix_complete : (s after : Bytes) → is_prefix s (s ++ after) ≡ true
unfolding is_prefix
is_prefix_complete [] after = refl
is_prefix_complete (x ∷ s) after = ground (arith, is_prefix_complete s after)

contains_sound : (s t : Bytes) → contains s t ≡ true → IsPart s t
unfolding contains
contains_sound s [] h = let (after, e) = is_prefix_sound s [] h in ([], after, e)
contains_sound s (y ∷ t) h = elim (Bool-cases (is_prefix s (y ∷ t))) [
  | inl here ↦ let (after, e) = is_prefix_sound s (y ∷ t) here in ([], after, e)
  | inr elsewhere ↦
      let (before, after, e) = contains_sound s t (ground arith) in
      (y ∷ before, after, ap (λ u. y ∷ u) e)
]

contains_of_prefix : (s t : Bytes) → is_prefix s t ≡ true → contains s t ≡ true
unfolding contains
contains_of_prefix s [] h = h
contains_of_prefix s (y ∷ t) h = ground arith

contains_complete : (s before after : Bytes) → contains s (before ++ (s ++ after)) ≡ true
unfolding contains
contains_complete s [] after = contains_of_prefix s (s ++ after) (is_prefix_complete s after)
contains_complete s (y ∷ before) after = ground (arith, contains_complete s before after)

-- The search finds a text exactly where it stands, the empty one everywhere.
pub contains_iff : (s t : Bytes) → (contains s t ≡ true) ↔ IsPart s t
contains_iff s t =
    (contains_sound s t, λ (before, after, e). rw e (contains_complete s before after))

pub any_iff {ℓ} :
    {A : Type ℓ} (p : A → Bool) (P : A → Type 0)
    → ((a : A) → (p a ≡ true) ↔ P a)
    → (xs : List A) → (any p xs ≡ true) ↔ Any P xs
any_iff p P each [] = ground arith
any_iff p P each (x ∷ xs) = ground (arith, each x, any_iff p P each xs)
