-- ===== src/Campagne/Objects/Copies.antt =====
-- What the copies and moves do to the objects.
use native.Mathlib.Decide.{ℕ_discrete}
use tabmo_codding_challenge.Common.Text.{Bytes}
use tabmo_codding_challenge.Common.{
  ℕ, zero, suc, ◌≡◌, ◌≢◌, refl, ap, ◌∙◌, true, false, ◌||◌, some, [], ◌∷◌, ◌++◌, ◌==◌, arith,
  get_elem?, set, length, if◌then◌else◌, get_elem?-set_self, get_elem?-set_ne, get_elem?-lt,
}
use tabmo_codding_challenge.Campagne.{Campagne, Filters}
use tabmo_codding_challenge.Campagne.Objects.{
  set_mutex, set_attributes, Object, Store, Outcome, done, ◌>>=◌, change, lock_both, lock_free,
  unlock_both, assign, assign_object, copy_assign, copy_construct, left_behind, move_assign,
  move_construct,
}

-- Every attribute is assigned.
assign_lem : (c d : Campagne) → assign c d ≡ d
unfolding assign
assign_lem c d = refl

-- A store in which object `k` is `x`, and the others are as in `st`.
abbrev pub With : Store → ℕ → Object → Store → Type 0
With st k x st' = (i : ℕ) → get_elem? st' i ≡ (if k == i then some x else get_elem? st i)

get_elem?-set :
    (st : Store) (k : ℕ) (x y : Object) → get_elem? st k ≡ some y → With st k x (set st k x)
get_elem?-set st k x y at i = elim (ℕ_discrete k i) [
  | yes e ↦ rw (← e) (ground (arith, get_elem?-set_self st k x (get_elem?-lt st k at)))
  | no ne ↦ ground (arith, get_elem?-set_ne st k i x ne)
]

change_lem :
    (st : Store) (k : ℕ) (f : Object → Object) (o : Object)
    → get_elem? st k ≡ some o
    → (st' : Store) × (change k f st ≡ done st') × With st k (f o) st'
unfolding change
change_lem st k f o at = (set st k (f o), rw (at, change), get_elem?-set st k (f o) o at)

-- Two objects changed one after the other.
abbrev pub WithBoth : Store → ℕ → Object → ℕ → Object → Store → Type 0
WithBoth st a x b y st' =
    (i : ℕ)
    → get_elem? st' i ≡ (if b == i then some y else if a == i then some x else get_elem? st i)

change_both_lem :
    (st : Store) (a b : ℕ) (f g : Object → Object) (x y : Object)
    → a ≢ b
    → get_elem? st a ≡ some x
    → get_elem? st b ≡ some y
    → (st' : Store) × ((change a f st >>= change b g) ≡ done st') × WithBoth st a (f x) b (g y) st'
change_both_lem st a b f g x y apart at_a at_b =
    let (s1, e1, v1) = change_lem st a f x at_a in
    let (s2, e2, v2) = change_lem s1 b g y (ground (arith, v1 b)) in
    (s2, rw (e1, ◌>>=◌) e2, λ i. ground (arith, v1 i, v2 i))

lock_both_lem :
    (st : Store) (a b : ℕ) (x y : Object)
    → a ≢ b
    → get_elem? st a ≡ some x
    → get_elem? st b ≡ some y
    → x.mutex ≡ false
    → y.mutex ≡ false
    → (st' : Store) × (lock_both a b st ≡ done st')
      × WithBoth st a (set_mutex true x) b (set_mutex true y) st'
unfolding lock_both lock_free
lock_both_lem st a b x y apart at_a at_b free_x free_y =
    let (st', e, v) =
      change_both_lem st a b (set_mutex true) (set_mutex true) x y apart at_a at_b in
    let differ : (a == b) ≡ false = ground arith in
    (st', rw (differ, lock_both, at_a, at_b) (rw (free_x, lock_free) (rw (free_y, ◌||◌) e)), v)

assign_object_lem :
    (st : Store) (dst src : ℕ) (o t : Object)
    → get_elem? st src ≡ some o
    → get_elem? st dst ≡ some t
    → (st' : Store) × (assign_object dst src st ≡ done st')
      × With st dst (record t { attributes = o.attributes }) st'
unfolding assign_object
assign_object_lem st dst src o t at_o at_t =
    let (st', e, v) = change_lem st dst (set_attributes (λ c. assign c o.attributes)) t at_t in
    (
      st',
      rw (at_o, assign_object) e,
      λ i. ground (arith, v i, assign_lem t.attributes o.attributes),
    )

-- An object with given attributes and a free mutex.
abbrev pub object : Campagne → Object
object c = record { attributes = c; mutex = false }

-- The same with its mutex locked.
abbrev held : Campagne → Object
held c = record { attributes = c; mutex = true }

module _ (st : Store) (this other : ℕ) (c d : Campagne) (apart : other ≢ this)
    (other_at : get_elem? st other ≡ some (object d))
    (this_at : get_elem? st this ≡ some (object c)) where
  -- Both mutexes are locked and the attributes assigned.
  assigned :
      (st' : Store) × ((lock_both other this st >>= assign_object this other) ≡ done st')
      × WithBoth st other (held d) this (held d) st'
  assigned =
      let (s1, e1, v1) =
        lock_both_lem st other this (object d) (object c) apart other_at this_at refl refl in
      let (s2, e2, v2) =
        assign_object_lem s1 this other (held d) (held c) (ground (arith, v1 other))
          (ground (arith, v1 this)) in
      (s2, rw (e1, ◌>>=◌) e2, λ i. ground (arith, v1 i, v2 i))

  -- Copy assignment between two objects whose mutexes are free: `this` takes every attribute of
  -- `other`, both mutexes are free again, and no other object changes.
  pub copy_assign_lem :
      (st' : Store) × (copy_assign this other st ≡ done st') × With st this (object d) st'
  unfolding copy_assign unlock_both
  copy_assign_lem =
      let (s1, e1, v1) = assigned in
      let (s2, e2, v2) =
        change_both_lem s1 other this (set_mutex false) (set_mutex false) (held d) (held d) apart
          (ground (arith, v1 other)) (ground (arith, v1 this)) in
      (s2, rw (e1, copy_assign) e2, λ i. ground (arith, v1 i, v2 i))

  module _ (moved_text : Bytes → Bytes) (moved_filters : Filters → Filters) where
    abbrev leave : Store → Outcome
    leave = change other (set_attributes (left_behind moved_text moved_filters))

    abbrev left : Campagne
    left = left_behind moved_text moved_filters d

    moved :
        (st' : Store) × ((lock_both other this st >>= assign_object this other >>= leave)
          ≡ done st')
        × WithBoth st other (held left) this (held d) st'
    moved =
        let (s1, e1, v1) = assigned in
        let (s2, e2, v2) =
          change_lem s1 other (set_attributes (left_behind moved_text moved_filters)) (held d)
            (ground (arith, v1 other)) in
        (s2, ap (λ r. r >>= leave) e1 ∙ e2, λ i. ground (arith, v1 i, v2 i))

    -- Move assignment does the same to `this`; `other` is left with what `std::move` leaves of its
    -- texts and maps, and keeps its numbers.
    pub move_assign_lem :
        (st' : Store) × (move_assign moved_text moved_filters this other st ≡ done st')
        × WithBoth st other (object left) this (object d) st'
    unfolding move_assign unlock_both
    move_assign_lem =
        let (s1, e1, v1) = moved in
        let (s2, e2, v2) =
          change_both_lem s1 other this (set_mutex false) (set_mutex false) (held left) (held d)
            apart (ground (arith, v1 other)) (ground (arith, v1 this)) in
        (s2, ap (λ r. r >>= unlock_both other this) e1 ∙ e2, λ i. ground (arith, v1 i, v2 i))

pub get_elem?-append :
    (st : Store) (x : Object) (i : ℕ)
    → get_elem? (st ++ (x ∷ [])) i ≡ (if length st == i then some x else get_elem? st i)
get_elem?-append [] x zero = refl
get_elem?-append [] x (suc i) = ground arith
get_elem?-append (y ∷ st) x zero = ground arith
get_elem?-append (y ∷ st) x (suc i) = ground (arith, get_elem?-append st x i)

-- The copy of an object whose mutex is free is a new object with every attribute of it and a mutex of
-- its own, which is free, whatever the new object held before; no other object changes.
pub copy_construct_lem :
    (st : Store) (other : ℕ) (fresh d : Campagne)
    → get_elem? st other ≡ some (object d)
    → (st' : Store) × (copy_construct fresh other st ≡ done st')
      × With st (length st) (object d) st'
unfolding copy_construct
copy_construct_lem st other fresh d at =
    let lt = get_elem?-lt st other at in
    let st1 = st ++ (object fresh ∷ []) in
    let (st', e, v) =
      copy_assign_lem st1 (length st) other fresh d (omega arith)
        (ground (arith, get_elem?-append st (object fresh) other))
        (ground (arith, get_elem?-append st (object fresh) (length st))) in
    (st', e, λ i. ground (arith, v i, get_elem?-append st (object fresh) i))

-- The construction by a move from an object whose mutex is free gives a new object with every attribute
-- of it and a free mutex of its own; `other` is left with what `std::move` leaves of its texts and
-- maps, keeps its numbers, and is free; no other object changes.
pub move_construct_lem :
    (moved_text : Bytes → Bytes) (moved_filters : Filters → Filters) (st : Store) (other : ℕ)
    (fresh d : Campagne)
    → get_elem? st other ≡ some (object d)
    → (st' : Store) × (move_construct moved_text moved_filters fresh other st ≡ done st')
      × WithBoth st other
          (object (left_behind moved_text moved_filters d))
          (length st)
          (object d)
          st'
unfolding move_construct
move_construct_lem moved_text moved_filters st other fresh d at =
    let lt = get_elem?-lt st other at in
    let st1 = st ++ (object fresh ∷ []) in
    let (st', e, v) =
      move_assign_lem st1 (length st) other fresh d (omega arith)
        (ground (arith, get_elem?-append st (object fresh) other))
        (ground (arith, get_elem?-append st (object fresh) (length st))) moved_text moved_filters in
    (st', e, λ i. ground (arith, v i, get_elem?-append st (object fresh) i))
