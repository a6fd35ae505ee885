-- ===== src/CampagnesManager/Parse.antt =====
-- `CampagnesManager::ParseCampagnesFromJson`, `GetFilterFromItr` and `GetCampagnesCount`. The document
-- is what JsonCpp's reader makes of the file, `none` where it cannot read it. `err` is an exception
-- that leaves the function.
pub mod Entries
pub mod FilterMap
pub mod Reading
pub mod Loaded
pub mod Typing
use tabmo_codding_challenge.Common.Text.{Bytes, codes, ◌=s=◌, lower}
use tabmo_codding_challenge.Common.Result.{
  Result, ok, err, json, Exception, json_logic_error, invalid_argument, out_of_range, logic_error,
  ◌>>=◌,
}
use tabmo_codding_challenge.Common.Int.{ℤ, pos, negsuc}
use tabmo_codding_challenge.Common.{
  ℕ, ◌%◌, ◌^◌, ◌-◌, Bool, true, false, ◌&&◌, ◌||◌, Option, none, some, List, [], ◌∷◌, ◌++◌, ltb,
  ◌==◌, if◌then◌else◌, length,
}
use tabmo_codding_challenge.Float.Stof.{stof}
use tabmo_codding_challenge.Json.{Json}
use tabmo_codding_challenge.Campagne.{Campagne, Filters, language, ifa, construct, copy}

-- The order of `map<string, ...>`.
unfoldable pub lt_text : Bytes → Bytes → Bool
lt_text s [] = false
lt_text [] (y ∷ t) = true
lt_text (x ∷ s) (y ∷ t) = ltb x y || (x == y && lt_text s t)

-- `map[key].push_back(value)`.
unfoldable pub push_back_at : Bytes → Bytes → Filters → Filters
unfolding ◌=s=◌ lt_text
push_back_at key value [] = (key, value ∷ []) ∷ []
push_back_at key value ((k, values) ∷ rest) =
    if k =s= key
    then (k, values ++ (value ∷ [])) ∷ rest
    else if lt_text key k
    then (key, value ∷ []) ∷ (k, values) ∷ rest
    else (k, values) ∷ push_back_at key value rest

-- The value of a filter as it is stored.
unfoldable pub stored : Bytes → Bytes → Bytes
unfolding ◌=s=◌ lower
stored key value = if key =s= language || key =s= ifa then lower value else value

module _ (j : Json) where
  open j use {Value, get, as_string, as_int, as_bool, get_member_names, empty, size, items}

  -- `for_each` over the values of a filter, and over its keys.
  unfoldable pub add_values : Bytes → List Value → Filters → Result Filters
  unfolding stored push_back_at
  add_values key [] filters = ok filters
  add_values key (v ∷ vs) filters = do
    value ← json (as_string v)
    add_values key vs (push_back_at key (stored key value) filters)

  unfoldable pub add_keys : Value → Bytes → List Bytes → Filters → Result Filters
  unfolding add_values
  add_keys itr kind [] filters = ok filters
  add_keys itr kind (key ∷ keys) filters = do
    node ← json (get itr (codes "filters"))
    entries ← json (get node kind)
    list ← json (get entries key)
    filters' ← add_values key (items list) filters
    add_keys itr kind keys filters'

  unfoldable pub get_filter_from_itr : Value → Bytes → Result Filters
  unfolding add_keys
  get_filter_from_itr itr kind = do
    node ← json (get itr (codes "filters"))
    entries ← json (get node kind)
    names ← json (get_member_names entries)
    add_keys itr kind names []

  -- The filters of one kind, none if the entry has none.
  unfoldable pub read_filters : Value → Bytes → Result Filters
  unfolding get_filter_from_itr
  read_filters itr kind = do
    node ← json (get itr (codes "filters"))
    entries ← json (get node kind)
    elim (empty entries) [ true ↦ ok [] | false ↦ get_filter_from_itr itr kind ]

  unfoldable pub string_at : Value → Bytes → Result Bytes
  string_at v key = do node ← json (get v key); json (as_string node)

  unfoldable pub int_at : Value → Bytes → Result ℤ
  int_at v key = do node ← json (get v key); json (as_int node)

  unfoldable pub bool_at : Value → Bytes → Result Bool
  bool_at v key = do node ← json (get v key); json (as_bool node)

  -- The body of `try`. C++ leaves the order of the arguments of the constructor open; this is the
  -- one from the first to the last.
  unfoldable pub read_campagne : Value → Result Campagne
  unfolding read_filters string_at int_at bool_at
  read_campagne itr = do
    included ← read_filters itr (codes "include")
    excluded ← read_filters itr (codes "exclude")
    id ← string_at itr (codes "id")
    budget_text ← string_at itr (codes "budget")
    budget ← stof budget_text
    price_text ← string_at itr (codes "bidPrice")
    bid_price ← stof price_text
    width ← int_at itr (codes "width")
    height ← int_at itr (codes "height")
    responsive ← bool_at itr (codes "responsive")
    url ← string_at itr (codes "url")
    construct (record {
      id = id;
      budget = budget;
      bid_price = bid_price;
      width = width;
      height = height;
      responsive = responsive;
      filter_include = included;
      filter_exclude = excluded;
      url = url;
    })

  -- The handlers log the `id` of the entry, and reading it may throw once more. Other exceptions are
  -- not caught.
  unfoldable pub handle : Value → Exception → Result (Unit {0})
  unfolding string_at
  handle itr json_logic_error = do logged ← string_at itr (codes "id"); ok tt
  handle itr invalid_argument = do logged ← string_at itr (codes "id"); ok tt
  handle itr out_of_range = err out_of_range
  handle itr logic_error = err logic_error

  -- One round: the list of campaigns and `lReturn` after an entry.
  unfoldable pub parse_entry : Value → List Campagne × Bool → Result (List Campagne × Bool)
  unfolding handle copy
  parse_entry itr (cs, good) = elim (read_campagne itr) [
    | ok c ↦ ok (cs ++ (copy c ∷ []), good)
    | err e ↦ handle itr e >>= λ _. ok (cs, false)
  ]

  unfoldable pub parse_entries : List Value → List Campagne × Bool → Result (List Campagne × Bool)
  unfolding parse_entry
  parse_entries [] state = ok state
  parse_entries (itr ∷ rest) state = parse_entry itr state >>= parse_entries rest

  unfoldable pub parse_campagnes_from_json :
      Option Value → List Campagne → Result (List Campagne × Bool)
  unfolding parse_entries
  parse_campagnes_from_json none cs = ok (cs, false)
  parse_campagnes_from_json (some document) cs =
      if ltb 0 (size document) then parse_entries (items document) (cs, true) else ok (cs, false)

-- A `size_t` that is stored in an `int` keeps its lowest 32 bits, in two's complement.
unfoldable pub int_of_size : ℕ → ℤ
int_of_size n =
    let low = n % 2 ^ 32 in if ltb low (2 ^ 31) then pos low else negsuc (2 ^ 32 - 1 - low)

unfoldable pub get_campagnes_count : List Campagne → ℤ
unfolding int_of_size
get_campagnes_count cs = int_of_size (length cs)
