-- ===== src/RtbCtrl/Ignored.antt =====
-- Which payloads src/RtbCtrl.cpp answers with 204 without looking for a campaign, from the members of
-- the payload.
use tabmo_codding_challenge.Common.Text.{Bytes, codes}
use tabmo_codding_challenge.Common.Result.{
  Exception, ok, err, json_logic_error, Ensures, Ensures-bind, Result-cases,
}
use tabmo_codding_challenge.Common.Int.{ℤ}
use tabmo_codding_challenge.Common.{ℕ, ◌≡◌, ◌⊎◌, inl, inr, refl, Option, none, some, List}
use tabmo_codding_challenge.Float.{Float}
use tabmo_codding_challenge.Float.Stof.{stof}
use tabmo_codding_challenge.Json.{Json, IsJson}
use tabmo_codding_challenge.BidRequest.{BidRequest}
use tabmo_codding_challenge.Campagne.{Campagne}
use tabmo_codding_challenge.CampagnesManager.Parse.{string_at, int_at}
use tabmo_codding_challenge.RtbCtrl.{
  string_in, read_numbers, read_request, async_handle_http_request,
}
use tabmo_codding_challenge.RtbCtrl.Answers.{
  IsLacking, IsLacking-is_valid, Reads, no_content, handle_refused,
}

module _ (j : Json) (laws : IsJson j) where
  open j use {Value, get, as_string, as_int}

  -- A member of the payload, read as an `int`.
  abbrev pub ReadsInt : Value → Bytes → ℤ → Type 0
  ReadsInt v key n = (node : Value) × (get v key ≡ some node) × (as_int node ≡ some n)

  string_at_lem : (v : Value) (key s : Bytes) → Reads j laws v key s → string_at j v key ≡ ok s
  unfolding string_at
  string_at_lem v key s (node, e, text) = rw (e, string_at) (rw text refl)

  int_at_lem : (v : Value) (key : Bytes) (n : ℤ) → ReadsInt v key n → int_at j v key ≡ ok n
  unfolding int_at
  int_at_lem v key n (node, e, number) = rw (e, int_at) (rw number refl)

  string_at_err :
      (v : Value) (key : Bytes) (node : Value)
      → get v key ≡ some node
      → as_string node ≡ none
      → string_at j v key ≡ err json_logic_error
  unfolding string_at
  string_at_err v key node e bad = rw (e, string_at) (rw bad refl)

  int_at_err :
      (v : Value) (key : Bytes) (node : Value)
      → get v key ≡ some node
      → as_int node ≡ none
      → int_at j v key ≡ err json_logic_error
  unfolding int_at
  int_at_err v key node e bad = rw (e, int_at) (rw bad refl)

  string_in_lem :
      (v inner : Value) (outer key s : Bytes)
      → get v outer ≡ some inner
      → Reads j laws inner key s
      → string_in j v outer key ≡ ok s
  unfolding string_in
  string_in_lem v inner outer key s e reads = rw (e, string_in) (string_at_lem inner key s reads)

  -- The members of a payload that are texts, and its objects `device` and `app`.
  pub record Texts (v : Value) : Type 0 where
    pub device : Value
    pub app : Value
    pub id : Bytes
    pub lang : Bytes
    pub name : Bytes
    pub ifa : Bytes
    pub device_at : get v (codes "device") ≡ some device
    pub app_at : get v (codes "app") ≡ some app
    pub id_at : Reads j laws v (codes "id") id
    pub lang_at : Reads j laws device (codes "lang") lang
    pub name_at : Reads j laws app (codes "name") name
    pub ifa_at : Reads j laws device (codes "ifa") ifa

  module _ (v : Value) (texts : Texts v) where
    -- A size that is no `int`, or a floor that is no text or no number.
    abbrev pub IsUnread : Type 0
    IsUnread =
        ((node : Value) × (get texts.device (codes "w") ≡ some node) × (as_int node ≡ none))
        ⊎ ((node : Value) × (get texts.device (codes "h") ≡ some node) × (as_int node ≡ none))
        ⊎ ((node : Value) × (get v (codes "bid-floor") ≡ some node) × (as_string node ≡ none))
        ⊎ ((s : Bytes) × (e : Exception) × Reads j laws v (codes "bid-floor") s × (stof s ≡ err e))

    -- The two sizes and the floor.
    pub record Numbers : Type 0 where
      pub w : ℤ
      pub h : ℤ
      pub floor_text : Bytes
      pub bid_floor : Float
      pub w_at : ReadsInt texts.device (codes "w") w
      pub h_at : ReadsInt texts.device (codes "h") h
      pub floor_at : Reads j laws v (codes "bid-floor") floor_text
      pub floor_is : stof floor_text ≡ ok bid_floor

    abbrev pub request_of : Numbers → BidRequest
    request_of n = record {
      id = texts.id;
      bid_floor = n.bid_floor;
      device_w = n.w;
      device_h = n.h;
      device_ifa = texts.ifa;
      device_lang = texts.lang;
      app_name = texts.name;
    }

    -- The numbers are then not read, whatever comes before in the `try`.
    IsUnread-read_numbers : IsUnread → Ensures (λ numbers. ⊥) (read_numbers j v)
    unfolding read_numbers
    IsUnread-read_numbers (inl (node, e, bad)) =
        rw (texts.device_at, int_at_err texts.device (codes "w") node e bad) tt
    IsUnread-read_numbers (inr (inl (node, e, bad))) = rw texts.device_at (
        Ensures-bind (λ numbers. ⊥) (int_at j texts.device (codes "w")) _
          (λ w. rw (int_at_err texts.device (codes "h") node e bad) tt))
    IsUnread-read_numbers (inr (inr (inl (node, e, bad)))) = rw texts.device_at (
        Ensures-bind (λ numbers. ⊥) (int_at j texts.device (codes "w")) _
          (λ w.
            Ensures-bind (λ numbers. ⊥) (int_at j texts.device (codes "h")) _
              (λ h. rw (string_at_err v (codes "bid-floor") node e bad) tt)))
    IsUnread-read_numbers (inr (inr (inr (s, x, reads, bad)))) = rw texts.device_at (
        Ensures-bind (λ numbers. ⊥) (int_at j texts.device (codes "w")) _
          (λ w.
            Ensures-bind (λ numbers. ⊥) (int_at j texts.device (codes "h")) _
              (λ h. rw (string_at_lem v (codes "bid-floor") s reads, bad) tt)))

    read_numbers_lem : (n : Numbers) → read_numbers j v ≡ ok (n.w, n.h, n.bid_floor)
    unfolding read_numbers
    read_numbers_lem n =
        rw
          (
            texts.device_at,
            int_at_lem texts.device (codes "w") n.w n.w_at,
            int_at_lem texts.device (codes "h") n.h n.h_at,
            string_at_lem v (codes "bid-floor") n.floor_text n.floor_at,
            n.floor_is,
          )
          refl

    ignored_unread : (e : Exception) → read_numbers j v ≡ err e → read_request j v ≡ ok none
    unfolding read_request
    ignored_unread e thrown =
        rw
          (
            string_at_lem v (codes "id") texts.id texts.id_at,
            string_in_lem v texts.device (codes "device") (codes "lang") texts.lang texts.device_at
                texts.lang_at,
            string_in_lem v texts.app (codes "app") (codes "name") texts.name texts.app_at
                texts.name_at,
            string_in_lem v texts.device (codes "device") (codes "ifa") texts.ifa texts.device_at
                texts.ifa_at,
            thrown,
          )
          refl

    read_request_lem : (n : Numbers) → read_request j v ≡ ok (some (request_of n))
    unfolding read_request
    read_request_lem n =
        rw
          (
            string_at_lem v (codes "id") texts.id texts.id_at,
            string_in_lem v texts.device (codes "device") (codes "lang") texts.lang texts.device_at
                texts.lang_at,
            string_in_lem v texts.app (codes "app") (codes "name") texts.name texts.app_at
                texts.name_at,
            string_in_lem v texts.device (codes "device") (codes "ifa") texts.ifa texts.device_at
                texts.ifa_at,
            read_numbers_lem n,
          )
          refl

  -- A payload that is no JSON; or whose texts are read, but a size or the floor is not; or one that is
  -- read as a request in which a mandatory value is missing.
  abbrev pub IsIgnored : Option Value → Type 0
  IsIgnored none = Unit {0}
  IsIgnored (some v) =
      (texts : Texts v) × (IsUnread v texts
        ⊎ ((n : Numbers v texts) × IsLacking (request_of v texts n)))

  -- The answer is 204 with the JSON null and no campaign changes if the payload is no JSON; if its texts
  -- are read, but a size is no int or the floor no text or no number; or if all is read, and the id or
  -- the language is empty, or the floor or a size is 0, as a missing member reads.
  pub handle_ignored :
      (drawn : ℕ) (cs : List Campagne) (payload : Option Value)
      → IsIgnored payload
      → async_handle_http_request j drawn payload cs ≡ some (cs, ok (no_content j laws))
  handle_ignored drawn cs none ignored = handle_refused j laws drawn cs none tt
  handle_ignored drawn cs (some v) (texts, inl unread) = elim (Result-cases (read_numbers j v)) [
    | inl (numbers, e) ↦ absurd (rw e at (IsUnread-read_numbers v texts unread))
    | inr (x, e) ↦ handle_refused j laws drawn cs (some v) (inl (ignored_unread v texts x e))
  ]
  handle_ignored drawn cs (some v) (texts, inr (n, lacking)) =
      let r = request_of v texts n in
      handle_refused j laws drawn cs (some v)
        (inr (r, read_request_lem v texts n, IsLacking-is_valid r lacking))
