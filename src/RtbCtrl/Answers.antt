-- ===== src/RtbCtrl/Answers.antt =====
-- What the handler of src/RtbCtrl.cpp answers.
use tabmo_codding_challenge.Common.Text.{Bytes, codes, ◌=s=◌, =s=_iff}
use tabmo_codding_challenge.Common.Result.{ok, err, json_logic_error}
use tabmo_codding_challenge.Common.{
  ℕ, ◌≤◌, ◌<◌, ◌≡◌, ◌≢◌, ◌↔◌, [], ◌⊎◌, inl, inr, refl, ap, true, false, Option, some, none, List,
  arith, length, All, Bool-cases, get_elem?, set,
}
use tabmo_codding_challenge.Common.Int.{pos}
use tabmo_codding_challenge.Float.{eq}
use tabmo_codding_challenge.Json.{Json, IsJson}
use tabmo_codding_challenge.Float.Print.{print_fixed}
use tabmo_codding_challenge.BidRequest.{BidRequest}
use tabmo_codding_challenge.Campagne.{Campagne, nought, is_zero}
use tabmo_codding_challenge.Campagne.Budget.{Holds, IsSeller}
use tabmo_codding_challenge.CampagnesManager.Compatible.{lower_request}
use tabmo_codding_challenge.CampagnesManager.Compatible.Eligible.{IsEligible, is_empty_iff}
use tabmo_codding_challenge.CampagnesManager.Parse.{string_at}
use tabmo_codding_challenge.CampagnesManager.Select.{
  auction_id, campaign_id, price, url, creer_json,
}
use tabmo_codding_challenge.CampagnesManager.Select.Sale.{paid, select_campagne_lem}
use tabmo_codding_challenge.RtbCtrl.{
  Response, respond, read_request, is_valid, answer, process, async_handle_http_request,
}

-- The control of the data lets a request pass exactly when its id and its language are not empty and
-- its floor and its two sizes are not 0.
is_valid_iff :
    (r : BidRequest)
    → (is_valid r ≡ true) ↔ (
        (r.id ≢ [])
        × (r.device_lang ≢ [])
        × (eq r.bid_floor nought ≡ false)
        × (r.device_w ≢ pos 0)
        × (r.device_h ≢ pos 0))
unfolding is_valid is_zero
is_valid_iff r = ground (arith, is_empty_iff r.id, is_empty_iff r.device_lang)

-- A mandatory value is missing, or is what a missing one is read as.
abbrev pub IsLacking : BidRequest → Type 0
IsLacking r =
    (r.id ≡ [])
    ⊎ (r.device_lang ≡ [])
    ⊎ (eq r.bid_floor nought ≡ true)
    ⊎ (r.device_w ≡ pos 0)
    ⊎ (r.device_h ≡ pos 0)

pub IsLacking-is_valid : (r : BidRequest) → IsLacking r → is_valid r ≡ false
IsLacking-is_valid r lacking = elim (Bool-cases (is_valid r)) [
  | inr bad ↦ bad
  | inl good ↦
      let (id, lang, floor, w, h) = (is_valid_iff r).0 good in
      elim lacking [
        | inl e ↦ absurd (id e)
        | inr (inl e) ↦ absurd (lang e)
        | inr (inr (inl e)) ↦ absurd (ground (arith, e, floor))
        | inr (inr (inr (inl e))) ↦ absurd (w e)
        | inr (inr (inr (inr e))) ↦ absurd (h e)
      ]
]

module _ (j : Json) (laws : IsJson j) where
  open j use {Value, null, get, put, as_string, size}
  open laws use {
    IsObject, null-IsObject, put-IsObject, get-put, as_string-text, size-null, size-put,
  }

  -- A member of the answer, read as a text.
  abbrev pub Reads : Value → Bytes → Bytes → Type 0
  Reads v key s = (node : Value) × (get v key ≡ some node) × (as_string node ≡ some s)

  Reads-put : (v : Value) (k s : Bytes) → IsObject v → Reads (put v k s) k s
  Reads-put v k s o = (j.text s, rw (get-put v k s k o, (=s=_iff k k).1 refl), as_string-text s)

  Reads-put_ne :
      (v : Value) (k s i t : Bytes)
      → IsObject v
      → (k =s= i) ≡ false
      → Reads v i t
      → Reads (put v k s) i t
  Reads-put_ne v k s i t o differ (node, e, text) = (node, rw (get-put v k s i o, differ, e), text)

  -- The JSON of a campaign is not empty, and its members read as the id of the request, the id of the
  -- campaign, its price with two places, and its url.
  pub creer_json_lem :
      (c : Campagne) (r : BidRequest)
      → let v = creer_json j c r in
        (0 < size v)
        × Reads v auction_id r.id
        × Reads v campaign_id c.id
        × Reads v price (print_fixed 2 c.bid_price)
        × Reads v url c.url
  unfolding creer_json ◌=s=◌
  creer_json_lem c r =
      let v1 = put null auction_id r.id in
      let v2 = put v1 campaign_id c.id in
      let v3 = put v2 price (print_fixed 2 c.bid_price) in
      let o1 = put-IsObject null auction_id r.id null-IsObject in
      let o2 = put-IsObject v1 campaign_id c.id o1 in
      let o3 = put-IsObject v2 price (print_fixed 2 c.bid_price) o2 in
      (
        size-put v3 url c.url o3,
        Reads-put_ne v3 url c.url auction_id r.id o3 refl (
            Reads-put_ne v2 price _ auction_id r.id o2 refl (
              Reads-put_ne v1 campaign_id c.id auction_id r.id o1 refl
                (Reads-put null auction_id r.id null-IsObject))),
        Reads-put_ne v3 url c.url campaign_id c.id o3 refl
            (Reads-put_ne v2 price _ campaign_id c.id o2 refl (Reads-put v1 campaign_id c.id o1)),
        Reads-put_ne v3 url c.url price _ o3 refl (Reads-put v2 price _ o2),
        Reads-put v3 url c.url o3,
      )

  abbrev pub no_content : Response j
  no_content = record { body = null; status_code = 204 }

  pub respond_null : respond j null ≡ no_content
  unfolding respond
  respond_null = rw size-null

  pub respond_sold :
      (c : Campagne) (r : BidRequest)
      → respond j (creer_json j c r) ≡ record { body = creer_json j c r; status_code = 200 }
  unfolding respond
  respond_sold c r =
      let some_size : 0 < size (creer_json j c r) = (creer_json_lem c r).0 in ground arith

  -- A payload of which reading or the control makes nothing.
  abbrev pub IsRefused : Option Value → Type 0
  IsRefused none = Unit {0}
  IsRefused (some v) =
      (read_request j v ≡ ok none)
      ⊎ ((r : BidRequest) × (read_request j v ≡ ok (some r)) × (is_valid r ≡ false))

  module _ (drawn : ℕ) (cs : List Campagne) where
    pub handle_refused :
        (payload : Option Value)
        → IsRefused payload
        → async_handle_http_request j drawn payload cs ≡ some (cs, ok no_content)
    unfolding async_handle_http_request process
    handle_refused none _ = rw respond_null
    handle_refused (some v) (inl e) = rw (e, respond_null)
    handle_refused (some v) (inr (r, e, bad)) =
        rw e (rw (bad, process) (ap (λ t. some (cs, ok t)) respond_null))

    -- If the member `id` of the payload exists but reading it as a text throws, the exception leaves the
    -- handler, nothing is answered and no campaign changes.
    pub handle_throws :
        (v node : Value)
        → get v (codes "id") ≡ some node
        → as_string node ≡ none
        → async_handle_http_request j drawn (some v) cs ≡ some (cs, err json_logic_error)
    unfolding async_handle_http_request read_request string_at process
    handle_throws v node e h = rw (e, read_request) (rw (h, read_request))

    module _ (sellers : All IsSeller cs) (few : length cs ≤ 16_777) where
      -- For up to 16777 campaigns with numbers or NaN, and a payload that reads as a valid request:
      -- either no campaign meets every condition, and the answer is 204 with no campaign changed; or one
      -- that meets every condition and can pay its price pays it, the others stay as they are, and the
      -- answer is 200 with the JSON of that campaign.
      pub handle_valid :
          (v : Value) (r : BidRequest)
          → read_request j v ≡ ok (some r)
          → is_valid r ≡ true
          → let handled = async_handle_http_request j drawn (some v) cs in
            (All (λ c. ¬ IsEligible r c) cs × (handled ≡ some (cs, ok no_content)))
            ⊎ ((k : ℕ) × (c : Campagne) × (b : ℕ) × (p : ℕ) × (get_elem? cs k ≡ some c)
                × IsEligible r c
                × Holds c b p
                × (p ≤ b)
                × (handled
                    ≡ some (
                      set cs k (paid c b p),
                      ok (record {
                        body = creer_json j (paid c b p) (lower_request r);
                        status_code = 200;
                      }),
                    )))
      unfolding async_handle_http_request process answer
      handle_valid v r e good = elim (select_campagne_lem cs sellers r j drawn few) [
        | inl (nobody, (r', sel)) ↦
            inl (nobody, rw e (rw (good, process, sel) (ap (λ t. some (cs, ok t)) respond_null)))
        | inr (k, c, b, p, at, eligible, h, enough, sel) ↦ inr (
          k,
          c,
          b,
          p,
          at,
          eligible,
          h,
          enough,
          rw e (
              rw (good, process, sel)
                (ap (λ t. some (set cs k (paid c b p), ok t)) (respond_sold _ _))),
        )
      ]
