-- ===== src/Examples/Data.antt =====
-- Campaigns of res/campaigns.json, the first request of res/bid-requests, and their JSON.
use tabmo_codding_challenge.Common.Text.{Bytes, codes}
use tabmo_codding_challenge.Common.Int.{pos}
use tabmo_codding_challenge.Common.{ℕ, ◌*◌, ◌^◌, true, false, Option, some, none, List, [], ◌∷◌}
use tabmo_codding_challenge.Float.{fin, one}
use tabmo_codding_challenge.Json.Tree.{
  Tree, nothing, truth, number, words, array, object, nil, cons, end, member,
}
use tabmo_codding_challenge.BidRequest.{BidRequest}
use tabmo_codding_challenge.Campagne.{Campagne, language, application, ifa}

-- 0.12 and 1.3.
abbrev pub puzzle_price : ℕ
puzzle_price = 16_106_127 * 2 ^ 122

abbrev pub wide_price : ℕ
wide_price = 10_905_190 * 2 ^ 126

abbrev pub puzzle : Campagne
puzzle = record {
  id = codes "c9c71e5a";
  budget = fin false (100 * one);
  bid_price = fin false puzzle_price;
  width = pos 320;
  height = pos 250;
  responsive = true;
  filter_include = (application, codes "Puzzle" ∷ []) ∷ (language, codes "en" ∷ []) ∷ [];
  filter_exclude = (ifa, codes "553144ea" ∷ codes "23c42e63" ∷ []) ∷ [];
  url = codes "http://cdn.tabmo.io/ads/1";
}

abbrev pub wide : Campagne
wide = record {
  id = codes "a14b2507";
  budget = fin false (50 * one);
  bid_price = fin false wide_price;
  width = pos 640;
  height = pos 500;
  responsive = true;
  filter_include = [];
  filter_exclude = [];
  url = codes "http://cdn.tabmo.io/ads/2";
}

abbrev pub ads : List Campagne
ads = puzzle ∷ wide ∷ []

abbrev pub request : BidRequest
request = record {
  id = codes "488d874f";
  bid_floor = fin false (10_737_418 * 2 ^ 119);
  device_w = pos 320;
  device_h = pos 250;
  device_ifa = codes "4AF44cdf";
  device_lang = codes "EN";
  app_name = codes "Awesome Puzzle";
}

abbrev pub word : Bytes → Tree
word s = words s

abbrev pub entry :
    (budget price : Bytes) (id : Bytes) (width height : ℕ) (filters : Tree) (url : Bytes) → Tree
entry budget price id width height filters url = object (
    member (codes "id") (word id) (
      member (codes "budget") (word budget) (
        member (codes "bidPrice") (word price) (
          member (codes "width") (number (pos width)) (
            member (codes "height") (number (pos height)) (
              member (codes "responsive") (truth true)
                (member (codes "filters") filters (member (codes "url") (word url) end))))))))

abbrev pub puzzle_filters : Tree
puzzle_filters = object (
    member (codes "include")
      (object (
        member (codes "language") (array (cons (word (codes "EN")) nil))
          (member (codes "application") (array (cons (word (codes "Puzzle")) nil)) end)))
      (member (codes "exclude")
        (object (
          member (codes "ifa")
            (array (cons (word (codes "553144EA")) (cons (word (codes "23C42E63")) nil))) end))
        end))

abbrev pub puzzle_entry : Tree
puzzle_entry =
    entry (codes "100") (codes "0.12") (codes "c9c71e5a") 320 250 puzzle_filters
      (codes "http://cdn.tabmo.io/ads/1")

abbrev pub wide_entry : Tree
wide_entry =
    entry (codes "50") (codes "1.3") (codes "a14b2507") 640 500 (object end)
      (codes "http://cdn.tabmo.io/ads/2")

-- A budget that is no number, and one that no `float` reaches.
abbrev pub broken_entry : Tree
broken_entry = entry (codes "many") (codes "1") (codes "b0") 320 250 nothing (codes "u")

abbrev pub huge_entry : Tree
huge_entry = entry (codes "1e39") (codes "1") (codes "b1") 320 250 nothing (codes "u")

abbrev pub document : Tree
document = array (cons puzzle_entry (cons broken_entry (cons wide_entry nil)))

abbrev pub fatal_document : Tree
fatal_document = array (cons puzzle_entry (cons huge_entry (cons wide_entry nil)))

abbrev pub payload : Tree
payload = object (
    member (codes "id") (word (codes "488d874f")) (
      member (codes "device")
        (object (
          member (codes "ifa") (word (codes "4AF44cdf")) (
            member (codes "lang") (word (codes "EN"))
              (member (codes "w") (number (pos 320)) (member (codes "h") (number (pos 250)) end)))))
        (member (codes "app") (object (member (codes "name") (word (codes "Awesome Puzzle")) end))
          (member (codes "bid-floor") (word (codes "0.01")) end))))

-- A payload without a floor, and one with a list for its `id`.
abbrev pub floorless_payload : Tree
floorless_payload = object (member (codes "id") (word (codes "488d874f")) end)

abbrev pub odd_payload : Tree
odd_payload = object (member (codes "id") (array nil) end)

-- Requests in a row, each with the number that is drawn for it.
abbrev pub traffic : List (ℕ × Option Tree)
traffic = (42, some payload) ∷ (7, none) ∷ (99, some floorless_payload) ∷ []

-- Two threads that take turns; each number drawn is the position of its step.
abbrev pub schedule : List (ℕ × ℕ)
schedule =
    (0, 0)
    ∷ (1, 1)
    ∷ (0, 2)
    ∷ (1, 3)
    ∷ (0, 4)
    ∷ (1, 5)
    ∷ (0, 6)
    ∷ (1, 7)
    ∷ (0, 8)
    ∷ (1, 9)
    ∷ (0, 10)
    ∷ (1, 11)
    ∷ (0, 12)
    ∷ []

-- The members of the filters of the first campaign.
abbrev pub puzzle_include : Tree
puzzle_include = object (
    member (codes "language") (array (cons (words (codes "EN")) nil))
      (member (codes "application") (array (cons (words (codes "Puzzle")) nil)) end))

-- Filters with an empty list.
abbrev pub void_include : Tree
void_include = object (member (codes "language") (array nil) end)

abbrev pub void_entry : Tree
void_entry =
    entry (codes "100") (codes "0.12") (codes "c9c71e5a") 320 250
      (object (member (codes "include") void_include end)) (codes "http://cdn.tabmo.io/ads/1")
