-- ===== src/RtbCtrl/Requests.antt =====
-- The handler of src/RtbCtrl.cpp on one request after the other, and what the campaigns have paid.
use tabmo_codding_challenge.Common.Result.{Result, ok, err, Result-cases}
use tabmo_codding_challenge.Common.{
  ℕ, ◌+◌, ◌≤◌, ◌≡◌, ◌⊎◌, inl, inr, refl, Bool, true, false, Option, none, some, List, [], ◌∷◌,
  arith, length, length-set, All, All-set, get_elem?, set, count_if, ◌==◌, Bool-cases,
}
use tabmo_codding_challenge.Json.{Json, IsJson}
use tabmo_codding_challenge.Campagne.{Campagne}
use tabmo_codding_challenge.Campagne.Budget.{Holds, IsSeller, remaining-Holds, remaining}
use tabmo_codding_challenge.CampagnesManager.Select.Sale.{paid}
use tabmo_codding_challenge.RtbCtrl.{
  Response, read_request, is_valid, process, async_handle_http_request,
}
use tabmo_codding_challenge.RtbCtrl.Answers.{no_content, handle_refused, handle_valid}
use tabmo_codding_challenge.CampagnesManager.Bill.{
  Sold, total, Sold-nothing, nothing_sold, Sold-again, total_nothing,
}

module _ (j : Json) where
  open j use {Value}

  -- The requests in the order in which they come, each with the number that is drawn for it.
  unfoldable pub serve :
      List (ℕ × Option Value) → List Campagne → Option (List Campagne × List (Result (Response j)))
  serve [] cs = some (cs, [])
  serve ((drawn, payload) ∷ rest) cs = elim (async_handle_http_request j drawn payload cs) [
    | none ↦ none
    | some (cs', answer) ↦ elim (serve rest cs') [
      | none ↦ none
      | some (cs'', answers) ↦ some (cs'', answer ∷ answers)
    ]
  ]

  -- An answer with status 200.
  unfoldable pub is_sale : Result (Response j) → Bool
  is_sale (err e) = false
  is_sale (ok r) = r.status_code == 200

  -- What one request does: nothing and no sale, or a sale that a campaign pays.
  abbrev Serves : List Campagne → List Campagne → Result (Response j) → Type 0
  Serves cs cs' answer =
      ((cs' ≡ cs) × (is_sale answer ≡ false))
      ⊎ ((k : ℕ) × (c : Campagne) × (b : ℕ) × (p : ℕ) × (get_elem? cs k ≡ some c)
          × Holds c b p
          × (p ≤ b)
          × (cs' ≡ set cs k (paid c b p))
          × (is_sale answer ≡ true))

  module _ (laws : IsJson j) where
    handle_cases :
        (drawn : ℕ) (payload : Option Value) (cs : List Campagne)
        → All IsSeller cs
        → length cs ≤ 16_777
        → (cs' : List Campagne) × (answer : Result (Response j)) × (async_handle_http_request j
              drawn payload cs
            ≡ some (cs', answer))
          × Serves cs cs' answer
    unfolding is_sale
    handle_cases drawn none cs sellers few =
        (cs, ok (no_content j laws), handle_refused j laws drawn cs none tt, inl (refl, refl))
    handle_cases drawn (some v) cs sellers few = elim (Result-cases (read_request j v)) [
      | inr (e, h) ↦
          (cs, err e, unfold async_handle_http_request process in rw (h, process), inl (refl, refl))
      | inl (none, h) ↦ (
        cs,
        ok (no_content j laws),
        handle_refused j laws drawn cs (some v) (inl h),
        inl (refl, refl),
      )
      | inl (some r, h) ↦ elim (Bool-cases (is_valid r)) [
        | inr bad ↦ (
          cs,
          ok (no_content j laws),
          handle_refused j laws drawn cs (some v) (inr (r, h, bad)),
          inl (refl, refl),
        )
        | inl good ↦ elim (handle_valid j laws drawn cs sellers few v r h good) [
          | inl (_, e) ↦ (cs, ok (no_content j laws), e, inl (refl, refl))
          | inr (k, c, b, p, at, _, holds, enough, e) ↦
              (_, _, e, inr (k, c, b, p, at, holds, enough, refl, refl))
        ]
      ]
    ]

    Serves-IsSeller :
        (cs cs' : List Campagne) (answer : Result (Response j))
        → All IsSeller cs
        → Serves cs cs' answer
        → All IsSeller cs' × (length cs' ≡ length cs)
    Serves-IsSeller cs cs' answer sellers (inl (e, _)) = rw e (sellers, refl)
    Serves-IsSeller cs cs' answer sellers (inr (k, c, b, p, _, h, enough, e, _)) = rw e (
      All-set IsSeller cs k sellers (inr (remaining b p, p, remaining-Holds c b p h enough)),
      length-set cs k (paid c b p),
    )

    -- The sales so far, and those after one more answer.
    Serves-Sold :
        (cs0 cs cs' : List Campagne) (ns : List ℕ) (answer : Result (Response j))
        → Sold ns cs0 cs
        → Serves cs cs' answer
        → (ns' : List ℕ) × Sold ns' cs0 cs'
          × (total ns' ≡ total ns + count_if is_sale (answer ∷ []))
    Serves-Sold cs0 cs cs' ns answer sold (inl (e, none_sold)) =
        (ns, rw e sold, rw (none_sold, count_if) (omega arith))
    Serves-Sold cs0 cs cs' ns answer sold (inr (k, c, b, p, at, h, enough, e, one_sold)) =
        let (ns', sold', t) = Sold-again ns cs0 cs k c b p sold at h enough in
        (ns', rw e sold', rw (one_sold, count_if) (omega arith))

    count_if-∷ :
        (answer : Result (Response j)) (answers : List (Result (Response j)))
        → count_if is_sale (answer ∷ answers)
          ≡ count_if is_sale (answer ∷ []) + count_if is_sale answers
    count_if-∷ answer answers = ground arith

    abbrev Bills :
        List Campagne → List ℕ → ℕ → Option (List Campagne × List (Result (Response j))) → Type 0
    Bills cs0 ns asked served =
        (cs' : List Campagne) × (answers : List (Result (Response j))) × (ns' : List ℕ) × (served
          ≡ some (cs', answers))
        × (length answers ≡ asked)
        × All IsSeller cs'
        × Sold ns' cs0 cs'
        × (total ns' ≡ total ns + count_if is_sale answers)

    serve-Bills :
        (requests : List (ℕ × Option Value)) (cs0 cs : List Campagne) (ns : List ℕ)
        → All IsSeller cs
        → length cs ≤ 16_777
        → Sold ns cs0 cs
        → Bills cs0 ns (length requests) (serve requests cs)
    unfolding serve
    serve-Bills [] cs0 cs ns sellers few sold = (cs, [], ns, refl, refl, sellers, sold, omega arith)
    serve-Bills ((drawn, payload) ∷ rest) cs0 cs ns sellers few sold =
        let (cs', answer, e, served) = handle_cases drawn payload cs sellers few in
        let (sellers', same) = Serves-IsSeller cs cs' answer sellers served in
        let (ns', sold', t) = Serves-Sold cs0 cs cs' ns answer sold served in
        let (cs'', answers, ns'', e', count, sellers'', sold'', t') =
          serve-Bills rest cs0 cs' ns' sellers' (omega arith) sold' in
        (
          cs'',
          answer ∷ answers,
          ns'',
          rw (e, serve, e'),
          omega arith,
          sellers'',
          sold'',
          omega (arith, count_if-∷ answer answers),
        )

    -- For up to 16777 campaigns with numbers or NaN, and any requests in a row, whatever is drawn for
    -- them: the handler is defined and each request has one answer or exception. The campaigns keep
    -- all but their budgets, and there is a number of sales for each, together the number of answers
    -- with status 200, such that the price of the sales of a campaign is within what its budget has
    -- lost, up to a rounding of 2 ^ -15 for each sale.
    pub serve_lem :
        (requests : List (ℕ × Option Value)) (cs : List Campagne)
        → All IsSeller cs
        → length cs ≤ 16_777
        → (cs' : List Campagne) × (answers : List (Result (Response j))) × (ns : List ℕ) × (serve
              requests cs
            ≡ some (cs', answers))
          × (length answers ≡ length requests)
          × All IsSeller cs'
          × Sold ns cs cs'
          × (total ns ≡ count_if is_sale answers)
    serve_lem requests cs sellers few =
        let (cs', answers, ns, e, count, sellers', sold, t) =
          serve-Bills requests cs cs (nothing_sold cs) sellers few (Sold-nothing cs) in
        (cs', answers, ns, e, count, sellers', sold, omega (arith, total_nothing cs))
