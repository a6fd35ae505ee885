-- ===== src/RtbCtrl/Server/Sequence.antt =====
-- Requests that come one after the other are one order of the steps of the server.
use mathlib.Core.List.{append_assoc}
use mathlib.Core.Option.{some-injective}
use tabmo_codding_challenge.Common.Result.{Result}
use tabmo_codding_challenge.Common.{
  ℕ, zero, suc, ◌≡◌, refl, sym, ap, ◌∙◌, inl, inr, Option, some, List, [], ◌∷◌, ◌++◌, get_elem?,
  get_elem?-lt, get_elem?-set_self, set, set_same, length, map, Option-cases, repeat,
}
use tabmo_codding_challenge.Json.{Json}
use tabmo_codding_challenge.Campagne.{Campagne}
use tabmo_codding_challenge.RtbCtrl.{Response, async_handle_http_request}
use tabmo_codding_challenge.RtbCtrl.Requests.{serve}
use tabmo_codding_challenge.RtbCtrl.Server.{
  Task, received, answered, handle_step, serve_step, serve_together, Server, open_server,
}
use tabmo_codding_challenge.RtbCtrl.Server.Alone.{handle_alone, handle_alone_lem}

module _ {A : Type 0} where
  abbrev copies : ℕ → A → List A
  copies zero x = []
  copies (suc n) x = x ∷ copies n x

  set-set : (xs : List A) (i : ℕ) (x y : A) → set (set xs i x) i y ≡ set xs i y
  set-set [] i x y = refl
  set-set (z ∷ xs) zero x y = refl
  set-set (z ∷ xs) (suc i) x y = ap (λ t. z ∷ t) (set-set xs i x y)

  set-append : (xs ys : List A) (x y : A) → set (xs ++ (x ∷ ys)) (length xs) y ≡ xs ++ (y ∷ ys)
  set-append [] ys x y = refl
  set-append (z ∷ xs) ys x y = ap (λ t. z ∷ t) (set-append xs ys x y)

  get_elem?-append_length :
      (xs ys : List A) (x : A) → get_elem? (xs ++ (x ∷ ys)) (length xs) ≡ some x
  get_elem?-append_length [] ys x = refl
  get_elem?-append_length (z ∷ xs) ys x = get_elem?-append_length xs ys x

module _ (j : Json) where
  open j use {Value}

  serve_together-append :
      (first later : List (ℕ × ℕ)) (w : Server j)
      → serve_together j (first ++ later) w ≡ serve_together j later (serve_together j first w)
  unfolding serve_together
  serve_together-append [] later w = refl
  serve_together-append (s ∷ first) later w = serve_together-append first later (serve_step j s w)

  abbrev put : List (Option Value × Task j) → ℕ → Option Value → List Campagne × Task j → Server j
  put ts t payload (cs, task) = (cs, set ts t (payload, task))

  -- The steps of one request in a row.
  serve_together-copies :
      (n t drawn : ℕ) (payload : Option Value) (ts : List (Option Value × Task j))
      (cs : List Campagne) (task : Task j)
      → get_elem? ts t ≡ some (payload, task)
      → serve_together j (copies n (t, drawn)) (cs, ts)
        ≡ put ts t payload (repeat n (handle_alone j drawn payload) (cs, task))
  unfolding serve_together serve_step
  serve_together-copies zero t drawn payload ts cs task at =
      ap (λ x. (cs, x)) (sym (set_same ts t (payload, task) at))
  serve_together-copies (suc n) t drawn payload ts cs task at =
      let next = handle_step j drawn payload cs task in
      let end = repeat n (handle_alone j drawn payload) next in
      let later =
        serve_together-copies n t drawn payload (set ts t (payload, next.1)) next.0 next.1
          (get_elem?-set_self ts t (payload, next.1) (get_elem?-lt ts t at)) in
      rw (at, serve_together, serve_step)
        (later ∙ ap (λ x. (end.0, x)) (set-set ts t (payload, next.1) (payload, end.1)))

  -- Each request with its answer.
  abbrev pub finished :
      List (ℕ × Option Value) → List (Result (Response j)) → List (Option Value × Task j)
  finished [] answers = []
  finished (request ∷ requests) [] = []
  finished ((drawn, payload) ∷ requests) (a ∷ answers) =
      (payload, answered a) ∷ finished requests answers

  abbrev unanswered : ℕ × Option Value → Option Value × Task j
  unanswered (drawn, payload) = (payload, received)

  -- The steps of the next request in a row, with its answer at the end.
  answer_next :
      (drawn : ℕ) (payload : Option Value) (before rest : List (Option Value × Task j))
      (cs cs' : List Campagne) (a : Result (Response j))
      → async_handle_http_request j drawn payload cs ≡ some (cs', a)
      → (first : List (ℕ × ℕ)) × (serve_together j first
            (cs, before ++ ((payload, received) ∷ rest))
          ≡ (cs', (before ++ ((payload, answered a) ∷ [])) ++ rest))
  answer_next drawn payload before rest cs cs' a e =
      let t = length before in
      let ts = before ++ ((payload, received) ∷ rest) in
      let (n, steps) = handle_alone_lem j drawn payload cs cs' a e in
      (
        copies n (t, drawn),
        serve_together-copies n t drawn payload ts cs received
              (get_elem?-append_length before rest (payload, received))
            ∙ ap (put ts t payload) steps
            ∙ ap (λ x. (cs', x))
                (set-append before rest (payload, received) (payload, answered a)
                  ∙ sym (append_assoc before ((payload, answered a) ∷ []) rest)),
      )

  serve-schedule :
      (requests : List (ℕ × Option Value)) (before : List (Option Value × Task j))
      (cs cs' : List Campagne) (answers : List (Result (Response j)))
      → serve j requests cs ≡ some (cs', answers)
      → (schedule : List (ℕ × ℕ)) × (serve_together j schedule
            (cs, before ++ map unanswered requests)
          ≡ (cs', before ++ finished requests answers))
  unfolding serve serve_together
  serve-schedule [] before cs cs' answers e = ([], ap (λ x. (x, before ++ [])) (cc))
  serve-schedule ((drawn, payload) ∷ requests) before cs cs' answers e =
      elim (Option-cases (async_handle_http_request j drawn payload cs)) [
        | inl none_yet ↦ absurd (let e' = rw (none_yet, serve) at e in cc)
        | inr ((cs1, a), one) ↦ elim (Option-cases (serve j requests cs1)) [
          | inl none_later ↦ absurd (let e' = rw (one, none_later, serve) at e in cc)
          | inr ((cs2, later), rest) ↦
              let (first, e1) =
                answer_next drawn payload before (map unanswered requests) cs cs1 a one in
              let (schedule, e2) =
                serve-schedule requests (before ++ ((payload, answered a) ∷ [])) cs1 cs2 later
                  rest in
              let e' = rw (one, rest, serve) at e in
              (
                first ++ schedule,
                serve_together-append first schedule _
                    ∙ ap (serve_together j schedule) e1
                    ∙ e2
                    ∙ ap (λ x. (cs2, x))
                        (append_assoc before ((payload, answered a) ∷ []) (finished requests later))
                    ∙ ap (λ x. (x.0, before ++ finished ((drawn, payload) ∷ requests) x.1))
                        (some-injective _ _ e'),
              )
        ]
      ]

  abbrev pub payload_of : ℕ × Option Value → Option Value
  payload_of (drawn, payload) = payload

  open_unanswered :
      (requests : List (ℕ × Option Value)) (cs : List Campagne)
      → (open_server j cs (map payload_of requests)).1 ≡ map unanswered requests
  open_unanswered [] cs = refl
  open_unanswered ((drawn, payload) ∷ requests) cs =
      ap (λ t. (payload, received) ∷ t) (open_unanswered requests cs)

  -- Where the handler of one thread is defined for requests that come one after the other, some order of
  -- the steps of the server on these requests ends with the same campaigns, and with the same answer or
  -- exception for each.
  pub serve_is_schedule :
      (requests : List (ℕ × Option Value)) (cs cs' : List Campagne)
      (answers : List (Result (Response j)))
      → serve j requests cs ≡ some (cs', answers)
      → (schedule : List (ℕ × ℕ)) × (serve_together j schedule
            (open_server j cs (map payload_of requests))
          ≡ (cs', finished requests answers))
  serve_is_schedule requests cs cs' answers e =
      let (schedule, same) = serve-schedule requests [] cs cs' answers e in
      (schedule, ap (λ x. serve_together j schedule (cs, x)) (open_unanswered requests cs) ∙ same)
