-- ===== src/CampagnesManager/Compatible/Ratio.antt =====
-- What the ratio test of the responsive campaigns, which is made with `float`, tells of the sizes.
use tabmo_codding_challenge.Common.Int.{pos}
use tabmo_codding_challenge.Common.{ℕ, ◌*◌, ◌≤◌, ◌<◌, ◌≡◌, ◌↔◌, true, false, arith}
use tabmo_codding_challenge.Float.{fin, limit, eq, le, div, from_int}
use tabmo_codding_challenge.Float.Round.Ratio.{quotient, quotient-lt, quotient_iff}
use tabmo_codding_challenge.BidRequest.{BidRequest}
use tabmo_codding_challenge.Campagne.{Campagne}
use tabmo_codding_challenge.CampagnesManager.Compatible.{same_ratio}
use tabmo_codding_challenge.CampagnesManager.Draw.Defined.{from_int_exact}

-- A size of a screen, as far as the test is exact for it.
abbrev IsScreenSize : ℕ → Type 0
IsScreenSize n = (1 ≤ n) × (n ≤ 2_896)

div_lem :
    (a b : ℕ)
    → IsScreenSize a
    → IsScreenSize b
    → div (from_int (pos a)) (from_int (pos b)) ≡ fin false (quotient a b)
unfolding div
div_lem a b (pos_a, small_a) (pos_b, small_b) =
    let finite : quotient a b < limit = quotient-lt a b pos_a pos_b small_a small_b in
    rw (from_int_exact a (omega arith), from_int_exact b (omega arith)) (ground arith)

eq_fin_iff : (m n : ℕ) → (eq (fin false m) (fin false n) ≡ true) ↔ (m ≡ n)
unfolding le
eq_fin_iff m n = ground arith

-- For sizes from 1 to 2896: the test of the ratios, made with rounded quotients, holds exactly when the
-- height of the request times the width of the campaign is the height of the campaign times the width
-- of the request.
pub same_ratio_iff :
    (r : BidRequest) (c : Campagne) (h w h' w' : ℕ)
    → IsScreenSize h
    → IsScreenSize w
    → IsScreenSize h'
    → IsScreenSize w'
    → r.device_h ≡ pos h
    → r.device_w ≡ pos w
    → c.height ≡ pos h'
    → c.width ≡ pos w'
    → (same_ratio r c ≡ true) ↔ (h * w' ≡ h' * w)
unfolding same_ratio
same_ratio_iff r c h w h' w' sh sw sh' sw' eh ew eh' ew' =
    rw (eh, ew, eh', ew')
      (rw (div_lem h w sh sw, div_lem h' w' sh' sw')
        (let (to, from) = quotient_iff h w h' w' sh.0 sw.0 sh'.0 sw'.0 sh.1 sw.1 sh'.1 sw'.1 in
          let (to', from') = eq_fin_iff (quotient h w) (quotient h' w') in
          (λ e. to (to' e), λ e. from' (from e))))
