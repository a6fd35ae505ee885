-- ===== src/Campagne/Typing.antt =====
-- The numbers of a campaign are of their types, `float` and `int`.
use tabmo_codding_challenge.Common.{inl, inr, Bool-cases}
use tabmo_codding_challenge.Common.Result.{Ensures}
use tabmo_codding_challenge.Common.Int.{IsInt}
use tabmo_codding_challenge.Float.{ge}
use tabmo_codding_challenge.Float.Value.{IsFloat}
use tabmo_codding_challenge.Float.Closed.{sub-IsFloat}
use tabmo_codding_challenge.Campagne.{Campagne, construct, decremente_budget}
use tabmo_codding_challenge.Campagne.Validation.{construct_outcome}

pub record IsTyped (c : Campagne) : Type 0 where
  pub float_budget : IsFloat c.budget
  pub float_price : IsFloat c.bid_price
  pub int_width : IsInt c.width
  pub int_height : IsInt c.height

pub construct-IsTyped : (c : Campagne) → IsTyped c → Ensures IsTyped (construct c)
construct-IsTyped c typed = elim (construct_outcome c) [ inl e ↦ rw e typed | inr e ↦ rw e tt ]

pub decremente_budget-IsTyped : (c : Campagne) → IsTyped c → IsTyped (decremente_budget c).0
unfolding decremente_budget
decremente_budget-IsTyped c typed = elim (Bool-cases (ge c.budget c.bid_price)) [
  | inl enough ↦
      rw (enough, decremente_budget)
        (record {
          float_budget = sub-IsFloat c.budget c.bid_price typed.float_budget typed.float_price;
          float_price = typed.float_price;
          int_width = typed.int_width;
          int_height = typed.int_height;
        })
  | inr short ↦ rw (short, decremente_budget) typed
]
