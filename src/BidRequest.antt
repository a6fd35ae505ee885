-- ===== src/BidRequest.antt =====
-- src/BidRequest.h.
use tabmo_codding_challenge.Common.Text.{Bytes}
use tabmo_codding_challenge.Common.Int.{ℤ}
use tabmo_codding_challenge.Float.{Float}

pub record BidRequest : Type 0 where
  pub id : Bytes
  pub bid_floor : Float
  pub device_w : ℤ
  pub device_h : ℤ
  pub device_ifa : Bytes
  pub device_lang : Bytes
  pub app_name : Bytes
