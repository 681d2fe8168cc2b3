-- ===== src/FoodBank.antt =====
-- Meal passes of food banks: modules/food-bank. Times are milliseconds, ids numbers; a pass's random
-- QR code is left out.
pub mod Windows
pub mod Policy
pub mod Service
pub mod Passes
pub mod Search
pub mod Settings
pub mod Seats
pub mod Room
mod Tests
use gathergo_backend.Base.{ℕ, Bool, Option, List}

pub data CollectionStatus : Type 0 where
  not_started open_ paused closed : CollectionStatus

pub record Event : Type 0 where
  pub creator_id : ℕ
  pub is_foodbank : Bool
  pub start_date : ℕ
  pub end_date : ℕ
  pub updated_at : ℕ
  pub collection_status : CollectionStatus
  pub total_meals : Option ℕ
  pub slot_capacity : Option ℕ
  pub slot_minutes : Option ℕ

pub record MealPass : Type 0 where
  pub id : ℕ
  pub event_id : ℕ
  pub user_id : ℕ
  pub collection_start : ℕ
  pub collection_end : ℕ
  pub is_used : Bool
  pub collected_at : Option ℕ
  pub collected_by : Option ℕ

pub record Db : Type 0 where
  pub events : ℕ → Option Event
  pub passes : List MealPass
