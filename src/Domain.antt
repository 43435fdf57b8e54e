-- ===== src/Domain.antt =====
-- The domain types (backend/src/domain).
pub mod DateRange
pub mod DateOrder
pub mod TextUtil
use currency_converter_demo.Base.{Str}

-- backend/src/domain/Currency.h
pub record Currency : Type 0 where
  pub code : Str
  pub full_name : Str

-- backend/src/domain/ExchangeRate.h; `D` is the type of a `double`.
pub record ExchangeRate (D : Type 0) : Type 0 where
  pub base : Str
  pub quote : Str
  pub rate : D
  pub date : Str

-- backend/src/domain/ConversionResult.h
pub record ConversionResult (D : Type 0) : Type 0 where
  pub source_amount : D
  pub converted_amount : D
  pub exchange_rate : D
  pub rate_date : Str

-- backend/src/domain/Constraints.h
pub record Constraints (D : Type 0) : Type 0 where
  pub min_amount : D
  pub max_amount : D
  pub min_date : Str
  pub max_date : Str
