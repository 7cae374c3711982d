-- ===== src/StockTables.antt =====
-- core/appdb/models.py and core/appdb/models_recipes.py: the rows of the stock tables, with the
-- columns that the modelled operations read or write.
use tgc_bus_core.Base.{ℕ, String, Bool, Option, List}
use tgc_bus_core.Base.Int.{ℤ}
use tgc_bus_core.Decimal.{Number}
use tgc_bus_core.Effects.{Session}

-- `price` is what `Decimal(str(price))` reads in the float; `none` is NULL.
pub record Item : Type 0 where
  pub id : ℕ
  pub uom : String
  pub dimension : String
  pub qty_stored : ℤ
  pub price : Option Number

-- A source id is a text, or the id of a manufacturing run.
pub data SourceId : Type 0 where
  text : String → SourceId
  run : ℕ → SourceId

pub record ItemBatch : Type 0 where
  pub id : ℕ
  pub item_id : ℕ
  pub qty_initial : ℕ
  pub qty_remaining : ℕ
  pub unit_cost_cents : ℕ
  pub source_kind : String
  pub source_id : Option SourceId
  pub is_oversold : Bool
  pub created_at : ℕ

pub record ItemMovement : Type 0 where
  pub item_id : ℕ
  pub batch_id : ℕ
  pub qty_change : ℤ
  pub unit_cost_cents : ℕ
  pub source_kind : String
  pub source_id : Option SourceId
  pub is_oversold : Bool

pub record CashEvent : Type 0 where
  pub id : ℕ
  pub kind : String
  pub category : Option String
  pub amount_cents : ℤ
  pub item_id : Option ℕ
  pub qty_base : Option ℕ
  pub unit_price_cents : Option ℕ
  pub source_kind : Option String
  pub source_id : Option String
  pub related_source_id : Option String
  pub notes : Option String
  pub created_at : ℕ

pub record Recipe : Type 0 where
  pub id : ℕ
  pub output_item_id : ℕ
  pub output_qty : ℤ
  pub archived : Bool

pub record RecipeItem : Type 0 where
  pub id : ℕ
  pub recipe_id : ℕ
  pub item_id : ℕ
  pub qty_required : ℕ
  pub is_optional : Bool
  pub sort_order : ℕ

pub record ManufacturingRun : Type 0 where
  pub id : ℕ
  pub recipe_id : Option ℕ
  pub output_item_id : ℕ
  pub output_qty : ℤ
  pub status : String
  pub executed_at : Option ℕ
  pub notes : Option String

pub record StockDb : Type 0 where
  pub items : List Item
  pub batches : List ItemBatch
  pub movements : List ItemMovement
  pub cash_events : List CashEvent
  pub recipes : List Recipe
  pub recipe_items : List RecipeItem
  pub runs : List ManufacturingRun

abbrev pub StockSession : Type 0
StockSession = Session StockDb
