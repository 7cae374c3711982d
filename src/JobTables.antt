-- ===== src/JobTables.antt =====
-- core/appdb/models_jobs.py: the rows of jobs, their lines and their events.
use tgc_bus_core.Base.{ℕ, String, Option, List}
use tgc_bus_core.Base.Int.{ℤ}
use tgc_bus_core.Effects.{Session}
use tgc_bus_core.StockTables.{Item, Recipe}

pub data JobStatus : Type 0 where
  draft : JobStatus
  active : JobStatus
  blocked : JobStatus
  ready : JobStatus
  done : JobStatus
  cancelled : JobStatus

pub record Job : Type 0 where
  pub id : ℕ
  pub contact_id : Option ℕ
  pub title : String
  pub status : JobStatus
  pub priority : ℤ
  pub due_date : Option ℕ
  pub notes : Option String
  pub closed_at : Option ℕ

pub data LineStatus : Type 0 where
  pending : LineStatus
  produced : LineStatus
  delivered : LineStatus
  cancelled : LineStatus

pub record JobLine : Type 0 where
  pub id : ℕ
  pub job_id : ℕ
  pub item_id : Option ℕ
  pub recipe_id : Option ℕ
  pub line_type : String
  pub description : String
  pub qty_base : Option ℤ
  pub display_uom : Option String
  pub unit_price_cents : Option ℕ
  pub status : LineStatus
  pub sort_order : ℤ

pub record JobEvent : Type 0 where
  pub id : ℕ
  pub job_id : ℕ
  pub event_type : String
  pub message : String
  pub source_kind : Option String
  pub source_id : Option String
  pub meta : Option String

-- `contacts` holds the ids of the vendors' rows.
pub record JobDb : Type 0 where
  pub contacts : List ℕ
  pub items : List Item
  pub recipes : List Recipe
  pub jobs : List Job
  pub lines : List JobLine
  pub events : List JobEvent

abbrev pub JobSession : Type 0
JobSession = Session JobDb
