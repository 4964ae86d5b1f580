-- ===== src/Model/Host.antt =====
-- app/core/models/host.py, metric_value.py
use ghostmon.Base.{ℕ, String, Option, Bool}

pub data ItemValueType : Type 0 where
  float unsigned text : ItemValueType

abbrev pub is_numeric : ItemValueType → Bool
is_numeric float = Bool.true
is_numeric unsigned = Bool.true
is_numeric text = Bool.false

pub data ItemSource : Type 0 where
  trapper snmp : ItemSource

pub record Host : Type 0 where
  pub id : ℕ
  pub name : String
  pub description : Option String
  pub address : Option String
  pub is_enabled : Bool
  pub owner_id : ℕ

-- The keys of the JSON column that the code reads.
pub record ItemConfig : Type 0 where
  pub oid : Option String
  pub community : Option String
  pub port : Option ℕ

pub record Item : Type 0 where
  pub id : ℕ
  pub host_id : ℕ
  pub key : String
  pub name : String
  pub value_type : ItemValueType
  pub units : Option String
  pub interval : ℕ
  pub is_enabled : Bool
  pub is_private : Bool
  pub source : ItemSource
  pub config : ItemConfig

pub record MetricValue (F : Type 0) : Type 0 where
  pub item_id : ℕ
  pub value_num : Option F
  pub value_text : Option String
  pub collected_at : ℕ
