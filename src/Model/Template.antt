-- ===== src/Model/Template.antt =====
-- app/core/models/template.py and discovery.py
use ghostmon.Base.{ℕ, String, Option, Bool}
use ghostmon.Model.Host.{ItemValueType}

pub record Template : Type 0 where
  pub id : ℕ
  pub name : String
  pub description : Option String
  pub owner_id : ℕ

pub record TemplateItem : Type 0 where
  pub id : ℕ
  pub template_id : ℕ
  pub key : String
  pub name : String
  pub value_type : ItemValueType
  pub units : Option String
  pub interval : ℕ

pub data DiscoveryMethod : Type 0 where
  ping tcp : DiscoveryMethod

pub record DiscoveryRule : Type 0 where
  pub id : ℕ
  pub owner_id : ℕ
  pub name : String
  pub cidr : String
  pub method : DiscoveryMethod
  pub port : Option ℕ
  pub template_id : Option ℕ
  pub interval_seconds : ℕ
  pub is_enabled : Bool
  pub last_run_at : Option ℕ
