-- ===== src/Nodeset/Libraries.antt =====
-- The calls of the OPC UA server that fill its address space, which the node set relies on and does
-- not implement.
use ua_rate_throttling.Common.{ℕ, Option, Bytes, ℤ}

-- `UA_NodeId` with a numeric identifier
pub record NodeId : Type 0 where
  pub namespace_index : ℕ
  pub identifier : ℕ

pub record QualifiedName : Type 0 where
  pub namespace_index : ℕ
  pub name : Bytes

pub record Reference : Type 0 where
  pub source : NodeId
  pub reference_type : NodeId
  pub target : NodeId

-- The attributes that are set behind the initializer.
pub record Attributes : Type 0 where
  pub display_name : Bytes
  pub description : Bytes

pub record VariableAttributes : Type 0 where
  pub attributes : Attributes
  pub access_level : ℕ
  pub user_access_level : ℕ
  pub value_rank : ℤ
  pub value : Option ℕ

-- The id, the parent, the reference from the parent, the name, and the type where there is one. A
-- reference is added forward, and deleted forward and in both directions.
pub data Call : Type 0 where
  add_object_type_node : NodeId → NodeId → NodeId → QualifiedName → Attributes → Call
  add_variable_node : NodeId → NodeId → NodeId → QualifiedName → NodeId → VariableAttributes → Call
  add_object_node : NodeId → NodeId → NodeId → QualifiedName → NodeId → Attributes → Call
  delete_reference : Reference → Call
  add_reference : Reference → Call

pub record AddressSpace : Type 1 where
  pub World : Type 0
  -- `UA_Server_addNamespace`: the index of the namespace.
  pub add_namespace : Bytes → World → ℕ × World
  pub perform : Call → World → World
