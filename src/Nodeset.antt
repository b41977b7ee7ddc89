-- ===== src/Nodeset.antt =====
-- The example address space of src/nodeset.c: a type with a variable, and an instance of it.
pub mod Libraries
use ua_rate_throttling.Common.{
  ℕ, true, List, [], ◌∷◌, Bytes, codes, ◌==◌, if◌then◌else◌, some, none, negsuc,
}
use ua_rate_throttling.Chunk.{good}
use Libraries.{
  NodeId, QualifiedName, Reference, Attributes, VariableAttributes, Call, add_object_type_node,
  add_variable_node, add_object_node, delete_reference, add_reference, AddressSpace,
}

abbrev pub bad_unexpected_error : ℕ
bad_unexpected_error = 0x80010000

-- `UA_NODEID_NUMERIC`
abbrev pub numeric : ℕ → ℕ → NodeId
numeric namespace_index identifier = record {
  namespace_index = namespace_index;
  identifier = identifier;
}

abbrev pub named : ℕ → Bytes → QualifiedName
named namespace_index name = record { namespace_index = namespace_index; name = name }

-- `UA_LOCALIZEDTEXT("", name)`, and an empty description.
abbrev pub displayed : Bytes → Attributes
displayed name = record { display_name = name; description = [] }

abbrev pub reference : NodeId → ℕ → NodeId → Reference
reference source type target = record {
  source = source;
  reference_type = numeric 0 type;
  target = target;
}

-- The type: ns=2;i=1001
unfoldable pub test_type : List Call
test_type =
    add_object_type_node (numeric 2 1001) (numeric 0 58) (numeric 0 45) (named 1 (codes "testType"))
      (displayed (codes "testType"))
    ∷ []

-- Its variable: ns=2;i=6001
unfoldable pub type_variable : List Call
type_variable =
    add_variable_node (numeric 2 6001) (numeric 2 1001) (numeric 0 47) (named 1 (codes "Var1"))
      (numeric 0 63)
      (record {
        attributes = displayed (codes "Var1");
        access_level = 3;
        user_access_level = 3;
        value_rank = negsuc 0;
        value = none;
      })
    ∷ delete_reference (reference (numeric 2 6001) 40 (numeric 0 62))
    ∷ add_reference (reference (numeric 2 6001) 40 (numeric 0 63))
    ∷ add_reference (reference (numeric 2 6001) 37 (numeric 0 78))
    ∷ []

-- The instance: ns=2;i=5001
unfoldable pub test_instance : List Call
test_instance =
    add_object_node (numeric 2 5001) (numeric 0 85) (numeric 0 35) (named 1 (codes "testInstance"))
      (numeric 2 1001) (displayed (codes "testInstance"))
    ∷ delete_reference (reference (numeric 2 5001) 40 (numeric 0 58))
    ∷ add_reference (reference (numeric 2 5001) 40 (numeric 2 1001))
    ∷ []

-- Its variable: ns=2;i=6002, with the value 42.0, a `double` as its 64-bit pattern.
unfoldable pub instance_variable : List Call
instance_variable =
    add_variable_node (numeric 2 6002) (numeric 2 5001) (numeric 0 47) (named 1 (codes "Var1"))
      (numeric 0 63)
      (record {
        attributes = displayed (codes "Var1");
        access_level = 3;
        user_access_level = 3;
        value_rank = negsuc 0;
        value = some 0x4045000000000000;
      })
    ∷ delete_reference (reference (numeric 2 6002) 40 (numeric 0 62))
    ∷ add_reference (reference (numeric 2 6002) 40 (numeric 0 63))
    ∷ []

module _ (space : AddressSpace) where
  unfoldable pub perform_all : List Call → space.World → space.World
  perform_all [] w = w
  perform_all (c ∷ cs) w = perform_all cs (space.perform c w)

  -- `nodeset`: its status and the address space. The results of the single calls are not looked at.
  unfoldable pub nodeset : space.World → ℕ × space.World
  nodeset w =
      let (index, w') = space.add_namespace (codes "http://yourorganisation.org/test/") w in
      if index == 2
      then (
        good,
        perform_all instance_variable
            (perform_all test_instance (perform_all type_variable (perform_all test_type w'))),
      )
      else (bad_unexpected_error, w')
