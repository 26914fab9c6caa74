-- ===== src/Diff/Proto/Descriptors.antt =====
-- The descriptors that proto.py reads (of google.protobuf.descriptor_pb2, the fields used), and
-- its indexes of messages, services and fields.
use living_api_contract_guar.Common.{ℕ, String, List, [], ◌∷◌, map, ◌==◌, string_key, if◌then◌else◌}
use living_api_contract_guar.Common.Int.{ℤ, int_key}
use living_api_contract_guar.Common.Dict.{Dict, put, update}
use living_api_contract_guar.Common.Text.{◌<>◌}

-- `type` and `label` are the numbers of the enums FieldDescriptorProto.Type and .Label.
pub record FieldDescriptor : Type 0 where
  pub name : String
  pub number : ℤ
  pub type : ℕ
  pub type_name : String
  pub label : ℕ

mutual
  pub data Descriptor : Type 0 where
    message : String → List FieldDescriptor → Descriptors → Descriptor

  pub data Descriptors : Type 0 where
    nil : Descriptors
    cons : Descriptor → Descriptors → Descriptors

abbrev pub message_name : Descriptor → String
message_name (message n fs ms) = n

abbrev pub message_fields : Descriptor → List FieldDescriptor
message_fields (message n fs ms) = fs

pub record MethodDescriptor : Type 0 where
  pub name : String
  pub input_type : String
  pub output_type : String

pub record ServiceDescriptor : Type 0 where
  pub name : String
  pub method : List MethodDescriptor

pub record FileDescriptor : Type 0 where
  pub package_name : String
  pub message_type : Descriptors
  pub service : List ServiceDescriptor

abbrev pub FileDescriptorSet : Type 0
FileDescriptorSet = List FileDescriptor

-- `f"{prefix}.{name}" if prefix else name`
unfoldable pub qualified : String → String → String
qualified prefix name = if prefix == "" then name else prefix <> "." <> name

-- `_message_index_nested`, over the nested types that are left and the index so far
unfoldable pub message_index_nested :
    Descriptors → String → Dict String Descriptor → Dict String Descriptor
unfolding put update
message_index_nested nil prefix out = out
message_index_nested (cons (message n fs nested) ms) prefix out =
    let full = prefix <> "." <> n in
    let inner = message_index_nested nested full [] in
    message_index_nested ms prefix (update (put full (message n fs nested) out) inner)

-- `_message_index`, likewise
unfoldable pub message_index :
    Descriptors → String → Dict String Descriptor → Dict String Descriptor
unfolding put update qualified message_index_nested
message_index nil prefix out = out
message_index (cons (message n fs nested) ms) prefix out =
    let full = qualified prefix n in
    let inner = message_index_nested nested full [] in
    message_index ms prefix (update (put full (message n fs nested) out) inner)

-- the loop of `_all_messages`
unfoldable pub all_messages_from :
    FileDescriptorSet → Dict String Descriptor → Dict String Descriptor
unfolding update message_index
all_messages_from [] out = out
all_messages_from (file ∷ files) out =
    all_messages_from files (update out (message_index file.message_type file.package_name []))

unfoldable pub all_messages : FileDescriptorSet → Dict String Descriptor
unfolding all_messages_from
all_messages fds = all_messages_from fds []

-- the inner loop of `_all_services`
unfoldable pub services_of :
    String → List ServiceDescriptor → Dict String ServiceDescriptor → Dict String ServiceDescriptor
unfolding put qualified
services_of package_name [] out = out
services_of package_name (s ∷ ss) out =
    services_of package_name ss (put (qualified package_name s.name) s out)

-- the outer loop of `_all_services`
unfoldable pub all_services_from :
    FileDescriptorSet → Dict String ServiceDescriptor → Dict String ServiceDescriptor
unfolding services_of
all_services_from [] out = out
all_services_from (file ∷ files) out =
    all_services_from files (services_of file.package_name file.service out)

unfoldable pub all_services : FileDescriptorSet → Dict String ServiceDescriptor
unfolding all_services_from
all_services fds = all_services_from fds []

-- `_fields_by_number`
unfoldable pub fields_by_number : Descriptor → Dict ℤ FieldDescriptor
unfolding update
fields_by_number msg = update [] (map (λ f. (f.number, f)) (message_fields msg))

-- `_fields_by_name`
unfoldable pub fields_by_name : Descriptor → Dict String FieldDescriptor
unfolding update
fields_by_name msg = update [] (map (λ f. (f.name, f)) (message_fields msg))

-- `{m.name: m for m in service.method}`
unfoldable pub methods_by_name : ServiceDescriptor → Dict String MethodDescriptor
unfolding update
methods_by_name service = update [] (map (λ m. (m.name, m)) service.method)
