-- ===== src/Diff/Proto/Message.antt =====
-- `_diff_message` of proto.py. `enum_name` gives the name of a number of FieldDescriptorProto.Type
-- (`Type.Name`), `label_name` that of a number of FieldDescriptorProto.Label.
use living_api_contract_guar.Common.{
  ℕ, String, Option, none, some, List, [], ◌∷◌, ◌++◌, collect, ◌==◌, string_key, nat_beq,
  if◌then◌else◌,
}
use living_api_contract_guar.Common.Int.{ℤ, int_key}
use living_api_contract_guar.Common.Dict.{get, only_in, in_both}
use living_api_contract_guar.Common.Text.{◌<>◌}
use living_api_contract_guar.Json.Value.{Value, null, int, str, object}
use living_api_contract_guar.Diff.Models.{RawChange}
use living_api_contract_guar.Diff.Proto.Descriptors.{
  FieldDescriptor, Descriptor, fields_by_number, fields_by_name,
}

-- `FieldDescriptorProto.TYPE_MESSAGE` and `.TYPE_ENUM`
abbrev pub type_message : ℕ
type_message = 11

abbrev pub type_enum : ℕ
type_enum = 14

-- The body of a loop at a key whose item the dict holds; at another the code would raise
-- KeyError, and no loop meets one.
abbrev pub at_key {ℓ} : {A : Type ℓ} {B : Type 0} → Option A → (A → List B) → List B
at_key none f = []
at_key (some a) f = f a

-- `f.name in d and d[f.name].number != num`
unfoldable pub renumbered : Option FieldDescriptor → ℤ → Option ℤ
renumbered none num = none
renumbered (some old) num = if old.number == num then none else some old.number

module _ (enum_name label_name : ℕ → String) where
  -- `_field_type_label`
  unfoldable pub field_type_label : FieldDescriptor → String
  field_type_label f =
      if nat_beq f.type type_message
      then "message:" <> f.type_name
      else if nat_beq f.type type_enum
      then "enum:" <> f.type_name
      else "scalar:" <> enum_name f.type

  -- `_field_label`
  unfoldable pub field_label : FieldDescriptor → String
  field_label f = label_name f.label

  unfoldable pub field_value : ℤ → FieldDescriptor → Value
  field_value num f =
      object (("number", int num) ∷ ("name", str f.name) ∷ ("type", str (field_type_label f)) ∷ [])

  -- What the first loop yields for a number that only `after` has: a change of number when
  -- `before` holds the name at another one.
  unfoldable pub added_at : String → ℤ → Option ℤ → FieldDescriptor → RawChange
  added_at name num (some old) f = record {
    kind = "proto.field.number_changed";
    location = "/" <> name <> "/" <> f.name;
    before = int old;
    after = int num;
    detail = ("message", str name) ∷ ("field", str f.name) ∷ [];
  }
  added_at name num none f = record {
    kind = "proto.field.added";
    location = "/" <> name <> "/" <> f.name;
    before = null;
    after = field_value num f;
    detail = ("message", str name) ∷ ("field", str f.name) ∷ ("number", int num) ∷ [];
  }

  -- What the second loop yields for a number that only `before` has.
  unfoldable pub removed_at : String → ℤ → Option ℤ → FieldDescriptor → List RawChange
  removed_at name num (some other) f = []
  removed_at name num none f =
      record {
        kind = "proto.field.removed";
        location = "/" <> name <> "/" <> f.name;
        before = field_value num f;
        after = null;
        detail = ("message", str name) ∷ ("field", str f.name) ∷ ("number", int num) ∷ [];
      }
      ∷ []

  unfoldable pub type_change_at : String → ℤ → FieldDescriptor → FieldDescriptor → List RawChange
  unfolding field_type_label
  type_change_at name num bf af =
      if field_type_label bf == field_type_label af
      then []
      else record {
        kind = "proto.field.type_changed";
        location = "/" <> name <> "/" <> bf.name;
        before = str (field_type_label bf);
        after = str (field_type_label af);
        detail = ("message", str name) ∷ ("field", str bf.name) ∷ ("number", int num) ∷ [];
      }
        ∷ []

  unfoldable pub label_change_at : String → ℤ → FieldDescriptor → FieldDescriptor → List RawChange
  unfolding field_label
  label_change_at name num bf af =
      if field_label bf == field_label af
      then []
      else record {
        kind = "proto.field.label_changed";
        location = "/" <> name <> "/" <> bf.name;
        before = str (field_label bf);
        after = str (field_label af);
        detail = ("message", str name) ∷ ("field", str bf.name) ∷ ("number", int num) ∷ [];
      }
        ∷ []

  unfoldable pub rename_at : String → ℤ → FieldDescriptor → FieldDescriptor → List RawChange
  rename_at name num bf af =
      if bf.name == af.name
      then []
      else record {
        kind = "proto.field.renamed";
        location = "/" <> name <> "/" <> bf.name;
        before = str bf.name;
        after = str af.name;
        detail = ("message", str name) ∷ ("number", int num) ∷ [];
      }
        ∷ []

  -- The body of the third loop.
  unfoldable pub kept_at : String → ℤ → FieldDescriptor → FieldDescriptor → List RawChange
  kept_at name num bf af =
      type_change_at name num bf af ++ (label_change_at name num bf af ++ rename_at name num bf af)

  unfoldable pub field_added : String → Descriptor → Descriptor → ℤ → List RawChange
  field_added name before after num =
      at_key (get num (fields_by_number after))
        (λ f. added_at name num (renumbered (get f.name (fields_by_name before)) num) f ∷ [])

  unfoldable pub field_removed : String → Descriptor → Descriptor → ℤ → List RawChange
  field_removed name before after num =
      at_key (get num (fields_by_number before))
        (λ f. removed_at name num (renumbered (get f.name (fields_by_name after)) num) f)

  unfoldable pub field_kept : String → Descriptor → Descriptor → ℤ → List RawChange
  field_kept name before after num =
      at_key (get num (fields_by_number before))
        (λ bf. at_key (get num (fields_by_number after)) (λ af. kept_at name num bf af))

  -- `_diff_message`
  unfoldable pub diff_message : String → Descriptor → Descriptor → List RawChange
  diff_message name before after =
      collect (field_added name before after)
        (only_in (fields_by_number after) (fields_by_number before))
      ++ (collect (field_removed name before after)
            (only_in (fields_by_number before) (fields_by_number after))
          ++ collect (field_kept name before after)
              (in_both (fields_by_number before) (fields_by_number after)))
