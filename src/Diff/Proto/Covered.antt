-- ===== src/Diff/Proto/Covered.antt =====
-- The kinds of the changes of `diff_proto`.
use living_api_contract_guar.Common.{
  ◌++◌, ◌≡◌, Option, some, ℕ, String, Option, none, some, List, [], ◌∷◌, ◌++◌, refl, arith, map,
  collect, string_key, All, All-append, All-map, All-collect,
}
use living_api_contract_guar.Common.Int.{ℤ, int_key}
use living_api_contract_guar.Common.Dict.{get, only_in, in_both}
use living_api_contract_guar.Json.Value.{null}
use living_api_contract_guar.Diff.Models.Limits.{validated-some}
use living_api_contract_guar.Diff.Models.{RawChange}
use living_api_contract_guar.Diff.DefaultRules.Coverage.{covered, IsCovered}
use living_api_contract_guar.Diff.Proto.Descriptors.{
  FieldDescriptor, Descriptor, MethodDescriptor, ServiceDescriptor, FileDescriptorSet,
  fields_by_number, fields_by_name, methods_by_name, all_messages, all_services,
}
use living_api_contract_guar.Diff.Proto.Message.{
  at_key, renumbered, added_at, removed_at, type_change_at, label_change_at, rename_at, kept_at,
  field_added, field_removed, field_kept, diff_message,
}
use living_api_contract_guar.Diff.Proto.Service.{
  rpc_change, rpc_type_change, rpc_kept_at, rpc_kept, rpc_added, rpc_removed, diff_service,
  method_value,
}
use living_api_contract_guar.Diff.Proto.Walk.{
  message_added, message_removed, service_added, service_removed, message_kept, service_kept,
  diff_messages, diff_services, diff_proto,
}

at_key-IsCovered :
    {A : Type 0} (o : Option A) (f : A → List RawChange)
    → ((a : A) → All IsCovered (f a))
    → All IsCovered (at_key o f)
at_key-IsCovered none f h = tt
at_key-IsCovered (some a) f h = h a

three_loops-IsCovered :
    {K : Type 0} (f g h : K → List RawChange) (xs ys zs : List K)
    → ((k : K) → All IsCovered (f k))
    → ((k : K) → All IsCovered (g k))
    → ((k : K) → All IsCovered (h k))
    → All IsCovered (collect f xs ++ (collect g ys ++ collect h zs))
three_loops-IsCovered f g h xs ys zs p q r =
    All-append IsCovered (collect f xs) (collect g ys ++ collect h zs)
      (All-collect IsCovered f xs p)
      (All-append IsCovered (collect g ys) (collect h zs) (All-collect IsCovered g ys q)
        (All-collect IsCovered h zs r))

module _ (enum_name label_name : ℕ → String) where
  kept_at-IsCovered :
      (name : String) (num : ℤ) (f g : FieldDescriptor)
      → All IsCovered (kept_at enum_name label_name name num f g)
  unfolding kept_at type_change_at label_change_at rename_at covered
  kept_at-IsCovered name num f g = ground arith

  added_at-IsCovered :
      (name : String) (num : ℤ) (o : Option ℤ) (f : FieldDescriptor)
      → All IsCovered (added_at enum_name label_name name num o f ∷ [])
  unfolding added_at covered
  added_at-IsCovered name num none f = (refl, tt)
  added_at-IsCovered name num (some old) f = (refl, tt)

  removed_at-IsCovered :
      (name : String) (num : ℤ) (o : Option ℤ) (f : FieldDescriptor)
      → All IsCovered (removed_at enum_name label_name name num o f)
  unfolding removed_at covered
  removed_at-IsCovered name num none f = (refl, tt)
  removed_at-IsCovered name num (some old) f = tt

  diff_message-IsCovered :
      (name : String) (b a : Descriptor)
      → All IsCovered (diff_message enum_name label_name name b a)
  unfolding diff_message field_added field_removed field_kept
  diff_message-IsCovered name b a =
      three_loops-IsCovered (field_added enum_name label_name name b a)
        (field_removed enum_name label_name name b a) (field_kept enum_name label_name name b a)
        (only_in (fields_by_number a) (fields_by_number b))
        (only_in (fields_by_number b) (fields_by_number a))
        (in_both (fields_by_number b) (fields_by_number a))
        (λ num.
          at_key-IsCovered (get num (fields_by_number a))
            (λ f.
              added_at enum_name label_name name num
                (renumbered (get f.name (fields_by_name b)) num) f
              ∷ [])
            (λ f. added_at-IsCovered name num (renumbered (get f.name (fields_by_name b)) num) f))
        (λ num.
          at_key-IsCovered (get num (fields_by_number b))
            (λ f.
              removed_at enum_name label_name name num
                (renumbered (get f.name (fields_by_name a)) num) f)
            (λ f. removed_at-IsCovered name num (renumbered (get f.name (fields_by_name a)) num) f))
        (λ num.
          at_key-IsCovered (get num (fields_by_number b))
            (λ f.
              at_key (get num (fields_by_number a))
                (λ g. kept_at enum_name label_name name num f g))
            (λ f.
              at_key-IsCovered (get num (fields_by_number a))
                (λ g. kept_at enum_name label_name name num f g)
                (λ g. kept_at-IsCovered name num f g)))

rpc_kept_at-IsCovered :
    (name m : String) (b a : MethodDescriptor) → All IsCovered (rpc_kept_at name m b a)
unfolding rpc_kept_at rpc_type_change rpc_change covered
rpc_kept_at-IsCovered name m b a = ground arith

diff_service-IsCovered :
    (name : String) (b a : ServiceDescriptor) → All IsCovered (diff_service name b a)
unfolding diff_service rpc_added rpc_removed rpc_kept covered rpc_change
diff_service-IsCovered name b a =
    three_loops-IsCovered (rpc_added name a) (rpc_removed name b) (rpc_kept name b a)
      (only_in (methods_by_name a) (methods_by_name b))
      (only_in (methods_by_name b) (methods_by_name a))
      (in_both (methods_by_name b) (methods_by_name a))
      (λ m.
        at_key-IsCovered (get m (methods_by_name a))
          (λ d. rpc_change "proto.rpc.added" name m null (method_value m d) ∷ []) (λ d. (refl, tt)))
      (λ m.
        at_key-IsCovered (get m (methods_by_name b))
          (λ d. rpc_change "proto.rpc.removed" name m (method_value m d) null ∷ [])
          (λ d. (refl, tt)))
      (λ m.
        at_key-IsCovered (get m (methods_by_name b))
          (λ d. at_key (get m (methods_by_name a)) (λ g. rpc_kept_at name m d g))
          (λ d.
            at_key-IsCovered (get m (methods_by_name a)) (λ g. rpc_kept_at name m d g)
              (λ g. rpc_kept_at-IsCovered name m d g)))

walk-IsCovered :
    (f g : String → RawChange) (h : String → List RawChange) (xs ys zs : List String)
    → ((k : String) → IsCovered (f k))
    → ((k : String) → IsCovered (g k))
    → ((k : String) → All IsCovered (h k))
    → All IsCovered (map f xs ++ (map g ys ++ collect h zs))
walk-IsCovered f g h xs ys zs p q r =
    All-append IsCovered (map f xs) (map g ys ++ collect h zs) (All-map IsCovered f xs p) (
      All-append IsCovered (map g ys) (collect h zs) (All-map IsCovered g ys q)
        (All-collect IsCovered h zs r))

module _ (enum_name label_name : ℕ → String) (before after : FileDescriptorSet) where
  diff_messages-IsCovered : All IsCovered (diff_messages enum_name label_name before after)
  unfolding diff_messages message_kept message_added message_removed covered
  diff_messages-IsCovered =
      let b = all_messages before in
      let a = all_messages after in
      walk-IsCovered message_added message_removed (message_kept enum_name label_name before after)
        (only_in a b) (only_in b a) (in_both b a) (λ n. refl) (λ n. refl)
        (λ n.
          at_key-IsCovered (get n b)
            (λ m. at_key (get n a) (λ g. diff_message enum_name label_name n m g))
            (λ m.
              at_key-IsCovered (get n a) (λ g. diff_message enum_name label_name n m g)
                (λ g. diff_message-IsCovered enum_name label_name n m g)))

  diff_services-IsCovered : All IsCovered (diff_services enum_name label_name before after)
  unfolding diff_services service_kept service_added service_removed covered
  diff_services-IsCovered =
      let b = all_services before in
      let a = all_services after in
      walk-IsCovered service_added service_removed (service_kept enum_name label_name before after)
        (only_in a b) (only_in b a) (in_both b a) (λ n. refl) (λ n. refl)
        (λ n.
          at_key-IsCovered (get n b) (λ m. at_key (get n a) (λ g. diff_service n m g))
            (λ m.
              at_key-IsCovered (get n a) (λ g. diff_service n m g)
                (λ g. diff_service-IsCovered n m g)))

  pub diff_proto-IsCovered :
      (cs : List RawChange)
      → diff_proto enum_name label_name before after ≡ some cs
      → All IsCovered cs
  unfolding diff_proto
  diff_proto-IsCovered cs h =
      let kept =
        validated-some
          (some (
            diff_messages enum_name label_name before after
            ++ diff_services enum_name label_name before after))
          cs h in
      let same : diff_messages enum_name label_name before after
            ++ diff_services enum_name label_name before after
          ≡ cs =
        cc in
      rw (← same) (
        All-append IsCovered (diff_messages enum_name label_name before after)
          (diff_services enum_name label_name before after) diff_messages-IsCovered
          diff_services-IsCovered)
