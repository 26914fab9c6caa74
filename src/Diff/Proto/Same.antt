-- ===== src/Diff/Proto/Same.antt =====
-- `diff_proto` of proto.py on a descriptor set and itself.
use living_api_contract_guar.Common.{
  ◌++◌, ◌≡◌, Option, some, ℕ, String, Option, none, some, List, [], ◌≡◌, refl, string_key, beq_refl,
}
use living_api_contract_guar.Common.Int.{int_key}
use living_api_contract_guar.Common.Sets.{collect-nil}
use living_api_contract_guar.Common.Dict.{get, in_both}
use living_api_contract_guar.Diff.Models.Limits.{validated-some}
use living_api_contract_guar.Diff.Models.{RawChange}
use living_api_contract_guar.Diff.OpenApi.Quiet.{only_in_self}
use living_api_contract_guar.Diff.Proto.Descriptors.{
  FieldDescriptor, Descriptor, MethodDescriptor, ServiceDescriptor, FileDescriptorSet,
  fields_by_number, methods_by_name, all_messages, all_services,
}
use living_api_contract_guar.Diff.Proto.Message.{at_key, diff_message}
use living_api_contract_guar.Diff.Proto.Service.{
  rpc_type_change, rpc_kept_at, rpc_kept, diff_service,
}
use living_api_contract_guar.Diff.Proto.Walk.{
  message_kept, service_kept, diff_messages, diff_services, diff_proto,
}
use living_api_contract_guar.Diff.Proto.Silent.{SameField, same_silent}

-- The loop body of a kept key, when each item of the dict is silent against itself.
at_key_both :
    {A : Type 0} (o : Option A) (f : A → A → List RawChange)
    → ((a : A) → f a a ≡ [])
    → at_key o (λ b. at_key o (λ a. f b a)) ≡ []
at_key_both none f h = refl
at_key_both (some a) f h = h a

rpc_kept_at_self :
    (name method_name : String) (m : MethodDescriptor) → rpc_kept_at name method_name m m ≡ []
unfolding rpc_kept_at rpc_type_change
rpc_kept_at_self name method_name m = rw (beq_refl m.input_type, beq_refl m.output_type) refl

diff_service_self : (name : String) (s : ServiceDescriptor) → diff_service name s s ≡ []
unfolding diff_service rpc_kept
diff_service_self name s = rw (only_in_self (methods_by_name s)) (
    collect-nil (rpc_kept name s s) (in_both (methods_by_name s) (methods_by_name s)) (λ m q.
      at_key_both (get m (methods_by_name s)) (rpc_kept_at name m) (rpc_kept_at_self name m)))

module _ (enum_name label_name : ℕ → String) where
  SameField-self : (o : Option FieldDescriptor) → SameField enum_name label_name o o
  SameField-self none = tt
  SameField-self (some f) = (refl, refl, refl)

  diff_message_self :
      (name : String) (m : Descriptor) → diff_message enum_name label_name name m m ≡ []
  diff_message_self name m =
      same_silent enum_name label_name name m m
        (λ num. SameField-self (get num (fields_by_number m)))

  diff_messages_self : (fds : FileDescriptorSet) → diff_messages enum_name label_name fds fds ≡ []
  unfolding diff_messages message_kept
  diff_messages_self fds = rw (only_in_self (all_messages fds)) (
      collect-nil (message_kept enum_name label_name fds fds)
        (in_both (all_messages fds) (all_messages fds))
        (λ n q.
          at_key_both (get n (all_messages fds)) (diff_message enum_name label_name n)
            (diff_message_self n)))

  diff_services_self : (fds : FileDescriptorSet) → diff_services enum_name label_name fds fds ≡ []
  unfolding diff_services service_kept
  diff_services_self fds = rw (only_in_self (all_services fds)) (
      collect-nil (service_kept enum_name label_name fds fds)
        (in_both (all_services fds) (all_services fds))
        (λ n q. at_key_both (get n (all_services fds)) (diff_service n) (diff_service_self n)))

  -- Of a descriptor set compared with itself `diff_proto` returns no change.
  pub diff_proto_self :
      (fds : FileDescriptorSet) (cs : List RawChange)
      → diff_proto enum_name label_name fds fds ≡ some cs
      → cs ≡ []
  unfolding diff_proto
  diff_proto_self fds cs h =
      let kept =
        validated-some
          (some (
            diff_messages enum_name label_name fds fds
            ++ diff_services enum_name label_name fds fds))
          cs h in
      let same : diff_messages enum_name label_name fds fds
            ++ diff_services enum_name label_name fds fds
          ≡ cs =
        cc in
      rw (← same, diff_messages_self fds, diff_services_self fds) refl
