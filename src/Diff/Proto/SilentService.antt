-- ===== src/Diff/Proto/SilentService.antt =====
-- `_diff_service` of proto.py against the methods of the two services.
use living_api_contract_guar.Common.{
  String, true, not, Option, none, some, [], ◌++◌, collect, ◌≡◌, ◌≢◌, refl, arith, ◌&&◌, ◌↔◌,
  string_key, is_some,
}
use living_api_contract_guar.Common.Sets.{collect-nil, collect-nil_at, nil-append}
use living_api_contract_guar.Common.Dict.{get, only_in, in_both, elem-only_in, elem-in_both}
use text.Mathlib.TextEquality.{eq_iff}
use living_api_contract_guar.Diff.Proto.Descriptors.{
  MethodDescriptor, ServiceDescriptor, methods_by_name,
}
use living_api_contract_guar.Diff.Proto.Service.{
  rpc_type_change, rpc_added, rpc_removed, rpc_kept_at, rpc_kept, diff_service,
}

-- Both services lack the method, or both have it with the same two types.
abbrev pub SameMethod : Option MethodDescriptor → Option MethodDescriptor → Type 0
SameMethod none none = Unit
SameMethod none (some g) = ⊥
SameMethod (some f) none = ⊥
SameMethod (some f) (some g) = (f.input_type ≡ g.input_type) × (f.output_type ≡ g.output_type)

abbrev pub SameMethods : ServiceDescriptor → ServiceDescriptor → Type 0
SameMethods before after =
    (m : String) → SameMethod (get m (methods_by_name before)) (get m (methods_by_name after))

rpc_kept_at-nil :
    (name m : String) (f g : MethodDescriptor)
    → (rpc_kept_at name m f g ≡ []) ↔ SameMethod (some f) (some g)
unfolding rpc_kept_at rpc_type_change
rpc_kept_at-nil name m f g =
    ground (arith, eq_iff f.input_type g.input_type, eq_iff f.output_type g.output_type)

module _ (name : String) (before after : ServiceDescriptor) where
  -- What the three loops yield for one method, by what the two services hold.
  loops_at :
      (m : String) (o p : Option MethodDescriptor)
      → get m (methods_by_name before) ≡ o
      → get m (methods_by_name after) ≡ p
      → ((is_some p && not (is_some o)) ≡ true → rpc_added name after m ≡ [])
      → ((is_some o && not (is_some p)) ≡ true → rpc_removed name before m ≡ [])
      → ((is_some o && is_some p) ≡ true → rpc_kept name before after m ≡ [])
      → SameMethod o p
  unfolding rpc_added rpc_removed rpc_kept
  loops_at m none none q r a b c = tt
  loops_at m none (some g) q r a b c = absurd (ground (arith, a refl, r))
  loops_at m (some f) none q r a b c = absurd (ground (arith, b refl, q))
  loops_at m (some f) (some g) q r a b c = (rpc_kept_at-nil name m f g).0 (rw (q, r) at (c refl))

  -- The converse, for the loop over the methods of both.
  kept_at-nil :
      (m : String) (o p : Option MethodDescriptor)
      → get m (methods_by_name before) ≡ o
      → get m (methods_by_name after) ≡ p
      → SameMethod o p
      → rpc_kept name before after m ≡ []
  unfolding rpc_kept
  kept_at-nil m none p q r h = rw q refl
  kept_at-nil m (some f) none q r h = absurd h
  kept_at-nil m (some f) (some g) q r h = rw (q, r) ((rpc_kept_at-nil name m f g).1 h)

  both_or_neither :
      (o p : Option MethodDescriptor)
      → SameMethod o p
      → ((is_some o && not (is_some p)) ≢ true) × ((is_some p && not (is_some o)) ≢ true)
  both_or_neither none none h = (λ k. cc, λ k. cc)
  both_or_neither none (some g) h = absurd h
  both_or_neither (some f) none h = absurd h
  both_or_neither (some f) (some g) h = (λ k. cc, λ k. cc)

  silent_methods : diff_service name before after ≡ [] → SameMethods before after
  unfolding diff_service
  silent_methods silent m =
      let b = methods_by_name before in
      let a = methods_by_name after in
      let outer =
        nil-append (collect (rpc_added name after) (only_in a b))
          (collect (rpc_removed name before) (only_in b a)
            ++ collect (rpc_kept name before after) (in_both b a))
          silent in
      let inner =
        nil-append (collect (rpc_removed name before) (only_in b a))
          (collect (rpc_kept name before after) (in_both b a)) outer.1 in
      loops_at m (get m b) (get m a) refl refl
        (λ h.
          collect-nil_at (rpc_added name after) (only_in a b) m outer.0 (rw (elem-only_in m a b) h))
        (λ h.
          collect-nil_at (rpc_removed name before) (only_in b a) m inner.0
            (rw (elem-only_in m b a) h))
        (λ h.
          collect-nil_at (rpc_kept name before after) (in_both b a) m inner.1
            (rw (elem-in_both m b a) h))

  SameMethods-silent : SameMethods before after → diff_service name before after ≡ []
  unfolding diff_service
  SameMethods-silent h =
      let b = methods_by_name before in
      let a = methods_by_name after in
      rw
        (
          collect-nil (rpc_added name after) (only_in a b) (λ m k.
              absurd ((both_or_neither (get m b) (get m a) (h m)).1 (rw (← elem-only_in m a b) k))),
          collect-nil (rpc_removed name before) (only_in b a) (λ m k.
              absurd ((both_or_neither (get m b) (get m a) (h m)).0 (rw (← elem-only_in m b a) k))),
          collect-nil (rpc_kept name before after) (in_both b a)
              (λ m k. kept_at-nil m (get m b) (get m a) refl refl (h m)),
        )
        refl

-- `diff_service` reports nothing exactly when every method name is absent from both services, or
-- present in both with the same request and response types.
pub diff_service-silent :
    (name : String) (before after : ServiceDescriptor)
    → (diff_service name before after ≡ []) ↔ SameMethods before after
diff_service-silent name before after =
    (silent_methods name before after, SameMethods-silent name before after)
