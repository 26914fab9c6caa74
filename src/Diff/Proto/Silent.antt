-- ===== src/Diff/Proto/Silent.antt =====
-- `_diff_message` of proto.py against the fields of the two messages.
use living_api_contract_guar.Common.{
  ℕ, String, Bool, true, not, Option, none, some, [], ◌++◌, map, collect, ◌≡◌, refl, arith, ◌&&◌,
  ◌↔◌, ◌≢◌, inl, inr, string_key, Option-cases, is_some,
}
use living_api_contract_guar.Common.Int.{ℤ, int_key, int_beq_iff}
use living_api_contract_guar.Common.Sets.{distinct, collect-nil, collect-nil_at, nil-append}
use living_api_contract_guar.Common.Dict.{get, only_in, in_both, elem-only_in, elem-in_both}
use text.Mathlib.TextEquality.{eq_iff}
use living_api_contract_guar.Diff.Proto.Descriptors.{
  FieldDescriptor, Descriptor, message_fields, fields_by_number, fields_by_name,
}
use living_api_contract_guar.Diff.Proto.Message.{
  renumbered, field_type_label, field_label, removed_at, type_change_at, label_change_at, rename_at,
  kept_at, field_added, field_removed, field_kept, diff_message,
}
use living_api_contract_guar.Diff.Proto.Index.{index_agree}

-- `protoc` accepts a message only when no two fields have one name or one number.
unfoldable pub is_well_formed : Descriptor → Bool
unfolding distinct
is_well_formed msg =
    distinct (map (λ f. f.name) (message_fields msg))
    && distinct (map (λ f. f.number) (message_fields msg))

-- What the index of names finds is also in the index of numbers.
by_name_number :
    (msg : Descriptor) (k : String) (g : FieldDescriptor)
    → is_well_formed msg ≡ true
    → get k (fields_by_name msg) ≡ some g
    → (g.name ≡ k) × (get g.number (fields_by_number msg) ≡ some g)
unfolding is_well_formed fields_by_name fields_by_number
by_name_number msg k g h q =
    index_agree (λ f. f.name) (λ f. f.number) (message_fields msg) k g (ground arith) q

by_number_name :
    (msg : Descriptor) (n : ℤ) (g : FieldDescriptor)
    → is_well_formed msg ≡ true
    → get n (fields_by_number msg) ≡ some g
    → (g.number ≡ n) × (get g.name (fields_by_name msg) ≡ some g)
unfolding is_well_formed fields_by_name fields_by_number
by_number_name msg n g h q =
    index_agree (λ f. f.number) (λ f. f.name) (message_fields msg) n g (ground arith) q

module _ (enum_name label_name : ℕ → String) where
  -- Both messages lack the number, or both have it with one name, type and label.
  abbrev pub SameField : Option FieldDescriptor → Option FieldDescriptor → Type 0
  SameField none none = Unit
  SameField none (some g) = ⊥
  SameField (some f) none = ⊥
  SameField (some f) (some g) =
      (f.name ≡ g.name)
      × (field_type_label enum_name label_name f ≡ field_type_label enum_name label_name g)
      × (field_label enum_name label_name f ≡ field_label enum_name label_name g)

  -- Then no loop over the numbers of one message alone meets this number.
  both_or_neither :
      (o p : Option FieldDescriptor)
      → SameField o p
      → ((is_some o && not (is_some p)) ≢ true) × ((is_some p && not (is_some o)) ≢ true)
  both_or_neither none none h = (λ k. cc, λ k. cc)
  both_or_neither none (some g) h = absurd h
  both_or_neither (some f) none h = absurd h
  both_or_neither (some f) (some g) h = (λ k. cc, λ k. cc)

  kept_at-nil :
      (name : String) (num : ℤ) (f g : FieldDescriptor)
      → (kept_at enum_name label_name name num f g ≡ []) ↔ SameField (some f) (some g)
  unfolding kept_at type_change_at label_change_at rename_at
  kept_at-nil name num f g = ground (
    arith,
    eq_iff f.name g.name,
    eq_iff (field_type_label enum_name label_name f) (field_type_label enum_name label_name g),
    eq_iff (field_label enum_name label_name f) (field_label enum_name label_name g),
  )

  abbrev pub IsSame : Descriptor → Descriptor → Type 0
  IsSame before after =
      (num : ℤ) → SameField (get num (fields_by_number before)) (get num (fields_by_number after))

  module _ (name : String) (before after : Descriptor) where
    -- A number of both messages, by what each index holds there.
    kept_number :
        (num : ℤ) (o p : Option FieldDescriptor)
        → get num (fields_by_number before) ≡ o
        → get num (fields_by_number after) ≡ p
        → (is_some o && is_some p) ≡ true
        → (field_kept enum_name label_name name before after num ≡ []) ↔ SameField o p
    unfolding field_kept
    kept_number num none p q r h = absurd cc
    kept_number num (some f) none q r h = absurd cc
    kept_number num (some f) (some g) q r h = rw (q, r) (kept_at-nil name num f g)

    -- A number that only `after` has is always reported.
    added_number :
        (num : ℤ) (g : FieldDescriptor)
        → get num (fields_by_number after) ≡ some g
        → field_added enum_name label_name name before after num ≢ []
    unfolding field_added
    added_number num g r = λ h. absurd cc

    -- A number that only `before` has is skipped only if `after` has the name elsewhere.
    removed_number :
        (num : ℤ) (f : FieldDescriptor)
        → get num (fields_by_number before) ≡ some f
        → field_removed enum_name label_name name before after num ≡ []
        → (g : FieldDescriptor) × (get f.name (fields_by_name after) ≡ some g) × (g.number ≢ num)
    unfolding field_removed removed_at renumbered
    removed_number num f q h = elim (Option-cases (get f.name (fields_by_name after))) [
      | inl n ↦ absurd cc
      | inr (g, e) ↦ (g, e, λ k. ground (arith, int_beq_iff g.number num))
    ]

    module _ (is_wf_before : is_well_formed before ≡ true)
        (is_wf_after : is_well_formed after ≡ true)
        (silent : diff_message enum_name label_name name before after ≡ []) where
      silent_loops :
          (collect
              (field_added enum_name label_name name before after)
              (only_in (fields_by_number after) (fields_by_number before))
            ≡ [])
          × (collect
                (field_removed enum_name label_name name before after)
                (only_in (fields_by_number before) (fields_by_number after))
              ≡ [])
          × (collect
                (field_kept enum_name label_name name before after)
                (in_both (fields_by_number before) (fields_by_number after))
              ≡ [])
      unfolding diff_message
      silent_loops =
          let outer =
            nil-append
              (collect (field_added enum_name label_name name before after)
                (only_in (fields_by_number after) (fields_by_number before)))
              (collect (field_removed enum_name label_name name before after)
                  (only_in (fields_by_number before) (fields_by_number after))
                ++ collect (field_kept enum_name label_name name before after)
                    (in_both (fields_by_number before) (fields_by_number after)))
              silent in
          let inner =
            nil-append
              (collect (field_removed enum_name label_name name before after)
                (only_in (fields_by_number before) (fields_by_number after)))
              (collect (field_kept enum_name label_name name before after)
                (in_both (fields_by_number before) (fields_by_number after)))
              outer.1 in
          (outer.0, inner.0, inner.1)

      no_added :
          (num : ℤ) (g : FieldDescriptor)
          → get num (fields_by_number before) ≡ none
          → get num (fields_by_number after) ≢ some g
      no_added num g q = λ r. added_number num g r (
          collect-nil_at (field_added enum_name label_name name before after)
            (only_in (fields_by_number after) (fields_by_number before)) num silent_loops.0
            (rw (elem-only_in num (fields_by_number after) (fields_by_number before), q, r)))

      same_at :
          (num : ℤ) (o p : Option FieldDescriptor)
          → get num (fields_by_number before) ≡ o
          → get num (fields_by_number after) ≡ p
          → (is_some o && is_some p) ≡ true
          → SameField o p
      same_at num o p q r h = (kept_number num o p q r h).0 (
          collect-nil_at (field_kept enum_name label_name name before after)
            (in_both (fields_by_number before) (fields_by_number after)) num silent_loops.2
            (rw (elem-in_both num (fields_by_number before) (fields_by_number after), q, r) h))

      -- A name that moved to another number of `before` would be reported there as renamed.
      no_removed :
          (num : ℤ) (f : FieldDescriptor)
          → get num (fields_by_number before) ≡ some f
          → get num (fields_by_number after) ≢ none
      no_removed num f q = λ r.
          let (g, e, moved) = removed_number num f q (
            collect-nil_at (field_removed enum_name label_name name before after)
              (only_in (fields_by_number before) (fields_by_number after)) num silent_loops.1
              (rw (elem-only_in num (fields_by_number before) (fields_by_number after), q, r))) in
          let at_after = by_name_number after f.name g is_wf_after e in
          elim (Option-cases (get g.number (fields_by_number before))) [
            | inl n ↦ absurd (no_added g.number g n at_after.1)
            | inr (f2, q2) ↦
                let same = same_at g.number (some f2) (some g) q2 at_after.1 refl in
                let at_f = by_number_name before num f is_wf_before q in
                let at_f2 = by_number_name before g.number f2 is_wf_before q2 in absurd (moved cc)
          ]

      same_number :
          (num : ℤ) (o p : Option FieldDescriptor)
          → get num (fields_by_number before) ≡ o
          → get num (fields_by_number after) ≡ p
          → SameField o p
      same_number num none none q r = tt
      same_number num none (some g) q r = absurd (no_added num g q r)
      same_number num (some f) none q r = absurd (no_removed num f q r)
      same_number num (some f) (some g) q r = same_at num (some f) (some g) q r refl

    pub same_silent : IsSame before after → diff_message enum_name label_name name before after ≡ []
    unfolding diff_message
    same_silent h =
        let b = fields_by_number before in
        let a = fields_by_number after in
        rw
          (
            collect-nil (field_added enum_name label_name name before after) (only_in a b) (λ num k.
                absurd (
                  (both_or_neither (get num b) (get num a) (h num)).1
                    (rw (← elem-only_in num a b) k))),
            collect-nil (field_removed enum_name label_name name before after) (only_in b a)
                (λ num k. absurd (
                  (both_or_neither (get num b) (get num a) (h num)).0
                    (rw (← elem-only_in num b a) k))),
            collect-nil (field_kept enum_name label_name name before after) (in_both b a) (λ num k.
                (kept_number num (get num b) (get num a) refl refl
                    (rw (← elem-in_both num b a) k)).1
                  (h num)),
          )
          refl

  -- For two messages that each have no repeated field name or number, `diff_message` reports
  -- nothing exactly when every field number is absent from both, or present in both with the
  -- same name, the same type and the same label.
  pub diff_message-silent :
      (name : String) (before after : Descriptor)
      → is_well_formed before ≡ true
      → is_well_formed after ≡ true
      → (diff_message enum_name label_name name before after ≡ []) ↔ IsSame before after
  diff_message-silent name before after h k = (
    λ silent num.
        same_number name before after h k silent num (get num (fields_by_number before))
          (get num (fields_by_number after)) refl refl,
    same_silent name before after,
  )
