-- ===== src/Traffic/FieldUsages/Again.antt =====
-- The rows of `field_usages` when a batch is ingested again.
use living_api_contract_guar.Common.{
  String, Bool, true, false, Option, none, some, List, [], ◌∷◌, map, all, any, ◌&&◌, ◌||◌, ◌==◌,
  ◌≡◌, refl, sym, ◌∙◌, ap, arith, string_key, is_some, beq_refl, and_left, and_right, and_both,
  if◌then◌else◌,
}
use living_api_contract_guar.Traffic.Tables.{Datetime, FieldUsage}
use living_api_contract_guar.Traffic.FieldUsages.{
  conflicts, sql_equal, upsert_field_usage, bulk_upsert_field_usages,
}

abbrev epoch : Datetime
epoch = record { instant = 0; is_aware = true }

-- A row without its time.
unfoldable pub untimed : FieldUsage → FieldUsage
untimed u = record u { last_seen_at = epoch }

-- Some row stands in the way of the insertion.
abbrev pub is_there : List FieldUsage → FieldUsage → Bool
is_there rows new = any (conflicts new) rows

abbrev refreshed : FieldUsage → FieldUsage → FieldUsage
refreshed new old = record old { last_seen_at = new.last_seen_at }

sql_self : (o : Option String) → is_some o ≡ true → sql_equal o o ≡ true
sql_self none h = absurd cc
sql_self (some c) h = beq_refl c

module _ (new : FieldUsage) where
  conflicts-refreshed :
      (other old : FieldUsage) → conflicts other (refreshed new old) ≡ conflicts other old
  unfolding conflicts
  conflicts-refreshed other old = refl

  upserted_by :
      (b : Bool) (other old : FieldUsage) (rows rest : List FieldUsage)
      → is_there (old ∷ rows) other ≡ true
      → (is_there rows other ≡ true → is_there rest other ≡ true)
      → is_there (if b then refreshed new old ∷ rows else old ∷ rest) other ≡ true
  upserted_by true other old rows rest h q = rw (conflicts-refreshed other old) h
  upserted_by false other old rows rest h q = ground arith

  -- An insertion leaves the rows that stand in the way of another.
  upsert-is_there :
      (other : FieldUsage) (rows : List FieldUsage)
      → is_there rows other ≡ true
      → is_there (upsert_field_usage new rows) other ≡ true
  unfolding upsert_field_usage
  upsert-is_there other [] h = absurd cc
  upsert-is_there other (old ∷ rows) h =
      upserted_by (conflicts new old) other old rows (upsert_field_usage new rows) h
        (upsert-is_there other rows)

  untimed_by :
      (b : Bool) (old : FieldUsage) (rows rest : List FieldUsage)
      → (b || is_there rows new) ≡ true
      → (is_there rows new ≡ true → map untimed rest ≡ map untimed rows)
      → map untimed (if b then refreshed new old ∷ rows else old ∷ rest)
        ≡ untimed old ∷ map untimed rows
  unfolding untimed
  untimed_by true old rows rest h q = refl
  untimed_by false old rows rest h q = ap (◌∷◌ (untimed old)) (q h)

  -- With a row in its way an insertion only changes a time.
  upsert-untimed :
      (rows : List FieldUsage)
      → is_there rows new ≡ true
      → map untimed (upsert_field_usage new rows) ≡ map untimed rows
  unfolding upsert_field_usage
  upsert-untimed [] h = absurd cc
  upsert-untimed (old ∷ rows) h =
      untimed_by (conflicts new old) old rows (upsert_field_usage new rows) h (upsert-untimed rows)

  conflicts_self : is_some new.client_id ≡ true → conflicts new new ≡ true
  unfolding conflicts
  conflicts_self h = ground (
    arith,
    sql_self new.client_id h,
    beq_refl new.endpoint_id,
    beq_refl new.field_path,
    beq_refl new.field_role,
    beq_refl new.ingest_batch_hash,
  )

  -- After its insertion a row with a client stands in its own way.
  upsert-there :
      (rows : List FieldUsage)
      → is_some new.client_id ≡ true
      → is_there (upsert_field_usage new rows) new ≡ true
  unfolding upsert_field_usage
  upsert-there [] h = rw (conflicts_self h) refl
  upsert-there (old ∷ rows) h = there_by (conflicts new old) refl (upsert-there rows h)
    where
      there_by :
          (b : Bool)
          → conflicts new old ≡ b
          → is_there (upsert_field_usage new rows) new ≡ true
          → is_there (if b then refreshed new old ∷ rows else old ∷ upsert_field_usage new rows) new
            ≡ true
      there_by true e q = rw (conflicts-refreshed new old, e) refl
      there_by false e q = rw e q

-- The rows that a batch inserts, and the same rows at other times.
abbrev pub have_clients : List FieldUsage → Bool
have_clients = all (λ u. is_some u.client_id)

bulk-is_there :
    (news : List FieldUsage) (other : FieldUsage) (rows : List FieldUsage)
    → is_there rows other ≡ true
    → is_there (bulk_upsert_field_usages news rows) other ≡ true
unfolding bulk_upsert_field_usages
bulk-is_there [] other rows h = h
bulk-is_there (new ∷ news) other rows h =
    bulk-is_there news other (upsert_field_usage new rows) (upsert-is_there new other rows h)

bulk-there :
    (news : List FieldUsage) (rows : List FieldUsage)
    → have_clients news ≡ true
    → all (is_there (bulk_upsert_field_usages news rows)) news ≡ true
unfolding bulk_upsert_field_usages
bulk-there [] rows h = refl
bulk-there (new ∷ news) rows h =
    and_both _ _
      (bulk-is_there news new (upsert_field_usage new rows)
        (upsert-there new rows (and_left _ (have_clients news) h)))
      (bulk-there news (upsert_field_usage new rows) (and_right (is_some new.client_id) _ h))

still_there :
    (new : FieldUsage) (news rows : List FieldUsage)
    → all (is_there rows) news ≡ true
    → all (is_there (upsert_field_usage new rows)) news ≡ true
still_there new [] rows h = refl
still_there new (u ∷ news) rows h =
    and_both _ _ (upsert-is_there new u rows (and_left _ (all (is_there rows) news) h))
      (still_there new news rows (and_right (is_there rows u) _ h))

bulk-untimed :
    (news rows : List FieldUsage)
    → all (is_there rows) news ≡ true
    → map untimed (bulk_upsert_field_usages news rows) ≡ map untimed rows
unfolding bulk_upsert_field_usages
bulk-untimed [] rows h = refl
bulk-untimed (new ∷ news) rows h =
    let later = all (is_there rows) news in
    bulk-untimed news (upsert_field_usage new rows)
      (still_there new news rows (and_right (is_there rows new) later h))
    ∙ upsert-untimed new rows (and_left (is_there rows new) later h)

-- The columns of the unique key.
abbrev pub usage_key : FieldUsage → String × String × String × Option String × String
usage_key u = (u.endpoint_id, u.field_path, u.field_role, u.client_id, u.ingest_batch_hash)

abbrev key_conflicts : String × String × String × Option String × String → FieldUsage → Bool
key_conflicts (endpoint_id, field_path, field_role, client_id, batch_hash) old =
    (old.endpoint_id == endpoint_id)
    && (old.field_path == field_path)
    && (old.field_role == field_role)
    && sql_equal old.client_id client_id
    && (old.ingest_batch_hash == batch_hash)

is_there-key :
    (rows : List FieldUsage) (u : FieldUsage)
    → is_there rows u ≡ any (key_conflicts (usage_key u)) rows
unfolding conflicts
is_there-key [] u = refl
is_there-key (old ∷ rows) u = rw (is_there-key rows u) refl

same_there :
    (rows news again : List FieldUsage)
    → map usage_key again ≡ map usage_key news
    → all (is_there rows) news ≡ true
    → all (is_there rows) again ≡ true
same_there rows [] [] e h = refl
same_there rows [] (a ∷ again) e h = absurd cc
same_there rows (u ∷ news) [] e h = absurd cc
same_there rows (u ∷ news) (a ∷ again) e h =
    let key : usage_key a ≡ usage_key u = cc e in
    let keys : map usage_key again ≡ map usage_key news = cc e in
    let later = all (is_there rows) news in
    let there : is_there rows a ≡ is_there rows u =
      is_there-key rows a ∙ rw key (sym (is_there-key rows u)) in
    and_both _ _ (there ∙ and_left (is_there rows u) later h)
      (same_there rows news again keys (and_right (is_there rows u) later h))

-- When the rows of a batch name a client, inserting rows with the same unique keys again, whatever
-- their counts and times, leaves the table as it is but for `last_seen_at`: no row is added and no
-- count changes.
pub bulk_upsert_again :
    (news again rows : List FieldUsage)
    → have_clients news ≡ true
    → map usage_key again ≡ map usage_key news
    → map untimed (bulk_upsert_field_usages again (bulk_upsert_field_usages news rows))
      ≡ map untimed (bulk_upsert_field_usages news rows)
bulk_upsert_again news again rows h e =
    let after = bulk_upsert_field_usages news rows in
    bulk-untimed again after (same_there after news again e (bulk-there news rows h))
