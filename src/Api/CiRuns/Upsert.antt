-- ===== src/Api/CiRuns/Upsert.antt =====
-- What `upsert_ci_run` does to the rows of its key and to the others.
use mathlib.Core.List.{append-nil}
use living_api_contract_guar.Common.{
  ℕ, ◌≤◌, String, Bool, true, false, not, Option, none, some, List, [], ◌∷◌, ◌++◌, select, length,
  ◌≡◌, refl, arith, string_key, nat_key, is_some, beq_refl, select-append, if◌then◌else◌,
}
use living_api_contract_guar.Api.Tables.{Answer, success, first, conflict}
use living_api_contract_guar.Api.CiRuns.{
  CiRun, CiRunCreate, has_key, rewrite_run, update_run, new_run, upsert_found, upsert_ci_run,
}

-- The rows of the payload's key, and the others.
abbrev pub rows_of : CiRunCreate → List CiRun → List CiRun
rows_of payload = select (has_key payload)

abbrev pub others : CiRunCreate → List CiRun → List CiRun
others payload = select (λ r. not (has_key payload r))

has_key-rewrite_run :
    (payload : CiRunCreate) (row : CiRun)
    → has_key payload (rewrite_run payload row) ≡ has_key payload row
unfolding rewrite_run
has_key-rewrite_run payload row = refl

module _ (payload : CiRunCreate) where
  update_run-others :
      (rows : List CiRun) → others payload (update_run payload rows) ≡ others payload rows
  unfolding update_run
  update_run-others [] = refl
  update_run-others (row ∷ rows) =
      ground (arith, has_key-rewrite_run payload row, update_run-others rows)

  rewritten_by :
      (b : Bool) (r row : CiRun) (rows updated : List CiRun)
      → has_key payload r ≡ b
      → (if b then r ∷ rows_of payload rows else rows_of payload rows) ≡ row ∷ []
      → (rows_of payload rows ≡ row ∷ [] → rows_of payload updated ≡ rewrite_run payload row ∷ [])
      → rows_of payload (if b then rewrite_run payload r ∷ rows else r ∷ updated)
        ≡ rewrite_run payload row ∷ []
  rewritten_by true r row rows updated e h k =
      let same : r ≡ row = cc h in
      let empty : rows_of payload rows ≡ [] = cc h in
      rw (has_key-rewrite_run payload r, e, empty, same) refl
  rewritten_by false r row rows updated e h k = rw e (k h)

  -- The only row of the key is rewritten.
  update_run-rows :
      (rows : List CiRun) (row : CiRun)
      → rows_of payload rows ≡ row ∷ []
      → rows_of payload (update_run payload rows) ≡ rewrite_run payload row ∷ []
  unfolding update_run
  update_run-rows [] row h = absurd cc
  update_run-rows (r ∷ rows) row h =
      rewritten_by (has_key payload r) r row rows (update_run payload rows) refl h
        (update_run-rows rows row)

select-first :
    {A : Type 0} (p : A → Bool) (xs : List A) (a : A)
    → first p xs ≡ some a
    → (rest : List A) × (select p xs ≡ a ∷ rest)
select-first p [] a h = absurd cc
select-first p (x ∷ xs) a h = head_by (p x) h (select-first p xs a)
  where
    head_by :
        (b : Bool)
        → (if b then some x else first p xs) ≡ some a
        → (first p xs ≡ some a → (rest : List _) × (select p xs ≡ a ∷ rest))
        → (rest : List _) × ((if b then x ∷ select p xs else select p xs) ≡ a ∷ rest)
    head_by true r t = let same : x ≡ a = cc in (select p xs, rw same refl)
    head_by false r t = t r

select-first-none : {A : Type 0} (p : A → Bool) (xs : List A) → first p xs ≡ none → select p xs ≡ []
select-first-none p [] h = refl
select-first-none p (x ∷ xs) h = ground (arith, select-first-none p xs)

only_one :
    {A : Type 0} (a : A) (xs ys : List A) → length ((a ∷ xs) ++ ys) ≤ 1 → (xs ≡ []) × (ys ≡ [])
only_one a [] [] h = (refl, refl)
only_one a [] (y ∷ ys) h = absurd (omega arith)
only_one a (x ∷ xs) ys h = absurd (omega arith)

abbrev pub id_or : Option CiRun → String → String
id_or none new_id = new_id
id_or (some row) new_id = row.id

-- What an upsert makes of the rows, for the row that stood under the key.
abbrev pub Upserted : String → CiRunCreate → List CiRun → Option CiRun → List CiRun → CiRun → Type 0
Upserted new_id payload before found after row =
    (rows_of payload after ≡ row ∷ [])
    × (others payload after ≡ others payload before)
    × (row.id ≡ id_or found new_id)
    × (row.conclusion ≡ payload.conclusion)
    × (row.report_json ≡ payload.report_json)

abbrev chosen :
    Bool → List CiRun × Answer CiRun → List CiRun × Answer CiRun → List CiRun × Answer CiRun
chosen b p q = if b then p else q

module _ (new_id : String) (now : ℕ) (payload : CiRunCreate) (rows raced : List CiRun) where
  updated :
      (existing : CiRun)
      → length (rows_of payload (rows ++ raced)) ≤ 1
      → first (has_key payload) rows ≡ some existing
      → Upserted new_id payload
          (rows ++ raced)
          (some existing)
          (update_run payload rows ++ raced)
          (rewrite_run payload existing)
  unfolding rewrite_run
  updated existing h e =
      let found = select-first (has_key payload) rows existing e in
      let all_rows : rows_of payload (rows ++ raced)
          ≡ (existing ∷ found.0) ++ rows_of payload raced =
        rw (select-append (has_key payload) rows raced, found.1) refl in
      let few : length ((existing ∷ found.0) ++ rows_of payload raced) ≤ 1 = rw all_rows at h in
      let single = only_one existing found.0 (rows_of payload raced) few in
      let one : rows_of payload rows ≡ existing ∷ [] = rw (← single.0) found.1 in
      (
        rw
            (
              select-append (has_key payload) (update_run payload rows) raced,
              update_run-rows payload rows existing one,
              single.1,
            )
            refl,
        rw
            (
              select-append (λ r. not (has_key payload r)) (update_run payload rows) raced,
              select-append (λ r. not (has_key payload r)) rows raced,
              update_run-others payload rows,
            )
            refl,
        refl,
        refl,
        refl,
      )

  has_key-new_run : has_key payload (new_run new_id now payload) ≡ true
  unfolding new_run
  has_key-new_run =
      ground (arith, beq_refl payload.repo, beq_refl payload.pr_number, beq_refl payload.head_sha)

  inserted :
      first (has_key payload) rows ≡ none
      → first (has_key payload) raced ≡ none
      → Upserted new_id payload
          (rows ++ raced)
          none
          (rows ++ (raced ++ (new_run new_id now payload ∷ [])))
          (new_run new_id now payload)
  unfolding new_run
  inserted e q =
      let row = new_run new_id now payload in
      (
        rw
            (
              select-append (has_key payload) rows (raced ++ (row ∷ [])),
              select-append (has_key payload) raced (row ∷ []),
              select-first-none (has_key payload) rows e,
              select-first-none (has_key payload) raced q,
              has_key-new_run,
            )
            refl,
        rw
            (
              select-append (λ r. not (has_key payload r)) rows (raced ++ (row ∷ [])),
              select-append (λ r. not (has_key payload r)) raced (row ∷ []),
              select-append (λ r. not (has_key payload r)) rows raced,
              has_key-new_run,
              append-nil (others payload raced),
            )
            refl,
        refl,
        refl,
        refl,
      )

  module _ (rows2 : List CiRun) (row : CiRun) where
    insert_by :
        (o : Option CiRun)
        → first (has_key payload) raced ≡ o
        → first (has_key payload) rows ≡ none
        → chosen
            (is_some o)
            (rows ++ raced, conflict)
            (
              rows ++ (raced ++ (new_run new_id now payload ∷ [])),
              success (new_run new_id now payload),
            )
          ≡ (rows2, success row)
        → Upserted new_id payload (rows ++ raced) none rows2 row
    insert_by (some r) q e t = absurd cc
    insert_by none q e t =
        let state : rows ++ (raced ++ (new_run new_id now payload ∷ [])) ≡ rows2 = cc t in
        let answer : new_run new_id now payload ≡ row = cc t in
        rw (← state, ← answer) (inserted e q)

    upserted :
        (o : Option CiRun)
        → first (has_key payload) rows ≡ o
        → length (rows_of payload (rows ++ raced)) ≤ 1
        → upsert_found new_id now payload o rows raced ≡ (rows2, success row)
        → Upserted new_id payload (rows ++ raced) o rows2 row
    unfolding upsert_found
    upserted none e h t = insert_by (first (has_key payload) raced) refl e t
    upserted (some existing) e h t =
        let state : update_run payload rows ++ raced ≡ rows2 = cc t in
        let answer : rewrite_run payload existing ≡ row = cc t in
        rw (← state, ← answer) (updated existing h e)

-- When at most one row has the payload's key, as the unique key of the table ensures, and
-- `upsert_ci_run` succeeds, then its row is the only one with the key. The row has the payload's
-- conclusion and report, and keeps the id of the row that stood under the key, if one did. The
-- rows of other keys stand as they were.
pub upsert_ci_run-rows :
    (new_id : String) (now : ℕ) (payload : CiRunCreate) (rows raced rows2 : List CiRun)
    → (row : CiRun) → length (rows_of payload (rows ++ raced)) ≤ 1
    → upsert_ci_run new_id now payload rows raced ≡ (rows2, success row)
    → Upserted new_id payload (rows ++ raced) (first (has_key payload) rows) rows2 row
unfolding upsert_ci_run
upsert_ci_run-rows new_id now payload rows raced rows2 row h t =
    upserted new_id now payload rows raced rows2 row (first (has_key payload) rows) refl h t
