-- ===== src/Mining/CallSites/Rerun.antt =====
-- `persist_call_sites` again on the rows that it left, and the uniqueness of its key.
use living_api_contract_guar.Common.{
  ℕ, ◌+◌, String, Bool, true, false, List, [], ◌∷◌, ◌++◌, ◌≡◌, refl, ap, arith, map, select, ◌&&◌,
  ◌||◌, ◌==◌, string_key, if◌then◌else◌, all, length, beq_refl, select-append, and_left, and_right,
  and_both,
}
use living_api_contract_guar.Common.Sets.{elem, elem-append, distinct}
use mathlib.Core.List.{append-nil, map-append}
use text.Mathlib.TextEquality.{eq_iff}
use living_api_contract_guar.Mining.CallSites.{
  InferredCallSite, InferredRow, content_hash, row_of, existing_hashes, persist_from, count,
  persist_call_sites,
}

abbrev hashes : List InferredRow → List String
hashes = map (λ r. r.content_hash)

abbrev chosen : Bool → List InferredRow × ℕ → List InferredRow × ℕ → List InferredRow
chosen b p q = (if b then p else q).0

module _ (sha256 : String → String) (repo commit_sha : String) where
  abbrev added : List String → List String → List InferredCallSite → List InferredRow
  added existing seen sites = (persist_from sha256 repo commit_sha existing seen sites).0

  persist_from-count :
      (existing seen : List String) (sites : List InferredCallSite)
      → count sha256 (added existing seen sites)
          + (persist_from sha256 repo commit_sha existing seen sites).1
        ≡ length sites
  unfolding persist_from
  persist_from-count existing seen [] = refl
  persist_from-count existing seen (site ∷ sites) = ground (
    arith,
    persist_from-count existing seen sites,
    persist_from-count existing (content_hash sha256 site ∷ seen) sites,
  )

  -- A list that holds whatever is known holds the hash of every site.
  module _ (target : List String) where
    abbrev known : List InferredCallSite → Bool
    known = all (λ site. elem (content_hash sha256 site) target)

    Covers : List String → Type 0
    Covers ks = (k : String) → elem k ks ≡ true → elem k target ≡ true

    -- One round of the loop, by whether it skips.
    known_by :
        (b : Bool) (d : String) (row : InferredRow) (skip insert : List InferredRow) (n m : ℕ)
        → (rest : Bool) → Covers (hashes (chosen b (skip, n) (row ∷ insert, m)))
        → row.content_hash ≡ d
        → (b ≡ true → elem d target ≡ true)
        → (Covers (hashes skip) → rest ≡ true)
        → (elem d target ≡ true → Covers (hashes insert) → rest ≡ true)
        → (elem d target && rest) ≡ true
    unfolding Covers elem
    known_by true d row skip insert n m rest r same h q t =
        and_both (elem d target) rest (h refl) (q r)
    known_by false d row skip insert n m rest r same h q t =
        let there : elem d target ≡ true = r d (rw same (ground (arith, beq_refl d))) in
        and_both (elem d target) rest there (t there (λ k l. r k (ground arith)))

    covered :
        (existing seen : List String) (d : String)
        → Covers existing
        → Covers seen
        → (elem d existing || elem d seen) ≡ true
        → elem d target ≡ true
    unfolding Covers
    covered existing seen d h q r = ground (arith, h d, q d)

    cons-Covers :
        (seen : List String) (d : String) → Covers seen → elem d target ≡ true → Covers (d ∷ seen)
    unfolding Covers elem
    cons-Covers seen d h q k r = ground (arith, h k, eq_iff d k)

    persist_from-known :
        (existing seen : List String) (sites : List InferredCallSite)
        → Covers existing
        → Covers seen
        → Covers (hashes (added existing seen sites))
        → known sites ≡ true
    unfolding persist_from Covers elem row_of
    persist_from-known existing seen [] h q r = refl
    persist_from-known existing seen (site ∷ sites) h q r =
        let d = content_hash sha256 site in
        known_by (elem d existing || elem d seen) d (row_of sha256 repo commit_sha site)
          (added existing seen sites) (added existing (d ∷ seen) sites) _ _ (known sites) r refl
          (covered existing seen d h q) (λ k. persist_from-known existing seen sites h q k)
          (λ there k. persist_from-known existing (d ∷ seen) sites h (cons-Covers seen d q there) k)

    persist_from-idle :
        (seen : List String) (sites : List InferredCallSite)
        → known sites ≡ true
        → persist_from sha256 repo commit_sha target seen sites ≡ ([], length sites)
    unfolding persist_from
    persist_from-idle seen [] h = refl
    persist_from-idle seen (site ∷ sites) h =
        let d = content_hash sha256 site in
        rw
          (
            and_left (elem d target) (known sites) h,
            persist_from-idle seen sites (and_right (elem d target) (known sites) h),
          )
          (ap (λ n. ([], n)) (omega arith))

  persist_from-key :
      (existing seen : List String) (sites : List InferredCallSite)
      → select (λ r. (r.repo == repo) && (r.commit_sha == commit_sha)) (added existing seen sites)
        ≡ added existing seen sites
  unfolding persist_from row_of
  persist_from-key existing seen [] = refl
  persist_from-key existing seen (site ∷ sites) = ground (
    arith,
    persist_from-key existing seen sites,
    persist_from-key existing (content_hash sha256 site ∷ seen) sites,
    beq_refl repo,
    beq_refl commit_sha,
  )

  -- What the loop adds was not there, and is added once.
  Fresh : List String → List String → List InferredRow → Type 0
  Fresh existing seen rows =
      (distinct (hashes rows) ≡ true)
      × ((k : String) → elem k (hashes rows) ≡ true → (elem k existing || elem k seen) ≡ false)

  round-Fresh :
      (b : Bool) (existing seen : List String) (d : String) (row : InferredRow)
      → (skip insert : List InferredRow) (n m : ℕ) → row.content_hash ≡ d
      → (elem d existing || elem d seen) ≡ b
      → Fresh existing seen skip
      → Fresh existing (d ∷ seen) insert
      → Fresh existing seen (chosen b (skip, n) (row ∷ insert, m))
  unfolding Fresh distinct elem
  round-Fresh true existing seen d row skip insert n m same h q r = q
  round-Fresh false existing seen d row skip insert n m same h q r = (
    ground (arith, same, beq_refl d, r.1 d, r.0),
    λ k l. ground (arith, same, h, eq_iff d k, r.1 k),
  )

  persist_from-Fresh :
      (existing seen : List String) (sites : List InferredCallSite)
      → Fresh existing seen (added existing seen sites)
  unfolding persist_from Fresh row_of distinct elem
  persist_from-Fresh existing seen [] = (refl, λ k h. absurd cc)
  persist_from-Fresh existing seen (site ∷ sites) =
      let d = content_hash sha256 site in
      round-Fresh (elem d existing || elem d seen) existing seen d
        (row_of sha256 repo commit_sha site) (added existing seen sites)
        (added existing (d ∷ seen) sites) _ _ refl refl (persist_from-Fresh existing seen sites)
        (persist_from-Fresh existing (d ∷ seen) sites)

  existing-after :
      (rows : List InferredRow) (sites : List InferredCallSite)
      → existing_hashes sha256 repo commit_sha
          (persist_call_sites sha256 repo commit_sha sites rows).0
        ≡ existing_hashes sha256 repo commit_sha rows
          ++ hashes (added (existing_hashes sha256 repo commit_sha rows) [] sites)
  unfolding persist_call_sites existing_hashes
  existing-after rows sites =
      let existing = existing_hashes sha256 repo commit_sha rows in
      rw
        (
          select-append (λ r. (r.repo == repo) && (r.commit_sha == commit_sha)) rows
              (added existing [] sites),
          persist_from-key existing [] sites,
        )
        (map-append (λ r. r.content_hash) _ (added existing [] sites))

  distinct-append :
      (xs ys : List String)
      → distinct xs ≡ true
      → distinct ys ≡ true
      → ((k : String) → elem k ys ≡ true → elem k xs ≡ false)
      → distinct (xs ++ ys) ≡ true
  unfolding distinct elem
  distinct-append [] ys h q r = q
  distinct-append (x ∷ xs) ys h q r =
      let rest = distinct-append xs ys (ground arith) q (λ k l. ground (arith, r k l)) in
      ground (arith, elem-append x xs ys, r x, rest, eq_iff x x, h)

-- `persist_call_sites` counts every site as inserted or skipped. It keeps the hashes of a repository
-- and commit distinct. Called again for the same sites on the rows that it left, it inserts
-- nothing, skips every site, and leaves the rows as they are.
pub persist_call_sites-rerun :
    (sha256 : String → String) (repo commit_sha : String) (sites : List InferredCallSite)
    → (rows : List InferredRow) → distinct (existing_hashes sha256 repo commit_sha rows) ≡ true
    → (let first = persist_call_sites sha256 repo commit_sha sites rows in
        let again = persist_call_sites sha256 repo commit_sha sites first.0 in
        (first.1.inserted + first.1.skipped ≡ length sites)
        × (distinct (existing_hashes sha256 repo commit_sha first.0) ≡ true)
        × (again.0 ≡ first.0)
        × (again.1.inserted ≡ 0)
        × (again.1.skipped ≡ length sites))
unfolding persist_call_sites Covers Fresh elem
persist_call_sites-rerun sha256 repo commit_sha sites rows h =
    let existing = existing_hashes sha256 repo commit_sha rows in
    let added_rows = added sha256 repo commit_sha existing [] sites in
    let target = existing ++ hashes added_rows in
    let after = existing-after sha256 repo commit_sha rows sites in
    let seen =
      persist_from-known sha256 repo commit_sha target existing [] sites
        (λ k q. ground (arith, elem-append k existing (hashes added_rows))) (λ k q. absurd cc)
        (λ k q. ground (arith, elem-append k existing (hashes added_rows))) in
    let idle = persist_from-idle sha256 repo commit_sha target [] sites seen in
    let fresh = persist_from-Fresh sha256 repo commit_sha existing [] sites in
    (
      persist_from-count sha256 repo commit_sha existing [] sites,
      rw after (
          distinct-append sha256 repo commit_sha existing (hashes added_rows) h fresh.0
            (λ k q. ground (arith, fresh.1 k q))),
      rw (after, idle) (append-nil _),
      rw (after, idle) refl,
      rw (after, idle) refl,
    )
