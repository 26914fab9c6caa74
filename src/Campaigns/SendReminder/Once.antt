-- ===== src/Campaigns/SendReminder/Once.antt =====
-- `send_reminder_pr` of jobs.py, run a second time.
use text.Mathlib.TextEquality.{eq_iff}
use living_api_contract_guar.Common.{
  ℕ, String, Bool, true, false, Option, none, some, List, [], ◌∷◌, ◌++◌, ◌≡◌, refl, sym, arith, any,
  ◌⊎◌, string_key, inl, inr, Option-cases, Bool-cases, if◌then◌else◌,
}
use living_api_contract_guar.Campaigns.Jobs.{
  PrState, pending, opened, merged, closed, ReminderPr, is_for, new_reminder,
}
use living_api_contract_guar.Campaigns.GithubPr.{Github, PullResult, open_reminder_pr}
use living_api_contract_guar.Campaigns.SendReminder.{
  already, sent, find_row, mark_opened, save_opened, after_open, send_pending, send_row, send_found,
  send_reminder_pr,
}

taken_or_found :
    (taken : Bool) (o : Option ReminderPr)
    → ((if taken then none else o) ≡ none) ⊎ ((if taken then none else o) ≡ o)
taken_or_found true o = inl refl
taken_or_found false o = inr refl

module _ (campaign_id client_repo : String) where
  find-save_opened :
      (number : ℕ) (rows : List ReminderPr) (r : ReminderPr)
      → find_row campaign_id client_repo rows ≡ some r
      → find_row campaign_id client_repo (save_opened campaign_id client_repo number rows)
        ≡ some (mark_opened number r)
  find-save_opened number [] r h = absurd cc
  find-save_opened number (q ∷ rows) r h = ground (arith, find-save_opened number rows r)

  find-new :
      (rows : List ReminderPr)
      → any (is_for campaign_id client_repo) rows ≡ false
      → find_row campaign_id client_repo (rows ++ (new_reminder campaign_id client_repo ∷ []))
        ≡ some (new_reminder campaign_id client_repo)
  find-new [] h = ground (arith, eq_iff campaign_id campaign_id, eq_iff client_repo client_repo)
  find-new (q ∷ rows) h = ground (arith, find-new rows)

  module _ (github : Github) (token : Bool) (patch : String) where
    -- After a pull request was opened or found, the row is there, is open, and has its number.
    pending-sent :
        (hub hub2 : github.Hub) (rows rows2 : List ReminderPr) (r : ReminderPr) (p : PullResult)
        → find_row campaign_id client_repo rows ≡ some r
        → send_pending github token campaign_id client_repo patch hub rows
          ≡ some (hub2, rows2, sent p)
        → find_row campaign_id client_repo rows2 ≡ some (mark_opened p.pr_number r)
    unfolding send_pending after_open
    pending-sent hub hub2 rows rows2 r p h e =
        elim (Option-cases (open_reminder_pr github campaign_id client_repo patch hub)) [
          | inl n ↦ absurd (ground (arith, n, e))
          | inr ((hub3, result), q) ↦ ground (arith, q, e, find-save_opened p.pr_number rows r h)
        ]

    row-sent :
        (hub hub2 : github.Hub) (rows rows2 : List ReminderPr) (r : ReminderPr) (p : PullResult)
        (s : PrState) (n : Option ℕ)
        → find_row campaign_id client_repo rows ≡ some r
        → send_row github token campaign_id client_repo patch hub rows s n
          ≡ some (hub2, rows2, sent p)
        → find_row campaign_id client_repo rows2 ≡ some (mark_opened p.pr_number r)
    unfolding send_row
    row-sent hub hub2 rows rows2 r p pending n h e = pending-sent hub hub2 rows rows2 r p h e
    row-sent hub hub2 rows rows2 r p opened n h e = absurd cc
    row-sent hub hub2 rows rows2 r p merged n h e = absurd cc
    row-sent hub hub2 rows rows2 r p closed n h e = absurd cc

    found-sent :
        (hub hub2 : github.Hub) (rows rows2 : List ReminderPr) (o : Option ReminderPr)
        (p : PullResult)
        → (o ≡ none) ⊎ (o ≡ find_row campaign_id client_repo rows)
        → send_found github token campaign_id client_repo patch hub rows o
          ≡ some (hub2, rows2, sent p)
        → (r : ReminderPr) × (find_row campaign_id client_repo rows2
            ≡ some (mark_opened p.pr_number r))
    unfolding send_found
    found-sent hub hub2 rows rows2 (some r) p (inl k) e = absurd cc
    found-sent hub hub2 rows rows2 (some r) p (inr k) e =
        (r, row-sent hub hub2 rows rows2 r p r.pr_state r.pr_number (sym k) e)
    found-sent hub hub2 rows rows2 none p k e =
        elim (Bool-cases (any (is_for campaign_id client_repo) rows)) [
          | inl q ↦ absurd (ground (arith, q, e))
          | inr q ↦
              let new = new_reminder campaign_id client_repo in
              let ran : send_row github token campaign_id client_repo patch hub (rows ++ (new ∷ []))
                    pending none
                  ≡ some (hub2, rows2, sent p) =
                ground (arith, q, e) in
              (
                new,
                row-sent hub hub2 (rows ++ (new ∷ [])) rows2 new p pending none (find-new rows q)
                    ran,
              )
        ]

    -- Once `send_reminder_pr` has opened or found a pull request for a campaign and repo, the job
    -- run again on the rows it left, with any patch and token, opens nothing: it leaves GitHub and
    -- the rows as they are and answers with the number of that pull request.
    pub send_reminder_pr_once :
        (taken token2 : Bool) (patch2 : String) (hub hub2 hub3 : github.Hub)
        (rows rows2 : List ReminderPr) (p : PullResult)
        → send_reminder_pr github token campaign_id client_repo patch taken hub rows
          ≡ some (hub2, rows2, sent p)
        → send_reminder_pr github token2 campaign_id client_repo patch2 false hub3 rows2
          ≡ some (hub3, rows2, already (some p.pr_number))
    unfolding send_reminder_pr send_found send_row
    send_reminder_pr_once taken token2 patch2 hub hub2 hub3 rows rows2 p e =
        let (r, found) =
          found-sent hub hub2 rows rows2
            (if taken then none else find_row campaign_id client_repo rows) p
            (taken_or_found taken (find_row campaign_id client_repo rows)) e in
        rw found refl
