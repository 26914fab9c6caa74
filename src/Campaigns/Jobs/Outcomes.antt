-- ===== src/Campaigns/Jobs/Outcomes.antt =====
-- What a run of `evaluate_campaign` does to the reminders and the queue, and when its commit fails.
use living_api_contract_guar.Common.{
  ℕ, String, Bool, true, false, Option, none, some, [], ◌∷◌, ◌++◌, ◌≡◌, refl, sym, ap, any, ◌&&◌,
  ◌⊎◌, ◌≢◌, if◌then◌else◌, string_key, inl, inr,
}
use living_api_contract_guar.Common.Text.{◌<>◌}
use living_api_contract_guar.Campaigns.StateMachine.{
  State, draft, active, decaying, ready_to_remove, completed, aborted, Machine, Floats,
}
use living_api_contract_guar.Campaigns.Decay.{record_metric}
use living_api_contract_guar.Campaigns.Jobs.{
  pending, Evaluated, skipped, is_live, is_for, if_text, new_reminder, Campaign, Database,
  JobResult, done, find_campaign, save_campaign, enqueue, add_reminder, maybe_schedule_reminder,
  remind, sample, after_evaluate, with_result, evaluated_fsm, evaluate_row, evaluate_found,
  evaluate_campaign,
}
use living_api_contract_guar.Campaigns.Jobs.Evaluation.{after_evaluate-columns}

module _ (floats : Floats) (queue_up : Bool) (db : Database floats) where
  -- Nothing asks for a new reminder: the campaign does not decay, it has no repo, or a reminder for
  -- it and its repo is pending or open.
  abbrev pub Settled : String → Option String → State → Type 0
  Settled id repo s =
      (s ≢ decaying)
      ⊎ ((repo ≡ none)
          ⊎ ((name : String) × (repo ≡ some name)
              × (any (λ r. is_for id name r && is_live r.pr_state) db.reminders ≡ true)))

  -- A pending reminder stands after the others, where there was none, and its job is queued when
  -- Redis takes it.
  abbrev pub Reminds : String → Option String → State → Database floats → Type 0
  Reminds id repo s db2 =
      (s ≡ decaying)
      × ((name : String) × (repo ≡ some name)
          × (any (is_for id name) db.reminders ≡ false)
          × (db2.reminders
              ≡ db.reminders
                ++ (record {
                  campaign_id = id;
                  client_repo = name;
                  branch_name = "guardian/deprecate-" <> id;
                  pr_number = none;
                  pr_state = pending;
                }
                    ∷ []))
          × (db2.jobs ≡ (if queue_up then db.jobs ++ ((id, name) ∷ []) else db.jobs)))

  abbrev pub SameReminders : Database floats → Type 0
  SameReminders db2 = (db2.reminders ≡ db.reminders) × (db2.jobs ≡ db.jobs)

  -- The only rows of the campaign and its repo are merged or closed.
  abbrev pub Refused : String → Option String → Type 0
  Refused id repo =
      (name : String) × (repo ≡ some name)
      × (any (is_for id name) db.reminders ≡ true)
      × (any (λ r. is_for id name r && is_live r.pr_state) db.reminders ≡ false)

  Sought : String → Option String → State → Option (Database floats) → Type 0
  Sought id repo s none = Refused id repo
  Sought id repo s (some db2) = (Settled id repo s × SameReminders db2) ⊎ Reminds id repo s db2

  module _ (db1 : Database floats) (same : db1.reminders ≡ db.reminders)
      (queue : db1.jobs ≡ db.jobs) where
    schedule-Sought :
        (id : String) (repo : Option String)
        → Sought id repo decaying (maybe_schedule_reminder floats queue_up id repo db1)
    unfolding Sought maybe_schedule_reminder add_reminder enqueue
    schedule-Sought id none = inl (inr (inl refl), (same, queue))
    schedule-Sought id (some name) =
        sought_by (any (λ r. is_for id name r && is_live r.pr_state) db1.reminders)
          (any (is_for id name) db1.reminders)
          (ap (any (λ r. is_for id name r && is_live r.pr_state)) (sym same))
          (ap (any (is_for id name)) (sym same))
      where
        sought_by :
            (live there : Bool)
            → any (λ r. is_for id name r && is_live r.pr_state) db.reminders ≡ live
            → any (is_for id name) db.reminders ≡ there
            → Sought id (some name) decaying (
                if live
                then some db1
                else if there
                then none
                else some (record db1 {
                  reminders = db1.reminders ++ (new_reminder id name ∷ []);
                  jobs = if queue_up then db1.jobs ++ ((id, name) ∷ []) else db1.jobs;
                }))
        sought_by true there l t = inl (inr (inr (name, refl, l)), (same, queue))
        sought_by false true l t = (name, refl, t, l)
        sought_by false false l t = inr (
          refl,
          (
            name,
            refl,
            t,
            ap (λ rs. rs ++ (new_reminder id name ∷ [])) same,
            ap (λ jobs. if queue_up then jobs ++ ((id, name) ∷ []) else jobs) queue,
          ),
        )

    remind-Sought :
        (c : Campaign floats)
        → Sought c.id (if_text c.github_repo) c.state (remind floats queue_up c db1)
    unfolding remind Sought
    remind-Sought c =
        elim c.state
          as (λ s. Sought c.id (if_text c.github_repo) s (elim s [
            | decaying ↦ maybe_schedule_reminder floats queue_up c.id (if_text c.github_repo) db1
            | _ ↦ some db1
          ])) [
            | decaying ↦ schedule-Sought c.id (if_text c.github_repo)
            | draft ↦ inl (inl (λ h. absurd cc), (same, queue))
            | active ↦ inl (inl (λ h. absurd cc), (same, queue))
            | ready_to_remove ↦ inl (inl (λ h. absurd cc), (same, queue))
            | completed ↦ inl (inl (λ h. absurd cc), (same, queue))
            | aborted ↦ inl (inl (λ h. absurd cc), (same, queue))
          ]

  same-Sought :
      (i j : String) (p q : Option String) (s : State) (o : Option (Database floats))
      → i ≡ j
      → p ≡ q
      → Sought i (if_text p) s o
      → Sought j (if_text q) s o
  same-Sought i j p q s o h k sought = rw (h, k) at sought

  -- The outcomes of a run for the campaign under an id.
  abbrev pub Reminded : String → Option (Database floats × JobResult floats) → Type 0
  Reminded id none =
      (c : Campaign floats) × (find_campaign floats id db.campaigns ≡ some c)
      × Refused c.id (if_text c.github_repo)
  Reminded id (some (db2, skipped reason)) = db2 ≡ db
  Reminded id (some (db2, done e)) =
      (c : Campaign floats) × (find_campaign floats id db.campaigns ≡ some c)
      × ((Settled c.id (if_text c.github_repo) e.new_state × SameReminders db2)
          ⊎ Reminds c.id (if_text c.github_repo) e.new_state db2)

  result-Reminded :
      (id : String) (c : Campaign floats) (e : Evaluated floats) (o : Option (Database floats))
      → find_campaign floats id db.campaigns ≡ some c
      → Sought c.id (if_text c.github_repo) e.new_state o
      → Reminded id (with_result floats (done e) o)
  unfolding Sought
  result-Reminded id c e none f h = (c, f, h)
  result-Reminded id c e (some db2) f h = (c, f, h)

  module _ (machine : Machine) (clock later : floats.Float) (now : ℕ) where
    row-Reminded :
        (id : String) (c : Campaign floats)
        → find_campaign floats id db.campaigns ≡ some c
        → Reminded id (evaluate_row floats machine clock later now queue_up c db)
    unfolding evaluate_row
    row-Reminded id c f =
        let usage = sample floats now db.usages (if_text c.endpoint_id) c.decay_window_days in
        let m = record_metric floats now db.metrics c.id usage.0 usage.1 c.decay_window_days in
        let p = evaluated_fsm floats machine clock later now queue_up c usage.0 in
        let c2 = after_evaluate floats now c p in
        let columns = after_evaluate-columns floats now c p in
        let db1 : Database floats = record db {
          campaigns = save_campaign floats c2 db.campaigns;
          metrics = db.metrics ++ (m ∷ []);
        } in
        let sought = remind-Sought db1 refl refl c2 in
        result-Reminded id c _ (remind floats queue_up c2 db1) f (
          same-Sought c2.id c.id c2.github_repo c.github_repo c2.state
            (remind floats queue_up c2 db1) columns.0 columns.1 sought)

    found-Reminded :
        (id : String) (o : Option (Campaign floats))
        → find_campaign floats id db.campaigns ≡ o
        → Reminded id (evaluate_found floats machine clock later now queue_up o db)
    unfolding evaluate_found
    found-Reminded id none f = refl
    found-Reminded id (some c) f =
        elim c.state
          as (λ s. Reminded id (elim s [
            | completed ↦ some (db, skipped "terminal_state")
            | aborted ↦ some (db, skipped "terminal_state")
            | _ ↦ evaluate_row floats machine clock later now queue_up c db
          ])) [
            | completed ↦ refl
            | aborted ↦ refl
            | draft ↦ row-Reminded id c f
            | active ↦ row-Reminded id c f
            | decaying ↦ row-Reminded id c f
            | ready_to_remove ↦ row-Reminded id c f
          ]

    -- A run of `evaluate_campaign` ends in one of three ways. It skips the campaign and changes
    -- nothing. Or it evaluates the campaign and commits: then either the reminders and the queue
    -- stand as they were, because the campaign does not decay now, has no repo, or has a reminder
    -- for its repo that is pending or open; or it decays, its repo had no reminder, and exactly one
    -- pending one is added after the others, whose job is queued when Redis takes it. Or the commit
    -- fails, and then the campaign has a repo with a reminder that is merged or closed, and none
    -- that is pending or open.
    pub evaluate_campaign-Reminded :
        (taken : String → Bool) (id : String)
        → Reminded id (evaluate_campaign floats machine clock later now queue_up taken id db)
    unfolding evaluate_campaign evaluate_found
    evaluate_campaign-Reminded taken id = unless_taken (taken id)
      where
        unless_taken :
            (b : Bool)
            → Reminded id (
                evaluate_found floats machine clock later now queue_up
                  (if b then none else find_campaign floats id db.campaigns)
                  db)
        unless_taken true = refl
        unless_taken false = found-Reminded id (find_campaign floats id db.campaigns) refl
