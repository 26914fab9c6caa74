-- ===== src/Campaigns/Jobs/Progress.antt =====
-- A campaign whose endpoint is no longer used, over two runs of `evaluate_campaign`.
use living_api_contract_guar.Common.{
  ℕ, String, Bool, true, false, Option, some, List, [], ◌∷◌, ◌++◌, ◌≡◌, refl, ◌∙◌, ap, ◌⊎◌,
  string_key, inl, inr,
}
use living_api_contract_guar.Common.Int.{pos}
use living_api_contract_guar.Campaigns.StateMachine.{
  State, draft, active, decaying, ready_to_remove, completed, aborted, Trigger, start_decay,
  mark_ready, Machine, Floats, CampaignFsm, init, allows_start_decay, allows_mark_ready,
}
use living_api_contract_guar.Campaigns.StateMachine.Evaluate.{automatic}
use living_api_contract_guar.Campaigns.Decay.{Usage, CampaignMetric, record_metric}
use living_api_contract_guar.Campaigns.Jobs.{
  if_text, Campaign, Database, JobResult, done, find_campaign, save_campaign, remind, sample,
  after_evaluate, with_result, evaluated_fsm, evaluate_row, evaluate_found, evaluate_campaign,
}
use living_api_contract_guar.Campaigns.Jobs.Evaluation.{evaluated_fsm-automatic, find_campaign-id}
use living_api_contract_guar.Campaigns.Jobs.Rows.{
  all_live, SameCampaigns, schedule-SameCampaigns, find-save,
}

module _ (floats : Floats) where
  -- The endpoint of the campaign has no usage in the window.
  abbrev pub IsUnused : ℕ → Campaign floats → List Usage → Type 0
  IsUnused now c usages =
      (sample floats now usages (if_text c.endpoint_id) c.decay_window_days).0 ≡ 0

  -- The campaign's FSM with that usage.
  abbrev pub idle_fsm : Campaign floats → CampaignFsm floats
  idle_fsm c = record (init floats c.id c.state c.peak_usage c.usage_threshold_pct) {
    current_usage = pos 0;
  }

  -- The campaign after a transition that fired.
  abbrev pub in_state : State → ℕ → Campaign floats → Campaign floats
  in_state s now c = record c { state = s; updated_at = now }

  module _ (machine : Machine) (clock later : floats.Float) (now : ℕ) (queue_up : Bool) where
    -- A campaign that is active or decaying is not skipped.
    row_by :
        (s : State) (row idle : Option (Database floats × JobResult floats))
        → (s ≡ active) ⊎ (s ≡ decaying)
        → (elim s [ completed ↦ idle | aborted ↦ idle | _ ↦ row ]) ≡ row
    row_by active row idle h = refl
    row_by decaying row idle h = refl
    row_by draft row idle (inl h) = absurd cc
    row_by draft row idle (inr h) = absurd cc
    row_by ready_to_remove row idle (inl h) = absurd cc
    row_by ready_to_remove row idle (inr h) = absurd cc
    row_by completed row idle (inl h) = absurd cc
    row_by completed row idle (inr h) = absurd cc
    row_by aborted row idle (inl h) = absurd cc
    row_by aborted row idle (inr h) = absurd cc

    run_row :
        (taken : String → Bool) (id : String) (db : Database floats) (c : Campaign floats)
        → taken id ≡ false
        → find_campaign floats id db.campaigns ≡ some c
        → (c.state ≡ active) ⊎ (c.state ≡ decaying)
        → evaluate_campaign floats machine clock later now queue_up taken id db
          ≡ evaluate_row floats machine clock later now queue_up c db
    unfolding evaluate_campaign evaluate_found
    run_row taken id db c t f s = rw (t, f) (row_by c.state _ _ s)

    -- The rows when the campaign `c2` is saved and a reminder is sought for it.
    abbrev saved :
        Campaign floats
        → Campaign floats
        → CampaignMetric floats
        → Database floats
        → Database floats
    saved c c2 m db = record db {
      campaigns = save_campaign floats c2 db.campaigns;
      metrics = db.metrics ++ (m ∷ []);
    }

    abbrev report :
        Campaign floats → Campaign floats → ℕ × ℕ → CampaignMetric floats → JobResult floats
    report c c2 usage m = done (record {
      previous_state = c.state;
      new_state = c2.state;
      transition_fired = (evaluated_fsm floats machine clock later now queue_up c usage.0).1;
      usage_count = usage.0;
      remaining_clients = usage.1;
      ewma = m.ewma_value;
    })

    -- A run that leaves the campaign as `c2`.
    Leaves : (String → Bool) → String → Database floats → Campaign floats → Type 0
    Leaves taken id db c2 =
        (db2 : Database floats) × (r : JobResult floats) × (evaluate_campaign floats machine clock
            later now queue_up taken id db
          ≡ some (db2, r))
        × (find_campaign floats id db2.campaigns ≡ some c2)
        × (db2.usages ≡ db.usages)

    run-Leaves :
        (taken : String → Bool) (id : String) (db : Database floats) (c c2 : Campaign floats)
        → taken id ≡ false
        → find_campaign floats id db.campaigns ≡ some c
        → (c.state ≡ active) ⊎ (c.state ≡ decaying)
        → c2.id ≡ id
        → (let usage = sample floats now db.usages (if_text c.endpoint_id) c.decay_window_days in
            after_evaluate floats now c
              (evaluated_fsm floats machine clock later now queue_up c usage.0)
            ≡ c2)
        → ((m : CampaignMetric floats)
            → SameCampaigns floats (saved c c2 m db) (remind floats queue_up c2 (saved c c2 m db)))
        → Leaves taken id db c2
    unfolding Leaves SameCampaigns evaluate_row
    run-Leaves taken id db c c2 t f s same e k =
        let usage = sample floats now db.usages (if_text c.endpoint_id) c.decay_window_days in
        let m = record_metric floats now db.metrics c.id usage.0 usage.1 c.decay_window_days in
        let after = k m in
        (
          after.0,
          report c c2 usage m,
          run_row taken id db c t f s
              ∙ ap
                  (λ d.
                    with_result floats (report c d usage m)
                      (remind floats queue_up d (saved c d m db)))
                  e
              ∙ rw after.1 refl,
          rw after.2 (find-save floats id c c2 db.campaigns same f),
          after.3,
        )

    starts_decay :
        (fsm : CampaignFsm floats) (s : State)
        → s ≡ active
        → allows_start_decay floats fsm ≡ true
        → automatic floats machine clock later fsm s
          ≡ (record fsm { state = decaying; last_transition_at = some later }, some start_decay)
    starts_decay fsm active h g = rw g refl
    starts_decay fsm draft h g = absurd cc
    starts_decay fsm decaying h g = absurd cc
    starts_decay fsm ready_to_remove h g = absurd cc
    starts_decay fsm completed h g = absurd cc
    starts_decay fsm aborted h g = absurd cc

    marks_ready :
        (fsm : CampaignFsm floats) (s : State)
        → s ≡ decaying
        → allows_mark_ready floats fsm ≡ true
        → automatic floats machine clock later fsm s ≡ (
          record fsm { state = ready_to_remove; last_transition_at = some later },
          some mark_ready,
        )
    marks_ready fsm decaying h g = rw g refl
    marks_ready fsm draft h g = absurd cc
    marks_ready fsm active h g = absurd cc
    marks_ready fsm ready_to_remove h g = absurd cc
    marks_ready fsm completed h g = absurd cc
    marks_ready fsm aborted h g = absurd cc

    -- The row of a campaign without usage after its evaluation.
    idle-row :
        (c c2 : Campaign floats) (usage : ℕ) (p : CampaignFsm floats × Option Trigger)
        → usage ≡ 0
        → automatic floats machine clock later (idle_fsm c) c.state ≡ p
        → after_evaluate floats now c p ≡ c2
        → after_evaluate floats now c
            (evaluated_fsm floats machine clock later now queue_up c usage)
          ≡ c2
    idle-row c c2 usage p u a e =
        ap
          (λ n.
            after_evaluate floats now c (evaluated_fsm floats machine clock later now queue_up c n))
          u
        ∙ ap (after_evaluate floats now c)
            (evaluated_fsm-automatic floats machine clock later now queue_up c 0 ∙ a)
        ∙ e

    active-Leaves :
        (taken : String → Bool) (id : String) (db : Database floats) (c : Campaign floats)
        → taken id ≡ false
        → find_campaign floats id db.campaigns ≡ some c
        → c.state ≡ active
        → IsUnused now c db.usages
        → allows_start_decay floats (idle_fsm c) ≡ true
        → all_live id db.reminders ≡ true
        → Leaves taken id db (in_state decaying now c)
    unfolding remind after_evaluate
    active-Leaves taken id db c t f s u g live =
        let own = find_campaign-id floats machine clock later now queue_up id db.campaigns c f in
        run-Leaves taken id db c (in_state decaying now c) t f (inl s) own
          (idle-row c (in_state decaying now c) _ _ u (starts_decay (idle_fsm c) c.state s g) refl)
          (λ m.
            schedule-SameCampaigns floats queue_up c.id (if_text c.github_repo)
              (saved c (in_state decaying now c) m db)
              (ap (λ i. all_live i db.reminders) own ∙ live))

    decaying-Leaves :
        (taken : String → Bool) (id : String) (db : Database floats) (c : Campaign floats)
        → taken id ≡ false
        → find_campaign floats id db.campaigns ≡ some c
        → c.state ≡ decaying
        → IsUnused now c db.usages
        → allows_mark_ready floats (idle_fsm c) ≡ true
        → Leaves taken id db (in_state ready_to_remove now c)
    unfolding remind SameCampaigns after_evaluate
    decaying-Leaves taken id db c t f s u g =
        let own = find_campaign-id floats machine clock later now queue_up id db.campaigns c f in
        run-Leaves taken id db c (in_state ready_to_remove now c) t f (inr s) own
          (idle-row c (in_state ready_to_remove now c) _ _ u (marks_ready (idle_fsm c) c.state s g)
            refl)
          (λ m. (saved c (in_state ready_to_remove now c) m db, refl, refl, refl))

  -- An active campaign gets ready to be removed in two runs of `evaluate_campaign`, if its endpoint
  -- has no usage in the window at either run, both guards hold for no usage, no other worker holds
  -- the campaign, and every reminder of the campaign is pending or open: both runs commit, whether
  -- or not Redis takes the jobs, the first leaves the campaign decaying and the second ready to
  -- remove, its other columns as they were but for `updated_at`.
  pub evaluate_campaign-ready :
      (machine : Machine) (clock later clock2 later2 : floats.Float) (now now2 : ℕ)
      (queue_up queue_up2 : Bool) (taken taken2 : String → Bool) (id : String)
      (db : Database floats) (c : Campaign floats)
      → taken id ≡ false
      → taken2 id ≡ false
      → find_campaign floats id db.campaigns ≡ some c
      → c.state ≡ active
      → IsUnused now c db.usages
      → IsUnused now2 c db.usages
      → allows_start_decay floats (idle_fsm c) ≡ true
      → allows_mark_ready floats (idle_fsm (in_state decaying now c)) ≡ true
      → all_live id db.reminders ≡ true
      → (db2 : Database floats) × (db3 : Database floats) × (r : JobResult floats) × (r2 : JobResult
          floats)
        × (evaluate_campaign floats machine clock later now queue_up taken id db ≡ some (db2, r))
        × (find_campaign floats id db2.campaigns ≡ some (in_state decaying now c))
        × (evaluate_campaign floats machine clock2 later2 now2 queue_up2 taken2 id db2
            ≡ some (db3, r2))
        × (find_campaign floats id db3.campaigns ≡ some (in_state ready_to_remove now2 c))
  unfolding Leaves
  evaluate_campaign-ready machine clock later clock2 later2 now now2 queue_up queue_up2 taken taken2
        id db c t t2 f s u u2 g g2 live =
      let (db2, r, run, found, same) =
        active-Leaves machine clock later now queue_up taken id db c t f s u g live in
      let still : IsUnused now2 c db2.usages =
        ap (λ us. (sample floats now2 us (if_text c.endpoint_id) c.decay_window_days).0) same
        ∙ u2 in
      let (db3, r2, run2, found2, same2) =
        decaying-Leaves machine clock2 later2 now2 queue_up2 taken2 id db2 (in_state decaying now c)
          t2 found refl still g2 in
      (db2, db3, r, r2, run, found, run2, found2)
