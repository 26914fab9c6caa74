-- ===== src/Campaigns/Jobs/Evaluation.antt =====
-- `evaluate_campaign` as a whole: its reminders, and the states that it moves a campaign through.
use text.Mathlib.TextEquality.{eq_iff}
use living_api_contract_guar.Common.{
  ℕ, String, Bool, true, false, Option, none, some, List, [], ◌∷◌, ◌++◌, ◌≡◌, refl, sym, ◌∙◌, arith,
  any, ◌&&◌, ◌⊎◌, string_key, inl, inr, Option-cases, Bool-cases,
}
use living_api_contract_guar.Common.Int.{pos}
use living_api_contract_guar.Campaigns.StateMachine.{
  active, decaying, ready_to_remove, Trigger, start_decay, mark_ready, Machine, Floats, CampaignFsm,
  init, is_locked, allows_start_decay, allows_mark_ready,
}
use living_api_contract_guar.Campaigns.StateMachine.Evaluate.{automatic, evaluate-automatic}
use living_api_contract_guar.Campaigns.Decay.{CampaignMetric, record_metric}
use living_api_contract_guar.Campaigns.Jobs.{
  is_live, is_for, if_text, Campaign, Database, Evaluated, JobResult, skipped, done, find_campaign,
  save_campaign, remind, sample, after_evaluate, with_result, evaluated_fsm, evaluate_row,
  evaluate_found, evaluate_campaign,
}
use living_api_contract_guar.Campaigns.Jobs.Reminders.{remind-live}

abbrev pub is_done : {floats : Floats} → JobResult floats → Bool
is_done (skipped reason) = false
is_done (done e) = true

module _ (floats : Floats) where
  with_result-some :
      (r r2 : JobResult floats) (o : Option (Database floats)) (db2 : Database floats)
      → with_result floats r o ≡ some (db2, r2)
      → (o ≡ some db2) × (r ≡ r2)
  with_result-some r r2 none db2 e = absurd cc
  with_result-some r r2 (some db) db2 e = (cc, cc)

  pub after_evaluate-columns :
      (now : ℕ) (c : Campaign floats) (p : CampaignFsm floats × Option Trigger)
      → ((after_evaluate floats now c p).id ≡ c.id)
        × ((after_evaluate floats now c p).github_repo ≡ c.github_repo)
  unfolding after_evaluate
  after_evaluate-columns now c (fsm, none) = (refl, refl)
  after_evaluate-columns now c (fsm, some t) = (refl, refl)

  module _ (machine : Machine) (clock later : floats.Float) (now : ℕ) (queue_up : Bool) where
    -- The three outcomes of the evaluation of a campaign that is not in a final state.
    abbrev pub Moves : Campaign floats → Evaluated floats → Type 0
    Moves c e =
        let fsm : CampaignFsm floats =
          record (init floats c.id c.state c.peak_usage c.usage_threshold_pct) {
            current_usage = pos e.usage_count;
          } in
        ((e.transition_fired ≡ none) × (e.new_state ≡ e.previous_state))
        ⊎ (((e.transition_fired ≡ some start_decay)
              × (e.previous_state ≡ active)
              × (e.new_state ≡ decaying)
              × (allows_start_decay floats fsm ≡ true))
            ⊎ ((e.transition_fired ≡ some mark_ready)
                × (e.previous_state ≡ decaying)
                × (e.new_state ≡ ready_to_remove)
                × (allows_mark_ready floats fsm ≡ true)))

    pub evaluated_fsm-automatic :
        (c : Campaign floats) (usage : ℕ)
        → evaluated_fsm floats machine clock later now queue_up c usage
          ≡ automatic floats machine clock later
              (record (init floats c.id c.state c.peak_usage c.usage_threshold_pct) {
                current_usage = pos usage;
              })
              c.state
    unfolding evaluated_fsm init is_locked
    evaluated_fsm-automatic c usage =
        evaluate-automatic floats machine clock later (pos usage)
          (init floats c.id c.state c.peak_usage c.usage_threshold_pct)

    -- The parts of a completed `evaluate_row`.
    row-parts :
        (c : Campaign floats) (db db2 : Database floats) (r : JobResult floats)
        → evaluate_row floats machine clock later now queue_up c db ≡ some (db2, r)
        → (u : ℕ) × (clients : ℕ) × (m : CampaignMetric floats) × (let p =
              evaluated_fsm floats machine clock later now queue_up c u in
            let c2 = after_evaluate floats now c p in
            (remind floats queue_up c2 (record db {
              campaigns = save_campaign floats c2 db.campaigns;
              metrics = db.metrics ++ (m ∷ []);
            })
              ≡ some db2)
            × (r
                ≡ done (record {
                  previous_state = c.state;
                  new_state = c2.state;
                  transition_fired = p.1;
                  usage_count = u;
                  remaining_clients = clients;
                  ewma = m.ewma_value;
                })))
    unfolding evaluate_row
    row-parts c db db2 r e =
        let usage = sample floats now db.usages (if_text c.endpoint_id) c.decay_window_days in
        let m = record_metric floats now db.metrics c.id usage.0 usage.1 c.decay_window_days in
        let p = evaluated_fsm floats machine clock later now queue_up c usage.0 in
        let c2 = after_evaluate floats now c p in
        let parts =
          with_result-some
            (done (record {
              previous_state = c.state;
              new_state = c2.state;
              transition_fired = p.1;
              usage_count = usage.0;
              remaining_clients = usage.1;
              ewma = m.ewma_value;
            }))
            r
            (remind floats queue_up c2 (record db {
              campaigns = save_campaign floats c2 db.campaigns;
              metrics = db.metrics ++ (m ∷ []);
            }))
            db2 e in
        (usage.0, usage.1, m, (parts.0, sym parts.1))

    -- A campaign in a final state leaves the database as it is.
    found-parts :
        (c : Campaign floats) (db db2 : Database floats) (r : JobResult floats)
        → evaluate_found floats machine clock later now queue_up (some c) db ≡ some (db2, r)
        → ((db2 ≡ db) × (is_done r ≡ false))
          ⊎ (evaluate_row floats machine clock later now queue_up c db ≡ some (db2, r))
    unfolding evaluate_found
    found-parts c db db2 r e = ground arith

    row-Moves :
        (c : Campaign floats) (db db2 : Database floats) (r : Evaluated floats)
        → evaluate_row floats machine clock later now queue_up c db ≡ some (db2, done r)
        → Moves c r
    unfolding after_evaluate
    row-Moves c db db2 r e =
        let (u, clients, m, (k, q)) = row-parts c db db2 (done r) e in
        ground (arith, evaluated_fsm-automatic c u, q)

    module _ (taken : String → Bool) (id : String) (db db2 : Database floats)
        (r : JobResult floats) where
      -- A run finds no campaign, or a final one, and changes nothing, or is that of the row.
      campaign-parts :
          evaluate_campaign floats machine clock later now queue_up taken id db ≡ some (db2, r)
          → ((db2 ≡ db) × (is_done r ≡ false))
            ⊎ ((c : Campaign floats) × (find_campaign floats id db.campaigns ≡ some c)
                × (evaluate_row floats machine clock later now queue_up c db ≡ some (db2, r)))
      unfolding evaluate_campaign evaluate_found
      campaign-parts e = elim (Bool-cases (taken id)) [
        | inl t ↦ inl (ground arith)
        | inr t ↦ elim (Option-cases (find_campaign floats id db.campaigns)) [
          | inl n ↦ inl (ground arith)
          | inr (c, q) ↦ elim (found-parts c db db2 r (rw (t, q) at e)) [
            | inl h ↦ inl h
            | inr h ↦ inr (c, q, h)
          ]
        ]
      ]

    -- When `evaluate_campaign` evaluates a campaign, then either no transition fired and the state
    -- stays, or an active campaign started to decay because its guard held for the sampled usage,
    -- or a decaying one became ready to remove because its guard held.
    pub evaluate_campaign-Moves :
        (taken : String → Bool) (id : String) (db db2 : Database floats) (r : Evaluated floats)
        → evaluate_campaign floats machine clock later now queue_up taken id db ≡ some (db2, done r)
        → (c : Campaign floats) × (find_campaign floats id db.campaigns ≡ some c) × Moves c r
    evaluate_campaign-Moves taken id db db2 r e = elim (campaign-parts taken id db db2 (done r) e) [
      | inl (same, k) ↦ absurd cc
      | inr (c, q, row) ↦ (c, q, row-Moves c db db2 r row)
    ]

    pub find_campaign-id :
        (id : String) (cs : List (Campaign floats)) (c : Campaign floats)
        → find_campaign floats id cs ≡ some c
        → c.id ≡ id
    find_campaign-id id [] c h = absurd cc
    find_campaign-id id (d ∷ cs) c h = ground (arith, eq_iff d.id id, find_campaign-id id cs c)

    -- While a pending or open reminder for the campaign's repo is in the table,
    -- `evaluate_campaign` adds no reminder and queues no job: a pending row whose job was not
    -- queued is not queued by a later evaluation.
    pub evaluate_campaign-live :
        (taken : String → Bool) (id repo : String) (db db2 : Database floats) (r : JobResult floats)
        (c : Campaign floats)
        → find_campaign floats id db.campaigns ≡ some c
        → if_text c.github_repo ≡ some repo
        → any (λ row. is_for id repo row && is_live row.pr_state) db.reminders ≡ true
        → evaluate_campaign floats machine clock later now queue_up taken id db ≡ some (db2, r)
        → (db2.jobs ≡ db.jobs) × (db2.reminders ≡ db.reminders)
    evaluate_campaign-live taken id repo db db2 r c found text live e =
        elim (campaign-parts taken id db db2 r e) [
          | inl (same, k) ↦ rw same (refl, refl)
          | inr (c1, q, row) ↦
              let one : c1 ≡ c = cc in
              let (u, clients, m, (k, q2)) = row-parts c db db2 r (rw one at row) in
              let p = evaluated_fsm floats machine clock later now queue_up c u in
              let c2 = after_evaluate floats now c p in
              let columns = after_evaluate-columns now c p in
              let at_id : c2.id ≡ id = columns.0 ∙ find_campaign-id id db.campaigns c found in
              let same =
                remind-live floats queue_up c2 repo
                  (record db {
                    campaigns = save_campaign floats c2 db.campaigns;
                    metrics = db.metrics ++ (m ∷ []);
                  })
                  db2 (rw columns.1 text) (rw at_id live) k in
              rw same (refl, refl)
        ]
