-- ===== src/Campaigns/Routes/Agree.antt =====
-- The routes against the state diagram and against the job.
use text.Mathlib.TextEquality.{eq_iff}
use living_api_contract_guar.Common.{
  ℕ, String, Bool, false, Option, none, some, List, [], ◌∷◌, ◌≡◌, refl, arith, ◌↔◌, ◌⊎◌, string_key,
}
use living_api_contract_guar.Campaigns.StateMachine.{
  State, Trigger, Machine, Floats, CampaignFsm, init,
}
use living_api_contract_guar.Campaigns.StateMachine.Paths.{diagram, permits, expected, call-diagram}
use living_api_contract_guar.Campaigns.Jobs.{Campaign, Database, find_campaign, save_campaign}
use living_api_contract_guar.Campaigns.Routes.{
  unprocessable, success, given_peak, saved_peak, after_call, transition_found, transition_campaign,
}

module _ (floats : Floats) where
  find-save :
      (id : String) (cs : List (Campaign floats)) (c c2 : Campaign floats)
      → c2.id ≡ id
      → find_campaign floats id cs ≡ some c
      → find_campaign floats id (save_campaign floats c2 cs) ≡ some c2
  find-save id [] c c2 h k = absurd cc
  find-save id (d ∷ cs) c c2 h k =
      ground (arith, eq_iff d.id id, eq_iff d.id c2.id, eq_iff c2.id id, find-save id cs c c2 h)

  find-id :
      (id : String) (cs : List (Campaign floats)) (c : Campaign floats)
      → find_campaign floats id cs ≡ some c
      → c.id ≡ id
  find-id id [] c h = absurd cc
  find-id id (d ∷ cs) c h = ground (arith, eq_iff d.id id, find-id id cs c)

  abbrev pub start : Campaign floats → CampaignFsm floats
  start c = init floats c.id c.state c.peak_usage c.usage_threshold_pct

  module _ (machine : Machine) where
    -- What a success of the route has written, by the result of the call.
    abbrev pub Written : Trigger → Campaign floats → Option State → Campaign floats → Type 0
    Written t c o c2 =
        (o ≡ some c2.state) ⊎ ((c2.state ≡ c.state) × (permits floats machine (start c) t ≡ false))

    expected_reply :
        (now : ℕ) (t : Trigger) (peak : Option ℕ) (c : Campaign floats) (db : Database floats)
        (o : Option State)
        → (after_call floats machine now t peak c db
              (expected floats machine (given_peak t peak) t (start c) o)
            ≡ unprocessable)
          ↔ (o ≡ none)
    unfolding after_call init
    expected_reply now t peak c db o = ground arith

    -- For a campaign that exists, the transition route answers 422 exactly when the diagram of
    -- states has no transition for the trigger from the campaign's state.
    pub transition_campaign-rejects :
        (now : ℕ) (id : String) (t : Trigger) (peak : Option ℕ) (db : Database floats)
        (c : Campaign floats)
        → find_campaign floats id db.campaigns ≡ some c
        → (transition_campaign floats machine now id t peak db ≡ unprocessable)
          ↔ (diagram c.state t ≡ none)
    unfolding transition_campaign transition_found init
    transition_campaign-rejects now id t peak db c found =
        rw (found, call-diagram floats machine (given_peak t peak) t (start c))
          (expected_reply now t peak c db (diagram c.state t))

    -- The call on the diagram, with its result.
    Written-call :
        (now : ℕ) (t : Trigger) (peak : Option ℕ) (id : String) (c : Campaign floats)
        (db db2 : Database floats) (s : State) (called : Option (CampaignFsm floats × Bool))
        → find_campaign floats id db.campaigns ≡ some c
        → expected floats machine (given_peak t peak) t (start c) (some s) ≡ called
        → after_call floats machine now t peak c db called ≡ success db2
        → (c2 : Campaign floats) × (find_campaign floats id db2.campaigns ≡ some c2)
          × Written t c (some s) c2
    unfolding after_call init
    Written-call now t peak id c db db2 s none found q e = absurd cc
    Written-call now t peak id c db db2 s (some (fsm, result)) found q e =
        let updated : Campaign floats = record c {
          state = fsm.state;
          peak_usage = saved_peak t peak c.peak_usage;
          updated_at = now;
        } in
        let rows : save_campaign floats updated db.campaigns ≡ db2.campaigns = ground (arith, e) in
        (
          updated,
          rw (← rows) (find-save id db.campaigns c updated (find-id id db.campaigns c found) found),
          ground (arith, q),
        )

    Written-reply :
        (now : ℕ) (t : Trigger) (peak : Option ℕ) (id : String) (c : Campaign floats)
        (db db2 : Database floats) (o : Option State)
        → find_campaign floats id db.campaigns ≡ some c
        → after_call floats machine now t peak c db
            (expected floats machine (given_peak t peak) t (start c) o)
          ≡ success db2
        → (c2 : Campaign floats) × (find_campaign floats id db2.campaigns ≡ some c2)
          × (Written t c o c2)
    unfolding after_call init
    Written-reply now t peak id c db db2 none found e = absurd cc
    Written-reply now t peak id c db db2 (some s) found e =
        Written-call now t peak id c db db2 s
          (expected floats machine (given_peak t peak) t (start c) (some s)) found refl e

    -- When the transition route succeeds for a campaign, the campaign's row then holds either the
    -- state that the diagram gives for the trigger, or, when the trigger's guard refused, the state
    -- it had.
    pub transition_campaign-Written :
        (now : ℕ) (id : String) (t : Trigger) (peak : Option ℕ) (db db2 : Database floats)
        (c : Campaign floats)
        → find_campaign floats id db.campaigns ≡ some c
        → transition_campaign floats machine now id t peak db ≡ success db2
        → (c2 : Campaign floats) × (find_campaign floats id db2.campaigns ≡ some c2)
          × Written t c (diagram c.state t) c2
    unfolding transition_campaign transition_found init
    transition_campaign-Written now id t peak db db2 c found e =
        Written-reply now t peak id c db db2 (diagram c.state t) found
          (rw (found, call-diagram floats machine (given_peak t peak) t (start c)) at e)
