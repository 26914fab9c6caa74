-- ===== src/Campaigns/Jobs/Rows.antt =====
-- The rows that a run of `evaluate_campaign` leaves in place.
use text.Mathlib.TextEquality.{eq_iff}
use living_api_contract_guar.Common.{
  String, Bool, true, false, not, Option, none, some, List, [], ◌∷◌, ◌≡◌, refl, ap, arith, all, any,
  ◌&&◌, ◌||◌, ◌==◌, string_key, if◌then◌else◌,
}
use living_api_contract_guar.Campaigns.StateMachine.{Floats}
use living_api_contract_guar.Campaigns.Jobs.{
  ReminderPr, is_live, is_for, Campaign, Database, find_campaign, save_campaign,
  maybe_schedule_reminder, add_reminder,
}

-- Every reminder of the campaign is pending or open.
abbrev pub all_live : String → List ReminderPr → Bool
all_live id = all (λ r. not (r.campaign_id == id) || is_live r.pr_state)

pub live_any :
    (id repo : String) (rs : List ReminderPr)
    → all_live id rs ≡ true
    → any (λ r. is_for id repo r && is_live r.pr_state) rs ≡ any (is_for id repo) rs
live_any id repo [] h = refl
live_any id repo (r ∷ rs) h = ground (arith, live_any id repo rs)

module _ (floats : Floats) where
  -- The campaigns and the usages are not touched by a reminder.
  unfoldable pub SameCampaigns : Database floats → Option (Database floats) → Type 0
  SameCampaigns db o =
      (db2 : Database floats) × (o ≡ some db2)
      × (db2.campaigns ≡ db.campaigns)
      × (db2.usages ≡ db.usages)

  added_by :
      (db : Database floats) (c b : Bool) (added : Database floats)
      → c ≡ b
      → added.campaigns ≡ db.campaigns
      → added.usages ≡ db.usages
      → SameCampaigns db (if c then some db else if b then none else some added)
  unfolding SameCampaigns
  added_by db true b added e h q = (db, refl, refl, refl)
  added_by db false true added e h q = absurd cc
  added_by db false false added e h q = (added, refl, h, q)

  saved_by :
      (a b : Bool) (id : String) (e c d : Campaign floats) (rest saved : Option (Campaign floats))
      → a ≡ b
      → (e.id == id) ≡ b
      → (d.id == id) ≡ true
      → (if b then some e else rest) ≡ some c
      → (rest ≡ some c → saved ≡ some d)
      → (let head = if a then d else e in if head.id == id then some head else saved) ≡ some d
  saved_by true true id e c d rest saved g h k q r = rw k refl
  saved_by false false id e c d rest saved g h k q r = rw h (r q)
  saved_by true false id e c d rest saved g h k q r = absurd cc
  saved_by false true id e c d rest saved g h k q r = absurd cc

  pub schedule-SameCampaigns :
      (queue_up : Bool) (id : String) (repo : Option String) (db : Database floats)
      → all_live id db.reminders ≡ true
      → SameCampaigns db (maybe_schedule_reminder floats queue_up id repo db)
  unfolding SameCampaigns maybe_schedule_reminder add_reminder
  schedule-SameCampaigns queue_up id none db h = (db, refl, refl, refl)
  schedule-SameCampaigns queue_up id (some repo) db h =
      added_by db (any (λ r. is_for id repo r && is_live r.pr_state) db.reminders)
        (any (is_for id repo) db.reminders) _ (live_any id repo db.reminders h) refl refl

  pub find-save :
      (id : String) (c d : Campaign floats) (cs : List (Campaign floats))
      → d.id ≡ id
      → find_campaign floats id cs ≡ some c
      → find_campaign floats id (save_campaign floats d cs) ≡ some d
  find-save id c d [] h q = absurd cc
  find-save id c d (e ∷ cs) h q =
      saved_by (e.id == d.id) (e.id == id) id e c d (find_campaign floats id cs)
        (find_campaign floats id (save_campaign floats d cs)) (ap (λ i. e.id == i) h) refl
        ((eq_iff d.id id).1 h) q (find-save id c d cs h)
