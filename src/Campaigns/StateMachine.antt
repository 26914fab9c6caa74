-- ===== src/Campaigns/StateMachine.antt =====
-- packages/guardian_campaigns/state_machine.py. The package `transitions` is the parameter
-- `machine`, floating-point arithmetic the parameter `floats`, and the two readings of
-- `time.monotonic()` are the arguments `now` and `later`. Log output is left out.
pub mod Paths
pub mod Evaluate
use living_api_contract_guar.Common.{
  ℕ, zero, suc, String, Bool, true, false, Option, none, some, List, [], ◌∷◌, ◌≡◌, ◌&&◌, ◌⊎◌, any,
  select, if◌then◌else◌,
}
use living_api_contract_guar.Common.Int.{ℤ, pos, negsuc}

-- `STATES`
pub data State : Type 0 where
  draft active decaying ready_to_remove completed aborted : State

pub data Trigger : Type 0 where
  activate start_decay mark_ready complete abort : Trigger

pub data Guard : Type 0 where
  guard_start_decay guard_mark_ready : Guard

pub data Callback : Type 0 where
  before_activate : Callback

abbrev pub state_beq : State → State → Bool
state_beq draft draft = true
state_beq active active = true
state_beq decaying decaying = true
state_beq ready_to_remove ready_to_remove = true
state_beq completed completed = true
state_beq aborted aborted = true
state_beq _ _ = false

abbrev pub trigger_beq : Trigger → Trigger → Bool
trigger_beq activate activate = true
trigger_beq start_decay start_decay = true
trigger_beq mark_ready mark_ready = true
trigger_beq complete complete = true
trigger_beq abort abort = true
trigger_beq _ _ = false

pub record Transition : Type 0 where
  pub trigger : Trigger
  pub source : List State
  pub dest : State
  pub conditions : Option Guard
  pub before : Option Callback

-- `_TRANSITIONS`
abbrev pub transitions : List Transition
transitions =
    record {
      trigger = activate;
      source = draft ∷ [];
      dest = active;
      conditions = none;
      before = some before_activate;
    }
    ∷ record {
      trigger = start_decay;
      source = active ∷ [];
      dest = decaying;
      conditions = some guard_start_decay;
      before = none;
    }
    ∷ record {
      trigger = mark_ready;
      source = decaying ∷ [];
      dest = ready_to_remove;
      conditions = some guard_mark_ready;
      before = none;
    }
    ∷ record {
      trigger = complete;
      source = ready_to_remove ∷ [];
      dest = completed;
      conditions = none;
      before = none;
    }
    ∷ record {
      trigger = abort;
      source = draft ∷ active ∷ decaying ∷ ready_to_remove ∷ [];
      dest = aborted;
      conditions = none;
      before = none;
    }
    ∷ []

-- What calling a trigger method does: it raises MachineError, returns False, or takes a transition.
pub data Fired : Type 0 where
  machine_error refused : Fired
  moved : Transition → Fired

abbrev pub applies : State → Trigger → Transition → Bool
applies s t tr = trigger_beq tr.trigger t && any (state_beq s) tr.source

abbrev pub passes : (Guard → Bool) → Option Guard → Bool
passes guard none = true
passes guard (some g) = guard g

abbrev pub first_passing : (Guard → Bool) → List Transition → Fired
first_passing guard [] = refused
first_passing guard (tr ∷ trs) =
    let rest = first_passing guard trs in if passes guard tr.conditions then moved tr else rest

-- The documented behaviour of a trigger of `transitions.Machine`, for the transitions of that
-- trigger from the present state: with none it raises MachineError; otherwise it takes the first
-- one whose conditions hold, and returns False if there is no such one.
abbrev pub outcome : (Guard → Bool) → List Transition → Fired
outcome guard [] = machine_error
outcome guard (tr ∷ trs) = first_passing guard (tr ∷ trs)

pub record Machine : Type 0 where
  pub fire : List Transition → (Guard → Bool) → State → Trigger → Fired
  pub documented :
      (trs : List Transition) (guard : Guard → Bool) (s : State) (t : Trigger)
      → fire trs guard s t ≡ outcome guard (select (applies s t) trs)

pub record Floats : Type 1 where
  pub Float : Type 0
  pub literal : String → Float
  -- `a / b` of two integers
  pub div : ℤ → ℤ → Float
  pub of_int : ℤ → Float
  pub add : Float → Float → Float
  pub mul : Float → Float → Float
  pub sub : Float → Float → Float
  pub le : Float → Float → Bool
  pub lt : Float → Float → Bool
  -- `round(x, n)`
  pub round : Float → ℕ → Float

abbrev pub is_positive : ℤ → Bool
is_positive (pos zero) = false
is_positive (pos (suc n)) = true
is_positive (negsuc n) = false

module _ (floats : Floats) where
  -- The attributes of a `CampaignFSM`.
  pub record CampaignFsm : Type 0 where
    pub campaign_id : String
    pub state : State
    pub peak_usage : ℤ
    pub usage_threshold_pct : floats.Float
    pub current_usage : ℤ
    pub last_transition_at : Option floats.Float

  -- `CampaignFSM.__init__`
  unfoldable pub init : String → State → ℤ → floats.Float → CampaignFsm
  init campaign_id initial_state peak_usage usage_threshold_pct = record {
    campaign_id = campaign_id;
    state = initial_state;
    peak_usage = peak_usage;
    usage_threshold_pct = usage_threshold_pct;
    current_usage = pos 0;
    last_transition_at = none;
  }

  -- `self._current_usage / self.peak_usage * 100.0`
  unfoldable pub ratio : CampaignFsm → floats.Float
  ratio fsm = floats.mul (floats.div fsm.current_usage fsm.peak_usage) (floats.literal "100.0")

  -- `_guard_start_decay`
  unfoldable pub allows_start_decay : CampaignFsm → Bool
  allows_start_decay fsm =
      if is_positive fsm.peak_usage
      then floats.le (ratio fsm) (floats.sub fsm.usage_threshold_pct (floats.literal "0.01"))
      else true

  -- `_guard_mark_ready`
  unfoldable pub allows_mark_ready : CampaignFsm → Bool
  allows_mark_ready fsm =
      if is_positive fsm.peak_usage
      then floats.le (ratio fsm) (floats.sub (floats.literal "1.0") (floats.literal "0.01"))
      else true

  unfoldable pub guard : CampaignFsm → Guard → Bool
  guard fsm guard_start_decay = allows_start_decay fsm
  guard fsm guard_mark_ready = allows_mark_ready fsm

  -- `_before_activate`, called before the state changes
  unfoldable pub run_before : ℤ → Option Callback → CampaignFsm → CampaignFsm
  run_before peak_usage none fsm = fsm
  run_before peak_usage (some before_activate) fsm = record fsm { peak_usage = peak_usage }

  unfoldable pub after_fire : ℤ → CampaignFsm → Fired → Option (CampaignFsm × Bool)
  unfolding run_before
  after_fire peak_usage fsm machine_error = none
  after_fire peak_usage fsm refused = some (fsm, false)
  after_fire peak_usage fsm (moved tr) =
      some (record (run_before peak_usage tr.before fsm) { state = tr.dest }, true)

  -- A call of a trigger method, with the keyword argument `peak_usage` (0 by default); `none` is
  -- a MachineError.
  unfoldable pub call : Machine → ℤ → Trigger → CampaignFsm → Option (CampaignFsm × Bool)
  call machine peak_usage t fsm =
      after_fire peak_usage fsm (machine.fire transitions (guard fsm) fsm.state t)

  -- How the loop of `evaluate` goes on after a call of `t`, given what it does for the other
  -- triggers.
  unfoldable pub next_trigger :
      Trigger
      → Option (CampaignFsm × Bool)
      → CampaignFsm
      → (CampaignFsm → CampaignFsm × Option Trigger)
      → CampaignFsm × Option Trigger
  next_trigger t none fsm rest = rest fsm
  next_trigger t (some (fsm2, true)) fsm rest = (fsm2, some t)
  next_trigger t (some (fsm2, false)) fsm rest = rest fsm2

  -- the loop of `evaluate`
  unfoldable pub try_triggers : Machine → List Trigger → CampaignFsm → CampaignFsm × Option Trigger
  unfolding next_trigger
  try_triggers machine [] fsm = (fsm, none)
  try_triggers machine (t ∷ ts) fsm =
      next_trigger t (call machine (pos 0) t fsm) fsm (λ f. try_triggers machine ts f)

  -- the test on `_last_transition_at`
  unfoldable pub is_locked : floats.Float → Option floats.Float → Bool
  is_locked now none = false
  is_locked now (some at) = floats.lt (floats.sub now at) (floats.literal "5.0")

  unfoldable pub stamp : floats.Float → CampaignFsm × Option Trigger → CampaignFsm × Option Trigger
  stamp later (fsm, none) = (fsm, none)
  stamp later (fsm, some t) = (record fsm { last_transition_at = some later }, some t)

  -- `evaluate`
  unfoldable pub evaluate :
      Machine → floats.Float → floats.Float → ℤ → CampaignFsm → CampaignFsm × Option Trigger
  evaluate machine now later current_usage fsm =
      if is_locked now fsm.last_transition_at
      then (fsm, none)
      else stamp later (
          try_triggers machine (start_decay ∷ mark_ready ∷ [])
            (record fsm { current_usage = current_usage }))
