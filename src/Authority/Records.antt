-- ===== src/Authority/Records.antt =====
-- The records that src/authority.mjs reads, with the fields that it reads. A field that may be
-- undefined is an `Option`; `Date.parse` of a text that is no date is `none`.
use ai_sdlc_framework.Prelude.{ℕ, Bool, List, Option, String}

-- `PHASES` of src/core.mjs
pub data Phase : Type 0 where
  requirements test_design technical_design coding : Phase

pub record Transition : Type 0 where
  pub from : Phase
  pub to : Phase

-- `until` carries `Date.parse(expiresAt)`.
pub data Lifetime : Type 0 where
  work_item : Lifetime
  once : Lifetime
  cycle : String → Lifetime
  until : Option ℕ → Lifetime

pub record Scope : Type 0 where
  pub item_id : Option String
  pub operation_id : Option String
  pub environment : Option String
  pub target : Option String
  pub owner : Option String
  pub host : Option String
  pub repository_ids : Option (List String)
  pub actions : Option (List String)
  pub paths : Option (List String)

-- What publication consent, push permission and a pull request action have in common.
pub record Publication : Type 0 where
  pub target : Option String
  pub local_repository_path : Option String
  pub remote_repository_url : Option String
  pub source_repository_url : Option String
  pub source_revision : Option String
  pub pr_id : Option String
  pub description_digest : Option String
  pub coverage_digest : Option String
  pub previous_description_digest : Option String
  pub description_version : Option String
  pub remote_url_digest : Option String
  pub source_ref : Option String
  pub target_ref : Option String
  pub force : Option Bool
  pub delete : Option Bool

pub record Effect : Type 0 where
  pub transition : Option Transition
  pub rules : List String
  pub revokes : List String
  pub grant : Option String
  pub scope : Option Scope
  pub lifetime : Option Lifetime
  pub publication_action : Option String
  pub publication : Publication
  pub item_id : Option String
  pub cycle_id : Option String
  pub candidate_digest : Option String
  pub test_spec_digest : Option String
  pub config_digest : Option String

pub record Event : Type 0 where
  pub id : String
  pub kind : String
  pub sequence : ℕ
  pub effect : Effect

pub record Cycle : Type 0 where
  pub id : String
  pub work_item_id : String
  pub candidate_digest : String
  pub test_spec_digest : String
  pub config_digest : String
  pub assurance_invalidated : Bool

pub record Reservation : Type 0 where
  pub event_id : String
  pub operation_id : String

pub record Observation : Type 0 where
  pub repository_id : String
  pub local_repository_path : String
  pub remote_repository_url : String

-- `record.type`, and the record.
pub data Record : Type 0 where
  event : Event → Record
  reservation : Reservation → Record
  repository_observation : Observation → Record
  cycle_record : Cycle → Record
  assurance_marker : String → Record
  other_record : String → Record

pub record Action : Type 0 where
  pub class : String
  pub repository_id : Option String
  pub item_id : Option String
  pub operation_id : Option String
  pub environment : Option String
  pub owner : Option String
  pub host : Option String
  pub config_digest : Option String
  pub paths : List String
  pub publication : Publication

-- `{ cycleId, clock }`
pub record Context : Type 0 where
  pub cycle_id : Option String
  pub now : ℕ
