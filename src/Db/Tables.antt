-- ===== src/Db/Tables.antt =====
-- The tables that the scheme services read and write (db/models), and the queries on them. A list of rows
-- is in the order in which the rows were added.
use adhikar_ai.Prelude.{ℕ, String, Bool, Option, none, some, List, [], ◌∷◌, if◌then◌else◌, ltb}
use adhikar_ai.Schema.{EligibilityCriteria}
use adhikar_ai.Db.Rows.{Lifecycle, Scheme, EligibilityRule}

pub record SchemeCategory : Type 0 where
  pub id : ℕ
  pub organisation_id : ℕ
  pub code : String

-- `scheme_to_snapshot`
pub record SchemeSnapshot : Type 0 where
  pub id : String
  pub name : String
  pub description : String
  pub status : Lifecycle
  pub is_active : Bool
  pub valid_until : Option ℕ

pub record SchemeVersion : Type 0 where
  pub organisation_id : ℕ
  pub scheme_id : String
  pub version : ℕ
  pub scheme_snapshot : SchemeSnapshot
  pub rule_snapshot : EligibilityCriteria
  pub change_summary : String

pub record SchemeStatusEvent : Type 0 where
  pub organisation_id : ℕ
  pub scheme_id : String
  pub old_status : Lifecycle
  pub new_status : Lifecycle
  pub reason : String

-- The body is for display.
pub record AdminNotification : Type 0 where
  pub organisation_id : ℕ
  pub notification_type : String
  pub title : String
  pub related_scheme_id : String
  pub severity : String

pub record Tables : Type 0 where
  pub organisations : List ℕ
  pub scheme_categories : List SchemeCategory
  pub schemes : List Scheme
  pub eligibility_rules : List EligibilityRule
  pub scheme_versions : List SchemeVersion
  pub scheme_status_events : List SchemeStatusEvent
  pub admin_notifications : List AdminNotification

module _ {A : Type 0} where
  -- UPDATE: the rows that pass are changed in place.
  abbrev pub update_rows : (A → Bool) → (A → A) → List A → List A
  update_rows p f [] = []
  update_rows p f (row ∷ rows) = (if p row then f row else row) ∷ update_rows p f rows

  -- The row that comes first by `ORDER BY key DESC LIMIT 1`.
  abbrev pub greatest : (A → ℕ) → List A → Option A
  greatest key [] = none
  greatest key (row ∷ rows) = elim (greatest key rows) [
    | none ↦ some row
    | some best ↦ if ltb (key row) (key best) then some best else some row
  ]
