-- ===== src/Repository/Plans.antt =====
-- The table `tp_plans` of application/database.py: the take-profit plans of the holdings, the
-- latest first, so that `ORDER BY tp_plan_id DESC LIMIT 1` takes the first row. Times are left out.
pub mod Active
use jd_holdings.Prelude.{
  ℕ, ◌+◌, ◌==◌, if◌then◌else◌, Bool, true, false, ◌&&◌, Option, none, some, List, [], ◌∷◌,
}
use jd_holdings.Model.Enums.{Symbol, Purpose, same_symbol}
use jd_holdings.Repository.Errors.{Error, Result, ◌then◌, require}

pub record TpPlanRow : Type 0 where
  pub tp_plan_id : ℕ
  pub cycle_id : Option ℕ
  pub symbol : Symbol
  pub source_event : Purpose
  pub average_price : ℕ
  pub atr_pct : ℕ
  pub tp1_price : ℕ
  pub tp1_target_qty : ℕ
  pub tp1_filled_qty : ℕ
  pub tp2_price : ℕ
  pub tp2_target_qty : ℕ
  pub tp2_filled_qty : ℕ
  pub revision : ℕ
  pub active : Bool

-- The rows, and the last id that AUTOINCREMENT has given.
pub record PlanTable : Type 0 where
  pub rows : List TpPlanRow
  pub last_id : ℕ

-- The arguments of create_tp_plan.
pub record PlanRequest : Type 0 where
  pub cycle_id : Option ℕ
  pub symbol : Symbol
  pub source_event : Purpose
  pub average_price : ℕ
  pub atr_pct : ℕ
  pub tp1_price : ℕ
  pub tp1_target_qty : ℕ
  pub tp2_price : ℕ
  pub tp2_target_qty : ℕ

pub data TpLeg : Type 0 where
  tp1 tp2 : TpLeg

-- UPDATE tp_plans SET active = 0 WHERE symbol = ? AND active = 1
unfoldable pub deactivate_symbol : Symbol → List TpPlanRow → List TpPlanRow
deactivate_symbol symbol [] = []
deactivate_symbol symbol (row ∷ rows) =
    (if same_symbol row.symbol symbol && row.active then record row { active = false } else row)
    ∷ deactivate_symbol symbol rows

-- The row that an INSERT adds.
abbrev pub new_plan : ℕ → PlanRequest → TpPlanRow
new_plan id r = record {
  tp_plan_id = id;
  cycle_id = r.cycle_id;
  symbol = r.symbol;
  source_event = r.source_event;
  average_price = r.average_price;
  atr_pct = r.atr_pct;
  tp1_price = r.tp1_price;
  tp1_target_qty = r.tp1_target_qty;
  tp1_filled_qty = 0;
  tp2_price = r.tp2_price;
  tp2_target_qty = r.tp2_target_qty;
  tp2_filled_qty = 0;
  revision = 0;
  active = true;
}

-- The id that is returned is the table's `last_id`.
unfoldable pub create_tp_plan : PlanRequest → PlanTable → PlanTable
create_tp_plan request table = record {
  rows = new_plan (table.last_id + 1) request ∷ deactivate_symbol request.symbol table.rows;
  last_id = table.last_id + 1;
}

-- SELECT * FROM tp_plans WHERE symbol = ? AND active = 1 ORDER BY tp_plan_id DESC
unfoldable pub active_plans : Symbol → List TpPlanRow → List TpPlanRow
active_plans symbol [] = []
active_plans symbol (row ∷ rows) =
    if same_symbol row.symbol symbol && row.active
    then row ∷ active_plans symbol rows
    else active_plans symbol rows

-- LIMIT 1
abbrev pub first_plan : List TpPlanRow → Option TpPlanRow
first_plan [] = none
first_plan (row ∷ rows) = some row

abbrev pub active_tp_plan : Symbol → PlanTable → Option TpPlanRow
active_tp_plan symbol table = first_plan (active_plans symbol table.rows)

abbrev pub with_fills : TpLeg → ℕ → TpPlanRow → TpPlanRow
with_fills TpLeg.tp1 filled row = record row { tp1_filled_qty = filled }
with_fills TpLeg.tp2 filled row = record row { tp2_filled_qty = filled }

-- UPDATE tp_plans SET ... WHERE tp_plan_id = ?
unfoldable pub set_plan : ℕ → (TpPlanRow → TpPlanRow) → List TpPlanRow → List TpPlanRow
set_plan id change [] = []
set_plan id change (row ∷ rows) =
    (if row.tp_plan_id == id then change row else row) ∷ set_plan id change rows

abbrev pub update_tp_fills : ℕ → TpLeg → ℕ → PlanTable → PlanTable
update_tp_fills id leg filled table = record {
  rows = set_plan id (with_fills leg filled) table.rows;
  last_id = table.last_id;
}

abbrev pub closed_plan : TpPlanRow → TpPlanRow
closed_plan row = record row { active = false }

abbrev pub deactivate_tp_plan : ℕ → PlanTable → PlanTable
deactivate_tp_plan id table = record {
  rows = set_plan id closed_plan table.rows;
  last_id = table.last_id;
}

abbrev pub bumped_plan : TpPlanRow → TpPlanRow
bumped_plan row = if row.active then record row { revision = row.revision + 1 } else row

-- SELECT revision FROM tp_plans WHERE tp_plan_id = ? AND active = 1
unfoldable pub active_revision : ℕ → List TpPlanRow → Option ℕ
active_revision id [] = none
active_revision id (row ∷ rows) =
    if (row.tp_plan_id == id) && row.active then some row.revision else active_revision id rows

unfoldable pub bump_tp_revision : ℕ → PlanTable → Result (ℕ × PlanTable)
bump_tp_revision id table =
    let rows = set_plan id bumped_plan table.rows in
    require Error.missing_key (active_revision id rows) then λ revision.
    Result.ok (revision, record { rows = rows; last_id = table.last_id })
