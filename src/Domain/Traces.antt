-- ===== src/Domain/Traces.antt =====
-- domain/entities.py: Project and ProductionTrace; domain/enums.py: TraceOrigin
use eval_ops.Prelude.{String, Bool, false, Option, none, some}
use eval_ops.Result.{Result, ok, domain_error, ◌>>◌, raise_if}
use eval_ops.Double.{Double, zero_f}
use eval_ops.Domain.Values.{Fields, require_non_empty, blank_when_set}

pub data TraceOrigin : Type 0 where
  production : TraceOrigin

pub record Project : Type 0 where
  pub name : String
  pub id : String

unfoldable pub new_project : Project → Result Project
unfolding require_non_empty
new_project p = do
  require_non_empty p.name "Project.name"
  require_non_empty p.id "Project.id"
  ok p

pub record ProductionTrace (W : Type 0) : Type 0 where
  pub project_id : String
  pub system_version_id : String
  pub input : String
  pub output : String
  pub reference_output : Option String
  pub metadata : Fields W
  pub latency_ms : Option W
  pub cost_usd : Option W
  pub error : Option String
  pub origin : TraceOrigin
  pub id : String

module _ {W : Type 0} ⦃d : Double W⦄ where
  -- `measure is not None and measure < 0`
  abbrev pub below_zero : Option W → Bool
  below_zero none = false
  below_zero (some measure) = d.lt measure zero_f

  unfoldable pub new_production_trace : ProductionTrace W → Result (ProductionTrace W)
  unfolding require_non_empty
  new_production_trace t = do
    require_non_empty t.project_id "ProductionTrace.project_id"
    require_non_empty t.system_version_id "ProductionTrace.system_version_id"
    require_non_empty t.input "ProductionTrace.input"
    require_non_empty t.id "ProductionTrace.id"
    raise_if (blank_when_set t.error)
        (domain_error "ProductionTrace.error must be non-blank when set")
    raise_if (below_zero t.latency_ms)
        (domain_error "ProductionTrace.latency_ms must be non-negative")
    raise_if (below_zero t.cost_usd) (domain_error "ProductionTrace.cost_usd must be non-negative")
    ok t
