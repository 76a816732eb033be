-- ===== src/Engine/State.antt =====
-- packages/rift_fault_engine/src/rift_fault_engine/executor.py: the state of `_BaseToolExecutor`
-- and its two bookkeeping methods. The clock is what timing.py's `Clock` promises: two readings,
-- here the n-th of each, as natural numbers.
use rift_reliability_injecti.Prelude.{
  ℕ, suc, ◌+◌, ◌*◌, String, Bool, Option, none, some, or_else, List, [], ◌∷◌, ◌++◌, string_eq,
  nat_eq, pair_eq, select, ◌==◌,
}
use rift_reliability_injecti.Prelude.Dict
use rift_reliability_injecti.Prelude.Dict.{Dict}
use rift_reliability_injecti.Prelude.Int.{sub_ℕ}
use rift_reliability_injecti.Prelude.Result.{Result, ok, err}
use rift_reliability_injecti.Prelude.Text.{◌&◌, show}
use rift_reliability_injecti.Core.Json.{JsonValue, JsonObject}
use rift_reliability_injecti.Core.Fault.{FaultPhase, FaultRule, FaultType}
use rift_reliability_injecti.Core.Invocation.{ToolInvocation, validate_outcomes}
use rift_reliability_injecti.Core.Spec.{ExecutionContext}
use rift_reliability_injecti.Engine.Exceptions.{Exception, validation_error, key_error}

-- `Clock`: the wall clock and the monotonic clock at each reading.
pub record Clock : Type 0 where
  pub now : ℕ → ℕ
  pub monotonic : ℕ → ℕ

-- (experiment, run), (run key, tool) and (tool key, invocation number).
abbrev pub RunKey : Type 0
RunKey = String × String

abbrev pub ToolKey : Type 0
ToolKey = RunKey × String

abbrev pub EvidenceKey : Type 0
EvidenceKey = ToolKey × ℕ

-- The attributes of `_BaseToolExecutor`, with its recorder's list, the number of clock readings so
-- far, and the delays that the sleeper was asked for.
pub record Executor : Type 0 where
  pub invocation_counts : Dict ToolKey ℕ
  pub started : Dict RunKey ℕ
  pub completed : Dict RunKey ℕ
  pub start_evidence : Dict EvidenceKey (ℕ × ℕ)
  pub records : List ToolInvocation
  pub readings : ℕ
  pub sleeps : List ℕ

abbrev pub new_executor : Executor
new_executor = record {
  invocation_counts = Dict.empty;
  started = Dict.empty;
  completed = Dict.empty;
  start_evidence = Dict.empty;
  records = [];
  readings = 0;
  sleeps = [];
}

-- `invocations_for`
unfoldable pub invocations_for : Executor → ExecutionContext → List ToolInvocation
invocations_for x c = select (λ (i : ToolInvocation). i.run_id == c.run_id) x.records

abbrev pub run_key : ExecutionContext → RunKey
run_key c = (c.experiment_id, c.run_id)

abbrev pub tool_key : ExecutionContext → String → ToolKey
tool_key c tool = (run_key c, tool)

-- `d.get(key, 0)`
abbrev pub count_at : Dict RunKey ℕ → RunKey → ℕ
count_at d k = or_else (Dict.get d k) 0

abbrev pub next_number : Executor → ExecutionContext → String → ℕ
next_number x c tool = or_else (Dict.get x.invocation_counts (tool_key c tool)) 0 + 1

-- `_next_invocation_number`, with the state that it leaves
unfoldable pub next_invocation_number : String → ExecutionContext → Executor → ℕ × Executor
next_invocation_number tool c x =
    let number = next_number x c tool in
    let sequence = count_at x.started (run_key c) + 1 in
    (
      number,
      record x {
        invocation_counts = Dict.put x.invocation_counts (tool_key c tool) number;
        started = Dict.put x.started (run_key c) sequence;
        start_evidence =
            Dict.put x.start_evidence (tool_key c tool, number)
              (sequence, count_at x.completed (run_key c));
      },
    )

-- What one intercepted call is: the arguments that the executor's methods hand on.
pub record Call : Type 0 where
  pub tool_name : String
  pub arguments : JsonObject
  pub context : ExecutionContext
  pub invocation_number : ℕ

abbrev pub evidence_key : Call → EvidenceKey
evidence_key c = (tool_key c.context c.tool_name, c.invocation_number)

-- The two readings made when a call starts.
pub record Start : Type 0 where
  pub started_at : ℕ
  pub started_monotonic : ℕ

-- The keyword arguments of `_record` that say what happened.
pub record Observation : Type 0 where
  pub fault_rule : Option FaultRule
  pub executed : Bool
  pub committed : Option Bool
  pub execution_count : Option ℕ
  pub underlying_result : JsonValue
  pub underlying_error : Option String
  pub caller_response : JsonValue
  pub caller_error : Option String

-- `rule.field if rule is not None else None`
abbrev pub rule_id : Option FaultRule → Option String
rule_id none = none
rule_id (some r) = some r.fault_rule_id

abbrev pub rule_type : Option FaultRule → Option FaultType
rule_type none = none
rule_type (some r) = some r.fault_type

abbrev pub rule_phase : Option FaultRule → Option FaultPhase
rule_phase none = none
rule_phase (some r) = r.phase

-- f"{run_id}:{tool_name}:{invocation_number}"
unfoldable pub invocation_id : Call → String
invocation_id c = c.context.run_id & ":" & c.tool_name & ":" & show c.invocation_number

-- The dict that `_record` validates.
unfoldable pub build_invocation : Call → Start → Observation → ℕ → ℕ → ℕ × ℕ → ToolInvocation
build_invocation c s o finished_at finished_monotonic (sequence, before) = record {
  invocation_id = invocation_id c;
  run_id = c.context.run_id;
  tool_name = c.tool_name;
  invocation_number = c.invocation_number;
  sequence_number = some sequence;
  completed_before_start = some before;
  arguments = c.arguments;
  started_at = s.started_at;
  finished_at = finished_at;
  duration_ms = sub_ℕ (finished_monotonic * 1000) (s.started_monotonic * 1000);
  fault_rule_id = rule_id o.fault_rule;
  fault_type = rule_type o.fault_rule;
  fault_phase = rule_phase o.fault_rule;
  executed = o.executed;
  committed = o.committed;
  execution_count = o.execution_count;
  underlying_result = o.underlying_result;
  underlying_error = o.underlying_error;
  caller_response = o.caller_response;
  caller_error = o.caller_error;
}

-- Validation, and the two writes that follow it.
unfoldable pub commit_record :
    Call → Executor → Result String ToolInvocation → Result Exception ToolInvocation × Executor
commit_record c x (err e) = (err (validation_error e), x)
commit_record c x (ok i) = (
  ok i,
  record x {
    completed =
        Dict.put x.completed (run_key c.context) (count_at x.completed (run_key c.context) + 1);
    records = x.records ++ i ∷ [];
  },
)

-- The part of `_record` from the `pop` of the start evidence on; `t` is the readings' number. The key
-- that a failed `pop` names is left out.
unfoldable pub record_popped :
    Clock
    → Call
    → Start
    → Observation
    → ℕ
    → Option (ℕ × ℕ)
    → Executor
    → Result Exception ToolInvocation × Executor
unfolding build_invocation commit_record
record_popped k c s o t none x = (err (key_error "start_evidence"), x)
record_popped k c s o t (some evidence) x =
    commit_record c (record x { start_evidence = Dict.remove x.start_evidence (evidence_key c) })
      (validate_outcomes (build_invocation c s o (k.now t) (k.monotonic (suc t)) evidence))

-- `_record`
unfoldable pub record_invocation :
    Clock → Call → Start → Observation → Executor → Result Exception ToolInvocation × Executor
unfolding record_popped
record_invocation k c s o x =
    record_popped k c s o x.readings (Dict.get x.start_evidence (evidence_key c))
      (record x { readings = suc (suc x.readings) })
