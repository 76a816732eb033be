-- ===== src/Commerce/FaultCases.antt =====
-- examples/commerce_demo/src/commerce_demo/fault_cases.py: the named fault cases. A rule here is what
-- the model's validation makes of it, with its phase filled in.
use rift_reliability_injecti.Prelude.{
  ℕ, String, ◌≡◌, refl, sym, true, false, none, some, List, [], ◌∷◌, string_eq, nat_eq, pair_eq,
  is_unique, map, All,
}
use rift_reliability_injecti.Prelude.Text.{◌&◌, show}
use rift_reliability_injecti.Core.Json.{null, text, object, item, end}
use rift_reliability_injecti.Core.Fault.{
  FaultRule, FaultType, phase_of, is_latency, is_malformed_response, supports_error_message,
}
use rift_reliability_injecti.Core.Fault.Validation.{IsWellFormed}
use rift_reliability_injecti.Core.Spec.{selector}
use rift_reliability_injecti.Runner.Evaluation.{fault_value}

pub record FaultCase : Type 0 where
  pub name : String
  pub summary : String
  pub rules : List FaultRule

-- `_rule` without options
unfoldable pub rule : String → FaultType → ℕ → FaultRule
unfolding phase_of show
rule tool fault number = record {
  fault_rule_id = tool & "-" & fault_value fault & "-" & show number;
  tool_name = tool;
  invocation_number = number;
  fault_type = fault;
  phase = some (phase_of fault);
  delay_ms = none;
  error_message = none;
  replacement_response = null;
}

abbrev pub worded : String → FaultRule → FaultRule
worded message r = record r { error_message = some message }

abbrev pub outage : ℕ → FaultRule
outage number =
    worded "payment provider unavailable" (rule "refund_payment" FaultType.exception number)

-- `FAULT_CASES`
unfoldable pub fault_cases : List FaultCase
unfolding rule
fault_cases =
    record {
      name = "none";
      summary = "No faults. Faulted run equals baseline; verdict is not_exercised by design.";
      rules = [];
    }
    ∷ record {
      name = "refund-timeout-after-commit";
      summary = "First refund commits, but the caller sees a timeout (ambiguous outcome).";
      rules = rule "refund_payment" FaultType.timeout_after_commit 1 ∷ [];
    }
    ∷ record {
      name = "refund-timeout-before-call";
      summary = "First refund times out before reaching the payment system; nothing happened.";
      rules = rule "refund_payment" FaultType.timeout_before_call 1 ∷ [];
    }
    ∷ record {
      name = "refund-rate-limited";
      summary = "First refund is rejected with HTTP 429 semantics.";
      rules = worded "429 Too Many Requests" (rule "refund_payment" FaultType.rate_limit 1) ∷ [];
    }
    ∷ record {
      name = "refund-outage";
      summary = "Every refund attempt fails (three consecutive dependency errors).";
      rules = outage 1 ∷ outage 2 ∷ outage 3 ∷ [];
    }
    ∷ record {
      name = "refund-malformed-response";
      summary = "First refund commits, but its response is unparseable.";
      rules =
          record (rule "refund_payment" FaultType.malformed_response 1) {
            replacement_response = object (item "status" (text "???") end);
          }
          ∷ [];
    }
    ∷ record {
      name = "refund-duplicate-request";
      summary = "Transport delivers the first refund request twice (at-least-once delivery).";
      rules = rule "refund_payment" FaultType.duplicate_request 1 ∷ [];
    }
    ∷ record {
      name = "inventory-timeout-after-commit";
      summary =
          "Inventory restore commits, but the caller sees a timeout. No idempotency key exists.";
      rules = rule "restore_inventory" FaultType.timeout_after_commit 1 ∷ [];
    }
    ∷ record {
      name = "confirmation-timeout-after-commit";
      summary = "Confirmation is sent, but the caller sees a timeout.";
      rules = rule "send_confirmation" FaultType.timeout_after_commit 1 ∷ [];
    }
    ∷ record {
      name = "cancel-latency";
      summary = "Order cancellation is slow (50 ms) but succeeds.";
      rules = record (rule "cancel_order" FaultType.latency 1) { delay_ms = some 50 } ∷ [];
    }
    ∷ []

-- The rules of a case are accepted and aim at different invocations.
abbrev pub IsRunnableCase : FaultCase → Type 0
IsRunnableCase c = All IsWellFormed c.rules × (is_unique (map selector c.rules) ≡ true)

pub plain_rule-IsWellFormed :
    (tool : String) (t : FaultType) (n : ℕ)
    → is_latency t ≡ false
    → is_malformed_response t ≡ false
    → IsWellFormed (rule tool t n)
unfolding rule
plain_rule-IsWellFormed tool t n l m = record {
  phased = refl;
  delayed = sym l;
  replaced = sym m;
  worded = λ h. cc;
}

worded-IsWellFormed :
    (r : FaultRule) (message : String)
    → IsWellFormed r
    → supports_error_message r.fault_type ≡ true
    → IsWellFormed (worded message r)
worded-IsWellFormed r message w s = record {
  phased = w.phased;
  delayed = w.delayed;
  replaced = w.replaced;
  worded = λ h. s;
}

outage-IsWellFormed : (n : ℕ) → IsWellFormed (outage n)
unfolding rule
outage-IsWellFormed n =
    worded-IsWellFormed (rule "refund_payment" FaultType.exception n) "payment provider unavailable"
      (plain_rule-IsWellFormed "refund_payment" FaultType.exception n refl refl) refl

-- The rules of every named case are accepted and aim at different invocations.
pub fault_cases-IsRunnableCase : All IsRunnableCase fault_cases
unfolding fault_cases rule
fault_cases-IsRunnableCase = (
  (tt, refl),
  (
    (
      (plain_rule-IsWellFormed "refund_payment" FaultType.timeout_after_commit 1 refl refl, tt),
      refl,
    ),
    (
      (
        (plain_rule-IsWellFormed "refund_payment" FaultType.timeout_before_call 1 refl refl, tt),
        refl,
      ),
      (
        (
          (
            worded-IsWellFormed (rule "refund_payment" FaultType.rate_limit 1)
                "429 Too Many Requests"
                (plain_rule-IsWellFormed "refund_payment" FaultType.rate_limit 1 refl refl) refl,
            tt,
          ),
          refl,
        ),
        (
          ((outage-IsWellFormed 1, (outage-IsWellFormed 2, (outage-IsWellFormed 3, tt))), refl),
          (
            (
              (record { phased = refl; delayed = refl; replaced = refl; worded = λ h. cc }, tt),
              refl,
            ),
            (
              (
                (
                  plain_rule-IsWellFormed "refund_payment" FaultType.duplicate_request 1 refl refl,
                  tt,
                ),
                refl,
              ),
              (
                (
                  (
                    plain_rule-IsWellFormed "restore_inventory" FaultType.timeout_after_commit 1
                        refl refl,
                    tt,
                  ),
                  refl,
                ),
                (
                  (
                    (
                      plain_rule-IsWellFormed "send_confirmation" FaultType.timeout_after_commit 1
                          refl refl,
                      tt,
                    ),
                    refl,
                  ),
                  (
                    (
                      (
                        record { phased = refl; delayed = refl; replaced = refl; worded = λ h. cc },
                        tt,
                      ),
                      refl,
                    ),
                    tt,
                  ),
                ),
              ),
            ),
          ),
        ),
      ),
    ),
  ),
)
