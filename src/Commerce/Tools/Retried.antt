-- ===== src/Commerce/Tools/Retried.antt =====
-- A refund that an agent asks for again under the same key, through the gateway (tools.py, sandbox.py,
-- gateway.py and executor.py together): whatever fault the first request meets, it is paid once.
use rift_reliability_injecti.Prelude.{
  ℕ, zero, suc, ◌+◌, ◌<◌, String, ◌≡◌, refl, ap, ◌∙◌, false, Bool, Option, none, some, arith,
  string_eq,
}
use rift_reliability_injecti.Prelude.Result.{ok, is_ok}
use rift_reliability_injecti.Prelude.Text.{strip, is_empty}
use rift_reliability_injecti.Core.Json.{JsonObject, JsonValue, text}
use rift_reliability_injecti.Core.Json.Equality.{get_key}
use rift_reliability_injecti.Commerce.Money.{Decimal}
use rift_reliability_injecti.Commerce.Models.{Refund}
use rift_reliability_injecti.Commerce.Repository.{Repository}
use rift_reliability_injecti.Commerce.Sandbox.{refund_payment}
use rift_reliability_injecti.Commerce.Sandbox.Replay.{refund_payment-replay}
use rift_reliability_injecti.Commerce.Tools.Dumps.{refund_json}
use rift_reliability_injecti.Commerce.Tools.{
  required_str, optional_str, decimal_arg, refund_arguments, refund_payment_tool, handler_of,
  build_tool_handlers,
}
use rift_reliability_injecti.Engine.Action.{Operation}
use rift_reliability_injecti.Engine.State.{next_number}
use rift_reliability_injecti.Engine.Execute.{matching_rule}
use rift_reliability_injecti.Engine.Execute.Evidence.{deliver}
use rift_reliability_injecti.Engine.Execute.Control.{deliveries_of}
use rift_reliability_injecti.Runner.Gateway.{Gateway, Session, success, call}
use rift_reliability_injecti.Runner.Gateway.Boundary.{
  IsSound, next_rule, call-shown, call-world, call-IsSound, next_rule-call,
}

-- An operation that its own success makes harmless: made again on the world `w'` that it left, it
-- answers `v` again and leaves `w'`.
pub record IsRepeatable {W : Type 0} (op : Operation W) (v : JsonValue) (w w' : W) : Type 0 where
  pub first : op w ≡ (ok v, w')
  pub again : op w' ≡ (ok v, w')

module _ {W : Type 0} (op : Operation W) (v : JsonValue) (w w' : W)
    (h : IsRepeatable op v w w') where
  settled : (n : ℕ) → deliver n op w' ≡ w'
  settled zero = refl
  settled (suc n) = rw h.again (settled n)

  -- However often it was delivered before, one more delivery answers `v` and leaves `w'`.
  delivered_again : (n : ℕ) → op (deliver n op w) ≡ (ok v, w')
  delivered_again zero = h.first
  delivered_again (suc n) = rw (h.first, settled n) h.again

-- The arguments of a refund request with a key.
pub record IsRefundRequest (parse : String → Option Decimal) (args : JsonObject) (id : String)
    (amount : Decimal) (key : String) : Type 0 where
  pub paying : get_key "payment_id" args ≡ some (text id)
  pub named : is_empty (strip id) ≡ false
  pub figure : String
  pub priced : get_key "amount" args ≡ some (text figure)
  pub parsed : parse figure ≡ some amount
  pub keyed : get_key "idempotency_key" args ≡ some (text key)

module _ (t : Decimal → String) (parse : String → Option Decimal) (quoted : String → String)
    (accepts : Decimal → Bool) where
  refund_arguments-read :
      (args : JsonObject) (id : String) (amount : Decimal) (key : String)
      → IsRefundRequest parse args id amount key
      → refund_arguments t parse quoted accepts args ≡ ok (id, amount, some key)
  unfolding required_str decimal_arg optional_str
  refund_arguments-read args id amount key q =
      rw (q.paying, q.named, q.priced, q.parsed, q.keyed) refl

  refund_tool-IsRepeatable :
      (args : JsonObject) (id : String) (amount : Decimal) (key : String) (r r' : Repository)
      (f : Refund)
      → IsRefundRequest parse args id amount key
      → refund_payment accepts id amount (some key) r ≡ (ok f, r')
      → IsRepeatable (refund_payment_tool t parse quoted accepts args) (refund_json t f) r r'
  refund_tool-IsRepeatable args id amount key r r' f q h = record {
    first = rw (refund_arguments-read args id amount key q, h) refl;
    again =
        rw
          (
            refund_arguments-read args id amount key q,
            refund_payment-replay accepts id amount key r r' f h,
          )
          refl;
  }

  -- Take a refund request with a key that the store would grant, and a gateway over the commerce tools
  -- with two calls left, a clock that does not run backwards, well-formed rules and balanced counts.
  -- The agent makes the request twice, and no rule aims at the second call. Whatever rule the first
  -- call meets, the second answers with the refund, and the store is the one that granting the
  -- request once leaves.
  pub refund_retried_once :
      (g : Gateway Repository) (args : JsonObject) (s : Session Repository) (id : String)
      (amount : Decimal) (key : String) (r' : Repository) (f : Refund)
      → g.handlers ≡ build_tool_handlers t parse quoted accepts
      → IsSound g s
      → s.calls + 1 < g.max_tool_calls
      → IsRefundRequest parse args id amount key
      → refund_payment accepts id amount (some key) s.running.world ≡ (ok f, r')
      → matching_rule g.fault_rules "refund_payment"
          (next_number s.running.executor g.execution_context "refund_payment" + 1)
          g.execution_context
        ≡ none
      → let again = call g "refund_payment" args (call g "refund_payment" args s).1 in
        (again.0 ≡ success "refund_payment" (refund_json t f)) × (again.1.running.world ≡ r')
  unfolding build_tool_handlers handler_of
  refund_retried_once g args s id amount key r' f e d room q h clear =
      let op = refund_payment_tool t parse quoted accepts args in
      let there : g.handlers "refund_payment" ≡ some (refund_payment_tool t parse quoted accepts) =
        ap (λ k. k "refund_payment") e in
      let plain =
        next_rule-call g "refund_payment" args s (refund_payment_tool t parse quoted accepts) d
          (omega (arith, room)) there
        ∙ clear in
      let s1 = (call g "refund_payment" args s).1 in
      let (d1, counted) = call-IsSound g "refund_payment" args s d (omega (arith, room)) in
      let left : s1.calls < g.max_tool_calls = omega (arith, counted, room) in
      let world =
        call-world g "refund_payment" args s (refund_payment_tool t parse quoted accepts)
          d.validated (omega (arith, room)) there in
      let n = deliveries_of (next_rule g "refund_payment" s) (is_ok (op s.running.world).0) in
      let same : op s1.running.world ≡ (ok (refund_json t f), r') =
        ap op world
        ∙ delivered_again op (refund_json t f) s.running.world r'
            (refund_tool-IsRepeatable args id amount key s.running.world r' f q h) n in
      (
        call-shown g "refund_payment" args s1 (refund_payment_tool t parse quoted accepts) d1 left
              there
            ∙ rw (plain, same) refl,
        call-world g "refund_payment" args s1 (refund_payment_tool t parse quoted accepts)
              d1.validated left there
            ∙ rw plain (ap (λ p. p.1) same),
      )
