-- ===== src/Commerce/Sandbox/Atomic.antt =====
-- What the methods of sandbox.py leave behind when they raise.
use rift_reliability_injecti.Prelude.{
  ◌+◌, String, ◌≡◌, ◌⊎◌, inl, inr, refl, Bool, not, ◌||◌, Option, none, some, string_eq, arith,
  subst, sym, Bool-cases,
}
use rift_reliability_injecti.Prelude.Result.{ok, err}
use rift_reliability_injecti.Prelude.Text.{strip, is_empty}
use rift_reliability_injecti.Commerce.Money.{Decimal, is_finite, is_nonpositive, is_below_cents}
use rift_reliability_injecti.Commerce.Models.{
  CommerceError, validation_error, invalid_idempotency_key, invalid_refund_amount, order_not_found,
}
use rift_reliability_injecti.Commerce.Repository.{
  Repository, RefundIdempotencyRecord, NotificationIdempotencyRecord,
}
use rift_reliability_injecti.Commerce.Sandbox.{
  validate_refund_amount, normalize_idempotency_key, known_refund, replay_refund, make_refund,
  replay_or_make, refund_payment, known_notification, replay_notification, make_notification,
  replay_or_notify, send_confirmation,
}

-- After an error the store is what it was, but that a refund refused by its model has spent its
-- number.
abbrev pub Spent : CommerceError → Repository → Repository → Type 0
Spent (validation_error m) r r' = r' ≡ record r { next_refund_number = r.next_refund_number + 1 }
Spent e r r' = r' ≡ r

abbrev IsSpending : CommerceError → Type 0
IsSpending (validation_error m) = Unit
IsSpending e = ⊥

make_refund-Spent :
    (accepts : Decimal → Bool) (payment_id : String) (amount : Decimal) (key : Option String)
    (r r' : Repository) (e : CommerceError)
    → make_refund accepts payment_id amount key r ≡ (err e, r')
    → Spent e r r'
unfolding make_refund
make_refund-Spent accepts payment_id amount key r r' e h = ground arith

replay_or_make-Spent :
    (accepts : Decimal → Bool) (payment_id : String) (amount : Decimal) (key : Option String)
    (known : Option (String × RefundIdempotencyRecord)) (r r' : Repository) (e : CommerceError)
    → replay_or_make accepts payment_id amount key known r ≡ (err e, r')
    → Spent e r r'
unfolding replay_or_make
replay_or_make-Spent accepts payment_id amount key none r r' e h =
    make_refund-Spent accepts payment_id amount key r r' e h
replay_or_make-Spent accepts payment_id amount key (some (k, x)) r r' e h =
    unfold replay_refund in ground arith

pub normalized :
    (key : Option String) (r : Repository)
    → (normalize_idempotency_key key r ≡ (err invalid_idempotency_key, r))
      ⊎ ((k : Option String) × (normalize_idempotency_key key r ≡ (ok k, r)))
unfolding normalize_idempotency_key
normalized none r = inr (none, refl)
normalized (some key) r = elim (Bool-cases (is_empty (strip key))) [
  | inl t ↦ inl (rw t)
  | inr f ↦ inr (some (strip key), rw f)
]

pub validated :
    (amount : Decimal) (r : Repository)
    → ((m : String) × (validate_refund_amount amount r ≡ (err (invalid_refund_amount m), r)))
      ⊎ (validate_refund_amount amount r ≡ (ok tt, r))
unfolding validate_refund_amount
validated amount r = elim (Bool-cases (not (is_finite amount) || is_nonpositive amount)) [
  | inl t ↦ inl ("refund amount must be a positive Decimal value", rw t)
  | inr f ↦ elim (Bool-cases (is_below_cents amount)) [
    | inl t ↦ inl ("refund amount cannot have more than two decimal places", rw (f, t))
    | inr g ↦ inr (rw (f, g))
  ]
]

not-Spending :
    (e x : CommerceError) (r s : Repository) → ¬ IsSpending x → x ≡ e → s ≡ r → Spent e r s
not-Spending (validation_error m) x r s n q h = absurd (n (subst IsSpending (sym q) tt))
not-Spending (order_not_found m) x r s n q h = h
not-Spending _ x r s n q h = h

-- A refund request that raises changes nothing but, on a validation error of the model, the number
-- of the next refund.
pub refund_payment-Spent :
    (accepts : Decimal → Bool) (payment_id : String) (amount : Decimal) (key : Option String)
    (r r' : Repository) (e : CommerceError)
    → refund_payment accepts payment_id amount key r ≡ (err e, r')
    → Spent e r r'
unfolding refund_payment
refund_payment-Spent accepts payment_id amount key r r' e h = elim (validated amount r) [
  | inl (m, bad) ↦
      let q = rw bad at h in not-Spending e (invalid_refund_amount m) r r' (λ n. n) (cc q) (cc q)
  | inr good ↦ elim (normalized key r) [
    | inl bad ↦
        let q = rw (good, bad) at h in
        not-Spending e invalid_idempotency_key r r' (λ n. n) (cc q) (cc q)
    | inr (k, fine) ↦
        replay_or_make-Spent accepts payment_id amount k (known_refund k r) r r' e
          (rw (good, fine) at h)
  ]
]

replay_or_notify-atomic :
    (order_id message : String) (key : Option String)
    (known : Option (String × NotificationIdempotencyRecord)) (r r' : Repository)
    (e : CommerceError)
    → replay_or_notify order_id message key known r ≡ (err e, r')
    → r' ≡ r
unfolding replay_or_notify
replay_or_notify-atomic order_id message key none r r' e h =
    unfold make_notification in ground arith
replay_or_notify-atomic order_id message key (some (k, x)) r r' e h =
    unfold replay_notification in ground arith

-- A confirmation request that raises leaves the store as it was.
pub send_confirmation-atomic :
    (order_id message : String) (key : Option String) (r r' : Repository) (e : CommerceError)
    → send_confirmation order_id message key r ≡ (err e, r')
    → r' ≡ r
unfolding send_confirmation
send_confirmation-atomic order_id message key r r' e h =
    elim (Bool-cases (is_empty (strip message))) [
      | inl t ↦ let q = rw t at h in cc q
      | inr f ↦ elim (normalized key r) [
        | inl bad ↦ let q = rw (f, bad) at h in cc q
        | inr (k, fine) ↦
            replay_or_notify-atomic order_id (strip message) k (known_notification k r) r r' e
              (rw (f, fine) at h)
      ]
    ]
