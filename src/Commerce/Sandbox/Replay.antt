-- ===== src/Commerce/Sandbox/Replay.antt =====
-- Repeated requests to the sandbox of sandbox.py: a key makes them harmless.
use rift_reliability_injecti.Prelude.{
  ◌+◌, String, ◌≡◌, ◌∙◌, sym, ap, refl, Bool, true, false, Option, none, some, ==-refl, string_eq,
  arith,
}
use rift_reliability_injecti.Prelude.Dict
use rift_reliability_injecti.Prelude.Result.{ok}
use rift_reliability_injecti.Prelude.Text.{strip, is_empty}
use rift_reliability_injecti.Commerce.Money.{
  Decimal, is_finite, is_nonpositive, is_below_cents, eq_decimal_refl,
}
use rift_reliability_injecti.Commerce.Models.{Refund, Payment}
use rift_reliability_injecti.Commerce.Repository.{Repository, RefundIdempotencyRecord, refund_id_of}
use rift_reliability_injecti.Commerce.Sandbox.{
  validate_refund_amount, normalize_idempotency_key, known_refund, replay_refund, make_refund,
  replay_or_make, refund_payment, refund_of, refunded_copy, remember_refund,
}

abbrev pub record_of : Refund → RefundIdempotencyRecord
record_of f = record { payment_id = f.payment_id; amount = f.amount; refund_id = f.refund_id }

abbrev pub refund_at : Repository → String → Decimal → Option String → Refund
refund_at r payment_id amount key =
    refund_of (refund_id_of r.next_refund_number) payment_id amount key

-- The store after a new refund of the payment `p`.
abbrev pub after_refund : Option String → Payment → Refund → Repository → Repository
after_refund key p f r = remember_refund key f (record r {
  next_refund_number = r.next_refund_number + 1;
  refunds = Dict.put r.refunds f.refund_id f;
  payments = Dict.put r.payments p.payment_id (refunded_copy p);
})

-- What a refund that was made came from.
pub make_refund-inv :
    (accepts : Decimal → Bool) (payment_id : String) (amount : Decimal) (key : Option String)
    (r r' : Repository) (f : Refund)
    → make_refund accepts payment_id amount key r ≡ (ok f, r')
    → (p : Payment) × (Dict.get r.payments payment_id ≡ some p)
      × (accepts amount ≡ true)
      × (f ≡ refund_at r payment_id amount key)
      × (r' ≡ after_refund key p (refund_at r payment_id amount key) r)
unfolding make_refund
make_refund-inv accepts payment_id amount key r r' f h = ground arith

-- A refund that is stored under its key.
pub record IsRemembered (key : String) (f : Refund) (r : Repository) : Type 0 where
  pub indexed : Dict.get r.refund_idempotency key ≡ some (record_of f)
  pub stored : Dict.get r.refunds f.refund_id ≡ some f

after_refund-IsRemembered :
    (key : String) (p : Payment) (f : Refund) (r : Repository)
    → IsRemembered key f (after_refund (some key) p f r)
after_refund-IsRemembered key p f r = record {
  indexed = simp (Dict.get-put, ==-refl);
  stored = simp (Dict.get-put, ==-refl);
}

-- A request with the key of a stored refund, for the same payment and amount, gets that refund.
replay_refund-IsRemembered :
    (key : String) (f : Refund) (r : Repository)
    → IsRemembered key f r
    → is_finite f.amount ≡ true
    → replay_refund f.payment_id f.amount key (record_of f) r ≡ (ok f, r)
unfolding replay_refund
replay_refund-IsRemembered key f r m h =
    rw (==-refl f.payment_id, eq_decimal_refl f.amount h, m.stored)

-- The checks that `refund_payment` makes before it looks at the store.
pub record IsRequest (amount : Decimal) (key : String) : Type 0 where
  pub is_number : is_finite amount ≡ true
  pub is_positive : is_nonpositive amount ≡ false
  pub in_cents : is_below_cents amount ≡ false
  pub keyed : is_empty (strip key) ≡ false

refund_payment-inv :
    (accepts : Decimal → Bool) (payment_id : String) (amount : Decimal) (key : String)
    (r r' : Repository) (f : Refund)
    → refund_payment accepts payment_id amount (some key) r ≡ (ok f, r')
    → IsRequest amount key
unfolding validate_refund_amount normalize_idempotency_key refund_payment
refund_payment-inv accepts payment_id amount key r r' f h = ground arith

refund_payment-step :
    (accepts : Decimal → Bool) (payment_id : String) (amount : Decimal) (key : String)
    (r : Repository)
    → IsRequest amount key
    → refund_payment accepts payment_id amount (some key) r
      ≡ replay_or_make accepts payment_id amount
          (some (strip key))
          (known_refund (some (strip key)) r)
          r
unfolding validate_refund_amount normalize_idempotency_key refund_payment
refund_payment-step accepts payment_id amount key r q =
    rw (q.is_number, q.is_positive, q.in_cents, q.keyed)

known_refund-IsRemembered :
    (key : String) (f : Refund) (r : Repository)
    → IsRemembered key f r
    → known_refund (some key) r ≡ some (key, record_of f)
known_refund-IsRemembered key f r m = ground (arith, m.indexed)

replay_or_make-replay :
    (accepts : Decimal → Bool) (payment_id : String) (amount : Decimal) (key : String)
    (known : Option (String × RefundIdempotencyRecord)) (r r' : Repository) (f : Refund)
    → is_finite amount ≡ true
    → known ≡ known_refund (some key) r
    → replay_or_make accepts payment_id amount (some key) known r ≡ (ok f, r')
    → replay_or_make accepts payment_id amount (some key) (known_refund (some key) r') r'
      ≡ (ok f, r')
unfolding replay_or_make
replay_or_make-replay accepts payment_id amount key (some (k, e)) r r' f q known h =
    let kept : r ≡ r' = unfold replay_refund in ground arith in
    rw (← kept) (rw (← known) (h ∙ ap (λ (x : Repository). (ok f, x)) (sym kept)))
replay_or_make-replay accepts payment_id amount key none r r' f q known h =
    let made = make_refund-inv accepts payment_id amount (some key) r r' f h in
    let g = refund_at r payment_id amount (some key) in
    let m = after_refund-IsRemembered key made.0 g r in
    rw (made.4, made.3)
      (rw (known_refund-IsRemembered key g (after_refund (some key) made.0 g r) m)
        (replay_refund-IsRemembered key g (after_refund (some key) made.0 g r) m q))

-- A refund request with a key that has succeeded once can be repeated: the same request to the
-- store that it left returns the same refund and leaves the store as it is.
pub refund_payment-replay :
    (accepts : Decimal → Bool) (payment_id : String) (amount : Decimal) (key : String)
    (r r' : Repository) (f : Refund)
    → refund_payment accepts payment_id amount (some key) r ≡ (ok f, r')
    → refund_payment accepts payment_id amount (some key) r' ≡ (ok f, r')
refund_payment-replay accepts payment_id amount key r r' f h =
    let q = refund_payment-inv accepts payment_id amount key r r' f h in
    refund_payment-step accepts payment_id amount key r' q
    ∙ replay_or_make-replay accepts payment_id amount (strip key)
        (known_refund (some (strip key)) r) r r' f q.is_number refl
        (sym (refund_payment-step accepts payment_id amount key r q) ∙ h)
