-- ===== src/Requests/Reuse.antt =====
-- A request ID is bound once: a request that is recorded, in whatever state, is never recorded anew.
use steam_cli.Prelude.{ℕ, true, String, List, ◌≡◌, refl}
use steam_cli.Exec.{Error, Result, ok, err, Exec, ◌>>=◌}
use steam_cli.Exec.Triple.{Triple, Triple-bind, Triple-after}
use steam_cli.Ledger.Table.{Ledger}
use steam_cli.Ledger.Intake.{expire_lapsed}
use steam_cli.Ledger.Reads.{find_request}
use steam_cli.Ledger.Invariant.{IsValid}
use steam_cli.Requests.Bound.{bindings, is_bound}
use steam_cli.Ledger.Expiry.{expire_lapsed-returns}
use steam_cli.Requests.Intent.{DirectRequest, Intent, intent}
use steam_cli.Requests.Intake.{Receipt, Surroundings, lift, record_or_reuse, reuse_or_record}
use steam_cli.Requests.Repeated.{
  IsReceiptOf, IsConflict, Answers, Same, Ready, Failed, Reused, expire_lapsed-Ready,
  find_request-Found, reuse_or_record-Reused,
}

lift_ok-bind : {A B : Type 0} (a : A) (f : A → Exec Ledger B) → (lift (ok a) >>= f) ≡ f a
unfolding ◌>>=◌
lift_ok-bind a f = refl

-- On a valid ledger that has a row under the request's ID, in any state and under any plan content, the
-- call adds no row and binds no key anew, whether it returns or raises. What it returns is the receipt
-- of that row: its key, its state after what has lapsed was expired, its detail, and its nonce while
-- it is pending; and then the plan, the account and the machine of the row are those of the request.
-- It raises only `LedgerError`, and only where one of those three is another.
pub recorded_request_reused :
    (clock : ℕ → ℕ) (w : Surroundings) (q : DirectRequest) (i : Intent) (s : Ledger)
    → IsValid s
    → intent w.encoding w.config q ≡ ok i
    → is_bound i.plan_key (bindings s.rows) ≡ true
    → (bindings (record_or_reuse clock w q s).1.rows ≡ bindings s.rows)
      × Answers i (record_or_reuse clock w q s).0 (record_or_reuse clock w q s).1
unfolding record_or_reuse
recorded_request_reused clock w q i s v e known =
    rw (e, lift_ok-bind)
      (
        Triple-after (Same i bound known) _ whole (λ r t h. h.1) (λ x t h. h.1) s (refl, v),
        answers _ _ (λ r h. (whole.returns s (refl, v) r h).0)
            (λ x h. (whole.raises s (refl, v) x h).0),
      )
  where
    bound : List (ℕ × String)
    bound = bindings s.rows

    answers :
        (o : Result Receipt) (t : Ledger)
        → ((r : Receipt) → o ≡ ok r → IsReceiptOf i r t)
        → ((x : Error) → o ≡ err x → IsConflict i x t)
        → Answers i o t
    answers (ok r) t f g = f r refl
    answers (err x) t f g = g x refl

    whole :
        Triple
          (Ready i bound known)
          (expire_lapsed clock >>= λ _. find_request i.plan_key i.plan_document true >>= λ existing.
            reuse_or_record clock w q i existing)
          (Reused i bound known)
          (Failed i bound known)
    whole =
        Triple-bind _ _
          (record {
            returns = λ t p u h. (expire_lapsed-Ready i bound known clock).at t p;
            raises = λ t p x h. absurd ((expire_lapsed-returns clock).raises t p.1 x h);
          })
          λ _.
            Triple-bind _ _ (find_request-Found i bound known)
              λ existing. reuse_or_record-Reused i bound known clock w q existing
