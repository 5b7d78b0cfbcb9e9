-- ===== src/Ledger/History/Nonces.antt =====
-- Nonces are consumed once: what `confirm` accepted it never accepts again.
use steam_cli.Prelude.{
  ℕ, suc, ◌+◌, ◌≤◌, Bool, true, false, String, str_eq, some, List, [], ◌∷◌, ◌≡◌, refl, arith,
  select, update_where, All, All-append, All-update_where,
}
use steam_cli.Exec.{confirmation_rejected, ok, err, Exec, pure, ◌>>=◌, ◌>>◌}
use steam_cli.Ledger.State.{pending_confirmation, authorized, expired, is_state, allowed_facts}
use steam_cli.Ledger.Table.{
  Row, Ledger, close_transaction, update_returning, utcnow, add_event, is_text, is_after,
}
use steam_cli.Ledger.Intake.{
  nonce_lapsed, window_lapsed, expire, confirmable, authorize, or_reject, confirm,
}
use steam_cli.Ledger.Transition.{move_row, still_in}
use steam_cli.Ledger.Stable.{Stable}
use steam_cli.Ledger.Stable.Methods.{confirm-Keeps}
use steam_cli.Ledger.Invariant.{IsValid, IsValid-Stable}
use steam_cli.Ledger.Outcomes.{transaction-eq, ticked}
use steam_cli.Ledger.History.{Call, Mints, history, history-Stable, history-IsValid}

-- No row accepts the nonce at the time `t` or later.
abbrev RowIsSpent : String → ℕ → Row → Type 0
RowIsSpent nonce t r =
    is_text r.nonce nonce ≡ true
    → is_state r.state pending_confirmation ≡ true
    → is_after r.nonce_expires_at t ≡ false

record IsSpent (clock : ℕ → ℕ) (nonce : String) (k : ℕ) (s : Ledger) : Type 0 where
  reads_grew : k ≤ s.reads
  each : All (RowIsSpent nonce (clock k)) s.rows

expired_not_pending : is_state expired pending_confirmation ≡ false
unfolding is_state
expired_not_pending = refl

-- `confirm` leaves the accepted rows without a nonce, and the others had lapsed.
authorize-spent :
    (nonce actor : String) (window now : ℕ) (rows : List Row)
    → All
        (RowIsSpent nonce now)
        (update_where (confirmable nonce now) (authorize actor window now) rows)
authorize-spent nonce actor window now [] = tt
authorize-spent nonce actor window now (r ∷ rs) =
    (λ u p. ground arith, authorize-spent nonce actor window now rs)

-- A spent nonce selects no row.
spent_selects_none :
    (nonce : String) (t now : ℕ) (rows : List Row)
    → t ≤ now
    → All (RowIsSpent nonce t) rows
    → select (confirmable nonce now) rows ≡ []
spent_selects_none nonce t now [] le h = refl
spent_selects_none nonce t now (r ∷ rs) le h =
    ground (arith, spent_selects_none nonce t now rs le h.1, h.0)

spent_update :
    (nonce : String) (t : ℕ) (test : Row → Bool) (change : Row → Row) (rows : List Row)
    → ((r : Row) → test r ≡ true → RowIsSpent nonce t r → RowIsSpent nonce t (change r))
    → All (RowIsSpent nonce t) rows
    → All (RowIsSpent nonce t) (update_where test change rows)
spent_update nonce t test change rows keep h = All-update_where _ test change keep rows h

IsSpent-Stable :
    (clock : ℕ → ℕ) (nonce : String) (k : ℕ)
    → Stable (λ m. str_eq m nonce ≡ false) (IsSpent clock nonce k)
IsSpent-Stable clock nonce k = record {
  tick = λ s h. record { reads_grew = ground arith; each = h.each };
  log = λ s e l h. record { reads_grew = h.reads_grew; each = h.each };
  rollback = λ before s b h. record { reads_grew = h.reads_grew; each = b.each };
  lapse_nonce = λ now s h. record {
    reads_grew = h.reads_grew;
    each =
        spent_update nonce (clock k) (nonce_lapsed now) (expire now) s.rows
          (λ r t e u p. ground (arith, expired_not_pending)) h.each;
  };
  lapse_window = λ now s h. record {
    reads_grew = h.reads_grew;
    each =
        spent_update nonce (clock k) (window_lapsed now) (expire now) s.rows
          (λ r t e u p. ground (arith, expired_not_pending)) h.each;
  };
  authorizes = λ other actor window now s h. record {
    reads_grew = h.reads_grew;
    each =
        spent_update nonce (clock k) (confirmable other now) (authorize actor window now) s.rows
          (λ r t e u p. ground arith) h.each;
  };
  moves = λ id from m now s legal h. record {
    reads_grew = h.reads_grew;
    each =
        spent_update nonce (clock k) (still_in id from) (move_row m now) s.rows
          (λ r t e u p. ground (arith, allowed_facts from m.to_state)) h.each;
  };
  inserts = λ q minted now s mint listed free fresh h. record {
    reads_grew = h.reads_grew;
    each = All-append (RowIsSpent nonce (clock k)) s.rows _ h.each (λ u p. ground arith, tt);
  };
}

module _ (clock : ℕ → ℕ) (nonce actor : String) (seconds : ℕ) (s : Ledger) (v : IsValid s) where
  abbrev body : Exec Ledger ℕ
  body = do
    matched ←
        update_returning (confirmable nonce (clock s.reads))
          (authorize actor (clock s.reads + seconds) (clock s.reads))
    id ← or_reject matched
    add_event clock id (some pending_confirmation) authorized (some actor)
    pure id

  -- `confirm` on a valid ledger.
  confirm-eq :
      confirm clock nonce actor seconds s
      ≡ close_transaction
          (record s { reads = suc s.reads })
          (body (record s { reads = suc s.reads }))
  unfolding confirm utcnow ◌>>=◌
  confirm-eq = transaction-eq body (record s { reads = suc s.reads }) (ticked s v)

  none_matched :
      select (confirmable nonce (clock s.reads)) s.rows ≡ []
      → (close_transaction
          (record s { reads = suc s.reads })
          (body (record s { reads = suc s.reads }))).0
        ≡ err confirmation_rejected
  unfolding close_transaction update_returning ◌>>=◌
  none_matched e = rw e refl

  confirm_spends :
      {id : ℕ}
      → (confirm clock nonce actor seconds s).0 ≡ ok id
      → IsSpent clock nonce s.reads (confirm clock nonce actor seconds s).1
  confirm_spends {id} h =
      rw confirm-eq
        (go (select (confirmable nonce (clock s.reads)) s.rows) refl (rw confirm-eq at h))
    where
      go :
          (found : List Row)
          → select (confirmable nonce (clock s.reads)) s.rows ≡ found
          → (close_transaction
              (record s { reads = suc s.reads })
              (body (record s { reads = suc s.reads }))).0
            ≡ ok id
          → IsSpent clock nonce s.reads
              (close_transaction
                (record s { reads = suc s.reads })
                (body (record s { reads = suc s.reads }))).1
      go [] e k = cc (none_matched e)
      go (r ∷ rs) e k =
          unfold close_transaction update_returning add_event utcnow ◌>>=◌ in
          rw e (record {
            reads_grew = omega arith;
            each = authorize-spent nonce actor (clock s.reads + seconds) (clock s.reads) s.rows;
          })

  -- A spent nonce is rejected at any later reading of the clock.
  confirm_rejects :
      (k : ℕ)
      → clock k ≤ clock s.reads
      → IsSpent clock nonce k s
      → (confirm clock nonce actor seconds s).0 ≡ err confirmation_rejected
  confirm_rejects k later h =
      rw confirm-eq
        (none_matched (spent_selects_none nonce (clock k) (clock s.reads) s.rows later h.each))

-- After `confirm` accepted a nonce on a valid ledger, it rejects the nonce ever after: whatever calls
-- come between, as long as no request brings that nonce anew and the clock does not run backwards.
pub confirm_once :
    (clock : ℕ → ℕ) (nonce actor actor' : String) (seconds seconds' : ℕ) (calls : List Call)
    (s : Ledger) {id : ℕ}
    → ((i j : ℕ) → i ≤ j → clock i ≤ clock j)
    → IsValid s
    → Mints (λ m. str_eq m nonce ≡ false) calls
    → (confirm clock nonce actor seconds s).0 ≡ ok id
    → (confirm clock nonce actor' seconds'
        (history clock calls (confirm clock nonce actor seconds s).1)).0
      ≡ err confirmation_rejected
confirm_once clock nonce actor actor' seconds seconds' calls s mono v mints h =
    let v' = (confirm-Keeps IsValid-Stable clock nonce actor seconds).at s v in
    let spent =
      history-Stable clock (IsSpent-Stable clock nonce s.reads) calls _ mints
        (confirm_spends clock nonce actor seconds s v h) in
    confirm_rejects clock nonce actor' seconds' _ (history-IsValid clock calls _ v') s.reads
      (mono _ _ spent.reads_grew) spent
