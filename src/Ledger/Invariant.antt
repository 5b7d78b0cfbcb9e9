-- ===== src/Ledger/Invariant.antt =====
-- What holds of the tables between two calls, and what one statement does to it.
use steam_cli.Prelude.{
  ℕ, ◌≤◌, Bool, true, false, String, eq_iff, List, [], ◌∷◌, ◌++◌, ◌≡◌, refl, arith, any,
  count_where, update_where, All, count_where-append, count_where-update_where, any-count_where,
  All-append, All-update_where, is_some,
}
use steam_cli.Ledger.State.{
  State, pending_confirmation, expired, is_state, is_state-eq, is_terminal, allowed, allowed_facts,
  supported_state, supported_operation,
}
use steam_cli.Ledger.Table.{Row, Ledger, row_supported, active_on, unexpired_key, next_id}
use steam_cli.Ledger.Intake.{
  Request, nonce_lapsed, window_lapsed, expire, confirmable, authorize, new_row,
}
use steam_cli.Ledger.Transition.{Move, has_id, move_row, still_in}
use steam_cli.Ledger.Stable.{Stable}

-- Every row is one that the broker's version can read, and a row that waits for its confirmation
-- has a nonce that lapses.
abbrev pub RowIsValid : Row → Type 0
RowIsValid r =
    (row_supported r ≡ true)
    × (is_state r.state pending_confirmation ≡ true → is_some r.nonce_expires_at ≡ true)

pub record RowsAreValid (rows : List Row) : Type 0 where
  pub one_id : (i : ℕ) → count_where (has_id i) rows ≤ 1
  pub one_active : (machine : String) → count_where (active_on machine) rows ≤ 1
  pub one_key : (key : String) → count_where (unexpired_key key) rows ≤ 1
  pub each : All RowIsValid rows

pub record IsValid (s : Ledger) : Type 0 where
  pub version : s.user_version ≡ 0
  pub rows_valid : RowsAreValid s.rows

-- What an UPDATE must do to each row that it touches.
pub record Harmless (test : Row → Bool) (change : Row → Row) : Type 0 where
  pub same_id : (r : Row) → (change r).operation_id ≡ r.operation_id
  pub no_new_active :
      (machine : String) (r : Row)
      → test r ≡ true
      → active_on machine (change r) ≡ true
      → active_on machine r ≡ true
  pub no_new_key :
      (key : String) (r : Row)
      → test r ≡ true
      → unexpired_key key (change r) ≡ true
      → unexpired_key key r ≡ true
  pub keeps_row : (r : Row) → test r ≡ true → RowIsValid r → RowIsValid (change r)

-- No such UPDATE can break a unique index.
pub update-RowsAreValid :
    (test : Row → Bool) (change : Row → Row) (rows : List Row)
    → Harmless test change
    → RowsAreValid rows
    → RowsAreValid (update_where test change rows)
update-RowsAreValid test change rows h v = record {
  one_id = λ i. omega (
    arith,
    v.one_id i,
    count_where-update_where (has_id i) test change rows (λ r _ e. rw (← h.same_id r) e),
  );
  one_active = λ m. omega (
    arith,
    v.one_active m,
    count_where-update_where (active_on m) test change rows (h.no_new_active m),
  );
  one_key = λ k. omega (
    arith,
    v.one_key k,
    count_where-update_where (unexpired_key k) test change rows (h.no_new_key k),
  );
  each = All-update_where RowIsValid test change h.keeps_row rows v.each;
}

-- The key that SQLite picks is above every key in use.
pub next_id-lt : (rows : List Row) (k : ℕ) → next_id rows ≤ k → count_where (has_id k) rows ≡ 0
unfolding next_id
next_id-lt [] k h = refl
next_id-lt (r ∷ rs) k h = ground (arith, next_id-lt rs k)

module _ (r : Row) (rows : List Row) where
  abbrev keyed : Row
  keyed = record r { operation_id = next_id rows }

  -- An INSERT that passes the two index checks.
  pub insert-RowsAreValid :
      any (active_on r.machine_id) rows ≡ false
      → any (unexpired_key r.plan_key) rows ≡ false
      → RowIsValid r
      → RowsAreValid rows
      → RowsAreValid (rows ++ keyed ∷ [])
  insert-RowsAreValid free fresh rv v = record {
    one_id = λ i.
        rw (count_where-append (has_id i) rows (keyed ∷ []))
          (ground (arith, v.one_id i, next_id-lt rows i));
    one_active = λ m. rw (count_where-append (active_on m) rows (keyed ∷ [])) (
        ground (
          arith,
          v.one_active m,
          any-count_where (active_on r.machine_id) rows,
          eq_iff r.machine_id m,
        ));
    one_key = λ k. rw (count_where-append (unexpired_key k) rows (keyed ∷ [])) (
        ground (
          arith,
          v.one_key k,
          any-count_where (unexpired_key r.plan_key) rows,
          eq_iff r.plan_key k,
        ));
    each = All-append RowIsValid rows (keyed ∷ []) v.each (rv, tt);
  }

nonce_lapsed-Harmless : (now : ℕ) → Harmless (nonce_lapsed now) (expire now)
nonce_lapsed-Harmless now = record {
  same_id = λ r. refl;
  no_new_active = λ m r t a. unfold is_terminal in ground (arith);
  no_new_key = λ k r t a. unfold is_state in ground (arith);
  keeps_row = λ r t v. unfold supported_state is_state in ground arith;
}

window_lapsed-Harmless : (now : ℕ) → Harmless (window_lapsed now) (expire now)
window_lapsed-Harmless now = record {
  same_id = λ r. refl;
  no_new_active = λ m r t a. unfold is_terminal in ground (arith);
  no_new_key = λ k r t a. unfold is_state in ground (arith);
  keeps_row = λ r t v. unfold supported_state is_state in ground arith;
}

pending_not_expired : is_state pending_confirmation expired ≡ false
unfolding is_state
pending_not_expired = refl

confirmable-Harmless :
    (nonce actor : String) (window now : ℕ)
    → Harmless (confirmable nonce now) (authorize actor window now)
confirmable-Harmless nonce actor window now = record {
  same_id = λ r. refl;
  no_new_active =
      λ m r t a. unfold is_terminal in ground (arith, is_state-eq r.state pending_confirmation);
  no_new_key =
      λ k r t a. ground (arith, is_state-eq r.state pending_confirmation, pending_not_expired);
  keeps_row = λ r t v. unfold supported_state is_state in ground arith;
}

move-Harmless :
    (id : ℕ) (from : State) (m : Move) (now : ℕ)
    → allowed from m.to_state ≡ true
    → Harmless (still_in id from) (move_row m now)
move-Harmless id from m now h = record {
  same_id = λ r. refl;
  no_new_active =
      λ mach r t a. ground (arith, allowed_facts from m.to_state, is_state-eq r.state from);
  no_new_key = λ k r t a. ground (arith, allowed_facts from m.to_state, is_state-eq r.state from);
  keeps_row = λ r t v. ground (arith, allowed_facts from m.to_state, is_state-eq r.state from);
}

new_row-RowIsValid :
    (q : Request) (nonce : String) (now : ℕ)
    → supported_operation q.operation ≡ true
    → RowIsValid (new_row q nonce now)
unfolding supported_state
new_row-RowIsValid q nonce now listed = (listed, λ _. refl)

-- One of the writes of the methods after another, the tables stay valid.
pub IsValid-Stable : Stable (λ _. Unit) IsValid
IsValid-Stable = record {
  tick = λ s v. record { version = v.version; rows_valid = v.rows_valid };
  log = λ s e l v. record { version = v.version; rows_valid = v.rows_valid };
  rollback = λ before s b v. record { version = b.version; rows_valid = b.rows_valid };
  lapse_nonce = λ now s v. record {
    version = v.version;
    rows_valid = update-RowsAreValid _ _ s.rows (nonce_lapsed-Harmless now) v.rows_valid;
  };
  lapse_window = λ now s v. record {
    version = v.version;
    rows_valid = update-RowsAreValid _ _ s.rows (window_lapsed-Harmless now) v.rows_valid;
  };
  authorizes = λ nonce actor window now s v. record {
    version = v.version;
    rows_valid =
        update-RowsAreValid _ _ s.rows (confirmable-Harmless nonce actor window now) v.rows_valid;
  };
  moves = λ id from m now s legal v. record {
    version = v.version;
    rows_valid = update-RowsAreValid _ _ s.rows (move-Harmless id from m now legal) v.rows_valid;
  };
  inserts = λ q nonce now s _ listed free fresh v. record {
    version = v.version;
    rows_valid =
        insert-RowsAreValid (new_row q nonce now) s.rows free fresh
          (new_row-RowIsValid q nonce now listed) v.rows_valid;
  };
}
