-- ===== src/Executor/Dispatch/Invariant.antt =====
-- The invariant behind `_launch` of execution/executor.py: an operation whose launch was sent has a
-- row that has left `authorized` for good.
use steam_cli.Prelude.{
  ℕ, ◌≤◌, Bool, true, false, Option, none, some, List, [], ◌∷◌, ◌++◌, ◌≡◌, refl, arith, ltb, ◌==◌,
  first, first-update_where, first-append, count_where, count_where-append, update_where,
}
use steam_cli.Ledger.State.{
  State, dispatch_pending, dispatched, unconfirmed, pending_confirmation, authorized, is_state,
  is_state-eq, allowed,
}
use steam_cli.Ledger.Table.{Row, Ledger}
use steam_cli.Ledger.Transition.{has_id}
use steam_cli.Ledger.Stable.{Stable}
use steam_cli.Ledger.Invariant.{IsValid, IsValid-Stable}
use steam_cli.Executor.World.{Effect, launch_sent, content_started, adoption_started, Machine}

-- The states from which no listed move leads back to `authorized` and that a launch passes through.
abbrev pub is_beyond : State → Bool
is_beyond dispatch_pending = true
is_beyond dispatched = true
is_beyond unconfirmed = true
is_beyond pending_confirmation = false
is_beyond _ = false

abbrev pub row_beyond : Option Row → Bool
row_beyond none = false
row_beyond (some r) = is_beyond r.state

abbrev pub is_committed : ℕ → Ledger → Bool
is_committed id s = row_beyond (first (has_id id) s.rows)

abbrev pub is_launch : ℕ → Effect → Bool
is_launch i (launch_sent j) = i == j
is_launch i (content_started j) = false
is_launch i (adoption_started j) = false

-- How often a launch was sent for an operation.
abbrev pub launches : ℕ → List Effect → ℕ
launches i effects = count_where (is_launch i) effects

pub launches-quiet :
    (i : ℕ) (e : Effect) (x : List Effect)
    → is_launch i e ≡ false
    → launches i (x ++ e ∷ []) ≡ launches i x
launches-quiet i e x off = ground (arith, count_where-append (is_launch i) x (e ∷ []))

beyond_moves : (a b : State) → is_beyond a ≡ true → allowed a b ≡ true → is_beyond b ≡ true
unfolding allowed
beyond_moves dispatch_pending b h l = ground arith
beyond_moves a b h l = ground arith

beyond_facts :
    (a : State)
    → is_beyond a ≡ true
    → (is_state a pending_confirmation ≡ false) × (is_state a authorized ≡ false)
unfolding is_state
beyond_facts dispatch_pending h = ground arith
beyond_facts a h = ground arith

touched :
    (i : ℕ) (test : Row → Bool) (change : Row → Row) (rows : List Row)
    → ((x : Row) → has_id i (change x) ≡ has_id i x)
    → ((r : Row) → is_beyond r.state ≡ true → test r ≡ true → is_beyond (change r).state ≡ true)
    → row_beyond (first (has_id i) rows) ≡ true
    → row_beyond (first (has_id i) (update_where test change rows)) ≡ true
touched i test change rows same keep h = go (first (has_id i) rows) refl h
  where
    go :
        (o : Option Row)
        → first (has_id i) rows ≡ o
        → row_beyond o ≡ true
        → row_beyond (first (has_id i) (update_where test change rows)) ≡ true
    go none e k = cc
    go (some r) e k =
        rw (first-update_where (has_id i) test change rows same e) (ground (arith, keep r))

appended :
    (i : ℕ) (rows more : List Row)
    → row_beyond (first (has_id i) rows) ≡ true
    → row_beyond (first (has_id i) (rows ++ more)) ≡ true
appended i rows more h = go (first (has_id i) rows) refl h
  where
    go :
        (o : Option Row)
        → first (has_id i) rows ≡ o
        → row_beyond o ≡ true
        → row_beyond (first (has_id i) (rows ++ more)) ≡ true
    go none e k = cc
    go (some r) e k = rw (first-append (has_id i) rows more e) k

is_committed-Stable : (i : ℕ) → Stable (λ _. Unit) (λ s. is_committed i s ≡ true)
is_committed-Stable i = record {
  tick = λ s h. h;
  log = λ s e l h. h;
  rollback = λ before s b h. b;
  lapse_nonce =
      λ now s h. touched i _ _ s.rows (λ x. refl) (λ r b t. ground (arith, beyond_facts r.state)) h;
  lapse_window =
      λ now s h. touched i _ _ s.rows (λ x. refl) (λ r b t. ground (arith, beyond_facts r.state)) h;
  authorizes = λ nonce actor window now s h.
      touched i _ _ s.rows (λ x. refl) (λ r b t. ground (arith, beyond_facts r.state)) h;
  moves = λ id from m now s legal h.
      touched i _ _ s.rows (λ x. refl)
        (λ r b t. ground (arith, is_state-eq r.state from, beyond_moves r.state m.to_state)) h;
  inserts = λ q nonce now s _ listed free fresh h. appended i s.rows _ h;
}

-- A valid ledger, in which the row is committed if its launch was sent.
pub record Settled (i : ℕ) (sent : Bool) (s : Ledger) : Type 0 where
  pub valid : IsValid s
  pub committed : sent ≡ true → is_committed i s ≡ true

pub Settled-Stable : (i : ℕ) (sent : Bool) → Stable (λ _. Unit) (Settled i sent)
Settled-Stable i sent =
    let v = IsValid-Stable in
    let c = is_committed-Stable i in
    record {
      tick = λ s h. record { valid = v.tick s h.valid; committed = h.committed };
      log = λ s e l h. record { valid = v.log s e l h.valid; committed = h.committed };
      rollback = λ before s b h. record {
        valid = v.rollback before s b.valid h.valid;
        committed = b.committed;
      };
      lapse_nonce = λ now s h. record {
        valid = v.lapse_nonce now s h.valid;
        committed = λ t. c.lapse_nonce now s (h.committed t);
      };
      lapse_window = λ now s h. record {
        valid = v.lapse_window now s h.valid;
        committed = λ t. c.lapse_window now s (h.committed t);
      };
      authorizes = λ nonce actor window now s h. record {
        valid = v.authorizes nonce actor window now s h.valid;
        committed = λ t. c.authorizes nonce actor window now s (h.committed t);
      };
      moves = λ id from m now s legal h. record {
        valid = v.moves id from m now s legal h.valid;
        committed = λ t. c.moves id from m now s legal (h.committed t);
      };
      inserts = λ q nonce now s u listed free fresh h. record {
        valid = v.inserts q nonce now s u listed free fresh h.valid;
        committed = λ t. c.inserts q nonce now s u listed free fresh (h.committed t);
      };
    }

pub record AtMostOnce {S : Type 0} (i : ℕ) (x : Machine S) : Type 0 where
  pub once : launches i x.effects ≤ 1
  pub settled : Settled i (ltb 0 (launches i x.effects)) x.ledger
