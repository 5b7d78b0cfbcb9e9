-- ===== src/Requests/Bound.antt =====
-- Which request is bound to which row, for `record_or_reuse` of execution/agent_requests.py.
use steam_cli.Prelude.{
  ℕ, ◌≤◌, Bool, true, String, str_eq, none, some, List, [], ◌∷◌, map, ◌≡◌, ◌≢◌, refl, ◌∙◌, arith,
  first, any, update_where, count_where, first-count_where, Bool-cases, inl, inr,
}
use steam_cli.Ledger.Table.{Row}
use steam_cli.Ledger.Intake.{nonce_lapsed, window_lapsed, expire, confirmable, authorize}
use steam_cli.Ledger.Transition.{has_id, still_in, move_row}
use steam_cli.Ledger.Reads.{bound_key}
use steam_cli.Ledger.Stable.{Stable}

-- The keys of the rows with their plan keys, in order.
abbrev pub bindings : List Row → List (ℕ × String)
bindings rows = map (λ (r : Row). (r.operation_id, r.plan_key)) rows

abbrev pub is_bound : String → List (ℕ × String) → Bool
is_bound key bound = any (λ b. str_eq b.1 key) bound

bindings-update_where :
    (test : Row → Bool) (change : Row → Row) (rows : List Row)
    → ((r : Row) → (change r).plan_key ≡ r.plan_key)
    → ((r : Row) → (change r).operation_id ≡ r.operation_id)
    → bindings (update_where test change rows) ≡ bindings rows
bindings-update_where test change [] same same_id = refl
bindings-update_where test change (r ∷ rs) same same_id =
    ground (arith, bindings-update_where test change rs same same_id, same r, same_id r)

-- No write but an INSERT changes which plan key stands under which key.
pub bindings-Stable : (bound : List (ℕ × String)) → Stable (λ _. ⊥) (λ s. bindings s.rows ≡ bound)
bindings-Stable bound = record {
  tick = λ s h. h;
  log = λ s e l h. h;
  rollback = λ before s b h. b;
  lapse_nonce = λ now s h.
      bindings-update_where (nonce_lapsed now) (expire now) s.rows (λ r. refl) (λ r. refl) ∙ h;
  lapse_window = λ now s h.
      bindings-update_where (window_lapsed now) (expire now) s.rows (λ r. refl) (λ r. refl) ∙ h;
  authorizes = λ nonce actor window now s h.
      bindings-update_where (confirmable nonce now) (authorize actor window now) s.rows (λ r. refl)
        (λ r. refl)
      ∙ h;
  moves = λ id from m now s legal h.
      bindings-update_where (still_in id from) (move_row m now) s.rows (λ r. refl) (λ r. refl) ∙ h;
  inserts = λ q nonce now s none_minted listed free fresh h. absurd none_minted;
}

pub first-of_key :
    (key : String) (rows : List Row)
    → is_bound key (bindings rows) ≡ true
    → first (bound_key key true) rows ≢ none
first-of_key key [] h e = cc
first-of_key key (r ∷ rs) h e = ground (arith, first-of_key key rs)

pub first-bound_key :
    (key : String) (rows : List Row)
    → first (λ (x : Row). str_eq x.plan_key key) rows ≡ first (bound_key key true) rows
first-bound_key key [] = refl
first-bound_key key (r ∷ rs) = ground (arith, first-bound_key key rs)

-- A row that is found by a test is found by its key, where no other row has it.
pub first-has_id :
    (p : Row → Bool) (rows : List Row) (r : Row)
    → first p rows ≡ some r
    → count_where (has_id r.operation_id) rows ≤ 1
    → first (has_id r.operation_id) rows ≡ some r
first-has_id p [] r h k = cc
first-has_id p (x ∷ xs) r h k = elim (Bool-cases (p x)) [
  | inl here ↦ ground (arith, h)
  | inr later ↦
      ground (arith, first-has_id p xs r, first-count_where p (has_id r.operation_id) xs {a = r})
]
