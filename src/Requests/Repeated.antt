-- ===== src/Requests/Repeated.antt =====
-- What the lookup of `record_or_reuse`, execution/agent_requests.py, finds of a request that is
-- recorded, and the receipt or the error that it makes of it.
use mathlib.Core.Path.{subst}
use steam_cli.Prelude.{
  ℕ, true, false, String, str_eq, eq_iff, Option, none, some, List, ◌≡◌, ◌≢◌, refl, sym, ap, ◌∙◌,
  arith, first, Bool-cases, inl, inr, ◌⊎◌,
}
use steam_cli.Exec.{Error, ledger_error, Result, ok, err}
use steam_cli.Exec.Fallible.{ok-injective}
use steam_cli.Exec.Keeps.{Keeps}
use steam_cli.Exec.Triple.{Triple, Triple-pure, Triple-gets, Triple-bind, Triple-unless}
use steam_cli.Ledger.State.{pending_confirmation, is_state, is_state_refl, is_state-eq}
use steam_cli.Ledger.Table.{Row, Ledger}
use steam_cli.Ledger.Intake.{expire_lapsed}
use steam_cli.Ledger.Transition.{LedgerOperation, to_operation, get}
use steam_cli.Ledger.Reads.{bound_key, nonce_if_pending, receipt, find_request}
use steam_cli.Ledger.Stable.Methods.{expire_lapsed-Keeps}
use steam_cli.Ledger.Invariant.{IsValid, IsValid-Stable}
use steam_cli.Ledger.Outcomes.{get-found}
use steam_cli.Requests.Bound.{
  bindings, is_bound, bindings-Stable, first-of_key, first-bound_key, first-has_id,
}
use steam_cli.Requests.Intent.{DirectRequest, Intent}
use steam_cli.Requests.Intake.{
  Receipt, Surroundings, bound_elsewhere, reused_receipt, reuse, reuse_or_record,
}

-- A receipt that says what the row under the plan key says, with the nonce of a pending one.
pub record IsReceiptOf (i : Intent) (r : Receipt) (s : Ledger) : Type 0 where
  pub reused : r.reused ≡ true
  pub row : Row
  pub found : first (λ (x : Row). str_eq x.plan_key i.plan_key) s.rows ≡ some row
  pub plan_document : row.plan_document ≡ i.plan_document
  pub account_alias : row.account_alias ≡ i.account_alias
  pub machine_id : row.machine_id ≡ i.machine_id
  pub operation_id : r.operation_id ≡ row.operation_id
  pub state : r.state ≡ row.state
  pub detail : r.detail ≡ row.detail
  pub pending : row.state ≡ pending_confirmation → r.nonce ≡ row.nonce
  pub settled : row.state ≢ pending_confirmation → r.nonce ≡ none

-- The error of a request whose ID is bound to another plan, account or machine.
pub record IsConflict (i : Intent) (e : Error) (s : Ledger) : Type 0 where
  pub error : e ≡ ledger_error
  pub row : Row
  pub found : first (λ (x : Row). str_eq x.plan_key i.plan_key) s.rows ≡ some row
  pub differs :
      (row.plan_document ≢ i.plan_document)
      ⊎ ((row.account_alias ≢ i.account_alias) ⊎ (row.machine_id ≢ i.machine_id))

-- What a caller gets: that receipt, or that error.
abbrev pub Answers : Intent → Result Receipt → Ledger → Type 0
Answers i (ok r) s = IsReceiptOf i r s
Answers i (err e) s = IsConflict i e s

differ-from : (s t : String) → str_eq s t ≡ false → s ≢ t
differ-from s t h e = ground (arith, (eq_iff s t).1 e)

module _ (i : Intent) (bound : List (ℕ × String)) (known : is_bound i.plan_key bound ≡ true) where
  abbrev pub Same : Ledger → Type 0
  Same s = bindings s.rows ≡ bound

  abbrev pub Ready : Ledger → Type 0
  Ready s = Same s × IsValid s

  -- What the lookup gives: a row of the plan.
  pub record IsRead (op : LedgerOperation) (nonce : Option String) (s : Ledger) : Type 0 where
    pub row : Row
    pub found : first (bound_key i.plan_key true) s.rows ≡ some row
    pub plan_document : row.plan_document ≡ i.plan_document
    pub same_operation : op ≡ to_operation row
    pub same_nonce : nonce ≡ nonce_if_pending row (to_operation row)

  abbrev pub Found : Option (LedgerOperation × Option String) → Ledger → Type 0
  Found none s = ⊥
  Found (some (op, nonce)) s = IsRead op nonce s × Same s

  abbrev pub Failed : Error → Ledger → Type 0
  Failed e s = IsConflict i e s × Same s

  abbrev pub Reused : Receipt → Ledger → Type 0
  Reused r s = IsReceiptOf i r s × Same s

  pub expire_lapsed-Ready : (clock : ℕ → ℕ) → Keeps Ready (expire_lapsed clock)
  expire_lapsed-Ready clock = record {
    at = λ s h. (
      (expire_lapsed-Keeps (bindings-Stable bound) clock).at s h.0,
      (expire_lapsed-Keeps IsValid-Stable clock).at s h.1,
    );
  }

  receipt-Found :
      (s : Ledger) (r : Row)
      → Ready s
      → first (bound_key i.plan_key true) s.rows ≡ some r
      → Triple (λ t. t ≡ s) (receipt i.plan_document (some r)) Found Failed
  receipt-Found s r ready h =
      Triple-unless _ _ _
        (λ t e other. subst (Failed ledger_error) (sym e) (elsewhere (ground arith), ready.0))
        λ same. Triple-bind {R = λ op t. (op ≡ to_operation r) × (t ≡ s)} _ _ (read_it) λ op.
          Triple-pure _ (λ t e. (
            subst (λ u. IsRead op (nonce_if_pending r op) u) (sym e.1)
                (record {
                  row = r;
                  found = h;
                  plan_document = (eq_iff r.plan_document i.plan_document).0 (ground arith);
                  same_operation = e.0;
                  same_nonce = ap (nonce_if_pending r) e.0;
                }),
            subst Same (sym e.1) ready.0,
          ))
    where
      elsewhere : str_eq r.plan_document i.plan_document ≡ false → IsConflict i ledger_error s
      elsewhere other = record {
        error = refl;
        row = r;
        found = first-bound_key i.plan_key s.rows ∙ h;
        differs = inl (differ-from r.plan_document i.plan_document other);
      }

      at_s : get r.operation_id s ≡ (ok (to_operation r), s)
      at_s = get-found r.operation_id s r ready.1 (
          first-has_id (bound_key i.plan_key true) s.rows r h
            (ready.1.rows_valid.one_id r.operation_id))

      at : (t : Ledger) → t ≡ s → get r.operation_id t ≡ (ok (to_operation r), t)
      at t e = subst (λ u. get r.operation_id u ≡ (ok (to_operation r), u)) (sym e) at_s

      read_it :
          Triple (λ t. t ≡ s) (get r.operation_id) (λ op t. (op ≡ to_operation r) × (t ≡ s)) Failed
      read_it = record {
        returns =
            λ t e op h. (ok-injective (sym h ∙ ap (λ a. a.0) (at t e)), ap (λ a. a.1) (at t e) ∙ e);
        raises = λ t e x h. cc (at t e);
      }

  pub find_request-Found : Triple Ready (find_request i.plan_key i.plan_document true) Found Failed
  unfolding find_request
  find_request-Found =
      Triple-bind {R = λ o s. (first (bound_key i.plan_key true) s.rows ≡ o) × Ready s} _ _
        (Triple-gets _ (λ s p. (refl, p))) found_or_not
    where
      found_or_not :
          (o : Option Row)
          → Triple
              (λ s. (first (bound_key i.plan_key true) s.rows ≡ o) × Ready s)
              (receipt i.plan_document o)
              Found
              Failed
      found_or_not none = record {
        returns = λ s p a h. absurd (missing s p.1 p.0);
        raises = λ s p x h. absurd (missing s p.1 p.0);
      }
        where
          missing : (s : Ledger) → Ready s → first (bound_key i.plan_key true) s.rows ≢ none
          missing s ready =
              first-of_key i.plan_key s.rows
                (subst (λ b. is_bound i.plan_key b ≡ true) (sym ready.0) known)
      found_or_not (some r) = record {
        returns = λ s p a h. (receipt-Found s r p.1 p.0).returns s refl a h;
        raises = λ s p x h. (receipt-Found s r p.1 p.0).raises s refl x h;
      }

  pub reuse_or_record-Reused :
      (clock : ℕ → ℕ) (w : Surroundings) (q : DirectRequest)
      (existing : Option (LedgerOperation × Option String))
      → Triple (Found existing) (reuse_or_record clock w q i existing) Reused Failed
  unfolding reuse
  reuse_or_record-Reused clock w q none = record {
    returns = λ s p a h. absurd p;
    raises = λ s p e h. absurd p;
  }
  reuse_or_record-Reused clock w q (some (op, token)) =
      Triple-unless _ _ _ (λ s p other. (bound_to_other op token s other p.0, p.1))
        λ here. Triple-pure _ (λ s p. (read_receipt op token s here p.0, p.1))
    where
      bound_to_other :
          (op : LedgerOperation) (token : Option String) (s : Ledger)
          → bound_elsewhere i op ≡ true
          → IsRead op token s
          → IsConflict i ledger_error s
      bound_to_other op token s other p = record {
        error = refl;
        row = p.row;
        found = first-bound_key i.plan_key s.rows ∙ p.found;
        differs = inr (which (Bool-cases (str_eq p.row.account_alias i.account_alias)));
      }
        where
          which :
              (str_eq p.row.account_alias i.account_alias ≡ true)
                ⊎ (str_eq p.row.account_alias i.account_alias ≡ false)
              → (p.row.account_alias ≢ i.account_alias) ⊎ (p.row.machine_id ≢ i.machine_id)
          which (inr away) = inl (differ-from p.row.account_alias i.account_alias away)
          which (inl here) = inr (
              differ-from p.row.machine_id i.machine_id
                (ground (arith, other, ap (bound_elsewhere i) p.same_operation)))

      read_receipt :
          (op : LedgerOperation) (nonce : Option String) (s : Ledger)
          → bound_elsewhere i op ≡ false
          → IsRead op nonce s
          → IsReceiptOf i (reused_receipt op nonce) s
      read_receipt op token s here p = record {
        reused = refl;
        row = p.row;
        found = first-bound_key i.plan_key s.rows ∙ p.found;
        plan_document = p.plan_document;
        account_alias = (eq_iff p.row.account_alias i.account_alias).0 (
            ground (
              arith,
              here,
              ap (λ (o : LedgerOperation). str_eq o.account_alias i.account_alias) p.same_operation,
            ));
        machine_id = (eq_iff p.row.machine_id i.machine_id).0 (
            ground (
              arith,
              here,
              ap (λ (o : LedgerOperation). str_eq o.machine_id i.machine_id) p.same_operation,
            ));
        operation_id = ap (λ (o : LedgerOperation). o.operation_id) p.same_operation;
        state = ap (λ (o : LedgerOperation). o.state) p.same_operation;
        detail = ap (λ (o : LedgerOperation). o.detail) p.same_operation;
        pending = λ e.
            ground (arith, ap (is_state p.row.state) e, is_state_refl p.row.state, p.same_nonce);
        settled = λ n. ground (arith, is_state-eq p.row.state pending_confirmation, p.same_nonce);
      }
