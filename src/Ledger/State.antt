-- ===== src/Ledger/State.antt =====
-- The operation states and operation kinds of execution/ledger.py, the terminal states and the
-- transition table.
use steam_cli.Prelude.{ℕ, Bool, true, false, ◌&&◌, String, str_eq, eq_iff, ◌==◌, ◌≡◌, arith}

-- The text of a `state` column: `other` is any text that is none of the declared states.
pub data State : Type 0 where
  pending_confirmation authorized dispatch_pending lease_acquired client_stopping : State
  content_running adopting client_restart_pending verifying interrupted : State
  confirmed unconfirmed contradicted aborted failed expired dispatched : State
  other : String → State

-- The text of an `operation` column.
pub data Operation : Type 0 where
  install verify launch stop : Operation
  unlisted : String → Operation

rank : State → ℕ
rank pending_confirmation = 0
rank authorized = 1
rank dispatch_pending = 2
rank lease_acquired = 3
rank client_stopping = 4
rank content_running = 5
rank adopting = 6
rank client_restart_pending = 7
rank verifying = 8
rank interrupted = 9
rank confirmed = 10
rank unconfirmed = 11
rank contradicted = 12
rank aborted = 13
rank failed = 14
rank expired = 15
rank dispatched = 16
rank (other _) = 17

unlisted_text : State → String
unlisted_text (other s) = s
unlisted_text pending_confirmation = ""
unlisted_text _ = ""

-- Equality of two state texts.
unfoldable pub is_state : State → State → Bool
unfolding rank unlisted_text
is_state a b = rank a == rank b && str_eq (unlisted_text a) (unlisted_text b)

pub is_state_refl : (a : State) → is_state a a ≡ true
unfolding is_state
is_state_refl (other s) = ground (arith, eq_iff s s)
is_state_refl confirmed = ground arith
is_state_refl _ = ground arith

pub is_state-eq : (a b : State) → is_state a b ≡ true → a ≡ b
unfolding is_state
is_state-eq (other s) (other t) h = ground (arith, eq_iff s t)
is_state-eq (other s) b h = ground arith
is_state-eq confirmed b h = ground arith
is_state-eq _ b h = ground arith

-- `_SUPPORTED_STATES`
unfoldable pub supported_state : State → Bool
supported_state (other _) = false
supported_state pending_confirmation = true
supported_state _ = true

-- `_SUPPORTED_OPERATIONS`
unfoldable pub supported_operation : Operation → Bool
supported_operation (unlisted _) = false
supported_operation install = true
supported_operation _ = true

-- `TERMINAL_STATES`
unfoldable pub is_terminal : State → Bool
is_terminal confirmed = true
is_terminal unconfirmed = true
is_terminal contradicted = true
is_terminal aborted = true
is_terminal failed = true
is_terminal expired = true
is_terminal dispatched = true
is_terminal authorized = false
is_terminal _ = false

-- `_TRANSITIONS`: whether the second state is listed under the first.
unfoldable pub allowed : State → State → Bool
allowed pending_confirmation authorized = true
allowed pending_confirmation expired = true
allowed pending_confirmation aborted = true
allowed authorized lease_acquired = true
allowed authorized dispatch_pending = true
allowed authorized expired = true
allowed authorized aborted = true
allowed dispatch_pending dispatched = true
allowed dispatch_pending unconfirmed = true
allowed lease_acquired client_stopping = true
allowed lease_acquired aborted = true
allowed lease_acquired interrupted = true
allowed client_stopping content_running = true
allowed client_stopping aborted = true
allowed client_stopping interrupted = true
allowed content_running adopting = true
allowed content_running failed = true
allowed content_running interrupted = true
allowed content_running aborted = true
allowed adopting client_restart_pending = true
allowed adopting interrupted = true
allowed adopting failed = true
allowed client_restart_pending verifying = true
allowed client_restart_pending interrupted = true
allowed verifying confirmed = true
allowed verifying unconfirmed = true
allowed verifying contradicted = true
allowed interrupted content_running = true
allowed interrupted adopting = true
allowed interrupted verifying = true
allowed interrupted failed = true
allowed interrupted aborted = true
allowed _ _ = false

-- No terminal state has a listed successor.
pub terminal_absorbs : (a b : State) → is_terminal a ≡ true → allowed a b ≡ false
unfolding is_terminal allowed
terminal_absorbs confirmed b h = ground arith
terminal_absorbs _ b h = ground arith

-- What a listed successor is and is not.
pub allowed_facts :
    (a b : State)
    → allowed a b ≡ true
    → (is_terminal a ≡ false)
      × (supported_state b ≡ true)
      × (is_state b pending_confirmation ≡ false)
      × (is_state a expired ≡ false)
unfolding allowed is_terminal supported_state is_state
allowed_facts pending_confirmation b h = ground arith
allowed_facts _ b h = ground arith

operation_rank : Operation → ℕ
operation_rank install = 0
operation_rank verify = 1
operation_rank launch = 2
operation_rank stop = 3
operation_rank (unlisted _) = 4

operation_text : Operation → String
operation_text (unlisted s) = s
operation_text install = ""
operation_text _ = ""

-- Equality of two operation texts.
unfoldable pub is_operation : Operation → Operation → Bool
unfolding operation_rank operation_text
is_operation a b =
    operation_rank a == operation_rank b && str_eq (operation_text a) (operation_text b)

pub is_operation_refl : (a : Operation) → is_operation a a ≡ true
unfolding is_operation
is_operation_refl (unlisted s) = ground (arith, eq_iff s s)
is_operation_refl install = ground arith
is_operation_refl _ = ground arith

pub is_operation-eq : (a b : Operation) → is_operation a b ≡ true → a ≡ b
unfolding is_operation
is_operation-eq (unlisted s) (unlisted t) h = ground (arith, eq_iff s t)
is_operation-eq (unlisted s) b h = ground arith
is_operation-eq install b h = ground arith
is_operation-eq _ b h = ground arith
