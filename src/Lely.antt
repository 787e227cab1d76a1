-- ===== src/Lely.antt =====
-- Types of the Lely interface that the program names: NMT commands and states, SDO abort codes,
-- error codes. The library itself is not part of the repository; its answers are parameters.
use canopen_slave_tester.Prelude.{ℕ, ◌+◌, ◌≡◌, Bool, Option, arith, ◌==◌}

pub data NmtCommand : Type 0 where
  start stop enter_preop reset_node reset_comm : NmtCommand

-- `unlisted` stands for the other values of the underlying byte.
pub data NmtState : Type 0 where
  bootup stopped started preop : NmtState
  unlisted : ℕ → NmtState

pub data SdoErrc : Type 0 where
  timeout param_val no_obj pdo_len no_write general_error : SdoErrc
  other : ℕ → SdoErrc

-- An error that is set: whether its category is the SDO category, and its SDO abort code.
pub record ErrorCode : Type 0 where
  pub is_sdo : Bool
  pub sdo_errc : SdoErrc

-- A `std::error_code`: `none` is success.
abbrev pub Outcome : Type 0
Outcome = Option ErrorCode

abbrev pub state_code : NmtState → ℕ
state_code bootup = 0
state_code stopped = 1
state_code started = 2
state_code preop = 3
state_code (unlisted n) = n + 4

abbrev pub state_eq : NmtState → NmtState → Bool
state_eq a b = state_code a == state_code b

pub state_eq→≡ : (a b : NmtState) → state_eq a b ≡ Bool.true → a ≡ b
state_eq→≡ bootup b h = ground arith
state_eq→≡ stopped b h = ground arith
state_eq→≡ started b h = ground arith
state_eq→≡ preop b h = ground arith
state_eq→≡ (unlisted n) b h = ground arith

abbrev pub command_code : NmtCommand → ℕ
command_code start = 0
command_code stop = 1
command_code enter_preop = 2
command_code reset_node = 3
command_code reset_comm = 4

abbrev pub command_eq : NmtCommand → NmtCommand → Bool
command_eq a b = command_code a == command_code b

abbrev pub errc_code : SdoErrc → ℕ
errc_code timeout = 0
errc_code param_val = 1
errc_code no_obj = 2
errc_code pdo_len = 3
errc_code no_write = 4
errc_code general_error = 5
errc_code (other n) = n + 6

abbrev pub errc_eq : SdoErrc → SdoErrc → Bool
errc_eq a b = errc_code a == errc_code b

pub command_eq→≡ : (a b : NmtCommand) → command_eq a b ≡ Bool.true → a ≡ b
command_eq→≡ start b h = ground arith
command_eq→≡ stop b h = ground arith
command_eq→≡ enter_preop b h = ground arith
command_eq→≡ reset_node b h = ground arith
command_eq→≡ reset_comm b h = ground arith
