-- ===== src/Client.antt =====
-- `client_t` of server_src/client_handler.h, and the memory that holds the clients.
use tmwmf_sem_ups.Base.{
  ℕ, Bool, false, Option, none, some, List, ◌==◌, if◌then◌else◌, ℤ, negsuc, pos, ◌≡◌, ◌≢◌, arith,
}
use tmwmf_sem_ups.Protocol.{ClientState}

-- Times are seconds; a text is the list of its bytes. `room` is the address of a `room_t`, or NULL.
pub record Client : Type 0 where
  pub socket_fd : ℤ
  pub nickname : List ℕ
  pub state : ClientState
  pub last_activity : ℕ
  pub invalid_message_count : ℕ
  pub client_id : ℕ
  pub room : Option ℕ
  pub is_disconnected : Bool
  pub disconnect_time : ℕ
  pub waiting_for_pong : Bool
  pub last_ping_time : ℕ
  pub last_pong_time : ℕ

-- What stands at each address. The content at an address that is not allocated is arbitrary, as in
-- C.
abbrev pub Memory {ℓ} : Type ℓ → Type ℓ
Memory A = ℕ → A

-- `*p = v`
abbrev pub store {ℓ} : {A : Type ℓ} → Memory A → ℕ → A → Memory A
store m p v q = if p == q then v else m q

-- `socket_fd == -1`
abbrev pub is_closed : ℤ → Bool
is_closed (pos _) = false
is_closed (negsuc n) = n == 0

pub store_self {ℓ} : {A : Type ℓ} (m : Memory A) (p : ℕ) (v : A) → store m p v p ≡ v
store_self m p v = ground arith

pub store_ne {ℓ} : {A : Type ℓ} (m : Memory A) (p q : ℕ) (v : A) → p ≢ q → store m p v q ≡ m q
store_ne m p q v h = ground arith

-- `client->nickname`, which has no value where the pointer is NULL.
abbrev pub nickname_at : Memory Client → Option ℕ → Option (List ℕ)
nickname_at mem none = none
nickname_at mem (some c) = some (mem c).nickname
