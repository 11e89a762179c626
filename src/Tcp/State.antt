-- ===== src/Tcp/State.antt =====
-- `TcpState` and `Tcb` of relay/src/relay/tcp_connection.rs. A `Wrapping<u32>` is a number below 2 ^ 32,
-- and the sum of two is written with `% 2 ^ 32`.
use harmony_os_reverse_tethe.Prelude.{
  ℕ, ◌+◌, ◌-◌, ◌%◌, ◌^◌, Bool, false, not, ◌&&◌, ◌||◌, Option, none, leb, ◌==◌, if◌then◌else◌,
}

pub data TcpState : Type 0 where
  init syn_sent syn_received established close_wait last_ack closing fin_wait1 fin_wait2 : TcpState

-- The discriminant, which the derived `==` compares.
abbrev pub discriminant : TcpState → ℕ
discriminant init = 0
discriminant syn_sent = 1
discriminant syn_received = 2
discriminant established = 3
discriminant close_wait = 4
discriminant last_ack = 5
discriminant closing = 6
discriminant fin_wait1 = 7
discriminant fin_wait2 = 8

abbrev pub is : TcpState → TcpState → Bool
is s t = discriminant s == discriminant t

abbrev pub is_connected : TcpState → Bool
is_connected s = not (is s init) && (not (is s syn_sent) && not (is s syn_received))

abbrev pub is_closed : TcpState → Bool
is_closed s = is s fin_wait1 || (is s fin_wait2 || (is s closing || is s last_ack))

pub record Tcb : Type 0 where
  pub state : TcpState
  pub syn_sequence_number : ℕ
  pub sequence_number : ℕ
  pub acknowledgement_number : ℕ
  pub their_acknowledgement_number : ℕ
  pub fin_sequence_number : Option ℕ
  pub fin_received : Bool
  pub client_window : ℕ

abbrev pub new_tcb : Tcb
new_tcb = record {
  state = init;
  syn_sequence_number = 0;
  sequence_number = 0;
  acknowledgement_number = 0;
  their_acknowledgement_number = 0;
  fin_sequence_number = none;
  fin_received = false;
  client_window = 0;
}

-- The sum of two `Wrapping<u32>`.
abbrev pub add32 : ℕ → ℕ → ℕ
add32 a b = (a + b) % 2 ^ 32

unfoldable pub remaining_client_window : Tcb → ℕ
remaining_client_window tcb =
    let remaining =
      (add32 tcb.their_acknowledgement_number tcb.client_window + 2 ^ 32 - tcb.sequence_number)
      % 2 ^ 32 in
    if leb remaining tcb.client_window then remaining else 0
