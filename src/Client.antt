-- ===== src/Client.antt =====
-- relay/src/relay/client.rs: the tunnel of one device. The connections are those of the router, through
-- `Operations`; the sources of packets that wait, which are such connections too, are seen through
-- `PacketSource`, with the state `W` that they share. Calls that change what mio watches are taken to succeed.
pub mod Push
pub mod Event
pub mod Interests
pub mod Round
pub mod Drain
pub mod Frames
pub mod Output
use harmony_os_reverse_tethe.Prelude.{
  ℕ, ◌+◌, ◌-◌, ◌*◌, ◌^◌, Bool, true, false, not, List, [], ◌∷◌, ◌++◌, length, drop, leb, ltb,
  Option, none, some, if◌then◌else◌, Outcome, ok, err, panic, ◌>>=◌, ◌>>◌, assert, subslice,
}
use harmony_os_reverse_tethe.ByteOrder.{ByteOrder}
use harmony_os_reverse_tethe.StreamBuffer
use harmony_os_reverse_tethe.StreamBuffer.{StreamBuffer, Sink}
use harmony_os_reverse_tethe.IpPacketBuffer
use harmony_os_reverse_tethe.IpPacketBuffer.{IpPacketBuffer}
use harmony_os_reverse_tethe.Router
use harmony_os_reverse_tethe.Router.{Operations, Router}
use harmony_os_reverse_tethe.Tcp.Flow.{Ready}
use harmony_os_reverse_tethe.Tcp.Event.{IoError, would_block, other}

-- relay/src/relay/ipv4_packet.rs
abbrev pub max_packet_length : ℕ
max_packet_length = 2 ^ 16

-- `ClientChannel`: what a connection may change of its client.
pub record ClientChannel : Type 0 where
  pub network_to_client : StreamBuffer
  pub interests : Ready

pub record Client (C Src : Type 0) : Type 0 where
  pub id : ℕ
  pub client_to_network : IpPacketBuffer
  pub channel : ClientChannel
  pub router : Router C
  pub closed : Bool
  pub pending_packet_sources : List Src
  -- how many bytes of the id are still to be sent
  pub pending_id_bytes : ℕ

unfoldable pub interests_of : ClientChannel → Ready
interests_of channel = record {
  readable = true;
  writable = not (StreamBuffer.is_empty channel.network_to_client);
}

unfoldable pub update_interests : ClientChannel → ClientChannel
unfolding interests_of
update_interests channel = record channel { interests = interests_of channel }

-- A packet of either version, in its serialized form.
unfoldable pub send_raw_to_client : ClientChannel → List ℕ → Outcome IoError ClientChannel
unfolding update_interests
send_raw_to_client channel raw =
    if leb (length raw) (StreamBuffer.remaining channel.network_to_client)
    then (StreamBuffer.read_from channel.network_to_client raw >>= λ b.
        ok (update_interests (record channel { network_to_client = b })))
    else err would_block

unfoldable pub create : {C Src : Type 0} → ℕ → Client C Src
create id = record {
  id = id;
  client_to_network = IpPacketBuffer.new;
  channel = record {
    network_to_client = StreamBuffer.new (16 * max_packet_length);
    interests = record { readable = false; writable = true };
  };
  router = Router.new;
  closed = false;
  pending_packet_sources = [];
  pending_id_bytes = 4;
}

module _ {C Src : Type 0} where
  unfoldable pub close : {E Ch : Type 0} → Operations E C Ch → Client C Src → Client C Src
  close operations client = record client {
    closed = true;
    router = (Router.clear operations client.router).0;
  }

  abbrev pub must_send_id : Client C Src → Bool
  must_send_id client = ltb 0 client.pending_id_bytes

  unfoldable pub send_id :
      ⦃order : ByteOrder⦄ → Client C Src → Sink IoError → Outcome IoError (Client C Src)
  send_id ⦃order⦄ client stream = do
    assert (must_send_id client)
    let raw_id = order.write_u32 client.id
    offered ← subslice raw_id (4 - client.pending_id_bytes) (length raw_id)
    w ← stream offered
    ok (record client { pending_id_bytes = client.pending_id_bytes - w })

  unfoldable pub register_pending_packet_source : Client C Src → Src → Client C Src
  register_pending_packet_source client source = record client {
    pending_packet_sources = client.pending_packet_sources ++ source ∷ [];
  }

  unfoldable pub clean_expired_connections :
      {E : Type 0} → Operations E C ClientChannel → Client C Src → Client C Src
  clean_expired_connections operations client =
      let cleaned = (Router.clean_expired_connections operations client.router client.channel).0 in
      record client { router = cleaned.0; channel = cleaned.1 }
