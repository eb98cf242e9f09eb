-- ===== src/SelectClient/Received.antt =====
-- `SelectClient::processorRecv` handles the messages that are complete, and aborts at a length above
-- the maximum.
use select_mode_network.Base.{ℕ, ◌-◌, ◌≤◌, ◌<◌, ◌≡◌, Option, some, List, ◌++◌, lt→leb, length}
use select_mode_network.Base.Int.{ℤ}
use select_mode_network.Buffer.Data.{Bytes}
use select_mode_network.Protocol.{buffer_size}
use select_mode_network.Framing.Cuts.{Cuts, left, refused, stuck}
use select_mode_network.Framing.Handled.{
  recv_loop-left, recv_loop-refused, recv_loop-stuck, Cuts-left_front,
}
use select_mode_network.Framing.Loop.{handle_all}
use select_mode_network.ClientSocket.State.{Receiver}
use select_mode_network.ClientSocket.Received.{
  ReceiverValid, retained_by, arrived, move_data_to_front-Keeps,
}
use select_mode_network.SelectClient.State.{
  Result, aborted, starved, returned, processor_recv, receive, after_loop,
}

module _ {W : Type 0} (on_recv_msg : W → Bytes → W) where
  -- What a call that returns 0 has done.
  pub record Taken (w : W) (ms : List Bytes) (rest : Bytes) (result : Result (Receiver × W))
      : Type 0 where
    pub r' : Receiver
    pub returns : result ≡ returned (ℤ.pos 0) (r', handle_all on_recv_msg w ms)
    pub keeps : retained_by r' ≡ rest
    pub valid : ReceiverValid r'

  module _ (fuel : ℕ) (recv : ℕ → Option Bytes) (r : Receiver) (w : W) (bytes : Bytes)
      (v : ReceiverValid r) (got : recv (buffer_size - r.retain_size) ≡ some bytes)
      (some_bytes : 0 < length bytes) (fits : length bytes ≤ buffer_size - r.retain_size) where
    goes_on : processor_recv on_recv_msg fuel recv r w ≡ receive on_recv_msg fuel r bytes w
    unfolding processor_recv
    goes_on = rw (got, lt→leb (length bytes) 0 some_bytes, processor_recv)

    -- If the retained and the received bytes are cut into messages with a rest left over, the call
    -- returns 0, has handled these messages in order, retains the rest, and keeps the invariant.
    pub processor_recv-Taken :
        {ms : List Bytes} {rest : Bytes}
        → Cuts (retained_by r ++ bytes) ms (left rest)
        → length ms < fuel
        → Taken w ms rest (processor_recv on_recv_msg fuel recv r w)
    unfolding receive
    processor_recv-Taken {ms} {rest} cuts enough =
        let (unread, valid, size) = arrived r bytes v fits in
        let (o', runs, behind, valid') =
          recv_loop-left on_recv_msg _ cuts fuel _ w valid unread enough in
        let kept = move_data_to_front-Keeps _ o' rest valid' behind size (Cuts-left_front cuts) in
        record {
          r' = _;
          returns = rw (goes_on, receive, runs, after_loop);
          keeps = kept.same;
          valid = kept.valid;
        }

    -- If the bytes are cut into messages up to a length above the maximum, the call ends in a failed
    -- assertion.
    pub processor_recv-aborted :
        {ms : List Bytes}
        → Cuts (retained_by r ++ bytes) ms refused
        → length ms < fuel
        → processor_recv on_recv_msg fuel recv r w ≡ aborted
    unfolding receive
    processor_recv-aborted cuts enough =
        let (unread, valid, size) = arrived r bytes v fits in
        let (o', runs) = recv_loop-refused on_recv_msg _ cuts fuel _ w valid unread enough in
        rw (goes_on, receive, runs, after_loop)

    -- If the bytes are cut into messages up to one of length 0, the call does not return, whatever
    -- the fuel.
    pub processor_recv-starved :
        {ms : List Bytes}
        → Cuts (retained_by r ++ bytes) ms stuck
        → processor_recv on_recv_msg fuel recv r w ≡ starved
    unfolding receive
    processor_recv-starved cuts =
        let (unread, valid, size) = arrived r bytes v fits in
        let runs = recv_loop-stuck on_recv_msg _ fuel cuts _ w valid unread in
        rw (goes_on, receive, runs, after_loop)
