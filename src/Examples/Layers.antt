-- ===== src/Examples/Layers.antt =====
-- The theorems about the queues, the codecs and the redundancy layer at concrete values.
use mathlib.Core.List.Perm
use librasta.Base.{
  bytes_eq, ◌++◌, ℕ, ◌+◌, ◌-◌, ◌≡◌, refl, not, ◌&&◌, ◌==◌, if◌then◌else◌, true, false, some, List,
  [], ◌∷◌, ◌/◌, drop, length, replicate, le_short_to_host, arith,
}
use librasta.Packet.{
  RastaPacket, RastaError, RastaRedundancyPacket, no_error, package_length_invalid,
}
use librasta.Packet.Codec.{
  decoded, overread, checksum_len, bytes_to_rasta_packet, rasta_module_to_bytes, decode_error,
}
use librasta.Packet.Roundtrip.{sealed}
use librasta.Packet.Robustness.{decode_in_bounds, decode-overreads, short_then_zeros}
use librasta.Packet.RedundancyCodec.{
  RedundancyDecoded, rasta_redundancy_packet_to_bytes, bytes_to_rasta_redundancy_packet,
}
use librasta.Packet.RedundancyRoundtrip.{resealed, redundancy_roundtrip}
use librasta.Factory.{Header, create_data_message, extract_message_data}
use librasta.Factory.Messages.{messages_on_wire}
use librasta.Fifo.{fifo_destroy}
use librasta.Fifo.Laws.{push, pop, run, run_list, run-refines, fifo_destroy_leaks}
use librasta.DeferQueue.{
  DeferQueue, IsDeferQueue, deferqueue_add, deferqueue_remove, deferqueue_isfull,
}
use librasta.DeferQueue.Sort.{Rearranges}
use librasta.DeferQueue.Multiset.{queued, queued-add, queued-remove}
use librasta.Connection.{Connection}
use librasta.Sr.Receive.{sr_receive}
use librasta.Redundancy.{
  accept_packet, receive_packet, receive_from, red_f_deliver_defer_queue, deliver_packet,
}
use librasta.Redundancy.Deliver.{Outcome, deliver_defer_queue-Delivery}
use librasta.Redundancy.Accept.{takes, accept-queued}
use librasta.Redundancy.Frames.{AllFrames, concat, receive_frames, receive_packet-frames}
use librasta.Redundancy.Ends.{receive_from-short}
use librasta.Redundancy.Reseal.{deliver_packet-sealed}
use Prim.Native.Nat.{min}
use librasta.Examples.{
  counting_env, length_hashing, length_crc, empty_queue, up_connection, small_channel, data_packet,
}

-- Leaving an array as it is rearranges it.
counting-Rearranges : Rearranges counting_env.qsort
counting-Rearranges = record { rearranges = λ cmp ws. Perm.refl ws }

abbrev outer_packet : ℕ → RastaRedundancyPacket
outer_packet n = record {
  length = 48;
  reserve = 0;
  sequence_number = n;
  inner = data_packet;
  checksum_correct = true;
}

-- The numbers 0 and 1 wait in the queue.
abbrev two_waiting : DeferQueue
two_waiting = record {
  elements =
      record { packet = outer_packet 0; received_timestamp = 1 }
      ∷ record { packet = outer_packet 1; received_timestamp = 2 }
      ∷ [];
  count = 2;
  max_count = 2;
}

abbrev waiting_channel : Connection
waiting_channel = record up_connection { channel = record small_channel { defer_q = two_waiting } }

deliver_example :
    Outcome counting_env counting-Rearranges waiting_channel
      (red_f_deliver_defer_queue counting_env waiting_channel)
deliver_example =
    deliver_defer_queue-Delivery counting_env counting-Rearranges waiting_channel (omega arith)
      (omega arith)

accept_example :
    (queued (accept_packet counting_env (outer_packet 0) 0 up_connection).0.channel.defer_q 0
      ≡ queued up_connection.channel.defer_q 0
        + (if takes up_connection (outer_packet 0) && ((outer_packet 0).sequence_number == 0)
            then 1
            else 0))
    × ((accept_packet counting_env (outer_packet 0) 0 up_connection).0.channel.seq_rx
        ≡ up_connection.channel.seq_rx)
accept_example =
    accept-queued counting_env counting-Rearranges up_connection (outer_packet 0) 0 0 (omega arith)

redundancy_example :
    (bytes : List ℕ) × (rasta_redundancy_packet_to_bytes length_hashing length_crc no_error
        (outer_packet 0)
      ≡ (no_error, some bytes))
    × ((last : RastaError) (stale : RastaPacket)
        → bytes_to_rasta_redundancy_packet length_hashing length_crc last stale bytes
          ≡ (last, RedundancyDecoded.decoded (resealed length_hashing (outer_packet 0))))
redundancy_example =
    redundancy_roundtrip length_hashing length_crc (outer_packet 0)
      (record { digest_length = λ bytes. refl })
      (record {
        inner_valid = omega arith;
        length_exact = refl;
        length_fits = omega arith;
        reserve_fits = omega arith;
        sequence_fits = omega arith;
        code_fits = omega arith;
      })

abbrev small_header : Header
small_header = record {
  receiver_id = 1;
  sender_id = 2;
  sequence_number = 3;
  confirmed_sequence_number = 4;
  timestamp = 5;
  confirmed_timestamp = 6;
}

messages_example :
    (p : RastaPacket) × (bytes : List ℕ) × (q : RastaPacket) × (create_data_message length_hashing
        small_header
        ((1 ∷ []) ∷ (2 ∷ 3 ∷ []) ∷ [])
      ≡ some p)
    × (rasta_module_to_bytes length_hashing no_error p ≡ (no_error, some bytes))
    × (bytes_to_rasta_packet length_hashing bytes ≡ decoded q)
    × (q.checksum_correct ≡ true)
    × (q.sequence_number ≡ small_header.sequence_number)
    × (extract_message_data q ≡ some ((1 ∷ []) ∷ (2 ∷ 3 ∷ []) ∷ []))
messages_example =
    messages_on_wire length_hashing small_header ((1 ∷ []) ∷ (2 ∷ 3 ∷ []) ∷ [])
      (record { digest_length = λ bytes. refl }) (omega arith) (omega arith)

frames_example :
    receive_packet counting_env (concat ((3 ∷ 0 ∷ 9 ∷ []) ∷ (2 ∷ 0 ∷ []) ∷ [])) 5 0 up_connection
    ≡ some (receive_frames counting_env ((3 ∷ 0 ∷ 9 ∷ []) ∷ (2 ∷ 0 ∷ []) ∷ []) 0 0 up_connection)
unfolding AllFrames
frames_example =
    receive_packet-frames counting_env ((3 ∷ 0 ∷ 9 ∷ []) ∷ (2 ∷ 0 ∷ []) ∷ [])
      (
        record { header = omega arith; framed = refl },
        (record { header = omega arith; framed = refl }, tt),
      )
      0 up_connection (omega arith)

short_frame_example :
    receive_from counting_env 3 (0 ∷ 0 ∷ 1 ∷ []) 3 0 0 0 up_connection
    ≡ some (record up_connection { fault = true }, 0)
short_frame_example =
    receive_from-short counting_env 2 (0 ∷ 0 ∷ 1 ∷ []) 3 0 0 0 up_connection (omega arith)
      (omega arith) (omega arith)

reseal_example :
    deliver_packet counting_env (record data_packet { checksum_correct = false }) up_connection
    ≡ sr_receive counting_env up_connection
        (sealed length_hashing (record data_packet { checksum_correct = false }))
reseal_example =
    deliver_packet-sealed counting_env up_connection
      (record data_packet { checksum_correct = false }) (record { digest_length = λ bytes. refl })
      (omega arith) refl

run_example :
    run {A = ℕ} (push 1 ∷ push 2 ∷ pop ∷ []) (record { elements = []; size = 0; max_size = 1 })
    ≡ run_list {A = ℕ} 1 (push 1 ∷ push 2 ∷ pop ∷ []) []
run_example =
    run-refines (push 1 ∷ push 2 ∷ pop ∷ []) (record { elements = []; size = 0; max_size = 1 })
      (omega arith)

leak_example :
    (fifo_destroy {A = ℕ} (record { elements = 1 ∷ 2 ∷ []; size = 2; max_size = 4 })).elements
    ≡ drop ((2 + 1) / 2) (1 ∷ 2 ∷ [])
leak_example =
    fifo_destroy_leaks (record { elements = 1 ∷ 2 ∷ []; size = 2; max_size = 4 }) (omega arith)

add_example :
    ((deferqueue_add counting_env.qsort empty_queue (outer_packet 3) 9).0
      ≡ not (deferqueue_isfull empty_queue))
    × (queued (deferqueue_add counting_env.qsort empty_queue (outer_packet 3) 9).1 3
        ≡ queued empty_queue 3
          + (if not (deferqueue_isfull empty_queue) && ((outer_packet 3).sequence_number == 3)
              then 1
              else 0))
    × IsDeferQueue (deferqueue_add counting_env.qsort empty_queue (outer_packet 3) 9).1
add_example =
    queued-add counting_env.qsort counting-Rearranges empty_queue (outer_packet 3) 9 3 (omega arith)

remove_example :
    (queued (deferqueue_remove counting_env.qsort two_waiting 0) 1
      ≡ queued two_waiting 1 - (if 0 == 1 then 1 else 0))
    × ((deferqueue_remove counting_env.qsort two_waiting 0).count
        ≡ two_waiting.count - min 1 (queued two_waiting 0))
    × IsDeferQueue (deferqueue_remove counting_env.qsort two_waiting 0)
remove_example = queued-remove counting_env.qsort counting-Rearranges two_waiting 0 1 (omega arith)

-- Forty bytes whose length field is 38, and one whose length field is 300.
abbrev forty_bytes : ℕ → ℕ → List ℕ
forty_bytes low high = low ∷ high ∷ replicate 38 0

bounds_example :
    (p : RastaPacket) × (fields : List ℕ) × (rest : List ℕ) × (bytes_to_rasta_packet length_hashing
        (forty_bytes 38 0)
      ≡ decoded p)
    × (forty_bytes 38 0 ≡ fields ++ (p.payload ++ (p.checksum ++ rest)))
    × (length fields ≡ 28)
    × (length p.checksum ≡ checksum_len length_hashing)
    × (p.length ≡ 28 + length p.payload + checksum_len length_hashing)
    × (p.length ≡ le_short_to_host (forty_bytes 38 0) 0)
    × (p.checksum_correct ≡ bytes_eq (length_hashing.digest (fields ++ p.payload)) p.checksum)
bounds_example =
    decode_in_bounds length_hashing (forty_bytes 38 0) (omega arith) (omega arith) (omega arith)

overread_example : bytes_to_rasta_packet length_hashing (forty_bytes 44 1) ≡ overread
overread_example = decode-overreads length_hashing (forty_bytes 44 1) (omega arith) (omega arith)

zeros_example :
    rasta_module_to_bytes length_hashing
      (decode_error no_error (bytes_to_rasta_packet length_hashing (1 ∷ 2 ∷ [])))
      data_packet
    ≡ (package_length_invalid, some (replicate data_packet.length 0))
zeros_example = short_then_zeros length_hashing no_error (1 ∷ 2 ∷ []) data_packet (omega arith)
