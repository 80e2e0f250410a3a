-- ===== src/Lib.antt =====
-- librasta, a C implementation of the Rail Safe Transport Application protocol.
--
-- The program has two layers. The safety and retransmission layer (src/c/retransmission) keeps a
-- connection: it numbers and confirms packets, queues messages for sending and for retransmission,
-- supervises timeouts and runs the handshake. The redundancy layer (src/c/redundancy) sends every
-- packet on all transport channels of a connection, puts received packets in order in a defer
-- queue and hands them up. Below both are the packet formats (src/c/util/rastamodule.c,
-- src/c/rastafactory.c), the queues (src/c/util/fifo.c, src/c/util/rastadeferqueue.c) and the
-- transport variants (src/c/transport).
--
-- Base          C arrays as lists, fixed-width words, Boolean tests, the laws of `&`, `|` and `^`
-- Fifo          src/c/util/fifo.c
-- DeferQueue    src/c/util/rastadeferqueue.c; the array, entries out of use included, is a list
-- Packet        src/c/util/rastamodule.h and, in Packet/Codec and Packet/RedundancyCodec,
--               rastaModuleToBytes, bytesToRastaPacket and their redundancy counterparts
-- Factory       src/c/rastafactory.c
-- Transport     the interface of src/c/transport/transport.h, with src/c/transport/udp_base.c
-- Connection    rasta_connection and the configuration as records; Env collects what the program is
--               linked to
-- Sr            src/c/retransmission and the timed events of src/c/transport/events.c: Sr/Checks
--               (sr_check_packet), Sr/Send (messages.c, redundancy_mux_send), Sr/Close, Sr/Queues
--               (data_send_event, sr_remove_confirmed_messages, sr_retransmit_data),
--               Sr/Diagnostics, Sr/Receiving, Sr/Handlers (handlers.c), Sr/Handshake, Sr/Receive
--               (sr_receive), Sr/Api (sr_send, sr_connect, sr_disconnect, handle_closed_transport)
-- Redundancy    src/c/redundancy/rastaredundancy.c and receive_packet of rasta_red_multiplexer.c
-- Crc           src/c/util/rastacrc.c; Crc/Reference is the shift register that it is compared with,
--               Crc/Corruption its use in the redundancy layer's packets
-- Events        src/c/util/event_system.c: the doubly linked lists with their pointers, the search
--               for the next timer, and the event loop in Events/Loop
-- Entry         the user's calls of src/c/rasta.c and src/c/transport/diagnostics.c
-- Arrival       channel_receive_event of src/c/transport/events.c and find_channel_by_ip_address of
--               src/c/transport/transport.c, without DTLS
-- Examples      concrete connections, at which the theorems are applied
--
-- C functions keep their names in snake case. A function that changes a connection takes it and
-- returns the new one. Four fields are added to it: the number of clock readings so far, the global
-- rastamodule_lasterror, a mark for an access outside an array or to unset bytes, and the list of packets handed to
-- redundancy_mux_send. Numbers are natural numbers with the wrap-around of their C type written out.
--
-- Loops are recursion on the list they walk or on fuel. The fuel of fifo_destroy and of the
-- confirmation loop is the size of the queue, which every round lowers; that of the delivery loop is
-- the number of deferred packets; that of receive_packet is the length of the buffer, which its
-- offset does not leave. It stops at the first access outside an array.
--
-- The loops of the event system have fuel for the length of their lists; the waiting loop of
-- rasta_recv has it for the runs of the event loop.
--
-- Parameters: the hash, of which only the length of the result is used; the CRC where the packets
-- are packed and read, for which Crc has the program's own; qsort, which rearranges its array;
-- strncmp; select; the clocks; the transport; the contents of unset memory; the callbacks of the
-- event loop, and its whole run in sr_connect and rasta_recv. Not modelled: key exchange
-- (ENABLE_OPAQUE), notifications to the user, allocation and its failures, sockets and TLS, logging,
-- the set-up of handles, and the hash functions, which are copies of other projects' code.
pub mod Base
pub mod Packet
pub mod Factory
pub mod Fifo
pub mod DeferQueue
pub mod Transport
pub mod Connection
pub mod Crc
pub mod Events
pub mod Sr
pub mod Redundancy
pub mod Entry
pub mod Arrival
pub mod Examples
