-- ===== src/Sr/Handshake/Whole.antt =====
-- The handshake between a client and a server, from `sr_connect` to state UP at both ends, with the
-- packets as the bytes that are sent.
use librasta.Base.{ℕ, ◌≡◌, List, [], ◌∷◌, ◌++◌, some}
use librasta.Packet.{RastaPacket, no_error}
use librasta.Packet.Codec.{decoded, rasta_module_to_bytes, bytes_to_rasta_packet}
use librasta.Connection.{Connection, up, Env}
use librasta.Sr.Handshake.{handle_conreq, handle_conresp}
use librasta.Sr.Handshake.Laws.{request, response, greeting}
use librasta.Sr.Receive.{sr_receive}
use librasta.Sr.Api.{connect_request}

-- What one end packs, the other reads, with a safety code that is right by its own hash.
pub record Carried (e f : Env) (p q : RastaPacket) : Type 0 where
  pub bytes : List ℕ
  pub packed : rasta_module_to_bytes e.hashing no_error p ≡ (no_error, some bytes)
  pub read : bytes_to_rasta_packet f.hashing bytes ≡ decoded q

-- The three packets of the handshake: each is handed on by the end that builds it, is carried to the
-- other as bytes, and is received there.
pub record Completes (e f : Env) (c s : Connection) : Type 0 where
  pub asked_by : RastaPacket
  pub answered_by : RastaPacket
  pub greeted_by : RastaPacket
  pub asks : (connect_request e c).handed ≡ c.handed ++ (request e f c s ∷ [])
  pub request_carried : Carried e f (request e f c s) asked_by
  pub answers : (handle_conreq f s asked_by).handed ≡ s.handed ++ (response e f c s ∷ [])
  pub response_carried : Carried f e (response e f c s) answered_by
  pub greets :
      (handle_conresp e (connect_request e c) answered_by).handed
      ≡ (connect_request e c).handed ++ (greeting e f c s ∷ [])
  pub greeting_carried : Carried e f (greeting e f c s) greeted_by
  pub client_established : (handle_conresp e (connect_request e c) answered_by).current_state ≡ up
  pub server_established :
      (sr_receive f (handle_conreq f s asked_by) greeted_by).0.current_state ≡ up
