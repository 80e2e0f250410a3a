-- ===== src/Sr/Api/Transports.antt =====
-- `handle_closed_transport` of src/c/redundancy/rasta_red_multiplexer.c.
use librasta.Base.{◌≡◌, refl, true, false, arith}
use librasta.Connection.{Connection, Env}
use librasta.Sr.Close.{sr_closed_connection, sr_reset_connection, redundancy_channel_close}
use librasta.Sr.Close.Laws.{IsClosed, sr_closed_connection-IsClosed}
use librasta.Sr.Api.{any_connected, handle_closed_transport}

module _ (env : Env) where
  -- While a transport channel is connected, the loss of another changes nothing of the connection.
  pub handle_closed_transport-continues :
      (c : Connection)
      → any_connected c.channel.transport_channels ≡ true
      → handle_closed_transport env c ≡ (c, false)
  unfolding handle_closed_transport
  handle_closed_transport-continues c h = ground (arith, h)

  -- The loss of the last one closes the connection without a packet and ends the event loop.
  pub handle_closed_transport-IsClosed :
      (c : Connection)
      → any_connected c.channel.transport_channels ≡ false
      → IsClosed (handle_closed_transport env c).0
        × ((handle_closed_transport env c).1 ≡ true)
        × ((handle_closed_transport env c).0.handed ≡ c.handed)
  unfolding handle_closed_transport sr_closed_connection sr_reset_connection
      redundancy_channel_close
  handle_closed_transport-IsClosed c h = rw h (sr_closed_connection-IsClosed env c, refl, refl)
