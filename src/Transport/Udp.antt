-- ===== src/Transport/Udp.antt =====
-- The UDP variant of the transport interface, src/c/transport/udp_base.c.
use librasta.Base.{ℕ, refl, Bool, true, false}
use librasta.Transport.{TransportChannel, Transport, IsTransport}

unfoldable pub udp_connect : ℕ → TransportChannel → TransportChannel
udp_connect n c = record c { connected = true }

-- A UDP channel cannot be redialled.
unfoldable pub udp_redial : ℕ → TransportChannel → Bool × TransportChannel
udp_redial n c = (false, c)

unfoldable pub udp_close_channel : TransportChannel → TransportChannel
udp_close_channel c = c

abbrev pub udp : Transport
udp = record { connect = udp_connect; redial = udp_redial; close_channel = udp_close_channel }

pub udp-IsTransport : IsTransport udp
unfolding udp_connect udp_redial udp_close_channel
udp-IsTransport = record {
  connect_silent = λ n c. refl;
  redial_silent = λ n c. refl;
  close_silent = λ c. refl;
}
