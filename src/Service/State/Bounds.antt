-- ===== src/Service/State/Bounds.antt =====
-- What the constructor computes from a configuration that the loader accepts.
use ironsoft.Prelude.{◌≡◌, ◌<◌, ◌^◌, ◌/◌, max, min, Bool, arith}
use ironsoft.Config.{EkinoxConfig}
use ironsoft.Config.Valid.{IsValid}
use ironsoft.Service.State.{make_setup}

-- For a configuration that the loader accepts and whose rx_dead_ms is an int, the casts of the UDP
-- ports to 16 bits and of rx_dead_ms to 32 bits lose nothing, the
-- presence timeout is the configured one, and the REST API is polled at half of it, but no more often
-- than once in a second and no less often than once in two.
pub make_setup-faithful :
    (has_sbg : Bool) (config : EkinoxConfig)
    → IsValid config
    → config.timeouts.rx_dead_ms < 2 ^ 31
    → let setup = make_setup has_sbg config in
      (setup.udp_config.remote_port ≡ config.ekinox.udp_port)
      × (setup.udp_config.local_port ≡ config.ekinox.udp_local_port)
      × (setup.udp_config.rx_dead_ms ≡ config.timeouts.rx_dead_ms)
      × (setup.presence_timeout ≡ config.timeouts.presence_timeout_ms)
      × (setup.rest_poll_interval ≡ max 1000 (min 2000 (setup.presence_timeout / 2)))
unfolding make_setup
make_setup-faithful has_sbg config v is_int =
    let remote = v.ekinox.udp_port_le in
    let local = v.ekinox.udp_local_port_le in
    let timeout = v.timeouts.presence_timeout_ms in ground arith
