-- ===== src/Interface/Managers.antt =====
-- lib/src/runtime/interface/l4_managers.rs: the managers behind the IPv4 handler.
use narth_network.Base.{Bool, true, false, [], ◌==◌, if◌then◌else◌, Io, ok, ◌>>=◌}
use narth_network.Wire.{index}
use narth_network.Ipv4.Fields.{Protocol, icmp, tcp, udp, other_protocol}
use narth_network.Interface.{AsyncSendError}
use narth_network.Interface.Ping.{PingManager}
use narth_network.Interface.Udp.Manager.{UdpManager, udp_manager_default}
use narth_network.Interface.Ping.Manager.{header_of, datagram_of, on_async_send_error}

pub record Managers : Type 0 where
  pub ping_manager : PingManager
  pub udp_manager : UdpManager

-- `Default for Managers`
abbrev pub managers_default : Managers
managers_default = record {
  ping_manager = record { sessions = []; stops = []; reports = [] };
  udp_manager = udp_manager_default;
}

abbrev is_icmp : Protocol → Bool
is_icmp icmp = true
is_icmp tcp = false
is_icmp udp = false
is_icmp (other_protocol n) = false

-- `forward_async_error`: errors of echo requests go to the ping manager, others to the log.
unfoldable pub forward_async_error : AsyncSendError → Managers → Io Managers
unfolding on_async_send_error
forward_async_error error managers =
    if is_icmp (header_of error).protocol
    then (do
      kind ← index (datagram_of error) 0
      code ← index (datagram_of error) 1
      if kind == 8
          then (do
            p ← on_async_send_error error managers.ping_manager
            ok (record managers { ping_manager = p }))
          else ok managers)
    else ok managers
