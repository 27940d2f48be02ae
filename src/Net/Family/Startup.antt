-- ===== src/Net/Family/Startup.antt =====
-- The registrations of driver/net/avionics.c through its start and its end.
use driver_arinc.Prelude.{◌≡◌, true, false, ok, err, Errno, arith}
use driver_arinc.Net.Family.{
  Resources, InitAnswers, register, or_undo, socket_list_exit, device_netlink_unregister,
  protocol_raw_unregister, sock_unregister, avionics_init, avionics_exit,
}

-- Nothing is registered.
abbrev pub unregistered : Resources
unregistered = record {
  socket_list_cache = false;
  netlink = false;
  raw_protocol = false;
  socket_family = false;
  notifier = false;
  packet_type = false;
}

-- Wherever `avionics_init` fails, nothing stays registered. Where it succeeds, everything is
-- registered, and `avionics_exit` undoes all of it if the notifier can be unregistered.
pub avionics_exit-avionics_init :
    (a : InitAnswers)
    → let (result, r) = avionics_init a unregistered in
      ((e : Errno) → result ≡ err e → r ≡ unregistered)
      × (result ≡ ok tt
          → (r ≡ record {
            socket_list_cache = true;
            netlink = true;
            raw_protocol = true;
            socket_family = true;
            notifier = true;
            packet_type = true;
          })
            × (avionics_exit (ok tt) r ≡ unregistered))
unfolding avionics_init avionics_exit register or_undo socket_list_exit device_netlink_unregister
    protocol_raw_unregister sock_unregister
avionics_exit-avionics_init a = (λ e h. ground (arith, h), λ h. ground (arith, h))
