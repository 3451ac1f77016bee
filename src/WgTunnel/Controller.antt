-- ===== src/WgTunnel/Controller.antt =====
-- `Controller` of internal/wgtunnel/wgtunnel.go: bringing the tunnel up and down.
use loca_agent.Base.{
  Text, lit, [], ◌∷◌, ◌++◌, Option, none, some, Bool, true, false, ◌&&◌, contains, to_upper,
}
use loca_agent.Errs.{Error, user_wrap}
use loca_agent.Effect.{ok, err, Action}
use loca_agent.Sys.{Runner, Output, Command}

-- The two platforms: wireguard.exe tunnel services, and wg-quick.
pub data TunnelPlatform : Type 0 where
  windows_platform : Text → TunnelPlatform
  unix_platform : Text → Text → TunnelPlatform

-- newPlatform, on Windows and elsewhere
unfoldable pub new_platform : Bool → TunnelPlatform
new_platform true = windows_platform (lit "wireguard")
new_platform false = unix_platform (lit "wg-quick") (lit "wg")

unfoldable pub up_command : TunnelPlatform → Text → Text → Command
up_command (windows_platform exe) iface conf = record {
  bin = exe;
  args = lit "/installtunnelservice" ∷ conf ∷ [];
}
up_command (unix_platform wg_quick wg) iface conf = record {
  bin = wg_quick;
  args = lit "up" ∷ conf ∷ [];
}

unfoldable pub down_command : TunnelPlatform → Text → Text → Command
down_command (windows_platform exe) iface conf = record {
  bin = exe;
  args = lit "/uninstalltunnelservice" ∷ iface ∷ [];
}
down_command (unix_platform wg_quick wg) iface conf = record {
  bin = wg_quick;
  args = lit "down" ∷ conf ∷ [];
}

unfoldable pub status_command : TunnelPlatform → Text → Command
status_command (windows_platform exe) iface = record {
  bin = lit "sc";
  args = lit "query" ∷ (lit "WireGuardTunnel$" ++ iface) ∷ [];
}
status_command (unix_platform wg_quick wg) iface = record {
  bin = wg;
  args = lit "show" ∷ iface ∷ [];
}

abbrev no_error : Option Error → Bool
no_error none = true
no_error (some _) = false

unfoldable pub is_active : TunnelPlatform → Output → Bool
is_active (windows_platform exe) o =
    no_error o.error && contains (to_upper o.stdout) (lit "RUNNING")
is_active (unix_platform wg_quick wg) o = no_error o.error

module _ {W : Type 0} (run : Runner W) (p : TunnelPlatform) where
  unfoldable pub run_tunnel : Command → Text → Text → Action W (Unit {0})
  run_tunnel c code message w =
      let (o, w') = run c.bin c.args w in
      (
        elim o.error [
          | none ↦ ok tt
          | some e ↦ err (
              user_wrap e code message (
                lit
                  "Ensure WireGuard is installed and you are running with administrator/root privileges."))
        ],
        w',
      )

  -- Controller.Up
  unfoldable pub up : Text → Text → Action W (Unit {0})
  unfolding run_tunnel
  up iface conf =
      run_tunnel (up_command p iface conf) (lit "wg_tunnel_up")
        (lit "Failed to bring up the WireGuard tunnel")

  -- Controller.Down
  unfoldable pub down : Text → Text → Action W (Unit {0})
  unfolding run_tunnel
  down iface conf =
      run_tunnel (down_command p iface conf) (lit "wg_tunnel_down")
        (lit "Failed to bring down the WireGuard tunnel")

  -- Controller.Active
  unfoldable pub active : Text → W → Bool × W
  active iface w =
      let c = status_command p iface in let (o, w') = run c.bin c.args w in (is_active p o, w')
