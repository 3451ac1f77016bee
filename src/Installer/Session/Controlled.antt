-- ===== src/Installer/Session/Controlled.antt =====
-- The Tunnel of both plans that the install command builds: `Controller` of internal/wgtunnel.
use loca_agent.Base.{arith, Text, Bool, true, false, none, some, Option-cases, inl, inr, ◌≡◌}
use loca_agent.Errs.{Error}
use loca_agent.Effect.{ok, err}
use loca_agent.Sys.{Runner, Command, Output}
use loca_agent.WgTunnel.Controller.{
  TunnelPlatform, up_command, down_command, status_command, is_active, run_tunnel, up, down, active,
}
use loca_agent.Installer.Session.{Tunnel}
use loca_agent.Installer.Session.Undo.{IsTunnel, both, pair}

abbrev pub controller_tunnel : {W : Type 0} → Runner W → TunnelPlatform → Tunnel W
controller_tunnel run p = record { up = up run p; down = down run p; active = active run p }

abbrev run_command : {W : Type 0} → Runner W → Command → W → Output × W
run_command run c w = run c.bin c.args w

-- What the commands of WireGuard do to a tunnel: the status query of one that is on succeeds and says so, a tunnel that cannot be
-- brought up stays as it was, and one that is brought down is off.
pub record IsWireguard {W R : Type 0} (run : Runner W) (p : TunnelPlatform) (iface conf : Text)
    (on : W → Bool) (rest : W → R) : Type 0 where
  pub shown :
      (w : W) → is_active p (run_command run (status_command p iface) w).0 ≡ false → on w ≡ false
  pub showing :
      (w : W) → both on rest (run_command run (status_command p iface) w).1 ≡ both on rest w
  pub upped :
      (w : W)
      → (run_command run (up_command p iface conf) w).0.error ≡ none
      → both on rest (run_command run (up_command p iface conf) w).1 ≡ pair true (rest w)
  pub refused :
      (w : W) (e : Error)
      → (run_command run (up_command p iface conf) w).0.error ≡ some e
      → both on rest (run_command run (up_command p iface conf) w).1 ≡ both on rest w
  pub downed :
      (w : W) → both on rest (run_command run (down_command p iface conf) w).1 ≡ pair false (rest w)

module _ {W : Type 0} (run : Runner W) (p : TunnelPlatform) (c : Command) (code message : Text)
    (w : W) where
  command_passed :
      (run_tunnel run p c code message w).0 ≡ ok tt → (run_command run c w).0.error ≡ none
  unfolding run_tunnel
  command_passed q = elim (Option-cases (run_command run c w).0.error) [
    | inl h ↦ h
    | inr (e, h) ↦ absurd (ground (arith, h, q))
  ]

  command_failed :
      (cause : Error)
      → (run_tunnel run p c code message w).0 ≡ err cause
      → (e : Error) × ((run_command run c w).0.error ≡ some e)
  unfolding run_tunnel
  command_failed cause q = elim (Option-cases (run_command run c w).0.error) [
    | inl h ↦ absurd (ground (arith, h, q))
    | inr (e, h) ↦ (e, h)
  ]

-- A controller over such commands is a tunnel that is on or off.
pub controller_tunnel-IsTunnel :
    {W R : Type 0} (run : Runner W) (p : TunnelPlatform) (iface conf : Text) (on : W → Bool)
    (rest : W → R)
    → IsWireguard run p iface conf on rest
    → IsTunnel (controller_tunnel run p) iface conf on rest
unfolding up down active
controller_tunnel-IsTunnel run p iface conf on rest h = record {
  asked = h.shown;
  asking = h.showing;
  upped = λ w q. h.upped w (command_passed run p (up_command p iface conf) _ _ w q);
  refused = λ w e q. h.refused w _ (command_failed run p (up_command p iface conf) _ _ w e q).1;
  downed = h.downed;
}
