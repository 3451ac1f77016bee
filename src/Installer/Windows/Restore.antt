-- ===== src/Installer/Windows/Restore.antt =====
-- What a failed run of the server's plan (internal/installer/windows) leaves.
use loca_agent.Base.{sym, Text, lit, List, Option, none, some, Bool, true, false, All}
use loca_agent.Base.{◌≡◌, refl, ap, ◌∙◌, ◌⊎◌, inl, inr, Option-cases}
use loca_agent.Errs.{Error}
use loca_agent.Effect.{ok, err, check, map_error, Action, or_fail}
use loca_agent.Sys.{Os}
use loca_agent.Installer.{func_step}
use loca_agent.WgTunnel.Unseen.{IsCalm}
use loca_agent.Installer.Engine.{Engine, Machine, run}
use loca_agent.Installer.Engine.Restore.{Undoes, run_restores}
use loca_agent.Installer.Session.{Session, Globals}
use loca_agent.Installer.Session.Undo.{
  session_view, IsTunnel, tunnel-Switch, pair, both, pair_eq, Switch, Switch-Undoes,
}
use loca_agent.Installer.Windows.{
  Deps, iface_name, firewall_rule_name, add_rule_args, show_rule_args, delete_rule_args, layout,
}
use loca_agent.Installer.Windows.Unseen.{
  IsApart, preflight_step-Undoes, install_wireguard_step-Undoes, acquire_llama_step-Undoes,
  download_model_step-Undoes, write_server_config_step-Undoes, install_service_step-Undoes,
  report_step-Undoes,
}
use loca_agent.Installer.Windows.Actions.{succeeded, run_command, rule_exists}
use loca_agent.Installer.Windows.Steps.{bring_tunnel_up_step, firewall_step, plan}

-- A machine with a tunnel and a firewall rule. netsh shows the rule whenever it is there, adds it or
-- fails without a change, and deletes it.
pub record IsFirewall (os : Os) (d : Deps os.World) (on rule : os.World → Bool) : Type 0 where
  pub shown :
      (w : os.World)
      → succeeded (d.runner (lit "netsh") (show_rule_args firewall_rule_name) w).0.error ≡ false
      → rule w ≡ false
  pub showing :
      (w : os.World)
      → both on rule (d.runner (lit "netsh") (show_rule_args firewall_rule_name) w).1
        ≡ both on rule w
  pub added :
      (w : os.World)
      → (d.runner
          (lit "netsh")
          (add_rule_args firewall_rule_name d.cfg.network.wireguard.listen_port)
          w).0.error
        ≡ none
      → both on rule
          (d.runner
            (lit "netsh")
            (add_rule_args firewall_rule_name d.cfg.network.wireguard.listen_port)
            w).1
        ≡ pair (on w) true
  pub refused :
      (w : os.World) (e : Error)
      → (d.runner
          (lit "netsh")
          (add_rule_args firewall_rule_name d.cfg.network.wireguard.listen_port)
          w).0.error
        ≡ some e
      → both on rule
          (d.runner
            (lit "netsh")
            (add_rule_args firewall_rule_name d.cfg.network.wireguard.listen_port)
            w).1
        ≡ both on rule w
  pub deleted :
      (w : os.World)
      → both on rule (d.runner (lit "netsh") (delete_rule_args firewall_rule_name) w).1
        ≡ pair (on w) false

check_failed :
    (f : Error → Error) (e : Option Error) {cause : Error}
    → map_error f (check e) ≡ err cause
    → (x : Error) × (e ≡ some x)
check_failed f none q = absurd cc
check_failed f (some x) q = (x, refl)

check_passed : (f : Error → Error) (e : Option Error) → map_error f (check e) ≡ ok tt → e ≡ none
check_passed f none q = refl
check_passed f (some x) q = absurd cc

module _ (os : Os) (g : Globals os) (d : Deps os.World) (on rule : os.World → Bool) where
  module _ (firewall : IsFirewall os d on rule) where
    ask_rule : Action os.World Bool
    ask_rule w =
        let (o, w') = d.runner (lit "netsh") (show_rule_args firewall_rule_name) w in
        (ok (succeeded o.error), w')

    netsh : List Text → Action os.World (Unit {0})
    netsh args w = let (o, w') = d.runner (lit "netsh") args w in (check o.error, w')

    absent_before : (w : os.World) → (ask_rule w).0 ≡ ok false → false ≡ rule w
    unfolding ask_rule
    absent_before w q = sym (firewall.shown w (ok_same q))
      where
        ok_same : {a b : Bool} → ok a ≡ ok b → a ≡ b
        ok_same e = cc

    abbrev add_args : List Text
    add_args = add_rule_args firewall_rule_name d.cfg.network.wireguard.listen_port

    firewall-Switch :
        (f : Error → Error)
        → Switch
            (both on rule)
            ask_rule
            (or_fail (netsh (add_args)) f)
            (netsh (delete_rule_args firewall_rule_name))
    unfolding ask_rule netsh
    firewall-Switch f = record {
      asking = firewall.showing;
      failing = λ w cause q e.
          firewall.refused (ask_rule w).1 _
            (check_failed f (d.runner (lit "netsh") (add_args) (ask_rule w).1).0.error e).1
          ∙ firewall.showing w;
      undoing = λ w t q e p.
          let before = firewall.showing w in
          let add =
            firewall.added (ask_rule w).1
              (check_passed f (d.runner (lit "netsh") (add_args) (ask_rule w).1).0.error e) in
          firewall.deleted t
          ∙ pair_eq (ap (λ v. v.0) p ∙ ap (λ v. v.0) add ∙ ap (λ v. v.0) before)
              (absent_before w q);
    }

  firewall_step-Undoes :
      IsFirewall os d on rule → Undoes (session_view (both on rule)) (firewall_step os g d)
  unfolding firewall_step func_step run_command rule_exists netsh ask_rule
  firewall_step-Undoes firewall = Switch-Undoes (both on rule) _ _ _ _ (firewall-Switch firewall _)

  bring_tunnel_up_step-Undoes :
      IsTunnel d.tunnel iface_name (layout d).server_conf on rule
      → Undoes (session_view (both on rule)) (bring_tunnel_up_step os g d)
  unfolding bring_tunnel_up_step func_step
  bring_tunnel_up_step-Undoes tunnel =
      Switch-Undoes (both on rule) _ _ _ _
        (tunnel-Switch d.tunnel iface_name (layout d).server_conf on rule tunnel)

  module _ (firewall : IsFirewall os d on rule)
      (tunnel : IsTunnel d.tunnel iface_name (layout d).server_conf on rule)
      (calm : IsCalm os (both on rule)) (apart : IsApart os d (both on rule)) where
    server_plan-Undoes : All (Undoes (session_view (both on rule))) (plan os g d)
    unfolding plan
    server_plan-Undoes = (
      preflight_step-Undoes os g d (both on rule) calm apart,
      (
        install_wireguard_step-Undoes os g d (both on rule) calm apart,
        (
          acquire_llama_step-Undoes os g d (both on rule) calm apart,
          (
            download_model_step-Undoes os g d (both on rule) calm apart,
            (
              write_server_config_step-Undoes os g d (both on rule) calm apart,
              (
                bring_tunnel_up_step-Undoes tunnel,
                (
                  install_service_step-Undoes os g d (both on rule) calm apart,
                  (
                    firewall_step-Undoes firewall,
                    (report_step-Undoes os g d (both on rule) calm apart, tt),
                  ),
                ),
              ),
            ),
          ),
        ),
      ),
    )

    -- On a machine whose tunnel and firewall rule change only by the commands for them, where a command
    -- that fails to turn one of them on changes nothing, one that turns it off does so, and no query
    -- reports one as off (or fails) while it is on, the whole plan of the server either completes, or
    -- leaves both the tunnel and the firewall rule as they were before it, whichever step failed.
    pub server_plan_restores :
        (e : Engine) (ctx : Session os.World → Option Error) (m : Machine (Session os.World))
        → let out = run e ctx (plan os g d) m in
          (out.0 ≡ none) ⊎ (both on rule out.1.sys.world ≡ both on rule m.sys.world)
    server_plan_restores e ctx m = elim (Option-cases (run e ctx (plan os g d) m).0) [
      | inl q ↦ inl q
      | inr (cause, q) ↦ inr (
          run_restores (session_view (both on rule)) e ctx (plan os g d) m server_plan-Undoes
            (λ p. absurd cc))
    ]
