-- ===== src/Installer/Mac/Restore.antt =====
-- What a failed run of the client's plan (internal/installer/mac) leaves.
use loca_agent.Base.{
  Text, lit, List, [], Option, none, some, Bool, All, ◌≡◌, refl, ◌⊎◌, inl, inr, Option-cases,
  Bool-cases, ◌==◌, text_eq, trim_space,
}
use loca_agent.Errs.{Error}
use loca_agent.Effect.{Action, pure, fail, lift, or_fail, ◌>>=◌, ◌>>◌}
use loca_agent.Effect.Unseen.{Unseen, bind-Unseen, lift-bind-Unseen, if-Unseen}
use loca_agent.Sys.{Os}
use loca_agent.Model.{resolve}
use loca_agent.OpenCode.{Params, from_config, write}
use loca_agent.Wireguard.Token.{encode_json, decode_token}
use loca_agent.Wireguard.Render.{render}
use loca_agent.Wireguard.Client.{Enrollment, enroll}
use loca_agent.WgTunnel.{write_config, mkdir_all, write_file}
use loca_agent.WgTunnel.Unseen.{IsCalm, write_config-Unseen, enroll-Unseen}
use loca_agent.Installer.{func_step, str, key_client_config_path, key_enroll_reply}
use loca_agent.Installer.Engine.{Engine, Machine, run}
use loca_agent.Installer.Engine.Restore.{Undoes, run_restores}
use loca_agent.Installer.Session.{Session, Globals, on_world, store, print}
use loca_agent.Installer.Session.Undo.{
  session_view, IsTunnel, tunnel-Switch, both, Switch-Undoes, Unseen-Undoes,
}
use loca_agent.Installer.Mac.{
  Deps, iface_name, layout, client_name, run_command, brew_install, refuse_root, require_token,
  preflight_step, install_homebrew_step, install_git_step, install_opencode_step,
  install_wireguard_step, enroll_step, bring_tunnel_up_step, write_opencode_config_step,
  report_step, plan,
}

-- Homebrew, npm and the shell that installs Homebrew, beside a view that shows none of them.
pub record IsPackaged (os : Os) (d : Deps os.World) {V : Type 0} (view : os.World → V)
    : Type 0 where
  pub brewing : (args : List Text) (w : os.World) → view (d.runner (lit "brew") args w).1 ≡ view w
  pub shelling :
      (args : List Text) (w : os.World) → view (d.runner (lit "/bin/bash") args w).1 ≡ view w
  pub noding : (args : List Text) (w : os.World) → view (d.runner (lit "npm") args w).1 ≡ view w

module _ (os : Os) (g : Globals os) (d : Deps os.World) {V : Type 0} (view : os.World → V)
    (calm : IsCalm os view) (packaged : IsPackaged os d view) where
  abbrev Hidden : {A : Type 0} → Action (Session os.World) A → Type 0
  Hidden = Unseen (session_view view)

  refuse_root-Unseen : (e : Option (os.World → Bool)) → Hidden (refuse_root os g d e)
  unfolding refuse_root
  refuse_root-Unseen none s = refl
  refuse_root-Unseen (some elevated) s = elim (Bool-cases (elevated s.world)) [
    | inl t ↦ rw (t, refuse_root) refl
    | inr t ↦ rw (t, refuse_root) refl
  ]

  require_token-Unseen : Hidden (require_token os g d)
  unfolding require_token
  require_token-Unseen =
      if-Unseen (session_view view) (trim_space d.token == []) (fail _) (pure tt) (λ s. refl)
        (λ s. refl)

  preflight_step-Undoes : Undoes (session_view view) (preflight_step os g d)
  unfolding preflight_step func_step
  preflight_step-Undoes =
      Unseen-Undoes view _ (λ s. refl)
        (bind-Unseen (session_view view) (refuse_root os g d d.elevated) (λ _. require_token os g d)
          (refuse_root-Unseen d.elevated) (λ _. require_token-Unseen))
        (λ s. refl)

  brew_install-Unseen : (pkg : Text) → Hidden (brew_install os g d pkg)
  unfolding brew_install run_command
  brew_install-Unseen pkg s = packaged.brewing _ s.world

  install_homebrew_step-Undoes : Undoes (session_view view) (install_homebrew_step os g d)
  unfolding install_homebrew_step run_command func_step
  install_homebrew_step-Undoes =
      Unseen-Undoes view _ (λ s. refl) (λ s. packaged.shelling _ s.world) (λ s. refl)

  install_git_step-Undoes : Undoes (session_view view) (install_git_step os g d)
  unfolding install_git_step func_step
  install_git_step-Undoes =
      Unseen-Undoes view _ (λ s. refl) (brew_install-Unseen (lit "git")) (λ s. refl)

  npm_install-Unseen : (args : List Text) → Hidden (run_command os g d (lit "npm") args)
  unfolding run_command
  npm_install-Unseen args s = packaged.noding args s.world

  install_opencode_step-Undoes : Undoes (session_view view) (install_opencode_step os g d)
  unfolding install_opencode_step func_step
  install_opencode_step-Undoes =
      Unseen-Undoes view _ (λ s. refl)
        (if-Unseen (session_view view) (d.cfg.versions.install_via == lit "brew")
          (brew_install os g d d.cfg.versions.package_name) (run_command os g d (lit "npm") _)
          (brew_install-Unseen d.cfg.versions.package_name) (npm_install-Unseen _))
        (λ s. refl)

  install_wireguard_step-Undoes : Undoes (session_view view) (install_wireguard_step os g d)
  unfolding install_wireguard_step func_step
  install_wireguard_step-Undoes =
      Unseen-Undoes view _ (λ s. refl) (brew_install-Unseen (lit "wireguard-tools")) (λ s. refl)

  enrolled-Unseen :
      (enr : Enrollment)
      → Hidden (do
        on_world (write_config os (layout d).client_conf (render enr.config))
        reply ← lift (encode_json g.reply_json enr.reply)
        store key_client_config_path (str (layout d).client_conf)
        store key_enroll_reply (str reply))
  enrolled-Unseen enr =
      bind-Unseen (session_view view)
        (on_world (write_config os (layout d).client_conf (render enr.config))) _
        (λ s. write_config-Unseen os view calm _ _ s.world)
        (λ _.
          lift-bind-Unseen (session_view view) (encode_json g.reply_json enr.reply) _
            (λ reply s. refl))

  enroll_step-Undoes : Undoes (session_view view) (enroll_step os g d)
  unfolding enroll_step func_step
  enroll_step-Undoes =
      Unseen-Undoes view _ (λ s. refl)
        (bind-Unseen (session_view view)
          (or_fail (lift (decode_token g.order g.token_json d.token)) _) _ (λ s. refl)
          (λ token.
            bind-Unseen (session_view view)
              (on_world (enroll g.v6 g.order g.public os token (client_name d) d.with_psk)) _
              (λ s. enroll-Unseen os view calm g.v6 g.order g.public token _ _ s.world)
              (λ enr. enrolled-Unseen enr)))
        (λ s. refl)

  write-Unseen : (path : Text) (p : Params) → Unseen view (write os path p)
  unfolding write mkdir_all write_file
  write-Unseen path p = bind-Unseen view _ _ (λ w. calm.made _ _ w) (λ _ w. calm.wrote _ _ _ w)

  write_opencode_config_step-Undoes : Undoes (session_view view) (write_opencode_config_step os g d)
  unfolding write_opencode_config_step func_step
  write_opencode_config_step-Undoes =
      Unseen-Undoes view _ (λ s. refl)
        (lift-bind-Unseen (session_view view) (resolve d.cfg.models d.model_id) _
          (λ m s. write-Unseen _ (from_config d.cfg m) s.world))
        (λ s. refl)

  report_step-Undoes : Undoes (session_view view) (report_step os g d)
  unfolding report_step func_step
  report_step-Undoes =
      Unseen-Undoes view _ (λ s. refl)
        (λ s. if-Unseen (session_view view) d.has_ui (print _) (pure tt) (λ t. refl) (λ t. refl) s)
        (λ s. refl)

module _ (os : Os) (g : Globals os) (d : Deps os.World) {R : Type 0} (on : os.World → Bool)
    (rest : os.World → R) (tunnel : IsTunnel d.tunnel iface_name (layout d).client_conf on rest)
    (calm : IsCalm os (both on rest)) (packaged : IsPackaged os d (both on rest)) where
  bring_tunnel_up_step-Undoes : Undoes (session_view (both on rest)) (bring_tunnel_up_step os g d)
  unfolding bring_tunnel_up_step func_step
  bring_tunnel_up_step-Undoes =
      Switch-Undoes (both on rest) _ _ _ _
        (tunnel-Switch d.tunnel iface_name (layout d).client_conf on rest tunnel)

  client_plan-Undoes : All (Undoes (session_view (both on rest))) (plan os g d)
  unfolding plan
  client_plan-Undoes = (
    preflight_step-Undoes os g d (both on rest) calm packaged,
    (
      install_homebrew_step-Undoes os g d (both on rest) calm packaged,
      (
        install_git_step-Undoes os g d (both on rest) calm packaged,
        (
          install_opencode_step-Undoes os g d (both on rest) calm packaged,
          (
            install_wireguard_step-Undoes os g d (both on rest) calm packaged,
            (
              enroll_step-Undoes os g d (both on rest) calm packaged,
              (
                bring_tunnel_up_step-Undoes,
                (
                  write_opencode_config_step-Undoes os g d (both on rest) calm packaged,
                  (report_step-Undoes os g d (both on rest) calm packaged, tt),
                ),
              ),
            ),
          ),
        ),
      ),
    ),
  )

  -- On a machine whose tunnel changes only by the commands for it, where a command that fails to bring
  -- it up changes nothing, one that brings it down does so, and no status query reports it as inactive
  -- (or fails) while it is on, the whole plan of the client either completes, or leaves the tunnel, and whatever else the plan's other calls leave alone, as they were
  -- before it, whichever step failed.
  pub client_plan_restores :
      (e : Engine) (ctx : Session os.World → Option Error) (m : Machine (Session os.World))
      → let out = run e ctx (plan os g d) m in
        (out.0 ≡ none) ⊎ (both on rest out.1.sys.world ≡ both on rest m.sys.world)
  client_plan_restores e ctx m = elim (Option-cases (run e ctx (plan os g d) m).0) [
    | inl q ↦ inl q
    | inr (cause, q) ↦ inr (
        run_restores (session_view (both on rest)) e ctx (plan os g d) m client_plan-Undoes
          (λ p. absurd cc))
  ]
