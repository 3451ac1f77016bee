-- ===== src/Installer/Windows/Steps.antt =====
-- internal/installer/windows/steps.go: the steps of the server's plan.
use loca_agent.Base.{lit, List, [], ◌∷◌, ◌++◌, none, some, true, false, if◌then◌else◌}
use loca_agent.Base.{itoa}
use loca_agent.Errs.{user_wrap}
use loca_agent.Effect.{ok, Action, pure, lift, or_fail, ◌>>=◌, ◌>>◌}
use loca_agent.Sys.{Os}
use loca_agent.Filepath.{join_path, dir_name}
use loca_agent.Model.{resolve}
use loca_agent.Wireguard.Address.{server_next_address}
use loca_agent.Wireguard.Token.{encode_json, mint_token}
use loca_agent.Wireguard.Client.{server_config}
use loca_agent.Wireguard.Render.{render}
use loca_agent.WgTunnel.{write_config}
use loca_agent.WgTunnel.KeyStore.{load_or_create_key}
use loca_agent.Llama.{server_args, options_from_config}
use loca_agent.Llama.Acquire.{find_server_binary}
use loca_agent.Installer.{
  Step, func_step, str, get_string, key_server_binary, key_model_path, key_server_config_path,
  key_join_token,
}
use loca_agent.Installer.Session.{
  Session, Globals, on_world, store, print, read_world, read_state, file_exists,
}
use loca_agent.Ui.{heading, note, plain_line}
use loca_agent.Installer.Windows.{
  Deps, layout, iface_name, wireguard_exe_path, firewall_rule_name, add_rule_args, delete_rule_args,
}
use loca_agent.Installer.Windows.Actions.{
  is_running, run_command, check_elevated, record_system, fetch_installer, found_binary, model_path,
  server_identity, make_log_dir, rule_exists,
}

module _ (os : Os) (g : Globals os) (d : Deps os.World) where
  abbrev Act : Type 0 → Type 0
  Act A = Action (Session os.World) A

  unfoldable pub preflight_step : Step (Session os.World)
  unfolding check_elevated record_system func_step
  preflight_step = func_step (record {
    label = lit "preflight";
    verify_func = none;
    run_func = some (do check_elevated os g d d.elevated; record_system os g d d.detect);
    rollback_func = none;
  })

  unfoldable pub install_wireguard_step : Step (Session os.World)
  unfolding run_command fetch_installer func_step
  install_wireguard_step =
      let dst = join_path (g.temp_dir ∷ lit "wireguard-installer.exe" ∷ []) in
      func_step (record {
        label = lit "install-wireguard";
        verify_func = some (read_world (file_exists os (wireguard_exe_path g.program_files)));
        run_func = some (do
          or_fail (fetch_installer os g d dst) (λ e.
              user_wrap e (lit "wireguard_download")
                (lit "Failed to download the WireGuard installer")
                (lit "Check your internet connection."))
          or_fail (run_command os g d dst (lit "/S" ∷ [])) (λ e.
              user_wrap e (lit "wireguard_install") (lit "WireGuard installation failed")
                (lit "Run the downloaded installer manually: " ++ dst)));
        rollback_func = none;
      })

  unfoldable pub acquire_llama_step : Step (Session os.World)
  unfolding found_binary func_step
  acquire_llama_step = func_step (record {
    label = lit "acquire-llama";
    verify_func = some (do
      found ← read_world (λ w. find_server_binary (g.walk_dir (layout d).llama_dir w))
      found_binary os g d found);
    run_func = some (do
      bin ← on_world (d.llama d.cfg.versions (layout d).install)
      store key_server_binary (str bin));
    rollback_func = none;
  })

  unfoldable pub download_model_step : Step (Session os.World)
  unfolding model_path func_step
  download_model_step = func_step (record {
    label = lit "download-model";
    verify_func = some (do
      m ← lift (resolve d.cfg.models d.model_id)
      here ← read_world (file_exists os (model_path os g d m))
      if here
          then (do store key_model_path (str (model_path os g d m)); pure true)
          else pure false);
    run_func = some (do
      m ← lift (resolve d.cfg.models d.model_id)
      on_world (d.models d.cfg.models.source m (layout d).model)
      store key_model_path (str (model_path os g d m)));
    rollback_func = none;
  })

  unfoldable pub write_server_config_step : Step (Session os.World)
  unfolding server_identity func_step
  write_server_config_step = func_step (record {
    label = lit "wireguard-server-config";
    verify_func = none;
    run_func = some (do
      keys ← on_world (load_or_create_key g.public os (layout d).server_key)
      peers ← on_world d.peers
      cfg ← lift (server_config g.v6 (server_identity os g d keys) peers)
      on_world (write_config os (layout d).server_conf (render cfg))
      store key_server_config_path (str (layout d).server_conf)
      addr ← lift (server_next_address g.v6 (server_identity os g d keys) peers)
      token ← lift (encode_json g.token_json (mint_token (server_identity os g d keys) addr))
      store key_join_token (str token));
    rollback_func = none;
  })

  unfoldable pub bring_tunnel_up_step : Step (Session os.World)
  unfolding func_step
  bring_tunnel_up_step = func_step (record {
    label = lit "wireguard-tunnel-up";
    verify_func = some (on_world (λ w. let (b, w') = d.tunnel.active iface_name w in (ok b, w')));
    run_func = some (on_world (d.tunnel.up iface_name (layout d).server_conf));
    rollback_func = some (on_world (d.tunnel.down iface_name (layout d).server_conf));
  })

  unfoldable pub install_service_step : Step (Session os.World)
  unfolding make_log_dir func_step
  install_service_step =
      let name = d.cfg.installer.service.name in
      func_step (record {
        label = lit "install-llama-service";
        verify_func = some (do state ← on_world (d.service.status name); pure (is_running state));
        run_func = some (do
          m ← lift (resolve d.cfg.models d.model_id)
          binary ← read_state (get_string key_server_binary)
          path ← read_state (get_string key_model_path)
          make_log_dir os g d
          on_world (
              d.service.install (record {
                name = name;
                display_name = d.cfg.installer.service.display_name;
                executable = binary;
                args = server_args (options_from_config d.cfg.network m path);
                working_dir = dir_name binary;
                env = [];
                stdout = join_path ((layout d).log ∷ lit "llama-out.log" ∷ []);
                stderr = join_path ((layout d).log ∷ lit "llama-err.log" ∷ []);
                auto_start = true;
              }))
          on_world (d.service.start name));
        rollback_func = some (on_world (d.service.remove name));
      })

  unfoldable pub firewall_step : Step (Session os.World)
  unfolding run_command rule_exists func_step
  firewall_step =
      let port = d.cfg.network.wireguard.listen_port in
      func_step (record {
        label = lit "configure-firewall";
        verify_func = some (rule_exists os g d);
        run_func = some (
            or_fail (run_command os g d (lit "netsh") (add_rule_args firewall_rule_name port)) (λ e.
              user_wrap e (lit "firewall_rule") (lit "Failed to add the WireGuard firewall rule")
                (lit "Add an inbound UDP rule for port " ++ (itoa port ++ lit " manually."))));
        rollback_func =
            some (run_command os g d (lit "netsh") (delete_rule_args firewall_rule_name));
      })

  unfoldable pub report_step : Step (Session os.World)
  unfolding func_step
  report_step = func_step (record {
    label = lit "report";
    verify_func = none;
    run_func = some (do
      token ← read_state (get_string key_join_token)
      if d.has_ui
          then print (
              heading (lit "Windows AI server ready")
              ∷ note (lit "Share this join token with the macOS client:")
              ∷ plain_line token
              ∷ note (lit "On the Mac:  bootstrap-ai install --role client --token <token>")
              ∷ note (lit "Then register the reply here:  bootstrap-ai wireguard add-peer <reply>")
              ∷ [])
          else pure tt);
    rollback_func = none;
  })

  -- The function `Plan` of windows.go
  unfoldable pub plan : List (Step (Session os.World))
  plan =
      preflight_step ∷ install_wireguard_step ∷ acquire_llama_step ∷ download_model_step
      ∷ write_server_config_step ∷ bring_tunnel_up_step ∷ install_service_step ∷ firewall_step
      ∷ report_step ∷ []
