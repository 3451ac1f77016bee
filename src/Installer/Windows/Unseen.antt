-- ===== src/Installer/Windows/Unseen.antt =====
-- The steps of the server's plan (internal/installer/windows/steps.go) beside a view that shows
-- neither their files nor their downloads nor the service.
use loca_agent.Base.{Text, lit, List, [], ◌∷◌, Option, none, some, Bool, true, false, if◌then◌else◌}
use loca_agent.Base.{◌≡◌, refl, inl, inr, Bool-cases}
use loca_agent.Effect.{Result, ok, err, Result-cases, Action, pure, lift, ◌>>=◌, ◌>>◌}
use loca_agent.Effect.Unseen.{Unseen, bind-Unseen, lift-bind-Unseen, if-Unseen}
use loca_agent.Sys.{Os}
use loca_agent.Platform.{SystemInfo}
use loca_agent.Config.{Model, ModelSource, Versions}
use loca_agent.Service.{Spec}
use loca_agent.Wireguard.{ServerIdentity, ServerPeer, Config}
use loca_agent.Wireguard.Address.{server_next_address}
use loca_agent.Wireguard.Token.{encode_json, mint_token}
use loca_agent.Wireguard.Client.{server_config}
use loca_agent.Wireguard.Render.{render}
use loca_agent.Installer.{func_step, str, key_model_path, key_server_config_path, key_join_token}
use loca_agent.Model.{resolve}
use loca_agent.WgTunnel.{write_config, mkdir_all}
use loca_agent.WgTunnel.KeyStore.{load_or_create_key}
use loca_agent.WgTunnel.Unseen.{IsCalm, write_config-Unseen, load_or_create_key-Unseen}
use loca_agent.Installer.Engine.Restore.{Undoes}
use loca_agent.Installer.Session.{Session, Globals, on_world, store, print, file_exists}
use loca_agent.Installer.Session.Undo.{session_view, Unseen-Undoes}
use loca_agent.Installer.Windows.{Deps, layout}
use loca_agent.Installer.Windows.Actions.{
  is_running, check_elevated, record_system, fetch_installer, found_binary, model_path,
  server_identity, make_log_dir, run_command,
}
use loca_agent.Installer.Windows.Steps.{
  preflight_step, install_wireguard_step, acquire_llama_step, download_model_step,
  write_server_config_step, install_service_step, report_step,
}

-- The other calls of the plan show neither: detection, downloads, the installer, the service.
pub record IsApart (os : Os) (d : Deps os.World) {V : Type 0} (view : os.World → V) : Type 0 where
  pub detecting :
      (detect : Action os.World SystemInfo) → d.detect ≡ some detect → Unseen view detect
  pub fetching : (url dst : Text) (w : os.World) → view (d.fetcher url dst w).1 ≡ view w
  pub setting_up : (bin : Text) (w : os.World) → view (d.runner bin (lit "/S" ∷ []) w).1 ≡ view w
  pub acquiring : (v : Versions) (dir : Text) → Unseen view (d.llama v dir)
  pub downloading : (src : ModelSource) (m : Model) (dir : Text) → Unseen view (d.models src m dir)
  pub loading : Unseen view d.peers
  pub installing : (spec : Spec) → Unseen view (d.service.install spec)
  pub starting : (name : Text) → Unseen view (d.service.start name)
  pub removing : (name : Text) → Unseen view (d.service.remove name)
  pub asking : (name : Text) → Unseen view (d.service.status name)

-- The server's steps that the view does not show.
module _ (os : Os) (g : Globals os) (d : Deps os.World) {V : Type 0} (view : os.World → V)
    (calm : IsCalm os view) (apart : IsApart os d view) where
  abbrev Hidden : {A : Type 0} → Action (Session os.World) A → Type 0
  Hidden = Unseen (session_view view)

  check_elevated-Unseen : (e : Option (os.World → Bool)) → Hidden (check_elevated os g d e)
  unfolding check_elevated
  check_elevated-Unseen none s = refl
  check_elevated-Unseen (some elevated) s = elim (Bool-cases (elevated s.world)) [
    | inl t ↦ rw (t, check_elevated) refl
    | inr t ↦ rw (t, check_elevated) refl
  ]

  record_system-Unseen :
      (detect : Option (Action os.World SystemInfo))
      → ((a : Action os.World SystemInfo) → detect ≡ some a → Unseen view a)
      → Hidden (record_system os g d detect)
  unfolding record_system
  record_system-Unseen none h s = refl
  record_system-Unseen (some detect) h s = elim (Result-cases (detect s.world).0) [
    | inl (si, q) ↦ rw (q, record_system) (h detect refl s.world)
    | inr (e, q) ↦ rw (q, record_system) (h detect refl s.world)
  ]

  pub preflight_step-Undoes : Undoes (session_view view) (preflight_step os g d)
  unfolding preflight_step func_step
  preflight_step-Undoes =
      Unseen-Undoes view _ (λ s. refl)
        (bind-Unseen (session_view view) (check_elevated os g d d.elevated) _
          (check_elevated-Unseen d.elevated) (λ _. record_system-Unseen d.detect apart.detecting))
        (λ s. refl)

  pub install_wireguard_step-Undoes : Undoes (session_view view) (install_wireguard_step os g d)
  unfolding install_wireguard_step func_step fetch_installer run_command
  install_wireguard_step-Undoes =
      Unseen-Undoes view _ (λ s. refl)
        (bind-Unseen (session_view view) _ _ (λ s. apart.fetching _ _ s.world)
          (λ _ s. apart.setting_up _ s.world))
        (λ s. refl)

  found_binary-Unseen : (r : Result Text) → Hidden (found_binary os g d r)
  unfolding found_binary
  found_binary-Unseen (ok bin) s = refl
  found_binary-Unseen (err e) s = refl

  pub acquire_llama_step-Undoes : Undoes (session_view view) (acquire_llama_step os g d)
  unfolding acquire_llama_step func_step
  acquire_llama_step-Undoes =
      Unseen-Undoes view _ (λ s. found_binary-Unseen _ s)
        (bind-Unseen (session_view view) _ _ (λ s. apart.acquiring _ _ s.world) (λ bin s. refl))
        (λ s. refl)

  here_or_not :
      (path : Text) (here : Bool)
      → Hidden (if here then (store key_model_path (str path) >> pure true) else pure false)
  here_or_not path here = if-Unseen (session_view view) here _ _ (λ s. refl) (λ s. refl)

  pub download_model_step-Undoes : Undoes (session_view view) (download_model_step os g d)
  unfolding download_model_step func_step model_path
  download_model_step-Undoes =
      Unseen-Undoes view _
        (lift-bind-Unseen (session_view view) (resolve d.cfg.models d.model_id) _
          (λ m s. here_or_not _ (file_exists os _ s.world) s))
        (lift-bind-Unseen (session_view view) (resolve d.cfg.models d.model_id) _ (λ m.
          bind-Unseen (session_view view) _ _
            (λ s. apart.downloading d.cfg.models.source m _ s.world) (λ _ s. refl)))
        (λ s. refl)

  mint_rest-Unseen :
      (identity : ServerIdentity) (peers : List ServerPeer)
      → Hidden (do
        addr ← lift (server_next_address g.v6 identity peers)
        token ← lift (encode_json g.token_json (mint_token identity addr))
        store key_join_token (str token))
  mint_rest-Unseen identity peers =
      lift-bind-Unseen (session_view view) (server_next_address g.v6 identity peers) _ (λ addr.
        lift-bind-Unseen (session_view view) (encode_json g.token_json (mint_token identity addr)) _
          (λ token s. refl))

  write_rest-Unseen :
      (identity : ServerIdentity) (peers : List ServerPeer) (cfg : Config)
      → Hidden (do
        on_world (write_config os (layout d).server_conf (render cfg))
        store key_server_config_path (str (layout d).server_conf)
        addr ← lift (server_next_address g.v6 identity peers)
        token ← lift (encode_json g.token_json (mint_token identity addr))
        store key_join_token (str token))
  write_rest-Unseen identity peers cfg =
      bind-Unseen (session_view view)
        (on_world (write_config os (layout d).server_conf (render cfg))) _
        (λ s. write_config-Unseen os view calm _ _ s.world)
        (λ _ s.
          mint_rest-Unseen identity peers
            (store key_server_config_path (str (layout d).server_conf) s).1)

  pub write_server_config_step-Undoes : Undoes (session_view view) (write_server_config_step os g d)
  unfolding write_server_config_step func_step
  write_server_config_step-Undoes =
      Unseen-Undoes view _ (λ s. refl)
        (bind-Unseen (session_view view)
          (on_world (load_or_create_key g.public os (layout d).server_key)) _
          (λ s. load_or_create_key-Unseen os view calm g.public _ s.world)
          (λ keys.
            bind-Unseen (session_view view) (on_world d.peers) _ (λ s. apart.loading s.world)
              (λ peers.
                lift-bind-Unseen (session_view view)
                  (server_config g.v6 (server_identity os g d keys) peers) _
                  (λ cfg. write_rest-Unseen (server_identity os g d keys) peers cfg))))
        (λ s. refl)

  set_up_service-Unseen :
      (spec : Spec) (name : Text)
      → Hidden (
          make_log_dir os g d
          >> on_world (d.service.install spec)
          >> on_world (d.service.start name))
  unfolding make_log_dir mkdir_all
  set_up_service-Unseen spec name =
      bind-Unseen (session_view view) (make_log_dir os g d >> on_world (d.service.install spec))
        (λ _. on_world (d.service.start name))
        (bind-Unseen (session_view view) (make_log_dir os g d)
          (λ _. on_world (d.service.install spec)) (λ s. calm.made _ _ s.world)
          (λ _ s. apart.installing _ s.world))
        (λ _ s. apart.starting _ s.world)

  pub install_service_step-Undoes : Undoes (session_view view) (install_service_step os g d)
  unfolding install_service_step func_step
  install_service_step-Undoes =
      Unseen-Undoes view _
        (bind-Unseen (session_view view) (on_world (d.service.status d.cfg.installer.service.name))
          (λ state. pure (is_running state)) (λ s. apart.asking _ s.world) (λ state s. refl))
        (lift-bind-Unseen (session_view view) (resolve d.cfg.models d.model_id) _
          (λ m s. set_up_service-Unseen _ d.cfg.installer.service.name s))
        (λ s. apart.removing _ s.world)

  pub report_step-Undoes : Undoes (session_view view) (report_step os g d)
  unfolding report_step func_step
  report_step-Undoes =
      Unseen-Undoes view _ (λ s. refl)
        (λ s. if-Unseen (session_view view) d.has_ui (print _) (pure tt) (λ t. refl) (λ t. refl) s)
        (λ s. refl)
