-- ===== src/Config/Load/Checked.antt =====
-- What Load returns (internal/config/load.go): a checked config whose defaults are filled in.
use loca_agent.Base.{Text, lit, [], ◌∷◌, Option, true, ◌==◌, text_eq, int_eq}
use loca_agent.Base.{
  ◌≡◌, ◌≢◌, ◌⊎◌, refl, arith, ◌↔◌, pos, is_some, eq_iff, int_beq_iff, if◌then◌else◌, Bool-cases,
  inl, inr, lit,
}
use mathlib.Core.Path.{subst}
use loca_agent.Effect.{Result, ok, err, and_then, Result-cases}
use loca_agent.Filepath.{join_path}
use loca_agent.Config.{Config, default_model}
use loca_agent.Config.Load.{
  Host, Domain, Yaml, or_default, resolve_paths, resolve_source, resolve_defaults,
  default_install_dir, default_user_dir, validate, load, load_defaults, load_overrides, domains,
}

-- The four conditions that a config must meet.
pub record IsUsable (c : Config) : Type 0 where
  pub named : c.models.default_id ≢ []
  pub defined : is_some (default_model c.models) ≡ true
  pub addressed : c.network.wireguard.server_address ≢ []
  pub listening : c.network.inference.port ≢ pos 0

validate_sound : (c : Config) → validate c ≡ ok tt → IsUsable c
unfolding validate
validate_sound c h = record {
  named = λ e. ground (arith, eq_iff c.models.default_id []);
  defined = ground arith;
  addressed = λ e. ground (arith, eq_iff c.network.wireguard.server_address []);
  listening = λ e. ground (arith, int_beq_iff c.network.inference.port (pos 0));
}

validate_complete : (c : Config) → IsUsable c → validate c ≡ ok tt
unfolding validate
validate_complete c u = ground (
  arith,
  u.named,
  u.defined,
  u.addressed,
  u.listening,
  eq_iff c.models.default_id [],
  eq_iff c.network.wireguard.server_address [],
  int_beq_iff c.network.inference.port (pos 0),
)

-- Validate accepts a config exactly when it names a default model that the registry has, a server
-- address, and a port other than 0.
pub validate-IsUsable : (c : Config) → (validate c ≡ ok tt) ↔ IsUsable c
validate-IsUsable c = (validate_sound c, validate_complete c)

-- A field that keeps what it holds, or has its default where it holds nothing.
abbrev pub Defaulted : Text → Text → Text → Type 0
Defaulted given default filled =
    ((given ≢ []) × (filled ≡ given)) ⊎ ((given ≡ []) × (filled ≡ default))

-- `c` is `given` with the seven fields that have a default filled in, and all else as it was.
pub record IsFilled (h : Host) (given c : Config) : Type 0 where
  pub homebrew :
      Defaulted given.versions.homebrew_install_url
        (lit "https://raw.githubusercontent.com/Homebrew/install/HEAD/install.sh")
        c.versions.homebrew_install_url
  pub base_url :
      Defaulted given.models.source.base_url (lit "https://huggingface.co") c.models.source.base_url
  pub template :
      Defaulted given.models.source.file_url_template
        (lit "{base}/{repo}/resolve/main/{file}")
        c.models.source.file_url_template
  pub install :
      Defaulted given.installer.paths.install_dir
        (default_install_dir h)
        c.installer.paths.install_dir
  pub models :
      Defaulted given.installer.paths.model_dir
        (join_path (c.installer.paths.install_dir ∷ lit "models" ∷ []))
        c.installer.paths.model_dir
  pub config :
      Defaulted given.installer.paths.config_dir (default_user_dir h) c.installer.paths.config_dir
  pub logs :
      Defaulted given.installer.paths.log_dir
        (join_path (c.installer.paths.install_dir ∷ lit "logs" ∷ []))
        c.installer.paths.log_dir
  pub others : c ≡ record given {
    versions = record given.versions { homebrew_install_url = c.versions.homebrew_install_url };
    models = record given.models { source = c.models.source };
    installer = record given.installer { paths = c.installer.paths };
  }

or_default-Defaulted : (f v : Text) → Defaulted f v (or_default f v)
or_default-Defaulted f v = elim (Bool-cases (f == [])) [
  | inl empty ↦ inr ((eq_iff f []).0 empty, rw (empty) refl)
  | inr set ↦ inl (λ e. ground (arith, set, (eq_iff f []).1 e), rw (set) refl)
]

resolve_defaults-IsFilled : (h : Host) (c : Config) → IsFilled h c (resolve_defaults h c)
unfolding resolve_defaults resolve_paths resolve_source
resolve_defaults-IsFilled h c = record {
  homebrew = or_default-Defaulted _ _;
  base_url = or_default-Defaulted _ _;
  template = or_default-Defaulted _ _;
  install = or_default-Defaulted _ _;
  models = or_default-Defaulted _ _;
  config = or_default-Defaulted _ _;
  logs = or_default-Defaulted _ _;
  others = refl;
}

and_then-ok :
    {A B : Type 0} (r : Result A) (f : A → Result B) (b : B)
    → and_then r f ≡ ok b
    → (a : A) × (r ≡ ok a) × (f a ≡ ok b)
and_then-ok (ok a) f b h = (a, refl, h)
and_then-ok (err e) f b h = absurd cc

checked :
    (c c' : Config) → and_then (validate c) (λ _. ok c) ≡ ok c' → (validate c ≡ ok tt) × (c ≡ c')
checked c c' h = elim (Result-cases (validate c)) [
  | inl (u, q) ↦ (q, ground arith)
  | inr (e, q) ↦ absurd (ground arith)
]

-- The embedded files in order, and behind them the overrides where there is a directory for them.
abbrev pub merged :
    Yaml → (Domain → Result Text) → (Domain → Option (Result Text)) → Text → Config → Result Config
merged yaml embedded overrides dir empty =
    and_then (load_defaults yaml embedded domains empty)
      (λ base. if dir == [] then ok base else load_overrides yaml dir overrides domains base)

-- A config that Load returns meets the conditions of Validate. It is what the files give, with the
-- default in each of the seven fields that has one and that the files leave empty, and nothing else
-- changed.
pub load-IsUsable :
    (yaml : Yaml) (h : Host) (embedded : Domain → Result Text)
    (overrides : Domain → Option (Result Text)) (dir : Text) (empty c : Config)
    → load yaml h embedded overrides dir empty ≡ ok c
    → IsUsable c
      × ((given : Config) × (merged yaml embedded overrides dir empty ≡ ok given)
          × IsFilled h given c)
unfolding load
load-IsUsable yaml h embedded overrides dir empty c q =
    let (base, first, q1) = and_then-ok (load_defaults yaml embedded domains empty) (λ _. _) c q in
    let (given, second, q2) =
      and_then-ok (if dir == [] then ok base else load_overrides yaml dir overrides domains base)
        (λ _. _) c q1 in
    let (v, e) = checked (resolve_defaults h given) c q2 in
    subst
      (λ c.
        IsUsable c
        × ((given : Config) × (merged yaml embedded overrides dir empty ≡ ok given)
            × IsFilled h given c))
      e
      (
        validate_sound (resolve_defaults h given) v,
        (given, rw (first) second, resolve_defaults-IsFilled h given),
      )
