-- ===== src/Logging.antt =====
-- internal/logging: levels, the console handler and the handler that feeds several handlers.
pub mod Family
use loca_agent.Base.{
  Text, lit, List, [], ◌∷◌, ◌++◌, Option, none, some, Bool, true, false, ◌==◌, text_eq,
}
use loca_agent.Base.{if◌then◌else◌, ℤ, pos, negsuc, int_leb}
use loca_agent.Errs.{Error}
use loca_agent.Effect.{Action, pure, ◌>>◌}

-- slog.Level
abbrev pub level_error : ℤ
level_error = pos 8

abbrev pub level_warn : ℤ
level_warn = pos 4

abbrev pub level_info : ℤ
level_info = pos 0

abbrev pub level_debug : ℤ
level_debug = negsuc 3

-- LevelVerbose
abbrev pub level_verbose : ℤ
level_verbose = negsuc 7

-- levelLabel: the label and the colour
unfoldable pub level_label : ℤ → Text × Text
level_label l =
    if int_leb level_error l
    then (lit "ERROR", 27 ∷ lit "[31m")
    else if int_leb level_warn l
    then (lit "WARN ", 27 ∷ lit "[33m")
    else if int_leb level_info l
    then (lit "INFO ", 27 ∷ lit "[36m")
    else if int_leb level_debug l
    then (lit "DEBUG", 27 ∷ lit "[35m")
    else (lit "TRACE", 27 ∷ lit "[90m")

-- A key with its value as %v prints it.
pub record Attr : Type 0 where
  pub key : Text
  pub shown : Text

-- slog.Record, without its time
pub record Record : Type 0 where
  pub level : ℤ
  pub message : Text
  pub attrs : List Attr

unfoldable pub show_attrs : List Attr → Text
show_attrs [] = []
show_attrs (a ∷ rest) = b' ' ∷ (a.key ++ (b'=' ∷ (a.shown ++ show_attrs rest)))

pub record Console : Type 0 where
  pub level : ℤ
  pub color : Bool
  pub attrs : List Attr

-- The line that consoleHandler.Handle writes.
unfoldable pub console_line : Console → Record → Text
unfolding level_label show_attrs
console_line h r =
    let (label, code) = level_label r.level in
    (if h.color then code ++ (label ++ (27 ∷ lit "[0m")) else label)
    ++ (b' ' ∷ (r.message ++ (show_attrs h.attrs ++ (show_attrs r.attrs ++ (10 ∷ [])))))

-- consoleHandler.WithAttrs
unfoldable pub console_with_attrs : Console → List Attr → Console
console_with_attrs h attrs = record h { attrs = h.attrs ++ attrs }

-- slog.Handler, over the state that handlers write to.
pub record Handler (W : Type 0) : Type 0 where
  pub enabled : ℤ → Bool
  pub handle : Record → Action W (Unit {0})

-- consoleHandler, whose writer is a parameter
unfoldable pub console_handler : {W : Type 0} → (Text → Action W (Unit {0})) → Console → Handler W
unfolding console_line
console_handler write h = record {
  enabled = λ l. int_leb h.level l;
  handle = λ r. write (console_line h r);
}

module _ {W : Type 0} where
  unfoldable pub any_enabled : List (Handler W) → ℤ → Bool
  any_enabled [] l = false
  any_enabled (h ∷ hs) l = if h.enabled l then true else any_enabled hs l

  unfoldable pub handle_all : List (Handler W) → Record → Action W (Unit {0})
  handle_all [] r = pure tt
  handle_all (h ∷ hs) r =
      let rest = handle_all hs r in if h.enabled r.level then h.handle r >> rest else rest

  -- multiHandler
  unfoldable pub multi_handler : List (Handler W) → Handler W
  unfolding any_enabled handle_all
  multi_handler hs = record { enabled = any_enabled hs; handle = handle_all hs }

  -- The handler of the logger that New returns, without errors: the console's, and where there is a file
  -- the library's JSON handler for it, which is a parameter.
  unfoldable pub new_handler :
      (Text → Action W (Unit {0})) → (ℤ → Handler W) → ℤ → Bool → Text → Handler W
  unfolding console_handler multi_handler
  new_handler write json level color file = multi_handler (
      console_handler write (record { level = level; color = color; attrs = [] })
      ∷ (if file == [] then [] else json level_verbose ∷ []))
