-- ===== src/Sys/Privilege.antt =====
-- internal/sys/privilege_unix.go and privilege_windows.go: whether the process is elevated.
use loca_agent.Base.{Text, lit, ℤ, pos, ◌==◌, int_eq, Bool, true, false, Option, none, some}
use loca_agent.Errs.{Error}

-- IsElevated outside of Windows, from os.Geteuid
unfoldable pub is_root : {W : Type 0} → (W → ℤ) → W → Bool
is_root geteuid w = geteuid w == pos 0

abbrev opened : Option Error → Bool
opened none = true
opened (some e) = false

-- IsElevated on Windows, from os.Open
unfoldable pub is_administrator : {W : Type 0} → (Text → W → Option Error) → W → Bool
is_administrator try_open w = opened (try_open (lit "\\\\.\\PHYSICALDRIVE0") w)
