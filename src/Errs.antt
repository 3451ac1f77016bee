-- ===== src/Errs.antt =====
-- internal/errs/errs.go: user-facing errors, and the other error values that the program builds.
use loca_agent.Base.{Text, ◌++◌, Option, none, some, Bool, true, false, lit, text_eq}

-- `plain` is an error with a text and no cause. `wrapped before e after` is fmt.Errorf of a format
-- with one %w. `user` is errs.New and `user_wrap` is errs.Wrap, of code, message and fix.
-- `no_checksum` is the sentinel model.ErrNoChecksum.
pub data Error : Type 0 where
  plain : Text → Error
  wrapped : Text → Error → Text → Error
  user : Text → Text → Text → Error
  user_wrap : Error → Text → Text → Text → Error
  no_checksum : Error

-- The struct behind a `user` or a `user_wrap`.
pub record UserError : Type 0 where
  pub code : Text
  pub message : Text
  pub fix : Text
  pub cause : Option Error

-- The method Error of each error value.
unfoldable pub error_text : Error → Text
error_text (plain t) = t
error_text (wrapped before e after) = before ++ (error_text e ++ after)
error_text (user code message fix) = message
error_text (user_wrap cause code message fix) = message ++ (lit ": " ++ error_text cause)
error_text no_checksum = lit "no checksum configured"

unfoldable pub unwrap : Error → Option Error
unwrap (plain t) = none
unwrap (wrapped before e after) = some e
unwrap (user code message fix) = none
unwrap (user_wrap cause code message fix) = some cause
unwrap no_checksum = none

-- As: the first user-facing error on the chain of causes.
unfoldable pub as_user : Error → Option UserError
as_user (plain t) = none
as_user (wrapped before e after) = as_user e
as_user (user code message fix) =
    some (record { code = code; message = message; fix = fix; cause = none })
as_user (user_wrap cause code message fix) =
    some (record { code = code; message = message; fix = fix; cause = some cause })
as_user no_checksum = none

-- errors.Is(err, ErrNoChecksum)
unfoldable pub is_no_checksum : Error → Bool
is_no_checksum (plain t) = false
is_no_checksum (wrapped before e after) = is_no_checksum e
is_no_checksum (user code message fix) = false
is_no_checksum (user_wrap cause code message fix) = is_no_checksum cause
is_no_checksum no_checksum = true
