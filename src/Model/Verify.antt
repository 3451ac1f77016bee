-- ===== src/Model/Verify.antt =====
-- internal/model/verify.go: checking a file's SHA-256.
use loca_agent.Base.{
  Text, lit, ℕ, ◌+◌, ◌-◌, ◌/◌, ◌%◌, [], ◌∷◌, ◌++◌, Option, none, some, ◌==◌, text_eq, ltb,
}
use loca_agent.Base.{if◌then◌else◌, trim_space, equal_fold}
use loca_agent.Errs.{Error, plain, no_checksum}
use loca_agent.Effect.{Result, ok, err}
use loca_agent.Sys.{Os, contents, missing, unreadable}

hex_digit : ℕ → ℕ
hex_digit n = if ltb n 10 then b'0' + n else b'a' + (n % 16) - 10

-- hex.EncodeToString
unfoldable pub hex : Text → Text
unfolding hex_digit
hex [] = []
hex (x ∷ s) = hex_digit (x / 16) ∷ hex_digit (x % 16) ∷ hex s

-- crypto/sha256 is a parameter of the model.
module _ (sha256 : Text → Text) (os : Os) where
  -- FileSHA256
  unfoldable pub file_sha256 : Text → os.World → Result Text
  file_sha256 path w = elim (os.read_file path w) [
    | contents b ↦ ok (hex (sha256 b))
    | missing e ↦ err e
    | unreadable e ↦ err e
  ]

  -- VerifySHA256: `none` is the nil error.
  unfoldable pub verify_sha256 : Text → Text → os.World → Option Error
  verify_sha256 path expected w =
      if trim_space expected == [] then some no_checksum else elim (file_sha256 path w) [
        | err e ↦ some e
        | ok got ↦
            if equal_fold got (trim_space expected)
            then none
            else some (
                plain (
                  lit "checksum mismatch for "
                  ++ (path ++ (lit ": got " ++ (got ++ (lit ", expected " ++ expected))))))
      ]
