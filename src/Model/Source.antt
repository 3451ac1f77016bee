-- ===== src/Model/Source.antt =====
-- internal/model/source.go: downloads with resume.
pub mod Disk
pub mod Prefixes
pub mod Resume
pub mod Delivers
pub mod Range
use loca_agent.Base.{
  Text, lit, ℕ, ◌+◌, ◌-◌, List, [], ◌∷◌, ◌++◌, Option, none, some, true, false, ◌==◌, nat_eq,
}
use loca_agent.Base.{if◌then◌else◌, ltb, ℤ, pos, negsuc, is_positive, parse_int, trim_space, length}
use loca_agent.Errs.{Error, plain, wrapped}
use loca_agent.Effect.{Result, ok, err, Action, pure, lift, check, or_fail, ◌>>=◌, ◌>>◌}
use loca_agent.Sys.{Os}
use loca_agent.Filepath.{dir_name, base_name}

pub record Progress : Type 0 where
  pub file : Text
  pub downloaded : ℕ
  pub total : ℤ

-- What Client.Do returns: the head, then the body in chunks, which may break off.
pub record Response : Type 0 where
  pub status_code : ℕ
  pub status : Text
  pub content_length : ℤ
  pub content_range : Text
  pub chunks : List Text
  pub broken : Option Error

-- net/http: what NewRequestWithContext refuses a URL with, and the client's answer to a request with a
-- URL and the offset of a Range header, if there is one.
pub record Client (W : Type 0) : Type 0 where
  pub refused : Text → Option Error
  pub answer : Text → Option ℕ → Action W Response

-- The text behind the last slash.
unfoldable pub after_slash : Text → Option Text
after_slash [] = none
after_slash (c ∷ s) = elim (after_slash s) [
  | some t ↦ some t
  | none ↦ if c == b'/' then some s else none
]

-- totalFromContentRange
unfoldable pub total_from_content_range : Text → ℤ
unfolding after_slash
total_from_content_range h = elim (after_slash h) [
  | none ↦ pos 0
  | some t ↦ elim (parse_int (trim_space t)) [ none ↦ pos 0 | some n ↦ n ]
]

-- offset + n, in int64 without overflow
abbrev add_int : ℕ → ℤ → ℤ
add_int offset (pos n) = pos (offset + n)
add_int offset (negsuc n) = if ltb n offset then pos (offset - n - 1) else negsuc (n - offset)

module _ (os : Os) where
  -- What a Range request starts from: the size of the file on disk.
  unfoldable pub offset_of : Text → os.World → ℕ
  offset_of dst w = elim (os.stat dst w) [ none ↦ 0 | some info ↦ info.size ]

  -- The server sends the whole file: it is truncated.
  unfoldable pub restart_target : Text → Response → Action os.World (Option ℤ)
  restart_target dst resp w =
      let (e, w') = os.create dst 0o666 w in
      (elim e [ none ↦ ok (some resp.content_length) | some cause ↦ err cause ], w')

  -- The server sends the rest: it is appended.
  unfoldable pub append_target : Text → ℕ → Response → Action os.World (Option ℤ)
  append_target dst offset resp w =
      let (e, w') = os.open_append dst w in
      let total = total_from_content_range resp.content_range in
      (
        elim e [
          | none ↦
              ok (some (if is_positive total then total else add_int offset resp.content_length))
          | some cause ↦ err cause
        ],
        w',
      )

  -- openTarget: the total, or `none` for the nil file of a complete download.
  unfoldable pub open_target : Text → ℕ → Text → Response → Action os.World (Option ℤ)
  unfolding restart_target append_target
  open_target dst offset url resp =
      if resp.status_code == 200
      then restart_target dst resp
      else if resp.status_code == 206
      then append_target dst offset resp
      else if resp.status_code == 416
      then pure none
      else lift
          (err (plain (lit "unexpected status " ++ (resp.status ++ (lit " fetching " ++ url)))))

  -- io.Copy into a progressWriter: every chunk is written and then reported. A write error, a short
  -- write and a broken body end the copy.
  unfoldable pub copy_body :
      Text → ℤ → ℕ → List Text → Option Error → os.World → Option Error × List Progress × os.World
  copy_body dst total written [] broken w = (broken, [], w)
  copy_body dst total written (chunk ∷ chunks) broken w =
      let (result, w') = os.write dst chunk w in
      let (n, failure) = result in
      let here : Progress = record {
        file = base_name dst;
        downloaded = written + n;
        total = total;
      } in
      elim failure [
        | some e ↦ (some e, here ∷ [], w')
        | none ↦ elim (n == length chunk) [
          | false ↦ (some (plain (lit "short write")), here ∷ [], w')
          | true ↦
              let (e, more, w'') = copy_body dst total (written + n) chunks broken w' in
              (e, here ∷ more, w'')
        ]
      ]

  -- The copy at the end of Fetch. The error names the file.
  unfoldable pub finish_fetch :
      Text → ℕ → Response → Option ℤ → os.World → Result (List Progress) × os.World
  unfolding copy_body
  finish_fetch dst offset resp none w = (ok [], w)
  finish_fetch dst offset resp (some total) w =
      let (e, reports, w') = copy_body dst total offset resp.chunks resp.broken w in
      (
        elim e [
          | none ↦ ok reports
          | some cause ↦ err (wrapped (lit "download " ++ (base_name dst ++ lit ": ")) cause [])
        ],
        w',
      )

  unfoldable pub range_of : ℕ → Option ℕ
  range_of offset = if ltb 0 offset then some offset else none

  module _ (client : Client os.World) where
    unfoldable pub transfer : Text → Text → ℕ → Action os.World (List Progress)
    unfolding open_target finish_fetch range_of
    transfer url dst offset = do
      lift (check (client.refused url))
      resp ←
          or_fail (client.answer url (range_of offset))
            (λ e. wrapped (lit "request " ++ (url ++ lit ": ")) e [])
      target ← open_target dst offset url resp
      finish_fetch dst offset resp target

    -- HTTPSource.Fetch: the progress reports of a download that succeeds.
    unfoldable pub fetch : Text → Text → Action os.World (List Progress)
    unfolding transfer offset_of
    fetch url dst w =
        let (e, w') = os.mkdir_all (dir_name dst) 0o755 w in
        elim e [
          | some cause ↦ (err (wrapped (lit "create download directory: ") cause []), w')
          | none ↦ transfer url dst (offset_of dst w') w'
        ]

    -- HTTPSource as its callers use it: the error alone.
    unfoldable pub http_source : Text → Text → os.World → Option Error × os.World
    unfolding fetch
    http_source url dst w =
        let (r, w') = fetch url dst w in (elim r [ ok _ ↦ none | err e ↦ some e ], w')
