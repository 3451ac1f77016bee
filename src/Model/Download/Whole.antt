-- ===== src/Model/Download/Whole.antt =====
-- What Download (internal/model/download.go) leaves on disk, with Fetch (internal/model/source.go) for
-- its source.
use mathlib.Core.Path.{subst}
use loca_agent.Base.{
  Text, lit, ℕ, ◌+◌, List, [], ◌∷◌, ◌++◌, append-nil, is_some, Option, none, some, true, All, ◌==◌,
  nat_eq, length, ℤ,
}
use loca_agent.Base.{◌≡◌, ◌≢◌, refl, sym, ◌∙◌, ◌⊎◌, inl, inr, Option-cases, Bool-cases}
use loca_agent.Errs.{Error, wrapped}
use loca_agent.Effect.{Result, ok, err, check, or_fail, ◌>>=◌}
use loca_agent.Effect.Ensures.{Outcome}
use loca_agent.Effect.Keeps.{Keeps, bind-Keeps, lift-bind-Keeps, if-Keeps}
use loca_agent.Filepath.{join_path, dir_name}
use loca_agent.Sys.{Os}
use loca_agent.Config.{Model, ModelFile, ModelSource}
use loca_agent.Model.{file_url}
use loca_agent.Model.Verify.{verify_sha256}
use loca_agent.Model.Source.{
  Response, Client, Progress, offset_of, range_of, restart_target, append_target, open_target,
  copy_body, finish_fetch, transfer, fetch, http_source,
}
use loca_agent.Model.Source.Disk.{Partial, IsDisk, IsHonest}
use loca_agent.Model.Source.Resume.{fetch-Ensures}
use loca_agent.Model.Download.{
  FileResult, verified, unverified, rejected, judge, download_files, download,
}
use loca_agent.Model.Download.Account.{Verdict-cases}

-- Calls at one path leave the files at other paths alone.
pub record IsApart (os : Os) (content : Text → os.World → Option Text) : Type 0 where
  pub creates :
      (p q : Text) (perm : ℕ) (w : os.World)
      → p ≢ q
      → content q (os.create p perm w).1 ≡ content q w
  pub opens : (p q : Text) (w : os.World) → p ≢ q → content q (os.open_append p w).1 ≡ content q w
  pub writes :
      (p q text : Text) (w : os.World) → p ≢ q → content q (os.write p text w).1 ≡ content q w

module _ (os : Os) (client : Client os.World) (content : Text → os.World → Option Text)
    (disk : (p : Text) → IsDisk os p (content p)) (apart : IsApart os content)
    (quiet : (url : Text) (range : Option ℕ) (q : Text) (w : os.World)
      → content q (client.answer url range w).1 ≡ content q w) where
  module _ (dst q : Text) (other : dst ≢ q) (kept : Option Text) where
    Kept : os.World → Type 0
    Kept w = content q w ≡ kept

    copy_body-Kept :
        (total : ℤ) (written : ℕ) (chunks : List Text) (broken : Option Error) (w : os.World)
        → Kept w
        → Kept (copy_body os dst total written chunks broken w).2
    unfolding copy_body Kept
    copy_body-Kept total written [] broken w k = k
    copy_body-Kept total written (chunk ∷ chunks) broken w k =
        let result = os.write dst chunk w in
        let k' = apart.writes dst q chunk w other ∙ k in
        elim (Option-cases result.0.1) [
          | inr (x, f) ↦ rw (f, copy_body) k'
          | inl f ↦ elim (Bool-cases (result.0.0 == length chunk)) [
            | inr short ↦ rw (f, short, copy_body) k'
            | inl all ↦
                rw (f, all, copy_body)
                  (copy_body-Kept total (written + result.0.0) chunks broken result.1 k')
          ]
        ]

    finish_fetch-Keeps :
        (offset : ℕ) (resp : Response) (target : Option ℤ)
        → Keeps Kept (finish_fetch os dst offset resp target)
    unfolding finish_fetch
    finish_fetch-Keeps offset resp none w k = k
    finish_fetch-Keeps offset resp (some total) w k =
        copy_body-Kept total offset resp.chunks resp.broken w k

    open_target-Keeps :
        (offset : ℕ) (url : Text) (resp : Response)
        → Keeps Kept (open_target os dst offset url resp)
    unfolding open_target restart_target append_target Kept
    open_target-Keeps offset url resp =
        if-Keeps Kept (resp.status_code == 200) _ _ (λ w k. apart.creates dst q 0o666 w other ∙ k)
          (if-Keeps Kept (resp.status_code == 206) _ _ (λ w k. apart.opens dst q w other ∙ k)
            (if-Keeps Kept (resp.status_code == 416) _ _ (λ w k. k) (λ w k. k)))

    request-Keeps :
        (url : Text) (offset : ℕ)
        → Keeps Kept (
            or_fail
              (client.answer url (range_of os offset))
              (λ e. wrapped (lit "request " ++ (url ++ lit ": ")) e []))
    unfolding Kept
    request-Keeps url offset w k = quiet url (range_of os offset) q w ∙ k

    transfer-Keeps : (url : Text) (offset : ℕ) → Keeps Kept (transfer os client url dst offset)
    unfolding transfer
    transfer-Keeps url offset = lift-bind-Keeps Kept (check (client.refused url)) _ λ _ _.
        bind-Keeps Kept {B = List Progress}
          (or_fail (client.answer url (range_of os offset))
            (λ e. wrapped (lit "request " ++ (url ++ lit ": ")) e []))
          (λ resp. open_target os dst offset url resp >>= finish_fetch os dst offset resp)
          (request-Keeps url offset)
          (λ resp.
            bind-Keeps Kept {B = List Progress} (open_target os dst offset url resp)
              (finish_fetch os dst offset resp) (open_target-Keeps offset url resp)
              (finish_fetch-Keeps offset resp))

    fetch-Keeps : (url : Text) → Keeps Kept (fetch os client url dst)
    unfolding fetch Kept
    fetch-Keeps url w k =
        let made = os.mkdir_all (dir_name dst) 0o755 w in
        let k' = (disk q).made (dir_name dst) 0o755 w ∙ k in
        elim (Option-cases made.0) [
          | inr (e, f) ↦ rw (f, fetch) k'
          | inl f ↦ rw (f, fetch) (transfer-Keeps url (offset_of os dst made.1) made.1 k')
        ]

  http_source-keeps :
      (url dst q : Text) (w : os.World)
      → dst ≢ q
      → content q (http_source os client url dst w).1 ≡ content q w
  unfolding http_source
  http_source-keeps url dst q w other =
      unfold Kept in fetch-Keeps dst q other (content q w) url w refl

  module _ (sha256 : Text → Text) (src : ModelSource) (m : Model) (dir : Text)
      (text : ModelFile → Text) where
    abbrev pub path_of : ModelFile → Text
    path_of f = join_path (dir ∷ f.name ∷ [])

    run_files : List ModelFile → os.World → (List FileResult × Option Error) × os.World
    run_files = download_files sha256 os (http_source os client) src m dir

    -- The files of a list are at different places.
    abbrev pub Separate : List ModelFile → Type 0
    Separate [] = Unit
    Separate (f ∷ fs) = All (λ g. path_of g ≢ path_of f) fs × Separate fs

    run_files-keeps :
        (fs : List ModelFile) (q : Text) (w : os.World)
        → All (λ g. path_of g ≢ q) fs
        → content q (run_files fs w).1 ≡ content q w
    unfolding run_files download_files
    run_files-keeps [] q w h = refl
    run_files-keeps (f ∷ fs) q w (other, h) =
        let got = http_source os client (file_url src m f) (path_of f) w in
        let here = http_source-keeps (file_url src m f) (path_of f) q w other in
        let rest = run_files-keeps fs q got.1 h ∙ here in
        elim (Option-cases got.0) [
          | inr (e, b) ↦ rw (b, download_files) here
          | inl b ↦
              elim (Verdict-cases (judge (verify_sha256 sha256 os (path_of f) f.sha256 got.1))) [
                | inl v ↦ rw (b, v, download_files) rest
                | inr (inl v) ↦ rw (b, v, download_files) rest
                | inr (inr (e, v)) ↦ rw (b, v, download_files) here
              ]
        ]

    abbrev pub Held : os.World → ModelFile → Type 0
    Held w f = Partial (text f) (content (path_of f) w)

    abbrev pub Whole : os.World → ModelFile → Type 0
    Whole w f = content (path_of f) w ≡ some (text f)

    abbrev pub Honest : ModelFile → Type 0
    Honest f = IsHonest os client (content (path_of f)) (file_url src m f) (text f)

    Whole-Held : (w : os.World) (f : ModelFile) → Whole w f → Held w f
    Whole-Held w f q =
        subst (Partial (text f)) (sym q) (record { rest = []; whole = append-nil (text f) })

    -- How a download of some files ends: without an error and with all of them whole, or with an error
    -- and with all of them missing or begun.
    abbrev ends_of : (List FileResult × Option Error) × os.World → Option Error × os.World
    ends_of (out, w) = (out.1, w)

    abbrev Ends : List ModelFile → Option Error × os.World → Type 0
    Ends fs (e, w) =
        ((e ≡ none) × All (Whole w) fs) ⊎ ((cause : Error) × ((e ≡ some cause) × All (Held w) fs))

    http_source-Ends :
        (f : ModelFile) (w : os.World)
        → Honest f
        → Held w f
        → Ends (f ∷ []) (http_source os client (file_url src m f) (path_of f) w)
    unfolding http_source
    http_source-Ends f w honest held =
        let url = file_url src m f in
        let after = fetch os client url (path_of f) w in
        let end =
          fetch-Ensures os (path_of f) (content (path_of f)) (disk (path_of f)) (text f) client url
            honest w held in
        source_end f after.0 after.1 end
      where
        source_end :
            {A : Type 0} (f : ModelFile) (r : Result A) (w : os.World)
            → Outcome (λ _ w'. Whole w' f) (λ w'. Held w' f) r w
            → Ends (f ∷ []) (elim r [ ok _ ↦ none | err e ↦ some e ], w)
        source_end f (ok a) w h = inl (refl, (h, tt))
        source_end f (err e) w h = inr (e, (refl, (h, tt)))

    -- Fetching one file leaves the others as they are.
    others-Held :
        (f : ModelFile) (fs : List ModelFile) (w : os.World)
        → All (λ g. path_of g ≢ path_of f) fs
        → All (Held w) fs
        → All (Held (http_source os client (file_url src m f) (path_of f) w).1) fs
    others-Held f [] w apart held = tt
    others-Held f (g ∷ gs) w (other, apart) (here, held) = (
      subst (Partial (text g))
          (sym
            (http_source-keeps (file_url src m f) (path_of f) (path_of g) w (λ e. other (sym e))))
          here,
      others-Held f gs w apart held,
    )

    -- The file that has been fetched stays whole while the others are.
    first-Whole :
        (f : ModelFile) (fs : List ModelFile) (w : os.World)
        → All (λ g. path_of g ≢ path_of f) fs
        → Whole w f
        → Ends fs (ends_of (run_files fs w))
        → Ends (f ∷ fs) (ends_of (run_files fs w))
    first-Whole f fs w apart whole end = add_first end
      where
        kept : Whole (run_files fs w).1 f
        kept = run_files-keeps fs (path_of f) w apart ∙ whole

        add_first : Ends fs (ends_of (run_files fs w)) → Ends (f ∷ fs) (ends_of (run_files fs w))
        add_first (inl (e, all)) = inl (e, (kept, all))
        add_first (inr (cause, (e, all))) = inr (cause, (e, (Whole-Held _ f kept, all)))

    -- The loop goes on behind a file whose checksum is right or is not known.
    goes_on :
        (f : ModelFile) (fs : List ModelFile) (w : os.World)
        → let got = http_source os client (file_url src m f) (path_of f) w in
          got.0 ≡ none
          → (judge (verify_sha256 sha256 os (path_of f) f.sha256 got.1) ≡ verified)
            ⊎ (judge (verify_sha256 sha256 os (path_of f) f.sha256 got.1) ≡ unverified)
          → ends_of (run_files (f ∷ fs) w) ≡ ends_of (run_files fs got.1)
    unfolding run_files download_files
    goes_on f fs w b (inl v) = rw (b, v, download_files) refl
    goes_on f fs w b (inr v) = rw (b, v, download_files) refl

    -- The loop stops at a file that cannot be fetched or has another checksum.
    stops :
        (f : ModelFile) (fs : List ModelFile) (w : os.World)
        → let got = http_source os client (file_url src m f) (path_of f) w in
          ((cause : Error) × (got.0 ≡ some cause))
            ⊎ ((got.0 ≡ none)
                × ((e : Error) × (judge (verify_sha256 sha256 os (path_of f) f.sha256 got.1)
                      ≡ rejected e)))
          → (is_some (ends_of (run_files (f ∷ fs) w)).0 ≡ true)
            × ((ends_of (run_files (f ∷ fs) w)).1 ≡ got.1)
    unfolding run_files download_files
    stops f fs w (inl (cause, b)) = (rw (b, download_files) refl, rw (b, download_files) refl)
    stops f fs w (inr (b, (e, v))) =
        (rw (b, v, download_files) refl, rw (b, v, download_files) refl)

    stopped :
        (f : ModelFile) (fs : List ModelFile) (w : os.World) (e : Option Error) (w' : os.World)
        → is_some e ≡ true
        → w' ≡ w
        → Held w f
        → All (Held w) fs
        → Ends (f ∷ fs) (e, w')
    stopped f fs w none w' s q held rest = absurd cc
    stopped f fs w (some e) w' s q held rest =
        subst (λ v. Ends (f ∷ fs) (some e, v)) (sym q) (inr (e, (refl, (held, rest))))

    run_files-Ends :
        (fs : List ModelFile) (w : os.World)
        → Separate fs
        → All Honest fs
        → All (Held w) fs
        → Ends fs (ends_of (run_files fs w))
    unfolding run_files download_files
    run_files-Ends [] w separate honest held = inl (refl, tt)
    run_files-Ends (f ∷ fs) w (apart, separate) (here, honest) (held, others) =
        let got = http_source os client (file_url src m f) (path_of f) w in
        let rest = others-Held f fs w apart others in
        let more = run_files-Ends fs got.1 separate honest rest in
        elim (http_source-Ends f w here held) [
          | inr (cause, (b, (begun, _))) ↦
              let (e, q) = stops f fs w (inl (cause, b)) in stopped f fs got.1 _ _ e q begun rest
          | inl (b, (whole, _)) ↦
              let after = first-Whole f fs got.1 apart whole more in
              elim (Verdict-cases (judge (verify_sha256 sha256 os (path_of f) f.sha256 got.1))) [
                | inl v ↦ subst (Ends (f ∷ fs)) (sym (goes_on f fs w b (inl v))) after
                | inr (inl v) ↦ subst (Ends (f ∷ fs)) (sym (goes_on f fs w b (inr v))) after
                | inr (inr v) ↦
                    let (e, q) = stops f fs w (inr (b, v)) in
                    stopped f fs got.1 _ _ e q (Whole-Held got.1 f whole) rest
              ]
        ]

    -- Where the files of a model are at different places, each missing or a beginning of the text that
    -- the server has for it, Download either returns no error and all of them are whole, or it returns
    -- an error, and each of them is still missing or a beginning of its text.
    pub download-Ends :
        (w : os.World)
        → Separate m.files
        → All Honest m.files
        → All (Held w) m.files
        → let out = download sha256 os (http_source os client) src m dir w in
          ((out.0.1 ≡ none) × All (Whole out.1) m.files)
          ⊎ ((cause : Error) × ((out.0.1 ≡ some cause) × All (Held out.1) m.files))
    unfolding run_files download
    download-Ends w separate honest held = run_files-Ends m.files w separate honest held
