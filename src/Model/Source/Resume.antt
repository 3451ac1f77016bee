-- ===== src/Model/Source/Resume.antt =====
-- That Fetch (internal/model/source.go) resumes a partial file and completes it.
use mathlib.Core.Path.{subst}
use loca_agent.Base.{
  Text, ℕ, ◌+◌, List, [], ◌∷◌, ◌++◌, append_assoc, append-nil, Option, none, some, length, ◌==◌,
  nat_eq, nat_beq_iff, ℤ,
}
use loca_agent.Base.{◌≡◌, refl, sym, ap, ◌∙◌, inl, inr, arith, Bool-cases, Option-cases}
use loca_agent.Errs.{Error}
use loca_agent.Effect.{Result-cases}
use loca_agent.Effect.Ensures.{Outcome, Ensures, bind-Ensures, or_fail-Ensures, if-Ensures}
use loca_agent.Filepath.{dir_name}
use loca_agent.Sys.{Os}
use loca_agent.Model.Source.{
  Response, Client, offset_of, range_of, restart_target, append_target, open_target, copy_body,
  finish_fetch, transfer, fetch,
}
use loca_agent.Model.Source.Disk.{
  concat, take, IsPrefix, Partial, IsDisk, Serves, IsAnswer, IsHonest,
}
use loca_agent.Model.Source.Prefixes.{take_rest, take-length, rest_empty, same_rest, whole_length}

range_of-some : (os : Os) (o n : ℕ) → range_of os o ≡ some n → o ≡ n
unfolding range_of
range_of-some os o n h = ground arith

range_of-zero : (os : Os) (o : ℕ) → o ≡ 0 → (n : ℕ) → range_of os o ≡ some n → ⊥
unfolding range_of
range_of-zero os o z n h = ground arith

module _ (os : Os) (dst : Text) (content : os.World → Option Text) (disk : IsDisk os dst content)
    (full : Text) where
  Partial-none : (w : os.World) → content w ≡ none → Partial full (content w)
  Partial-none w q = subst (Partial full) (sym q) tt

  Partial-some :
      (w : os.World) (t r : Text) → content w ≡ some t → t ++ r ≡ full → Partial full (content w)
  Partial-some w t r q e = subst (Partial full) (sym q) (record { rest = r; whole = e })

  -- After one write of a chunk, of which all or a part arrived.
  Partial-write :
      (w : os.World) (t chunk more : Text)
      → content w ≡ some t
      → t ++ (chunk ++ more) ≡ full
      → Partial full (content (os.write dst chunk w).1)
  Partial-write w t chunk more q e =
      let n = (os.write dst chunk w).0.0 in
      let (r, s) = take_rest n chunk in
      Partial-some (os.write dst chunk w).1 (t ++ take n chunk) (r ++ more)
        (disk.written w t chunk q)
        (append_assoc t (take n chunk) (r ++ more)
          ∙ ap (λ l. t ++ l) (sym (append_assoc (take n chunk) r more) ∙ ap (λ l. l ++ more) s)
          ∙ e)

  written_all :
      (w : os.World) (t chunk : Text)
      → content w ≡ some t
      → (os.write dst chunk w).0.0 ≡ length chunk
      → content (os.write dst chunk w).1 ≡ some (t ++ chunk)
  written_all w t chunk q e =
      disk.written w t chunk q
      ∙ ap (λ n. some (t ++ take n chunk)) e
      ∙ ap (λ l. some (t ++ l)) (take-length chunk)

  -- What the copy leaves: a partial file, and the whole of the chunks where it ends without an error.
  Copied : Text → List Text → Option Error → Option Error → os.World → Type 0
  Copied t chunks broken e w =
      Partial full (content w)
      × (e ≡ none → (content w ≡ some (t ++ concat chunks)) × (broken ≡ none))

  Copied-more :
      (t chunk : Text) (chunks : List Text) (broken e : Option Error) (w : os.World)
      → Copied (t ++ chunk) chunks broken e w
      → Copied t (chunk ∷ chunks) broken e w
  unfolding Copied
  Copied-more t chunk chunks broken e w (p, f) =
      (p, λ h. let (c, b) = f h in (c ∙ ap some (append_assoc t chunk (concat chunks)), b))

  copy_body-Copied :
      (total : ℤ) (written : ℕ) (chunks : List Text) (broken : Option Error) (w : os.World)
      (t more : Text)
      → content w ≡ some t
      → t ++ (concat chunks ++ more) ≡ full
      → let out = copy_body os dst total written chunks broken w in
        Copied t chunks broken out.0 out.2
  unfolding copy_body Copied
  copy_body-Copied total written [] broken w t more q e =
      (Partial-some w t more q e, λ h. (q ∙ ap some (sym (append-nil t)), h))
  copy_body-Copied total written (chunk ∷ chunks) broken w t more q e =
      let result = os.write dst chunk w in
      let split = ap (λ l. t ++ l) (sym (append_assoc chunk (concat chunks) more)) ∙ e in
      let here = Partial-write w t chunk (concat chunks ++ more) q split in
      elim (Option-cases result.0.1) [
        | inr (x, f) ↦ rw (f, copy_body) (here, λ h. absurd cc)
        | inl f ↦ elim (Bool-cases (result.0.0 == length chunk)) [
          | inr short ↦ rw (f, short, copy_body) (here, λ h. absurd cc)
          | inl all ↦
              rw (f, all, copy_body)
                (Copied-more t chunk chunks broken _ _ (
                  copy_body-Copied total (written + result.0.0) chunks broken result.1 (t ++ chunk)
                    more (written_all w t chunk q ((nat_beq_iff result.0.0 (length chunk)).0 all))
                    (append_assoc t chunk (concat chunks ++ more) ∙ split)))
        ]
      ]

  -- The file before a request: what is there, and the offset that is its size.
  data Before (offset : ℕ) (w : os.World) : Type 0 where
    missing : content w ≡ none → offset ≡ 0 → Before offset w
    begun : (t r : Text) → content w ≡ some t → t ++ r ≡ full → offset ≡ length t → Before offset w

  Partial-Before : {offset : ℕ} {w : os.World} → Before offset w → Partial full (content w)
  Partial-Before {w} (missing q z) = Partial-none w q
  Partial-Before {w} (begun t r q e z) = Partial-some w t r q e

  Before-same :
      {offset : ℕ} {v w : os.World} → content v ≡ content w → Before offset w → Before offset v
  Before-same c (missing q z) = missing (c ∙ q) z
  Before-same c (begun t r q e z) = begun t r (c ∙ q) e z

  -- What the chunks of a response are about to complete.
  record Ready (resp : Response) (w : os.World) : Type 0 where
    have : Text
    more : Text
    there : content w ≡ some have
    fits : have ++ (concat resp.chunks ++ more) ≡ full
    last : resp.broken ≡ none → more ≡ []

  Complete : os.World → Type 0
  Complete w = content w ≡ some full

  Held : os.World → Type 0
  Held w = Partial full (content w)

  Target : Response → Option ℤ → os.World → Type 0
  Target resp none w = Complete w
  Target resp (some total) w = Ready resp w

  Partial-Complete : (w : os.World) → Complete w → Held w
  unfolding Complete Held
  Partial-Complete w q = Partial-some w full [] q (append-nil full)

  ends :
      {resp : Response} {w : os.World} (ready : Ready resp w)
      → resp.broken ≡ none
      → ready.have ++ concat resp.chunks ≡ full
  ends {resp} ready b =
      ap (λ l. ready.have ++ l)
        (sym (append-nil (concat resp.chunks))
          ∙ ap (λ l. concat resp.chunks ++ l) (sym (ready.last b)))
      ∙ ready.fits

  finish_fetch-Ensures :
      (offset : ℕ) (resp : Response) (target : Option ℤ)
      → Ensures (Target resp target) (finish_fetch os dst offset resp target) (λ _. Complete) Held
  unfolding finish_fetch Target Complete Held Copied
  finish_fetch-Ensures offset resp none w c = c
  finish_fetch-Ensures offset resp (some total) w ready =
      let (p, f) =
        copy_body-Copied total offset resp.chunks resp.broken w ready.have ready.more ready.there
          ready.fits in
      elim (Option-cases (copy_body os dst total offset resp.chunks resp.broken w).0) [
        | inr (x, q) ↦ rw (q, finish_fetch) p
        | inl q ↦ let (c, b) = f q in rw (q, finish_fetch) (c ∙ ap some (ends ready b))
      ]

  restart-Ensures :
      (offset : ℕ) (resp : Response)
      → Serves resp full
      → Ensures (Before offset) (restart_target os dst resp) (Target resp) Held
  unfolding restart_target Target Held
  restart-Ensures offset resp serves w before = elim (Option-cases (os.create dst 0o666 w).0) [
    | inr (x, q) ↦
        rw (q, restart_target)
          (subst (Partial full) (sym (disk.refused 0o666 w x q)) (Partial-Before before))
    | inl q ↦
        rw (q, restart_target)
          (record {
            have = [];
            more = serves.begins.rest;
            there = disk.emptied 0o666 w q;
            fits = serves.begins.whole;
            last = λ b.
                rest_empty (concat resp.chunks) serves.begins.rest
                  (serves.begins.whole ∙ sym (serves.finishes b));
          })
  ]

  append-Ready :
      (offset : ℕ) (resp : Response)
      → IsAnswer full (range_of os offset) resp
      → resp.status_code ≡ 206
      → (w w' : os.World) → content w' ≡ content w
      → Before offset w
      → Ready resp w'
  append-Ready offset resp answer status w w' c (missing q z) =
      let (before, rest, told) = answer.part status in
      absurd (range_of-zero os offset z (length before) told.0)
  append-Ready offset resp answer status w w' c (begun t r q e z) =
      let (before, rest, (asked, (whole, serves))) = answer.part status in
      let (same, left) =
        same_rest t r before rest (e ∙ sym whole)
          (sym z ∙ range_of-some os offset (length before) asked) in
      record {
        have = t;
        more = serves.begins.rest;
        there = c ∙ q;
        fits = ap (λ l. t ++ l) (serves.begins.whole ∙ sym left) ∙ e;
        last = λ b.
            rest_empty (concat resp.chunks) serves.begins.rest
              (serves.begins.whole ∙ sym (serves.finishes b));
      }

  append-Ensures :
      (offset : ℕ) (resp : Response)
      → IsAnswer full (range_of os offset) resp
      → resp.status_code ≡ 206
      → Ensures (Before offset) (append_target os dst offset resp) (Target resp) Held
  unfolding append_target Target Held
  append-Ensures offset resp answer status w before = elim (Option-cases (os.open_append dst w).0) [
    | inr (x, q) ↦
        rw (q, append_target) (subst (Partial full) (sym (disk.opened w)) (Partial-Before before))
    | inl q ↦
        rw (q, append_target) (append-Ready offset resp answer status w _ (disk.opened w) before)
  ]

  beyond_whole :
      (offset : ℕ) (resp : Response)
      → IsAnswer full (range_of os offset) resp
      → resp.status_code ≡ 416
      → (w : os.World) → Before offset w
      → Complete w
  unfolding Complete
  beyond_whole offset resp answer status w (missing q z) =
      let (o, told) = answer.beyond status in absurd (range_of-zero os offset z o told.0)
  beyond_whole offset resp answer status w (begun t r q e z) =
      let (o, (asked, far)) = answer.beyond status in
      q ∙ ap some (whole_length t r full o e (sym (range_of-some os offset o asked) ∙ z) far)

  open_target-Ensures :
      (offset : ℕ) (url : Text) (resp : Response)
      → IsAnswer full (range_of os offset) resp
      → Ensures (Before offset) (open_target os dst offset url resp) (Target resp) Held
  unfolding open_target Held Target Complete
  open_target-Ensures offset url resp answer =
      if-Ensures (resp.status_code == 200) _ _ _ _
        (λ h. restart-Ensures offset resp (answer.whole ((nat_beq_iff resp.status_code 200).0 h)))
        (λ _.
          if-Ensures (resp.status_code == 206) _ _ _ _
            (λ h. append-Ensures offset resp answer ((nat_beq_iff resp.status_code 206).0 h))
            (λ _.
              if-Ensures (resp.status_code == 416) _ _ _ _
                (λ h w before.
                  beyond_whole offset resp answer ((nat_beq_iff resp.status_code 416).0 h) w before)
                (λ _ w before. Partial-Before before)))

  size-Before : (w : os.World) → Partial full (content w) → Before (offset_of os dst w) w
  unfolding offset_of
  size-Before w p = elim (Option-cases (content w)) [
    | inl q ↦ missing q (rw (disk.absent w q, offset_of) refl)
    | inr (t, q) ↦
        let held : IsPrefix t full = subst (Partial full) q p in
        begun t held.rest q held.whole
          (let (info, (at, size)) = disk.sized w t q in rw (at, offset_of) size)
  ]

  request-Ensures :
      (client : Client os.World) (url : Text) (offset : ℕ)
      → IsHonest os client content url full
      → Ensures
          (Before offset)
          (client.answer url (range_of os offset))
          (λ resp w. IsAnswer full (range_of os offset) resp × Before offset w)
          Held
  unfolding Held
  request-Ensures client url offset honest w before =
      let after = Before-same (honest.keeps (range_of os offset) w) before in
      elim (Result-cases (client.answer url (range_of os offset) w).0) [
        | inl (resp, q) ↦ rw (q) (honest.answers (range_of os offset) w resp q, after)
        | inr (e, q) ↦ rw (q) (Partial-Before after)
      ]

  transfer-Ensures :
      (client : Client os.World) (url : Text) (offset : ℕ)
      → IsHonest os client content url full
      → Ensures (Before offset) (transfer os client url dst offset) (λ _. Complete) Held
  unfolding transfer Held
  transfer-Ensures client url offset honest w before = elim (Option-cases (client.refused url)) [
    | inr (e, q) ↦ rw (q, transfer) (Partial-Before before)
    | inl q ↦
        rw (q, transfer)
          (bind-Ensures _ _ (λ resp w. IsAnswer full (range_of os offset) resp × Before offset w) _
            Held
            (or_fail-Ensures (client.answer url (range_of os offset)) _ _ Held
              (request-Ensures client url offset honest))
            (λ resp w (answer, before).
              bind-Ensures {P = Before offset} _ _ (Target resp) _ Held
                (open_target-Ensures offset url resp answer) (finish_fetch-Ensures offset resp) w
                before)
            w before)
  ]

  fetch_holds :
      (client : Client os.World) (url : Text)
      → IsHonest os client content url full
      → Ensures Held (fetch os client url dst) (λ _. Complete) Held
  unfolding fetch Held
  fetch_holds client url honest w held =
      let made = os.mkdir_all (dir_name dst) 0o755 w in
      let after : Held made.1 =
        subst (Partial full) (sym (disk.made (dir_name dst) 0o755 w)) held in
      elim (Option-cases made.0) [
        | inr (e, q) ↦ rw (q, fetch) after
        | inl q ↦
            rw (q, fetch)
              (transfer-Ensures client url (offset_of os dst made.1) honest made.1
                (size-Before made.1 after))
      ]

  -- Fetch, from a file that is missing or holds a beginning of the text that an honest server has:
  -- when it succeeds the file is the whole text, and when it fails, in whichever call, the file is
  -- still missing or a beginning of the text, which a later Fetch resumes.
  pub fetch-Ensures :
      (client : Client os.World) (url : Text)
      → IsHonest os client content url full
      → (w : os.World) → Partial full (content w)
      → let after = fetch os client url dst w in
        Outcome (λ _ w'. content w' ≡ some full) (λ w'. Partial full (content w')) after.0 after.1
  unfolding Held Complete
  fetch-Ensures client url honest = fetch_holds client url honest
