-- ===== src/Model/Source/Delivers.antt =====
-- That Fetch (internal/model/source.go) completes the file when no call fails.
use loca_agent.Base.{
  Text, ℕ, List, [], ◌∷◌, Option, none, some, nat_eq, nat_beq_iff, ◌+◌, ℤ, length,
}
use loca_agent.Base.{◌≡◌, refl, ap, ◌⊎◌, inl, inr}
use loca_agent.Effect.{Result, ok, err}
use loca_agent.Effect.Ensures.{Outcome, Ensures, bind-Ensures, or_fail-Ensures, Outcome-ok}
use loca_agent.Filepath.{dir_name}
use loca_agent.Sys.{Os}
use loca_agent.Model.Source.{
  Response, Client, Progress, offset_of, range_of, restart_target, append_target, open_target,
  copy_body, finish_fetch, transfer, fetch,
}
use loca_agent.Model.Source.Disk.{Partial, IsDisk, IsHonest, IsWilling}
use loca_agent.Model.Source.Resume.{fetch-Ensures}

module _ (os : Os) (client : Client os.World) (url dst : Text)
    (willing : IsWilling os client url dst) where
  Known : Response → os.World → Type 0
  Known resp w =
      ((resp.status_code ≡ 200) ⊎ ((resp.status_code ≡ 206) ⊎ (resp.status_code ≡ 416)))
      × (resp.broken ≡ none)

  Anything : {A : Type 0} → A → os.World → Type 0
  Anything a w = Unit

  copy_body_ends :
      (total : ℤ) (written : ℕ) (chunks : List Text) (w : os.World)
      → (copy_body os dst total written chunks none w).0 ≡ none
  unfolding copy_body
  copy_body_ends total written [] w = refl
  copy_body_ends total written (chunk ∷ chunks) w =
      rw
        (
          ap (λ r. r.1) (willing.writes chunk w),
          (nat_beq_iff (os.write dst chunk w).0.0 (length chunk)).1
              (ap (λ r. r.0) (willing.writes chunk w)),
          copy_body,
        )
        (copy_body_ends total (written + (os.write dst chunk w).0.0) chunks
          (os.write dst chunk w).1)

  finish_fetch_ends :
      (offset : ℕ) (resp : Response) (target : Option ℤ)
      → resp.broken ≡ none
      → Ensures (Anything target) (finish_fetch os dst offset resp target) Anything (λ _. ⊥)
  unfolding finish_fetch Anything
  finish_fetch_ends offset resp none b w h = tt
  finish_fetch_ends offset resp (some total) b w h =
      rw (b, copy_body_ends total offset resp.chunks w, finish_fetch) tt

  open_target_ends :
      (offset : ℕ) (resp : Response)
      → Ensures (Known resp) (open_target os dst offset url resp) Anything (λ _. ⊥)
  unfolding open_target Known Anything restart_target append_target
  open_target_ends offset resp w (inl s, b) = rw (s, willing.creates 0o666 w) tt
  open_target_ends offset resp w (inr (inl s), b) = rw (s, willing.opens w) tt
  open_target_ends offset resp w (inr (inr s), b) = rw (s) tt

  request_ends :
      (offset : ℕ)
      → Ensures (Anything offset) (client.answer url (range_of os offset)) Known (λ _. ⊥)
  unfolding Known Anything
  request_ends offset w h =
      let (resp, (q, known)) = willing.responds (range_of os offset) w in rw (q) known

  transfer_ends :
      (offset : ℕ) → Ensures (Anything offset) (transfer os client url dst offset) Anything (λ _. ⊥)
  unfolding transfer Known
  transfer_ends offset w h =
      rw (willing.takes, transfer)
        (bind-Ensures _ _ Known _ (λ _. ⊥)
          (or_fail-Ensures (client.answer url (range_of os offset)) _ _ (λ _. ⊥)
            (request_ends offset))
          (λ resp w known.
            bind-Ensures {P = Known resp} _ _ Anything _ (λ _. ⊥) (open_target_ends offset resp)
              (λ target. finish_fetch_ends offset resp target known.1) w known)
          w h)

  fetch_ends : Ensures (Anything url) (fetch os client url dst) Anything (λ _. ⊥)
  unfolding fetch Anything
  fetch_ends w h =
      let made = os.mkdir_all (dir_name dst) 0o755 w in
      rw (willing.makes (dir_name dst) 0o755 w, fetch)
        (transfer_ends (offset_of os dst made.1) made.1 tt)

  never_fails :
      {A : Type 0} (r : Result A) (w : os.World)
      → Outcome Anything (λ _. ⊥) r w
      → (a : A) × (r ≡ ok a)
  never_fails (ok a) w h = (a, refl)
  never_fails (err e) w h = absurd h

  -- When an honest server has a text, the URL is not refused, the server and the calls do not fail, and
  -- the file is missing or a beginning of the text, Fetch returns its progress reports, and the file is the whole text.
  pub fetch_completes :
      (content : os.World → Option Text) (full : Text)
      → IsDisk os dst content
      → IsHonest os client content url full
      → (w : os.World) → Partial full (content w)
      → let after = fetch os client url dst w in
        (reports : List Progress) × ((after.0 ≡ ok reports) × (content after.1 ≡ some full))
  unfolding Anything
  fetch_completes content full disk honest w held =
      let after = fetch os client url dst w in
      let (reports, q) = never_fails after.0 after.1 (fetch_ends w tt) in
      (
        reports,
        (
          q,
          Outcome-ok (λ _ w'. content w' ≡ some full) (λ w'. Partial full (content w')) after.0
              reports after.1 q (fetch-Ensures os dst content disk full client url honest w held),
        ),
      )
