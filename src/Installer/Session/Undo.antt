-- ===== src/Installer/Session/Undo.antt =====
-- Steps of the plans (internal/installer/windows, internal/installer/mac) and what they leave of a view
-- of the machine.
use loca_agent.Base.{sym, Text, ◌≡◌, refl, ap, ◌∙◌, Bool, true, false, some}
use loca_agent.Errs.{Error}
use loca_agent.Effect.{ok, err, Action}
use loca_agent.Effect.Unseen.{Unseen}
use loca_agent.Installer.{Step, func_step}
use loca_agent.Installer.Session.{Session, Tunnel, on_world}
use loca_agent.Installer.Engine.Restore.{Undoes}

module _ {W V : Type 0} (view : W → V) where
  abbrev pub session_view : Session W → V
  session_view s = view s.world

  -- A step whose three functions do not show undoes nothing, and need not.
  pub Unseen-Undoes :
      (step : Step (Session W))
      → Unseen session_view step.verify
      → Unseen session_view step.run
      → Unseen session_view step.rollback
      → Undoes session_view step
  Unseen-Undoes step v r b = record {
    verify_keeps = v;
    failure_keeps = λ s cause q h. r (step.verify s).1 ∙ v s;
    rollback_undoes = λ s t q h p. b t ∙ p ∙ r (step.verify s).1 ∙ v s;
  }

  -- A step that asks for something, turns it on, and turns it off again in the rollback.
  pub record Switch (ask : Action W Bool) (on off : Action W (Unit {0})) : Type 0 where
    pub asking : Unseen view ask
    pub failing :
        (w : W) (cause : Error)
        → (ask w).0 ≡ ok false
        → (on (ask w).1).0 ≡ err cause
        → view (on (ask w).1).1 ≡ view w
    pub undoing :
        (w t : W)
        → (ask w).0 ≡ ok false
        → (on (ask w).1).0 ≡ ok tt
        → view t ≡ view (on (ask w).1).1
        → view (off t).1 ≡ view w

  pub Switch-Undoes :
      (label : Text) (ask : Action W Bool) (on off : Action W (Unit {0}))
      → Switch ask on off
      → Undoes session_view (
          func_step (record {
            label = label;
            verify_func = some (on_world ask);
            run_func = some (on_world on);
            rollback_func = some (on_world off);
          }))
  unfolding func_step
  Switch-Undoes label ask on off s = record {
    verify_keeps = λ m. s.asking m.world;
    failure_keeps = λ m. s.failing m.world;
    rollback_undoes = λ m t. s.undoing m.world t.world;
  }

abbrev pub pair : {A B : Type 0} → A → B → A × B
pair a b = (a, b)

pub pair_eq : {A B : Type 0} {a b : A} {x y : B} → a ≡ b → x ≡ y → pair a x ≡ pair b y
pair_eq e f = rw (e, f) refl

-- Two things that can be seen of a world.
abbrev pub both : {W A B : Type 0} → (W → A) → (W → B) → W → A × B
both f g w = (f w, g w)

-- A tunnel that is on or off, beside `rest`, which its commands leave alone: Up turns it on or fails
-- without a change, Down turns it off, and Active says `false` of a tunnel only if it is off. Where the
-- status query fails, Active says `false`, so the query does not fail while the tunnel is on.
pub record IsTunnel {W R : Type 0} (tunnel : Tunnel W) (iface conf : Text) (on : W → Bool)
    (rest : W → R) : Type 0 where
  pub asked : (w : W) → (tunnel.active iface w).0 ≡ false → on w ≡ false
  pub asking : (w : W) → both on rest (tunnel.active iface w).1 ≡ both on rest w
  pub upped :
      (w : W)
      → (tunnel.up iface conf w).0 ≡ ok tt
      → both on rest (tunnel.up iface conf w).1 ≡ pair true (rest w)
  pub refused :
      (w : W) (e : Error)
      → (tunnel.up iface conf w).0 ≡ err e
      → both on rest (tunnel.up iface conf w).1 ≡ both on rest w
  pub downed : (w : W) → both on rest (tunnel.down iface conf w).1 ≡ pair false (rest w)

module _ {W R : Type 0} (tunnel : Tunnel W) (iface conf : Text) (on : W → Bool) (rest : W → R)
    (h : IsTunnel tunnel iface conf on rest) where
  abbrev active_action : Action W Bool
  active_action w = let (b, w') = tunnel.active iface w in (ok b, w')

  off_before : (w : W) → (active_action w).0 ≡ ok false → false ≡ on w
  off_before w q = sym (h.asked w (ok_same q))
    where
      ok_same : {a b : Bool} → ok a ≡ ok b → a ≡ b
      ok_same e = cc

  pub tunnel-Switch :
      Switch (both on rest) active_action (tunnel.up iface conf) (tunnel.down iface conf)
  tunnel-Switch = record {
    asking = h.asking;
    failing = λ w cause q e. h.refused (active_action w).1 cause e ∙ h.asking w;
    undoing = λ w t q e p.
        let before = h.asking w in
        let up = h.upped (active_action w).1 e in
        h.downed t
        ∙ pair_eq (off_before w q) (ap (λ v. v.1) p ∙ ap (λ v. v.1) up ∙ ap (λ v. v.1) before);
  }
