-- ===== src/Logging/Family.antt =====
-- WithAttrs and WithGroup of the handlers of internal/logging.
use loca_agent.Base.{
  Text, List, [], ◌∷◌, ◌++◌, map, append_assoc, ◌≡◌, refl, ap, ℤ, inl, inr, Bool-cases,
}
use loca_agent.Effect.{Action, resume, Result, ok, err}
use loca_agent.Logging.{
  Attr, Record, Console, Handler, show_attrs, console_line, console_with_attrs, console_handler,
  any_enabled, handle_all, multi_handler,
}

-- A type of handlers with the methods of slog.Handler; WithAttrs and WithGroup make another handler.
pub record Family (W : Type 0) : Type 1 where
  pub Sink : Type 0
  pub handler : Sink → Handler W
  pub with_attrs : List Attr → Sink → Sink
  pub with_group : Text → Sink → Sink

module _ {W : Type 0} where
  -- consoleHandler
  unfoldable pub console_family : (Text → Action W (Unit {0})) → Family W
  console_family write = record {
    Sink = Console;
    handler = console_handler write;
    with_attrs = λ attrs h. console_with_attrs h attrs;
    with_group = λ name h. h;
  }

  -- multiHandler, over handlers of one type
  unfoldable pub multi_family : Family W → Family W
  multi_family f = record {
    Sink = List f.Sink;
    handler = λ hs. multi_handler (map f.handler hs);
    with_attrs = λ attrs hs. map (f.with_attrs attrs) hs;
    with_group = λ name hs. map (f.with_group name) hs;
  }

abbrev pub prefixed : List Attr → Record → Record
prefixed attrs r = record r { attrs = attrs ++ r.attrs }

-- What With gives a handler, it adds to each record in front of the record's own attributes.
pub record IsCarrying {W : Type 0} (f : Family W) : Type 0 where
  pub enabled :
      (attrs : List Attr) (h : f.Sink) (l : ℤ)
      → (f.handler (f.with_attrs attrs h)).enabled l ≡ (f.handler h).enabled l
  pub handled :
      (attrs : List Attr) (h : f.Sink) (r : Record) (w : W)
      → (f.handler (f.with_attrs attrs h)).handle r w ≡ (f.handler h).handle (prefixed attrs r) w

show_attrs-append : (xs ys : List Attr) → show_attrs (xs ++ ys) ≡ show_attrs xs ++ show_attrs ys
unfolding show_attrs
show_attrs-append [] ys = refl
show_attrs-append (x ∷ xs) ys =
    rw
      (
        show_attrs-append xs ys,
        append_assoc x.key (b'=' ∷ (x.shown ++ show_attrs xs)) (show_attrs ys),
        append_assoc x.shown (show_attrs xs) (show_attrs ys),
      )
      refl

console_line-carried :
    (h : Console) (attrs : List Attr) (r : Record)
    → console_line (console_with_attrs h attrs) r ≡ console_line h (prefixed attrs r)
unfolding console_line console_with_attrs
console_line-carried h attrs r =
    rw
      (
        show_attrs-append h.attrs attrs,
        show_attrs-append attrs r.attrs,
        append_assoc (show_attrs h.attrs) (show_attrs attrs) (show_attrs r.attrs ++ (10 ∷ [])),
        append_assoc (show_attrs attrs) (show_attrs r.attrs) (10 ∷ []),
      )
      refl

module _ {W : Type 0} where
  resume_same :
      {m n : Action W (Unit {0})} (out : Result (Unit {0})) (w : W)
      → ((w' : W) → m w' ≡ n w')
      → resume out w (λ _. m) ≡ resume out w (λ _. n)
  resume_same (ok a) w same = same w
  resume_same (err e) w same = refl

  pub console-IsCarrying : (write : Text → Action W (Unit {0})) → IsCarrying (console_family write)
  unfolding console_family console_handler console_with_attrs
  console-IsCarrying write = record {
    enabled = λ attrs h l. refl;
    handled = λ attrs h r w. ap (λ line. write line w) (console_line-carried h attrs r);
  }

  module _ (f : Family W) (carrying : IsCarrying f) (attrs : List Attr) where
    any_enabled-carried :
        (hs : List f.Sink) (l : ℤ)
        → any_enabled (map f.handler (map (f.with_attrs attrs) hs)) l
          ≡ any_enabled (map f.handler hs) l
    unfolding any_enabled
    any_enabled-carried [] l = refl
    any_enabled-carried (h ∷ hs) l = rw (carrying.enabled attrs h l, any_enabled-carried hs l) refl

    handle_all-carried :
        (hs : List f.Sink) (r : Record) (w : W)
        → handle_all (map f.handler (map (f.with_attrs attrs) hs)) r w
          ≡ handle_all (map f.handler hs) (prefixed attrs r) w
    unfolding handle_all
    handle_all-carried [] r w = refl
    handle_all-carried (h ∷ hs) r w = elim (Bool-cases ((f.handler h).enabled r.level)) [
      | inr off ↦ rw (carrying.enabled attrs h r.level, off, handle_all) (handle_all-carried hs r w)
      | inl on ↦
          rw (carrying.enabled attrs h r.level, on, carrying.handled attrs h r w, handle_all)
            (resume_same ((f.handler h).handle (prefixed attrs r) w).0
              ((f.handler h).handle (prefixed attrs r) w).1 (handle_all-carried hs r))
    ]

  -- Where each handler that a multiHandler feeds adds what it is given by WithAttrs in front of the
  -- attributes of a record, so does the multiHandler, and it is enabled as before.
  pub multi-IsCarrying : (f : Family W) → IsCarrying f → IsCarrying (multi_family f)
  unfolding multi_family multi_handler
  multi-IsCarrying f carrying = record {
    enabled = λ attrs hs l. any_enabled-carried f carrying attrs hs l;
    handled = λ attrs hs r w. handle_all-carried f carrying attrs hs r w;
  }
