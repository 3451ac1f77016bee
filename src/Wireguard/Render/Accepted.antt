-- ===== src/Wireguard/Render/Accepted.antt =====
-- The config files of internal/wireguard/config.go, read back.
use loca_agent.Base.{
  not, ◌&&◌, Text, lit, ℕ, List, [], ◌∷◌, ◌++◌, ◌==◌, nat_eq, text_eq, int_eq, Bool, true, some,
  split, All, ◌≡◌, refl, sym, arith, append_assoc, join, map, is_space, text_beq, trim_space,
  trim_left, trim_right,
}
use mathlib.Core.Path.{subst}
use loca_agent.Wireguard.{Interface, Peer, Config}
use loca_agent.Wireguard.Render.{
  text_setting, int_setting, render_interface, render_peer, render_peers, render,
}
use loca_agent.Wireguard.Render as Render
use loca_agent.Wireguard.Render.Read.{
  Section, title, line_kind, read_lines, Found, with_line, read_file, cut_comment,
}
use loca_agent.Wireguard.Render.Reads.{
  shown, shown_int, behind_break, Reads, Reads-line, Reads-setting, Reads-text_setting,
  Reads-int_setting,
}
use loca_agent.Wireguard.Render.Lines.{IsOneLine, IsValue, key_byte, all_key}

unfoldable pub interface_section : Interface → Section
interface_section i = record {
  header = lit "[Interface]";
  entries =
      (lit "PrivateKey", i.private_key)
      ∷ (lit "Address", i.address)
      ∷ (shown_int (lit "ListenPort") i.listen_port ++ (shown (lit "DNS") i.dns ++ []));
}

unfoldable pub peer_section : Peer → Section
peer_section p = record {
  header = lit "[Peer]";
  entries =
      (lit "PublicKey", p.public_key)
      ∷ (shown (lit "PresharedKey") p.preshared_key
          ++ ((lit "AllowedIPs", join p.allowed_ips (lit ", "))
              ∷ (shown (lit "Endpoint") p.endpoint
                  ++ (shown_int (lit "PersistentKeepalive") p.keepalive ++ []))));
}

-- An interface whose values each fit in a line.
pub record IsInterface (i : Interface) : Type 0 where
  pub private_key : IsValue i.private_key
  pub address : IsValue i.address
  pub dns : IsValue i.dns

-- A peer whose values each fit in a line; its name is a comment, and may hold a `#` and space.
pub record IsPeer (p : Peer) : Type 0 where
  pub name : IsOneLine p.name
  pub public_key : IsValue p.public_key
  pub preshared_key : IsValue p.preshared_key
  pub allowed_ips : IsValue (join p.allowed_ips (lit ", "))
  pub endpoint : IsValue p.endpoint

-- The line of a header.
Reads-header :
    (l tail : Text) (es : List (Text × Text)) (ss : List Section)
    → IsOneLine l
    → line_kind l ≡ title l
    → Reads tail (some (es, ss))
    → Reads (10 ∷ (l ++ tail)) (some ([], record { header = l; entries = es } ∷ ss))
Reads-header l tail es ss h q reads =
    subst (λ k. Reads (10 ∷ (l ++ tail)) (with_line k (some (es, ss)))) q
      (Reads-line l tail (some (es, ss)) h reads)

Reads-comment :
    (name tail : Text) (es : List (Text × Text)) (ss : List Section)
    → IsOneLine name
    → Reads tail (some (es, ss))
    → Reads (10 ∷ ((lit "# " ++ name) ++ tail)) (some (es, ss))
unfolding lit line_kind cut_comment trim_space trim_left trim_right is_space
Reads-comment name tail es ss h reads =
    Reads-line (lit "# " ++ name) tail (some (es, ss)) ((λ e. omega arith), ((λ e. omega arith), h))
      reads

peer_header : line_kind (lit "[Peer]") ≡ title (lit "[Peer]")
unfolding lit line_kind cut_comment trim_space trim_left trim_right is_space text_beq
peer_header = refl

interface_header : line_kind (lit "[Interface]") ≡ title (lit "[Interface]")
unfolding lit line_kind cut_comment trim_space trim_left trim_right is_space text_beq
interface_header = refl

unbroken : Text → Bool
unbroken [] = true
unbroken (c ∷ s) = not (c == 10) && unbroken s

unbroken-IsOneLine : (s : Text) → unbroken s ≡ true → IsOneLine s
unfolding unbroken
unbroken-IsOneLine [] h = tt
unbroken-IsOneLine (c ∷ s) h = (λ e. ground arith, unbroken-IsOneLine s (ground arith))

peer_header-IsOneLine : IsOneLine (lit "[Peer]")
unfolding lit unbroken
peer_header-IsOneLine = unbroken-IsOneLine (lit "[Peer]") refl

interface_header-IsOneLine : IsOneLine (lit "[Interface]")
unfolding lit unbroken
interface_header-IsOneLine = unbroken-IsOneLine (lit "[Interface]") refl

seven_parts :
    (a b c d e f g r : Text)
    → (a ++ (b ++ (c ++ (d ++ (e ++ (f ++ (g ++ (10 ∷ [])))))))) ++ r
      ≡ a ++ (b ++ (c ++ (d ++ (e ++ (f ++ (g ++ (10 ∷ r)))))))
seven_parts a b c d e f g r =
    rw
      (
        append_assoc, append_assoc, append_assoc, append_assoc, append_assoc, append_assoc,
        append_assoc,
      )
      refl

Reads-peer :
    (p : Peer) (rest : Text) (ss : List Section)
    → IsPeer p
    → read_lines (split 10 rest) ≡ some ([], ss)
    → Reads (render_peer p ++ rest) (some ([], peer_section p ∷ ss))
unfolding lit render_peer peer_section all_key key_byte is_space
Reads-peer p rest ss h q =
    subst (λ t. Reads t (some ([], peer_section p ∷ ss)))
      (sym (
        seven_parts (10 ∷ (lit "# " ++ p.name)) (10 ∷ lit "[Peer]")
          (Render.setting (lit "PublicKey") p.public_key)
          (text_setting (lit "PresharedKey") p.preshared_key)
          (Render.setting (lit "AllowedIPs") (join p.allowed_ips (lit ", ")))
          (text_setting (lit "Endpoint") p.endpoint)
          (int_setting (lit "PersistentKeepalive") p.keepalive) rest))
      (Reads-comment p.name _ [] (peer_section p ∷ ss) h.name (
        Reads-header (lit "[Peer]") _ (peer_section p).entries ss peer_header-IsOneLine peer_header
          (Reads-setting _ ss _
            (Reads-text_setting _ ss _
              (Reads-setting _ ss _
                (Reads-text_setting _ ss _
                  (Reads-int_setting [] ss (10 ∷ rest) (rest, refl, q) b'P'
                    (lit "ersistentKeepalive") refl p.keepalive)
                  b'E' (lit "ndpoint") refl p.endpoint h.endpoint)
                b'A' (lit "llowedIPs") refl (join p.allowed_ips (lit ", ")) h.allowed_ips)
              b'P' (lit "resharedKey") refl p.preshared_key h.preshared_key)
            b'P' (lit "ublicKey") refl p.public_key h.public_key)))

peers-Read :
    (ps : List Peer)
    → All IsPeer ps
    → read_lines (split 10 (render_peers ps)) ≡ some ([], map peer_section ps)
unfolding render_peers split read_lines line_kind cut_comment trim_space trim_left trim_right
peers-Read [] h = refl
peers-Read (p ∷ ps) (hp, h) =
    let (t, e, q) = Reads-peer p (render_peers ps) (map peer_section ps) hp (peers-Read ps h) in
    rw e (unfold split read_lines line_kind cut_comment in behind_break t _ q)

five_parts :
    (a b c d e r : Text) → (a ++ (b ++ (c ++ (d ++ e)))) ++ r ≡ a ++ (b ++ (c ++ (d ++ (e ++ r))))
five_parts a b c d e r = rw (append_assoc, append_assoc, append_assoc, append_assoc) refl

Reads-interface :
    (i : Interface) (rest : Text) (ss : List Section)
    → IsInterface i
    → read_lines (split 10 rest) ≡ some ([], ss)
    → Reads (10 ∷ (render_interface i ++ (10 ∷ rest))) (some ([], interface_section i ∷ ss))
unfolding lit render_interface interface_section all_key key_byte is_space
Reads-interface i rest ss h q =
    subst (λ t. Reads (10 ∷ t) (some ([], interface_section i ∷ ss)))
      (sym (
        five_parts (lit "[Interface]") (Render.setting (lit "PrivateKey") i.private_key)
          (Render.setting (lit "Address") i.address) (int_setting (lit "ListenPort") i.listen_port)
          (text_setting (lit "DNS") i.dns) (10 ∷ rest)))
      (Reads-header (lit "[Interface]") _ (interface_section i).entries ss
        interface_header-IsOneLine interface_header
        (Reads-setting _ ss _
          (Reads-setting _ ss _
            (Reads-int_setting _ ss _
              (Reads-text_setting [] ss (10 ∷ rest) (rest, refl, q) b'D' (lit "NS") refl i.dns
                h.dns)
              b'L' (lit "istenPort") refl i.listen_port)
            b'A' (lit "ddress") refl i.address h.address)
          b'P' (lit "rivateKey") refl i.private_key h.private_key))

behind : (t : Text) (r : Found) → Reads (10 ∷ t) r → read_lines (split 10 t) ≡ r
behind t r (x, e, q) = subst (λ y. read_lines (split 10 y) ≡ r) (sym (tail_of e)) q
  where
    tail_of : {b d : ℕ} {u v : Text} → b ∷ u ≡ d ∷ v → u ≡ v
    tail_of e = cc

-- Where each value fits in a line (it has no line break and no `#`, and no space around it), and no
-- peer's name has a line break, the file that Render writes has the section of the interface and then
-- one for each peer in order, each with exactly the settings that the config gives it, and no others.
pub read_file-render :
    (c : Config)
    → IsInterface c.interface
    → All IsPeer c.peers
    → read_file (render c) ≡ some (interface_section c.interface ∷ map peer_section c.peers)
unfolding read_file render
read_file-render c i h =
    rw
      (behind (render_interface c.interface ++ (10 ∷ render_peers c.peers)) _ (
        Reads-interface c.interface (render_peers c.peers) (map peer_section c.peers) i
          (peers-Read c.peers h)))
      refl
