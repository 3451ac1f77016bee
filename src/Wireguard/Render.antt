-- ===== src/Wireguard/Render.antt =====
-- `Render` of internal/wireguard/config.go, with its template templates/wireguard/wg.conf.tmpl. The
-- template is a constant that parses, so there is no error to return.
pub mod Read
pub mod Lines
pub mod Reads
pub mod Accepted
use loca_agent.Base.{Text, lit, List, [], ◌∷◌, ◌++◌, ◌==◌, text_eq, int_eq, pos, itoa, join}
use loca_agent.Base.{if◌then◌else◌, ℤ}
use loca_agent.Wireguard.{Interface, Peer, Config}

-- A line `key = value` behind a line break.
abbrev pub setting : Text → Text → Text
setting key value = 10 ∷ (key ++ (lit " = " ++ value))

-- A line that an empty value or a zero omits.
unfoldable pub text_setting : Text → Text → Text
text_setting key value = if value == [] then [] else setting key value

unfoldable pub int_setting : Text → ℤ → Text
int_setting key value = if value == pos 0 then [] else setting key (itoa value)

unfoldable pub render_interface : Interface → Text
unfolding text_setting int_setting
render_interface i =
    lit "[Interface]"
    ++ (setting (lit "PrivateKey") i.private_key
        ++ (setting (lit "Address") i.address
            ++ (int_setting (lit "ListenPort") i.listen_port ++ text_setting (lit "DNS") i.dns)))

unfoldable pub render_peer : Peer → Text
unfolding text_setting int_setting
render_peer p =
    (10 ∷ (lit "# " ++ p.name))
    ++ ((10 ∷ lit "[Peer]")
        ++ (setting (lit "PublicKey") p.public_key
            ++ (text_setting (lit "PresharedKey") p.preshared_key
                ++ (setting (lit "AllowedIPs") (join p.allowed_ips (lit ", "))
                    ++ (text_setting (lit "Endpoint") p.endpoint
                        ++ (int_setting (lit "PersistentKeepalive") p.keepalive ++ (10 ∷ [])))))))

unfoldable pub render_peers : List Peer → Text
unfolding render_peer
render_peers [] = []
render_peers (p ∷ ps) = render_peer p ++ render_peers ps

-- Render
unfoldable pub render : Config → Text
unfolding render_interface render_peers
render c = render_interface c.interface ++ (10 ∷ render_peers c.peers)
