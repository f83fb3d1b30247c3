-- ===== src/Registry/Address.antt =====
-- The URL under which the router reaches a node's Ollama.
use ollama_herd.Common.{
  ℕ, ◌≡◌, refl, ◌⊎◌, inl, inr, Bool, true, false, not, ◌&&◌, some, [], ◌∷◌, Text, text, text_eq,
  mem, arith, Bool-cases, is_empty,
}
use ollama_herd.Models.Node.{HeartbeatPayload}
use ollama_herd.Registry.{build_ollama_url, port_or_default, is_remote_host, http_url, loopback_ips}
use ollama_herd.Url.Parse.{urlparse}

-- The address of a heartbeat from another machine.
abbrev pub is_remote_ip : Text → Bool
is_remote_ip ip = not (is_empty ip) && not (mem ip loopback_ips)

remote_guard :
    (ip : Text) → is_remote_ip ip ≡ true → mem ip (text "127.0.0.1" ∷ text "::1" ∷ [] ∷ []) ≡ false
unfolding text_eq
remote_guard [] h = cc
remote_guard (c ∷ s) h = ground arith

local_guard :
    (ip : Text) → is_remote_ip ip ≡ false → mem ip (text "127.0.0.1" ∷ text "::1" ∷ [] ∷ []) ≡ true
unfolding text_eq
local_guard [] h = refl
local_guard (c ∷ s) h = ground arith

-- A heartbeat from another machine is reached at the host that it was configured with, if that is
-- not a loopback name, and else at the address that the heartbeat came from, on the configured port
-- or 11434.
build_ollama_url_remote :
    (p : HeartbeatPayload) (ip url : Text)
    → is_remote_ip ip ≡ true
    → build_ollama_url p ip ≡ some url
    → ((is_remote_host (urlparse p.ollama_host).hostname ≡ true) × (url ≡ p.ollama_host))
      ⊎ ((is_remote_host (urlparse p.ollama_host).hostname ≡ false)
          × ((port : ℕ) × (port_or_default (urlparse p.ollama_host).port ≡ some port)
              × (url ≡ http_url ip port)))
unfolding build_ollama_url
build_ollama_url_remote p ip url far e = ground (arith, remote_guard ip far)

-- A heartbeat's own `lan_ip` never decides the URL, though the source keeps it as a last resort.
build_ollama_url_lan_ip :
    (p : HeartbeatPayload) (ip lan_ip : Text)
    → build_ollama_url (record p { lan_ip = lan_ip }) ip ≡ build_ollama_url p ip
unfolding build_ollama_url
build_ollama_url_lan_ip p ip lan_ip = elim (Bool-cases (is_remote_ip ip)) [
  | inl far ↦ ground (arith, remote_guard ip far)
  | inr near ↦ ground (arith, local_guard ip near)
]
