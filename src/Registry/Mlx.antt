-- ===== src/Registry/Mlx.antt =====
-- Where an `mlx:` model is served: `resolve_mlx_url` for one model, and `all_mlx_urls` for the fleet.
use mathlib.Core.List.{Mem, mem-cons_self, mem-cons_of_mem}
use ollama_herd.Common.{
  ◌<◌, ◌≡◌, refl, Bool, true, false, not, ◌&&◌, ◌||◌, Option, none, some, List, [], ◌∷◌, ◌++◌, Text,
  text, text_eq, if◌then◌else◌, arith, Bool-cases, Option-cases, inl, inr, is_some, any,
  strip_prefix, is_empty, all,
}
use ollama_herd.Dict.{Dict}
use ollama_herd.Dict
use ollama_herd.Models.Metrics.{MlxServerInfo}
use ollama_herd.Models.Node.{NodeState, is_offline}
use ollama_herd.Registry.{NodeRegistry, get_all_nodes, http_url}
use ollama_herd.Url.Parse.{urlparse, number}
use ollama_herd.Url.Roundtrip.{is_plain, urlparse-http_url}

-- `mlx_model.removeprefix("mlx:")`
abbrev pub bare_name : Text → Text
bare_name m = elim (strip_prefix (text "mlx:") m) [ none ↦ m | some rest ↦ rest ]

abbrev pub mlx_key : Text → Text
mlx_key bare = text "mlx:" ++ bare

-- `urlparse(node.ollama_base_url).hostname or "127.0.0.1"`
unfoldable pub host_of : NodeState → Text
host_of n = elim (urlparse n.ollama_base_url).hostname [ none ↦ text "127.0.0.1" | some h ↦ h ]

abbrev pub is_healthy : MlxServerInfo → Bool
is_healthy srv = text_eq srv.status (text "healthy")

abbrev pub is_serving : Text → MlxServerInfo → Bool
is_serving bare srv = is_healthy srv && text_eq srv.model bare

-- The inner loop of `resolve_mlx_url`.
unfoldable find_server : Text → List MlxServerInfo → Option MlxServerInfo
find_server bare [] = none
find_server bare (srv ∷ srvs) = if is_serving bare srv then some srv else find_server bare srvs

unfoldable resolve_in : Text → List NodeState → Option Text
unfolding find_server
resolve_in bare [] = none
resolve_in bare (n ∷ ns) =
    if is_offline n.status then resolve_in bare ns else elim (find_server bare n.mlx_servers) [
      | none ↦ resolve_in bare ns
      | some srv ↦ some (http_url (host_of n) srv.port)
    ]

unfoldable pub resolve_mlx_url : Text → NodeRegistry → Option Text
unfolding resolve_in
resolve_mlx_url mlx_model r = resolve_in (bare_name mlx_model) (get_all_nodes r)

unfoldable add_servers : Text → List MlxServerInfo → Dict Text → Dict Text
add_servers host [] out = out
add_servers host (srv ∷ srvs) out =
    add_servers host srvs
      (if is_healthy srv then Dict.set (mlx_key srv.model) (http_url host srv.port) out else out)

unfoldable add_nodes : List NodeState → Dict Text → Dict Text
unfolding add_servers
add_nodes [] out = out
add_nodes (n ∷ ns) out =
    add_nodes ns (if is_offline n.status then out else add_servers (host_of n) n.mlx_servers out)

unfoldable pub all_mlx_urls : NodeRegistry → Dict Text
unfolding add_nodes
all_mlx_urls r = add_nodes (get_all_nodes r) []

-- A server of a node that can be asked for the model.
abbrev pub Serves : Text → NodeState → MlxServerInfo → Type 0
Serves bare n srv =
    (is_offline n.status ≡ false) × Mem srv n.mlx_servers × (is_serving bare srv ≡ true)

find_server_sound :
    (bare : Text) (srvs : List MlxServerInfo) (srv : MlxServerInfo)
    → find_server bare srvs ≡ some srv
    → Mem srv srvs × (is_serving bare srv ≡ true)
unfolding find_server
find_server_sound bare [] srv e = cc
find_server_sound bare (s ∷ srvs) srv e = elim (Bool-cases (is_serving bare s)) [
  | inl hit ↦ let same : s ≡ srv = ground arith in rw (← same) (mem-cons_self, hit)
  | inr miss ↦
      let rest = find_server_sound bare srvs srv (ground arith) in
      (mem-cons_of_mem s rest.0, rest.1)
]

resolve_in_sound :
    (bare url : Text) (ns : List NodeState)
    → resolve_in bare ns ≡ some url
    → (n : NodeState) × (srv : MlxServerInfo) × Mem n ns
      × Serves bare n srv
      × (url ≡ http_url (host_of n) srv.port)
unfolding resolve_in
resolve_in_sound bare url [] h = cc
resolve_in_sound bare url (n ∷ ns) h = elim (Bool-cases (is_offline n.status)) [
  | inl off ↦ later (resolve_in_sound bare url ns (ground arith))
  | inr live ↦ elim (Option-cases (find_server bare n.mlx_servers)) [
    | inl e ↦ later (resolve_in_sound bare url ns (ground arith))
    | inr (srv, e) ↦
        let found = find_server_sound bare n.mlx_servers srv e in
        (n, srv, mem-cons_self, (live, found.0, found.1), ground arith)
  ]
]
  where
    later :
        (x : NodeState) × (srv : MlxServerInfo) × Mem x ns
          × Serves bare x srv
          × (url ≡ http_url (host_of x) srv.port)
        → (x : NodeState) × (srv : MlxServerInfo) × Mem x (n ∷ ns)
          × Serves bare x srv
          × (url ≡ http_url (host_of x) srv.port)
    later (x, srv, m, s, e) = (x, srv, mem-cons_of_mem n m, s, e)

-- The URL that is resolved for a model is that of a healthy server of the model, on a node of the
-- registry that is not offline: the host of the node's own URL, with the server's port.
pub resolve_mlx_url_sound :
    (m : Text) (r : NodeRegistry) (url : Text)
    → resolve_mlx_url m r ≡ some url
    → (n : NodeState) × (srv : MlxServerInfo) × Mem n (get_all_nodes r)
      × Serves (bare_name m) n srv
      × (url ≡ http_url (host_of n) srv.port)
unfolding resolve_mlx_url
resolve_mlx_url_sound m r url e = resolve_in_sound (bare_name m) url (get_all_nodes r) e

-- A server of the model that can be asked, anywhere in the fleet.
abbrev is_served : Text → List NodeState → Bool
is_served bare ns = any (λ n. not (is_offline n.status) && any (is_serving bare) n.mlx_servers) ns

is_some-find_server :
    (bare : Text) (srvs : List MlxServerInfo)
    → is_some (find_server bare srvs) ≡ any (is_serving bare) srvs
unfolding find_server
is_some-find_server bare [] = refl
is_some-find_server bare (s ∷ srvs) = ground (arith, is_some-find_server bare srvs)

is_some-resolve_in :
    (bare : Text) (ns : List NodeState) → is_some (resolve_in bare ns) ≡ is_served bare ns
unfolding resolve_in
is_some-resolve_in bare [] = refl
is_some-resolve_in bare (n ∷ ns) =
    ground (arith, is_some-find_server bare n.mlx_servers, is_some-resolve_in bare ns)

mlx_key_eq : (a b : Text) → text_eq (mlx_key a) (mlx_key b) ≡ text_eq a b
unfolding text_eq
mlx_key_eq a b = refl

contains-add_servers :
    (bare host : Text) (srvs : List MlxServerInfo) (out : Dict Text)
    → Dict.contains (mlx_key bare) (add_servers host srvs out)
      ≡ (any (is_serving bare) srvs || Dict.contains (mlx_key bare) out)
unfolding add_servers
contains-add_servers bare host [] out = refl
contains-add_servers bare host (s ∷ srvs) out =
    let out' = Dict.set (mlx_key s.model) (http_url host s.port) out in
    ground (
      arith,
      contains-add_servers bare host srvs out,
      contains-add_servers bare host srvs out',
      Dict.get-set (mlx_key s.model) (mlx_key bare) (http_url host s.port) out,
      mlx_key_eq s.model bare,
    )

contains-add_nodes :
    (bare : Text) (ns : List NodeState) (out : Dict Text)
    → Dict.contains (mlx_key bare) (add_nodes ns out)
      ≡ (is_served bare ns || Dict.contains (mlx_key bare) out)
unfolding add_nodes
contains-add_nodes bare [] out = refl
contains-add_nodes bare (n ∷ ns) out = ground (
  arith,
  contains-add_nodes bare ns out,
  contains-add_nodes bare ns (add_servers (host_of n) n.mlx_servers out),
  contains-add_servers bare (host_of n) n.mlx_servers out,
)

-- The map of all MLX URLs has an entry for a model exactly when a URL can be resolved for it.
pub contains-all_mlx_urls :
    (bare : Text) (r : NodeRegistry)
    → Dict.contains (mlx_key bare) (all_mlx_urls r) ≡ is_some (resolve_mlx_url (mlx_key bare) r)
unfolding all_mlx_urls resolve_mlx_url Dict.get
contains-all_mlx_urls bare r =
    ground (
      arith,
      contains-add_nodes bare (get_all_nodes r) [],
      is_some-resolve_in bare (get_all_nodes r),
    )

-- The resolved URL leads to the host of a node's own URL: it is read back as that host and the
-- server's port, for a host of plain characters and a port below 65536.
pub urlparse-resolve_mlx_url :
    (m : Text) (r : NodeRegistry) (url : Text)
    → ((n : NodeState)
        → Mem n (get_all_nodes r)
        → (is_empty (host_of n) ≡ false)
          × (all is_plain (host_of n) ≡ true)
          × ((srv : MlxServerInfo) → Mem srv n.mlx_servers → srv.port < 65536))
    → resolve_mlx_url m r ≡ some url
    → (n : NodeState) × (srv : MlxServerInfo) × Mem n (get_all_nodes r)
      × Serves (bare_name m) n srv
      × (urlparse url ≡ record { hostname = some (host_of n); port = number srv.port })
urlparse-resolve_mlx_url m r url plain e =
    let (n, srv, member, serves, eq) = resolve_mlx_url_sound m r url e in
    let (nonempty, chars, ports) = plain n member in
    (
      n,
      srv,
      member,
      serves,
      rw eq (urlparse-http_url (host_of n) srv.port nonempty chars (ports srv serves.1)),
    )
