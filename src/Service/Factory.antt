-- ===== src/Service/Factory.antt =====
-- service/factory.go: the one command service of the process, and the managers it is made with.
use flow_agent_x.Prelude.{
  ℕ, zero, suc, ◌+◌, ◌≡◌, ◌≢◌, ap, refl, ◌&&◌, ◌==◌, Option, none, some, List, [], ◌∷◌, ◌++◌,
  if◌then◌else◌, is_empty, Text, codes, arith,
}
use flow_agent_x.Service.Plugins.{Plugins, plugin_url, Git}

-- strings.TrimRight for a set of one byte
unfoldable pub trim_right : ℕ → Text → Text
trim_right b [] = []
trim_right b (c ∷ s) = let rest = trim_right b s in if is_empty rest && c == b then [] else c ∷ rest

unfoldable pub new_plugin_manager : (dir server : Text) → Plugins
unfolding trim_right
new_plugin_manager dir server = record { dir = dir; server = trim_right b'/' server }

-- The singleton behind `once`, by its plugin manager, and the goroutines that consume messages.
pub record Factory : Type 0 where
  pub singleton : Option Plugins
  pub consumers : ℕ

-- The arguments are the fields of the manager's config.
unfoldable pub get_cmd_service : (dir server : Text) → Factory → Plugins × Factory
unfolding new_plugin_manager
get_cmd_service dir server f = elim f.singleton [
  | some s ↦ (s, f)
  | none ↦ (
    new_plugin_manager dir server,
    record { singleton = some (new_plugin_manager dir server); consumers = f.consumers + 1 },
  )
]

abbrev pub slashes : ℕ → Text
slashes zero = []
slashes (suc n) = b'/' ∷ slashes n

trim_right-slashes : (n : ℕ) → trim_right b'/' (slashes n) ≡ []
unfolding trim_right
trim_right-slashes zero = refl
trim_right-slashes (suc n) = rw (trim_right-slashes n) refl

trim_right-append :
    (s : Text) (c n : ℕ) → c ≢ b'/' → trim_right b'/' (s ++ c ∷ slashes n) ≡ s ++ c ∷ []
unfolding trim_right
trim_right-append [] c n h = rw (trim_right-slashes n) (ground (arith, h))
trim_right-append (d ∷ []) c n h = rw (trim_right-append [] c n h) refl
trim_right-append (d ∷ e ∷ s) c n h = rw (trim_right-append (e ∷ s) c n h) refl

-- A plugin has the same address however many slashes end the address of the server.
pub plugin_url-new_plugin_manager :
    (git : Git) (join : Text → Text → Text) (dir s name : Text) (c n : ℕ)
    → c ≢ b'/'
    → plugin_url git join (new_plugin_manager dir (s ++ c ∷ slashes n)) name
      ≡ (s ++ c ∷ []) ++ codes "/git/plugins/" ++ name
unfolding plugin_url new_plugin_manager
plugin_url-new_plugin_manager git join dir s name c n h =
    ap (λ x. x ++ codes "/git/plugins/" ++ name) (trim_right-append s c n h)

-- Calls of GetCmdService, with what the config holds at each.
abbrev pub get_all : List (Text × Text) → Factory → List Plugins × Factory
get_all [] f = ([], f)
get_all ((dir, server) ∷ calls) f =
    let (s, g) = get_cmd_service dir server f in let (all, h) = get_all calls g in (s ∷ all, h)

abbrev pub AllAre : Plugins → List Plugins → Type 0
AllAre s [] = Unit
AllAre s (t ∷ ts) = (t ≡ s) × AllAre s ts

later :
    (calls : List (Text × Text)) (s : Plugins) (n : ℕ)
    → AllAre s (get_all calls (record { singleton = some s; consumers = n })).0
      × ((get_all calls (record { singleton = some s; consumers = n })).1.consumers ≡ n)
unfolding get_cmd_service
later [] s n = (tt, refl)
later ((dir, server) ∷ calls) s n = let (a, e) = later calls s n in ((refl, a), e)

-- All calls of GetCmdService return the service that the first one makes, whatever the config holds
-- at the later ones, and one goroutine consumes messages.
pub get_all-AllAre :
    (dir server : Text) (calls : List (Text × Text)) (n : ℕ)
    → let (all, f) = get_all ((dir, server) ∷ calls) (record { singleton = none; consumers = n }) in
      AllAre (new_plugin_manager dir server) all × (f.consumers ≡ n + 1)
unfolding get_cmd_service
get_all-AllAre dir server calls n =
    let (a, e) = later calls (new_plugin_manager dir server) (n + 1) in ((refl, a), e)
