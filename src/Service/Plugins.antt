-- ===== src/Service/Plugins.antt =====
-- service/plugin_manager.go: the plugins of the agent, which are git repositories of the server. The
-- operations on repositories are those of go-git.
use flow_agent_x.Prelude.{
  ◌≡◌, ◌⊎◌, ◌∙◌, sym, ap, inl, inr, refl, Bool-cases, Option, Option-cases, none, some, List, [],
  ◌∷◌, ◌++◌, if◌then◌else◌, Text, codes, text_eq, text_eq_iff,
}
use flow_agent_x.Prelude.Exec.{
  Err, out_of_range, already_exists, already_up_to_date, Outcome, ret, panic, hang, Exec, pure,
  throw, panic_if_err, recover, on_panic, bind_inv, ◌>>=◌, ◌>>◌,
}

pub data GitCall : Type 0 where
  plain_clone : (dir url : Text) → GitCall
  plain_open : Text → GitCall
  delete_remote : GitCall
  create_remote : (url : Text) → GitCall
  pull_origin : GitCall

-- Repositories: an answer may depend on the calls made before, latest first.
pub record Git : Type 0 where
  pub clone_into : List GitCall → Text → Text → Option Err
  pub open_at : List GitCall → Text → Option Err  -- PlainOpen, Worktree and Remote
  pub urls : List GitCall → List Text  -- of the remote
  pub delete_origin : List GitCall → Option Err
  pub create_origin : List GitCall → Text → Option Err
  pub pull : List GitCall → Option Err

pub record Plugins : Type 0 where
  pub dir : Text
  pub server : Text

abbrev State : Type 0
State = List GitCall

abbrev pub call : GitCall → (List GitCall → Option Err) → Exec State (Option Err)
call c answer h = (ret (answer h), c ∷ h)

module _ (git : Git) (join : Text → Text → Text) (p : Plugins) where
  unfoldable pub plugin_url : Text → Text
  plugin_url name = p.server ++ codes "/git/plugins/" ++ name

  unfoldable pub update_remote : Text → Exec State (Unit {0})
  update_remote url =
      call delete_remote git.delete_origin
      >>= panic_if_err
      >> (call (create_remote url) (λ h. git.create_origin h url) >>= panic_if_err)

  abbrev pub check_remote : List Text → Text → Exec State (Unit {0})
  check_remote [] url = throw out_of_range
  check_remote (current ∷ others) url = if text_eq current url then pure tt else update_remote url

  abbrev pub pulled : Option Err → Exec State (Option Err)
  pulled (some already_up_to_date) = pure none
  pulled e = pure e

  unfoldable pub pull_body : Text → Text → Exec State (Option Err)
  unfolding update_remote
  pull_body dir url =
      call (plain_open dir) (λ h. git.open_at h dir)
      >>= panic_if_err
      >> (λ h. check_remote (git.urls h) url h)
      >> (call pull_origin git.pull >>= pulled)

  unfoldable pub pull_plugin : Text → Text → Exec State (Option Err)
  unfolding pull_body
  pull_plugin dir url = recover (λ e. pure (some e)) (pull_body dir url)

  abbrev pub after_clone : Option Err → Text → Text → Exec State (Option Err)
  after_clone (some already_exists) dir url = pull_plugin dir url
  after_clone e dir url = pure e

  unfoldable pub load : Text → Exec State (Option Err)
  unfolding pull_plugin plugin_url
  load name =
      call (plain_clone (join p.dir name) (plugin_url name))
        (λ h. git.clone_into h (join p.dir name) (plugin_url name))
      >>= (λ e. after_clone e (join p.dir name) (plugin_url name))

  -- The calls of a load that updates the plugin that is there, latest first: the remote has the
  -- server's address, or is made anew with it, before the pull.
  pub data Updated (name : Text) (h : State) : State → Type 0 where
    same_server :
        {others : List Text}
        → git.urls
            (plain_open (join p.dir name) ∷ plain_clone (join p.dir name) (plugin_url name) ∷ h)
          ≡ plugin_url name ∷ others
        → Updated name h (
            pull_origin
            ∷ plain_open (join p.dir name)
            ∷ plain_clone (join p.dir name) (plugin_url name)
            ∷ h)
    new_server : Updated name h (
        pull_origin
        ∷ create_remote (plugin_url name)
        ∷ delete_remote
        ∷ plain_open (join p.dir name)
        ∷ plain_clone (join p.dir name) (plugin_url name)
        ∷ h)

  called :
      (c : GitCall) (answer : List GitCall → Option Err) (h h1 : State)
      → (call c answer >>= panic_if_err) h ≡ (ret tt, h1)
      → h1 ≡ c ∷ h
  called c answer h h1 e = elim (Option-cases (answer h)) [
    | inl q ↦ cc (rw q at e)
    | inr (x, q) ↦ cc (rw q at e)
  ]

  update_remote_inv :
      (url : Text) (h h1 : State)
      → update_remote url h ≡ (ret tt, h1)
      → h1 ≡ create_remote url ∷ delete_remote ∷ h
  unfolding update_remote
  update_remote_inv url h h1 e = elim (Option-cases (git.delete_origin h)) [
    | inr (x, q) ↦ cc (rw q at e)
    | inl q ↦ elim (Option-cases (git.create_origin (delete_remote ∷ h) url)) [
      | inr (x, k) ↦ cc (rw (q, k) at e)
      | inl k ↦ cc (rw (q, k) at e)
    ]
  ]

  remote_checked :
      (urls : List Text) (url : Text) (h h1 : State)
      → check_remote urls url h ≡ (ret tt, h1)
      → ((others : List Text) × (urls ≡ url ∷ others) × (h1 ≡ h))
        ⊎ (h1 ≡ create_remote url ∷ delete_remote ∷ h)
  remote_checked [] url h h1 e = absurd (cc)
  remote_checked (current ∷ others) url h h1 e = elim (Bool-cases (text_eq current url)) [
    | inl q ↦ inl (others, ap (λ u. u ∷ others) ((text_eq_iff current url).0 q), cc (rw q at e))
    | inr q ↦ inr (update_remote_inv url h h1 (rw q at e))
  ]

  pulled-state : (e : Option Err) (h : State) → (pulled e h).1 ≡ h
  pulled-state none h = refl
  pulled-state (some already_up_to_date) h = refl
  pulled-state (some e) h = refl

  abbrev opened : Text → Exec State (Unit {0})
  opened dir = call (plain_open dir) (λ h. git.open_at h dir) >>= panic_if_err

  abbrev checking : Text → Exec State (Unit {0})
  checking url h = check_remote (git.urls h) url h

  pull_body_inv :
      (dir url : Text) (h h' : State)
      → pull_body dir url h ≡ (ret none, h')
      → ((others : List Text) × (git.urls (plain_open dir ∷ h) ≡ url ∷ others)
          × (h' ≡ pull_origin ∷ plain_open dir ∷ h))
        ⊎ (h' ≡ pull_origin ∷ create_remote url ∷ delete_remote ∷ plain_open dir ∷ h)
  unfolding pull_body
  pull_body_inv dir url h h' e =
      let (_, e1, k1) =
        bind_inv (opened dir >> checking url) (λ _. call pull_origin git.pull >>= pulled) h none h'
          e in
      let m = (opened dir >> checking url) h in
      let last : h' ≡ pull_origin ∷ m.1 =
        ap (λ (r : Outcome (Option Err) × State). r.1) (sym k1)
        ∙ pulled-state (git.pull m.1) (pull_origin ∷ m.1) in
      let (_, e2, k2) =
        bind_inv (opened dir) (λ _. checking url) h tt m.1
          (ap (λ (r : Outcome (Unit {0})). (r, m.1)) e1) in
      let first =
        called (plain_open dir) (λ g. git.open_at g dir) h (opened dir h).1
          (ap (λ (r : Outcome (Unit {0})). (r, (opened dir h).1)) e2) in
      elim (remote_checked (git.urls (opened dir h).1) url (opened dir h).1 m.1 k2) [
        | inl (others, q, r) ↦
            inl (others, rw (← first) q, last ∙ ap (λ t. pull_origin ∷ t) (r ∙ first))
        | inr r ↦ inr (
            last
            ∙ ap (λ t. pull_origin ∷ t) (r ∙ ap (λ t. create_remote url ∷ delete_remote ∷ t) first))
      ]

  recovered :
      (r : Outcome (Option Err)) (h h' : State)
      → on_panic (λ e. pure (some e)) r h ≡ (ret none, h')
      → ◌≡◌ {A = Outcome (Option Err) × State} (r, h) (ret none, h')
  recovered (ret e) h h' q = q
  recovered (panic e) h h' q = absurd (cc)
  recovered hang h h' q = absurd (cc)

  -- A plugin that is there already, and whose load reports no error, has been pulled from the server
  -- of the agent: its remote had that address, or was made anew with it before the pull.
  pub load-Updated :
      (name : Text) (h h' : State)
      → git.clone_into h (join p.dir name) (plugin_url name) ≡ some already_exists
      → load name h ≡ (ret none, h')
      → Updated name h h'
  unfolding load pull_plugin
  load-Updated name h h' c e =
      let dir = join p.dir name in
      let url = plugin_url name in
      let g = plain_clone dir url ∷ h in
      let b = pull_body dir url g in
      let body : b ≡ (ret none, h') = recovered b.0 b.1 h' (rw c at e) in
      elim (pull_body_inv dir url g h' body) [
        | inl (others, q, r) ↦ rw r (same_server q)
        | inr r ↦ rw r new_server
      ]
