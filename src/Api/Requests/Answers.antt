-- ===== src/Api/Requests/Answers.antt =====
-- What GetSecret and GetConfig make of an answer.
use flow_agent_x.Prelude.{
  ◌≡◌, ◌∙◌, sym, ap, refl, Option-cases, ◌⊎◌, inl, inr, Bool, true, false, Option, none, some, [],
  ◌∷◌, ◌++◌, if◌then◌else◌, Text, codes, text_eq_iff,
}
use flow_agent_x.Prelude.Exec.{
  Err, nil_dereference, Result, ok, err, Outcome, ret, panic, hang, Exec, pure, must, recover,
  bind_returns, on_panic, continue, ◌>>=◌,
}
use mathlib.Core.Path.{subst}
use flow_agent_x.Domain.Secret.{Secret, auth_secret, rsa_secret, token_secret}
use flow_agent_x.Api.Requests.{
  Request, get, Base, Web, Login, Session, parse_response, do_request, request_to, checked, as_auth,
  as_rsa, as_token, secret_from, read_secret, fetch_secret, get_secret,
}

-- `m` ends without a request, by a value or by a panic.
abbrev Settles {ℓ} : {A : Type ℓ} → Exec Session A → Type ℓ
Settles {A = A} m =
    (s : Session) → ((a : A) × (m s ≡ (ret a, s))) ⊎ ((e : Err) × (m s ≡ (panic e, s)))

must-Settles {ℓ} : {A : Type ℓ} (r : Result A) → Settles (must r)
must-Settles (ok a) s = inl (a, refl)
must-Settles (err e) s = inr (e, refl)

bind-Settles {ℓ κ} :
    {A : Type ℓ} {B : Type κ} (m : Exec Session A) (f : A → Exec Session B)
    → Settles m
    → ((a : A) → Settles (f a))
    → Settles (m >>= f)
bind-Settles m f h k s = elim (h s) [
  | inl (a, e) ↦ rw (e, ◌>>=◌) (k a s)
  | inr (x, e) ↦ inr (x, rw (e, ◌>>=◌) refl)
]

if-Settles {ℓ} :
    {A : Type ℓ} (b : Bool) (m n : Exec Session A)
    → Settles m
    → Settles n
    → Settles (if b then m else n)
if-Settles true m n h k = h
if-Settles false m n h k = k

if_inv {ℓ κ} :
    {A : Type ℓ} {P : Type κ} {b : Bool} (m n : Exec Session A) {s : Session} {r : Outcome A}
    → ((if b then m else n) s).0 ≡ r
    → (b ≡ true → (m s).0 ≡ r → P)
    → ((n s).0 ≡ r → P)
    → P
if_inv {b = true} m n h k1 k2 = k1 refl h
if_inv {b = false} m n h k1 k2 = k2 h

-- What a handler of an error returns is no value, so a value came from the body.
recovered_inv {ℓ} :
    {A : Type ℓ} (r : Outcome (Result A)) (s : Session) (a : A)
    → (on_panic (λ e. pure (err e)) r s).0 ≡ ret (ok a)
    → r ≡ ret (ok a)
recovered_inv (ret x) s a h = h
recovered_inv (panic e) s a h = cc
recovered_inv hang s a h = cc

recover-Settles {ℓ} :
    {A : Type ℓ} (m : Exec Session (Result A)) (s s' : Session)
    → ((a : Result A) × (m s ≡ (ret a, s'))) ⊎ ((e : Err) × (m s ≡ (panic e, s')))
    → (a : Result A) × (recover (λ e. pure (err e)) m s ≡ (ret a, s'))
recover-Settles m s s' (inl (a, e)) = (a, rw (e, recover) refl)
recover-Settles m s s' (inr (x, e)) = (err x, rw (e, recover) refl)

must_then_inv {ℓ κ} :
    {A : Type ℓ} {B : Type κ} (r : Result A) (f : A → Exec Session B) (s : Session) (b : B)
    → ((must r >>= f) s).0 ≡ ret b
    → (a : A) × (r ≡ ok a) × ((f a s).0 ≡ ret b)
must_then_inv (ok a) f s b h = (a, refl, h)
must_then_inv (err e) f s b h = cc

module _ (web : Web) (login : Login) where
  checked-Settles : (found : Option Base) → Settles (checked web login found)
  checked-Settles none s = inr (nil_dereference, refl)
  checked-Settles (some base) s = inl (base, refl)

  parsed-Settles {ℓ κ} :
      {A : Type ℓ} {B : Type κ} (r : Result A) (f : A → Exec Session B)
      → ((a : A) → Settles (f a))
      → Settles (must r >>= f)
  parsed-Settles r f k = bind-Settles (must r) f (must-Settles r) k

  secret_from-Settles : (raw : Text) (base : Base) → Settles (secret_from web login raw base)
  unfolding secret_from
  secret_from-Settles raw base =
      if-Settles _ _ _ (parsed-Settles (web.auth raw) (as_auth web login) (λ a s. inl (_, refl))) (
        if-Settles _ _ _ (parsed-Settles (web.rsa raw) (as_rsa web login) (λ a s. inl (_, refl))) (
          if-Settles _ _ _
            (parsed-Settles (web.token_field raw) (as_token web login) (λ a s. inl (_, refl)))
            (λ s. inl (_, refl))))

  read_secret-Settles : (answer : Result Text) → Settles (read_secret web login answer)
  unfolding read_secret
  read_secret-Settles answer = bind-Settles _ _ (must-Settles answer) λ out.
      bind-Settles _ _ (must-Settles (parse_response (web.base out))) λ found.
        bind-Settles _ _ (must-Settles (web.raw out))
          λ raw. bind-Settles _ _ (checked-Settles found) λ base. secret_from-Settles raw base

  abbrev pub secret_request : Text → Request
  secret_request name = request_to web login get (codes "secret/" ++ name) []

  -- What GetSecret has done when it returns `r`.
  abbrev pub Asked : Text → Session → Result Secret → Outcome (Result Secret) × Session → Type 0
  Asked name s r p =
      ((web.new_request (secret_request name).url ≡ none)
        × (p ≡ (ret r, record s { requests = secret_request name ∷ s.requests })))
      ⊎ ((e : Err) × (web.new_request (secret_request name).url ≡ some e)
          × (r ≡ err nil_dereference)
          × (p ≡ (ret r, s)))

  fetched :
      (name : Text) (s : Session)
      → web.new_request (secret_request name).url ≡ none
      → do_request web login (secret_request name) s ≡ (
        ret (web.fetch s.requests (secret_request name)),
        record s { requests = secret_request name ∷ s.requests },
      )
  unfolding do_request
  fetched name s h = rw (h, do_request) refl

  refused :
      (name : Text) (s : Session) (e : Err)
      → web.new_request (secret_request name).url ≡ some e
      → do_request web login (secret_request name) s ≡ (panic nil_dereference, s)
  unfolding do_request
  refused name s e h = rw (h, do_request) refl

  not_made :
      (name : Text) (s : Session) (e : Err)
      → web.new_request (secret_request name).url ≡ some e
      → fetch_secret web login name s ≡ (panic nil_dereference, s)
  unfolding fetch_secret
  not_made name s e h =
      ap (λ (p : Outcome (Result Text) × Session). continue p.0 (read_secret web login) p.1)
        (refused name s e h)

  -- GetSecret returns, whatever the server answers and however its answer parses: a pair of a secret
  -- and an error, never a panic. If the URL of the secret is one, it has made one request, to that URL
  -- and with the agent's token, and nothing else; if http.NewRequest refuses it, no request is made
  -- and the error is that of a nil pointer.
  pub get_secret-returns :
      (name : Text) (s : Session)
      → (r : Result Secret) × Asked name s r (get_secret web login name s)
  unfolding get_secret fetch_secret
  get_secret-returns name s = elim (Option-cases (web.new_request (secret_request name).url)) [
    | inr (e, h) ↦ (err nil_dereference, inr (e, h, refl, rw (not_made name s e h, recover) refl))
    | inl h ↦
        let req = secret_request name in
        let t = record s { requests = req ∷ s.requests } in
        let body =
          bind_returns (do_request web login req) (read_secret web login) s t
            (web.fetch s.requests req) (fetched name s h) in
        let (r, e) = recover-Settles (fetch_secret web login name) s t (
          subst (λ p. ((a : Result Secret) × (p ≡ (ret a, t))) ⊎ ((x : Err) × (p ≡ (panic x, t))))
            (sym body) (read_secret-Settles (web.fetch s.requests req) t)) in
        (r, inl (h, e))
  ]

  abbrev pub category : Secret → Text
  category (auth_secret _ _) = codes "AUTH"
  category (rsa_secret _ _) = codes "SSH_RSA"
  category (token_secret _ _) = codes "TOKEN"

  category_inv :
      (a b : Secret)
      → ◌≡◌ {A = Outcome (Result Secret)} (ret (ok b)) (ret (ok a))
      → category b ≡ category a
  category_inv a b h = ap category (cc)

  secret_from_inv :
      (raw : Text) (base : Base) (s : Session) (a : Secret)
      → (secret_from web login raw base s).0 ≡ ret (ok a)
      → base.category ≡ category a
  unfolding secret_from
  secret_from_inv raw base s a h =
      if_inv (must (web.auth raw) >>= as_auth web login) _ h
        (λ e k.
          let (p, _, l) = must_then_inv (web.auth raw) (as_auth web login) s _ k in
          (text_eq_iff _ _).0 e ∙ category_inv a (auth_secret p.0 p.1) l)
        λ h2.
          if_inv (must (web.rsa raw) >>= as_rsa web login) _ h2
            (λ e k.
              let (p, _, l) = must_then_inv (web.rsa raw) (as_rsa web login) s _ k in
              (text_eq_iff _ _).0 e ∙ category_inv a (rsa_secret p.0 p.1) l)
            λ h3.
              if_inv (must (web.token_field raw) >>= as_token web login) _ h3
                (λ e k.
                  let (p, _, l) = must_then_inv (web.token_field raw) (as_token web login) s _ k in
                  (text_eq_iff _ _).0 e ∙ category_inv a (token_secret p.0 p.1) l)
                (λ h4. cc)

  checked_inv :
      (found : Option Base) (raw : Text) (s : Session) (a : Secret)
      → ((checked web login found >>= secret_from web login raw) s).0 ≡ ret (ok a)
      → (base : Base) × (found ≡ some base) × (base.category ≡ category a)
  checked_inv none raw s a h = cc
  checked_inv (some base) raw s a h = (base, refl, secret_from_inv raw base s a h)

  read_secret_inv :
      (answer : Result Text) (s : Session) (a : Secret)
      → (read_secret web login answer s).0 ≡ ret (ok a)
      → (out : Text) × (base : Base) × (answer ≡ ok out)
        × (parse_response (web.base out) ≡ ok (some base))
        × (base.category ≡ category a)
  unfolding read_secret
  read_secret_inv answer s a h =
      let (out, p, h1) = must_then_inv answer _ s _ h in
      let (found, q, h2) = must_then_inv (parse_response (web.base out)) _ s _ h1 in
      let (raw, _, h3) = must_then_inv (web.raw out) _ s _ h2 in
      let (base, e, k) = checked_inv found raw s a h3 in (out, base, p, q ∙ ap ok e, k)

  -- A secret that GetSecret returns is of the kind that the server's answer names: the body was
  -- read, parseResponse accepted it with data in it, and the category in the data is the one that
  -- stands for the secret's type.
  pub get_secret-category :
      (name : Text) (s : Session) (a : Secret)
      → (get_secret web login name s).0 ≡ ret (ok a)
      → (out : Text) × (base : Base) × (web.fetch s.requests
            (request_to web login get (codes "secret/" ++ name) [])
          ≡ ok out)
        × (parse_response (web.base out) ≡ ok (some base))
        × (base.category ≡ category a)
  unfolding get_secret fetch_secret do_request
  get_secret-category name s a h = elim (Option-cases (web.new_request (secret_request name).url)) [
    | inr (e, q) ↦ absurd (
        let k =
          recovered_inv (fetch_secret web login name s).0 (fetch_secret web login name s).1 a h in
        let p : panic nil_dereference ≡ ret (ok a) =
          ap (λ x. x.0) (sym (not_made name s e q)) ∙ k in
        cc)
    | inl q ↦ read_secret_inv (web.fetch s.requests (secret_request name)) _ a (
        ap (λ x. x.0)
          (sym (
            bind_returns (do_request web login (secret_request name)) (read_secret web login) s _ _
              (fetched name s q)))
        ∙ recovered_inv (fetch_secret web login name s).0 (fetch_secret web login name s).1 a h)
  ]
