-- ===== src/Deploy/Credentials.antt =====
-- What the resolution of an image and its credentials answers.
use denia.Prelude.{
  ℕ, ◌≡◌, refl, ap, subst, ◌∙◌, Bool, true, false, not, [], ◌∷◌, ◌++◌, ◌==◌, if◌then◌else◌, any,
  Option, none, some, Outcome, ok, err, arith,
}
use denia.Ingress.Routes.{Text, is_blank}
use denia.Deploy.Step.{
  DeployError, registry_not_found, Store, ok_or, ◌>>=◌, call, answered, IfOk, IfOk-after,
}
use denia.Deploy.Repo.{ExternalImageSource, RegistryAuthKind, Registry, RegistryAuth, Env}
use denia.Deploy.Sources.{
  DomainError, registry_source_missing, split_once, trim_end, validate,
  validate_legacy_image_registry_host, full_ref, resolved, resolve_ref, split_basic,
  resolve_registry_auth, unsupported, lifted, decrypted, from_registry, without_registry,
  from_registry_id, resolve_external_auth,
}

split_once-append :
    (c : ℕ) (before rest : Text)
    → any (λ d. d == c) before ≡ false
    → split_once c (before ++ c ∷ rest) ≡ some (before, rest)
unfolding split_once
split_once-append c [] rest h = ground arith
split_once-append c (d ∷ ds) rest h = ground (arith, split_once-append c ds rest)

-- A stored basic credential gives back the user and the password that it was put together from
-- with a colon, for any user without a colon; the password may have colons.
pub basic_credential_splits :
    (user password : Text)
    → any (λ c. c == 58) user ≡ false
    → resolve_registry_auth RegistryAuthKind.basic (some (user ++ 58 ∷ password))
      ≡ ok (RegistryAuth.basic user password)
unfolding resolve_registry_auth
basic_credential_splits user password h = rw (split_once-append 58 user password h) refl

-- Only a registry of the anonymous kind resolves to no credentials.
abbrev IsKept : RegistryAuthKind → Outcome RegistryAuth DeployError → Type 0
IsKept kind (ok auth) = auth ≡ RegistryAuth.anonymous → kind ≡ RegistryAuthKind.anonymous
IsKept kind (err e) = Unit {0}

split_basic-IsKept : (o : Option (Text × Text)) → IsKept RegistryAuthKind.basic (split_basic o)
split_basic-IsKept none = tt
split_basic-IsKept (some (user, password)) = λ e. cc

resolve_registry_auth-IsKept :
    (kind : RegistryAuthKind) (payload : Option Text)
    → IsKept kind (resolve_registry_auth kind payload)
unfolding resolve_registry_auth
resolve_registry_auth-IsKept RegistryAuthKind.anonymous payload = λ e. refl
resolve_registry_auth-IsKept RegistryAuthKind.basic none = tt
resolve_registry_auth-IsKept RegistryAuthKind.basic (some value) =
    split_basic-IsKept (split_once 58 value)
resolve_registry_auth-IsKept RegistryAuthKind.token none = tt
resolve_registry_auth-IsKept RegistryAuthKind.token (some value) = λ e. cc
resolve_registry_auth-IsKept RegistryAuthKind.ecr_token none = tt
resolve_registry_auth-IsKept RegistryAuthKind.ecr_token (some value) = λ e. cc
resolve_registry_auth-IsKept RegistryAuthKind.gar_token none = tt
resolve_registry_auth-IsKept RegistryAuthKind.gar_token (some value) = λ e. cc

resolved-ok :
    (source : ExternalImageSource) (endpoint : Text) (o : Outcome (Unit {0}) DomainError)
    (x : Text × Bool)
    → resolved source endpoint o ≡ ok x
    → (o ≡ ok tt) × (x ≡ full_ref endpoint source.image source.registry_id source.image_ref)
resolved-ok source endpoint (err e) x h = absurd (ground arith)
resolved-ok source endpoint (ok u) x h = (refl, cc)

legacy_checked :
    (legacy : Bool) (o : Outcome (Unit {0}) DomainError)
    → (if not legacy then err registry_source_missing else if legacy then o else ok tt) ≡ ok tt
    → o ≡ ok tt
legacy_checked true o h = h
legacy_checked false o h = absurd (ground arith)

abbrev source_of : Text → Option ℕ → Option ℕ → Option Text → ExternalImageSource
source_of image credential registry_id image_ref = record {
  image = image;
  credential = credential;
  registry_id = registry_id;
  image_ref = image_ref;
}

module _ (env : Env) where
  -- The image and the credentials that a source stands for, over the registry that its id finds.
  abbrev pub StandsFor : ExternalImageSource → Option ℕ → env.World → Text × RegistryAuth → Type 0
  StandsFor source none w (image, auth) =
      (image ≡ source.image)
      × (auth ≡ RegistryAuth.anonymous)
      × (validate_legacy_image_registry_host env.parse_ip source.image ≡ ok tt)
  StandsFor source (some registry_id) w (image, auth) =
      (registry : Registry) × ((env.registry registry_id w).0 ≡ ok (some registry))
      × (image_ref : Text) × (source.image_ref ≡ some image_ref)
      × (image ≡ trim_end (λ c. c == 47) registry.endpoint ++ 47 ∷ image_ref)
      × (auth ≡ RegistryAuth.anonymous → registry.auth_kind ≡ RegistryAuthKind.anonymous)

  answered-Answers :
      {A : Type 0} (s : Store env.World) (o : Outcome A DeployError × env.World)
      → IfOk (λ a s'. o.0 ≡ ok a) (answered s o)
  answered-Answers s (ok a, w) = refl
  answered-Answers s (err e, w) = tt

  ok_or-Answers :
      {A : Type 0} (s : Store env.World) (e : DeployError) (o : Option A)
      → IfOk (λ a s'. o ≡ some a) (ok_or e o s)
  ok_or-Answers s e none = tt
  ok_or-Answers s e (some a) = refl

  lifted-Answers :
      {A : Type 0} (s : Store env.World) (o : Outcome A DeployError)
      → IfOk (λ a s'. o ≡ ok a) (lifted o s)
  lifted-Answers s (ok a) = refl
  lifted-Answers s (err e) = tt

  unsupported-Answers :
      {A : Type 0} (s : Store env.World) (o : Outcome A DomainError)
      → IfOk (λ a s'. o ≡ ok a) (unsupported o s)
  unsupported-Answers s (ok a) = refl
  unsupported-Answers s (err e) = tt

  without_registry-StandsFor :
      (image : Text) (credential : Option ℕ) (image_ref : Option Text) (s : Store env.World)
      → IfOk
          (λ a s'. StandsFor (source_of image credential none image_ref) none s.world a)
          (without_registry env (source_of image credential none image_ref) s)
  unfolding ◌>>=◌ resolve_ref validate
  without_registry-StandsFor image credential (some image_ref) s = tt
  without_registry-StandsFor image credential none s =
      IfOk-after (λ (got, used) s'. o ≡ ok (got, used)) _ _ (unsupported o s)
        (unsupported-Answers s o)
        (λ (got, used) s' e.
          let (valid, given) = resolved-ok source [] (validate env.parse_ip source) (got, used) e in
          (ap (λ p. p.0) given, refl, legacy_checked (not (is_blank image)) _ valid))
    where
      source : ExternalImageSource
      source = source_of image credential none none

      o : Outcome (Text × Bool) DomainError
      o = resolve_ref env.parse_ip source []

  IfOk-weaken :
      {A : Type 0} (R Q : A → Store env.World → Type 0)
      (o : Outcome A DeployError × Store env.World)
      → IfOk R o
      → ((a : A) (s' : Store env.World) → R a s' → Q a s')
      → IfOk Q o
  IfOk-weaken R Q (ok a, s') h k = k a s' h
  IfOk-weaken R Q (err e, s') h k = tt

  anything : {A : Type 0} (o : Outcome A DeployError × Store env.World) → IfOk (λ a s'. Unit {0}) o
  anything (ok a, s) = tt
  anything (err e, s) = tt

  -- What a registry and the image below it stand for.
  abbrev OfRegistry : Registry → Option Text → Text × RegistryAuth → Type 0
  OfRegistry registry given (image, auth) =
      (image_ref : Text) × (given ≡ some image_ref)
      × (image ≡ trim_end (λ c. c == 47) registry.endpoint ++ 47 ∷ image_ref)
      × (auth ≡ RegistryAuth.anonymous → registry.auth_kind ≡ RegistryAuthKind.anonymous)

  resolve_ref-OfRegistry :
      (registry : Registry) (image : Text) (credential : Option ℕ) (id : ℕ)
      (image_ref : Option Text) (auth : RegistryAuth) (got : Text) (used : Bool)
      → (auth ≡ RegistryAuth.anonymous → registry.auth_kind ≡ RegistryAuthKind.anonymous)
      → resolve_ref env.parse_ip (source_of image credential (some id) image_ref) registry.endpoint
        ≡ ok (got, used)
      → OfRegistry registry image_ref (got, auth)
  unfolding resolve_ref validate
  resolve_ref-OfRegistry registry image credential id none auth got used kept h =
      absurd (ground arith)
  resolve_ref-OfRegistry registry image credential id (some image_ref) auth got used kept h =
      let source = source_of image credential (some id) (some image_ref) in
      let (valid, given) =
        resolved-ok source registry.endpoint (validate env.parse_ip source) (got, used) h in
      (image_ref, refl, ap (λ p. p.0) given, kept)

  from_registry-OfRegistry :
      (registry : Registry) (image : Text) (credential : Option ℕ) (id : ℕ)
      (image_ref : Option Text) (s : Store env.World)
      → IfOk
          (λ a s'. OfRegistry registry image_ref a)
          (from_registry env (source_of image credential (some id) image_ref) registry s)
  unfolding ◌>>=◌
  from_registry-OfRegistry registry image credential id image_ref s =
      IfOk-after (λ payload s'. Unit {0}) _ _
        (decrypted env registry.project_id registry.credential_ref s) (anything _)
        (λ payload s1 _.
          let resolves = resolve_registry_auth registry.auth_kind payload in
          IfOk-after (λ auth s'. resolves ≡ ok auth) _ _ (lifted resolves s1)
            (lifted-Answers s1 resolves)
            (λ auth s2 found.
              IfOk-after (λ (got, used) s'. ref ≡ ok (got, used)) _ _ (unsupported ref s2)
                (unsupported-Answers s2 ref)
                (λ (got, used) s3 e.
                  resolve_ref-OfRegistry registry image credential id image_ref auth got used
                    (subst (IsKept registry.auth_kind) found
                      (resolve_registry_auth-IsKept registry.auth_kind payload))
                    e)))
    where
      ref : Outcome (Text × Bool) DomainError
      ref =
          resolve_ref env.parse_ip (source_of image credential (some id) image_ref)
            registry.endpoint

  from_registry_id-StandsFor :
      (image : Text) (credential registry_id : Option ℕ) (image_ref : Option Text)
      (s : Store env.World)
      → IfOk
          (λ a s'.
            StandsFor (source_of image credential registry_id image_ref) registry_id s.world a)
          (from_registry_id env (source_of image credential registry_id image_ref) registry_id s)
  unfolding ◌>>=◌
  from_registry_id-StandsFor image credential none image_ref s =
      without_registry-StandsFor image credential image_ref s
  from_registry_id-StandsFor image credential (some id) image_ref s =
      IfOk-after (λ found s'. (env.registry id s.world).0 ≡ ok found) _ _ (call (env.registry id) s)
        (answered-Answers s (env.registry id s.world))
        (λ found s1 read.
          IfOk-after (λ registry s'. found ≡ some registry) _ _ (ok_or registry_not_found found s1)
            (ok_or-Answers s1 registry_not_found found)
            (λ registry s2 e.
              IfOk-weaken (λ a s'. OfRegistry registry image_ref a) _
                (from_registry env (source_of image credential (some id) image_ref) registry s2)
                (from_registry-OfRegistry registry image credential id image_ref s2)
                (λ a s' (ref, given, joined, kept).
                  (registry, read ∙ ap (λ r. ok r) e, ref, given, joined, kept))))

  -- A source that resolves has no credential of its own. Without a registry its image resolves to
  -- itself, anonymously, and the host it names is validated; with one, it resolves to its image reference
  -- below the endpoint of the registry that its id finds, and without credentials only if that
  -- registry is anonymous.
  pub resolve_external_auth-StandsFor :
      (source : ExternalImageSource) (s : Store env.World)
      → IfOk
          (λ a s'. (source.credential ≡ none) × StandsFor source source.registry_id s.world a)
          (resolve_external_auth env source s)
  unfolding resolve_external_auth
  resolve_external_auth-StandsFor source s =
      go source.image source.credential source.registry_id source.image_ref
    where
      go :
          (image : Text) (credential registry_id : Option ℕ) (image_ref : Option Text)
          → IfOk
              (λ a s'.
                (credential ≡ none)
                × StandsFor
                    (source_of image credential registry_id image_ref)
                    registry_id
                    s.world
                    a)
              (resolve_external_auth env (source_of image credential registry_id image_ref) s)
      go image (some credential) registry_id image_ref = tt
      go image none registry_id image_ref =
          IfOk-weaken
            (λ a s'. StandsFor (source_of image none registry_id image_ref) registry_id s.world a) _
            (from_registry_id env (source_of image none registry_id image_ref) registry_id s)
            (from_registry_id-StandsFor image none registry_id image_ref s) (λ a s' h. (refl, h))
