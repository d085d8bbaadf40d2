-- ===== src/Deploy/Sources.antt =====
-- Where an image comes from and with which credentials: ExternalImageSource of
-- src/domain/service.rs, the registry hosts of src/domain/registry.rs, src/oci/credentials.rs, and
-- `resolve_external_auth` of src/deploy/coordinator.rs.
use denia.Prelude.{
  ℕ, ◌+◌, Bool, true, false, not, ◌&&◌, ◌||◌, List, [], ◌∷◌, ◌++◌, ◌==◌, leb, if◌then◌else◌, any,
  all, Option, none, some, Outcome, ok, err,
}
use denia.Ingress.Routes.{Text, text_eq, between, is_blank, is_whitespace, to_ascii_lowercase, dot}
use denia.Deploy.Step.{
  DeployError, unsupported_service_source, registry_not_found, registry_auth_resolution, Step, pure,
  fail, ok_or, ◌>>=◌, call,
}
use denia.Deploy.Repo.{
  ExternalImageSource, RegistryAuthKind, Registry, RegistryAuth, IpAddr, v4, v6, Env,
}

pub data DomainError : Type 0 where
  registry_source_ambiguous registry_source_missing : DomainError
  invalid_registry_endpoint : Text → DomainError

-- The part before the first character `c`, and the part after it.
abbrev pub consed : ℕ → Option (Text × Text) → Option (Text × Text)
consed d none = none
consed d (some (before, rest)) = some (d ∷ before, rest)

-- `split_once`.
unfoldable pub split_once : ℕ → Text → Option (Text × Text)
split_once c [] = none
split_once c (d ∷ ds) =
    let rest = split_once c ds in if d == c then some ([], ds) else consed d rest

abbrev pub before_or_all : Text → Option (Text × Text) → Text
before_or_all text none = text
before_or_all text (some (before, rest)) = before

-- `split(c).next()`.
unfoldable pub first_part : ℕ → Text → Text
unfolding split_once
first_part c text = before_or_all text (split_once c text)

-- `trim_start`, and `trim` from both ends.
unfoldable pub trim_start : Text → Text
trim_start [] = []
trim_start (c ∷ cs) = let rest = trim_start cs in if is_whitespace c then rest else c ∷ cs

abbrev pub is_empty : Text → Bool
is_empty [] = true
is_empty (c ∷ cs) = false

-- `trim_end_matches` of the characters for which `p` holds.
unfoldable pub trim_end : (ℕ → Bool) → Text → Text
trim_end p [] = []
trim_end p (c ∷ cs) = let rest = trim_end p cs in if p c && is_empty rest then [] else c ∷ rest

unfoldable pub starts_with : Text → Text → Bool
starts_with [] text = true
starts_with (c ∷ cs) [] = false
starts_with (c ∷ cs) (d ∷ ds) = let rest = starts_with cs ds in c == d && rest

unfoldable pub ends_with : Text → Text → Bool
unfolding starts_with
ends_with suffix [] = starts_with suffix []
ends_with suffix (c ∷ cs) = let rest = ends_with suffix cs in text_eq suffix (c ∷ cs) || rest

-- The text `localhost`.
abbrev pub localhost : Text
localhost = 108 ∷ 111 ∷ 99 ∷ 97 ∷ 108 ∷ 104 ∷ 111 ∷ 115 ∷ 116 ∷ []

abbrev pub colon_suffix : Text → Bool
colon_suffix [] = true
colon_suffix (c ∷ cs) = c == 58

abbrev pub bracketed : Option (Text × Text) → Option Text
bracketed none = none
bracketed (some (host, suffix)) = if colon_suffix suffix then some host else none

unfoldable pub count_of : ℕ → Text → ℕ
count_of c [] = 0
count_of c (d ∷ ds) = let rest = count_of c ds in if d == c then rest + 1 else rest

abbrev pub unbracketed : Text → Option Text
unbracketed authority =
    if count_of 58 authority == 1 then some (first_part 58 authority) else some authority

unfoldable pub authority_host : Text → Option Text
unfolding split_once first_part count_of
authority_host [] = some []
authority_host (c ∷ rest) =
    if c == 91 then bracketed (split_once 93 rest) else unbracketed (c ∷ rest)

abbrev pub names_host : Text → Bool
names_host part =
    text_eq (to_ascii_lowercase part) localhost
    || (ends_with (dot ∷ localhost) part
        || (any (λ c. c == dot) part || (any (λ c. c == 58) part || starts_with (91 ∷ []) part)))

unfoldable pub explicit_registry_host : Text → Option Text
unfolding authority_host first_part starts_with ends_with
explicit_registry_host image =
    let part = first_part 47 image in if names_host part then authority_host part else none

-- Private, loopback, link local, broadcast and multicast addresses, and those that begin with 0.
abbrev pub is_blocked_ipv4 : ℕ → ℕ → ℕ → ℕ → Bool
is_blocked_ipv4 a b c d =
    (a == 10 || ((a == 172 && between 16 31 b) || (a == 192 && b == 168)))
    || (a == 127
        || ((a == 169 && b == 254)
            || ((a == 255 && (b == 255 && (c == 255 && d == 255)))
                || (between 224 239 a || a == 0))))

-- `::1`, `::`, multicast, and the prefixes fc00::/7 and fe80::/10.
abbrev pub is_blocked_ipv6 : ℕ → List ℕ → Bool
is_blocked_ipv6 first rest =
    (first == 0 && text_eq rest (0 ∷ 0 ∷ 0 ∷ 0 ∷ 0 ∷ 0 ∷ 1 ∷ []))
    || ((first == 0 && text_eq rest (0 ∷ 0 ∷ 0 ∷ 0 ∷ 0 ∷ 0 ∷ 0 ∷ []))
        || (leb 65280 first || (between 64512 65023 first || between 65152 65215 first)))

abbrev pub is_blocked_registry_ip : Option IpAddr → Bool
is_blocked_registry_ip none = false
is_blocked_registry_ip (some (v4 a b c d)) = is_blocked_ipv4 a b c d
is_blocked_registry_ip (some (v6 a b c d e f g h)) =
    is_blocked_ipv6 a (b ∷ c ∷ d ∷ e ∷ f ∷ g ∷ h ∷ [])

abbrev pub is_alphanumeric : ℕ → Bool
is_alphanumeric c = between 48 57 c || (between 65 90 c || between 97 122 c)

abbrev pub is_host_char : ℕ → Bool
is_host_char c = is_alphanumeric c || (c == dot || c == 45)

unfoldable pub validate_registry_host :
    (Text → Option IpAddr) → Text → Outcome (Unit {0}) DomainError
unfolding trim_end ends_with
validate_registry_host parse_ip given =
    let host = trim_end (λ c. c == dot) given in
    if is_empty host
      || (text_eq (to_ascii_lowercase host) localhost
          || ends_with (dot ∷ localhost) (to_ascii_lowercase host))
    then err (invalid_registry_endpoint host)
    else if is_blocked_registry_ip (parse_ip host)
    then err (invalid_registry_endpoint host)
    else if not (all is_host_char host)
    then err (invalid_registry_endpoint host)
    else ok tt

abbrev pub validated_host : (Text → Option IpAddr) → Option Text → Outcome (Unit {0}) DomainError
validated_host parse_ip none = ok tt
validated_host parse_ip (some host) = validate_registry_host parse_ip host

unfoldable pub validate_legacy_image_registry_host :
    (Text → Option IpAddr) → Text → Outcome (Unit {0}) DomainError
unfolding explicit_registry_host validate_registry_host trim_start trim_end
validate_legacy_image_registry_host parse_ip image =
    validated_host parse_ip (explicit_registry_host (trim_end is_whitespace (trim_start image)))

abbrev pub is_some : {A : Type 0} → Option A → Bool
is_some none = false
is_some (some a) = true

-- `ExternalImageSource::validate`.
unfoldable pub validate :
    (Text → Option IpAddr) → ExternalImageSource → Outcome (Unit {0}) DomainError
unfolding validate_legacy_image_registry_host
validate parse_ip source =
    let registry = is_some source.registry_id && is_some source.image_ref in
    let partial_registry =
      (is_some source.registry_id || is_some source.image_ref) && not registry in
    let legacy = not (is_blank source.image) in
    if registry && legacy
    then err registry_source_ambiguous
    else if partial_registry
    then err registry_source_missing
    else if not registry && not legacy
    then err registry_source_missing
    else if legacy
    then validate_legacy_image_registry_host parse_ip source.image
    else ok tt

abbrev pub full_ref : Text → Text → Option ℕ → Option Text → Text × Bool
full_ref endpoint image (some id) (some image_ref) =
    (trim_end (λ c. c == 47) endpoint ++ 47 ∷ image_ref, true)
full_ref endpoint image (some id) none = (image, false)
full_ref endpoint image none image_ref = (image, false)

abbrev pub resolved :
    ExternalImageSource → Text → Outcome (Unit {0}) DomainError → Outcome (Text × Bool) DomainError
resolved source endpoint (err e) = err e
resolved source endpoint (ok _) =
    ok (full_ref endpoint source.image source.registry_id source.image_ref)

-- `ExternalImageSource::resolve_ref`.
unfoldable pub resolve_ref :
    (Text → Option IpAddr) → ExternalImageSource → Text → Outcome (Text × Bool) DomainError
unfolding validate trim_end
resolve_ref parse_ip source endpoint = resolved source endpoint (validate parse_ip source)

abbrev pub split_basic : Option (Text × Text) → Outcome RegistryAuth DeployError
split_basic none = err (registry_auth_resolution "basic credential must be 'user:password'")
split_basic (some (user, password)) = ok (RegistryAuth.basic user password)

abbrev pub with_payload :
    (Text → Outcome RegistryAuth DeployError) → Option Text → Outcome RegistryAuth DeployError
with_payload f none = err (registry_auth_resolution "registry credential is required")
with_payload f (some value) = f value

-- The users of the two token kinds: `AWS` and `oauth2accesstoken`.
abbrev pub aws_user : Text
aws_user = 65 ∷ 87 ∷ 83 ∷ []

abbrev pub gar_user : Text
gar_user =
    111 ∷ 97 ∷ 117 ∷ 116 ∷ 104 ∷ 50 ∷ 97 ∷ 99 ∷ 99 ∷ 101 ∷ 115 ∷ 115 ∷ 116 ∷ 111 ∷ 107 ∷ 101 ∷ 110
    ∷ []

unfoldable pub resolve_registry_auth :
    RegistryAuthKind → Option Text → Outcome RegistryAuth DeployError
unfolding split_once
resolve_registry_auth RegistryAuthKind.anonymous payload = ok RegistryAuth.anonymous
resolve_registry_auth RegistryAuthKind.basic payload =
    with_payload (λ value. split_basic (split_once 58 value)) payload
resolve_registry_auth RegistryAuthKind.token payload =
    with_payload (λ value. ok (RegistryAuth.bearer value)) payload
resolve_registry_auth RegistryAuthKind.ecr_token payload =
    with_payload (λ value. ok (RegistryAuth.basic aws_user value)) payload
resolve_registry_auth RegistryAuthKind.gar_token payload =
    with_payload (λ value. ok (RegistryAuth.basic gar_user value)) payload

-- `map_err(|_| DeployError::UnsupportedServiceSource)`.
abbrev pub unsupported : {W A : Type 0} → Outcome A DomainError → Step W A
unsupported (ok a) = pure a
unsupported (err e) = fail unsupported_service_source

abbrev pub lifted : {W A : Type 0} → Outcome A DeployError → Step W A
lifted (ok a) = pure a
lifted (err e) = fail e

module _ (env : Env) where
  abbrev pub decrypted : ℕ → Option ℕ → Step env.World (Option Text)
  decrypted project_id none = pure none
  decrypted project_id (some secret_ref) =
      call (env.decrypt project_id secret_ref) >>= λ value. pure (some value)

  abbrev pub from_registry : ExternalImageSource → Registry → Step env.World (Text × RegistryAuth)
  from_registry source registry = do
    payload ← decrypted registry.project_id registry.credential_ref
    auth ← lifted (resolve_registry_auth registry.auth_kind payload)
    (image, used) ← unsupported (resolve_ref env.parse_ip source registry.endpoint)
    pure (image, auth)

  abbrev pub without_registry : ExternalImageSource → Step env.World (Text × RegistryAuth)
  without_registry source = do
    (image, used) ← unsupported (resolve_ref env.parse_ip source [])
    pure (image, RegistryAuth.anonymous)

  abbrev pub from_registry_id :
      ExternalImageSource → Option ℕ → Step env.World (Text × RegistryAuth)
  from_registry_id source none = without_registry source
  from_registry_id source (some registry_id) = do
    found ← call (env.registry registry_id)
    registry ← ok_or registry_not_found found
    from_registry source registry

  abbrev pub without_credential :
      ExternalImageSource → Option ℕ → Step env.World (Text × RegistryAuth)
  without_credential source (some credential) = fail unsupported_service_source
  without_credential source none = from_registry_id source source.registry_id

  unfoldable pub resolve_external_auth : ExternalImageSource → Step env.World (Text × RegistryAuth)
  unfolding ◌>>=◌ resolve_ref resolve_registry_auth
  resolve_external_auth source = without_credential source source.credential
