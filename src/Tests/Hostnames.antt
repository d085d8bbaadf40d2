-- ===== src/Tests/Hostnames.antt =====
-- Tests of the host names that may be verified.
use denia.Prelude.{◌≡◌, refl, ◌∷◌, [], none, ok, err, arith}
use denia.Ingress.Routes.{Text, is_whitespace, validate_domain}
use denia.Verification.{not_fqdn, invalid_character, validate_hostname}
use denia.Verification.Routable.{validate_hostname-routable}

-- ` a.b `, `a` and `A.b`.
abbrev spaced : Text
spaced = 32 ∷ 97 ∷ 46 ∷ 98 ∷ 32 ∷ []

abbrev trimmed : Text
trimmed = 97 ∷ 46 ∷ 98 ∷ []

spaced_valid : validate_hostname (λ host. none) spaced ≡ ok trimmed
unfolding validate_hostname is_whitespace
spaced_valid = refl

one_label : validate_hostname (λ host. none) (97 ∷ []) ≡ err not_fqdn
unfolding validate_hostname is_whitespace
one_label = refl

upper_case : validate_hostname (λ host. none) (65 ∷ 46 ∷ 98 ∷ []) ≡ err invalid_character
unfolding validate_hostname is_whitespace
upper_case = refl

validate_hostname-routable_example : validate_domain trimmed ≡ ok trimmed
validate_hostname-routable_example =
    validate_hostname-routable (λ host. none) spaced trimmed spaced_valid (ground arith)
